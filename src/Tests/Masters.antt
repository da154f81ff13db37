-- ===== src/Tests/Masters.antt =====
-- Policies and switches on the database of the examples.
use manufacturing_erp_lite.Prelude.{ℕ, ◌≡◌, refl, false, none, some, ◌∷◌, ◌==◌, nat_eq, pair_eq}
use manufacturing_erp_lite.Prelude.Decimal.{pos}
use manufacturing_erp_lite.Prelude.Assoc.{get}
use manufacturing_erp_lite.Enums.{ActiveStatus, AuditAction}
use manufacturing_erp_lite.Errors.{ok, value_or}
use manufacturing_erp_lite.Store.{Db, InventoryBalance, InventoryPolicy}
use manufacturing_erp_lite.Inventory.{new_balance}
use manufacturing_erp_lite.Master.Policies.{PolicyEdit, create_policy, update_policy}
use manufacturing_erp_lite.Master.Ranges.{
  IsConsistent, create_policy-IsConsistent, update_policy-IsConsistent,
}
use manufacturing_erp_lite.Master.Warehouses.{disable_warehouse}
use manufacturing_erp_lite.Master.Materials.{disable_material, enable_material}
use manufacturing_erp_lite.Master.Switches.{disable_warehouse-no_stock, disable_material-enable}
use manufacturing_erp_lite.Tests.Steps.{steps}
use manufacturing_erp_lite.Tests.Data.{db0}
use manufacturing_erp_lite.Tests.Stock.{after_reversal}
use manufacturing_erp_lite.Tests.Requests.{row_at}

abbrev policy : InventoryPolicy
policy = record {
  warehouse_id = 9;
  material_id = 1;
  safety_stock = pos 100_000;
  reorder_point = some (pos 200_000);
  max_stock = none;
}

abbrev with_policy : ℕ × Db
with_policy = value_or (0, db0) (create_policy policy db0 db0)

with_policy_ok : create_policy policy db0 db0 ≡ ok with_policy
unfolding steps
with_policy_ok = refl

db0-IsConsistent : IsConsistent db0.policies
db0-IsConsistent = record { ranged = tt; unique = tt }

create_policy-IsConsistent_example : IsConsistent with_policy.1.policies
create_policy-IsConsistent_example =
    create_policy-IsConsistent policy db0 db0 db0-IsConsistent with_policy_ok

with_policy-IsConsistent : IsConsistent with_policy.1.policies
with_policy-IsConsistent = create_policy-IsConsistent policy db0 db0 db0-IsConsistent with_policy_ok

abbrev policy_edit : PolicyEdit
policy_edit = record { safety_stock = none; reorder_point = none; max_stock = some (pos 500_000) }

abbrev edited_db : Db
edited_db = value_or db0 (update_policy with_policy.0 policy_edit with_policy.1 with_policy.1)

edited_ok : update_policy with_policy.0 policy_edit with_policy.1 with_policy.1 ≡ ok edited_db
unfolding steps
edited_ok = refl

update_policy-IsConsistent_example : IsConsistent edited_db.policies
update_policy-IsConsistent_example =
    update_policy-IsConsistent with_policy.0 policy_edit with_policy.1 with_policy.1 refl
      with_policy-IsConsistent edited_ok

-- After the reversal the warehouse is empty.
abbrev closed : Db
closed = value_or db0 (disable_warehouse 9 after_reversal after_reversal)

closed_ok : disable_warehouse 9 after_reversal after_reversal ≡ ok closed
unfolding steps
closed_ok = refl

abbrev last_balance : InventoryBalance
last_balance = row_at new_balance (get (9, 1) closed.balances)

last_there : get (9, 1) closed.balances ≡ some last_balance
unfolding steps
last_there = refl

disable_warehouse-no_stock_example : last_balance.quantity ≡ pos 0
disable_warehouse-no_stock_example =
    disable_warehouse-no_stock 9 after_reversal after_reversal refl closed_ok (9, 1) last_balance
      last_there refl

abbrev without_material : Db
without_material = value_or db0 (disable_material 1 db0 db0)

abbrev with_material : Db
with_material = value_or db0 (enable_material 1 without_material without_material)

without_material_ok : disable_material 1 db0 db0 ≡ ok without_material
unfolding steps
without_material_ok = refl

with_material_ok : enable_material 1 without_material without_material ≡ ok with_material
unfolding steps
with_material_ok = refl

material_there : get 1 db0.materials ≡ some ActiveStatus.active
unfolding get
material_there = refl

disable_material-enable_example :
    (get 1 without_material.materials ≡ some ActiveStatus.disabled)
    × ((other : ℕ)
        → (other == 1) ≡ false
        → get other without_material.materials ≡ get other db0.materials)
    × (with_material.materials ≡ db0.materials)
    × (with_material.operation_logs
        ≡ record { action = AuditAction.material_enable; document_id = 1 }
          ∷ record { action = AuditAction.material_disable; document_id = 1 }
          ∷ db0.operation_logs)
disable_material-enable_example =
    disable_material-enable 1 db0 material_there without_material_ok with_material_ok
