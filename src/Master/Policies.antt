-- ===== src/Master/Policies.antt =====
-- backend/app/services/inventory_policy_service.py. The table's unique key uk_invpol is checked by
-- the INSERT, and its IntegrityError is answered with `duplicate_key`.
use manufacturing_erp_lite.Prelude.{
  ℕ, Bool, false, not, ◌&&◌, ◌||◌, Option, none, some, [], ◌∷◌, ◌==◌, nat_eq,
}
use manufacturing_erp_lite.Prelude.Decimal.{Decimal, ltb_ℤ}
use manufacturing_erp_lite.Prelude.Assoc.{Assoc, get, update}
use manufacturing_erp_lite.Enums.{is_active, AuditAction}
use manufacturing_erp_lite.Errors
use manufacturing_erp_lite.Errors.{Result, ok, err, ◌>>=◌, ◌>>◌, raise_if, or_raise}
use manufacturing_erp_lite.Store.{Db, next_id, InventoryPolicy}
use manufacturing_erp_lite.Audit.{write_audit}
use manufacturing_erp_lite.Query.{where_rows, order_by, ascending, paged, if_given}

-- InventoryPolicyUpdate; InventoryPolicyCreate has the attributes of the row.
pub record PolicyEdit : Type 0 where
  pub safety_stock : Option Decimal
  pub reorder_point : Option Decimal
  pub max_stock : Option Decimal

unfoldable pub get_policy : Db → ℕ → Result InventoryPolicy
get_policy db policy_id = or_raise (get policy_id db.policies) Errors.not_found

-- `a is not None and b is not None and a > b`
abbrev pub exceeds : Option Decimal → Option Decimal → Bool
exceeds (some a) (some b) = ltb_ℤ b a
exceeds _ _ = false

unfoldable pub validate_ranges :
    Option Decimal → Option Decimal → Option Decimal → Result (Unit {0})
validate_ranges safety_stock reorder_point max_stock = do
  raise_if (exceeds safety_stock reorder_point) Errors.validation_error
  raise_if (exceeds reorder_point max_stock) Errors.validation_error
  raise_if (exceeds safety_stock max_stock) Errors.validation_error

unfoldable pub validate_refs : Db → ℕ → ℕ → Result (Unit {0})
validate_refs db warehouse_id material_id = do
  material ← or_raise (get material_id db.materials) Errors.not_found
  raise_if (not (is_active material)) Errors.master_data_disabled
  warehouse ← or_raise (get warehouse_id db.warehouses) Errors.not_found
  raise_if (not (is_active warehouse)) Errors.master_data_disabled

-- Whether a row has the pair; no caller excludes a row.
unfoldable pub has_policy : ℕ → ℕ → Assoc ℕ InventoryPolicy → Bool
has_policy warehouse_id material_id [] = false
has_policy warehouse_id material_id ((i, row) ∷ t) =
    ((row.warehouse_id == warehouse_id) && (row.material_id == material_id))
    || has_policy warehouse_id material_id t

unfoldable pub check_duplicate : Db → ℕ → ℕ → Result (Unit {0})
unfolding has_policy
check_duplicate db warehouse_id material_id =
    raise_if (has_policy warehouse_id material_id db.policies) Errors.inventory_policy_duplicate

-- INSERT, under uk_invpol.
unfoldable pub insert_policy : InventoryPolicy → Db → Result Db
unfolding has_policy
insert_policy row db = do
  raise_if (has_policy row.warehouse_id row.material_id db.policies) Errors.duplicate_key
  ok (record db { last_id = next_id db; policies = (next_id db, row) ∷ db.policies })

unfoldable pub create_policy : InventoryPolicy → Db → Db → Result (ℕ × Db)
unfolding validate_ranges
create_policy data_in seen db = do
  validate_refs seen data_in.warehouse_id data_in.material_id
  validate_ranges (some data_in.safety_stock) data_in.reorder_point data_in.max_stock
  check_duplicate seen data_in.warehouse_id data_in.material_id
  added ← insert_policy data_in db
  ok (added.last_id, write_audit AuditAction.inventory_policy_change added.last_id added)

-- `data.x if data.x is not None else policy.x`
abbrev pub merged : Option Decimal → Option Decimal → Option Decimal
merged none old = old
merged (some new) old = some new

abbrev pub merged_safety : Option Decimal → Decimal → Decimal
merged_safety none old = old
merged_safety (some new) old = new

-- UPDATE of the attributes that are given.
abbrev pub edited_policy : PolicyEdit → InventoryPolicy → InventoryPolicy
edited_policy data_in row = record row {
  safety_stock = merged_safety data_in.safety_stock row.safety_stock;
  reorder_point = merged data_in.reorder_point row.reorder_point;
  max_stock = merged data_in.max_stock row.max_stock;
}

unfoldable pub update_policy : ℕ → PolicyEdit → Db → Db → Result Db
unfolding validate_ranges
update_policy policy_id data_in seen db = do
  policy ← get_policy seen policy_id
  validate_refs seen policy.warehouse_id policy.material_id
  validate_ranges (some (merged_safety data_in.safety_stock policy.safety_stock))
      (merged data_in.reorder_point policy.reorder_point)
      (merged data_in.max_stock policy.max_stock)
  ok (
      write_audit AuditAction.inventory_policy_change policy_id
        (record db { policies = update (edited_policy data_in) policy_id db.policies }))

unfoldable pub listed_policies : Db → Option ℕ → Option ℕ → Assoc ℕ InventoryPolicy
unfolding where_rows order_by
listed_policies db warehouse_id material_id = order_by ascending (
    where_rows
      (λ r.
        if_given (λ w x. w == x) warehouse_id (r.1).warehouse_id
        && if_given (λ m x. m == x) material_id (r.1).material_id)
      db.policies)

unfoldable pub list_policies : Db → ℕ → ℕ → Option ℕ → Option ℕ → Assoc ℕ InventoryPolicy × ℕ
unfolding listed_policies paged
list_policies db page page_size warehouse_id material_id =
    paged page page_size (listed_policies db warehouse_id material_id)
