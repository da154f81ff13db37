-- ===== src/Requisition/Defs.antt =====
-- The inputs of backend/app/services/purchase_requisition_service.py, its transition map, its guards
-- and its conditional UPDATEs.
use manufacturing_erp_lite.Prelude.{
  ℕ, suc, Bool, true, false, not, ◌&&◌, ◌||◌, Option, none, some, List, [], ◌∷◌, if◌then◌else◌,
  ◌==◌, nat_eq,
}
use manufacturing_erp_lite.Prelude.Decimal.{Decimal, pos, ◌+ℤ◌, ltb_ℤ, leb_ℤ, eqb_ℤ}
use manufacturing_erp_lite.Prelude.Assoc.{Assoc, get, update, update_where}
use mathlib.Core.Option
use manufacturing_erp_lite.Enums.{
  PrStatus, is_pr_status, is_active, is_active_dept, is_active_user, is_admin,
}
use manufacturing_erp_lite.Errors
use manufacturing_erp_lite.Errors.{ErrorCode, Result, ok, ◌>>=◌, ◌>>◌, raise_if, or_raise}
use manufacturing_erp_lite.Money.{line_amount, sum_amounts}
use manufacturing_erp_lite.Store.{Db, CurrentUser, PurchaseRequisition, PurchaseRequisitionItem}

-- PurchaseRequisitionItemCreate and PurchaseRequisitionCreate; `apply_date` is the given date or
-- today's.
pub record PrItemIn : Type 0 where
  pub material_id : ℕ
  pub requested_quantity : Decimal
  pub estimated_unit_price : Decimal
  pub required_date : Option ℕ

pub record PrIn : Type 0 where
  pub apply_date : ℕ
  pub items : List PrItemIn

-- `target in _TRANSITIONS.get(status, frozenset())`
abbrev pub is_pr_transition : PrStatus → PrStatus → Bool
is_pr_transition PrStatus.draft PrStatus.pending = true
is_pr_transition PrStatus.draft PrStatus.cancelled = true
is_pr_transition PrStatus.pending PrStatus.approved = true
is_pr_transition PrStatus.pending PrStatus.rejected = true
is_pr_transition PrStatus.rejected PrStatus.draft = true
is_pr_transition PrStatus.approved PrStatus.cancelled = true
is_pr_transition _ _ = false

unfoldable pub load_pr : Db → ℕ → Result PurchaseRequisition
load_pr db pr_id = or_raise (get pr_id db.requisitions) Errors.pr_not_found

unfoldable pub assert_pr_transition : PurchaseRequisition → PrStatus → Result (Unit {0})
assert_pr_transition pr target =
    raise_if (not (is_pr_transition pr.status target)) Errors.pr_invalid_status_transition

unfoldable pub assert_pr_material_active : Db → ℕ → Result (Unit {0})
assert_pr_material_active db material_id = do
  status ← or_raise (get material_id db.materials) Errors.pr_item_not_found
  raise_if (not (is_active status)) Errors.master_data_disabled

abbrev can_manage : PurchaseRequisition → CurrentUser → Bool
can_manage pr user = (pr.applicant_id == user.id) || is_admin user.role_code

unfoldable pub assert_self_or_admin : PurchaseRequisition → CurrentUser → Result (Unit {0})
assert_self_or_admin pr user = raise_if (not (can_manage pr user)) Errors.pr_not_applicant

-- A row of department_managers.
abbrev pub is_manager : ℕ → ℕ → List (ℕ × ℕ) → Bool
is_manager dept_id user_id [] = false
is_manager dept_id user_id ((d, u) ∷ rows) =
    ((d == dept_id) && (u == user_id)) || is_manager dept_id user_id rows

-- Whether the approval overrides, where the user may approve at all.
unfoldable pub assert_approver : Db → PurchaseRequisition → CurrentUser → Result Bool
assert_approver db pr user = do
  user_status ← or_raise (get user.id db.users) Errors.user_disabled
  raise_if (not (is_active_user user_status)) Errors.user_disabled
  dept_status ← or_raise (get pr.department_id db.departments) Errors.master_data_disabled
  raise_if (not (is_active_dept dept_status)) Errors.master_data_disabled
  raise_if
      (not (is_admin user.role_code)
        && not (is_manager pr.department_id user.id db.department_managers))
      Errors.pr_not_approver
  ok (is_admin user.role_code)

unfoldable pub assert_pr_version : PurchaseRequisition → ℕ → Result (Unit {0})
assert_pr_version pr version = raise_if (not (pr.version == version)) Errors.pr_version_conflict

-- The error after a conditional UPDATE that changed no row, from a locking read.
unfoldable pub concurrent_pr_error : Db → ℕ → PrStatus → ErrorCode
concurrent_pr_error db pr_id expected = elim (get pr_id db.requisitions) [
  | none ↦ Errors.internal_error
  | some pr ↦
      if is_pr_status pr.status expected
      then Errors.pr_version_conflict
      else Errors.pr_already_processed
]

-- `dept.id`
unfoldable pub assert_user_department_active : Db → CurrentUser → Result ℕ
assert_user_department_active db user = do
  dept_id ← or_raise user.department_id Errors.validation_error
  status ← or_raise (get dept_id db.departments) Errors.validation_error
  raise_if (not (is_active_dept status)) Errors.validation_error
  ok dept_id

-- The items of one requisition, each with its id.
unfoldable pub pr_items : ℕ → Assoc ℕ PurchaseRequisitionItem → List (ℕ × PurchaseRequisitionItem)
pr_items pr_id [] = []
pr_items pr_id ((i, item) ∷ t) =
    let rest = pr_items pr_id t in if item.pr_id == pr_id then (i, item) ∷ rest else rest

unfoldable pub assert_items_active : Db → List (ℕ × PurchaseRequisitionItem) → Result (Unit {0})
assert_items_active db [] = ok tt
assert_items_active db ((i, item) ∷ items) = do
  assert_pr_material_active db item.material_id
  assert_items_active db items

-- The flush of `item.estimated_amount`, which writes a changed attribute only.
unfoldable pub set_estimated : ℕ → PurchaseRequisitionItem → Decimal → Db → Db
set_estimated id item amount db = if eqb_ℤ item.estimated_amount amount then db else record db {
  requisition_items =
      update (λ row. record row { estimated_amount = amount }) id db.requisition_items;
}

-- The loop of `_recompute` over the session's items, with `total`.
unfoldable pub recompute_items :
    List (ℕ × PurchaseRequisitionItem) → Decimal → Db → Result (Decimal × Db)
unfolding set_estimated
recompute_items [] total db = ok (total, db)
recompute_items ((i, item) ∷ items) total db = do
  raise_if (leb_ℤ item.requested_quantity (pos 0)) Errors.validation_error
  raise_if (ltb_ℤ item.estimated_unit_price (pos 0)) Errors.validation_error
  let amount = line_amount item.requested_quantity item.estimated_unit_price
  recompute_items items (total +ℤ amount) (set_estimated i item amount db)

-- `_recompute`: the requisition's total, and the database with the items' amounts.
unfoldable pub recompute : List (ℕ × PurchaseRequisitionItem) → Db → Result (Decimal × Db)
recompute items db = do r ← recompute_items items (pos 0) db; ok (sum_amounts (r.0 ∷ []), r.1)

-- UPDATE ... WHERE id = :id and a condition on the row, which also counts the version up.
unfoldable pub claim_pr :
    (PurchaseRequisition → Bool) → (PurchaseRequisition → PurchaseRequisition) → ℕ → Db → Option Db
claim_pr expected change pr_id db =
    Option.map (λ t. record db { requisitions = t })
      (update_where expected (λ row. record (change row) { version = suc row.version }) pr_id
        db.requisitions)

-- The attributes that are assigned to the session's copy, `pr`, and written by the flush.
unfoldable pub flush_pr : PrStatus → ℕ → PurchaseRequisition → Db → Db
flush_pr target pr_id pr db = record db {
  requisitions =
      update (λ row. record row { status = target; version = suc pr.version }) pr_id
        db.requisitions;
}
