-- ===== src/Requisition/Edit.antt =====
-- `update_pr` of backend/app/services/purchase_requisition_service.py. The statements of the flush
-- are SQLAlchemy's; `violates` tells whether they meet a unique key of the table on the way from the
-- first database to the second, an IntegrityError that the handler answers with `duplicate_key`.
use manufacturing_erp_lite.Prelude.{
  ℕ, suc, Bool, true, false, not, Option, none, some, List, [], ◌∷◌, ◌++◌, if◌then◌else◌, ◌==◌,
  is_in, nat_eq,
}
use manufacturing_erp_lite.Prelude.Decimal.{eqb_ℤ}
use manufacturing_erp_lite.Prelude.Assoc.{Assoc, get, set, update, erase}
use manufacturing_erp_lite.Enums.{PrStatus, is_pr_status, AuditAction}
use manufacturing_erp_lite.Errors
use manufacturing_erp_lite.Errors.{Result, ok, ◌>>=◌, ◌>>◌, raise_if, or_raise}
use manufacturing_erp_lite.Store.{column, Db, next_id, CurrentUser, PurchaseRequisitionItem}
use manufacturing_erp_lite.Audit.{write_audit}
use manufacturing_erp_lite.Requisition.Defs.{
  PrItemIn, load_pr, assert_self_or_admin, assert_pr_material_active, pr_items, recompute, claim_pr,
}
use manufacturing_erp_lite.Requisition.Create.{pr_item}
use manufacturing_erp_lite.Requisition.Approval.{is_at}

-- PurchaseRequisitionItemUpdate: with an id it updates a line, without one it appends a line.
pub record PrItemEdit : Type 0 where
  pub id : Option ℕ
  pub line : PrItemIn

-- PurchaseRequisitionUpdate.
pub record PrEdit : Type 0 where
  pub version : ℕ
  pub apply_date : Option ℕ
  pub items : List PrItemEdit

-- `pr.items` while it is synchronised: the loaded rows by their ids, the new ones, and `seen`.
pub record ItemSync : Type 0 where
  pub existing : Assoc ℕ PurchaseRequisitionItem
  pub added : List PurchaseRequisitionItem
  pub seen_ids : List ℕ

abbrev pub edited_line : ℕ → PrItemIn → PurchaseRequisitionItem → PurchaseRequisitionItem
edited_line line_no req item = record item {
  line_no = line_no;
  material_id = req.material_id;
  requested_quantity = req.requested_quantity;
  estimated_unit_price = req.estimated_unit_price;
  required_date = req.required_date;
}

-- The first loop of `_sync_items`.
unfoldable pub sync_items : Db → ℕ → ℕ → List PrItemEdit → ItemSync → Result ItemSync
sync_items seen pr_id line_no [] st = ok st
sync_items seen pr_id line_no (req ∷ items) st = elim req.id [
  | none ↦ do
    assert_pr_material_active seen (req.line).material_id
    sync_items seen pr_id (suc line_no) items
        (record st { added = st.added ++ (pr_item pr_id line_no req.line ∷ []) })
  | some i ↦ do
    item ← or_raise (get i st.existing) Errors.pr_item_not_found
    assert_pr_material_active seen (req.line).material_id
    sync_items seen pr_id (suc line_no) items (record st {
      existing = set i (edited_line line_no req.line item) st.existing;
      seen_ids = i ∷ st.seen_ids;
    })
]

-- UPDATE of the attributes that differ from the loaded ones, `old`.
abbrev is_same_date : Option ℕ → Option ℕ → Bool
is_same_date none none = true
is_same_date (some a) (some b) = a == b
is_same_date _ _ = false

abbrev pub write_changes :
    PurchaseRequisitionItem
    → PurchaseRequisitionItem
    → PurchaseRequisitionItem
    → PurchaseRequisitionItem
write_changes old item row = record row {
  line_no = column (item.line_no == old.line_no) row.line_no item.line_no;
  material_id = column (item.material_id == old.material_id) row.material_id item.material_id;
  requested_quantity =
      column (eqb_ℤ item.requested_quantity old.requested_quantity) row.requested_quantity
        item.requested_quantity;
  estimated_unit_price =
      column (eqb_ℤ item.estimated_unit_price old.estimated_unit_price) row.estimated_unit_price
        item.estimated_unit_price;
  required_date =
      column (is_same_date item.required_date old.required_date) row.required_date
        item.required_date;
}

-- The loaded rows: UPDATE of those that stay, DELETE of those that no line of the request names.
-- `loaded` and the edited rows stand in the same order.
unfoldable pub flush_existing :
    List ℕ
    → Assoc ℕ PurchaseRequisitionItem
    → Assoc ℕ PurchaseRequisitionItem
    → Assoc ℕ PurchaseRequisitionItem
    → Assoc ℕ PurchaseRequisitionItem
flush_existing seen_ids [] loaded t = t
flush_existing seen_ids ((i, item) ∷ items) [] t = t
flush_existing seen_ids ((i, item) ∷ items) ((_, old) ∷ loaded) t =
    flush_existing seen_ids items loaded
      (if is_in i seen_ids then update (write_changes old item) i t else erase i t)

-- INSERT of the new rows, which get their ids.
unfoldable pub flush_added :
    List PurchaseRequisitionItem → Db → List (ℕ × PurchaseRequisitionItem) × Db
flush_added [] db = ([], db)
flush_added (item ∷ items) db =
    let (rest, db') = flush_added items (record db {
      last_id = next_id db;
      requisition_items = (next_id db, item) ∷ db.requisition_items;
    }) in
    ((next_id db, item) ∷ rest, db')

-- `pr.items` without the rows that are removed.
unfoldable pub remaining :
    List ℕ → Assoc ℕ PurchaseRequisitionItem → Assoc ℕ PurchaseRequisitionItem
remaining seen_ids [] = []
remaining seen_ids ((i, item) ∷ items) =
    let rest = remaining seen_ids items in if is_in i seen_ids then (i, item) ∷ rest else rest

-- The flush of the rows, and `pr.items` with the ids.
unfoldable pub flush_items :
    Assoc ℕ PurchaseRequisitionItem → ItemSync → Db → List (ℕ × PurchaseRequisitionItem) × Db
unfolding flush_existing flush_added remaining
flush_items loaded synced db =
    let (rows, db') = flush_added synced.added (record db {
      requisition_items =
          flush_existing synced.seen_ids synced.existing loaded db.requisition_items;
    }) in
    (remaining synced.seen_ids synced.existing ++ rows, db')

abbrev pub given_or {ℓ} : {A : Type ℓ} → Option A → A → A
given_or none old = old
given_or (some new) old = new

-- `pr.version = data.version + 1`
unfoldable pub set_pr_version : ℕ → ℕ → Db → Db
set_pr_version pr_id version db = record db {
  requisitions = update (λ row. record row { version = suc version }) pr_id db.requisitions;
}

unfoldable pub update_pr : (Db → Db → Bool) → ℕ → PrEdit → CurrentUser → Db → Db → Result Db
unfolding pr_items flush_items set_pr_version
update_pr violates pr_id data_in user seen db = do
  pr ← load_pr seen pr_id
  assert_self_or_admin pr user
  raise_if (not (is_pr_status pr.status PrStatus.draft)) Errors.pr_not_editable
  raise_if (not (pr.version == data_in.version)) Errors.conflict
  let loaded = pr_items pr_id seen.requisition_items
  synced ←
      sync_items seen pr_id 1 data_in.items
        (record { existing = loaded; added = []; seen_ids = [] })
  let flushed = flush_items loaded synced db
  totalled ← recompute flushed.0 flushed.1
  raise_if (violates db totalled.1) Errors.duplicate_key
  claimed ←
      or_raise
        (claim_pr (is_at data_in.version PrStatus.draft)
          (λ row. record row {
            apply_date = given_or data_in.apply_date pr.apply_date;
            total_estimated_amount = totalled.0;
            updated_by = user.id;
          })
          pr_id totalled.1)
        Errors.conflict
  ok (write_audit AuditAction.pr_update pr_id (set_pr_version pr_id data_in.version claimed))
