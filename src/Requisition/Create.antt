-- ===== src/Requisition/Create.antt =====
-- `create_pr` of backend/app/services/purchase_requisition_service.py.
use manufacturing_erp_lite.Prelude.{ℕ, suc, none, List, [], ◌∷◌, nat_eq}
use manufacturing_erp_lite.Prelude.Decimal.{Decimal, pos}
use manufacturing_erp_lite.Prelude.Assoc.{update}
use manufacturing_erp_lite.Enums.{PrStatus, SequenceKey, AuditAction}
use manufacturing_erp_lite.Errors.{Result, ok, ◌>>=◌, ◌>>◌}
use manufacturing_erp_lite.Store.{
  Db, next_id, CurrentUser, PurchaseRequisition, PurchaseRequisitionItem,
}
use manufacturing_erp_lite.Numbering.{next_daily_code}
use manufacturing_erp_lite.Audit.{write_audit}
use manufacturing_erp_lite.Requisition.Defs.{
  PrItemIn, PrIn, assert_user_department_active, assert_pr_material_active, pr_items, recompute,
}

unfoldable pub add_pr : PrIn → ℕ → CurrentUser → Db → Db
unfolding next_daily_code
add_pr data_in dept_id user db =
    let (pr_no, db') = next_daily_code SequenceKey.purchase_requisition data_in.apply_date db in
    let row : PurchaseRequisition = record {
      pr_no = pr_no;
      applicant_id = user.id;
      department_id = dept_id;
      apply_date = data_in.apply_date;
      status = PrStatus.draft;
      total_estimated_amount = pos 0;
      submitted_at = none;
      version = 1;
      created_by = user.id;
      updated_by = user.id;
    } in
    record db' { last_id = next_id db'; requisitions = (next_id db', row) ∷ db'.requisitions }

abbrev pub pr_item : ℕ → ℕ → PrItemIn → PurchaseRequisitionItem
pr_item pr_id line_no req = record {
  pr_id = pr_id;
  line_no = line_no;
  material_id = req.material_id;
  requested_quantity = req.requested_quantity;
  converted_quantity = pos 0;
  estimated_unit_price = req.estimated_unit_price;
  estimated_amount = pos 0;
  required_date = req.required_date;
}

unfoldable pub add_pr_items : Db → ℕ → ℕ → List PrItemIn → Db → Result Db
add_pr_items seen pr_id line_no [] db = ok db
add_pr_items seen pr_id line_no (req ∷ items) db = do
  assert_pr_material_active seen req.material_id
  add_pr_items seen pr_id (suc line_no) items (record db {
    last_id = next_id db;
    requisition_items = (next_id db, pr_item pr_id line_no req) ∷ db.requisition_items;
  })

unfoldable pub set_pr_total : ℕ → Decimal → Db → Db
set_pr_total pr_id total db = record db {
  requisitions =
      update (λ row. record row { total_estimated_amount = total }) pr_id db.requisitions;
}

-- `create_pr`: the id of the requisition and the new database. `pr.items` are the rows just added.
unfoldable pub create_pr : PrIn → CurrentUser → Db → Db → Result (ℕ × Db)
unfolding add_pr set_pr_total pr_items
create_pr data_in user seen db = do
  dept_id ← assert_user_department_active seen user
  let headed = add_pr data_in dept_id user db
  let pr_id = headed.last_id
  filled ← add_pr_items seen pr_id 1 data_in.items headed
  totalled ← recompute (pr_items pr_id filled.requisition_items) filled
  ok (pr_id, write_audit AuditAction.pr_create pr_id (set_pr_total pr_id totalled.0 totalled.1))
