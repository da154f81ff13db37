-- ===== src/Requisition/Approval.antt =====
-- `approve_pr`, `reject_pr` and `revise_pr` of
-- backend/app/services/purchase_requisition_service.py.
use manufacturing_erp_lite.Prelude.{ℕ, Bool, ◌&&◌, none, List, [], ◌∷◌, ◌==◌, nat_eq}
use manufacturing_erp_lite.Prelude.Decimal.{pos, ltb_ℤ, leb_ℤ}
use manufacturing_erp_lite.Prelude.Assoc.{update}
use manufacturing_erp_lite.Enums.{PrStatus, is_pr_status, ApprovalAction, AuditAction}
use manufacturing_erp_lite.Errors
use manufacturing_erp_lite.Errors.{Result, ok, ◌>>=◌, ◌>>◌, raise_if, or_raise}
use manufacturing_erp_lite.Store.{
  Db, next_id, CurrentUser, PurchaseRequisition, PurchaseRequisitionItem, ApprovalRecord,
}
use manufacturing_erp_lite.Audit.{write_audit}
use manufacturing_erp_lite.Receipt.Defs.{is_empty}
use manufacturing_erp_lite.Requisition.Defs.{
  load_pr, assert_self_or_admin, assert_pr_transition, assert_pr_version, assert_approver,
  assert_pr_material_active, concurrent_pr_error, pr_items, recompute, claim_pr, flush_pr,
}

-- `_approval_record`: the record is only ever appended.
unfoldable pub approval_record : ℕ → ApprovalAction → PrStatus → PrStatus → ℕ → Bool → Db → Db
approval_record pr_id action from_status to_status approver_id is_admin_override db =
    let row : ApprovalRecord = record {
      document_id = pr_id;
      is_admin_override = is_admin_override;
      approver_id = approver_id;
      action = action;
      from_status = from_status;
      to_status = to_status;
    } in
    record db { last_id = next_id db; approval_records = (next_id db, row) ∷ db.approval_records }

-- The second look at the items, on approval.
unfoldable pub check_pr_items : Db → List (ℕ × PurchaseRequisitionItem) → Result (Unit {0})
check_pr_items db [] = ok tt
check_pr_items db ((i, item) ∷ items) = do
  assert_pr_material_active db item.material_id
  raise_if (leb_ℤ item.requested_quantity (pos 0)) Errors.validation_error
  raise_if (ltb_ℤ item.estimated_unit_price (pos 0)) Errors.validation_error
  check_pr_items db items

-- `version == :version AND status == :status`
abbrev pub is_at : ℕ → PrStatus → PurchaseRequisition → Bool
is_at version status row = (row.version == version) && is_pr_status row.status status

unfoldable pub approve_pr : ℕ → ℕ → CurrentUser → Db → Db → Result Db
unfolding pr_items flush_pr approval_record
approve_pr pr_id version user seen db = do
  pr ← load_pr seen pr_id
  assert_pr_transition pr PrStatus.approved
  assert_pr_version pr version
  is_admin_override ← assert_approver seen pr user
  let items = pr_items pr_id seen.requisition_items
  raise_if (is_empty items) Errors.pr_empty_items
  check_pr_items seen items
  totalled ← recompute items db
  claimed ←
      or_raise
        (claim_pr (is_at version PrStatus.pending)
          (λ row. record row {
            status = PrStatus.approved;
            total_estimated_amount = totalled.0;
            updated_by = user.id;
          })
          pr_id totalled.1)
        (concurrent_pr_error totalled.1 pr_id PrStatus.pending)
  let recorded =
      approval_record pr_id ApprovalAction.approve PrStatus.pending PrStatus.approved user.id
        is_admin_override (flush_pr PrStatus.approved pr_id pr claimed)
  ok (write_audit AuditAction.pr_approve pr_id recorded)

unfoldable pub reject_pr : ℕ → ℕ → CurrentUser → Db → Db → Result Db
unfolding flush_pr approval_record
reject_pr pr_id version user seen db = do
  pr ← load_pr seen pr_id
  assert_pr_transition pr PrStatus.rejected
  assert_pr_version pr version
  is_admin_override ← assert_approver seen pr user
  claimed ←
      or_raise
        (claim_pr (is_at version PrStatus.pending)
          (λ row. record row { status = PrStatus.rejected; updated_by = user.id }) pr_id db)
        (concurrent_pr_error db pr_id PrStatus.pending)
  let recorded =
      approval_record pr_id ApprovalAction.reject PrStatus.pending PrStatus.rejected user.id
        is_admin_override (flush_pr PrStatus.rejected pr_id pr claimed)
  ok (write_audit AuditAction.pr_reject pr_id recorded)

-- UPDATE of `submitted_at`, which a revision empties.
unfoldable pub clear_submitted : ℕ → Db → Db
clear_submitted pr_id db = record db {
  requisitions = update (λ row. record row { submitted_at = none }) pr_id db.requisitions;
}

unfoldable pub revise_pr : ℕ → ℕ → CurrentUser → Db → Db → Result Db
unfolding flush_pr clear_submitted
revise_pr pr_id version user seen db = do
  pr ← load_pr seen pr_id
  assert_pr_transition pr PrStatus.draft
  assert_self_or_admin pr user
  assert_pr_version pr version
  claimed ←
      or_raise
        (claim_pr (is_at version PrStatus.rejected)
          (λ row. record row { status = PrStatus.draft; submitted_at = none; updated_by = user.id })
          pr_id db)
        (concurrent_pr_error db pr_id PrStatus.rejected)
  ok (
      write_audit AuditAction.pr_revise pr_id
        (clear_submitted pr_id (flush_pr PrStatus.draft pr_id pr claimed)))
