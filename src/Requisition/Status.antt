-- ===== src/Requisition/Status.antt =====
-- `submit_pr` and `cancel_pr` of backend/app/services/purchase_requisition_service.py.
use manufacturing_erp_lite.Prelude.{
  ℕ, Bool, false, not, ◌&&◌, ◌||◌, Option, none, some, [], ◌∷◌, ◌==◌, nat_eq,
}
use manufacturing_erp_lite.Prelude.Assoc.{Assoc, get}
use manufacturing_erp_lite.Enums.{PrStatus, PoStatus, is_pr_status, is_po_status, AuditAction}
use manufacturing_erp_lite.Errors
use manufacturing_erp_lite.Errors.{Result, ok, ◌>>=◌, ◌>>◌, raise_if, or_raise}
use manufacturing_erp_lite.Store.{
  Db, CurrentUser, PurchaseOrder, PurchaseOrderItem, PurchaseOrderItemSource,
  PurchaseRequisitionItem,
}
use manufacturing_erp_lite.Audit.{write_audit}
use manufacturing_erp_lite.Receipt.Defs.{is_empty}
use manufacturing_erp_lite.Requisition.Defs.{
  load_pr, assert_self_or_admin, assert_pr_transition, pr_items, assert_items_active, recompute,
  claim_pr, flush_pr,
}

unfoldable pub submit_pr : ℕ → CurrentUser → ℕ → Db → Db → Result Db
unfolding pr_items flush_pr
submit_pr pr_id user now seen db = do
  pr ← load_pr seen pr_id
  assert_self_or_admin pr user
  assert_pr_transition pr PrStatus.pending
  let items = pr_items pr_id seen.requisition_items
  raise_if (is_empty items) Errors.pr_empty_items
  assert_items_active seen items
  totalled ← recompute items db
  claimed ←
      or_raise
        (claim_pr (λ row. is_pr_status row.status PrStatus.draft)
          (λ row. record row {
            status = PrStatus.pending;
            submitted_at = some now;
            total_estimated_amount = totalled.0;
            updated_by = user.id;
          })
          pr_id totalled.1)
        Errors.pr_invalid_status_transition
  ok (write_audit AuditAction.pr_submit pr_id (flush_pr PrStatus.pending pr_id pr claimed))

abbrev is_item_of_pr : ℕ → Option PurchaseRequisitionItem → Bool
is_item_of_pr pr_id none = false
is_item_of_pr pr_id (some item) = item.pr_id == pr_id

abbrev is_active_po : Option PurchaseOrder → Bool
is_active_po none = false
is_active_po (some po) = not (is_po_status po.status PoStatus.cancelled)

abbrev is_on_active_po : Db → Option PurchaseOrderItem → Bool
is_on_active_po db none = false
is_on_active_po db (some item) = is_active_po (get item.po_id db.orders)

-- `has_active_po`: a source of one of the requisition's items that is on an order not cancelled.
unfoldable pub has_active_po : Db → ℕ → Assoc ℕ PurchaseOrderItemSource → Bool
has_active_po db pr_id [] = false
has_active_po db pr_id ((i, s) ∷ t) =
    is_item_of_pr pr_id (get s.pr_item_id db.requisition_items)
      && is_on_active_po db (get s.po_item_id db.order_items)
    || has_active_po db pr_id t

unfoldable pub cancel_pr : ℕ → CurrentUser → Db → Db → Result Db
unfolding has_active_po flush_pr
cancel_pr pr_id user seen db = do
  pr ← load_pr seen pr_id
  assert_self_or_admin pr user
  assert_pr_transition pr PrStatus.cancelled
  raise_if
      (is_pr_status pr.status PrStatus.approved && has_active_po seen pr_id seen.order_item_sources)
      Errors.pr_cancel_has_active_po
  claimed ←
      or_raise
        (claim_pr
          (λ row.
            is_pr_status row.status PrStatus.draft || is_pr_status row.status PrStatus.approved)
          (λ row. record row { status = PrStatus.cancelled; updated_by = user.id }) pr_id db)
        Errors.pr_invalid_status_transition
  ok (write_audit AuditAction.pr_cancel pr_id (flush_pr PrStatus.cancelled pr_id pr claimed))
