-- ===== src/Order/Read.antt =====
-- The read scope, `get_po` and `list_pos` of backend/app/services/purchase_order_service.py. What the
-- database's LIKE makes of a text is a predicate of the filter. A role outside the enumeration, which
-- sees no order, is left out.
use manufacturing_erp_lite.Prelude.{
  ℕ, Bool, true, false, not, ◌&&◌, ◌||◌, Option, none, some, [], ◌∷◌, ◌==◌, leb, nat_eq,
}
use manufacturing_erp_lite.Prelude.Assoc.{Assoc, get}
use manufacturing_erp_lite.Enums.{PoStatus, RoleCode, is_po_status}
use manufacturing_erp_lite.Errors
use manufacturing_erp_lite.Errors.{Result, ok, ◌>>=◌, ◌>>◌, raise_if}
use manufacturing_erp_lite.Store.{
  Db, CurrentUser, DocumentNo, PurchaseRequisition, PurchaseRequisitionItem, PurchaseOrder,
  PurchaseOrderItem, PurchaseOrderItemSource,
}
use manufacturing_erp_lite.Query.{where_rows, order_by, descending, paged, if_given}
use manufacturing_erp_lite.Requisition.Defs.{is_manager}
use manufacturing_erp_lite.Order.Defs.{load_po}

-- `role_code in _FULL_SCOPE_ROLES`
abbrev pub is_full_scope : RoleCode → Bool
is_full_scope RoleCode.admin = true
is_full_scope RoleCode.buyer = true
is_full_scope RoleCode.warehouse = true
is_full_scope _ = false

-- `_source_visibility_cond`
unfoldable pub source_visibility_cond : Db → CurrentUser → PurchaseRequisition → Bool
source_visibility_cond db user pr = elim user.role_code [
  | RoleCode.applicant ↦ pr.applicant_id == user.id
  | _ ↦ is_manager pr.department_id user.id db.department_managers
]

-- The joins of `_visible_source_stmt`: an inner join drops a row without its partner.
abbrev is_line_of : ℕ → Option PurchaseOrderItem → Bool
is_line_of po_id none = false
is_line_of po_id (some item) = item.po_id == po_id

abbrev pr_meets : (PurchaseRequisition → Bool) → Option PurchaseRequisition → Bool
pr_meets cond none = false
pr_meets cond (some pr) = cond pr

abbrev pr_item_meets : (PurchaseRequisition → Bool) → Db → Option PurchaseRequisitionItem → Bool
pr_item_meets cond db none = false
pr_item_meets cond db (some item) = pr_meets cond (get item.pr_id db.requisitions)

unfoldable pub has_visible_source :
    (PurchaseRequisition → Bool) → Db → ℕ → Assoc ℕ PurchaseOrderItemSource → Bool
has_visible_source cond db po_id [] = false
has_visible_source cond db po_id ((i, s) ∷ t) =
    (is_line_of po_id (get s.po_item_id db.order_items)
      && pr_item_meets cond db (get s.pr_item_id db.requisition_items))
    || has_visible_source cond db po_id t

-- `po_id in visible_po_id_stmt(db, user)`, where `None` admits every order.
unfoldable pub visible_po_id : Db → CurrentUser → ℕ → Bool
unfolding has_visible_source source_visibility_cond
visible_po_id db user po_id =
    is_full_scope user.role_code
    || has_visible_source (source_visibility_cond db user) db po_id db.order_item_sources

unfoldable pub assert_po_visible : Db → ℕ → CurrentUser → Result (Unit {0})
unfolding has_visible_source source_visibility_cond
assert_po_visible db po_id user =
    raise_if
      (not (is_full_scope user.role_code)
        && not (has_visible_source (source_visibility_cond db user) db po_id db.order_item_sources))
      Errors.permission_denied

unfoldable pub get_po : Db → ℕ → CurrentUser → Result PurchaseOrder
unfolding assert_po_visible
get_po db po_id user = do po ← load_po db po_id; assert_po_visible db po_id user; ok po

pub record PoFilter : Type 0 where
  pub po_no : DocumentNo → Bool
  pub supplier_id : Option ℕ
  pub status : Option PoStatus
  pub order_date_from : Option ℕ
  pub order_date_to : Option ℕ

abbrev pub passes_po_filter : PoFilter → PurchaseOrder → Bool
passes_po_filter f po =
    f.po_no po.po_no
    && if_given (λ s x. s == x) f.supplier_id po.supplier_id
    && if_given is_po_status f.status po.status
    && if_given leb f.order_date_from po.order_date
    && if_given (λ d x. leb x d) f.order_date_to po.order_date

unfoldable pub listed_pos : Db → CurrentUser → PoFilter → Assoc ℕ PurchaseOrder
unfolding where_rows order_by visible_po_id
listed_pos db user f =
    order_by descending
      (where_rows (λ r. visible_po_id db user r.0 && passes_po_filter f r.1) db.orders)

unfoldable pub list_pos : Db → CurrentUser → ℕ → ℕ → PoFilter → Assoc ℕ PurchaseOrder × ℕ
unfolding listed_pos paged
list_pos db user page page_size f = paged page page_size (listed_pos db user f)
