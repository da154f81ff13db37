-- ===== src/Order/Completion.antt =====
-- A confirmation goes through (backend/app/services/purchase_order_service.py, confirm_po).
use manufacturing_erp_lite.Prelude.{
  ℕ, suc, ◌≡◌, refl, ap, true, false, not, ◌&&◌, some, any, ◌==◌, ==_iff, nat_eq,
}
use mathlib.Core.Option
use manufacturing_erp_lite.Prelude.Decimal.{pos, leb_ℤ}
use manufacturing_erp_lite.Prelude.Assoc.{get, set, update_where-some}
use manufacturing_erp_lite.Enums.{PoStatus, is_admin}
use manufacturing_erp_lite.Errors.{ok, ◌>>◌}
use manufacturing_erp_lite.Store.{Db, CurrentUser, PurchaseOrder}
use manufacturing_erp_lite.Receipt.Defs.{is_empty}
use manufacturing_erp_lite.Receipt.Status.{items_of}
use manufacturing_erp_lite.Order.Defs.{
  load_po, assert_po_transition, assert_po_version, assert_buyer_or_admin, is_po_transition,
}
use manufacturing_erp_lite.Order.Status.{claim_po, is_draft, flush_po, confirm_po}
use manufacturing_erp_lite.Order.Scope.{and-intro}
use manufacturing_erp_lite.Audit.{write_audit}
use manufacturing_erp_lite.Enums.{AuditAction}

-- What a confirmation asks.
pub record IsConfirmable (po_id : ℕ) (user : CurrentUser) (po : PurchaseOrder) (db : Db)
    : Type 0 where
  pub there : get po_id db.orders ≡ some po
  pub draft : po.status ≡ PoStatus.draft
  pub allowed : (not (is_admin user.role_code) && not (po.buyer_id == user.id)) ≡ false
  pub filled : is_empty (items_of po_id db.order_items) ≡ false
  pub priced : any (λ i. leb_ℤ i.unit_price (pos 0)) (items_of po_id db.order_items) ≡ false

-- The database after the conditional UPDATE of a confirmation.
abbrev confirmed_at : ℕ → CurrentUser → PurchaseOrder → Db → Db
confirmed_at po_id user po db = record db {
  orders =
      set po_id
        (record po { status = PoStatus.confirmed; updated_by = user.id; version = suc po.version })
        db.orders;
}

claim_po-some :
    (po_id : ℕ) (user : CurrentUser) (po : PurchaseOrder) (db : Db)
    → get po_id db.orders ≡ some po
    → ((po.version == po.version) && is_draft po.status) ≡ true
    → claim_po is_draft PoStatus.confirmed po_id po.version user db
      ≡ some (confirmed_at po_id user po db)
unfolding claim_po
claim_po-some po_id user po db there holds =
    ap (Option.map (λ t. record db { orders = t }))
      (update_where-some _ _ po_id db.orders there holds)

-- A request that runs alone and confirms a draft at its version, by its buyer or an administrator,
-- succeeds where the order has an item and each of its items has a positive price, whatever the status
-- of its supplier and its materials.
pub confirm_po-completes :
    (po_id : ℕ) (user : CurrentUser) (po : PurchaseOrder) (db : Db)
    → IsConfirmable po_id user po db
    → (db' : Db) × (confirm_po po_id po.version user db db ≡ ok db')
unfolding confirm_po load_po assert_po_transition assert_po_version assert_buyer_or_admin ◌>>◌
confirm_po-completes po_id user po db c =
    let at_version : (po.version == po.version) ≡ true = (==_iff po.version po.version).1 refl in
    let drafted : is_draft po.status ≡ true = ap is_draft c.draft in
    let holds : ((po.version == po.version) && is_draft po.status) ≡ true =
      and-intro _ _ at_version drafted in
    let e = claim_po-some po_id user po db c.there holds in
    let legal : is_po_transition po.status PoStatus.confirmed ≡ true =
      ap (λ s. is_po_transition s PoStatus.confirmed) c.draft in
    (
      write_audit AuditAction.po_confirm po_id
          (flush_po PoStatus.confirmed po_id po (confirmed_at po_id user po db)),
      rw c.there (rw legal (rw at_version (rw c.allowed (rw c.filled (rw c.priced (rw e refl)))))),
    )
