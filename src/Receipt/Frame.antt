-- ===== src/Receipt/Frame.antt =====
-- Which steps of backend/app/services/purchase_receipt_service.py leave the balances and the
-- ledger alone.
use manufacturing_erp_lite.Prelude.{
  ℕ, ◌≡◌, refl, ap, ◌∙◌, sym, Option, none, some, [], ◌∷◌, List, inl, inr, Bool-cases, Option-cases,
}
use manufacturing_erp_lite.Prelude.Decimal.{Decimal, leb_ℤ}
use manufacturing_erp_lite.Prelude.Assoc.{get}
use manufacturing_erp_lite.Prelude.Assoc.{AllRows}
use manufacturing_erp_lite.Inventory.Moves.{IsSound}
use manufacturing_erp_lite.Inventory.{new_balance, new_average}
use mathlib.Core.Option
use manufacturing_erp_lite.Prelude.{nat_eq, pair_eq, arith}
use manufacturing_erp_lite.Enums.{PoStatus, is_po_status, AuditAction}
use manufacturing_erp_lite.Store.{Db, CurrentUser, PurchaseOrder, PurchaseOrderItem}
use manufacturing_erp_lite.Audit.{write_audit}
use manufacturing_erp_lite.Inventory.{Key, lock_balance, lock_each}
use manufacturing_erp_lite.Inventory.Book.{Balances, Ledger}
use manufacturing_erp_lite.Receipt.Defs.{
  ReceiptIn, set_received, cas_receive, cas_return, LineState,
}
use manufacturing_erp_lite.Receipt.Status.{set_po_status, recompute_po_status, derived_status}
use manufacturing_erp_lite.Receipt.Create.{add_receipt}
use manufacturing_erp_lite.Receipt.Reverse.{claim_reversal, recompute_if_found}
use manufacturing_erp_lite.Receipt.Status.{items_of}

-- The two tables of the stock.
abbrev pub stock : Db → Balances × Ledger
stock db = (db.balances, db.transactions)

pub set_received-stock : (id : ℕ) (q : Decimal) (db : Db) → stock (set_received id q db) ≡ stock db
unfolding set_received
set_received-stock id q db = refl

pub cas_receive-stock :
    (id : ℕ) (q : Decimal) (db : Db) {db' : Db}
    → cas_receive id q db ≡ some db'
    → stock db' ≡ stock db
unfolding cas_receive
cas_receive-stock id q db h = let (t, _, e) = (Option.map-eq-some_iff _ _).0 h in ap stock (sym e)

pub cas_return-stock :
    (id : ℕ) (q : Decimal) (db : Db) {db' : Db}
    → cas_return id q db ≡ some db'
    → stock db' ≡ stock db
unfolding cas_return
cas_return-stock id q db h = let (t, _, e) = (Option.map-eq-some_iff _ _).0 h in ap stock (sym e)

pub claim_reversal-stock :
    (id : ℕ) (user : CurrentUser) (now : ℕ) (db : Db) {db' : Db}
    → claim_reversal id user now db ≡ some db'
    → stock db' ≡ stock db
unfolding claim_reversal
claim_reversal-stock id user now db h =
    let (t, _, e) = (Option.map-eq-some_iff _ _).0 h in ap stock (sym e)

set_po_status-stock : (id : ℕ) (s : PoStatus) (db : Db) → stock (set_po_status id s db) ≡ stock db
unfolding set_po_status
set_po_status-stock id s db = refl

pub recompute_po_status-stock :
    (po_id : ℕ) (po : PurchaseOrder) (items : List PurchaseOrderItem) (db : Db)
    → stock (recompute_po_status po_id po items db).1 ≡ stock db
unfolding recompute_po_status
recompute_po_status-stock po_id po [] db = refl
recompute_po_status-stock po_id po (item ∷ items) db =
    elim (Bool-cases (is_po_status (derived_status (item ∷ items)) po.status)) [
      | inl same ↦ rw same refl
      | inr other ↦ rw other (set_po_status-stock po_id (derived_status (item ∷ items)) db)
    ]

pub recompute_if_found-stock :
    (po_id : ℕ) (po : Option PurchaseOrder) (lines : LineState) (db : Db)
    → stock (recompute_if_found po_id po lines db) ≡ stock db
unfolding recompute_if_found
recompute_if_found-stock po_id none lines db = refl
recompute_if_found-stock po_id (some po) lines db =
    recompute_po_status-stock po_id po (items_of po_id lines.seen_items) db

new_balance-IsSound : IsSound new_balance
unfolding new_average leb_ℤ
new_balance-IsSound = record {
  quantity_nonneg = omega arith;
  amount_nonneg = omega arith;
  average = refl;
}

lock_balance-ledger : (k : Key) (db : Db) → (lock_balance k db).transactions ≡ db.transactions
unfolding lock_balance
lock_balance-ledger k db = elim (Option-cases (get k db.balances)) [
  | inl absent ↦ rw (absent, lock_balance) refl
  | inr (row, found) ↦ rw (found, lock_balance) refl
]

pub lock_each-ledger :
    (keys : List Key) (db : Db) → (lock_each keys db).transactions ≡ db.transactions
unfolding lock_each
lock_each-ledger [] db = refl
lock_each-ledger (k ∷ ks) db = lock_each-ledger ks (lock_balance k db) ∙ lock_balance-ledger k db

lock_balance-IsSound :
    (k : Key) (db : Db) → AllRows IsSound db.balances → AllRows IsSound (lock_balance k db).balances
unfolding lock_balance
lock_balance-IsSound k db h = elim (Option-cases (get k db.balances)) [
  | inl absent ↦ rw (absent, lock_balance) (new_balance-IsSound, h)
  | inr (row, found) ↦ rw (found, lock_balance) h
]

pub lock_each-IsSound :
    (keys : List Key) (db : Db)
    → AllRows IsSound db.balances
    → AllRows IsSound (lock_each keys db).balances
unfolding lock_each
lock_each-IsSound [] db h = h
lock_each-IsSound (k ∷ ks) db h =
    lock_each-IsSound ks (lock_balance k db) (lock_balance-IsSound k db h)

pub add_receipt-stock :
    (data_in : ReceiptIn) (user : CurrentUser) (at : ℕ) (db : Db)
    → stock (add_receipt data_in user at db) ≡ stock db
unfolding add_receipt
add_receipt-stock data_in user at db = refl

pub write_audit-stock :
    (action : AuditAction) (id : ℕ) (db : Db) → stock (write_audit action id db) ≡ stock db
unfolding write_audit
write_audit-stock action id db = refl
