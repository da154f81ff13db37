-- ===== src/Reconciliation/Frame.antt =====
-- Which steps of backend/app/services/stock_reconciliation_service.py leave the balances, the ledger
-- and the requisitions' rows alone.
use manufacturing_erp_lite.Prelude.{
  ℕ, suc, ◌≡◌, refl, ap, sym, Bool, Option, none, some, List, [], ◌∷◌, nat_eq,
}
use mathlib.Core.Option
use manufacturing_erp_lite.Errors.{ok, ok-injective, >>=-eq-ok}
use manufacturing_erp_lite.Enums.{ReconciliationStatus}
use manufacturing_erp_lite.Store.{Db, StockReconciliation, StockReconciliationItem}
use manufacturing_erp_lite.Requisition.Frame.{heads}
use manufacturing_erp_lite.Reconciliation.Defs.{LineIn, Snapshot}
use manufacturing_erp_lite.Reconciliation.Draft.{add_items, claim_doc}
use manufacturing_erp_lite.Reconciliation.Edit.{flush_rebuilt, replace_items, claim_edit}

pub claim_doc-heads :
    (expected : ReconciliationStatus → Bool) (change : StockReconciliation → StockReconciliation)
    (doc_id : ℕ) (db : Db) {db' : Db}
    → claim_doc expected change doc_id db ≡ some db'
    → heads db' ≡ heads db
unfolding claim_doc
claim_doc-heads expected change doc_id db h =
    let (t, _, e) = (Option.map-eq-some_iff _ _).0 h in ap heads (sym e)

pub claim_edit-heads :
    (version doc_id : ℕ) (db : Db) {db' : Db}
    → claim_edit version doc_id db ≡ some db'
    → heads db' ≡ heads db
unfolding claim_edit
claim_edit-heads version doc_id db h =
    let (t, _, e) = (Option.map-eq-some_iff _ _).0 h in ap heads (sym e)

pub add_items-heads :
    (doc_id line_no : ℕ) (lines : List (LineIn × Snapshot)) (db : Db) {db' : Db}
    → add_items doc_id line_no lines db ≡ ok db'
    → heads db' ≡ heads db
unfolding add_items
add_items-heads doc_id line_no [] db h = ap heads (sym (ok-injective h))
add_items-heads doc_id line_no ((line, snap) ∷ lines) db h =
    let (_, _, h1) = >>=-eq-ok _ _ h in add_items-heads doc_id (suc line_no) lines _ h1

flush_rebuilt-heads :
    (rows : List (Option (ℕ × StockReconciliationItem) × StockReconciliationItem)) (db : Db)
    → heads (flush_rebuilt rows db) ≡ heads db
unfolding flush_rebuilt
flush_rebuilt-heads [] db = refl
flush_rebuilt-heads ((none, item) ∷ rows) db = flush_rebuilt-heads rows _
flush_rebuilt-heads ((some (i, old), item) ∷ rows) db = flush_rebuilt-heads rows _

pub replace_items-heads :
    (rebuilt : List (Option (ℕ × StockReconciliationItem) × StockReconciliationItem))
    (existing : List (ℕ × StockReconciliationItem)) (db : Db)
    → heads (replace_items rebuilt existing db) ≡ heads db
unfolding replace_items
replace_items-heads rebuilt existing db = flush_rebuilt-heads rebuilt db
