-- ===== src/Reconciliation/Read.antt =====
-- `get_reconciliation` and `list_reconciliations` of
-- backend/app/services/stock_reconciliation_service.py.
use manufacturing_erp_lite.Prelude.{
  ℕ, suc, Bool, ◌&&◌, Option, List, [], ◌∷◌, if◌then◌else◌, ◌==◌, leb, ltb, map, nat_eq,
}
use manufacturing_erp_lite.Prelude.Assoc.{Assoc}
use manufacturing_erp_lite.Enums.{ReconciliationStatus, is_reconciliation_status}
use manufacturing_erp_lite.Errors.{Result}
use manufacturing_erp_lite.Store.{Db, DocumentNo, StockReconciliation, StockReconciliationItem}
use manufacturing_erp_lite.Query.{where_rows, order_by, descending, paged, if_given}
use manufacturing_erp_lite.Reconciliation.Defs.{load_doc}

unfoldable pub get_reconciliation : Db → ℕ → Result StockReconciliation
unfolding load_doc
get_reconciliation db doc_id = load_doc db doc_id

-- `reconciliation_no` is what LIKE says of the number, true where no text is given.
pub record DocFilter : Type 0 where
  pub reconciliation_no : DocumentNo → Bool
  pub warehouse_id : Option ℕ
  pub status : Option ReconciliationStatus
  pub counted_on_from : Option ℕ
  pub counted_on_to : Option ℕ

abbrev pub passes_doc_filter : DocFilter → StockReconciliation → Bool
passes_doc_filter f doc =
    f.reconciliation_no doc.reconciliation_no
    && if_given (λ w x. w == x) f.warehouse_id doc.warehouse_id
    && if_given is_reconciliation_status f.status doc.status
    && if_given leb f.counted_on_from doc.counted_on
    && if_given (λ d x. leb x d) f.counted_on_to doc.counted_on

unfoldable pub listed_docs : Db → DocFilter → Assoc ℕ StockReconciliation
unfolding where_rows order_by
listed_docs db f =
    order_by descending (where_rows (λ r. passes_doc_filter f r.1) db.reconciliations)

-- The group's COUNT(*) of one document.
unfoldable pub count_items : ℕ → Assoc ℕ StockReconciliationItem → ℕ
count_items doc_id [] = 0
count_items doc_id ((i, item) ∷ t) =
    let rest = count_items doc_id t in if item.reconciliation_id == doc_id then suc rest else rest

-- `counts`: a document without items has no group.
unfoldable pub counts_of : Db → List ℕ → Assoc ℕ ℕ
unfolding count_items
counts_of db [] = []
counts_of db (id ∷ ids) =
    let n = count_items id db.reconciliation_items in
    let rest = counts_of db ids in if ltb 0 n then (id, n) ∷ rest else rest

unfoldable pub list_reconciliations :
    Db → ℕ → ℕ → DocFilter → Assoc ℕ StockReconciliation × (ℕ × Assoc ℕ ℕ)
unfolding listed_docs paged counts_of
list_reconciliations db page page_size f =
    let (rows, total) = paged page page_size (listed_docs db f) in
    (rows, (total, counts_of db (map (λ r. r.0) rows)))
