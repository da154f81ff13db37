-- ===== src/Reconciliation/Snapshots.antt =====
-- A line of a count keeps the snapshot that it was made with
-- (backend/app/services/stock_reconciliation_service.py, update_reconciliation).
use manufacturing_erp_lite.Prelude.{
  ℕ, suc, ◌≤◌, ◌≡◌, refl, ap, ◌∙◌, sym, subst, Bool, ◌⊎◌, inl, inr, Option, none, some, none-some,
  List, [], ◌∷◌, Bool-cases, Option-cases, ◌==◌, ==_iff, arith, nat_eq,
}
use mathlib.Core.Option
use manufacturing_erp_lite.Prelude.Assoc.{
  Assoc, get, update, erase, get-set-none, get-update_self, get-update_ne, get-erase_self,
  get-erase_ne,
}
use manufacturing_erp_lite.Errors.{ok, ok-injective, found-eq-ok, >>=-eq-ok, >>-eq-ok}
use manufacturing_erp_lite.Store.{Db, CurrentUser, StockReconciliationItem}
use manufacturing_erp_lite.Audit.{write_audit}
use manufacturing_erp_lite.Reconciliation.Defs.{doc_items}
use manufacturing_erp_lite.Reconciliation.Edit.{
  ReconciliationEdit, write_count, flush_rebuilt, is_rebuilt, delete_orphans, replace_items,
  claim_edit, flush_doc, update_reconciliation,
}

-- The material and the snapshot of two versions of a row are the same.
pub record SameBook (old new : StockReconciliationItem) : Type 0 where
  pub document : new.reconciliation_id ≡ old.reconciliation_id
  pub material : new.material_id ≡ old.material_id
  pub quantity : new.book_quantity_snapshot ≡ old.book_quantity_snapshot
  pub total : new.book_total_amount_snapshot ≡ old.book_total_amount_snapshot
  pub average : new.book_avg_cost_snapshot ≡ old.book_avg_cost_snapshot
  pub watermark : new.book_last_transaction_id_snapshot ≡ old.book_last_transaction_id_snapshot

abbrev Items : Type 0
Items = Assoc ℕ StockReconciliationItem

-- The row is gone, or it has its book still.
abbrev Kept : ℕ → StockReconciliationItem → Items → Type 0
Kept i old t =
    (get i t ≡ none) ⊎ ((new : StockReconciliationItem) × (get i t ≡ some new) × SameBook old new)

moved_table :
    (i : ℕ) (old : StockReconciliationItem) (t t' : Items)
    → get i t' ≡ get i t
    → Kept i old t
    → Kept i old t'
moved_table i old t t' e (inl gone) = inl (e ∙ gone)
moved_table i old t t' e (inr (new, there, same)) = inr (new, e ∙ there, same)

update-none :
    (i j : ℕ) (was item : StockReconciliationItem) (t : Items)
    → get i t ≡ none
    → get i (update (write_count was item) j t) ≡ none
unfolding update get
update-none i j was item t gone = elim (Option-cases (get j t)) [
  | inl absent ↦ rw (absent, update) gone
  | inr (v, found) ↦ rw (found, update) (get-set-none i j (write_count was item v) t gone)
]

update-Kept :
    (i j : ℕ) (old was item : StockReconciliationItem) (t : Items)
    → Kept i old t
    → Kept i old (update (write_count was item) j t)
update-Kept i j old was item t kept = elim (Bool-cases (i == j)) [
  | inr other ↦ moved_table i old t _ (get-update_ne (write_count was item) j i t other) kept
  | inl same ↦ elim kept [
    | inl gone ↦ inl (update-none i j was item t gone)
    | inr (new, there, book) ↦
        let e = (==_iff i j).0 same in
        let at_j : get j t ≡ some new = subst (λ x. get x t ≡ some new) e there in
        inr (
          write_count was item new,
          subst (λ x. get x (update (write_count was item) j t) ≡ some (write_count was item new))
              (sym e) (get-update_self (write_count was item) j t at_j),
          record {
            document = book.document;
            material = book.material;
            quantity = book.quantity;
            total = book.total;
            average = book.average;
            watermark = book.watermark;
          },
        )
  ]
]

erase-Kept :
    (i j : ℕ) (old : StockReconciliationItem) (t : Items) → Kept i old t → Kept i old (erase j t)
erase-Kept i j old t kept = elim (Bool-cases (i == j)) [
  | inr other ↦ moved_table i old t _ (get-erase_ne j i t other) kept
  | inl same ↦
      let e = (==_iff i j).0 same in
      inl (subst (λ x. get x (erase j t) ≡ none) (sym e) (get-erase_self j t))
]

inserted :
    (i : ℕ) (item : StockReconciliationItem) (db : Db)
    → i ≤ db.last_id
    → get i ((suc db.last_id, item) ∷ db.reconciliation_items) ≡ get i db.reconciliation_items
unfolding get
inserted i item db small = elim (Bool-cases (i == suc db.last_id)) [
  | inl same ↦ let e = (==_iff i (suc db.last_id)).0 same in absurd (omega (arith, e, small))
  | inr other ↦ rw other refl
]

book_refl : (item : StockReconciliationItem) → SameBook item item
book_refl item = record {
  document = refl;
  material = refl;
  quantity = refl;
  total = refl;
  average = refl;
  watermark = refl;
}

flush_rebuilt-Kept :
    (i : ℕ) (old : StockReconciliationItem)
    (rows : List (Option (ℕ × StockReconciliationItem) × StockReconciliationItem)) (db : Db)
    → i ≤ db.last_id
    → Kept i old db.reconciliation_items
    → Kept i old (flush_rebuilt rows db).reconciliation_items
unfolding flush_rebuilt
flush_rebuilt-Kept i old [] db small kept = kept
flush_rebuilt-Kept i old ((none, item) ∷ rows) db small kept =
    flush_rebuilt-Kept i old rows _ (omega (arith, small))
      (moved_table i old db.reconciliation_items _ (inserted i item db small) kept)
flush_rebuilt-Kept i old ((some (j, was), item) ∷ rows) db small kept =
    flush_rebuilt-Kept i old rows _ small
      (update-Kept i j old was item db.reconciliation_items kept)

delete_orphans-Kept :
    (i : ℕ) (old : StockReconciliationItem)
    (rows : List (Option (ℕ × StockReconciliationItem) × StockReconciliationItem))
    (items : List (ℕ × StockReconciliationItem)) (t : Items)
    → Kept i old t
    → Kept i old (delete_orphans rows items t)
unfolding delete_orphans
delete_orphans-Kept i old rows [] t kept = kept
delete_orphans-Kept i old rows ((j, item) ∷ items) t kept = elim (Bool-cases (is_rebuilt j rows)) [
  | inl stays ↦ rw stays (delete_orphans-Kept i old rows items t kept)
  | inr goes ↦
      rw goes (delete_orphans-Kept i old rows items (erase j t) (erase-Kept i j old t kept))
]

claim_edit-items :
    (version doc_id : ℕ) (db : Db) {db' : Db}
    → claim_edit version doc_id db ≡ some db'
    → db'.reconciliation_items ≡ db.reconciliation_items
unfolding claim_edit
claim_edit-items version doc_id db h =
    let (t, _, e) = (Option.map-eq-some_iff _ _).0 h in ap (λ x. x.reconciliation_items) (sym e)

book_of-Kept :
    (i : ℕ) (old new : StockReconciliationItem) (t : Items)
    → get i t ≡ some new
    → Kept i old t
    → SameBook old new
book_of-Kept i old new t there (inl gone) = none-some (sym gone ∙ there)
book_of-Kept i old new t there (inr (kept, at, same)) =
    subst (SameBook old) (Option.some-injective _ _ (sym at ∙ there)) same

-- A row of a count that an edit leaves in the table keeps its document, its material and all of its
-- snapshot, if its id was given out before.
pub update_reconciliation-SameBook :
    (violates : Db → Db → Bool) (doc_id : ℕ) (data_in : ReconciliationEdit) (user : CurrentUser)
    (seen db : Db) {db' : Db}
    → update_reconciliation violates doc_id data_in user seen db ≡ ok db'
    → (i : ℕ) (old new : StockReconciliationItem) → i ≤ db.last_id
    → get i db.reconciliation_items ≡ some old
    → get i db'.reconciliation_items ≡ some new
    → SameBook old new
unfolding update_reconciliation replace_items flush_doc write_audit
update_reconciliation-SameBook violates doc_id data_in user seen db {db'} h i old new small before
      after =
    let (doc, _, h1) = >>=-eq-ok _ _ h in
    let (_, h2) = >>-eq-ok _ _ h1 in
    let (_, h3) = >>-eq-ok _ _ h2 in
    let (_, h4) = >>-eq-ok _ _ h3 in
    let (rebuilt, _, h5) = >>=-eq-ok _ _ h4 in
    let (_, h6) = >>-eq-ok _ _ h5 in
    let (claimed, c, h7) = found-eq-ok _ _ _ h6 in
    let existing = doc_items doc_id seen.reconciliation_items in
    let start : Kept i old db.reconciliation_items = inr (old, before, book_refl old) in
    let kept =
      delete_orphans-Kept i old rebuilt existing _
        (flush_rebuilt-Kept i old rebuilt db small start) in
    let same =
      ap (λ x. x.reconciliation_items) (sym (ok-injective h7))
      ∙ claim_edit-items data_in.version doc_id _ c in
    book_of-Kept i old new _ (sym (ap (get i) same) ∙ after) kept
