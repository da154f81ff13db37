-- ===== src/Requisition/Related.antt =====
-- How the rows of a table of requisitions move, row by row (the UPDATEs of
-- backend/app/services/purchase_requisition_service.py).
use manufacturing_erp_lite.Prelude.{
  ℕ, zero, suc, ◌≡◌, refl, ap, ◌∙◌, sym, subst, Bool, true, some, inl, inr, Bool-cases,
  Option-cases, ◌==◌, ==_iff, nat_eq,
}
use mathlib.Core.Option
use manufacturing_erp_lite.Prelude.Assoc.{
  Assoc, get, set, update, get-set_self, get-set_ne, update_where-eq-some,
}
use manufacturing_erp_lite.Enums.{PrStatus, pr_ordinal, is_pr_status}
use manufacturing_erp_lite.Store.{Db, PurchaseRequisition}
use manufacturing_erp_lite.Requisition.Defs.{claim_pr}

abbrev pub Prs : Type 0
Prs = Assoc ℕ PurchaseRequisition

-- Every row is still there, and its old and new versions are related.
abbrev pub Related : (PurchaseRequisition → PurchaseRequisition → Type 0) → Prs → Prs → Type 0
Related R t t' =
    (id : ℕ) (row : PurchaseRequisition)
    → get id t ≡ some row
    → (row' : PurchaseRequisition) × (get id t' ≡ some row') × R row row'

abbrev pub SameStatus : PurchaseRequisition → PurchaseRequisition → Type 0
SameStatus row row' = row'.status ≡ row.status

module _ (R : PurchaseRequisition → PurchaseRequisition → Type 0)
    (same : (row : PurchaseRequisition) → R row row) where
  pub set-Related :
      (k : ℕ) (t : Prs) {v w : PurchaseRequisition}
      → get k t ≡ some v
      → R v w
      → Related R t (set k w t)
  set-Related k t {v} {w} found r id row there = elim (Bool-cases (id == k)) [
    | inl here ↦
        let e : id ≡ k = (==_iff id k).0 here in
        let old : v ≡ row =
          Option.some-injective _ _ (sym found ∙ subst (λ j. get j t ≡ some row) e there) in
        (
          w,
          subst (λ j. get j (set k w t) ≡ some w) (sym e) (get-set_self k v w t found),
          subst (λ x. R x w) old r,
        )
    | inr other ↦ (row, get-set_ne k id w t other ∙ there, same row)
  ]

  pub update-Related :
      (f : PurchaseRequisition → PurchaseRequisition) (k : ℕ) (t : Prs)
      → ((row : PurchaseRequisition) → get k t ≡ some row → R row (f row))
      → Related R t (update f k t)
  unfolding update get
  update-Related f k t r = elim (Option-cases (get k t)) [
    | inl absent ↦ λ id row there. (row, rw (absent, update) there, same row)
    | inr (v, found) ↦
        λ id row there. rw (found, update) (set-Related k t found (r v found) id row there)
  ]

  -- A claim relates each row to itself or, where its condition holds, to what it makes of it.
  pub claim_pr-Related :
      (expected : PurchaseRequisition → Bool) (change : PurchaseRequisition → PurchaseRequisition)
      (pr_id : ℕ) (db : Db) {db' : Db}
      → ((row : PurchaseRequisition)
          → expected row ≡ true
          → R row (record (change row) { version = suc row.version }))
      → claim_pr expected change pr_id db ≡ some db'
      → Related R db.requisitions db'.requisitions
  unfolding claim_pr
  claim_pr-Related expected change pr_id db r h =
      let (t, changed, e) = (Option.map-eq-some_iff _ _).0 h in
      let (row, found, holds, set_it) = update_where-eq-some _ _ _ _ changed in
      subst (λ x. Related R db.requisitions x.requisitions) e
        (subst (Related R db.requisitions) set_it
          (set-Related pr_id db.requisitions found (r row holds)))

-- What a claim leaves in the row.
pub claim_pr-status :
    (expected : PurchaseRequisition → Bool) (change : PurchaseRequisition → PurchaseRequisition)
    (target : PrStatus) (pr_id : ℕ) (db : Db) {db' : Db} {row' : PurchaseRequisition}
    → ((row : PurchaseRequisition) → expected row ≡ true → (change row).status ≡ target)
    → claim_pr expected change pr_id db ≡ some db'
    → get pr_id db'.requisitions ≡ some row'
    → row'.status ≡ target
unfolding claim_pr
claim_pr-status expected change target pr_id db {row' = row'} r h there =
    let (t, changed, e) = (Option.map-eq-some_iff _ _).0 h in
    let (row, found, holds, set_it) = update_where-eq-some _ _ _ _ changed in
    let after : PurchaseRequisition = record (change row) { version = suc row.version } in
    let written : get pr_id t ≡ some after =
      subst (λ x. get pr_id x ≡ some after) set_it
        (get-set_self pr_id row after db.requisitions found) in
    let is_row : row' ≡ after =
      Option.some-injective _ _
        (sym there ∙ subst (λ x. get pr_id x.requisitions ≡ some after) e written) in
    ap (λ x. x.status) is_row ∙ r row holds

-- What a claim leaves in the row, read by `field`.
pub claim_pr-leaves {ℓ} :
    {A : Type ℓ} (field : PurchaseRequisition → A) (expected : PurchaseRequisition → Bool)
    (change : PurchaseRequisition → PurchaseRequisition) (pr_id : ℕ) (db : Db) {db' : Db} {a : A}
    → ((row : PurchaseRequisition) → field (record (change row) { version = suc row.version }) ≡ a)
    → claim_pr expected change pr_id db ≡ some db'
    → (row' : PurchaseRequisition) × (get pr_id db'.requisitions ≡ some row') × (field row' ≡ a)
unfolding claim_pr
claim_pr-leaves field expected change pr_id db r h =
    let (t, changed, e) = (Option.map-eq-some_iff _ _).0 h in
    let (row, found, holds, set_it) = update_where-eq-some _ _ _ _ changed in
    let after : PurchaseRequisition = record (change row) { version = suc row.version } in
    let written : get pr_id t ≡ some after =
      subst (λ x. get pr_id x ≡ some after) set_it
        (get-set_self pr_id row after db.requisitions found) in
    (after, subst (λ x. get pr_id x.requisitions ≡ some after) e written, r row)

pub Related-trans :
    (R S T : PurchaseRequisition → PurchaseRequisition → Type 0)
    → ((a b c : PurchaseRequisition) → R a b → S b c → T a c)
    → (t u v : Prs) → Related R t u
    → Related S u v
    → Related T t v
Related-trans R S T both t u v f g id row there =
    let (row', there', r) = f id row there in
    let (row'', there'', s) = g id row' there' in (row'', there'', both row row' row'' r s)

abbrev pr_of : ℕ → PrStatus
pr_of zero = PrStatus.draft
pr_of (suc zero) = PrStatus.pending
pr_of (suc (suc zero)) = PrStatus.approved
pr_of (suc (suc (suc zero))) = PrStatus.rejected
pr_of (suc (suc (suc (suc zero)))) = PrStatus.cancelled
pr_of (suc (suc (suc (suc (suc n))))) = PrStatus.converted

pr_of-ordinal : (s : PrStatus) → pr_of (pr_ordinal s) ≡ s
pr_of-ordinal PrStatus.draft = refl
pr_of-ordinal PrStatus.pending = refl
pr_of-ordinal PrStatus.approved = refl
pr_of-ordinal PrStatus.rejected = refl
pr_of-ordinal PrStatus.cancelled = refl
pr_of-ordinal PrStatus.converted = refl

pub is_pr_status-eq : (a b : PrStatus) → is_pr_status a b ≡ true → a ≡ b
is_pr_status-eq a b h =
    sym (pr_of-ordinal a) ∙ ap pr_of ((==_iff (pr_ordinal a) (pr_ordinal b)).0 h) ∙ pr_of-ordinal b
