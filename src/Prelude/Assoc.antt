-- ===== src/Prelude/Assoc.antt =====
-- A table as an association list: a row beside its key, the newest first. SQL gives rows in no
-- order; where the source sorts, the model sorts.
use manufacturing_erp_lite.Prelude.Tests.{Eq, Bool-cases, Option-cases, none-some, if◌then◌else◌}
use manufacturing_erp_lite.Prelude.Lists.{All}
use mathlib.Core.Path.{◌≡◌, refl, subst}
use mathlib.Core.Logic.{inl, inr}
use mathlib.Core.Bool.{Bool, true, false}
use mathlib.Core.Option.{Option, none, some, some-injective}
use mathlib.Core.List.{List, [], ◌∷◌}

abbrev pub Assoc {ℓ κ} : Type ℓ → Type κ → Type (ℓ ⊔ κ)
Assoc K V = List (K × V)

-- Every row of a table satisfies a predicate.
abbrev pub AllRows {ℓ κ μ} : {K : Type ℓ} {V : Type κ} → (V → Type μ) → Assoc K V → Type μ
AllRows P = All (λ r. P r.1)

module _ {ℓ κ} {K : Type ℓ} {V : Type κ} ⦃e : Eq K⦄ where
  -- The row with this key.
  unfoldable pub get : K → Assoc K V → Option V
  get k [] = none
  get k ((j, v) ∷ t) = if e.beq k j then some v else get k t

  -- UPDATE of the row with this key; a missing key changes nothing.
  unfoldable pub set : K → V → Assoc K V → Assoc K V
  set k w [] = []
  set k w ((j, v) ∷ t) = if e.beq k j then (j, w) ∷ t else (j, v) ∷ set k w t

  -- DELETE of the row with this key.
  unfoldable pub erase : K → Assoc K V → Assoc K V
  erase k [] = []
  erase k ((j, v) ∷ t) = let rest = erase k t in if e.beq k j then rest else (j, v) ∷ rest

  pub get-set_self :
      (k : K) (v w : V) (t : Assoc K V) → get k t ≡ some v → get k (set k w t) ≡ some w
  unfolding get set
  get-set_self k v w [] h = cc
  get-set_self k v w ((j, u) ∷ t) h = elim (Bool-cases (e.beq k j)) [
    | inl same ↦ rw same (rw same refl)
    | inr other ↦ rw other (rw other (get-set_self k v w t (rw other at h)))
  ]

  pub get-set_ne :
      (k j : K) (w : V) (t : Assoc K V) → e.beq j k ≡ false → get j (set k w t) ≡ get j t
  unfolding get set
  get-set_ne k j w [] h = refl
  get-set_ne k j w ((i, u) ∷ t) h = elim (Bool-cases (e.beq k i)) [
    | inl same ↦ let eq = (e.beq_iff k i).0 same in rw same (rw (← eq) (rw h refl))
    | inr other ↦ rw other (elim (Bool-cases (e.beq j i)) [
      | inl here ↦ rw here refl
      | inr there ↦ rw there (get-set_ne k j w t h)
    ])
  ]

  pub AllRows-set {μ} :
      (P : V → Type μ) (k : K) (w : V) (t : Assoc K V) → P w → AllRows P t → AllRows P (set k w t)
  unfolding set
  AllRows-set P k w [] p h = h
  AllRows-set P k w ((j, v) ∷ t) p h = elim (Bool-cases (e.beq k j)) [
    | inl same ↦ rw same (p, h.1)
    | inr other ↦ rw other (h.0, AllRows-set P k w t p h.1)
  ]

  pub AllRows-get {μ} :
      (P : V → Type μ) (k : K) (t : Assoc K V) {v : V} → get k t ≡ some v → AllRows P t → P v
  unfolding get
  AllRows-get P k [] h all = absurd (cc)
  AllRows-get P k ((j, u) ∷ t) h all = elim (Bool-cases (e.beq k j)) [
    | inl same ↦ subst P (some-injective _ _ (rw same at h)) all.0
    | inr other ↦ AllRows-get P k t (rw other at h) all.1
  ]

  -- An update adds no key.
  pub get-set-none : (k j : K) (w : V) (t : Assoc K V) → get k t ≡ none → get k (set j w t) ≡ none
  unfolding get set
  get-set-none k j w [] h = refl
  get-set-none k j w ((i, u) ∷ t) h = elim (Bool-cases (e.beq k i)) [
    | inl here ↦ let bad : some u ≡ none = rw here at h in absurd (cc)
    | inr there ↦ elim (Bool-cases (e.beq j i)) [
      | inl same ↦ rw same (rw there (rw there at h))
      | inr other ↦ rw other (rw there (get-set-none k j w t (rw there at h)))
    ]
  ]

  -- UPDATE of the row with this key by a function of the row; a missing key changes nothing.
  unfoldable pub update : (V → V) → K → Assoc K V → Assoc K V
  unfolding get set
  update f k t = elim (get k t) [ none ↦ t | some v ↦ set k (f v) t ]

  -- UPDATE of the row with this key where a condition holds of it; `none` where no row is changed.
  unfoldable pub update_where : (V → Bool) → (V → V) → K → Assoc K V → Option (Assoc K V)
  update_where c f k t = elim (get k t) [
    | none ↦ none
    | some v ↦ if c v then some (set k (f v) t) else none
  ]

  pub get-update_self :
      (f : V → V) (k : K) (t : Assoc K V) {v : V}
      → get k t ≡ some v
      → get k (update f k t) ≡ some (f v)
  unfolding update get
  get-update_self f k t {v} h = rw (h, update) (get-set_self k v (f v) t h)

  pub get-update_ne :
      (f : V → V) (k j : K) (t : Assoc K V) → e.beq j k ≡ false → get j (update f k t) ≡ get j t
  unfolding update get
  get-update_ne f k j t h = elim (Option-cases (get k t)) [
    | inl absent ↦ rw (absent, update) refl
    | inr (v, found) ↦ rw (found, update) (get-set_ne k j (f v) t h)
  ]

  -- What a conditional UPDATE that changed a row has found and done.
  pub update_where-eq-some :
      (c : V → Bool) (f : V → V) (k : K) (t : Assoc K V) {t' : Assoc K V}
      → update_where c f k t ≡ some t'
      → (v : V) × (get k t ≡ some v) × (c v ≡ true) × (set k (f v) t ≡ t')
  unfolding update_where
  update_where-eq-some c f k t {t'} h = elim (Option-cases (get k t)) [
    | inl absent ↦ none-some (rw (absent, update_where) at h)
    | inr (v, found) ↦
        let h' = rw (found, update_where) at h in
        elim (Bool-cases (c v)) [
          | inl holds ↦ (v, found, holds, some-injective _ _ (rw holds at h'))
          | inr fails ↦ none-some (rw fails at h')
        ]
  ]

  -- The later of two updates stands.
  pub set-set : (k : K) (v w : V) (t : Assoc K V) → set k w (set k v t) ≡ set k w t
  unfolding set
  set-set k v w [] = refl
  set-set k v w ((j, u) ∷ t) = elim (Bool-cases (e.beq k j)) [
    | inl same ↦ rw same (rw same refl)
    | inr other ↦ rw other (rw other (rw (set-set k v w t) refl))
  ]

  pub update-set :
      (f : V → V) (k : K) (v w : V) (t : Assoc K V)
      → get k t ≡ some v
      → update f k (set k w t) ≡ set k (f w) t
  unfolding update get
  update-set f k v w t h = rw (get-set_self k v w t h, update) (set-set k w (f w) t)

  -- Writing what is there changes nothing.
  pub set-get : (k : K) (v : V) (t : Assoc K V) → get k t ≡ some v → set k v t ≡ t
  unfolding set get
  set-get k v [] h = refl
  set-get k v ((j, u) ∷ t) h = elim (Bool-cases (e.beq k j)) [
    | inl same ↦
        let here : u ≡ v = some-injective _ _ (rw same at h) in
        rw same (subst (λ x. (j, x) ∷ t ≡ (j, u) ∷ t) here refl)
    | inr other ↦ rw other (rw (set-get k v t (rw other at h)) refl)
  ]

  -- A conditional UPDATE of a row that is there and meets the condition.
  pub update_where-some :
      (c : V → Bool) (f : V → V) (k : K) (t : Assoc K V) {v : V}
      → get k t ≡ some v
      → c v ≡ true
      → update_where c f k t ≡ some (set k (f v) t)
  unfolding update_where get
  update_where-some c f k t found holds = rw (found, update_where) (rw holds refl)

  pub get-erase_self : (k : K) (t : Assoc K V) → get k (erase k t) ≡ none
  unfolding get erase
  get-erase_self k [] = refl
  get-erase_self k ((j, v) ∷ t) = elim (Bool-cases (e.beq k j)) [
    | inl same ↦ rw same (get-erase_self k t)
    | inr other ↦ rw other (rw other (get-erase_self k t))
  ]

  pub get-erase_ne : (k j : K) (t : Assoc K V) → e.beq j k ≡ false → get j (erase k t) ≡ get j t
  unfolding get erase
  get-erase_ne k j [] h = refl
  get-erase_ne k j ((i, v) ∷ t) h = elim (Bool-cases (e.beq k i)) [
    | inl same ↦
        let eq = (e.beq_iff k i).0 same in
        let away : e.beq j i ≡ false = subst (λ x. e.beq j x ≡ false) eq h in
        rw same (rw away (get-erase_ne k j t h))
    | inr other ↦ rw other (elim (Bool-cases (e.beq j i)) [
      | inl here ↦ rw here refl
      | inr there ↦ rw there (get-erase_ne k j t h)
    ])
  ]
