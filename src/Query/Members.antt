-- ===== src/Query/Members.antt =====
-- Which rows a query gives (the queries of backend/app/services/).
use manufacturing_erp_lite.Prelude.{
  ◌≡◌, sym, subst, Bool, true, List, [], ◌∷◌, ◌⊎◌, inl, inr, Bool-cases,
}
use mathlib.Core.List.{Memᴰ}
use mathlib.Core.List.Memᴰ.{head, tail, cases_cons}
use manufacturing_erp_lite.Query.{where_rows, insert_row, order_by}

module _ {ℓ} {A : Type ℓ} where
  pub where_rows-Memᴰ :
      (cond : A → Bool) (x : A) (xs : List A)
      → Memᴰ x (where_rows cond xs)
      → Memᴰ x xs × (cond x ≡ true)
  unfolding where_rows
  where_rows-Memᴰ cond x [] m = elim m [ ]
  where_rows-Memᴰ cond x (y ∷ ys) m = elim (Bool-cases (cond y)) [
    | inl holds ↦ elim (cases_cons (rw holds at m)) [
      | inl e ↦ (head e, subst (λ z. cond z ≡ true) (sym e) holds)
      | inr later ↦ let (there, met) = where_rows-Memᴰ cond x ys later in (tail there, met)
    ]
    | inr fails ↦ let (there, met) = where_rows-Memᴰ cond x ys (rw fails at m) in (tail there, met)
  ]

  pub Memᴰ-where_rows :
      (cond : A → Bool) (x : A) (xs : List A)
      → Memᴰ x xs
      → cond x ≡ true
      → Memᴰ x (where_rows cond xs)
  unfolding where_rows
  Memᴰ-where_rows cond x [] m holds = elim m [ ]
  Memᴰ-where_rows cond x (y ∷ ys) (head e) holds =
      let here = subst (λ z. cond z ≡ true) e holds in rw here (head e)
  Memᴰ-where_rows cond x (y ∷ ys) (tail m) holds = elim (Bool-cases (cond y)) [
    | inl kept ↦ rw kept (tail (Memᴰ-where_rows cond x ys m holds))
    | inr dropped ↦ rw dropped (Memᴰ-where_rows cond x ys m holds)
  ]

  insert_row-Memᴰ :
      (before : A → A → Bool) (x y : A) (ys : List A)
      → Memᴰ x (insert_row before y ys)
      → (x ≡ y) ⊎ Memᴰ x ys
  unfolding insert_row
  insert_row-Memᴰ before x y [] m = cases_cons m
  insert_row-Memᴰ before x y (z ∷ zs) m = elim (Bool-cases (before y z)) [
    | inl first ↦ cases_cons (rw first at m)
    | inr later ↦ elim (cases_cons (rw later at m)) [
      | inl e ↦ inr (head e)
      | inr rest ↦ elim (insert_row-Memᴰ before x y zs rest) [
        | inl e ↦ inl e
        | inr there ↦ inr (tail there)
      ]
    ]
  ]

  Memᴰ-insert_row :
      (before : A → A → Bool) (x y : A) (ys : List A)
      → (x ≡ y) ⊎ Memᴰ x ys
      → Memᴰ x (insert_row before y ys)
  unfolding insert_row
  Memᴰ-insert_row before x y [] (inl e) = head e
  Memᴰ-insert_row before x y [] (inr m) = elim m [ ]
  Memᴰ-insert_row before x y (z ∷ zs) m = elim (Bool-cases (before y z)) [
    | inl first ↦ rw first (elim m [ inl e ↦ head e | inr there ↦ tail there ])
    | inr later ↦ rw later (elim m [
      | inl e ↦ tail (Memᴰ-insert_row before x y zs (inl e))
      | inr there ↦ elim (cases_cons there) [
        | inl e ↦ head e
        | inr rest ↦ tail (Memᴰ-insert_row before x y zs (inr rest))
      ]
    ])
  ]

  pub order_by-Memᴰ :
      (before : A → A → Bool) (x : A) (xs : List A) → Memᴰ x (order_by before xs) → Memᴰ x xs
  unfolding order_by
  order_by-Memᴰ before x [] m = elim m [ ]
  order_by-Memᴰ before x (y ∷ ys) m = elim (insert_row-Memᴰ before x y (order_by before ys) m) [
    | inl e ↦ head e
    | inr there ↦ tail (order_by-Memᴰ before x ys there)
  ]

  pub Memᴰ-order_by :
      (before : A → A → Bool) (x : A) (xs : List A) → Memᴰ x xs → Memᴰ x (order_by before xs)
  unfolding order_by
  Memᴰ-order_by before x [] m = elim m [ ]
  Memᴰ-order_by before x (y ∷ ys) (head e) = Memᴰ-insert_row before x y (order_by before ys) (inl e)
  Memᴰ-order_by before x (y ∷ ys) (tail m) =
      Memᴰ-insert_row before x y (order_by before ys) (inr (Memᴰ-order_by before x ys m))
