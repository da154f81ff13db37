-- ===== src/Query/Paging.antt =====
-- The pages of a list together are the list (the paging of backend/app/services/).
use manufacturing_erp_lite.Prelude.{
  ℕ, zero, suc, ◌+◌, ◌-◌, ◌*◌, ◌≤◌, ◌≡◌, refl, ap, sym, ◌∙◌, List, [], ◌∷◌, ◌++◌, length, arith,
}
use native.Mathlib.Nat.{suc-mul}
use manufacturing_erp_lite.Query.{offset, limit, page_of}

module _ {ℓ} {A : Type ℓ} where
  limit-offset : (n m : ℕ) (xs : List A) → limit n xs ++ limit m (offset n xs) ≡ limit (n + m) xs
  unfolding limit offset
  limit-offset zero m xs = let e : m ≡ 0 + m = omega arith in ap (λ k. limit k xs) e
  limit-offset (suc n) zero [] = let e : suc n + zero ≡ suc (n + zero) = omega arith in rw e refl
  limit-offset (suc n) (suc m) [] =
      let e : suc n + suc m ≡ suc (n + suc m) = omega arith in rw e refl
  limit-offset (suc n) m (x ∷ xs) =
      let e : suc n + m ≡ suc (n + m) = omega arith in rw e (ap (λ l. x ∷ l) (limit-offset n m xs))

  limit-length : (n : ℕ) (xs : List A) → length xs ≤ n → limit n xs ≡ xs
  unfolding limit
  limit-length zero [] h = refl
  limit-length zero (x ∷ xs) h = absurd (omega arith)
  limit-length (suc n) [] h = refl
  limit-length (suc n) (x ∷ xs) h = ap (λ l. x ∷ l) (limit-length n xs (omega arith))

  -- The first pages, one after the other.
  unfoldable pub pages : ℕ → ℕ → List A → List A
  pages zero page_size rows = []
  pages (suc n) page_size rows = pages n page_size rows ++ page_of (suc n) page_size rows

  pages-limit :
      (n page_size : ℕ) (rows : List A) → pages n page_size rows ≡ limit (n * page_size) rows
  unfolding pages limit page_of
  pages-limit zero page_size rows =
      let e : 0 ≡ 0 * page_size = omega arith in ap (λ k. limit k rows) e
  pages-limit (suc n) page_size rows =
      let first = pages-limit n page_size rows in
      let start : suc n - 1 ≡ n = omega arith in
      let size : n * page_size + page_size ≡ suc n * page_size = sym (suc-mul n page_size) in
      rw first
        (rw start (limit-offset (n * page_size) page_size rows ∙ ap (λ k. limit k rows) size))

  -- The pages of a list, read one after the other, give every row once and in the list's order, when
  -- there are enough of them for the rows.
  pub pages-all :
      (n page_size : ℕ) (rows : List A)
      → length rows ≤ n * page_size
      → pages n page_size rows ≡ rows
  pages-all n page_size rows h = pages-limit n page_size rows ∙ limit-length (n * page_size) rows h
