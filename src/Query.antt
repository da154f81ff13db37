-- ===== src/Query.antt =====
-- What the list functions of backend/app/services/ ask the database: WHERE, ORDER BY, OFFSET and
-- LIMIT, and the count of the rows that match.
pub mod Paging
pub mod Members
use manufacturing_erp_lite.Prelude.{
  ℕ, zero, suc, ◌-◌, ◌*◌, Bool, true, Option, none, some, List, [], ◌∷◌, if◌then◌else◌, ◌==◌, leb,
  length,
}
use manufacturing_erp_lite.Prelude.Assoc.{Assoc}

module _ {ℓ} {A : Type ℓ} where
  -- WHERE
  unfoldable pub where_rows : (A → Bool) → List A → List A
  where_rows cond [] = []
  where_rows cond (x ∷ xs) = let rest = where_rows cond xs in if cond x then x ∷ rest else rest

  -- ORDER BY: the row goes before the first row that it may precede.
  unfoldable pub insert_row : (A → A → Bool) → A → List A → List A
  insert_row before x [] = x ∷ []
  insert_row before x (y ∷ ys) = if before x y then x ∷ y ∷ ys else y ∷ insert_row before x ys

  unfoldable pub order_by : (A → A → Bool) → List A → List A
  unfolding insert_row
  order_by before [] = []
  order_by before (x ∷ xs) = insert_row before x (order_by before xs)

  -- OFFSET
  unfoldable pub offset : ℕ → List A → List A
  offset zero xs = xs
  offset (suc n) [] = []
  offset (suc n) (x ∷ xs) = offset n xs

  -- LIMIT
  unfoldable pub limit : ℕ → List A → List A
  limit zero xs = []
  limit (suc n) [] = []
  limit (suc n) (x ∷ xs) = x ∷ limit n xs

  -- `.offset((page - 1) * page_size).limit(page_size)`; pages count from 1.
  unfoldable pub page_of : ℕ → ℕ → List A → List A
  unfolding offset limit
  page_of page page_size rows = limit page_size (offset ((page - 1) * page_size) rows)

  -- The rows of the page, and the total.
  unfoldable pub paged : ℕ → ℕ → List A → List A × ℕ
  unfolding page_of
  paged page page_size rows = (page_of page page_size rows, length rows)

module _ {ℓ} {V : Type ℓ} where
  abbrev pub ascending : ℕ × V → ℕ × V → Bool
  ascending x y = leb x.0 y.0

  abbrev pub descending : ℕ × V → ℕ × V → Bool
  descending x y = leb y.0 x.0

-- A filter that the request may leave out.
abbrev pub if_given {ℓ κ} : {A : Type ℓ} {B : Type κ} → (A → B → Bool) → Option A → B → Bool
if_given test none x = true
if_given test (some given) x = test given x
