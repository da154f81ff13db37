-- ===== src/Numbering/Unique.antt =====
-- No document number is given twice (backend/app/services/numbering_service.py).
use manufacturing_erp_lite.Prelude.{
  ℕ, suc, ◌≤◌, ◌<◌, ◌≡◌, ◌≢◌, refl, ap, sym, subst, Option, none, some, true, false, List, [], ◌∷◌,
  inl, inr, arith, All, Bool-cases, pair_beq, pair_beq_iff, pair_eq,
}
use manufacturing_erp_lite.Prelude.Assoc.{Assoc, get, get-set_self, get-set_ne}
use manufacturing_erp_lite.Enums.{SequenceKey, sequence_code}
use manufacturing_erp_lite.Store.{Db, DocumentNo}
use manufacturing_erp_lite.Numbering.{upsert, next_daily_code}

abbrev or_zero : Option ℕ → ℕ
or_zero none = 0
or_zero (some v) = v

-- The last number given in a series on a day, 0 where none was.
abbrev pub current : ℕ × ℕ → Db → ℕ
current row db = or_zero (get row db.sequences)

pair_beq_refl : (p : ℕ × ℕ) → pair_beq p p ≡ true
pair_beq_refl p = (pair_beq_iff p p).1 refl

upsert_self :
    (row : ℕ × ℕ) (o : Option ℕ) (t : Assoc (ℕ × ℕ) ℕ)
    → get row t ≡ o
    → ((upsert row o t).0 ≡ suc (or_zero o)) × (get row (upsert row o t).1 ≡ some (suc (or_zero o)))
unfolding upsert get
upsert_self row none t h = (refl, rw (pair_beq_refl row) refl)
upsert_self row (some v) t h = (refl, get-set_self row v (suc v) t h)

upsert_other :
    (row j : ℕ × ℕ) (o : Option ℕ) (t : Assoc (ℕ × ℕ) ℕ)
    → pair_beq j row ≡ false
    → get j (upsert row o t).1 ≡ get j t
unfolding upsert get
upsert_other row j none t h = rw h refl
upsert_other row j (some v) t h = get-set_ne row j (suc v) t h

module _ (key : SequenceKey) (day : ℕ) (db : Db) where
  abbrev row : ℕ × ℕ
  row = (sequence_code key, day)

  abbrev after : Db
  after = (next_daily_code key day db).1

  seq-next_daily_code : (next_daily_code key day db).0.seq ≡ suc (current row db)
  unfolding next_daily_code
  seq-next_daily_code = (upsert_self row (get row db.sequences) db.sequences refl).0

  current-next_daily_code : current row after ≡ suc (current row db)
  unfolding next_daily_code
  current-next_daily_code = ap or_zero (upsert_self row (get row db.sequences) db.sequences refl).1

  current_other : (j : ℕ × ℕ) → pair_beq j row ≡ false → current j after ≡ current j db
  unfolding next_daily_code
  current_other j h = ap or_zero (upsert_other row j (get row db.sequences) db.sequences h)

  -- No counter goes back.
  current_le : (j : ℕ × ℕ) → current j db ≤ current j after
  current_le j = elim (Bool-cases (pair_beq j row)) [
    | inl same ↦
        let e = (pair_beq_iff j row).0 same in
        subst (λ k. current k db ≤ current k after) (sym e) (omega (arith, current-next_daily_code))
    | inr other ↦ omega (arith, current_other j other)
  ]

-- The numbers that a run of requests is given, one request after the other.
pub issue : List (SequenceKey × ℕ) → Db → List DocumentNo
issue [] db = []
issue ((key, day) ∷ rest) db = let (n, db') = next_daily_code key day db in n ∷ issue rest db'

abbrev row_of : DocumentNo → ℕ × ℕ
row_of n = (sequence_code n.key, n.day)

abbrev pub Distinct : List DocumentNo → Type 0
Distinct [] = Unit
Distinct (n ∷ rest) = All (λ other. n ≢ other) rest × Distinct rest

abbrev IsAbove : Db → DocumentNo → Type 0
IsAbove db n = current (row_of n) db < n.seq

All-mono :
    {P Q : DocumentNo → Type 0} (xs : List DocumentNo)
    → ((n : DocumentNo) → P n → Q n)
    → All P xs
    → All Q xs
All-mono [] f h = tt
All-mono (x ∷ xs) f h = (f x h.0, All-mono xs f h.1)

-- A new number is above all that was given before in its series.
issue-IsAbove : (requests : List (SequenceKey × ℕ)) (db : Db) → All (IsAbove db) (issue requests db)
unfolding issue next_daily_code
issue-IsAbove [] db = tt
issue-IsAbove ((key, day) ∷ rest) db =
    let later = issue-IsAbove rest (next_daily_code key day db).1 in
    let head : current (row key day db) db < (next_daily_code key day db).0.seq =
      omega (arith, seq-next_daily_code key day db) in
    (head, All-mono _ (λ n h. omega (arith, current_le key day db (row_of n))) later)

key_day :
    (key : SequenceKey) (day : ℕ) (db : Db)
    → row_of (next_daily_code key day db).0 ≡ (sequence_code key, day)
unfolding next_daily_code
key_day key day db = refl

IsAbove-ne :
    (key : SequenceKey) (day : ℕ) (db : Db) (m : DocumentNo)
    → IsAbove (next_daily_code key day db).1 m
    → (next_daily_code key day db).0 ≢ m
IsAbove-ne key day db m above e =
    let n = (next_daily_code key day db).0 in
    let same : IsAbove (after key day db) n = subst (IsAbove (after key day db)) (sym e) above in
    let here : current (row key day db) (after key day db) < n.seq =
      subst (λ r. current r (after key day db) < n.seq) (key_day key day db) same in
    absurd (omega (arith, current-next_daily_code key day db, seq-next_daily_code key day db))

-- However many requests are made, in whatever series and on whatever days, no two of the numbers
-- that they are given are the same.
pub issue-Distinct : (requests : List (SequenceKey × ℕ)) (db : Db) → Distinct (issue requests db)
unfolding issue
issue-Distinct [] db = tt
issue-Distinct ((key, day) ∷ rest) db =
    let (n, db') = next_daily_code key day db in
    (
      All-mono _ (λ m above. IsAbove-ne key day db m above) (issue-IsAbove rest db'),
      issue-Distinct rest db',
    )
