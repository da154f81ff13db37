-- ===== src/Inventory/Locks.antt =====
-- The locks on the balances (backend/app/services/inventory_service.py, sort_keys and lock_balances).
use manufacturing_erp_lite.Prelude.{
  ◌≡◌, refl, ap, ◌∙◌, Bool, true, false, ◌||◌, Option, some, none, List, [], ◌∷◌, arith, All,
  pair_beq, inl, inr, Bool-cases, Option-cases, pair_beq_iff, pair_eq,
}
use manufacturing_erp_lite.Prelude.Assoc.{get}
use manufacturing_erp_lite.Store.{Db, InventoryBalance}
use manufacturing_erp_lite.Inventory.{
  Key, key_lt, insert_key, sort_keys, has_key, new_balance, lock_balance, lock_each, lock_balances,
}

-- Each key stands strictly before all that follow it: ascending, and no key twice.
abbrev pub IsAscending : List Key → Type 0
IsAscending [] = Unit
IsAscending (k ∷ ks) = All (λ j. key_lt k j ≡ true) ks × IsAscending ks

key_lt_trans : (a b c : Key) → key_lt a b ≡ true → key_lt b c ≡ true → key_lt a c ≡ true
key_lt_trans a b c h k = ground arith

key_lt_total : (a b : Key) → pair_beq a b ≡ false → key_lt a b ≡ false → key_lt b a ≡ true
key_lt_total a b h k = ground arith

All-key_lt :
    (a b : Key) (ks : List Key)
    → key_lt a b ≡ true
    → All (λ j. key_lt b j ≡ true) ks
    → All (λ j. key_lt a j ≡ true) ks
All-key_lt a b [] h all = tt
All-key_lt a b (k ∷ ks) h all = (key_lt_trans a b k h all.0, All-key_lt a b ks h all.1)

All-insert_key :
    (a k : Key) (ks : List Key)
    → key_lt a k ≡ true
    → All (λ j. key_lt a j ≡ true) ks
    → All (λ j. key_lt a j ≡ true) (insert_key k ks)
unfolding insert_key
All-insert_key a k [] h all = (h, tt)
All-insert_key a k (j ∷ js) h all = ground (arith, All-insert_key a k js h all.1)

insert_key-IsAscending : (k : Key) (ks : List Key) → IsAscending ks → IsAscending (insert_key k ks)
unfolding insert_key
insert_key-IsAscending k [] h = (tt, tt)
insert_key-IsAscending k (j ∷ js) h = elim (Bool-cases (pair_beq k j)) [
  | inl same ↦ rw same h
  | inr other ↦ rw other (elim (Bool-cases (key_lt k j)) [
    | inl less ↦ rw less ((less, All-key_lt k j js less h.0), h)
    | inr more ↦
        rw more
          (All-insert_key j k js (key_lt_total k j other more) h.0, insert_key-IsAscending k js h.1)
  ])
]

has_key-insert_key :
    (a k : Key) (ks : List Key) → has_key a (insert_key k ks) ≡ (pair_beq a k || has_key a ks)
unfolding insert_key
has_key-insert_key a k [] = refl
has_key-insert_key a k (j ∷ js) = ground (arith, has_key-insert_key a k js)

pub sort_keys-IsAscending : (ks : List Key) → IsAscending (sort_keys ks)
unfolding sort_keys
sort_keys-IsAscending [] = tt
sort_keys-IsAscending (k ∷ ks) = insert_key-IsAscending k (sort_keys ks) (sort_keys-IsAscending ks)

has_key-sort_keys : (a : Key) (ks : List Key) → has_key a (sort_keys ks) ≡ has_key a ks
unfolding sort_keys
has_key-sort_keys a [] = refl
has_key-sort_keys a (k ∷ ks) = rw has_key-insert_key (rw (has_key-sort_keys a ks) refl)

-- The calls of `lock_balance` that lead from one database to another, by the keys that they lock.
pub data Locked : Db → List Key → Db → Type 0 where
  no_lock : {db : Db} → Locked db [] db
  then_lock :
      {db db' : Db} (key : Key) {keys : List Key}
      → Locked (lock_balance key db) keys db'
      → Locked db (key ∷ keys) db'

-- The row of a balance once its lock is asked for, or not: a row that is there stays as it is, and
-- a row that is missing is made with quantity and amount 0 where it is asked for.
abbrev pub locked_row : Bool → Option InventoryBalance → Option InventoryBalance
locked_row asked (some row) = some row
locked_row true none = some new_balance
locked_row false none = none

unlocked_row : (o : Option InventoryBalance) → o ≡ locked_row false o
unlocked_row none = refl
unlocked_row (some row) = refl

locked_row-twice :
    (a b : Bool) (o : Option InventoryBalance)
    → locked_row b (locked_row a o) ≡ locked_row (a || b) o
locked_row-twice a b (some row) = refl
locked_row-twice true b none = refl
locked_row-twice false b none = refl

get-lock_balance :
    (k key : Key) (db : Db)
    → get k (lock_balance key db).balances ≡ locked_row (pair_beq k key) (get k db.balances)
unfolding lock_balance get
get-lock_balance k key db = elim (Option-cases (get key db.balances)) [
  | inl absent ↦
      rw (absent, lock_balance)
        (elim (Bool-cases (pair_beq k key)) [
          | inl same ↦
              let missing : get k db.balances ≡ none =
                ap (λ j. get j db.balances) ((pair_beq_iff k key).0 same) ∙ absent in
              rw (same, missing) refl
          | inr other ↦ rw other (unlocked_row (get k db.balances))
        ])
  | inr (row, found) ↦
      rw (found, lock_balance)
        (elim (Bool-cases (pair_beq k key)) [
          | inl same ↦
              let there : get k db.balances ≡ some row =
                ap (λ j. get j db.balances) ((pair_beq_iff k key).0 same) ∙ found in
              rw (there) refl
          | inr other ↦ rw other (unlocked_row (get k db.balances))
        ])
]

get-lock_each :
    (k : Key) (keys : List Key) (db : Db)
    → get k (lock_each keys db).balances ≡ locked_row (has_key k keys) (get k db.balances)
unfolding lock_each
get-lock_each k [] db = unlocked_row (get k db.balances)
get-lock_each k (key ∷ keys) db =
    rw (get-lock_each k keys (lock_balance key db), get-lock_balance k key db)
      (locked_row-twice (pair_beq k key) (has_key k keys) (get k db.balances))

-- The keys that `lock_balances` gives its caller are exactly those that were asked for. Afterwards
-- each of them has a balance, a new one of quantity and amount 0 where there was none, and every
-- balance that was there is as it was.
pub get-lock_balances :
    (keys : List Key) (db : Db) (k : Key)
    → let locks = lock_balances keys db in
      (has_key k locks.0 ≡ has_key k keys)
      × (get k (locks.1).balances ≡ locked_row (has_key k keys) (get k db.balances))
unfolding lock_balances
get-lock_balances keys db k =
    let same = has_key-sort_keys k keys in
    (same, get-lock_each k (sort_keys keys) db ∙ ap (λ b. locked_row b (get k db.balances)) same)
