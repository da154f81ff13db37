-- ===== src/Inventory/Keys.antt =====
-- `sort_keys` of backend/app/services/inventory_service.py: (warehouse_id, material_id) ascending,
-- each key once.
use manufacturing_erp_lite.Prelude.{
  ℕ, Bool, false, ◌&&◌, ◌||◌, List, [], ◌∷◌, if◌then◌else◌, ltb, ◌==◌, pair_beq,
}

abbrev pub Key : Type 0
Key = ℕ × ℕ

-- Python's order on pairs.
abbrev pub key_lt : Key → Key → Bool
key_lt p q = ltb p.0 q.0 || p.0 == q.0 && ltb p.1 q.1

unfoldable pub insert_key : Key → List Key → List Key
insert_key k [] = k ∷ []
insert_key k (j ∷ js) =
    if pair_beq k j then j ∷ js else if key_lt k j then k ∷ j ∷ js else j ∷ insert_key k js

-- `sorted(set(keys))`
unfoldable pub sort_keys : List Key → List Key
unfolding insert_key
sort_keys [] = []
sort_keys (k ∷ ks) = insert_key k (sort_keys ks)

abbrev pub has_key : Key → List Key → Bool
has_key k [] = false
has_key k (j ∷ js) = pair_beq k j || has_key k js
