-- ===== src/Numbering.antt =====
-- backend/app/services/numbering_service.py: the sequences that number documents. The upsert runs
-- under the lock of its row, so allocations happen one after the other.
pub mod Unique
use manufacturing_erp_lite.Prelude.{ℕ, suc, Option, none, some, ◌∷◌, if◌then◌else◌, pair_eq}
use manufacturing_erp_lite.Prelude.Assoc.{Assoc, get, set}
use manufacturing_erp_lite.Enums.{SequenceKey, is_global_key, sequence_code}
use manufacturing_erp_lite.Store.{Db, DocumentNo}

-- 1970-01-01
abbrev pub global_date : ℕ
global_date = 0

-- INSERT current_value 1, ON DUPLICATE KEY UPDATE current_value + 1; then the row read back.
upsert : ℕ × ℕ → Option ℕ → Assoc (ℕ × ℕ) ℕ → ℕ × Assoc (ℕ × ℕ) ℕ
upsert row none t = (1, (row, 1) ∷ t)
upsert row (some current) t = (suc current, set row (suc current) t)

abbrev sequence_day : SequenceKey → Option ℕ → ℕ → ℕ
sequence_day key none today = if is_global_key key then global_date else today
sequence_day key (some day) today = day

-- `sequence_date` is `none` where the caller gives none; `today` is the clock's.
unfoldable pub next_sequence_value : SequenceKey → Option ℕ → ℕ → Db → ℕ × Db
unfolding upsert get set
next_sequence_value key sequence_date today db =
    let row : ℕ × ℕ = (sequence_code key, sequence_day key sequence_date today) in
    let (value, t) = upsert row (get row db.sequences) db.sequences in
    (value, record db { sequences = t })

-- MAT, SUP and WH numbers: `next_code`, whose date is the global one.
unfoldable pub next_code : SequenceKey → ℕ → Db → DocumentNo × Db
unfolding next_sequence_value
next_code key today db =
    let (seq, db') = next_sequence_value key none today db in
    (record { key = key; day = sequence_day key none today; seq = seq }, db')

unfoldable pub next_daily_code : SequenceKey → ℕ → Db → DocumentNo × Db
unfolding next_sequence_value
next_daily_code key day db =
    let (seq, db') = next_sequence_value key (some day) day db in
    (record { key = key; day = day; seq = seq }, db')
