-- ===== src/Reconciliation/Defs.antt =====
-- The inputs of backend/app/services/stock_reconciliation_service.py, its helpers and guards.
use manufacturing_erp_lite.Prelude.{
  ℕ, ◌*◌, Bool, true, false, not, Option, none, some, List, [], ◌∷◌, if◌then◌else◌, ◌==◌, leb,
  is_in, nat_eq, pair_beq, pair_eq,
}
use manufacturing_erp_lite.Prelude.Decimal.{Decimal, pos, neg, ◌-ℤ◌, ◌*ℤ◌, ltb_ℤ, leb_ℤ}
use manufacturing_erp_lite.Prelude.Assoc.{Assoc, get}
use manufacturing_erp_lite.Enums.{ReconciliationStatus, is_reconciliation_status, is_active}
use manufacturing_erp_lite.Errors
use manufacturing_erp_lite.Errors.{Result, ok, err, ◌>>=◌, ◌>>◌, raise_if, or_raise}
use mathlib.Core.Option
use manufacturing_erp_lite.Money.{money, in_context, quantize_half_up, quantize_half_even}
use manufacturing_erp_lite.Store.{
  Db, InventoryTransaction, StockReconciliation, StockReconciliationItem,
}
use manufacturing_erp_lite.Inventory.{Key}
use manufacturing_erp_lite.Inventory.Book.{key_of}

-- A rate as the client gives it, with any number of places: `coefficient` counts its last place, and
-- `scale` is the power of ten for the places after the fourth.
pub record Rate : Type 0 where
  pub coefficient : Decimal
  pub scale : ℕ

-- ReconciliationItemLine, ReconciliationCreate and ReconciliationApproveIn.
pub record LineIn : Type 0 where
  pub material_id : ℕ
  pub physical_quantity : Decimal
  pub valuation_rate : Option Rate

pub record ReconciliationIn : Type 0 where
  pub warehouse_id : ℕ
  pub items : List LineIn

pub record ApproveIn : Type 0 where
  pub override_self_approval : Bool
  pub has_override_reason : Bool

-- The three figures of the snapshot and the watermark of the ledger.
pub record Snapshot : Type 0 where
  pub quantity : Decimal
  pub total_amount : Decimal
  pub avg_cost : Decimal
  pub watermark : Option ℕ

unfoldable pub load_doc : Db → ℕ → Result StockReconciliation
load_doc db doc_id = or_raise (get doc_id db.reconciliations) Errors.reconciliation_not_found

unfoldable pub active_warehouse : Db → ℕ → Result (Unit {0})
active_warehouse db warehouse_id = do
  status ← or_raise (get warehouse_id db.warehouses) Errors.not_found
  raise_if (not (is_active status)) Errors.master_data_disabled

unfoldable pub assert_material_active : Db → ℕ → Result (Unit {0})
assert_material_active db material_id = do
  status ← or_raise (get material_id db.materials) Errors.not_found
  raise_if (not (is_active status)) Errors.master_data_disabled

abbrev larger : ℕ → Option ℕ → Option ℕ
larger i none = some i
larger i (some j) = if leb i j then some j else some i

-- `SELECT MAX(id)` of the ledger rows of one key; `none` is NULL.
unfoldable pub watermark : Key → Assoc ℕ InventoryTransaction → Option ℕ
watermark key [] = none
watermark key ((i, row) ∷ t) =
    let rest = watermark key t in if pair_beq key (key_of row) then larger i rest else rest

unfoldable pub snapshot : Db → Key → Snapshot
unfolding watermark
snapshot db key = elim (get key db.balances) [
  | none ↦ record {
    quantity = pos 0;
    total_amount = pos 0;
    avg_cost = pos 0;
    watermark = watermark key db.transactions;
  }
  | some row ↦ record {
    quantity = row.quantity;
    total_amount = row.total_amount;
    avg_cost = row.average_unit_cost;
    watermark = watermark key db.transactions;
  }
]

-- What `_amount_for` gives: the difference, the rate and the signed amount.
pub record Valued : Type 0 where
  pub difference : Decimal
  pub rate : Option Decimal
  pub amount : Decimal

-- `rate is None or rate <= 0`
abbrev pub lacks_rate : Option Decimal → Bool
lacks_rate none = true
lacks_rate (some rate) = leb_ℤ rate (pos 0)

-- `rate is None or rate <= 0`, of a client's rate.
abbrev pub lacks_input_rate : Option Rate → Bool
lacks_input_rate none = true
lacks_input_rate (some rate) = leb_ℤ rate.coefficient (pos 0)

-- `_q4(rate)`, with the context's ROUND_HALF_EVEN.
unfoldable pub q4 : Rate → Decimal
unfolding quantize_half_even
q4 rate = quantize_half_even rate.coefficient rate.scale

-- `money.money(diff * rate)`, with all places of the rate.
unfoldable pub surplus_amount : Decimal → Option Rate → Decimal
unfolding quantize_half_up in_context
surplus_amount diff none = pos 0
surplus_amount diff (some rate) =
    quantize_half_up (in_context (diff *ℤ rate.coefficient)) (1_000_000 * rate.scale)

-- A count and a book have 4 places, which `_q4` does not change.
unfoldable pub amount_for : LineIn → Decimal → Decimal → Result Valued
unfolding money in_context q4 surplus_amount
amount_for line snap_qty snap_avg =
    let diff = line.physical_quantity -ℤ snap_qty in
    if ltb_ℤ (pos 0) diff
    then if lacks_input_rate line.valuation_rate
      then err Errors.reconciliation_valuation_rate_required
      else ok (record {
        difference = diff;
        rate = Option.map q4 line.valuation_rate;
        amount = surplus_amount diff line.valuation_rate;
      })
    else if ltb_ℤ diff (pos 0)
    then ok (record {
      difference = diff;
      rate = none;
      amount = neg (money (in_context (neg diff *ℤ snap_avg)));
    })
    else ok (record { difference = pos 0; rate = none; amount = pos 0 })

-- The loop of `_ensure_valid`, after its test that there is a line.
unfoldable pub check_lines : Db → ℕ → List ℕ → List LineIn → Result (List (LineIn × Snapshot))
unfolding snapshot
check_lines db warehouse_id seen_ids [] = ok []
check_lines db warehouse_id seen_ids (line ∷ lines) = do
  raise_if (is_in line.material_id seen_ids) Errors.conflict
  raise_if (ltb_ℤ line.physical_quantity (pos 0)) Errors.reconciliation_physical_negative
  assert_material_active db line.material_id
  rest ← check_lines db warehouse_id (line.material_id ∷ seen_ids) lines
  ok ((line, snapshot db (warehouse_id, line.material_id)) ∷ rest)

abbrev is_no_line : List LineIn → Bool
is_no_line [] = true
is_no_line (line ∷ lines) = false

unfoldable pub ensure_valid : Db → ℕ → List LineIn → Result (List (LineIn × Snapshot))
ensure_valid db warehouse_id lines = do
  raise_if (is_no_line lines) Errors.reconciliation_empty_items
  check_lines db warehouse_id [] lines

-- The row of one line.
abbrev pub item_row : ℕ → ℕ → LineIn → Snapshot → Valued → StockReconciliationItem
item_row doc_id line_no line snap v = record {
  reconciliation_id = doc_id;
  line_no = line_no;
  material_id = line.material_id;
  book_quantity_snapshot = snap.quantity;
  book_total_amount_snapshot = snap.total_amount;
  book_avg_cost_snapshot = snap.avg_cost;
  book_last_transaction_id_snapshot = snap.watermark;
  physical_quantity = line.physical_quantity;
  difference_quantity = v.difference;
  valuation_rate = v.rate;
  adjustment_amount = v.amount;
}

-- The items of one document, by line number, each with its id.
insert_by_line :
    ℕ × StockReconciliationItem
    → List (ℕ × StockReconciliationItem)
    → List (ℕ × StockReconciliationItem)
insert_by_line x [] = x ∷ []
insert_by_line x (y ∷ ys) =
    if leb (x.1).line_no (y.1).line_no then x ∷ y ∷ ys else y ∷ insert_by_line x ys

unfoldable pub doc_items : ℕ → Assoc ℕ StockReconciliationItem → List (ℕ × StockReconciliationItem)
unfolding insert_by_line
doc_items doc_id [] = []
doc_items doc_id ((i, item) ∷ t) =
    let rest = doc_items doc_id t in
    if item.reconciliation_id == doc_id then insert_by_line (i, item) rest else rest

abbrev pub is_draft : ReconciliationStatus → Bool
is_draft status = is_reconciliation_status status ReconciliationStatus.draft

abbrev pub is_pending : ReconciliationStatus → Bool
is_pending status = is_reconciliation_status status ReconciliationStatus.pending
