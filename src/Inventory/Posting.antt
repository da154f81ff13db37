-- ===== src/Inventory/Posting.antt =====
-- A document that moves stock writes its ledger rows line by line and adds up what it changes of
-- each balance, then writes every balance once. These are the facts that the loops of
-- backend/app/services/purchase_receipt_service.py share, in both directions.
use manufacturing_erp_lite.Prelude.{
  ◌≡◌, refl, sym, subst, Option, none, some, inl, inr, Bool-cases, if◌then◌else◌, pair_beq,
  pair_beq_iff, pair_eq,
}
use manufacturing_erp_lite.Prelude.Decimal.{Decimal, pos, neg, ◌+ℤ◌, ◌-ℤ◌, int_laws}
use manufacturing_erp_lite.Prelude.Assoc.{Assoc, get, set, get-set_self, get-set_ne}
use manufacturing_erp_lite.Errors.{Result, ok}
use manufacturing_erp_lite.Store.{InventoryBalance}
use manufacturing_erp_lite.Inventory.{Key, BalanceDelta, apply_inbound, apply_outbound}
use manufacturing_erp_lite.Inventory.Moves.{Moved, apply_inbound-Moved, apply_outbound-Moved}

-- A direction of movement: how a balance takes a delta, and the sign of the ledger rows.
pub record Direction : Type 0 where
  pub move : InventoryBalance → Decimal → Decimal → Result InventoryBalance
  pub op : Decimal → Decimal → Decimal
  pub signed : Decimal → Decimal
  pub op_zero : (b : Decimal) → op b (pos 0) ≡ b
  pub op_step : (b x d : Decimal) → signed d +ℤ op b x ≡ op b (x +ℤ d)
  pub move-Moved :
      (b : InventoryBalance) (quantity amount : Decimal) (b' : InventoryBalance)
      → move b quantity amount ≡ ok b'
      → Moved b b' (op b.quantity quantity) (op b.total_amount amount)

abbrev pub inbound : Direction
inbound = record {
  move = apply_inbound;
  op = ◌+ℤ◌;
  signed = λ d. d;
  op_zero = λ b. omega int_laws;
  op_step = λ b x d. omega int_laws;
  move-Moved = λ b q a b' h. apply_inbound-Moved b q a h;
}

abbrev pub outbound : Direction
outbound = record {
  move = apply_outbound;
  op = ◌-ℤ◌;
  signed = neg;
  op_zero = λ b. omega int_laws;
  op_step = λ b x d. omega int_laws;
  move-Moved = λ b q a b' h. apply_outbound-Moved b q a h;
}

abbrev or_zero : (BalanceDelta → Decimal) → Option BalanceDelta → Decimal
or_zero h none = pos 0
or_zero h (some d) = h d

-- What the document changes of one balance so far; nothing where it does not touch it.
unfoldable pub delta : (BalanceDelta → Decimal) → Key → Assoc Key BalanceDelta → Decimal
delta h k agg = or_zero h (get k agg)

module _ (h : BalanceDelta → Decimal) where
  pub delta-get :
      (k : Key) (agg : Assoc Key BalanceDelta) {d : BalanceDelta}
      → get k agg ≡ some d
      → delta h k agg ≡ h d
  unfolding delta
  delta-get k agg e = rw e refl

  pub delta-none :
      (k : Key) (agg : Assoc Key BalanceDelta) → get k agg ≡ none → delta h k agg ≡ pos 0
  unfolding delta
  delta-none k agg e = rw e refl

  pub delta-set :
      (key k : Key) (agg : Assoc Key BalanceDelta) {d : BalanceDelta} (d' : BalanceDelta)
      → get key agg ≡ some d
      → delta h k (set key d' agg) ≡ (if pair_beq k key then h d' else delta h k agg)
  unfolding delta
  delta-set key k agg d' found = elim (Bool-cases (pair_beq k key)) [
    | inl same ↦
        let e = (pair_beq_iff k key).0 same in
        rw same (
          subst (λ j. or_zero h (get j (set key d' agg)) ≡ h d') (sym e)
            (rw (get-set_self key _ d' agg found) refl))
    | inr other ↦ rw other (rw (get-set_ne key k d' agg other) refl)
  ]
