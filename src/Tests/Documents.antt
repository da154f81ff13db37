-- ===== src/Tests/Documents.antt =====
-- An order from a requisition, its confirmation and its cancellation, the decisions on a
-- requisition, and the small steps that the documents share.
use manufacturing_erp_lite.Prelude.{
  List, ℕ, ◌≡◌, refl, none, some, true, [], ◌∷◌, ◌+◌, ◌*◌, ◌≤◌, ◌<◌, arith, nat_eq, pair_eq,
}
use manufacturing_erp_lite.Prelude.Decimal.{pos, pos_part, ◌+ℤ◌, ◌-ℤ◌}
use manufacturing_erp_lite.Prelude.Assoc.{get, AllRows}
use manufacturing_erp_lite.Enums.{PoStatus, PrStatus, SequenceKey}
use manufacturing_erp_lite.Errors.{ok, value_or}
use manufacturing_erp_lite.Money.{line_amount, unit_cost}
use manufacturing_erp_lite.Money.Rounding.{line_amount_nearest, unit_cost_nearest}
use manufacturing_erp_lite.Store.{Db, PurchaseOrder, InventoryBalance}
use manufacturing_erp_lite.Numbering.Unique.{issue, Distinct, issue-Distinct}
use manufacturing_erp_lite.Inventory.{
  new_balance, apply_inbound, apply_outbound, lock_balances, has_key, Key,
}
use manufacturing_erp_lite.Inventory.Locks.{locked_row, get-lock_balances}
use manufacturing_erp_lite.Inventory.Moves.{Moved, apply_inbound-Moved, apply_outbound-Moved}
use manufacturing_erp_lite.Order.Create.{create_po}
use manufacturing_erp_lite.Order.Status.{confirm_po, cancel_po, is_draft}
use manufacturing_erp_lite.Order.Bounds.{
  IsConverted, IsPositive, HasPositiveSources, create_po-IsConverted, cancel_po-IsConverted,
}
use manufacturing_erp_lite.Order.Versions.{confirm_po-moves, confirm_po-excludes}
use manufacturing_erp_lite.Requisition.Status.{submit_pr}
use manufacturing_erp_lite.Requisition.Approval.{approve_pr, reject_pr}
use manufacturing_erp_lite.Requisition.Transitions.{
  IsDecided, approve_pr-IsDecided, reject_pr-IsDecided, approve_pr-excludes, submit_pr-version,
}
use manufacturing_erp_lite.Reconciliation.Defs.{LineIn, Valued, amount_for}
use manufacturing_erp_lite.Reconciliation.Amounts.{IsValued, amount_for-IsValued}
use manufacturing_erp_lite.Tests.Steps.{steps}
use manufacturing_erp_lite.Tests.Data.{keeper, counter, db0, draft_requisition, order_request}

abbrev pub ordered : ℕ × Db
ordered = value_or (0, db0) (create_po order_request keeper db0 db0)

ordered_ok : create_po order_request keeper db0 db0 ≡ ok ordered
unfolding steps
ordered_ok = refl

db0-IsConverted : AllRows IsConverted db0.requisition_items
db0-IsConverted = (
  record { nonneg = omega arith; within = omega arith },
  (
    record { nonneg = omega arith; within = omega arith },
    (record { nonneg = omega arith; within = omega arith }, tt),
  ),
)

positive_request : HasPositiveSources order_request.items
positive_request = ((omega arith, tt), tt)

ordered-IsConverted : AllRows IsConverted ordered.1.requisition_items
ordered-IsConverted =
    create_po-IsConverted order_request keeper db0 db0 positive_request db0-IsConverted ordered_ok

create_po-IsConverted_example : AllRows IsConverted ordered.1.requisition_items
create_po-IsConverted_example =
    create_po-IsConverted order_request keeper db0 db0 positive_request db0-IsConverted ordered_ok

abbrev cancelled : Db
cancelled = value_or db0 (cancel_po ordered.0 1 keeper ordered.1 ordered.1)

cancelled_ok : cancel_po ordered.0 1 keeper ordered.1 ordered.1 ≡ ok cancelled
unfolding steps
cancelled_ok = refl

ordered-IsPositive : AllRows IsPositive ordered.1.order_item_sources
unfolding steps
ordered-IsPositive = (omega arith, tt)

cancel_po-IsConverted_example : AllRows IsConverted cancelled.requisition_items
cancel_po-IsConverted_example =
    cancel_po-IsConverted ordered.0 1 keeper ordered.1 ordered.1 ordered-IsPositive
      ordered-IsConverted cancelled_ok

abbrev confirmed : Db
confirmed = value_or db0 (confirm_po ordered.0 1 keeper ordered.1 ordered.1)

confirmed_ok : confirm_po ordered.0 1 keeper ordered.1 ordered.1 ≡ ok confirmed
unfolding steps
confirmed_ok = refl

confirm_po-moves_example :
    (row row' : PurchaseOrder) × (get ordered.0 ordered.1.orders ≡ some row)
    × (row.version ≡ 1)
    × (is_draft row.status ≡ true)
    × (get ordered.0 confirmed.orders ≡ some row')
    × (row'.status ≡ PoStatus.confirmed)
    × (row'.version ≡ 2)
confirm_po-moves_example = confirm_po-moves ordered.0 1 keeper ordered.1 ordered.1 confirmed_ok

confirm_po-excludes_example :
    ¬ (confirm_po ordered.0 1 counter ordered.1 confirmed ≡ ok db0)
    × ¬ (cancel_po ordered.0 1 counter ordered.1 confirmed ≡ ok db0)
confirm_po-excludes_example =
    confirm_po-excludes ordered.0 1 keeper ordered.1 ordered.1 confirmed_ok counter ordered.1 db0

abbrev pub approved : Db
approved = value_or db0 (approve_pr 30 2 keeper db0 db0)

pub approved_ok : approve_pr 30 2 keeper db0 db0 ≡ ok approved
unfolding steps
approved_ok = refl

approve_pr-IsDecided_example : IsDecided 30 2 PrStatus.approved approved
approve_pr-IsDecided_example = approve_pr-IsDecided 30 2 keeper db0 db0 approved_ok

approve_pr-excludes_example : ¬ (reject_pr 30 2 keeper db0 approved ≡ ok db0)
approve_pr-excludes_example = approve_pr-excludes 30 2 keeper db0 db0 approved_ok keeper db0 db0

abbrev rejected : Db
rejected = value_or db0 (reject_pr 30 2 keeper db0 db0)

rejected_ok : reject_pr 30 2 keeper db0 db0 ≡ ok rejected
unfolding steps
rejected_ok = refl

reject_pr-IsDecided_example : IsDecided 30 2 PrStatus.rejected rejected
reject_pr-IsDecided_example = reject_pr-IsDecided 30 2 keeper db0 db0 rejected_ok

abbrev submitted : Db
submitted = value_or db0 (submit_pr 32 keeper 60 db0 db0)

submitted_ok : submit_pr 32 keeper 60 db0 db0 ≡ ok submitted
unfolding steps
submitted_ok = refl

draft_read : get 32 db0.requisitions ≡ some draft_requisition
unfolding get
draft_read = refl

submit_pr-version_example : IsDecided 32 4 PrStatus.pending submitted
submit_pr-version_example = submit_pr-version 32 keeper 60 db0 db0 draft_read submitted_ok

-- Two numbers of one day and one of the next.
issue-Distinct_example : Distinct (
    issue
      ((SequenceKey.purchase_order, 1)
        ∷ (SequenceKey.purchase_order, 1)
        ∷ (SequenceKey.purchase_order, 2)
        ∷ [])
      db0)
issue-Distinct_example =
    issue-Distinct
      ((SequenceKey.purchase_order, 1)
        ∷ (SequenceKey.purchase_order, 1)
        ∷ (SequenceKey.purchase_order, 2)
        ∷ [])
      db0

abbrev wanted : List Key
wanted = (9, 2) ∷ (9, 1) ∷ (9, 2) ∷ []

get-lock_balances_example :
    (has_key (9, 1) (lock_balances wanted db0).0 ≡ has_key (9, 1) wanted)
    × (get (9, 1) ((lock_balances wanted db0).1).balances
        ≡ locked_row (has_key (9, 1) wanted) (get (9, 1) db0.balances))
get-lock_balances_example = get-lock_balances wanted db0 (9, 1)

-- 3 pieces for 10.00, then 1 of them out for 3.33.
abbrev stocked : InventoryBalance
stocked = value_or new_balance (apply_inbound new_balance (pos 30_000) (pos 1_000))

stocked_ok : apply_inbound new_balance (pos 30_000) (pos 1_000) ≡ ok stocked
unfolding steps
stocked_ok = refl

apply_inbound-Moved_example : Moved new_balance stocked (pos 0 +ℤ pos 30_000) (pos 0 +ℤ pos 1_000)
apply_inbound-Moved_example = apply_inbound-Moved new_balance (pos 30_000) (pos 1_000) stocked_ok

abbrev issued : InventoryBalance
issued = value_or new_balance (apply_outbound stocked (pos 10_000) (pos 333))

issued_ok : apply_outbound stocked (pos 10_000) (pos 333) ≡ ok issued
unfolding steps
issued_ok = refl

apply_outbound-Moved_example :
    Moved stocked issued (stocked.quantity -ℤ pos 10_000) (stocked.total_amount -ℤ pos 333)
apply_outbound-Moved_example = apply_outbound-Moved stocked (pos 10_000) (pos 333) issued_ok

product_fits : 12_345 * 10_050 < 10_000_000_000_000_000_000_000_000_000
product_fits = omega arith

line_amount_nearest_example :
    (pos_part (line_amount (pos 12_345) (pos 10_050)) * 1_000_000 ≤ 12_345 * 10_050 + 500_000)
    × (12_345 * 10_050 + 500_000
        < (pos_part (line_amount (pos 12_345) (pos 10_050)) + 1) * 1_000_000)
line_amount_nearest_example = line_amount_nearest 12_345 10_050 product_fits

-- A product of more than 28 digits, which the context rounds before the cent is taken.
long_product :
    line_amount (pos 957_667_425_974_578_346) (pos 5_877_637_400_097)
    ≡ pos 5_628_821_879_762_806_875_999_275
unfolding steps
long_product = refl

three_pieces : 0 < 30_000
three_pieces = omega arith

unit_cost_nearest_example :
    (2 * (pos_part (unit_cost (pos 1_000) 30_000) * 30_000) ≤ 2 * (1_000 * 1_000_000) + 30_000)
    × (2 * (1_000 * 1_000_000) + 30_000
        < 2 * (pos_part (unit_cost (pos 1_000) 30_000) * 30_000) + 2 * 30_000)
unit_cost_nearest_example = unit_cost_nearest 1_000 30_000 three_pieces

-- 2 pieces more than the 10 of the book, for 1.23455 each: the amount is 2.47, and the rate that is
-- stored is 1.2346.
abbrev surplus_line : LineIn
surplus_line = record {
  material_id = 1;
  physical_quantity = pos 120_000;
  valuation_rate = some (record { coefficient = pos 123_455; scale = 10 });
}

abbrev surplus_valued : Valued
surplus_valued =
    value_or (record { difference = pos 0; rate = none; amount = pos 0 })
      (amount_for surplus_line (pos 100_000) (pos 25_000))

surplus_ok : amount_for surplus_line (pos 100_000) (pos 25_000) ≡ ok surplus_valued
unfolding steps
surplus_ok = refl

surplus_figures :
    surplus_valued ≡ record { difference = pos 20_000; rate = some (pos 12_346); amount = pos 247 }
unfolding steps
surplus_figures = refl

amount_for-IsValued_example : IsValued surplus_line (pos 100_000) surplus_valued
amount_for-IsValued_example =
    amount_for-IsValued surplus_line (pos 100_000) (pos 25_000) (omega arith) surplus_ok
