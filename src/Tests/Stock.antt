-- ===== src/Tests/Stock.antt =====
-- A delivery, its reversal and a count, on the database of the examples.
use manufacturing_erp_lite.Prelude.{ℕ, ◌≡◌, refl, some, false, [], ◌∷◌, arith, nat_eq}
use manufacturing_erp_lite.Prelude.Decimal.{pos, ◌+ℤ◌}
use manufacturing_erp_lite.Prelude.Assoc.{get, AllRows}
use manufacturing_erp_lite.Errors.{ok, value_or}
use manufacturing_erp_lite.Store.{Db, PurchaseOrderItem}
use manufacturing_erp_lite.Inventory.{no_delta}
use manufacturing_erp_lite.Inventory.Ledger.{Reconciled}
use manufacturing_erp_lite.Receipt.Defs.{ReceiptItemIn, LineState}
use manufacturing_erp_lite.Receipt.Create.{Posting, receive_line, create_receipt}
use manufacturing_erp_lite.Receipt.Reverse.{reverse_receipt}
use manufacturing_erp_lite.Receipt.Books.{create_receipt-Reconciled, reverse_receipt-Reconciled}
use manufacturing_erp_lite.Receipt.Frame.{stock}
use manufacturing_erp_lite.Receipt.Ends.{Reconciled-stock}
use manufacturing_erp_lite.Receipt.Once.{reverse_receipt-once}
use manufacturing_erp_lite.Receipt.Bounds.{IsWithin, create_receipt-IsWithin}
use manufacturing_erp_lite.Receipt.Returns.{IsReceived, reverse_receipt-IsWithin}
use manufacturing_erp_lite.Receipt.Stale.{receive_line-overwrites}
use manufacturing_erp_lite.Reconciliation.Draft.{create_reconciliation, submit_reconciliation}
use manufacturing_erp_lite.Reconciliation.Approve.{approve_reconciliation}
use manufacturing_erp_lite.Reconciliation.Books.{approve_reconciliation-Reconciled}
use manufacturing_erp_lite.Tests.Steps.{steps}
use manufacturing_erp_lite.Tests.Data.{
  keeper, counter, db0, ordered_item, delivery, count, plain_approval,
}

pub db0-Reconciled : Reconciled db0
unfolding steps
db0-Reconciled = record {
  quantity = λ k. refl;
  amount = λ k. refl;
  chained = tt;
  signs = tt;
  sound = tt;
}

abbrev pub received : ℕ × Db
received = value_or (0, db0) (create_receipt delivery keeper 20 db0 db0)

pub received_ok : create_receipt delivery keeper 20 db0 db0 ≡ ok received
unfolding steps
received_ok = refl

received-Reconciled : Reconciled received.1
received-Reconciled =
    create_receipt-Reconciled delivery keeper 20 db0 db0 db0-Reconciled received_ok

create_receipt-Reconciled_example : Reconciled received.1
create_receipt-Reconciled_example =
    create_receipt-Reconciled delivery keeper 20 db0 db0 db0-Reconciled received_ok

abbrev pub after_reversal : Db
after_reversal = value_or db0 (reverse_receipt received.0 keeper 3 30 received.1 received.1)

pub after_reversal_ok :
    reverse_receipt received.0 keeper 3 30 received.1 received.1 ≡ ok after_reversal
unfolding steps
after_reversal_ok = refl

reverse_receipt-Reconciled_example : Reconciled after_reversal
reverse_receipt-Reconciled_example =
    reverse_receipt-Reconciled received.0 keeper 3 30 received.1 received.1 received-Reconciled
      after_reversal_ok

reverse_receipt-once_example :
    ¬ (reverse_receipt received.0 counter 4 40 received.1 after_reversal ≡ ok db0)
reverse_receipt-once_example =
    reverse_receipt-once received.0 keeper 3 30 received.1 received.1 after_reversal_ok counter 4 40
      received.1 db0

abbrev pub counted : ℕ × Db
counted = value_or (0, db0) (create_reconciliation count counter 5 received.1 received.1)

abbrev pub pending : Db
pending = value_or db0 (submit_reconciliation counted.0 1 counter 50 counted.1 counted.1)

abbrev posted : Db
posted =
    value_or db0 (approve_reconciliation false counted.0 plain_approval keeper 5 55 pending pending)

pending_ok : submit_reconciliation counted.0 1 counter 50 counted.1 counted.1 ≡ ok pending
unfolding steps
pending_ok = refl

posted_ok :
    approve_reconciliation false counted.0 plain_approval keeper 5 55 pending pending ≡ ok posted
unfolding steps
posted_ok = refl

same_stock : stock pending ≡ stock received.1
unfolding steps
same_stock = refl

pending-Reconciled : Reconciled pending
pending-Reconciled = Reconciled-stock same_stock received-Reconciled

approve_reconciliation-Reconciled_example : Reconciled posted
approve_reconciliation-Reconciled_example =
    approve_reconciliation-Reconciled false counted.0 plain_approval keeper 5 55 pending pending
      pending-Reconciled posted_ok

db0-IsWithin : AllRows IsWithin db0.order_items
db0-IsWithin = (
  record { nonneg = omega arith; ordered = omega arith },
  (record { nonneg = omega arith; ordered = omega arith }, tt),
)

create_receipt-IsWithin_example : AllRows IsWithin received.1.order_items
create_receipt-IsWithin_example =
    create_receipt-IsWithin delivery keeper 20 db0 db0 refl db0-IsWithin received_ok

-- A session that read the order before the delivery.
abbrev posting : Posting
posting = record { receipt_id = 200; warehouse_id = 9; on = 2; at = 21; operator_id = 7 }

abbrev one_piece : ReceiptItemIn
one_piece = record { po_item_id = 21; received_quantity = pos 10_000 }

abbrev stale_state : LineState
stale_state = record {
  db = received.1;
  seen_items = db0.order_items;
  running_qty = ((9, 1), pos 40_000) ∷ [];
  agg = ((9, 1), no_delta) ∷ [];
}

abbrev after_line : LineState
after_line = value_or stale_state (receive_line posting 1 one_piece stale_state)

after_line_ok : receive_line posting 1 one_piece stale_state ≡ ok after_line
unfolding steps
after_line_ok = refl

stale_copy : get 21 db0.order_items ≡ some (ordered_item 1)
unfolding get
stale_copy = refl

receive_line-overwrites_example :
    (row : PurchaseOrderItem) × (get 21 (after_line.db).order_items ≡ some row)
    × (row.received_quantity ≡ (ordered_item 1).received_quantity +ℤ pos 10_000)
receive_line-overwrites_example =
    receive_line-overwrites posting 1 one_piece stale_state stale_copy after_line_ok

received-IsWithin : AllRows IsWithin received.1.order_items
received-IsWithin = create_receipt-IsWithin delivery keeper 20 db0 db0 refl db0-IsWithin received_ok

lines-IsReceived : AllRows IsReceived received.1.receipt_items
unfolding steps
lines-IsReceived = (omega arith, (omega arith, tt))

reverse_receipt-IsWithin_example : AllRows IsWithin after_reversal.order_items
reverse_receipt-IsWithin_example =
    reverse_receipt-IsWithin received.0 keeper 3 30 received.1 received.1 refl lines-IsReceived
      received-IsWithin after_reversal_ok
