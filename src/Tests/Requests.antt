-- ===== src/Tests/Requests.antt =====
-- Requests one after the other, and what they may read and change.
use manufacturing_erp_lite.Prelude.{
  ℕ, ◌≡◌, ◌≤◌, refl, Bool, true, false, Option, none, some, [], ◌∷◌, ◌==◌, inl, inr, Bool-cases,
  ==_iff, map, arith, nat_eq,
}
use manufacturing_erp_lite.Prelude.Lists.{sum}
use manufacturing_erp_lite.Prelude.Decimal.{pos}
use manufacturing_erp_lite.Prelude.Assoc.{get}
use manufacturing_erp_lite.Enums.{PrStatus, ReconciliationStatus, SequenceKey}
use manufacturing_erp_lite.Errors.{ok, err, value_or}
use manufacturing_erp_lite.Store.{
  Db, CurrentUser, PurchaseRequisition, PurchaseOrder, StockReconciliation, StockReconciliationItem,
}
use manufacturing_erp_lite.Inventory.Ledger.{Reconciled}
use manufacturing_erp_lite.Requisition.Defs.{pr_items}
use manufacturing_erp_lite.Requisition.Edit.{PrEdit, update_pr}
use manufacturing_erp_lite.Requisition.Edits.{update_pr-excludes}
use manufacturing_erp_lite.Requisition.Totals.{amount_of_line, approve_pr-total}
use manufacturing_erp_lite.Requisition.Lifecycle.{Moved}
use manufacturing_erp_lite.Requisition.Moves.{IsIssued}
use manufacturing_erp_lite.Order.Status.{confirm_po}
use manufacturing_erp_lite.Order.Completion.{IsConfirmable, confirm_po-completes}
use manufacturing_erp_lite.Reconciliation.Approve.{approve_reconciliation}
use manufacturing_erp_lite.Reconciliation.Refusals.{
  refusal, IsOverridden, approve_reconciliation-refuses,
}
use manufacturing_erp_lite.Reconciliation.Edit.{ReconciliationEdit, update_reconciliation}
use manufacturing_erp_lite.Reconciliation.Snapshots.{SameBook, update_reconciliation-SameBook}
use manufacturing_erp_lite.System.{
  Reach, initial, then_step, receipt_posted, receipt_reversed, pr_approved,
}
use manufacturing_erp_lite.System.Books.{Reach-Reconciled}
use manufacturing_erp_lite.System.Lifecycle.{Step-Moved}
use manufacturing_erp_lite.Tests.Steps.{steps}
use manufacturing_erp_lite.Tests.Data.{
  keeper, counter, db0, delivery, plain_approval, pending_requisition, confirmed_order,
}
use manufacturing_erp_lite.Tests.Stock.{
  db0-Reconciled, received, received_ok, after_reversal, after_reversal_ok, counted, pending,
}
use manufacturing_erp_lite.Tests.Documents.{ordered, approved, approved_ok}

two_requests : Reach db0 after_reversal
two_requests =
    then_step (then_step initial (receipt_posted delivery keeper 20 db0 received_ok))
      (receipt_reversed received.0 keeper 3 30 received.1 after_reversal_ok)

Reach-Reconciled_example : Reconciled after_reversal
Reach-Reconciled_example = Reach-Reconciled two_requests db0-Reconciled

small_id : (id n : ℕ) → n ≤ 100 → (id == n) ≡ true → id ≤ 100
small_id id n h e = let same = (==_iff id n).0 e in omega (arith, h, same)

db0-IsIssued : IsIssued db0
unfolding get
db0-IsIssued id row h = elim (Bool-cases (id == 32)) [
  | inl e ↦ small_id id 32 (omega arith) e
  | inr not_32 ↦ elim (Bool-cases (id == 31)) [
    | inl e ↦ small_id id 31 (omega arith) e
    | inr not_31 ↦ elim (Bool-cases (id == 30)) [
      | inl e ↦ small_id id 30 (omega arith) e
      | inr not_30 ↦ let bad : none ≡ some row = rw (not_32, not_31, not_30) at h in absurd (cc)
    ]
  ]
]

pub pending_there : get 30 db0.requisitions ≡ some pending_requisition
unfolding get
pending_there = refl

Step-Moved_example :
    (row' : PurchaseRequisition) × (get 30 approved.requisitions ≡ some row')
    × Moved pending_requisition row'
Step-Moved_example =
    Step-Moved db0-IsIssued (pr_approved 30 2 keeper db0 approved_ok) 30 pending_requisition
      pending_there

-- The line that is there with another quantity, and one more line.
abbrev pr_edit : PrEdit
pr_edit = record {
  version = 4;
  apply_date = none;
  items =
      record {
        id = some 42;
        line = record {
          material_id = 1;
          requested_quantity = pos 50_000;
          estimated_unit_price = pos 25_000;
          required_date = none;
        };
      }
      ∷ record {
        id = none;
        line = record {
          material_id = 2;
          requested_quantity = pos 10_000;
          estimated_unit_price = pos 15_000;
          required_date = some 9;
        };
      }
      ∷ [];
}

abbrev no_violation : Db → Db → Bool
no_violation before after = false

abbrev pr_edited : Db
pr_edited = value_or db0 (update_pr no_violation 32 pr_edit keeper db0 db0)

pr_edited_ok : update_pr no_violation 32 pr_edit keeper db0 db0 ≡ ok pr_edited
unfolding steps
pr_edited_ok = refl

update_pr-excludes_example :
    ((row : PurchaseRequisition) × (get 32 db0.requisitions ≡ some row)
      × (row.status ≡ PrStatus.draft)
      × (row.version ≡ 4))
    × ((row' : PurchaseRequisition) × (get 32 pr_edited.requisitions ≡ some row')
        × (row'.version ≡ 5))
    × ((now : Db) (current : PurchaseRequisition) (later : PrEdit) (other : CurrentUser)
          (stale after : Db)
        → get 32 now.requisitions ≡ some current
        → 5 ≤ current.version
        → later.version ≡ 4
        → ¬ (update_pr no_violation 32 later other stale now ≡ ok after))
update_pr-excludes_example = update_pr-excludes no_violation 32 pr_edit keeper db0 db0 pr_edited_ok

approve_pr-total_example :
    (row' : PurchaseRequisition) × (get 30 approved.requisitions ≡ some row')
    × (row'.total_estimated_amount ≡ sum (map amount_of_line (pr_items 30 db0.requisition_items)))
approve_pr-total_example = approve_pr-total 30 2 keeper db0 db0 approved_ok

abbrev pub row_at {ℓ} : {A : Type ℓ} → A → Option A → A
row_at default none = default
row_at default (some row) = row

abbrev ordered_row : PurchaseOrder
ordered_row = row_at confirmed_order (get ordered.0 ordered.1.orders)

ordered-IsConfirmable : IsConfirmable ordered.0 keeper ordered_row ordered.1
unfolding steps
ordered-IsConfirmable = record {
  there = refl;
  draft = refl;
  allowed = refl;
  filled = refl;
  priced = refl;
}

confirm_po-completes_example :
    (db' : Db) × (confirm_po ordered.0 ordered_row.version keeper ordered.1 ordered.1 ≡ ok db')
confirm_po-completes_example =
    confirm_po-completes ordered.0 keeper ordered_row ordered.1 ordered-IsConfirmable

-- One material is counted again, the other is dropped.
abbrev recount : ReconciliationEdit
recount = record {
  version = 1;
  items =
      record {
        material_id = 1;
        physical_quantity = pos 60_000;
        valuation_rate = some (record { coefficient = pos 30_000; scale = 1 });
      }
      ∷ [];
}

abbrev recounted_db : Db
recounted_db =
    value_or db0 (update_reconciliation no_violation counted.0 recount counter counted.1 counted.1)

recounted_ok :
    update_reconciliation no_violation counted.0 recount counter counted.1 counted.1
    ≡ ok recounted_db
unfolding steps
recounted_ok = refl

abbrev blank_item : StockReconciliationItem
blank_item = record {
  reconciliation_id = 0;
  line_no = 0;
  material_id = 0;
  book_quantity_snapshot = pos 0;
  book_total_amount_snapshot = pos 0;
  book_avg_cost_snapshot = pos 0;
  book_last_transaction_id_snapshot = none;
  physical_quantity = pos 0;
  difference_quantity = pos 0;
  valuation_rate = none;
  adjustment_amount = pos 0;
}

abbrev first_item : ℕ
first_item = 107

abbrev item_before : StockReconciliationItem
item_before = row_at blank_item (get first_item counted.1.reconciliation_items)

abbrev item_after : StockReconciliationItem
item_after = row_at blank_item (get first_item recounted_db.reconciliation_items)

item_there : get first_item counted.1.reconciliation_items ≡ some item_before
unfolding steps
item_there = refl

item_still_there : get first_item recounted_db.reconciliation_items ≡ some item_after
unfolding steps
item_still_there = refl

first_item_small : first_item ≤ counted.1.last_id
unfolding steps
first_item_small = omega arith

update_reconciliation-SameBook_example : SameBook item_before item_after
update_reconciliation-SameBook_example =
    update_reconciliation-SameBook no_violation counted.0 recount counter counted.1 counted.1
      recounted_ok first_item item_before item_after first_item_small item_there item_still_there

abbrev blank_doc : StockReconciliation
blank_doc = record {
  reconciliation_no = record { key = SequenceKey.stock_reconciliation; day = 0; seq = 0 };
  warehouse_id = 0;
  counted_by = 0;
  counted_on = 0;
  status = ReconciliationStatus.draft;
  submitted_at = none;
  posted_at = none;
  approved_by = none;
  override_self_approval = false;
  version = 0;
}

abbrev pending_doc : StockReconciliation
pending_doc = row_at blank_doc (get counted.0 pending.reconciliations)

pending_doc_there : get counted.0 pending.reconciliations ≡ some pending_doc
unfolding steps
pending_doc_there = refl

doc_is_pending : pending_doc.status ≡ ReconciliationStatus.pending
unfolding steps
doc_is_pending = refl

doc_is_counted : pending_doc.counted_by ≡ counter.id
unfolding steps
doc_is_counted = refl

not-IsOverridden : ¬ IsOverridden false plain_approval
not-IsOverridden h = let e : false ≡ true = h.0 in absurd (cc)

approve_reconciliation-refuses_example :
    approve_reconciliation false counted.0 plain_approval counter 5 55 pending pending
    ≡ err (refusal false plain_approval)
approve_reconciliation-refuses_example =
    approve_reconciliation-refuses false counted.0 plain_approval counter 5 55 pending pending
      pending_doc_there doc_is_pending doc_is_counted not-IsOverridden
