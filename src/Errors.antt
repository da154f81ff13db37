-- ===== src/Errors.antt =====
-- backend/app/core/exceptions.py: the business error codes. A service that raises an
-- `AppException` returns `err` with its code; the session is then closed without a commit, so
-- nothing that it wrote remains. `internal_error` also stands for an exception that no service
-- catches, such as a KeyError.
use manufacturing_erp_lite.Prelude.{◌≡◌, refl, ap, Bool, true, false, Option, none, some, arith}

pub data ErrorCode : Type 0 where
  internal_error validation_error not_found conflict duplicate_key : ErrorCode
  unauthorized forbidden invalid_credentials user_disabled permission_denied : ErrorCode
  material_code_exists material_in_use supplier_code_exists supplier_in_use : ErrorCode
  warehouse_code_exists username_exists department_code_exists role_code_exists : ErrorCode
  master_data_disabled warehouse_has_stock inventory_policy_duplicate : ErrorCode
  pr_not_found pr_invalid_status_transition pr_not_editable pr_empty_items : ErrorCode
  pr_not_applicant pr_reject_comment_required pr_not_approver : ErrorCode
  pr_cancel_has_active_po pr_item_convert_exceeded pr_item_not_found : ErrorCode
  pr_version_conflict pr_already_processed : ErrorCode
  po_not_found po_invalid_status_transition po_not_editable po_empty_items : ErrorCode
  po_supplier_required po_supplier_disabled po_unit_price_required : ErrorCode
  po_cancel_has_receipt po_not_receivable po_source_quantity_mismatch : ErrorCode
  po_item_not_found po_version_conflict po_already_processed : ErrorCode
  receipt_not_found receipt_exceeds_remaining receipt_empty_items : ErrorCode
  receipt_duplicate_item receipt_already_reversed receipt_not_posted : ErrorCode
  reverse_reason_required receipt_quantity_positive inventory_negative : ErrorCode
  inventory_balance_mismatch inventory_txn_append_only receipt_item_not_in_po : ErrorCode
  reconciliation_not_found reconciliation_invalid_status : ErrorCode
  reconciliation_version_conflict reconciliation_balance_changed : ErrorCode
  reconciliation_already_processed reconciliation_self_approval : ErrorCode
  reconciliation_override_reason_required reconciliation_empty_items : ErrorCode
  reconciliation_physical_negative reconciliation_item_not_found : ErrorCode
  reconciliation_valuation_rate_required : ErrorCode

pub data Result {ℓ} (A : Type ℓ) : Type ℓ where
  ok : A → Result A
  err : ErrorCode → Result A

-- `if c: raise e`
unfoldable pub raise_if : Bool → ErrorCode → Result (Unit {0})
raise_if true e = err e
raise_if false e = ok tt

-- `if x is None: raise e`
unfoldable pub or_raise {ℓ} : {A : Type ℓ} → Option A → ErrorCode → Result A
or_raise none e = err e
or_raise (some a) e = ok a

infixl 5 ◌>>=◌ ◌>>◌
unfoldable pub ◌>>=◌ {ℓ κ} : {X : Type ℓ} {Y : Type κ} → Result X → (X → Result Y) → Result Y
ok x >>= next = next x
err code >>= next = err code

-- Opening this opens `raise_if`, `or_raise` and `◌>>=◌` too.
unfoldable pub ◌>>◌ {ℓ} : {B : Type ℓ} → Result (Unit {0}) → Result B → Result B
unfolding raise_if or_raise ◌>>=◌
m >> k = m >>= λ _. k

-- Inversion of a successful step.
pub >>=-eq-ok {ℓ κ} :
    {X : Type ℓ} {Y : Type κ} (step : Result X) (next : X → Result Y) {y : Y}
    → (step >>= next) ≡ ok y
    → (x : X) × (step ≡ ok x) × (next x ≡ ok y)
unfolding ◌>>=◌
>>=-eq-ok (ok x) next h = (x, refl, h)
>>=-eq-ok (err code) next h = absurd (cc)

pub >>-eq-ok {ℓ} :
    {Y : Type ℓ} (check : Result (Unit {0})) (then_do : Result Y) {y : Y}
    → (check >> then_do) ≡ ok y
    → (check ≡ ok tt) × (then_do ≡ ok y)
unfolding ◌>>◌
>>-eq-ok (ok tt) then_do h = (refl, h)
>>-eq-ok (err code) then_do h = absurd (cc)

pub raise_if-eq-ok : (c : Bool) (e : ErrorCode) → raise_if c e ≡ ok tt → c ≡ false
unfolding raise_if
raise_if-eq-ok true e h = absurd (cc)
raise_if-eq-ok false e h = refl

-- Past a guard its condition is false.
pub guard-eq-ok {ℓ} :
    {B : Type ℓ} (c : Bool) (e : ErrorCode) (k : Result B) {b : B}
    → (raise_if c e >> k) ≡ ok b
    → (c ≡ false) × (k ≡ ok b)
unfolding ◌>>◌
guard-eq-ok true e k h = absurd (cc)
guard-eq-ok false e k h = (refl, h)

pub or_raise-eq-ok {ℓ} :
    {A : Type ℓ} (o : Option A) (e : ErrorCode) {a : A} → or_raise o e ≡ ok a → o ≡ some a
unfolding or_raise
or_raise-eq-ok none e h = absurd (cc)
or_raise-eq-ok (some a) e h = ground arith

-- Past a lookup its row is there.
pub found-eq-ok {ℓ κ} :
    {A : Type ℓ} {B : Type κ} (o : Option A) (e : ErrorCode) (f : A → Result B) {b : B}
    → (or_raise o e >>= f) ≡ ok b
    → (a : A) × (o ≡ some a) × (f a ≡ ok b)
unfolding ◌>>◌
found-eq-ok none e f h = absurd (cc)
found-eq-ok (some a) e f h = (a, refl, h)

abbrev pub value_or {ℓ} : {A : Type ℓ} → A → Result A → A
value_or d (ok a) = a
value_or d (err e) = d

pub ok-injective {ℓ} : {A : Type ℓ} {a b : A} → ok a ≡ ok b → a ≡ b
ok-injective {a} h = ap (value_or a) h
