-- ===== src/Requisition/Scope.antt =====
-- The scope of reading one requisition and of listing them
-- (backend/app/services/purchase_requisition_service.py, get_pr and list_prs).
use manufacturing_erp_lite.Prelude.{
  ℕ, ◌≡◌, ◌↔◌, refl, ◌∙◌, sym, subst, Bool, true, false, not, ◌&&◌, ◌||◌, some, ◌==◌, nat_eq,
}
use mathlib.Core.Option
use mathlib.Core.List.{Memᴰ}
use manufacturing_erp_lite.Prelude.Assoc.{get}
use manufacturing_erp_lite.Enums.{RoleCode}
use manufacturing_erp_lite.Errors.{ok, found-eq-ok, guard-eq-ok, ◌>>◌}
use manufacturing_erp_lite.Store.{Db, CurrentUser, PurchaseRequisition}
use manufacturing_erp_lite.Query.{descending}
use manufacturing_erp_lite.Query.Members.{
  where_rows-Memᴰ, Memᴰ-where_rows, order_by-Memᴰ, Memᴰ-order_by,
}
use manufacturing_erp_lite.Order.Versions.{and-true}
use manufacturing_erp_lite.Order.Scope.{get-Memᴰ, and-intro}
use manufacturing_erp_lite.Requisition.Defs.{load_pr, is_manager}
use manufacturing_erp_lite.Requisition.Read.{
  is_applicant_role, PrFilter, passes_pr_filter, visible_pr_condition, get_pr, listed_prs,
}

get_pr_of_may_read :
    (user : CurrentUser) (pr_id : ℕ) (db : Db) {pr : PurchaseRequisition}
    → get pr_id db.requisitions ≡ some pr
    → (is_applicant_role user.role_code && not (pr.applicant_id == user.id)) ≡ false
    → get_pr db pr_id user ≡ ok pr
unfolding get_pr load_pr ◌>>◌
get_pr_of_may_read user pr_id db there v = rw there (rw v refl)

own_of_guard : (b : Bool) → (true && not b) ≡ false → b ≡ true
own_of_guard true h = refl
own_of_guard false h = absurd (cc)

visible_of_guard :
    (user : CurrentUser) (pr : PurchaseRequisition) (db : Db) (role : RoleCode)
    → user.role_code ≡ role
    → ¬ (role ≡ RoleCode.dept_manager)
    → (is_applicant_role role && not (pr.applicant_id == user.id)) ≡ false
    → visible_pr_condition db user pr ≡ true
unfolding visible_pr_condition
visible_of_guard user pr db RoleCode.applicant e other v =
    rw e (own_of_guard (pr.applicant_id == user.id) v)
visible_of_guard user pr db RoleCode.dept_manager e other v = absurd (other refl)
visible_of_guard user pr db RoleCode.admin e other v = rw e refl
visible_of_guard user pr db RoleCode.buyer e other v = rw e refl
visible_of_guard user pr db RoleCode.warehouse e other v = rw e refl

guard_of_own : (b : Bool) → b ≡ true → (true && not b) ≡ false
guard_of_own true h = refl
guard_of_own false h = absurd (cc)

guard_of_visible :
    (user : CurrentUser) (pr : PurchaseRequisition) (db : Db) (role : RoleCode)
    → user.role_code ≡ role
    → visible_pr_condition db user pr ≡ true
    → (is_applicant_role role && not (pr.applicant_id == user.id)) ≡ false
unfolding visible_pr_condition
guard_of_visible user pr db RoleCode.applicant e v =
    guard_of_own (pr.applicant_id == user.id) (rw e at v)
guard_of_visible user pr db RoleCode.dept_manager e v = refl
guard_of_visible user pr db RoleCode.admin e v = refl
guard_of_visible user pr db RoleCode.buyer e v = refl
guard_of_visible user pr db RoleCode.warehouse e v = refl

guard_of_get_pr :
    (user : CurrentUser) (pr_id : ℕ) (db : Db) {pr : PurchaseRequisition}
    → get pr_id db.requisitions ≡ some pr
    → get_pr db pr_id user ≡ ok pr
    → (is_applicant_role user.role_code && not (pr.applicant_id == user.id)) ≡ false
unfolding get_pr load_pr
guard_of_get_pr user pr_id db there h =
    let (r, there', h1) = found-eq-ok _ _ _ h in
    let (v, _) = guard-eq-ok _ _ _ h1 in
    let same = Option.some-injective _ _ (sym there' ∙ there) in
    subst (λ x. (is_applicant_role user.role_code && not (x.applicant_id == user.id)) ≡ false) same
      v

listed_of_visible :
    (user : CurrentUser) (pr_id : ℕ) (f : PrFilter) (db : Db) {pr : PurchaseRequisition}
    → get pr_id db.requisitions ≡ some pr
    → passes_pr_filter f pr ≡ true
    → visible_pr_condition db user pr ≡ true
    → Memᴰ (pr_id, pr) (listed_prs db user f)
unfolding listed_prs
listed_of_visible user pr_id f db {pr} there passes v =
    Memᴰ-order_by descending (pr_id, pr) _
      (Memᴰ-where_rows _ (pr_id, pr) db.requisitions (get-Memᴰ pr_id db.requisitions there)
        (and-intro _ _ v passes))

visible_of_listed :
    (user : CurrentUser) (pr_id : ℕ) (f : PrFilter) (db : Db) {pr : PurchaseRequisition}
    → Memᴰ (pr_id, pr) (listed_prs db user f)
    → visible_pr_condition db user pr ≡ true
unfolding listed_prs
visible_of_listed user pr_id f db {pr} m =
    let (_, c) = where_rows-Memᴰ _ (pr_id, pr) db.requisitions (order_by-Memᴰ descending _ _ m) in
    (and-true (visible_pr_condition db user pr) _ c).0

-- A user who is not a department manager can read a requisition that passes a filter exactly where
-- the list with that filter shows it.
pub get_pr-listed :
    (user : CurrentUser) (pr_id : ℕ) (f : PrFilter) (db : Db) {pr : PurchaseRequisition}
    → ¬ (user.role_code ≡ RoleCode.dept_manager)
    → get pr_id db.requisitions ≡ some pr
    → passes_pr_filter f pr ≡ true
    → (get_pr db pr_id user ≡ ok pr) ↔ Memᴰ (pr_id, pr) (listed_prs db user f)
get_pr-listed user pr_id f db {pr} other there passes = (
  λ h. listed_of_visible user pr_id f db there passes (
      visible_of_guard user pr db user.role_code refl other
        (guard_of_get_pr user pr_id db there h)),
  λ m.
      get_pr_of_may_read user pr_id db there
        (guard_of_visible user pr db user.role_code refl (visible_of_listed user pr_id f db m)),
)

-- A department manager can read every requisition, while the list shows only the manager's own and
-- those of the departments that the user manages.
pub get_pr-dept_manager :
    (user : CurrentUser) (pr_id : ℕ) (f : PrFilter) (db : Db) {pr : PurchaseRequisition}
    → user.role_code ≡ RoleCode.dept_manager
    → get pr_id db.requisitions ≡ some pr
    → (get_pr db pr_id user ≡ ok pr)
      × (Memᴰ (pr_id, pr) (listed_prs db user f)
          → ((pr.applicant_id == user.id)
              || is_manager pr.department_id user.id db.department_managers)
            ≡ true)
unfolding visible_pr_condition
get_pr-dept_manager user pr_id f db {pr} e there = (
  get_pr_of_may_read user pr_id db there (rw e refl),
  λ m. let v = visible_of_listed user pr_id f db m in rw e at v,
)
