-- ===== src/Requisition/Read.antt =====
-- `get_pr`, `visible_pr_condition` and `list_prs` of
-- backend/app/services/purchase_requisition_service.py. What the database's LIKE makes of a text is
-- a predicate of the filter.
use manufacturing_erp_lite.Prelude.{
  ℕ, Bool, true, false, not, ◌&&◌, ◌||◌, Option, ◌==◌, leb, nat_eq,
}
use manufacturing_erp_lite.Prelude.Assoc.{Assoc}
use manufacturing_erp_lite.Enums.{PrStatus, RoleCode, is_pr_status}
use manufacturing_erp_lite.Errors
use manufacturing_erp_lite.Errors.{Result, ok, ◌>>=◌, ◌>>◌, raise_if}
use manufacturing_erp_lite.Store.{Db, CurrentUser, DocumentNo, PurchaseRequisition}
use manufacturing_erp_lite.Query.{where_rows, order_by, descending, paged, if_given}
use manufacturing_erp_lite.Requisition.Defs.{load_pr, is_manager}

abbrev pub is_applicant_role : RoleCode → Bool
is_applicant_role RoleCode.applicant = true
is_applicant_role _ = false

unfoldable pub get_pr : Db → ℕ → CurrentUser → Result PurchaseRequisition
get_pr db pr_id user = do
  pr ← load_pr db pr_id
  raise_if (is_applicant_role user.role_code && not (pr.applicant_id == user.id))
      Errors.pr_not_applicant
  ok pr

-- `visible_pr_condition`, on one row; `None` is a condition that every row meets.
unfoldable pub visible_pr_condition : Db → CurrentUser → PurchaseRequisition → Bool
visible_pr_condition db user pr = elim user.role_code [
  | RoleCode.applicant ↦ pr.applicant_id == user.id
  | RoleCode.dept_manager ↦
      (pr.applicant_id == user.id) || is_manager pr.department_id user.id db.department_managers
  | _ ↦ true
]

-- The filters of a request; `pr_no` and `applicant` are what LIKE says of the number and of the
-- applicant's names, true where no text is given.
pub record PrFilter : Type 0 where
  pub pr_no : DocumentNo → Bool
  pub applicant : ℕ → Bool
  pub department_id : Option ℕ
  pub status : Option PrStatus
  pub apply_date_from : Option ℕ
  pub apply_date_to : Option ℕ

abbrev pub passes_pr_filter : PrFilter → PurchaseRequisition → Bool
passes_pr_filter f pr =
    f.pr_no pr.pr_no
    && f.applicant pr.applicant_id
    && if_given (λ d x. d == x) f.department_id pr.department_id
    && if_given is_pr_status f.status pr.status
    && if_given leb f.apply_date_from pr.apply_date
    && if_given (λ d x. leb x d) f.apply_date_to pr.apply_date

-- The rows of all pages, the newest first.
unfoldable pub listed_prs : Db → CurrentUser → PrFilter → Assoc ℕ PurchaseRequisition
unfolding where_rows order_by visible_pr_condition
listed_prs db user f =
    order_by descending
      (where_rows (λ r. visible_pr_condition db user r.1 && passes_pr_filter f r.1) db.requisitions)

unfoldable pub list_prs : Db → CurrentUser → ℕ → ℕ → PrFilter → Assoc ℕ PurchaseRequisition × ℕ
unfolding listed_prs paged
list_prs db user page page_size f = paged page page_size (listed_prs db user f)
