-- ===== src/Handlers/Guarantee.antt =====
-- The parts of server/src/controllers/approvalController.ts and expenseController.ts, and the
-- manager check, under rely and guarantee.
use expense_management_syste.Base.{ℕ, Option, none, some, Text}
use expense_management_syste.Errors.{Error}
use expense_management_syste.Types.{Expense}
use expense_management_syste.Db.{Keeps, keeps}
use expense_management_syste.Users
use expense_management_syste.Notifications.{expense_decision-Keeps}
use expense_management_syste.Expenses.{ResultCode, ResubmitResult, DeleteResult}
use expense_management_syste.Expenses.Operations.{find_by_id-Keeps}
use expense_management_syste.Types.{User}
use expense_management_syste.Auth.{
  Request, GraphApi, is_manager_of-Keeps, Options, Relationship, real_relationship,
  verify_manager_relationship, require_allowed, ensure_can_access_expense,
}
use expense_management_syste.Handlers.Approval.{check_code, reread, after_approval, after_rejection}
use expense_management_syste.Handlers.Submitter.{check_resubmitted, check_deleted}

pub require_allowed-Keeps : (r : Relationship) → Keeps (require_allowed r)
unfolding require_allowed
require_allowed-Keeps Relationship.allowed = search keeps
require_allowed-Keeps (Relationship.denied reason) = search keeps

pub check_code-Keeps : (e : Error) (code : ResultCode) → Keeps (check_code e code)
unfolding check_code
check_code-Keeps e ResultCode.success = search keeps
check_code-Keeps e _ = search keeps

pub check_resubmitted-Keeps :
    (r : ResubmitResult) (updated : Option Expense) → Keeps (check_resubmitted r updated)
unfolding check_resubmitted
check_resubmitted-Keeps ResubmitResult.success updated = search keeps
check_resubmitted-Keeps _ updated = search keeps

pub check_deleted-Keeps : (r : DeleteResult) → Keeps (check_deleted r)
unfolding check_deleted
check_deleted-Keeps DeleteResult.success = search keeps
check_deleted-Keeps _ = search keeps

module _ (graph : GraphApi) (req : Request) where
  real_relationship-Keeps :
      (options : Options) (submitter : Option User)
      → Keeps (real_relationship graph req options submitter)
  unfolding real_relationship
  real_relationship-Keeps options none = search keeps
  real_relationship-Keeps options (some submitter) = search (keeps, is_manager_of-Keeps)

  pub verify_manager_relationship-Keeps :
      (submitted_by : ℕ) (options : Options)
      → Keeps (verify_manager_relationship graph req submitted_by options)
  unfolding verify_manager_relationship
  verify_manager_relationship-Keeps submitted_by options =
      search (keeps, Users.find_by_id-Keeps, real_relationship-Keeps)

  pub ensure_can_access_expense-Keeps :
      (submitted_by : ℕ) → Keeps (ensure_can_access_expense graph req submitted_by)
  unfolding ensure_can_access_expense
  ensure_can_access_expense-Keeps submitted_by =
      search (keeps, verify_manager_relationship-Keeps, require_allowed-Keeps)

reread-Keeps : (k : ℕ) → Keeps (reread k)
unfolding reread
reread-Keeps k = search (keeps, find_by_id-Keeps)

pub after_approval-Keeps :
    (req : Request) (k : ℕ) (expense : Expense) → Keeps (after_approval req k expense)
unfolding after_approval
after_approval-Keeps req k expense = search (keeps, expense_decision-Keeps, reread-Keeps) depth 9

pub after_rejection-Keeps :
    (req : Request) (k : ℕ) (expense : Expense) (reason : Text)
    → Keeps (after_rejection req k expense reason)
unfolding after_rejection
after_rejection-Keeps req k expense reason =
    search (keeps, expense_decision-Keeps, reread-Keeps) depth 9
