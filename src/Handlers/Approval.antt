-- ===== src/Handlers/Approval.antt =====
-- server/src/controllers/approvalController.ts: `approveExpense` and `rejectExpense`. What a handler
-- passes to `next` is raised; what it answers with `res.json` is the result. Metrics and log lines
-- are left out.
use expense_management_syste.Base.{ℕ, ◌+◌, not, Option, none, some, Text, ◌==◌}
use expense_management_syste.Errors.{Error, not_found, forbidden, conflict}
use expense_management_syste.Types.{Expense, Status, status_eq}
use expense_management_syste.Db.{
  M, pure, raise, ◌>>=◌, ◌>>◌, attempt, guard, or_raise, lift, current_time,
}
use expense_management_syste.Requests.{QueryValue, parse_positive_id, trim}
use expense_management_syste.Notifications.{Decision, expense_decision}
use expense_management_syste.Expenses.{
  find_by_id, ResultCode, approve_with_version, reject_with_version,
}
use expense_management_syste.Auth.{
  Request, actor_of, GraphApi, verify_manager_relationship, require_allowed, live_check,
}

-- The answers to the result codes of the decision procedures.
unfoldable pub check_code : Error → ResultCode → M (Unit {0})
check_code not_pending_error ResultCode.success = pure tt
check_code not_pending_error ResultCode.version_conflict =
    raise (conflict "Expense was modified by another request. Please refresh and try again.")
check_code not_pending_error ResultCode.not_pending = raise not_pending_error
check_code not_pending_error ResultCode.not_found = raise (not_found "Expense")

abbrev pub not_approvable : Error
not_approvable = conflict "Only pending expenses can be approved"

abbrev pub not_rejectable : Error
not_rejectable = conflict "Only pending expenses can be rejected"

-- `updated ?? { ...expense, ... }`
abbrev pub or_else : Option Expense → Expense → Expense
or_else none fallback = fallback
or_else (some e) fallback = e

-- `expenseModel.findById(expenseId).catch(() => null)`
unfoldable pub reread : ℕ → M (Option Expense)
reread k = attempt (find_by_id k) (λ _. pure none)

abbrev approved_fallback : Expense → ℕ → ℕ → Expense
approved_fallback e by now = record e {
  status = Status.approved;
  approved_by = some by;
  version = e.version + 1;
  updated_at = now;
}

abbrev rejected_fallback : Expense → ℕ → Text → ℕ → Expense
rejected_fallback e by reason now = record e {
  status = Status.rejected;
  approved_by = some by;
  rejection_reason = some reason;
  version = e.version + 1;
  updated_at = now;
}

-- What follows a committed decision: the notification, and the row for the answer.
unfoldable pub after_approval : Request → ℕ → Expense → M Expense
after_approval req expense_id expense = do
  expense_decision expense (actor_of req) Decision.approved
  updated ← reread expense_id
  now ← current_time
  pure (or_else updated (approved_fallback expense req.user.id now))

unfoldable pub after_rejection : Request → ℕ → Expense → Text → M Expense
after_rejection req expense_id expense reason = do
  expense_decision expense (actor_of req) Decision.rejected
  updated ← reread expense_id
  now ← current_time
  pure (or_else updated (rejected_fallback expense req.user.id reason now))

module _ (graph : GraphApi) (req : Request) where
  -- From the expense that was read: the checks, the stored procedure, and the answer.
  unfoldable pub approve_found : ℕ → Expense → M Expense
  approve_found expense_id expense = do
    guard (not (expense.submitted_by == req.user.id))
        (forbidden "You cannot approve your own expenses")
    relationship ← verify_manager_relationship graph req expense.submitted_by live_check
    require_allowed relationship
    guard (status_eq expense.status Status.pending) not_approvable
    code ← approve_with_version expense_id req.user.id expense.version req.ip
    check_code not_approvable code
    after_approval req expense_id expense

  -- `approveExpense`
  unfoldable pub approve_expense : QueryValue → M Expense
  approve_expense raw_id = do
    expense_id ← lift (parse_positive_id raw_id "expense ID")
    found ← find_by_id expense_id
    expense ← or_raise found (not_found "Expense")
    approve_found expense_id expense

  unfoldable pub reject_found : ℕ → Text → Expense → M Expense
  reject_found expense_id reason expense = do
    guard (not (expense.submitted_by == req.user.id))
        (forbidden "You cannot reject your own expenses")
    relationship ← verify_manager_relationship graph req expense.submitted_by live_check
    require_allowed relationship
    guard (status_eq expense.status Status.pending) not_rejectable
    code ← reject_with_version expense_id req.user.id expense.version reason req.ip
    check_code not_rejectable code
    after_rejection req expense_id expense reason

  -- `rejectExpense`, whose body was validated before
  unfoldable pub reject_expense : QueryValue → Text → M Expense
  reject_expense raw_id reason = do
    expense_id ← lift (parse_positive_id raw_id "expense ID")
    found ← find_by_id expense_id
    expense ← or_raise found (not_found "Expense")
    reject_found expense_id (trim reason) expense
