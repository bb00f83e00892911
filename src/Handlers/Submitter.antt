-- ===== src/Handlers/Submitter.antt =====
-- server/src/controllers/expenseController.ts: what a submitter does with an expense, and reading one.
use expense_management_syste.Base.{
  ℕ, Option, none, some, List, [], ◌∷◌, Text, ◌==◌, find?, Bool, true, false, filter,
}
use expense_management_syste.Errors.{Error, not_found, forbidden, conflict}
use expense_management_syste.Types.{
  Expense, Receipt, Status, status_eq, AuditAction, AuditLog, Details,
}
use expense_management_syste.Db.{
  M, pure, raise, ◌>>=◌, ◌>>◌, guard, or_raise, lift, query, Statement,
}
use expense_management_syste.Requests.{QueryValue, parse_positive_id}
use expense_management_syste.Notifications.{expense_for_approval}
use expense_management_syste.Expenses.{
  NewExpense, Entry, AuditEntry, insert_audit, create_submission, find_by_id, update, resubmit,
  ResubmitResult, delete, DeleteResult,
}
use expense_management_syste.Uploads.{Upload, receipt_input}
use expense_management_syste.Auth.{Request, actor_of, GraphApi, ensure_can_access_expense}

abbrev pub modified_error : Error
modified_error = conflict "Expense was modified by another request. Please refresh and try again."

unfoldable pub select_audit : ℕ → Statement (Option AuditLog)
select_audit k now d = some (find? (λ a. a.id == k) d.audit_logs, d)

-- `auditLogModel.create`
unfoldable pub create_audit : AuditEntry → M (Option AuditLog)
unfolding select_audit
create_audit entry = do k ← query (insert_audit entry); query (select_audit k)

unfoldable pub select_receipts : ℕ → Statement (List Receipt)
select_receipts k now d = some (filter (λ r. r.expense_id == k) d.receipts, d)

-- `receiptModel.findByExpenseId`; rows are in the order of upload
unfoldable pub find_receipts : ℕ → M (List Receipt)
unfolding select_receipts
find_receipts k = query (select_receipts k)

-- The first lines of every handler of one expense.
unfoldable pub load_expense : QueryValue → M (ℕ × Expense)
load_expense raw_id = do
  expense_id ← lift (parse_positive_id raw_id "expense ID")
  found ← find_by_id expense_id
  expense ← or_raise found (not_found "Expense")
  pure (expense_id, expense)

abbrev pub is_owner : Request → Expense → Bool
is_owner req expense = expense.submitted_by == req.user.id

-- `createExpense`, from the validated body and the uploaded file
unfoldable pub create_expense : Request → NewExpense → Option Upload → M (Expense × Option Receipt)
create_expense req body file = do
  created ←
      create_submission (record body { submitted_by = req.user.id }) (receipt_input file) req.ip
  expense_for_approval req.user.id (actor_of req) created.0 false
  pure created

abbrev pub updated_entry : Request → ℕ → List Text → AuditEntry
updated_entry req k fields = record {
  expense_id = k;
  action = AuditAction.updated;
  performed_by = req.user.id;
  old_status = some Status.pending;
  new_status = some Status.pending;
  details = some (Details.updated_fields fields);
  ip_address = req.ip;
}

-- `if (appliedFields.length > 0) await auditLogModel.create(...)`
unfoldable pub audit_update : Request → ℕ → List Text → M (Unit {0})
unfolding create_audit
audit_update req k [] = pure tt
audit_update req k (f ∷ fs) = create_audit (updated_entry req k (f ∷ fs)) >>= λ _. pure tt

-- `updateExpense`
unfoldable pub update_expense : Request → QueryValue → List Entry → M Expense
unfolding audit_update load_expense
update_expense req raw_id body = do
  (expense_id, expense) ← load_expense raw_id
  guard (is_owner req expense) (forbidden "You can only update your own expenses")
  guard (status_eq expense.status Status.pending) (conflict "Only pending expenses can be updated")
  result ← update expense_id body expense.version
  updated ← or_raise result.0 modified_error
  audit_update req expense_id result.1
  pure updated

abbrev pub fields_details : List Text → Option Details
fields_details [] = none
fields_details (f ∷ fs) = some (Details.updated_fields (f ∷ fs))

abbrev pub resubmitted_entry : Request → ℕ → List Text → AuditEntry
resubmitted_entry req k fields = record {
  expense_id = k;
  action = AuditAction.resubmitted;
  performed_by = req.user.id;
  old_status = some Status.rejected;
  new_status = some Status.pending;
  details = fields_details fields;
  ip_address = req.ip;
}

-- The answers to the results of the model's `resubmit`.
unfoldable pub check_resubmitted : ResubmitResult → Option Expense → M Expense
check_resubmitted ResubmitResult.not_found updated = raise (not_found "Expense")
check_resubmitted ResubmitResult.not_rejected updated =
    raise (conflict "Only rejected expenses can be resubmitted")
check_resubmitted ResubmitResult.conflict updated = raise modified_error
check_resubmitted ResubmitResult.success updated = or_raise updated modified_error

-- `resubmitExpense`
unfoldable pub resubmit_expense : Request → QueryValue → List Entry → M Expense
unfolding create_audit load_expense check_resubmitted
resubmit_expense req raw_id body = do
  (expense_id, expense) ← load_expense raw_id
  guard (is_owner req expense) (forbidden "You can only resubmit your own expenses")
  guard (status_eq expense.status Status.rejected)
      (conflict "Only rejected expenses can be resubmitted")
  result ← resubmit expense_id body expense.version
  updated ← check_resubmitted result.0 result.1
  _ ← create_audit (resubmitted_entry req expense_id result.2)
  expense_for_approval req.user.id (actor_of req) updated true
  pure updated

unfoldable pub check_deleted : DeleteResult → M (Unit {0})
check_deleted DeleteResult.success = pure tt
check_deleted DeleteResult.not_found = raise (not_found "Expense")
check_deleted DeleteResult.conflict = raise modified_error

-- `deleteExpense`; the result is the receipts whose files are then unlinked
unfoldable pub delete_expense : Request → QueryValue → M (List Receipt)
unfolding load_expense check_deleted find_receipts
delete_expense req raw_id = do
  (expense_id, expense) ← load_expense raw_id
  guard (is_owner req expense) (forbidden "You can only delete your own expenses")
  guard (status_eq expense.status Status.pending) (conflict "Only pending expenses can be deleted")
  receipts ← find_receipts expense_id
  result ← delete expense_id req.user.id expense.version req.ip
  check_deleted result
  pure receipts

-- `getExpenseById`
unfoldable pub get_expense_by_id : GraphApi → Request → QueryValue → M (Expense × List Receipt)
unfolding load_expense find_receipts
get_expense_by_id graph req raw_id = do
  (expense_id, expense) ← load_expense raw_id
  ensure_can_access_expense graph req expense.submitted_by
  receipts ← find_receipts expense_id
  pure (expense, receipts)
