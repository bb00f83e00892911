-- ===== src/Expenses/Model.antt =====
-- server/src/models/expense.ts: the operations on single expenses.
use expense_management_syste.Base.{
  ℕ, not, Option, none, some, List, [], ◌∷◌, Text, ◌==◌, if◌then◌else◌, ◌||◌,
}
use expense_management_syste.Errors.{Error}
use expense_management_syste.Types.{Expense, Receipt, AuditAction, Status, status_eq}
use expense_management_syste.Db.{
  M, pure, ◌>>=◌, ◌>>◌, or_raise, query, execute, Ending, commit, abort, transaction,
}
use expense_management_syste.Expenses.Rows.{
  NewExpense, ReceiptInput, Entry, applied, applied_fields,
}
use expense_management_syste.Expenses.Sql.{
  insert_expense, insert_receipt, select_receipt, AuditEntry, insert_audit, select_live,
  update_pending, update_rejected, soft_delete, insert_deleted_audit, ResultCode,
  sp_approve_expense, sp_reject_expense,
}

abbrev pub submitted_entry : ℕ → ℕ → Option Text → AuditEntry
submitted_entry k submitted_by ip = record {
  expense_id = k;
  action = AuditAction.submitted;
  performed_by = submitted_by;
  old_status = none;
  new_status = some Status.pending;
  details = none;
  ip_address = ip;
}

-- The optional receipt of `createSubmission`, with its re-read.
unfoldable pub store_receipt : ℕ → Option ReceiptInput → M (Option Receipt)
store_receipt expense_id none = pure none
store_receipt expense_id (some input) = do
  receipt_id ← execute (insert_receipt expense_id input)
  execute (select_receipt receipt_id)

-- The `try` block of `createSubmission`.
unfoldable pub submission_body :
    NewExpense → Option ReceiptInput → Option Text → M (Ending (Expense × Option Receipt))
unfolding store_receipt
submission_body new receipt ip = do
  expense_id ← execute (insert_expense new)
  stored ← store_receipt expense_id receipt
  _ ← execute (insert_audit (submitted_entry expense_id new.submitted_by ip))
  found ← execute (select_live expense_id)
  expense ← or_raise found Error.failure
  pure (commit (expense, stored))

-- `createSubmission`
unfoldable pub create_submission :
    NewExpense → Option ReceiptInput → Option Text → M (Expense × Option Receipt)
create_submission new receipt ip = transaction (submission_body new receipt ip)

-- `findById`
unfoldable pub find_by_id : ℕ → M (Option Expense)
find_by_id k = query (select_live k)

-- `update`, from the fields that apply; they come with the row, which is null on a version conflict.
unfoldable pub update_set : ℕ → List Entry → ℕ → List Entry → M (Option Expense × List Text)
unfolding find_by_id
update_set k entries version [] = do expense ← find_by_id k; pure (expense, [])
update_set k entries version (_ ∷ _) = do
  affected ← query (update_pending k version entries)
  if affected == 0
      then pure (none, applied_fields entries)
      else do expense ← find_by_id k; pure (expense, applied_fields entries)

-- `update`
unfoldable pub update : ℕ → List Entry → ℕ → M (Option Expense × List Text)
unfolding update_set
update k entries version = update_set k entries version (applied entries)

pub data ResubmitResult : Type 0 where
  success conflict not_found not_rejected : ResubmitResult

abbrev pub Resubmitted : Type 0
Resubmitted = ResubmitResult × Option Expense × List Text

-- The UPDATE of `resubmit` and what follows it.
unfoldable pub resubmit_write : ℕ → List Entry → ℕ → M (Ending Resubmitted)
resubmit_write k entries version = do
  affected ← execute (update_rejected k version entries)
  if affected == 0 then pure (abort (ResubmitResult.conflict, none, applied_fields entries)) else do
    updated ← execute (select_live k)
    pure (commit (ResubmitResult.success, updated, applied_fields entries))

-- The `try` block of `resubmit`, from the row that its first SELECT locks.
unfoldable pub resubmit_locked : ℕ → List Entry → ℕ → Option Expense → M (Ending Resubmitted)
unfolding resubmit_write
resubmit_locked k entries version none = pure (abort (ResubmitResult.not_found, none, []))
resubmit_locked k entries version (some row) =
    if not (status_eq row.status Status.rejected)
    then pure (abort (ResubmitResult.not_rejected, none, []))
    else if not (row.version == version)
    then pure (abort (ResubmitResult.conflict, none, []))
    else resubmit_write k entries version

-- `resubmit`
unfoldable pub resubmit : ℕ → List Entry → ℕ → M Resubmitted
unfolding resubmit_locked
resubmit k entries version =
    transaction (execute (select_live k) >>= resubmit_locked k entries version)

pub data DeleteResult : Type 0 where
  success conflict not_found : DeleteResult

-- The two writes of `delete`.
unfoldable pub delete_write : ℕ → ℕ → ℕ → Option Text → M (Ending DeleteResult)
delete_write k deleted_by version ip = do
  execute (insert_deleted_audit k deleted_by ip)
  affected ← execute (soft_delete k version deleted_by)
  if affected == 0 then pure (abort DeleteResult.conflict) else pure (commit DeleteResult.success)

unfoldable pub delete_locked : ℕ → ℕ → ℕ → Option Text → Option Expense → M (Ending DeleteResult)
unfolding delete_write
delete_locked k deleted_by version ip none = pure (abort DeleteResult.not_found)
delete_locked k deleted_by version ip (some row) =
    if not (status_eq row.status Status.pending) || not (row.version == version)
    then pure (abort DeleteResult.conflict)
    else delete_write k deleted_by version ip

-- `delete`
unfoldable pub delete : ℕ → ℕ → ℕ → Option Text → M DeleteResult
unfolding delete_locked
delete k deleted_by version ip =
    transaction (execute (select_live k) >>= delete_locked k deleted_by version ip)

-- `approveWithVersion`
unfoldable pub approve_with_version : ℕ → ℕ → ℕ → Option Text → M ResultCode
approve_with_version k approved_by version ip = query (sp_approve_expense k approved_by version ip)

-- `rejectWithVersion`
unfoldable pub reject_with_version : ℕ → ℕ → ℕ → Text → Option Text → M ResultCode
reject_with_version k rejected_by version reason ip =
    query (sp_reject_expense k rejected_by version reason ip)
