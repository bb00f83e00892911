-- ===== src/Expenses/Operations.antt =====
-- The operations of server/src/models/expense.ts under rely and guarantee.
use expense_management_syste.Base.{ℕ, Option, none, some, List, [], ◌∷◌, Text, ◌≡◌, arith}
use expense_management_syste.Types.{Expense}
use expense_management_syste.Db.{World, Keeps, keeps, find_live}
use expense_management_syste.Db.Runs.{Ends}
use expense_management_syste.Db.Moments.{Waits, IsSelect, select-Ends}
use expense_management_syste.Expenses.Sql.{select_live}
use expense_management_syste.Expenses.Rows.{NewExpense, ReceiptInput, Entry}
use expense_management_syste.Expenses.Model.{
  store_receipt, submission_body, create_submission, find_by_id, update_set, update, resubmit_write,
  resubmit_locked, resubmit, delete_write, delete_locked, delete, approve_with_version,
  reject_with_version,
}
use expense_management_syste.Expenses.Statements.{
  insert_expense-StatementKeeps, insert_receipt-StatementKeeps, select_receipt-StatementKeeps,
  select_live-StatementKeeps, insert_audit-StatementKeeps, insert_deleted_audit-StatementKeeps,
  update_pending-StatementKeeps, update_rejected-StatementKeeps, soft_delete-StatementKeeps,
  sp_approve_expense-StatementKeeps, sp_reject_expense-StatementKeeps,
}

ruleset statements = (
  insert_expense-StatementKeeps, insert_receipt-StatementKeeps, select_receipt-StatementKeeps,
  select_live-StatementKeeps, insert_audit-StatementKeeps, insert_deleted_audit-StatementKeeps,
  update_pending-StatementKeeps, update_rejected-StatementKeeps, soft_delete-StatementKeeps,
  sp_approve_expense-StatementKeeps, sp_reject_expense-StatementKeeps,
)

store_receipt-Keeps : (k : ℕ) (receipt : Option ReceiptInput) → Keeps (store_receipt k receipt)
unfolding store_receipt
store_receipt-Keeps k none = search keeps
store_receipt-Keeps k (some input) = search (keeps, statements)

submission_body-Keeps :
    (new : NewExpense) (receipt : Option ReceiptInput) (ip : Option Text)
    → Keeps (submission_body new receipt ip)
unfolding submission_body
submission_body-Keeps new receipt ip = search (keeps, statements, store_receipt-Keeps) depth 12

pub create_submission-Keeps :
    (new : NewExpense) (receipt : Option ReceiptInput) (ip : Option Text)
    → Keeps (create_submission new receipt ip)
unfolding create_submission
create_submission-Keeps new receipt ip = search (keeps, submission_body-Keeps)

pub find_by_id-Keeps : (k : ℕ) → Keeps (find_by_id k)
unfolding find_by_id
find_by_id-Keeps k = search (keeps, statements)

update_set-Keeps :
    (k : ℕ) (entries : List Entry) (version : ℕ) (fields : List Entry)
    → Keeps (update_set k entries version fields)
unfolding update_set
update_set-Keeps k entries version [] = search (keeps, statements)
update_set-Keeps k entries version (_ ∷ _) = search (keeps, statements) depth 9

pub update-Keeps : (k : ℕ) (entries : List Entry) (version : ℕ) → Keeps (update k entries version)
unfolding update
update-Keeps k entries version = search (update_set-Keeps)

resubmit_write-Keeps :
    (k : ℕ) (entries : List Entry) (version : ℕ) → Keeps (resubmit_write k entries version)
unfolding resubmit_write
resubmit_write-Keeps k entries version = search (keeps, statements) depth 9

resubmit_locked-Keeps :
    (k : ℕ) (entries : List Entry) (version : ℕ) (row : Option Expense)
    → Keeps (resubmit_locked k entries version row)
unfolding resubmit_locked
resubmit_locked-Keeps k entries version none = search keeps
resubmit_locked-Keeps k entries version (some row) = search (keeps, resubmit_write-Keeps)

pub resubmit-Keeps :
    (k : ℕ) (entries : List Entry) (version : ℕ) → Keeps (resubmit k entries version)
unfolding resubmit
resubmit-Keeps k entries version = search (keeps, statements, resubmit_locked-Keeps)

delete_write-Keeps :
    (k deleted_by version : ℕ) (ip : Option Text) → Keeps (delete_write k deleted_by version ip)
unfolding delete_write
delete_write-Keeps k deleted_by version ip = search (keeps, statements) depth 9

delete_locked-Keeps :
    (k deleted_by version : ℕ) (ip : Option Text) (row : Option Expense)
    → Keeps (delete_locked k deleted_by version ip row)
unfolding delete_locked
delete_locked-Keeps k deleted_by version ip none = search keeps
delete_locked-Keeps k deleted_by version ip (some row) = search (keeps, delete_write-Keeps)

pub delete-Keeps :
    (k deleted_by version : ℕ) (ip : Option Text) → Keeps (delete k deleted_by version ip)
unfolding delete
delete-Keeps k deleted_by version ip = search (keeps, statements, delete_locked-Keeps)

pub approve_with_version-Keeps :
    (k approved_by version : ℕ) (ip : Option Text)
    → Keeps (approve_with_version k approved_by version ip)
unfolding approve_with_version
approve_with_version-Keeps k approved_by version ip = search (keeps, statements)

pub reject_with_version-Keeps :
    (k rejected_by version : ℕ) (reason : Text) (ip : Option Text)
    → Keeps (reject_with_version k rejected_by version reason ip)
unfolding reject_with_version
reject_with_version-Keeps k rejected_by version reason ip = search (keeps, statements)

select_live-IsSelect : (k : ℕ) → IsSelect (select_live k)
unfolding select_live
select_live-IsSelect k = record { leaves = λ now d x h. ground (arith, h) }

pub find_by_id-found :
    (k : ℕ) (w : World) {o : Option Expense} {w' : World}
    → Ends (find_by_id k) w o w'
    → (find_live k w'.db.expenses ≡ o) × Waits w w'
unfolding find_by_id select_live
find_by_id-found k w h =
    let (stmt, before) = select-Ends (select_live k) w (select_live-IsSelect k) h in
    (ground (arith, stmt), before)
