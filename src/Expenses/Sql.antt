-- ===== src/Expenses/Sql.antt =====
-- server/src/models/expense.ts and database/stored-procedures.sql: the SQL statements that write and
-- read single expenses, and the two decision procedures.
use expense_management_syste.Base.{
  ℕ, ◌+◌, Bool, ◌&&◌, Option, none, some, List, [], ◌∷◌, ◌++◌, Text, ◌==◌, if◌then◌else◌, find?,
  not,
}
use expense_management_syste.Types.{
  Expense, Receipt, AuditLog, AuditAction, Status, status_eq, Details,
}
use expense_management_syste.Db.{
  Db, Statement, by_id, replace, find_live, is_live, satisfies_checks,
}
use expense_management_syste.Expenses.Rows.{
  NewExpense, ReceiptInput, Entry, update_row, resubmit_row, delete_row, approve_row, reject_row,
}

-- The row of an `INSERT INTO expenses`, with the defaults of the columns.
abbrev pub new_row : NewExpense → ℕ → ℕ → Expense
new_row input k now = record {
  id = k;
  submitted_by = input.submitted_by;
  title = input.title;
  description = input.description;
  amount = input.amount;
  currency = input.currency;
  category = input.category;
  expense_date = input.expense_date;
  status = Status.pending;
  approved_by = none;
  rejection_reason = none;
  version = 1;
  deleted_at = none;
  deleted_by = none;
  created_at = now;
  updated_at = now;
}

-- `INSERT INTO expenses`; gives `insertId`.
unfoldable pub insert_expense : NewExpense → Statement ℕ
insert_expense input now d =
    let new : Expense = new_row input d.next_expense now in
    elim (by_id d.next_expense d.expenses) [
      | some _ ↦ none
      | none ↦
          if satisfies_checks new
          then some (
            d.next_expense,
            record d { expenses = d.expenses ++ new ∷ []; next_expense = d.next_expense + 1 },
          )
          else none
    ]

abbrev pub receipt_row : ℕ → ReceiptInput → ℕ → ℕ → Receipt
receipt_row expense_id input k now = record {
  id = k;
  expense_id = expense_id;
  file_name = input.file_name;
  file_path = input.file_path;
  mime_type = input.mime_type;
  file_size = input.file_size;
  uploaded_at = now;
}

-- `INSERT INTO receipts`
unfoldable pub insert_receipt : ℕ → ReceiptInput → Statement ℕ
insert_receipt expense_id input now d = some (
  d.next_receipt,
  record d {
    receipts = d.receipts ++ receipt_row expense_id input d.next_receipt now ∷ [];
    next_receipt = d.next_receipt + 1;
  },
)

-- `SELECT * FROM receipts WHERE id = ?`
unfoldable pub select_receipt : ℕ → Statement (Option Receipt)
select_receipt k now d = some (find? (λ r. r.id == k) d.receipts, d)

-- The values of an `INSERT INTO audit_logs`.
pub record AuditEntry : Type 0 where
  pub expense_id : ℕ
  pub action : AuditAction
  pub performed_by : ℕ
  pub old_status : Option Status
  pub new_status : Option Status
  pub details : Option Details
  pub ip_address : Option Text

abbrev pub audit_row : AuditEntry → ℕ → ℕ → AuditLog
audit_row entry k now = record {
  id = k;
  expense_id = entry.expense_id;
  action = entry.action;
  performed_by = entry.performed_by;
  old_status = entry.old_status;
  new_status = entry.new_status;
  details = entry.details;
  ip_address = entry.ip_address;
  created_at = now;
}

abbrev pub append_audit : AuditEntry → ℕ → Db → Db
append_audit entry now d = record d {
  audit_logs = d.audit_logs ++ audit_row entry d.next_audit now ∷ [];
  next_audit = d.next_audit + 1;
}

unfoldable pub insert_audit : AuditEntry → Statement ℕ
insert_audit entry now d = some (d.next_audit, append_audit entry now d)

-- `SELECT ... WHERE id = ? AND deleted_at IS NULL`
unfoldable pub select_live : ℕ → Statement (Option Expense)
select_live k now d = some (find_live k d.expenses, d)

-- `UPDATE expenses SET ... WHERE id = ? AND <test>`; gives `affectedRows`.
unfoldable pub update_where : ℕ → (Expense → Bool) → (Expense → Expense) → Statement ℕ
update_where k test change now d = elim (by_id k d.expenses) [
  | none ↦ some (0, d)
  | some e ↦
      let new : Expense = record (change e) { updated_at = now } in
      if test e
      then if satisfies_checks new
        then some (1, record d { expenses = replace k new d.expenses })
        else none
      else some (0, d)
]

-- `version = ? AND status = ... AND deleted_at IS NULL`
abbrev pub is_at : ℕ → Status → Expense → Bool
is_at version status e = (e.version == version) && status_eq e.status status && is_live e

unfoldable pub update_pending : ℕ → ℕ → List Entry → Statement ℕ
unfolding update_where
update_pending k version entries =
    update_where k (is_at version Status.pending) (update_row entries)

unfoldable pub update_rejected : ℕ → ℕ → List Entry → Statement ℕ
unfolding update_where
update_rejected k version entries =
    update_where k (is_at version Status.rejected) (resubmit_row entries)

unfoldable pub soft_delete : ℕ → ℕ → ℕ → Statement ℕ
unfolding update_where
soft_delete k version deleted_by now =
    update_where k (is_at version Status.pending) (delete_row now deleted_by) now

abbrev pub deleted_entry : Expense → ℕ → Option Text → AuditEntry
deleted_entry e deleted_by ip = record {
  expense_id = e.id;
  action = AuditAction.deleted;
  performed_by = deleted_by;
  old_status = some e.status;
  new_status = none;
  details = some (Details.title_amount e.title e.amount);
  ip_address = ip;
}

-- `INSERT INTO audit_logs ... SELECT ... FROM expenses WHERE id = ?`
unfoldable pub insert_deleted_audit : ℕ → ℕ → Option Text → Statement (Unit {0})
insert_deleted_audit k deleted_by ip now d = elim (by_id k d.expenses) [
  | none ↦ some (tt, d)
  | some e ↦ some (tt, append_audit (deleted_entry e deleted_by ip) now d)
]

-- The result codes of the decision procedures.
pub data ResultCode : Type 0 where
  success not_found not_pending version_conflict : ResultCode

-- What both decision procedures share: the row lock, the three tests, the UPDATE by id and the audit
-- row, in one transaction of the server's.
unfoldable pub decide : ℕ → ℕ → (Expense → Expense) → AuditEntry → Statement ResultCode
decide k version change entry now d = elim (find_live k d.expenses) [
  | none ↦ some (ResultCode.not_found, d)
  | some e ↦
      let new : Expense = record (change e) { updated_at = now } in
      if not (status_eq e.status Status.pending)
      then some (ResultCode.not_pending, d)
      else if not (e.version == version)
      then some (ResultCode.version_conflict, d)
      else if satisfies_checks new
      then some (
        ResultCode.success,
        append_audit entry now (record d { expenses = replace k new d.expenses }),
      )
      else none
]

abbrev pub approved_entry : ℕ → ℕ → ℕ → Option Text → AuditEntry
approved_entry k approved_by version ip = record {
  expense_id = k;
  action = AuditAction.approved;
  performed_by = approved_by;
  old_status = some Status.pending;
  new_status = some Status.approved;
  details = some (Details.versions version (version + 1));
  ip_address = ip;
}

abbrev pub rejected_entry : ℕ → ℕ → ℕ → Text → Option Text → AuditEntry
rejected_entry k rejected_by version reason ip = record {
  expense_id = k;
  action = AuditAction.rejected;
  performed_by = rejected_by;
  old_status = some Status.pending;
  new_status = some Status.rejected;
  details = some (Details.rejection reason version (version + 1));
  ip_address = ip;
}

-- sp_approve_expense
unfoldable pub sp_approve_expense : ℕ → ℕ → ℕ → Option Text → Statement ResultCode
unfolding decide
sp_approve_expense k approved_by version ip =
    decide k version (approve_row approved_by) (approved_entry k approved_by version ip)

-- sp_reject_expense
unfoldable pub sp_reject_expense : ℕ → ℕ → ℕ → Text → Option Text → Statement ResultCode
unfolding decide
sp_reject_expense k rejected_by version reason ip =
    decide k version (reject_row rejected_by reason)
      (rejected_entry k rejected_by version reason ip)
