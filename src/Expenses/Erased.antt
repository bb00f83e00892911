-- ===== src/Expenses/Erased.antt =====
-- What `delete` of server/src/models/expense.ts is to write, independent of its statements.
use expense_management_syste.Base.{ℕ, ◌+◌, Option, none, some, ◌≡◌, refl, Text}
use expense_management_syste.Types.{Expense, AuditLog, AuditAction, Details}
use expense_management_syste.Expenses.Rows.{delete_row}

-- The row as it is when that user deletes it: marked, at the next version, and else as it was.
pub record IsErased (deleted_by : ℕ) (old new : Expense) : Type 0 where
  pub marked : (now : ℕ) × (new.deleted_at ≡ some now)
  pub by_user : new.deleted_by ≡ some deleted_by
  pub next_version : new.version ≡ old.version + 1
  pub same_id : new.id ≡ old.id
  pub same_submitter : new.submitted_by ≡ old.submitted_by
  pub same_title : new.title ≡ old.title
  pub same_description : new.description ≡ old.description
  pub same_amount : new.amount ≡ old.amount
  pub same_currency : new.currency ≡ old.currency
  pub same_category : new.category ≡ old.category
  pub same_date : new.expense_date ≡ old.expense_date
  pub same_status : new.status ≡ old.status
  pub same_decision :
      (new.approved_by ≡ old.approved_by) × (new.rejection_reason ≡ old.rejection_reason)
  pub same_creation : new.created_at ≡ old.created_at

pub delete_row-IsErased :
    (now deleted_by : ℕ) (old : Expense)
    → IsErased deleted_by old (record (delete_row now deleted_by old) { updated_at = now })
delete_row-IsErased now deleted_by old = record {
  marked = (now, refl);
  by_user = refl;
  next_version = refl;
  same_id = refl;
  same_submitter = refl;
  same_title = refl;
  same_description = refl;
  same_amount = refl;
  same_currency = refl;
  same_category = refl;
  same_date = refl;
  same_status = refl;
  same_decision = (refl, refl);
  same_creation = refl;
}

-- The audit entry of a deletion by this user: its title and amount, and the status it was in.
abbrev pub deletion_entry : Expense → ℕ → Option Text → ℕ → ℕ → AuditLog
deletion_entry e deleted_by ip k now = record {
  id = k;
  expense_id = e.id;
  action = AuditAction.deleted;
  performed_by = deleted_by;
  old_status = some e.status;
  new_status = none;
  details = some (Details.title_amount e.title e.amount);
  ip_address = ip;
  created_at = now;
}
