-- ===== src/Expenses/Fresh.antt =====
-- What `createSubmission` of server/src/models/expense.ts is to add, independent of its statements.
use expense_management_syste.Base.{ℕ, Option, none, some, List, [], ◌∷◌, ◌≡◌, refl, Text}
use expense_management_syste.Types.{Expense, Receipt, AuditLog, AuditAction, Status}
use expense_management_syste.Expenses.Rows.{NewExpense, ReceiptInput}
use expense_management_syste.Expenses.Sql.{new_row}

-- The rows that a receipt adds: what is stored of it, under the next key, for the new expense.
abbrev pub receipt_rows : Option ReceiptInput → ℕ → ℕ → ℕ → List Receipt
receipt_rows none expense_id k now = []
receipt_rows (some input) expense_id k now =
    record {
      id = k;
      expense_id = expense_id;
      file_name = input.file_name;
      file_path = input.file_path;
      mime_type = input.mime_type;
      file_size = input.file_size;
      uploaded_at = now;
    }
    ∷ []

-- The audit entry of a submission by this user: a submission of this expense, which is pending now.
abbrev pub submission_entry : ℕ → ℕ → Option Text → ℕ → ℕ → AuditLog
submission_entry expense_id submitted_by ip k now = record {
  id = k;
  expense_id = expense_id;
  action = AuditAction.submitted;
  performed_by = submitted_by;
  old_status = none;
  new_status = some Status.pending;
  details = none;
  ip_address = ip;
  created_at = now;
}

-- A pending expense at version 1 with what was given, that nobody decided on or deleted.
pub record IsNew (new : NewExpense) (k : ℕ) (e : Expense) : Type 0 where
  pub key : e.id ≡ k
  pub of_user : e.submitted_by ≡ new.submitted_by
  pub with_title : e.title ≡ new.title
  pub with_description : e.description ≡ new.description
  pub with_amount : e.amount ≡ new.amount
  pub with_currency : e.currency ≡ new.currency
  pub with_category : e.category ≡ new.category
  pub with_date : e.expense_date ≡ new.expense_date
  pub is_pending : e.status ≡ Status.pending
  pub first_version : e.version ≡ 1
  pub undecided : (e.approved_by ≡ none) × (e.rejection_reason ≡ none)
  pub not_deleted : (e.deleted_at ≡ none) × (e.deleted_by ≡ none)
  pub untouched : e.created_at ≡ e.updated_at

pub IsNew-new_row : (new : NewExpense) (k now : ℕ) → IsNew new k (new_row new k now)
IsNew-new_row new k now = record {
  key = refl;
  of_user = refl;
  with_title = refl;
  with_description = refl;
  with_amount = refl;
  with_currency = refl;
  with_category = refl;
  with_date = refl;
  is_pending = refl;
  first_version = refl;
  undecided = (refl, refl);
  not_deleted = (refl, refl);
  untouched = refl;
}
