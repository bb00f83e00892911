-- ===== src/Expenses/Rows.antt =====
-- server/src/models/expense.ts: the inputs of the model, and what each UPDATE makes of a row.
use expense_management_syste.Base.{
  ℕ, ◌+◌, Bool, true, false, Option, none, some, List, [], ◌∷◌, map, Text, codes, filter,
}
use expense_management_syste.Types.{Expense, Category, Status}

-- The argument `expense` of `createSubmission`.
pub record NewExpense : Type 0 where
  pub submitted_by : ℕ
  pub title : Text
  pub description : Option Text
  pub amount : ℕ
  pub currency : Text
  pub category : Category
  pub expense_date : Text

-- The argument `receipt` of `createSubmission`.
pub record ReceiptInput : Type 0 where
  pub file_name : Text
  pub file_path : Text
  pub mime_type : Text
  pub file_size : ℕ

-- One entry of `Object.entries(data)`: a key of UPDATE_FIELDS with its value, a key whose value is
-- undefined, or another key.
pub data Entry : Type 0 where
  title : Text → Entry
  description : Option Text → Entry
  amount : ℕ → Entry
  currency : Text → Entry
  category : Category → Entry
  expense_date : Text → Entry
  undefined_value : Text → Entry
  other_key : Text → Entry

-- `value !== undefined && UPDATE_FIELDS.has(key)`
abbrev pub is_applied : Entry → Bool
is_applied (Entry.undefined_value _) = false
is_applied (Entry.other_key _) = false
is_applied _ = true

abbrev pub key_of : Entry → Text
key_of (Entry.title _) = codes "title"
key_of (Entry.description _) = codes "description"
key_of (Entry.amount _) = codes "amount"
key_of (Entry.currency _) = codes "currency"
key_of (Entry.category _) = codes "category"
key_of (Entry.expense_date _) = codes "expense_date"
key_of (Entry.undefined_value k) = k
key_of (Entry.other_key k) = k

-- `SET key = ?`
unfoldable pub assign : Entry → Expense → Expense
assign (Entry.title v) e = record e { title = v }
assign (Entry.description v) e = record e { description = v }
assign (Entry.amount v) e = record e { amount = v }
assign (Entry.currency v) e = record e { currency = v }
assign (Entry.category v) e = record e { category = v }
assign (Entry.expense_date v) e = record e { expense_date = v }
assign (Entry.undefined_value _) e = e
assign (Entry.other_key _) e = e

-- The loop that collects `fields`, `values` and `appliedFields`.
abbrev pub applied : List Entry → List Entry
applied entries = filter is_applied entries

abbrev pub applied_fields : List Entry → List Text
applied_fields entries = map key_of (applied entries)

-- The SET clauses, from left to right.
unfoldable pub assign_all : List Entry → Expense → Expense
assign_all [] e = e
assign_all (x ∷ xs) e = assign_all xs (assign x e)

abbrev pub bump : Expense → Expense
bump e = record e { version = e.version + 1 }

-- `update`
abbrev pub update_row : List Entry → Expense → Expense
update_row entries e = bump (assign_all (applied entries) e)

-- `resubmit`
abbrev pub resubmit_row : List Entry → Expense → Expense
resubmit_row entries e = bump (record (assign_all (applied entries) e) {
  status = Status.pending;
  rejection_reason = none;
  approved_by = none;
})

-- `delete`
abbrev pub delete_row : ℕ → ℕ → Expense → Expense
delete_row now deleted_by e =
    bump (record e { deleted_at = some now; deleted_by = some deleted_by })

-- sp_approve_expense
abbrev pub approve_row : ℕ → Expense → Expense
approve_row approved_by e =
    bump (record e { status = Status.approved; approved_by = some approved_by })

-- sp_reject_expense
abbrev pub reject_row : ℕ → Text → Expense → Expense
reject_row rejected_by reason e = bump (record e {
  status = Status.rejected;
  approved_by = some rejected_by;
  rejection_reason = some reason;
})
