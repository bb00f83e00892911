-- ===== src/Listings/Answers.antt =====
-- The handlers that answer with listings of expenses: `getExpenses` and `exportMyExpenses` of
-- server/src/controllers/expenseController.ts, `getAllExpenses` and `exportAllExpenses` of
-- adminController.ts.
use expense_management_syste.Base.{ℕ, some, List, [], ◌∷◌, Text, codes, map, take}
use expense_management_syste.Types.{Expense}
use expense_management_syste.Db.{M, pure, lift, ◌>>=◌}
use expense_management_syste.Requests.{Page}
use expense_management_syste.Requests.Numbers.{print}
use expense_management_syste.Auth.{Request, demo_scope}
use expense_management_syste.Csv.{to_csv}
use expense_management_syste.Listings.Order.{Server, status_name, category_name}
use expense_management_syste.Listings.Statements.{Listed}
use expense_management_syste.Listings.Model.{
  ExpenseRow, find_by_user_id, find_by_user_id_for_export, find_all, find_all_for_export,
}
use expense_management_syste.Listings.Filters.{ListQuery, expense_options, paged_options}

-- How the driver writes a DECIMAL of cents, and `toISOString()` a timestamp.
pub record Printer : Type 0 where
  pub amount : ℕ → Text
  pub timestamp : ℕ → Text

-- `'\uFEFF' + csv`
abbrev pub with_bom : Text → Text
with_bom csv = 65279 ∷ csv

-- `csvDate` of a text
abbrev pub csv_date : Text → Text
csv_date date = take 10 date

abbrev pub my_expense_cells : Printer → Expense → List Text
my_expense_cells printer e =
    print e.id
    ∷ e.title
    ∷ category_name e.category
    ∷ printer.amount e.amount
    ∷ e.currency
    ∷ csv_date e.expense_date
    ∷ status_name e.status
    ∷ printer.timestamp e.created_at
    ∷ []

abbrev pub expense_cells : Printer → ExpenseRow → List Text
expense_cells printer r =
    print r.expense.id
    ∷ r.expense.title
    ∷ r.submitter_name
    ∷ r.submitter_email
    ∷ category_name r.expense.category
    ∷ printer.amount r.expense.amount
    ∷ r.expense.currency
    ∷ csv_date r.expense.expense_date
    ∷ status_name r.expense.status
    ∷ printer.timestamp r.expense.created_at
    ∷ []

abbrev pub my_expense_headers : List Text
my_expense_headers =
    codes "ID"
    ∷ codes "Title"
    ∷ codes "Category"
    ∷ codes "Amount"
    ∷ codes "Currency"
    ∷ codes "Date"
    ∷ codes "Status"
    ∷ codes "Filed"
    ∷ []

abbrev pub expense_headers : List Text
expense_headers =
    codes "ID"
    ∷ codes "Title"
    ∷ codes "Submitter"
    ∷ codes "Submitter Email"
    ∷ codes "Category"
    ∷ codes "Amount"
    ∷ codes "Currency"
    ∷ codes "Date"
    ∷ codes "Status"
    ∷ codes "Filed"
    ∷ []

module _ (server : Server) (req : Request) (q : ListQuery) where
  -- `getExpenses`
  unfoldable pub get_expenses : M (Listed Expense × Page)
  unfolding paged_options find_by_user_id
  get_expenses = do
    (options, p) ← lift (paged_options q)
    found ← find_by_user_id server req.user.id options
    pure (found, p)

  -- `exportMyExpenses`
  unfoldable pub export_my_expenses : Printer → M Text
  unfolding expense_options find_by_user_id_for_export
  export_my_expenses printer = do
    options ← lift (expense_options q)
    found ← find_by_user_id_for_export server req.user.id options
    pure (with_bom (to_csv my_expense_headers (map (my_expense_cells printer) found.rows)))

  -- `getAllExpenses`
  unfoldable pub get_all_expenses : M (Listed ExpenseRow × Page)
  unfolding paged_options find_all
  get_all_expenses = do
    (options, p) ← lift (paged_options q)
    session ← lift (demo_scope (some req.user))
    found ← find_all server session options
    pure (found, p)

  -- `exportAllExpenses`
  unfoldable pub export_all_expenses : Printer → M Text
  unfolding expense_options find_all_for_export
  export_all_expenses printer = do
    options ← lift (expense_options q)
    session ← lift (demo_scope (some req.user))
    found ← find_all_for_export server session options
    pure (with_bom (to_csv expense_headers (map (expense_cells printer) found.rows)))
