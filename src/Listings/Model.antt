-- ===== src/Listings/Model.antt =====
-- The listings of server/src/models/expense.ts.
use expense_management_syste.Base.{
  ℕ, Bool, not, ◌||◌, ◌&&◌, Option, none, some, List, [], ◌∷◌, String, Text, codes, text_leb, ltb,
  ◌==◌, filter, map,
}
use expense_management_syste.Types.{User, Expense, Status, status_eq}
use expense_management_syste.Db.{Db, M, pure, ◌>>=◌, lift, is_live, find_user}
use expense_management_syste.Requests.{desc, sql, ResolvedSort, resolve_sort}
use expense_management_syste.Listings.Like.{like, containing}
use expense_management_syste.Listings.Order.{
  Server, if_given, if_defined, query_text, ranked, column_order, status_place, category_place,
  category_name,
}
use expense_management_syste.Listings.Statements.{Listed, Exported, list_page, export_rows}

-- The options of the listings of expenses; those of an export have no page.
pub record ExpenseOptions : Type 0 where
  pub status : Option Status
  pub category : Option Text
  pub search : Option Text
  pub date_from : Option Text
  pub date_to : Option Text
  pub sort : Option Text
  pub order : Option Text
  pub page : Option ℕ
  pub page_size : Option ℕ

-- `{ columnSql: 'created_at', direction: 'DESC' }`, with the prefix of the joined query or without
abbrev pub newest_first : String → ResolvedSort
newest_first column = record { column_sql = sql column; direction = desc }

-- `USER_EXPENSE_SORTS`
abbrev pub user_expense_sorts : List (Text × String)
user_expense_sorts =
    (codes "title", "title")
    ∷ (codes "category", "category")
    ∷ (codes "amount", "amount")
    ∷ (codes "date", "expense_date")
    ∷ (codes "status", "status")
    ∷ (codes "created", "created_at")
    ∷ []

-- `ADMIN_EXPENSE_SORTS`
abbrev pub admin_expense_sorts : List (Text × String)
admin_expense_sorts =
    (codes "title", "e.title")
    ∷ (codes "submitter", "u.display_name")
    ∷ (codes "category", "e.category")
    ∷ (codes "amount", "e.amount")
    ∷ (codes "date", "e.expense_date")
    ∷ (codes "status", "e.status")
    ∷ (codes "created", "e.created_at")
    ∷ []

-- A row of `expenses e JOIN users u ON e.submitted_by = u.id`
pub record Submitted : Type 0 where
  pub expense : Expense
  pub submitter : User

-- The columns that the joined listings select.
pub record ExpenseRow : Type 0 where
  pub expense : Expense
  pub submitter_name : Text
  pub submitter_email : Text

abbrev pub selected : Submitted → ExpenseRow
selected r = record {
  expense = r.expense;
  submitter_name = r.submitter.display_name;
  submitter_email = r.submitter.email;
}

abbrev pub join_submitters : List User → List Expense → List Submitted
join_submitters users [] = []
join_submitters users (e ∷ es) =
    let rest = join_submitters users es in
    elim (find_user e.submitted_by users) [
      | none ↦ rest
      | some u ↦ (record { expense = e; submitter = u }) ∷ rest
    ]

module _ (server : Server) where
  abbrev dates_between : Option Text → Option Text → Text → Bool
  dates_between date_from date_to date =
      if_given date_from (λ from. text_leb from date) && if_given date_to (λ to. text_leb date to)

  abbrev text_contains : Text → Text → Bool
  text_contains search text = like server.same (containing search) text

  -- The WHERE clause of `findByUserId`
  unfoldable pub is_own_match : ℕ → ExpenseOptions → Expense → Bool
  is_own_match user_id options e =
      (e.submitted_by == user_id)
      && is_live e
      && if_defined options.status (status_eq e.status)
      && if_given options.category (server.equal (category_name e.category))
      && if_given options.search (λ search. text_contains search e.title)
      && dates_between options.date_from options.date_to e.expense_date

  unfoldable pub own_matches : ℕ → ExpenseOptions → Db → List Expense
  own_matches user_id options d = filter (is_own_match user_id options) d.expenses

  -- `u.is_demo = TRUE AND u.demo_session_id = ?` of a demo session, else `u.is_demo = FALSE`
  abbrev pub in_scope : Option Text → User → Bool
  in_scope none u = not u.is_demo
  in_scope (some []) u = not u.is_demo
  in_scope (some (c ∷ s)) u =
      u.is_demo
      && elim u.demo_session_id [ none ↦ Bool.false | some session ↦ server.equal session (c ∷ s) ]

  -- The WHERE clause of `findAll`
  unfoldable pub is_ledger_match : Option Text → ExpenseOptions → Submitted → Bool
  is_ledger_match demo_session_id options r =
      is_live r.expense
      && in_scope demo_session_id r.submitter
      && if_defined options.status (status_eq r.expense.status)
      && if_given options.category (server.equal (category_name r.expense.category))
      && if_given options.search (λ search.
        text_contains search r.expense.title || text_contains search r.submitter.display_name)
      && dates_between options.date_from options.date_to r.expense.expense_date

  unfoldable pub ledger_matches : Option Text → ExpenseOptions → Db → List Submitted
  ledger_matches demo_session_id options d =
      filter (is_ledger_match demo_session_id options) (join_submitters d.users d.expenses)

  -- The orders of the columns of `expenses`
  abbrev pub expense_orders : List (String × (Expense → Expense → Bool))
  expense_orders =
      ("title", λ a b. server.before a.title b.title)
      ∷ ("category", λ a b. ltb (category_place a.category) (category_place b.category))
      ∷ ("amount", λ a b. ltb a.amount b.amount)
      ∷ ("expense_date", λ a b. not (text_leb b.expense_date a.expense_date))
      ∷ ("status", λ a b. ltb (status_place a.status) (status_place b.status))
      ∷ ("created_at", λ a b. ltb a.created_at b.created_at)
      ∷ []

  -- The orders of the columns of the joined rows
  abbrev pub ledger_orders : List (String × (Submitted → Submitted → Bool))
  ledger_orders =
      ("e.title", λ a b. server.before a.expense.title b.expense.title)
      ∷ ("u.display_name", λ a b. server.before a.submitter.display_name b.submitter.display_name)
      ∷ (
        "e.category",
        λ a b. ltb (category_place a.expense.category) (category_place b.expense.category),
      )
      ∷ ("e.amount", λ a b. ltb a.expense.amount b.expense.amount)
      ∷ ("e.expense_date", λ a b. not (text_leb b.expense.expense_date a.expense.expense_date))
      ∷ ("e.status", λ a b. ltb (status_place a.expense.status) (status_place b.expense.status))
      ∷ ("e.created_at", λ a b. ltb a.expense.created_at b.expense.created_at)
      ∷ []

  -- `ORDER BY ${columnSql} ${direction}, id DESC`
  abbrev pub own_order : ResolvedSort → Option (Expense → Expense → Bool)
  own_order sort = elim (column_order sort.column_sql expense_orders) [
    | none ↦ none
    | some less ↦ some (ranked sort.direction less (λ e. e.id))
  ]

  abbrev pub ledger_order : ResolvedSort → Option (Submitted → Submitted → Bool)
  ledger_order sort = elim (column_order sort.column_sql ledger_orders) [
    | none ↦ none
    | some less ↦ some (ranked sort.direction less (λ r. r.expense.id))
  ]

  abbrev pub own_sort : ExpenseOptions → M ResolvedSort
  own_sort options = lift (
      resolve_sort (query_text options.sort) (query_text options.order) user_expense_sorts
        (newest_first "created_at"))

  abbrev pub ledger_sort : ExpenseOptions → M ResolvedSort
  ledger_sort options = lift (
      resolve_sort (query_text options.sort) (query_text options.order) admin_expense_sorts
        (newest_first "e.created_at"))

  -- `findByUserId`
  unfoldable pub find_by_user_id : ℕ → ExpenseOptions → M (Listed Expense)
  unfolding own_matches list_page
  find_by_user_id user_id options = do
    sort ← own_sort options
    list_page (own_matches user_id options) (own_order sort) options.page options.page_size

  -- `findByUserIdForExport`
  unfoldable pub find_by_user_id_for_export : ℕ → ExpenseOptions → M (Exported Expense)
  unfolding own_matches export_rows
  find_by_user_id_for_export user_id options = do
    sort ← own_sort options
    export_rows (own_matches user_id options) (own_order sort)

  -- `findAll`
  unfoldable pub find_all : Option Text → ExpenseOptions → M (Listed ExpenseRow)
  unfolding ledger_matches list_page
  find_all demo_session_id options = do
    sort ← ledger_sort options
    found ←
        list_page (ledger_matches demo_session_id options) (ledger_order sort) options.page
          options.page_size
    pure (record { rows = map selected found.rows; total = found.total })

  -- `findAllForExport`
  unfoldable pub find_all_for_export : Option Text → ExpenseOptions → M (Exported ExpenseRow)
  unfolding ledger_matches export_rows
  find_all_for_export demo_session_id options = do
    sort ← ledger_sort options
    found ← export_rows (ledger_matches demo_session_id options) (ledger_order sort)
    pure (record { rows = map selected found.rows; capped = found.capped })
