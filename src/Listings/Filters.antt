-- ===== src/Listings/Filters.antt =====
-- The filters of a listing of expenses, read from the query by the handlers of
-- server/src/controllers/expenseController.ts and adminController.ts.
use expense_management_syste.Base.{
  Option, none, some, List, [], ◌∷◌, Text, text_eq, map, if◌then◌else◌,
}
use expense_management_syste.Errors.{Result, ok, ◌>>=◌}
use expense_management_syste.Types.{Status, Category}
use expense_management_syste.Requests.{
  QueryValue, parse_enum_query, parse_string_query, parse_date_query, parse_pagination, Page,
}
use expense_management_syste.Listings.Order.{status_name, category_name}
use expense_management_syste.Listings.Model.{ExpenseOptions}

-- The members of `req.query` that the handlers read.
pub record ListQuery : Type 0 where
  pub status : QueryValue
  pub category : QueryValue
  pub search : QueryValue
  pub date_from : QueryValue
  pub date_to : QueryValue
  pub sort : QueryValue
  pub order : QueryValue
  pub page : QueryValue
  pub page_size : QueryValue

abbrev statuses : List Status
statuses = Status.pending ∷ Status.approved ∷ Status.rejected ∷ []

abbrev categories : List Category
categories =
    Category.travel ∷ Category.meals ∷ Category.supplies ∷ Category.equipment ∷ Category.software
    ∷ Category.training ∷ Category.other ∷ []

abbrev pub named_in : {A : Type 0} → (A → Text) → List A → Option Text → Option A
named_in name [] wanted = none
named_in name (a ∷ rest) none = none
named_in name (a ∷ rest) (some s) =
    if text_eq (name a) s then some a else named_in name rest (some s)

-- The options without a page, from the query.
unfoldable pub expense_options : ListQuery → Result ExpenseOptions
expense_options q = do
  status ← parse_enum_query q.status "status" (map status_name statuses)
  category ← parse_enum_query q.category "category" (map category_name categories)
  search ← parse_string_query q.search "search" 100
  date_from ← parse_date_query q.date_from "date_from"
  date_to ← parse_date_query q.date_to "date_to"
  sort ← parse_string_query q.sort "sort" 32
  order ← parse_string_query q.order "order" 4
  ok (record {
    status = named_in status_name statuses status;
    category = category;
    search = search;
    date_from = date_from;
    date_to = date_to;
    sort = sort;
    order = order;
    page = none;
    page_size = none;
  })

unfoldable pub paged_options : ListQuery → Result (ExpenseOptions × Page)
unfolding expense_options
paged_options q = do
  options ← expense_options q
  p ← parse_pagination q.page q.page_size
  ok (record options { page = some p.page; page_size = some p.page_size }, p)
