-- ===== src/Tests/Listings.antt =====
-- Listings and exports of the small company.
use mathlib.Core.List.{Perm}
use expense_management_syste.Base.{
  ◌*◌, ◌≤◌, Bool, true, false, not, none, [], codes, ◌≡◌, refl, ◌↔◌, arith, text_eq, text_leb, ◌==◌,
  All, length, sort_by, ltb,
}
use expense_management_syste.Errors.{ok}
use expense_management_syste.Types.{Expense, AuditLog, Role}
use expense_management_syste.Db.{World, pure, ◌>>=◌, lift, query, pause, run}
use expense_management_syste.Requests.{
  QueryValue, desc, Page, get_single_query_value, parse_enum_query, parse_string_query,
  parse_date_query, parse_pagination, parse_positive_integer, resolve_sort, limit_offset,
  normalize_positive_integer, trim, positive_integer,
}
use expense_management_syste.Auth.{demo_scope}
use expense_management_syste.Listings.{
  Server, Listed, ExpenseOptions, ExpenseRow, ListQuery, own_matches, is_own_match, is_ledger_match,
  ledger_matches, find_by_user_id, find_all, select_count, select_rows, list_page, expense_options,
  paged_options, get_all_expenses, ranked, user_expense_sorts, newest_first, query_text,
}
use expense_management_syste.Listings.Like.{
  like, containing, escape_like, Contains, like-containing,
}
use expense_management_syste.Listings.Trail as Trail
use expense_management_syste.Listings.Trail.{
  AuditQuery, is_audit_match, audit_matches, audit_options, get_audit_logs,
}
use expense_management_syste.Listings.Audited.{VisibleEntry, get_audit_logs-visible}
use expense_management_syste.Expenses.{append_audit, approved_entry}
use expense_management_syste.Listings.Pages.{joined}
use expense_management_syste.Listings.Complete.{
  IsOwn, NoTies, rows_of, at_page, find_by_user_id-pages,
}
use expense_management_syste.Listings.Scope.{VisibleRow, get_all_expenses-visible}
use expense_management_syste.Db.Moments.{Waits}
use expense_management_syste.Tests.Data.{company, request}

-- A binary collation.
abbrev pub server : Server
server = record {
  same = λ a b. a == b;
  equal = text_eq;
  before = λ a b. not (text_leb b a);
  midnight = λ date. 0;
}

like-containing_example :
    (like server.same (containing (codes "50%_")) (codes "up to 50%_off") ≡ true)
    ↔ Contains server.same (codes "50%_") (codes "up to 50%_off")
like-containing_example = like-containing server.same (codes "50%_") (codes "up to 50%_off")

-- A percent sign in a search is no wildcard.
percent_is_plain : like server.same (containing (codes "5%0")) (codes "500") ≡ false
unfolding like containing escape_like
percent_is_plain = refl

abbrev everything : ExpenseOptions
everything = record {
  status = none;
  category = none;
  search = none;
  date_from = none;
  date_to = none;
  sort = none;
  order = none;
  page = none;
  page_size = none;
}

abbrev pub alone : World
alone = record { db = company; now = 20; events = [] }

abbrev newest : Expense → Expense → Bool
newest = ranked desc (λ a b. ltb a.created_at b.created_at) (λ e. e.id)

-- How `everything` is sorted, and that it fits on a page of twenty.
sorted_by_creation :
    resolve_sort
      (query_text everything.sort)
      (query_text everything.order)
      user_expense_sorts
      (newest_first "created_at")
    ≡ ok (newest_first "created_at")
unfolding resolve_sort get_single_query_value
sorted_by_creation = refl

fits_a_page : length (own_matches server 1 everything company) ≤ 1 * 20
unfolding own_matches is_own_match
fits_a_page = omega arith

find_by_user_id-pages_example :
    (joined (λ k. rows_of (find_by_user_id server 1 (at_page everything k 20) alone)) 1
      ≡ sort_by newest (own_matches server 1 everything company))
    × Perm
        (joined (λ k. rows_of (find_by_user_id server 1 (at_page everything k 20) alone)) 1)
        (own_matches server 1 everything company)
    × All
        (IsOwn 1)
        (joined (λ k. rows_of (find_by_user_id server 1 (at_page everything k 20) alone)) 1)
    × NoTies newest
find_by_user_id-pages_example =
    find_by_user_id-pages server 1 everything alone 20 1 refl sorted_by_creation refl (omega arith)
      (omega arith) (omega arith) fits_a_page

abbrev no_filter : ListQuery
no_filter = record {
  status = QueryValue.undefined;
  category = QueryValue.undefined;
  search = QueryValue.text (codes " lun ");
  date_from = QueryValue.undefined;
  date_to = QueryValue.undefined;
  sort = QueryValue.undefined;
  order = QueryValue.undefined;
  page = QueryValue.undefined;
  page_size = QueryValue.undefined;
}

admin_lists :
    (found : Listed ExpenseRow × Page) × (get_all_expenses server
        (request 3 Role.admin)
        no_filter
        alone
      ≡ (ok found, alone))
unfolding get_all_expenses find_all list_page select_count select_rows ledger_matches
    is_ledger_match limit_offset normalize_positive_integer resolve_sort get_single_query_value
    paged_options expense_options parse_enum_query parse_string_query parse_date_query
    parse_pagination parse_positive_integer trim demo_scope like containing escape_like lift query
    pause run pure ◌>>=◌
admin_lists = (_, refl)

get_all_expenses-visible_example :
    All (VisibleRow server (request 3 Role.admin).user alone.db) admin_lists.0.0.rows
    × Waits alone alone
get_all_expenses-visible_example =
    get_all_expenses-visible server (request 3 Role.admin) no_filter alone admin_lists.1

abbrev any_entry : AuditQuery
any_entry = record {
  expense_id = QueryValue.text (codes "1");
  performed_by = QueryValue.undefined;
  action = QueryValue.undefined;
  date_from = QueryValue.undefined;
  date_to = QueryValue.undefined;
  sort = QueryValue.undefined;
  order = QueryValue.undefined;
  page = QueryValue.undefined;
  page_size = QueryValue.undefined;
}

-- The company with one entry in its trail.
abbrev audited : World
audited = record alone { db = append_audit (approved_entry 1 2 1 none) 15 company }

admin_audits :
    (found : Listed AuditLog × Page) × (get_audit_logs server
        (request 3 Role.admin)
        any_entry
        audited
      ≡ (ok found, audited))
unfolding get_audit_logs Trail.find_all select_count select_rows audit_matches is_audit_match
    limit_offset normalize_positive_integer resolve_sort get_single_query_value audit_options
    parse_enum_query parse_string_query parse_date_query parse_pagination positive_integer
    parse_positive_integer demo_scope lift query pause run pure ◌>>=◌
admin_audits = (_, refl)

get_audit_logs-visible_example :
    All (VisibleEntry server (request 3 Role.admin).user audited.db) admin_audits.0.0.rows
    × Waits audited audited
get_audit_logs-visible_example =
    get_audit_logs-visible server (request 3 Role.admin) any_entry audited admin_audits.1
