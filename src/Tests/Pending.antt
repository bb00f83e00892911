-- ===== src/Tests/Pending.antt =====
-- The manager of the small company sees what waits for him.
use expense_management_syste.Base.{ℕ, ◌≡◌, refl, length, text_eq}
use expense_management_syste.Errors.{Result}
use expense_management_syste.Types.{Role}
use expense_management_syste.Db.{World, pure, ◌>>=◌, lift, attempt, query, pause, run}
use expense_management_syste.Requests.{
  QueryValue, parse_pagination, parse_positive_integer, limit_offset, normalize_positive_integer,
  get_single_query_value, to_lower,
}
use expense_management_syste.Auth.{get_bearer_token}
use expense_management_syste.Listings.{Server, Submitted, list_page, select_count, select_rows}
use expense_management_syste.Pending.{
  UserCache, Approvals, get_pending_approvals, respond_to_manager, respond_from_graph,
  respond_from_database, find_pending_by_manager_id, report_matches, is_report_match,
  respond_from_reports, find_by_entra_ids, select_by_entra_ids, reassign_manager_for_users,
  find_pending_by_submitter_ids, submitter_matches, is_submitter_match,
}
use expense_management_syste.Pending.Rows.{rows_of_answer}
use expense_management_syste.Tests.Data.{graph, request}
use expense_management_syste.Tests.Listings.{server, alone}

abbrev no_cache : UserCache
no_cache = record { invalidate_user = λ k. pure tt }

abbrev by_id : Submitted → ℕ
by_id r = r.expense.id

-- MySQL compares ids up to case.
abbrev mysql : Server
mysql = record server { equal = λ a b. text_eq (to_lower a) (to_lower b) }

abbrev listing : Result Approvals × World
listing =
    get_pending_approvals mysql by_id graph no_cache (request 2 Role.manager) QueryValue.undefined
      QueryValue.undefined alone

lists_lunch : length (rows_of_answer listing) ≡ 1
unfolding get_pending_approvals respond_to_manager respond_from_graph respond_from_reports
    respond_from_database find_pending_by_manager_id report_matches is_report_match
    find_by_entra_ids select_by_entra_ids reassign_manager_for_users find_pending_by_submitter_ids
    submitter_matches is_submitter_match list_page select_count select_rows parse_pagination
    parse_positive_integer limit_offset normalize_positive_integer get_single_query_value
    get_bearer_token query pause run lift attempt pure ◌>>=◌
lists_lunch = refl
