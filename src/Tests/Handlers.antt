-- ===== src/Tests/Handlers.antt =====
-- Requests against the small company.
use expense_management_syste.Base.{List, [], ◌∷◌, codes, ◌≡◌, refl}
use expense_management_syste.Errors.{ok}
use expense_management_syste.Types.{Role, Expense, Receipt, Status}
use expense_management_syste.Db.{
  World, Evolves, Evolves-refl, ◌>>=◌, lift, or_raise, pure, raise, attempt, guard, query, pause,
  run,
}
use expense_management_syste.Requests.{QueryValue, parse_positive_id, trim}
use expense_management_syste.Users
use expense_management_syste.Notifications
use expense_management_syste.Notifications.{
  recipient_wants_notification, safe_create, insert_notification, select_notification, short_title,
}
use expense_management_syste.Expenses
use expense_management_syste.Expenses.{new_row, select_live}
use expense_management_syste.Auth.{
  verify_manager_relationship, get_bearer_token, is_manager_of, require_allowed, real_relationship,
  ensure_can_access_expense,
}
use expense_management_syste.Handlers.{
  get_expense_by_id, load_expense, find_receipts, select_receipts,
}
use expense_management_syste.Handlers.Service.{Call, serve, serve-Evolves}
use expense_management_syste.Comments.{
  CommentRow, add_comment, readable_expense, create_comment, insert_comment, select_comment,
  expense_comment, notify_all,
}
use expense_management_syste.Handlers.Reading.{
  Shown, MayComment, get_expense_by_id-access, add_comment-access,
}
use expense_management_syste.Tests.Data.{company, calm, quiet, graph, request, lunch}

abbrev one : QueryValue
one = QueryValue.text (codes "1")

serve-Evolves_example :
    Evolves company
      (serve graph
        ((request 2 Role.manager, Call.approve one)
          ∷ (request 1 Role.employee, Call.remove one)
          ∷ [])
        calm).1.db
serve-Evolves_example =
    serve-Evolves graph
      ((request 2 Role.manager, Call.approve one) ∷ (request 1 Role.employee, Call.remove one) ∷ [])
      calm (Evolves-refl, (Evolves-refl, tt))

-- What the manager's approval leaves.
abbrev approved_world : World
approved_world = record {
  db = record company { expenses = record (new_row lunch 1 10) { status = Status.approved } ∷ [] };
  now = 30;
  events = quiet ∷ [];
}

-- The admin reads the expense, and the manager comments on it.
admin_reads :
    (answer : Expense × List Receipt) × (get_expense_by_id graph (request 3 Role.admin) one calm
      ≡ (ok answer, (get_expense_by_id graph (request 3 Role.admin) one calm).1))
unfolding ◌>>=◌ lift or_raise pure query pause run parse_positive_id Expenses.find_by_id select_live
    verify_manager_relationship require_allowed ensure_can_access_expense get_expense_by_id
    load_expense find_receipts select_receipts
admin_reads = (_, refl)

get_expense_by_id-access_example :
    Shown graph
      (request 3 Role.admin)
      one
      admin_reads.0
      calm
      (get_expense_by_id graph (request 3 Role.admin) one calm).1
get_expense_by_id-access_example =
    get_expense_by_id-access graph (request 3 Role.admin) one calm admin_reads.0
      (get_expense_by_id graph (request 3 Role.admin) one calm).1 admin_reads.1

manager_comments :
    (answer : CommentRow) × (add_comment graph (request 2 Role.manager) one (codes " Why? ") calm
      ≡ (ok answer, (add_comment graph (request 2 Role.manager) one (codes " Why? ") calm).1))
unfolding ◌>>=◌ lift or_raise pure raise attempt guard query pause run parse_positive_id trim
    Expenses.find_by_id select_live Users.find_by_id Users.select_user verify_manager_relationship
    require_allowed real_relationship get_bearer_token is_manager_of ensure_can_access_expense
    add_comment readable_expense create_comment insert_comment select_comment expense_comment
    notify_all recipient_wants_notification safe_create Notifications.create insert_notification
    select_notification short_title
manager_comments = (_, refl)

add_comment-access_example : MayComment graph (request 2 Role.manager) one calm
add_comment-access_example =
    add_comment-access graph (request 2 Role.manager) one (codes " Why? ") calm manager_comments.0
      (add_comment graph (request 2 Role.manager) one (codes " Why? ") calm).1 manager_comments.1
