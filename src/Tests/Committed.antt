-- ===== src/Tests/Committed.antt =====
-- What follows a committed change, and an approval that nothing disturbs.
use expense_management_syste.Base.{true, [], codes, ◌≡◌, refl, arith}
use expense_management_syste.Errors.{ok}
use expense_management_syste.Types.{Role, Expense}
use expense_management_syste.Db.{World, pure}
use expense_management_syste.Db.Total.{Total}
use expense_management_syste.Requests.{QueryValue, parse_positive_id}
use expense_management_syste.Notifications.{expense_for_approval}
use expense_management_syste.Comments.{expense_comment}
use expense_management_syste.Expenses.{new_row}
use expense_management_syste.Auth.{actor_of, verify_manager_relationship}
use expense_management_syste.Handlers.{approve_expense, after_approval, after_rejection}
use expense_management_syste.Handlers.Committed.{committed-Total}
use expense_management_syste.Handlers.Succeeds.{approve_expense_succeeds}
use expense_management_syste.Tests.Data.{company, graph, request, lunch}

committed-Total_example :
    Total (after_approval (request 2 Role.manager) 1 (new_row lunch 1 10))
    × Total (after_rejection (request 2 Role.manager) 1 (new_row lunch 1 10) (codes "No"))
    × Total (expense_for_approval 1 (actor_of (request 2 Role.manager)) (new_row lunch 1 10) true)
    × Total (expense_comment (new_row lunch 1 10) (actor_of (request 2 Role.manager)))
committed-Total_example =
    committed-Total (request 2 Role.manager) 1 (new_row lunch 1 10) (codes "No")
      (actor_of (request 2 Role.manager)) true

abbrev still : World
still = record { db = company; now = 20; events = [] }

approve_expense_succeeds_example :
    (answer : Expense) × (w' : World) × (approve_expense graph
        (request 3 Role.admin)
        (QueryValue.text (codes "1"))
        still
      ≡ (ok answer, w'))
unfolding parse_positive_id verify_manager_relationship pure
approve_expense_succeeds_example =
    approve_expense_succeeds graph (request 3 Role.admin) (QueryValue.text (codes "1")) still 1
      (new_row lunch 1 10) refl refl refl refl (omega arith) (λ h. omega (arith, h)) refl
