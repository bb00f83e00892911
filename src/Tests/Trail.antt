-- ===== src/Tests/Trail.antt =====
-- A run of `resubmitExpense` of server/src/controllers/expenseController.ts whose last statement
-- fails.
use expense_management_syste.Base.{some, [], ◌∷◌, codes, ◌≡◌, refl}
use expense_management_syste.Errors.{Error, err}
use expense_management_syste.Types.{Role, Status}
use expense_management_syste.Db.{
  World, ◌>>=◌, lift, or_raise, pure, raise, attempt, guard, query, execute, pause, pause_locked,
  run, rollback, finish, try_block, transaction,
}
use expense_management_syste.Requests.{QueryValue, parse_positive_id}
use expense_management_syste.Expenses
use expense_management_syste.Expenses.{
  new_row, select_live, update_where, update_rejected, assign_all, resubmit_write, resubmit_locked,
  insert_audit,
}
use expense_management_syste.Handlers.{
  resubmit_expense, load_expense, check_resubmitted, create_audit,
}
use expense_management_syste.Tests.Data.{company, quiet, broken, request, lunch}

abbrev rejected_world : World
rejected_world = record {
  db = record company {
    expenses =
        record (new_row lunch 1 10) {
          status = Status.rejected;
          rejection_reason = some (codes "No");
        }
        ∷ [];
  };
  now = 30;
  events = quiet ∷ quiet ∷ quiet ∷ quiet ∷ quiet ∷ quiet ∷ quiet ∷ broken ∷ [];
}

-- The caller is told of a failure, the expense is pending again, and the audit trail is as it was.
resubmission_unaudited :
    resubmit_expense (request 1 Role.employee) (QueryValue.text (codes "1")) [] rejected_world ≡ (
      err Error.failure,
      record rejected_world {
        db = record company {
          expenses = record (new_row lunch 1 10) { version = 2; updated_at = 30 } ∷ [];
        };
        events = [];
      },
    )
unfolding ◌>>=◌ lift or_raise pure raise attempt guard query execute pause pause_locked run rollback
    finish try_block transaction parse_positive_id Expenses.find_by_id Expenses.resubmit select_live
    update_where update_rejected assign_all resubmit_write resubmit_locked insert_audit
    resubmit_expense load_expense check_resubmitted create_audit
resubmission_unaudited = refl
