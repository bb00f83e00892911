-- ===== src/Handlers/Committed.antt =====
-- What server/src/controllers/ does after a change is committed: notifications, and the row for
-- the answer.
use expense_management_syste.Base.{ℕ, Bool, none, ◌==◌}
use expense_management_syste.Types.{Expense}
use expense_management_syste.Db.Total.{
  Total, Total-pure, Total-current_time, Total->>=, Total-attempt, Total-if,
}
use expense_management_syste.Notifications.{
  NewNotification, safe_create, Actor, Decision, expense_decision, expense_for_approval,
}
use expense_management_syste.Comments.{expense_comment}
use expense_management_syste.Auth.{Request}
use expense_management_syste.Handlers.Approval.{reread, after_approval, after_rejection}
use expense_management_syste.Base.{Text}

safe_create-Total : (input : NewNotification) → Total (safe_create input)
unfolding safe_create
safe_create-Total input = Total-attempt _ (λ _. Total-pure tt)

expense_decision-Total :
    (expense : Expense) (actor : Actor) (decision : Decision)
    → Total (expense_decision expense actor decision)
unfolding expense_decision
expense_decision-Total expense actor decision =
    Total-if (expense.submitted_by == actor.id) (Total-pure tt) (safe_create-Total _)

reread-Total : (k : ℕ) → Total (reread k)
unfolding reread
reread-Total k = Total-attempt _ (λ _. Total-pure none)

pub after_approval-Total : (req : Request) (k : ℕ) (e : Expense) → Total (after_approval req k e)
unfolding after_approval
after_approval-Total req k e =
    Total->>= (expense_decision-Total e _ Decision.approved)
      λ _. Total->>= (reread-Total k) (λ o. Total->>= Total-current_time (λ now. Total-pure _))

after_rejection-Total :
    (req : Request) (k : ℕ) (e : Expense) (reason : Text) → Total (after_rejection req k e reason)
unfolding after_rejection
after_rejection-Total req k e reason =
    Total->>= (expense_decision-Total e _ Decision.rejected)
      λ _. Total->>= (reread-Total k) (λ o. Total->>= Total-current_time (λ now. Total-pure _))

notifications-Total :
    (k : ℕ) (actor : Actor) (e : Expense) (resubmit : Bool)
    → Total (expense_for_approval k actor e resubmit) × Total (expense_comment e actor)
unfolding expense_for_approval expense_comment
notifications-Total k actor e resubmit =
    (Total-attempt _ (λ _. Total-pure tt), Total-attempt _ (λ _. Total-pure tt))

-- In every world, whatever fails: what follows a committed approval ends with an answer, and so does what
-- follows a committed rejection; the notifications of a submission or a resubmission and those of a
-- comment end well.
pub committed-Total :
    (req : Request) (k : ℕ) (e : Expense) (reason : Text) (actor : Actor) (resubmit : Bool)
    → Total (after_approval req k e)
      × Total (after_rejection req k e reason)
      × Total (expense_for_approval k actor e resubmit)
      × Total (expense_comment e actor)
committed-Total req k e reason actor resubmit = (
  after_approval-Total req k e,
  after_rejection-Total req k e reason,
  (notifications-Total k actor e resubmit).0,
  (notifications-Total k actor e resubmit).1,
)
