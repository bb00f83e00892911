-- ===== src/Notifications.antt =====
-- server/src/services/notificationService.ts and the `create` of server/src/models/notification.ts.
-- Notifications are best effort: a failure is caught, and the core action goes on.
use expense_management_syste.Base.{
  ℕ, ◌+◌, Bool, true, false, ◌||◌, Option, none, some, [], ◌∷◌, ◌++◌, arith, Text, codes, length,
  take, ltb, ◌==◌, if◌then◌else◌, find?,
}
use expense_management_syste.Types.{User, Expense, Notification, NotificationType}
use expense_management_syste.Db.{
  M, pure, ◌>>=◌, attempt, Statement, StatementKeeps, query, Keeps, keeps, Evolves-of_same,
}
use expense_management_syste.Users

-- Who acts: the fields of `req.user` that a notification names.
pub record Actor : Type 0 where
  pub id : ℕ
  pub display_name : Text

-- The argument of `create`, whose expense and actor are always there.
pub record NewNotification : Type 0 where
  pub user_id : ℕ
  pub kind : NotificationType
  pub expense_id : ℕ
  pub actor_id : ℕ
  pub message : Text

unfoldable pub insert_notification : NewNotification → Statement ℕ
insert_notification input now d =
    let new : Notification = record {
      id = d.next_notification;
      user_id = input.user_id;
      kind = input.kind;
      expense_id = some input.expense_id;
      actor_id = some input.actor_id;
      message = input.message;
      is_read = false;
      created_at = now;
    } in
    some (
      d.next_notification,
      record d {
        notifications = d.notifications ++ new ∷ [];
        next_notification = d.next_notification + 1;
      },
    )

unfoldable pub select_notification : ℕ → Statement (Option Notification)
select_notification k now d = some (find? (λ n. n.id == k) d.notifications, d)

-- `notificationModel.create`
unfoldable pub create : NewNotification → M (Option Notification)
create input = do k ← query (insert_notification input); query (select_notification k)

-- `shortTitle`; 8230 is the ellipsis.
unfoldable pub short_title : Text → Text
short_title title = if ltb 120 (length title) then take 117 title ++ 8230 ∷ [] else title

-- MUTE_FIELD
abbrev pub preference : NotificationType → User → Option Bool
preference NotificationType.expense_submitted u = u.notify_on_submission
preference NotificationType.expense_resubmitted u = u.notify_on_submission
preference NotificationType.expense_approved u = u.notify_on_decision
preference NotificationType.expense_rejected u = u.notify_on_decision
preference NotificationType.expense_comment u = u.notify_on_comment

abbrev pub wants : Option User → NotificationType → Bool
wants none kind = false
wants (some u) kind = elim (preference kind u) [ none ↦ true | some b ↦ b ]

-- `recipientWantsNotification`
unfoldable pub recipient_wants_notification : ℕ → NotificationType → M Bool
recipient_wants_notification user_id kind =
    attempt (do user ← Users.find_by_id user_id; pure (wants user kind)) (λ _. pure true)

-- `safeCreate`
unfoldable pub safe_create : NewNotification → M (Unit {0})
unfolding recipient_wants_notification create
safe_create input =
    attempt
      (do
        wanted ← recipient_wants_notification input.user_id input.kind
        if wanted then (create input >>= λ _. pure tt) else pure tt)
      (λ _. pure tt)

pub data Decision : Type 0 where
  approved rejected : Decision

abbrev pub verb : Decision → Text
verb Decision.approved = codes "approved"
verb Decision.rejected = codes "rejected"

abbrev pub decision_kind : Decision → NotificationType
decision_kind Decision.approved = NotificationType.expense_approved
decision_kind Decision.rejected = NotificationType.expense_rejected

-- `expenseDecision`
unfoldable pub expense_decision : Expense → Actor → Decision → M (Unit {0})
unfolding safe_create short_title
expense_decision expense actor decision =
    if expense.submitted_by == actor.id
    then pure tt
    else safe_create (record {
      user_id = expense.submitted_by;
      kind = decision_kind decision;
      expense_id = expense.id;
      actor_id = actor.id;
      message =
          actor.display_name
          ++ (codes " "
              ++ (verb decision
                  ++ (codes " your expense \"" ++ (short_title expense.title ++ codes "\""))));
    })

abbrev pub approval_kind : Bool → NotificationType
approval_kind true = NotificationType.expense_resubmitted
approval_kind false = NotificationType.expense_submitted

-- `submitter?.manager_id`; `!managerId` holds of null and of 0
abbrev pub manager_of : Option User → Option ℕ
manager_of none = none
manager_of (some u) = u.manager_id

unfoldable pub notify_manager : Option ℕ → Actor → Expense → Bool → M (Unit {0})
unfolding safe_create short_title
notify_manager none actor expense resubmit = pure tt
notify_manager (some manager_id) actor expense resubmit =
    if (manager_id == 0) || (manager_id == actor.id)
    then pure tt
    else safe_create (record {
      user_id = manager_id;
      kind = approval_kind resubmit;
      expense_id = expense.id;
      actor_id = actor.id;
      message =
          actor.display_name
          ++ (codes (if resubmit then " resubmitted \"" else " submitted \"")
              ++ (short_title expense.title ++ codes "\" for your approval"));
    })

-- `expenseForApproval`
unfoldable pub expense_for_approval : ℕ → Actor → Expense → Bool → M (Unit {0})
unfolding notify_manager
expense_for_approval submitter_id actor expense resubmit =
    attempt
      (do
        submitter ← Users.find_by_id submitter_id
        notify_manager (manager_of submitter) actor expense resubmit)
      (λ _. pure tt)

insert_notification-StatementKeeps :
    (input : NewNotification) → StatementKeeps (insert_notification input)
unfolding insert_notification
insert_notification-StatementKeeps input = record {
  apply = λ now d r d' h. Evolves-of_same d d' (ground arith) (ground arith);
}

select_notification-StatementKeeps : (k : ℕ) → StatementKeeps (select_notification k)
unfolding select_notification
select_notification-StatementKeeps k = record {
  apply = λ now d r d' h. Evolves-of_same d d' (ground arith) (ground arith);
}

create-Keeps : (input : NewNotification) → Keeps (create input)
unfolding create
create-Keeps input =
    search (keeps, insert_notification-StatementKeeps, select_notification-StatementKeeps)

recipient_wants_notification-Keeps :
    (user_id : ℕ) (kind : NotificationType) → Keeps (recipient_wants_notification user_id kind)
unfolding recipient_wants_notification
recipient_wants_notification-Keeps user_id kind = search (keeps, Users.find_by_id-Keeps)

pub safe_create-Keeps : (input : NewNotification) → Keeps (safe_create input)
unfolding safe_create
safe_create-Keeps input = search (keeps, recipient_wants_notification-Keeps, create-Keeps) depth 8

pub expense_decision-Keeps :
    (expense : Expense) (actor : Actor) (decision : Decision)
    → Keeps (expense_decision expense actor decision)
unfolding expense_decision
expense_decision-Keeps expense actor decision = search (keeps, safe_create-Keeps)

notify_manager-Keeps :
    (m : Option ℕ) (actor : Actor) (expense : Expense) (resubmit : Bool)
    → Keeps (notify_manager m actor expense resubmit)
unfolding notify_manager
notify_manager-Keeps none actor expense resubmit = search keeps
notify_manager-Keeps (some m) actor expense resubmit = search (keeps, safe_create-Keeps)

pub expense_for_approval-Keeps :
    (submitter_id : ℕ) (actor : Actor) (expense : Expense) (resubmit : Bool)
    → Keeps (expense_for_approval submitter_id actor expense resubmit)
unfolding expense_for_approval
expense_for_approval-Keeps submitter_id actor expense resubmit =
    search (keeps, Users.find_by_id-Keeps, notify_manager-Keeps)
