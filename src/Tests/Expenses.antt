-- ===== src/Tests/Expenses.antt =====
-- Writers and submissions at the small company.
use expense_management_syste.Base.{ℕ, true, false, none, some, [], ◌∷◌, ◌≡◌, refl, filter, length}
use expense_management_syste.Db.{Db, Evolves-refl, pause}
use expense_management_syste.Expenses.{
  create_submission, Entry, update_pending, update_where, assign_all, assign,
}
use expense_management_syste.Expenses.{delete}
use expense_management_syste.Expenses.Deletion.{DeletionHolds, delete-DeletionHolds}
use expense_management_syste.Expenses.Winner.{Write, attempt_write, attempt_write-one_winner}
use expense_management_syste.Expenses.Submission.{AllOrNothing, create_submission-AllOrNothing}
use expense_management_syste.Types.{Notification, NotificationType}
use expense_management_syste.Inbox.{is_listed, update_all_read}
use expense_management_syste.Inbox.Owned.{of_others, update_all_read-owned}
use expense_management_syste.Tests.Data.{company, stormy, lunch, scan}

-- Two edits and an approval that read version 1.
first_edit :
    (d : Db) × (attempt_write 1 1 (Write.edit (Entry.amount 900 ∷ [])) 30 company ≡ some (true, d))
unfolding attempt_write update_pending update_where assign_all assign
first_edit = (_, refl)

attempt_write-one_winner_example :
    attempt_write 1 1 (Write.approve 2 none) 40 first_edit.0 ≡ some (false, first_edit.0)
attempt_write-one_winner_example =
    attempt_write-one_winner 1 1 (Write.edit (Entry.amount 900 ∷ [])) (Write.approve 2 none) 30 40
      company first_edit.0 first_edit.0 first_edit.1 (Evolves-refl first_edit.0)

create_submission-AllOrNothing_example :
    let (result, after) = create_submission lunch (some scan) none stormy in
    AllOrNothing lunch (some scan) none (pause stormy).1.db result after.db
create_submission-AllOrNothing_example =
    create_submission-AllOrNothing lunch (some scan) none stormy

-- One unread notification of user 1, one of user 2.
abbrev note : ℕ → Notification
note k = record {
  id = k;
  user_id = k;
  kind = NotificationType.expense_approved;
  expense_id = some 1;
  actor_id = some 2;
  message = [];
  is_read = false;
  created_at = 5;
}

abbrev noted : Db
noted = record company { notifications = note 1 ∷ note 2 ∷ [] }

abbrev read_one : Db
read_one = record company { notifications = record (note 1) { is_read = true } ∷ note 2 ∷ [] }

update_all_read-owned_example :
    (filter (is_listed 1 true) read_one.notifications ≡ [])
    × (1 ≡ length (filter (is_listed 1 true) noted.notifications))
    × (of_others 1 read_one.notifications ≡ of_others 1 noted.notifications)
unfolding update_all_read
update_all_read-owned_example = update_all_read-owned 1 50 noted {n = 1} {d' = read_one} refl

delete-DeletionHolds_example :
    let (result, after) = delete 1 1 1 none stormy in
    DeletionHolds 1 1 1 none (pause stormy).1.db result after.db
delete-DeletionHolds_example = delete-DeletionHolds 1 1 1 none stormy
