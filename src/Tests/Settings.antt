-- ===== src/Tests/Settings.antt =====
-- A user who wants no notification of comments.
use expense_management_syste.Base.{false, none, some, codes, ◌≡◌, refl, arith}
use expense_management_syste.Errors.{ok}
use expense_management_syste.Types.{NotificationType, User}
use expense_management_syste.Db.{World, find_user}
use expense_management_syste.Notifications.{recipient_wants_notification}
use expense_management_syste.Settings.{PreferencesPatch, preferences_of, update_my_preferences}
use expense_management_syste.Settings.Obeyed.{preferences_after, update_my_preferences-obeyed}
use expense_management_syste.Tests.Data.{company, ann}
use expense_management_syste.Tests.Listings.{alone}

abbrev no_comments : PreferencesPatch
no_comments = record {
  default_currency = some (some (codes "EUR"));
  notify_on_submission = none;
  notify_on_decision = none;
  notify_on_comment = some false;
}

update_my_preferences-obeyed_example :
    (w' : World) × (update_my_preferences 1 no_comments alone
      ≡ (ok (preferences_after no_comments ann), w'))
    × ((row : User) × (find_user 1 w'.db.users ≡ some row)
        × (preferences_of row ≡ preferences_after no_comments ann))
    × (recipient_wants_notification 1 NotificationType.expense_comment w' ≡ (ok false, w'))
    × (find_user 2 w'.db.users ≡ find_user 2 company.users)
update_my_preferences-obeyed_example =
    update_my_preferences-obeyed 1 2 no_comments NotificationType.expense_comment alone {u = ann}
      refl refl (ground arith)
