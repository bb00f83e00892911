-- ===== src/Inbox/Rules.antt =====
-- The handlers of server/src/controllers/notificationController.ts under rely and guarantee.
use expense_management_syste.Base.{ℕ, Bool, Option, arith}
use expense_management_syste.Db.{StatementKeeps, Keeps, keeps, Evolves-of_same}
use expense_management_syste.Requests.{QueryValue}
use expense_management_syste.Auth.{Request}
use expense_management_syste.Inbox.{
  select_counts, select_page, find_by_user_id, select_unread, count_unread, update_read, mark_read,
  update_all_read, mark_all_read, get_notifications, get_unread_count, mark_notification_read,
  mark_all_notifications_read,
}

module _ (user_id : ℕ) where
  select_counts-StatementKeeps : (b : Bool) → StatementKeeps (select_counts user_id b)
  unfolding select_counts
  select_counts-StatementKeeps b = record {
    apply = λ now d r d' h. Evolves-of_same d d' (ground arith) (ground arith);
  }

  select_page-StatementKeeps : (b : Bool) (n k : ℕ) → StatementKeeps (select_page user_id b n k)
  unfolding select_page
  select_page-StatementKeeps b n k = record {
    apply = λ now d r d' h. Evolves-of_same d d' (ground arith) (ground arith);
  }

  select_unread-StatementKeeps : StatementKeeps (select_unread user_id)
  unfolding select_unread
  select_unread-StatementKeeps = record {
    apply = λ now d r d' h. Evolves-of_same d d' (ground arith) (ground arith);
  }

  update_read-StatementKeeps : (k : ℕ) → StatementKeeps (update_read k user_id)
  unfolding update_read
  update_read-StatementKeeps k = record {
    apply = λ now d r d' h. Evolves-of_same d d' (ground arith) (ground arith);
  }

  update_all_read-StatementKeeps : StatementKeeps (update_all_read user_id)
  unfolding update_all_read
  update_all_read-StatementKeeps = record {
    apply = λ now d r d' h. Evolves-of_same d d' (ground arith) (ground arith);
  }

  find_by_user_id-Keeps : (b : Bool) (p s : Option ℕ) → Keeps (find_by_user_id user_id b p s)
  unfolding find_by_user_id
  find_by_user_id-Keeps b p s =
      search (keeps, select_counts-StatementKeeps, select_page-StatementKeeps)

  count_unread-Keeps : Keeps (count_unread user_id)
  unfolding count_unread
  count_unread-Keeps = search (keeps, select_unread-StatementKeeps)

  mark_read-Keeps : (k : ℕ) → Keeps (mark_read k user_id)
  unfolding mark_read
  mark_read-Keeps k = search (keeps, update_read-StatementKeeps)

  mark_all_read-Keeps : Keeps (mark_all_read user_id)
  unfolding mark_all_read
  mark_all_read-Keeps = search (keeps, update_all_read-StatementKeeps)

module _ (req : Request) where
  pub get_notifications-Keeps :
      (page page_size unread_raw : QueryValue)
      → Keeps (get_notifications req page page_size unread_raw)
  unfolding get_notifications
  get_notifications-Keeps page page_size unread_raw = search (keeps, find_by_user_id-Keeps) depth 8

  pub get_unread_count-Keeps : Keeps (get_unread_count req)
  unfolding get_unread_count
  get_unread_count-Keeps = search (count_unread-Keeps)

  pub mark_notification_read-Keeps :
      (raw_id : QueryValue) → Keeps (mark_notification_read req raw_id)
  unfolding mark_notification_read
  mark_notification_read-Keeps raw_id = search (keeps, mark_read-Keeps) depth 8

  pub mark_all_notifications_read-Keeps : Keeps (mark_all_notifications_read req)
  unfolding mark_all_notifications_read
  mark_all_notifications_read-Keeps = search (mark_all_read-Keeps)
