-- ===== src/Inbox.antt =====
-- The notifications of a user: server/src/models/notification.ts and
-- server/src/controllers/notificationController.ts.
pub mod Rules
pub mod Owned
use expense_management_syste.Base.{
  ℕ, ◌+◌, Bool, true, false, not, ◌||◌, ◌&&◌, ltb, Option, none, some, List, [], ◌∷◌, ◌≡◌, arith,
  Text, text_eq, codes, ◌==◌, if◌then◌else◌, filter, sort_by, slice, length, map,
}
use expense_management_syste.Errors.{Error, not_found}
use expense_management_syste.Types.{Notification}
use expense_management_syste.Db.{Db, M, pure, ◌>>=◌, ◌>>◌, guard, lift, Statement, query}
use expense_management_syste.Requests.{
  QueryValue, get_single_query_value, parse_positive_id, parse_pagination, limit_offset,
}
use expense_management_syste.Auth.{Request, same_text}

-- `WHERE user_id = ?`, and `AND is_read = 0` under `unreadOnly`
abbrev pub is_listed : ℕ → Bool → Notification → Bool
is_listed user_id unread_only n = (n.user_id == user_id) && (not unread_only || not n.is_read)

abbrev pub unread : List Notification → List Notification
unread = filter (λ n. not n.is_read)

-- `ORDER BY created_at DESC, id DESC`
abbrev pub newer : Notification → Notification → Bool
newer a b = ltb b.created_at a.created_at || (a.created_at == b.created_at) && ltb b.id a.id

-- The scan for both counts.
unfoldable pub select_counts : ℕ → Bool → Statement (ℕ × ℕ)
select_counts user_id unread_only now d =
    let rows = filter (is_listed user_id unread_only) d.notifications in
    some ((length rows, length (unread rows)), d)

unfoldable pub select_page : ℕ → Bool → ℕ → ℕ → Statement (List Notification)
select_page user_id unread_only size offset now d =
    some (
      slice size offset (sort_by newer (filter (is_listed user_id unread_only) d.notifications)),
      d,
    )

pub record Listing : Type 0 where
  pub rows : List Notification
  pub total : ℕ
  pub unread_count : ℕ

-- `findByUserId`
unfoldable pub find_by_user_id : ℕ → Bool → Option ℕ → Option ℕ → M Listing
unfolding select_counts select_page
find_by_user_id user_id unread_only page page_size = do
  counts ← query (select_counts user_id unread_only)
  rows ← query (
      select_page user_id unread_only (limit_offset page page_size).0
        (limit_offset page page_size).1)
  pure (record { rows = rows; total = counts.0; unread_count = counts.1 })

unfoldable pub select_unread : ℕ → Statement ℕ
select_unread user_id now d = some (length (filter (is_listed user_id true) d.notifications), d)

-- `countUnread`
unfoldable pub count_unread : ℕ → M ℕ
unfolding select_unread
count_unread user_id = query (select_unread user_id)

abbrev pub read_if : Bool → Notification → Notification
read_if b n = if b then record n { is_read = true } else n

-- `UPDATE notifications SET is_read = 1 WHERE id = ? AND user_id = ?`; gives whether a row matched, as
-- `affectedRows` counts matched rows on these connections.
unfoldable pub update_read : ℕ → ℕ → Statement Bool
update_read k user_id now d =
    let hit : Notification → Bool = λ n. (n.id == k) && (n.user_id == user_id) in
    some (
      ltb 0 (length (filter hit d.notifications)),
      record d { notifications = map (λ n. read_if (hit n) n) d.notifications },
    )

-- `markRead`
unfoldable pub mark_read : ℕ → ℕ → M Bool
unfolding update_read
mark_read k user_id = query (update_read k user_id)

unfoldable pub update_all_read : ℕ → Statement ℕ
update_all_read user_id now d = some (
  length (filter (is_listed user_id true) d.notifications),
  record d { notifications = map (λ n. read_if (is_listed user_id true n) n) d.notifications },
)

-- `markAllRead`
unfoldable pub mark_all_read : ℕ → M ℕ
unfolding update_all_read
mark_all_read user_id = query (update_all_read user_id)

-- `getNotifications`
unfoldable pub get_notifications : Request → QueryValue → QueryValue → QueryValue → M Listing
unfolding find_by_user_id
get_notifications req page page_size unread_raw = do
  p ← lift (parse_pagination page page_size)
  wanted ← lift (get_single_query_value unread_raw "unread")
  find_by_user_id req.user.id (same_text wanted (some (codes "true"))) (some p.page)
      (some p.page_size)

-- `getUnreadCount`
unfoldable pub get_unread_count : Request → M ℕ
unfolding count_unread
get_unread_count req = count_unread req.user.id

-- `markNotificationRead`
unfoldable pub mark_notification_read : Request → QueryValue → M (Unit {0})
unfolding mark_read
mark_notification_read req raw_id = do
  k ← lift (parse_positive_id raw_id "notification ID")
  done ← mark_read k req.user.id
  guard done (not_found "Notification")

-- `markAllNotificationsRead`
unfoldable pub mark_all_notifications_read : Request → M ℕ
unfolding mark_all_read
mark_all_notifications_read req = mark_all_read req.user.id
