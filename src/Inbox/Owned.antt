-- ===== src/Inbox/Owned.antt =====
-- Whose notifications `markAllRead` of server/src/models/notification.ts changes.
use expense_management_syste.Base.{
  ℕ, true, not, List, [], ◌∷◌, ◌≡◌, refl, arith, ◌==◌, filter, map, some, length, Bool-cases, inl,
  inr,
}
use expense_management_syste.Types.{Notification}
use expense_management_syste.Db.{Db}
use expense_management_syste.Inbox.{is_listed, read_if, update_all_read}

-- The notifications of everybody else.
abbrev pub of_others : ℕ → List Notification → List Notification
of_others user_id = filter (λ n. not (n.user_id == user_id))

abbrev mark_row : ℕ → Notification → Notification
mark_row user_id n = read_if (is_listed user_id true n) n

none_left :
    (user_id : ℕ) (ns : List Notification)
    → filter (is_listed user_id true) (map (mark_row user_id) ns) ≡ []
none_left user_id [] = refl
none_left user_id (n ∷ ns) =
    let rest = none_left user_id ns in
    elim (Bool-cases (is_listed user_id true n)) [
      | inl listed ↦ ground (arith, rest, listed)
      | inr other ↦ ground (arith, rest, other)
    ]

others_kept :
    (user_id : ℕ) (ns : List Notification)
    → of_others user_id (map (mark_row user_id) ns) ≡ of_others user_id ns
others_kept user_id [] = refl
others_kept user_id (n ∷ ns) =
    let rest = others_kept user_id ns in
    elim (Bool-cases (is_listed user_id true n)) [
      | inl listed ↦ ground (arith, rest, listed)
      | inr other ↦ ground (arith, rest, other)
    ]

-- `markAllRead` leaves the user no unread notification, gives how many there were, and leaves those of
-- everybody else as they are.
pub update_all_read-owned :
    (user_id now : ℕ) (d : Db) {n : ℕ} {d' : Db}
    → update_all_read user_id now d ≡ some (n, d')
    → (filter (is_listed user_id true) d'.notifications ≡ [])
      × (n ≡ length (filter (is_listed user_id true) d.notifications))
      × (of_others user_id d'.notifications ≡ of_others user_id d.notifications)
unfolding update_all_read
update_all_read-owned user_id now d {n} {d'} h =
    let rows : d'.notifications ≡ map (mark_row user_id) d.notifications = ground (arith, h) in
    let none = none_left user_id d.notifications in
    let kept = others_kept user_id d.notifications in
    (cc (rows, none), ground (arith, h), cc (rows, kept))
