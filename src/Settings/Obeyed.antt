-- ===== src/Settings/Obeyed.antt =====
-- What a user saves is what server/src/services/notificationService.ts goes by.
use expense_management_syste.Base.{
  ℕ, Bool, not, is_some, Text, true, Option, none, some, List, [], ◌∷◌, ◌≡◌, ◌≢◌, refl, sym, ap,
  ◌∙◌, arith, map, ◌==◌, if◌then◌else◌, Bool-cases, inl, inr,
}
use expense_management_syste.Errors.{Error, Result, ok, err, not_found}
use expense_management_syste.Types.{User, NotificationType}
use expense_management_syste.Db.{World, M, pure, ◌>>=◌, attempt, or_raise, query, find_user}
use expense_management_syste.Db.Alone.{>>=_step, query_alone, query_writes}
use expense_management_syste.Users.{find_by_id, select_user}
use expense_management_syste.Notifications.{recipient_wants_notification, wants}
use expense_management_syste.Settings.Preferences.{
  PreferencesPatch, UserPreferences, is_empty, patched, write_preferences, flag_of,
  update_preferences, set_flag, set_currency, preferences_of, update_my_preferences,
}

-- The preference that is about this kind of notification
abbrev pub allows : UserPreferences → NotificationType → Bool
allows p NotificationType.expense_submitted = p.notify_on_submission
allows p NotificationType.expense_resubmitted = p.notify_on_submission
allows p NotificationType.expense_approved = p.notify_on_decision
allows p NotificationType.expense_rejected = p.notify_on_decision
allows p NotificationType.expense_comment = p.notify_on_comment

-- What is given, else what is there.
abbrev pub given_or : {A : Type 0} → Option A → A → A
given_or none old = old
given_or (some new) old = new

-- The preferences of the row after this request: every key that is given has its new value, and every
-- other is as it was; a flag that was never set counts as set.
abbrev pub preferences_after : PreferencesPatch → User → UserPreferences
preferences_after prefs u = record {
  default_currency = given_or prefs.default_currency u.default_currency;
  notify_on_submission = given_or prefs.notify_on_submission (given_or u.notify_on_submission true);
  notify_on_decision = given_or prefs.notify_on_decision (given_or u.notify_on_decision true);
  notify_on_comment = given_or prefs.notify_on_comment (given_or u.notify_on_comment true);
}

flag_after : (x old : Option Bool) → flag_of (set_flag x old) ≡ given_or x (given_or old true)
flag_after none none = refl
flag_after none (some b) = refl
flag_after (some b) old = refl

currency_after :
    (x : Option (Option Text)) (old : Option Text) → set_currency x old ≡ given_or x old
currency_after none old = refl
currency_after (some c) old = refl

patched-preferences_after :
    (prefs : PreferencesPatch) (u : User)
    → preferences_of (patched prefs u) ≡ preferences_after prefs u
patched-preferences_after prefs u =
    let currency = currency_after prefs.default_currency u.default_currency in
    let submission = flag_after prefs.notify_on_submission u.notify_on_submission in
    let decision = flag_after prefs.notify_on_decision u.notify_on_decision in
    let comment = flag_after prefs.notify_on_comment u.notify_on_comment in
    rw (currency, submission, decision, comment) refl

wants-allows :
    (u : User) (kind : NotificationType) → wants (some u) kind ≡ allows (preferences_of u) kind
wants-allows u NotificationType.expense_submitted = refl
wants-allows u NotificationType.expense_resubmitted = refl
wants-allows u NotificationType.expense_approved = refl
wants-allows u NotificationType.expense_rejected = refl
wants-allows u NotificationType.expense_comment = refl

kept_flag : (x old : Option Bool) → not (is_some x) ≡ true → set_flag x old ≡ old
kept_flag none old h = refl
kept_flag (some b) old h = cc

kept_currency :
    (x : Option (Option Text)) (old : Option Text)
    → not (is_some x) ≡ true
    → set_currency x old ≡ old
kept_currency none old h = refl
kept_currency (some c) old h = cc

patched_empty : (prefs : PreferencesPatch) (u : User) → is_empty prefs ≡ true → patched prefs u ≡ u
patched_empty prefs u h =
    let currency = kept_currency prefs.default_currency u.default_currency (ground arith) in
    let submission = kept_flag prefs.notify_on_submission u.notify_on_submission (ground arith) in
    let decision = kept_flag prefs.notify_on_decision u.notify_on_decision (ground arith) in
    let comment = kept_flag prefs.notify_on_comment u.notify_on_comment (ground arith) in
    rw (currency, submission, decision, comment) refl

-- The rows as the UPDATE leaves them
abbrev saved_rows : ℕ → PreferencesPatch → List User → List User
saved_rows k prefs = map (λ (u : User). if u.id == k then patched prefs u else u)

saved_row :
    (k : ℕ) (prefs : PreferencesPatch) (us : List User) {u : User}
    → find_user k us ≡ some u
    → find_user k (saved_rows k prefs us) ≡ some (patched prefs u)
saved_row k prefs [] h = cc
saved_row k prefs (x ∷ us) {u} h = ground (arith, saved_row k prefs us {u = u})

other_rows :
    (j k : ℕ) (prefs : PreferencesPatch) (us : List User)
    → j ≢ k
    → find_user j (saved_rows k prefs us) ≡ find_user j us
other_rows j k prefs [] h = refl
other_rows j k prefs (x ∷ us) h = ground (arith, other_rows j k prefs us h)

find_by_id_alone :
    (k : ℕ) (w : World) {u : User}
    → w.events ≡ []
    → find_user k w.db.users ≡ some u
    → find_by_id k w ≡ (ok (some u), w)
unfolding find_by_id select_user
find_by_id_alone k w quiet row = query_alone (select_user k) w quiet (ap (λ o. some (o, w.db)) row)

-- The tables after the write
abbrev saved : ℕ → PreferencesPatch → World → World
saved k prefs w =
    if is_empty prefs
    then w
    else record w { db = record w.db { users = saved_rows k prefs w.db.users } }

update_preferences-saved :
    (k : ℕ) (prefs : PreferencesPatch) (w : World) {u : User}
    → w.events ≡ []
    → find_user k w.db.users ≡ some u
    → (update_preferences k prefs w ≡ (ok (some (patched prefs u)), saved k prefs w))
      × (find_user k (saved k prefs w).db.users ≡ some (patched prefs u))
      × ((saved k prefs w).events ≡ [])
unfolding update_preferences write_preferences
update_preferences-saved k prefs w {u} quiet row = elim (Bool-cases (is_empty prefs)) [
  | inl empty ↦
      let same = ap some (sym (patched_empty prefs u empty)) in
      rw (empty) (find_by_id_alone k w quiet (row ∙ same), row ∙ same, quiet)
  | inr given ↦
      let w2 : World = record w { db = record w.db { users = saved_rows k prefs w.db.users } } in
      let written = query_writes (write_preferences k prefs) w quiet refl in
      let there = saved_row k prefs w.db.users row in
      rw (given) (
        >>=_step (query (write_preferences k prefs)) (λ _. find_by_id k) w written
            ∙ find_by_id_alone k w2 quiet there,
        there,
        quiet,
      )
]

attempt_step :
    {A : Type 0} (m : M A) (handler : Error → M A) (w : World) {a : A} {w' : World}
    → m w ≡ (ok a, w')
    → attempt m handler w ≡ (ok a, w')
unfolding attempt
attempt_step {A = A} m handler w h =
    ap (λ (r : Result A × World). elim r.0 [ ok a ↦ (ok a, r.1) | err e ↦ handler e r.1 ]) h

recipient_wants_notification-row :
    (k : ℕ) (kind : NotificationType) (w : World) {u : User}
    → w.events ≡ []
    → find_user k w.db.users ≡ some u
    → recipient_wants_notification k kind w ≡ (ok (allows (preferences_of u) kind), w)
unfolding recipient_wants_notification pure
recipient_wants_notification-row k kind w {u} quiet row =
    attempt_step (find_by_id k >>= λ user. pure (wants user kind)) (λ _. pure true) w
      (>>=_step (find_by_id k) (λ user. pure (wants user kind)) w (find_by_id_alone k w quiet row))
    ∙ ap (λ b. (ok b, w)) (wants-allows u kind)

other_users :
    (j k : ℕ) (prefs : PreferencesPatch) (w : World)
    → j ≢ k
    → find_user j (saved k prefs w).db.users ≡ find_user j w.db.users
other_users j k prefs w differ = elim (Bool-cases (is_empty prefs)) [
  | inl empty ↦ rw (empty) refl
  | inr given ↦ rw (given) (other_rows j k prefs w.db.users differ)
]

-- A user who is in the table saves preferences while no other request interferes and no statement
-- fails. The request is answered with the value that was given for each of the four keys that were given,
-- and with what the row had for every other; the row of the user then has these preferences; asked in the tables that this leaves whether the user wants a notification of any
-- kind, the notification service answers as the answered preference that is about the kind says; and
-- the row of every other user is as it was.
pub update_my_preferences-obeyed :
    (k j : ℕ) (prefs : PreferencesPatch) (kind : NotificationType) (w : World) {u : User}
    → w.events ≡ []
    → find_user k w.db.users ≡ some u
    → j ≢ k
    → (w' : World) × (update_my_preferences k prefs w ≡ (ok (preferences_after prefs u), w'))
      × ((row : User) × (find_user k w'.db.users ≡ some row)
          × (preferences_of row ≡ preferences_after prefs u))
      × (recipient_wants_notification k kind w'
          ≡ (ok (allows (preferences_after prefs u) kind), w'))
      × (find_user j w'.db.users ≡ find_user j w.db.users)
unfolding update_my_preferences or_raise pure
update_my_preferences-obeyed k j prefs kind w {u} quiet row differ =
    let (updated, there, still) = update_preferences-saved k prefs w quiet row in
    let described = patched-preferences_after prefs u in
    (
      saved k prefs w,
      >>=_step (update_preferences k prefs)
            (λ found. or_raise found (not_found "User") >>= λ u. pure (preferences_of u)) w updated
          ∙ >>=_step (or_raise (some (patched prefs u)) (not_found "User"))
              (λ u. pure (preferences_of u)) (saved k prefs w) refl
          ∙ ap (λ p. (ok p, saved k prefs w)) described,
      (patched prefs u, there, described),
      recipient_wants_notification-row k kind (saved k prefs w) still there
          ∙ ap (λ p. (ok (allows p kind), saved k prefs w)) described,
      other_users j k prefs w differ,
    )
