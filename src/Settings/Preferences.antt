-- ===== src/Settings/Preferences.antt =====
-- `updatePreferences` of server/src/models/user.ts and `updateMyPreferences` of
-- server/src/controllers/meController.ts.
use expense_management_syste.Base.{
  ℕ, Bool, true, ◌&&◌, Option, none, some, Text, map, ◌==◌, if◌then◌else◌, is_some, not,
}
use expense_management_syste.Errors.{not_found}
use expense_management_syste.Types.{User}
use expense_management_syste.Db.{M, pure, ◌>>=◌, or_raise, query, Statement}
use expense_management_syste.Users.{find_by_id}

-- The argument of `updatePreferences`: a key that is not given is `none`.
pub record PreferencesPatch : Type 0 where
  pub default_currency : Option (Option Text)
  pub notify_on_submission : Option Bool
  pub notify_on_decision : Option Bool
  pub notify_on_comment : Option Bool

pub record UserPreferences : Type 0 where
  pub default_currency : Option Text
  pub notify_on_submission : Bool
  pub notify_on_decision : Bool
  pub notify_on_comment : Bool

-- A column of the SET list: what is given, else what is there.
abbrev pub set_flag : Option Bool → Option Bool → Option Bool
set_flag none old = old
set_flag (some b) old = some b

abbrev pub set_currency : Option (Option Text) → Option Text → Option Text
set_currency none old = old
set_currency (some c) old = c

-- `sets.length === 0`
abbrev pub is_empty : PreferencesPatch → Bool
is_empty prefs =
    not (is_some prefs.default_currency)
    && not (is_some prefs.notify_on_submission)
    && not (is_some prefs.notify_on_decision)
    && not (is_some prefs.notify_on_comment)

abbrev pub patched : PreferencesPatch → User → User
patched prefs u = record u {
  default_currency = set_currency prefs.default_currency u.default_currency;
  notify_on_submission = set_flag prefs.notify_on_submission u.notify_on_submission;
  notify_on_decision = set_flag prefs.notify_on_decision u.notify_on_decision;
  notify_on_comment = set_flag prefs.notify_on_comment u.notify_on_comment;
}

unfoldable pub write_preferences : ℕ → PreferencesPatch → Statement (Unit {0})
write_preferences k prefs now d =
    some (tt, record d { users = map (λ u. if u.id == k then patched prefs u else u) d.users })

-- `updatePreferences`
unfoldable pub update_preferences : ℕ → PreferencesPatch → M (Option User)
unfolding write_preferences
update_preferences k prefs =
    if is_empty prefs
    then find_by_id k
    else (query (write_preferences k prefs) >>= λ _. find_by_id k)

-- `toBool(flag ?? true)`
abbrev pub flag_of : Option Bool → Bool
flag_of none = true
flag_of (some b) = b

-- `preferencesOf`
abbrev pub preferences_of : User → UserPreferences
preferences_of u = record {
  default_currency = u.default_currency;
  notify_on_submission = flag_of u.notify_on_submission;
  notify_on_decision = flag_of u.notify_on_decision;
  notify_on_comment = flag_of u.notify_on_comment;
}

-- `updateMyPreferences`, for the user with this id
unfoldable pub update_my_preferences : ℕ → PreferencesPatch → M UserPreferences
unfolding update_preferences
update_my_preferences k body = do
  found ← update_preferences k body
  u ← or_raise found (not_found "User")
  pure (preferences_of u)
