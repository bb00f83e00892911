-- ===== src/Login/Accounts.antt =====
-- server/src/models/securityEvent.ts, and the writes of server/src/models/user.ts at a sign-in.
use expense_management_syste.Base.{
  ℕ, ◌+◌, Bool, true, false, not, ◌&&◌, Option, none, some, List, [], ◌∷◌, ◌++◌, Text, any, find?,
  take, ◌==◌, if◌then◌else◌, map, is_some,
}
use expense_management_syste.Errors.{Error}
use expense_management_syste.Types.{User, Role, SecurityEvent}
use expense_management_syste.Db.{M, pure, ◌>>=◌, ◌>>◌, attempt, or_raise, query, Statement}
use expense_management_syste.Users.{find_by_id}
use expense_management_syste.Listings.{Server}

-- `clamp`
abbrev pub clamp : Option Text → ℕ → Option Text
clamp none width = none
clamp (some s) width = some (take width s)

abbrev pub clamped : SecurityEvent → SecurityEvent
clamped event = record event {
  entra_oid = clamp event.entra_oid 36;
  ip_address = clamp event.ip_address 45;
}

unfoldable pub insert_security_event : SecurityEvent → Statement (Unit {0})
insert_security_event event now d =
    some (tt, record d { security_events = d.security_events ++ clamped event ∷ [] })

-- `securityEventModel.record`: whatever fails is swallowed.
unfoldable pub record_event : SecurityEvent → M (Unit {0})
unfolding insert_security_event
record_event event = attempt (query (insert_security_event event)) (λ _. pure tt)

-- The values of an upsert.
pub record SignIn : Type 0 where
  pub entra_id : Text
  pub email : Text
  pub display_name : Text
  pub role : Role

abbrev pub new_user : SignIn → ℕ → User
new_user input k = record {
  id = k;
  entra_id = input.entra_id;
  email = input.email;
  display_name = input.display_name;
  role = input.role;
  manager_id = none;
  is_active = true;
  is_demo = false;
  demo_expires_at = none;
  demo_session_id = none;
  default_currency = none;
  notify_on_submission = some true;
  notify_on_decision = some true;
  notify_on_comment = some true;
}

-- The row that a unique key finds: by `uk_entra_id`, else by `uk_email`.
abbrev pub duplicate_of : Server → SignIn → List User → Option User
duplicate_of server input users = elim (find? (λ u. server.equal u.entra_id input.entra_id) users) [
  | some u ↦ some u
  | none ↦ find? (λ u. server.equal u.email input.email) users
]

abbrev pub rewritten : SignIn → ℕ → User → User
rewritten input k u =
    if u.id == k then record u { email = input.email; display_name = input.display_name } else u

-- `INSERT INTO users ... ON DUPLICATE KEY UPDATE email, display_name`: the update fails when another
-- row has the email.
unfoldable pub upsert_user : Server → SignIn → Statement (Unit {0})
upsert_user server input now d = elim (duplicate_of server input d.users) [
  | none ↦ some (
    tt,
    record d { users = d.users ++ new_user input d.next_user ∷ []; next_user = d.next_user + 1 },
  )
  | some old ↦
      if any (λ u. not (u.id == old.id) && server.equal u.email input.email) d.users
      then none
      else some (tt, record d { users = map (rewritten input old.id) d.users })
]

unfoldable pub select_by_entra_id : Server → Text → Statement (Option User)
select_by_entra_id server entra_id now d =
    some (find? (λ u. server.equal u.entra_id entra_id) d.users, d)

-- `findByEntraId`
unfoldable pub find_by_entra_id : Server → Text → M (Option User)
unfolding select_by_entra_id
find_by_entra_id server entra_id = query (select_by_entra_id server entra_id)

-- `upsertByEntraId`
unfoldable pub upsert_by_entra_id : Server → SignIn → M User
unfolding upsert_user find_by_entra_id
upsert_by_entra_id server input = do
  query (upsert_user server input)
  found ← find_by_entra_id server input.entra_id
  or_raise found Error.failure

unfoldable pub set_role : ℕ → Role → Statement Bool
set_role k role now d = some (
  is_some (find? (λ u. u.id == k) d.users),
  record d { users = map (λ u. if u.id == k then record u { role = role } else u) d.users },
)

-- `updateRole`
unfoldable pub update_role : ℕ → Role → M (Option User)
unfolding set_role
update_role k role = do hit ← query (set_role k role); if hit then find_by_id k else pure none
