-- ===== src/Login/Sessions.antt =====
-- The two ways to sign in without Entra: `handleStubAuth` and `handleDemoAuth` of
-- server/src/middleware/auth.ts.
use expense_management_syste.Base.{
  ℕ, Bool, true, false, not, ◌||◌, ◌&&◌, Option, none, some, [], ◌∷◌, ◌++◌, Text, codes, text_eq,
  ltb, leb, length, drop, if◌then◌else◌,
}
use expense_management_syste.Errors.{Error, unauthorized}
use expense_management_syste.Types.{User, SecurityEvent, SecurityEventType, SecurityOutcome}
use expense_management_syste.Db.{M, pure, raise, ◌>>=◌, ◌>>◌, current_time, guard, or_raise}
use expense_management_syste.Requests.{to_lower, is_positive_safe}
use expense_management_syste.Users.{find_by_id}
use expense_management_syste.Auth.{AuthUser, is_nonempty, truthy}
use expense_management_syste.Graph.{starts_with}
use expense_management_syste.Login.Outside.{Headers, Environment, DemoClaims, Outside}
use expense_management_syste.Login.Accounts.{record_event}

-- `isLoopbackAddress`
unfoldable pub is_loopback_address : Option Text → Bool
is_loopback_address none = false
is_loopback_address (some value) =
    let normalized : Text = to_lower value in
    is_nonempty value
    && (text_eq normalized (codes "127.0.0.1")
        || text_eq normalized (codes "::1")
        || text_eq normalized (codes "::ffff:127.0.0.1")
        || starts_with (codes "127.") normalized)

abbrev pub is_local_hostname : Text → Bool
is_local_hostname host =
    text_eq host (codes "localhost")
    || text_eq host (codes "127.0.0.1")
    || text_eq host (codes "[::1]")

abbrev pub has_local_hostname : Option Text → Bool
has_local_hostname none = false
has_local_hostname (some host) = is_local_hostname host

-- `isLocalUrl`
abbrev pub is_local_url : Outside → Option Text → Bool
is_local_url outside none = true
is_local_url outside (some value) =
    not (is_nonempty value) || has_local_hostname (outside.hostname value)

-- `isLocalHostHeader`
abbrev pub is_local_host_header : Outside → Option Text → Bool
is_local_host_header outside none = false
is_local_host_header outside (some value) =
    is_nonempty value && has_local_hostname (outside.hostname (codes "http://" ++ value))

-- `isLocalStubRequest`
unfoldable pub is_local_stub_request : Outside → Headers → Bool
unfolding is_loopback_address
is_local_stub_request outside headers =
    is_loopback_address headers.remote_address
    && is_local_host_header outside headers.host
    && is_local_url outside headers.origin
    && is_local_url outside headers.referer

-- `Bearer ` and at most 8,192 characters; gives the token.
abbrev pub bearer_of : Option Text → Option Text
bearer_of none = none
bearer_of (some header) =
    if starts_with (codes "Bearer ") header && leb (length header) 8192
    then some (drop 7 header)
    else none

abbrev pub user_event : SecurityEventType → SecurityOutcome → User → Headers → SecurityEvent
user_event kind outcome u headers = record {
  event_type = kind;
  outcome = outcome;
  user_id = some u.id;
  entra_oid = none;
  role = some u.role;
  ip_address = headers.ip;
}

-- `Number(value)`, and that it is a positive safe integer
abbrev pub positive_id : Outside → Text → Option ℕ
positive_id outside value = elim (outside.to_number value) [
  | none ↦ none
  | some n ↦ if is_positive_safe n then some n else none
]

abbrev pub deactivated : Error
deactivated = unauthorized "User account is deactivated"

-- `if (!user.is_active) { record; next(unauthorized(...)) }`
unfoldable pub check_active : Headers → User → M (Unit {0})
unfolding record_event
check_active headers u =
    if u.is_active
    then pure tt
    else (record_event
          (user_event SecurityEventType.account_deactivated SecurityOutcome.failure u headers)
        >> raise deactivated)

abbrev pub stub_identity : User → AuthUser
stub_identity u = record {
  id = u.id;
  role = u.role;
  assigned_roles = u.role ∷ [];
  email = u.email;
  display_name = u.display_name;
  stub_auth = true;
  demo_mode = false;
  demo_session_id = none;
}

abbrev pub demo_identity : User → AuthUser
demo_identity u = record {
  id = u.id;
  role = u.role;
  assigned_roles = u.role ∷ [];
  email = u.email;
  display_name = u.display_name;
  stub_auth = false;
  demo_mode = true;
  demo_session_id = u.demo_session_id;
}

-- `!stubUserId`: the header, when stub authentication is on and the header is not empty
abbrev pub stub_request : Environment → Headers → Option Text
stub_request env headers =
    if env.in_development && env.allow_stub_auth && truthy headers.stub_user_id
    then headers.stub_user_id
    else none

module _ (env : Environment) (outside : Outside) (headers : Headers) where
  unfoldable pub stub_user : Text → M AuthUser
  unfolding is_local_stub_request check_active record_event
  stub_user raw = do
    guard (is_local_stub_request outside headers)
        (unauthorized "Stub auth is only available from localhost")
    user_id ← or_raise (positive_id outside raw) (unauthorized "Invalid X-Stub-User-Id header")
    found ← find_by_id user_id
    u ← or_raise found (unauthorized "Stub user not found")
    check_active headers u
    record_event (user_event SecurityEventType.stub_auth_used SecurityOutcome.success u headers)
    pure (stub_identity u)

  -- `handleStubAuth`; `none` is false, which lets the request go on to Entra.
  unfoldable pub handle_stub_auth : M (Option AuthUser)
  unfolding stub_user
  handle_stub_auth = elim (stub_request env headers) [
    | none ↦ pure none
    | some raw ↦ stub_user raw >>= λ u. pure (some u)
  ]

  -- `user.demo_expires_at && ... < Date.now()`
  abbrev pub is_expired : ℕ → Option ℕ → Bool
  is_expired now none = false
  is_expired now (some expires) = ltb expires now

  abbrev pub is_demo_user : Option User → Bool
  is_demo_user none = false
  is_demo_user (some u) = u.is_demo

  unfoldable pub demo_user : DemoClaims → M AuthUser
  unfolding check_active
  demo_user claims = do
    user_id ← or_raise (positive_id outside claims.sub) (unauthorized "Invalid demo token")
    found ← find_by_id user_id
    guard (is_demo_user found) (unauthorized "Demo session is no longer valid")
    u ← or_raise found (unauthorized "Demo session is no longer valid")
    now ← current_time
    guard (not (is_expired now u.demo_expires_at)) (unauthorized "Demo session has expired")
    check_active headers u
    pure (demo_identity u)

  -- The claims of a demo token, where demos are on and the header has one that says it is one
  abbrev pub demo_claims : ℕ → Option DemoClaims
  demo_claims now =
      if env.enable_demo && is_nonempty env.demo_jwt_secret
      then elim (bearer_of headers.authorization) [
        | none ↦ none
        | some token ↦ elim (outside.verify_demo env.demo_jwt_secret token now) [
          | none ↦ none
          | some claims ↦ if claims.demo then some claims else none
        ]
      ]
      else none

  -- `handleDemoAuth`
  unfoldable pub handle_demo_auth : M (Option AuthUser)
  unfolding demo_user
  handle_demo_auth = do
    now ← current_time
    elim (demo_claims now) [
      | none ↦ pure none
      | some claims ↦ demo_user claims >>= λ u. pure (some u)
    ]
