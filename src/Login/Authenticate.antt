-- ===== src/Login/Authenticate.antt =====
-- `verifyToken` and `authenticate` of server/src/middleware/auth.ts.
use expense_management_syste.Base.{false, Option, none, some, List, [], ◌∷◌, Text, if◌then◌else◌}
use expense_management_syste.Errors.{Error, unauthorized, forbidden}
use expense_management_syste.Types.{
  User, Role, role_eq, SecurityEvent, SecurityEventType, SecurityOutcome,
}
use expense_management_syste.Db.{M, pure, raise, ◌>>=◌, ◌>>◌, current_time, attempt, or_raise}
use expense_management_syste.Auth.{AuthUser, resolve_active_role, is_nonempty}
use expense_management_syste.Listings.{Server}
use expense_management_syste.Login.Outside.{Headers, Environment, Outside}
use expense_management_syste.Login.Accounts.{record_event, upsert_by_entra_id, update_role}
use expense_management_syste.Login.Sessions.{bearer_of, handle_demo_auth, handle_stub_auth}
use expense_management_syste.Login.Claims.{Verified, accept_claims, assigned_to, is_owner_allowed}

-- How the `try` block ends: with an identity, or with `next(error)`.
pub data Verdict : Type 0 where
  admitted : AuthUser → Verdict
  refused : Error → Verdict

abbrev pub oid_event :
    SecurityEventType
    → SecurityOutcome
    → Verified
    → Option User
    → Option Role
    → Headers
    → SecurityEvent
oid_event kind outcome claims u role headers = record {
  event_type = kind;
  outcome = outcome;
  user_id = elim u [ none ↦ none | some v ↦ some v.id ];
  entra_oid = some claims.oid;
  role = role;
  ip_address = headers.ip;
}

abbrev pub auth_failure_event : Headers → SecurityEvent
auth_failure_event headers = record {
  event_type = SecurityEventType.auth_failure;
  outcome = SecurityOutcome.failure;
  user_id = none;
  entra_oid = none;
  role = none;
  ip_address = headers.ip;
}

-- `decoded.name || email`
abbrev pub shown_name : Verified → Text
shown_name claims = elim claims.name [
  | none ↦ claims.email
  | some name ↦ if is_nonempty name then name else claims.email
]

abbrev or_user : Option User → User → User
or_user none u = u
or_user (some v) u = v

module _ (server : Server) (env : Environment) (outside : Outside) (headers : Headers) where
  -- `if (user.role !== canonicalRole) { updateRole; record }`
  unfoldable pub sync_role : Verified → Role → User → M User
  unfolding update_role record_event
  sync_role claims role u =
      let synced = update_role u.id role >>= λ updated.
      record_event (
        oid_event SecurityEventType.role_changed SecurityOutcome.success claims
          (some (or_user updated u)) (some role) headers)
      >> pure (or_user updated u) in
      if role_eq u.role role then pure u else synced

  abbrev pub entra_identity : Verified → Role → User → AuthUser
  entra_identity claims highest u = record {
    id = u.id;
    role = elim (resolve_active_role (assigned_to claims) headers.active_role) [
      | none ↦ highest
      | some r ↦ r
    ];
    assigned_roles = assigned_to claims;
    email = u.email;
    display_name = u.display_name;
    stub_auth = false;
    demo_mode = false;
    demo_session_id = none;
  }

  abbrev refuse : SecurityEvent → Error → M Verdict
  refuse event e = record_event event >> pure (Verdict.refused e)

  -- The account of a verified token whose highest role is given
  unfoldable pub sign_in : Verified → Role → M Verdict
  unfolding upsert_by_entra_id sync_role record_event
  sign_in claims highest = do
    stored ← upsert_by_entra_id server (record {
      entra_id = claims.oid;
      email = claims.email;
      display_name = shown_name claims;
      role = highest;
    })
    u ← sync_role claims highest stored
    if u.is_active
        then pure (Verdict.admitted (entra_identity claims highest u))
        else (refuse
            (oid_event SecurityEventType.account_deactivated SecurityOutcome.failure claims (some u)
              (some highest) headers)
            (unauthorized "User account is deactivated"))

  abbrev pub without_role : Verified → M Verdict
  without_role claims =
      refuse
        (oid_event SecurityEventType.access_denied SecurityOutcome.failure claims none none headers)
        (forbidden "An assigned application role is required")

  abbrev pub stranger : Verified → Role → M Verdict
  stranger claims highest =
      refuse
        (oid_event SecurityEventType.access_denied SecurityOutcome.failure claims none
          (some highest) headers)
        (forbidden "Access is restricted to the application owner")

  -- The roles and the allowlist
  unfoldable pub judge_roles : Verified → List Role → M Verdict
  unfolding sign_in is_owner_allowed record_event
  judge_roles claims [] = without_role claims
  judge_roles claims (highest ∷ rest) =
      if is_owner_allowed env claims.oid then sign_in claims highest else stranger claims highest

  -- What `authenticate` does with a verified token
  unfoldable pub judge : Verified → M Verdict
  unfolding judge_roles
  judge claims = judge_roles claims (assigned_to claims)

  -- `verifyToken`
  unfoldable pub verify_token : Text → M Verified
  unfolding accept_claims
  verify_token token = do
    now ← current_time
    claims ← or_raise (outside.verify_entra token now) Error.failure
    or_raise (accept_claims claims) Error.failure

  abbrev pub answer : Verdict → M AuthUser
  answer (Verdict.admitted u) = pure u
  answer (Verdict.refused e) = raise e

  abbrev pub caught : Error → M Verdict
  caught _ =
      record_event (auth_failure_event headers)
      >> pure (Verdict.refused (unauthorized "Invalid or expired token"))

  -- The `try` and the `catch` of `authenticate`
  abbrev pub judged : Text → M Verdict
  judged token = attempt (verify_token token >>= judge) caught

  unfoldable pub entra_auth : Text → M AuthUser
  unfolding verify_token judge record_event
  entra_auth token = judged token >>= answer

  unfoldable pub entra_or_refuse : M AuthUser
  unfolding entra_auth
  entra_or_refuse = elim (bearer_of headers.authorization) [
    | none ↦ raise (unauthorized "Missing or malformed Authorization header")
    | some token ↦ entra_auth token
  ]

  -- `authenticate`; the result is `req.user`.
  unfoldable pub authenticate : M AuthUser
  unfolding handle_demo_auth handle_stub_auth entra_or_refuse
  authenticate = do
    demo ← handle_demo_auth env outside headers
    elim demo [
      | some u ↦ pure u
      | none ↦ handle_stub_auth env outside headers >>= λ stub. elim stub [
        | some u ↦ pure u
        | none ↦ entra_or_refuse
      ]
    ]
