-- ===== src/Auth/Manager.antt =====
-- server/src/services/managerAuthorization.ts.
use expense_management_syste.Base.{
  ℕ, Bool, true, false, not, ◌&&◌, Option, none, some, [], ◌∷◌, String, Text, codes, text_eq, ◌==◌,
  if◌then◌else◌, drop,
}
use expense_management_syste.Errors.{Error, forbidden, insufficient_permissions}
use expense_management_syste.Types.{User, Role, role_eq}
use expense_management_syste.Db.{M, pure, raise, ◌>>=◌, attempt}
use expense_management_syste.Users
use expense_management_syste.Auth.Principal.{Request}
use expense_management_syste.Auth.Roles.{truthy, is_nonempty}
use expense_management_syste.Auth.Graph.{GraphApi, is_manager_of}

-- `ManagerRelationshipResult`: allowed, or denied with a reason
pub data Relationship : Type 0 where
  allowed : Relationship
  denied : String → Relationship

pub record Options : Type 0 where
  pub allow_cached_fallback : Bool
  pub force_refresh : Bool

abbrev pub starts_with : Text → Text → Bool
starts_with [] s = true
starts_with (_ ∷ _) [] = false
starts_with (a ∷ p) (b ∷ s) = (a == b) && starts_with p s

-- `getBearerToken`
unfoldable pub get_bearer_token : Option Text → Text
get_bearer_token none = []
get_bearer_token (some header) = if starts_with (codes "Bearer ") header then drop 7 header else []

-- `x === y` where `x` may be null
abbrev pub same_id : Option ℕ → ℕ → Bool
same_id none k = false
same_id (some j) k = j == k

-- `s === t` where either may be null or undefined
abbrev pub same_text : Option Text → Option Text → Bool
same_text (some s) (some t) = text_eq s t
same_text _ _ = false

abbrev from_cache : Bool → Relationship
from_cache b =
    if b
    then Relationship.allowed
    else Relationship.denied "Manager relationship could not be verified from the local cache."

abbrev pub is_admin : Request → Bool
is_admin req = role_eq req.user.role Role.admin

-- The branch of a demo session.
unfoldable pub demo_relationship : Request → Option User → Relationship
demo_relationship req none = Relationship.denied "Expense submitter not found"
demo_relationship req (some submitter) =
    if not (
      submitter.is_demo
      && truthy req.user.demo_session_id
      && same_text submitter.demo_session_id req.user.demo_session_id)
    then Relationship.denied "This expense is outside your demo workspace."
    else if is_admin req
    then Relationship.allowed
    else from_cache (same_id submitter.manager_id req.user.id)

-- `const stubAuth`
abbrev pub is_stub : Request → Bool
is_stub req = req.user.stub_auth && not req.in_production

-- `allowFromDatabaseCache`
unfoldable pub allow_from_database_cache : Request → Options → User → Relationship
allow_from_database_cache req options submitter =
    if not options.allow_cached_fallback && not (is_stub req)
    then Relationship.denied "Manager relationship could not be verified against Microsoft Graph."
    else from_cache (same_id submitter.manager_id req.user.id)

-- `fallback.allowed ? fallback : { allowed: false, reason }`
abbrev or_denied : Relationship → String → Relationship
or_denied Relationship.allowed reason = Relationship.allowed
or_denied (Relationship.denied _) reason = Relationship.denied reason

-- No bearer token.
unfoldable pub tokenless : Request → Options → User → Relationship
unfolding allow_from_database_cache
tokenless req options submitter =
    if is_stub req
    then allow_from_database_cache req options submitter
    else or_denied (allow_from_database_cache req options submitter)
        "Manager relationship could not be verified without a bearer token."

abbrev outage_reason : Error → String
outage_reason (Error.graph_auth true) =
    "Microsoft Graph consent is required and no local manager assignment is cached for this employee."
outage_reason _ = "Unable to verify manager relationship. Please try again later."

-- The `catch` of the call to Graph.
unfoldable pub outage : Request → Options → User → Error → Relationship
unfolding allow_from_database_cache
outage req options submitter e =
    or_denied (allow_from_database_cache req options submitter) (outage_reason e)

abbrev pub from_graph : Bool → Relationship
from_graph b =
    if b
    then Relationship.allowed
    else Relationship.denied
        "No active manager relationship found in Microsoft Graph. Escalate to an admin if reassignment is expected."

-- `if (!relationship.allowed) throw forbidden(relationship.reason)`
unfoldable pub require_allowed : Relationship → M (Unit {0})
require_allowed Relationship.allowed = pure tt
require_allowed (Relationship.denied reason) = raise (forbidden reason)

abbrev pub live_check : Options
live_check = record { allow_cached_fallback = false; force_refresh = true }

module _ (graph : GraphApi) where
  -- A manager who is no admin and in no demo session, once the submitter is read.
  unfoldable pub real_relationship : Request → Options → Option User → M Relationship
  unfolding tokenless outage
  real_relationship req options none = pure (Relationship.denied "Expense submitter not found")
  real_relationship req options (some submitter) =
      let token = get_bearer_token req.authorization in
      if is_nonempty token
      then attempt
          (is_manager_of graph req.user.id submitter.entra_id token options.force_refresh >>= λ b.
            pure (from_graph b))
          (λ e. pure (outage req options submitter e))
      else pure (tokenless req options submitter)

  -- `verifyManagerRelationship`
  unfoldable pub verify_manager_relationship : Request → ℕ → Options → M Relationship
  unfolding demo_relationship real_relationship
  verify_manager_relationship req submitted_by options =
      if req.user.demo_mode
      then (Users.find_by_id submitted_by >>= λ submitter. pure (demo_relationship req submitter))
      else if is_admin req
      then pure Relationship.allowed
      else (Users.find_by_id submitted_by >>= real_relationship req options)

  -- `ensureCanAccessExpense`, and the same gate in `getExpenseById` and `downloadReceipt`
  unfoldable pub ensure_can_access_expense : Request → ℕ → M (Unit {0})
  unfolding verify_manager_relationship require_allowed
  ensure_can_access_expense req submitted_by =
      if submitted_by == req.user.id
      then pure tt
      else if role_eq req.user.role Role.employee
      then raise insufficient_permissions
      else (verify_manager_relationship req submitted_by live_check >>= require_allowed)
