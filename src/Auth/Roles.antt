-- ===== src/Auth/Roles.antt =====
-- server/src/middleware/auth.ts, the roles of a token, and server/src/middleware/rbac.ts.
use expense_management_syste.Base.{
  Bool, true, false, Option, none, some, List, [], ◌∷◌, ◌++◌, Text, codes, text_eq, any, ◌||◌,
  if◌then◌else◌,
}
use expense_management_syste.Errors.{
  Result, ok, err, unauthorized, forbidden, insufficient_permissions,
}
use expense_management_syste.Types.{Role, role_eq}
use expense_management_syste.Auth.Principal.{AuthUser}

abbrev pub role_name : Role → Text
role_name Role.employee = codes "EMPLOYEE"
role_name Role.manager = codes "MANAGER"
role_name Role.admin = codes "ADMIN"

-- The `roles` claim: an array, whose entries that are no strings match no role, or anything else.
pub data RolesClaim : Type 0 where
  array : List (Option Text) → RolesClaim
  not_array : RolesClaim

abbrev pub includes : List (Option Text) → Role → Bool
includes [] r = false
includes (none ∷ rest) r = includes rest r
includes (some name ∷ rest) r = text_eq name (role_name r) || includes rest r

abbrev pub role_if : Bool → Role → List Role
role_if b r = if b then r ∷ [] else []

-- `resolveRoles`
unfoldable pub resolve_roles : RolesClaim → List Role
resolve_roles RolesClaim.not_array = []
resolve_roles (RolesClaim.array roles) =
    role_if (includes roles Role.admin) Role.admin
    ++ (role_if (includes roles Role.manager) Role.manager
        ++ role_if (includes roles Role.employee) Role.employee)

-- The role of that name among those assigned.
abbrev pub named : Text → List Role → Option Role
named name [] = none
named name (r ∷ rs) = if text_eq name (role_name r) then some r else named name rs

abbrev pub is_nonempty : Text → Bool
is_nonempty [] = false
is_nonempty (_ ∷ _) = true

-- `resolveActiveRole`; the header is a string, or not. `none` is the undefined of an empty list.
unfoldable pub resolve_active_role : List Role → Option Text → Option Role
resolve_active_role [] header = none
resolve_active_role (highest ∷ rest) none = some highest
resolve_active_role (highest ∷ rest) (some requested) =
    if is_nonempty requested
    then elim (named requested (highest ∷ rest)) [ none ↦ some highest | some r ↦ some r ]
    else some highest

abbrev pub role_in : Role → List Role → Bool
role_in r = any (role_eq r)

-- `authorize(allowedRoles)`: whether `next()` is called without an error
unfoldable pub authorize : List Role → Option AuthUser → Result (Unit {0})
authorize allowed none = err (unauthorized "Authentication required")
authorize allowed (some user) =
    if role_in user.role allowed then ok tt else err insufficient_permissions

-- `denyDemo`
unfoldable pub deny_demo : Option AuthUser → Result (Unit {0})
deny_demo none = ok tt
deny_demo (some user) =
    if user.demo_mode then err (forbidden "This action is not available in demo mode") else ok tt

-- `!sessionId` fails of a nonempty string alone
abbrev pub truthy : Option Text → Bool
truthy none = false
truthy (some s) = is_nonempty s

-- `demoScope`
unfoldable pub demo_scope : Option AuthUser → Result (Option Text)
demo_scope none = ok none
demo_scope (some user) =
    if user.demo_mode
    then (if truthy user.demo_session_id
        then ok user.demo_session_id
        else err (forbidden "This action is not available in demo mode"))
    else ok none
