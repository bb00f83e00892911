-- ===== src/Tests/Access.antt =====
-- Roles and authority at concrete inputs.
use expense_management_syste.Base.{Option, none, some, List, [], ◌∷◌, Text, codes, ◌≡◌, refl}
use expense_management_syste.Errors.{ok}
use expense_management_syste.Types.{Role}
use expense_management_syste.Db.{◌>>=◌, pure, attempt, query, pause, run}
use expense_management_syste.Users
use expense_management_syste.Auth.{
  RolesClaim, role_name, resolve_roles, resolve_active_role, Relationship, live_check,
  verify_manager_relationship, real_relationship, get_bearer_token, is_manager_of,
}
use expense_management_syste.Auth.Access.{resolve_active_role-obeyed}
use expense_management_syste.Auth.Evidence.{Evidence, verify_manager_relationship-Evidence}
use expense_management_syste.Tests.Data.{calm, graph, request}

abbrev claims : List (Option Text)
claims = some (codes "EMPLOYEE") ∷ none ∷ some (codes "ADMIN") ∷ []

resolve_active_role-obeyed_example :
    resolve_active_role (resolve_roles (RolesClaim.array claims)) (some (role_name Role.employee))
    ≡ some Role.employee
resolve_active_role-obeyed_example = resolve_active_role-obeyed claims Role.employee refl

manager_allowed : verify_manager_relationship graph (request 2 Role.manager) 1 live_check calm ≡ (
  ok Relationship.allowed,
  (verify_manager_relationship graph (request 2 Role.manager) 1 live_check calm).1,
)
unfolding ◌>>=◌ pure attempt query pause run Users.find_by_id Users.select_user
    verify_manager_relationship real_relationship get_bearer_token is_manager_of
manager_allowed = refl

verify_manager_relationship-Evidence_example :
    Evidence graph
      (request 2 Role.manager)
      1
      calm
      (verify_manager_relationship graph (request 2 Role.manager) 1 live_check calm).1
verify_manager_relationship-Evidence_example =
    verify_manager_relationship-Evidence graph (request 2 Role.manager) 1 calm
      (verify_manager_relationship graph (request 2 Role.manager) 1 live_check calm).1
      manager_allowed
