-- ===== src/Tests/Org.antt =====
-- The hierarchy of the small company, where bob is the manager of everybody, himself included.
use expense_management_syste.Base.{
  ℕ, true, false, Option, none, some, ◌≡◌, refl, ◌↔◌, ◌⊎◌, Text, codes, ◌==◌, any,
}
use expense_management_syste.Errors.{ok}
use expense_management_syste.Types.{User, Role}
use expense_management_syste.Db.{pure, ◌>>=◌, lift, guard, or_raise, query, pause, run}
use expense_management_syste.Requests.{QueryValue, parse_positive_id}
use expense_management_syste.Auth.{demo_scope}
use expense_management_syste.Listings.Scope.{Visible}
use expense_management_syste.Org.{
  OrgNodeResult, anchor, reports_of, level, subtree, dedupe, clip, select_subtree, get_org_subtree,
  select_in_subtree, is_in_subtree, select_org_user, find_org_user, check_visible, check_under,
  get_org_user,
}
use expense_management_syste.Org.Chains.{Reaches, is_in_subtree-Reaches}
use expense_management_syste.Org.Access.{HasUnder, get_org_user-access}
use expense_management_syste.Base.{In}
use expense_management_syste.Db.Moments.{Waits, Between}
use expense_management_syste.Db.{World}
use expense_management_syste.Tests.Data.{company, request}
use expense_management_syste.Tests.Listings.{server, alone}

ann_under_bob : is_in_subtree server 2 1 10 none alone ≡ (ok true, alone)
unfolding is_in_subtree select_in_subtree subtree level anchor reports_of query pause run ◌>>=◌ pure
ann_under_bob = refl

is_in_subtree-Reaches_example :
    ((true ≡ true) ↔ ((◌≡◌ {A = ℕ} 2 1) ⊎ Reaches server alone.db.users none 2 10 1))
    × Waits alone alone
is_in_subtree-Reaches_example = is_in_subtree-Reaches server 2 1 10 none alone ann_under_bob

-- With room for two nodes, the LIMIT is used up by a row that the cycle repeats: eve is missing, and
-- the answer is not marked as truncated.
cycle_hides_clip :
    let out = get_org_subtree server 2 2 2 none alone in
    (found : OrgNodeResult) × (out ≡ (ok found, alone))
    × (found.truncated ≡ false)
    × (any (λ u. u.id == 3) found.nodes ≡ false)
    × (any (λ u. u.id == 3) (subtree server company.users none 2 2) ≡ true)
unfolding get_org_subtree select_subtree dedupe clip subtree level anchor reports_of query pause run
    ◌>>=◌ pure
cycle_hides_clip = (_, refl, refl, refl, refl)

bob_opens_ann :
    (target : User) × (get_org_user server
        (request 2 Role.manager)
        (QueryValue.text (codes "1"))
        alone
      ≡ (ok target, alone))
unfolding get_org_user check_visible check_under find_org_user select_org_user is_in_subtree
    select_in_subtree subtree level anchor reports_of demo_scope parse_positive_id query pause run
    lift guard or_raise pure ◌>>=◌
bob_opens_ann = (_, refl)

get_org_user-access_example :
    (session : Option Text) × (demo_scope (some (request 2 Role.manager).user) ≡ ok session)
    × (parse_positive_id (QueryValue.text (codes "1")) "id" ≡ ok bob_opens_ann.0.id)
    × Visible server (request 2 Role.manager).user bob_opens_ann.0
    × ((v : World) × Between alone alone v × In bob_opens_ann.0 v.db.users)
    × HasUnder server (request 2 Role.manager) session bob_opens_ann.0 alone.db
get_org_user-access_example =
    get_org_user-access server (request 2 Role.manager) (QueryValue.text (codes "1")) alone
      bob_opens_ann.1
