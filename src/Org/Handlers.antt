-- ===== src/Org/Handlers.antt =====
-- server/src/controllers/orgController.ts: the tree, and the user behind one of its nodes up to the
-- best-effort enrichment from Graph.
use expense_management_syste.Base.{
  ℕ, Bool, true, false, not, ◌||◌, Option, none, some, List, [], ◌∷◌, Text, any, filter, map, ◌==◌,
  if◌then◌else◌, min, max,
}
use expense_management_syste.Errors.{not_found, insufficient_permissions}
use expense_management_syste.Types.{User, Role, role_eq}
use expense_management_syste.Db.{M, pure, ◌>>=◌, ◌>>◌, lift, guard, or_raise}
use expense_management_syste.Requests.{
  QueryValue, get_single_query_value, parse_positive_id, trim_start, is_digit, digits_from,
}
use expense_management_syste.Auth.{Request, demo_scope}
use expense_management_syste.Listings.{Server}
use expense_management_syste.Org.Tree.{
  OrgNodeResult, max_org_nodes, org_tree_max_depth, get_all_org_nodes, get_org_subtree,
  find_org_user, is_in_subtree,
}

abbrev leading_digits : Text → Text
leading_digits [] = []
leading_digits (c ∷ s) = let rest = leading_digits s in if is_digit c then c ∷ rest else []

abbrev number_or_max : Bool → Text → ℕ
number_or_max negative [] = org_tree_max_depth
number_or_max negative (c ∷ s) =
    if negative then 1 else min (max (digits_from 0 (c ∷ s)) 1) org_tree_max_depth

-- `parseInt(raw, 10)` and the clamp: the sign and the digits at the start are read, and what is not
-- positive becomes 1; without a digit there the depth is the largest.
abbrev signed_depth : Text → ℕ
signed_depth [] = org_tree_max_depth
signed_depth (c ∷ s) =
    if c == b'-'
    then number_or_max true (leading_digits s)
    else if c == b'+'
    then number_or_max false (leading_digits s)
    else number_or_max false (leading_digits (c ∷ s))

abbrev depth_of : Option Text → ℕ
depth_of none = org_tree_max_depth
depth_of (some raw) = signed_depth (trim_start raw)

-- `resolveMaxDepth`
unfoldable pub resolve_max_depth : QueryValue → M ℕ
unfolding get_single_query_value
resolve_max_depth max_depth = do
  raw ← lift (get_single_query_value max_depth "maxDepth")
  pure (depth_of raw)

-- `data` of the answer of `getOrgTree`, less the freshness that the client shows.
pub record OrgTree : Type 0 where
  pub for_admin : Bool
  pub root_ids : List ℕ
  pub truncated : Bool
  pub nodes : List User

-- `r.manager_id === null || !idSet.has(r.manager_id)`
abbrev pub is_root : List User → User → Bool
is_root rows r = elim r.manager_id [ none ↦ true | some m ↦ not (any (λ v. v.id == m) rows) ]

module _ (server : Server) (req : Request) where
  abbrev admin_tree : OrgNodeResult → OrgTree
  admin_tree found = record {
    for_admin = true;
    root_ids = map (λ (r : User). r.id) (filter (is_root found.nodes) found.nodes);
    truncated = found.truncated;
    nodes = found.nodes;
  }

  abbrev manager_tree : OrgNodeResult → OrgTree
  manager_tree found = record {
    for_admin = false;
    root_ids = req.user.id ∷ [];
    truncated = found.truncated;
    nodes = found.nodes;
  }

  unfoldable pub whole_tree : Option Text → M OrgTree
  unfolding get_all_org_nodes
  whole_tree session = do
    found ← get_all_org_nodes server max_org_nodes session
    pure (admin_tree found)

  unfoldable pub own_tree : QueryValue → Option Text → M OrgTree
  unfolding resolve_max_depth get_org_subtree
  own_tree max_depth session = do
    depth ← resolve_max_depth max_depth
    found ← get_org_subtree server max_org_nodes req.user.id depth session
    pure (manager_tree found)

  -- `getOrgTree`
  unfoldable pub get_org_tree : QueryValue → M OrgTree
  unfolding whole_tree own_tree
  get_org_tree max_depth = do
    session ← lift (demo_scope (some req.user))
    if role_eq req.user.role Role.admin then whole_tree session else own_tree max_depth session

  unfoldable pub check_under : Option Text → User → M (Unit {0})
  unfolding is_in_subtree
  check_under session target = do
    allowed ← is_in_subtree server req.user.id target.id org_tree_max_depth session
    guard allowed insufficient_permissions

  -- The check of `getOrgUser` on a user that was found
  unfoldable pub check_visible : Option Text → User → M (Unit {0})
  unfolding check_under
  check_visible session target =
      if role_eq req.user.role Role.admin || (target.id == req.user.id)
      then pure tt
      else check_under session target

  -- `getOrgUser` up to the row that its answer is made from
  unfoldable pub get_org_user : QueryValue → M User
  unfolding check_visible find_org_user
  get_org_user raw_id = do
    target_id ← lift (parse_positive_id raw_id "id")
    session ← lift (demo_scope (some req.user))
    found ← find_org_user server target_id session
    target ← or_raise found (not_found "User")
    check_visible session target
    pure target
