-- ===== src/Org/Tree.antt =====
-- The recursive queries of server/src/models/user.ts over `users.manager_id`.
use expense_management_syste.Base.{
  ℕ, zero, suc, ◌+◌, Bool, true, false, not, ◌&&◌, Option, none, some, List, [], ◌∷◌, ◌++◌, Text,
  ltb, ◌==◌, any, filter, find?, flat, length, take, sort_by, if◌then◌else◌,
}
use expense_management_syste.Types.{User}
use expense_management_syste.Db.{Statement, M, pure, ◌>>=◌, query}
use expense_management_syste.Listings.{Server, in_scope}

-- `MAX_ORG_NODES` and `ORG_TREE_MAX_DEPTH`
abbrev pub max_org_nodes : ℕ
max_org_nodes = 5000

abbrev pub org_tree_max_depth : ℕ
org_tree_max_depth = 10

-- `u.manager_id = s.id`
abbrev pub reports_to : User → User → Bool
reports_to s u = elim u.manager_id [ none ↦ false | some m ↦ m == s.id ]

-- The nodes of an answer, and whether the cap clipped them.
pub record OrgNodeResult : Type 0 where
  pub nodes : List User
  pub truncated : Bool

-- `new Map` by id: the first row of an id stays.
unfoldable pub dedupe : List User → List User
dedupe [] = []
dedupe (u ∷ rows) = u ∷ filter (λ v. not (v.id == u.id)) (dedupe rows)

-- The nodes up to the cap
unfoldable pub clip : ℕ → List User → OrgNodeResult
clip cap rows =
    let truncated : Bool = ltb cap (length rows) in
    record { nodes = if truncated then take cap rows else rows; truncated = truncated }

module _ (server : Server) (users : List User) (demo_session_id : Option Text) where
  -- The anchor member of the query: the root, when it is in the scope.
  unfoldable pub anchor : ℕ → List User
  anchor root_id = filter (λ u. (u.id == root_id) && in_scope server demo_session_id u) users

  -- The recursive member: who reports to a row, in the scope.
  unfoldable pub reports_of : User → List User
  reports_of s = filter (λ u. reports_to s u && in_scope server demo_session_id u) users

  -- The rows of one depth
  unfoldable pub level : ℕ → ℕ → List User
  unfolding anchor reports_of
  level root_id zero = anchor root_id
  level root_id (suc depth) = flat reports_of (level root_id depth)

  -- The rows of `subtree` down to a depth, each depth after the one above; a row that two of them
  -- reach, as round a cycle, stands there twice.
  unfoldable pub subtree : ℕ → ℕ → List User
  unfolding level
  subtree root_id zero = level root_id zero
  subtree root_id (suc depth) = subtree root_id depth ++ level root_id (suc depth)

-- The query of `getOrgSubtree`, with its LIMIT
unfoldable pub select_subtree : Server → ℕ → ℕ → ℕ → Option Text → Statement (List User)
unfolding subtree
select_subtree server cap root_id max_depth demo_session_id now d =
    some (take (cap + 1) (subtree server d.users demo_session_id root_id max_depth), d)

-- `getOrgSubtree`, with the cap as an argument
unfoldable pub get_org_subtree : Server → ℕ → ℕ → ℕ → Option Text → M OrgNodeResult
unfolding select_subtree dedupe clip
get_org_subtree server cap root_id max_depth demo_session_id = do
  rows ← query (select_subtree server cap root_id max_depth demo_session_id)
  pure (clip cap (dedupe rows))

-- `ORDER BY display_name ASC LIMIT ?` of `getAllOrgNodes`
unfoldable pub select_org_nodes : Server → ℕ → Option Text → Statement (List User)
select_org_nodes server cap demo_session_id now d = some (
  take (cap + 1) (
      sort_by (λ a b. server.before a.display_name b.display_name)
        (filter (in_scope server demo_session_id) d.users)),
  d,
)

-- `getAllOrgNodes`
unfoldable pub get_all_org_nodes : Server → ℕ → Option Text → M OrgNodeResult
unfolding select_org_nodes clip
get_all_org_nodes server cap demo_session_id = do
  rows ← query (select_org_nodes server cap demo_session_id)
  pure (clip cap rows)

-- `findOrgUser`
unfoldable pub select_org_user : Server → ℕ → Option Text → Statement (Option User)
select_org_user server k demo_session_id now d =
    some (find? (λ u. (u.id == k) && in_scope server demo_session_id u) d.users, d)

unfoldable pub find_org_user : Server → ℕ → Option Text → M (Option User)
unfolding select_org_user
find_org_user server k demo_session_id = query (select_org_user server k demo_session_id)

-- The query of `isInSubtree`
unfoldable pub select_in_subtree : Server → ℕ → ℕ → ℕ → Option Text → Statement Bool
unfolding subtree
select_in_subtree server root_id target_id max_depth demo_session_id now d =
    some
      (any (λ u. u.id == target_id) (subtree server d.users demo_session_id root_id max_depth), d)

-- `isInSubtree`
unfoldable pub is_in_subtree : Server → ℕ → ℕ → ℕ → Option Text → M Bool
unfolding select_in_subtree
is_in_subtree server root_id target_id max_depth demo_session_id =
    let asked = query (select_in_subtree server root_id target_id max_depth demo_session_id) in
    if root_id == target_id then pure true else asked
