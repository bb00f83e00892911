-- ===== src/Org/Subtree.antt =====
-- What `getOrgSubtree` of server/src/models/user.ts shows.
use expense_management_syste.Base.{
  ℕ, ◌+◌, ◌≤◌, ◌<◌, true, false, Option, List, [], ◌∷◌, ◌≡◌, ◌⊎◌, Text, ◌==◌, any, length, All,
}
use expense_management_syste.Types.{User}
use expense_management_syste.Db.{Db}
use expense_management_syste.Listings.{Server}
use expense_management_syste.Org.Tree.{OrgNodeResult, subtree}
use expense_management_syste.Org.Chains.{Chain}

-- No two users of the list have the same id.
abbrev pub Distinct : List User → Type 0
Distinct [] = Unit
Distinct (u ∷ l) = All (λ (v : User). (v.id == u.id) ≡ false) l × Distinct l

-- Every row has its id among the nodes.
abbrev pub Covers : List User → List User → Type 0
Covers nodes rows = All (λ (u : User). any (λ v. v.id == u.id) nodes ≡ true) rows

-- The nodes are different users on chains down from the root, at most `cap` of them; and they are all
-- of the rows of the query, unless the answer says that it is truncated, or the query had more rows
-- than its LIMIT lets through.
pub record Shows (server : Server) (cap root_id max_depth : ℕ) (scope : Option Text) (d : Db)
    (found : OrgNodeResult) : Type 0 where
  pub distinct : Distinct found.nodes
  pub on_chains :
      All (λ u. (n : ℕ) × (n ≤ max_depth) × Chain server d.users scope root_id n u) found.nodes
  pub within_cap : length found.nodes ≤ cap
  pub complete :
      (found.truncated ≡ true)
      ⊎ (cap + 1 < length (subtree server d.users scope root_id max_depth))
      ⊎ Covers found.nodes (subtree server d.users scope root_id max_depth)
