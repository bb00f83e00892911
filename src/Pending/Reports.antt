-- ===== src/Pending/Reports.antt =====
-- `findByEntraIds` and `reassignManagerForUsers` of server/src/models/user.ts.
use expense_management_syste.Base.{
  ℕ, Bool, false, not, Option, none, some, List, [], ◌∷◌, Text, any, filter, map, ◌==◌,
  if◌then◌else◌,
}
use expense_management_syste.Types.{User}
use expense_management_syste.Db.{M, pure, ◌>>◌, query, Statement}
use expense_management_syste.Auth.{same_id}
use expense_management_syste.Listings.{Server}

-- `cacheService.invalidateUser`, the part of server/src/services/cacheService.ts that is called here.
pub record UserCache : Type 0 where
  pub invalidate_user : ℕ → M (Unit {0})

-- `entra_id IN (...)`; an id that is missing is NULL, and matches no row.
abbrev pub is_among : Server → List (Option Text) → User → Bool
is_among server ids u =
    any (λ (k : Option Text). elim k [ none ↦ false | some s ↦ server.equal u.entra_id s ]) ids

unfoldable pub select_by_entra_ids : Server → List (Option Text) → Statement (List User)
select_by_entra_ids server ids now d = some (filter (is_among server ids) d.users, d)

-- `findByEntraIds`
unfoldable pub find_by_entra_ids : Server → List (Option Text) → M (List User)
unfolding select_by_entra_ids
find_by_entra_ids server [] = pure []
find_by_entra_ids server (k ∷ ids) = query (select_by_entra_ids server (k ∷ ids))

-- `UPDATE users SET manager_id = ? WHERE id IN (...)`
unfoldable pub set_manager : ℕ → List User → Statement (Unit {0})
set_manager manager_id moved now d = some (
  tt,
  record d {
    users =
        map
          (λ (u : User).
            if any (λ (v : User). v.id == u.id) moved
            then record u { manager_id = some manager_id }
            else u)
          d.users;
  },
)

module _ (cache : UserCache) where
  -- `if (user.manager_id) cacheService.invalidateUser(user.manager_id)`
  abbrev invalidate_manager : Option ℕ → M (Unit {0})
  invalidate_manager none = pure tt
  invalidate_manager (some k) = if k == 0 then pure tt else cache.invalidate_user k

  unfoldable pub invalidate_all : List User → M (Unit {0})
  invalidate_all [] = pure tt
  invalidate_all (u ∷ users) =
      cache.invalidate_user u.id >> (invalidate_manager u.manager_id >> invalidate_all users)

  abbrev pub others_of : ℕ → List User → List User
  others_of manager_id = filter λ (u : User). not (same_id u.manager_id manager_id)

  -- `reassignManagerForUsers`
  unfoldable pub reassign_manager_for_users : List User → ℕ → M (Unit {0})
  unfolding set_manager invalidate_all
  reassign_manager_for_users users manager_id = elim (others_of manager_id users) [
    | [] ↦ pure tt
    | u ∷ rest ↦
        query (set_manager manager_id (u ∷ rest))
        >> (cache.invalidate_user manager_id >> invalidate_all (u ∷ rest))
  ]
