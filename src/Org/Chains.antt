-- ===== src/Org/Chains.antt =====
-- The recursive queries of server/src/models/user.ts against chains of managers.
use mathlib.Core.Path.{subst}
use expense_management_syste.Base.{
  ap, ℕ, zero, suc, ◌≤◌, Bool, true, false, ◌&&◌, Option, some, List, ◌≡◌, refl, sym, ◌∙◌, ◌↔◌, ◌⊎◌,
  inl, inr, arith, Text, ◌==◌, any, In, In-filter, In-append, In-flat, any-In, Bool-cases,
  if◌then◌else◌, ==_iff,
}
use expense_management_syste.Errors.{Result}
use expense_management_syste.Types.{User}
use expense_management_syste.Db.{World, pure, query}
use expense_management_syste.Db.Moments.{Waits, Waits-of_eq, IsSelect, select-Ends}
use expense_management_syste.Db.Runs.{Ends}
use expense_management_syste.Listings.{Server, in_scope}
use expense_management_syste.Org.Tree.{
  reports_to, anchor, reports_of, level, subtree, select_in_subtree, is_in_subtree,
}

module _ (server : Server) (users : List User) (scope : Option Text) (root_id : ℕ) where
  -- The user is `n` managers below the root, all of them in the scope.
  abbrev pub Chain : ℕ → User → Type 0
  Chain zero u = In u users × (u.id ≡ root_id) × (in_scope server scope u ≡ true)
  Chain (suc n) u =
      In u users
      × (in_scope server scope u ≡ true)
      × ((m : User) × (u.manager_id ≡ some m.id) × Chain n m)

  -- A user of that id is at most `depth` managers below the root.
  abbrev pub Reaches : ℕ → ℕ → Type 0
  Reaches depth target_id = (n : ℕ) × (u : User) × (n ≤ depth) × (u.id ≡ target_id) × Chain n u

  reports_to_iff : (s u : User) → (reports_to s u ≡ true) ↔ (u.manager_id ≡ some s.id)
  reports_to_iff s u = ground arith

  level-Chain : (n : ℕ) (u : User) → In u (level server users scope root_id n) ↔ Chain n u
  unfolding level anchor reports_of
  level-Chain zero u =
      let split = In-filter (λ v. (v.id == root_id) && in_scope server scope v) u users in
      (
        λ h.
            let (there, passes) = split.0 h in
            (there, ground (arith, passes), ground (arith, passes)),
        λ (there, is_root, inside). split.1 (there, ground (arith, is_root, inside)),
      )
  level-Chain (suc n) u =
      let split = In-flat (reports_of server users scope) u (level server users scope root_id n) in
      let row = λ (m : User). In-filter (λ v. reports_to m v && in_scope server scope v) u users in
      (
        λ h.
            let (m, above, hm) = split.0 h in
            let (there, passes) = (row m).0 hm in
            let reports : reports_to m u ≡ true = ground (arith, passes) in
            (
              there,
              ground (arith, passes),
              (m, (reports_to_iff m u).0 reports, (level-Chain n m).0 above),
            ),
        λ (there, inside, (m, managed, above)).
            let reports = (reports_to_iff m u).1 managed in
            split.1
              (m, (level-Chain n m).1 above, (row m).1 (there, ground (arith, reports, inside))),
      )

  -- The rows of the query are the users on chains down to its depth.
  pub subtree-Chain :
      (depth : ℕ) (u : User)
      → In u (subtree server users scope root_id depth) ↔ ((n : ℕ) × (n ≤ depth) × Chain n u)
  unfolding subtree
  subtree-Chain zero u =
      let rows = level-Chain zero u in
      (
        λ h. (0, omega arith, rows.0 h),
        λ (n, fits, chain).
            let same : n ≡ 0 = omega arith in rows.1 (subst (λ k. Chain k u) same chain),
      )
  subtree-Chain (suc depth) u =
      let rest = subtree-Chain depth u in
      let rows = level-Chain (suc depth) u in
      let split =
        In-append u (subtree server users scope root_id depth)
          (level server users scope root_id (suc depth)) in
      (
        λ h. elim (split.0 h) [
          | inl above ↦ let (n, fits, chain) = rest.0 above in (n, omega arith, chain)
          | inr here ↦ (suc depth, omega arith, rows.0 here)
        ],
        λ (n, fits, chain). elim (Bool-cases (n == suc depth)) [
          | inl last ↦
              let same : n ≡ suc depth = ground (arith, last) in
              split.1 (inr (rows.1 (subst (λ k. Chain k u) same chain)))
          | inr other ↦
              let less : n ≤ depth = ground (arith, other, fits) in
              split.1 (inl (rest.1 (n, less, chain)))
        ],
      )

  -- The rows have a user of that id exactly when a chain reaches one.
  any-Reaches :
      (depth target_id : ℕ)
      → (any (λ u. u.id == target_id) (subtree server users scope root_id depth) ≡ true)
        ↔ Reaches depth target_id
  any-Reaches depth target_id =
      let found =
        any-In (λ (u : User). u.id == target_id) (subtree server users scope root_id depth) in
      (
        λ h.
            let (u, there, same) = found.0 h in
            let (n, fits, chain) = (subtree-Chain depth u).0 there in
            (n, u, fits, (==_iff u.id target_id).0 same, chain),
        λ (n, u, fits, same, chain).
            found.1 (u, (subtree-Chain depth u).1 (n, fits, chain), (==_iff u.id target_id).1 same),
      )

select_in_subtree-IsSelect :
    (server : Server) (root_id target_id max_depth : ℕ) (scope : Option Text)
    → IsSelect (select_in_subtree server root_id target_id max_depth scope)
unfolding select_in_subtree
select_in_subtree-IsSelect server root_id target_id max_depth scope = record {
  leaves = λ now d x h. ground (arith, h);
}

-- `isInSubtree` writes nothing and decides, on the tables as they are at its end, whether the target is the root or a
-- user whom a chain of at most `max_depth` managers leads down to from the root, all of them users of
-- the scope. Cycles of managers change nothing of that.
pub is_in_subtree-Reaches :
    (server : Server) (root_id target_id max_depth : ℕ) (scope : Option Text) (w : World) {b : Bool}
    {w' : World}
    → Ends (is_in_subtree server root_id target_id max_depth scope) w b w'
    → ((b ≡ true)
        ↔ ((root_id ≡ target_id) ⊎ Reaches server w'.db.users scope root_id max_depth target_id))
      × Waits w w'
unfolding is_in_subtree select_in_subtree pure
is_in_subtree-Reaches server root_id target_id max_depth scope w {b} {w'} h =
    by_root (root_id == target_id) refl h
  where
    asked : World → Result Bool × World
    asked = query (select_in_subtree server root_id target_id max_depth scope)

    by_root :
        (same : Bool)
        → (root_id == target_id) ≡ same
        → Ends (if same then pure true else asked) w b w'
        → ((b ≡ true) ↔ (
            (root_id ≡ target_id) ⊎ Reaches server w'.db.users scope root_id max_depth target_id))
          × Waits w w'
    by_root true is run =
        let yes_answer : b ≡ true = cc in
        (
          (λ _. inl ((==_iff root_id target_id).0 is), λ _. yes_answer),
          Waits-of_eq (ap (λ (x : Result Bool × World). x.1) run),
        )
    by_root false is run =
        let (stmt, waits) =
          select-Ends (select_in_subtree server root_id target_id max_depth scope) w
            (select_in_subtree-IsSelect server root_id target_id max_depth scope) run in
        let rows = any-Reaches server w'.db.users scope root_id max_depth target_id in
        let answer : any (λ (u : User). u.id == target_id)
              (subtree server w'.db.users scope root_id max_depth)
            ≡ b =
          cc in
        (
          (
            λ found. inr (rows.0 (answer ∙ found)),
            λ h'. elim h' [
              | inl same ↦ absurd (let is' = (==_iff root_id target_id).1 same in cc)
              | inr reached ↦ sym answer ∙ rows.1 reached
            ],
          ),
          waits,
        )
