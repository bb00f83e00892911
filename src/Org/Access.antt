-- ===== src/Org/Access.antt =====
-- Whom `getOrgUser` of server/src/controllers/orgController.ts shows.
use mathlib.Core.Path.{subst}
use expense_management_syste.Base.{
  ℕ, Bool, true, false, ◌||◌, ◌&&◌, Option, some, ◌≡◌, sym, ap, ◌∙◌, ◌⊎◌, inl, inr, arith, List,
  Text, In, find?, ◌==◌, ==_iff, Bool-cases, if◌then◌else◌, [], ◌∷◌,
}
use expense_management_syste.Errors.{Result, ok, err, not_found, insufficient_permissions}
use expense_management_syste.Types.{User, Role, role_eq}
use expense_management_syste.Db.{Db, World, pure, lift, or_raise}
use expense_management_syste.Db.Moments.{
  Waits, Waits-of_eq, Waits-trans, IsSelect, select-Ends, Between,
}
use expense_management_syste.Db.Runs.{Ends, >>=-Ends, lift-Ends, or_raise-Ends, guard-Ends}
use expense_management_syste.Db.Atomic.{pure_world}
use expense_management_syste.Requests.{QueryValue, parse_positive_id}
use expense_management_syste.Auth.{Request, demo_scope}
use expense_management_syste.Listings.{Server, in_scope}
use expense_management_syste.Listings.Scope.{Visible, in_scope-Visible}
use expense_management_syste.Org.Tree.{
  org_tree_max_depth, select_org_user, find_org_user, is_in_subtree,
}
use expense_management_syste.Org.Chains.{Reaches, is_in_subtree-Reaches}
use expense_management_syste.Org.Handlers.{check_under, check_visible, get_org_user}

-- The caller is an admin, asks for itself, or has the user under it in these tables.
abbrev pub HasUnder : Server → Request → Option Text → User → Db → Type 0
HasUnder server req session target d =
    (role_eq req.user.role Role.admin ≡ true)
    ⊎ (target.id ≡ req.user.id)
    ⊎ Reaches server d.users session req.user.id org_tree_max_depth target.id

find_inv :
    (test : User → Bool) (users : List User) {u : User} → find? test users ≡ some u → test u ≡ true
find_inv test [] h = absurd cc
find_inv test (x ∷ users) {u} h = elim (Bool-cases (test x)) [
  | inl passes ↦ let same : x ≡ u = ground (arith, h, passes) in ap test (sym same) ∙ passes
  | inr fails ↦ find_inv test users (ground (arith, h, fails))
]

find-In :
    (test : User → Bool) (users : List User) {u : User} → find? test users ≡ some u → In u users
find-In test [] h = absurd cc
find-In test (x ∷ users) {u} h = elim (Bool-cases (test x)) [
  | inl passes ↦ let same : x ≡ u = ground (arith, h, passes) in inl (sym same)
  | inr fails ↦ inr (find-In test users (ground (arith, h, fails)))
]

module _ (server : Server) (req : Request) where
  select_org_user-IsSelect :
      (k : ℕ) (session : Option Text) → IsSelect (select_org_user server k session)
  unfolding select_org_user
  select_org_user-IsSelect k session = record { leaves = λ now d x h. ground (arith, h) }

  -- The user that was found has the id and is in the scope.
  find_org_user-passes :
      (k : ℕ) (session : Option Text) (u : User) (w : World) {found : Option User} {w' : World}
      → Ends (find_org_user server k session) w found w'
      → found ≡ some u
      → (((u.id == k) && in_scope server session u) ≡ true) × In u w'.db.users × Waits w w'
  unfolding find_org_user select_org_user
  find_org_user-passes k session u w {found} {w'} h same =
      let (stmt, waits) =
        select-Ends (select_org_user server k session) w (select_org_user-IsSelect k session) h in
      let test : User → Bool = λ v. (v.id == k) && in_scope server session v in
      let answer : find? test w'.db.users ≡ found = cc in
      (find_inv test w'.db.users (answer ∙ same), find-In test w'.db.users (answer ∙ same), waits)

  check_under-Reaches :
      (session : Option Text) (target : User) (w : World) {u : Unit {0}} {w' : World}
      → Ends (check_under server req session target) w u w'
      → HasUnder server req session target w'.db × Waits w w'
  unfolding check_under
  check_under-Reaches session target w {u} {w'} h =
      let (allowed, w1, asked, guarded) =
        >>=-Ends (is_in_subtree server req.user.id target.id org_tree_max_depth session) _ w h in
      let (decided, waits) =
        is_in_subtree-Reaches server req.user.id target.id org_tree_max_depth session w asked in
      let (agreed, last) = guard-Ends allowed insufficient_permissions w1 guarded in
      (
        elim (decided.0 agreed) [
          | inl self ↦ inr (inl (sym self))
          | inr reached ↦ inr (
              inr (
                subst
                  (λ (v : World).
                    Reaches server v.db.users session req.user.id org_tree_max_depth target.id)
                  last reached))
        ],
        Waits-trans waits (Waits-of_eq last),
      )

  check_visible-HasUnder :
      (session : Option Text) (target : User) (w : World) {u : Unit {0}} {w' : World}
      → Ends (check_visible server req session target) w u w'
      → HasUnder server req session target w'.db × Waits w w'
  unfolding check_visible
  check_visible-HasUnder session target w {u} {w'} h =
      elim (Bool-cases (role_eq req.user.role Role.admin)) [
        | inl admin ↦
            let skipped : (role_eq req.user.role Role.admin || (target.id == req.user.id)) ≡ true =
              ground (arith, admin) in
            (inl admin, at_once skipped)
        | inr other ↦ elim (Bool-cases (target.id == req.user.id)) [
          | inl self ↦
              let skipped : (role_eq req.user.role Role.admin || (target.id == req.user.id))
                  ≡ true =
                ground (arith, other, self) in
              (inr (inl ((==_iff target.id req.user.id).0 self)), at_once skipped)
          | inr apart ↦
              let skipped : (role_eq req.user.role Role.admin || (target.id == req.user.id))
                  ≡ false =
                ground (arith, other, apart) in
              let asked =
                subst
                  (λ (b : Bool).
                    Ends (if b then pure tt else check_under server req session target) w u w')
                  skipped h in
              check_under-Reaches session target w asked
        ]
      ]
    where
      at_once : (role_eq req.user.role Role.admin || (target.id == req.user.id)) ≡ true → Waits w w'
      at_once skipped =
          let done =
            subst
              (λ (b : Bool).
                Ends (if b then pure tt else check_under server req session target) w u w')
              skipped h in
          Waits-of_eq (pure_world tt done)

  -- `getOrgUser` writes nothing, and answers with a user of the tables as they were at a moment of the
  -- request, with the id of the path, that is in the scope of the caller: a demo user of the caller's own session, or no demo
  -- user for a caller outside any. And the caller is an admin, or that user, or in the tables as they are
  -- at the end a chain of at most 10 managers in the scope leads from the caller down to it.
  pub get_org_user-access :
      (raw_id : QueryValue) (w : World) {target : User} {w' : World}
      → Ends (get_org_user server req raw_id) w target w'
      → (session : Option Text) × (demo_scope (some req.user) ≡ ok session)
        × (parse_positive_id raw_id "id" ≡ ok target.id)
        × Visible server req.user target
        × ((v : World) × Between w w' v × In target v.db.users)
        × HasUnder server req session target w'.db
  unfolding get_org_user pure
  get_org_user-access raw_id w {target} {w'} h =
      let (k, w1, parsed, h1) = >>=-Ends (lift (parse_positive_id raw_id "id")) _ w h in
      let (session, w2, scoped, h2) = >>=-Ends (lift (demo_scope (some req.user))) _ w1 h1 in
      let (found, w3, read, h3) = >>=-Ends (find_org_user server k session) _ w2 h2 in
      let (u, w4, there, h4) = >>=-Ends (or_raise found (not_found "User")) _ w3 h3 in
      let (_, w5, checked, answer) = >>=-Ends (check_visible server req session u) _ w4 h4 in
      let (some_user, still4) = or_raise-Ends found (not_found "User") w3 there in
      let (passes, listed, waits) = find_org_user-passes k session u w2 read some_user in
      let first : w ≡ w2 =
        (lift-Ends (parse_positive_id raw_id "id") w parsed).1
        ∙ (lift-Ends (demo_scope (some req.user)) w1 scoped).1 in
      let scope_ok = (lift-Ends (demo_scope (some req.user)) w1 scoped).0 in
      let (under, later) = check_visible-HasUnder session u w4 checked in
      let last : w5 ≡ w' = ap (λ (x : Result User × World). x.1) answer in
      let named : k ≡ u.id = sym ((==_iff u.id k).0 (ground (arith, passes))) in
      let same : u ≡ target =
        ap (λ (x : Result User × World). elim x.0 [ ok v ↦ v | err e ↦ u ]) answer in
      (
        session,
        scope_ok,
        (lift-Ends (parse_positive_id raw_id "id") w parsed).0
            ∙ ap ok (named ∙ ap (λ (v : User). v.id) same),
        subst (Visible server req.user) same
            (in_scope-Visible server req.user session u scope_ok (ground (arith, passes))),
        (
          w3,
          record {
            since = Waits-trans (Waits-of_eq first) waits;
            until = Waits-trans (Waits-of_eq still4) (Waits-trans later (Waits-of_eq last));
          },
          subst (λ (x : User). In x w3.db.users) same listed,
        ),
        subst (λ (x : User). HasUnder server req session x w'.db) same
            (subst (λ (v : World). HasUnder server req session u v.db) last under),
      )
