-- ===== src/Auth/Evidence.antt =====
-- On what evidence server/src/services/managerAuthorization.ts allows a decision.
use expense_management_syste.Base.{
  ℕ, Bool, true, false, ◌||◌, Option, none, some, List, ◌≡◌, refl, ◌∙◌, arith, any, inl, inr, ◌⊎◌,
  if◌then◌else◌, String,
}
use expense_management_syste.Errors.{Error, ok}
use expense_management_syste.Types.{User}
use expense_management_syste.Requests.{to_lower}
use expense_management_syste.Db.{World, M, pure, ◌>>=◌, attempt, find_user}
use expense_management_syste.Db.Runs.{Ends, >>=-Ends, attempt-Ends}
use expense_management_syste.Db.Moments.{
  Waits, Waits-refl, Waits-of_eq, Waits-trans, Between, Between-widen, Reads, Reads-Ends, reads,
}
use expense_management_syste.Db.Atomic.{pure_value, pure_world}
use expense_management_syste.Users
use expense_management_syste.Auth.Principal.{Request}
use expense_management_syste.Auth.Roles.{truthy, is_nonempty}
use expense_management_syste.Auth.Graph.{
  GraphUser, GraphApi, has_id, is_manager_of, is_manager_of-Reads,
}
use expense_management_syste.Auth.Manager.{
  Relationship, get_bearer_token, same_id, same_text, is_admin, demo_relationship, is_stub,
  allow_from_database_cache, tokenless, outage, from_graph, live_check, real_relationship,
  verify_manager_relationship,
}

-- The submitter is in the caller's demo session.
pub record SameWorkspace (req : Request) (submitter : User) : Type 0 where
  pub is_demo : submitter.is_demo ≡ true
  pub session : truthy req.user.demo_session_id ≡ true
  pub same : same_text submitter.demo_session_id req.user.demo_session_id ≡ true
  pub authority : is_admin req || same_id submitter.manager_id req.user.id ≡ true

demo_relationship-SameWorkspace :
    (req : Request) (u : User)
    → demo_relationship req (some u) ≡ Relationship.allowed
    → SameWorkspace req u
unfolding demo_relationship
demo_relationship-SameWorkspace req u h = record {
  is_demo = ground arith;
  session = ground arith;
  same = ground arith;
  authority = ground arith;
}

-- Microsoft Graph was asked between `w` and `w'`, with the caller's token and without the cache, and
-- answered that the user reports to the caller.
pub record Reports (graph : GraphApi) (req : Request) (u : User) (w w' : World) : Type 0 where
  pub asked : World
  pub answered : World
  pub reports : List GraphUser
  pub when : Between w w' asked
  pub answer :
      Ends
        (graph.get_direct_reports req.user.id (get_bearer_token req.authorization) true)
        asked
        reports
        answered
  pub one_of : any (has_id (to_lower u.entra_id)) reports ≡ true

tokenless-allowed :
    (req : Request) (u : User)
    → tokenless req live_check u ≡ Relationship.allowed
    → (is_stub req ≡ true) × (same_id u.manager_id req.user.id ≡ true)
unfolding tokenless allow_from_database_cache
tokenless-allowed req u h = ground arith

outage-allowed :
    (req : Request) (u : User) (e : Error)
    → outage req live_check u e ≡ Relationship.allowed
    → (is_stub req ≡ true) × (same_id u.manager_id req.user.id ≡ true)
unfolding outage allow_from_database_cache
outage-allowed req u e h = ground arith

denied_ne_allowed : {reason : String} → Relationship.denied reason ≡ Relationship.allowed → ⊥
denied_ne_allowed h = ground (arith, h)

demo_relationship-some :
    (req : Request) (o : Option User)
    → demo_relationship req o ≡ Relationship.allowed
    → (u : User) × (o ≡ some u) × SameWorkspace req u
unfolding demo_relationship
demo_relationship-some req none h = absurd (denied_ne_allowed h)
demo_relationship-some req (some u) h = (u, refl, demo_relationship-SameWorkspace req u h)

from_graph-allowed : (b : Bool) → from_graph b ≡ Relationship.allowed → b ≡ true
from_graph-allowed b h = ground arith

-- At a moment between `w` and `w'` the table of users had this user under that id.
pub FoundUser : ℕ → User → World → World → Type 0
FoundUser k u w w' = (v : World) × Between w w' v × (find_user k v.db.users ≡ some u)

find_by_id-FoundUser :
    (k : ℕ) (w : World) {o : Option User} {w1 w' : World} {u : User}
    → Ends (Users.find_by_id k) w o w1
    → o ≡ some u
    → Waits w1 w'
    → FoundUser k u w w'
unfolding FoundUser
find_by_id-FoundUser k w {o} {w1} h found rest =
    let (row, before) = Users.find_by_id-found k w h in
    (w1, record { since = before; until = rest }, row ∙ found)

-- What stands behind an allowed check of a caller in no demo session who is no admin: Graph, or, with
-- stub authentication outside production, the manager that the database has.
pub Vouched : GraphApi → Request → User → World → World → Type 0
Vouched graph req u w w' =
    ((is_stub req ≡ true) × (same_id u.manager_id req.user.id ≡ true)) ⊎ Reports graph req u w w'

abbrev pub Evidence : GraphApi → Request → ℕ → World → World → Type 0
Evidence graph req employee w w' =
    ((req.user.demo_mode ≡ true) × (u : User) × FoundUser employee u w w' × SameWorkspace req u)
    ⊎ ((req.user.demo_mode ≡ false)
        × ((is_admin req ≡ true)
            ⊎ ((u : User) × FoundUser employee u w w' × Vouched graph req u w w')))

FoundUser-widen :
    (k : ℕ) (u : User) {a w w' b : World}
    → Waits a w
    → Waits w' b
    → FoundUser k u w w'
    → FoundUser k u a b
unfolding FoundUser
FoundUser-widen k u p q (v, m, row) = (v, Between-widen p q m, row)

Vouched-widen :
    (graph : GraphApi) (req : Request) (u : User) {a w w' b : World}
    → Waits a w
    → Waits w' b
    → Vouched graph req u w w'
    → Vouched graph req u a b
unfolding Vouched
Vouched-widen graph req u p q (inl stub) = inl stub
Vouched-widen graph req u p q (inr r) = inr (record {
  asked = r.asked;
  answered = r.answered;
  reports = r.reports;
  when = Between-widen p q r.when;
  answer = r.answer;
  one_of = r.one_of;
})

pub Evidence-widen :
    (graph : GraphApi) (req : Request) (employee : ℕ) {a w w' b : World}
    → Waits a w
    → Waits w' b
    → Evidence graph req employee w w'
    → Evidence graph req employee a b
Evidence-widen graph req employee p q (inl (demo, u, found, same)) =
    inl (demo, u, FoundUser-widen employee u p q found, same)
Evidence-widen graph req employee p q (inr (real, inl admin)) = inr (real, inl admin)
Evidence-widen graph req employee p q (inr (real, inr (u, found, vouched))) =
    inr (real, inr (u, FoundUser-widen employee u p q found, Vouched-widen graph req u p q vouched))

module _ (graph : GraphApi) (req : Request) where
  graph_check-Reports :
      (u : User) (w : World) {w' : World}
      → Ends
          (is_manager_of graph req.user.id u.entra_id (get_bearer_token req.authorization) true
            >>= λ b. pure (from_graph b))
          w
          Relationship.allowed
          w'
      → Reports graph req u w w'
  unfolding is_manager_of
  graph_check-Reports u w {w'} h =
      let (b, w1, p, q) =
        >>=-Ends
          (is_manager_of graph req.user.id u.entra_id (get_bearer_token req.authorization) true)
          (λ b. pure (from_graph b)) w h in
      let (reports, w2, p2, q2) =
        >>=-Ends (graph.get_direct_reports req.user.id (get_bearer_token req.authorization) true) _
          w p in
      let yes : b ≡ true = from_graph-allowed b (pure_value w1 q) in
      record {
        asked = w;
        answered = w2;
        reports = reports;
        when = record {
          since = Waits-refl w;
          until =
              Waits-trans
                (Reads-Ends
                  (is_manager_of-Reads graph req.user.id u.entra_id
                    (get_bearer_token req.authorization) true)
                  p)
                (Waits-of_eq (pure_world (from_graph b) q));
        };
        answer = p2;
        one_of = pure_value w2 q2 ∙ yes;
      }

  real_relationship-Vouched :
      (o : Option User) (w : World) {w' : World}
      → Ends (real_relationship graph req live_check o) w Relationship.allowed w'
      → (u : User) × (o ≡ some u) × Vouched graph req u w w'
  unfolding real_relationship Vouched
  real_relationship-Vouched none w h = absurd (denied_ne_allowed (pure_value w h))
  real_relationship-Vouched (some u) w {w'} h =
      (u, refl, by_token (is_nonempty (get_bearer_token req.authorization)) h)
    where
      asked : M Relationship
      asked =
          is_manager_of graph req.user.id u.entra_id (get_bearer_token req.authorization) true
          >>= λ b. pure (from_graph b)

      by_token :
          (b : Bool)
          → Ends
              (if b
                then attempt asked (λ e. pure (outage req live_check u e))
                else pure (tokenless req live_check u))
              w
              Relationship.allowed
              w'
          → Vouched graph req u w w'
      by_token false h = inl (tokenless-allowed req u (pure_value w h))
      by_token true h = elim (attempt-Ends asked (λ e. pure (outage req live_check u e)) w h) [
        | inl answered ↦ inr (graph_check-Reports u w answered)
        | inr (e, w1, fell) ↦ inl (outage-allowed req u e (pure_value w1 fell))
      ]

  real_relationship-Reads : (o : Option User) → Reads (real_relationship graph req live_check o)
  unfolding real_relationship
  real_relationship-Reads none = search reads
  real_relationship-Reads (some u) = search (reads, is_manager_of-Reads)

  pub verify_manager_relationship-Reads :
      (employee : ℕ) → Reads (verify_manager_relationship graph req employee live_check)
  unfolding verify_manager_relationship
  verify_manager_relationship-Reads employee =
      search (reads, Users.find_by_id-Reads, real_relationship-Reads)

  -- Who may decide on, and read, the expenses of an employee. When the check with live options allows
  -- it, then in the tables as they were at a moment of this check, or by an answer that Graph gave during
  -- it: the caller is in a demo session, and the employee is a demo user of the same session whom the
  -- caller manages, or the caller is its admin; or the caller is in no demo session, and is an admin, or
  -- Graph answered during this check that the employee reports to the caller, or the database names the
  -- caller as manager and the caller has stub authentication outside production.
  pub verify_manager_relationship-Evidence :
      (employee : ℕ) (w : World) (w' : World)
      → verify_manager_relationship graph req employee live_check w ≡ (ok Relationship.allowed, w')
      → Evidence graph req employee w w'
  unfolding verify_manager_relationship
  verify_manager_relationship-Evidence employee w w' = by_mode req.user.demo_mode
    where
      by_role :
          (b : Bool)
          → Ends
              (if b
                then pure Relationship.allowed
                else (Users.find_by_id employee >>= real_relationship graph req live_check))
              w
              Relationship.allowed
              w'
          → (b ≡ true) ⊎ ((u : User) × FoundUser employee u w w' × Vouched graph req u w w')
      by_role true h = inl refl
      by_role false h =
          let (o, w1, p, q) =
            >>=-Ends (Users.find_by_id employee) (real_relationship graph req live_check) w h in
          let (u, found, vouched) = real_relationship-Vouched o w1 q in
          let rest = Reads-Ends (real_relationship-Reads o) q in
          let before = Reads-Ends (Users.find_by_id-Reads employee) p in
          inr (
            u,
            find_by_id-FoundUser employee w p found rest,
            Vouched-widen graph req u before (Waits-refl w') vouched,
          )

      by_mode :
          (b : Bool)
          → Ends
              (if b
                then (Users.find_by_id employee >>= λ submitter.
                    pure (demo_relationship req submitter))
                else if is_admin req
                then pure Relationship.allowed
                else (Users.find_by_id employee >>= real_relationship graph req live_check))
              w
              Relationship.allowed
              w'
          → ((b ≡ true) × (u : User) × FoundUser employee u w w' × SameWorkspace req u)
            ⊎ ((b ≡ false)
                × ((is_admin req ≡ true)
                    ⊎ ((u : User) × FoundUser employee u w w' × Vouched graph req u w w')))
      by_mode false h = inr (refl, by_role (is_admin req) h)
      by_mode true h =
          let (o, w1, p, q) =
            >>=-Ends (Users.find_by_id employee)
              (λ submitter. pure (demo_relationship req submitter)) w h in
          let (u, found, same) = demo_relationship-some req o (pure_value w1 q) in
          let rest = Waits-of_eq (pure_world (demo_relationship req o) q) in
          inl (refl, u, find_by_id-FoundUser employee w p found rest, same)
