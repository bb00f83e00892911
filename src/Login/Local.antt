-- ===== src/Login/Local.antt =====
-- Whom `handleDemoAuth` and `handleStubAuth` of server/src/middleware/auth.ts let in.
use mathlib.Core.Path.{subst}
use expense_management_syste.Base.{
  ℕ, ◌≤◌, not, Bool, true, Option, none, some, ◌≡◌, refl, sym, ap, ◌∙◌, ◌⊎◌, inl, inr, arith, Text,
  Bool-cases, if◌then◌else◌,
}
use expense_management_syste.Errors.{Error, Result, ok, err}
use expense_management_syste.Types.{User, SecurityEventType, SecurityOutcome}
use expense_management_syste.Db.{
  World, M, pure, raise, ◌>>=◌, ◌>>◌, guard, or_raise, current_time, find_user,
}
use expense_management_syste.Db.Runs.{Ends, >>=-Ends, guard-Ends, or_raise-Ends}
use expense_management_syste.Db.Moments.{Waits, Waits-now}
use expense_management_syste.Users.{find_by_id, find_by_id-found}
use expense_management_syste.Auth.{AuthUser}
use expense_management_syste.Login.Outside.{Headers, Environment, DemoClaims, Outside}
use expense_management_syste.Login.Accounts.{record_event}
use expense_management_syste.Login.Sessions.{
  is_local_stub_request, positive_id, check_active, stub_identity, demo_identity, stub_request,
  stub_user, handle_stub_auth, is_demo_user, is_expired, demo_user, demo_claims, handle_demo_auth,
  deactivated, user_event,
}
use expense_management_syste.Login.Authenticate.{answer}

-- The table of users had the row `u` under this id at a moment of the request that began in `w`, before it
-- wrote anything.
abbrev pub IsRow : ℕ → User → World → Type 0
IsRow k u w = (v : World) × Waits w v × (find_user k v.db.users ≡ some u)

-- The session of a demo user has not expired by this time.
abbrev pub Lasts : ℕ → Option ℕ → Type 0
Lasts now none = Unit {0}
Lasts now (some expires) = now ≤ expires

lasting :
    (env : Environment) (outside : Outside) (headers : Headers) (now : ℕ) (o : Option ℕ)
    → not (is_expired env outside headers now o) ≡ true
    → Lasts now o
lasting env outside headers now none h = tt
lasting env outside headers now (some expires) h = ground (arith, h)

pub no_Ends : {A : Type 0} {a : A} (e : Error) (w : World) {w' : World} → ¬ Ends (raise e) w a w'
unfolding raise
no_Ends e w h = cc

module _ (env : Environment) (outside : Outside) (headers : Headers) where
  -- A demo token for an active demo user: demos are on, and the token is one of this server's.
  abbrev pub DemoIdentity : World → AuthUser → Type 0
  DemoIdentity w who =
      (k : ℕ) × (claims : DemoClaims) × (u : User) × (demo_claims env outside headers w.now
        ≡ some claims)
      × (positive_id outside claims.sub ≡ some k)
      × IsRow k u w
      × (u.is_demo ≡ true)
      × (u.is_active ≡ true)
      × Lasts w.now u.demo_expires_at
      × (who ≡ demo_identity u)

  -- The id that the header of a stub request gives.
  abbrev pub StubNames : ℕ → Type 0
  StubNames k =
      (raw : Text) × (headers.stub_user_id ≡ some raw) × (positive_id outside raw ≡ some k)

  -- The header of a request from this machine, in development with stub authentication on.
  abbrev pub StubIdentity : World → AuthUser → Type 0
  StubIdentity w who =
      (env.in_development ≡ true)
      × (env.allow_stub_auth ≡ true)
      × (is_local_stub_request outside headers ≡ true)
      × ((u : User) × (k : ℕ) × StubNames k
          × IsRow k u w
          × (u.is_active ≡ true)
          × (who ≡ stub_identity u))

  find_by_id-IsRow :
      (k : ℕ) (w : World) {found : Option User} {w' : World} (u : User)
      → Ends (find_by_id k) w found w'
      → found ≡ some u
      → IsRow k u w
  find_by_id-IsRow k w {found} {w'} u h same =
      let (row, waits) = find_by_id-found k w h in (w', waits, row ∙ same)

  stub_on :
      ((raw : Text) → stub_request env headers ≡ some raw → env.in_development ≡ true)
      × ((raw : Text) → stub_request env headers ≡ some raw → env.allow_stub_auth ≡ true)
      × ((raw : Text) → stub_request env headers ≡ some raw → headers.stub_user_id ≡ some raw)
  stub_on = (λ raw h. ground (arith, h), λ raw h. ground (arith, h), λ raw h. ground (arith, h))

  check_active-Ends :
      (u : User) (w : World) {x : Unit {0}} {w' : World}
      → Ends (check_active headers u) w x w'
      → u.is_active ≡ true
  unfolding check_active
  check_active-Ends u w {x} {w'} h = elim (Bool-cases u.is_active) [
    | inl active ↦ active
    | inr idle ↦
        let event =
          user_event SecurityEventType.account_deactivated SecurityOutcome.failure u headers in
        let rejected =
          subst
            (λ (b : Bool).
              Ends (if b then pure tt else (record_event event >> raise deactivated)) w x w')
            idle h in
        let (_, w1, _, thrown) =
          >>=-Ends (record_event event) (λ _. raise deactivated) w rejected in
        absurd (no_Ends deactivated w1 thrown)
  ]

  demo_user-DemoIdentity :
      (claims : DemoClaims) (w : World) {who : AuthUser} {w' : World}
      → demo_claims env outside headers w.now ≡ some claims
      → Ends (demo_user env outside headers claims) w who w'
      → DemoIdentity w who
  unfolding demo_user current_time pure
  demo_user-DemoIdentity claims w {who} {w'} there h =
      let (k, w1, named, h1) = >>=-Ends (or_raise (positive_id outside claims.sub) _) _ w h in
      let (found, w2, read, h2) = >>=-Ends (find_by_id k) _ w1 h1 in
      let (_, w3, checked, h3) =
        >>=-Ends (guard (is_demo_user env outside headers found) _) _ w2 h2 in
      let (u, w4, is_row, h4) = >>=-Ends (or_raise found _) _ w3 h3 in
      let (time, w5, clock, h5) = >>=-Ends current_time _ w4 h4 in
      let (_, w6, lasts, h6) = >>=-Ends (guard _ _) _ w5 h5 in
      let (_, w7, active, answer) = >>=-Ends (check_active headers u) _ w6 h6 in
      let same = (or_raise-Ends found _ w3 is_row).0 in
      let is_demo = (guard-Ends (is_demo_user env outside headers found) _ w2 checked).0 in
      let (named_so, still) = or_raise-Ends (positive_id outside claims.sub) _ w named in
      let (_, waits) = find_by_id-found k w1 read in
      let (_, still3) = guard-Ends (is_demo_user env outside headers found) _ w2 checked in
      let (_, still4) = or_raise-Ends found _ w3 is_row in
      let same_time : time ≡ w.now =
        sym (ap (λ (x : Result ℕ × World). elim x.0 [ ok n ↦ n | err e ↦ 0 ]) clock)
        ∙ ap (λ (v : World). v.now) (sym (still3 ∙ still4))
        ∙ Waits-now waits
        ∙ ap (λ (v : World). v.now) (sym still) in
      (
        k,
        claims,
        u,
        there,
        named_so,
        subst (IsRow k u) (sym still) (find_by_id-IsRow k w1 u read same),
        sym (ap (is_demo_user env outside headers) same) ∙ is_demo,
        check_active-Ends u w6 active,
        subst (λ t. Lasts t u.demo_expires_at) same_time
            (lasting env outside headers time u.demo_expires_at (guard-Ends _ _ w5 lasts).0),
        sym (
            ap (λ (x : Result AuthUser × World). elim x.0 [ ok v ↦ v | err e ↦ demo_identity u ])
              answer),
      )

  stub_user-StubIdentity :
      (raw : Text) (w : World) {who : AuthUser} {w' : World}
      → stub_request env headers ≡ some raw
      → Ends (stub_user env outside headers raw) w who w'
      → StubIdentity w who
  unfolding stub_user pure
  stub_user-StubIdentity raw w {who} {w'} there h =
      let (_, w1, here, h1) = >>=-Ends (guard (is_local_stub_request outside headers) _) _ w h in
      let (k, w2, names, h2) = >>=-Ends (or_raise (positive_id outside raw) _) _ w1 h1 in
      let (found, w3, read, h3) = >>=-Ends (find_by_id k) _ w2 h2 in
      let (u, w4, is_row, h4) = >>=-Ends (or_raise found _) _ w3 h3 in
      let (_, w5, active, h5) = >>=-Ends (check_active headers u) _ w4 h4 in
      let (_, w6, _, answer) =
        >>=-Ends
          (record_event
            (user_event SecurityEventType.stub_auth_used SecurityOutcome.success u headers))
          _ w5 h5 in
      let (at_home, still) = guard-Ends (is_local_stub_request outside headers) _ w here in
      let (named_so, still2) = or_raise-Ends (positive_id outside raw) _ w1 names in
      (
        stub_on.0 raw there,
        stub_on.1 raw there,
        at_home,
        (
          u,
          k,
          (raw, stub_on.2 raw there, named_so),
          subst (IsRow k u) (sym (still ∙ still2))
              (find_by_id-IsRow k w2 u read (or_raise-Ends found _ w3 is_row).0),
          check_active-Ends u w4 active,
          sym (
              ap (λ (x : Result AuthUser × World). elim x.0 [ ok v ↦ v | err e ↦ stub_identity u ])
                answer),
        ),
      )

  pub handle_demo_auth-Ends :
      (w : World) {o : Option AuthUser} {w' : World}
      → Ends (handle_demo_auth env outside headers) w o w'
      → ((o ≡ none) × (w ≡ w')) ⊎ ((who : AuthUser) × (o ≡ some who) × DemoIdentity w who)
  unfolding handle_demo_auth current_time pure
  handle_demo_auth-Ends w {o} {w'} h =
      let (now, w1, clock, h1) = >>=-Ends current_time _ w h in
      let same_time : w.now ≡ now =
        ap (λ (x : Result ℕ × World). elim x.0 [ ok n ↦ n | err e ↦ 0 ]) clock in
      let still : w ≡ w1 = ap (λ (x : Result ℕ × World). x.1) clock in
      by_claims (demo_claims env outside headers now) w1 still
        (ap (demo_claims env outside headers) same_time) h1
    where
      by_claims :
          (claims : Option DemoClaims) (w1 : World)
          → w ≡ w1
          → demo_claims env outside headers w.now ≡ claims
          → (let rest : M (Option AuthUser) = elim claims [
            | none ↦ pure none
            | some c ↦ demo_user env outside headers c >>= λ u. pure (some u)
          ] in
              Ends rest w1 o w')
          → ((o ≡ none) × (w ≡ w')) ⊎ ((who : AuthUser) × (o ≡ some who) × DemoIdentity w who)
      by_claims none w1 still same run =
          inl (cc, still ∙ ap (λ (x : Result (Option AuthUser) × World). x.1) run)
      by_claims (some c) w1 still same run =
          let (who, w2, made, answered) =
            >>=-Ends (demo_user env outside headers c) (λ u. pure (some u)) w1 run in
          inr (
            who,
            cc,
            demo_user-DemoIdentity c w same
                (subst (λ v. Ends (demo_user env outside headers c) v who w2) (sym still) made),
          )

  pub handle_stub_auth-Ends :
      (w : World) {o : Option AuthUser} {w' : World}
      → Ends (handle_stub_auth env outside headers) w o w'
      → (o ≡ none) ⊎ ((who : AuthUser) × (o ≡ some who) × StubIdentity w who)
  unfolding handle_stub_auth pure
  handle_stub_auth-Ends w {o} {w'} h = by_request (stub_request env headers) refl h
    where
      by_request :
          (raw : Option Text)
          → stub_request env headers ≡ raw
          → (let rest : M (Option AuthUser) = elim raw [
            | none ↦ pure none
            | some s ↦ stub_user env outside headers s >>= λ u. pure (some u)
          ] in
              Ends rest w o w')
          → (o ≡ none) ⊎ ((who : AuthUser) × (o ≡ some who) × StubIdentity w who)
      by_request none same run = inl cc
      by_request (some s) same run =
          let (who, w2, made, answered) =
            >>=-Ends (stub_user env outside headers s) (λ u. pure (some u)) w run in
          inr (who, cc, stub_user-StubIdentity s w same made)
