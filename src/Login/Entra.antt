-- ===== src/Login/Entra.antt =====
-- Whom a token of Entra lets in: `verifyToken` and `authenticate` of server/src/middleware/auth.ts.
use mathlib.Core.Path.{subst}
use expense_management_syste.Base.{
  ℕ, Bool, true, false, Option, none, some, List, [], ◌∷◌, ◌≡◌, refl, sym, ap, inl, inr, arith,
  Text, Option-cases, if◌then◌else◌,
}
use expense_management_syste.Errors.{Error, unauthorized, forbidden}
use expense_management_syste.Types.{User, Role, SecurityEvent, SecurityEventType, SecurityOutcome}
use expense_management_syste.Db.{World, M, pure, raise, ◌>>=◌, ◌>>◌, or_raise, current_time}
use expense_management_syste.Db.Runs.{Ends, >>=-Ends, attempt-Ends, or_raise-Ends}
use expense_management_syste.Auth.{AuthUser, role_in, resolve_active_role}
use expense_management_syste.Auth.Access.{active_role_in, role_eq_of_eq}
use expense_management_syste.Listings.{Server}
use expense_management_syste.Login.Outside.{Headers, Environment, EntraClaims, Outside}
use expense_management_syste.Login.Accounts.{record_event, upsert_by_entra_id}
use expense_management_syste.Login.Sessions.{bearer_of}
use expense_management_syste.Login.Claims.{Verified, accept_claims, assigned_to, is_owner_allowed}
use expense_management_syste.Login.Authenticate.{
  Verdict, oid_event, admitted, refused, sync_role, entra_identity, sign_in, judge, judge_roles,
  stranger, answer, auth_failure_event, caught, judged, verify_token, entra_auth, entra_or_refuse,
}
use expense_management_syste.Login.Local.{no_Ends}

module _ (env : Environment) (outside : Outside) (headers : Headers) where
  -- A token that Entra signed, for an active account: the allowlist lets it through, the roles are those
  -- that it claims, at least one, and the active role is among them.
  abbrev pub EntraIdentity : AuthUser → Type 0
  EntraIdentity who =
      (token : Text) × (now : ℕ) × (raw : EntraClaims) × (claims : Verified) × (bearer_of
          headers.authorization
        ≡ some token)
      × (outside.verify_entra token now ≡ some raw)
      × (accept_claims raw ≡ some claims)
      × (is_owner_allowed env claims.oid ≡ true)
      × (who.assigned_roles ≡ assigned_to claims)
      × (role_in who.role who.assigned_roles ≡ true)
      × (who.stub_auth ≡ false)
      × (who.demo_mode ≡ false)

module _ (server : Server) (env : Environment) (outside : Outside) (headers : Headers) where
  -- A recorded refusal lets nobody in.
  refuse-Ends :
      (event : SecurityEvent) (e : Error) (w : World) {who : AuthUser} {w' : World}
      → ¬ Ends (record_event event >> pure (refused e)) w (admitted who) w'
  unfolding pure
  refuse-Ends event e w h =
      let (_, w1, _, answer) = >>=-Ends (record_event event) (λ _. pure (refused e)) w h in cc

  sign_in-Ends :
      (claims : Verified) (highest : Role) (w : World) {who : AuthUser} {w' : World}
      → Ends (sign_in server env outside headers claims highest) w (admitted who) w'
      → (u : User) × (who ≡ entra_identity server env outside headers claims highest u)
  unfolding sign_in pure
  sign_in-Ends claims highest w {who} {w'} h =
      let (stored, w1, _, h1) = >>=-Ends (upsert_by_entra_id server _) _ w h in
      let (u, w2, _, h2) =
        >>=-Ends (sync_role server env outside headers claims highest stored) _ w1 h1 in
      (u, by_active u w2 u.is_active refl h2)
    where
      by_active :
          (u : User) (w2 : World) (active : Bool)
          → u.is_active ≡ active
          → Ends
              (if active
                then pure (admitted (entra_identity server env outside headers claims highest u))
                else (record_event (
                      oid_event SecurityEventType.account_deactivated SecurityOutcome.failure claims
                        (some u)
                        (some highest)
                        headers)
                    >> pure (refused (unauthorized "User account is deactivated"))))
              w2
              (admitted who)
              w'
          → who ≡ entra_identity server env outside headers claims highest u
      by_active u w2 true is h = cc
      by_active u w2 false is h = absurd (
          refuse-Ends
            (oid_event SecurityEventType.account_deactivated SecurityOutcome.failure claims (some u)
              (some highest) headers)
            (unauthorized "User account is deactivated") w2 h)

  -- The active role is one of those assigned.
  entra_identity-role_in :
      (claims : Verified) (highest : Role) (rest : List Role) (u : User)
      → assigned_to claims ≡ highest ∷ rest
      → role_in
          (entra_identity server env outside headers claims highest u).role
          (assigned_to claims)
        ≡ true
  entra_identity-role_in claims highest rest u roles =
      elim (Option-cases (resolve_active_role (assigned_to claims) headers.active_role)) [
        | inl default ↦
            rw (default, entra_identity)
              (let first = role_eq_of_eq highest highest refl in
                subst (λ l. role_in highest l ≡ true) (sym roles) (ground (arith, first)))
        | inr (r, chosen) ↦
            rw (chosen, entra_identity)
              (active_role_in (assigned_to claims) headers.active_role r chosen)
      ]

  answer-admitted :
      (v : Verdict) (w : World) {who : AuthUser} {w' : World}
      → Ends (answer server env outside headers v) w who w'
      → v ≡ admitted who
  unfolding pure
  answer-admitted (admitted u) w h = cc
  answer-admitted (refused e) w h = absurd (no_Ends e w h)

  -- What a verified token lets in.
  abbrev Judged : Verified → AuthUser → Type 0
  Judged claims who =
      (is_owner_allowed env claims.oid ≡ true)
      × ((highest : Role) × (rest : List Role) × (u : User) × (assigned_to claims ≡ highest ∷ rest)
          × (who ≡ entra_identity server env outside headers claims highest u))

  judge_roles-Judged :
      (claims : Verified) (roles : List Role) (w : World) {who : AuthUser} {w' : World}
      → assigned_to claims ≡ roles
      → Ends (judge_roles server env outside headers claims roles) w (admitted who) w'
      → Judged claims who
  unfolding judge_roles
  judge_roles-Judged claims [] w same h = absurd (
      refuse-Ends
        (oid_event SecurityEventType.access_denied SecurityOutcome.failure claims none none headers)
        (forbidden "An assigned application role is required") w h)
  judge_roles-Judged claims (highest ∷ rest) w {who} {w'} same h =
      by_owner (is_owner_allowed env claims.oid) refl h
    where
      by_owner :
          (b : Bool)
          → is_owner_allowed env claims.oid ≡ b
          → Ends
              (if b
                then sign_in server env outside headers claims highest
                else stranger server env outside headers claims highest)
              w
              (admitted who)
              w'
          → Judged claims who
      by_owner true is run =
          let (u, identity) = sign_in-Ends claims highest w run in
          (is, (highest, rest, u, same, identity))
      by_owner false is run = absurd (
          refuse-Ends
            (oid_event SecurityEventType.access_denied SecurityOutcome.failure claims none
              (some highest) headers)
            (forbidden "Access is restricted to the application owner") w run)

  verify_token-Ends :
      (token : Text) (w : World) {claims : Verified} {w' : World}
      → Ends (verify_token server env outside headers token) w claims w'
      → (now : ℕ) × (raw : EntraClaims) × (outside.verify_entra token now ≡ some raw)
        × (accept_claims raw ≡ some claims)
  unfolding verify_token
  verify_token-Ends token w {claims} {w'} h =
      let (now, w1, _, h1) = >>=-Ends current_time _ w h in
      let (raw, w2, signed, accepted) =
        >>=-Ends (or_raise (outside.verify_entra token now) Error.failure) _ w1 h1 in
      (
        now,
        raw,
        (or_raise-Ends (outside.verify_entra token now) Error.failure w1 signed).0,
        (or_raise-Ends (accept_claims raw) Error.failure w2 accepted).0,
      )

  entra_auth-EntraIdentity :
      (token : Text) (w : World) {who : AuthUser} {w' : World}
      → bearer_of headers.authorization ≡ some token
      → Ends (entra_auth server env outside headers token) w who w'
      → EntraIdentity env outside headers who
  unfolding entra_auth judge
  entra_auth-EntraIdentity token w {who} {w'} there h =
      let (verdict, w1, tried, answered) =
        >>=-Ends (judged server env outside headers token) (answer server env outside headers) w
          h in
      let let_in =
        subst (λ v. Ends (judged server env outside headers token) w v w1)
          (answer-admitted verdict w1 answered) tried in
      elim (attempt-Ends
        (verify_token server env outside headers token >>= judge server env outside headers)
        (caught server env outside headers) w let_in) [
          | inr (e, w2, run) ↦ absurd (
              refuse-Ends (auth_failure_event headers) (unauthorized "Invalid or expired token") w2
                run)
          | inl run ↦
              let (claims, w2, verified, checked) =
                >>=-Ends (verify_token server env outside headers token)
                  (judge server env outside headers) w run in
              let (now, raw, signed, accepted) = verify_token-Ends token w verified in
              let (owner, (highest, rest, u, roles, same)) =
                judge_roles-Judged claims (assigned_to claims) w2 refl checked in
              (
                token,
                now,
                raw,
                claims,
                there,
                signed,
                accepted,
                owner,
                ap (λ (x : AuthUser). x.assigned_roles) same,
                subst (λ (x : AuthUser). role_in x.role x.assigned_roles ≡ true) (sym same)
                    (entra_identity-role_in claims highest rest u roles),
                ap (λ (x : AuthUser). x.stub_auth) same,
                ap (λ (x : AuthUser). x.demo_mode) same,
              )
        ]

  pub entra_or_refuse-EntraIdentity :
      (w : World) {who : AuthUser} {w' : World}
      → Ends (entra_or_refuse server env outside headers) w who w'
      → EntraIdentity env outside headers who
  unfolding entra_or_refuse
  entra_or_refuse-EntraIdentity w {who} {w'} h = by_header (bearer_of headers.authorization) refl h
    where
      by_header :
          (token : Option Text)
          → bearer_of headers.authorization ≡ token
          → (let rest : M AuthUser = elim token [
            | none ↦ raise (unauthorized "Missing or malformed Authorization header")
            | some t ↦ entra_auth server env outside headers t
          ] in
              Ends rest w who w')
          → EntraIdentity env outside headers who
      by_header none same run =
          absurd (no_Ends (unauthorized "Missing or malformed Authorization header") w run)
      by_header (some t) same run = entra_auth-EntraIdentity t w same run
