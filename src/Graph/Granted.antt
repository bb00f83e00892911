-- ===== src/Graph/Granted.antt =====
-- Where the Graph token of `getGraphTokenOBO` of server/src/services/graphApi.ts comes from.
use expense_management_syste.Base.{
  ℕ, ◌+◌, ◌≤◌, some, ◌≡◌, refl, ◌⊎◌, ◌∙◌, inl, inr, arith, Text, length, Bool-cases, Option-cases,
}
use expense_management_syste.Requests.{trim, is_empty}
use expense_management_syste.Graph.Http.{Body, Outcome, Settings, Outside}
use expense_management_syste.Graph.Retry.{graph_request-Tries}
use expense_management_syste.Graph.Client.{
  NodeCache, Runtime, Wire, send, exchange, accept_token, get_graph_token_obo, obo_key,
}

module _ {Store : Type 0} (cache : NodeCache Store) (settings : Settings) (outside : Outside)
    (runtime : Runtime) where
  -- The token is the one that the cache has for this user's token, or the access token of an answer that
  -- the token endpoint gave, since `w`, to the exchange of this user's token.
  abbrev pub Granted : Text → Wire Store → Text → Type 0
  Granted user_token w token =
      (cache.get_token w.store w.traffic (obo_key cache settings outside runtime user_token)
        ≡ some token)
      ⊎ ((k : ℕ) × (body : Body) × (length w.traffic.requests ≤ k)
          × (outside.answer k (exchange cache settings outside runtime user_token)
              ≡ Outcome.done body)
          × (body.access_token ≡ some token))

  accept_token-access_token :
      (user_token : Text) (reply : Outcome Body) (w : Wire Store) {token : Text}
      → (accept_token cache settings outside runtime user_token (reply, w)).0 ≡ Outcome.done token
      → (body : Body) × (reply ≡ Outcome.done body) × (body.access_token ≡ some token)
  unfolding accept_token
  accept_token-access_token user_token (Outcome.failed e) w h = absurd cc
  accept_token-access_token user_token (Outcome.done body) w h =
      elim (Option-cases body.access_token) [
        | inl missing ↦ absurd (ground (arith, h, missing))
        | inr (t, there) ↦ elim (Bool-cases (is_empty t)) [
          | inl empty ↦ absurd (ground (arith, h, there, empty))
          | inr full ↦ (body, refl, ground (arith, h, there, full))
        ]
      ]

  pub get_graph_token_obo-Granted :
      1 ≤ settings.retry_max_attempts
      → (user_token : Text) (w : Wire Store) {token : Text}
      → (get_graph_token_obo cache settings outside runtime user_token w).0 ≡ Outcome.done token
      → Granted user_token w token
  unfolding get_graph_token_obo send
  get_graph_token_obo-Granted some_attempt user_token w {token} h =
      let config = exchange cache settings outside runtime user_token in
      let sent = send cache settings outside runtime config w in
      let tries = graph_request-Tries settings outside config w.traffic some_attempt in
      elim (Bool-cases (is_empty (trim user_token))) [
        | inl empty ↦ absurd (ground (arith, h, empty))
        | inr full ↦
            elim (Option-cases (
              cache.get_token w.store w.traffic
                (obo_key cache settings outside runtime user_token))) [
                  | inr (t, hit) ↦ inl (ground (arith, h, full, hit))
                  | inl missed ↦
                      let accepted : (accept_token cache settings outside runtime user_token sent).0
                          ≡ Outcome.done token =
                        ground (arith, h, full, missed) in
                      let (body, answered, there) =
                        accept_token-access_token user_token sent.0 sent.1 accepted in
                      inr (
                        length w.traffic.requests + tries.failures,
                        body,
                        omega arith,
                        tries.answered ∙ answered,
                        there,
                      )
                ]
      ]
