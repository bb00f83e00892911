-- ===== src/Graph/Sends.antt =====
-- What the client of server/src/services/graphApi.ts sends to get a token, and to fill its cache.
-- the tokens go.
use expense_management_syste.Base.{
  ℕ, suc, ◌≤◌, Bool, true, false, List, [], ◌++◌, ◌≡◌, refl, sym, ap, ◌∙◌, ◌⊎◌, inl, inr, Text, All,
  append_assoc, append_nil, All-append, Bool-cases, Option-cases, if◌then◌else◌,
}
use expense_management_syste.Requests.{trim, is_empty}
use expense_management_syste.Graph.Http.{
  Entry, Body, Failure, Outcome, HttpRequest, Settings, Outside, Traffic,
}
use expense_management_syste.Graph.Retry.{times, graph_request-Tries}
use expense_management_syste.Graph.Collected.{SentTo, All-times}
use expense_management_syste.Graph.Granted.{Granted}
use expense_management_syste.Graph.Client.{
  NodeCache, Runtime, Wire, cache_token, cache_entries, send, exchange, accept_token,
  get_graph_token_obo, cached_read, obo_key,
}

module _ {Store : Type 0} where
  -- The requests since then all pass `P`.
  abbrev pub Sends : (HttpRequest → Type 0) → Wire Store → Wire Store → Type 0
  Sends P w w' =
      (sent : List HttpRequest) × (w'.traffic.requests ≡ w.traffic.requests ++ sent) × All P sent

  Sends-same :
      (P : HttpRequest → Type 0) (w w' : Wire Store) → w'.traffic ≡ w.traffic → Sends P w w'
  Sends-same P w w' same =
      ([], ap (λ (t : Traffic). t.requests) same ∙ sym (append_nil w.traffic.requests), tt)

  if_traffic :
      (b : Bool) (x y : Wire Store) (t : Traffic)
      → x.traffic ≡ t
      → y.traffic ≡ t
      → (if b then x else y).traffic ≡ t
  if_traffic true x y t hx hy = hx
  if_traffic false x y t hx hy = hy

  Sends-trans :
      (P : HttpRequest → Type 0) (u v w : Wire Store) → Sends P u v → Sends P v w → Sends P u w
  Sends-trans P u v w (a, ea, ha) (b, eb, hb) = (
    a ++ b,
    eb ∙ ap (λ l. l ++ b) ea ∙ append_assoc u.traffic.requests a b,
    All-append P a b ha hb,
  )

module _ {Store : Type 0} (cache : NodeCache Store) (settings : Settings) (outside : Outside)
    (runtime : Runtime) where
  -- The user's token goes to the token endpoint, and the Graph token that was granted for it to Graph,
  -- under the path.
  abbrev pub SentBy : Text → Wire Store → Text → Text → HttpRequest → Type 0
  SentBy user_token w first prefix c =
      (c ≡ exchange cache settings outside runtime user_token)
      ⊎ ((token : Text) × Granted cache settings outside runtime user_token w token
          × SentTo outside token prefix first c)

pub Outcome-split :
    {A : Type 0} (o : Outcome A)
    → ((a : A) × (o ≡ Outcome.done a)) ⊎ ((e : Failure) × (o ≡ Outcome.failed e))
Outcome-split (Outcome.done a) = inl (a, refl)
Outcome-split (Outcome.failed e) = inr (e, refl)

module _ {Store : Type 0} (cache : NodeCache Store) (settings : Settings) (outside : Outside)
    (runtime : Runtime) (some_attempt : 1 ≤ settings.retry_max_attempts) where
  cache_token_traffic :
      (key token : Text) (ttl : ℕ) (w : Wire Store)
      → (cache_token cache key token ttl w).traffic ≡ w.traffic
  unfolding cache_token
  cache_token_traffic key token ttl w =
      elim (Option-cases (cache.set_token w.store w.traffic key token ttl)) [
        | inl full ↦ rw (full, cache_token) refl
        | inr (store, stored) ↦ rw (stored, cache_token) refl
      ]

  cache_entries_traffic :
      (key : Text) (entries : List Entry) (w : Wire Store)
      → (cache_entries cache key entries w).traffic ≡ w.traffic
  unfolding cache_entries
  cache_entries_traffic key entries w =
      elim (Option-cases (cache.set_entries w.store w.traffic key entries 900)) [
        | inl full ↦ rw (full, cache_entries) refl
        | inr (store, stored) ↦ rw (stored, cache_entries) refl
      ]

  send-Sends :
      (P : HttpRequest → Type 0) (config : HttpRequest) (w : Wire Store)
      → P config
      → Sends P w (send cache settings outside runtime config w).1
  unfolding send
  send-Sends P config w h =
      let tries = graph_request-Tries settings outside config w.traffic some_attempt in
      (
        times (suc tries.failures) config,
        tries.requests_made,
        All-times P (suc tries.failures) config h,
      )

  accept_token_traffic :
      (user_token : Text) (reply : Outcome Body × Wire Store)
      → (accept_token cache settings outside runtime user_token reply).1.traffic ≡ reply.1.traffic
  unfolding accept_token
  accept_token_traffic user_token (Outcome.failed e, w) = refl
  accept_token_traffic user_token (Outcome.done body, w) = elim (Option-cases body.access_token) [
    | inl missing ↦ rw (missing, accept_token) refl
    | inr (token, there) ↦ elim (Bool-cases (is_empty token)) [
      | inl empty ↦ rw (there, accept_token, empty) refl
      | inr full ↦
          rw (there, accept_token, full)
            (if_traffic _ _ w w.traffic (cache_token_traffic _ token _ w) refl)
    ]
  ]

  pub get_graph_token_obo-Sends :
      (P : HttpRequest → Type 0) (user_token : Text) (w : Wire Store)
      → P (exchange cache settings outside runtime user_token)
      → Sends P w (get_graph_token_obo cache settings outside runtime user_token w).1
  unfolding get_graph_token_obo
  get_graph_token_obo-Sends P user_token w h =
      let sent =
        send cache settings outside runtime (exchange cache settings outside runtime user_token)
          w in
      let exchanged = send-Sends P (exchange cache settings outside runtime user_token) w h in
      let accepted =
        Sends-trans P w sent.1 (accept_token cache settings outside runtime user_token sent).1
          exchanged
          (Sends-same P sent.1 (accept_token cache settings outside runtime user_token sent).1
            (accept_token_traffic user_token sent)) in
      elim (Bool-cases (is_empty (trim user_token))) [
        | inl empty ↦ rw (empty, get_graph_token_obo) (Sends-same P w w refl)
        | inr full ↦
            elim (Option-cases (
              cache.get_token w.store w.traffic
                (obo_key cache settings outside runtime user_token))) [
                  | inl missed ↦ rw (full, get_graph_token_obo, missed) accepted
                  | inr (token, hit) ↦ rw (full, get_graph_token_obo, hit) (Sends-same P w w refl)
                ]
      ]

  -- A read sends what its fetch sends, or nothing, and when it is forced it answers as its fetch does.
  pub cached_read-Sends :
      (P : HttpRequest → Type 0) (key : Text) (force_refresh : Bool)
      (fetch_entries : Wire Store → Outcome (List Entry) × Wire Store) (w : Wire Store)
      → Sends P w (fetch_entries w).1
      → let out = cached_read cache settings outside runtime key force_refresh fetch_entries w in
        Sends P w out.1
        × ((force_refresh ≡ false)
            ⊎ (((fetch_entries w).0 ≡ out.0) × (out.1.traffic ≡ (fetch_entries w).1.traffic)))
  unfolding cached_read
  cached_read-Sends P key force_refresh fetch_entries w sends =
      let fetched = fetch_entries w in
      let after : (entries : List Entry) → Sends P w (cache_entries cache key entries fetched.1) =
        λ entries. Sends-trans P w fetched.1 (cache_entries cache key entries fetched.1) sends (
          Sends-same P fetched.1 (cache_entries cache key entries fetched.1)
            (cache_entries_traffic key entries fetched.1)) in
      elim (Bool-cases force_refresh) [
        | inl forced ↦ elim (Outcome-split fetched.0) [
          | inl (entries, fine) ↦
              rw (forced, cached_read, fine)
                (after entries, inr (refl, cache_entries_traffic key entries fetched.1))
          | inr (e, bad) ↦ rw (forced, cached_read, bad) (sends, inr (refl, refl))
        ]
        | inr lazy ↦ elim (Option-cases (cache.get_entries w.store w.traffic key)) [
          | inr (entries, hit) ↦ rw (lazy, cached_read, hit) (Sends-same P w w refl, inl refl)
          | inl missed ↦ elim (Outcome-split fetched.0) [
            | inl (entries, fine) ↦ rw (lazy, cached_read, missed, fine) (after entries, inl refl)
            | inr (e, bad) ↦ rw (lazy, cached_read, missed, bad) (sends, inl refl)
          ]
        ]
      ]
