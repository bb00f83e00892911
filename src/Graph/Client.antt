-- ===== src/Graph/Client.antt =====
-- server/src/services/graphApi.ts: tokens, cached reads and the calls of the service; and
-- server/src/services/cacheService.ts.
use expense_management_syste.Base.{
  ℕ, zero, suc, ◌-◌, Bool, false, ◌||◌, ◌&&◌, Option, none, some, List, [], ◌∷◌, ◌++◌, Text, codes,
  text_eq, any, ltb, ◌==◌, if◌then◌else◌,
}
use expense_management_syste.Requests.{trim, is_empty, to_lower}
use expense_management_syste.Requests.Numbers.{print}
use expense_management_syste.Graph.Http.{
  Entry, Above, nobody, manager, Body, Failure, Outcome, Method, HttpRequest, Settings, Outside,
  Traffic, graph_request,
}
use expense_management_syste.Graph.Paging.{pages_from, page_request}

-- node-cache, over the state that it keeps: what is stored may have expired by the time of a look-up,
-- and a store of a new key throws when the cache is full (`none`).
pub record NodeCache (Store : Type 0) : Type 0 where
  pub get_token : Store → Traffic → Text → Option Text
  pub set_token : Store → Traffic → Text → Text → ℕ → Option Store
  pub get_entries : Store → Traffic → Text → Option (List Entry)
  pub set_entries : Store → Traffic → Text → List Entry → ℕ → Option Store
  pub del : Store → List Text → Store

-- The hash of a token, `encodeURIComponent`, and the URL of the token endpoint.
pub record Runtime : Type 0 where
  pub sha256_hex : Text → Text
  pub encode_uri_component : Text → Text
  pub token_url : Text

pub record Wire (Store : Type 0) : Type 0 where
  pub traffic : Traffic
  pub store : Store

-- `CACHE_TTL_SECONDS`
abbrev pub cache_ttl_seconds : ℕ
cache_ttl_seconds = 900

-- `OBO_EXPIRY_SKEW_SECONDS`
abbrev pub obo_expiry_skew_seconds : ℕ
obo_expiry_skew_seconds = 60

abbrev pub graph_base_url : Text
graph_base_url = codes "https://graph.microsoft.com/v1.0"

-- `isConsentRequiredError`
abbrev same_code : Option Text → Text → Bool
same_code none code = false
same_code (some s) code = text_eq s code

unfoldable pub is_consent_required_error : Failure → Bool
is_consent_required_error (Failure.replied reply) =
    (reply.status == 400)
    && same_code reply.error (codes "invalid_grant")
    && (same_code reply.suberror (codes "consent_required")
        || any (λ c. c == 65001) reply.error_codes)
is_consent_required_error _ = false

-- `ORG_USER_SELECT`
abbrev org_user_select : Text
org_user_select =
    codes "id,displayName,mail,userPrincipalName,jobTitle,department,employeeId,officeLocation"

abbrev pub direct_reports_url : Text
direct_reports_url =
    graph_base_url ++ (codes "/me/directReports/microsoft.graph.user?$select=" ++ org_user_select)

-- `DIRECT_REPORTS_PATH` and `MEMBER_OF_PATH`
abbrev pub direct_reports_path : Text
direct_reports_path = codes "/v1.0/me/directReports"

abbrev pub member_of_path : Text
member_of_path = codes "/v1.0/me/memberOf"

abbrev pub group_select : Text
group_select = codes "/memberOf/microsoft.graph.group?$select=id,displayName"

-- The walk up the nested managers, with the depth that is left.
unfoldable pub chain_from : ℕ → Above → List Entry
chain_from left nobody = []
chain_from zero (manager m above) = []
chain_from (suc left) (manager m above) = m ∷ chain_from left above

module _ {Store : Type 0} (cache : NodeCache Store) where
  -- `cacheService.set`: a full cache stores nothing.
  abbrev pub kept : Option Store → Wire Store → Wire Store
  kept none w = w
  kept (some store) w = record w { store = store }

  unfoldable pub cache_token : Text → Text → ℕ → Wire Store → Wire Store
  cache_token key token ttl w = kept (cache.set_token w.store w.traffic key token ttl) w

  unfoldable pub cache_entries : Text → List Entry → Wire Store → Wire Store
  cache_entries key entries w =
      kept (cache.set_entries w.store w.traffic key entries cache_ttl_seconds) w

  -- The keys of `invalidateUser`, and the call
  abbrev pub user_keys : ℕ → List Text
  user_keys user_id =
      (codes "manager:" ++ print user_id)
      ∷ (codes "directReports:" ++ print user_id)
      ∷ (codes "managerChain:" ++ print user_id)
      ∷ (codes "groups:" ++ print user_id)
      ∷ (codes "meProfile:" ++ print user_id)
      ∷ []

  unfoldable pub invalidate_user : ℕ → Wire Store → Wire Store
  invalidate_user user_id w = record w { store = cache.del w.store (user_keys user_id) }

  module _ (settings : Settings) (outside : Outside) (runtime : Runtime) where
    -- `graphRequest`, on the client's state
    unfoldable pub send : HttpRequest → Wire Store → Outcome Body × Wire Store
    unfolding graph_request
    send config w =
        let reply = graph_request settings outside config w.traffic in
        (reply.0, record w { traffic = reply.1 })

    -- The form of the exchange goes to the token endpoint; it carries the user's own token.
    abbrev pub exchange : Text → HttpRequest
    exchange user_token = record {
      method = Method.post;
      url = runtime.token_url;
      authorization = some user_token;
    }

    abbrev pub obo_key : Text → Text
    obo_key user_token = codes "obo:" ++ runtime.sha256_hex user_token

    -- What `getGraphTokenOBO` does with the answer of the token endpoint
    unfoldable pub accept_token : Text → Outcome Body × Wire Store → Outcome Text × Wire Store
    unfolding cache_token is_consent_required_error
    accept_token user_token (Outcome.failed e, w) =
        (Outcome.failed (if is_consent_required_error e then Failure.consent_required else e), w)
    accept_token user_token (Outcome.done body, w) = elim body.access_token [
      | none ↦
          (Outcome.failed (Failure.thrown "OBO token response did not include an access token"), w)
      | some token ↦
          let expires_in : ℕ = elim body.expires_in [ none ↦ 0 | some n ↦ n ] in
          let ttl : ℕ = expires_in - obo_expiry_skew_seconds in
          if is_empty token
          then (
            Outcome.failed (Failure.thrown "OBO token response did not include an access token"),
            w,
          )
          else (
            Outcome.done token,
            if ltb 0 ttl then cache_token (obo_key user_token) token ttl w else w,
          )
    ]

    -- `getGraphTokenOBO`
    unfoldable pub get_graph_token_obo : Text → Wire Store → Outcome Text × Wire Store
    unfolding send accept_token
    get_graph_token_obo user_token w =
        let exchanged = accept_token user_token (send (exchange user_token) w) in
        if is_empty (trim user_token)
        then (
          Outcome.failed
              (Failure.thrown "Cannot exchange an empty user access token for a Graph token"),
          w,
        )
        else elim (cache.get_token w.store w.traffic (obo_key user_token)) [
          | some token ↦ (Outcome.done token, w)
          | none ↦ exchanged
        ]

    -- `paginateGraphCollection`
    unfoldable pub paginate_graph_collection :
        Text → Text → ℕ → Text → Wire Store → Outcome (List Entry) × Wire Store
    unfolding get_graph_token_obo pages_from
    paginate_graph_collection initial_url prefix page_cap user_token w =
        let token = get_graph_token_obo user_token w in
        elim token.0 [
          | Outcome.failed e ↦ (Outcome.failed e, token.1)
          | Outcome.done graph_token ↦
              let pages =
                pages_from settings outside graph_token prefix page_cap (some initial_url) []
                  token.1.traffic in
              (pages.0, record token.1 { traffic = pages.1 })
        ]

    -- A read under a key: from the cache unless a refresh is forced, else from Graph and kept.
    unfoldable pub cached_read :
        Text
        → Bool
        → (Wire Store → Outcome (List Entry) × Wire Store)
        → Wire Store
        → Outcome (List Entry) × Wire Store
    unfolding cache_entries
    cached_read key force_refresh fetch w =
        let fetched = fetch w in
        let fresh : Outcome (List Entry) × Wire Store = elim fetched.0 [
          | Outcome.failed e ↦ (Outcome.failed e, fetched.1)
          | Outcome.done entries ↦ (Outcome.done entries, cache_entries key entries fetched.1)
        ] in
        if force_refresh then fresh else elim (cache.get_entries w.store w.traffic key) [
          | some entries ↦ (Outcome.done entries, w)
          | none ↦ fresh
        ]

    -- `getDirectReports`
    unfoldable pub get_direct_reports :
        ℕ → Text → Bool → Wire Store → Outcome (List Entry) × Wire Store
    unfolding cached_read paginate_graph_collection
    get_direct_reports user_id user_token force_refresh =
        cached_read (codes "directReports:" ++ print user_id) force_refresh (
          paginate_graph_collection direct_reports_url direct_reports_path
            settings.max_direct_report_pages user_token)

    -- `getGroupMemberships`
    unfoldable pub get_group_memberships :
        ℕ → Text → Bool → Wire Store → Outcome (List Entry) × Wire Store
    unfolding cached_read paginate_graph_collection
    get_group_memberships user_id user_token force_refresh =
        cached_read (codes "groups:" ++ print user_id) force_refresh (
          paginate_graph_collection (graph_base_url ++ (codes "/me" ++ group_select)) member_of_path
            settings.max_group_pages user_token)

    -- `getUserGroups`
    unfoldable pub get_user_groups :
        Text → Text → Bool → Wire Store → Outcome (List Entry) × Wire Store
    unfolding cached_read paginate_graph_collection
    get_user_groups entra_id user_token force_refresh =
        let encoded = runtime.encode_uri_component entra_id in
        cached_read (codes "userGroups:" ++ to_lower entra_id) force_refresh (
          paginate_graph_collection
            (graph_base_url ++ (codes "/users/" ++ (encoded ++ group_select)))
            (codes "/v1.0/users/" ++ (encoded ++ codes "/memberOf")) settings.max_group_pages
            user_token)

    -- `graphGet`, of a path with its parameters
    unfoldable pub graph_get : Text → Text → Wire Store → Outcome Body × Wire Store
    unfolding get_graph_token_obo send
    graph_get path user_token w =
        let token = get_graph_token_obo user_token w in
        elim token.0 [
          | Outcome.failed e ↦ (Outcome.failed e, token.1)
          | Outcome.done graph_token ↦
              send (page_request graph_token (graph_base_url ++ path)) token.1
        ]

    -- The fetch of `getManagerChain`
    unfoldable pub fetch_chain : Text → Wire Store → Outcome (List Entry) × Wire Store
    unfolding graph_get chain_from
    fetch_chain user_token w =
        let me =
          graph_get
            (codes "/me?$expand=manager($levels=max;$select=" ++ (org_user_select ++ codes ")"))
            user_token w in
        elim me.0 [
          | Outcome.failed e ↦ (Outcome.failed e, me.1)
          | Outcome.done body ↦
              (Outcome.done (chain_from settings.graph_max_chain_depth body.above), me.1)
        ]

    -- `getManagerChain`
    unfoldable pub get_manager_chain :
        ℕ → Text → Bool → Wire Store → Outcome (List Entry) × Wire Store
    unfolding cached_read fetch_chain
    get_manager_chain user_id user_token force_refresh =
        cached_read (codes "managerChain:" ++ print user_id) force_refresh (fetch_chain user_token)
