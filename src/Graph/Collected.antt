-- ===== src/Graph/Collected.antt =====
-- What the paging of server/src/services/graphApi.ts collects, and where it sends the Graph token.
use mathlib.Core.Path.{subst}
use expense_management_syste.Base.{
  ℕ, zero, suc, ◌+◌, ◌<◌, ◌≤◌, true, Option, none, some, List, [], ◌∷◌, ◌++◌, ◌≡◌, refl, sym, ap,
  ◌∙◌, ◌⊎◌, inl, inr, arith, Text, codes, text_eq, text_eq_iff, All, length, length-append,
  append_assoc, append_nil, All-append, Option-cases, Bool-cases,
}
use expense_management_syste.Graph.Http.{
  Entry, Body, Failure, Outcome, HttpRequest, Settings, Url, Outside, Traffic, graph_request,
}
use expense_management_syste.Graph.Retry.{Tries, times, Outcome-cases, graph_request-Tries}
use expense_management_syste.Graph.Paging.{
  graph_hostname, starts_with, is_allowed, validate_graph_next_link, next_url, page_request,
  pages_from,
}

-- A URL of Graph under a path, up to the end of a segment.
abbrev pub UnderPath : Text → Url → Type 0
UnderPath prefix u =
    (u.protocol ≡ codes "https:")
    × (u.hostname ≡ graph_hostname)
    × ((u.pathname ≡ prefix) ⊎ ((rest : Text) × (u.pathname ≡ prefix ++ b'/' ∷ rest)))

starts_with_inv :
    (prefix text : Text)
    → starts_with (prefix ++ b'/' ∷ []) text ≡ true
    → (rest : Text) × (text ≡ prefix ++ b'/' ∷ rest)
starts_with_inv [] [] h = cc
starts_with_inv [] (d ∷ text) h = let slash : d ≡ b'/' = ground (arith, h) in (text, cc)
starts_with_inv (c ∷ prefix) [] h = cc
starts_with_inv (c ∷ prefix) (d ∷ text) h =
    let same : d ≡ c = ground (arith, h) in
    let tail : starts_with (prefix ++ b'/' ∷ []) text ≡ true = ground (arith, h) in
    let (rest, e) = starts_with_inv prefix text tail in (rest, cc)

is_allowed-UnderPath : (prefix : Text) (u : Url) → is_allowed prefix u ≡ true → UnderPath prefix u
is_allowed-UnderPath prefix u h =
    let secure : text_eq u.protocol (codes "https:") ≡ true = ground (arith, h) in
    let host : text_eq u.hostname graph_hostname ≡ true = ground (arith, h) in
    (
      (text_eq_iff u.protocol (codes "https:")).0 secure,
      (text_eq_iff u.hostname graph_hostname).0 host,
      elim (Bool-cases (text_eq u.pathname prefix)) [
        | inl exact ↦ inl ((text_eq_iff u.pathname prefix).0 exact)
        | inr other ↦ inr (starts_with_inv prefix u.pathname (ground (arith, h, other)))
      ],
    )

-- Where a next URL comes from.
next_url_inv :
    (outside : Outside) (link : Option Text) (prefix url : Text)
    → next_url outside link prefix ≡ Outcome.done (some url)
    → (raw : Text) × (u : Url) × (outside.parse_url raw ≡ some u)
      × UnderPath prefix u
      × (url ≡ u.href)
unfolding next_url validate_graph_next_link
next_url_inv outside none prefix url h = absurd cc
next_url_inv outside (some []) prefix url h = absurd cc
next_url_inv outside (some (c ∷ raw)) prefix url h =
    elim (Option-cases (outside.parse_url (c ∷ raw))) [
      | inl broken ↦ absurd (ground (arith, h, broken))
      | inr (u, parsed) ↦ elim (Bool-cases (is_allowed prefix u)) [
        | inl fine ↦ (
          c ∷ raw,
          u,
          parsed,
          is_allowed-UnderPath prefix u fine,
          ground (arith, h, parsed, fine),
        )
        | inr bad ↦ absurd (ground (arith, h, parsed, bad))
      ]
    ]

pub All-times :
    (P : HttpRequest → Type 0) (n : ℕ) (config : HttpRequest) → P config → All P (times n config)
All-times P zero config h = tt
All-times P (suc n) config h = (h, All-times P n config h)

length-times : (n : ℕ) (config : HttpRequest) → length (times n config) ≡ n
length-times zero config = refl
length-times (suc n) config = ap suc (length-times n config)

-- The last of the requests for a page has its number before the end of all requests.
in_time :
    (n : ℕ) (before later all : List HttpRequest) (config : HttpRequest) (sent : List HttpRequest)
    → later ≡ before ++ times (suc n) config
    → all ≡ later ++ sent
    → length before + n < length all
in_time n before later all config sent e f = omega (
  arith,
  ap length e,
  ap length f,
  length-append before (times (suc n) config),
  length-append later sent,
  length-times (suc n) config,
)

module _ (outside : Outside) (token prefix : Text) where
  -- The token goes to the first URL, or to one that a link of Graph's was parsed to and that lies
  -- under the allowed path.
  abbrev pub SentTo : Text → HttpRequest → Type 0
  SentTo first c =
      (c ≡ page_request token first)
      ⊎ ((link : Text) × (u : Url) × (outside.parse_url link ≡ some u)
          × UnderPath prefix u
          × (c ≡ page_request token u.href))

module _ (settings : Settings) (outside : Outside) (token prefix : Text) (since : ℕ) where
  -- `n` pages that Graph served in answer to a request of that number or later and before `until`, each found under the link of the one before, the last without one.
  abbrev pub Served : ℕ → ℕ → Option Text → List Entry → Type 0
  Served until zero next items = (next ≡ none) × (items ≡ [])
  Served until (suc n) next items =
      (url : Text) × (k : ℕ) × (body : Body) × (value rest : List Entry) × (after : Option Text)
      × (next ≡ some url)
      × (since ≤ k)
      × (k < until)
      × (outside.answer k (page_request token url) ≡ Outcome.done body)
      × (body.value ≡ some value)
      × (next_url outside body.next_link prefix ≡ Outcome.done after)
      × (items ≡ value ++ rest)
      × Served until n after rest

  -- What the loop did from `t` on.
  abbrev pub Answered : ℕ → ℕ → Option Text → List Entry → Outcome (List Entry) → Type 0
  Answered until left next items (Outcome.failed e) = Unit
  Answered until left next items (Outcome.done all) =
      (n : ℕ) × (rest : List Entry) × (n ≤ left) × (all ≡ items ++ rest) × Served until n next rest

  pub record Collects (left : ℕ) (first : Text) (next : Option Text) (items : List Entry)
      (t : Traffic) (out : Outcome (List Entry) × Traffic) : Type 0 where
    pub sent : List HttpRequest
    pub requests_made : out.1.requests ≡ t.requests ++ sent
    pub sent_to : All (SentTo outside token prefix first) sent
    pub answered : Answered (length out.1.requests) left next items out.0

  -- The loop ended without another request.
  Collects-stop :
      (left : ℕ) (first : Text) (next : Option Text) (items : List Entry) (t : Traffic)
      (out : Outcome (List Entry))
      → Answered (length t.requests) left next items out
      → Collects left first next items t (out, t)
  Collects-stop left first next items t out h = record {
    sent = [];
    requests_made = sym (append_nil t.requests);
    sent_to = tt;
    answered = h;
  }

  module _ (first url : Text) (t : Traffic)
      (known : SentTo outside token prefix first (page_request token url)) where
    -- One page was asked for, and the loop went on from there as `out`.
    Collects-page :
        (left : ℕ) (items : List Entry) (out : Outcome (List Entry)) (t1 t' : Traffic)
        (next : Option Text) (items' : List Entry)
        → Tries settings outside
            (page_request token url)
            settings.retry_max_attempts
            t
            (graph_request settings outside (page_request token url) t)
        → (graph_request settings outside (page_request token url) t).1 ≡ t1
        → Collects left first next items' t1 (out, t')
        → Answered (length t'.requests) (suc left) (some url) items out
        → Collects (suc left) first (some url) items t (out, t')
    Collects-page left items out t1 t' next items' tries after rest h = record {
      sent = times (suc tries.failures) (page_request token url) ++ rest.sent;
      requests_made =
          rest.requests_made
          ∙ ap (λ (u : Traffic). u.requests ++ rest.sent) (sym after)
          ∙ ap (λ l. l ++ rest.sent) tries.requests_made
          ∙ append_assoc t.requests _ rest.sent;
      sent_to =
          All-append (SentTo outside token prefix first)
            (times (suc tries.failures) (page_request token url)) rest.sent
            (All-times (SentTo outside token prefix first) (suc tries.failures)
              (page_request token url) known)
            rest.sent_to;
      answered = h;
    }

  -- The next URL of a page may be asked for.
  next_known :
      (first : Text) (link next : Option Text)
      → next_url outside link prefix ≡ Outcome.done next
      → (url : Text) → next ≡ some url
      → SentTo outside token prefix first (page_request token url)
  next_known first link next h url e =
      let (raw, u, parsed, under, same) =
        next_url_inv outside link prefix url (h ∙ ap Outcome.done e) in
      inr (raw, u, parsed, under, ap (page_request token) same)

  next_cases :
      (o : Outcome (Option Text))
      → ((next : Option Text) × (o ≡ Outcome.done next)) ⊎ ((e : Failure) × (o ≡ Outcome.failed e))
  next_cases (Outcome.done next) = inl (next, refl)
  next_cases (Outcome.failed e) = inr (e, refl)

  -- What the last page leaves is put before what the pages after it hold.
  served_before :
      (until left k : ℕ) (url : Text) (items value : List Entry) (body : Body) (after : Option Text)
      (out : Outcome (List Entry))
      → since ≤ k
      → k < until
      → outside.answer k (page_request token url) ≡ Outcome.done body
      → body.value ≡ some value
      → next_url outside body.next_link prefix ≡ Outcome.done after
      → Answered until left after (items ++ value) out
      → Answered until (suc left) (some url) items out
  served_before until left k url items value body after (Outcome.failed e) s b a v l h = tt
  served_before until left k url items value body after (Outcome.done all) s b a v l
        (n, rest, fits, e, served) =
      (
        suc n,
        value ++ rest,
        omega arith,
        e ∙ append_assoc items value rest,
        (url, k, body, value, rest, after, refl, s, b, a, v, l, refl, served),
      )

  pub pages_from-Collects :
      1 ≤ settings.retry_max_attempts
      → (left : ℕ) (first : Text) (next : Option Text) (items : List Entry) (t : Traffic)
      → since ≤ length t.requests
      → ((url : Text)
          → next ≡ some url
          → SentTo outside token prefix first (page_request token url))
      → Collects left first next items t
          (pages_from settings outside token prefix left next items t)
  unfolding pages_from
  pages_from-Collects some_attempt left first none items t from known =
      Collects-stop left first none items t (Outcome.done items)
        (0, [], omega arith, sym (append_nil items), (refl, refl))
  pages_from-Collects some_attempt zero first (some url) items t from known =
      Collects-stop zero first (some url) items t (Outcome.failed _) tt
  pages_from-Collects some_attempt (suc left) first (some url) items t from known =
      let config = page_request token url in
      let reply = graph_request settings outside config t in
      let tries = graph_request-Tries settings outside config t some_attempt in
      let here = known url refl in
      let later : since ≤ length t.requests → since ≤ length reply.1.requests = λ h.
        subst (λ l. since ≤ length l) (sym tries.requests_made)
          (omega (arith, length-append t.requests (times (suc tries.failures) config))) in
      let stop : (e : Failure)
          → Collects (suc left) first (some url) items t (Outcome.failed e, reply.1) =
        λ e.
          Collects-page first url t here left items (Outcome.failed e) reply.1 reply.1 none [] tries
            refl (Collects-stop left first none [] reply.1 (Outcome.failed e) tt) tt in
      elim (Outcome-cases reply.0) [
        | inr (e, bad) ↦ rw (bad, pages_from) (stop e)
        | inl (body, fine) ↦ elim (Option-cases body.value) [
          | inl missing ↦ rw (fine, pages_from, missing) (stop _)
          | inr (value, there) ↦ elim (next_cases (next_url outside body.next_link prefix)) [
            | inr (e, bad) ↦ rw (fine, pages_from, there, bad) (stop e)
            | inl (after, link) ↦
                let on =
                  pages_from-Collects some_attempt left first after (items ++ value) reply.1
                    (later from) (next_known first body.next_link after link) in
                let out =
                  pages_from settings outside token prefix left after (items ++ value) reply.1 in
                rw (fine, pages_from, there, link)
                  (Collects-page first url t here left items out.0 reply.1 out.1 after
                    (items ++ value) tries refl on
                    (served_before (length out.1.requests) left _ url items value body after out.0
                      (omega arith)
                      (in_time tries.failures t.requests reply.1.requests out.1.requests config
                        on.sent tries.requests_made on.requests_made)
                      (tries.answered ∙ fine) there link on.answered))
          ]
        ]
      ]
