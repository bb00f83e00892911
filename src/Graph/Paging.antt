-- ===== src/Graph/Paging.antt =====
-- server/src/services/graphApi.ts: a paged collection of Graph, page by page.
use expense_management_syste.Base.{
  ℕ, zero, suc, Bool, true, false, ◌||◌, ◌&&◌, Option, none, some, List, [], ◌∷◌, ◌++◌, Text, codes,
  text_eq, ◌==◌, if◌then◌else◌,
}
use expense_management_syste.Graph.Http.{
  Entry, Failure, Outcome, Method, HttpRequest, Settings, Url, Outside, Traffic, graph_request,
}

abbrev pub graph_hostname : Text
graph_hostname = codes "graph.microsoft.com"

-- `startsWith`
abbrev pub starts_with : Text → Text → Bool
starts_with [] text = true
starts_with (c ∷ prefix) [] = false
starts_with (c ∷ prefix) (d ∷ text) = (c == d) && starts_with prefix text

-- The conditions of `validateGraphNextLink` on a parsed link
abbrev pub is_allowed : Text → Url → Bool
is_allowed prefix u =
    text_eq u.protocol (codes "https:")
    && text_eq u.hostname graph_hostname
    && (text_eq u.pathname prefix || starts_with (prefix ++ b'/' ∷ []) u.pathname)

-- `validateGraphNextLink`
unfoldable pub validate_graph_next_link : Outside → Text → Text → Outcome Text
validate_graph_next_link outside link prefix = elim (outside.parse_url link) [
  | none ↦ Outcome.failed (Failure.thrown "Microsoft Graph returned an invalid pagination URL")
  | some u ↦
      if is_allowed prefix u
      then Outcome.done u.href
      else Outcome.failed (Failure.thrown "Microsoft Graph returned an unexpected pagination URL")
]

-- `nextLink ? validateGraphNextLink(nextLink, allowedPathPrefix) : null`
unfoldable pub next_url : Outside → Option Text → Text → Outcome (Option Text)
unfolding validate_graph_next_link
next_url outside none prefix = Outcome.done none
next_url outside (some []) prefix = Outcome.done none
next_url outside (some (c ∷ link)) prefix =
    elim (validate_graph_next_link outside (c ∷ link) prefix) [
      | Outcome.failed e ↦ Outcome.failed e
      | Outcome.done url ↦ Outcome.done (some url)
    ]

-- The GET of a page.
abbrev pub page_request : Text → Text → HttpRequest
page_request token url = record { method = Method.get; url = url; authorization = some token }

module _ (settings : Settings) (outside : Outside) (token prefix : Text) where
  -- The `while` loop: `left` is how many pages the cap leaves, `items` what was collected.
  unfoldable pub pages_from :
      ℕ → Option Text → List Entry → Traffic → Outcome (List Entry) × Traffic
  unfolding graph_request next_url
  pages_from left none items t = (Outcome.done items, t)
  pages_from zero (some url) items t =
      (Outcome.failed (Failure.thrown "Microsoft Graph exceeded the page limit"), t)
  pages_from (suc left) (some url) items t =
      let reply = graph_request settings outside (page_request token url) t in
      elim reply.0 [
        | Outcome.failed e ↦ (Outcome.failed e, reply.1)
        | Outcome.done body ↦ elim body.value [
          | none ↦ (
            Outcome.failed (
                Failure.thrown "Microsoft Graph response was missing the expected \"value\" array"),
            reply.1,
          )
          | some value ↦ elim (next_url outside body.next_link prefix) [
            | Outcome.failed e ↦ (Outcome.failed e, reply.1)
            | Outcome.done next ↦ pages_from left next (items ++ value) reply.1
          ]
        ]
      ]
