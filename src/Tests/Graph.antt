-- ===== src/Tests/Graph.antt =====
-- The Graph client against a small directory that is first unreachable.
use expense_management_syste.Base.{
  true, none, some, [], ◌∷◌, ◌≡◌, refl, arith, codes, length, ◌==◌, if◌then◌else◌,
}
use expense_management_syste.Requests.{trim}
use expense_management_syste.Graph.{
  Entry, nobody, Body, Failure, Outcome, Settings, Outside, NodeCache, Runtime, Wire, graph_request,
  attempts_from, retry_delay_ms, parse_retry_after_ms, page_request, get_direct_reports,
  cached_read, paginate_graph_collection, get_graph_token_obo, accept_token, send, pages_from,
  next_url, is_consent_required_error, cache_token, cache_entries,
}
use expense_management_syste.Graph.Retry.{Tries, graph_request-Tries}
use expense_management_syste.Graph.Sends.{Sends}

abbrev settings : Settings
settings = record {
  retry_max_attempts = 3;
  retry_base_ms = 250;
  retry_max_delay_ms = 4000;
  max_direct_report_pages = 50;
  max_group_pages = 20;
  graph_max_chain_depth = 10;
}

abbrev ann : Entry
ann = record {
  id = some (codes "ann");
  display_name = none;
  mail = none;
  job_title = none;
  department = none;
  employee_id = none;
  office_location = none;
}

abbrev page : Body
page = record {
  value = some (ann ∷ []);
  next_link = none;
  access_token = some (codes "g");
  expires_in = some 3600;
  profile = ann;
  above = nobody;
}

-- The second request gets no reply.
abbrev outside : Outside
outside = record {
  answer = λ n config. if n == 1 then Outcome.failed Failure.no_reply else Outcome.done page;
  parse_url = λ url. none;
  number_ms = λ s. none;
  date_ms = λ s. none;
}

abbrev no_cache : NodeCache (Unit {0})
no_cache = record {
  get_token = λ store t key. none;
  set_token = λ store t key token ttl. none;
  get_entries = λ store t key. none;
  set_entries = λ store t key entries ttl. none;
  del = λ store keys. store;
}

abbrev runtime : Runtime
runtime = record {
  sha256_hex = λ s. s;
  encode_uri_component = λ s. s;
  token_url = codes "https://login";
}

abbrev idle : Wire (Unit {0})
idle = record { traffic = record { requests = []; waits = [] }; store = tt }

graph_request-Tries_example :
    Tries settings outside
      (page_request (codes "g") (codes "u"))
      3
      idle.traffic
      (graph_request settings outside (page_request (codes "g") (codes "u")) idle.traffic)
graph_request-Tries_example =
    graph_request-Tries settings outside (page_request (codes "g") (codes "u")) idle.traffic
      (omega arith)

-- The reports come after one retry, with the token exchange three requests in all.
reports_after_retry :
    let out = get_direct_reports no_cache settings outside runtime 2 (codes "t") true idle in
    (out.0 ≡ Outcome.done (ann ∷ [])) × (length out.1.traffic.requests ≡ 3)
unfolding get_direct_reports cached_read paginate_graph_collection get_graph_token_obo accept_token
    send pages_from next_url is_consent_required_error cache_token cache_entries graph_request
    attempts_from retry_delay_ms parse_retry_after_ms trim
reports_after_retry = (refl, refl)
