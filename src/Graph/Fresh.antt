-- ===== src/Graph/Fresh.antt =====
-- `getDirectReports` of server/src/services/graphApi.ts: which answers come from Graph itself, and where
-- the tokens go.
use expense_management_syste.Base.{ℕ, ◌≤◌, some, List, Text, length}
use expense_management_syste.Graph.Granted.{Granted}
use expense_management_syste.Graph.Http.{Entry, Outcome, Settings, Outside}
use expense_management_syste.Graph.Collected.{Served}
use expense_management_syste.Graph.Client.{NodeCache, Runtime, Wire, paginate_graph_collection}
use expense_management_syste.Graph.Sends.{Sends}

module _ {Store : Type 0} (cache : NodeCache Store) (settings : Settings) (outside : Outside)
    (runtime : Runtime) where
  -- What a collection that was read has: it is complete, and what Graph served to the token that was
  -- granted for the user's, in answer to requests that were made from `w` on and before that number.
  abbrev pub Complete : Text → Text → Text → ℕ → Wire Store → ℕ → Outcome (List Entry) → Type 0
  Complete user_token first prefix page_cap w until (Outcome.failed e) = Unit
  Complete user_token first prefix page_cap w until (Outcome.done entries) =
      (token : Text) × Granted cache settings outside runtime user_token w token
      × (n : ℕ) × (n ≤ page_cap)
      × Served settings outside token prefix (length w.traffic.requests) until n (some first)
          entries

module _ {Store : Type 0} (cache : NodeCache Store) (settings : Settings) (outside : Outside)
    (runtime : Runtime) (some_attempt : 1 ≤ settings.retry_max_attempts) where
  module _ (first prefix user_token : Text) (page_cap : ℕ) where
    abbrev fetch : Wire Store → Outcome (List Entry) × Wire Store
    fetch =
        paginate_graph_collection cache settings outside runtime first prefix page_cap user_token
