-- ===== src/Graph/Http.antt =====
-- server/src/services/graphApi.ts: one request, with its retries.
use expense_management_syste.Base.{
  ℕ, zero, suc, ◌+◌, ◌-◌, ◌*◌, Bool, true, false, not, ◌||◌, Option, none, some, List, [], ◌∷◌,
  ◌++◌, String, Text, length, leb, ◌==◌, if◌then◌else◌, min,
}
use expense_management_syste.Requests.{trim, is_empty}

-- What the client reads of a user or a group that Graph sends; `none` is a missing or null attribute,
-- or an id that is no string.
pub record Entry : Type 0 where
  pub id : Option Text
  pub display_name : Option Text
  pub mail : Option Text
  pub job_title : Option Text
  pub department : Option Text
  pub employee_id : Option Text
  pub office_location : Option Text

-- The `manager` of a profile with the managers above it, nearest first.
pub data Above : Type 0 where
  nobody : Above
  manager : Entry → Above → Above

-- The members of a response's body that some caller reads. `value` is `none` when it is no array.
pub record Body : Type 0 where
  pub value : Option (List Entry)
  pub next_link : Option Text
  pub access_token : Option Text
  pub expires_in : Option ℕ
  pub profile : Entry
  pub above : Above

-- The members of an error's body, and its headers.
pub record ErrorReply : Type 0 where
  pub status : ℕ
  pub retry_after : Option Text
  pub error : Option Text
  pub suberror : Option Text
  pub error_codes : List ℕ

-- An axios error with a response or without one, an error of the client's own, a GraphApiAuthError
-- that asks for consent, or a rejection with `undefined`.
pub data Failure : Type 0 where
  replied : ErrorReply → Failure
  no_reply : Failure
  thrown : String → Failure
  consent_required : Failure
  nothing : Failure

pub data Outcome (A : Type 0) : Type 0 where
  done : A → Outcome A
  failed : Failure → Outcome A

pub data Method : Type 0 where
  get post : Method

-- What identifies a request: the token that it carries is the Graph token or the form of an exchange.
pub record HttpRequest : Type 0 where
  pub method : Method
  pub url : Text
  pub authorization : Option Text

-- The bounds that the environment sets.
pub record Settings : Type 0 where
  pub retry_max_attempts : ℕ
  pub retry_base_ms : ℕ
  pub retry_max_delay_ms : ℕ
  pub max_direct_report_pages : ℕ
  pub max_group_pages : ℕ
  pub graph_max_chain_depth : ℕ

-- The parts of a parsed URL; `href` is `toString()`.
pub record Url : Type 0 where
  pub protocol : Text
  pub hostname : Text
  pub pathname : Text
  pub href : Text

-- The outside of the client. `answer n r` is what the n-th request of the process gets, `r` being the
-- request. `parse_url` is `new URL`, `none` where that throws. `number_ms` is `Math.max(0, Number(s) * 1000)` where that is finite, and `date_ms` is
-- `Math.max(0, Date.parse(s) - Date.now())` where that is.
pub record Outside : Type 0 where
  pub answer : ℕ → HttpRequest → Outcome Body
  pub parse_url : Text → Option Url
  pub number_ms : Text → Option ℕ
  pub date_ms : Text → Option ℕ

-- What the client has done: its requests, and the waits between them, each with the latest last.
pub record Traffic : Type 0 where
  pub requests : List HttpRequest
  pub waits : List ℕ

abbrev retryable_status : ℕ → Bool
retryable_status status = (status == 429) || (status == 502) || (status == 503) || (status == 504)

-- `isRetryableError`
abbrev pub is_retryable_error : Failure → Bool
is_retryable_error (Failure.replied reply) = retryable_status reply.status
is_retryable_error Failure.no_reply = true
is_retryable_error _ = false

-- `parseRetryAfterMs`
unfoldable pub parse_retry_after_ms : Outside → Option Text → Option ℕ
parse_retry_after_ms outside none = none
parse_retry_after_ms outside (some header) =
    if is_empty (trim header)
    then none
    else elim (outside.number_ms header) [ some ms ↦ some ms | none ↦ outside.date_ms header ]

abbrev pow2 : ℕ → ℕ
pow2 zero = 1
pow2 (suc n) = 2 * pow2 n

-- `retryDelayMs`
unfoldable pub retry_delay_ms : Settings → Outside → ℕ → Option Text → ℕ
unfolding parse_retry_after_ms
retry_delay_ms settings outside attempt header = elim (parse_retry_after_ms outside header) [
  | some after ↦ min after settings.retry_max_delay_ms
  | none ↦ min (settings.retry_base_ms * pow2 (attempt - 1)) settings.retry_max_delay_ms
]

abbrev pub retry_after_of : Failure → Option Text
retry_after_of (Failure.replied reply) = reply.retry_after
retry_after_of _ = none

abbrev pub asked : HttpRequest → Traffic → Traffic
asked config t = record t { requests = t.requests ++ config ∷ [] }

-- `sleep`
abbrev pub waited : ℕ → Traffic → Traffic
waited ms t = record t { waits = t.waits ++ ms ∷ [] }

module _ (settings : Settings) (outside : Outside) where
  -- The `for` loop, from the given attempt on. `left` is how many attempts are left.
  unfoldable pub attempts_from : ℕ → ℕ → HttpRequest → Traffic → Outcome Body × Traffic
  unfolding retry_delay_ms
  attempts_from zero attempt config t = (Outcome.failed Failure.nothing, t)
  attempts_from (suc left) attempt config t =
      let reply = outside.answer (length t.requests) config in
      elim reply [
        | Outcome.done body ↦ (Outcome.done body, asked config t)
        | Outcome.failed e ↦
            let again = attempts_from left (attempt + 1) config (
              waited (retry_delay_ms settings outside attempt (retry_after_of e))
                (asked config t)) in
            if leb settings.retry_max_attempts attempt || not (is_retryable_error e)
            then (Outcome.failed e, asked config t)
            else again
      ]

  -- `graphRequest`
  unfoldable pub graph_request : HttpRequest → Traffic → Outcome Body × Traffic
  unfolding attempts_from
  graph_request config t = attempts_from settings.retry_max_attempts 1 config t
