-- ===== src/Logs/State.antt =====
-- The state of `PulsarLogsTransport` of server/src/config/pulsarLogsTransport.ts, and the methods that do not
-- send.
use expense_management_syste.Base.{
  ℕ, ◌+◌, ◌-◌, ◌*◌, min, Bool, true, false, ◌||◌, ◌&&◌, Option, none, List, [], ◌∷◌, ◌++◌, length,
  drop, ltb, leb, ◌==◌, if◌then◌else◌,
}
use expense_management_syste.Logs.Row.{LogRow}

abbrev pub batch_rows : ℕ
batch_rows = 200

abbrev pub batch_bytes : ℕ
batch_bytes = 200000

abbrev pub max_buffer_rows : ℕ
max_buffer_rows = 10000

abbrev pub request_timeout_ms : ℕ
request_timeout_ms = 10000

abbrev pub shutdown_flush_ms : ℕ
shutdown_flush_ms = 4000

abbrev pub backoff_base_ms : ℕ
backoff_base_ms = 5000

abbrev pub backoff_max_ms : ℕ
backoff_max_ms = 60000

abbrev pub warn_throttle_ms : ℕ
warn_throttle_ms = 60000

-- What goes to stderr.
pub data Notice : Type 0 where
  buffer_full : ℕ → ℕ → Notice
  returned : ℕ → Notice
  rejected : ℕ → ℕ → Notice
  request_failed : Notice
  recovered : Notice
  flush_incomplete : ℕ → Notice

-- Who awaits the answer to a batch.
pub data Sender : Type 0 where
  drain flush : Sender

pub record PulsarLogsTransport : Type 0 where
  pub queue : List LogRow
  pub flushing : Bool
  pub next_attempt_at : ℕ
  pub backoff_ms : ℕ
  pub dropped : ℕ
  pub last_warn_at : ℕ
  pub healthy : Bool
  pub timer : Bool
  pub stderr : List Notice
  -- The batch of `drain` or of `flush` whose request is under way.
  pub in_flight : Option (Sender × List LogRow)
  -- The deadline of a `flush` that waits for its turn.
  pub deadline : Option ℕ

-- `new PulsarLogsTransport`
abbrev pub started : PulsarLogsTransport
started = record {
  queue = [];
  flushing = false;
  next_attempt_at = 0;
  backoff_ms = backoff_base_ms;
  dropped = 0;
  last_warn_at = 0;
  healthy = true;
  timer = true;
  stderr = [];
  in_flight = none;
  deadline = none;
}

-- `reportError`
unfoldable pub report_error : ℕ → Notice → PulsarLogsTransport → PulsarLogsTransport
report_error now notice s =
    if ltb now (s.last_warn_at + warn_throttle_ms)
    then s
    else record s { last_warn_at = now; stderr = s.stderr ++ notice ∷ [] }

-- The rows over the ceiling, which are dropped
abbrev pub overflow : List LogRow → ℕ
overflow queue = length queue - max_buffer_rows

-- `splice(0, overflow)`
abbrev pub dropping_oldest : List LogRow → PulsarLogsTransport → PulsarLogsTransport
dropping_oldest queue s = record s {
  queue = drop (overflow queue) queue;
  dropped = s.dropped + overflow queue;
}

-- `requeue`
unfoldable pub requeue : List LogRow → PulsarLogsTransport → PulsarLogsTransport
requeue batch s = dropping_oldest (batch ++ s.queue) s

-- `onSuccess`
unfoldable pub on_success : PulsarLogsTransport → PulsarLogsTransport
on_success s =
    let calm = record s { next_attempt_at = 0; backoff_ms = backoff_base_ms } in
    if s.healthy
    then calm
    else record calm { healthy = true; stderr = calm.stderr ++ Notice.recovered ∷ [] }

-- `onFailure`
unfoldable pub on_failure : ℕ → PulsarLogsTransport → PulsarLogsTransport
on_failure now s = record s {
  next_attempt_at = now + s.backoff_ms;
  backoff_ms = min (s.backoff_ms * 2) backoff_max_ms;
  healthy = false;
}

-- How `send` ends: with a status, with an exception of `fetch`, or without a request, since the deadline
-- has passed.
pub data Response : Type 0 where
  status : ℕ → Response
  failed : Response
  too_late : Response

pub data Sent : Type 0 where
  ok retry gave_up : Sent

-- `res.ok`, the statuses that are tried again, and the others
unfoldable pub sent : Response → Sent
sent Response.failed = Sent.retry
sent Response.too_late = Sent.retry
sent (Response.status code) =
    if leb 200 code && ltb code 300
    then Sent.ok
    else if (code == 429) || leb 500 code
    then Sent.retry
    else Sent.gave_up

-- The diagnostics of `send`
unfoldable pub report_sent : ℕ → List LogRow → Response → PulsarLogsTransport → PulsarLogsTransport
unfolding report_error
report_sent now batch Response.failed s = report_error now Notice.request_failed s
report_sent now batch Response.too_late s = s
report_sent now batch (Response.status code) s =
    if leb 200 code && ltb code 300
    then s
    else if (code == 429) || leb 500 code
    then report_error now (Notice.returned code) s
    else report_error now (Notice.rejected (length batch) code) s
