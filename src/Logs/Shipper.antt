-- ===== src/Logs/Shipper.antt =====
-- `PulsarLogsTransport` of server/src/config/pulsarLogsTransport.ts. What runs between two awaits is one
-- step; a batch that is being sent is the state of a suspended `drain` or `flush`.
use expense_management_syste.Base.{
  ℕ, ◌+◌, suc, true, false, not, ◌||◌, ◌&&◌, none, some, List, [], ◌∷◌, ◌++◌, length, ltb, leb,
  ◌==◌, if◌then◌else◌,
}
use expense_management_syste.Logs.Row.{LogRow}
use expense_management_syste.Logs.State.{
  batch_rows, batch_bytes, max_buffer_rows, shutdown_flush_ms, Notice, Sender, PulsarLogsTransport,
  report_error, report_sent, overflow, dropping_oldest, requeue, on_success, on_failure, Response,
  Sent, sent,
}

module _ (row_bytes : LogRow → ℕ) where
  -- The loop of `takeBatch` after `n` rows of that many bytes: the rows that it takes, and the rest.
  unfoldable pub take_rows : ℕ → ℕ → List LogRow → List LogRow × List LogRow
  take_rows n bytes [] = ([], [])
  take_rows n bytes (row ∷ queue) =
      let more = take_rows (suc n) (bytes + row_bytes row) queue in
      if ltb n batch_rows && ((n == 0) || leb (bytes + row_bytes row) batch_bytes)
      then (row ∷ more.0, more.1)
      else ([], row ∷ queue)

  -- `takeBatch`, with 128 bytes for the envelope
  unfoldable pub take_batch : List LogRow → List LogRow × List LogRow
  unfolding take_rows
  take_batch queue = take_rows 0 128 queue

  -- Sends the next batch.
  abbrev pub sending : Sender → PulsarLogsTransport → PulsarLogsTransport
  sending sender s = record s {
    queue = (take_batch s.queue).1;
    flushing = true;
    in_flight = some (sender, (take_batch s.queue).0);
  }

  abbrev pub idle : PulsarLogsTransport → PulsarLogsTransport
  idle s = record s { flushing = false; in_flight = none }

  -- The `while` of `drain`, and its `finally`
  unfoldable pub drain_next : PulsarLogsTransport → PulsarLogsTransport
  unfolding take_batch
  drain_next s = elim s.queue [ [] ↦ idle s | row ∷ rest ↦ sending Sender.drain s ]

  -- `drain` up to its first await
  unfoldable pub drain_start : ℕ → PulsarLogsTransport → PulsarLogsTransport
  unfolding drain_next
  drain_start now s =
      if s.flushing || ltb now s.next_attempt_at || leb (length s.queue) 0 then s else drain_next s

  -- `enqueue`, and with it `log`
  unfoldable pub enqueue : ℕ → LogRow → PulsarLogsTransport → PulsarLogsTransport
  unfolding drain_start report_error
  enqueue now row s =
      let queue = s.queue ++ row ∷ [] in
      let kept =
        if ltb max_buffer_rows (length queue)
        then report_error now (Notice.buffer_full (overflow queue) (s.dropped + overflow queue))
            (dropping_oldest queue s)
        else record s { queue = queue } in
      if not kept.flushing && leb batch_rows (length kept.queue) && leb kept.next_attempt_at now
      then drain_start now kept
      else kept

  abbrev pub flush_end : PulsarLogsTransport → PulsarLogsTransport
  flush_end s = record s {
    deadline = none;
    stderr = elim s.queue [
      | [] ↦ s.stderr
      | row ∷ rest ↦ s.stderr ++ Notice.flush_incomplete (length s.queue) ∷ []
    ];
  }

  -- The `while` of `flush`, until it sends, sleeps or ends
  unfoldable pub flush_next : ℕ → ℕ → PulsarLogsTransport → PulsarLogsTransport
  unfolding take_batch
  flush_next deadline now s =
      if leb (length s.queue) 0 || leb deadline now
      then flush_end s
      else if s.flushing
      then s
      else sending Sender.flush s

  -- `flush` up to its first await
  unfoldable pub flush_start : ℕ → PulsarLogsTransport → PulsarLogsTransport
  unfolding flush_next
  flush_start now s =
      let deadline = now + shutdown_flush_ms in
      flush_next deadline now
        (record s { timer = false; next_attempt_at = 0; deadline = some deadline })

  abbrev pub flush_again : ℕ → PulsarLogsTransport → PulsarLogsTransport
  flush_again now s = elim s.deadline [ none ↦ s | some deadline ↦ flush_next deadline now s ]

  -- `drain` after its await
  unfoldable pub drain_answered : ℕ → List LogRow → Sent → PulsarLogsTransport → PulsarLogsTransport
  unfolding drain_next requeue on_success on_failure
  drain_answered now batch Sent.ok s = drain_next (on_success s)
  drain_answered now batch Sent.retry s = idle (on_failure now (requeue batch s))
  drain_answered now batch Sent.gave_up s = drain_next s

  -- `flush` after its await
  unfoldable pub flush_answered : ℕ → List LogRow → Sent → PulsarLogsTransport → PulsarLogsTransport
  unfolding flush_next requeue
  flush_answered now batch Sent.ok s = flush_again now (idle s)
  flush_answered now batch Sent.retry s = flush_end (idle (requeue batch s))
  flush_answered now batch Sent.gave_up s = flush_again now (idle s)

  unfoldable pub answered : ℕ → Response → PulsarLogsTransport → PulsarLogsTransport
  unfolding drain_answered flush_answered report_sent sent
  answered now response s = elim s.in_flight [
    | none ↦ s
    | some (Sender.drain, batch) ↦
        drain_answered now batch (sent response) (report_sent now batch response s)
    | some (Sender.flush, batch) ↦
        flush_answered now batch (sent response) (report_sent now batch response s)
  ]

-- What moves the transport: a log line, its timer, the answer to its request, a shutdown, and the end
-- of a sleep of `flush`.
pub data LogEvent : Type 0 where
  logs : LogRow → LogEvent
  ticks : LogEvent
  answers : Response → LogEvent
  shuts_down : LogEvent
  wakes : LogEvent

module _ (row_bytes : LogRow → ℕ) where
  unfoldable pub transport_step : ℕ → LogEvent → PulsarLogsTransport → PulsarLogsTransport
  unfolding enqueue drain_start answered flush_start flush_next
  transport_step now (LogEvent.logs row) s = enqueue row_bytes now row s
  transport_step now LogEvent.ticks s = if s.timer then drain_start row_bytes now s else s
  transport_step now (LogEvent.answers response) s = answered row_bytes now response s
  transport_step now LogEvent.shuts_down s = flush_start row_bytes now s
  transport_step now LogEvent.wakes s = elim s.deadline [
    | none ↦ s
    | some deadline ↦ flush_next row_bytes deadline now s
  ]
