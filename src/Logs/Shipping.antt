-- ===== src/Logs/Shipping.antt =====
-- What holds of the transport of server/src/config/pulsarLogsTransport.ts after any events.
use mathlib.Core.Path.{subst}
use expense_management_syste.Base.{
  ℕ, ◌+◌, List, [], ◌∷◌, ◌++◌, refl, arith, length, append_assoc, ltb, if◌then◌else◌,
}
use expense_management_syste.Logs.Row.{LogRow}
use expense_management_syste.Logs.State.{
  PulsarLogsTransport, Notice, started, max_buffer_rows, overflow, dropping_oldest, report_error,
  sent,
}
use expense_management_syste.Logs.Shipper.{LogEvent, enqueue, transport_step}
use expense_management_syste.Logs.Books.{
  flying, Accounts, Inv, dropping_oldest-Accounts, log-Accounts, report_error-Same, Same-Inv,
  dropping_oldest-Fit, either_way,
}
use expense_management_syste.Logs.Sends.{drain_start-Inv, flush_again-Inv, flush_start-Inv}
use expense_management_syste.Logs.Answers.{settled_rows, unrelated, no_line, answered-Inv}

module _ (row_bytes : LogRow → ℕ) {logged settled : List LogRow} where
  enqueue-Inv :
      (now : ℕ) (row : LogRow) (s : PulsarLogsTransport)
      → Inv logged settled s
      → Inv (logged ++ row ∷ []) settled (enqueue row_bytes now row s)
  unfolding enqueue
  enqueue-Inv now row s v =
      either_way (Inv longer settled) _ _ _ (λ full. drain_start-Inv row_bytes now _ kept)
        (λ waits. kept)
    where
      longer : List LogRow
      longer = logged ++ row ∷ []

      queue : List LogRow
      queue = s.queue ++ row ∷ []

      books : Accounts longer settled s.dropped (flying s ++ queue)
      books =
          subst (Accounts longer settled s.dropped) (append_assoc (flying s) s.queue (row ∷ []))
            (log-Accounts s.dropped (flying s ++ s.queue) row v.books)

      kept : Inv longer settled (
          if ltb max_buffer_rows (length queue)
          then report_error now
              (Notice.buffer_full (overflow queue) (s.dropped + overflow queue))
              (dropping_oldest queue s)
          else record s { queue = queue })
      kept =
          either_way (Inv longer settled) (ltb max_buffer_rows (length queue)) _ _
            (λ over.
              Same-Inv (dropping_oldest queue s) _
                (report_error-Same now _ (dropping_oldest queue s))
                (record {
                  fit = dropping_oldest-Fit queue s v.fit;
                  busy = v.busy;
                  small = v.small;
                  books = dropping_oldest-Accounts s.dropped (flying s) queue books;
                }))
            (λ fits. record {
              fit = record {
                bounded = ground (arith, fits);
                backoff_low = v.fit.backoff_low;
                backoff_high = v.fit.backoff_high;
              };
              busy = v.busy;
              small = v.small;
              books = books;
            })

-- What an event logs, and what it settles
abbrev pub logged_by : LogEvent → List LogRow
logged_by (LogEvent.logs row) = row ∷ []
logged_by _ = []

abbrev pub settled_by : LogEvent → PulsarLogsTransport → List LogRow
settled_by (LogEvent.answers response) s = settled_rows (sent response) (flying s)
settled_by _ s = []

module _ (row_bytes : LogRow → ℕ) where
  transport_step-Inv :
      {logged settled : List LogRow} (now : ℕ) (e : LogEvent) (s : PulsarLogsTransport)
      → Inv logged settled s
      → Inv (logged ++ logged_by e) (settled ++ settled_by e s) (transport_step row_bytes now e s)
  unfolding transport_step
  transport_step-Inv now (LogEvent.logs row) s v = unrelated _ (enqueue-Inv row_bytes now row s v)
  transport_step-Inv now (LogEvent.answers response) s v =
      no_line _ (answered-Inv row_bytes now response s v)
  transport_step-Inv {logged} {settled} now LogEvent.ticks s v = no_line _ (
      unrelated _ (
        either_way (Inv logged settled) s.timer _ s (λ on. drain_start-Inv row_bytes now s v)
          (λ off. v)))
  transport_step-Inv now LogEvent.shuts_down s v =
      no_line _ (unrelated _ (flush_start-Inv row_bytes now s v))
  transport_step-Inv now LogEvent.wakes s v =
      no_line _ (unrelated _ (flush_again-Inv row_bytes now s v))

  -- A history: the rows logged and settled so far, and the transport
  abbrev pub History : Type 0
  History = List LogRow × List LogRow × PulsarLogsTransport

  unfoldable pub play : List (ℕ × LogEvent) → History → History
  unfolding transport_step
  play [] h = h
  play ((now, e) ∷ events) (logged, settled, s) =
      play events
        (logged ++ logged_by e, settled ++ settled_by e s, transport_step row_bytes now e s)

  play-Inv_from :
      (events : List (ℕ × LogEvent)) (logged settled : List LogRow) (s : PulsarLogsTransport)
      → Inv logged settled s
      → (let (l, t, after) = play events (logged, settled, s) in Inv l t after)
  unfolding play
  play-Inv_from [] logged settled s v = v
  play-Inv_from ((now, e) ∷ events) logged settled s v =
      play-Inv_from events (logged ++ logged_by e) (settled ++ settled_by e s)
        (transport_step row_bytes now e s) (transport_step-Inv now e s v)

  -- Whatever log lines, timer ticks, answers, shutdown and wake-ups arrive, in any order and at any times:
  -- the queue has at most 10,000 rows, and the request under way at most 200; the backoff is between 5 and
  -- 60 seconds; `flushing` is set just while a request is under way; each row that was logged is settled by the endpoint,
  -- counted as dropped, in that request or in the queue, by their numbers; and as long as nothing was
  -- dropped, the settled rows, those of the request and the queue are the logged rows, each once and in
  -- their order.
  pub play-Inv :
      (events : List (ℕ × LogEvent))
      → (let (logged, settled, s) = play events ([], [], started) in Inv logged settled s)
  play-Inv events = play-Inv_from events [] [] started (record {
    fit = record { bounded = omega arith; backoff_low = omega arith; backoff_high = omega arith };
    busy = refl;
    small = omega arith;
    books = record { counted = omega arith; in_order = λ h. refl };
  })
