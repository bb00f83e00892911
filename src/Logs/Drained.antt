-- ===== src/Logs/Drained.antt =====
-- A drain of server/src/config/pulsarLogsTransport.ts comes to an end.
use mathlib.Core.Path.{subst}
use expense_management_syste.Base.{
  ℕ, ◌<◌, false, Option, none, some, List, [], ◌∷◌, ◌++◌, ◌≡◌, refl, sym, ap, ◌∙◌, inl, inr, arith,
  length, length-append, List-cases,
}
use expense_management_syste.Logs.Row.{LogRow}
use expense_management_syste.Logs.State.{
  PulsarLogsTransport, Sender, Response, on_success, sent, report_sent,
}
use expense_management_syste.Logs.Shipper.{
  LogEvent, take_batch, sending, idle, drain_next, drain_answered, flush_answered, answered,
  transport_step,
}
use expense_management_syste.Logs.Batch.{take_batch-bounds}
use expense_management_syste.Logs.Books.{flying, on_success-queue}

module _ (row_bytes : LogRow → ℕ) where
  -- The endpoint accepts one request after the other, at these times.
  unfoldable pub all_accepted : List ℕ → PulsarLogsTransport → PulsarLogsTransport
  unfolding transport_step
  all_accepted [] s = s
  all_accepted (now ∷ times) s =
      all_accepted times (transport_step row_bytes now (LogEvent.answers (Response.status 200)) s)

  -- The rows of the requests that it accepts, in the order in which they were sent.
  unfoldable pub accepted_rows : List ℕ → PulsarLogsTransport → List LogRow
  unfolding transport_step
  accepted_rows [] s = []
  accepted_rows (now ∷ times) s =
      flying s
      ++ accepted_rows times
          (transport_step row_bytes now (LogEvent.answers (Response.status 200)) s)

  -- Nothing is held, and nothing is under way.
  abbrev pub IsDrained : PulsarLogsTransport → Type 0
  IsDrained s = (s.queue ≡ []) × (s.in_flight ≡ none) × (s.flushing ≡ false)

  drain_next_empty :
      (s : PulsarLogsTransport) → s.queue ≡ [] → drain_next row_bytes s ≡ idle row_bytes s
  unfolding drain_next
  drain_next_empty s h =
      ap
        (λ (queue : List LogRow). elim queue [
          | [] ↦ idle row_bytes s
          | row ∷ rest ↦ sending row_bytes Sender.drain s
        ])
        h

  drain_next_full :
      (s : PulsarLogsTransport) {row : LogRow} {rest : List LogRow}
      → s.queue ≡ row ∷ rest
      → drain_next row_bytes s ≡ sending row_bytes Sender.drain s
  unfolding drain_next
  drain_next_full s h =
      ap
        (λ (queue : List LogRow). elim queue [
          | [] ↦ idle row_bytes s
          | row ∷ rest ↦ sending row_bytes Sender.drain s
        ])
        h

  abbrev accepted : ℕ → PulsarLogsTransport → Option (Sender × List LogRow) → PulsarLogsTransport
  accepted now s request = elim request [
    | none ↦ s
    | some (Sender.drain, batch) ↦
        drain_answered row_bytes now batch (sent (Response.status 200))
          (report_sent now batch (Response.status 200) s)
    | some (Sender.flush, batch) ↦
        flush_answered row_bytes now batch (sent (Response.status 200))
          (report_sent now batch (Response.status 200) s)
  ]

  step_drain :
      (now : ℕ) (s : PulsarLogsTransport) {batch : List LogRow}
      → s.in_flight ≡ some (Sender.drain, batch)
      → transport_step row_bytes now (LogEvent.answers (Response.status 200)) s
        ≡ drain_next row_bytes (on_success s)
  unfolding transport_step answered drain_answered sent report_sent
  step_drain now s h = ap (accepted now s) h

  all_accepted_idle :
      (times : List ℕ) (s : PulsarLogsTransport) → s.in_flight ≡ none → all_accepted times s ≡ s
  unfolding all_accepted transport_step answered
  all_accepted_idle [] s h = refl
  all_accepted_idle (now ∷ times) s h =
      ap (all_accepted times) (ap (accepted now s) h) ∙ all_accepted_idle times s h

  accepted_rows_idle :
      (times : List ℕ) (s : PulsarLogsTransport) → s.in_flight ≡ none → accepted_rows times s ≡ []
  unfolding accepted_rows transport_step answered
  accepted_rows_idle [] s h = refl
  accepted_rows_idle (now ∷ times) s h =
      let quiet : flying s ≡ [] = ap (λ o. elim o [ none ↦ [] | some (_, batch) ↦ batch ]) h in
      let still = ap (accepted now s) h in
      ap (λ l. l ++ accepted_rows times (accepted now s s.in_flight)) quiet
      ∙ ap (accepted_rows times) still
      ∙ accepted_rows_idle times s h

  -- Each accepted request shortens the queue.
  sending_shorter :
      (s : PulsarLogsTransport) {row : LogRow} {rest : List LogRow}
      → s.queue ≡ row ∷ rest
      → length (take_batch row_bytes s.queue).1 < length s.queue
  sending_shorter s h =
      let (whole, some_row, _, _, _) = take_batch-bounds row_bytes s.queue h in
      omega (
        arith,
        ap length whole,
        some_row,
        length-append (take_batch row_bytes s.queue).0 (take_batch row_bytes s.queue).1,
      )

  -- While a drain awaits the answer to its request and no line is logged: when the endpoint accepts as
  -- many requests as the queue has rows, and one more, at whatever times, those that it accepts have the
  -- rows under way and then all rows of the queue, each once and in their order; and the drain has ended:
  -- the queue is empty, and nothing is under way.
  pub all_accepted-IsDrained :
      (times : List ℕ) (s : PulsarLogsTransport) {batch : List LogRow}
      → s.in_flight ≡ some (Sender.drain, batch)
      → length s.queue < length times
      → IsDrained (all_accepted times s) × (accepted_rows times s ≡ batch ++ s.queue)
  unfolding all_accepted accepted_rows
  all_accepted-IsDrained [] s busy enough = absurd (omega (arith, enough))
  all_accepted-IsDrained (now ∷ times) s {batch} busy enough =
      let first : flying s ≡ batch = ap (λ o. elim o [ none ↦ [] | some (_, rows) ↦ rows ]) busy in
      let next = on_success s in
      let same = (on_success-queue s).0 in
      elim (List-cases s.queue) [
        | inl empty ↦
            let ends = step_drain now s busy ∙ drain_next_empty next (same ∙ empty) in
            subst
              (λ t.
                IsDrained (all_accepted times t)
                × (flying s ++ accepted_rows times t ≡ batch ++ s.queue))
              (sym ends)
              (
                subst IsDrained (sym (all_accepted_idle times (idle row_bytes next) refl))
                    (same ∙ empty, refl, refl),
                cc (first, accepted_rows_idle times (idle row_bytes next) refl, empty),
              )
        | inr (row, rest, there) ↦
            let sends = step_drain now s busy ∙ drain_next_full next (same ∙ there) in
            let shorter = sending_shorter next (same ∙ there) in
            let (whole, _, _, _, _) = take_batch-bounds row_bytes next.queue (same ∙ there) in
            let (drained, rows) =
              all_accepted-IsDrained times (sending row_bytes Sender.drain next) refl
                (omega (arith, shorter, ap length same, enough)) in
            subst
              (λ t.
                IsDrained (all_accepted times t)
                × (flying s ++ accepted_rows times t ≡ batch ++ s.queue))
              (sym sends) (drained, cc (first, rows, whole, same))
      ]
