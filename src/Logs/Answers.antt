-- ===== src/Logs/Answers.antt =====
-- What the answer to a request of server/src/config/pulsarLogsTransport.ts keeps.
use mathlib.Core.Path.{subst}
use expense_management_syste.Base.{
  ℕ, ◌||◌, ◌&&◌, Option, none, some, List, [], ◌++◌, ◌≡◌, refl, sym, ap, ◌∙◌, length, append_nil,
  ltb, leb, ◌==◌,
}
use expense_management_syste.Logs.Row.{LogRow}
use expense_management_syste.Logs.State.{
  PulsarLogsTransport, Sender, Notice, Response, Sent, requeue, on_success, on_failure, sent,
  report_sent,
}
use expense_management_syste.Logs.Shipper.{drain_answered, flush_answered, answered}
use expense_management_syste.Logs.Books.{
  flying, Accounts, Fit, Inv, dropping_oldest-Accounts, settle-Accounts, Same, Same-refl,
  report_error-Same, Same-Inv, dropping_oldest-Fit, on_success-Fit, on_failure-Fit,
  on_success-queue, either_way,
}
use expense_management_syste.Logs.Sends.{idle-Inv, drain_next-Inv, flush_end-Inv, flush_again-Inv}

-- The rows that an answer settles: those of its request, unless they are sent again
abbrev pub settled_rows : Sent → List LogRow → List LogRow
settled_rows Sent.ok batch = batch
settled_rows Sent.retry batch = []
settled_rows Sent.gave_up batch = batch

pub unrelated :
    {logged settled : List LogRow} (s : PulsarLogsTransport)
    → Inv logged settled s
    → Inv logged (settled ++ []) s
unrelated {logged} {settled} s v = subst (λ l. Inv logged l s) (sym (append_nil settled)) v

pub no_line :
    {logged settled : List LogRow} (s : PulsarLogsTransport)
    → Inv logged settled s
    → Inv (logged ++ []) settled s
no_line {logged} {settled} s v = subst (λ l. Inv l settled s) (sym (append_nil logged)) v

settled_none : (o : Sent) → settled_rows o [] ≡ []
settled_none Sent.ok = refl
settled_none Sent.retry = refl
settled_none Sent.gave_up = refl

sent_batch :
    {s t : PulsarLogsTransport} (sender : Sender) (batch : List LogRow)
    → Same s t
    → s.in_flight ≡ some (sender, batch)
    → flying t ≡ batch
sent_batch sender batch told same =
    ap (λ (request : Option (Sender × List LogRow)). elim request [ none ↦ [] | some (_, b) ↦ b ])
      (told.in_flight ∙ same)

report_sent-Same :
    (now : ℕ) (batch : List LogRow) (response : Response) (s : PulsarLogsTransport)
    → Same s (report_sent now batch response s)
unfolding report_sent
report_sent-Same now batch Response.failed s = report_error-Same now Notice.request_failed s
report_sent-Same now batch Response.too_late s = Same-refl s
report_sent-Same now batch (Response.status code) s =
    either_way (Same s) (leb 200 code && ltb code 300) s _ (λ fine. Same-refl s)
      (λ wrong.
        either_way (Same s) ((code == 429) || leb 500 code) _ _
          (λ again. report_error-Same now (Notice.returned code) s)
          (λ never. report_error-Same now (Notice.rejected (length batch) code) s))

module _ (row_bytes : LogRow → ℕ) {logged settled : List LogRow} where
  requeue-Inv :
      (batch : List LogRow) (s : PulsarLogsTransport)
      → Fit s
      → Accounts logged settled s.dropped (batch ++ s.queue)
      → Fit (requeue batch s)
        × Accounts logged settled (requeue batch s).dropped (requeue batch s).queue
  unfolding requeue
  requeue-Inv batch s v a = (
    dropping_oldest-Fit (batch ++ s.queue) s v,
    dropping_oldest-Accounts s.dropped [] (batch ++ s.queue) a,
  )

  drain_answered-Inv :
      (now : ℕ) (batch : List LogRow) (outcome : Sent) (s : PulsarLogsTransport)
      → flying s ≡ batch
      → Inv logged settled s
      → Inv logged
          (settled ++ settled_rows outcome batch)
          (drain_answered row_bytes now batch outcome s)
  unfolding drain_answered on_failure
  drain_answered-Inv now batch outcome s same v = by_outcome outcome
    where
      books : Accounts logged settled s.dropped (batch ++ s.queue)
      books = subst (λ l. Accounts logged settled s.dropped (l ++ s.queue)) same v.books

      by_outcome :
          (o : Sent)
          → Inv logged (settled ++ settled_rows o batch) (drain_answered row_bytes now batch o s)
      by_outcome Sent.ok = drain_next-Inv row_bytes (on_success s) (on_success-Fit s v.fit) (
          rw ((on_success-queue s).0, (on_success-queue s).1)
            (settle-Accounts s.dropped batch s.queue books))
      by_outcome Sent.retry =
          let (fit, rest) = requeue-Inv batch s v.fit books in
          unrelated _ (
            idle-Inv row_bytes (on_failure now (requeue batch s))
              (on_failure-Fit now (requeue batch s) fit) rest)
      by_outcome Sent.gave_up =
          drain_next-Inv row_bytes s v.fit (settle-Accounts s.dropped batch s.queue books)

  flush_answered-Inv :
      (now : ℕ) (batch : List LogRow) (outcome : Sent) (s : PulsarLogsTransport)
      → flying s ≡ batch
      → Inv logged settled s
      → Inv logged
          (settled ++ settled_rows outcome batch)
          (flush_answered row_bytes now batch outcome s)
  unfolding flush_answered
  flush_answered-Inv now batch outcome s same v = by_outcome outcome
    where
      books : Accounts logged settled s.dropped (batch ++ s.queue)
      books = subst (λ l. Accounts logged settled s.dropped (l ++ s.queue)) same v.books

      by_outcome :
          (o : Sent)
          → Inv logged (settled ++ settled_rows o batch) (flush_answered row_bytes now batch o s)
      by_outcome Sent.ok =
          flush_again-Inv row_bytes now _
            (idle-Inv row_bytes s v.fit (settle-Accounts s.dropped batch s.queue books))
      by_outcome Sent.retry =
          let (fit, rest) = requeue-Inv batch s v.fit books in
          unrelated _ (flush_end-Inv row_bytes _ (idle-Inv row_bytes (requeue batch s) fit rest))
      by_outcome Sent.gave_up =
          flush_again-Inv row_bytes now _
            (idle-Inv row_bytes s v.fit (settle-Accounts s.dropped batch s.queue books))

  pub answered-Inv :
      (now : ℕ) (response : Response) (s : PulsarLogsTransport)
      → Inv logged settled s
      → Inv logged
          (settled ++ settled_rows (sent response) (flying s))
          (answered row_bytes now response s)
  unfolding answered
  answered-Inv now response s v = by_request s.in_flight refl
    where
      by_request :
          (request : Option (Sender × List LogRow))
          → s.in_flight ≡ request
          → Inv logged
              (settled
                ++ settled_rows
                    (sent response)
                    (elim request [ none ↦ [] | some (_, batch) ↦ batch ]))
              (elim request [
                | none ↦ s
                | some (Sender.drain, batch) ↦
                    drain_answered row_bytes now batch
                      (sent response)
                      (report_sent now batch response s)
                | some (Sender.flush, batch) ↦
                    flush_answered row_bytes now batch
                      (sent response)
                      (report_sent now batch response s)
              ])
      by_request none same = rw (settled_none (sent response)) (unrelated s v)
      by_request (some (Sender.drain, batch)) same =
          let told = report_sent-Same now batch response s in
          drain_answered-Inv now batch (sent response) (report_sent now batch response s)
            (sent_batch Sender.drain batch told same) (Same-Inv s _ told v)
      by_request (some (Sender.flush, batch)) same =
          let told = report_sent-Same now batch response s in
          flush_answered-Inv now batch (sent response) (report_sent now batch response s)
            (sent_batch Sender.flush batch told same) (Same-Inv s _ told v)

-- CUT
