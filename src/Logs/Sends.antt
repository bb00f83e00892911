-- ===== src/Logs/Sends.antt =====
-- What `drain` and `flush` of server/src/config/pulsarLogsTransport.ts keep until they send.
use mathlib.Core.Path.{subst}
use expense_management_syste.Base.{
  ℕ, true, false, ◌||◌, Option, none, some, List, [], ◌∷◌, ◌++◌, ◌≡◌, refl, sym, ap, ◌⊎◌, inl, inr,
  arith, length, length-append, ltb, leb, is_some,
}
use expense_management_syste.Logs.Row.{LogRow}
use expense_management_syste.Logs.State.{PulsarLogsTransport, Sender}
use expense_management_syste.Logs.Shipper.{
  take_batch, sending, idle, drain_next, drain_start, flush_end, flush_next, flush_start,
  flush_again,
}
use expense_management_syste.Logs.Batch.{take_rows-append, take_rows-length}
use expense_management_syste.Logs.Books.{Accounts, Fit, Inv, Same-Inv, either_way}

drain_next_cases :
    (row_bytes : LogRow → ℕ) (s : PulsarLogsTransport)
    → (drain_next row_bytes s ≡ idle row_bytes s)
      ⊎ (drain_next row_bytes s ≡ sending row_bytes Sender.drain s)
unfolding drain_next
drain_next_cases row_bytes s = by_queue s.queue
  where
    by_queue :
        (queue : List LogRow)
        → (let next : PulsarLogsTransport = elim queue [
          | [] ↦ idle row_bytes s
          | row ∷ rest ↦ sending row_bytes Sender.drain s
        ] in
            (next ≡ idle row_bytes s) ⊎ (next ≡ sending row_bytes Sender.drain s))
    by_queue [] = inl refl
    by_queue (row ∷ rest) = inr refl

module _ (row_bytes : LogRow → ℕ) {logged settled : List LogRow} where
  pub idle-Inv :
      (s : PulsarLogsTransport)
      → Fit s
      → Accounts logged settled s.dropped s.queue
      → Inv logged settled (idle row_bytes s)
  idle-Inv s v a = record {
    fit = record {
      bounded = v.bounded;
      backoff_low = v.backoff_low;
      backoff_high = v.backoff_high;
    };
    busy = refl;
    small = omega arith;
    books = a;
  }

  sending-Inv :
      (sender : Sender) (s : PulsarLogsTransport)
      → Fit s
      → Accounts logged settled s.dropped s.queue
      → Inv logged settled (sending row_bytes sender s)
  unfolding take_batch
  sending-Inv sender s v a =
      let whole = take_rows-append row_bytes 0 128 s.queue in
      let short = take_rows-length row_bytes 0 128 s.queue (omega arith) in
      record {
        fit = record {
          bounded = omega (
            arith,
            v.bounded,
            ap length whole,
            length-append (take_batch row_bytes s.queue).0 (take_batch row_bytes s.queue).1,
          );
          backoff_low = v.backoff_low;
          backoff_high = v.backoff_high;
        };
        busy = refl;
        small = omega (arith, short);
        books = subst (Accounts logged settled s.dropped) (sym whole) a;
      }

  pub drain_next-Inv :
      (s : PulsarLogsTransport)
      → Fit s
      → Accounts logged settled s.dropped s.queue
      → Inv logged settled (drain_next row_bytes s)
  drain_next-Inv s v a = elim (drain_next_cases row_bytes s) [
    | inl ends ↦ subst (Inv logged settled) (sym ends) (idle-Inv s v a)
    | inr sends ↦ subst (Inv logged settled) (sym sends) (sending-Inv Sender.drain s v a)
  ]

  -- Nothing is in flight when nothing is being flushed.
  idle-Accounts :
      (s : PulsarLogsTransport)
      → s.flushing ≡ false
      → Inv logged settled s
      → Accounts logged settled s.dropped s.queue
  idle-Accounts s rests v = by_request s.in_flight refl
    where
      by_request :
          (request : Option (Sender × List LogRow))
          → s.in_flight ≡ request
          → Accounts logged settled s.dropped s.queue
      by_request none same =
          subst
            (λ (request : Option (Sender × List LogRow)).
              Accounts logged settled s.dropped
                (elim request [ none ↦ [] | some (_, batch) ↦ batch ] ++ s.queue))
            same v.books
      by_request (some b) same =
          absurd (let set : is_some s.in_flight ≡ true = ap is_some same in cc)

  pub drain_start-Inv :
      (now : ℕ) (s : PulsarLogsTransport)
      → Inv logged settled s
      → Inv logged settled (drain_start row_bytes now s)
  unfolding drain_start
  drain_start-Inv now s v =
      either_way (Inv logged settled)
        (s.flushing || ltb now s.next_attempt_at || leb (length s.queue) 0) s
        (drain_next row_bytes s) (λ stays. v)
        (λ starts. drain_next-Inv s v.fit (idle-Accounts s (ground (arith, starts)) v))

  pub flush_end-Inv :
      (s : PulsarLogsTransport) → Inv logged settled s → Inv logged settled (flush_end row_bytes s)
  flush_end-Inv s v =
      Same-Inv s (flush_end row_bytes s)
        (record {
          queue = refl;
          flushing = refl;
          backoff_ms = refl;
          dropped = refl;
          in_flight = refl;
        })
        v

  flush_next-Inv :
      (deadline now : ℕ) (s : PulsarLogsTransport)
      → Inv logged settled s
      → Inv logged settled (flush_next row_bytes deadline now s)
  unfolding flush_next
  flush_next-Inv deadline now s v =
      either_way (Inv logged settled) (leb (length s.queue) 0 || leb deadline now)
        (flush_end row_bytes s) _ (λ ends. flush_end-Inv s v)
        (λ goes_on.
          either_way (Inv logged settled) s.flushing s (sending row_bytes Sender.flush s)
            (λ busy. v) (λ rests. sending-Inv Sender.flush s v.fit (idle-Accounts s rests v)))

  pub flush_again-Inv :
      (now : ℕ) (s : PulsarLogsTransport)
      → Inv logged settled s
      → Inv logged settled (flush_again row_bytes now s)
  flush_again-Inv now s v = by_deadline s.deadline
    where
      by_deadline :
          (deadline : Option ℕ)
          → Inv logged settled (elim deadline [ none ↦ s | some d ↦ flush_next row_bytes d now s ])
      by_deadline none = v
      by_deadline (some d) = flush_next-Inv d now s v

  pub flush_start-Inv :
      (now : ℕ) (s : PulsarLogsTransport)
      → Inv logged settled s
      → Inv logged settled (flush_start row_bytes now s)
  unfolding flush_start
  flush_start-Inv now s v = flush_next-Inv _ now _ (
      Same-Inv s _
        (record {
          queue = refl;
          flushing = refl;
          backoff_ms = refl;
          dropped = refl;
          in_flight = refl;
        })
        v)
