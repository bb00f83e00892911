-- ===== src/Logs/Books.antt =====
-- The account that is kept of the rows of server/src/config/pulsarLogsTransport.ts.
use expense_management_syste.Base.{
  ℕ, ◌+◌, ◌-◌, ◌≤◌, zero, suc, Bool, true, false, none, some, List, [], ◌∷◌, ◌++◌, ◌≡◌, refl, sym,
  ap, ◌∙◌, arith, length, length-append, append_assoc, drop, is_some, if◌then◌else◌,
}
use expense_management_syste.Logs.Row.{LogRow}
use expense_management_syste.Logs.State.{
  PulsarLogsTransport, Notice, batch_rows, max_buffer_rows, backoff_base_ms, backoff_max_ms,
  overflow, dropping_oldest, report_error, on_success, on_failure,
}

-- The rows of the request that is under way
abbrev pub flying : PulsarLogsTransport → List LogRow
flying s = elim s.in_flight [ none ↦ [] | some (_, batch) ↦ batch ]

-- The rows that were logged are accounted for by those that the endpoint took or refused, the count of
-- dropped ones, and those that are held.
pub record Accounts (logged settled : List LogRow) (dropped : ℕ) (held : List LogRow) : Type 0 where
  pub counted : length logged ≡ length settled + dropped + length held
  pub in_order : dropped ≡ 0 → settled ++ held ≡ logged

-- The queue and the backoff keep within their bounds.
pub record Fit (s : PulsarLogsTransport) : Type 0 where
  pub bounded : length s.queue ≤ max_buffer_rows
  pub backoff_low : backoff_base_ms ≤ s.backoff_ms
  pub backoff_high : s.backoff_ms ≤ backoff_max_ms

pub record Inv (logged settled : List LogRow) (s : PulsarLogsTransport) : Type 0 where
  pub fit : Fit s
  pub busy : s.flushing ≡ is_some s.in_flight
  pub small : length (flying s) ≤ batch_rows
  pub books : Accounts logged settled s.dropped (flying s ++ s.queue)

length-drop : (n : ℕ) (l : List LogRow) → length (drop n l) ≡ length l - n
length-drop zero l = omega arith
length-drop (suc n) [] = omega arith
length-drop (suc n) (x ∷ l) = omega (arith, length-drop n l)

dropped_none : (n d : ℕ) (l : List LogRow) → d + n ≡ 0 → drop n l ≡ l
dropped_none zero d l h = refl
dropped_none (suc n) d l h = absurd (omega arith)

module _ {logged settled : List LogRow} where
  -- Rows that are spliced away are counted.
  pub dropping_oldest-Accounts :
      (dropped : ℕ) (front queue : List LogRow)
      → Accounts logged settled dropped (front ++ queue)
      → Accounts logged settled (dropped + overflow queue) (front ++ drop (overflow queue) queue)
  dropping_oldest-Accounts dropped front queue a =
      let n = overflow queue in
      record {
        counted = omega (
          arith,
          a.counted,
          length-append front queue,
          length-append front (drop n queue),
          length-drop n queue,
        );
        in_order = λ h.
            ap (λ l. settled ++ (front ++ l)) (dropped_none n dropped queue h)
            ∙ a.in_order (omega arith);
      }

  -- The endpoint has settled the first rows.
  pub settle-Accounts :
      (dropped : ℕ) (batch queue : List LogRow)
      → Accounts logged settled dropped (batch ++ queue)
      → Accounts logged (settled ++ batch) dropped queue
  settle-Accounts dropped batch queue a = record {
    counted = omega (arith, a.counted, length-append batch queue, length-append settled batch);
    in_order = λ h. append_assoc settled batch queue ∙ a.in_order h;
  }

  pub log-Accounts :
      (dropped : ℕ) (held : List LogRow) (row : LogRow)
      → Accounts logged settled dropped held
      → Accounts (logged ++ row ∷ []) settled dropped (held ++ row ∷ [])
  log-Accounts dropped held row a = record {
    counted =
        omega (arith, a.counted, length-append logged (row ∷ []), length-append held (row ∷ []));
    in_order =
        λ h. sym (append_assoc settled held (row ∷ [])) ∙ ap (λ l. l ++ row ∷ []) (a.in_order h);
  }

-- What the bookkeeping does not read may change.
pub record Same (s t : PulsarLogsTransport) : Type 0 where
  pub queue : t.queue ≡ s.queue
  pub flushing : t.flushing ≡ s.flushing
  pub backoff_ms : t.backoff_ms ≡ s.backoff_ms
  pub dropped : t.dropped ≡ s.dropped
  pub in_flight : t.in_flight ≡ s.in_flight

pub Same-refl : (s : PulsarLogsTransport) → Same s s
Same-refl s = record {
  queue = refl;
  flushing = refl;
  backoff_ms = refl;
  dropped = refl;
  in_flight = refl;
}

pub report_error-Same :
    (now : ℕ) (notice : Notice) (s : PulsarLogsTransport) → Same s (report_error now notice s)
unfolding report_error
report_error-Same now notice s = ground arith

Same-Fit : (s t : PulsarLogsTransport) → Same s t → Fit s → Fit t
Same-Fit s t same v = record {
  bounded = rw (same.queue) v.bounded;
  backoff_low = rw (same.backoff_ms) v.backoff_low;
  backoff_high = rw (same.backoff_ms) v.backoff_high;
}

pub Same-Inv :
    {logged settled : List LogRow} (s t : PulsarLogsTransport)
    → Same s t
    → Inv logged settled s
    → Inv logged settled t
Same-Inv s t same v = record {
  fit = Same-Fit s t same v.fit;
  busy = rw (same.flushing, same.in_flight) v.busy;
  small = rw (same.in_flight) v.small;
  books = rw (same.dropped, same.in_flight, same.queue) v.books;
}

pub dropping_oldest-Fit :
    (queue : List LogRow) (s : PulsarLogsTransport) → Fit s → Fit (dropping_oldest queue s)
dropping_oldest-Fit queue s v = record {
  bounded = omega (arith, length-drop (overflow queue) queue);
  backoff_low = v.backoff_low;
  backoff_high = v.backoff_high;
}

pub on_success-Fit : (s : PulsarLogsTransport) → Fit s → Fit (on_success s)
unfolding on_success
on_success-Fit s v = ground arith

pub on_failure-Fit : (now : ℕ) (s : PulsarLogsTransport) → Fit s → Fit (on_failure now s)
unfolding on_failure
on_failure-Fit now s v = ground arith

pub on_success-queue :
    (s : PulsarLogsTransport)
    → ((on_success s).queue ≡ s.queue) × ((on_success s).dropped ≡ s.dropped)
unfolding on_success
on_success-queue s = ground arith

pub either_way :
    {A : Type 0} (P : A → Type 0) (b : Bool) (x y : A)
    → (b ≡ true → P x)
    → (b ≡ false → P y)
    → P (if b then x else y)
either_way P true x y h g = h refl
either_way P false x y h g = g refl
