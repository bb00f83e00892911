-- ===== src/Graph/Retry.antt =====
-- How often `graphRequest` of server/src/services/graphApi.ts asks, and with what it ends.
use mathlib.Core.List.{append-nil}
use expense_management_syste.Base.{
  ℕ, zero, suc, ◌+◌, ◌≤◌, ◌<◌, Bool, true, false, not, ◌||◌, List, [], ◌∷◌, ◌++◌, ◌≡◌, refl, All,
  sym, ap, ◌∙◌, ◌⊎◌, inl, inr, arith, length, length-append, leb, Bool-cases, Option-cases,
}
use expense_management_syste.Graph.Http.{
  Body, Failure, Outcome, HttpRequest, Settings, Outside, Traffic, is_retryable_error,
  parse_retry_after_ms, retry_delay_ms, asked, waited, attempts_from, graph_request, retry_after_of,
}

abbrev pub times : ℕ → HttpRequest → List HttpRequest
times zero config = []
times (suc n) config = config ∷ times n config

-- The answer is one that the loop ends with after `n` failures, of at most `most` attempts.
abbrev pub IsLast : ℕ → ℕ → Outcome Body → Type 0
IsLast most n (Outcome.done body) = Unit
IsLast most n (Outcome.failed e) = (suc n ≡ most) ⊎ (is_retryable_error e ≡ false)

append_cons : {A : Type 0} (l : List A) (c : A) (r : List A) → (l ++ c ∷ []) ++ r ≡ l ++ c ∷ r
append_cons [] c r = refl
append_cons (x ∷ l) c r = ap (x ∷◌) (append_cons l c r)

IsLast-suc :
    (most n : ℕ) (reply : Outcome Body) → IsLast most n reply → IsLast (suc most) (suc n) reply
IsLast-suc most n (Outcome.done body) h = tt
IsLast-suc most n (Outcome.failed e) (inl used) = inl (ap suc used)
IsLast-suc most n (Outcome.failed e) (inr final) = inr final

pub Outcome-cases :
    (o : Outcome Body)
    → ((body : Body) × (o ≡ Outcome.done body)) ⊎ ((e : Failure) × (o ≡ Outcome.failed e))
Outcome-cases (Outcome.done body) = inl (body, refl)
Outcome-cases (Outcome.failed e) = inr (e, refl)

module _ (settings : Settings) (outside : Outside) (config : HttpRequest) where
  -- What was asked from `t` on, with `most` attempts to go, and how it ended.
  pub record Tries (most : ℕ) (t : Traffic) (out : Outcome Body × Traffic) : Type 0 where
    pub failures : ℕ
    pub within : failures < most
    pub failed_before :
        (i : ℕ)
        → i < failures
        → (e : Failure) × (outside.answer (length t.requests + i) config ≡ Outcome.failed e)
          × (is_retryable_error e ≡ true)
    pub answered : outside.answer (length t.requests + failures) config ≡ out.0
    pub requests_made : out.1.requests ≡ t.requests ++ times (suc failures) config
    pub added : List ℕ
    pub waits_made : out.1.waits ≡ t.waits ++ added
    pub one_wait_each : length added ≡ failures
    pub wait_bound : All (λ ms. ms ≤ settings.retry_max_delay_ms) added
    pub last : IsLast most failures out.0

  retry_delay_ms_le :
      (attempt : ℕ) (e : Failure)
      → retry_delay_ms settings outside attempt (retry_after_of e) ≤ settings.retry_max_delay_ms
  unfolding retry_delay_ms
  retry_delay_ms_le attempt e =
      elim (Option-cases (parse_retry_after_ms outside (retry_after_of e))) [
        | inl none_asked ↦ rw (none_asked, retry_delay_ms) (omega arith)
        | inr (after, asks) ↦ rw (asks, retry_delay_ms) (omega arith)
      ]

  -- The loop ended at this request.
  Tries-first :
      (most : ℕ) (t : Traffic) (reply : Outcome Body)
      → outside.answer (length t.requests) config ≡ reply
      → IsLast (suc most) 0 reply
      → Tries (suc most) t (reply, asked config t)
  Tries-first most t reply h last = record {
    failures = 0;
    within = omega arith;
    failed_before = λ i no_less. absurd (omega arith);
    answered =
        let same : length t.requests + 0 ≡ length t.requests = omega arith in
        ap (λ n. outside.answer n config) same ∙ h;
    requests_made = refl;
    added = [];
    waits_made = sym (append-nil t.waits);
    one_wait_each = refl;
    wait_bound = tt;
    last = last;
  }

  -- This request failed, and the loop went on.
  Tries-later :
      (most : ℕ) (t : Traffic) (e : Failure) (delay : ℕ) {out : Outcome Body × Traffic}
      → outside.answer (length t.requests) config ≡ Outcome.failed e
      → is_retryable_error e ≡ true
      → delay ≤ settings.retry_max_delay_ms
      → Tries most (waited delay (asked config t)) out
      → Tries (suc most) t out
  Tries-later most t e delay {out} h retryable bound rest =
      let shift : (i : ℕ) → length (t.requests ++ config ∷ []) + i ≡ length t.requests + suc i =
        λ i. omega (arith, length-append t.requests (config ∷ [])) in
      record {
        failures = suc rest.failures;
        within = omega (arith, rest.within);
        failed_before = λ i less. before_at i less shift rest.failed_before;
        answered = ap (λ n. outside.answer n config) (sym (shift rest.failures)) ∙ rest.answered;
        requests_made = rest.requests_made ∙ append_cons t.requests config _;
        added = delay ∷ rest.added;
        waits_made = rest.waits_made ∙ append_cons t.waits delay rest.added;
        one_wait_each = ap suc rest.one_wait_each;
        wait_bound = (bound, rest.wait_bound);
        last = IsLast-suc most rest.failures out.0 rest.last;
      }
    where
      before_at :
          {n : ℕ} (i : ℕ)
          → i < suc n
          → ((k : ℕ) → length (t.requests ++ config ∷ []) + k ≡ length t.requests + suc k)
          → ((k : ℕ)
              → k < n
              → (x : Failure) × (outside.answer (length (t.requests ++ config ∷ []) + k) config
                  ≡ Outcome.failed x)
                × (is_retryable_error x ≡ true))
          → (x : Failure) × (outside.answer (length t.requests + i) config ≡ Outcome.failed x)
            × (is_retryable_error x ≡ true)
      before_at zero less shift g =
          let here : length t.requests + 0 ≡ length t.requests = omega arith in
          (e, ap (λ n. outside.answer n config) here ∙ h, retryable)
      before_at (suc i) less shift g =
          let (x, failed, again) = g i (omega arith) in
          (x, ap (λ n. outside.answer n config) (sym (shift i)) ∙ failed, again)

  -- Whether the loop throws at this failure.
  abbrev gives_up : ℕ → Failure → Bool
  gives_up attempt e = leb settings.retry_max_attempts attempt || not (is_retryable_error e)

  gives_up-IsLast :
      (left attempt : ℕ) (e : Failure)
      → left + attempt ≡ settings.retry_max_attempts
      → gives_up attempt e ≡ true
      → IsLast (suc left) 0 (Outcome.failed e)
  gives_up-IsLast left attempt e budget stops = elim (Bool-cases (is_retryable_error e)) [
    | inl again ↦ inl (
        let used : settings.retry_max_attempts ≤ attempt = ground (arith, stops, again) in
        omega arith)
    | inr final ↦ inr final
  ]

  -- One round of the loop: it ends here, or the rest of the loop ends.
  round-Tries :
      (left attempt : ℕ) (t : Traffic)
      → left + attempt ≡ settings.retry_max_attempts
      → ((e : Failure)
          → outside.answer (length t.requests) config ≡ Outcome.failed e
          → gives_up attempt e ≡ false
          → Tries (suc left) t (
              attempts_from settings outside left (attempt + 1) config (
                waited
                  (retry_delay_ms settings outside attempt (retry_after_of e))
                  (asked config t))))
      → Tries (suc left) t (attempts_from settings outside (suc left) attempt config t)
  unfolding attempts_from
  round-Tries left attempt t budget rest =
      elim (Outcome-cases (outside.answer (length t.requests) config)) [
        | inl (body, fine) ↦
            rw (fine, attempts_from) (Tries-first left t (Outcome.done body) fine tt)
        | inr (e, bad) ↦ elim (Bool-cases (gives_up attempt e)) [
          | inl stops ↦
              rw (bad, attempts_from, stops)
                (Tries-first left t (Outcome.failed e) bad
                  (gives_up-IsLast left attempt e budget stops))
          | inr on ↦ rw (bad, attempts_from, on) (rest e bad on)
        ]
      ]

  attempts_from-Tries :
      (left attempt : ℕ) (t : Traffic)
      → left + attempt ≡ settings.retry_max_attempts
      → Tries (suc left) t (attempts_from settings outside (suc left) attempt config t)
  attempts_from-Tries zero attempt t budget =
      round-Tries zero attempt t budget λ e bad on. absurd (ground (arith, on, budget))
  attempts_from-Tries (suc left) attempt t budget =
      round-Tries (suc left) attempt t budget λ e bad on.
        Tries-later (suc left) t e (retry_delay_ms settings outside attempt (retry_after_of e)) bad
          (ground (arith, on)) (retry_delay_ms_le attempt e)
          (attempts_from-Tries left (attempt + 1)
            (waited (retry_delay_ms settings outside attempt (retry_after_of e)) (asked config t))
            (omega arith))

-- `graphRequest` ends after at most as many requests as the settings allow, when they allow one. All
-- are the same request; every one before the last failed with an error that is worth a retry, and the
-- last one's answer is the result: a response, or an error that is not worth a retry or that used up
-- the last attempt. It waits once after every failure before the last request, and each of these waits
-- is no longer than the longest delay.
pub graph_request-Tries :
    (settings : Settings) (outside : Outside) (config : HttpRequest) (t : Traffic)
    → 1 ≤ settings.retry_max_attempts
    → Tries settings outside config settings.retry_max_attempts t
        (graph_request settings outside config t)
unfolding graph_request
graph_request-Tries settings outside config t some_attempt =
    by_attempts settings.retry_max_attempts refl some_attempt
  where
    by_attempts :
        (n : ℕ)
        → n ≡ settings.retry_max_attempts
        → 1 ≤ n
        → Tries settings outside config n t (attempts_from settings outside n 1 config t)
    by_attempts zero same positive = absurd (omega arith)
    by_attempts (suc left) same positive =
        attempts_from-Tries settings outside config left 1 t (omega arith)
