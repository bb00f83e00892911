-- ===== src/Handlers/Decisions.antt =====
-- The tables before and after a decision of server/src/controllers/approvalController.ts, while
-- other requests commit in between.
use mathlib.Core.List.{append_assoc}
use mathlib.Core.Path.{subst}
use expense_management_syste.Base.{
  ℕ, some, List, [], ◌∷◌, ◌++◌, ◌≡◌, refl, sym, ap, ◌∙◌, arith, ◌==◌, ◌&&◌, Option-cases,
  Bool-cases, inl, inr,
}
use expense_management_syste.Errors.{Error, Result}
use expense_management_syste.Types.{Expense, AuditLog, Status, status_eq}
use expense_management_syste.Db.{
  Db, World, M, pure, raise, Keeps-pause, ◌>>=◌, ◌>>◌, query, Rely, Keeps, Evolves, Grows, by_id,
  find_live, find_live-by_id, by_id-id, by_id-replace_self, replace, satisfies_checks,
}
use expense_management_syste.Db.Runs.{Ends, >>=-Ends, Keeps-Ends, query-Ends}
use expense_management_syste.Expenses.{AuditEntry, audit_row, ResultCode, decide}
use expense_management_syste.Handlers.Approval.{check_code}

-- The tables right after a successful decision.
decide-success :
    (k version : ℕ) (change : Expense → Expense) (entry : AuditEntry) (now : ℕ) (d d' : Db)
    → decide k version change entry now d ≡ some (ResultCode.success, d')
    → (e : Expense) × (by_id k d.expenses ≡ some e)
      × (e.version ≡ version)
      × (d'.expenses ≡ replace k (record (change e) { updated_at = now }) d.expenses)
      × (d'.audit_logs ≡ d.audit_logs ++ audit_row entry d.next_audit now ∷ [])
unfolding decide
decide-success k version change entry now d d' h = elim (Option-cases (find_live k d.expenses)) [
  | inl missing ↦ absurd (ground arith)
  | inr (e, live) ↦
      let new : Expense = record (change e) { updated_at = now } in
      elim (Bool-cases
        (status_eq e.status Status.pending && (e.version == version) && satisfies_checks new)) [
          | inl passes ↦
              (e, (find_live-by_id k d.expenses live).0, ground arith, ground arith, ground arith)
          | inr fails ↦ absurd (ground arith)
        ]
]

check_code-Ends :
    (e : Error) (code : ResultCode) (w : World) {u : Unit {0}} {w' : World}
    → Ends (check_code e code) w u w'
    → (code ≡ ResultCode.success) × (w ≡ w')
unfolding check_code pure raise
check_code-Ends e ResultCode.success w h = (refl, ap (λ (x : Result (Unit {0}) × World). x.1) h)
check_code-Ends e _ w h = cc

-- The new audit trail is the old one, what others recorded, this entry, and what came later.
abbrev pub Recorded : List AuditLog → List AuditLog → AuditEntry → Type 0
Recorded old new entry =
    (earlier : List AuditLog) × (later : List AuditLog) × (k : ℕ) × (now : ℕ) × (new
      ≡ old ++ (earlier ++ audit_row entry k now ∷ later))

Recorded-between :
    (entry : AuditEntry) (k now : ℕ) (a : List AuditLog) {b c d : List AuditLog}
    → (m : List AuditLog) × (b ≡ a ++ m)
    → c ≡ b ++ audit_row entry k now ∷ []
    → (m : List AuditLog) × (d ≡ c ++ m)
    → Recorded a d entry
Recorded-between entry k now a (m, p) q (n, r) = (
  m,
  n,
  k,
  now,
  r
      ∙ ap (λ l. l ++ n) (q ∙ ap (λ l. l ++ audit_row entry k now ∷ []) p)
      ∙ append_assoc (a ++ m) (audit_row entry k now ∷ []) n
      ∙ append_assoc a m (audit_row entry k now ∷ n),
)

pub Recorded-after :
    (a : List AuditLog) {b : List AuditLog} (c : List AuditLog) (entry : AuditEntry)
    → (m : List AuditLog) × (b ≡ a ++ m)
    → Recorded b c entry
    → Recorded a c entry
Recorded-after a c entry (m, p) (x, y, k, now, q) = (
  m ++ x,
  y,
  k,
  now,
  q
      ∙ ap (λ l. l ++ (x ++ audit_row entry k now ∷ y)) p
      ∙ append_assoc a m (x ++ audit_row entry k now ∷ y)
      ∙ ap (λ l. a ++ l) (sym (append_assoc m x (audit_row entry k now ∷ y))),
)

-- A decision on the expense `k` at a version, and what follows it, up to the answer.
module _ (k version : ℕ) (change : Expense → Expense) (entry : AuditEntry) (refused : Error) where
  unfoldable pub decision : {A : Type 0} → M A → M A
  decision after =
      query (decide k version change entry) >>= λ code. check_code refused code >> after

  -- The row `read` before the decision has become the row `now`.
  pub record Decided (read : Expense) (w w' : World) : Type 0 where
    pub before : Expense
    pub same_key : (before.id ≡ k) × (before.submitted_by ≡ read.submitted_by)
    pub at : before.version ≡ version
    pub time : ℕ
    pub now : Expense
    pub found : by_id k w'.db.expenses ≡ some now
    pub grown : Grows (record (change before) { updated_at = time }) now
    pub recorded : Recorded w.db.audit_logs w'.db.audit_logs entry

  -- From the tables `d0` that the procedure finds to those `d1` that it leaves.
  success-Decided :
      (read : Expense) (w : World) (d0 d1 : Db) (w' : World) (time : ℕ)
      → ((e : Expense) → (change e).id ≡ e.id)
      → by_id k w.db.expenses ≡ some read
      → Evolves w.db d0
      → decide k version change entry time d0 ≡ some (ResultCode.success, d1)
      → Evolves d1 w'.db
      → Decided read w w'
  success-Decided read w d0 d1 w' time same seen g0 stmt g =
      let (b, was, at, rows, logs) = decide-success k version change entry time d0 d1 stmt in
      let new : Expense = record (change b) { updated_at = time } in
      let (b2, was2, s) = g0.rows k read seen in
      let key : b.id ≡ k = by_id-id k d0.expenses was in
      let one : b2 ≡ b = cc (was, was2) in
      let written : by_id k d1.expenses ≡ some new =
        ap (by_id k) rows ∙ by_id-replace_self k new d0.expenses was (same b ∙ key) in
      let (now, found, grown) = g.rows k new written in
      record {
        before = b;
        same_key =
            (key, subst (λ (x : Expense). x.submitted_by ≡ read.submitted_by) one s.same_owner);
        at = at;
        time = time;
        now = now;
        found = found;
        grown = grown;
        recorded = Recorded-between entry d0.next_audit time w.db.audit_logs g0.trail logs g.trail;
      }

  pub decision-Decided :
      {A : Type 0} (after : M A) (read : Expense) (w : World) {a : A} {w' : World}
      → Keeps after
      → ((e : Expense) → (change e).id ≡ e.id)
      → Rely w.events
      → by_id k w.db.expenses ≡ some read
      → Ends (decision after) w a w'
      → Decided read w w'
  unfolding decision
  decision-Decided after read w {a} {w'} keeps same r seen h =
      let (code, w1, p, h1) = >>=-Ends (query (decide k version change entry)) _ w h in
      let (u, w2, p2, h2) = >>=-Ends (check_code refused code) (λ _. after) w1 h1 in
      let (succeeded, unmoved) = check_code-Ends refused code w1 p2 in
      let (w0, stmt, paused, left) = query-Ends (decide k version change entry) w p in
      let (g0, r0) = Keeps-Ends Keeps-pause r paused in
      let (g, _) =
        Keeps-Ends keeps (subst Rely (sym left) r0)
          (subst (λ x. Ends after x a w') (sym unmoved) h2) in
      success-Decided read w w0.db w1.db w' w0.now same seen g0
        (stmt ∙ ap (λ c. some (c, w1.db)) succeeded) g
