-- ===== src/Expenses/Winner.antt =====
-- The optimistic lock of server/src/models/expense.ts and database/stored-procedures.sql: the
-- statements that write a row which is there, each with the version that its caller read.
use expense_management_syste.Base.{
  ℕ, ◌+◌, ◌≤◌, Bool, true, false, not, Option, none, some, List, ◌≡◌, refl, ap, ◌∙◌, arith, Text,
  ◌==◌, ◌&&◌, Option-cases, Bool-cases, inl, inr,
}
use expense_management_syste.Types.{Expense, Status, status_eq}
use expense_management_syste.Db.{
  Db, Statement, Evolves, by_id, find_live, find_live-by_id, by_id-id, by_id-replace_self, replace,
  satisfies_checks,
}
use expense_management_syste.Expenses.Rows.{
  Entry, applied, update_row, resubmit_row, delete_row, approve_row, reject_row,
}
use expense_management_syste.Expenses.Sql.{
  AuditEntry, update_where, is_at, update_pending, update_rejected, soft_delete, ResultCode, decide,
  approved_entry, rejected_entry, sp_approve_expense, sp_reject_expense,
}
use expense_management_syste.Expenses.Statements.{assign_all-SameKey}

-- What a writer does with the row that it read.
pub data Write : Type 0 where
  edit : List Entry → Write
  resubmit : List Entry → Write
  remove : ℕ → Write
  approve : ℕ → Option Text → Write
  reject : ℕ → Text → Option Text → Write

-- `affectedRows` as the callers test it.
abbrev wrote_rows : Option (ℕ × Db) → Option (Bool × Db)
wrote_rows none = none
wrote_rows (some (n, d)) = some (not (n == 0), d)

abbrev is_success : ResultCode → Bool
is_success ResultCode.success = true
is_success _ = false

abbrev wrote_code : Option (ResultCode × Db) → Option (Bool × Db)
wrote_code none = none
wrote_code (some (code, d)) = some (is_success code, d)

-- The statement of that writer; it gives whether the row was written.
unfoldable pub attempt_write : ℕ → ℕ → Write → Statement Bool
attempt_write k version (Write.edit entries) now d =
    wrote_rows (update_pending k version entries now d)
attempt_write k version (Write.resubmit entries) now d =
    wrote_rows (update_rejected k version entries now d)
attempt_write k version (Write.remove deleted_by) now d =
    wrote_rows (soft_delete k version deleted_by now d)
attempt_write k version (Write.approve by ip) now d =
    wrote_code (sp_approve_expense k by version ip now d)
attempt_write k version (Write.reject by reason ip) now d =
    wrote_code (sp_reject_expense k by version reason ip now d)

-- The row that the statement found is at a later version afterwards.
Raised : ℕ → ℕ → Db → Type 0
Raised k version d = (e : Expense) × (by_id k d.expenses ≡ some e) × (version + 1 ≤ e.version)

update_where-Raised :
    (k version : ℕ) (status : Status) (change : Expense → Expense) (now : ℕ) (d d' : Db)
    → ((e : Expense) → (change e).version ≡ e.version + 1)
    → ((e : Expense) → (change e).id ≡ e.id)
    → wrote_rows (update_where k (is_at version status) change now d) ≡ some (true, d')
    → Raised k version d'
unfolding update_where Raised
update_where-Raised k version status change now d d' up same h =
    elim (Option-cases (by_id k d.expenses)) [
      | inl missing ↦ absurd (ground arith)
      | inr (e, found) ↦
          let new : Expense = record (change e) { updated_at = now } in
          elim (Bool-cases (is_at version status e && satisfies_checks new)) [
            | inl passes ↦
                let rows : d'.expenses ≡ replace k new d.expenses = ground arith in
                let at : e.version ≡ version = ground arith in
                let key : new.id ≡ k = same e ∙ by_id-id k d.expenses found in
                let raised : (change e).version ≡ e.version + 1 = up e in
                (
                  new,
                  ap (by_id k) rows ∙ by_id-replace_self k new d.expenses found key,
                  omega (arith, at, raised),
                )
            | inr fails ↦ absurd (ground arith)
          ]
    ]

decide-Raised :
    (k version : ℕ) (change : Expense → Expense) (entry : AuditEntry) (now : ℕ) (d d' : Db)
    → ((e : Expense) → (change e).version ≡ e.version + 1)
    → ((e : Expense) → (change e).id ≡ e.id)
    → wrote_code (decide k version change entry now d) ≡ some (true, d')
    → Raised k version d'
unfolding decide Raised
decide-Raised k version change entry now d d' up same h =
    elim (Option-cases (find_live k d.expenses)) [
      | inl missing ↦ absurd (ground arith)
      | inr (e, live) ↦
          let new : Expense = record (change e) { updated_at = now } in
          let (found, _) = find_live-by_id k d.expenses live in
          elim (Bool-cases
            (status_eq e.status Status.pending && (e.version == version) && satisfies_checks new)) [
              | inl passes ↦
                  let rows : d'.expenses ≡ replace k new d.expenses = ground arith in
                  let at : e.version ≡ version = ground arith in
                  let key : new.id ≡ k = same e ∙ by_id-id k d.expenses found in
                  let raised : (change e).version ≡ e.version + 1 = up e in
                  (
                    new,
                    ap (by_id k) rows ∙ by_id-replace_self k new d.expenses found key,
                    omega (arith, at, raised),
                  )
              | inr fails ↦ absurd (ground arith)
            ]
    ]

update_where-stale :
    (k version : ℕ) (status : Status) (change : Expense → Expense) (now : ℕ) (d : Db)
    → Raised k version d
    → wrote_rows (update_where k (is_at version status) change now d) ≡ some (false, d)
unfolding update_where Raised
update_where-stale k version status change now d (e, found, newer) = ground arith

decide-stale :
    (k version : ℕ) (change : Expense → Expense) (entry : AuditEntry) (now : ℕ) (d : Db)
    → Raised k version d
    → wrote_code (decide k version change entry now d) ≡ some (false, d)
unfolding decide Raised
decide-stale k version change entry now d (e, found, newer) = ground arith

attempt_write-stale :
    (k version : ℕ) (x : Write) (now : ℕ) (d : Db)
    → Raised k version d
    → attempt_write k version x now d ≡ some (false, d)
unfolding attempt_write update_pending update_rejected soft_delete sp_approve_expense
    sp_reject_expense
attempt_write-stale k version (Write.edit entries) now d r =
    update_where-stale k version Status.pending (update_row entries) now d r
attempt_write-stale k version (Write.resubmit entries) now d r =
    update_where-stale k version Status.rejected (resubmit_row entries) now d r
attempt_write-stale k version (Write.remove by) now d r =
    update_where-stale k version Status.pending (delete_row now by) now d r
attempt_write-stale k version (Write.approve by ip) now d r =
    decide-stale k version (approve_row by) (approved_entry k by version ip) now d r
attempt_write-stale k version (Write.reject by reason ip) now d r =
    decide-stale k version (reject_row by reason) (rejected_entry k by version reason ip) now d r

attempt_write-Raised :
    (k version : ℕ) (x : Write) (now : ℕ) (d d' : Db)
    → attempt_write k version x now d ≡ some (true, d')
    → Raised k version d'
unfolding attempt_write update_pending update_rejected soft_delete sp_approve_expense
    sp_reject_expense
attempt_write-Raised k version (Write.edit entries) now d d' h =
    update_where-Raised k version Status.pending (update_row entries) now d d'
      (λ e. ap (λ v. v + 1) (assign_all-SameKey (applied entries) e).same_version)
      (λ e. (assign_all-SameKey (applied entries) e).same_id) h
attempt_write-Raised k version (Write.resubmit entries) now d d' h =
    update_where-Raised k version Status.rejected (resubmit_row entries) now d d'
      (λ e. ap (λ v. v + 1) (assign_all-SameKey (applied entries) e).same_version)
      (λ e. (assign_all-SameKey (applied entries) e).same_id) h
attempt_write-Raised k version (Write.remove by) now d d' h =
    update_where-Raised k version Status.pending (delete_row now by) now d d' (λ e. refl)
      (λ e. refl) h
attempt_write-Raised k version (Write.approve by ip) now d d' h =
    decide-Raised k version (approve_row by) (approved_entry k by version ip) now d d' (λ e. refl)
      (λ e. refl) h
attempt_write-Raised k version (Write.reject by reason ip) now d d' h =
    decide-Raised k version (reject_row by reason) (rejected_entry k by version reason ip) now d d'
      (λ e. refl) (λ e. refl) h

Raised-Evolves :
    (k version : ℕ) {d d' : Db} → Raised k version d → Evolves d d' → Raised k version d'
unfolding Raised
Raised-Evolves k version (e, found, newer) g =
    let (e', found', s) = g.rows k e found in (e', found', omega (arith, newer, s.version_le))

-- Of the writers that read the same version of an expense at most one writes it: once an edit, a
-- resubmission, a deletion, an approval or a rejection at that version has written the row, then on all
-- tables that evolve from there each of these five at the same version writes nothing.
pub attempt_write-one_winner :
    (k version : ℕ) (x y : Write) (now later : ℕ) (d d1 d2 : Db)
    → attempt_write k version x now d ≡ some (true, d1)
    → Evolves d1 d2
    → attempt_write k version y later d2 ≡ some (false, d2)
attempt_write-one_winner k version x y now later d d1 d2 h g =
    attempt_write-stale k version y later d2
      (Raised-Evolves k version (attempt_write-Raised k version x now d d1 h) g)
