-- ===== src/Expenses/Statements.antt =====
-- The SQL statements of server/src/models/expense.ts and database/stored-procedures.sql under rely
-- and guarantee.
use expense_management_syste.Base.{
  ℕ, ◌+◌, Bool, true, Option, List, [], ◌∷◌, ◌≡◌, refl, ◌≢◌, ◌&&◌, ◌==◌, arith, Text, ap, ◌∙◌,
  Option-cases, Bool-cases, inl, inr,
}
use mathlib.Core.Path.{subst}
use expense_management_syste.Types.{Expense, Status, status_eq}
use expense_management_syste.Db.{
  Db, StatementKeeps, Evolves, Evolves-refl, Evolves-trans, Evolves-of_same, Evolves-replace,
  Evolves-insert, Evolves-log, Grows, by_id, find_live, find_live-by_id, is_live, satisfies_checks,
  replace,
}
use expense_management_syste.Expenses.Rows.{
  NewExpense, ReceiptInput, Entry, applied, assign, assign_all, update_row, resubmit_row,
  delete_row, approve_row, reject_row,
}
use expense_management_syste.Expenses.Sql.{
  new_row, insert_expense, insert_receipt, select_receipt, AuditEntry, audit_row, append_audit,
  insert_audit, select_live, update_where, is_at, update_pending, update_rejected, soft_delete,
  insert_deleted_audit, decide, approved_entry, rejected_entry, deleted_entry, sp_approve_expense,
  sp_reject_expense,
}

-- What the SET clauses of the edited fields leave alone.
pub record SameKey (e e' : Expense) : Type 0 where
  pub same_id : e'.id ≡ e.id
  pub same_owner : e'.submitted_by ≡ e.submitted_by
  pub same_version : e'.version ≡ e.version

assign-SameKey : (x : Entry) (e : Expense) → SameKey e (assign x e)
unfolding assign
assign-SameKey (Entry.title v) e = ground arith
assign-SameKey _ e = ground arith

pub assign_all-SameKey : (xs : List Entry) (e : Expense) → SameKey e (assign_all xs e)
unfolding assign_all
assign_all-SameKey [] e = ground arith
assign_all-SameKey (x ∷ xs) e =
    let s = assign-SameKey x e in
    let t = assign_all-SameKey xs (assign x e) in
    record {
      same_id = t.same_id ∙ s.same_id;
      same_owner = t.same_owner ∙ s.same_owner;
      same_version = t.same_version ∙ s.same_version;
    }

-- A write that raises the version of a live row which is not approved.
Grows-bump :
    (e e' : Expense)
    → e'.id ≡ e.id
    → e'.submitted_by ≡ e.submitted_by
    → e'.version ≡ e.version + 1
    → e.status ≢ Status.approved
    → is_live e ≡ true
    → Grows e e'
Grows-bump e e' i o v s l = record {
  same_id = i;
  same_owner = o;
  version_le = omega arith;
  version_eq = λ h. absurd (omega arith);
  approved_final = λ h. absurd (s h);
  deleted_final = λ h. absurd (cc (l, h));
}

to_end : {d m d' : Db} → Evolves d m → m ≡ d' → Evolves d d'
to_end {d} g e = subst (Evolves d) e g

update_where-StatementKeeps :
    (k : ℕ) (test : Expense → Bool) (change : Expense → Expense)
    → ((now : ℕ) (e : Expense) → test e ≡ true → Grows e (record (change e) { updated_at = now }))
    → StatementKeeps (update_where k test change)
unfolding update_where
update_where-StatementKeeps k test change grows = record {
  apply = λ now d n d' h. elim (Option-cases (by_id k d.expenses)) [
    | inl missing ↦ to_end (Evolves-refl d) (ground arith)
    | inr (e, found) ↦ elim (Bool-cases (test e)) [
      | inl passes ↦
          let new : Expense = record (change e) { updated_at = now } in
          elim (Bool-cases (satisfies_checks new)) [
            | inl fine ↦
                to_end (Evolves-replace d k e new found (grows now e passes)) (ground arith)
            | inr broken ↦ absurd (ground arith)
          ]
      | inr fails ↦ to_end (Evolves-refl d) (ground arith)
    ]
  ];
}

pub update_pending-StatementKeeps :
    (k version : ℕ) (entries : List Entry) → StatementKeeps (update_pending k version entries)
unfolding update_pending
update_pending-StatementKeeps k version entries =
    update_where-StatementKeeps k (is_at version Status.pending) (update_row entries) λ now e h.
      let s = assign_all-SameKey (applied entries) e in
      Grows-bump e _ s.same_id s.same_owner (ap (λ v. v + 1) s.same_version) (ground arith)
        (ground arith)

pub update_rejected-StatementKeeps :
    (k version : ℕ) (entries : List Entry) → StatementKeeps (update_rejected k version entries)
unfolding update_rejected
update_rejected-StatementKeeps k version entries =
    update_where-StatementKeeps k (is_at version Status.rejected) (resubmit_row entries) λ now e h.
      let s = assign_all-SameKey (applied entries) e in
      Grows-bump e _ s.same_id s.same_owner (ap (λ v. v + 1) s.same_version) (ground arith)
        (ground arith)

pub soft_delete-StatementKeeps :
    (k version deleted_by : ℕ) → StatementKeeps (soft_delete k version deleted_by)
unfolding soft_delete
soft_delete-StatementKeeps k version deleted_by = record {
  apply = λ now.
      (update_where-StatementKeeps k (is_at version Status.pending) (delete_row now deleted_by)
          λ t e h. Grows-bump e _ refl refl refl (ground arith) (ground arith)).apply
        now;
}

pub insert_expense-StatementKeeps : (new : NewExpense) → StatementKeeps (insert_expense new)
unfolding insert_expense
insert_expense-StatementKeeps new = record {
  apply = λ now d k d' h.
      Evolves-insert d d' (new_row new d.next_expense now) (ground arith) (ground arith);
}

pub insert_receipt-StatementKeeps :
    (k : ℕ) (input : ReceiptInput) → StatementKeeps (insert_receipt k input)
unfolding insert_receipt
insert_receipt-StatementKeeps k input = record {
  apply = λ now d r d' h. Evolves-of_same d d' (ground arith) (ground arith);
}

pub select_receipt-StatementKeeps : (k : ℕ) → StatementKeeps (select_receipt k)
unfolding select_receipt
select_receipt-StatementKeeps k = record {
  apply = λ now d r d' h. to_end (Evolves-refl d) (ground arith);
}

pub select_live-StatementKeeps : (k : ℕ) → StatementKeeps (select_live k)
unfolding select_live
select_live-StatementKeeps k = record {
  apply = λ now d r d' h. to_end (Evolves-refl d) (ground arith);
}

append_audit-Evolves :
    (entry : AuditEntry) (now : ℕ) (d : Db) → Evolves d (append_audit entry now d)
append_audit-Evolves entry now d =
    Evolves-log d (append_audit entry now d) (audit_row entry d.next_audit now) refl refl

pub insert_audit-StatementKeeps : (entry : AuditEntry) → StatementKeeps (insert_audit entry)
unfolding insert_audit
insert_audit-StatementKeeps entry = record {
  apply = λ now d r d' h. to_end (append_audit-Evolves entry now d) (ground arith);
}

pub insert_deleted_audit-StatementKeeps :
    (k deleted_by : ℕ) (ip : Option Text) → StatementKeeps (insert_deleted_audit k deleted_by ip)
unfolding insert_deleted_audit
insert_deleted_audit-StatementKeeps k deleted_by ip = record {
  apply = λ now d r d' h. elim (Option-cases (by_id k d.expenses)) [
    | inl missing ↦ to_end (Evolves-refl d) (ground arith)
    | inr (e, found) ↦
        to_end (append_audit-Evolves (deleted_entry e deleted_by ip) now d) (ground arith)
  ];
}

-- Both decision procedures, at any change of a pending row that raises its version.
decide-StatementKeeps :
    (k version : ℕ) (change : Expense → Expense) (entry : AuditEntry)
    → ((now : ℕ) (e : Expense)
        → e.status ≡ Status.pending
        → is_live e ≡ true
        → Grows e (record (change e) { updated_at = now }))
    → StatementKeeps (decide k version change entry)
unfolding decide
decide-StatementKeeps k version change entry grows = record {
  apply = λ now d code d' h. elim (Option-cases (find_live k d.expenses)) [
    | inl missing ↦ to_end (Evolves-refl d) (ground arith)
    | inr (e, found) ↦
        let new : Expense = record (change e) { updated_at = now } in
        let written : Db = record d { expenses = replace k new d.expenses } in
        elim (Bool-cases
          (status_eq e.status Status.pending && (e.version == version) && satisfies_checks new)) [
            | inl passes ↦
                let (row, live) = find_live-by_id k d.expenses found in
                to_end
                  (Evolves-trans (Evolves-replace d k e new row (grows now e (ground arith) live))
                    (append_audit-Evolves entry now written))
                  (ground arith)
            | inr fails ↦ to_end (Evolves-refl d) (ground arith)
          ]
  ];
}

pub sp_approve_expense-StatementKeeps :
    (k approved_by version : ℕ) (ip : Option Text)
    → StatementKeeps (sp_approve_expense k approved_by version ip)
unfolding sp_approve_expense
sp_approve_expense-StatementKeeps k approved_by version ip =
    decide-StatementKeeps k version (approve_row approved_by)
      (approved_entry k approved_by version ip)
      λ now e s l. Grows-bump e _ refl refl refl (ground arith) l

pub sp_reject_expense-StatementKeeps :
    (k rejected_by version : ℕ) (reason : Text) (ip : Option Text)
    → StatementKeeps (sp_reject_expense k rejected_by version reason ip)
unfolding sp_reject_expense
sp_reject_expense-StatementKeeps k rejected_by version reason ip =
    decide-StatementKeeps k version (reject_row rejected_by reason)
      (rejected_entry k rejected_by version reason ip)
      λ now e s l. Grows-bump e _ refl refl refl (ground arith) l
