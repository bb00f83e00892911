-- ===== src/Db/History.antt =====
-- How the tables change while the application runs, as a relation on the tables of
-- database/schema.sql at an earlier and a later time.
use mathlib.Core.List.{append-nil, append_assoc}
use mathlib.Core.Path.{subst}
use native.Mathlib.Decide.{ℕ_discrete}
use native.Mathlib.Nat.{le_refl}
use expense_management_syste.Base.{
  ℕ, ◌≤◌, false, some, List, [], ◌∷◌, ◌++◌, ◌≡◌, refl, sym, ◌∙◌, ap, arith,
}
use expense_management_syste.Types.{Expense, AuditLog, Status}
use expense_management_syste.Db.Table.{
  Db, is_live, by_id, replace, by_id-id, by_id-replace_self, by_id-replace_ne, by_id-append,
}

-- One row, at an earlier and a later time.
pub record Grows (e e' : Expense) : Type 0 where
  pub same_id : e'.id ≡ e.id
  pub same_owner : e'.submitted_by ≡ e.submitted_by
  pub version_le : e.version ≤ e'.version
  pub version_eq : e'.version ≡ e.version → e' ≡ e
  pub approved_final : e.status ≡ Status.approved → e' ≡ e
  pub deleted_final : is_live e ≡ false → e' ≡ e

pub Grows-refl : (e : Expense) → Grows e e
Grows-refl e = record {
  same_id = refl;
  same_owner = refl;
  version_le = le_refl e.version;
  version_eq = λ _. refl;
  approved_final = λ _. refl;
  deleted_final = λ _. refl;
}

pub Grows-trans : {a b c : Expense} → Grows a b → Grows b c → Grows a c
Grows-trans {a} {b} {c} g h = record {
  same_id = h.same_id ∙ g.same_id;
  same_owner = h.same_owner ∙ g.same_owner;
  version_le = omega (arith, g.version_le, h.version_le);
  version_eq = λ e.
      h.version_eq (omega (arith, g.version_le, h.version_le))
      ∙ g.version_eq (omega (arith, g.version_le, h.version_le));
  approved_final =
      λ s. let e : b ≡ a = g.approved_final s in h.approved_final (ap (λ x. x.status) e ∙ s) ∙ e;
  deleted_final = λ s. let e : b ≡ a = g.deleted_final s in h.deleted_final (ap is_live e ∙ s) ∙ e;
}

-- The tables, at an earlier and a later time.
pub record Evolves (d d' : Db) : Type 0 where
  pub rows :
      (k : ℕ) (e : Expense)
      → by_id k d.expenses ≡ some e
      → (e' : Expense) × (by_id k d'.expenses ≡ some e') × Grows e e'
  pub trail : (more : List AuditLog) × (d'.audit_logs ≡ d.audit_logs ++ more)

-- Changes of the other tables.
pub Evolves-of_same :
    (d d' : Db) → d'.expenses ≡ d.expenses → d'.audit_logs ≡ d.audit_logs → Evolves d d'
Evolves-of_same d d' e a = record {
  rows = λ k x h. (x, ap (by_id k) e ∙ h, Grows-refl x);
  trail = ([], a ∙ sym (append-nil d.audit_logs));
}

pub Evolves-refl : (d : Db) → Evolves d d
Evolves-refl d = Evolves-of_same d d refl refl

pub Evolves-trans : {a b c : Db} → Evolves a b → Evolves b c → Evolves a c
Evolves-trans {a} {b} {c} g h = record {
  rows = λ k e f.
      let (e', f', s) = g.rows k e f in
      let (e'', f'', t) = h.rows k e' f' in (e'', f'', Grows-trans s t);
  trail = (
    g.trail.0 ++ h.trail.0,
    h.trail.1 ∙ ap (λ l. l ++ h.trail.0) g.trail.1 ∙ append_assoc a.audit_logs g.trail.0 h.trail.0,
  );
}

-- A row is written anew.
pub Evolves-replace :
    (d : Db) (k : ℕ) (e e' : Expense)
    → by_id k d.expenses ≡ some e
    → Grows e e'
    → Evolves d (record d { expenses = replace k e' d.expenses })
Evolves-replace d k e e' f g = record {
  rows = λ j x h. elim (ℕ_discrete j k) [
    | yes same ↦
        let found : by_id k d.expenses ≡ some x = ap (λ i. by_id i d.expenses) (sym same) ∙ h in
        (
          e',
          ap (λ i. by_id i (replace k e' d.expenses)) same
              ∙ by_id-replace_self k e' d.expenses f (g.same_id ∙ by_id-id k d.expenses f),
          let row : e ≡ x = cc found in subst (λ y. Grows y e') row g,
        )
    | no other ↦ (
      x,
      by_id-replace_ne j k e' d.expenses (g.same_id ∙ by_id-id k d.expenses f) other ∙ h,
      Grows-refl x,
    )
  ];
  trail = ([], sym (append-nil d.audit_logs));
}

-- A row is added.
pub Evolves-insert :
    (d d' : Db) (new : Expense)
    → d'.expenses ≡ d.expenses ++ new ∷ []
    → d'.audit_logs ≡ d.audit_logs
    → Evolves d d'
Evolves-insert d d' new e a = record {
  rows = λ k x h. (x, ap (by_id k) e ∙ by_id-append k d.expenses new h, Grows-refl x);
  trail = ([], a ∙ sym (append-nil d.audit_logs));
}

-- An audit row is added.
pub Evolves-log :
    (d d' : Db) (entry : AuditLog)
    → d'.expenses ≡ d.expenses
    → d'.audit_logs ≡ d.audit_logs ++ entry ∷ []
    → Evolves d d'
Evolves-log d d' entry e a = record {
  rows = λ k x h. (x, ap (by_id k) e ∙ h, Grows-refl x);
  trail = (entry ∷ [], a);
}
