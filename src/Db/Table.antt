-- ===== src/Db/Table.antt =====
-- The tables of database/schema.sql. `id` is the primary key of `expenses`: a lookup finds at most one
-- row, an insert of a key that is there fails, and the CHECK constraints hold of what is written.
use expense_management_syste.Base.{
  ℕ, Bool, true, not, ◌&&◌, ◌||◌, Option, none, some, List, [], ◌∷◌, ◌++◌, ◌≡◌, refl, ◌≢◌, arith,
  find?, ltb, ◌==◌, if◌then◌else◌, is_some,
}
use expense_management_syste.Types.{
  User, Expense, Receipt, Notification, Comment, AuditLog, SecurityEvent, Status, status_eq,
}

pub record Db : Type 0 where
  pub users : List User
  pub expenses : List Expense
  pub receipts : List Receipt
  pub comments : List Comment
  pub notifications : List Notification
  pub audit_logs : List AuditLog
  pub security_events : List SecurityEvent
  pub next_user : ℕ
  pub next_expense : ℕ
  pub next_receipt : ℕ
  pub next_comment : ℕ
  pub next_notification : ℕ
  pub next_audit : ℕ

-- `deleted_at IS NULL`
abbrev pub is_live : Expense → Bool
is_live e = not (is_some e.deleted_at)

-- chk_amount_positive and chk_rejection_reason
abbrev pub satisfies_checks : Expense → Bool
satisfies_checks e =
    ltb 0 e.amount && (not (status_eq e.status Status.rejected) || is_some e.rejection_reason)

abbrev pub by_id : ℕ → List Expense → Option Expense
by_id k [] = none
by_id k (e ∷ es) = if e.id == k then some e else by_id k es

-- The row with this key is written anew.
abbrev pub replace : ℕ → Expense → List Expense → List Expense
replace k new [] = []
replace k new (e ∷ es) = if e.id == k then new ∷ es else e ∷ replace k new es

-- `WHERE id = ? AND deleted_at IS NULL`
abbrev pub find_live : ℕ → List Expense → Option Expense
find_live k es = elim (by_id k es) [ none ↦ none | some e ↦ if is_live e then some e else none ]

abbrev pub find_user : ℕ → List User → Option User
find_user k = find? (λ u. u.id == k)

pub by_id-id : (k : ℕ) (es : List Expense) {e : Expense} → by_id k es ≡ some e → e.id ≡ k
by_id-id k [] h = cc
by_id-id k (x ∷ es) {e} h = ground (arith, by_id-id k es {e = e})

pub by_id-replace_self :
    (k : ℕ) (new : Expense) (es : List Expense) {e : Expense}
    → by_id k es ≡ some e
    → new.id ≡ k
    → by_id k (replace k new es) ≡ some new
by_id-replace_self k new [] h n = cc
by_id-replace_self k new (x ∷ es) {e} h n = ground (arith, by_id-replace_self k new es {e = e})

pub by_id-replace_ne :
    (j k : ℕ) (new : Expense) (es : List Expense)
    → new.id ≡ k
    → j ≢ k
    → by_id j (replace k new es) ≡ by_id j es
by_id-replace_ne j k new [] n h = refl
by_id-replace_ne j k new (x ∷ es) n h = ground (arith, by_id-replace_ne j k new es n h)

pub by_id-append :
    (k : ℕ) (es : List Expense) (new : Expense) {e : Expense}
    → by_id k es ≡ some e
    → by_id k (es ++ new ∷ []) ≡ some e
by_id-append k [] new h = cc
by_id-append k (x ∷ es) new {e} h = ground (arith, by_id-append k es new {e = e})

pub by_id-append_self :
    (es : List Expense) (new : Expense)
    → by_id new.id es ≡ none
    → by_id new.id (es ++ new ∷ []) ≡ some new
by_id-append_self [] new h = ground arith
by_id-append_self (x ∷ es) new h = ground (arith, by_id-append_self es new)

pub find_live-by_id :
    (k : ℕ) (es : List Expense) {e : Expense}
    → find_live k es ≡ some e
    → (by_id k es ≡ some e) × (is_live e ≡ true)
find_live-by_id k es h = ground arith
