-- ===== src/Handlers/Reading.antt =====
-- Who may read an expense and discuss it: `getExpenseById` of server/src/controllers/
-- expenseController.ts and the handlers of commentController.ts.
use mathlib.Core.Path.{subst}
use expense_management_syste.Db.Atomic.{pure_value, pure_world}
use expense_management_syste.Base.{
  ℕ, Bool, true, false, some, List, ◌≡◌, refl, ap, ◌∙◌, arith, Text, inl, inr, ◌⊎◌, ◌==◌,
  if◌then◌else◌, filter,
}
use expense_management_syste.Errors.{ok, not_found, insufficient_permissions}
use expense_management_syste.Types.{Expense, Receipt, Role, role_eq}
use expense_management_syste.Db.{World, pure, raise, ◌>>=◌, or_raise, lift, find_live}
use expense_management_syste.Db.Runs.{Ends, >>=-Ends, lift-Ends, or_raise-Ends}
use expense_management_syste.Requests.{QueryValue, parse_positive_id}
use expense_management_syste.Expenses.{find_by_id}
use expense_management_syste.Expenses.Operations.{find_by_id-found}
use expense_management_syste.Auth.{
  Request, GraphApi, Relationship, verify_manager_relationship, require_allowed, live_check,
  ensure_can_access_expense,
}
use expense_management_syste.Auth.Evidence.{
  Evidence, Evidence-widen, verify_manager_relationship-Evidence, verify_manager_relationship-Reads,
}
use expense_management_syste.Db.Moments.{
  Waits, Waits-refl, Waits-of_eq, Waits-trans, Between, Between-widen, Reads, Reads-Ends, reads,
  IsSelect, select-Ends,
}
use expense_management_syste.Comments.{CommentRow, readable_expense, add_comment}
use expense_management_syste.Handlers.Submitter.{
  load_expense, find_receipts, select_receipts, get_expense_by_id,
}
use expense_management_syste.Handlers.Gate.{require_allowed-Ends}

-- The caller is the submitter, or no mere employee and has authority over the submitter.
-- That authority was found in the tables of moments between `w` and `w'`, or by Graph in between.
abbrev pub Access : GraphApi → Request → ℕ → World → World → Type 0
Access graph req submitted_by w w' =
    (submitted_by ≡ req.user.id)
    ⊎ ((role_eq req.user.role Role.employee ≡ false) × Evidence graph req submitted_by w w')

-- At a moment between `w` and `w'` the tables had this live expense under `k`, and by what was found in
-- between the caller may access it.
pub record Readable (graph : GraphApi) (req : Request) (k : ℕ) (e : Expense) (w w' : World)
    : Type 0 where
  pub read_at : World
  pub when : Between w w' read_at
  pub is_there : find_live k read_at.db.expenses ≡ some e
  pub access : Access graph req e.submitted_by w w'

-- The id in the path names an expense that the caller may access, the one that is answered with; its
-- receipts are those of a moment of this request.
abbrev pub Shown : GraphApi → Request → QueryValue → Expense × List Receipt → World → World → Type 0
Shown graph req raw_id (e, receipts) w w' =
    (k : ℕ) × (parse_positive_id raw_id "expense ID" ≡ ok k)
    × Readable graph req k e w w'
    × (filter (λ r. r.expense_id == k) w'.db.receipts ≡ receipts)

-- The id in the path names an expense that the caller may access, by what was found before a point of the
-- run up to which nothing is written.
abbrev pub MayComment : GraphApi → Request → QueryValue → World → Type 0
MayComment graph req raw_id w =
    (k : ℕ) × (e : Expense) × (w1 : World) × (parse_positive_id raw_id "expense ID" ≡ ok k)
    × Waits w w1
    × Readable graph req k e w w1

select_receipts-IsSelect : (k : ℕ) → IsSelect (select_receipts k)
unfolding select_receipts
select_receipts-IsSelect k = record { leaves = λ now d x h. ground (arith, h) }

find_receipts-found :
    (k : ℕ) (w : World) {rs : List Receipt} {w' : World}
    → Ends (find_receipts k) w rs w'
    → (filter (λ r. r.expense_id == k) w'.db.receipts ≡ rs) × Waits w w'
unfolding find_receipts select_receipts
find_receipts-found k w h =
    let (stmt, before) = select-Ends (select_receipts k) w (select_receipts-IsSelect k) h in
    (ground (arith, stmt), before)

require_allowed-Reads : (r : Relationship) → Reads (require_allowed r)
unfolding require_allowed
require_allowed-Reads Relationship.allowed = search reads
require_allowed-Reads (Relationship.denied reason) = search reads

module _ (graph : GraphApi) (req : Request) where
  ensure_can_access_expense-Access :
      (submitted_by : ℕ) (w : World) {u : Unit {0}} {w' : World}
      → Ends (ensure_can_access_expense graph req submitted_by) w u w'
      → Access graph req submitted_by w w'
  unfolding ensure_can_access_expense raise
  ensure_can_access_expense-Access j w {u} {w'} = by_owner (j == req.user.id) refl
    where
      by_role :
          (b : Bool)
          → role_eq req.user.role Role.employee ≡ b
          → Ends
              (if b
                then raise insufficient_permissions
                else (verify_manager_relationship graph req j live_check >>= require_allowed))
              w
              u
              w'
          → Access graph req j w w'
      by_role true is h = cc
      by_role false is h =
          let (r, w1, p, q) =
            >>=-Ends (verify_manager_relationship graph req j live_check) require_allowed w h in
          let (allowed, still) = require_allowed-Ends r w1 q in
          inr (
            is,
            Evidence-widen graph req j (Waits-refl w) (Waits-of_eq still) (
                verify_manager_relationship-Evidence graph req j w w1
                  (p ∙ ap (λ (x : Relationship). (ok x, w1)) allowed)),
          )

      by_owner :
          (b : Bool)
          → (j == req.user.id) ≡ b
          → Ends
              (if b
                then pure tt
                else if role_eq req.user.role Role.employee
                then raise insufficient_permissions
                else (verify_manager_relationship graph req j live_check >>= require_allowed))
              w
              u
              w'
          → Access graph req j w w'
      by_owner true own h = inl (ground (arith, own))
      by_owner false other h = by_role (role_eq req.user.role Role.employee) refl h

  Access-after :
      (j : ℕ) {a w : World} (w' : World)
      → Waits a w
      → Access graph req j w w'
      → Access graph req j a w'
  Access-after j w' p (inl own) = inl own
  Access-after j w' p (inr (role, evidence)) =
      inr (role, Evidence-widen graph req j p (Waits-refl w') evidence)

  ensure_can_access_expense-Reads :
      (submitted_by : ℕ) → Reads (ensure_can_access_expense graph req submitted_by)
  unfolding ensure_can_access_expense
  ensure_can_access_expense-Reads submitted_by =
      search (reads, verify_manager_relationship-Reads, require_allowed-Reads)

  -- What the expense that was read and the check after it make up.
  checked-Readable :
      (k : ℕ) (e : Expense) (w w1 : World) {u : Unit {0}} {w2 : World}
      → (find_live k w1.db.expenses ≡ some e) × Waits w w1
      → Ends (ensure_can_access_expense graph req e.submitted_by) w1 u w2
      → Readable graph req k e w w2
  checked-Readable k e w w1 {w2 = w2} (there, before) h = record {
    read_at = w1;
    when = record {
      since = before;
      until = Reads-Ends (ensure_can_access_expense-Reads e.submitted_by) h;
    };
    is_there = there;
    access =
        Access-after e.submitted_by w2 before
          (ensure_can_access_expense-Access e.submitted_by w1 h);
  }

  Readable-until :
      {k : ℕ} {e : Expense} {w w1 w' : World}
      → Readable graph req k e w w1
      → Waits w1 w'
      → Readable graph req k e w w'
  Readable-until {e = e} {w = w} {w1 = w1} {w' = w'} r p = record {
    read_at = r.read_at;
    when = Between-widen (Waits-refl w) p r.when;
    is_there = r.is_there;
    access = access_until r.access;
  }
    where
      access_until : Access graph req e.submitted_by w w1 → Access graph req e.submitted_by w w'
      access_until (inl own) = inl own
      access_until (inr (role, evidence)) =
          inr (role, Evidence-widen graph req e.submitted_by (Waits-refl w) p evidence)

  load_expense-found :
      (raw_id : QueryValue) (w : World) {x : ℕ × Expense} {w' : World}
      → Ends (load_expense raw_id) w x w'
      → (parse_positive_id raw_id "expense ID" ≡ ok x.0)
        × (find_live x.0 w'.db.expenses ≡ some x.1)
        × Waits w w'
  unfolding load_expense
  load_expense-found raw_id w {x} {w'} h =
      let (j, w2, p2, h2) = >>=-Ends (lift (parse_positive_id raw_id "expense ID")) _ w h in
      let (o, w3, p3, h3) = >>=-Ends (find_by_id j) _ w2 h2 in
      let (e, w4, p4, h4) = >>=-Ends (or_raise o (not_found "Expense")) _ w3 h3 in
      let (parsed, still) = lift-Ends (parse_positive_id raw_id "expense ID") w p2 in
      let (read, before) = find_by_id-found j w2 p3 in
      let (found, still3) = or_raise-Ends o (not_found "Expense") w3 p4 in
      let last : w3 ≡ w' = still3 ∙ pure_world (j, e) h4 in
      subst
        (λ (y : ℕ × Expense).
          (parse_positive_id raw_id "expense ID" ≡ ok y.0)
          × (find_live y.0 w'.db.expenses ≡ some y.1)
          × Waits w w')
        (pure_value w4 h4)
        (
          parsed,
          subst (λ (v : World). find_live j v.db.expenses ≡ some e) last (read ∙ found),
          Waits-trans (Waits-of_eq still) (Waits-trans before (Waits-of_eq last)),
        )

  -- An expense is shown with its receipts only to who may access it: the id in the path is a positive
  -- integer, a live expense was in the table under it at a moment of this request, and is the one that is
  -- answered with, and the caller is its submitter, or is no mere employee and was found during this
  -- request to have authority over the submitter; the receipts are those that the expense has in the
  -- tables at the end.
  pub get_expense_by_id-access :
      (raw_id : QueryValue) (w : World) (answer : Expense × List Receipt) (w' : World)
      → get_expense_by_id graph req raw_id w ≡ (ok answer, w')
      → Shown graph req raw_id answer w w'
  unfolding get_expense_by_id
  get_expense_by_id-access raw_id w answer w' h =
      let (x, w1, p, h1) = >>=-Ends (load_expense raw_id) _ w h in
      let (parsed, there, before) = load_expense-found raw_id w p in
      let (u, w2, p2, h2) =
        >>=-Ends (ensure_can_access_expense graph req x.1.submitted_by) _ w1 h1 in
      let (receipts, w3, p3, h3) = >>=-Ends (find_receipts x.0) _ w2 h2 in
      let (own, later) = find_receipts-found x.0 w2 p3 in
      let last : w3 ≡ w' = pure_world (x.1, receipts) h3 in
      let to_end : Waits w2 w' = Waits-trans later (Waits-of_eq last) in
      let r = checked-Readable x.0 x.1 w w1 (there, before) p2 in
      subst (λ (y : Expense × List Receipt). Shown graph req raw_id y w w') (pure_value w3 h3)
        (
          x.0,
          parsed,
          Readable-until r to_end,
          subst (λ (v : World). filter (λ r. r.expense_id == x.0) v.db.receipts ≡ receipts) last
              own,
        )

  -- A comment is posted only by who may access the expense: the id in the path is a positive integer, a
  -- live expense was in the table under it at a moment of this request before its first write, and the
  -- caller is its submitter, or is no mere employee and was found by then to have authority over the
  -- submitter.
  pub add_comment-access :
      (raw_id : QueryValue) (body : Text) (w : World) (answer : CommentRow) (w' : World)
      → add_comment graph req raw_id body w ≡ (ok answer, w')
      → MayComment graph req raw_id w
  unfolding add_comment readable_expense
  add_comment-access raw_id body w answer w' h =
      let (x, w1, p, h1) = >>=-Ends (readable_expense graph req raw_id) _ w h in
      let (k, w2, p2, h2) = >>=-Ends (lift (parse_positive_id raw_id "expense ID")) _ w p in
      let (o, w3, p3, h3) = >>=-Ends (find_by_id k) _ w2 h2 in
      let (e, w4, p4, h4) = >>=-Ends (or_raise o (not_found "Expense")) _ w3 h3 in
      let (u, w5, p5, h5) = >>=-Ends (ensure_can_access_expense graph req e.submitted_by) _ w4 h4 in
      let (parsed, still) = lift-Ends (parse_positive_id raw_id "expense ID") w p2 in
      let (read, before) = find_by_id-found k w2 p3 in
      let (found, still3) = or_raise-Ends o (not_found "Expense") w3 p4 in
      let before4 : Waits w w4 =
        Waits-trans (Waits-of_eq still) (Waits-trans before (Waits-of_eq still3)) in
      let there : find_live k w4.db.expenses ≡ some e =
        subst (λ (v : World). find_live k v.db.expenses ≡ some e) still3 (read ∙ found) in
      (
        k,
        e,
        w5,
        parsed,
        Waits-trans before4 (Reads-Ends (ensure_can_access_expense-Reads e.submitted_by) p5),
        checked-Readable k e w w4 (there, before4) p5,
      )
