-- ===== src/Handlers/Gate.antt =====
-- What server/src/controllers/approvalController.ts checks before a decision.
use mathlib.Core.Path.{subst}
use expense_management_syste.Base.{ℕ, not, ◌≡◌, refl, sym, ap, ◌∙◌, ◌≢◌, arith, ◌==◌}
use expense_management_syste.Errors.{Error, Result}
use expense_management_syste.Types.{Expense, Status, status_eq}
use expense_management_syste.Db.{World, M, pure, raise, ◌>>=◌, ◌>>◌, guard, Rely, Evolves}
use expense_management_syste.Db.Runs.{Ends, >>=-Ends, Keeps-Ends, guard-Ends}
use expense_management_syste.Auth.{
  Request, GraphApi, Relationship, verify_manager_relationship, require_allowed, live_check,
}
use expense_management_syste.Auth.Evidence.{
  Evidence, verify_manager_relationship-Evidence, verify_manager_relationship-Reads,
}
use expense_management_syste.Db.Moments.{Waits, Reads-Ends}
use expense_management_syste.Handlers.Guarantee.{verify_manager_relationship-Keeps}

-- From `w` on nothing was written until the caller was found to have authority over the submitter; what
-- came then led on to `w'`.
abbrev pub Authorized : GraphApi → Request → ℕ → World → World → Type 0
Authorized graph req submitted_by w w' =
    (w1 : World) × Waits w w1 × Evidence graph req submitted_by w w1 × Evolves w1.db w'.db

pub require_allowed-Ends :
    (r : Relationship) (w : World) {u : Unit {0}} {w' : World}
    → Ends (require_allowed r) w u w'
    → (r ≡ Relationship.allowed) × (w ≡ w')
unfolding require_allowed pure raise
require_allowed-Ends Relationship.allowed w h =
    (refl, ap (λ (x : Result (Unit {0}) × World). x.1) h)
require_allowed-Ends (Relationship.denied reason) w h = cc

module _ (graph : GraphApi) (req : Request) where
  -- What both handlers check before the decision.
  unfoldable pub gate : {A : Type 0} → Expense → Error → Error → M A → M A
  gate expense own pending after =
      guard (not (expense.submitted_by == req.user.id)) own
      >> (verify_manager_relationship graph req expense.submitted_by live_check >>= λ relationship.
          require_allowed relationship
          >> (guard (status_eq expense.status Status.pending) pending >> after))

  pub gate-Ends :
      {A : Type 0} (expense : Expense) (own pending : Error) (after : M A) (w : World) {a : A}
      {w' : World}
      → Rely w.events
      → Ends (gate expense own pending after) w a w'
      → (expense.submitted_by ≢ req.user.id)
        × (w2 : World) × Waits w w2
        × Evidence graph req expense.submitted_by w w2
        × Evolves w.db w2.db
        × Rely w2.events
        × Ends after w2 a w'
  unfolding gate
  gate-Ends expense own pending after w {a} {w'} r h =
      let (u, w1, p, h1) = >>=-Ends (guard (not (expense.submitted_by == req.user.id)) own) _ w h in
      let (other, still) = guard-Ends (not (expense.submitted_by == req.user.id)) own w p in
      let (rel, w2, q, h2) =
        >>=-Ends (verify_manager_relationship graph req expense.submitted_by live_check) _ w1 h1 in
      let (v, w3, q3, h3) = >>=-Ends (require_allowed rel) _ w2 h2 in
      let (allowed, still3) = require_allowed-Ends rel w2 q3 in
      let (x, w4, q4, h4) =
        >>=-Ends (guard (status_eq expense.status Status.pending) pending) (λ _. after) w3 h3 in
      let (fine, still4) = guard-Ends (status_eq expense.status Status.pending) pending w3 q4 in
      let checked : Ends (verify_manager_relationship graph req expense.submitted_by live_check) w
          Relationship.allowed w2 =
        cc (q, allowed, still) in
      let (g, r2) =
        Keeps-Ends (verify_manager_relationship-Keeps graph req expense.submitted_by live_check) r
          checked in
      (
        ground (arith, other),
        w2,
        Reads-Ends (verify_manager_relationship-Reads graph req expense.submitted_by) checked,
        verify_manager_relationship-Evidence graph req expense.submitted_by w w2 checked,
        g,
        r2,
        subst (λ x. Ends after x a w') (sym (still3 ∙ still4)) h4,
      )
