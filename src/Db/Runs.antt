-- ===== src/Db/Runs.antt =====
-- What a run that ended well went through, step by step.
use mathlib.Core.Path.{subst}
use expense_management_syste.Base.{
  Bool, true, false, Option, none, some, ◌≡◌, refl, sym, ap, inl, inr, ◌⊎◌,
}
use expense_management_syste.Errors.{Error, Result, ok, err}
use expense_management_syste.Db.Table.{Db}
use expense_management_syste.Db.Monad.{
  attempt, World, M, pure, raise, ◌>>=◌, guard, or_raise, lift, Statement, run, pause, query,
}
use expense_management_syste.Db.History.{Evolves}
use expense_management_syste.Db.Guarantee.{Rely, Keeps}

-- A run `m w` that ends with `a` in the world `w'`.
abbrev pub Ends : {A : Type 0} → M A → World → A → World → Type 0
Ends m w a w' = m w ≡ (ok a, w')

module _ {A B : Type 0} where
  bind_inv :
      (r : Result A) (w1 : World) (f : A → M B) {b : B} {w' : World}
      → (let out : Result B × World = elim r [ ok a ↦ f a w1 | err e ↦ (err e, w1) ] in
          out ≡ (ok b, w'))
      → (a : A) × (r ≡ ok a) × (f a w1 ≡ (ok b, w'))
  bind_inv (ok a) w1 f h = (a, refl, h)
  bind_inv (err e) w1 f h = cc

  pub >>=-Ends :
      (m : M A) (f : A → M B) (w : World) {b : B} {w' : World}
      → Ends (m >>= f) w b w'
      → (a : A) × (w1 : World) × Ends m w a w1 × Ends (f a) w1 b w'
  unfolding ◌>>=◌
  >>=-Ends m f w h =
      let (a, e, t) = bind_inv (m w).0 (m w).1 f h in (a, (m w).1, ap (λ r. (r, (m w).1)) e, t)

pair_eq : {A B : Type 0} {a a2 : A} {b b2 : B} → a ≡ a2 → b ≡ b2 → ◌≡◌ {A = A × B} (a, b) (a2, b2)
pair_eq p q = cc

module _ {A : Type 0} where
  pub Keeps-Ends :
      {m : M A} {w w' : World} {a : A}
      → Keeps m
      → Rely w.events
      → Ends m w a w'
      → Evolves w.db w'.db × Rely w'.events
  Keeps-Ends {m} {w} k r e =
      subst (λ (x : Result A × World). Evolves w.db x.1.db × Rely x.1.events) e (k.apply w r)

  pub lift-Ends :
      (r : Result A) (w : World) {a : A} {w' : World} → Ends (lift r) w a w' → (r ≡ ok a) × (w ≡ w')
  unfolding lift
  lift-Ends r w h = (ap (λ (x : Result A × World). x.0) h, ap (λ (x : Result A × World). x.1) h)

  pub or_raise-Ends :
      (o : Option A) (e : Error) (w : World) {a : A} {w' : World}
      → Ends (or_raise o e) w a w'
      → (o ≡ some a) × (w ≡ w')
  unfolding or_raise raise pure
  or_raise-Ends none e w h = cc
  or_raise-Ends (some x) e w h = (cc, ap (λ (x : Result A × World). x.1) h)

  stmt_inv :
      (o : Option (A × Db)) (w1 : World) {a : A} {w' : World}
      → (let out : Result A × World = elim o [
        | none ↦ (err Error.failure, w1)
        | some (x, d) ↦ (ok x, record w1 { db = d })
      ] in
          out ≡ (ok a, w'))
      → (o ≡ some (a, w'.db)) × (w'.events ≡ w1.events)
  stmt_inv none w1 h = cc
  stmt_inv (some (x, d)) w1 {a} {w'} h =
      let same : x ≡ a = cc in
      (
        ap some (pair_eq same (ap (λ (y : Result A × World). y.1.db) h)),
        sym (ap (λ (y : Result A × World). y.1.events) h),
      )

  pub run-Ends :
      (s : Statement A) (w1 : World) {a : A} {w' : World}
      → Ends (run s) w1 a w'
      → (s w1.now w1.db ≡ some (a, w'.db)) × (w'.events ≡ w1.events)
  unfolding run
  run-Ends s w1 h = stmt_inv (s w1.now w1.db) w1 h

  -- The statement ran on some tables, and left those that are there now.
  pub query-Ends :
      (s : Statement A) (w : World) {a : A} {w' : World}
      → Ends (query s) w a w'
      → (w1 : World) × (s w1.now w1.db ≡ some (a, w'.db))
        × (pause w ≡ (ok tt, w1))
        × (w'.events ≡ w1.events)
  unfolding query
  query-Ends s w h =
      let (u, w1, p, q) = >>=-Ends pause (λ _. run s) w h in
      let (stmt, ev) = run-Ends s w1 q in (w1, stmt, p, ev)

pub guard-Ends :
    (b : Bool) (e : Error) (w : World) {u : Unit {0}} {w' : World}
    → Ends (guard b e) w u w'
    → (b ≡ true) × (w ≡ w')
unfolding guard raise pure
guard-Ends true e w h = (refl, ap (λ (x : Result (Unit {0}) × World). x.1) h)
guard-Ends false e w h = cc

pub attempt-Ends :
    {A : Type 0} (m : M A) (h : Error → M A) (w : World) {a : A} {w' : World}
    → Ends (attempt m h) w a w'
    → Ends m w a w' ⊎ ((e : Error) × (w1 : World) × Ends (h e) w1 a w')
unfolding attempt
attempt-Ends {A} m h w {a} {w'} = handled (m w).0 (m w).1
  where
    handled :
        (r : Result A) (w1 : World)
        → (let out : Result A × World = elim r [ ok x ↦ (ok x, w1) | err e ↦ h e w1 ] in
            out ≡ (ok a, w'))
        → (◌≡◌ {A = Result A × World} (r, w1) (ok a, w'))
          ⊎ ((e : Error) × (w1 : World) × Ends (h e) w1 a w')
    handled (ok x) w1 e = inl e
    handled (err x) w1 e = inr (x, w1, e)
