-- ===== src/Db/Alone.antt =====
-- Runs in which no other request interferes and nothing fails: the schedule is empty.
use expense_management_syste.Base.{
  Option, none, some, List, [], ◌∷◌, ◌≡◌, refl, ap, ◌∙◌, if◌then◌else◌,
}
use expense_management_syste.Errors.{Error, Result, ok, err}
use expense_management_syste.Db.Table.{Db}
use expense_management_syste.Db.Monad.{Event, World, M, ◌>>=◌, Statement, run, pause, query, lift}

module _ {A B : Type 0} where
  -- The rest of a block goes on from where its first step ended.
  pub >>=_step :
      (m : M A) (f : A → M B) (w : World) {a : A} {w' : World}
      → m w ≡ (ok a, w')
      → (m >>= f) w ≡ f a w'
  unfolding ◌>>=◌
  >>=_step m f w h =
      ap (λ (r : Result A × World). elim r.0 [ ok a ↦ f a r.1 | err e ↦ (err e, r.1) ]) h

pause_alone : (w : World) → w.events ≡ [] → pause w ≡ (ok tt, w)
unfolding pause
pause_alone w quiet = by_events w.events quiet
  where
    by_events :
        (es : List Event)
        → es ≡ []
        → (let out : Result (Unit {0}) × World = elim es [
          | [] ↦ (ok tt, w)
          | e ∷ rest ↦ (
            if e.fails then err Error.failure else ok tt,
            record w { db = e.others w.db; events = rest },
          )
        ] in
            out ≡ (ok tt, w))
    by_events [] q = refl
    by_events (e ∷ rest) q = cc

module _ {A : Type 0} where
  run_alone :
      (s : Statement A) (w : World) {a : A} → s w.now w.db ≡ some (a, w.db) → run s w ≡ (ok a, w)
  unfolding run
  run_alone s w h =
      ap
        (λ (o : Option (A × Db)). elim o [
          | none ↦ (err Error.failure, w)
          | some (a, d) ↦ (ok a, record w { db = d })
        ])
        h

  -- A read answers from the tables as they are.
  pub query_alone :
      (s : Statement A) (w : World) {a : A}
      → w.events ≡ []
      → s w.now w.db ≡ some (a, w.db)
      → query s w ≡ (ok a, w)
  unfolding query
  query_alone s w quiet answer =
      >>=_step pause (λ _. run s) w (pause_alone w quiet) ∙ run_alone s w answer

module _ {A : Type 0} where
  run_writes :
      (s : Statement A) (w : World) {a : A} {d : Db}
      → s w.now w.db ≡ some (a, d)
      → run s w ≡ (ok a, record w { db = d })
  unfolding run
  run_writes s w h =
      ap
        (λ (o : Option (A × Db)). elim o [
          | none ↦ (err Error.failure, w)
          | some (a, d) ↦ (ok a, record w { db = d })
        ])
        h

  -- A write leaves the tables that the statement makes.
  pub query_writes :
      (s : Statement A) (w : World) {a : A} {d : Db}
      → w.events ≡ []
      → s w.now w.db ≡ some (a, d)
      → query s w ≡ (ok a, record w { db = d })
  unfolding query
  query_writes s w quiet answer =
      >>=_step pause (λ _. run s) w (pause_alone w quiet) ∙ run_writes s w answer

pub lift_alone : {A : Type 0} (r : Result A) (w : World) {a : A} → r ≡ ok a → lift r w ≡ (ok a, w)
unfolding lift
lift_alone r w h = ap (λ x. (x, w)) h
