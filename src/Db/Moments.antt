-- ===== src/Db/Moments.antt =====
-- The moments of a run that only reads: what server/src/models/ finds when it asks the database.
use mathlib.Core.Path.{subst}
use expense_management_syste.Base.{
  List-cases, inl, inr, ℕ, zero, suc, ◌+◌, Bool, true, false, Option, none, some, ◌≡◌, refl, sym,
  ap, ◌∙◌, if◌then◌else◌, arith,
}
use expense_management_syste.Errors.{Error, Result, ok, err}
use expense_management_syste.Db.Table.{Db}
use expense_management_syste.Db.Monad.{
  World, M, Statement, pure, raise, ◌>>=◌, lift, current_time, attempt, guard, or_raise, run, pause,
  query,
}
use expense_management_syste.Db.Runs.{Ends, >>=-Ends, run-Ends}

-- The world after the next `n` entries of the schedule, in which others commit and the run writes nothing.
abbrev pub after : ℕ → World → World
after zero w = w
after (suc n) w = after n (pause w).1

pub record Waits (w w' : World) : Type 0 where
  pub rounds : ℕ
  pub there : w' ≡ after rounds w

after_add : (m n : ℕ) (w : World) → after n (after m w) ≡ after (m + n) w
after_add zero n w = let same : n ≡ 0 + n = omega arith in ap (λ k. after k w) same
after_add (suc m) n w =
    let shift : suc (m + n) ≡ suc m + n = omega arith in
    after_add m n (pause w).1 ∙ ap (λ k. after k w) shift

pub Waits-refl : (w : World) → Waits w w
Waits-refl w = record { rounds = 0; there = refl }

pub Waits-of_eq : {w w' : World} → w ≡ w' → Waits w w'
Waits-of_eq e = record { rounds = 0; there = sym e }

pub Waits-trans : {w v w' : World} → Waits w v → Waits v w' → Waits w w'
Waits-trans {w} a b = record {
  rounds = a.rounds + b.rounds;
  there = b.there ∙ ap (after b.rounds) a.there ∙ after_add a.rounds b.rounds w;
}

pause-now : (w : World) → (pause w).1.now ≡ w.now
unfolding pause
pause-now w = elim (List-cases w.events) [
  | inl none_left ↦ rw (none_left, pause) refl
  | inr (x, xs, more) ↦ rw (more, pause) refl
]

after-now : (n : ℕ) (w : World) → (after n w).now ≡ w.now
after-now zero w = refl
after-now (suc n) w = after-now n (pause w).1 ∙ pause-now w

-- The clock of a request stands.
pub Waits-now : {w w' : World} → Waits w w' → w'.now ≡ w.now
Waits-now {w} p = ap (λ (v : World). v.now) p.there ∙ after-now p.rounds w

-- The tables of `v` are those of a moment between `w` and `w'`, two points of a run that only reads.
pub record Between (w w' v : World) : Type 0 where
  pub since : Waits w v
  pub until : Waits v w'

pub Between-widen : {a w w' b v : World} → Waits a w → Waits w' b → Between w w' v → Between a b v
Between-widen p q m = record { since = Waits-trans p m.since; until = Waits-trans m.until q }

-- The run writes nothing, however it ends.
pub record Reads {A : Type 0} (m : M A) : Type 0 where
  pub waits : (w : World) → Waits w (m w).1

pub Reads-pure : {A : Type 0} (a : A) → Reads (pure a)
unfolding pure
Reads-pure a = record { waits = Waits-refl }

pub Reads-raise : {A : Type 0} (e : Error) → Reads (raise {A = A} e)
unfolding raise
Reads-raise e = record { waits = Waits-refl }

pub Reads-lift : {A : Type 0} (r : Result A) → Reads (lift r)
unfolding lift
Reads-lift r = record { waits = Waits-refl }

pub Reads-current_time : Reads current_time
unfolding current_time
Reads-current_time = record { waits = Waits-refl }

pub Reads-pause : Reads pause
Reads-pause = record { waits = λ w. record { rounds = 1; there = refl } }

module _ {A B : Type 0} where
  bind_step :
      (f : A → M B)
      → ((a : A) → Reads (f a))
      → (w : World) (r : Result A) (w1 : World) → Waits w w1
      → let out : Result B × World = elim r [ ok a ↦ f a w1 | err e ↦ (err e, w1) ] in Waits w out.1
  bind_step f h w (ok a) w1 g = Waits-trans g ((h a).waits w1)
  bind_step f h w (err e) w1 g = g

  pub Reads->>= : {m : M A} {f : A → M B} → Reads m → ((a : A) → Reads (f a)) → Reads (m >>= f)
  unfolding ◌>>=◌
  Reads->>= {m} {f} k h = record { waits = λ w. bind_step f h w (m w).0 (m w).1 (k.waits w) }

module _ {A : Type 0} where
  handled :
      (h : Error → M A)
      → ((e : Error) → Reads (h e))
      → (w : World) (r : Result A) (w1 : World) → Waits w w1
      → let out : Result A × World = elim r [ ok a ↦ (ok a, w1) | err e ↦ h e w1 ] in Waits w out.1
  handled h l w (ok a) w1 g = g
  handled h l w (err e) w1 g = Waits-trans g ((l e).waits w1)

  pub Reads-attempt :
      {m : M A} {h : Error → M A} → Reads m → ((e : Error) → Reads (h e)) → Reads (attempt m h)
  unfolding attempt
  Reads-attempt {m} {h} k l = record { waits = λ w. handled h l w (m w).0 (m w).1 (k.waits w) }

  pub Reads-if : (b : Bool) {x y : M A} → Reads x → Reads y → Reads (if b then x else y)
  Reads-if true h k = h
  Reads-if false h k = k

  pub Reads-or_raise : (o : Option A) (e : Error) → Reads (or_raise o e)
  unfolding or_raise
  Reads-or_raise none e = Reads-raise e
  Reads-or_raise (some a) e = Reads-pure a

  -- A SELECT.
  pub record IsSelect (s : Statement A) : Type 0 where
    pub leaves : (now : ℕ) (d : Db) (x : A × Db) → s now d ≡ some x → x.1 ≡ d

  run_step :
      (o : Option (A × Db)) (w : World)
      → ((x : A × Db) → o ≡ some x → x.1 ≡ w.db)
      → let out : Result A × World = elim o [
        | none ↦ (err Error.failure, w)
        | some (a, d) ↦ (ok a, record w { db = d })
      ] in
        out.1 ≡ w
  run_step none w h = refl
  run_step (some (a, d)) w h = ap (λ y. record w { db = y }) (h (a, d) refl)

  pub run-same : (s : Statement A) → IsSelect s → (w : World) → (run s w).1 ≡ w
  unfolding run
  run-same s k w = run_step (s w.now w.db) w (k.leaves w.now w.db)

  pub Reads-query : (s : Statement A) → IsSelect s → Reads (query s)
  unfolding query
  Reads-query s k =
      Reads->>= Reads-pause λ _. record { waits = λ w. Waits-of_eq (sym (run-same s k w)) }

  pub Reads-Ends : {m : M A} {w w' : World} {a : A} → Reads m → Ends m w a w' → Waits w w'
  Reads-Ends {m} {w} k h = subst (λ (x : Result A × World). Waits w x.1) h (k.waits w)

  -- What a SELECT found is in the tables of the moment that it ends in.
  pub select-Ends :
      (s : Statement A) (w : World) {a : A} {w' : World}
      → IsSelect s
      → Ends (query s) w a w'
      → (s w'.now w'.db ≡ some (a, w'.db)) × Waits w w'
  unfolding query
  select-Ends s w {a} {w'} k h =
      let (u, w1, p, q) = >>=-Ends pause (λ _. run s) w h in
      let (stmt, _) = run-Ends s w1 q in
      let same : w1 ≡ w' = sym (run-same s k w1) ∙ ap (λ (x : Result A × World). x.1) q in
      (
        subst (λ (v : World). s v.now v.db ≡ some (a, w'.db)) same stmt,
        Reads-Ends (Reads-query s k) h,
      )

pub Reads-guard : (b : Bool) (e : Error) → Reads (guard b e)
unfolding guard
Reads-guard b e = Reads-if b (Reads-pure tt) (Reads-raise e)

-- The rules, by which `search` goes through a `do` block that only reads.
pub ruleset reads = (
  Reads->>=, Reads-pure, Reads-raise, Reads-lift, Reads-current_time, Reads-if, Reads-guard,
  Reads-or_raise, Reads-attempt, Reads-query,
)
