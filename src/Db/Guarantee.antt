-- ===== src/Db/Guarantee.antt =====
-- Rely and guarantee for the operations of Db.Monad: one rule for each way that one is put
-- together.
use expense_management_syste.Base.{
  Bool, true, false, Option, none, some, List, [], ◌∷◌, ◌≡◌, refl, ℕ, if◌then◌else◌, inl, inr,
  List-cases, Option-cases,
}
use mathlib.Core.Path.{subst}
use expense_management_syste.Errors.{Error, Result, ok, err}
use expense_management_syste.Db.Table.{Db}
use expense_management_syste.Db.Monad.{
  lift, current_time, Event, World, M, pure, raise, ◌>>=◌, ◌>>◌, attempt, guard, or_raise,
  Statement, run, pause, pause_locked, query, execute, Ending, commit, abort, restore, rollback,
  finish, try_block, transaction,
}
use expense_management_syste.Db.History.{Evolves, Evolves-refl, Evolves-trans, Evolves-of_same}

-- Whatever the other requests commit lets the tables evolve.
abbrev pub Rely : List Event → Type 0
Rely [] = Unit
Rely (e ∷ es) = ((d : Db) → Evolves d (e.others d)) × Rely es

pub record Keeps {A : Type 0} (m : M A) : Type 0 where
  pub apply : (w : World) → Rely w.events → Evolves w.db (m w).1.db × Rely (m w).1.events

pub record StatementKeeps {A : Type 0} (s : Statement A) : Type 0 where
  pub apply : (now : ℕ) (d : Db) (a : A) (d' : Db) → s now d ≡ some (a, d') → Evolves d d'

pub Keeps-pure : {A : Type 0} (a : A) → Keeps (pure a)
unfolding pure
Keeps-pure a = record { apply = λ w r. (Evolves-refl w.db, r) }

pub Keeps-raise : {A : Type 0} (e : Error) → Keeps (raise {A = A} e)
unfolding raise
Keeps-raise e = record { apply = λ w r. (Evolves-refl w.db, r) }

pub Keeps-lift : {A : Type 0} (r : Result A) → Keeps (lift r)
unfolding lift
Keeps-lift r = record { apply = λ w k. (Evolves-refl w.db, k) }

pub Keeps-current_time : Keeps current_time
unfolding current_time
Keeps-current_time = record { apply = λ w k. (Evolves-refl w.db, k) }

module _ {A B : Type 0} where
  bind_step :
      (f : A → M B)
      → ((a : A) → Keeps (f a))
      → (w : World) (r : Result A) (w' : World) → Evolves w.db w'.db × Rely w'.events
      → let after : Result B × World = elim r [ ok a ↦ f a w' | err e ↦ (err e, w') ] in
        Evolves w.db after.1.db × Rely after.1.events
  bind_step f h w (ok a) w' (g, r) = let (g', r') = (h a).apply w' r in (Evolves-trans g g', r')
  bind_step f h w (err e) w' g = g

  pub Keeps->>= : {m : M A} {f : A → M B} → Keeps m → ((a : A) → Keeps (f a)) → Keeps (m >>= f)
  unfolding ◌>>=◌
  Keeps->>= {m} {f} k h = record { apply = λ w r. bind_step f h w (m w).0 (m w).1 (k.apply w r) }

module _ {A : Type 0} where
  attempt_step :
      (h : Error → M A)
      → ((e : Error) → Keeps (h e))
      → (w : World) (r : Result A) (w' : World) → Evolves w.db w'.db × Rely w'.events
      → let after : Result A × World = elim r [ ok a ↦ (ok a, w') | err e ↦ h e w' ] in
        Evolves w.db after.1.db × Rely after.1.events
  attempt_step f h w (ok a) w' g = g
  attempt_step f h w (err e) w' (g, r) = let (g', r') = (h e).apply w' r in (Evolves-trans g g', r')

  pub Keeps-attempt :
      {m : M A} {h : Error → M A} → Keeps m → ((e : Error) → Keeps (h e)) → Keeps (attempt m h)
  unfolding attempt
  Keeps-attempt {m} {h} k l = record {
    apply = λ w r. attempt_step h l w (m w).0 (m w).1 (k.apply w r);
  }

  pub Keeps-if : (b : Bool) {x y : M A} → Keeps x → Keeps y → Keeps (if b then x else y)
  Keeps-if true h k = h
  Keeps-if false h k = k

  pub Keeps-or_raise : (o : Option A) (e : Error) → Keeps (or_raise o e)
  unfolding or_raise
  Keeps-or_raise none e = Keeps-raise e
  Keeps-or_raise (some a) e = Keeps-pure a

pub Keeps-guard : (b : Bool) (e : Error) → Keeps (guard b e)
unfolding guard
Keeps-guard b e = Keeps-if b (Keeps-pure tt) (Keeps-raise e)

-- The next entry of the schedule does what the rely says.
Rely-head :
    (w : World) (es : List Event) {x : Event} {xs : List Event}
    → es ≡ x ∷ xs
    → Rely es
    → Evolves w.db (x.others w.db) × Rely xs
Rely-head w [] e r = cc
Rely-head w (y ∷ ys) {x} {xs} e (g, r) =
    let head : y ≡ x = cc in
    let tail : ys ≡ xs = cc in
    (subst (λ z. Evolves w.db (z.others w.db)) head (g w.db), subst Rely tail r)

pub Keeps-pause : Keeps pause
unfolding pause
Keeps-pause = record {
  apply = λ w r. elim (List-cases w.events) [
    | inl none_left ↦ rw (none_left, pause) (Evolves-refl w.db, r)
    | inr (x, xs, more) ↦ rw (more, pause) (Rely-head w w.events more r)
  ];
}

pub Keeps-pause_locked : Keeps pause_locked
unfolding pause_locked
Keeps-pause_locked = record {
  apply = λ w r. elim (List-cases w.events) [
    | inl none_left ↦ rw (none_left, pause_locked) (Evolves-refl w.db, r)
    | inr (x, xs, more) ↦
        rw (more, pause_locked) (Evolves-refl w.db, (Rely-head w w.events more r).1)
  ];
}

module _ {A : Type 0} where
  pub Keeps-run : (s : Statement A) → StatementKeeps s → Keeps (run s)
  unfolding run
  Keeps-run s k = record {
    apply = λ w r. elim (Option-cases (s w.now w.db)) [
      | inl refused ↦ rw (refused, run) (Evolves-refl w.db, r)
      | inr ((a, d), done) ↦ rw (done, run) (k.apply w.now w.db a d done, r)
    ];
  }

  pub Keeps-query : (s : Statement A) → StatementKeeps s → Keeps (query s)
  unfolding query
  Keeps-query s k = Keeps->>= Keeps-pause (λ _. Keeps-run s k)

  pub Keeps-execute : (s : Statement A) → StatementKeeps s → Keeps (execute s)
  unfolding execute
  Keeps-execute s k = Keeps->>= Keeps-pause_locked (λ _. Keeps-run s k)

-- The same, measured from the tables `d` at which a transaction began.
record KeepsFrom {A : Type 0} (d : Db) (m : M A) : Type 0 where
  from : (w : World) → Evolves d w.db → Rely w.events → Evolves d (m w).1.db × Rely (m w).1.events

module _ {A : Type 0} (d : Db) where
  KeepsFrom-of_Keeps : (m : M A) → Keeps m → KeepsFrom d m
  KeepsFrom-of_Keeps m k = record {
    from = λ w e r. let (g, r') = k.apply w r in (Evolves-trans e g, r');
  }

  KeepsFrom->>= :
      {B : Type 0} {m : M B} {f : B → M A}
      → KeepsFrom d m
      → ((b : B) → KeepsFrom d (f b))
      → KeepsFrom d (m >>= f)
  unfolding ◌>>=◌
  KeepsFrom->>= {B} {m} {f} k h = record { from = λ w e r. step (m w).0 (m w).1 (k.from w e r) }
    where
      step :
          (x : Result B) (w : World)
          → Evolves d w.db × Rely w.events
          → let after : Result A × World = elim x [ ok b ↦ f b w | err e ↦ (err e, w) ] in
            Evolves d after.1.db × Rely after.1.events
      step (ok b) w (e, r) = (h b).from w e r
      step (err _) w g = g

  KeepsFrom-attempt :
      {m : M A} {h : Error → M A}
      → KeepsFrom d m
      → ((e : Error) → KeepsFrom d (h e))
      → KeepsFrom d (attempt m h)
  unfolding attempt
  KeepsFrom-attempt {m} {h} k l = record { from = λ w e r. step (m w).0 (m w).1 (k.from w e r) }
    where
      step :
          (x : Result A) (w : World)
          → Evolves d w.db × Rely w.events
          → let after : Result A × World = elim x [ ok b ↦ (ok b, w) | err e ↦ h e w ] in
            Evolves d after.1.db × Rely after.1.events
      step (ok b) w g = g
      step (err x) w (e, r) = (l x).from w e r

-- A rollback leads back to where the transaction began.
KeepsFrom-rollback : (d : Db) → KeepsFrom d (rollback d)
unfolding rollback
KeepsFrom-rollback d = record {
  from = λ w e r.
      let back : Evolves d (restore d w.db) = Evolves-of_same d (restore d w.db) refl refl in
      let (g, r') = Keeps-pause_locked.apply (record w { db = restore d w.db }) r in
      (Evolves-trans back g, r');
}

module _ {A : Type 0} where
  KeepsFrom-finish : (d : Db) (x : Ending A) → KeepsFrom d (finish d x)
  unfolding finish
  KeepsFrom-finish d (commit a) =
      KeepsFrom-of_Keeps d _ (Keeps->>= Keeps-pause_locked (λ _. Keeps-pure a))
  KeepsFrom-finish d (abort a) =
      KeepsFrom->>= d (KeepsFrom-rollback d) (λ _. KeepsFrom-of_Keeps d (pure a) (Keeps-pure a))

  KeepsFrom-undo : (d : Db) (e : Error) → KeepsFrom d (rollback d >> raise {A = A} e)
  KeepsFrom-undo d e =
      KeepsFrom->>= d (KeepsFrom-rollback d) (λ _. KeepsFrom-of_Keeps d (raise e) (Keeps-raise e))

  Keeps-try_block : (body : M (Ending A)) → Keeps body → Keeps (try_block body)
  unfolding try_block
  Keeps-try_block body k = record {
    apply = λ w r.
        (KeepsFrom-attempt w.db
            (KeepsFrom->>= w.db (KeepsFrom-of_Keeps w.db pause_locked Keeps-pause_locked)
              λ _. KeepsFrom->>= w.db (KeepsFrom-of_Keeps w.db body k) (KeepsFrom-finish w.db))
            (KeepsFrom-undo w.db)).from
          w (Evolves-refl w.db) r;
  }

  -- A transaction keeps to the rely if its body does, whichever statement fails.
  pub Keeps-transaction : (body : M (Ending A)) → Keeps body → Keeps (transaction body)
  unfolding transaction
  Keeps-transaction body k = Keeps->>= Keeps-pause (λ _. Keeps-try_block body k)

-- The rules, by which `search` goes through a `do` block.
pub ruleset keeps = (
  Keeps->>=, Keeps-pure, Keeps-raise, Keeps-lift, Keeps-current_time, Keeps-if, Keeps-guard,
  Keeps-or_raise, Keeps-attempt, Keeps-query, Keeps-execute, Keeps-transaction,
)
