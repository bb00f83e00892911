-- ===== src/Db/Atomic.antt =====
-- What a transaction leaves behind, when its statements may fail: the `try`, `catch` and
-- `rollback` of server/src/models/.
use mathlib.Core.Path.{subst}
use expense_management_syste.Base.{ℕ, some, ◌≡◌, refl, sym, ap, ◌∙◌, List-cases, inl, inr, ◌⊎◌}
use expense_management_syste.Errors.{Error, Result, ok, err}
use expense_management_syste.Db.Table.{Db}
use expense_management_syste.Db.Monad.{
  World, M, Statement, run, execute, pure, raise, ◌>>=◌, ◌>>◌, attempt, pause, pause_locked, Ending,
  commit, abort, restore, rollback, finish, try_block, transaction,
}
use expense_management_syste.Db.Runs.{Ends, >>=-Ends, run-Ends}

-- The same rows in every table; the AUTO_INCREMENT counters may differ.
pub record SameRows (d d' : Db) : Type 0 where
  pub users : d'.users ≡ d.users
  pub expenses : d'.expenses ≡ d.expenses
  pub receipts : d'.receipts ≡ d.receipts
  pub comments : d'.comments ≡ d.comments
  pub notifications : d'.notifications ≡ d.notifications
  pub audit_logs : d'.audit_logs ≡ d.audit_logs
  pub security_events : d'.security_events ≡ d.security_events

SameRows-of_eq : {d d' : Db} → d' ≡ d → SameRows d d'
SameRows-of_eq e = record {
  users = ap (λ (x : Db). x.users) e;
  expenses = ap (λ (x : Db). x.expenses) e;
  receipts = ap (λ (x : Db). x.receipts) e;
  comments = ap (λ (x : Db). x.comments) e;
  notifications = ap (λ (x : Db). x.notifications) e;
  audit_logs = ap (λ (x : Db). x.audit_logs) e;
  security_events = ap (λ (x : Db). x.security_events) e;
}

SameRows-restore : (d m d' : Db) → d' ≡ restore d m → SameRows d d'
SameRows-restore d m d' e = record {
  users = ap (λ (x : Db). x.users) e;
  expenses = ap (λ (x : Db). x.expenses) e;
  receipts = ap (λ (x : Db). x.receipts) e;
  comments = ap (λ (x : Db). x.comments) e;
  notifications = ap (λ (x : Db). x.notifications) e;
  audit_logs = ap (λ (x : Db). x.audit_logs) e;
  security_events = ap (λ (x : Db). x.security_events) e;
}

pause_locked-db : (w : World) → (pause_locked w).1.db ≡ w.db
unfolding pause_locked
pause_locked-db w = elim (List-cases w.events) [
  | inl none_left ↦ rw (none_left, pause_locked) refl
  | inr (x, xs, more) ↦ rw (more, pause_locked) refl
]

rollback-SameRows : (d : Db) (w : World) → SameRows d (rollback d w).1.db
unfolding rollback
rollback-SameRows d w =
    SameRows-restore d w.db _ (pause_locked-db (record w { db = restore d w.db }))

pause_locked-Ends :
    (w : World) {u : Unit {0}} {w' : World} → Ends pause_locked w u w' → w'.db ≡ w.db
pause_locked-Ends w h = sym (ap (λ (x : Result (Unit {0}) × World). x.1.db) h) ∙ pause_locked-db w

-- How a transaction that began with the rows of `d` ended.
abbrev pub Settled : {A : Type 0} → M (Ending A) → World → Result A → World → Type 0
Settled {A} body w (err e) w' = SameRows w.db w'.db
Settled {A} body w (ok a) w' =
    (w1 : World) × (w2 : World) × (w1.db ≡ w.db)
    × ((Ends body w1 (abort a) w2 × SameRows w.db w'.db)
        ⊎ (Ends body w1 (commit a) w2 × (w'.db ≡ w2.db)))

module _ {A : Type 0} where
  pub pure_world : (x : A) {a : A} {w w' : World} → Ends (pure x) w a w' → w ≡ w'
  unfolding pure
  pure_world x h = ap (λ (y : Result A × World). y.1) h

  pub pure_value : {x a : A} (w : World) {w' : World} → Ends (pure x) w a w' → x ≡ a
  unfolding pure
  pure_value w h = cc

module _ {A : Type 0} (d : Db) where
  finish-Settled :
      (body : M (Ending A)) (w w1 w2 : World) (x : Ending A) {a : A} {w' : World}
      → d ≡ w.db
      → w1.db ≡ w.db
      → Ends body w1 x w2
      → Ends (finish d x) w2 a w'
      → Settled body w (ok a) w'
  unfolding finish
  finish-Settled body w w1 w2 (commit x) {a} {w'} e0 e h f =
      let (u, w3, p, q) = >>=-Ends pause_locked (λ _. pure x) w2 f in
      let still : w3 ≡ w' = pure_world x q in
      let same : x ≡ a = pure_value w3 q in
      (
        w1,
        w2,
        e,
        inr (
          subst (λ y. Ends body w1 (commit y) w2) same h,
          ap (λ (y : World). y.db) (sym still) ∙ pause_locked-Ends w2 p,
        ),
      )
  finish-Settled body w w1 w2 (abort x) {a} {w'} e0 e h f =
      let (u, w3, p, q) = >>=-Ends (rollback d) (λ _. pure x) w2 f in
      let out : SameRows d (rollback d w2).1.db = rollback-SameRows d w2 in
      let at : (rollback d w2).1 ≡ w3 = ap (λ (y : Result (Unit {0}) × World). y.1) p in
      let still : w3 ≡ w' = pure_world x q in
      let there : SameRows d w'.db = subst (λ (y : World). SameRows d y.db) (at ∙ still) out in
      (
        w1,
        w2,
        e,
        inl (
          subst (λ y. Ends body w1 (abort y) w2) (pure_value w3 q) h,
          subst (λ (y : Db). SameRows y w'.db) e0 there,
        ),
      )

  undo-err :
      (e : Error) (w : World)
      → (x : Error) × ((rollback d >> raise {A = A} e) w ≡ (err x, (rollback d w).1))
  unfolding ◌>>=◌ raise
  undo-err e w = step (rollback d w).0
    where
      step :
          (r : Result (Unit {0}))
          → let out : Result A × World = elim r [
            | ok _ ↦ (err e, (rollback d w).1)
            | err x ↦ (err x, (rollback d w).1)
          ] in
            (x : Error) × (out ≡ (err x, (rollback d w).1))
      step (ok _) = (e, refl)
      step (err x) = (x, refl)

-- From the rows that a transaction begins with, it either leaves every table as it was, or it ends
-- well with all that its body wrote.
pub try_block-Settled :
    {A : Type 0} (body : M (Ending A)) (w : World)
    → Settled body w (try_block body w).0 (try_block body w).1
unfolding try_block attempt
try_block-Settled {A} body w = attempted (inner w).0 (inner w).1 refl
  where
    inner : M A
    inner = pause_locked >> (body >>= finish w.db)

    attempted :
        (r : Result A) (w' : World)
        → inner w ≡ (r, w')
        → (let out : Result A × World = elim r [
          | ok a ↦ (ok a, w')
          | err e ↦ (rollback w.db >> raise {A = A} e) w'
        ] in
            Settled body w out.0 out.1)
    attempted (ok a) w' h =
        let (u, w1, p, q) = >>=-Ends pause_locked (λ _. body >>= finish w.db) w h in
        let (x, w2, p2, q2) = >>=-Ends body (finish w.db) w1 q in
        finish-Settled w.db body w w1 w2 x refl (pause_locked-Ends w p) p2 q2
    attempted (err e) w' h =
        let (x, out) = undo-err {A = A} w.db e w' in
        subst (λ (y : Result A × World). Settled body w y.0 y.1) (sym out)
          (rollback-SameRows w.db w')

-- A statement of a transaction runs on the rows as the one before left them.
pub execute-Ends :
    {A : Type 0} (s : Statement A) (w : World) {a : A} {w' : World}
    → Ends (execute s) w a w'
    → (now : ℕ) × (s now w.db ≡ some (a, w'.db))
unfolding execute
execute-Ends s w {a} {w'} h =
    let (u, w1, p, q) = >>=-Ends pause_locked (λ _. run s) w h in
    (
      w1.now,
      subst (λ (d : Db). s w1.now d ≡ some (a, w'.db)) (pause_locked-Ends w p) (run-Ends s w1 q).0,
    )

-- The same of a whole transaction, from the rows that are there when it gets its connection.
pub transaction-Settled :
    {A : Type 0} (body : M (Ending A)) (w : World)
    → Settled body (pause w).1 (transaction body w).0 (transaction body w).1
unfolding transaction ◌>>=◌
transaction-Settled {A} body w = connected (pause w).0
  where
    connected :
        (r : Result (Unit {0}))
        → (let out : Result A × World = elim r [
          | ok _ ↦ try_block body (pause w).1
          | err e ↦ (err e, (pause w).1)
        ] in
            Settled body (pause w).1 out.0 out.1)
    connected (ok _) = try_block-Settled body (pause w).1
    connected (err e) = SameRows-of_eq refl
