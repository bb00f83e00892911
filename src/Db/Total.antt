-- ===== src/Db/Total.antt =====
-- Operations that end well in every world: the form of the best-effort parts of the server.
use expense_management_syste.Base.{Bool, true, false, ◌≡◌, refl, if◌then◌else◌}
use expense_management_syste.Errors.{Error, Result, ok, err}
use expense_management_syste.Db.Monad.{World, M, pure, ◌>>=◌, attempt, current_time}

pub record Total {A : Type 0} (m : M A) : Type 0 where
  pub ends : (w : World) → (a : A) × ((m w).0 ≡ ok a)

pub Total-pure : {A : Type 0} (a : A) → Total (pure a)
unfolding pure
Total-pure a = record { ends = λ w. (a, refl) }

pub Total-current_time : Total current_time
unfolding current_time
Total-current_time = record { ends = λ w. (w.now, refl) }

module _ {A B : Type 0} where
  bind-Total :
      (f : A → M B)
      → ((a : A) → Total (f a))
      → (r : Result A) (w : World) → (a : A) × (r ≡ ok a)
      → let out : Result B × World = elim r [ ok a ↦ f a w | err e ↦ (err e, w) ] in
        (b : B) × (out.0 ≡ ok b)
  bind-Total f h (ok a) w _ = (h a).ends w
  bind-Total f h (err e) w (a, clash) = cc

  pub Total->>= : {m : M A} {f : A → M B} → Total m → ((a : A) → Total (f a)) → Total (m >>= f)
  unfolding ◌>>=◌
  Total->>= {m} {f} t h = record { ends = λ w. bind-Total f h (m w).0 (m w).1 (t.ends w) }

module _ {A : Type 0} where
  handled :
      (h : Error → M A)
      → ((e : Error) → Total (h e))
      → (r : Result A) (w : World)
      → let out : Result A × World = elim r [ ok a ↦ (ok a, w) | err e ↦ h e w ] in
        (a : A) × (out.0 ≡ ok a)
  handled h t (ok a) w = (a, refl)
  handled h t (err e) w = (t e).ends w

  -- What is caught by a handler that ends well ends well.
  pub Total-attempt :
      (m : M A) {h : Error → M A} → ((e : Error) → Total (h e)) → Total (attempt m h)
  unfolding attempt
  Total-attempt m {h} t = record { ends = λ w. handled h t (m w).0 (m w).1 }

  pub Total-if : (b : Bool) {x y : M A} → Total x → Total y → Total (if b then x else y)
  Total-if true s t = s
  Total-if false s t = t
