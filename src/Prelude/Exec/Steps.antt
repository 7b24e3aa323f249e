-- ===== src/Prelude/Exec/Steps.antt =====
-- What holds at the end of an action, step by step: the exception's side is given by each step.
use portscanner.Prelude.{◌≡◌, refl}
use portscanner.Prelude.Result.{Result, ok, err}
use portscanner.Prelude.Exec.{Exec, pure, raise, lift, ◌>>=◌, Ends, Ends-state, Preserves, then_do}

module _ {S E A : Type 0} (P : A → S → Type 0) (Q : E → S → Type 0) where
  pub Ends-pure : (a : A) (s : S) → P a s → Ends P Q (pure a s)
  unfolding pure
  Ends-pure a s h = h

  pub Ends-raise : (e : E) (s : S) → Q e s → Ends P Q (raise e s)
  unfolding raise
  Ends-raise e s h = h

  -- Both sides, of a value that is looked up.
  pub Ends-looked_up :
      (r : Result E A) (s : S)
      → ((a : A) → r ≡ ok a → P a s)
      → ((e : E) → r ≡ err e → Q e s)
      → Ends P Q (lift r s)
  unfolding lift
  Ends-looked_up (ok a) s h k = h a refl
  Ends-looked_up (err e) s h k = k e refl

module _ {S E A B : Type 0} (R : B → S → Type 0) (Q : E → S → Type 0) where
  pub Ends-lift_bind :
      (r : Result E A) (f : A → Exec S E B) (s : S)
      → ((e : E) → Q e s)
      → ((a : A) → r ≡ ok a → Ends R Q (f a s))
      → Ends R Q ((lift r >>= f) s)
  unfolding ◌>>=◌ lift
  Ends-lift_bind (ok a) f s h k = k a refl
  Ends-lift_bind (err e) f s h k = h e

module _ {S E A : Type 0} (P : S → Type 0) where
  pub Preserves-of_Ends :
      (m : Exec S E A) → ((s : S) → P s → Ends (λ a s'. P s') (λ e s'. P s') (m s)) → Preserves P m
  Preserves-of_Ends m h = record { at = λ s p. Ends-state P P (m s) (h s p) }

module _ {S E A B : Type 0} where
  -- A chain that ends with a value went through a value of its first step.
  pub bind-ok :
      (m : Exec S E A) (f : A → Exec S E B) (s : S) {b : B}
      → ((m >>= f) s).0 ≡ ok b
      → (a : A) × ((m s).0 ≡ ok a) × ((f a (m s).1).0 ≡ ok b)
  unfolding ◌>>=◌
  bind-ok m f s h = by_first (m s) h
    where
      by_first :
          (x : Result E A × S) {b : B}
          → (then_do f x).0 ≡ ok b
          → (a : A) × (x.0 ≡ ok a) × ((f a x.1).0 ≡ ok b)
      by_first (ok a, t) k = (a, refl, k)
      by_first (err e, t) k = absurd (cc)

  pub lift-ok :
      (r : Result E A) (f : A → Exec S E B) (s : S) {b : B}
      → ((lift r >>= f) s).0 ≡ ok b
      → (a : A) × (r ≡ ok a) × ((f a s).0 ≡ ok b)
  unfolding ◌>>=◌ lift
  lift-ok (ok a) f s h = (a, refl, h)
  lift-ok (err e) f s h = absurd (cc)
