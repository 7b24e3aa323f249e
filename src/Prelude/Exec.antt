-- ===== src/Prelude/Exec.antt =====
-- Code with effects that may raise: an action takes the state and gives a value or the exception,
-- beside the state that it leaves. What was done before a raise stays done.
pub mod Steps
use portscanner.Prelude.{◌≡◌, refl, Bool, true, false, if◌then◌else◌}
use portscanner.Prelude.Result.{Result, ok, err, ok_inj}

abbrev pub Exec : Type 0 → Type 0 → Type 0 → Type 0
Exec S E A = S → Result E A × S

module _ {S E A : Type 0} where
  unfoldable pub pure : A → Exec S E A
  pure a s = (ok a, s)

  unfoldable pub raise : E → Exec S E A
  raise e s = (err e, s)

  unfoldable pub lift : Result E A → Exec S E A
  lift r s = (r, s)

  -- `if` between two actions, shut, so that the rules below find it.
  infix 1 when◌run◌otherwise◌
  unfoldable pub when◌run◌otherwise◌ : Bool → Exec S E A → Exec S E A → Exec S E A
  when b run m otherwise n = if b then m else n

  abbrev pub recover : (E → Exec S E A) → Result E A × S → Result E A × S
  recover handler (ok a, s) = (ok a, s)
  recover handler (err e, s) = handler e s

  -- `try: m  except Exception as e: handler`.
  unfoldable pub attempt : Exec S E A → (E → Exec S E A) → Exec S E A
  unfolding pure raise lift when◌run◌otherwise◌
  attempt m handler s = recover handler (m s)

module _ {S E A B : Type 0} where
  abbrev pub then_do : (A → Exec S E B) → Result E A × S → Result E B × S
  then_do f (ok a, s) = f a s
  then_do f (err e, s) = (err e, s)

  infixl 5 ◌>>=◌ ◌>>◌
  unfoldable pub ◌>>=◌ : Exec S E A → (A → Exec S E B) → Exec S E B
  unfolding pure raise lift when◌run◌otherwise◌
  ◌>>=◌ m f s = then_do f (m s)

  abbrev pub ◌>>◌ : Exec S E A → Exec S E B → Exec S E B
  m >> k = m >>= λ _. k

-- The property of states holds after the action, however it ends, if it held before.
pub record Preserves {S E A : Type 0} (P : S → Type 0) (m : Exec S E A) : Type 0 where
  pub at : (s : S) → P s → P (m s).1

module _ {S E A : Type 0} {P : S → Type 0} where
  pub Preserves-pure : (a : A) → Preserves {E = E} P (pure a)
  unfolding pure
  Preserves-pure a = record { at = λ s h. h }

  pub Preserves-raise : (e : E) → Preserves {A = A} P (raise e)
  unfolding raise
  Preserves-raise e = record { at = λ s h. h }

  pub Preserves-lift : (r : Result E A) → Preserves P (lift r)
  unfolding lift
  Preserves-lift r = record { at = λ s h. h }

  pub Preserves-when :
      (b : Bool) (m n : Exec S E A)
      → Preserves P m
      → Preserves P n
      → Preserves P (when b run m otherwise n)
  unfolding when◌run◌otherwise◌
  Preserves-when true m n h k = h
  Preserves-when false m n h k = k

  recover-Preserves :
      (handler : E → Exec S E A) (x : Result E A × S)
      → ((e : E) → Preserves P (handler e))
      → P x.1
      → P (recover handler x).1
  recover-Preserves handler (ok a, s) h k = k
  recover-Preserves handler (err e, s) h k = (h e).at s k

  pub Preserves-attempt :
      (m : Exec S E A) (handler : E → Exec S E A)
      → Preserves P m
      → ((e : E) → Preserves P (handler e))
      → Preserves P (attempt m handler)
  unfolding attempt
  Preserves-attempt m handler h k = record {
    at = λ s p. recover-Preserves handler (m s) k (h.at s p);
  }

module _ {S E A B : Type 0} {P : S → Type 0} where
  then_do-Preserves :
      (f : A → Exec S E B) (x : Result E A × S)
      → ((a : A) → Preserves P (f a))
      → P x.1
      → P (then_do f x).1
  then_do-Preserves f (ok a, s) h k = (h a).at s k
  then_do-Preserves f (err e, s) h k = k

  pub Preserves-bind :
      (m : Exec S E A) (f : A → Exec S E B)
      → Preserves P m
      → ((a : A) → Preserves P (f a))
      → Preserves P (m >>= f)
  unfolding ◌>>=◌
  Preserves-bind m f h k = record { at = λ s p. then_do-Preserves f (m s) k (h.at s p) }

module _ {S E A B : Type 0} {P : S → Type 0} where
  -- A value that is looked up first, with the equation that says what it is.
  pub Preserves-lift_bind :
      (r : Result E A) (f : A → Exec S E B)
      → ((a : A) → r ≡ ok a → Preserves P (f a))
      → Preserves P (lift r >>= f)
  unfolding ◌>>=◌ lift
  Preserves-lift_bind (ok a) f h = record { at = (h a refl).at }
  Preserves-lift_bind (err e) f h = record { at = λ s p. p }

pub ruleset preserves_rules = (
  Preserves-pure, Preserves-raise, Preserves-lift, Preserves-when, Preserves-attempt,
  Preserves-bind,
)

-- What holds of a value that is returned and of an exception that is raised, with the state left.
abbrev pub Ends : {S E A : Type 0} → (A → S → Type 0) → (E → S → Type 0) → Result E A × S → Type 0
Ends P Q (ok a, s) = P a s
Ends P Q (err e, s) = Q e s

module _ {S E A : Type 0} where
  recover-Ends :
      (P : A → S → Type 0) (Q R : E → S → Type 0) (handler : E → Exec S E A) (x : Result E A × S)
      → Ends P Q x
      → ((e : E) (s : S) → Q e s → Ends P R (handler e s))
      → Ends P R (recover handler x)
  recover-Ends P Q R handler (ok a, s) h k = h
  recover-Ends P Q R handler (err e, s) h k = k e s h

  pub Ends-attempt :
      (P : A → S → Type 0) (Q R : E → S → Type 0) (m : Exec S E A) (handler : E → Exec S E A)
      (s : S)
      → Ends P Q (m s)
      → ((e : E) (s' : S) → Q e s' → Ends P R (handler e s'))
      → Ends P R (attempt m handler s)
  unfolding attempt
  Ends-attempt P Q R m handler s h k = recover-Ends P Q R handler (m s) h k

  pub Ends-of :
      (P : A → S → Type 0) (Q : E → S → Type 0) (x : Result E A × S)
      → ((a : A) → x.0 ≡ ok a → P a x.1)
      → ((e : E) → x.0 ≡ err e → Q e x.1)
      → Ends P Q x
  Ends-of P Q (ok a, s) h k = h a refl
  Ends-of P Q (err e, s) h k = k e refl

  pub Ends-ok :
      (P : A → S → Type 0) (Q : E → S → Type 0) (x : Result E A × S) {a : A}
      → Ends P Q x
      → x.0 ≡ ok a
      → P a x.1
  Ends-ok P Q (ok b, s) {a} h e = rw (← ok_inj e) h
  Ends-ok P Q (err b, s) h e = absurd (cc)

module _ {S E A B : Type 0} where
  then_do-Ends :
      (P : A → S → Type 0) (R : B → S → Type 0) (Q : E → S → Type 0) (f : A → Exec S E B)
      (x : Result E A × S)
      → Ends P Q x
      → ((a : A) (s : S) → P a s → Ends R Q (f a s))
      → Ends R Q (then_do f x)
  then_do-Ends P R Q f (ok a, s) h k = k a s h
  then_do-Ends P R Q f (err e, s) h k = h

  pub Ends-bind :
      (P : A → S → Type 0) (R : B → S → Type 0) (Q : E → S → Type 0) (m : Exec S E A)
      (f : A → Exec S E B) (s : S)
      → Ends P Q (m s)
      → ((a : A) (s' : S) → P a s' → Ends R Q (f a s'))
      → Ends R Q ((m >>= f) s)
  unfolding ◌>>=◌
  Ends-bind P R Q m f s h k = then_do-Ends P R Q f (m s) h k

module _ {S E A : Type 0} where
  -- An action of which nothing has to be known.
  pub Ends-any : (x : Result E A × S) → Ends (λ a s. Unit) (λ e s. Unit) x
  Ends-any (ok a, s) = tt
  Ends-any (err e, s) = tt

  pub Ends-lift :
      (P : A → S → Type 0) (r : Result E A) (s : S)
      → ((a : A) → r ≡ ok a → P a s)
      → Ends P (λ e s'. Unit) (lift r s)
  unfolding lift
  Ends-lift P (ok a) s h = h a refl
  Ends-lift P (err e) s h = tt

  pub Ends-when :
      (P : A → S → Type 0) (Q : E → S → Type 0) (b : Bool) (m n : Exec S E A) (s : S)
      → (b ≡ true → Ends P Q (m s))
      → (b ≡ false → Ends P Q (n s))
      → Ends P Q ((when b run m otherwise n) s)
  unfolding when◌run◌otherwise◌
  Ends-when P Q true m n s h k = h refl
  Ends-when P Q false m n s h k = k refl

  pub Ends-weaken :
      (P R : A → S → Type 0) (Q : E → S → Type 0) (x : Result E A × S)
      → ((a : A) (s : S) → P a s → R a s)
      → Ends P Q x
      → Ends R Q x
  Ends-weaken P R Q (ok a, s) h k = h a s k
  Ends-weaken P R Q (err e, s) h k = k

-- From states with `P` the action ends, with a value or an exception, in states with `Q`.
pub record Leads {S E A : Type 0} (P Q : S → Type 0) (m : Exec S E A) : Type 0 where
  pub at : (s : S) → P s → Q (m s).1

module _ {S E A : Type 0} (P Q : S → Type 0) where
  pub Leads-of : (m : Exec S E A) → ((s : S) → P s → Q s) → Preserves P m → Leads P Q m
  Leads-of m h k = record { at = λ s p. h (m s).1 (k.at s p) }

  pub Leads-when :
      (b : Bool) (m n : Exec S E A)
      → (b ≡ true → Leads P Q m)
      → (b ≡ false → Leads P Q n)
      → Leads P Q (when b run m otherwise n)
  unfolding when◌run◌otherwise◌
  Leads-when true m n h k = h refl
  Leads-when false m n h k = k refl

  recover-Leads :
      (handler : E → Exec S E A) (x : Result E A × S)
      → ((e : E) → Preserves Q (handler e))
      → Q x.1
      → Q (recover handler x).1
  recover-Leads handler (ok a, s) h k = k
  recover-Leads handler (err e, s) h k = (h e).at s k

  pub Leads-attempt :
      (m : Exec S E A) (handler : E → Exec S E A)
      → Leads P Q m
      → ((e : E) → Preserves Q (handler e))
      → Leads P Q (attempt m handler)
  unfolding attempt
  Leads-attempt m handler h k = record { at = λ s p. recover-Leads handler (m s) k (h.at s p) }

  pub Ends-of-Preserves :
      (m : Exec S E A) (s : S)
      → ((s : S) → P s → Q s)
      → Preserves P m
      → P s
      → Ends (λ a s'. P s') (λ e s'. Q s') (m s)
  Ends-of-Preserves m s weaker h p =
      Ends-of (λ a s'. P s') (λ e s'. Q s') (m s) (λ a e. h.at s p)
        (λ x e. weaker (m s).1 (h.at s p))

  pub Ends-state : (x : Result E A × S) → Ends (λ a s. Q s) (λ e s. Q s) x → Q x.1
  Ends-state (ok a, s) h = h
  Ends-state (err e, s) h = h

module _ {S E A B : Type 0} (P Q : S → Type 0) where
  then_do-Leads :
      (f : A → Exec S E B) (x : Result E A × S)
      → ((s : S) → P s → Q s)
      → ((a : A) → Leads P Q (f a))
      → P x.1
      → Q (then_do f x).1
  then_do-Leads f (ok a, s) weaker h p = (h a).at s p
  then_do-Leads f (err e, s) weaker h p = weaker s p

  -- The first action keeps `P`, the rest leads on.
  pub Leads-bind :
      (m : Exec S E A) (f : A → Exec S E B)
      → ((s : S) → P s → Q s)
      → Preserves P m
      → ((a : A) → Leads P Q (f a))
      → Leads P Q (m >>= f)
  unfolding ◌>>=◌
  Leads-bind m f weaker h k = record { at = λ s p. then_do-Leads f (m s) weaker k (h.at s p) }

  then_do-kept :
      (f : A → Exec S E B) (x : Result E A × S)
      → ((a : A) → Preserves Q (f a))
      → Q x.1
      → Q (then_do f x).1
  then_do-kept f (ok a, s) h q = (h a).at s q
  then_do-kept f (err e, s) h q = q

  -- The first action leads to `Q`, the rest keeps it.
  pub Leads-then :
      (m : Exec S E A) (f : A → Exec S E B)
      → Leads P Q m
      → ((a : A) → Preserves Q (f a))
      → Leads P Q (m >>= f)
  unfolding ◌>>=◌
  Leads-then m f h k = record { at = λ s p. then_do-kept f (m s) k (h.at s p) }

module _ {S E A : Type 0} where
  pub Ends-turn :
      (P R : A → S → Type 0) (Q T : E → S → Type 0) (x : Result E A × S)
      → ((a : A) (s : S) → P a s → R a s)
      → ((e : E) (s : S) → Q e s → T e s)
      → Ends P Q x
      → Ends R T x
  Ends-turn P R Q T (ok a, s) h k l = h a s l
  Ends-turn P R Q T (err e, s) h k l = k e s l

  -- The same from a stronger start.
  pub Leads-from :
      (P R Q : S → Type 0) (m : Exec S E A) → ((s : S) → P s → R s) → Leads R Q m → Leads P Q m
  Leads-from P R Q m h k = record { at = λ s p. k.at s (h s p) }

  pub Leads-Preserves : (Q : S → Type 0) (m : Exec S E A) → Preserves Q m → Leads Q Q m
  Leads-Preserves Q m h = record { at = h.at }

module _ {S E A B : Type 0} (P Q : S → Type 0) (R : A → S → Type 0) where
  then_do-by :
      (f : A → Exec S E B) (x : Result E A × S)
      → ((a : A) → Leads (R a) Q (f a))
      → Ends R (λ e s. Q s) x
      → Q (then_do f x).1
  then_do-by f (ok a, s) h r = (h a).at s r
  then_do-by f (err e, s) h q = q

  -- The first action leads to states that depend on its value, from which the rest leads on.
  pub Leads-by :
      (m : Exec S E A) (f : A → Exec S E B)
      → ((s : S) → P s → Ends R (λ e s'. Q s') (m s))
      → ((a : A) → Leads (R a) Q (f a))
      → Leads P Q (m >>= f)
  unfolding ◌>>=◌
  Leads-by m f h k = record { at = λ s p. then_do-by f (m s) k (h s p) }
