-- ===== src/Inventory/Ownership/Early.antt =====
-- A check that is returned early (aws/ownership.py, `validate`), and an exception that becomes one.
use portscanner.Prelude.{ℕ, ◌≡◌, refl, false, List}
use portscanner.Prelude.Text.{Text}
use portscanner.Prelude.Exec.{Exec, lift, ◌>>=◌, Ends}
use portscanner.Prelude.Result.{Result, ok, err}
use portscanner.Prelude.Calls.{Logged}
use portscanner.Inventory.Error.{StateError}
use portscanner.Inventory.Snapshot.{OwnershipCheck}
use portscanner.Inventory.Ownership.{Normalizer, Call}
use portscanner.Inventory.Ownership.Validation.{
  Left, raised, returned, raising, returning_early, turned, or_raise, or_return,
}
use portscanner.Inventory.Ownership.Answers.{IsOpen}
use portscanner.Inventory.Ownership.Justified.{says_gone, says_active, IsJustified}

module _ (normalizer : Normalizer) (target_id : Text) (generation : ℕ) where
  abbrev Justified : OwnershipCheck → List Call → Type 0
  Justified c calls = IsJustified normalizer target_id generation c calls

  -- What is left early is justified.
  abbrev Early : {W : Type 0} → Left → Logged W Call → Type 0
  Early (raised e) s = Unit
  Early (returned c) s = Justified c s.calls

  pub or_return-Ends :
      {W A : Type 0} (P : A → Logged W Call → Type 0) (Q : StateError → Logged W Call → Type 0)
      (check : StateError → OwnershipCheck) (m : Exec (Logged W Call) StateError A)
      (s : Logged W Call)
      → Ends P Q (m s)
      → ((e : StateError) (s' : Logged W Call) → Q e s' → Justified (check e) s'.calls)
      → Ends P Early (or_return check m s)
  unfolding or_return
  or_return-Ends {W} {A} P Q check m s h k = by_end (m s) h
    where
      by_end :
          (x : Result StateError A × Logged W Call)
          → Ends P Q x
          → Ends P Early (turned check x.0, x.1)
      by_end (ok a, s) h = h
      by_end (err e, s) h = k e s h

  pub or_raise-Ends :
      {W A : Type 0} (P : A → Logged W Call → Type 0) (Q : StateError → Logged W Call → Type 0)
      (m : Exec (Logged W Call) StateError A) (s : Logged W Call)
      → Ends P Q (m s)
      → Ends P Early (or_raise m s)
  unfolding or_raise
  or_raise-Ends {W} {A} P Q m s h = by_end (m s) h
    where
      by_end :
          (x : Result StateError A × Logged W Call) → Ends P Q x → Ends P Early (raising x.0, x.1)
      by_end (ok a, s) h = h
      by_end (err e, s) h = tt

  pub checked_bind-Ends :
      {W A B : Type 0} (R : B → Logged W Call → Type 0) (r : Result OwnershipCheck A)
      (f : A → Exec (Logged W Call) Left B) (s : Logged W Call)
      → ((c : OwnershipCheck) → r ≡ err c → Justified c s.calls)
      → ((a : A) → r ≡ ok a → Ends R Early (f a s))
      → Ends R Early ((lift (returning_early r) >>= f) s)
  unfolding ◌>>=◌ lift
  checked_bind-Ends R (ok a) f s h k = k a refl
  checked_bind-Ends R (err c) f s h k = h c refl

  pub unjustified :
      (c : OwnershipCheck) (calls : List Call)
      → says_gone c.verdict ≡ false
      → says_active c.verdict ≡ false
      → Justified c calls
  unjustified c calls h k = (λ e. absurd (cc), λ e. absurd (cc))

  pub open-Justified : (c : OwnershipCheck) (calls : List Call) → IsOpen c → Justified c calls
  open-Justified c calls h = unjustified c calls h.0 h.1
