-- ===== src/Prelude/Calls.antt =====
-- Services with a record of the calls made to them, so that a property can be about their order.
use mathlib.Core.Path.{◌≡◌, refl}
use mathlib.Core.List.{List, ◌∷◌}
use portscanner.Prelude.Exec.{Exec, Ends, Preserves}
use portscanner.Prelude.Result.{Result, ok, err}

-- The world, and the calls made so far, the last one first.
pub record Logged (W C : Type 0) : Type 0 where
  pub world : W
  pub calls : List C

module _ {W C E A : Type 0} where
  abbrev resumed : (A → List C → List C) → List C → Result E A × W → Result E A × Logged W C
  resumed entry calls (ok a, w) = (ok a, record { world = w; calls = entry a calls })
  resumed entry calls (err e, w) = (err e, record { world = w; calls = calls })

  -- A call without an entry.
  unfoldable pub silently : Exec W E A → Exec (Logged W C) E A
  silently m s = resumed (λ a calls. calls) s.calls (m s.world)

  -- A call with one entry when it is made, and one when it has returned.
  unfoldable pub entering : C → (A → C) → Exec W E A → Exec (Logged W C) E A
  entering made returned m s = resumed (λ a calls. returned a ∷ calls) (made ∷ s.calls) (m s.world)

  -- A call with an entry when it is made.
  unfoldable pub making : C → Exec W E A → Exec (Logged W C) E A
  making made m s = resumed (λ a calls. calls) (made ∷ s.calls) (m s.world)

  -- A call with an entry when it has returned.
  unfoldable pub returning : (A → C) → Exec W E A → Exec (Logged W C) E A
  returning returned m s = resumed (λ a calls. returned a ∷ calls) s.calls (m s.world)

  -- A call with an entry of how it ended.
  unfoldable pub reporting : (Result E A → C) → Exec W E A → Exec (Logged W C) E A
  reporting entry m s =
      ((m s.world).0, record { world = (m s.world).1; calls = entry (m s.world).0 ∷ s.calls })

  pub reporting-Ends :
      (entry : Result E A → C) (m : Exec W E A) (s : Logged W C)
      → Ends
          (λ a s'. s'.calls ≡ entry (ok a) ∷ s.calls)
          (λ e s'. s'.calls ≡ entry (err e) ∷ s.calls)
          (reporting entry m s)
  unfolding reporting
  reporting-Ends entry m s = by_end (m s.world)
    where
      by_end :
          (x : Result E A × W)
          → Ends {S = Logged W C}
              (λ a s'. s'.calls ≡ entry (ok a) ∷ s.calls)
              (λ e s'. s'.calls ≡ entry (err e) ∷ s.calls)
              (x.0, record { world = x.1; calls = entry x.0 ∷ s.calls })
      by_end (ok a, w) = refl
      by_end (err e, w) = refl

  resumed-Ends :
      (P : A → List C → Type 0) (Q : E → List C → Type 0) (entry : A → List C → List C)
      (calls : List C) (x : Result E A × W)
      → ((a : A) → P a (entry a calls))
      → ((e : E) → Q e calls)
      → Ends (λ a s. P a s.calls) (λ e s. Q e s.calls) (resumed entry calls x)
  resumed-Ends P Q entry calls (ok a, w) h k = h a
  resumed-Ends P Q entry calls (err e, w) h k = k e

  pub silently-Ends :
      (P : A → List C → Type 0) (Q : E → List C → Type 0) (m : Exec W E A) (s : Logged W C)
      → ((a : A) → P a s.calls)
      → ((e : E) → Q e s.calls)
      → Ends (λ a s'. P a s'.calls) (λ e s'. Q e s'.calls) (silently m s)
  unfolding silently
  silently-Ends P Q m s h k = resumed-Ends P Q (λ a calls. calls) s.calls (m s.world) h k

  pub entering-Ends :
      (P : A → List C → Type 0) (Q : E → List C → Type 0) (made : C) (returned : A → C)
      (m : Exec W E A) (s : Logged W C)
      → ((a : A) → P a (returned a ∷ made ∷ s.calls))
      → ((e : E) → Q e (made ∷ s.calls))
      → Ends (λ a s'. P a s'.calls) (λ e s'. Q e s'.calls) (entering made returned m s)
  unfolding entering
  entering-Ends P Q made returned m s h k =
      resumed-Ends P Q (λ a calls. returned a ∷ calls) (made ∷ s.calls) (m s.world) h k

  pub making-Ends :
      (P : A → List C → Type 0) (Q : E → List C → Type 0) (made : C) (m : Exec W E A)
      (s : Logged W C)
      → ((a : A) → P a (made ∷ s.calls))
      → ((e : E) → Q e (made ∷ s.calls))
      → Ends (λ a s'. P a s'.calls) (λ e s'. Q e s'.calls) (making made m s)
  unfolding making
  making-Ends P Q made m s h k =
      resumed-Ends P Q (λ a calls. calls) (made ∷ s.calls) (m s.world) h k

  pub returning-Ends :
      (P : A → List C → Type 0) (Q : E → List C → Type 0) (returned : A → C) (m : Exec W E A)
      (s : Logged W C)
      → ((a : A) → P a (returned a ∷ s.calls))
      → ((e : E) → Q e s.calls)
      → Ends (λ a s'. P a s'.calls) (λ e s'. Q e s'.calls) (returning returned m s)
  unfolding returning
  returning-Ends P Q returned m s h k =
      resumed-Ends P Q (λ a calls. returned a ∷ calls) s.calls (m s.world) h k

-- What the calls keep of the world, they keep with the record of calls.
module _ {W C E A : Type 0} (P : W → Type 0) where
  resumed-world :
      (entry : A → List C → List C) (calls : List C) (x : Result E A × W)
      → P x.1
      → P (resumed entry calls x).1.world
  resumed-world entry calls (ok a, w) h = h
  resumed-world entry calls (err e, w) h = h

  pub silently-Preserves :
      (m : Exec W E A) → Preserves P m → Preserves (λ (s : Logged W C). P s.world) (silently m)
  unfolding silently
  silently-Preserves m h = record {
    at = λ s p. resumed-world (λ a calls. calls) s.calls (m s.world) (h.at s.world p);
  }

  pub making-Preserves :
      (made : C) (m : Exec W E A) → Preserves P m → Preserves (λ s. P s.world) (making made m)
  unfolding making
  making-Preserves made m h = record {
    at = λ s p. resumed-world (λ a calls. calls) (made ∷ s.calls) (m s.world) (h.at s.world p);
  }

  pub returning-Preserves :
      (returned : A → C) (m : Exec W E A)
      → Preserves P m
      → Preserves (λ s. P s.world) (returning returned m)
  unfolding returning
  returning-Preserves returned m h = record {
    at = λ s p. resumed-world (λ a calls. returned a ∷ calls) s.calls (m s.world) (h.at s.world p);
  }
