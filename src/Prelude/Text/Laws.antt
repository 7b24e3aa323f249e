-- ===== src/Prelude/Text/Laws.antt =====
-- Laws of splitting, stripping and decimal printing.
use Prim.Native.Nat.{ℕ, zero, suc, ◌+◌, ◌-◌, ◌*◌, ◌/◌, ◌%◌, ◌^◌, ◌≤◌, ◌<◌}
use mathlib.Core.Path.{◌≡◌, refl, ◌∙◌}
use mathlib.Core.Bool.{Bool, true, not}
use mathlib.Core.List.{[], ◌∷◌, ◌++◌, reverse, reverse-append, reverse-reverse}
use mathlib.Core.Logic.{inl, inr}
use native.Mathlib.Omega.{arith}
use native.Mathlib.Nat.{pow-suc}
use portscanner.Prelude.Tests.{ltb, ◌==◌, &&-true, Bool-cases}
use portscanner.Prelude.Lists.{length, all, all-append, length-append}
use portscanner.Prelude.Text.{
  Text, is_space, lstrip, strip, split_on, decimal_fuel, decimal, number_from, number, is_digit,
}

-- No code point of the text is `sep`.
abbrev pub without : ℕ → Text → Bool
without sep s = all (λ c. not (c == sep)) s

pub split_on-without : (sep : ℕ) (s : Text) → without sep s ≡ true → split_on sep s ≡ s ∷ []
unfolding split_on
split_on-without sep [] h = refl
split_on-without sep (c ∷ cs) h =
    let p = &&-true (not (c == sep)) (without sep cs) h in
    rw (split_on-without sep cs p.1) (ground arith)

pub split_on-append :
    (sep : ℕ) (s t : Text) → without sep s ≡ true → split_on sep (s ++ sep ∷ t) ≡ s ∷ split_on sep t
unfolding split_on
split_on-append sep [] t h = ground arith
split_on-append sep (c ∷ cs) t h =
    let p = &&-true (not (c == sep)) (without sep cs) h in
    rw (split_on-append sep cs t p.1) (ground arith)

abbrev pub solid : Text → Bool
solid s = all (λ c. not (is_space c)) s

lstrip-solid : (s : Text) → solid s ≡ true → lstrip s ≡ s
unfolding lstrip
lstrip-solid [] h = refl
lstrip-solid (c ∷ cs) h = ground arith

solid-reverse : (s : Text) → solid s ≡ true → solid (reverse s) ≡ true
solid-reverse [] h = refl
solid-reverse (c ∷ cs) h =
    let p = &&-true (not (is_space c)) (solid cs) h in
    rw (reverse-append (c ∷ []) cs, all-append) (ground (arith, solid-reverse cs p.1))

pub strip-solid : (s : Text) → solid s ≡ true → strip s ≡ s
unfolding strip
strip-solid s h =
    rw (lstrip-solid s h, lstrip-solid (reverse s) (solid-reverse s h)) (reverse-reverse s)

pub number_from-append :
    (acc : ℕ) (s t : Text) → number_from acc (s ++ t) ≡ number_from (number_from acc s) t
unfolding number_from
number_from-append acc [] t = refl
number_from-append acc (c ∷ cs) t = number_from-append (acc * 10 + (c - 48)) cs t

-- The decimal print of a number is digits, at least one, and reads back as the number.
abbrev Prints : ℕ → Text → Type 0
Prints n s = (all is_digit s ≡ true) × (number s ≡ n) × (1 ≤ length s)

decimal_fuel-Prints : (f n : ℕ) → n < f → Prints n (decimal_fuel f n)
unfolding decimal_fuel number_from
decimal_fuel-Prints zero n h = absurd (omega arith)
decimal_fuel-Prints (suc f) n h = elim (Bool-cases (ltb n 10)) [
  | inl small ↦ rw small (ground arith, omega arith, omega arith)
  | inr large ↦
      let s = decimal_fuel f (n / 10) in
      let ih = decimal_fuel-Prints f (n / 10) (ground arith) in
      rw large (
        ground (arith, all-append is_digit s ((48 + n % 10) ∷ []), ih.0),
        number_from-append 0 s ((48 + n % 10) ∷ []) ∙ omega (arith, ih.1),
        omega (arith, length-append s ((48 + n % 10) ∷ [])),
      )
]

decimal_fuel_short : (f k n : ℕ) → n < 10 ^ suc k → length (decimal_fuel f n) ≤ suc k
unfolding decimal_fuel
decimal_fuel_short zero k n h = omega arith
decimal_fuel_short (suc f) zero n h = ground arith
decimal_fuel_short (suc f) (suc k) n h = elim (Bool-cases (ltb n 10)) [
  | inl small ↦ rw small (omega arith)
  | inr large ↦
      let front = decimal_fuel f (n / 10) in
      let ih = decimal_fuel_short f k (n / 10) (omega (arith, pow-suc 10 (suc k))) in
      rw large (omega (arith, ih, length-append front ((48 + n % 10) ∷ [])))
]

pub decimal-Prints : (n : ℕ) → Prints n (decimal n)
unfolding decimal
decimal-Prints n = decimal_fuel-Prints (suc n) n (omega arith)

pub decimal_short : (k n : ℕ) → n < 10 ^ suc k → length (decimal n) ≤ suc k
unfolding decimal
decimal_short k n h = decimal_fuel_short (suc n) k n h
