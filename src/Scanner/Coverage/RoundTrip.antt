-- ===== src/Scanner/Coverage/RoundTrip.antt =====
-- The rendered form of a canonical coverage parses back to it (coverage.py).
use portscanner.Prelude.{
  ℕ, suc, ◌+◌, ◌≤◌, ◌<◌, ◌≡◌, refl, ◌≢◌, ◌∙◌, ap, inl, inr, Bool, true, not, List, [], ◌∷◌, ◌++◌,
  none, some, map, arith, ltb, ◌==◌, length, length-append, all, all-append, All, Bool-cases,
  &&-true, le→leb,
}
use mathlib.Core.List.{append-nil}
use portscanner.Prelude.Text.{Text, is_space, is_digit, split_on, strip, decimal}
use portscanner.Prelude.Text.Laws.{
  without, solid, split_on-without, split_on-append, strip-solid, decimal-Prints, decimal_short,
}
use portscanner.Prelude.Result.{ok}
use portscanner.Scanner.Coverage.{
  PortRange, PortCoverage, Declarations, render, match_groups, match_term, range_of_match,
  range_of_term, parse_terms, normalized_after, insert, sort, push, merge, reverse_onto, normalize,
  raw_terms_of, raw_terms, parse, one, several, as_strings, join_with, nmap_spec,
  max_coverage_terms, digits_ok,
}
use portscanner.Scanner.Coverage.Merge.{
  Valid, is_normalized, make_range-ok, make_coverage-ok, length-reverse_onto,
}

-- A test on the characters of digits.
all-of-digits :
    (q : ℕ → Bool) (s : Text)
    → ((c : ℕ) → is_digit c ≡ true → q c ≡ true)
    → all is_digit s ≡ true
    → all q s ≡ true
all-of-digits q [] h k = refl
all-of-digits q (c ∷ cs) h k =
    let p = &&-true (is_digit c) (all is_digit cs) k in
    ground (arith, h c p.0, all-of-digits q cs h p.1)

digit-solid : (c : ℕ) → is_digit c ≡ true → not (is_space c) ≡ true
unfolding is_space
digit-solid c h = ground arith

decimal-without : (sep n : ℕ) → sep < 48 → without sep (decimal n) ≡ true
decimal-without sep n h =
    all-of-digits (λ c. not (c == sep)) (decimal n) (λ c k. ground arith) (decimal-Prints n).0

decimal-solid : (n : ℕ) → solid (decimal n) ≡ true
decimal-solid n = all-of-digits (λ c. not (is_space c)) (decimal n) digit-solid (decimal-Prints n).0

decimal-digits_ok : (n : ℕ) → n ≤ 65535 → digits_ok (decimal n) ≡ true
decimal-digits_ok n h =
    let p = decimal-Prints n in
    let short : length (decimal n) ≤ 5 = decimal_short 4 n (omega arith) in
    ground (arith, p.0, p.2, short)

-- Rendered ranges have no comma and no space, and match the grammar of terms.
render-without : (r : PortRange) → without b',' (render r) ≡ true
unfolding render
render-without r = elim (Bool-cases (r.start == r.end)) [
  | inl e ↦ rw e (decimal-without b',' r.start (omega arith))
  | inr e ↦ rw e (
      rw all-append (
        ground (
          arith,
          decimal-without b',' r.start (omega arith),
          decimal-without b',' r.end (omega arith),
        )))
]

render-solid : (r : PortRange) → solid (render r) ≡ true
unfolding render is_space
render-solid r = elim (Bool-cases (r.start == r.end)) [
  | inl e ↦ rw e (decimal-solid r.start)
  | inr e ↦ rw e (rw all-append (ground (arith, decimal-solid r.start, decimal-solid r.end)))
]

match_term-decimal : (n : ℕ) → n ≤ 65535 → match_term (decimal n) ≡ some (decimal n, none)
unfolding match_term match_groups
match_term-decimal n h =
    rw (split_on-without b'-' (decimal n) (decimal-without b'-' n (omega arith)))
      (rw (decimal-digits_ok n h) refl)

match_term-dash :
    (m n : ℕ)
    → m ≤ 65535
    → n ≤ 65535
    → match_term (decimal m ++ b'-' ∷ decimal n) ≡ some (decimal m, some (decimal n))
unfolding match_term match_groups
match_term-dash m n h k =
    rw (split_on-append b'-' (decimal m) (decimal n) (decimal-without b'-' m (omega arith))) (
      rw (split_on-without b'-' (decimal n) (decimal-without b'-' n (omega arith)))
        (rw (decimal-digits_ok m h, decimal-digits_ok n k) refl))

range_of_match-render : (r : PortRange) → Valid r → range_of_match (match_term (render r)) ≡ ok r
unfolding render range_of_match
range_of_match-render r v = elim (Bool-cases (r.start == r.end)) [
  | inl e ↦
      let same : r.start ≡ r.end = ground arith in
      rw e (
        rw (match_term-decimal r.start (omega arith)) (
          rw (decimal-Prints r.start).1
            (rw (make_range-ok r.start r.start (ground arith)) (ground arith))))
  | inr e ↦ rw e (
      rw (match_term-dash r.start r.end (omega arith) (omega arith)) (
        rw ((decimal-Prints r.start).1, (decimal-Prints r.end).1)
          (make_range-ok r.start r.end (ground arith))))
]

range_of_term-match : (t : Text) → 1 ≤ length t → range_of_term t ≡ range_of_match (match_term t)
unfolding range_of_term
range_of_term-match [] h = absurd (omega arith)
range_of_term-match (c ∷ cs) h = refl

length-render : (r : PortRange) → 1 ≤ length (render r)
unfolding render
length-render r = elim (Bool-cases (r.start == r.end)) [
  | inl e ↦ rw e (decimal-Prints r.start).2
  | inr e ↦ rw e (
      omega
        (arith, (decimal-Prints r.start).2, length-append (decimal r.start) (b'-' ∷ decimal r.end)))
]

-- A rendered range parses back to the range.
range_of_term-render : (r : PortRange) → Valid r → range_of_term (strip (render r)) ≡ ok r
range_of_term-render r v =
    rw (strip-solid (render r) (render-solid r))
      (range_of_term-match (render r) (length-render r) ∙ range_of_match-render r v)

parse_terms-render : (rs : List PortRange) → All Valid rs → parse_terms (map render rs) ≡ ok rs
unfolding parse_terms
parse_terms-render [] h = refl
parse_terms-render (r ∷ rs) h = rw (range_of_term-render r h.0, parse_terms-render rs h.1) refl

-- A canonical list is sorted, and the merge leaves it alone.
normalized_tail :
    (r : PortRange) (rs : List PortRange) → normalized_after r rs ≡ true → is_normalized rs ≡ true
unfolding is_normalized normalized_after
normalized_tail r [] h = refl
normalized_tail r (s ∷ ss) h = (&&-true (ltb (r.end + 1) s.start) (normalized_after s ss) h).1

sort-normalized : (rs : List PortRange) → All Valid rs → is_normalized rs ≡ true → sort rs ≡ rs
unfolding sort is_normalized
sort-normalized [] v n = refl
sort-normalized (r ∷ []) v n = unfold insert in refl
sort-normalized (r ∷ s ∷ ss) v n =
    rw (sort-normalized (s ∷ ss) v.1 (normalized_tail r (s ∷ ss) n))
      (unfold insert normalized_after in ground arith)

abbrev StartsApart : List PortRange → List PortRange → Type 0
StartsApart [] rs = Unit
StartsApart (a ∷ acc) [] = Unit
StartsApart (a ∷ acc) (r ∷ rs) = a.end + 1 < r.start

push-apart :
    (r : PortRange) (acc rs : List PortRange) → StartsApart acc (r ∷ rs) → push r acc ≡ ok (r ∷ acc)
unfolding push
push-apart r [] rs h = refl
push-apart r (a ∷ acc) rs h = ground arith

normalized-StartsApart :
    (r : PortRange) (acc rs : List PortRange)
    → normalized_after r rs ≡ true
    → StartsApart (r ∷ acc) rs
unfolding normalized_after
normalized-StartsApart r acc [] h = tt
normalized-StartsApart r acc (s ∷ ss) h = ground arith

merge-normalized :
    (rs acc : List PortRange)
    → is_normalized rs ≡ true
    → StartsApart acc rs
    → merge rs acc ≡ ok (reverse_onto rs acc)
unfolding merge is_normalized
merge-normalized [] acc n a = refl
merge-normalized (r ∷ rs) acc n a =
    rw (push-apart r acc rs a)
      (merge-normalized rs (r ∷ acc) (normalized_tail r rs n) (normalized-StartsApart r acc rs n))

reverse_onto-reverse_onto :
    (rs acc out : List PortRange)
    → reverse_onto (reverse_onto rs acc) out ≡ reverse_onto acc (rs ++ out)
reverse_onto-reverse_onto [] acc out = refl
reverse_onto-reverse_onto (r ∷ rs) acc out = reverse_onto-reverse_onto rs (r ∷ acc) out

normalize-normalized :
    (rs : List PortRange)
    → rs ≢ []
    → All Valid rs
    → is_normalized rs ≡ true
    → length rs ≤ max_coverage_terms
    → normalize rs ≡ ok (record { ranges = rs })
unfolding normalize
normalize-normalized rs h v n short =
    let back : reverse_onto (reverse_onto rs []) [] ≡ rs =
      reverse_onto-reverse_onto rs [] [] ∙ append-nil rs in
    let same : length (reverse_onto rs []) ≡ length rs = omega (arith, length-reverse_onto rs []) in
    rw (sort-normalized rs v n, merge-normalized rs [] n tt)
      (rw (same, le→leb _ _ short, back) (make_coverage-ok rs h n))

-- The texts of `as_strings`, given to `parse` as an iterable or joined by commas.
split_on-join :
    (rs : List PortRange) → rs ≢ [] → split_on b',' (join_with b',' (map render rs)) ≡ map render rs
unfolding join_with
split_on-join [] h = absurd (h refl)
split_on-join (r ∷ []) h = split_on-without b',' (render r) (render-without r)
split_on-join (r ∷ s ∷ ss) h =
    split_on-append b',' (render r) (join_with b',' (map render (s ∷ ss))) (render-without r)
    ∙ ap (◌∷◌ (render r)) (split_on-join (s ∷ ss) (λ e. cc))

raw_terms_of-render :
    (rs : List PortRange) → raw_terms_of (map some (map render rs)) ≡ ok (map render rs)
unfolding raw_terms_of
raw_terms_of-render [] = refl
raw_terms_of-render (r ∷ rs) =
    rw (raw_terms_of-render rs, split_on-without b',' (render r) (render-without r)) refl

length-render-all : (rs : List PortRange) → length (map render rs) ≡ length rs
length-render-all [] = refl
length-render-all (r ∷ rs) = ap suc (length-render-all rs)

length-of-ne-nil : (rs : List PortRange) → rs ≢ [] → 1 ≤ length rs
length-of-ne-nil [] h = absurd (h refl)
length-of-ne-nil (r ∷ rs) h = omega arith

parse-raw_terms :
    (d : Declarations) (rs : List PortRange)
    → raw_terms d ≡ ok (map render rs)
    → rs ≢ []
    → All Valid rs
    → is_normalized rs ≡ true
    → length rs ≤ max_coverage_terms
    → parse d ≡ ok (record { ranges = rs })
unfolding parse
parse-raw_terms d rs e h v n short =
    rw (e, length-render-all rs)
      (rw (le→leb 1 (length rs) (length-of-ne-nil rs h), le→leb (length rs) 4096 (omega arith))
        (rw (parse_terms-render rs v) (normalize-normalized rs h v n short)))

-- A coverage whose ranges are valid, in order and apart, at least one and at most 256, survives
-- printing: both `nmap_spec` and `as_strings` parse back to exactly that coverage.
pub parse-render :
    (c : PortCoverage)
    → c.ranges ≢ []
    → All Valid c.ranges
    → is_normalized c.ranges ≡ true
    → length c.ranges ≤ max_coverage_terms
    → (parse (one (nmap_spec c)) ≡ ok c) × (parse (several (map some (as_strings c))) ≡ ok c)
unfolding nmap_spec as_strings raw_terms
parse-render c h v n short = (
  parse-raw_terms (one (nmap_spec c)) c.ranges (ap ok (split_on-join c.ranges h)) h v n short,
  parse-raw_terms (several (map some (as_strings c))) c.ranges (raw_terms_of-render c.ranges) h v n
      short,
)
