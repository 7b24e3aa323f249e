-- ===== src/Scanner/Coverage/Parse.antt =====
-- What `PortCoverage.parse` returns (coverage.py): canonical coverage, and a fixed point.
use portscanner.Prelude.{
  ℕ, suc, ◌≤◌, ◌≡◌, refl, ◌≢◌, ◌∙◌, ap, sym, inl, inr, Bool, true, false, List, [], ◌∷◌, Option,
  none, some, map, arith, leb, leb→le, length, any, All, Bool-cases, &&-true, tests, ◌&&◌,
  if◌then◌else◌,
}
use portscanner.Prelude.Text.{Text, number, strip}
use portscanner.Prelude.Result.{ok, err, >>=-eq-ok, guard-eq-ok}
use portscanner.Scanner.Coverage.{
  PortRange, PortCoverage, Declarations, several, make_range, range_of_match, match_term,
  range_of_term, parse_terms, raw_terms, normalize, parse, max_input_coverage_terms, as_strings,
  normalize_port_coverage, max_coverage_terms, range_contains, contains,
}
use portscanner.Scanner.Coverage.Merge.{Valid, is_normalized, normalize_canonical}
use portscanner.Scanner.Coverage.RoundTrip.{parse-render}

make_range-Valid : (s e : ℕ) {r : PortRange} → make_range s e ≡ ok r → Valid r
unfolding make_range
make_range-Valid s e {r} h = ground arith

range_of_match-Valid :
    (m : Option (Text × Option Text)) {r : PortRange} → range_of_match m ≡ ok r → Valid r
unfolding range_of_match
range_of_match-Valid none h = absurd (cc)
range_of_match-Valid (some (first, none)) h = make_range-Valid (number first) (number first) h
range_of_match-Valid (some (first, some second)) h =
    make_range-Valid (number first) (number second) h

range_of_term-Valid : (t : Text) {r : PortRange} → range_of_term t ≡ ok r → Valid r
unfolding range_of_term
range_of_term-Valid [] h = absurd (cc)
range_of_term-Valid (c ∷ cs) h = range_of_match-Valid (match_term (c ∷ cs)) h

-- Every parsed term is a valid range, and there is one for each term.
parse_terms-Valid :
    (ts : List Text) (rs : List PortRange)
    → parse_terms ts ≡ ok rs
    → All Valid rs × (length rs ≡ length ts)
unfolding parse_terms
parse_terms-Valid [] [] h = (tt, refl)
parse_terms-Valid [] (r ∷ rs) h = absurd (cc)
parse_terms-Valid (t ∷ ts) rs h =
    let (first, p, rest) = >>=-eq-ok (range_of_term (strip t)) _ h in
    let (others, q, e) = >>=-eq-ok (parse_terms ts) _ rest in
    let ih = parse_terms-Valid ts others q in
    let same : first ∷ others ≡ rs = cc in
    rw (← same) ((range_of_term-Valid (strip t) p, ih.0), ap suc ih.1)

module _ {A E : Type 0} (b : Bool) (x : A) (e : E) where
  ok_if : b ≡ true → (if b then ok x else err e) ≡ ok x
  ok_if h = rw h

  err_if : b ≡ false → (if b then ok x else err e) ≡ err e
  err_if h = rw h

abbrev pub IsCanonical : PortCoverage → Type 0
IsCanonical c =
    (c.ranges ≢ [])
    × All Valid c.ranges
    × (is_normalized c.ranges ≡ true)
    × (length c.ranges ≤ max_coverage_terms)

normalize-IsCanonical :
    (rs : List PortRange) (c : PortCoverage)
    → rs ≢ []
    → All Valid rs
    → normalize rs ≡ ok c
    → IsCanonical c × ((p : ℕ) → contains c p ≡ any (range_contains p) rs)
normalize-IsCanonical rs c h v e =
    let (out, occupied, valid, n, members, result) = normalize_canonical rs h v in
    elim (Bool-cases (leb (length out) max_coverage_terms)) [
      | inl fits ↦
          let same : record { ranges = out } ≡ c = cc (sym result ∙ e, ok_if _ _ _ fits) in
          rw (← same) ((occupied, valid, n, leb→le _ _ fits), members)
      | inr long ↦ absurd (cc (sym result ∙ e, err_if _ _ _ long))
    ]

-- What `parse` returns is canonical, with the ports of the parsed terms.
pub parse-IsCanonical :
    (d : Declarations) (c : PortCoverage)
    → parse d ≡ ok c
    → IsCanonical c
      × ((terms : List Text) × (parsed : List PortRange) × (raw_terms d ≡ ok terms)
          × (parse_terms terms ≡ ok parsed)
          × (length terms ≤ max_input_coverage_terms)
          × ((p : ℕ) → contains c p ≡ any (range_contains p) parsed))
unfolding parse
parse-IsCanonical d c h =
    let (terms, p, h₁) = >>=-eq-ok (raw_terms d) _ h in
    let (counted, h₂) =
      guard-eq-ok (leb 1 (length terms) && leb (length terms) max_input_coverage_terms) _ _ h₁ in
    let (parsed, q, h₃) = >>=-eq-ok (parse_terms terms) _ h₂ in
    let valid = parse_terms-Valid terms parsed q in
    let enough = &&-true (leb 1 (length terms)) _ counted in
    let first : parsed ≢ [] = λ e. absurd (omega (tests, ap length e, valid.1, enough.0)) in
    let (canonical, members) = normalize-IsCanonical parsed c first valid.0 h₃ in
    (canonical, (terms, parsed, p, q, leb→le _ _ enough.1, members))

-- The external form is stable: what `normalize_port_coverage` returns, it returns again when it
-- is given that.
pub normalize_port_coverage_stable :
    (d : Declarations) (ts : List Text)
    → normalize_port_coverage d ≡ ok ts
    → normalize_port_coverage (several (map some ts)) ≡ ok ts
unfolding normalize_port_coverage
normalize_port_coverage_stable d ts h =
    let (c, p, q) = >>=-eq-ok (parse d) _ h in
    let canonical = (parse-IsCanonical d c p).0 in
    let same : as_strings c ≡ ts = cc in
    rw (← same) (rw (parse-render c canonical.0 canonical.1 canonical.2 canonical.3).1 refl)
