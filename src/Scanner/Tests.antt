-- ===== src/Scanner/Tests.antt =====
-- The Nmap worker at concrete inputs.
pub mod Worker
use portscanner.Prelude.{
  ◌≡◌, ◌≢◌, ◌≤◌, refl, List, [], ◌∷◌, ℕ, true, length, any, All, tests, if◌then◌else◌, leb, map,
  some, arith,
}
use portscanner.Prelude.Text.{Text, codes, strip, split_on, number_from, decimal}
use portscanner.Prelude.Result.{Result, ok, err, ◌>>=◌}
use portscanner.Scanner.Coverage.{
  CoverageError, port_range_bounds, empty_term, invalid_term, one, parse, nmap_spec, raw_terms,
  parse_terms, range_of_term, range_of_match, match_term, match_groups, make_range, normalize,
  as_strings, join_with, render, PortRange, PortCoverage, Declarations, several,
  normalize_port_coverage, range_contains, contains, max_coverage_terms, max_input_coverage_terms,
  normalized_terms_count,
}
use portscanner.Scanner.Coverage.Merge.{Valid, is_normalized, normalize_canonical}
use portscanner.Scanner.Coverage.Parse.{
  IsCanonical, parse-IsCanonical, normalize_port_coverage_stable,
}
use portscanner.Scanner.Coverage.RoundTrip.{parse-render}

spec_of : Text → Result CoverageError Text
unfolding parse nmap_spec raw_terms parse_terms range_of_term range_of_match match_term match_groups
    strip split_on make_range number_from normalize as_strings join_with render decimal
spec_of t = parse (one t) >>= λ c. ok (nmap_spec c)

merges_and_sorts : spec_of (codes "443, 1-22,80,23-25,81") ≡ ok (codes "1-25,80-81,443")
unfolding spec_of
merges_and_sorts = refl

rejects_zero : spec_of (codes "0") ≡ err port_range_bounds
unfolding spec_of
rejects_zero = refl

rejects_words : spec_of (codes "80,http") ≡ err invalid_term
unfolding spec_of
rejects_words = refl

rejects_gap : spec_of (codes "80,,81") ≡ err empty_term
unfolding spec_of
rejects_gap = refl

abbrev two_ranges : List PortRange
two_ranges = (record { start = 1; end = 22 }) ∷ (record { start = 443; end = 443 }) ∷ []

abbrev two : PortCoverage
two = record { ranges = two_ranges }

two_ranges-occupied : two_ranges ≢ []
two_ranges-occupied e = cc

two_ranges-Valid : All Valid two_ranges
two_ranges-Valid =
    ((omega arith, omega arith, omega arith), ((omega arith, omega arith, omega arith), tt))

two_ranges-normalized : is_normalized two_ranges ≡ true
unfolding is_normalized
two_ranges-normalized = refl

two_ranges-short : length two_ranges ≤ max_coverage_terms
two_ranges-short = omega (tests)

parse-render_example :
    (parse (one (nmap_spec two)) ≡ ok two) × (parse (several (map some (as_strings two))) ≡ ok two)
parse-render_example =
    parse-render two two_ranges-occupied two_ranges-Valid two_ranges-normalized two_ranges-short

abbrev some_terms : Declarations
some_terms = one (codes "443,1-22")

parse-two : parse some_terms ≡ ok two
unfolding parse raw_terms parse_terms range_of_term range_of_match match_term match_groups strip
    split_on make_range number_from normalize
parse-two = refl

parse-IsCanonical_example :
    IsCanonical two
    × ((terms : List Text) × (parsed : List PortRange) × (raw_terms some_terms ≡ ok terms)
        × (parse_terms terms ≡ ok parsed)
        × (length terms ≤ max_input_coverage_terms)
        × ((p : ℕ) → contains two p ≡ any (range_contains p) parsed))
parse-IsCanonical_example = parse-IsCanonical some_terms two parse-two

two_strings : List Text
two_strings = codes "1-22" ∷ codes "443" ∷ []

normalize-two : normalize_port_coverage some_terms ≡ ok two_strings
unfolding normalize_port_coverage parse raw_terms parse_terms range_of_term range_of_match
    match_term match_groups strip split_on make_range number_from normalize as_strings render
    decimal two_strings
normalize-two = refl

normalize_port_coverage_stable_example :
    normalize_port_coverage (several (map some two_strings)) ≡ ok two_strings
normalize_port_coverage_stable_example =
    normalize_port_coverage_stable some_terms two_strings normalize-two

normalize_canonical_example :
    (out : List PortRange) × (out ≢ [])
    × All Valid out
    × (is_normalized out ≡ true)
    × ((p : ℕ) → any (range_contains p) out ≡ any (range_contains p) two_ranges)
    × (normalize two_ranges ≡ (
        if leb (length out) max_coverage_terms
        then ok (record { ranges = out })
        else err normalized_terms_count))
normalize_canonical_example = normalize_canonical two_ranges two_ranges-occupied two_ranges-Valid
