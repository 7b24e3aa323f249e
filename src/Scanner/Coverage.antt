-- ===== src/Scanner/Coverage.antt =====
-- Deterministic TCP port coverage (scanner/nmap/src/portscanner_scanner/coverage.py).
-- A port is a native number. `PortRange` and `PortCoverage` are built by `make_range` and
-- `make_coverage`, which make the checks of the two `__post_init__` methods.
pub mod Merge
pub mod RoundTrip
pub mod Parse
use portscanner.Prelude.{
  ℕ, ◌+◌, ◌-◌, max, Bool, true, ◌&&◌, ◌||◌, Option, none, some, List, [], ◌∷◌, ◌++◌, map, ltb, leb,
  ◌==◌, if◌then◌else◌, length, any, all,
}
use portscanner.Prelude.Text.{Text, split_on, strip, decimal, number, number_from, is_digit, codes}
use portscanner.Prelude.Result.{Result, ok, err, ◌>>=◌, ◌>>◌, guard}

abbrev pub min_port : ℕ
min_port = 1

abbrev pub max_port : ℕ
max_port = 65535

abbrev pub max_coverage_terms : ℕ
max_coverage_terms = 256

abbrev pub max_input_coverage_terms : ℕ
max_input_coverage_terms = 4096

-- The `CoverageError`s, a constructor for each message.
pub data CoverageError : Type 0 where
  port_range_bounds empty_coverage not_normalized terms_must_be_strings : CoverageError
  input_terms_count empty_term invalid_term normalized_terms_count : CoverageError

pub record PortRange : Type 0 where
  pub start : ℕ
  pub end : ℕ

abbrev pub range_ok : ℕ → ℕ → Bool
range_ok start end = leb min_port start && leb start end && leb end max_port

unfoldable pub make_range : ℕ → ℕ → Result CoverageError PortRange
make_range start end = do
  guard (range_ok start end) port_range_bounds
  ok (record { start = start; end = end })

abbrev pub range_size : PortRange → ℕ
range_size r = r.end - r.start + 1

abbrev pub range_contains : ℕ → PortRange → Bool
range_contains port r = leb r.start port && leb port r.end

unfoldable pub render : PortRange → Text
render r = if r.start == r.end then decimal r.start else decimal r.start ++ b'-' ∷ decimal r.end

pub record PortCoverage : Type 0 where
  pub ranges : List PortRange

-- `current.start <= previous.end + 1` of a range and the one before it, down the list.
pub normalized_after : PortRange → List PortRange → Bool
normalized_after previous [] = true
normalized_after previous (current ∷ rest) =
    ltb (previous.end + 1) current.start && normalized_after current rest

unfoldable pub make_coverage : List PortRange → Result CoverageError PortCoverage
unfolding normalized_after
make_coverage [] = err empty_coverage
make_coverage (r ∷ rs) = do
  guard (normalized_after r rs) not_normalized
  ok (record { ranges = r ∷ rs })

-- A group `[0-9]{1,5}`.
abbrev pub digits_ok : Text → Bool
digits_ok s = leb 1 (length s) && leb (length s) 5 && all is_digit s

-- `_TERM.fullmatch`: one or two such groups, with a dash between two.
unfoldable pub match_groups : List Text → Option (Text × Option Text)
match_groups [] = none
match_groups (first ∷ []) = if digits_ok first then some (first, none) else none
match_groups (first ∷ second ∷ []) =
    if digits_ok first && digits_ok second then some (first, some second) else none
match_groups (first ∷ second ∷ third ∷ rest) = none

unfoldable pub match_term : Text → Option (Text × Option Text)
match_term term = match_groups (split_on b'-' term)

unfoldable pub range_of_match : Option (Text × Option Text) → Result CoverageError PortRange
range_of_match none = err invalid_term
range_of_match (some (first, none)) = make_range (number first) (number first)
range_of_match (some (first, some second)) = make_range (number first) (number second)

unfoldable pub range_of_term : Text → Result CoverageError PortRange
range_of_term [] = err empty_term
range_of_term (c ∷ cs) = range_of_match (match_term (c ∷ cs))

unfoldable pub parse_terms : List Text → Result CoverageError (List PortRange)
parse_terms [] = ok []
parse_terms (raw ∷ rest) = do r ← range_of_term (strip raw); rs ← parse_terms rest; ok (r ∷ rs)

-- `parsed.sort()`: the ranges are ordered by their start, then by their end.
abbrev pub range_le : PortRange → PortRange → Bool
range_le a b = ltb a.start b.start || a.start == b.start && leb a.end b.end

unfoldable pub insert : PortRange → List PortRange → List PortRange
insert r [] = r ∷ []
insert r (s ∷ ss) = if range_le r s then r ∷ s ∷ ss else s ∷ insert r ss

unfoldable pub sort : List PortRange → List PortRange
unfolding insert
sort [] = []
sort (r ∷ rs) = insert r (sort rs)

-- The list `normalized` is kept with its last item first.
unfoldable pub push : PortRange → List PortRange → Result CoverageError (List PortRange)
unfolding make_range
push current [] = ok (current ∷ [])
push current (previous ∷ rest) =
    if leb current.start (previous.end + 1)
    then (make_range previous.start (max previous.end current.end) >>= λ joined. ok (joined ∷ rest))
    else ok (current ∷ previous ∷ rest)

unfoldable pub merge : List PortRange → List PortRange → Result CoverageError (List PortRange)
unfolding push
merge [] normalized = ok normalized
merge (current ∷ rest) normalized = push current normalized >>= merge rest

abbrev pub reverse_onto : List PortRange → List PortRange → List PortRange
reverse_onto [] out = out
reverse_onto (r ∷ rs) out = reverse_onto rs (r ∷ out)

unfoldable pub normalize : List PortRange → Result CoverageError PortCoverage
unfolding sort merge make_coverage
normalize parsed = do
  normalized ← merge (sort parsed) []
  guard (leb (length normalized) max_coverage_terms) normalized_terms_count
  make_coverage (reverse_onto normalized [])

-- The argument of `parse`: one text, or an iterable whose items may be no texts (`none`).
pub data Declarations : Type 0 where
  one : Text → Declarations
  several : List (Option Text) → Declarations

unfoldable pub raw_terms_of : List (Option Text) → Result CoverageError (List Text)
raw_terms_of [] = ok []
raw_terms_of (none ∷ rest) = err terms_must_be_strings
raw_terms_of (some declaration ∷ rest) = do
  terms ← raw_terms_of rest
  ok (split_on b',' declaration ++ terms)

unfoldable pub raw_terms : Declarations → Result CoverageError (List Text)
raw_terms (one text) = ok (split_on b',' text)
raw_terms (several declarations) = raw_terms_of declarations

unfoldable pub parse : Declarations → Result CoverageError PortCoverage
parse declarations = do
  terms ← raw_terms declarations
  guard (leb 1 (length terms) && leb (length terms) max_input_coverage_terms) input_terms_count
  parsed ← parse_terms terms
  normalize parsed

unfoldable pub full_tcp : Result CoverageError PortCoverage
unfolding make_range make_coverage
full_tcp = make_range min_port max_port >>= λ r. make_coverage (r ∷ [])

-- `count`: the sum of the sizes.
abbrev pub sum_sizes : List PortRange → ℕ
sum_sizes [] = 0
sum_sizes (r ∷ rs) = range_size r + sum_sizes rs

abbrev pub count : PortCoverage → ℕ
count c = sum_sizes c.ranges

-- `as_strings`, and `nmap_spec`, which joins them by commas.
unfoldable pub as_strings : PortCoverage → List Text
as_strings c = map render c.ranges

unfoldable pub join_with : ℕ → List Text → Text
join_with sep [] = []
join_with sep (t ∷ []) = t
join_with sep (t ∷ u ∷ rest) = t ++ sep ∷ join_with sep (u ∷ rest)

unfoldable pub nmap_spec : PortCoverage → Text
nmap_spec c = join_with b',' (as_strings c)

abbrev pub contains : PortCoverage → ℕ → Bool
contains c port = any (range_contains port) c.ranges

unfoldable pub normalize_port_coverage : Declarations → Result CoverageError (List Text)
normalize_port_coverage declarations = parse declarations >>= λ c. ok (as_strings c)
