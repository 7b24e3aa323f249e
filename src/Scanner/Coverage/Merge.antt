-- ===== src/Scanner/Coverage/Merge.antt =====
-- Sorting and merging of the parsed port ranges (coverage.py, `PortCoverage.parse`).
use portscanner.Prelude.{
  ℕ, ◌+◌, ◌≤◌, ◌<◌, ◌≡◌, refl, ◌≢◌, ◌∙◌, inl, inr, Bool, true, false, ◌||◌, List, [], ◌∷◌, arith,
  leb, length, any, All, Bool-cases, max, if◌then◌else◌,
}
use portscanner.Prelude.Result.{ok, err}
use portscanner.Scanner.Coverage.{
  normalized_terms_count, PortRange, make_range, range_ok, range_contains, normalized_after,
  make_coverage, range_le, insert, sort, push, merge, reverse_onto, normalize, max_coverage_terms,
}

-- What `PortRange.__post_init__` accepts.
abbrev pub Valid : PortRange → Type 0
Valid r = (1 ≤ r.start) × (r.start ≤ r.end) × (r.end ≤ 65535)

unfoldable pub is_normalized : List PortRange → Bool
unfolding normalized_after
is_normalized [] = true
is_normalized (r ∷ rs) = normalized_after r rs

-- Every range starts at `low` or above.
abbrev StartsFrom : ℕ → List PortRange → Type 0
StartsFrom low rs = All (λ r. low ≤ r.start) rs

Sorted : List PortRange → Type 0
Sorted [] = Unit
Sorted (r ∷ rs) = StartsFrom r.start rs × Sorted rs

StartsFrom-mono : (a b : ℕ) (rs : List PortRange) → a ≤ b → StartsFrom b rs → StartsFrom a rs
StartsFrom-mono a b [] h k = tt
StartsFrom-mono a b (r ∷ rs) h k = (omega arith, StartsFrom-mono a b rs h k.1)

-- `insert` keeps order, validity and members.
insert-StartsFrom :
    (low : ℕ) (r : PortRange) (rs : List PortRange)
    → low ≤ r.start
    → StartsFrom low rs
    → StartsFrom low (insert r rs)
unfolding insert
insert-StartsFrom low r [] h k = (h, tt)
insert-StartsFrom low r (s ∷ ss) h k = elim (Bool-cases (range_le r s)) [
  | inl e ↦ rw e (h, k)
  | inr e ↦ rw e (k.0, insert-StartsFrom low r ss h k.1)
]

insert-Sorted : (r : PortRange) (rs : List PortRange) → Sorted rs → Sorted (insert r rs)
unfolding insert Sorted
insert-Sorted r [] h = (tt, tt)
insert-Sorted r (s ∷ ss) h = elim (Bool-cases (range_le r s)) [
  | inl e ↦ rw e ((ground arith, StartsFrom-mono r.start s.start ss (ground arith) h.0), h)
  | inr e ↦ rw e (insert-StartsFrom s.start r ss (ground arith) h.0, insert-Sorted r ss h.1)
]

insert-Valid :
    (r : PortRange) (rs : List PortRange) → Valid r → All Valid rs → All Valid (insert r rs)
unfolding insert
insert-Valid r [] h k = (h, tt)
insert-Valid r (s ∷ ss) h k = elim (Bool-cases (range_le r s)) [
  | inl e ↦ rw e (h, k)
  | inr e ↦ rw e (k.0, insert-Valid r ss h k.1)
]

any-insert :
    (q : PortRange → Bool) (r : PortRange) (rs : List PortRange)
    → any q (insert r rs) ≡ (q r || any q rs)
unfolding insert
any-insert q r [] = refl
any-insert q r (s ∷ ss) = ground (arith, any-insert q r ss)

sort-Sorted : (rs : List PortRange) → Sorted (sort rs)
unfolding sort Sorted
sort-Sorted [] = tt
sort-Sorted (r ∷ rs) = insert-Sorted r (sort rs) (sort-Sorted rs)

sort-Valid : (rs : List PortRange) → All Valid rs → All Valid (sort rs)
unfolding sort
sort-Valid [] h = tt
sort-Valid (r ∷ rs) h = insert-Valid r (sort rs) h.0 (sort-Valid rs h.1)

any-sort : (q : PortRange → Bool) (rs : List PortRange) → any q (sort rs) ≡ any q rs
unfolding sort
any-sort q [] = refl
any-sort q (r ∷ rs) = ground (arith, any-insert q r (sort rs), any-sort q rs)

-- The accumulator of the merge: valid ranges with gaps between them, the highest first.
abbrev GapBelow : ℕ → List PortRange → Type 0
GapBelow n [] = Unit
GapBelow n (r ∷ rs) = r.end + 1 < n

Down : List PortRange → Type 0
Down [] = Unit
Down (r ∷ rs) = Valid r × GapBelow r.start rs × Down rs

abbrev TopStartsBelow : ℕ → List PortRange → Type 0
TopStartsBelow n [] = Unit
TopStartsBelow n (r ∷ rs) = r.start ≤ n

-- A step of the merge succeeds, keeps the accumulator well formed and its members.
abbrev Pushed : PortRange → List PortRange → List PortRange → Type 0
Pushed current acc acc' =
    (push current acc ≡ ok acc')
    × Down acc'
    × TopStartsBelow current.start acc'
    × ((p : ℕ)
        → any (range_contains p) acc' ≡ (range_contains p current || any (range_contains p) acc))

pub make_range-ok :
    (s e : ℕ) → range_ok s e ≡ true → make_range s e ≡ ok (record { start = s; end = e })
unfolding make_range
make_range-ok s e h = rw h

push_joins :
    (current previous : PortRange) (rest : List PortRange)
    → Valid current
    → Down (previous ∷ rest)
    → previous.start ≤ current.start
    → leb current.start (previous.end + 1) ≡ true
    → Pushed current
        (previous ∷ rest)
        (record { start = previous.start; end = max previous.end current.end } ∷ rest)
unfolding push Down
push_joins current previous rest v d below touch = (
  rw (touch, make_range-ok previous.start (max previous.end current.end) (ground arith)) refl,
  (omega arith, d.1, d.2),
  below,
  λ p. ground arith,
)

push_adds :
    (current previous : PortRange) (rest : List PortRange)
    → Valid current
    → Down (previous ∷ rest)
    → leb current.start (previous.end + 1) ≡ false
    → Pushed current (previous ∷ rest) (current ∷ previous ∷ rest)
unfolding push Down
push_adds current previous rest v d apart =
    (rw apart refl, (v, ground arith, d), omega arith, λ p. refl)

push_lem :
    (current : PortRange) (acc : List PortRange)
    → Valid current
    → Down acc
    → TopStartsBelow current.start acc
    → (acc' : List PortRange) × Pushed current acc acc'
unfolding push Down
push_lem current [] v d below = (current ∷ [], (refl, (v, tt, tt), omega arith, λ p. refl))
push_lem current (previous ∷ rest) v d below =
    elim (Bool-cases (leb current.start (previous.end + 1))) [
      | inl touch ↦ (
        record { start = previous.start; end = max previous.end current.end } ∷ rest,
        push_joins current previous rest v d below touch,
      )
      | inr apart ↦ (current ∷ previous ∷ rest, push_adds current previous rest v d apart)
    ]

TopStartsBelow-All :
    (n : ℕ) (acc rs : List PortRange)
    → TopStartsBelow n acc
    → StartsFrom n rs
    → All (λ r. TopStartsBelow r.start acc) rs
TopStartsBelow-All n acc [] h k = tt
TopStartsBelow-All n [] (r ∷ rs) h k = (tt, TopStartsBelow-All n [] rs h k.1)
TopStartsBelow-All n (a ∷ acc) (r ∷ rs) h k = (omega arith, TopStartsBelow-All n (a ∷ acc) rs h k.1)

-- The whole merge succeeds on sorted valid ranges, with the members of both lists.
abbrev Merged : List PortRange → List PortRange → List PortRange → Type 0
Merged rs acc out =
    (merge rs acc ≡ ok out)
    × Down out
    × ((p : ℕ)
        → any (range_contains p) out ≡ (any (range_contains p) rs || any (range_contains p) acc))

merge_lem :
    (rs acc : List PortRange)
    → Sorted rs
    → All Valid rs
    → Down acc
    → All (λ r. TopStartsBelow r.start acc) rs
    → (out : List PortRange) × Merged rs acc out
unfolding merge Sorted
merge_lem [] acc s v d t = (acc, (refl, d, λ p. refl))
merge_lem (r ∷ rs) acc s v d t =
    let (acc', pushed) = push_lem r acc v.0 d t.0 in
    let later = TopStartsBelow-All r.start acc' rs pushed.2 s.0 in
    let (out, merged) = merge_lem rs acc' s.1 v.1 pushed.1 later in
    (out, (rw pushed.0 merged.0, merged.1, λ p. ground (arith, merged.2 p, pushed.3 p)))

-- The accumulator, turned round, is normalized.
abbrev Joins : List PortRange → List PortRange → Type 0
Joins acc [] = Unit
Joins acc (r ∷ rs) = GapBelow r.start acc

abbrev Canonical : List PortRange → Type 0
Canonical rs = All Valid rs × (is_normalized rs ≡ true)

reverse_onto-Canonical :
    (acc out : List PortRange)
    → Down acc
    → Canonical out
    → Joins acc out
    → Canonical (reverse_onto acc out)
unfolding Down is_normalized
reverse_onto-Canonical [] out d c j = c
reverse_onto-Canonical (r ∷ rs) [] d c j =
    reverse_onto-Canonical rs (r ∷ []) d.2 ((d.0, tt), refl) d.1
reverse_onto-Canonical (r ∷ rs) (o ∷ out) d c j =
    reverse_onto-Canonical rs (r ∷ o ∷ out) d.2 ((d.0, c.0), ground arith) d.1

any-reverse_onto :
    (q : PortRange → Bool) (acc out : List PortRange)
    → any q (reverse_onto acc out) ≡ (any q acc || any q out)
any-reverse_onto q [] out = refl
any-reverse_onto q (r ∷ rs) out = ground (arith, any-reverse_onto q rs (r ∷ out))

pub length-reverse_onto :
    (acc out : List PortRange) → length (reverse_onto acc out) ≡ length acc + length out
length-reverse_onto [] out = omega arith
length-reverse_onto (r ∷ rs) out = omega (arith, length-reverse_onto rs (r ∷ out))

-- `PortCoverage.__post_init__` accepts a normalized list that is not empty.
pub make_coverage-ok :
    (rs : List PortRange)
    → rs ≢ []
    → is_normalized rs ≡ true
    → make_coverage rs ≡ ok (record { ranges = rs })
unfolding make_coverage is_normalized
make_coverage-ok [] h n = absurd (h refl)
make_coverage-ok (r ∷ rs) h n = rw n

any-ne-nil : (q : PortRange → Bool) (rs : List PortRange) → any q rs ≡ true → rs ≢ []
any-ne-nil q [] h e = cc
any-ne-nil q (r ∷ rs) h e = cc

Valid-contains_start :
    (r : PortRange) (rs : List PortRange) → Valid r → any (range_contains r.start) (r ∷ rs) ≡ true
Valid-contains_start r rs v = ground arith

StartsFrom-zero : (rs : List PortRange) → StartsFrom 0 rs
StartsFrom-zero [] = tt
StartsFrom-zero (r ∷ rs) = (omega arith, StartsFrom-zero rs)

merge-sort : (rs : List PortRange) → All Valid rs → (out : List PortRange) × Merged (sort rs) [] out
unfolding Down
merge-sort rs v =
    merge_lem (sort rs) [] (sort-Sorted rs) (sort-Valid rs v) tt
      (TopStartsBelow-All 0 [] (sort rs) tt (StartsFrom-zero (sort rs)))

normalize-merge :
    (rs acc : List PortRange)
    → merge (sort rs) [] ≡ ok acc
    → reverse_onto acc [] ≢ []
    → is_normalized (reverse_onto acc []) ≡ true
    → normalize rs ≡ (
        if leb (length (reverse_onto acc [])) max_coverage_terms
        then ok (record { ranges = reverse_onto acc [] })
        else err normalized_terms_count)
unfolding normalize
normalize-merge rs acc e occupied n =
    let same : length (reverse_onto acc []) ≡ length acc =
      omega (arith, length-reverse_onto acc []) in
    elim (Bool-cases (leb (length acc) max_coverage_terms)) [
      | inl fits ↦ rw (e, same, fits) (make_coverage-ok (reverse_onto acc []) occupied n)
      | inr long ↦ rw (e, same, long) refl
    ]

-- Valid ranges, at least one, have a canonical list of ranges with the same ports: not empty,
-- valid, in order and with a gap between neighbours. `normalize` returns exactly that list, unless it has
-- more than 256 ranges; no other error is raised.
pub normalize_canonical :
    (rs : List PortRange)
    → rs ≢ []
    → All Valid rs
    → (out : List PortRange) × (out ≢ [])
      × All Valid out
      × (is_normalized out ≡ true)
      × ((p : ℕ) → any (range_contains p) out ≡ any (range_contains p) rs)
      × (normalize rs ≡ (
          if leb (length out) max_coverage_terms
          then ok (record { ranges = out })
          else err normalized_terms_count))
unfolding normalize Down is_normalized
normalize_canonical [] h v = absurd (h refl)
normalize_canonical (r ∷ rs) h v =
    let (acc, merged) = merge-sort (r ∷ rs) v in
    let out : List PortRange = reverse_onto acc [] in
    let canonical : Canonical out = reverse_onto-Canonical acc [] merged.1 (tt, refl) tt in
    let members : (p : ℕ) → any (range_contains p) out ≡ any (range_contains p) (r ∷ rs) = λ p.
      ground (
        arith,
        any-reverse_onto (range_contains p) acc [],
        merged.2 p,
        any-sort (range_contains p) (r ∷ rs),
      ) in
    let occupied : out ≢ [] =
      any-ne-nil (range_contains r.start) out (members r.start ∙ Valid-contains_start r rs v.0) in
    (
      out,
      occupied,
      canonical.0,
      canonical.1,
      members,
      normalize-merge (r ∷ rs) acc merged.0 occupied canonical.1,
    )
