-- ===== src/Prelude/Text/Ascii.antt =====
-- Methods of `str` that the code uses to compare with ASCII texts, and `int` of a text.
use Prim.Native.Nat.{ℕ, zero, suc, ◌+◌}
use mathlib.Core.Bool.{Bool, true, false, ◌&&◌, ◌||◌}
use mathlib.Core.Option.{Option, none, some}
use mathlib.Core.List.{[], ◌∷◌, map, reverse}
use portscanner.Prelude.Tests.{leb, ◌==◌, if◌then◌else◌}
use portscanner.Prelude.Lists.{all, any, length}
use portscanner.Prelude.Text.{Text, is_digit, strip, number}
use portscanner.Prelude.Value.{ℤ, pos, negsuc}

abbrev pub is_lower : ℕ → Bool
is_lower c = leb 97 c && leb c 122

abbrev pub is_upper : ℕ → Bool
is_upper c = leb 65 c && leb c 90

-- The digits that `[0-9a-f]` matches.
abbrev pub is_hex : ℕ → Bool
is_hex c = is_digit c || leb 97 c && leb c 102

-- `s.lower()`, for a comparison with a text without the letter k: no other letter has a lower case
-- in ASCII.
abbrev pub lower_code : ℕ → ℕ
lower_code c = if is_upper c then c + 32 else c

unfoldable pub lower : Text → Text
lower s = map lower_code s

-- `s.strip(c)` of one character.
pub lstrip_code : ℕ → Text → Text
lstrip_code c [] = []
lstrip_code c (d ∷ ds) = if d == c then lstrip_code c ds else d ∷ ds

unfoldable pub strip_code : ℕ → Text → Text
unfolding lstrip_code
strip_code c s = reverse (lstrip_code c (reverse (lstrip_code c s)))

-- `c in s`, of one character.
abbrev pub has_code : ℕ → Text → Bool
has_code c s = any (λ d. d == c) s

abbrev pub not_empty : Text → Bool
not_empty [] = false
not_empty (c ∷ cs) = true

-- `re.fullmatch(r"[0-9a-f]{64}", s)`.
unfoldable pub is_sha256 : Text → Bool
is_sha256 s = length s == 64 && all is_hex s

-- Digits with single underscores between them.
abbrev grouped : Bool → Text → Option Text
grouped last_is_digit [] = if last_is_digit then some [] else none
grouped last_is_digit (c ∷ cs) =
    let more = grouped true cs in
    let after = grouped false cs in
    if is_digit c then prefixed c more else if c == 95 && last_is_digit then after else none
  where
    prefixed : ℕ → Option Text → Option Text
    prefixed d none = none
    prefixed d (some ds) = some (d ∷ ds)

abbrev negative : ℕ → ℤ
negative zero = pos 0
negative (suc n) = negsuc n

abbrev signed : Bool → Option Text → Option ℤ
signed minus none = none
signed minus (some ds) = some (if minus then negative (number ds) else pos (number ds))

abbrev of_stripped : Text → Option ℤ
of_stripped [] = none
of_stripped (c ∷ cs) =
    if c == 45
    then signed true (grouped false cs)
    else if c == 43
    then signed false (grouped false cs)
    else signed false (grouped false (c ∷ cs))

-- `int(s)`, `none` where it raises; the decimal digits are those of ASCII.
unfoldable pub int_of_text : Text → Option ℤ
int_of_text s = of_stripped (strip s)
