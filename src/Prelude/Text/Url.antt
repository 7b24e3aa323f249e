-- ===== src/Prelude/Text/Url.antt =====
-- `quote_plus(s, safe="")` and `unquote_plus(s, encoding="utf-8", errors="strict")` of urllib.parse.
use Prim.Native.Nat.{ℕ, ◌+◌, ◌-◌, ◌*◌, ◌/◌, ◌%◌, ◌<◌}
use mathlib.Core.Path.{◌≡◌, refl, ap}
use mathlib.Core.Bool.{Bool, true, false, ◌&&◌, ◌||◌, not}
use mathlib.Core.Option.{Option, none, some}
use mathlib.Core.Logic.{inl, inr}
use mathlib.Core.List.{List, [], ◌∷◌, ◌++◌, append-nil}
use native.Mathlib.Omega.{arith}
use portscanner.Prelude.Tests.{ltb, leb, ◌==◌, if◌then◌else◌, Bool-cases, &&-true}
use portscanner.Prelude.Lists.{all}
use portscanner.Prelude.Text.{Text, is_digit}
use portscanner.Prelude.Text.Ascii.{is_lower, is_upper}

-- The bytes of a code point in UTF-8.
unfoldable pub utf8 : ℕ → List ℕ
utf8 c =
    if ltb c 128
    then c ∷ []
    else if ltb c 2048
    then (192 + c / 64) ∷ (128 + c % 64) ∷ []
    else if ltb c 65536
    then (224 + c / 4096) ∷ (128 + c / 64 % 64) ∷ (128 + c % 64) ∷ []
    else (240 + c / 262144) ∷ (128 + c / 4096 % 64) ∷ (128 + c / 64 % 64) ∷ (128 + c % 64) ∷ []

-- The characters that are never quoted: letters, digits and `_.-~`.
abbrev pub always_safe : ℕ → Bool
always_safe c = is_lower c || is_upper c || is_digit c || c == 95 || c == 46 || c == 45 || c == 126

abbrev pub hex_digit : ℕ → ℕ
hex_digit d = if ltb d 10 then 48 + d else 55 + d

unfoldable pub quote_byte : ℕ → Text
quote_byte b = if always_safe b then b ∷ [] else 37 ∷ hex_digit (b / 16) ∷ hex_digit (b % 16) ∷ []

abbrev quote_bytes : List ℕ → Text
quote_bytes [] = []
quote_bytes (b ∷ bs) = quote_byte b ++ quote_bytes bs

unfoldable pub quote_plus : Text → Text
quote_plus [] = []
quote_plus (c ∷ cs) = (if c == 32 then 43 ∷ [] else quote_bytes (utf8 c)) ++ quote_plus cs

-- The value of a hexadecimal digit of either case.
abbrev pub hex_value : ℕ → Option ℕ
hex_value c =
    if is_digit c
    then some (c - 48)
    else if leb 65 c && leb c 70
    then some (c - 55)
    else if leb 97 c && leb c 102
    then some (c - 87)
    else none

abbrev byte_of : Option ℕ → Option ℕ → Option ℕ
byte_of (some a) (some b) = some (a * 16 + b)
byte_of _ _ = none

-- The bytes that the text stands for: `+` is a space, `%XX` a byte, and every other character its
-- UTF-8. A percent sign without two digits stands for itself.
abbrev unquoted : Option ℕ → List ℕ → List ℕ → List ℕ
unquoted (some b) after as_it_is = b ∷ after
unquoted none after as_it_is = as_it_is

unfoldable pub unquote_bytes : Text → List ℕ
unquote_bytes [] = []
unquote_bytes (c ∷ []) = if c == 43 then 32 ∷ [] else utf8 c
unquote_bytes (c ∷ d ∷ []) =
    let rest = unquote_bytes (d ∷ []) in if c == 43 then 32 ∷ rest else utf8 c ++ rest
unquote_bytes (c ∷ d ∷ e ∷ rest) =
    let next = unquote_bytes (d ∷ e ∷ rest) in
    let after = unquote_bytes rest in
    if c == 43
    then 32 ∷ next
    else if c == 37
    then unquoted (byte_of (hex_value d) (hex_value e)) after (c ∷ next)
    else utf8 c ++ next

abbrev pub is_continuation : ℕ → Bool
is_continuation b = leb 128 b && ltb b 192

abbrev then_code : Bool → ℕ → Option Text → Option Text
then_code true c (some cs) = some (c ∷ cs)
then_code _ _ _ = none

-- `bytes.decode("utf-8")`: no overlong form, no surrogate, nothing above U+10FFFF.
unfoldable pub decode_utf8 : List ℕ → Option Text
decode_utf8 [] = some []
decode_utf8 (a ∷ []) = then_code (ltb a 128) a (some [])
decode_utf8 (a ∷ b ∷ []) =
    let one = decode_utf8 (b ∷ []) in
    if ltb a 128
    then then_code true a one
    else then_code (leb 194 a && ltb a 224 && is_continuation b) ((a - 192) * 64 + (b - 128))
        (some [])
decode_utf8 (a ∷ b ∷ c ∷ []) =
    let one = decode_utf8 (b ∷ c ∷ []) in
    let two = decode_utf8 (c ∷ []) in
    let code = (a - 224) * 4096 + (b - 128) * 64 + (c - 128) in
    if ltb a 128
    then then_code true a one
    else if ltb a 224
    then then_code (leb 194 a && is_continuation b) ((a - 192) * 64 + (b - 128)) two
    else then_code
        (ltb a 240
          && is_continuation b
          && is_continuation c
          && leb 2048 code
          && not (leb 55296 code && ltb code 57344))
        code (some [])
decode_utf8 (a ∷ b ∷ c ∷ d ∷ rest) =
    let one = decode_utf8 (b ∷ c ∷ d ∷ rest) in
    let two = decode_utf8 (c ∷ d ∷ rest) in
    let three = decode_utf8 (d ∷ rest) in
    let four = decode_utf8 rest in
    let code = (a - 224) * 4096 + (b - 128) * 64 + (c - 128) in
    let wide = (a - 240) * 262144 + (b - 128) * 4096 + (c - 128) * 64 + (d - 128) in
    if ltb a 128
    then then_code true a one
    else if ltb a 224
    then then_code (leb 194 a && is_continuation b) ((a - 192) * 64 + (b - 128)) two
    else if ltb a 240
    then then_code
        (is_continuation b
          && is_continuation c
          && leb 2048 code
          && not (leb 55296 code && ltb code 57344))
        code three
    else then_code
        (is_continuation b
          && is_continuation c
          && is_continuation d
          && leb 65536 wide
          && leb wide 1114111)
        wide four

unfoldable pub unquote_plus : Text → Option Text
unquote_plus s = decode_utf8 (unquote_bytes s)

abbrev pub is_ascii : Text → Bool
is_ascii s = all (λ c. ltb c 128) s

decode-ascii : (s : Text) → is_ascii s ≡ true → decode_utf8 s ≡ some s
unfolding decode_utf8
decode-ascii [] h = refl
decode-ascii (a ∷ []) h = ground arith
decode-ascii (a ∷ b ∷ []) h =
    let p = &&-true (ltb a 128) _ h in rw (p.0, decode-ascii (b ∷ []) p.1) refl
decode-ascii (a ∷ b ∷ c ∷ []) h =
    let p = &&-true (ltb a 128) _ h in rw (p.0, decode-ascii (b ∷ c ∷ []) p.1) refl
decode-ascii (a ∷ b ∷ c ∷ d ∷ rest) h =
    let p = &&-true (ltb a 128) _ h in rw (p.0, decode-ascii (b ∷ c ∷ d ∷ rest) p.1) refl

pub hex_value-hex_digit : (d : ℕ) → d < 16 → hex_value (hex_digit d) ≡ some d
hex_value-hex_digit d h = ground arith

unquote_bytes-plain :
    (c : ℕ) (s : Text)
    → (c == 43) ≡ false
    → (c == 37) ≡ false
    → ltb c 128 ≡ true
    → unquote_bytes (c ∷ s) ≡ c ∷ unquote_bytes s
unfolding unquote_bytes utf8
unquote_bytes-plain c [] h k l = rw (h, l) refl
unquote_bytes-plain c (d ∷ []) h k l = rw (h, l) refl
unquote_bytes-plain c (d ∷ e ∷ rest) h k l = rw (h, k, l) refl

unquote_bytes-space : (s : Text) → unquote_bytes (43 ∷ s) ≡ 32 ∷ unquote_bytes s
unfolding unquote_bytes
unquote_bytes-space [] = refl
unquote_bytes-space (d ∷ []) = refl
unquote_bytes-space (d ∷ e ∷ rest) = refl

unquote_bytes-quote_byte :
    (c : ℕ) (s : Text) → ltb c 128 ≡ true → unquote_bytes (quote_byte c ++ s) ≡ c ∷ unquote_bytes s
unfolding quote_byte unquote_bytes
unquote_bytes-quote_byte c s h = elim (Bool-cases (always_safe c)) [
  | inl safe ↦ rw safe (unquote_bytes-plain c s (ground arith) (ground arith) h)
  | inr unsafe ↦
      rw
        (
          unsafe,
          hex_value-hex_digit (c / 16) (ground arith),
          hex_value-hex_digit (c % 16) (omega arith),
        )
        (ap (λ b. b ∷ unquote_bytes s) (omega arith))
]

unquote_bytes-quote_plus : (s : Text) → is_ascii s ≡ true → unquote_bytes (quote_plus s) ≡ s
unfolding quote_plus utf8 unquote_bytes
unquote_bytes-quote_plus [] h = refl
unquote_bytes-quote_plus (c ∷ cs) h =
    let p = &&-true (ltb c 128) _ h in
    elim (Bool-cases (c == 32)) [
      | inl space ↦ rw (space, unquote_bytes-space, unquote_bytes-quote_plus cs p.1) (ground arith)
      | inr other ↦
          rw (other, p.0, append-nil, unquote_bytes-quote_byte c (quote_plus cs) p.0)
            (ap (λ s. c ∷ s) (unquote_bytes-quote_plus cs p.1))
    ]

-- An ASCII text that is quoted reads back.
pub unquote_plus-quote_plus : (s : Text) → is_ascii s ≡ true → unquote_plus (quote_plus s) ≡ some s
unfolding unquote_plus
unquote_plus-quote_plus s h = rw (unquote_bytes-quote_plus s h) (decode-ascii s h)
