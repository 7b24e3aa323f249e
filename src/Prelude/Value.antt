-- ===== src/Prelude/Value.antt =====
-- Values of the source language where the code looks at their type: JSON, DynamoDB attributes,
-- and objects whose attributes are read by name.
use portscanner.Prelude.{
  ℕ, Bool, true, false, Option, some, List, [], ◌∷◌, not, ◌||◌, ◌==◌, if◌then◌else◌, String,
}
use portscanner.Prelude.Text.{Text, text_eq}
use text.Mathlib.Text.{◌==◌ as str_eq}

-- `negsuc n` is -(n + 1).
pub data ℤ : Type 0 where
  pos : ℕ → ℤ
  negsuc : ℕ → ℤ

-- `number` is a `Decimal`, with its integral value if it is finite and integral. A `mapping` is a
-- `dict`; an `object` has attributes, and the text that `str` gives. An enumeration member that
-- is a `str` is that `str`.
mutual
  pub data Value : Type 0 where
    null : Value
    boolean : Bool → Value
    int : ℤ → Value
    number : Option ℤ → Value
    str : Text → Value
    mapping : Fields → Value
    object : Text → Fields → Value
    sequence : Items → Value

  pub data Fields : Type 0 where
    end : Fields
    field : String → Value → Fields → Fields

  pub data Items : Type 0 where
    nil : Items
    cons : Value → Items → Items

-- A name that is missing reads as `None`.
abbrev pub get_field : String → Fields → Value
get_field name end = null
get_field name (field key v rest) = if str_eq key name then v else get_field name rest

abbrev pub has_field : String → Fields → Bool
has_field name end = false
has_field name (field key v rest) = str_eq key name || has_field name rest

-- `name in v`, of a mapping.
abbrev pub has_key : String → Value → Bool
has_key name (mapping fs) = has_field name fs
has_key _ _ = false

-- `v.get(name)`, of a mapping.
abbrev pub get_key : String → Value → Value
get_key name (mapping fs) = get_field name fs
get_key name _ = null

-- `getattr(v, name, None)`, of a value that is no mapping.
abbrev pub get_attribute : String → Value → Value
get_attribute name (object _ fs) = get_field name fs
get_attribute name _ = null

-- `isinstance(v, Mapping)`.
abbrev pub is_mapping : Value → Bool
is_mapping (mapping fs) = true
is_mapping _ = false

-- `str(v)`: `show` is the text of a value that is no `str`.
abbrev pub text_of_value : (Value → Text) → Value → Text
text_of_value show (str t) = t
text_of_value show v = show v

-- `v == s`, of a text.
abbrev pub equals_text : Value → Text → Bool
equals_text (str s) t = text_eq s t
equals_text _ t = false

-- The items of a list.
abbrev pub list_of : Items → List Value
list_of nil = []
list_of (cons v rest) = v ∷ list_of rest

abbrev pub is_null : Value → Bool
is_null null = true
is_null _ = false

-- `v == n` for a natural number: `True` and `False` equal 1 and 0.
abbrev pub equals_number : Value → ℕ → Bool
equals_number (int (pos m)) n = m == n
equals_number (number (some (pos m))) n = m == n
equals_number (boolean true) n = 1 == n
equals_number (boolean false) n = 0 == n
equals_number _ n = false

-- The truth of a value: nothing, zero and what is empty are false.
abbrev pub is_true : Value → Bool
is_true null = false
is_true (boolean b) = b
is_true (int (pos n)) = not (n == 0)
is_true (number (some (pos n))) = not (n == 0)
is_true (str s) = not (text_eq s [])
is_true (mapping end) = false
is_true (sequence nil) = false
is_true _ = true
