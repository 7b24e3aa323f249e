-- ===== src/Generator/Revalidation.antt =====
-- Ownership verdicts become dispatch decisions (generator/src/portscanner_generator/revalidation.py).
-- The requested generation is a natural number: the event contract keeps it at 1 or above.
pub mod Gate
use portscanner.Prelude.{
  ℕ, zero, suc, ◌≡◌, refl, Bool, true, false, ◌&&◌, ◌||◌, not, Option, none, some, List, [], ◌∷◌,
  ◌++◌, ◌-◌, ltb, ◌==◌, if◌then◌else◌, String, map,
}
use portscanner.Prelude.Text.{Text, codes, text_eq, strip, decimal}
use portscanner.Prelude.Value.{
  ℤ, pos, negsuc, Value, null, boolean, int, number, str, mapping, object, sequence, get_key,
  get_attribute, is_mapping, is_null, equals_number,
}

pub data OwnershipDecision : Type 0 where
  dispatch stale cancel retry : OwnershipDecision

pub record OwnershipCheck : Type 0 where
  pub verdict : Text
  pub requested_generation : ℕ
  pub current_generation : Option ℕ
  pub decision : OwnershipDecision
  pub reason : Option Text

-- `_field`.
abbrev pub field_of : Value → String → Value
field_of verdict name =
    if is_mapping verdict then get_key name verdict else get_attribute name verdict

-- `str.upper`, exact where the result is a text of ASCII letters: the letters, and the other
-- code points whose upper case is ASCII.
unfoldable pub upper_code : ℕ → Text
upper_code c =
    if not (ltb c b'a') && ltb c 123
    then (c - 32) ∷ []
    else if c == 0x131
    then b'I' ∷ []
    else if c == 0x17F
    then b'S' ∷ []
    else if c == 0xDF
    then b'S' ∷ b'S' ∷ []
    else if c == 0xFB00
    then b'F' ∷ b'F' ∷ []
    else if c == 0xFB01
    then b'F' ∷ b'I' ∷ []
    else if c == 0xFB02
    then b'F' ∷ b'L' ∷ []
    else if c == 0xFB03
    then b'F' ∷ b'F' ∷ b'I' ∷ []
    else if c == 0xFB04
    then b'F' ∷ b'F' ∷ b'L' ∷ []
    else if c == 0xFB05
    then b'S' ∷ b'T' ∷ []
    else if c == 0xFB06
    then b'S' ∷ b'T' ∷ []
    else c ∷ []

unfoldable pub upper : Text → Text
upper [] = []
upper (c ∷ cs) = upper_code c ++ upper cs

abbrev pub unknown_state : Text
unknown_state = codes "UNKNOWN"

-- `getattr(value, "value", value)`: a value without the attribute stands for itself. (An object
-- whose attribute is `None` reads as itself here: neither is a `str`.)
enum_value : Value → Value
enum_value (object name fs) =
    let inner = get_attribute "value" (object name fs) in
    if is_null inner then object name fs else inner
enum_value v = v

text_of_state : Value → Text
text_of_state (str s) = upper (strip s)
text_of_state _ = unknown_state

unfoldable pub state_name : Value → Text
unfolding enum_value text_of_state
state_name value = text_of_state (enum_value value)

-- `str(reason) if reason is not None else None`; `show` is `str` of a value that is no `str`.
abbrev pub reason_text : (Value → Text) → Value → Option Text
reason_text show null = none
reason_text show (str s) = some s
reason_text show v = some (show v)

-- The state that the verdict names, under `verdict` or else under `state`.
unfoldable pub state_value : Value → Value
state_value verdict =
    let first = field_of verdict "verdict" in
    if is_null first then field_of verdict "state" else first

abbrev generation_if_int : Value → Value
generation_if_int (int n) = int n
generation_if_int _ = null

-- `current_generation`, or else the generation of `current` if that is an `int`.
unfoldable pub current_value : Value → Value
current_value verdict =
    let direct = field_of verdict "current_generation" in
    if is_null direct
    then generation_if_int (field_of (field_of verdict "current") "generation")
    else direct

-- A current generation that is present must be an `int` of 1 or more.
pub data Current : Type 0 where
  absent malformed : Current
  generation : ℕ → Current

abbrev pub read_current : Value → Current
read_current null = absent
read_current (int (pos zero)) = malformed
read_current (int (pos (suc n))) = generation (suc n)
read_current _ = malformed

-- The verdict is about another request than the one that was made.
unfoldable pub request_differs : Value → ℕ → Bool
request_differs verdict requested =
    let reported = field_of verdict "requested_generation" in
    not (is_null reported) && not (equals_number reported requested)

-- The ladder over the state's name, with the name that is reported.
decide_active : Option ℕ → ℕ → OwnershipDecision
decide_active none requested = dispatch
decide_active (some current) requested =
    if current == requested then dispatch else if ltb requested current then stale else retry

unfoldable pub decide : Text → Option ℕ → ℕ → Text × OwnershipDecision
unfolding decide_active
decide state current requested =
    if text_eq state (codes "ACTIVE")
    then (state, decide_active current requested)
    else if text_eq state (codes "STALE")
    then (state, stale)
    else if text_eq state (codes "MOVED") || text_eq state (codes "INACTIVE")
    then (state, cancel)
    else (unknown_state, retry)

-- State and current generation after the checks: a failed check makes the state unknown.
checked_state : Bool → Current → Text → Text × Option ℕ
checked_state true current state = (unknown_state, none)
checked_state false absent state = (state, none)
checked_state false malformed state = (unknown_state, none)
checked_state false (generation n) state = (state, some n)

unfoldable pub classify_verdict : (Value → Text) → Value → ℕ → OwnershipCheck
unfolding checked_state state_value
classify_verdict show verdict requested =
    let (state, current) =
      checked_state (request_differs verdict requested) (read_current (current_value verdict))
        (state_name (state_value verdict)) in
    let (name, decision) = decide state current requested in
    record {
      verdict = name;
      requested_generation = requested;
      current_generation = current;
      decision = decision;
      reason = reason_text show (field_of verdict "reason");
    }
