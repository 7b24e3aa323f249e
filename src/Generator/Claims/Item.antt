-- ===== src/Generator/Claims/Item.antt =====
-- Retry-safe event claims in DynamoDB (generator/src/portscanner_generator/idempotency.py).
-- This file: the items of the table, and the conditions and assignments of the updates.
-- A time is a number of microseconds since 1970; `seconds` is `int(t.timestamp())`. The texts of
-- the two time stamps stand as the times that they print. SHA-256 is a parameter, and the table
-- is the interface `ClaimTable`.
use portscanner.Prelude.{
  ℕ, suc, zero, ◌/◌, Bool, true, false, ◌&&◌, ◌||◌, Option, none, some, ◌++◌, leb, if◌then◌else◌,
}
use portscanner.Prelude.Text.{Text, codes, text_eq}
use portscanner.Prelude.Value.{ℤ, pos, negsuc, Value, null, int, number, str}
use portscanner.Prelude.Exec.{when◌run◌otherwise◌, Exec, raise}
use portscanner.Prelude.Result.{Result, ok, err}
use portscanner.Generator.Error.{Error, remote, claim_store_error}

pub data ClaimState : Type 0 where
  claimed retryable dispatched stale cancelled removed expired : ClaimState

unfoldable pub state_text : ClaimState → Text
state_text claimed = codes "CLAIMED"
state_text retryable = codes "RETRYABLE"
state_text dispatched = codes "DISPATCHED"
state_text stale = codes "STALE"
state_text cancelled = codes "CANCELLED"
state_text removed = codes "REMOVED"
state_text expired = codes "EXPIRED"

-- `state in TERMINAL_STATES`.
abbrev pub is_terminal : ClaimState → Bool
is_terminal claimed = false
is_terminal retryable = false
is_terminal _ = true

pub data ClaimDisposition : Type 0 where
  acquired duplicate busy : ClaimDisposition

pub record EventClaim : Type 0 where
  pub key : Text
  pub event_hash : Text
  pub owner : Text
  pub attempt : ℤ

pub record ClaimResult : Type 0 where
  pub disposition : ClaimDisposition
  pub claim : Option EventClaim
  pub state : Option ClaimState

-- An item of the table. The attributes that the code reads back are values, `null` where the
-- attribute is missing, since the code checks what it finds there.
pub record Item : Type 0 where
  pub event_hash : Value
  pub state : Value
  pub claim_owner : Value
  pub lease_expires_at : Value
  pub attempts : Value
  pub trace_hash : Text
  pub target_hash : Text
  pub generation : ℕ
  pub event_type : Text
  pub provider : Text
  pub reason : Text
  pub created_at : ℕ
  pub updated_at : ℕ
  pub expires_at : ℕ
  pub ownership_verdict : Option Text
  pub cancelled_count : Option ℕ
  pub scanner_name : Option Text
  pub last_error_code : Option Text

-- The calls of the table. `put_item` has the condition `attribute_not_exists`, and
-- `update_item` a condition on the item, which fails where there is none. `item` is what a
-- consistent read of a key finds: the code does not call it.
pub record ClaimTable (W : Type 0) : Type 0 where
  pub item : W → Text → Option Item
  pub get_item : Text → Exec W Error (Option Item)
  pub put_item : Text → Item → Exec W Error (Unit {0})
  pub update_item : Text → (Item → Bool) → (Item → Item) → Exec W Error (Unit {0})

-- The arguments of `acquire`.
pub record Request : Type 0 where
  pub event_id : Text
  pub trace_id : Text
  pub target_id : Text
  pub generation : ℕ
  pub event_type : Text
  pub provider : Text
  pub reason : Text
  pub owner : Text

pub record StoreConfig : Type 0 where
  pub lease_seconds : ℕ
  pub audit_ttl_days : ℕ

abbrev pub seconds : ℕ → ℕ
seconds t = t / 1000000

-- `_conditional_failure`.
abbrev pub conditional_failure : Error → Bool
conditional_failure (remote (some code)) = text_eq code (codes "ConditionalCheckFailedException")
conditional_failure _ = false

-- `_dynamodb_integer`.
abbrev pub dynamodb_integer : Value → Option ℤ
dynamodb_integer (int n) = some n
dynamodb_integer (number n) = n
dynamodb_integer _ = none

-- Equality of an attribute with a text, in the code and in a condition of DynamoDB.
abbrev pub value_is : Value → Text → Bool
value_is (str s) t = text_eq s t
value_is _ t = false

abbrev pub at_most : ℤ → ℕ → Bool
at_most (pos n) m = leb n m
at_most (negsuc n) m = true

-- `#lease <= :now`: a comparison of numbers. (A fraction, which the code never writes, does not
-- compare.)
abbrev pub number_at_most : Value → ℕ → Bool
number_at_most v m = elim (dynamodb_integer v) [ some n ↦ at_most n m | none ↦ false ]

-- `ADD #attempts :one`: a missing number counts from 0.
abbrev pub increment : ℤ → ℤ
increment (pos n) = pos (suc n)
increment (negsuc zero) = pos 0
increment (negsuc (suc n)) = negsuc n

abbrev pub add_one : Value → Value
add_one null = int (pos 1)
add_one (int n) = int (increment n)
add_one (number (some n)) = number (some (increment n))
add_one v = v

-- `_state`.
abbrev pub state_of_text : Text → Option ClaimState
state_of_text s =
    if text_eq s (codes "CLAIMED")
    then some claimed
    else if text_eq s (codes "RETRYABLE")
    then some retryable
    else if text_eq s (codes "DISPATCHED")
    then some dispatched
    else if text_eq s (codes "STALE")
    then some stale
    else if text_eq s (codes "CANCELLED")
    then some cancelled
    else if text_eq s (codes "REMOVED")
    then some removed
    else if text_eq s (codes "EXPIRED")
    then some expired
    else none

abbrev pub known_state : Value → Option ClaimState
known_state (str s) = state_of_text s
known_state _ = none

unfoldable pub item_state : Item → Result Error ClaimState
item_state i = elim (known_state i.state) [ some s ↦ ok s | none ↦ err claim_store_error ]

abbrev pub is_claimed : ClaimState → Bool
is_claimed claimed = true
is_claimed _ = false

abbrev pub is_retryable : ClaimState → Bool
is_retryable retryable = true
is_retryable _ = false

-- The conditions of the two conditional updates.
unfoldable pub reacquirable : Text → ℕ → Item → Bool
unfolding state_text
reacquirable hash now i =
    value_is i.event_hash hash
    && (value_is i.state (state_text retryable)
        || value_is i.state (state_text claimed) && number_at_most i.lease_expires_at now)

unfoldable pub owned_by : EventClaim → Item → Bool
unfolding state_text
owned_by claim i =
    value_is i.event_hash claim.event_hash
    && (value_is i.state (state_text claimed) && value_is i.claim_owner claim.owner)

-- What the updates assign; `REMOVE` leaves an attribute missing.
unfoldable pub reacquire_change : Text → ℕ → ℕ → ℕ → Item → Item
unfolding state_text
reacquire_change owner lease now expires i = record i {
  state = str (state_text claimed);
  claim_owner = str owner;
  lease_expires_at = int (pos lease);
  updated_at = now;
  expires_at = expires;
  attempts = add_one i.attempts;
}

abbrev pub scanner_or : Option Text → Option Text → Option Text
scanner_or none old = old
scanner_or (some name) old = some name

unfoldable pub complete_change : ClaimState → ℕ → Text → Option Text → ℕ → Item → Item
unfolding state_text
complete_change state now verdict scanner cancelled_count i = record i {
  state = str (state_text state);
  updated_at = now;
  ownership_verdict = some verdict;
  cancelled_count = some cancelled_count;
  scanner_name = scanner_or scanner i.scanner_name;
  claim_owner = null;
  lease_expires_at = null;
}

unfoldable pub retryable_change : ℕ → Text → Item → Item
unfolding state_text
retryable_change now error_code i = record i {
  state = str (state_text retryable);
  updated_at = now;
  last_error_code = some error_code;
  claim_owner = null;
  lease_expires_at = null;
}

abbrev pub claim_key : Text → Text
claim_key hash = codes "event#" ++ hash

-- `except Exception as error: if not _conditional_failure(error): raise`, then the rest.
unfoldable pub on_conditional : {W A : Type 0} → Exec W Error A → Error → Exec W Error A
on_conditional rest e = when conditional_failure e run rest otherwise raise e
