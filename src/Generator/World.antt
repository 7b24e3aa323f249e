-- ===== src/Generator/World.antt =====
-- What the dispatcher works on: the target event, its configuration, the services that it calls
-- (generator/src/portscanner_generator/handler.py, `GeneratorServices`), and a record of the calls.
use portscanner.Prelude.{
  ℕ, Bool, true, false, ◌||◌, not, Option, none, some, List, [], ◌∷◌, any, ◌&&◌, ◌≡◌, refl,
}
use portscanner.Prelude.Text.{Text, text_eq}
use portscanner.Prelude.Value.{Value}
use portscanner.Prelude.Ipv4.{Network, ipv4_address, in_network}
use portscanner.Prelude.Exec.{Ends, Exec, pure, ◌>>=◌}
use portscanner.Prelude.Result.{Result, ok, err}
use portscanner.Generator.Error.{Error}
use portscanner.Generator.Revalidation.{OwnershipCheck, classify_verdict}
use portscanner.Generator.Claims.Item.{ClaimTable}

-- The scan directive of an event. A time is a number of microseconds since 1970.
pub record Scan : Type 0 where
  pub reason : Text
  pub deadline_at : ℕ
  pub not_after : ℕ

-- A target event that the shared contract has accepted; a removal has no scan.
pub record Event : Type 0 where
  pub event_id : Text
  pub trace_id : Option Text
  pub event_type : Text
  pub provider : Text
  pub target_id : Text
  pub generation : ℕ
  pub scope_id : Option Text
  pub aws_account_id : Option Text
  pub public_address : Option Text
  pub scan : Option Scan

pub record Config : Type 0 where
  pub authorized_account_ids : List Text
  pub allowed_target_cidrs : List Network
  pub denied_target_cidrs : List Network

-- `GeneratorConfig.target_allowed`: an address that does not parse is refused, and a denied
-- network comes before the allowed ones.
abbrev pub address_allowed : Config → ℕ → Bool
address_allowed c address =
    not (any (in_network address) c.denied_target_cidrs)
    && (no_networks c.allowed_target_cidrs || any (in_network address) c.allowed_target_cidrs)
  where
    no_networks : List Network → Bool
    no_networks [] = true
    no_networks _ = false

unfoldable pub target_allowed : Config → Text → Bool
target_allowed c address = elim (ipv4_address address) [
  | some a ↦ address_allowed c a
  | none ↦ false
]

unfoldable pub account_allowed : Config → Text → Bool
account_allowed c account_id = any (text_eq account_id) c.authorized_account_ids

pub data CreateResult : Type 0 where
  created already_exists : CreateResult

-- The services. The Kubernetes client is built at its first use, which may fail; a Scanner
-- resource to create is given by its body.
pub record Services (W : Type 0) : Type 0 where
  pub config : Config
  pub claims : ClaimTable W
  pub clock : Exec W Error ℕ
  pub new_owner : Exec W Error Text
  pub validate_event : Event → Exec W Error Value
  pub scanner_client : Exec W Error (Unit {0})
  pub list_for_target_hash : Text → Exec W Error (List Value)
  pub delete : Text → Exec W Error Bool
  pub create : Value → Exec W Error CreateResult

-- The calls that the properties are about.
pub data Call : Type 0 where
  read_clock : ℕ → Call
  checked_ownership : OwnershipCheck → Call
  listed : Text → List Value → Call
  deleting : Text → Call
  creating : Value → Call

-- The world, and the calls made so far, the last one first.
pub record Run (W : Type 0) : Type 0 where
  pub world : W
  pub calls : List Call

module _ {W : Type 0} where
  -- A call that has no entry, or whose entry shows what it returned.
  abbrev back : {A : Type 0} → List Call → Result Error A × W → Result Error A × Run W
  back calls (r, w) = (r, record { world = w; calls = calls })

  abbrev back_with :
      {A : Type 0} → (A → Call) → List Call → Result Error A × W → Result Error A × Run W
  back_with entry calls (ok a, w) = (ok a, record { world = w; calls = entry a ∷ calls })
  back_with entry calls (err e, w) = (err e, record { world = w; calls = calls })

  unfoldable pub call : {A : Type 0} → Exec W Error A → Exec (Run W) Error A
  call m s = back s.calls (m s.world)

  unfoldable pub call_as : {A : Type 0} → (A → Call) → Exec W Error A → Exec (Run W) Error A
  call_as entry m s = back_with entry s.calls (m s.world)

  -- A call that changes the cluster is entered when it is made.
  unfoldable pub call_now : {A : Type 0} → Call → Exec W Error A → Exec (Run W) Error A
  call_now entry m s = back (entry ∷ s.calls) (m s.world)

module _ {W : Type 0} (services : Services W) where
  unfoldable pub clock : Exec (Run W) Error ℕ
  clock = call_as read_clock services.clock

  -- `revalidate_event`.
  unfoldable pub revalidate_event : (Value → Text) → Event → Exec (Run W) Error OwnershipCheck
  revalidate_event show event = call_as checked_ownership (do
    verdict ← services.validate_event event
    pure (classify_verdict show verdict event.generation))

  -- `services.scanner_client()`, and the operations of the client that it returns.
  unfoldable pub connect : Exec (Run W) Error (Unit {0})
  connect = call services.scanner_client

  unfoldable pub list_for_target_hash : Text → Exec (Run W) Error (List Value)
  list_for_target_hash hash = call_as (listed hash) (services.list_for_target_hash hash)

  unfoldable pub delete : Text → Exec (Run W) Error Bool
  delete name = call_now (deleting name) (services.delete name)

  unfoldable pub create : Value → Exec (Run W) Error CreateResult
  create body = call_now (creating body) (services.create body)

-- The entries that calls leave.
module _ {W A : Type 0} where
  back_with-Ends :
      (entry : A → Call) (calls : List Call) (x : Result Error A × W)
      → Ends (λ a s. s.calls ≡ entry a ∷ calls) (λ e s. Unit) (back_with entry calls x)
  back_with-Ends entry calls (ok a, w) = refl
  back_with-Ends entry calls (err e, w) = tt

  pub call_as-Ends :
      (entry : A → Call) (m : Exec W Error A) (s : Run W)
      → Ends (λ a s'. s'.calls ≡ entry a ∷ s.calls) (λ e s'. Unit) (call_as entry m s)
  unfolding call_as
  call_as-Ends entry m s = back_with-Ends entry s.calls (m s.world)

  back-Ends :
      (calls : List Call) (x : Result Error A × W)
      → Ends (λ a s. s.calls ≡ calls) (λ e s. Unit) (back calls x)
  back-Ends calls (ok a, w) = refl
  back-Ends calls (err e, w) = tt

  pub call-Ends :
      (m : Exec W Error A) (s : Run W) → Ends (λ a s'. s'.calls ≡ s.calls) (λ e s'. Unit) (call m s)
  unfolding call
  call-Ends m s = back-Ends s.calls (m s.world)

  pub call_now-Ends :
      (entry : Call) (m : Exec W Error A) (s : Run W)
      → Ends (λ a s'. s'.calls ≡ entry ∷ s.calls) (λ e s'. Unit) (call_now entry m s)
  unfolding call_now
  call_now-Ends entry m s = back-Ends (entry ∷ s.calls) (m s.world)

  back-calls : (calls : List Call) (x : Result Error A × W) → (back calls x).1.calls ≡ calls
  back-calls calls (ok a, w) = refl
  back-calls calls (err e, w) = refl

  pub call-calls : (m : Exec W Error A) (s : Run W) → (call m s).1.calls ≡ s.calls
  unfolding call
  call-calls m s = back-calls s.calls (m s.world)

  pub call_now-calls :
      (entry : Call) (m : Exec W Error A) (s : Run W)
      → (call_now entry m s).1.calls ≡ entry ∷ s.calls
  unfolding call_now
  call_now-calls entry m s = back-calls (entry ∷ s.calls) (m s.world)

  back_with-holds :
      (Q : List Call → Type 0) (entry : A → Call) (calls : List Call) (x : Result Error A × W)
      → ((a : A) → Q (entry a ∷ calls))
      → Q calls
      → Q (back_with entry calls x).1.calls
  back_with-holds Q entry calls (ok a, w) h k = h a
  back_with-holds Q entry calls (err e, w) h k = k

  pub call_as-holds :
      (Q : List Call → Type 0) (entry : A → Call) (m : Exec W Error A) (s : Run W)
      → ((a : A) → Q (entry a ∷ s.calls))
      → Q s.calls
      → Q (call_as entry m s).1.calls
  unfolding call_as
  call_as-holds Q entry m s h k = back_with-holds Q entry s.calls (m s.world) h k

  back_with-entries :
      (entry : A → Call) (calls : List Call) (x : Result Error A × W)
      → Ends (λ a s. s.calls ≡ entry a ∷ calls) (λ e s. s.calls ≡ calls) (back_with entry calls x)
  back_with-entries entry calls (ok a, w) = refl
  back_with-entries entry calls (err e, w) = refl

  pub call_as-entries :
      (entry : A → Call) (m : Exec W Error A) (s : Run W)
      → Ends (λ a s'. s'.calls ≡ entry a ∷ s.calls) (λ e s'. s'.calls ≡ s.calls) (call_as entry m s)
  unfolding call_as
  call_as-entries entry m s = back_with-entries entry s.calls (m s.world)
