-- ===== src/Inventory/Ownership/Justified.antt =====
-- What a verdict of the ownership check rests on (aws/ownership.py).
use mathlib.Core.List.{Mem}
use portscanner.Prelude.{
  ℕ, ◌≡◌, ◌≢◌, ◌⊎◌, Bool, true, false, ◌&&◌, Option, none, some, List, ◌∷◌, any,
}
use portscanner.Prelude.Text.{Text, codes}
use portscanner.Prelude.Text.Ascii.{lower}
use portscanner.Prelude.Value.{Value, get_key, is_mapping, equals_text}
use portscanner.Prelude.Result.{ok, err}
use portscanner.Inventory.Error.{StateError}
use portscanner.Inventory.Target.{NormalizedTarget, target_id_of}
use portscanner.Inventory.Store.{TargetState}
use portscanner.Inventory.Snapshot.{OwnershipVerdict, active, inactive, moved, OwnershipCheck}
use portscanner.Inventory.Ownership.{
  Normalizer, Call, read, interfaces, instances, is_not_found, current_state_matches, items_in,
  mappings_in, sole, public_ip, status_text, lifecycle_is_active, is_same_policy,
}

abbrev pub says_gone : OwnershipVerdict → Bool
says_gone v = elim v [ inactive ↦ true | moved ↦ true | _ ↦ false ]

abbrev pub says_active : OwnershipVerdict → Bool
says_active v = elim v [ active ↦ true | _ ↦ false ]

-- The one interface of an answer.
abbrev pub IsSole : Value → Value → Type 0
IsSole response eni =
    sole (mappings_in (items_in (get_key "NetworkInterfaces" response))) ≡ some eni

abbrev pub has_private_ip : Text → Value → Bool
has_private_ip ip v = equals_text (get_key "PrivateIpAddress" v) ip

abbrev pub addresses_of : Value → List Value
addresses_of eni = items_in (get_key "PrivateIpAddresses" eni)

module _ (normalizer : Normalizer) (expected : NormalizedTarget) (eni : Value) where
  -- The private address is one of the interface's, with this public address, or none.
  abbrev pub Placed : List Value → Option Text → Type 0
  Placed vs o =
      (v : Value) × (Mem v vs ⊎ (v ≡ eni))
      × (has_private_ip expected.private_ip v ≡ true)
      × (public_ip normalizer (get_key "Association" v) ≡ o)

  -- The private address is none of the interface's.
  abbrev pub IsAbsent : List Value → Type 0
  IsAbsent vs =
      (has_private_ip expected.private_ip eni ≡ false)
      × (any (λ v. is_mapping v && has_private_ip expected.private_ip v) vs ≡ false)

  abbrev pub IsInUse : Type 0
  IsInUse = lower (status_text normalizer eni) ≡ codes "in-use"

  -- The interface speaks against the target: it has not the private address, or has it without a public
  -- address or with another one, or it is not in use.
  pub data Displaced : Type 0 where
    no_address : IsAbsent (addresses_of eni) → Displaced
    no_association : Placed (addresses_of eni) none → Displaced
    other_address :
        (ip : Text) → Placed (addresses_of eni) (some ip) → ip ≢ expected.public_ip → Displaced
    not_in_use : ¬ IsInUse → Displaced

  -- The interface has the private address with the public one, and is in use.
  abbrev pub IsInPlace : Type 0
  IsInPlace = Placed (addresses_of eni) (some expected.public_ip) × IsInUse

module _ (normalizer : Normalizer) (target_id : Text) (generation : ℕ) where
  -- EC2 does not know the interface or the instance; or the one interface of its answer speaks against
  -- the target; or the live target of the identifier is not active.
  pub data Evidence (expected : NormalizedTarget) (calls : List Call) (c : OwnershipCheck)
      : Type 0 where
    no_interface :
        (e : StateError)
        → Mem (interfaces (err e)) calls
        → is_not_found e ≡ true
        → Evidence expected calls c
    no_instance :
        (e : StateError)
        → Mem (instances (err e)) calls
        → is_not_found e ≡ true
        → Evidence expected calls c
    by_interface :
        (response eni : Value)
        → Mem (interfaces (ok response)) calls
        → IsSole response eni
        → Displaced normalizer expected eni
        → Evidence expected calls c
    by_lifecycle :
        (live : NormalizedTarget)
        → c.current ≡ some live
        → target_id_of live ≡ target_id
        → lifecycle_is_active normalizer live.lifecycle ≡ false
        → Evidence expected calls c

  -- The state was read as active in the generation, and there is evidence against its target.
  abbrev pub IsGone : OwnershipCheck → List Call → Type 0
  IsGone c calls =
      (initial : TargetState) × Mem (read (ok (some initial))) calls
      × (current_state_matches (some initial) generation ≡ true)
      × Evidence initial.target calls c

  -- The state was read as active in the generation, before EC2 was asked and as the last call; and
  -- the live target of the identifier is active, with the policy and lifecycle of the state, and its
  -- interface has the addresses of the state.
  abbrev pub IsOwned : OwnershipCheck → List Call → Type 0
  IsOwned c calls =
      (initial : TargetState) × (final : Option TargetState) × (live : NormalizedTarget)
      × (response : Value) × (eni : Value) × (before : List Call) × (calls
          ≡ read (ok final) ∷ before)
      × Mem (read (ok (some initial))) before
      × (current_state_matches (some initial) generation ≡ true)
      × (current_state_matches final generation ≡ true)
      × Mem (interfaces (ok response)) before
      × (IsSole response eni × IsInPlace normalizer initial.target eni)
      × (c.current ≡ some live)
      × (target_id_of live ≡ target_id)
      × (lifecycle_is_active normalizer live.lifecycle ≡ true)
      × (is_same_policy normalizer initial.target live ≡ true)

  abbrev pub IsJustified : OwnershipCheck → List Call → Type 0
  IsJustified c calls =
      ((says_gone c.verdict ≡ true) → IsGone c calls)
      × ((says_active c.verdict ≡ true) → IsOwned c calls)
