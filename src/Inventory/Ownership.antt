-- ===== src/Inventory/Ownership.antt =====
-- The ownership check (inventory/src/portscanner_inventory/aws/ownership.py, `OwnershipValidator`): its
-- collaborators, a record of the calls, and what it makes of the answers of EC2, which are mappings
-- with lists. The normalization of an interface is the parameter `normalizer`.
pub mod Validation
pub mod Justified
pub mod Early
pub mod Sound
pub mod Answers
use portscanner.Prelude.{
  ℕ, Bool, true, false, ◌&&◌, ◌||◌, not, Option, none, some, List, [], ◌∷◌, ◌++◌, ◌==◌, any, all,
  if◌then◌else◌,
}
use portscanner.Prelude.Text.{Text, codes, text_eq}
use portscanner.Prelude.Text.Ascii.{lower}
use portscanner.Prelude.Value.{
  Value, null, mapping, str, sequence, get_key, is_mapping, is_true, text_of_value, list_of,
  equals_text, has_key,
}
use portscanner.Prelude.Exec.{Exec}
use portscanner.Prelude.Result.{Result, ok, err}
use portscanner.Inventory.Error.{StateError, client, value_error, key_error}
use portscanner.Inventory.Target.{NormalizedTarget, texts_eq, target_id_of}
use portscanner.Inventory.Store.{TargetState}
use portscanner.Inventory.Snapshot.{
  OwnershipVerdict, active, stale, moved, inactive, unknown, OwnershipCheck,
}

-- The four texts of the JSON object of a lifecycle: a missing one is none.
pub record Lifecycle : Type 0 where
  pub eni : Option Text
  pub attachment : Option Text
  pub instance_id : Option Text
  pub instance : Option Text

-- aws/normalize.py: `extract_security_group`, `normalize_network_interface` with the validator's tag
-- and interface settings, and `_lifecycle_object`; and `str` of a value that is no `str`.
pub record Normalizer : Type 0 where
  pub extract_security_group : Value → Result StateError (Text × Value)
  pub normalize :
      Value
      → Text
      → Text
      → List (Text × Value)
      → Option Text
      → Result StateError (List NormalizedTarget)
  pub lifecycle_object : Text → Option Lifecycle
  pub show : Value → Text

-- The state's store and EC2. A client is for an account and a region.
pub record Clients (W : Type 0) : Type 0 where
  pub get : Text → Exec W StateError (Option TargetState)
  pub ec2_client : Text → Text → Exec W StateError (Unit {0})
  pub describe_network_interfaces : Text → Text → Text → Exec W StateError Value
  pub describe_instances : Text → Text → Text → Exec W StateError Value
  pub describe_security_groups : Text → Text → List Text → Exec W StateError Value

pub data Call : Type 0 where
  read : Result StateError (Option TargetState) → Call
  interfaces instances : Result StateError Value → Call

-- `aws_error_code` and `is_not_found` of base.py.
unfoldable pub error_code : StateError → Text
error_code (client code reasons) = code
error_code value_error = codes "ValueError"
error_code key_error = codes "KeyError"

unfoldable pub is_not_found : StateError → Bool
is_not_found e = any (text_eq (error_code e)) (
    codes "InvalidAddress.NotFound"
    ∷ codes "InvalidAllocationID.NotFound"
    ∷ codes "InvalidAssociationID.NotFound"
    ∷ codes "InvalidGroup.NotFound"
    ∷ codes "InvalidInstanceID.NotFound"
    ∷ codes "InvalidNetworkInterfaceID.NotFound"
    ∷ [])

abbrev pub check_of : OwnershipVerdict → Text → OwnershipCheck
check_of verdict reason = record {
  verdict = verdict;
  current = none;
  reason = some reason;
  current_generation = none;
}

-- `_current_state_matches`.
unfoldable pub current_state_matches : Option TargetState → ℕ → Bool
current_state_matches none generation = false
current_state_matches (some s) generation =
    text_eq s.status (codes "active") && s.generation == generation

abbrev pub generation_of : Option TargetState → Option ℕ
generation_of none = none
generation_of (some s) = some s.generation

-- The mappings of a list.
abbrev pub mappings_in : List Value → List Value
mappings_in [] = []
mappings_in (v ∷ vs) = let rest = mappings_in vs in if is_mapping v then v ∷ rest else rest

abbrev pub items_in : Value → List Value
items_in (sequence vs) = list_of vs
items_in _ = []

abbrev pub sole : List Value → Option Value
sole (v ∷ []) = some v
sole _ = none

module _ (normalizer : Normalizer) where
  abbrev pub public_ip : Value → Option Text
  public_ip association =
      if is_mapping association && is_true (get_key "PublicIp" association)
      then some (text_of_value normalizer.show (get_key "PublicIp" association))
      else none

  abbrev pub in_addresses : Value → Text → List Value → Bool × Option Text
  in_addresses eni private_ip [] =
      if equals_text (get_key "PrivateIpAddress" eni) private_ip
      then (true, public_ip (get_key "Association" eni))
      else (false, none)
  in_addresses eni private_ip (v ∷ vs) =
      let rest = in_addresses eni private_ip vs in
      if is_mapping v && equals_text (get_key "PrivateIpAddress" v) private_ip
      then (true, public_ip (get_key "Association" v))
      else rest

  -- `_live_association`.
  unfoldable pub live_association : Value → Text → Bool × Option Text
  live_association eni private_ip =
      in_addresses eni private_ip (items_in (get_key "PrivateIpAddresses" eni))

  abbrev pub status_text : Value → Text
  status_text eni =
      if has_key "Status" eni then text_of_value normalizer.show (get_key "Status" eni) else []

  abbrev pub by_association :
      NormalizedTarget → Value → Bool × Option Text → Result OwnershipCheck Value
  by_association expected eni (false, live) = err (check_of moved (codes "private-ip-moved"))
  by_association expected eni (true, none) = err (check_of inactive (codes "association-removed"))
  by_association expected eni (true, some live) =
      if not (text_eq live expected.public_ip)
      then err (check_of moved (codes "public-ip-moved"))
      else if not (text_eq (lower (status_text eni)) (codes "in-use"))
      then err (check_of inactive (codes "eni-inactive"))
      else ok eni

  abbrev pub by_interface : NormalizedTarget → Option Value → Result OwnershipCheck Value
  by_interface expected none = err (check_of unknown (codes "ambiguous-eni"))
  by_interface expected (some eni) =
      by_association expected eni (live_association eni expected.private_ip)

  -- The interface of the target, or what is said without it.
  unfoldable pub live_interface : NormalizedTarget → Value → Result OwnershipCheck Value
  live_interface expected response =
      by_interface expected (sole (mappings_in (items_in (get_key "NetworkInterfaces" response))))

  abbrev instances_of : Text → List Value → List Value
  instances_of id [] = []
  instances_of id (v ∷ vs) =
      let rest = instances_of id vs in
      if is_mapping v && equals_text (get_key "InstanceId" v) id then v ∷ rest else rest

  abbrev pub in_reservations : Text → List Value → List Value
  in_reservations id [] = []
  in_reservations id (v ∷ vs) =
      let rest = in_reservations id vs in
      if is_mapping v then instances_of id (items_in (get_key "Instances" v)) ++ rest else rest

  abbrev name_of_state : Value → Text
  name_of_state v =
      if is_true (get_key "Name" v)
      then lower (text_of_value normalizer.show (get_key "Name" v))
      else codes "unknown"

  abbrev pub by_instance : Option Value → Result OwnershipCheck Text
  by_instance none = err (check_of unknown (codes "ambiguous-instance"))
  by_instance (some v) =
      if is_mapping (get_key "State" v)
      then ok (name_of_state (get_key "State" v))
      else err (check_of unknown (codes "ambiguous-instance"))

  -- The state of the instance.
  unfoldable pub instance_state : Text → Value → Result OwnershipCheck Text
  instance_state id response =
      by_instance (sole (in_reservations id (items_in (get_key "Reservations" response))))

abbrev is_text : Option Text → Text → Bool
is_text none t = false
is_text (some s) t = text_eq s t

abbrev same_text : Option Text → Option Text → Bool
same_text none none = true
same_text (some a) (some b) = text_eq a b
same_text _ _ = false

abbrev active_object : Option Lifecycle → Bool
active_object none = false
active_object (some l) =
    is_text l.eni (codes "in-use")
    && not (is_text l.attachment (codes "detached") || is_text l.attachment (codes "detaching"))
    && not (
        is_text l.instance (codes "shutting-down")
        || is_text l.instance (codes "stopped")
        || is_text l.instance (codes "stopping")
        || is_text l.instance (codes "terminated"))

abbrev matching_objects : Option Lifecycle → Option Lifecycle → Bool
matching_objects (some e) (some c) =
    same_text e.eni c.eni
    && same_text e.attachment c.attachment
    && same_text e.instance_id c.instance_id
    && (is_text e.instance (codes "unknown") || same_text e.instance c.instance)
matching_objects _ _ = false

module _ (normalizer : Normalizer) where
  unfoldable pub lifecycle_is_active : Text → Bool
  lifecycle_is_active lifecycle = active_object (normalizer.lifecycle_object lifecycle)

  unfoldable pub lifecycle_matches : Text → Text → Bool
  lifecycle_matches expected current =
      matching_objects (normalizer.lifecycle_object expected) (normalizer.lifecycle_object current)

  -- The same policy and lifecycle as expected.
  unfoldable pub is_same_policy : NormalizedTarget → NormalizedTarget → Bool
  is_same_policy expected current =
      lifecycle_matches expected.lifecycle current.lifecycle
      && texts_eq current.security_group_ids expected.security_group_ids
      && text_eq current.policy_fingerprint expected.policy_fingerprint

  unfoldable pub judge_current :
      NormalizedTarget → ℕ → NormalizedTarget → Result OwnershipCheck NormalizedTarget
  judge_current expected generation current =
      if not (lifecycle_is_active current.lifecycle)
      then err (record {
        verdict = inactive;
        current = some current;
        reason = some (codes "lifecycle");
        current_generation = none;
      })
      else if is_same_policy expected current
      then ok current
      else err (record {
        verdict = stale;
        current = some current;
        reason = some (codes "policy-or-lifecycle");
        current_generation = some generation;
      })

-- The target of the identifier among the live ones.
unfoldable pub current_of : Text → List NormalizedTarget → Result OwnershipCheck NormalizedTarget
current_of target_id [] = err (check_of unknown (codes "normalization-race"))
current_of target_id (t ∷ ts) =
    let rest = current_of target_id ts in if text_eq (target_id_of t) target_id then ok t else rest
