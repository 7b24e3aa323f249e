-- ===== src/Inventory/Target.antt =====
-- Targets, and the order of the Config observations of one target
-- (inventory/src/portscanner_inventory/aws/normalize.py, `NormalizedTarget`; state.py,
-- `_config_observation_order`). A time is a number of microseconds since 1970. The JSON text of a
-- signature is the parameter `dumps`, SHA-256 is `sha256`; `loads` and `with_instance` read the
-- instance's state from the JSON text of a lifecycle and write it.
pub mod Order
use portscanner.Prelude.{
  ℕ, Bool, true, false, ◌&&◌, ◌||◌, not, Option, none, some, List, [], ◌∷◌, ◌++◌, ltb, ◌==◌,
  if◌then◌else◌, max,
}
use portscanner.Prelude.Text.{Text, codes, text_eq}
use portscanner.Prelude.Result.{Result, ok, err}
use portscanner.Inventory.Error.{StateError, value_error, key_error}

pub record CandidatePorts : Type 0 where
  pub ranges : List (ℕ × ℕ)
  pub full_tcp : Bool

abbrev pub all_ports : CandidatePorts
all_ports = record { ranges = (1, 65535) ∷ []; full_tcp = true }

pub record NormalizedTarget : Type 0 where
  pub account_id : Text
  pub region : Text
  pub network_interface_id : Text
  pub private_ip : Text
  pub public_ip : Text
  pub instance_id : Option Text
  pub lifecycle : Text
  pub security_group_ids : List Text
  pub policy_fingerprint : Text
  pub attachment_id : Option Text
  pub allocation_id : Option Text
  pub association_id : Option Text
  pub tags : List (Text × Text)
  pub candidate_ports : CandidatePorts
  pub managed_canary : Bool
  pub source_event_name : Option Text
  pub source_event_id : Option Text
  pub source_request_id : Option Text
  pub source_event_time : Option ℕ
  pub observed_at : Option ℕ
  pub eni_observed_at : Option ℕ
  pub security_group_observed_at : List (Text × ℕ)

abbrev pub target_id_of : NormalizedTarget → Text
target_id_of t =
    codes "aws:"
    ++ t.account_id
    ++ codes ":"
    ++ t.region
    ++ codes ":eni:"
    ++ t.network_interface_id
    ++ codes ":private-ip:"
    ++ t.private_ip

abbrev pub with_observation : ℕ → NormalizedTarget → NormalizedTarget
with_observation at t = record t { observed_at = some at }

-- What the standard library does with the JSON texts, and SHA-256. `instance_of` is the instance's
-- state in the JSON text of a lifecycle: `none` for a text that is no JSON, `some none` where it has
-- none.
pub record Codec : Type 0 where
  pub sha256 : Text → Text
  pub dumps : Text → Text → List Text → Text → Text
  pub observation_json : Option ℕ → List (Text × ℕ) → Text
  pub instance_of : Text → Option (Option Text)
  pub with_instance : Text → Text → Text

unfoldable pub state_signature : Codec → NormalizedTarget → Text
state_signature codec t =
    codec.sha256 (codec.dumps t.public_ip t.lifecycle t.security_group_ids t.policy_fingerprint)

abbrev pub texts_eq : List Text → List Text → Bool
texts_eq [] [] = true
texts_eq (a ∷ rest) (b ∷ others) = text_eq a b && texts_eq rest others
texts_eq _ _ = false

abbrev pub option_eq : Option Text → Option Text → Bool
option_eq none none = true
option_eq (some a) (some b) = text_eq a b
option_eq _ _ = false

unfoldable pub same_interface : NormalizedTarget → NormalizedTarget → Bool
same_interface a b =
    text_eq a.public_ip b.public_ip
    && option_eq a.instance_id b.instance_id
    && text_eq a.lifecycle b.lifecycle
    && texts_eq a.security_group_ids b.security_group_ids
    && option_eq a.attachment_id b.attachment_id
    && option_eq a.allocation_id b.allocation_id
    && option_eq a.association_id b.association_id

-- `preserving_component_versions`.
unfoldable pub preserving_component_versions :
    NormalizedTarget → NormalizedTarget → NormalizedTarget
preserving_component_versions t previous = record t {
  eni_observed_at = if same_interface t previous then previous.eni_observed_at else none;
  security_group_observed_at =
      if texts_eq t.security_group_ids previous.security_group_ids
        && text_eq t.policy_fingerprint previous.policy_fingerprint
      then previous.security_group_observed_at
      else [];
}

abbrev pub unknown_instance : Text
unknown_instance = codes "unknown"

-- The known instance state of the previous lifecycle, for one that is unknown.
abbrev pub known_lifecycle :
    Codec → NormalizedTarget → Option Text → Result StateError NormalizedTarget
known_lifecycle codec t none = err key_error
known_lifecycle codec t (some previous) =
    if text_eq previous unknown_instance
    then ok t
    else ok (record t { lifecycle = codec.with_instance t.lifecycle previous })

-- `preserving_known_lifecycle`, of what the two lifecycles say of the instance.
abbrev pub keep_lifecycle :
    Codec
    → NormalizedTarget
    → Option (Option Text)
    → Option (Option Text)
    → Result StateError NormalizedTarget
keep_lifecycle codec t (some (some current)) (some previous) =
    if text_eq current unknown_instance then known_lifecycle codec t previous else ok t
keep_lifecycle codec t _ _ = ok t

unfoldable pub preserving_known_lifecycle :
    Codec → NormalizedTarget → NormalizedTarget → Result StateError NormalizedTarget
preserving_known_lifecycle codec t previous =
    keep_lifecycle codec t (codec.instance_of t.lifecycle) (codec.instance_of previous.lifecycle)

-- The dictionary of the pairs: a later pair of the same key wins.
abbrev pub or_else : Option ℕ → Option ℕ → Option ℕ
or_else (some a) other = some a
or_else none other = other

unfoldable pub version_of : Text → List (Text × ℕ) → Option ℕ
version_of group [] = none
version_of group ((g, at) ∷ rest) =
    or_else (version_of group rest) (if text_eq group g then some at else none)

pub data ObservationOrder : Type 0 where
  advances not_newer mixed : ObservationOrder

-- The three flags of the loop.
pub record Comparison : Type 0 where
  pub advanced : Bool
  pub regressed : Bool
  pub unknown : Bool

-- The comparison of one component, of the version that the previous target has.
unfoldable pub compare_version : ℕ → Option ℕ → Comparison → Comparison
compare_version incoming none c = record c { unknown = true }
compare_version incoming (some previous) c = record c {
  advanced = c.advanced || ltb previous incoming;
  regressed = c.regressed || ltb incoming previous;
}

abbrev pub present_version : Option ℕ → Result StateError ℕ
present_version none = err value_error
present_version (some at) = ok at

abbrev pub then_ok :
    {A B : Type 0} → Result StateError A → (A → Result StateError B) → Result StateError B
then_ok (ok a) f = f a
then_ok (err e) f = err e

unfoldable pub compare_groups :
    List (Text × ℕ) → List (Text × ℕ) → List Text → Comparison → Result StateError Comparison
compare_groups incoming previous [] c = ok c
compare_groups incoming previous (group ∷ groups) c =
    then_ok (present_version (version_of group incoming)) (λ at.
      compare_groups incoming previous groups (compare_version at (version_of group previous) c))

unfoldable pub order_of : Bool → Comparison → ObservationOrder
order_of groups_changed c =
    if c.unknown || c.advanced && c.regressed
    then mixed
    else if c.advanced || groups_changed && not c.regressed
    then advances
    else not_newer

abbrev pub equals_version : ℕ → Option ℕ → Bool
equals_version at none = false
equals_version at (some previous) = at == previous

unfoldable pub ordered_by_versions :
    ℕ → NormalizedTarget → NormalizedTarget → Result StateError ObservationOrder
ordered_by_versions at incoming previous =
    let groups_changed = not (texts_eq incoming.security_group_ids previous.security_group_ids) in
    let start =
      compare_version at previous.eni_observed_at
        (record { advanced = false; regressed = false; unknown = false }) in
    if groups_changed && equals_version at previous.eni_observed_at
    then ok mixed
    else then_ok
        (compare_groups incoming.security_group_observed_at previous.security_group_observed_at
          incoming.security_group_ids start)
        (λ c. ok (order_of groups_changed c))

-- `_config_observation_order`.
unfoldable pub config_observation_order :
    NormalizedTarget → NormalizedTarget → Result StateError ObservationOrder
config_observation_order incoming previous =
    then_ok (present_version incoming.eni_observed_at)
      (λ at. ordered_by_versions at incoming previous)
