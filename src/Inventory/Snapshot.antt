-- ===== src/Inventory/Snapshot.antt =====
-- The reconciliation of a complete-scope snapshot
-- (inventory/src/portscanner_inventory/handlers/snapshot.py, `reconcile_snapshot`): what it works on,
-- its collaborators, and a record of the calls. `digest` is `deterministic_sha256` of a namespace, the
-- key of a scope and the two times.
pub mod Reconciliation
pub mod Grounds
pub mod Evidence
use portscanner.Prelude.{
  ℕ, suc, Bool, true, false, ◌&&◌, ◌||◌, not, Option, none, some, List, [], ◌∷◌, ◌++◌, ltb,
  if◌then◌else◌,
}
use portscanner.Prelude.Text.{Text, codes, text_eq}
use portscanner.Prelude.Exec.{Exec}
use portscanner.Prelude.Result.{Result, ok, err}
use portscanner.Prelude.Calls.{Logged, silently, making, returning}
use portscanner.Inventory.Error.{StateError, value_error, key_error}
use portscanner.Inventory.Target.{NormalizedTarget}
use portscanner.Inventory.Event.{EventSource}
use portscanner.Inventory.Store.{
  ReconcileAction, added, changed, noop, removed, race, revalidate, TargetState, ReconcileResult,
}

pub data OwnershipVerdict : Type 0 where
  active stale moved inactive unknown : OwnershipVerdict

pub record OwnershipCheck : Type 0 where
  pub verdict : OwnershipVerdict
  pub current : Option NormalizedTarget
  pub reason : Option Text
  pub current_generation : Option ℕ

pub record SnapshotScope : Type 0 where
  pub source : Text
  pub account_id : Option Text
  pub region : Option Text
  pub name : Option Text

pub data ScopeCompletion : Type 0 where
  complete partial failed : ScopeCompletion

pub record SnapshotBatch : Type 0 where
  pub scope : SnapshotScope
  pub targets : List NormalizedTarget
  pub completion : ScopeCompletion
  pub pages : ℕ

unfoldable pub is_complete : SnapshotBatch → Bool
is_complete b = elim b.completion [ complete ↦ true | _ ↦ false ]

abbrev or_star : Option Text → Text
or_star (some (c ∷ cs)) = c ∷ cs
or_star _ = codes "*"

-- `SnapshotScope.key`.
unfoldable pub scope_key : SnapshotScope → Text
scope_key s =
    s.source
    ++ codes ":"
    ++ or_star s.name
    ++ codes ":"
    ++ or_star s.account_id
    ++ codes ":"
    ++ or_star s.region

pub record ManagedCanary : Type 0 where
  pub account_id : Text
  pub region : Text
  pub network_interface_id : Text
  pub private_ip : Text
  pub public_ip : Text
  pub tag_key : Text
  pub tag_value : Text
  pub tcp_port : ℕ

-- The value of a tag: a later pair of the same key wins.
abbrev later_text : Option Text → Option Text → Option Text
later_text (some t) first = some t
later_text none first = first

unfoldable pub tag_of : Text → List (Text × Text) → Option Text
tag_of key [] = none
tag_of key ((k, v) ∷ rest) = later_text (tag_of key rest) (if text_eq k key then some v else none)

abbrev is_text : Option Text → Text → Bool
is_text none t = false
is_text (some s) t = text_eq s t

-- `ManagedCanary.matches`.
unfoldable pub canary_matches : ManagedCanary → NormalizedTarget → Bool
canary_matches c t =
    text_eq t.account_id c.account_id
    && text_eq t.region c.region
    && text_eq t.network_interface_id c.network_interface_id
    && text_eq t.private_ip c.private_ip
    && text_eq t.public_ip c.public_ip
    && is_text (tag_of c.tag_key t.tags) c.tag_value

-- `snapshot_source`.
unfoldable pub snapshot_source :
    (Text → Text → ℕ → ℕ → Text) → SnapshotScope → ℕ → ℕ → Result StateError EventSource
snapshot_source digest scope collected_at observation =
    if ltb collected_at observation
    then err value_error
    else ok (record {
      name = scope.source;
      event_id =
          digest (codes "portscanner.inventory.snapshot.v1") (scope_key scope) observation
            collected_at;
      request_id =
          digest (codes "portscanner.inventory.snapshot-request.v1") (scope_key scope) observation
            collected_at;
      event_time = observation;
      observed_at = observation;
    })

-- The keyword arguments.
pub record SnapshotOptions : Type 0 where
  pub target_public_ipv4 : Option Text
  pub require_exact_target : Bool
  pub target_allowed : Option (Text → Bool)
  pub managed_canary : Option ManagedCanary

-- The backend, the store of states and the ownership check.
pub record Collaborators (W : Type 0) : Type 0 where
  pub collect : Exec W StateError SnapshotBatch
  pub reconcile : NormalizedTarget → EventSource → ℕ → Exec W StateError ReconcileResult
  pub remove : TargetState → EventSource → ℕ → Exec W StateError ReconcileResult
  pub confirm_config_versions :
      TargetState → NormalizedTarget → ℕ → Exec W StateError ReconcileResult
  pub list_current : SnapshotScope → Exec W StateError (List TargetState)
  pub validate : Text → ℕ → Exec W StateError OwnershipCheck

-- A removal has an entry when it is asked for, the other calls when they have returned.
pub data Call : Type 0 where
  collected : SnapshotBatch → Call
  reconciled : ReconcileResult → Call
  removing : TargetState → Call
  listed : SnapshotScope → List TargetState → Call
  checked : Text → ℕ → OwnershipCheck → Call

abbrev pub Action : Type 0 → Type 0 → Type 0
Action W A = Exec (Logged W Call) StateError A

module _ {W : Type 0} (with_whom : Collaborators W) where
  unfoldable pub ask_collect : Action W SnapshotBatch
  ask_collect = returning collected with_whom.collect

  unfoldable pub ask_reconcile : NormalizedTarget → EventSource → ℕ → Action W ReconcileResult
  ask_reconcile t source now = returning reconciled (with_whom.reconcile t source now)

  unfoldable pub ask_remove : TargetState → EventSource → ℕ → Action W ReconcileResult
  ask_remove s source now = making (removing s) (with_whom.remove s source now)

  unfoldable pub ask_confirm : TargetState → NormalizedTarget → ℕ → Action W ReconcileResult
  ask_confirm s t now = silently (with_whom.confirm_config_versions s t now)

  unfoldable pub list_current : SnapshotScope → Action W (List TargetState)
  list_current scope = returning (listed scope) (with_whom.list_current scope)

  unfoldable pub validate : Text → ℕ → Action W OwnershipCheck
  validate target_id generation =
      returning (checked target_id generation) (with_whom.validate target_id generation)
