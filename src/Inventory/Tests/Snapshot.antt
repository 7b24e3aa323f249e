-- ===== src/Inventory/Tests/Snapshot.antt =====
-- A snapshot that finds a state absent, and the ownership check that finds its interface gone.
use portscanner.Prelude.{ℕ, false, none, some, [], ◌∷◌}
use portscanner.Prelude.Text.{Text, codes}
use portscanner.Prelude.Value.{null}
use portscanner.Prelude.Exec.{Preserves}
use portscanner.Prelude.Result.{ok, err}
use portscanner.Prelude.Calls.{Logged}
use portscanner.Inventory.Error.{StateError, client}
use portscanner.Inventory.Store.{removed, noop, result_of}
use portscanner.Inventory.Snapshot.{
  OwnershipCheck, inactive, SnapshotScope, SnapshotBatch, complete, SnapshotOptions, Collaborators,
  Call,
}
use portscanner.Inventory.Snapshot.Reconciliation.{reconcile_snapshot}
use portscanner.Inventory.Snapshot.Grounds.{Grounded}
use portscanner.Inventory.Snapshot.Evidence.Whole.{reconcile_snapshot-Grounded}
use portscanner.Inventory.Ownership.{Normalizer, Clients, check_of}
use portscanner.Inventory.Ownership.{Call as OwnershipCall}
use portscanner.Inventory.Tests.{codec, first_state}

abbrev scope : SnapshotScope
scope = record {
  source = codes "ec2";
  account_id = some (codes "111");
  region = some (codes "r");
  name = none;
}

abbrev batch : SnapshotBatch
batch = record { scope = scope; targets = []; completion = complete; pages = 1 }

abbrev options : SnapshotOptions
options = record {
  target_public_ipv4 = none;
  require_exact_target = false;
  target_allowed = none;
  managed_canary = none;
}

abbrev gone_check : OwnershipCheck
gone_check = check_of inactive (codes "eni-not-found")

abbrev with_whom : Collaborators (Unit {0})
with_whom = record {
  collect = λ w. (ok batch, w);
  reconcile = λ t source now w. (ok (result_of noop none), w);
  remove = λ s source now w. (ok (result_of removed (some s)), w);
  confirm_config_versions = λ s t now w. (ok (result_of noop (some s)), w);
  list_current = λ s w. (ok (first_state ∷ []), w);
  validate = λ target_id generation w. (ok gone_check, w);
}

abbrev digest : Text → Text → ℕ → ℕ → Text
digest namespace key observed collected = namespace

reconcile_snapshot-Grounded_example :
    Preserves
      (λ (s : Logged (Unit {0}) Call). Grounded options s.calls)
      (reconcile_snapshot with_whom codec digest options 5)
reconcile_snapshot-Grounded_example = reconcile_snapshot-Grounded with_whom codec digest options 5

abbrev not_found : StateError
not_found = client (codes "InvalidNetworkInterfaceID.NotFound") none

abbrev clients : Clients (Unit {0})
clients = record {
  get = λ target_id w. (ok (some first_state), w);
  ec2_client = λ account region w. (ok tt, w);
  describe_network_interfaces = λ account region id w. (err not_found, w);
  describe_instances = λ account region id w. (ok null, w);
  describe_security_groups = λ account region ids w. (ok null, w);
}

abbrev normalizer : Normalizer
normalizer = record {
  extract_security_group = λ v. ok ([], null);
  normalize = λ v account region groups instance. ok [];
  lifecycle_object = λ t. none;
  show = λ v. [];
}

abbrev at_first : Logged (Unit {0}) OwnershipCall
at_first = record { world = tt; calls = [] }
