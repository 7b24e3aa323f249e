-- ===== src/Inventory/Snapshot/Reconciliation.antt =====
-- `reconcile_snapshot` (handlers/snapshot.py).
use portscanner.Prelude.{
  ℕ, suc, Bool, true, false, ◌&&◌, ◌||◌, not, Option, none, some, List, [], ◌∷◌, ◌==◌, any, length,
  if◌then◌else◌,
}
use portscanner.Prelude.Text.{Text, codes, text_eq}
use portscanner.Prelude.Exec.{pure, lift, ◌>>=◌, ◌>>◌, when◌run◌otherwise◌}
use portscanner.Prelude.Result.{Result, ok, err, guard}
use portscanner.Inventory.Error.{StateError, value_error, key_error}
use portscanner.Inventory.Target.{
  NormalizedTarget, Codec, target_id_of, with_observation, state_signature,
}
use portscanner.Inventory.Event.{EventSource}
use portscanner.Inventory.Store.{ReconcileAction, revalidate, TargetState, ReconcileResult}
use portscanner.Inventory.Snapshot.{
  OwnershipVerdict, moved, inactive, stale, OwnershipCheck, SnapshotScope, SnapshotBatch,
  is_complete, ManagedCanary, canary_matches, snapshot_source, SnapshotOptions, Collaborators,
  Action, ask_collect, ask_reconcile, ask_remove, ask_confirm, list_current, validate,
}

-- The counts, the number of ownership checks, and the targets that were observed.
pub record Tally : Type 0 where
  pub added : ℕ
  pub changed : ℕ
  pub noop : ℕ
  pub removed : ℕ
  pub race : ℕ
  pub revalidated : ℕ
  pub observed_ids : List Text

-- `counts[action.value] += 1`: there is no such count_action for a revalidation.
unfoldable pub count_action : ReconcileAction → Tally → Result StateError Tally
count_action ReconcileAction.added c = ok (record c { added = suc c.added })
count_action ReconcileAction.changed c = ok (record c { changed = suc c.changed })
count_action ReconcileAction.noop c = ok (record c { noop = suc c.noop })
count_action ReconcileAction.removed c = ok (record c { removed = suc c.removed })
count_action ReconcileAction.race c = ok (record c { race = suc c.race })
count_action ReconcileAction.revalidate c = err key_error

abbrev pub gone : OwnershipVerdict → Bool
gone v = elim v [ inactive ↦ true | moved ↦ true | _ ↦ false ]

abbrev is_policy : Option Text → Bool
is_policy none = false
is_policy (some r) = text_eq r (codes "policy-or-lifecycle")

-- The live target of a check that is stale for its policy or lifecycle.
unfoldable pub live_target : OwnershipCheck → Option NormalizedTarget
live_target check = elim check.verdict [
  | stale ↦ if is_policy check.reason then check.current else none
  | _ ↦ none
]

abbrev is_active_owner : OwnershipVerdict → Bool
is_active_owner v = elim v [ OwnershipVerdict.active ↦ true | _ ↦ false ]

-- The state to check again, if the reconciliation asks for it.
unfoldable pub to_revalidate : ReconcileResult → Option TargetState
to_revalidate r = elim r.action [ revalidate ↦ r.state | _ ↦ none ]

abbrev or_now : Option ℕ → ℕ → ℕ
or_now (some at) now = at
or_now none now = now

abbrev observed : NormalizedTarget → ℕ → NormalizedTarget
observed t now = elim t.observed_at [ some at ↦ t | none ↦ with_observation now t ]

abbrev is_selected_ip : Option Text → Text → Bool
is_selected_ip none ip = true
is_selected_ip (some selected) ip = text_eq ip selected

abbrev is_canary : Option ManagedCanary → NormalizedTarget → Bool
is_canary none t = true
is_canary (some canary) t = canary_matches canary t

abbrev pub is_allowed : Option (Text → Bool) → Text → Bool
is_allowed none ip = true
is_allowed (some allowed) ip = allowed ip

abbrev as_canary : Option ManagedCanary → NormalizedTarget → NormalizedTarget
as_canary none t = t
as_canary (some canary) t = record t {
  candidate_ports = record { ranges = (canary.tcp_port, canary.tcp_port) ∷ []; full_tcp = false };
  managed_canary = true;
}

module _ (options : SnapshotOptions) where
  unfoldable pub is_selected : NormalizedTarget → Bool
  is_selected t =
      is_selected_ip options.target_public_ipv4 t.public_ip
      && is_canary options.managed_canary t
      && is_allowed options.target_allowed t.public_ip

  -- The selected targets, as the canary if there is one.
  unfoldable pub selected : List NormalizedTarget → List NormalizedTarget
  selected [] = []
  selected (t ∷ ts) =
      let rest = selected ts in
      if is_selected t then as_canary options.managed_canary t ∷ rest else rest

module _ {W : Type 0} (with_whom : Collaborators W) (codec : Codec)
    (digest : Text → Text → ℕ → ℕ → Text) (options : SnapshotOptions) (now : ℕ) where
  -- A live target replaces the state; `confirm` is what is done with a result that has a state.
  unfoldable pub apply_live : SnapshotScope → NormalizedTarget → Action W ReconcileResult
  apply_live scope live = do
    source ← lift (snapshot_source digest scope now now)
    ask_reconcile with_whom (with_observation now live) source now

  abbrev pub confirm_state : NormalizedTarget → Option TargetState → Action W (Unit {0})
  confirm_state t none = pure tt
  confirm_state t (some s) =
      when text_eq s.signature (state_signature codec t)
      run (do r ← ask_confirm with_whom s t now; pure tt)
      otherwise pure tt

  abbrev pub by_live :
      SnapshotScope
      → NormalizedTarget
      → TargetState
      → OwnershipCheck
      → Option NormalizedTarget
      → Action W ReconcileAction
  by_live scope t s check (some live) = do
    r ← apply_live scope live
    confirm_state t r.state
    pure r.action
  by_live scope t s check none =
      when is_active_owner check.verdict
      run (do r ← ask_confirm with_whom s t now; pure r.action)
      otherwise pure ReconcileAction.noop

  -- What the ownership check of an observed target leads to.
  unfoldable pub after_check :
      SnapshotScope
      → EventSource
      → NormalizedTarget
      → TargetState
      → OwnershipCheck
      → Action W ReconcileAction
  after_check scope source t s check =
      when gone check.verdict
      run (do r ← ask_remove with_whom s source now; pure r.action)
      otherwise by_live scope t s check (live_target check)

  abbrev pub by_result :
      SnapshotScope
      → EventSource
      → NormalizedTarget
      → Tally
      → ReconcileAction
      → Option TargetState
      → Action W Tally
  by_result scope source t c action none = lift (count_action action c)
  by_result scope source t c action (some s) = do
    check ← validate with_whom s.target_id s.generation
    after ← after_check scope source t s check
    lift (count_action after (record c { revalidated = suc c.revalidated }))

  -- One round of the first loop.
  unfoldable pub apply_observed :
      SnapshotScope → EventSource → NormalizedTarget → Tally → Action W Tally
  apply_observed scope source raw c = do
    target_source ← lift (snapshot_source digest scope now (or_now raw.observed_at now))
    r ← ask_reconcile with_whom (observed raw now) target_source now
    by_result scope source (observed raw now)
        (record c { observed_ids = target_id_of raw ∷ c.observed_ids }) r.action (to_revalidate r)

  unfoldable pub apply_all :
      SnapshotScope → EventSource → List NormalizedTarget → Tally → Action W Tally
  apply_all scope source [] c = pure c
  apply_all scope source (t ∷ ts) c = do
    counted ← apply_observed scope source t c
    apply_all scope source ts counted

  abbrev pub or_live : SnapshotScope → Tally → Option NormalizedTarget → Action W Tally
  or_live scope c none = pure c
  or_live scope c (some live) = do r ← apply_live scope live; lift (count_action r.action c)

  -- What the ownership check of an absent target leads to.
  unfoldable pub absent_check :
      SnapshotScope → EventSource → TargetState → OwnershipCheck → Tally → Action W Tally
  absent_check scope source s check c =
      when gone check.verdict
      run (do r ← ask_remove with_whom s source now; lift (count_action r.action c))
      otherwise or_live scope c (live_target check)

  -- One round of the second loop.
  unfoldable pub apply_absent : SnapshotScope → EventSource → TargetState → Tally → Action W Tally
  apply_absent scope source s c =
      when not (is_allowed options.target_allowed s.target.public_ip)
        || any (text_eq s.target_id) c.observed_ids
      run pure c
      otherwise (do
        check ← validate with_whom s.target_id s.generation
        absent_check scope source s check (record c { revalidated = suc c.revalidated }))

  unfoldable pub apply_absences :
      SnapshotScope → EventSource → List TargetState → Tally → Action W Tally
  apply_absences scope source [] c = pure c
  apply_absences scope source (s ∷ ss) c = do
    counted ← apply_absent scope source s c
    apply_absences scope source ss counted

  abbrev pub is_whole : Option Text → Bool
  is_whole none = true
  is_whole (some ip) = false

  -- The absences are looked at only for a complete snapshot of the whole scope.
  unfoldable pub apply_absences_if_whole : SnapshotBatch → EventSource → Tally → Action W Tally
  apply_absences_if_whole b source c =
      when is_complete b && is_whole options.target_public_ipv4
      run (do states ← list_current with_whom b.scope; apply_absences b.scope source states c)
      otherwise pure c

  abbrev exact : List NormalizedTarget → Bool
  exact ts = not options.require_exact_target || length ts == 1

  abbrev pub no_counts : Tally
  no_counts = record {
    added = 0;
    changed = 0;
    noop = 0;
    removed = 0;
    race = 0;
    revalidated = 0;
    observed_ids = [];
  }

  unfoldable pub reconcile_batch : SnapshotBatch → Action W Tally
  reconcile_batch b = do
    lift (guard (not options.require_exact_target || is_complete b) value_error)
    source ← lift (snapshot_source digest b.scope now now)
    lift (guard (exact (selected options b.targets)) value_error)
    counted ← apply_all b.scope source (selected options b.targets) no_counts
    apply_absences_if_whole b source counted

  unfoldable pub reconcile_snapshot : Action W Tally
  reconcile_snapshot = do b ← ask_collect with_whom; reconcile_batch b
