-- ===== src/Generator/Claims/Store.antt =====
-- The operations of `DynamoClaimStore` (generator/src/portscanner_generator/idempotency.py).
use portscanner.Prelude.{
  ℕ, ◌+◌, ◌*◌, Bool, true, false, ◌&&◌, not, Option, none, some, if◌then◌else◌,
}
use portscanner.Prelude.Text.{Text}
use portscanner.Prelude.Value.{ℤ, pos, int, str}
use portscanner.Prelude.Exec.{when◌run◌otherwise◌, Exec, pure, raise, lift, attempt, ◌>>=◌, ◌>>◌}
use portscanner.Prelude.Result.{Result, ok, err}
use portscanner.Generator.Error.{Error, value_error, claim_collision, claim_store_error, claim_lost}
use portscanner.Generator.Claims.Item.{
  ClaimState, state_text, is_terminal, ClaimDisposition, EventClaim, ClaimResult, Item, ClaimTable,
  Request, StoreConfig, seconds, dynamodb_integer, value_is, at_most, increment, item_state,
  is_claimed, is_retryable, reacquirable, owned_by, reacquire_change, complete_change,
  retryable_change, claim_key, on_conditional, claimed, acquired, duplicate, busy,
}

abbrev pub settled_result : ClaimDisposition → ClaimState → ClaimResult
settled_result d s = record { disposition = d; claim = none; state = some s }

abbrev pub present : Option Item → Result Error Item
present none = err claim_store_error
present (some i) = ok i

-- The item's state, once its hash is the event's.
unfoldable pub checked_item_state : Text → Item → Result Error ClaimState
unfolding item_state
checked_item_state hash i = if value_is i.event_hash hash then item_state i else err claim_collision

unfoldable pub lease_is_live : Item → ℕ → Bool
lease_is_live i now = elim (dynamodb_integer i.lease_expires_at) [
  | some n ↦ not (at_most n (seconds now))
  | none ↦ false
]

unfoldable pub after_race : Item → ClaimState → ℕ → Result Error ClaimResult
unfolding lease_is_live
after_race i s now =
    if is_terminal s
    then ok (settled_result duplicate s)
    else if is_claimed s && lease_is_live i now
    then ok (settled_result busy s)
    else err claim_store_error

unfoldable pub lease_is_expired : Item → ℕ → Bool
lease_is_expired i now = elim (dynamodb_integer i.lease_expires_at) [
  | some n ↦ at_most n (seconds now)
  | none ↦ false
]

abbrev pub next_attempt : Item → ℤ
next_attempt i = elim (dynamodb_integer i.attempts) [ some n ↦ increment n | none ↦ pos 2 ]

module _ (config : StoreConfig) where
  abbrev pub lease_end : ℕ → ℕ
  lease_end now = seconds now + config.lease_seconds

  abbrev pub audit_end : ℕ → ℕ
  audit_end now = seconds (now + config.audit_ttl_days * 86400000000)

unfoldable pub fresh_item : (Text → Text) → StoreConfig → Request → ℕ → Item
unfolding state_text
fresh_item sha256 config r now = record {
  event_hash = str (sha256 r.event_id);
  state = str (state_text claimed);
  claim_owner = str r.owner;
  lease_expires_at = int (pos (lease_end config now));
  attempts = int (pos 1);
  trace_hash = sha256 r.trace_id;
  target_hash = sha256 r.target_id;
  generation = r.generation;
  event_type = r.event_type;
  provider = r.provider;
  reason = r.reason;
  created_at = now;
  updated_at = now;
  expires_at = audit_end config now;
  ownership_verdict = none;
  cancelled_count = none;
  scanner_name = none;
  last_error_code = none;
}

abbrev pub acquired_result : (Text → Text) → Request → ℤ → ClaimResult
acquired_result sha256 r attempt = record {
  disposition = acquired;
  claim = some (record {
    key = claim_key (sha256 r.event_id);
    event_hash = sha256 r.event_id;
    owner = r.owner;
    attempt = attempt;
  });
  state = some claimed;
}

module _ {W : Type 0} (table : ClaimTable W) where
  -- `_get`.
  unfoldable pub get : Text → Exec W Error Item
  get key = do found ← table.get_item key; lift (present found)

  -- `_classify_after_race`.
  unfoldable pub classify_after_race : Text → Text → ℕ → Exec W Error ClaimResult
  classify_after_race key hash now = do
    i ← get key
    s ← lift (checked_item_state hash i)
    lift (after_race i s now)

  -- `complete` finds the item in the terminal state already, or has lost the claim.
  unfoldable pub complete_again : EventClaim → ClaimState → Exec W Error Bool
  unfolding state_text
  complete_again claim state = do
    existing ← get claim.key
    when value_is existing.event_hash claim.event_hash && value_is existing.state (state_text state)
        run pure false
        otherwise raise claim_lost

  unfoldable pub complete : EventClaim → ClaimState → ℕ → Text → Option Text → ℕ → Exec W Error Bool
  complete claim state now verdict scanner cancelled_count =
      when not (is_terminal state)
      run raise value_error
      otherwise attempt
          (do
            table.update_item claim.key (owned_by claim)
                (complete_change state now verdict scanner cancelled_count)
            pure true)
          (on_conditional (complete_again claim state))

  unfoldable pub mark_retryable : EventClaim → ℕ → Text → Exec W Error Bool
  mark_retryable claim now error_code =
      attempt
        (do
          table.update_item claim.key (owned_by claim) (retryable_change now error_code)
          pure true)
        (on_conditional (pure false))

module _ {W : Type 0} (table : ClaimTable W) (sha256 : Text → Text) (config : StoreConfig) where
  -- The second update of `acquire`, with what follows when its condition fails.
  unfoldable pub take_over : Request → ℕ → Item → Exec W Error ClaimResult
  take_over r now existing =
      let hash = sha256 r.event_id in
      attempt
        (do
          table.update_item (claim_key hash) (reacquirable hash (seconds now))
              (reacquire_change r.owner (lease_end config now) now (audit_end config now))
          pure (acquired_result sha256 r (next_attempt existing)))
        (on_conditional (classify_after_race table (claim_key hash) hash now))

  -- What `acquire` does with an item that it found.
  unfoldable pub judge_existing : Request → ℕ → Item → ClaimState → Exec W Error ClaimResult
  unfolding lease_is_expired
  judge_existing r now existing s =
      when is_terminal s
      run pure (settled_result duplicate s)
      otherwise (when is_claimed s && not (lease_is_expired existing now)
          run pure (settled_result busy s)
          otherwise (when not (is_retryable s) && not (lease_is_expired existing now)
              run raise claim_store_error
              otherwise take_over r now existing))

  unfoldable pub acquire_existing : Request → ℕ → Exec W Error ClaimResult
  acquire_existing r now = do
    existing ← get table (claim_key (sha256 r.event_id))
    s ← lift (checked_item_state (sha256 r.event_id) existing)
    judge_existing r now existing s

  unfoldable pub acquire : Request → ℕ → Exec W Error ClaimResult
  acquire r now =
      attempt
        (do
          table.put_item (claim_key (sha256 r.event_id)) (fresh_item sha256 config r now)
          pure (acquired_result sha256 r (pos 1)))
        (on_conditional (acquire_existing r now))
