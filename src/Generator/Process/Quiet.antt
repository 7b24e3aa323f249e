-- ===== src/Generator/Process/Quiet.antt =====
-- The stages that create no resource keep every property of the calls that the other calls keep
-- (handler.py, cancellation.py).
use portscanner.Prelude.{ℕ, Bool, Option, List, [], ◌∷◌}
use portscanner.Prelude.Text.{Text}
use portscanner.Prelude.Value.{Value}
use portscanner.Prelude.Exec.{Exec, Preserves, preserves_rules, Preserves-pure, Preserves-bind}
use portscanner.Prelude.Result.{Result}
use portscanner.Generator.Error.{Error}
use portscanner.Generator.Revalidation.{OwnershipCheck}
use portscanner.Generator.Claims.Item.{ClaimState, EventClaim, StoreConfig}
use portscanner.Generator.World.{
  Scan, Event, Services, Run, Call, read_clock, checked_ownership, listed, deleting, call, clock,
  revalidate_event, connect, list_for_target_hash, delete, call-calls, call_now-calls,
  call_as-holds,
}
use portscanner.Generator.Cancellation.{
  delete_all, cancel_matching_scanners, cancel_older_scanners, cancel_scanners_through_generation,
  cancel_event_scanner, CancellationResult,
}
use portscanner.Generator.Dispatch.{
  Hashes, retry_claim, give_back, complete_claim, cancel_own, cancel_by_check, cancel_terminal,
  settle, settle_final, expire,
}
use portscanner.Generator.Process.{prepare, check_or_give_back, acquire_claim, hashes_of}

-- A property of the calls that no call but a creation can break.
pub record Stable (Q : List Call → Type 0) : Type 0 where
  pub on_clock : (t : ℕ) (calls : List Call) → Q calls → Q (read_clock t ∷ calls)
  pub on_check :
      (c : OwnershipCheck) (calls : List Call) → Q calls → Q (checked_ownership c ∷ calls)
  pub on_list :
      (hash : Text) (rs : List Value) (calls : List Call) → Q calls → Q (listed hash rs ∷ calls)
  pub on_delete : (name : Text) (calls : List Call) → Q calls → Q (deleting name ∷ calls)

module _ {W : Type 0} (Q : List Call → Type 0) (stable : Stable Q) (services : Services W) where
  abbrev pub Holds : Run W → Type 0
  Holds s = Q s.calls

  pub call-Preserves : {A : Type 0} (m : Exec W Error A) → Preserves Holds (call m)
  call-Preserves m = record { at = λ s h. rw (call-calls m s) h }

  pub clock-Preserves : Preserves Holds (clock services)
  unfolding clock
  clock-Preserves = record {
    at = λ s h. call_as-holds Q read_clock services.clock s (λ t. stable.on_clock t s.calls h) h;
  }

  pub revalidate_event-Preserves :
      (show : Value → Text) (event : Event) → Preserves Holds (revalidate_event services show event)
  unfolding revalidate_event
  revalidate_event-Preserves show event = record {
    at = λ s h. call_as-holds Q checked_ownership _ s (λ c. stable.on_check c s.calls h) h;
  }

  pub connect-Preserves : Preserves Holds (connect services)
  unfolding connect
  connect-Preserves = call-Preserves services.scanner_client

  list-Preserves : (hash : Text) → Preserves Holds (list_for_target_hash services hash)
  unfolding list_for_target_hash
  list-Preserves hash = record {
    at = λ s h. call_as-holds Q (listed hash) _ s (λ rs. stable.on_list hash rs s.calls h) h;
  }

  delete-Preserves : (name : Text) → Preserves Holds (delete services name)
  unfolding delete
  delete-Preserves name = record {
    at = λ s h.
        rw (call_now-calls (deleting name) (services.delete name) s)
          (stable.on_delete name s.calls h);
  }

  ruleset calls_kept = (
    preserves_rules, call-Preserves, clock-Preserves, revalidate_event-Preserves, connect-Preserves,
    list-Preserves, delete-Preserves,
  )

  pub retry_claim-Preserves :
      (claim : EventClaim) (code : Text) → Preserves Holds (retry_claim services claim code)
  unfolding retry_claim
  retry_claim-Preserves claim code = search (calls_kept)

  pub give_back-Preserves :
      {A : Type 0} (claim : EventClaim) (code : Text) (verdict : Option Text)
      → Preserves Holds (give_back services {A = A} claim code verdict)
  unfolding give_back
  give_back-Preserves claim code verdict = search (calls_kept, retry_claim-Preserves)

  pub complete_claim-Preserves :
      (claim : EventClaim) (ended : ClaimState) (check : OwnershipCheck) (scanner : Option Text)
      (count : ℕ)
      → Preserves Holds (complete_claim services claim ended check scanner count)
  unfolding complete_claim
  complete_claim-Preserves claim ended check scanner count = search (calls_kept)

  module _ (sha256 : Text → Text) where
    delete_all-Preserves : (names : List Text) → Preserves Holds (delete_all services sha256 names)
    unfolding delete_all
    delete_all-Preserves [] = search (calls_kept)
    delete_all-Preserves (n ∷ ns) =
        Preserves-bind (delete services n) _ (delete-Preserves n) (λ gone.
          Preserves-bind (delete_all services sha256 ns) _ (delete_all-Preserves ns)
            (λ k. Preserves-pure _))

    cancel_matching-Preserves :
        (target_id : Text) (p : ℕ → Bool) (ex : List Text)
        → Preserves Holds (cancel_matching_scanners services sha256 target_id p ex)
    unfolding cancel_matching_scanners
    cancel_matching-Preserves target_id p ex = search (calls_kept, delete_all-Preserves)

    cancel_older-Preserves :
        (target_id : Text) (g : ℕ) (ex : List Text)
        → Preserves Holds (cancel_older_scanners services sha256 target_id g ex)
    unfolding cancel_older_scanners
    cancel_older-Preserves target_id g ex = search (calls_kept, cancel_matching-Preserves)

    cancel_through-Preserves :
        (target_id : Text) (g : ℕ) (ex : List Text)
        → Preserves Holds (cancel_scanners_through_generation services sha256 target_id g ex)
    unfolding cancel_scanners_through_generation
    cancel_through-Preserves target_id g ex = search (calls_kept, cancel_matching-Preserves)

    cancel_event-Preserves :
        (event_id : Text) → Preserves Holds (cancel_event_scanner services sha256 event_id)
    unfolding cancel_event_scanner
    cancel_event-Preserves event_id = search (calls_kept)

    ruleset cancels_kept = (
      calls_kept, cancel_older-Preserves, cancel_through-Preserves, cancel_event-Preserves,
      give_back-Preserves, complete_claim-Preserves,
    )

    cancel_own-Preserves : (event : Event) → Preserves Holds (cancel_own services sha256 event)
    unfolding cancel_own
    cancel_own-Preserves event = search (cancels_kept)

    cancel_by_check-Preserves :
        (event : Event) (check : OwnershipCheck) (name : Text)
        → Preserves Holds (cancel_by_check services sha256 event check name)
    unfolding cancel_by_check
    cancel_by_check-Preserves event check name = search (cancels_kept)

    cancel_terminal-Preserves :
        (event : Event) (check : OwnershipCheck)
        → Preserves Holds (cancel_terminal services sha256 event check)
    unfolding cancel_terminal
    cancel_terminal-Preserves event check = search (cancels_kept, cancel_by_check-Preserves)

    pub settle-Preserves :
        (event : Event) (h : Hashes) (claim : EventClaim) (check : OwnershipCheck)
        (ended : ClaimState) (code outcome : Text)
        → Preserves Holds (settle services sha256 event h claim check ended code outcome)
    unfolding settle
    settle-Preserves event h claim check ended code outcome =
        search (cancels_kept, cancel_terminal-Preserves) depth 7

    pub settle_final-Preserves :
        (event : Event) (h : Hashes) (claim : EventClaim) (check : OwnershipCheck)
        (c : CancellationResult)
        → Preserves Holds (settle_final services sha256 event h claim check c)
    unfolding settle_final
    settle_final-Preserves event h claim check c =
        search (cancels_kept, cancel_terminal-Preserves) depth 7

    pub expire-Preserves :
        (event : Event) (h : Hashes) (claim : EventClaim) (check : OwnershipCheck)
        (c : CancellationResult)
        → Preserves Holds (expire services sha256 event h claim check c)
    unfolding expire
    expire-Preserves event h claim check c = search (cancels_kept) depth 9

    module _ (store : StoreConfig) (show : Value → Text) (build : Event → Result Error Value) where
      pub prepare-Preserves :
          (event : Event) (claim : EventClaim) (check : OwnershipCheck)
          → Preserves Holds (prepare services store sha256 show build event claim check)
      unfolding prepare
      prepare-Preserves event claim check = search (cancels_kept, cancel_own-Preserves) depth 7

      pub check_or_give_back-Preserves :
          (event : Event) (claim : EventClaim) (code : Text)
          → Preserves Holds (check_or_give_back services store sha256 show build event claim code)
      unfolding check_or_give_back
      check_or_give_back-Preserves event claim code = search (cancels_kept)

      pub acquire_claim-Preserves :
          (event : Event) (scan : Option Scan) (now : ℕ)
          → Preserves Holds (acquire_claim services store sha256 show build event scan now)
      unfolding acquire_claim
      acquire_claim-Preserves event scan now = search (cancels_kept) depth 9

      pub hashes_of-Preserves :
          (event : Event) → Preserves Holds (hashes_of services store sha256 show build event)
      unfolding hashes_of
      hashes_of-Preserves event = search (cancels_kept) depth 7
