-- ===== src/Generator/Claims/Lawful.antt =====
-- The life of an item of the claim table, and that the claim store keeps to it (idempotency.py).
use portscanner.Prelude.{
  ℕ, ◌≡◌, refl, ◌≢◌, ◌⊎◌, inl, inr, Bool, true, false, ◌&&◌, ◌||◌, &&-true, Option, none, some,
}
use portscanner.Prelude.Text.{Text, codes, text_eq_sound}
use portscanner.Prelude.Value.{
  ℤ, pos, Value, null, boolean, int, number, str, mapping, object, sequence,
}
use portscanner.Generator.Claims.Item.{
  ClaimState, claimed, retryable, state_text, is_terminal, Item, EventClaim, Request, StoreConfig,
  ClaimTable, seconds, value_is, at_most, dynamodb_integer, number_at_most, add_one, reacquirable,
  owned_by, reacquire_change, complete_change, retryable_change,
}
use portscanner.Generator.Claims.Store.{fresh_item, acquire}
use portscanner.Generator.Claims.Moves.{
  Move, create, reacquire, finish, release, Moves, here, next, IsTable,
}
use portscanner.Generator.Claims.Guarantee.{acquire-Preserves}

-- An item that some owner holds, for an event with the hash.
pub record IsHeld (i : Item) : Type 0 where
  pub hash : Text
  pub owner : Text
  pub of_event : i.event_hash ≡ str hash
  pub is_claimed : i.state ≡ str (codes "CLAIMED")
  pub by_owner : i.claim_owner ≡ str owner

-- An item that nobody holds.
pub record IsFree (i : Item) : Type 0 where
  pub no_owner : i.claim_owner ≡ null
  pub no_lease : i.lease_expires_at ≡ null

-- The same event, and when it was first seen.
pub record IsSameEvent (i j : Item) : Type 0 where
  pub hashes : j.event_hash ≡ i.event_hash
  pub traces : j.trace_hash ≡ i.trace_hash
  pub targets : j.target_hash ≡ i.target_hash
  pub generations : j.generation ≡ i.generation
  pub creations : j.created_at ≡ i.created_at

pub record Leased (j : Item) : Type 0 where
  pub held : IsHeld j
  pub lease : ℕ
  pub until : j.lease_expires_at ≡ int (pos lease)

-- Released by its owner, or held under a lease that is over at the time.
abbrev pub IsLapsed : Item → ℕ → Type 0
IsLapsed i at =
    (i.state ≡ str (codes "RETRYABLE"))
    ⊎ ((n : ℤ) × (i.state ≡ str (codes "CLAIMED"))
        × (dynamodb_integer i.lease_expires_at ≡ some n)
        × (at_most n at ≡ true))

-- One write of an item: it is made, held in a first attempt; it is taken over once it has lapsed, in
-- another attempt; its holder ends it, in one of the states that are left to nobody, with a verdict;
-- or its holder releases it with an error.
pub data Lawful : Option Item → Option Item → Type 0 where
  begun : (j : Item) → Leased j → j.attempts ≡ int (pos 1) → Lawful none (some j)
  taken_over :
      (i j : Item)
      → IsSameEvent i j
      → IsLapsed i (seconds j.updated_at)
      → Leased j
      → j.attempts ≡ add_one i.attempts
      → Lawful (some i) (some j)
  ended :
      (i j : Item) (s : ClaimState) (verdict : Text)
      → IsSameEvent i j
      → IsHeld i
      → s ≢ claimed
      → s ≢ retryable
      → j.state ≡ str (state_text s)
      → IsFree j
      → j.attempts ≡ i.attempts
      → j.ownership_verdict ≡ some verdict
      → Lawful (some i) (some j)
  released :
      (i j : Item) (error_code : Text)
      → IsSameEvent i j
      → IsHeld i
      → j.state ≡ str (codes "RETRYABLE")
      → IsFree j
      → j.attempts ≡ i.attempts
      → j.last_error_code ≡ some error_code
      → j.ownership_verdict ≡ i.ownership_verdict
      → Lawful (some i) (some j)

-- The life of an item from one time to another.
pub data IsLawful (a : Option Item) : Option Item → Type 0 where
  still : IsLawful a a
  then_lawful : {b c : Option Item} → IsLawful a b → Lawful b c → IsLawful a c

pub value_is-eq : (v : Value) (t : Text) → value_is v t ≡ true → v ≡ str t
value_is-eq (str s) t h = rw (text_eq_sound s t h) refl
value_is-eq null t h = absurd (cc)
value_is-eq (boolean b) t h = absurd (cc)
value_is-eq (int i) t h = absurd (cc)
value_is-eq (number i) t h = absurd (cc)
value_is-eq (mapping fs) t h = absurd (cc)
value_is-eq (object s fs) t h = absurd (cc)
value_is-eq (sequence vs) t h = absurd (cc)

number_at_most-some :
    (v : Value) (at : ℕ)
    → number_at_most v at ≡ true
    → (n : ℤ) × (dynamodb_integer v ≡ some n) × (at_most n at ≡ true)
number_at_most-some v at h = by_number (dynamodb_integer v) refl h
  where
    by_number :
        (o : Option ℤ)
        → dynamodb_integer v ≡ o
        → (elim o [ some n ↦ at_most n at | none ↦ false ]) ≡ true
        → (n : ℤ) × (dynamodb_integer v ≡ some n) × (at_most n at ≡ true)
    by_number (some n) e k = (n, e, k)
    by_number none e k = absurd (cc)

owned_by-IsHeld : (claim : EventClaim) (i : Item) → owned_by claim i ≡ true → IsHeld i
unfolding owned_by state_text
owned_by-IsHeld claim i h =
    let (of_hash, rest) = &&-true (value_is i.event_hash claim.event_hash) _ h in
    let (running, of_owner) = &&-true (value_is i.state (codes "CLAIMED")) _ rest in
    record {
      hash = claim.event_hash;
      owner = claim.owner;
      of_event = value_is-eq i.event_hash claim.event_hash of_hash;
      is_claimed = value_is-eq i.state (codes "CLAIMED") running;
      by_owner = value_is-eq i.claim_owner claim.owner of_owner;
    }

reacquirable-IsLapsed :
    (hash : Text) (at : ℕ) (i : Item)
    → reacquirable hash at i ≡ true
    → (i.event_hash ≡ str hash) × IsLapsed i at
unfolding reacquirable state_text
reacquirable-IsLapsed hash at i h =
    let (of_hash, rest) = &&-true (value_is i.event_hash hash) _ h in
    (
      value_is-eq i.event_hash hash of_hash,
      by_state (value_is i.state (codes "RETRYABLE")) refl rest,
    )
  where
    by_state :
        (b : Bool)
        → value_is i.state (codes "RETRYABLE") ≡ b
        → (b || value_is i.state (codes "CLAIMED") && number_at_most i.lease_expires_at at) ≡ true
        → IsLapsed i at
    by_state true e k = inl (value_is-eq i.state (codes "RETRYABLE") e)
    by_state false e k =
        let (running, over) = &&-true (value_is i.state (codes "CLAIMED")) _ k in
        let (n, is, done) = number_at_most-some i.lease_expires_at at over in
        inr (n, value_is-eq i.state (codes "CLAIMED") running, is, done)

pub not_claimed : (s : ClaimState) → is_terminal s ≡ true → s ≢ claimed
not_claimed s h e = cc (rw e at h)

pub not_retryable : (s : ClaimState) → is_terminal s ≡ true → s ≢ retryable
not_retryable s h e = cc (rw e at h)

-- Every write of the claim store is one of the writes above.
Move-Lawful : {a b : Option Item} → Move a b → Lawful a b
unfolding fresh_item reacquire_change complete_change retryable_change state_text
Move-Lawful (create sha256 config r now) =
    begun (fresh_item sha256 config r now)
      (record {
        held = record {
          hash = sha256 r.event_id;
          owner = r.owner;
          of_event = refl;
          is_claimed = refl;
          by_owner = refl;
        };
        lease = _;
        until = refl;
      })
      refl
Move-Lawful (reacquire hash owner lease now expires i e) =
    let (of_hash, lapsed) = reacquirable-IsLapsed hash (seconds now) i e in
    taken_over i (reacquire_change owner lease now expires i)
      (record {
        hashes = refl;
        traces = refl;
        targets = refl;
        generations = refl;
        creations = refl;
      })
      lapsed
      (record {
        held = record {
          hash = hash;
          owner = owner;
          of_event = of_hash;
          is_claimed = refl;
          by_owner = refl;
        };
        lease = lease;
        until = refl;
      })
      refl
Move-Lawful (finish claim s now verdict scanner cancelled_count i terminal e) =
    ended i (complete_change s now verdict scanner cancelled_count i) s verdict
      (record {
        hashes = refl;
        traces = refl;
        targets = refl;
        generations = refl;
        creations = refl;
      })
      (owned_by-IsHeld claim i e) (not_claimed s terminal) (not_retryable s terminal) refl
      (record { no_owner = refl; no_lease = refl }) refl refl
Move-Lawful (release claim now error_code i e) =
    released i (retryable_change now error_code i) error_code
      (record {
        hashes = refl;
        traces = refl;
        targets = refl;
        generations = refl;
        creations = refl;
      })
      (owned_by-IsHeld claim i e) refl (record { no_owner = refl; no_lease = refl }) refl refl refl

pub Moves-IsLawful : {a b : Option Item} → Moves a b → IsLawful a b
Moves-IsLawful here = still
Moves-IsLawful (next m s) = then_lawful (Moves-IsLawful m) (Move-Lawful s)

module _ {W : Type 0} {table : ClaimTable W} (t : IsTable table) (k : Text) where
  -- Whatever the other workers of the claim table do, and however `acquire` ends, every item goes on only
  -- by lawful writes, one after the other: an item is made, held for an event by an owner under a lease in
  -- a first attempt; it is taken over, for the same event and in one attempt more, only when it was
  -- released or its lease was over by the time of the update; its holder ends it in a terminal state with
  -- a verdict, or releases it with an error, and then nobody holds it.
  pub acquire-IsLawful :
      (sha256 : Text → Text) (config : StoreConfig) (r : Request) (now : ℕ) (w : W)
      → IsLawful (table.item w k) (table.item (acquire table sha256 config r now w).1 k)
  acquire-IsLawful sha256 config r now w =
      Moves-IsLawful ((acquire-Preserves t k (table.item w k) sha256 config r now).at w here)
