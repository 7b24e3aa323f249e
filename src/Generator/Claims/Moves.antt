-- ===== src/Generator/Claims/Moves.antt =====
-- What the workers do to an item of the claim table, between them and in any order: the writes of
-- idempotency.py as a step relation. DynamoDB makes each conditional write at once.
use portscanner.Prelude.{ℕ, ◌≡◌, refl, ◌≢◌, ◌⊎◌, Bool, true, false, Option, none, some, arith}
use portscanner.Prelude.Text.{Text, text_eq}
use portscanner.Prelude.Value.{str}
use portscanner.Prelude.Result.{ok, err}
use portscanner.Generator.Error.{Error}
use portscanner.Generator.Claims.Item.{
  ClaimState, claimed, retryable, dispatched, state_text, is_terminal, Item, EventClaim, Request,
  StoreConfig, seconds, ClaimTable, reacquirable, owned_by, reacquire_change, complete_change,
  retryable_change,
}
use portscanner.Generator.Claims.Store.{fresh_item}

pub data Move : Option Item → Option Item → Type 0 where
  create :
      (sha256 : Text → Text) (config : StoreConfig) (r : Request) (now : ℕ)
      → Move none (some (fresh_item sha256 config r now))
  reacquire :
      (hash owner : Text) (lease now expires : ℕ) (i : Item)
      → reacquirable hash (seconds now) i ≡ true
      → Move (some i) (some (reacquire_change owner lease now expires i))
  finish :
      (claim : EventClaim) (s : ClaimState) (now : ℕ) (verdict : Text) (scanner : Option Text)
      (cancelled_count : ℕ) (i : Item)
      → is_terminal s ≡ true
      → owned_by claim i ≡ true
      → Move (some i) (some (complete_change s now verdict scanner cancelled_count i))
  release :
      (claim : EventClaim) (now : ℕ) (error_code : Text) (i : Item)
      → owned_by claim i ≡ true
      → Move (some i) (some (retryable_change now error_code i))

pub data Moves (a : Option Item) : Option Item → Type 0 where
  here : Moves a a
  next : {b c : Option Item} → Moves a b → Move b c → Moves a c

pub Moves-trans : {a b c : Option Item} → Moves a b → Moves b c → Moves a c
Moves-trans h here = h
Moves-trans h (next m s) = next (Moves-trans h m) s

-- The item is in a terminal state.
pub record IsFinished (i : Item) (s : ClaimState) : Type 0 where
  pub terminal : is_terminal s ≡ true
  pub named : i.state ≡ str (state_text s)

-- A finished item is neither claimed nor retryable, so no write applies to it.
not_claimed :
    (s : ClaimState) → is_terminal s ≡ true → text_eq (state_text s) (state_text claimed) ≡ false
unfolding state_text
not_claimed claimed h = absurd (cc)
not_claimed retryable h = absurd (cc)
not_claimed dispatched h = refl
not_claimed _ h = refl

not_retryable :
    (s : ClaimState) → is_terminal s ≡ true → text_eq (state_text s) (state_text retryable) ≡ false
unfolding state_text
not_retryable claimed h = absurd (cc)
not_retryable retryable h = absurd (cc)
not_retryable dispatched h = refl
not_retryable _ h = refl

pub IsFinished-not_owned :
    (claim : EventClaim) (i : Item) (s : ClaimState) → IsFinished i s → owned_by claim i ≡ false
unfolding owned_by
IsFinished-not_owned claim i s h = rw h.named (rw (not_claimed s h.terminal) (ground arith))

pub IsFinished-not_reacquirable :
    (hash : Text) (at : ℕ) (i : Item) (s : ClaimState)
    → IsFinished i s
    → reacquirable hash at i ≡ false
unfolding reacquirable
IsFinished-not_reacquirable hash at i s h =
    rw h.named (rw (not_claimed s h.terminal, not_retryable s h.terminal) (ground arith))

finished_move :
    (i : Item) (s : ClaimState) → IsFinished i s → {b : Option Item} → Move (some i) b → ⊥
finished_move i s h (reacquire hash owner lease now expires _ e) =
    cc (IsFinished-not_reacquirable hash (seconds now) i s h)
finished_move i s h (finish claim t now verdict scanner cancelled_count _ k e) =
    cc (IsFinished-not_owned claim i s h)
finished_move i s h (release claim now error_code _ e) = cc (IsFinished-not_owned claim i s h)

-- A finished item stays as it is, whatever the workers do.
pub finished_stays :
    (i : Item) (s : ClaimState) {b : Option Item} → IsFinished i s → Moves (some i) b → b ≡ some i
finished_stays i s h here = refl
finished_stays i s h (next m step) =
    absurd (finished_move i s h (rw (finished_stays i s h m) at step))

-- What the code relies on of the table, until DynamoDB deletes an item whose `expires_at` is past: the
-- laws leave such a deletion out. Other workers may move any item during a call; a write that is
-- reported done was applied once, when its condition held; one that fails may still have been applied.
module _ {W : Type 0} (table : ClaimTable W) where
  -- The item of the key, before and after a conditional write of it.
  pub record Written (before after : Option Item) (test : Item → Bool) (change : Item → Item)
      : Type 0 where
    pub found : Item
    pub reached : Moves before (some found)
    pub passed : test found ≡ true
    pub written : after ≡ some (change found)

  pub record IsTable : Type 0 where
    pub get_moves :
        (key k : Text) (w : W) → Moves (table.item w k) (table.item (table.get_item key w).1 k)
    pub get_reads :
        (key : Text) (w : W) (o : Option Item)
        → (table.get_item key w).0 ≡ ok o
        → table.item (table.get_item key w).1 key ≡ o
    pub put_others :
        (key : Text) (i : Item) (k : Text) (w : W)
        → k ≢ key
        → Moves (table.item w k) (table.item (table.put_item key i w).1 k)
    pub put_done :
        (key : Text) (i : Item) (w : W)
        → (table.put_item key i w).0 ≡ ok tt
        → Moves (table.item w key) none × (table.item (table.put_item key i w).1 key ≡ some i)
    pub put_failed :
        (key : Text) (i : Item) (w : W) (e : Error)
        → (table.put_item key i w).0 ≡ err e
        → Moves (table.item w key) (table.item (table.put_item key i w).1 key)
          ⊎ (Moves (table.item w key) none × (table.item (table.put_item key i w).1 key ≡ some i))
    pub update_others :
        (key : Text) (test : Item → Bool) (change : Item → Item) (k : Text) (w : W)
        → k ≢ key
        → Moves (table.item w k) (table.item (table.update_item key test change w).1 k)
    pub update_done :
        (key : Text) (test : Item → Bool) (change : Item → Item) (w : W)
        → (table.update_item key test change w).0 ≡ ok tt
        → Written
            (table.item w key)
            (table.item (table.update_item key test change w).1 key)
            test
            change
    pub update_failed :
        (key : Text) (test : Item → Bool) (change : Item → Item) (w : W) (e : Error)
        → (table.update_item key test change w).0 ≡ err e
        → Moves (table.item w key) (table.item (table.update_item key test change w).1 key)
          ⊎ Written
              (table.item w key)
              (table.item (table.update_item key test change w).1 key)
              test
              change
