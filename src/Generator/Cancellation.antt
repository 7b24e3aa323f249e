-- ===== src/Generator/Cancellation.antt =====
-- Generation-aware cancellation of superseded Scanner resources
-- (generator/src/portscanner_generator/cancellation.py). SHA-256, as hexadecimal digits, is the
-- parameter `sha256`.
pub mod Scope
use portscanner.Prelude.{
  ℕ, zero, suc, ◌+◌, ◌≡◌, refl, Bool, true, false, ◌&&◌, ◌||◌, not, Option, none, some, List, [],
  ◌∷◌, ◌++◌, String, ltb, leb, ◌==◌, if◌then◌else◌, any,
}
use portscanner.Prelude.Text.{Text, codes, text_eq}
use portscanner.Prelude.Value.{Value, str, int, mapping, ℤ, pos, get_key, is_mapping}
use portscanner.Prelude.Exec.{Exec, pure, raise, lift, ◌>>=◌, ◌>>◌, when◌run◌otherwise◌}
use portscanner.Prelude.Result.{Result, ok, err}
use portscanner.Generator.Error.{Error, value_error, cancellation_error}
use portscanner.Generator.Claims.Item.{value_is}
use portscanner.Generator.World.{Services, Run, list_for_target_hash, delete}

abbrev pub take : ℕ → Text → Text
take zero s = []
take (suc n) [] = []
take (suc n) (c ∷ cs) = c ∷ take n cs

-- `identifier_hash` (scanner_resource.py).
abbrev pub identifier_hash : (Text → Text) → ℕ → Text → Result Error Text
identifier_hash sha256 length [] = err value_error
identifier_hash sha256 length (c ∷ cs) = ok (take length (sha256 (c ∷ cs)))

abbrev pub target_hash : (Text → Text) → Text → Result Error Text
target_hash sha256 target_id = identifier_hash sha256 52 target_id

-- A second step for `Result`, where the steps of `Exec` have the operator.
abbrev pub and_then : {A B : Type 0} → Result Error A → (A → Result Error B) → Result Error B
and_then (ok a) f = f a
and_then (err e) f = err e

abbrev pub scanner_name : (Text → Text) → Text → Result Error Text
scanner_name sha256 event_id =
    and_then (identifier_hash sha256 52 event_id) (λ h. ok (codes "scan-" ++ h))

pub record CancellationResult : Type 0 where
  pub matched : ℕ
  pub deleted : ℕ

-- An entry that must be an object.
abbrev pub object_at : String → Value → Result Error Value
object_at name v =
    if is_mapping (get_key name v) then ok (get_key name v) else err cancellation_error

abbrev pub positive : Value → Result Error ℕ
positive (int (pos (suc n))) = ok (suc n)
positive _ = err cancellation_error

-- `_resource_generation`.
unfoldable pub resource_generation : Value → Result Error ℕ
resource_generation resource =
    and_then (object_at "spec" resource) (λ spec.
      and_then (object_at "target" spec) (λ target. positive (get_key "generation" target)))

abbrev pub resource_name : Value → Result Error Text
resource_name (str (c ∷ cs)) = ok (c ∷ cs)
resource_name _ = err cancellation_error

abbrev pub metadata_of : Value → Result Error Value
metadata_of resource =
    if is_mapping resource then object_at "metadata" resource else err cancellation_error

-- What one round of the loop does with a resource: nothing, count it, or keep its name too.
pub data Judgement : Type 0 where
  other matched : Judgement
  candidate : Text → Judgement

unfoldable pub judge_matching : (ℕ → Bool) → List Text → Value → Value → Result Error Judgement
judge_matching generation_matches exclude_names resource metadata =
    and_then (resource_generation resource) (λ generation.
      if not (generation_matches generation)
      then ok matched
      else and_then (resource_name (get_key "name" metadata))
          (λ name. ok (if any (text_eq name) exclude_names then matched else candidate name)))

unfoldable pub judge : Text → (ℕ → Bool) → List Text → Value → Result Error Judgement
judge hash generation_matches exclude_names resource = and_then (metadata_of resource) (λ metadata.
    and_then (object_at "labels" metadata) (λ labels.
      if not (value_is (get_key "scanning.portscanner.io/target-hash" labels) hash)
      then ok other
      else judge_matching generation_matches exclude_names resource metadata))

abbrev pub add_judgement : Judgement → ℕ × List Text → ℕ × List Text
add_judgement other (n, names) = (n, names)
add_judgement matched (n, names) = (suc n, names)
add_judgement (candidate name) (n, names) = (suc n, name ∷ names)

-- The loop: the number of matched resources, and the candidates.
unfoldable pub collect : Text → (ℕ → Bool) → List Text → List Value → Result Error (ℕ × List Text)
collect hash generation_matches exclude_names [] = ok (0, [])
collect hash generation_matches exclude_names (resource ∷ rest) =
    let later = collect hash generation_matches exclude_names rest in
    and_then (judge hash generation_matches exclude_names resource)
      (λ j. and_then later (λ found. ok (add_judgement j found)))

-- `sorted(set(names))`: by code points, each name once.
text_lt : Text → Text → Bool
text_lt [] [] = false
text_lt [] (d ∷ ds) = true
text_lt (c ∷ cs) [] = false
text_lt (c ∷ cs) (d ∷ ds) = ltb c d || c == d && text_lt cs ds

unfoldable pub insert_name : Text → List Text → List Text
unfolding text_lt
insert_name n [] = n ∷ []
insert_name n (m ∷ ms) =
    if text_eq n m then m ∷ ms else if text_lt n m then n ∷ m ∷ ms else m ∷ insert_name n ms

unfoldable pub sorted_names : List Text → List Text
sorted_names [] = []
sorted_names (n ∷ ns) = insert_name n (sorted_names ns)

module _ {W : Type 0} (services : Services W) (sha256 : Text → Text) where
  -- `sum(1 for name in names if scanner_client.delete(name))`.
  unfoldable pub delete_all : List Text → Exec (Run W) Error ℕ
  delete_all [] = pure 0
  delete_all (name ∷ rest) = do
    gone ← delete services name
    n ← delete_all rest
    pure (if gone then suc n else n)

  -- `_cancel_matching_scanners`.
  unfoldable pub cancel_matching_scanners :
      Text → (ℕ → Bool) → List Text → Exec (Run W) Error CancellationResult
  cancel_matching_scanners target_id generation_matches exclude_names = do
    hash ← lift (target_hash sha256 target_id)
    resources ← list_for_target_hash services hash
    found ← lift (collect hash generation_matches exclude_names resources)
    deleted ← delete_all (sorted_names found.1)
    pure (record { matched = found.0; deleted = deleted })

  unfoldable pub cancel_older_scanners :
      Text → ℕ → List Text → Exec (Run W) Error CancellationResult
  cancel_older_scanners target_id accepted_generation exclude_names =
      when ltb accepted_generation 1
      run raise value_error
      otherwise cancel_matching_scanners target_id (λ g. ltb g accepted_generation) exclude_names

  unfoldable pub cancel_scanners_through_generation :
      Text → ℕ → List Text → Exec (Run W) Error CancellationResult
  cancel_scanners_through_generation target_id unsafe_generation exclude_names =
      when ltb unsafe_generation 1
      run raise value_error
      otherwise cancel_matching_scanners target_id (λ g. leb g unsafe_generation) exclude_names

  unfoldable pub cancel_event_scanner : Text → Exec (Run W) Error Bool
  cancel_event_scanner event_id = do
    name ← lift (scanner_name sha256 event_id)
    delete services name
