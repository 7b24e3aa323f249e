-- ===== src/Inventory/Ownership/Validation.antt =====
-- `OwnershipValidator.validate` (aws/ownership.py): a check that is returned early leaves the rest.
use portscanner.Prelude.{
  ℕ, Bool, true, false, ◌&&◌, Option, none, some, List, [], ◌∷◌, any, all, ltb, ◌==◌, ◌||◌,
  if◌then◌else◌,
}
use portscanner.Prelude.Text.{Text, codes, text_eq}
use portscanner.Prelude.Value.{Value, get_key, is_mapping, is_true, text_of_value}
use portscanner.Prelude.Exec.{Exec, pure, lift, ◌>>=◌, ◌>>◌}
use portscanner.Prelude.Result.{Result, ok, err, guard}
use portscanner.Prelude.Calls.{Logged, silently, reporting}
use portscanner.Inventory.Error.{StateError, value_error}
use portscanner.Inventory.Target.{NormalizedTarget}
use portscanner.Inventory.Store.{TargetState}
use portscanner.Inventory.Snapshot.{active, stale, inactive, unknown, OwnershipCheck}
use portscanner.Inventory.Ownership.{
  Normalizer, Clients, Call, read, interfaces, instances, error_code, is_not_found, check_of,
  current_state_matches, generation_of, items_in, live_interface, instance_state, judge_current,
  current_of,
}

-- An exception of the store, or a check that is returned.
pub data Left : Type 0 where
  raised : StateError → Left
  returned : OwnershipCheck → Left

abbrev pub Action : Type 0 → Type 0 → Type 0
Action W A = Exec (Logged W Call) Left A

abbrev pub raising : {A : Type 0} → Result StateError A → Result Left A
raising (ok a) = ok a
raising (err e) = err (raised e)

abbrev pub returning_early : {A : Type 0} → Result OwnershipCheck A → Result Left A
returning_early (ok a) = ok a
returning_early (err c) = err (returned c)

abbrev pub turned :
    {A : Type 0} → (StateError → OwnershipCheck) → Result StateError A → Result Left A
turned check (ok a) = ok a
turned check (err e) = err (returned (check e))

abbrev pub finished : Result Left OwnershipCheck → Result StateError OwnershipCheck
finished (ok c) = ok c
finished (err (returned c)) = ok c
finished (err (raised e)) = err e

module _ {W : Type 0} where
  -- An action whose exceptions leave the check, and one whose exceptions are turned into checks.
  unfoldable pub or_raise : {A : Type 0} → Exec (Logged W Call) StateError A → Action W A
  or_raise m s = (raising (m s).0, (m s).1)

  unfoldable pub or_return :
      {A : Type 0} → (StateError → OwnershipCheck) → Exec (Logged W Call) StateError A → Action W A
  or_return check m s = (turned check (m s).0, (m s).1)

  unfoldable pub finish : Action W OwnershipCheck → Exec (Logged W Call) StateError OwnershipCheck
  finish m s = (finished (m s).0, (m s).1)

-- The check of an exception of EC2.
abbrev pub not_found_or_unknown : Text → StateError → OwnershipCheck
not_found_or_unknown reason e =
    if is_not_found e then check_of inactive reason else check_of unknown (error_code e)

abbrev pub unknown_error : StateError → OwnershipCheck
unknown_error e = check_of unknown (error_code e)

abbrev pub generation_check : Option NormalizedTarget → Text → Option TargetState → OwnershipCheck
generation_check current reason found = record {
  verdict = stale;
  current = current;
  reason = some reason;
  current_generation = generation_of found;
}

abbrev pub matching :
    Option NormalizedTarget → Text → Option TargetState → ℕ → Result OwnershipCheck (Unit {0})
matching current reason found generation =
    if current_state_matches found generation
    then ok tt
    else err (generation_check current reason found)

abbrev pub target_of : Option TargetState → ℕ → Result OwnershipCheck NormalizedTarget
target_of none generation = err (generation_check none (codes "generation") none)
target_of (some s) generation =
    if current_state_matches (some s) generation
    then ok s.target
    else err (generation_check none (codes "generation") (some s))

abbrev pub id_given : Option Text → Option Text
id_given (some (c ∷ cs)) = some (c ∷ cs)
id_given _ = none

unfoldable pub text_before : Text → Text → Bool
text_before [] [] = false
text_before [] (d ∷ ds) = true
text_before (c ∷ cs) [] = false
text_before (c ∷ cs) (d ∷ ds) = ltb c d || c == d && text_before cs ds

unfoldable pub insert_id : Text → List Text → List Text
insert_id id [] = id ∷ []
insert_id id (x ∷ xs) =
    let rest = insert_id id xs in
    if text_eq id x then x ∷ xs else if text_before id x then id ∷ x ∷ xs else x ∷ rest

module _ {W : Type 0} (clients : Clients W) (normalizer : Normalizer) where
  unfoldable pub read_state : Text → Action W (Option TargetState)
  read_state target_id = or_raise (reporting read (clients.get target_id))

  -- The client and the interface; an exception of either is one of the check's.
  unfoldable pub ask_interface : NormalizedTarget → Action W Value
  ask_interface expected = or_return (not_found_or_unknown (codes "eni-not-found")) (
      reporting interfaces (do
        clients.ec2_client expected.account_id expected.region
        clients.describe_network_interfaces expected.account_id expected.region
            expected.network_interface_id))

  unfoldable pub ask_instance : NormalizedTarget → Text → Action W Value
  ask_instance expected id =
      or_return (not_found_or_unknown (codes "instance-not-found"))
        (reporting instances (clients.describe_instances expected.account_id expected.region id))

  abbrev pub instance_of : NormalizedTarget → Option Text → Action W (Option Text)
  instance_of expected none = pure none
  instance_of expected (some id) = do
    response ← ask_instance expected id
    state ← lift (returning_early (instance_state normalizer id response))
    pure (some state)

  -- The identifiers of the groups of an interface, sorted, each one once.
  abbrev group_ids : List Value → List Text
  group_ids [] = []
  group_ids (v ∷ vs) =
      let rest = group_ids vs in
      if is_mapping v && is_true (get_key "GroupId" v)
      then insert_id (text_of_value normalizer.show (get_key "GroupId" v)) rest
      else rest

  abbrev extracted : List Value → Result StateError (List (Text × Value))
  extracted [] = ok []
  extracted (v ∷ vs) =
      let rest = extracted vs in
      if is_mapping v then add (normalizer.extract_security_group v) rest else rest
    where
      add :
          Result StateError (Text × Value)
          → Result StateError (List (Text × Value))
          → Result StateError (List (Text × Value))
      add (err e) rest = err e
      add (ok g) (err e) = err e
      add (ok g) (ok gs) = ok (g ∷ gs)

  abbrev has_group : Text → List (Text × Value) → Bool
  has_group id gs = any (λ g. text_eq g.0 id) gs

  -- `set(groups) != set(group_ids)`.
  abbrev same_groups : List Text → List (Text × Value) → Bool
  same_groups ids gs = all (λ id. has_group id gs) ids && all (λ g. any (text_eq g.0) ids) gs

  abbrev groups_of : NormalizedTarget → List Text → Exec W StateError (List (Text × Value))
  groups_of expected [] = pure []
  groups_of expected (id ∷ ids) = do
    response ← clients.describe_security_groups expected.account_id expected.region (id ∷ ids)
    groups ← lift (extracted (items_in (get_key "SecurityGroups" response)))
    lift (guard (same_groups (id ∷ ids) groups) value_error)
    pure groups

  -- `_groups` and the normalization of the interface.
  unfoldable pub live_targets :
      NormalizedTarget → Value → Option Text → Action W (List NormalizedTarget)
  live_targets expected eni instance = or_return unknown_error (
      silently (do
        groups ← groups_of expected (group_ids (items_in (get_key "Groups" eni)))
        lift (normalizer.normalize eni expected.account_id expected.region groups instance)))

  unfoldable pub validate_live : Text → ℕ → NormalizedTarget → Action W NormalizedTarget
  validate_live target_id generation expected = do
    response ← ask_interface expected
    eni ← lift (returning_early (live_interface normalizer expected response))
    instance ← instance_of expected (id_given expected.instance_id)
    values ← live_targets expected eni instance
    current ← lift (returning_early (current_of target_id values))
    lift (returning_early (judge_current normalizer expected generation current))

  unfoldable pub validate_steps : Text → ℕ → Action W OwnershipCheck
  validate_steps target_id generation = do
    initial ← read_state target_id
    expected ← lift (returning_early (target_of initial generation))
    current ← validate_live target_id generation expected
    final ← read_state target_id
    lift (returning_early (matching (some current) (codes "generation-race") final generation))
    pure (record {
      verdict = active;
      current = some current;
      reason = none;
      current_generation = some generation;
    })

  unfoldable pub validate_ownership : Text → ℕ → Exec (Logged W Call) StateError OwnershipCheck
  validate_ownership target_id generation = finish (validate_steps target_id generation)
