-- ===== src/Inventory/Ownership/Answers.antt =====
-- The checks that the answers and the states give (aws/ownership.py).
use mathlib.Core.List.{Mem, mem-cons_of_mem, mem-cons_self}
use portscanner.Prelude.{
  ℕ, ◌≡◌, refl, Bool, true, false, Option, none, some, List, [], ◌∷◌, inl, inr, Bool-cases, ◌⊎◌,
  ◌&&◌, ap, &&-true,
}
use portscanner.Prelude.Text.{Text, codes, text_eq, text_eq_sound, text_eq_iff}
use portscanner.Prelude.Text.Ascii.{lower}
use portscanner.Prelude.Value.{Value, get_key, is_mapping}
use portscanner.Prelude.Result.{Result, ok, err, ok_inj}
use portscanner.Inventory.Error.{StateError}
use portscanner.Inventory.Target.{NormalizedTarget, target_id_of}
use portscanner.Inventory.Store.{TargetState}
use portscanner.Inventory.Snapshot.{OwnershipCheck}
use portscanner.Inventory.Ownership.{
  Normalizer, is_not_found, current_state_matches, live_interface, by_interface, by_association,
  live_association, in_addresses, status_text, instance_state, by_instance, judge_current,
  current_of, lifecycle_is_active, is_same_policy, sole, mappings_in, items_in, in_reservations,
}
use portscanner.Inventory.Ownership.Validation.{not_found_or_unknown, matching, target_of}
use portscanner.Inventory.Ownership.Justified.{
  says_gone, says_active, IsSole, has_private_ip, addresses_of, Placed, IsAbsent, Displaced,
  no_address, no_association, other_address, not_in_use, IsInPlace,
}

-- Neither gone nor owned.
abbrev pub IsOpen : OwnershipCheck → Type 0
IsOpen c = (says_gone c.verdict ≡ false) × (says_active c.verdict ≡ false)

err_inj : {E A : Type 0} {a b : E} → ◌≡◌ {A = Result E A} (err a) (err b) → a ≡ b
err_inj h = cc

pub target_of-ok :
    (o : Option TargetState) (generation : ℕ) {t : NormalizedTarget}
    → target_of o generation ≡ ok t
    → (s : TargetState) × (o ≡ some s)
      × (current_state_matches (some s) generation ≡ true)
      × (s.target ≡ t)
target_of-ok none generation h = absurd (cc)
target_of-ok (some s) generation h = elim (Bool-cases (current_state_matches (some s) generation)) [
  | inl e ↦ (s, refl, e, ok_inj (rw e at h))
  | inr e ↦ absurd (cc (rw e at h))
]

pub target_of-err :
    (o : Option TargetState) (generation : ℕ) {c : OwnershipCheck}
    → target_of o generation ≡ err c
    → IsOpen c
target_of-err none generation h = rw (← err_inj h) (refl, refl)
target_of-err (some s) generation h =
    elim (Bool-cases (current_state_matches (some s) generation)) [
      | inl e ↦ absurd (cc (rw e at h))
      | inr e ↦ rw (← err_inj (rw e at h)) (refl, refl)
    ]

pub matching-ok :
    (live : Option NormalizedTarget) (reason : Text) (o : Option TargetState) (generation : ℕ)
    {u : Unit {0}}
    → matching live reason o generation ≡ ok u
    → current_state_matches o generation ≡ true
matching-ok live reason o generation h = elim (Bool-cases (current_state_matches o generation)) [
  | inl e ↦ e
  | inr e ↦ absurd (cc (rw e at h))
]

pub matching-err :
    (live : Option NormalizedTarget) (reason : Text) (o : Option TargetState) (generation : ℕ)
    {c : OwnershipCheck}
    → matching live reason o generation ≡ err c
    → IsOpen c
matching-err live reason o generation h = elim (Bool-cases (current_state_matches o generation)) [
  | inl e ↦ absurd (cc (rw e at h))
  | inr e ↦ rw (← err_inj (rw e at h)) (refl, refl)
]

pub current_of-ok :
    (target_id : Text) (ts : List NormalizedTarget) {t : NormalizedTarget}
    → current_of target_id ts ≡ ok t
    → target_id_of t ≡ target_id
unfolding current_of
current_of-ok target_id [] h = absurd (cc)
current_of-ok target_id (x ∷ xs) h = elim (Bool-cases (text_eq (target_id_of x) target_id)) [
  | inl e ↦
      let same : x ≡ _ = ok_inj (rw e at h) in
      rw (← same) (text_eq_sound (target_id_of x) target_id e)
  | inr e ↦ current_of-ok target_id xs (rw e at h)
]

pub current_of-err :
    (target_id : Text) (ts : List NormalizedTarget) {c : OwnershipCheck}
    → current_of target_id ts ≡ err c
    → IsOpen c
unfolding current_of
current_of-err target_id [] h = rw (← err_inj h) (refl, refl)
current_of-err target_id (x ∷ xs) h = elim (Bool-cases (text_eq (target_id_of x) target_id)) [
  | inl e ↦ absurd (cc (rw e at h))
  | inr e ↦ current_of-err target_id xs (rw e at h)
]

pub not_found_or_unknown-active :
    (reason : Text) (e : StateError) → says_active (not_found_or_unknown reason e).verdict ≡ false
not_found_or_unknown-active reason e = elim (Bool-cases (is_not_found e)) [
  | inl h ↦ rw h refl
  | inr h ↦ rw h refl
]

pub not_found_or_unknown-gone :
    (reason : Text) (e : StateError)
    → says_gone (not_found_or_unknown reason e).verdict ≡ true
    → is_not_found e ≡ true
not_found_or_unknown-gone reason e k = elim (Bool-cases (is_not_found e)) [
  | inl h ↦ h
  | inr h ↦ absurd (cc (rw h at k))
]

module _ (normalizer : Normalizer) where
  in_addresses-Placed :
      (expected : NormalizedTarget) (eni : Value) (vs : List Value) {o : Option Text}
      → in_addresses normalizer eni expected.private_ip vs ≡ (true, o)
      → Placed normalizer expected eni vs o
  in_addresses-Placed expected eni [] h =
      elim (Bool-cases (has_private_ip expected.private_ip eni)) [
        | inl e ↦ (eni, inr refl, e, ap (λ x. x.1) (rw e at h))
        | inr e ↦ absurd (cc (ap (λ x. x.0) (rw e at h)))
      ]
  in_addresses-Placed expected eni (v ∷ vs) h =
      elim (Bool-cases (is_mapping v && has_private_ip expected.private_ip v)) [
        | inl e ↦ (v, inl mem-cons_self, (&&-true (is_mapping v) _ e).1, ap (λ x. x.1) (rw e at h))
        | inr e ↦
            let (w, m, is, found) = in_addresses-Placed expected eni vs (rw e at h) in
            (w, later m, is, found)
      ]
    where
      later : {w : Value} → (Mem w vs ⊎ (w ≡ eni)) → (Mem w (v ∷ vs) ⊎ (w ≡ eni))
      later (inl m) = inl (mem-cons_of_mem v m)
      later (inr e) = inr e

  in_addresses-IsAbsent :
      (expected : NormalizedTarget) (eni : Value) (vs : List Value) {o : Option Text}
      → in_addresses normalizer eni expected.private_ip vs ≡ (false, o)
      → IsAbsent normalizer expected eni vs
  in_addresses-IsAbsent expected eni [] h =
      elim (Bool-cases (has_private_ip expected.private_ip eni)) [
        | inl e ↦ absurd (cc (ap (λ x. x.0) (rw e at h)))
        | inr e ↦ (e, refl)
      ]
  in_addresses-IsAbsent expected eni (v ∷ vs) h =
      elim (Bool-cases (is_mapping v && has_private_ip expected.private_ip v)) [
        | inl e ↦ absurd (cc (ap (λ x. x.0) (rw e at h)))
        | inr e ↦
            let (is_other, others) = in_addresses-IsAbsent expected eni vs (rw e at h) in
            (is_other, rw (e, others) refl)
      ]

  module _ (expected : NormalizedTarget) (eni : Value) where
    abbrev found_in : Bool × Option Text
    found_in = in_addresses normalizer eni expected.private_ip (addresses_of eni)

    -- What is said of an interface speaks against the target, and is not that it is owned.
    by_association-err :
        (p : Bool × Option Text) {c : OwnershipCheck}
        → found_in ≡ p
        → by_association normalizer expected eni p ≡ err c
        → (says_active c.verdict ≡ false) × Displaced normalizer expected eni
    by_association-err (false, live) q h = (
      rw (← err_inj h) refl,
      no_address (in_addresses-IsAbsent expected eni (addresses_of eni) q),
    )
    by_association-err (true, none) q h = (
      rw (← err_inj h) refl,
      no_association (in_addresses-Placed expected eni (addresses_of eni) q),
    )
    by_association-err (true, some live) q h = elim (Bool-cases (text_eq live expected.public_ip)) [
      | inr e ↦ (
        rw (← err_inj (rw e at h)) refl,
        other_address live (in_addresses-Placed expected eni (addresses_of eni) q)
            (λ p. cc ((text_eq_iff live expected.public_ip).1 p)),
      )
      | inl e ↦ elim (Bool-cases (text_eq (lower (status_text normalizer eni)) (codes "in-use"))) [
        | inr f ↦
            (rw (← err_inj (rw (e, f) at h)) refl, not_in_use (λ p. cc ((text_eq_iff _ _).1 p)))
        | inl f ↦ absurd (cc (rw (e, f) at h))
      ]
    ]

    by_association-ok :
        (p : Bool × Option Text) {v : Value}
        → found_in ≡ p
        → by_association normalizer expected eni p ≡ ok v
        → (eni ≡ v) × IsInPlace normalizer expected eni
    by_association-ok (false, live) q h = absurd (cc)
    by_association-ok (true, none) q h = absurd (cc)
    by_association-ok (true, some live) q h = elim (Bool-cases (text_eq live expected.public_ip)) [
      | inr e ↦ absurd (cc (rw e at h))
      | inl e ↦ elim (Bool-cases (text_eq (lower (status_text normalizer eni)) (codes "in-use"))) [
        | inr f ↦ absurd (cc (rw (e, f) at h))
        | inl f ↦ (
          ok_inj (rw (e, f) at h),
          (
            in_addresses-Placed expected eni (addresses_of eni)
                (rw (text_eq_sound live expected.public_ip e) at q),
            text_eq_sound _ _ f,
          ),
        )
      ]
    ]

  -- Only the one interface of an answer speaks against the target; an unclear answer leaves it open.
  pub live_interface-err :
      (expected : NormalizedTarget) (response : Value) {c : OwnershipCheck}
      → live_interface normalizer expected response ≡ err c
      → (says_active c.verdict ≡ false)
        × (says_gone c.verdict ≡ true
            → (eni : Value) × IsSole response eni × Displaced normalizer expected eni)
  unfolding live_interface live_association
  live_interface-err expected response h =
      by_sole (sole (mappings_in (items_in (get_key "NetworkInterfaces" response)))) refl h
    where
      by_sole :
          (o : Option Value) {c : OwnershipCheck}
          → sole (mappings_in (items_in (get_key "NetworkInterfaces" response))) ≡ o
          → by_interface normalizer expected o ≡ err c
          → (says_active c.verdict ≡ false)
            × (says_gone c.verdict ≡ true
                → (eni : Value) × IsSole response eni × Displaced normalizer expected eni)
      by_sole none q k = rw (← err_inj k) (refl, λ g. absurd (cc))
      by_sole (some eni) q k =
          let (not_active, against) = by_association-err expected eni _ refl k in
          (not_active, λ g. (eni, q, against))

  pub live_interface-ok :
      (expected : NormalizedTarget) (response : Value) {eni : Value}
      → live_interface normalizer expected response ≡ ok eni
      → IsSole response eni × IsInPlace normalizer expected eni
  unfolding live_interface live_association
  live_interface-ok expected response h =
      by_sole (sole (mappings_in (items_in (get_key "NetworkInterfaces" response)))) refl h
    where
      by_sole :
          (o : Option Value) {eni : Value}
          → sole (mappings_in (items_in (get_key "NetworkInterfaces" response))) ≡ o
          → by_interface normalizer expected o ≡ ok eni
          → IsSole response eni × IsInPlace normalizer expected eni
      by_sole none q k = absurd (cc)
      by_sole (some v) q k =
          let (same, placed) = by_association-ok expected v _ refl k in rw (← same) (q, placed)

  pub instance_state-err :
      (id : Text) (response : Value) {c : OwnershipCheck}
      → instance_state normalizer id response ≡ err c
      → IsOpen c
  unfolding instance_state
  instance_state-err id response h =
      by_sole (sole (in_reservations normalizer id (items_in (get_key "Reservations" response)))) h
    where
      by_sole :
          (o : Option Value) {c : OwnershipCheck} → by_instance normalizer o ≡ err c → IsOpen c
      by_sole none k = rw (← err_inj k) (refl, refl)
      by_sole (some v) k = elim (Bool-cases (is_mapping (get_key "State" v))) [
        | inl e ↦ absurd (cc (rw e at k))
        | inr e ↦ rw (← err_inj (rw e at k)) (refl, refl)
      ]

  pub judge_current-ok :
      (expected : NormalizedTarget) (generation : ℕ) (live : NormalizedTarget)
      {t : NormalizedTarget}
      → judge_current normalizer expected generation live ≡ ok t
      → (live ≡ t)
        × (lifecycle_is_active normalizer live.lifecycle ≡ true)
        × (is_same_policy normalizer expected live ≡ true)
  unfolding judge_current
  judge_current-ok expected generation live h =
      elim (Bool-cases (lifecycle_is_active normalizer live.lifecycle)) [
        | inr e ↦ absurd (cc (rw e at h))
        | inl e ↦ elim (Bool-cases (is_same_policy normalizer expected live)) [
          | inl f ↦ (ok_inj (rw (e, f) at h), e, f)
          | inr f ↦ absurd (cc (rw (e, f) at h))
        ]
      ]

  pub judge_current-err :
      (expected : NormalizedTarget) (generation : ℕ) (live : NormalizedTarget) {c : OwnershipCheck}
      → judge_current normalizer expected generation live ≡ err c
      → (says_active c.verdict ≡ false)
        × (says_gone c.verdict ≡ true
            → (c.current ≡ some live) × (lifecycle_is_active normalizer live.lifecycle ≡ false))
  unfolding judge_current
  judge_current-err expected generation live h =
      elim (Bool-cases (lifecycle_is_active normalizer live.lifecycle)) [
        | inr e ↦ rw (← err_inj (rw e at h)) (refl, λ g. (refl, e))
        | inl e ↦ elim (Bool-cases (is_same_policy normalizer expected live)) [
          | inl f ↦ absurd (cc (rw (e, f) at h))
          | inr f ↦ rw (← err_inj (rw (e, f) at h)) (refl, λ g. absurd (cc))
        ]
      ]
