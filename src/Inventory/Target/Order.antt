-- ===== src/Inventory/Target/Order.antt =====
-- What the order of two Config observations says of their versions (state.py).
use portscanner.Prelude.{
  ℕ, ◌≤◌, ◌≡◌, refl, Bool, true, false, ◌&&◌, not, Option, none, some, List, [], ◌∷◌, arith, ltb,
  Bool-cases, inl, inr, All, ◌⊎◌,
}
use portscanner.Prelude.Text.{Text, text_eq_refl}
use portscanner.Prelude.Result.{ok, ok_inj, Result-cases, Option-cases}
use portscanner.Inventory.Target.{
  NormalizedTarget, ObservationOrder, advances, not_newer, Comparison, compare_version,
  compare_groups, order_of, ordered_by_versions, config_observation_order, version_of, texts_eq,
  equals_version,
}

-- Both observations have a version of the component, and the incoming one is no older.
abbrev pub IsNoOlder : Option ℕ → Option ℕ → Type 0
IsNoOlder (some incoming) (some previous) = previous ≤ incoming
IsNoOlder _ _ = ⊥

compare_version-kept :
    (at : ℕ) (previous : Option ℕ) (c : Comparison)
    → (compare_version at previous c).regressed ≡ false
    → (compare_version at previous c).unknown ≡ false
    → (c.regressed ≡ false) × (c.unknown ≡ false) × IsNoOlder (some at) previous
unfolding compare_version
compare_version-kept at none c r u = absurd (cc)
compare_version-kept at (some p) c r u = (ground arith, u, ground arith)

-- The flags that the loop ends with show the flags that it began with, and each group's versions.
compare_groups-kept :
    (inc prev : List (Text × ℕ)) (groups : List Text) (c : Comparison) {last : Comparison}
    → compare_groups inc prev groups c ≡ ok last
    → last.regressed ≡ false
    → last.unknown ≡ false
    → (c.regressed ≡ false)
      × (c.unknown ≡ false)
      × All (λ g. IsNoOlder (version_of g inc) (version_of g prev)) groups
unfolding compare_groups
compare_groups-kept inc prev [] c h r u = (rw (ok_inj h) r, rw (ok_inj h) u, tt)
compare_groups-kept inc prev (g ∷ gs) c h r u = elim (Option-cases (version_of g inc)) [
  | inl e ↦ absurd (cc)
  | inr (at, e) ↦
      let (r₁, u₁, later) =
        compare_groups-kept inc prev gs (compare_version at (version_of g prev) c) (rw e at h) r
          u in
      let (r₂, u₂, now) = compare_version-kept at (version_of g prev) c r₁ u₁ in
      (r₂, u₂, (rw e now, later))
]

order_of-not_mixed :
    (changed : Bool) (c : Comparison) (o : ObservationOrder)
    → order_of changed c ≡ o
    → o ≡ advances
    → (c.unknown ≡ false) × (c.regressed ≡ false) × ((c.advanced ≡ true) ⊎ (changed ≡ true))
unfolding order_of
order_of-not_mixed changed c o h a = ground arith

abbrev pub AllNoOlder : NormalizedTarget → NormalizedTarget → Type 0
AllNoOlder incoming previous =
    IsNoOlder incoming.eni_observed_at previous.eni_observed_at
    × All
        (λ g.
          IsNoOlder (version_of g incoming.security_group_observed_at)
            (version_of g previous.security_group_observed_at))
        incoming.security_group_ids

ordered_by_versions-advances :
    (at : ℕ) (incoming previous : NormalizedTarget)
    → ordered_by_versions at incoming previous ≡ ok advances
    → IsNoOlder (some at) previous.eni_observed_at
      × All
          (λ g.
            IsNoOlder
              (version_of g incoming.security_group_observed_at)
              (version_of g previous.security_group_observed_at))
          incoming.security_group_ids
unfolding ordered_by_versions
ordered_by_versions-advances at incoming previous h =
    let changed = not (texts_eq incoming.security_group_ids previous.security_group_ids) in
    let start =
      compare_version at previous.eni_observed_at
        (record { advanced = false; regressed = false; unknown = false }) in
    elim (Bool-cases (changed && equals_version at previous.eni_observed_at)) [
      | inl e ↦ absurd (cc (ok_inj (rw e at h)))
      | inr e ↦
          elim (Result-cases (
            compare_groups incoming.security_group_observed_at previous.security_group_observed_at
              incoming.security_group_ids start)) [
                | inr (x, f) ↦ absurd (cc (rw (e, f) at h))
                | inl (last, f) ↦
                    let (u, r, some_advance) =
                      order_of-not_mixed changed last _ (ok_inj (rw (e, f) at h)) refl in
                    let (r₁, u₁, groups) =
                      compare_groups-kept incoming.security_group_observed_at
                        previous.security_group_observed_at incoming.security_group_ids start f r
                        u in
                    ((compare_version-kept at previous.eni_observed_at _ r₁ u₁).2, groups)
              ]
    ]

-- An observation that advances is no older in any part: it and the previous one have a version of the
-- interface and of each of its security groups, and none of its versions is older.
pub config_observation_order-advances :
    (incoming previous : NormalizedTarget)
    → config_observation_order incoming previous ≡ ok advances
    → AllNoOlder incoming previous
unfolding config_observation_order ordered_by_versions
config_observation_order-advances incoming previous h =
    elim (Option-cases incoming.eni_observed_at) [
      | inl e ↦ absurd (cc (rw e at h))
      | inr (at, e) ↦
          let (interface, groups) = ordered_by_versions-advances at incoming previous (rw e at h) in
          (rw e interface, groups)
    ]

ltb_irrefl : (n : ℕ) → ltb n n ≡ false
ltb_irrefl n = ground arith

texts_eq_refl : (ts : List Text) → texts_eq ts ts ≡ true
texts_eq_refl [] = refl
texts_eq_refl (t ∷ ts) = rw (text_eq_refl t) (texts_eq_refl ts)

-- The versions of an observation with itself: none differs.
compare_groups_self :
    (vs : List (Text × ℕ)) (groups : List Text)
    → All (λ g. (at : ℕ) × (version_of g vs ≡ some at)) groups
    → compare_groups vs vs groups (record { advanced = false; regressed = false; unknown = false })
      ≡ ok (record { advanced = false; regressed = false; unknown = false })
unfolding compare_groups compare_version
compare_groups_self vs [] h = refl
compare_groups_self vs (g ∷ gs) h = rw h.0.1 (rw (ltb_irrefl h.0.0) (compare_groups_self vs gs h.1))

-- A Config observation that is delivered again is not newer: compared with itself, a target with a
-- version of its interface and of each of its security groups is in order `not_newer`.
pub config_observation_order_self :
    (t : NormalizedTarget) (at : ℕ)
    → t.eni_observed_at ≡ some at
    → All (λ g. (v : ℕ) × (version_of g t.security_group_observed_at ≡ some v)) t.security_group_ids
    → config_observation_order t t ≡ ok not_newer
unfolding config_observation_order ordered_by_versions compare_version order_of
config_observation_order_self t at e h =
    rw (e, texts_eq_refl t.security_group_ids, ltb_irrefl at)
      (rw (compare_groups_self t.security_group_observed_at t.security_group_ids h) refl)
