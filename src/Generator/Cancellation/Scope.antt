-- ===== src/Generator/Cancellation/Scope.antt =====
-- Which resources a cancellation deletes (cancellation.py): exactly the superseded ones of the target.
use portscanner.Prelude.{
  ℕ, zero, suc, ◌≤◌, ◌≡◌, refl, ◌∙◌, ap, ap₂, Bool, false, ◌&&◌, ◌||◌, not, List, [], ◌∷◌, String,
  ltb, leb, any, arith, Bool-cases, inl, inr,
}
use portscanner.Prelude.Text.{Text, text_eq, text_eq_iff}
use portscanner.Prelude.Value.{Value, str, int, pos, get_key, null}
use portscanner.Prelude.Exec.{Ends, Ends-bind, Ends-ok, Ends-when, Ends-weaken, pure, raise, lift}
use portscanner.Prelude.Result.{Result, ok, err}
use portscanner.Generator.Error.{Error}
use portscanner.Generator.Claims.Item.{value_is}
use portscanner.Generator.World.{
  Services, Run, Call, list_for_target_hash, delete, listed, deleting, call_as, call_now-Ends,
  call_as-Ends,
}
use portscanner.Generator.Cancellation.{
  target_hash, object_at, positive, resource_generation, resource_name, metadata_of, and_then,
  Judgement, other, matched, candidate, judge, judge_matching, add_judgement, collect, insert_name,
  sorted_names, delete_all, cancel_matching_scanners, cancel_older_scanners, CancellationResult,
  cancel_scanners_through_generation,
}

-- A generation that the code reads, with the test of it.
abbrev pub generation_passes : (ℕ → Bool) → Value → Bool
generation_passes p (int (pos (suc n))) = p (suc n)
generation_passes p _ = false

-- The resource carries the target's label, its generation passes the test, and `name` is its name,
-- which is not excluded.
pub is_superseded : Text → (ℕ → Bool) → List Text → Text → Value → Bool
is_superseded hash p excluded name r =
    value_is
      (get_key "scanning.portscanner.io/target-hash" (get_key "labels" (get_key "metadata" r))) hash
    && (generation_passes p (get_key "generation" (get_key "target" (get_key "spec" r)))
        && (value_is (get_key "name" (get_key "metadata" r)) name
            && not (any (text_eq name) excluded)))

abbrev names_candidate : Text → Judgement → Bool
names_candidate name (candidate m) = text_eq m name
names_candidate name _ = false

module _ {A B : Type 0} where
  and_then-ok :
      (m : Result Error A) (f : A → Result Error B) {b : B}
      → and_then m f ≡ ok b
      → (a : A) × (m ≡ ok a) × (f a ≡ ok b)
  and_then-ok (ok a) f h = (a, refl, h)
  and_then-ok (err e) f h = cc

object_at-ok : (name : String) (v o : Value) → object_at name v ≡ ok o → o ≡ get_key name v
object_at-ok name v o h = ground arith

metadata_of-ok : (r m : Value) → metadata_of r ≡ ok m → m ≡ get_key "metadata" r
metadata_of-ok r m h = ground arith

positive-ok : (p : ℕ → Bool) (v : Value) (n : ℕ) → positive v ≡ ok n → generation_passes p v ≡ p n
positive-ok p (int (pos zero)) n h = absurd (cc)
positive-ok p (int (pos (suc k))) n h = ground arith
positive-ok p _ n h = absurd (cc)

resource_generation-ok :
    (p : ℕ → Bool) (r : Value) (n : ℕ)
    → resource_generation r ≡ ok n
    → generation_passes p (get_key "generation" (get_key "target" (get_key "spec" r))) ≡ p n
unfolding resource_generation
resource_generation-ok p r n h =
    let (spec, e₁, h₁) = and_then-ok (object_at "spec" r) _ h in
    let (target, e₂, h₂) = and_then-ok (object_at "target" spec) _ h₁ in
    let spec_is = object_at-ok "spec" r spec e₁ in
    let target_is = object_at-ok "target" spec target e₂ in
    rw (← spec_is, ← target_is) (positive-ok p (get_key "generation" target) n h₂)

resource_name-ok : (v : Value) (m n : Text) → resource_name v ≡ ok m → value_is v n ≡ text_eq m n
resource_name-ok (str (c ∷ cs)) m n h = ground (arith)
resource_name-ok (str []) m n h = absurd (cc)
resource_name-ok null m n h = absurd (cc)
resource_name-ok _ m n h = absurd (cc)

pub text_eq_comm : (s t : Text) → text_eq s t ≡ text_eq t s
text_eq_comm [] [] = refl
text_eq_comm [] (d ∷ ds) = refl
text_eq_comm (c ∷ cs) [] = refl
text_eq_comm (c ∷ cs) (d ∷ ds) = ground (arith, text_eq_comm cs ds)

-- `name in exclude_names`, of a name that is the resource's.
excluded_same :
    (m n : Text) (ex : List Text)
    → (text_eq m n && not (any (text_eq n) ex)) ≡ (text_eq m n && not (any (text_eq m) ex))
excluded_same m n ex = elim (Bool-cases (text_eq m n)) [
  | inl same ↦ rw ((text_eq_iff m n).0 same) refl
  | inr differ ↦ rw differ refl
]

judge_matching-ok :
    (p : ℕ → Bool) (ex : List Text) (r m : Value) (n : Text) (j : Judgement)
    → judge_matching p ex r m ≡ ok j
    → names_candidate n j ≡ (
        generation_passes p (get_key "generation" (get_key "target" (get_key "spec" r)))
        && (value_is (get_key "name" m) n && not (any (text_eq n) ex)))
unfolding judge_matching
judge_matching-ok p ex r m n j h =
    let (g, e₁, h₁) = and_then-ok (resource_generation r) _ h in
    rw (resource_generation-ok p r g e₁) (elim (Bool-cases (p g)) [
      | inr fails ↦ rw fails (let h₂ = rw fails at h₁ in ground arith)
      | inl passes ↦
          let h₂ = rw passes at h₁ in
          let (name, e₂, h₃) = and_then-ok (resource_name (get_key "name" m)) _ h₂ in
          rw (passes, resource_name-ok (get_key "name" m) name n e₂, excluded_same name n ex)
            (ground arith)
    ])

judge-ok :
    (hash : Text) (p : ℕ → Bool) (ex : List Text) (r : Value) (n : Text) (j : Judgement)
    → judge hash p ex r ≡ ok j
    → names_candidate n j ≡ is_superseded hash p ex n r
unfolding judge is_superseded
judge-ok hash p ex r n j h =
    let (m, e₁, h₁) = and_then-ok (metadata_of r) _ h in
    let (l, e₂, h₂) = and_then-ok (object_at "labels" m) _ h₁ in
    let m_is = metadata_of-ok r m e₁ in
    let l_is = object_at-ok "labels" m l e₂ in
    rw (← m_is, ← l_is)
      (elim (Bool-cases (value_is (get_key "scanning.portscanner.io/target-hash" l) hash)) [
        | inr differs ↦ rw differs (let h₃ = rw differs at h₂ in ground arith)
        | inl same ↦ rw same (judge_matching-ok p ex r m n j (rw same at h₂))
      ])

add_judgement-names :
    (n : Text) (j : Judgement) (found : ℕ × List Text)
    → any (λ m. text_eq m n) (add_judgement j found).1
      ≡ (names_candidate n j || any (λ m. text_eq m n) found.1)
add_judgement-names n other (k, names) = refl
add_judgement-names n matched (k, names) = refl
add_judgement-names n (candidate m) (k, names) = refl

-- `n` is among the names.
pub names_any : Text → List Text → Bool
names_any n names = any (λ m. text_eq m n) names

collect-ok :
    (hash : Text) (p : ℕ → Bool) (ex : List Text) (n : Text) (rs : List Value)
    (found : ℕ × List Text)
    → collect hash p ex rs ≡ ok found
    → names_any n found.1 ≡ any (is_superseded hash p ex n) rs
unfolding collect names_any
collect-ok hash p ex n [] found h = cc
collect-ok hash p ex n (r ∷ rs) found h =
    let (j, e₁, h₁) = and_then-ok (judge hash p ex r) _ h in
    let (later, e₂, h₂) = and_then-ok (collect hash p ex rs) _ h₁ in
    let same : add_judgement j later ≡ found = cc in
    rw (← same) (
      add_judgement-names n j later
      ∙ ap₂ ◌||◌ (judge-ok hash p ex r n j e₁) (collect-ok hash p ex n rs later e₂))

insert_name-any :
    (n m : Text) (ms : List Text) → names_any n (insert_name m ms) ≡ (text_eq m n || names_any n ms)
unfolding insert_name names_any
insert_name-any n m [] = refl
insert_name-any n m (x ∷ xs) = elim (Bool-cases (text_eq m x)) [
  | inl same ↦ rw (same, (text_eq_iff m x).0 same) (ground arith)
  | inr differ ↦ rw differ (ground (arith, insert_name-any n m xs))
]

sorted_names-any : (n : Text) (ms : List Text) → names_any n (sorted_names ms) ≡ names_any n ms
unfolding sorted_names names_any
sorted_names-any n [] = refl
sorted_names-any n (m ∷ ms) =
    insert_name-any n m (sorted_names ms) ∙ ap (◌||◌ (text_eq m n)) (sorted_names-any n ms)

not_below_one : (g : ℕ) → ltb g 1 ≡ false → 1 ≤ g
not_below_one g c = ground arith

-- The entries of the deletions, in order.
abbrev pub deletions : List Text → List Call → List Call
deletions [] calls = calls
deletions (n ∷ ns) calls = deletions ns (deleting n ∷ calls)

module _ {W : Type 0} (services : Services W) (sha256 : Text → Text) where
  abbrev Anything : Error → Run W → Type 0
  Anything e s = Unit

  lift-Ends :
      {A : Type 0} (r : Result Error A) (s : Run W)
      → Ends (λ a s'. (r ≡ ok a) × (s'.calls ≡ s.calls)) Anything (lift r s)
  unfolding lift
  lift-Ends (ok a) s = (refl, refl)
  lift-Ends (err e) s = tt

  delete-Ends :
      (name : Text) (s : Run W)
      → Ends (λ b s'. s'.calls ≡ deleting name ∷ s.calls) Anything (delete services name s)
  unfolding delete
  delete-Ends name s = call_now-Ends (deleting name) (services.delete name) s

  delete_all-Ends :
      (names : List Text) (s : Run W)
      → Ends
          (λ n s'. s'.calls ≡ deletions names s.calls)
          Anything
          (delete_all services sha256 names s)
  unfolding delete_all pure
  delete_all-Ends [] s = refl
  delete_all-Ends (name ∷ rest) s =
      Ends-bind (λ b s'. s'.calls ≡ deleting name ∷ s.calls)
        (λ n s'. s'.calls ≡ deletions rest (deleting name ∷ s.calls)) Anything
        (delete services name) _ s (delete-Ends name s)
        (λ b s₁ e.
          Ends-bind (λ n s'. s'.calls ≡ deletions rest s₁.calls)
            (λ n s'. s'.calls ≡ deletions rest (deleting name ∷ s.calls)) Anything
            (delete_all services sha256 rest) _ s₁ (delete_all-Ends rest s₁)
            (λ n s₂ e₂. e₂ ∙ ap (deletions rest) e))

  -- The entries after a cancellation: the list call, then a deletion of each name, where the names are
  -- exactly those of the listed resources that are superseded.
  abbrev pub Cancelled : Text → (ℕ → Bool) → List Text → List Call → List Call → Type 0
  Cancelled target_id p ex before after =
      (hash : Text) × (resources : List Value) × (names : List Text) × (target_hash sha256 target_id
        ≡ ok hash)
      × (after ≡ deletions names (listed hash resources ∷ before))
      × ((n : Text) → names_any n names ≡ any (is_superseded hash p ex n) resources)

  cancel_matching-Ends :
      (target_id : Text) (p : ℕ → Bool) (ex : List Text) (s : Run W)
      → Ends
          (λ res s'. Cancelled target_id p ex s.calls s'.calls)
          Anything
          (cancel_matching_scanners services sha256 target_id p ex s)
  unfolding cancel_matching_scanners list_for_target_hash pure
  cancel_matching-Ends target_id p ex s =
      let Goal : CancellationResult → Run W → Type 0 =
        λ res s'. Cancelled target_id p ex s.calls s'.calls in
      Ends-bind (λ h s'. (target_hash sha256 target_id ≡ ok h) × (s'.calls ≡ s.calls)) Goal Anything
        (lift (target_hash sha256 target_id)) _ s (lift-Ends (target_hash sha256 target_id) s)
        (λ h s₁ p₁.
          Ends-bind (λ rs s'. s'.calls ≡ listed h rs ∷ s₁.calls) Goal Anything
            (call_as (listed h) (services.list_for_target_hash h)) _ s₁
            (call_as-Ends (listed h) (services.list_for_target_hash h) s₁)
            (λ rs s₂ e₂.
              Ends-bind (λ found s'. (collect h p ex rs ≡ ok found) × (s'.calls ≡ s₂.calls)) Goal
                Anything (lift (collect h p ex rs)) _ s₂ (lift-Ends (collect h p ex rs) s₂)
                (λ found s₃ p₃.
                  Ends-bind (λ n s'. s'.calls ≡ deletions (sorted_names found.1) s₃.calls) Goal
                    Anything (delete_all services sha256 (sorted_names found.1)) _ s₃
                    (delete_all-Ends (sorted_names found.1) s₃)
                    (λ n s₄ e₄. (
                      h,
                      rs,
                      sorted_names found.1,
                      p₁.0,
                      e₄
                          ∙ ap (deletions (sorted_names found.1))
                              (p₃.1 ∙ e₂ ∙ ap (◌∷◌ (listed h rs)) p₁.1),
                      λ m. sorted_names-any m found.1 ∙ collect-ok h p ex m rs found p₃.0,
                    )))))

  cancel_older-Ends :
      (target_id : Text) (g : ℕ) (ex : List Text) (s : Run W)
      → Ends
          (λ res s'. (1 ≤ g) × Cancelled target_id (λ k. ltb k g) ex s.calls s'.calls)
          Anything
          (cancel_older_scanners services sha256 target_id g ex s)
  unfolding cancel_older_scanners raise
  cancel_older-Ends target_id g ex s =
      let Goal : CancellationResult → Run W → Type 0 =
        λ res s'. (1 ≤ g) × Cancelled target_id (λ k. ltb k g) ex s.calls s'.calls in
      Ends-when Goal Anything (ltb g 1) _ _ s (λ c. tt)
        (λ c.
          Ends-weaken (λ res s'. Cancelled target_id (λ k. ltb k g) ex s.calls s'.calls) Goal
            Anything (cancel_matching_scanners services sha256 target_id (λ k. ltb k g) ex s)
            (λ res s' h. (not_below_one g c, h))
            (cancel_matching-Ends target_id (λ k. ltb k g) ex s))

  cancel_through-Ends :
      (target_id : Text) (g : ℕ) (ex : List Text) (s : Run W)
      → Ends
          (λ res s'. (1 ≤ g) × Cancelled target_id (λ k. leb k g) ex s.calls s'.calls)
          Anything
          (cancel_scanners_through_generation services sha256 target_id g ex s)
  unfolding cancel_scanners_through_generation raise
  cancel_through-Ends target_id g ex s =
      let Goal : CancellationResult → Run W → Type 0 =
        λ res s'. (1 ≤ g) × Cancelled target_id (λ k. leb k g) ex s.calls s'.calls in
      Ends-when Goal Anything (ltb g 1) _ _ s (λ c. tt)
        (λ c.
          Ends-weaken (λ res s'. Cancelled target_id (λ k. leb k g) ex s.calls s'.calls) Goal
            Anything (cancel_matching_scanners services sha256 target_id (λ k. leb k g) ex s)
            (λ res s' h. (not_below_one g c, h))
            (cancel_matching-Ends target_id (λ k. leb k g) ex s))

  -- `cancel_older_scanners` that returns has made one list call for the target's hash and then deleted
  -- exactly the listed resources with that label, a lower generation than the accepted one, and a
  -- name that is not excluded.
  pub cancel_older_scanners_exact :
      (target_id : Text) (accepted : ℕ) (ex : List Text) (s : Run W) {res : CancellationResult}
      → (cancel_older_scanners services sha256 target_id accepted ex s).0 ≡ ok res
      → (1 ≤ accepted)
        × Cancelled target_id
            (λ g. ltb g accepted)
            ex
            s.calls
            (cancel_older_scanners services sha256 target_id accepted ex s).1.calls
  cancel_older_scanners_exact target_id accepted ex s e =
      Ends-ok _ Anything (cancel_older_scanners services sha256 target_id accepted ex s)
        (cancel_older-Ends target_id accepted ex s) e

  -- `cancel_scanners_through_generation` that returns has deleted exactly the listed resources with
  -- the target's label, a generation up to the unsafe one, and a name that is not excluded.
  pub cancel_scanners_through_generation_exact :
      (target_id : Text) (unsafe : ℕ) (ex : List Text) (s : Run W) {res : CancellationResult}
      → (cancel_scanners_through_generation services sha256 target_id unsafe ex s).0 ≡ ok res
      → (1 ≤ unsafe)
        × Cancelled target_id
            (λ g. leb g unsafe)
            ex
            s.calls
            (cancel_scanners_through_generation services sha256 target_id unsafe ex s).1.calls
  cancel_scanners_through_generation_exact target_id unsafe ex s e =
      Ends-ok _ Anything (cancel_scanners_through_generation services sha256 target_id unsafe ex s)
        (cancel_through-Ends target_id unsafe ex s) e
