-- ===== src/Generator/Revalidation/Gate.antt =====
-- The ownership gate fails closed (revalidation.py).
use portscanner.Prelude.{
  ℕ, ◌≡◌, refl, ◌⊎◌, ◌↔◌, Bool, true, false, Option, none, some, arith, inl, inr, ◌∙◌, ◌≢◌,
}
use portscanner.Prelude.Text.{Text, codes, text_eq_iff}
use portscanner.Prelude.Value.{Value}
use portscanner.Generator.Revalidation.{
  dispatch, cancel, state_name, state_value, current_value, Current, absent, malformed, generation,
  read_current, request_differs, decide, checked_state, classify_verdict, decide_active,
}

-- The verdict names the state, of this request, and its current generation is well formed.
abbrev pub Accepts : Value → ℕ → Text → Type 0
Accepts verdict requested state =
    (state_name (state_value verdict) ≡ state) × (request_differs verdict requested ≡ false)

-- The event may be dispatched: the state is ACTIVE, and the current generation is absent or the
-- requested one.
abbrev pub MayDispatch : Value → ℕ → Type 0
MayDispatch verdict requested =
    Accepts verdict requested (codes "ACTIVE")
    × ((read_current (current_value verdict) ≡ absent)
        ⊎ (read_current (current_value verdict) ≡ generation requested))

decide-dispatch :
    (state : Text) (current : Option ℕ) (requested : ℕ)
    → (decide state current requested).1 ≡ dispatch
    → (state ≡ codes "ACTIVE") × ((current ≡ none) ⊎ (current ≡ some requested))
unfolding decide decide_active
decide-dispatch state none requested h = ground (arith, text_eq_iff state (codes "ACTIVE"))
decide-dispatch state (some n) requested h = ground (arith, text_eq_iff state (codes "ACTIVE"))

checked_state-active :
    (differs : Bool) (current : Current) (state : Text) (requested : ℕ)
    → (checked_state differs current state).0 ≡ codes "ACTIVE"
    → ((checked_state differs current state).1 ≡ none)
      ⊎ ((checked_state differs current state).1 ≡ some requested)
    → (state ≡ codes "ACTIVE")
      × (differs ≡ false)
      × ((current ≡ absent) ⊎ (current ≡ generation requested))
unfolding checked_state
checked_state-active true current state requested h k = absurd (cc)
checked_state-active false absent state requested h k = ground arith
checked_state-active false malformed state requested h k = absurd (cc)
checked_state-active false (generation n) state requested h k = ground arith

checked_state-of_accepted :
    (current : Current) (state : Text) (requested : ℕ)
    → (current ≡ absent) ⊎ (current ≡ generation requested)
    → ((checked_state false current state).0 ≡ state)
      × (((checked_state false current state).1 ≡ none)
          ⊎ ((checked_state false current state).1 ≡ some requested))
unfolding checked_state
checked_state-of_accepted absent state requested h = (refl, inl refl)
checked_state-of_accepted malformed state requested h = absurd (ground arith)
checked_state-of_accepted (generation n) state requested h = (refl, ground arith)

decide-active :
    (current : Option ℕ) (requested : ℕ)
    → (current ≡ none) ⊎ (current ≡ some requested)
    → (decide (codes "ACTIVE") current requested).1 ≡ dispatch
unfolding decide decide_active
decide-active none requested h = refl
decide-active (some n) requested h = ground arith

-- A verdict leads to a dispatch exactly when it names the state ACTIVE, reports no other request
-- than the one made, and has no current generation or the requested one.
pub classify_verdict-dispatch_iff :
    (show : Value → Text) (verdict : Value) (requested : ℕ)
    → ((classify_verdict show verdict requested).decision ≡ dispatch)
      ↔ MayDispatch verdict requested
unfolding classify_verdict
classify_verdict-dispatch_iff show verdict requested = (
  λ h.
      let differs = request_differs verdict requested in
      let current = read_current (current_value verdict) in
      let state = state_name (state_value verdict) in
      let checked = checked_state differs current state in
      let (named, fits) = decide-dispatch checked.0 checked.1 requested h in
      let (active, same, present) =
        checked_state-active differs current state requested named fits in
      ((active, same), present),
  λ m.
      let current = read_current (current_value verdict) in
      let state = state_name (state_value verdict) in
      let (keeps, fits) = checked_state-of_accepted current state requested m.1 in
      rw m.0.1
        (rw (keeps ∙ m.0.0) (decide-active (checked_state false current state).1 requested fits)),
)

-- The resource of the event may be cancelled: the target has moved or is inactive.
abbrev pub MayCancel : Value → ℕ → Type 0
MayCancel verdict requested =
    (Accepts verdict requested (codes "MOVED") ⊎ Accepts verdict requested (codes "INACTIVE"))
    × (read_current (current_value verdict) ≢ malformed)

decide-cancel :
    (state : Text) (current : Option ℕ) (requested : ℕ)
    → (decide state current requested).1 ≡ cancel
    → (state ≡ codes "MOVED") ⊎ (state ≡ codes "INACTIVE")
unfolding decide decide_active
decide-cancel state none requested h =
    ground (arith, text_eq_iff state (codes "MOVED"), text_eq_iff state (codes "INACTIVE"))
decide-cancel state (some n) requested h =
    ground (arith, text_eq_iff state (codes "MOVED"), text_eq_iff state (codes "INACTIVE"))

cancel-decide :
    (state : Text) (current : Option ℕ) (requested : ℕ)
    → (state ≡ codes "MOVED") ⊎ (state ≡ codes "INACTIVE")
    → (decide state current requested).1 ≡ cancel
unfolding decide
cancel-decide state current requested (inl h) = rw h
cancel-decide state current requested (inr h) = rw h

checked_state-cancel :
    (differs : Bool) (current : Current) (state : Text)
    → ((checked_state differs current state).0 ≡ codes "MOVED")
      ⊎ ((checked_state differs current state).0 ≡ codes "INACTIVE")
    → (differs ≡ false)
      × (current ≢ malformed)
      × ((state ≡ codes "MOVED") ⊎ (state ≡ codes "INACTIVE"))
unfolding checked_state
checked_state-cancel true current state (inl h) = absurd (cc)
checked_state-cancel true current state (inr h) = absurd (cc)
checked_state-cancel false absent state h = (refl, λ e. cc, h)
checked_state-cancel false malformed state (inl h) = absurd (cc)
checked_state-cancel false malformed state (inr h) = absurd (cc)
checked_state-cancel false (generation n) state h = (refl, λ e. cc, h)

checked_state-keeps :
    (current : Current) (state : Text)
    → current ≢ malformed
    → (checked_state false current state).0 ≡ state
unfolding checked_state
checked_state-keeps absent state h = refl
checked_state-keeps malformed state h = absurd (h refl)
checked_state-keeps (generation n) state h = refl

MayCancel-intro :
    (verdict : Value) (requested : ℕ)
    → request_differs verdict requested ≡ false
    → (state_name (state_value verdict) ≡ codes "MOVED")
      ⊎ (state_name (state_value verdict) ≡ codes "INACTIVE")
    → read_current (current_value verdict) ≢ malformed
    → MayCancel verdict requested
MayCancel-intro verdict requested d (inl h) k = (inl (h, d), k)
MayCancel-intro verdict requested d (inr h) k = (inr (h, d), k)

MayCancel-parts :
    (verdict : Value) (requested : ℕ)
    → MayCancel verdict requested
    → (request_differs verdict requested ≡ false)
      × ((state_name (state_value verdict) ≡ codes "MOVED")
          ⊎ (state_name (state_value verdict) ≡ codes "INACTIVE"))
MayCancel-parts verdict requested (inl h, k) = (h.1, inl h.0)
MayCancel-parts verdict requested (inr h, k) = (h.1, inr h.0)

-- A verdict leads to a cancellation exactly when it names the state MOVED or INACTIVE, reports no
-- other request than the one made, and its current generation is not malformed.
pub classify_verdict-cancel_iff :
    (show : Value → Text) (verdict : Value) (requested : ℕ)
    → ((classify_verdict show verdict requested).decision ≡ cancel) ↔ MayCancel verdict requested
unfolding classify_verdict
classify_verdict-cancel_iff show verdict requested = (
  λ h.
      let differs = request_differs verdict requested in
      let current = read_current (current_value verdict) in
      let checked = checked_state differs current (state_name (state_value verdict)) in
      let (same, well, named) =
        checked_state-cancel differs current (state_name (state_value verdict))
          (decide-cancel checked.0 checked.1 requested h) in
      MayCancel-intro verdict requested same named well,
  λ m.
      let current = read_current (current_value verdict) in
      let state = state_name (state_value verdict) in
      let (same, named) = MayCancel-parts verdict requested m in
      rw same (
        rw (checked_state-keeps current state m.1)
          (cancel-decide state (checked_state false current state).1 requested named)),
)
