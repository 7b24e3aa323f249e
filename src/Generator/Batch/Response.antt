-- ===== src/Generator/Batch/Response.antt =====
-- What a partial batch response says (handler.py, `lambda_handler`).
use portscanner.Prelude.{List, [], ◌∷◌, ◌≡◌, refl}
use portscanner.Prelude.Text.{Text}
use portscanner.Prelude.Value.{Value, get_key}
use portscanner.Prelude.Exec.{Exec, pure, lift, attempt, ◌>>=◌}
use portscanner.Prelude.Result.{Result, ok, err}
use portscanner.Generator.Error.{Error}
use portscanner.Generator.Batch.{
  listed_records, message_id_of, process_one, process_all, lambda_handler,
}

-- The records have been processed in order, each once, from the state that the ones before left;
-- the texts are the message ids of those whose processing raised.
pub data Ran {S A : Type 0} (process : Value → Exec S Error A)
    : List Value → S → List Text → S → Type 0 where
  done : (s : S) → Ran process [] s [] s
  succeeded :
      (r : Value) (rs : List Value) (s t u : S) (a : A) (ids : List Text)
      → process r s ≡ (ok a, t)
      → Ran process rs t ids u
      → Ran process (r ∷ rs) s ids u
  failed :
      (r : Value) (rs : List Value) (s t u : S) (e : Error) (id : Text) (ids : List Text)
      → process r s ≡ (err e, t)
      → message_id_of r ≡ ok id
      → Ran process rs t ids u
      → Ran process (r ∷ rs) s (id ∷ ids) u

-- Every record has a message id.
abbrev pub AllNamed : List Value → Type 0
AllNamed [] = Unit
AllNamed (r ∷ rs) = ((id : Text) × (message_id_of r ≡ ok id)) × AllNamed rs

module _ {S A : Type 0} (process : Value → Exec S Error A) where
  -- The run of the loop with its response.
  Response : List Value → S → Type 0
  Response rs s =
      (ids : List Text) × (t : S) × (process_all process rs s ≡ (ok ids, t))
      × Ran process rs s ids t

  next-Response :
      (r : Value) (rs : List Value) (s : S) (id : Text) (x : Result Error A × S)
      → message_id_of r ≡ ok id
      → process r s ≡ x
      → ((t : S) → Response rs t)
      → Response (r ∷ rs) s
  unfolding Response process_all process_one attempt ◌>>=◌ lift pure
  next-Response r rs s id (ok a, t) named e rest =
      let (ids, u, same, ran) = rest t in
      (ids, u, rw (named, e, same) refl, succeeded r rs s t u a ids e ran)
  next-Response r rs s id (err x, t) named e rest =
      let (ids, u, same, ran) = rest t in
      (id ∷ ids, u, rw (named, e, same) refl, failed r rs s t u x id ids e named ran)

  process_all-Response : (rs : List Value) (s : S) → AllNamed rs → Response rs s
  unfolding Response process_all pure
  process_all-Response [] s h = ([], s, refl, done s)
  process_all-Response (r ∷ rs) s h =
      next-Response r rs s h.0.0 (process r s) h.0.1 refl (λ t. process_all-Response rs t h.1)

  -- A batch whose records all have a message id is processed to its end, whatever its records raise:
  -- `lambda_handler` returns, each record has been processed once and in order, and the response names
  -- exactly the records whose processing raised.
  pub lambda_handler_reports :
      (event : Value) (rs : List Value) (s : S)
      → listed_records (get_key "Records" event) ≡ ok rs
      → AllNamed rs
      → (ids : List Text) × (t : S) × (lambda_handler process event s ≡ (ok ids, t))
        × Ran process rs s ids t
  unfolding lambda_handler ◌>>=◌ lift Response
  lambda_handler_reports event rs s h named =
      let (ids, t, same, ran) = process_all-Response rs s named in (ids, t, rw (h, same) refl, ran)
