-- ===== src/Generator/Batch.antt =====
-- A batch of SQS records and its partial batch response
-- (generator/src/portscanner_generator/handler.py, `lambda_handler`). The processing of a record,
-- with the reading of its event, is the parameter `process`; the hash of the message's id is only
-- logged.
pub mod Response
use portscanner.Prelude.{List, [], ◌∷◌, ◌++◌, Bool, if◌then◌else◌}
use portscanner.Prelude.Text.{Text}
use portscanner.Prelude.Value.{Value, Items, nil, cons, str, sequence, get_key, is_mapping, list_of}
use portscanner.Prelude.Exec.{Exec, pure, raise, lift, attempt, ◌>>=◌, ◌>>◌}
use portscanner.Prelude.Result.{Result, ok, err}
use portscanner.Generator.Error.{Error, value_error}

abbrev pub listed_records : Value → Result Error (List Value)
listed_records (sequence vs) = ok (list_of vs)
listed_records _ = err value_error

abbrev pub non_empty : Value → Result Error Text
non_empty (str (c ∷ cs)) = ok (c ∷ cs)
non_empty _ = err value_error

-- The checks of a record before it is processed.
unfoldable pub message_id_of : Value → Result Error Text
message_id_of r = if is_mapping r then non_empty (get_key "messageId" r) else err value_error

module _ {S A : Type 0} (process : Value → Exec S Error A) where
  -- One round of the loop: the item identifiers that it adds.
  unfoldable pub process_one : Value → Text → Exec S Error (List Text)
  process_one r message_id = attempt (do outcome ← process r; pure []) (λ e. pure (message_id ∷ []))

  unfoldable pub process_all : List Value → Exec S Error (List Text)
  process_all [] = pure []
  process_all (r ∷ rs) = do
    message_id ← lift (message_id_of r)
    failed ← process_one r message_id
    later ← process_all rs
    pure (failed ++ later)

  -- `lambda_handler`. (`get_key` of a value that is no mapping is null, which is no list.)
  unfoldable pub lambda_handler : Value → Exec S Error (List Text)
  lambda_handler event = do
    records ← lift (listed_records (get_key "Records" event))
    process_all records
