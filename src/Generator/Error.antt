-- ===== src/Generator/Error.antt =====
-- The exceptions that the dispatcher raises, and those that its collaborators raise.
use portscanner.Prelude.{Option}
use portscanner.Prelude.Text.{Text}

-- `remote` is any exception of a client of AWS or Kubernetes, with the text at
-- `response["Error"]["Code"]` if it has one. `retryable` is `RetryableRecordError`, with its
-- code and its verdict.
pub data Error : Type 0 where
  remote : Option Text → Error
  value_error : Error
  claim_collision : Error
  claim_store_error : Error
  claim_lost : Error
  cancellation_error : Error
  retryable : Text → Option Text → Error
