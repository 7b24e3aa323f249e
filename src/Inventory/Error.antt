-- ===== src/Inventory/Error.antt =====
-- The exceptions of the inventory, and the failures of a condition of DynamoDB
-- (inventory/src/portscanner_inventory/state.py, `_conditional_failure`).
use portscanner.Prelude.{Bool, false, ◌&&◌, ◌||◌, Option, none, some, List, all, any}
use portscanner.Prelude.Text.{Text, codes, text_eq}

-- `client` is an exception of the AWS client: what `aws_error_code` says of it, and its
-- `CancellationReasons` if they are a list. A reason that is no mapping is `none`, else it is the text
-- of its code, "None" where that is missing.
pub data StateError : Type 0 where
  client : Text → Option (List (Option Text)) → StateError
  value_error key_error : StateError

abbrev pub reason_is : Text → Option Text → Bool
reason_is code (some c) = text_eq c code
reason_is code none = false

abbrev pub only_conditions : List (Option Text) → Bool
only_conditions reasons =
    any (reason_is (codes "ConditionalCheckFailed")) reasons
    && all (λ r. reason_is (codes "None") r || reason_is (codes "ConditionalCheckFailed") r) reasons

abbrev pub canceled_by_condition : Option (List (Option Text)) → Bool
canceled_by_condition none = false
canceled_by_condition (some reasons) = only_conditions reasons

unfoldable pub condition_failure : StateError → Bool
condition_failure (client code reasons) =
    text_eq code (codes "ConditionalCheckFailedException")
    || text_eq code (codes "TransactionCanceledException") && canceled_by_condition reasons
condition_failure _ = false
