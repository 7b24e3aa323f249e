-- ===== src/Lib.antt =====
-- Portscanner: verification library.
--
-- The program finds public network interfaces (inventory), turns their changes into scan resources
-- (generator), and runs Nmap on them (scanner). Modelled are these parts:
--
--   * Generator (generator/src/portscanner_generator), the dispatcher of Scanner resources.
--     - Generator/Claims: idempotency.py. `Item` has the items of the claim table and the conditions
--       and assignments of the updates, `Store` the operations `acquire`, `complete` and
--       `mark_retryable`; DynamoDB is the interface `ClaimTable`, whose laws (`Moves`, `IsTable`) let
--       other workers act between any two calls. `Lawful` is the life of an item told apart from the
--       code, `Given` what a result of true means. That DynamoDB deletes an item some time after its
--       `expires_at` (terraform/aws/modules/storage/main.tf) is left out: the laws speak of the time
--       in which the table keeps the item.
--     - Generator/Revalidation: revalidation.py, the ownership gate `classify_verdict`.
--     - Generator/Cancellation: cancellation.py and the identifiers of scanner_resource.py.
--     - Generator/World: the services of `GeneratorServices`, with a list of the calls made.
--     - Generator/Dispatch and Generator/Process: handler.py, `process_sqs_record` in its stages.
--     - Generator/Batch: handler.py, `lambda_handler`.
--     - Generator/Reader: event_reader.py, from an SQS record to the target event of one immutable
--       version of an S3 object.
--   * Inventory (inventory/src/portscanner_inventory), the store of target states.
--     - Inventory/Target: the targets of aws/normalize.py and the order of Config observations
--       (state.py, `_config_observation_order`).
--     - Inventory/Event: events.py, the reason and the plan of a target event.
--     - Inventory/Store: state.py. `Store` has the items, the conditions and the interface
--       `StateTable`, `Store/Reconcile` and `Store/Operations` the operations, and `Store/Moves` the
--       laws of DynamoDB and the step relation, `Store/Sequence` is about the operations one after the
--       other, and `Store/Quiet` about the one that writes no state. The rounds of `reconcile` are the `max_retries` of the source.
--     - Inventory/Outbox: handlers/outbox.py, the delivery of the events that the store writes beside
--       its states: `Image` reads and checks a record of the stream, `Delivery` makes the calls,
--       `Replay` is the handler of a batch and the replay of pending items.
--     - Inventory/Snapshot: handlers/snapshot.py, `reconcile_snapshot`. Its collaborators are an
--       interface.
--     - Inventory/Rescan: handlers/rescan.py, `emit_coverage`.
--     - Inventory/Ownership: aws/ownership.py, the check of one state against EC2, whose verdict the
--       snapshot and the generator rely on.
--   * Scanner (scanner/nmap/src/portscanner_scanner).
--     - Scanner/Coverage: coverage.py, the port coverage.
--     - Scanner/Worker: worker.py, `execute_scan`. `Failures` has the failures of the phases, `Execution`
--       the phases and the uploads, `Scan` the scan as a whole with the publication. The variables that
--       the handler of a failure reads are carried by the failure (`Progress`).
--
-- Code that may raise is an `Exec` (Prelude/Exec): it takes the state and gives a value or an
-- exception beside the state it leaves, so what was done before a raise stays done. Where the order of
-- the calls of services matters, the state also holds the calls made so far (Prelude/Calls). Values whose
-- type the code looks at are `Value`s (Prelude/Value); texts are lists of code points; times are
-- microseconds since 1970. All loops are structural recursions, and no fuel is added.
--
-- Parameters: SHA-256 (`sha256`, `digest`), `str` of values that are no `str` (`show`), the building
-- of the resource's body (`build`), the checks and identifiers of a shared contract (`contract`), the
-- JSON texts (`Codec`, `Formats`, `loads`), the parser of events (`parser`), the normalization of an
-- interface (`normalizer`), the commands of Nmap (`NmapCommands`), and the services. Not modelled:
-- logging, the message of `ScanExecutionError`, a `datetime` as the time of a rescan's event
-- (`_scheduled_time`; an event of JSON has none), the deletion of old items by DynamoDB, the scans of
-- the state table, the reading of a snapshot's request, `validate_event` of the ownership check, the
-- models of the shared contracts, the Kubernetes and AWS clients, the preparation of a scan, the
-- process of Nmap and its XML reports, the parser, the processor, the database migrator, and the
-- tools.
pub mod Prelude
pub mod Scanner
pub mod Generator
pub mod Inventory
