-- ===== src/Lib.antt =====
-- A verification library for the safety recorder: the server that keeps incidents with their encrypted
-- media chunks, lets viewers read them by token, and deletes them on request or by a retention policy.
--
-- The metadata database. Model/Records, Model/Uploads and Model/Deletions hold the records and
-- vocabularies of internal/incidents/models.go and sharing_audit_models.go, Model/Sharing and
-- Model/Contacts those of contact keys, grants, wrapped keys, relationships and recipient keys;
-- Model/Database holds the tables (`Db`), the errors of internal/incidents/repository.go, and a transaction `Tx A`, which returns
-- a result with the new database or an error. A failed transaction has rolled back, so `after` keeps the
-- old database. Base holds the SQL statements on tables as lists of rows (select, update_where,
-- delete_where, order_by) and their laws.
--
-- The repository methods, each a transaction of the same name in snake case:
--   Repository/Incidents, Repository/Detail   internal/incidents/repository.go
--   Repository/Streams                        internal/incidents/streams.go
--   Repository/Chunks                         internal/incidents/chunks.go
--   Repository/Checkins                       internal/incidents/checkins.go
--   Repository/Tokens                         internal/incidents/incident_tokens.go
--   Repository/Uploads                        internal/incidents/upload_operations.go
--   Repository/Audit                          internal/incidents/sharing_audit.go (the insert)
--   Repository/Deletion/Request, Process      internal/incidents/deletion.go
--   Repository/Retention and its Tombstones   internal/incidents/deletion.go (the retention queue) and
--                                             internal/incidents/retention_pruning.go
--   Repository/Constraints                    the tests of migrations/*.sql on inserted values
--   Repository/Sharing/ContactKeys, KeyStates internal/incidents/sharing.go (contact keys)
--   Repository/Sharing/Grants                 internal/incidents/sharing.go (grants)
--   Repository/Sharing/WrappedKeys, Delivery  internal/incidents/wrapped_keys.go
--   Repository/Sharing/Relationships          internal/incidents/trusted_contact_relationships.go
--   Repository/RecipientKeys                  internal/incidents/account_recipient_keys.go
-- The other modules below each of these are proofs about it. DbTime is `formatDBTime` of
-- internal/incidents/db_values.go with the order of its texts, by which SQLite compares stored times.
--
-- System is the database under any sequence of 33 writing calls (`Command`, `exec`, `run`), of which 16
-- are the calls of sharing and of recipient keys (Repository/Sharing/Calls): SQLite runs transactions one
-- after another, so each interleaving of requests and of the worker is such a sequence. Four of these
-- calls are no transactions in the source but a read and a write (UpdateContactPublicKey,
-- RevokeTrustedContactRelationship, UpdateAccountRecipientKey and the end of a recipient key): a sequence
-- runs the two together, and Repository/Sharing/Race is about another call in between. System/Sharing
-- reads the calls on contact keys as steps of a relation, from which its invariants follow.
-- Worker is `processDeletion` of internal/retention/deletion_worker.go over the same methods, with the
-- blob store's `Remove` as a parameter, and Worker/Pass is its `RunOnce`; Worker/Blobs states what such
-- a store promises (`RemovesBlobs`). Worker/Claimed, Kept and Counted
-- follow the deletion decisions through a pass. The pruning of tokens and tombstones is not among the calls.
--
-- Totp/Match is internal/auth/totp.go, with the library's code generator as a parameter, and
-- Totp/Factors is internal/incidents/totp_second_factors.go on tables of its own. A time is at or after
-- 1970 there. Coordination is internal/coordination/coordinator.go: the Valkey client is the record
-- `Client`, and `HoldsValues` and `CountsHits` say what the service promises. RateLimit is
-- internal/httpapi/main_rate_limit.go: Classes sorts the requests, and Middleware asks the coordinator.
-- Tests holds small databases on which the operations run.
--
-- Conventions. A time is the number of nanoseconds since Go's zero time. The order of the stored texts
-- (`db_time_le`) is that of the source for the years 0 to 9999, whose texts have four digits; later times are
-- outside the model. The clock's times and the
-- identifiers of `newID` are arguments. The text "" stands for NULL, as in the Go records. A float is its
-- bit pattern, since it is only stored. PRIMARY KEY, UNIQUE, CHECK and foreign key constraints are
-- modelled where a row is inserted (the `_row_ok` functions) and where an update sets a checked column.
-- Integers that the code compares or adds (chunk indices, byte sizes, limits) are natural numbers: the
-- handlers refuse negative ones, and sums of byte sizes stay below 2^63 under any realistic quota.
-- `hash` is `hashIncidentToken`, a parameter. Of accounts only the identifier and the state are kept, and
-- no call changes them. When CompleteMediaStream and FailMediaStream find no open stream they read
-- through a second connection while their transaction is open; the model lets that read succeed.
-- All loops are structural recursion on a list of rows, so no fuel is needed.
--
-- Not modelled: failures of the database driver and of the random source, the PostgreSQL backend, row
-- scanning, the job-status counts, accounts and sessions, the other second factors, the handlers, blob
-- storage, relay capabilities, envelopes and bundles, configuration and the commands.
pub mod Base
pub mod Model
pub mod DbTime
pub mod Repository
pub mod System
pub mod Worker
pub mod Totp
pub mod Coordination
pub mod RateLimit
pub mod Tests
