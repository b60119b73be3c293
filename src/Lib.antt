-- ===== src/Lib.antt =====
-- The core of Soulmate, a local-first, self-hosted personal decision model, as far as it is
-- modelled here. The daemon (apps/daemon) serves one owner. Other devices of the owner are let in
-- by pairing, and other programs by an API key of a service identity that the owner has created.
-- Such a program can ask for approval of an action, which the delegation engine decides from the
-- owner's policies and a stored prediction, and it can report events, which the Decision I/O policy
-- classifies before anything is learned from them. Slow work goes through a durable queue of jobs.
-- All state is in one SQLite database behind the repositories of packages/storage-sqlite.
--
-- In the paths below, core/ is packages/core-python/src/soulmate_core/, storage/ is
-- packages/storage-sqlite/src/soulmate_storage_sqlite/ and daemon/ is
-- apps/daemon/src/soulmate_daemon/. The records of each part are those of core/domain/models.py, and
-- its tables and repositories those of storage/repositories.py, unless another file is named.
--
-- - Prelude, Exec, Text, Float, Json, Domain: shared names, lists, sorting and tables of rows; a
--   method as a function of the store that returns a result or an error beside the store it leaves;
--   the methods of `str` that the code calls, and `sorted(set(...))`; floats with their comparison
--   (Float) and arithmetic (Float.Arith); JSON values; and the records that several parts use.
-- - Delegation: core/delegation/policy.py. Delegation.Records has the policies and requests,
--   Delegation.Store the repository methods over a store of five tables, and Delegation.Engine the
--   methods of `DelegationPolicyEngine`. Delegation.Steps has the atomic transactions that
--   concurrent clients interleave, Delegation.Trace the closed list of those that the engine makes
--   itself; the other modules hold the proofs and the tests.
-- - Pairing: core/access/pairing.py. Pairing.Service has the repositories of the tokens and the
--   devices, and the methods of `DevicePairingService`.
-- - External: core/access/external.py. External.Store has the tables of identities, scopes and
--   credentials with their repositories, and External.Service the methods of
--   `ExternalIdentityService`, `validate_scopes`, `format_api_key` and `parse_api_key`.
-- - DecisionIo: core/domain/provenance.py (DecisionIo.Provenance and DecisionIo.Observations) and
--   core/decision_io/policy.py (DecisionIo.Policy).
-- - Keys: the keys that evidence is about. core/keys/aliases.py is Keys.Aliases (`_follow` and
--   `KeyAliasMap`), core/keys/normalization.py Keys.Normalize and core/keys/proposals.py
--   Keys.Propose; the repositories of storage/key_aliases.py are Keys.Store and Keys.Supported, those
--   of storage/key_metadata.py and `KeyLabelService` of daemon/key_labels.py Keys.Labels, the
--   evidence repository Keys.Evidence, and `KeyAliasService` of daemon/key_aliases.py Keys.Review.
--   Keys.History has the calls that change the tables; the other modules hold proofs and tests.
-- - Learning: `resolution_evidence` of core/decisions/predictor.py.
-- - Ingestion: core/decision_io/ingestion.py (Ingestion.Records), the Decision I/O repository of
--   storage/decision_io.py (Ingestion.Store, Transaction, Observations and Sources there) and
--   `DecisionIoService` of daemon/decision_io.py (Ingestion.Reports to Ingestion.Compatibility). An
--   ingestion is one transaction, which the service builds from a report by the Decision I/O policy
--   and, where the owner's choice may be learned from, by `resolution_evidence`.
-- - Jobs: the job repository (Jobs.Store) and `DurableJobWorker` of daemon/jobs.py (Jobs.Worker).
--
-- A constructor that raises in `__post_init__` is a Boolean test with `_ok` in its name, and the
-- code that calls the constructor raises `value_error` where the test fails. A dataclass is a
-- record, and an exception a constructor of the `Error` of its part, one for each message.
--
-- Parameters. Digests of secrets and of reports, the hexadecimal digits, the ids and the secrets
-- that the factories return, the clock, how a job handler ends, the folding of case and the
-- canonical JSON text of an event's content are arguments of the definitions that use them. The
-- prediction that delegation reads is a row of the store.
--
-- Bounds. An instant is a natural number of microseconds since `datetime.min`. Only the time of a
-- retry is tested for an overflow; other sums and differences of instants are taken to be in range.
-- Time zones appear only where the code tests for them. A float is a multiple of 2 ^ -1074, an
-- infinity or not a number, there is one zero, and each operation rounds to 53 bits and to even on
-- a tie; `sum` of floats compensates as Python does since 3.12. Two loops run on fuel, and the fuel
-- is enough: that of `_follow` is given one more than there are entries (Keys.Fuel), and `while
-- grown` of `_supported_keys` one more than there are active aliases (Keys.Closure). Every other
-- recursion is over a list, a text or the digits of a number.
--
-- Not modelled. Foreign keys between the tables of Ingestion are tested where a row is inserted;
-- those to profiles, to identities and to messages, of which none is deleted by the modelled code,
-- hold and are not checked. The repositories read a row without running the constructor's test
-- again, except that of external access. The rows of other tables that the removal of a source
-- takes with it, the vectors of the embedding repository, and the predictor, which sums floats over
-- sets that Python does not order, are left out. HTTP, the command line, the user interfaces,
-- providers of language models, connectors and the numerical parts of learning, aggregation and
-- prediction are outside.
pub mod Prelude
pub mod Exec
pub mod Text
pub mod Float
pub mod Delegation
pub mod Pairing
pub mod External
pub mod DecisionIo
pub mod Jobs
pub mod Keys
pub mod Json
pub mod Domain
pub mod Learning
pub mod Ingestion
