-- ===== src/Lib.antt =====
-- The CKS runtime (src/cks_runtime) keeps sessions, each with a knowledge structure that a semantic
-- engine (cks-core, a package of its own) evolves and compares. Committed states are versions: a
-- snapshot, or a patch to be replayed from the snapshot before it. Replicas exchange their objects
-- by gossip: a filter drops messages that are old or were seen, vector clocks order the writes, and
-- a Merkle tree over the object ids tells two replicas where they differ.
--
-- Which file models what (each definition keeps the name of the function, method or class):
--   Prelude, Dict, Json    Python's lists, dictionaries in insertion order, and JSON values.
--   Result                 what a call returns or raises.
--   Core                   the engine as an interface of parameters; `Faithful` is what its
--                          documentation promises of `diff` and `evolve`; Small: one for runs.
--   Crdt/VersionVector     crdt/version_vector.py; Join: merging, and the order by clocks.
--   Crdt/Causality         crdt/causality.py; Order: its four results and the clocks.
--   Crdt/MerkleTree        crdt/merkle_tree.py for SQLite and PostgreSQL; Canonical is the tree of a
--                          set of ids, Climb and Insert relate one insert to it, Convergence a history.
--   Crdt/Register          crdt/crdt_store.py, the pointers; Scan, Update, Verdicts: one write, Maximal
--                          and Converge: a run of writes.
--   Crdt/Store             crdt/crdt_store.py, identities and the in-memory store; Identity: what it
--                          keeps, Levels and Tree: its tree, Cache: the tree as it is read.
--   Crdt/SqliteStore       crdt/crdt_store.py, objects and vectors in SQLite; Agreement: it and the
--                          in-memory store.
--   Crdt/Forks             crdt/crdt_store.py, the conflict events of the in-memory store.
--   Crdt/Quarantine        crdt/quarantine.py; Batch: a batch against the plain merge.
--   Versioning/VersionVector    versioning/version_vector.py; Dominance: its order.
--   Versioning/Version     versioning/version.py, a version as a value.
--   Versioning/Manager     versioning/version_manager.py; History: the versions it makes,
--                          Commits: a run of commits and what is read back.
--   Session                session/session.py; Replay: reconstruction from a history, Reconstruct:
--                          session/reconstruct.py.
--   Transaction            transaction/transaction.py; Status: its state machine.
--   Storage/Memory         storage/memory_storage.py; Saves: the check of the expected version.
--   Storage/Sqlite         storage/sqlite_storage.py, sessions and versions; Loading: what a commit
--                          leaves to be read, Overtaken: two writers, Stamp: times as text.
--   Events                 events/event_bus.py; Delivery: which handlers are called.
--   Storage/PatchCodec     storage/patch_codec.py; Roundtrip: a patch written and read.
--   GarbageCollector       gc/garbage_collector.py; Sweeping, Starvation, Filed.
--   Retry                  crdt/crdt_store.py and storage/sqlite_storage.py, `_retry_on_locked`;
--                          Attempts: how often it tries.
--   Operations             operations/operation_types.py, those that change the state; Merging: merges
--                          of sessions neither of which covers the other.
--   Pipeline               pipeline/execution_pipeline.py, with what it calls of the transaction
--                          manager, the dispatcher and the executor; Rounds and Outcome: commits
--                          that fail, Success: those that return, Conflict: those overtaken.
--   Registry               session/session_manager.py and transaction/transaction_manager.py, over
--                          shared session objects; Store, Consistent: their agreement, Steps: the
--                          calls as a relation, Twice: a transaction that is finished again.
--   Gossip/Filter          gossip/filter.py; Sequence and Window compare it to the full history.
--   Gossip/SeqNo           gossip/seq_no.py; Unique: the numbers of counters over one file.
--   Gossip/Scheduling      gossip/scheduling.py; Backoff: which peers may be chosen, and when.
--   Gossip/Adapter         gossip/adapter.py, applying a remote copy of a session; Commits, Committing:
--                          the transaction of one operation, Outcomes: the ways a call can end, Same,
--                          Again: calls that are repeated, Lost: copies that are not adopted.
--   Gossip/Applying        gossip/adapter.py, a remote copy with its objects; Again: the second time.
--   Gossip/Genesis         gossip/adapter.py, the first copy of a session.
--   Gossip/Objects         gossip/adapter.py, what a remote session does to the object store; Bypass:
--                          its pointers and the quarantine, Unclocked: pointers without clocks.
--   Outbox                 storage/sqlite_storage.py, the outbox of tasks; Requests, Lease: who may
--                          claim a task, Drain: what a drain takes, Rows: its table.
--   Outbox/Worker          projection/outbox_worker.py; Budget, Ready, Liveness: its loop, Backoff:
--                          when it sees a failed task again.
--   Gossip/Envelope        gossip/envelope.py; Binding: what a signature vouches for.
--   Gossip/Server          gossip/http_transport.py, the handler of an envelope; Replay: its runs.
-- A file named Tests holds runs at concrete inputs.
--
-- Methods that change an object take it as their first argument, named self, and give it back
-- changed; where a method can raise after it has changed something, the state stands beside the
-- result. Loops are recursion on their list or on a number of rounds that the code fixes (the 64
-- levels of an object id, the versions between a snapshot and the target, the five attempts of a
-- write); the loop of the event bus, which its handlers can prolong, has a bound on its rounds.
-- Numbers of the program are unbounded as in Python. Times are arguments: whole
-- milliseconds, in the outbox whole seconds since the epoch, written as the texts in its columns.
-- Random choices, fresh ids and the SHA-256 digest are parameters. The pipeline takes what an
-- operation does as a parameter; Operations fills it with those that change the state.
--
-- Not modelled: the other tables of the SQL storages, PostgreSQL, network input and output, locks of
-- threads, timers, log lines, the operation log, what subscribers of events do, and the wiring of the
-- runtime. Left out too are the clients of the gossip, what the worker does to execute a task, and
-- the commit that adopts a session that a replica has not tracked before.
pub mod Prelude
pub mod Dict
pub mod Json
pub mod Crdt
pub mod Versioning
pub mod Events
pub mod GarbageCollector
pub mod Gossip
pub mod Result
pub mod Core
pub mod Session
pub mod Transaction
pub mod Storage
pub mod Operations
pub mod Retry
pub mod Outbox
pub mod Registry
pub mod Pipeline
