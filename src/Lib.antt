-- ===== src/Lib.antt =====
-- Verification of the ai-models controller and of its registry's garbage collector: a model of the
-- program's own decisions, translated function by function from the Go source, with what makes them
-- correct. All state is passed explicitly: a method that changes its receiver returns it.
--
-- The program. A user asks for a model; the controller publishes it from a remote source (a source
-- worker) or from an upload (an upload session) into an artifact store, gives the model's object a status,
-- and on deletion cleans the artifact up. Nodes keep a cache of published artifacts. A garbage
-- collector (dmcr) reclaims the registry's space and runs in one replica at a time.
--
-- Storage: the ledger that admits reservations and publications under a limit,
--   images/controller/internal/domain/storagecapacity/model.go. Ledger.Reserve is `reserve`,
--   CommitPublishedReplacingReservations is `commit_published_replacing_reservations`, and so on. Storage/Sums
--   reads the int64 sums as sums, Storage/Releases is about `reservedBytes`, Storage/Limit and
--   Storage/Commit are about one call, Storage/Calls about sequences of calls.
--   Storage/Store is images/controller/internal/adapters/k8s/storageaccounting: `attempt` is the function that
--   Store.update runs until there is no conflict, which reads the secret at one state of the API server
--   and writes it at a later one; Storage/Store/Refines lets replicas interleave.
-- NodeCache: images/controller/internal/nodecache. NodeCache/Plan is plan.go (`plan_eviction`),
--   NodeCache/Desired is desired_artifacts.go and capacity.go; NodeCache/Keep joins the two, since the
--   digests that the desired artifacts protect are an input of the plan.
-- Publication: Handle (support/cleanuphandle/handle.go), Snapshot (publishedsnapshot and
--   publicationartifact/contract.go), Conditions, Status, Ready, Project and Runtime
--   (domain/publishstate), and Observe (application/publishobserve, which calls all of these, with
--   status_mutation.go in Observe/Mutation), each under images/controller/internal. A worker's handle
--   becomes an observation (`observe_source`, `observe_upload`), and that a status (`project_status`,
--   through `plan_catalog_status_mutation`).
-- Deletion: images/controller/internal/application/deletion, `finalize_delete` and
--   `ensure_cleanup_finalizer`. Deletion/Progress carries decisions out as the controller does when
--   every request succeeds.
-- Lease: images/dmcr/internal/leaseutil/lease.go and
--   images/dmcr/internal/garbagecollection/executor_lease.go, `acquireOrRenew` as `write_lease` of what
--   was read.
-- Requests: images/dmcr/internal/garbagecollection. Requests is request_state.go with what each write puts
--   into a request's secret, Requests/Options is options.go, Requests/Cycle is `runRequestCycle` of runner.go
--   with request_result.go and publication_guard.go (`run_request_cycle`), and Requests/Schedule is
--   schedule.go with `runLoopStep` (`run_loop_step`). Requests/Cycle/Life has the automaton that
--   Requests/Cycle/Refines compares the cycle with; Requests/Cycle/Guard is about the gate.
-- ModelPack: images/controller/internal/adapters/modelpack/oci. MediaType is layer_media_type.go, with its
--   regular expression and the matching that it needs in MediaType/Pattern; Layers and
--   ChunkIndex are chunk_layout.go (`classify_manifest_layers`, `validate_chunk_index`), and
--   ChunkIndex/Paths is `RelativePath` of support/archiveio/archiveio.go. The packs that the manifest's
--   layers give are an input of the index's validation.
-- UploadSession: images/controller/internal/adapters/k8s/uploadsessionstate. Read is `SessionFromSecret`,
--   Write has one function for each write of secret.go and lifecycle.go, Client is client.go's `update`, and
--   Automaton has the automaton of the phases, which Phases compares the writes with, StoredPhase what
--   each write leaves, and Verdicts which of them are refused.
-- Prelude: lists, texts, int64 patterns and association lists for Go's maps.
--
-- Numbers. An int64 or a time.Duration is a pattern below 2 ^ 64, with the wrap-around written out; an
-- int32 is a pattern below 2 ^ 32. A time is a number with 0 for the zero time. A loop over
-- a list is recursion on that list. `MarkTriggered` loops until the schedule is ahead: `triggered` has
-- now + 1 - next rounds for it, which are enough for a schedule that goes forward, since each round adds at
-- least 1. `Client.update` tries again at each conflict: its rounds are the list of the server's answers.
--
-- Parameters. `json.Unmarshal` is a function that returns a value or an error's text;
-- `meta.SetStatusCondition` is a record with the law that the condition of the type is set and the others
-- stay; the API server of the lease is a record whose laws say that a create needs that there is no lease
-- and an update that the lease is the one that was read. The clock is an argument. The server of the
-- requests' secrets is a record whose laws say that a list is what is stored, that an update changes one
-- secret, which is the one that was read, and that a deletion takes one name out. A cron schedule is its
-- `Next`; a time's, a number's or a list's text is a function with the law that it is read back.
-- What a cycle asks of the policy, the gate and the cleanup are answers that it is given. The examples
-- instantiate each.
--
-- Not modelled: the texts that quote values, the order of entries that tie in `sort.Slice` (the models
-- take the stable one), encoders to JSON, goroutines around the lease (RunIfHolder, renewUntilDone), the
-- garbage collector's inventories, policy and cleanup, the maintenance gate behind its answer, the
-- namespace and type of a secret, the reconcile loops and everything that moves bytes.
pub mod Prelude
pub mod Storage
pub mod NodeCache
pub mod Publication
pub mod Deletion
pub mod Lease
pub mod Requests
pub mod ModelPack
pub mod UploadSession
