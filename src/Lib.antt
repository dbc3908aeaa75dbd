-- ===== src/Lib.antt =====
-- Runner engine: the service that runs operators in warm sandboxes for NiFi processors.
--
-- A processor opens a lease for an operator release (`RunnerDB.create_lease`) and then invokes the
-- release under it. An invocation claims its idempotency key (`RunnerDB.begin_run`), takes a sandbox
-- from the warm pool (`WorkerPool.acquire`), which reserves a slot of the quota for each live sandbox,
-- runs there, and ends its claim with the result (`RunnerDB.finish_run`) or without one
-- (`RunnerDB.abandon_run`). Background passes reap idle sandboxes and purge old rows. A runtime image
-- is retired by a row of the lifecycle store, which closes the gate before the pool. Images are made
-- by the build service, which shares one environment between the requests that it can serve.
--
-- Which file models which part:
--   Errors     runner_engine/errors.py; exceptions are values of `Exn`, a call's outcome a `Result`.
--   Exec       calls that change an object and may raise: the object comes back beside the outcome.
--   Dict       Python dictionaries; Table PostgreSQL tables with SELECT, UPDATE, DELETE and INSERT.
--   Model      runner_engine/model.py, the dataclasses.
--   Quota      runner_engine/quota.py: `reserve_live`, `release_live`, `creation_slot`; Quota.Slots
--              relates the counters to the bag of slots that are held, and Quota.Refines
--              has the bag's own calls.
--   Backend    runner_engine/sandbox/backend.py, the protocol: an argument of the pool, with what
--              the pool relies on about `create` in `IsBackend`.
--   Pool       runner_engine/pool.py, `WorkerPool`: `_key`, `_idle_expired`, `_destroy`,
--              `invalidate`, `release`, `reset_after_restart`; Pool.Acquire `acquire` with
--              `_ensure_sandbox_ttl` and `_ensure_release`; Pool.Sweep `reap`, and `retire_runtime`
--              and `retire_idle_worker` of runner_engine/lifecycle_runtime.py. Pool.Invariant
--              states what holds between two calls, Pool.History the sequences of calls.
--   State      runner_engine/state.py, `RunnerDB`: the tables; State.Leases the leases;
--              State.Results the JSON of results; State.Claims and State.Runs the executions with
--              the claims on idempotency keys. State.Ledger states what holds between two calls.
--   Service    runner_engine/service.py, `RunnerService`: `_filter_attributes`,
--              `_validate_attributes`, `startup`, a turn of the loop of `start_background`,
--              `acquire_lease` and `cancel`; Service.Invoke `invoke`: `vet` the checks, `begin` the
--              claim, `execute` the try with its handlers. The catalog is an argument.
--   Lifecycle  runner_engine/lifecycle_store.py, `RuntimeLifecycleStore`; Lifecycle.Gate and
--              Lifecycle.Controller `LifecycleWorkerPool` and `RunnerLifecycleController` of
--              runner_engine/lifecycle_runtime.py; Lifecycle.Front `LifecycleRunnerService` of
--              runner_engine/lifecycle_service.py without `invoke`.
--   Catalog    runner_engine/catalog.py, `Catalog`: `save` and `get` over the release directories.
--   Build      build_service/store.py, `BuildStore`; Build.Resolve `BuildService` of
--              build_service/service.py: `resolve`, `retry` and `_build`, with the specification of
--              build_service/model.py. The tools that lock, build and verify are arguments.
--
-- How it is modelled. A `Worker` object is shared by the pool, the calls that hold it and `cancel`:
-- it is a reference into the pool's store. Each public call is one step: waiting for a lock, for
-- the creation semaphore or for a row lock is not modelled, and a call is taken whole, also where
-- the program lets go of the pool's lock while the backend works; a call that fails between is the
-- exception it raises. Lifecycle.History takes an acquisition as two steps, and Build.History a
-- build as its writes. `pending` stands for slots that such calls have reserved. Monotonic times
-- are milliseconds and database times are microseconds, both natural numbers; a call that reads
-- both clocks gets both readings in `Clocks`. Times to live, retentions and timeouts are natural
-- numbers. UUIDs are arguments, as are the backend, Base64, the length in UTF-8 and the hashes that
-- name requests and runtimes. Of state.py the column created_at, which no call reads, is left out.
-- `get_lease`, `renew_lease` and `release_lease` of the service are the calls of `RunnerDB`. All
-- recursion is on lists, so there is no fuel. An attribute is a text or another value of JSON,
-- since a worker may answer with either. The UNIQUE constraints on an environment's key and image
-- raise where a write violates them. `_epoch_ms` divides exactly: that the product of floats of the
-- code may come out one millisecond less is not modelled.
--
-- Not modelled: the policies, `invoke` and the snapshots of the lifecycle classes, the sandbox
-- backends, the worker inside the sandbox, the gRPC and HTTP fronts, the reading of locks and the
-- image builder, and the publish, authoring and web services. The schema migration of state.py is
-- SQL run once.
pub mod Prelude
pub mod Errors
pub mod Exec
pub mod Dict
pub mod Table
pub mod Model
pub mod Quota
pub mod Backend
pub mod Pool
pub mod State
pub mod Service
pub mod Catalog
pub mod Lifecycle
pub mod Build
