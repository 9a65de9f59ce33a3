-- ===== src/Lib.antt =====
-- A model of the modulex lifecycle manager, its diagnostics, the worker pool, the application runner, the
-- approval broker with its file store, the application of patches, the selection of checks, the check of
-- protected paths and the pull request review service.
--
-- The program is a Go library that composes an application from modules. A manager keeps the registered
-- modules, a service locator, check registries and supervised background tasks. It sorts the modules by
-- their dependencies, initializes and starts them in that order, and on a failure or a shutdown stops
-- them in reverse order, awaits the tasks and closes the event bus. Apart from it stand the worker pool,
-- which runs submitted tasks on a fixed number of goroutines, and the approval broker, which gives out
-- single-use grants for elevated actions and consumes them. The application of patches lands a batch of
-- file changes below one directory, or none of it, and asks the broker before it deletes. The review
-- service takes webhooks, limits their rate, and runs one review at a time per pull request, under a
-- lease on its job document. For a set of changed files the rules of the verification select the checks to
-- run, and the review refuses changes of protected paths.
--
-- Files, with the code that each is about:
--   Prelude      Go maps as association lists, TrimSpace, sort.Strings, lists and tests
--   Errors       the sentinel errors and error values of modulex.go
--   Module       Module, Starter, Stopper, Registry (modulex.go): the code of a module is a program that
--                calls the registry and goes on with the answers
--   Topo         sortModules, topoSorter (modulex.go)
--   Manager      Manager, NewManager, RegisterModule, RegisterService, ResolveService,
--                RegisterHealthCheck, RegisterReadinessCheck, GetConfig (modulex.go)
--   Tasks        TaskHandle, Go, superviseTask, waitForTasks, resetTaskCtx (modulex.go)
--   Runtime      the calls of a module's Init, Start and Stop (modulex.go: startModule, stopModule)
--   Lifecycle    runPhase, InitModules, StartModules, rollback, finalizeFailure, closeEventBus,
--                StopModules (modulex.go)
--   Traces       any sequence of these calls on one manager
--   App          Run, runStop, startModules and the options (app/app.go)
--   Approval     Scope, Grant (approval/approval.go), Broker (approval/broker.go) and, in its child
--                Storing, FileStore.Save and Load (approval/store.go)
--   Diagnostics  ModuleContract, Diagnostics and their parts (diagnostics.go)
--   WorkerPool   Processor, Handle, Submit, Close, worker, Stats (workerpool/workerpool.go)
--   PatchApply   resolvedPath (patchapply/path.go) in its child Paths; readCurrent, ensureDir,
--                writeViaRename, applyWrite, applyDelete in Disk; restoreEntry, removeCreatedDir,
--                rollbackEntries in Restore; the data and the guards of Apply in Batch; Apply, Rollback,
--                Verify in Applying (patchapply/patchapply.go)
--   PrReview     services/prreview/: the job document and its lease (store/store.go, store/memory.go) in
--                Jobs, the rate limiter (ratelimit/ratelimit.go) in Limits, the webhook
--                (webhook/webhook.go) in Webhook, ServeHTTP (receiver/receiver.go) in Receiver, Handle
--                and its steps (worker/worker.go) in Worker
--   Verify       PlanFor and its rules (verify/verify.go); Run, runOne, missingMakeTarget (verify/run.go)
--                in its child Running
--   Review       CheckProtectedPaths, matchPathSegments and the exceptions (review/protectedpaths.go)
--   Examples     test data, and the results applied to it
--
-- State and operations. The fields of the manager record are those of the Go struct. The task handles, the
-- clock, the calls of foreign code and a panic that ends the process are added, since the Go code keeps
-- them in the heap and in the world. A method that holds its locks for its whole body is one function on
-- this record. What happens while a method waits is an argument of it: the tasks that end meanwhile, in
-- their order, and the time that passes. A context is the function that gives ctx.Err() at each instant.
-- An error joined by errors.Join is the list of its causes. The worker pool is
-- modelled by its actions on what the goroutines share, one operation each, in any order, and counts the goroutines at each point of the code.
--
-- The disk of a patch is a tree of files and directories with the answers of the calls to come, true for
-- a failure, so that every call of the operating system may fail at every point; below a path of a batch
-- there is no symbolic link, and what filepath.EvalSymlinks answers is a parameter. An absolute path is
-- the list of its elements, the last first. The worker of reviews works on the job document and gives for
-- each access what other workers did to it before; GitHub, the engine, the model, the queue and the
-- codecs are arguments.
--
-- Bounds and fuel. The visit of the sort recurses on fuel, one more than the number of registered modules,
-- since each deeper call marks one more module as being visited. Counters and instants are natural
-- numbers: the code only compares and adds them, far below the bounds of int64. The counters of the pool
-- are read modulo 2 ^ 64, as are those of a job.
--
-- Not modelled: logging, tracing and the text of error messages, which decide nothing; calls of a manager
-- by other goroutines in the middle of a phase, other than where it waits for tasks; the event buses,
-- transports, command line tools and the other packages around the core; the text of a review comment; the
-- clients of GitHub, of the models, of the task queue and of the databases of the review service; the
-- previews of contents in the messages of a patch; the output of git, which is given, a diff by its hunks.
pub mod Prelude
pub mod Errors
pub mod Module
pub mod Topo
pub mod Manager
pub mod Tasks
pub mod Runtime
pub mod Lifecycle
pub mod Traces
pub mod Approval
pub mod Diagnostics
pub mod WorkerPool
pub mod App
pub mod PatchApply
pub mod PrReview
pub mod Review
pub mod Verify
pub mod Examples
