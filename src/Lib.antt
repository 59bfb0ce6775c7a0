-- ===== src/Lib.antt =====
-- A model of backup-maker-controller, a Kubernetes operator that schedules backups, and theorems about it.
--
-- The program keeps three kinds of resources of the group riotkit.org/v1alpha1. A ScheduledBackup names
-- a template, the secrets of the keys and of the token, and variables; its reconciler hydrates an
-- aggregate of these, renders Kubernetes objects with Backup Maker Generator, applies them and writes
-- the outcome into the status. A RequestedBackupAction asks for one run: its reconciler hydrates the
-- aggregate of the backup with the action on top, renders and applies only Jobs, and marks the action as
-- processed. Two observers collect the health of the Jobs that a resource owns, which are found by a
-- tracking label, and store a report. Every round of the four runs under a lock by the name of the
-- resource, in the memory of the process or in Redis.
--
-- The files, and the Go code that each is about:
-- - Prelude: lists, Go maps, texts, and Go functions. A Go function that fails or panics is a function
--   from a state to an outcome and a state; what was changed before a failure stays changed.
-- - Kube: the shapes of the objects of Kubernetes' own packages, with the fields that are used.
-- - Libs, Cluster, Workspace, Gpg.Crypto, Locking.Redis.RedisLock: the code that is not in the repository,
--   as records of functions that the definitions take as a parameter: pure library functions, the API
--   server and its clients, the disk and the generator, gopenpgp, and the Redis client; and
--   Cmd.Packages.Runtime, Client.Rest.Rest, Client.Clientset.Packages, Client.Fake.Fake,
--   Client.Fake.Clientset.Testing, Api.Register.Schemes,
--   Client.Informers.Generic.Constructors, Client.Listers.Indexer and Api.DeepCopy.MetaV1 for the start of
--   the process, the generated client and the generated deep copies. The laws that a theorem relies on
--   are separate records: Libs.IsLawful,
--   Cluster.RetryStops, Workspace.IsTidy, Locking.Redis.Server.IsServer, Locking.Redis.Expiry.Expires,
--   Factory.Hydrate.Frame.IsSecretFree, Controllers.Observers.Lifecycle.SaysProcessed,
--   Controllers.Observers.Backups.SaysApplied, Controllers.RequestedBackupAction.Story.TellsJobs,
--   Api.DeepCopy.Separate.IsDeep, Api.Register.Known.IsLawful, Client.Fake.Clientset.Held.Tracks,
--   Bmg.Definition.Values.HasPaths, Cmd.Setup.IsIdle, Cmd.Setup.IsRegister, Client.Listers.Scope.IsKeyed.
-- - Api: pkg/apis/riotkit/v1alpha1, with the templates of pkg/domain. DeepCopy is zz_generated.deepcopy.go,
--   over a store of the arrays behind slices, Register is register.go with the schemes of the client set.
-- - Domain: pkg/domain. The aggregates, the interface Renderable with its two implementations as the
--   constructors of a data type, and the filters of kinds.
-- - Locking: pkg/locking. InMemory and Redis fill the record Locker. Interleaving takes the calls of
--   several reconcilers as steps in any order, each call as one step, although the code has no mutex.
--   Contract is what a locker promises, a table of owners; Contract.InMemory is about the locker in
--   memory, and Controllers.Lock reasons from the contract alone. A lock in Redis
--   can expire, and a release can fail and its error is dropped, so that locker keeps less than the
--   contract: Redis.Server is about what it keeps, and Redis.Expiry about time.
-- - Gpg: pkg/gpg.
-- - Integration: pkg/integration.
-- - Factory: pkg/factory. Hydrate is hydrateGPGSecret and the reads of the cache, Aggregates the other
--   steps and the two constructors, Fetching is FetchSBAggregate and FetchRBAAggregate.
-- - Bmg: pkg/bmg. State is what rendering and applying change; Definition, Manifests and Render are
--   templating.go, Apply is applying.go and utils.go. Definition.Values is about what a variable of
--   definition.yaml is in the end.
-- - Controllers: pkg/controllers. Controllers.under_lock is the frame that the four Reconcile methods
--   share; ScheduledBackup, RequestedBackupAction, Observers and Health are the files of the reconcilers,
--   of the observers and of the report.
--   ScheduledBackup.Unwatched is about a round of the reconciler and a later one of the observer.
--   ScheduledBackup.Settled and RequestedBackupAction.Rest are about the rounds that follow one another,
--   Observers.Lifecycle and Observers.Backups about those of a reconciler and an observer of one resource,
--   in any order, Health.Tracked about what the report says of the jobs that were applied, and
--   RequestedBackupAction.Story about an action from its application to the verdict on its jobs.
-- - Client: pkg/client, the generated client. Connect makes the client of the group and Clientset the
--   client set, Rest and Typed are the requests of the typed clients, Updates puts them under the
--   controllers, Fake is the fake clients and their client set, Watching and Informers are the
--   informers and their factory, Listers the reads of an index.
-- - Cmd: main.go and cmd/root.go. Packages are the values and the packages that are called, Setup is what
--   comes before the start of the manager, Endings how Run and the process end.
-- - Tests: samples of the parameters, and the theorems at concrete inputs.
--
-- Conventions. No function needs fuel: each loop goes through a list. A pointer that may be nil is an
-- Option. A Go map is a list of pairs, and a loop over it goes in the order of the list. A time is a
-- number of nanoseconds, a wait a number of seconds. An error keeps how it was made, since the code
-- compares texts of errors. Writes to an aggregate behind a pointer are writes to the state of
-- Bmg.State.Context. Log lines, the context argument and the resource version are left out, and the clock
-- that SetStatusCondition reads is no argument of it, so its stamp is the parameter's. The text of
-- an event is kept.
--
-- The generated files of the three resources differ in the type and the name of the resource, so their
-- methods are written once, and each file is an instance. `go informer.Run` adds the type of the informer
-- to the list of those that run.
--
-- Not modelled: the logger, the generated interfaces and constructors that only pass calls on, and the
-- deployment files. The body of a rendered object is a text: only its type and its metadata are read.
pub mod Prelude
pub mod Kube
pub mod Api
pub mod Libs
pub mod Locking
pub mod Domain
pub mod Gpg
pub mod Integration
pub mod Cluster
pub mod Client
pub mod Cmd
pub mod Factory
pub mod Workspace
pub mod Bmg
pub mod Controllers
pub mod Tests
