-- ===== src/Lib.antt =====
-- A model of the durable background jobs, the resumable uploads, the folders and their shares, and
-- the choice of a download's tracks in VideoCMS, a self-hosted manager of videos. Uploads,
-- downloads, encodings, migrations and maintenance are jobs, a job has tasks, and the rows of both
-- stand in a database. The package background runs them: a client queues a job (Enqueue), the
-- dispatcher claims the tasks that are ready while a queue has free places, a worker runs the
-- handler of the task, and finish stores what came of it. Users pause, resume, cancel and retry; a
-- handler may pass a fence (BeginCommit) before work that cannot be undone. After each change
-- recomputeJob derives the job's status and progress from its tasks.
--
-- A user, or a guest who came through a share of a folder, uploads a video with the tus protocol.
-- The package services/tusupload accepts the upload (preUploadCreate) within the user's quota and
-- the share's limits, follows the events that the protocol's handler announces, removes uploads
-- that expire, and queues the import of a complete one as a background job, whose handler makes a
-- video of the file (finalizeContext). The package sharing says which folders a share reaches and
-- how much room is left in them.
--
-- The files, by the code that they model, under background/ of the repository:
--   Background/Types         types.go: Job, Task, Attempt, Event, the specs, the statuses
--   Background/Text          boundedMessage, RedactDiagnostic, marshalPayload; the libraries' parameters
--   Background/Database      the tables, and a transaction as a function that returns tables or an error
--   Background/Errors        errors.go: classifyError
--   Background/Reduce        recomputeJob
--   Background/Runtime       the active workers, capacity, activeCount, cancelActive
--   Background/Enqueue       store.go: Enqueue, validateJobSpec, validateIdempotentReuse, createTask
--   Background/Control       PauseJob, ResumeJob, RunJobNow, CancelJob
--   Background/TaskControl   RetryJob, CancelTask, RetryTask, CancelKinds
--   Background/Claim         claim, launch, dispatchAvailable
--   Background/Finish        finish, retryDelay
--   Background/Commit        ReportProgress, BeginCommit
--   Background/Recovery      Recover, recoverStaleTasks
--   Background/Retention     Retain, SetQueuePaused, ensureQueues
--   Background/Schedules     RegisterSchedule, ensureSchedules, runDueSchedules, refreshScheduleOutcomes,
--                            RunSchedule
--   Background/Summaries     Summary of store.go, and QueueSummaries for one queue
--   Background/Capabilities  store.go: what a client may do with a job, in Job and in ListJobs
-- and under other directories:
--   Media                    models/*.go: the rows of sessions, users, folders, files, links and shares
--   Sharing                  sharing/folders.go, logic/FolderDestination.go, and the recursive query
--   Sharing/Capacity         sharing/capacity.go: UploadCapacity
--   Folders                  logic/MoveItems.go, logic/CreateFolder.go
--   Download                 download/selection.go: ResolveSelection
--   Uploads/Tools            the settings and the libraries' parameters
--   Uploads/Limits           services/tusupload/service.go: the quota and the limits
--   Uploads/Guests           services/tusupload/shared.go: what a guest may upload
--   Uploads/Create           service.go: preUploadCreate
--   Uploads/Events           updateSessionFromEvent, completeSessionFromEvent, terminateSession
--   Uploads/Expiry           expireSession, CleanupExpiredOnceE, authorizeUploadResource
--   Uploads/Finalize         finalizeContext, transitionToImporting, completeFinalize
--   Uploads/Ingest           EnqueueFinalize, which composes with Background/Enqueue; SharedUploadStatus
--   Uploads/Videos           logic/CreateFile.go, logic/HashCloneFile.go: the rows that an import adds,
--                            with CheckStorageQuota of logic/User.go
-- A Go function keeps its name, in lower case with underscores; `_tx` marks the transaction of a
-- function that also signals workers, and `_edit` the writes of a transaction before it
-- recomputes.
--
-- The proofs: Consistent and Local have the invariant that a job's status is reduced from its
-- tasks, Operations, TaskEdits and Histories carry it through sequences of transactions; Status is
-- about the reduction, Fence about commits and cancellations, Offers about capabilities, Retries
-- and Endings about finish, Stranded about a requeued task of a canceled job, Intake, NewJobs and
-- Idempotent about Enqueue, Scheduling about claim and dispatch, Restart about Recover, Cleanup
-- about Retain, Timely about schedules; Lookup has lemmas on rows. Summaries proves what its
-- counts mean. In Sharing, Walk is about ContainsFolder, Subtree and Below are about the recursive query. In
-- Folders, Climb is about the walk of MoveItems, Forest and Changes about the tree that moves and
-- creations keep. In Uploads, Quota is about checkStorageQuota, Created inverts an accepted
-- upload, Tame, Edits, Within, Imports, Stored and Histories carry the quota through sequences of
-- operations, Reservation is about guests, Progress and Late about events, Taking about the import,
-- Finalized and Again about a repeated finalization, and Cleanup about expiry. Download/Tracks is about the
-- tracks of a download. Base has shared names and queries. Samples and Examples have test data and
-- concrete runs.
--
-- What stands for what: an identifier is a number, a time is a number of nanoseconds, a table is
-- the list of its rows in the order of their creation, by which `created_at ASC` orders. Counts
-- and priorities are unbounded numbers, and a weight, a version or a limit of attempts that is not
-- positive is 0. recomputeJob adds, multiplies and divides weights as int64s, by add64, mul64 and
-- div64; a sum of weights that wraps around to 0 is beyond the model, since Go panics there. A negative number remains possible where the code tests for one
-- (progress, retry delay). No loop of the background needs fuel: each one runs over a list or over
-- the free places of a queue. The record Library holds what other packages do (trimming,
-- formatting, JSON, the digest, regular expressions, SQLite's age of a row), and the record
-- Outside the keys, identifiers and error texts that a schedule is run with; nothing is assumed of
-- them.
--
-- For the uploads, a request returns a Reply, which accepts with a value or refuses with an HTTP
-- status. A deleted row keeps its place with `deleted` set, and only an Unscoped query sees it.
-- Sizes are numbers, and Go's sums of int64 wrap around by add64 and compare by gt64 where a sum
-- may overflow (the quota and the size of a group). A setting's limit that is not positive
-- is 0. A user's storage is an int64 by its bits: 0 is no limit, a negative one is 2 ^ 63 or more. createMu and cleanupMu keep two acceptances, or two clean-ups, from running at
-- once, so each is one step. The disk is the size of the file at each path, and `stuck` tells
-- where a file cannot be moved or removed. What logic/CreateFile.go answers, and what
-- BeginCommit answers, are arguments of the finalization; the rows it adds are in Uploads/Videos, and
-- in the histories of the quota an import is one step, from the quota check to completeFinalize. In
-- the code the video counts besides its reservation between those two. ContainsFolder's loop has its own bound,
-- 256 rounds. The recursive query runs as many rounds as there are folders, and the walk of
-- MoveItems has one round more than there are folders; a walk out of rounds would have no answer,
-- which Folders/Climb excludes.
--
-- Not modelled: failures of the database, which roll a transaction back; the goroutines and timers
-- around the transactions, and what a handler does; the health of the loops; the lists of jobs and
-- schedules for clients; updated_at; the HTTP side of the uploads, their tokens, and the clean-up
-- of the rows of an older schema. The rest of the repository (storage and its migration, media
-- cache, the preparation of downloads, accounts, controllers) is not modelled.
pub mod Base
pub mod Background
pub mod Media
pub mod Sharing
pub mod Uploads
pub mod Folders
pub mod Download
pub mod Samples
pub mod Examples
