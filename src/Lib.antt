-- ===== src/Lib.antt =====
-- The verification library of digital.vasic.background, a Go package that queues background tasks,
-- runs them on a pool of workers that adapts its size, and finds the tasks that are stuck.
--
-- Parts. A task is put into a queue; a worker of the pool takes the most urgent task that fits its
-- share of the machine, runs the executor of the task's type, and stores the task as completed,
-- gives it back for another attempt, or buries it. The pool spawns workers under pressure and idle
-- workers leave. A loop asks the stuck detector about the tasks whose heartbeat is old. A client
-- waits for a task by asking for it again and again. Events of a task's life go to a publisher,
-- through a bounded channel if it is asynchronous; a messaging queue stands before another queue and
-- announces what its calls did, and a wrapped executor the progress and the end of a run. A monitor
-- reads the load of the machine and samples the processes of running tasks.
--
-- Files.
--   Base, Base/*          Shared: Boolean tests, lists over native numbers, integers, instants, decimal
--                         printing, maps with string keys.
--   Task                  The data of a task, and the methods of digital.vasic.models (`Models`).
--   EventData             The data that is logged or notified with an event.
--   Float                 The operations of float64 (`FloatOps`).
--   Memory, Memory/*      InMemoryTaskQueue (task_queue.go): the state is a heap of tasks, the map
--                         from ids to references, and the slice of references in order; Enqueue,
--                         Dequeue, Peek, Requeue, MoveToDeadLetter, the counts, sortQueue.
--   Memory/Bag, .../Refines  The contract of a queue whose entries are a bag, and the refinement.
--   Postgres, .../Cache   PostgresTaskQueue (task_queue.go) over a repository that is a parameter.
--   Postgres/Stats        GetStats; Postgres/Depth has GetQueueDepth in the steps between its locks.
--   Runner, Runner/*      The challenge runner (challenges/runner/main.go): its repository, the
--                         executor of the first section (Locales), the sections 2 to 4 (Queueing, Detecting,
--                         Monitoring), and the table of topics of section 5 (Routing).
--   Queue                 The interface TaskQueue (interfaces.go), and runs of calls through it;
--                         Memory/AsQueue and Postgres/AsQueue fill it.
--   Report                The interfaces ProgressReporter and TaskExecutor (interfaces.go): a program
--                         that looks at its task, edits it and makes reports.
--   Messaging             MessagingTaskQueue over any TaskQueue (messaging_adapter.go); Refines and
--                         Announces compare it with the queue behind it, Notices counts events.
--   Messaging/Executor    MessagingProgressReporter and MessagingTaskExecutorWrapper
--                         (messaging_adapter.go).
--   Resources             ProcessResourceMonitor (resource_monitor.go): the cached resources of the
--                         system (Recent, Available), the snapshot of a process (Process), and the
--                         monitors with their loops (Monitors, its Consistent and Laws).
--   Pool/Wait             WaitForCompletion and WaitForCompletionWithOutput (worker_pool.go):
--                         when they return (Laws), how they sleep and report (Reports).
--   Pool/WaitMany         WaitForMultiple.
--   Pool/Reporter         taskProgressReporter; Laws says what a log entry holds.
--   Pool/Status           GetActiveTaskCount and GetWorkerStatus.
--   Pool/Scale            Scale, checkAndScale, canScaleDown, calculateWorkerRequirements.
--   Pool/Execute          executeTask, handleTaskSuccess, handleTaskError, updateHeartbeats; outside
--                         calls are a list of effects, which Tally counts.
--   Pool/Stale            handleStuckTask, checkForStuckTasks; Causes puts the detector of Stuck in.
--   Pool/Round            The end of executeTask on the objects of an InMemoryTaskQueue (Settles).
--   Pool/Workers          spawnWorker, workerLoop, signalStop, Stop as interleaved steps over the map.
--   Pool/Lifecycle        Start, Stop, workerLoop and the three loops behind tickers as interleaved
--                         steps over WaitGroup, context and `started`: Counts, View (which compares
--                         them with Pool/Workers), Stop and Restart; Ids finds an id not in use.
--   Metrics               RecordResourceSnapshot, CleanupTaskMetrics, UpdateQueueDepth (metrics.go)
--                         over the gauges of Prometheus, which are a parameter with two laws.
--   Resources/Mock        MockResourceMonitor (resource_monitor_test_helpers.go).
--   Metrics/Registry      NewWorkerPoolMetrics, GetGlobalMetrics, SetGlobalMetrics over a registry
--                         that is a parameter with three laws; Once follows any calls.
--   Stuck                 DefaultStuckDetector (stuck_detector.go): thresholds and IsStuck, with
--                         what is behind each reason (Symptoms, Causes) and its Laws.
--   Stuck/Analysis        AnalyzeTask; Stuck/Config is StuckDetectorConfig.
--   Events                Types, topics and contents of task events (events.go).
--   Events/Publisher      TaskEventPublisher (events.go); Runs and Drain follow it through any calls.
--   Events/Sinks          NoOpEventPublisher and LoggingEventPublisher (event_publisher.go), and the
--                         countingPublisher of the challenge runner.
--   Events/Ids            generateEventID and randomEventString (events.go).
--   Events/Messages       The methods PublishTaskCreated to PublishTaskDeadLetter (events.go).
--   Translation           Tr, SetTranslator (i18n/translator.go) and BundleTranslator (i18n/bundle.go);
--                         Translation/Template is strings.ReplaceAll.
--   Checks, Checks/*      Runs of the definitions, and the theorems at concrete inputs.
--
-- Numbers. Instants are natural numbers of nanoseconds, durations and Go's ints are integers without
-- a bound; Stuck says why its sums of byte counts need none. float64 is a bit pattern with the
-- operations of `FloatOps`, which the theorems take as a parameter.
--
-- Bounds and fuel. Loops are recursions over the lists they walk. Decimal printing of n takes fuel
-- n + 1, more than the number of its digits. The loop of WaitForCompletion has no bound of its own:
-- it is a recursion over the events that its select receives, and `waiting` says that these have run
-- out. The interval of that loop is computed in float64; the model's i * 3 / 2 is exact for it.
--
-- Not modelled: the reading of the bundles, which only calls other systems; of the challenge runner,
-- the rest of sections 1 and 5, which print what the modelled components answer;
-- logging; the locks, each call under a lock being one step unless a file says otherwise.
mod Base
pub mod Task
pub mod EventData
pub mod Float
pub mod Queue
pub mod Report
pub mod Memory
pub mod Pool
pub mod Resources
pub mod Postgres
pub mod Messaging
pub mod Stuck
pub mod Events
pub mod Metrics
pub mod Translation
pub mod Runner
mod Checks
