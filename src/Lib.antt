-- ===== src/Lib.antt =====
-- people-counter: the control plane of the video jobs. Work (one video to process) is registered
-- in a control database, claimed in batches under a lease, extended by heartbeats, sealed with its
-- outputs, and committed, which publishes each succeeded attempt once. A lease that expires is
-- recovered; dead work is replayed by an operator; obsolete work is quarantined. A driver verifies
-- the claimed envelope, plans it over its executors, and admits it to the lease; executors stage
-- content through a cache of their own, and report by events that one service drains. A local
-- driver has a queue of its own.
--
-- Lpt: `_lpt_makespan_seconds` of src/people_counter/sjd_control.py, the projection that a claim
--   uses to decide how much work fits a lease. Lpt/Assign has the lemmas on one assignment,
--   Lpt/Bound the bounds.
-- Control: `SQLiteControlStore` of the same file. Control/Tables has the tables that `bootstrap`
--   creates and the values that the methods return; each of Register, Admission, Claim, Lease,
--   Process, Seal, Commit and Replay has the methods its first comment names. Control/Steps is the
--   relation of one call that returns. Control/Sound has the invariant of the work table.
--   Control/Trace resolves each call into elementary writes, over which Control/Published
--   (publications) and Control/Evolution (content and fences) go by induction. Control/Recovery,
--   with Recovery/Progress, is about `recover`; Claimed, Heartbeat and Again beside a component
--   are about what its call has done, and about a call that is repeated, with Commit/Sequences
--   about the numbers that a commit reads back; Admission/Prefix and Admission/Budget about the
--   rows that a claim admits. Control/Runs and the Tests have concrete runs.
-- LocalQueue: `SQLiteQueue` of src/people_counter/local_queue.py, with Lock (claims and renewals)
--   and Finish (outcomes and reads); LocalQueue/Sound has its invariant and LocalQueue/Steps its
--   calls; Delivered, Enqueued and Finalized are about what a claim, an enqueue and a finalize
--   have done.
-- Planner: the part of src/people_counter/sjd_process.py that decides about a claimed batch.
--   Planner has the profile and the width, Planner/Envelope `verify_envelope` with
--   Envelope/Accepted about envelopes of the control store, Planner/Plan `plan_duration_lpt` and
--   `admit_lease`. Planner/Buckets, Waves and Planned are about the plan, and Agreement about the
--   store's projection and the driver's admission.
-- Executors: src/people_counter/fabric_executor_inventory.py, with Width for `plan_task_width` and
--   its placement check, and Safety about the width that is planned.
-- Events: src/people_counter/fabric_events.py, the service that applies the events of the workers.
--   Events/Planning plans a command, Events/Updates and Owned are about what a plan writes and
--   when; Events/Again (with Parts, Failure and Release) about a command whose writes are half
--   done or done; Events/Apply carries a plan out and drains the inbox, with Apply/Answer and
--   Apply/Drained about it.
-- SourceCache: src/people_counter/fabric_source_cache.py. SourceCache/Kept is about the entries
--   that an eviction keeps, Served about each step, Again about a call and the same call again.
-- CpuRuntime: the thread budgets of src/people_counter/cpu_runtime.py, with CpuRuntime/Safety
--   about the budget of a placement.
-- LineCounting: the coasting tracks of src/people_counter/line_counting.py, with
--   LineCounting/Items about the items of their cache and Coasting about a frame.
-- Prelude: texts, lists, results with the rules for a postcondition of a returned value
--   (`Returns`), and tables as lists of rows with SELECT, UPDATE, COUNT, ORDER BY and what they
--   keep.
--
-- A method is a function from the database before to a result: an exception, or the database after
-- and the returned value. A transaction that raises returns no database, which is its rollback;
-- transactions are serial (BEGIN IMMEDIATE), so an interleaving of callers is a sequence of calls.
-- The clock, the id factory and the caller's arguments are arguments, with nothing assumed of
-- them: clocks may go back and ids may repeat, where the keys of the tables then refuse the row. A
-- table is the list of its rows in insertion order. Times and durations are whole ticks; speed and
-- safety factor are whole thousandths, with the comparison of the projection multiplied out. A
-- payload is its canonical JSON; hashing, JSON and the content store are a parameter (`Codec`, or
-- a function of texts) with nothing assumed of it. The headroom of an executor is in whole
-- thousandths. The tables of the event service are lists of rows, a row is a function from column
-- names to values, and the time of each read of the clock is an argument; a write that changes no
-- row or several raises, with the tables as they are then. The JSON of an envelope is a record of
-- its typed fields, and the batch size in its payload is a parameter. The disk of the cache is a
-- function from names to what is there; the hash and the size of a content are parameters, the
-- stager writes its destination only, and of the accesses to the disk only the unlinking of a
-- directory raises. The conversions of the line counting to float32 and int32 are parameters, and
-- a frame's theorem needs track numbers that an int32 holds. Every loop is structural recursion on
-- a list or on a count; no fuel is used.
--
-- Not modelled: floating-point rounding, the checks of Python types at run time, `reconcile` and
-- `status` of the control store, the thread around the local queue, the discovery of executors
-- from Spark, the application of a thread budget to native libraries, the validation of events
-- against their schemas and the client that sends them, the Spark calls and the staging of
-- attempts of the process driver, and the rest of the package, which is video, model, Spark, REST
-- and command-line code.
pub mod Prelude
pub mod Lpt
pub mod Control
pub mod LocalQueue
pub mod Executors
pub mod SourceCache
pub mod Events
pub mod LineCounting
pub mod CpuRuntime
pub mod Planner
