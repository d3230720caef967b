-- ===== src/Lib.antt =====
-- A verification library for wasm_safe_thread: threads and synchronisation primitives that work
-- with and without `Atomics.wait`.
--
-- The program has these parts. `Spinlock` (src/spinlock.rs) guards a value by one atomic flag and
-- a closure. `Mutex` (src/mutex.rs, src/mutex/*.rs) is an atomic flag with two waiting lists,
-- each in a spinlock: threads that park, and tasks that await a continuation; its `Guard`
-- (src/guard.rs) releases it and wakes both lists. `RwLock` (src/rwlock.rs, src/rwlock/*.rs)
-- counts readers in a byte with a bit for a writer, and has two such lists for readers and two
-- for writers. `Condvar` (src/condvar.rs, src/condvar/*.rs) has a list for each way to wait, and
-- gives up and takes back a mutex guard. The channel (src/mpsc.rs) is a queue in a mutex with a
-- condition variable. The spawn hooks (src/hooks.rs) are an ordered list of named functions in a
-- mutex. Threads are those of the standard library (src/stdlib.rs) or, on wasm, workers
-- (src/wasm.rs, src/wasm/thread_api.rs, src/wasm/wasm_utils.rs, with the JavaScript in these
-- files): they run the hooks and their closure, send its result through a channel to a join
-- handle, park on a word of memory, and report their exit in a block of memory that the join
-- handle and the worker's host own together.
--
-- How the code is modelled. A component that threads share is a memory (a record of its fields)
-- and a program counter for each caller, with a constructor for each point between two accesses
-- to shared memory; one turn of a caller is one atomic access, written by clauses on its counter.
-- A schedule is a list of turns, each with the thread and with what the environment decides
-- there: the next call, a deadline that has passed, a spurious return of `park`, the drop of a
-- guard. The properties hold after every schedule. Memory orders are not modelled: accesses are
-- sequentially consistent.
--
-- `Base` passes on the libraries' names and has the tests and the lists (`Vec`) over native
-- numbers. `Interleave` has what the machines share: a flag with at most one owner (`Exclusion`),
-- waiting lists from which nobody is lost (`Wakeups`), and the number of threads in a state
-- (`Count`). `Interleave.Lock` is a lock as its users see it, an owner and the data, and
-- `Interleave.Sections` reads a run of a machine as operations on it: `Mutex.Refinement` fills it
-- for the mutex, and `Condvar.Sections` for the flag that stands for the mutex of a condition
-- variable and of a channel. `Interleave.SharedLock` is the same for readers and writers, as a
-- relation between what its users see before and after a step, and `Rwlock.Refinement` is about
-- it.
--
-- `Spinlock.Closure` is `with_mut` as a function, with rounds of the spin loop as fuel (one round
-- is enough on an unlocked spinlock) and with closures that panic; `Spinlock.Threads` is its
-- callers interleaved, and `Spinlock.Atomic` shows that a closure is one step. On this rest the
-- other parts, where a closure of `with_mut` on a list is entered, run and left in three turns
-- (`Mutex`, `RwLock`) or in one (`Condvar`).
--
-- `Mutex.State` is the memory; `Mutex.Block`, `Mutex.Async`, `Mutex.Spin` and `Mutex.Unlock` are
-- the calls `lock_block`, `lock_async`, `lock_spin` and their timed variants, and the drop of a
-- guard with `did_unlock`; `Mutex.Machine` joins them, with `lock_sync` and the closures run on a
-- guard. `Mutex.Exclusion`, `Mutex.SyncWakeups` and `Mutex.AsyncWakeups` are the invariants,
-- `Mutex.Safety`, `Mutex.Progress` and `Mutex.Release` the theorems; the last two are about one
-- caller that runs alone (`Mutex.Solo`), with the number of turns that a call needs.
--
-- `Rwlock.*` is `RwLock` in the same way: `Rwlock.Read`, `Rwlock.Write`, `Rwlock.Unlock`, and the
-- machine with a bounded number of threads, since the byte counts them. A panic in
-- `try_lock_read` is a program counter, with the list whose spinlock it leaves locked.
-- `Rwlock.Drain` and `Rwlock.Release` are the drop of the last guard, by a thread that runs alone
-- (`Rwlock.Solo`).
--
-- `Condvar.Notify` and `Condvar.Wait` are the notifications and the six waits, over the lock of
-- one mutex as a flag; `Condvar.Machine` joins them, `Condvar.Roles` and `Condvar.Covered` are
-- the invariant that a waiter is never dropped from its list without being woken, and
-- `Condvar.Laws` has what one notification does, and `Condvar.Deadline` one that comes at the
-- deadline of a wait.
--
-- `Hooks.Registry` is the list of spawn hooks with its operations; `Hooks.Names` reads it as a
-- map and `Hooks.Runs` has the hooks that run. The operations hold the registry's mutex
-- throughout, so each is one step.
--
-- `Condvar.While` is the loop of the `wait_*_while` methods, over a list of what its waits
-- return. `Condvar.Monitor` has these loops in the machine, with the condition that they test and
-- the value in the mutex: any threads lock, write, wait for conditions and notify.
-- `Condvar.MonitorSafety` is what a return of a loop means, `Condvar.Calls` puts the loops beside
-- the calls of a schedule, and `Condvar.Refinement` takes the conditions and the value away,
-- which leaves `Condvar.Machine`. `Condvar.Owners` says who has the mutex in a wait.
--
-- `Mpsc.Send` and `Mpsc.Recv` are the methods of the sender and of the receiver, `Mpsc.Machine`
-- any number of handles on one channel, whose queue is locked by the flag of a `Cond`; a thread
-- has at most one handle, and a clone goes to a thread that has none. The properties need fewer
-- threads than `usize` counts. `Mpsc.Roles` and `Mpsc.Invariant` are the invariant, `Mpsc.Safety`
-- and `Mpsc.Stranded` the theorems. `Mpsc.Wakeups`, `Mpsc.Sent` and `Mpsc.Taken` are the
-- invariant of the receiver's registration, for receives that all poll a flag or all wait in a
-- task (`Mpsc.Polled`). `Mpsc.Parked` is the one for receives that park without a deadline, whose
-- stale registrations after a spurious return are all of the receiver's thread (`Mpsc.Rung`,
-- `Mpsc.Roused`). `Mpsc.Delivery` rests on the two, for schedules of such receives (`Mpsc.Runs`,
-- `Mpsc.Notifying`). A receive that parks with a deadline is in the machine and not in that
-- theorem. `Mpsc.Unsent` is a channel whose sender is not used, and `Mpsc.Sources` traces
-- messages back to the calls of `send`.
--
-- `Parking.Machine` is `park`, `park_timeout` and `unpark` of the wasm backend over the word
-- `parking_state`, one owner and any number of threads that unpark it; `Parking.Spec` is the
-- token of their documentation as a relation, and `Parking.Safety` what a parked thread can rely
-- on. The other components take the token itself.
--
-- `Exit.Machine` is the block `[exit_code, ref_count]` of a worker: the host that stores the exit
-- code and gives up its share, and the join handle that waits for the code and is dropped.
-- `Exit.Safety` is about its memory, `Exit.Join` about what the handle learns. That the worker's
-- exit or its error arrives once is a condition there. `Threads.Reports` has where it comes from:
-- the course of a worker's script in a browser or in Node, which may throw an error at each of
-- its steps, the messages and events by which it ends, and the handlers at its host.
-- `Threads.Endings` is the way back from what a join learns to how the script ended. Errors that
-- a task of the worker throws outside the script are not in it: `Exit.Safety` has what a second
-- report does. `Exit.Handlers` is the registration of the handler that frees the block, which the
-- other theorems take as given. The error that the script of a browser throws again rejects a
-- promise, and that is not an error event at the host.
--
-- `Threads.Spawn` is what a spawned thread does, in order, and what a join makes of it, on both
-- backends (`Threads.Results`); `Threads.Channel` puts the channel of `Mpsc` between the two. The
-- text of a panic is a parameter, and a panic on wasm ends the worker, since it aborts there.
-- `Threads.Relay` is the making of a browser worker by the host that spawns it or by one of its
-- parents, and `Threads.Shim` the URL of the script that it loads, with `new URL(…).pathname` as
-- a parameter, which `Threads.Script` describes. `Threads.Identity` is the numbering of threads
-- and `current`, `Threads.Builder` the spawns that give a thread its number and its handle,
-- `Threads.PanicHook` the panic hooks of threads that start at the same time, and `Threads.Tasks`
-- the count of pending tasks, in builds with and without overflow checks.
--
-- `Threads.Console` is the capture of a thread's printed text, as code points, and its flush to
-- the console; `Threads.Shown` has its laws, and `Threads.ConsoleHook` the hook of src/lib.rs
-- that redirects the output of each thread, among hooks that print, and the flush before a thread
-- sends its result, as on a nightly compiler (on others the hook and the flush do nothing). That
-- a text is printed in whole lines is a condition there, since a flush ends a line.
--
-- `Platform.Globals` is what the code asks of a JavaScript context: whether `Atomics.wait` works,
-- the main thread, and the number of processors; `Platform.Blocking` puts the first beside
-- `Parking`. `Platform.Sleeping` is a sleep, over what a clock shows, with the duration of a
-- timed wait as a parameter.
--
-- `Executor.Spawn` is the polling loop of src/test_executor.rs, with polls as fuel (one more than
-- the future is pending for is enough), and the future of src/stdlib.rs that yields once.
-- `Executor.Worker` is the same executor on wasm, a worker that queues a future and whose script
-- then looks for pending tasks; what the future awaits is a list of microtasks and events.
--
-- Park tokens are Booleans of the threads, and continuations are numbers with a Boolean that says
-- whether they were sent: `std::thread::park`, `Atomics.wait` and the crate `continue` are code
-- that is not here, used as documented. The thread that a timed async wait spawns for its timeout
-- is the choice that the timeout fires. A wake-up of the relocking after a wait is not told apart
-- from a spurious one.
--
-- Not modelled: the calls that make a worker in a browser or in Node (src/wasm.rs); yielding
-- (src/wasm/wasm_utils.rs), thread-local keys (src/lib.rs), and the calls that src/stdlib.rs
-- passes on to the standard library; formatting, macros and the tests.
pub mod Base
pub mod Interleave
pub mod Hooks
pub mod Spinlock
pub mod Mutex
pub mod Condvar
pub mod Rwlock
pub mod Mpsc
pub mod Parking
pub mod Platform
pub mod Exit
pub mod Executor
pub mod Threads
