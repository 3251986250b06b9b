-- ===== src/Lib.antt =====
-- Verification of the executors, alarms, timers and synchronisation primitives of the AURIX TC365 async
-- runtime.
--
-- The program is an async executor for one TriCore core and the primitives that its tasks share. A
-- task is polled; a primitive that cannot serve it keeps its waker, and the call that ends the wait
-- wakes it. Each primitive of `src/sync` is a state behind a blocking mutex, so each call is one step on
-- that state, and the model of a call is a function from the state to the new state, the wakers that
-- it woke, in order, and its result. `Outcome` says whether it returns or panics (an `assert!`, an
-- `unwrap` on nothing). A future is modelled by one poll of it. `usize` has 32 bits and `u64` 64; their
-- wrap-around is written out.
--
-- An executor polls the tasks in its run queue. `exec_once` first moves the tasks whose timers have expired to the
-- run queue, then polls until the queue is empty and keeps the timers that the tasks set, then sets an
-- alarm for the earliest timer. The timer interrupt calls the alarms that are due, and an alarm pends
-- its executor: the thread executor by the local event, an interrupt executor by its software
-- interrupt. The model of these parts is a world: the kernel, the executors and the tasks. A call that
-- the code makes on shared statics is a function from world to world. Before all that, the start-up code clears and
-- fills the memory and calls the constructors; its model works on bytes. What the body of a task does in a
-- poll is a parameter, as a sequence of the calls that tasks make (`Body`).
--
-- Which file is about which code:
--   Prelude         lists and slices by native numbers, `Outcome`, `Result`, `Poll`, 32-bit arithmetic
--   Heapless        the crate heapless: `Deque`, `Vec` and `BinaryHeap` as interfaces whose laws are its
--                   documented behaviour; Model and Sorted are instances, by which the tests run; Due, Any and
--                   Pushes have lemmas on lists of timers and on pushing one element after the other
--   Sync/RingBuffer src/sync/ring_buffer.rs: `push_buf`, `push`, `pop_buf`, `pop`, `wrap`; Inv has the
--                   invariant and the occupancy
--   Sync/Waitqueue  src/sync/waitqueue/waker_registration.rs, and multi_waker.rs in MultiWaker, atomic_waker.rs in
--                   AtomicWaker; a waker is
--                   the address of its task, by which `will_wake` compares
--   Sync/Pipe       src/sync/pipe.rs: the calls of `Pipe` in Pipe, the futures in Futures and WriteAll; Contents gives the
--                   bytes held, Calls the calls that do not panic, Filling the fills; Client is what a client may call,
--                   Stream, Steps and Runs the bytes that its calls move, Wakeups, Traces and Stranded who sleeps
--   Sync/Channel    src/sync/channel.rs: `ChannelState` and `SendFuture`, the other futures in Futures; Order has
--                   the messages, Wakeups the tasks that sleep; Handles has several channels in memory, with the
--                   handles in Senders and Receivers, Uses, Kept and Runs what tasks do with them
--   Sync/Priority   src/sync/priority_channel.rs: `ChannelState` over a `BinaryHeap`; Service has the messages
--                   of a call and Runs those of a run, Wakeups the tasks that sleep
--   Sync/Zerocopy   src/sync/zerocopy_channel.rs: `State` and the polls; Slots has the slots, Wakeups
--                   the tasks that sleep
--   Sync/Signal     src/sync/signal.rs
--   Sync/Mutex      src/sync/mutex.rs: `lock` as `poll_lock`, `try_lock`, and the guards' `drop`; Guards
--                   has the value and the access to it through both kinds of guard; Exclusion has the interleavings of
--                   tasks as a relation, Sections the same with the writes to the value
--   Sync/OnceLock   src/sync/once_lock.rs, against an optional value in Refine
--   Sync/Pubsub     src/sync/pubsub/mod.rs: `PubSubState`; Counters and Invariant relate the counters of
--                   the messages to the positions of the subscribers, Read, Calls, Leave and Leak have
--                   the calls, Popping the loop of `unregister_subscriber`; Handles is src/sync/pubsub/subscriber.rs and publisher.rs; System has runs of calls
--                   of several publishers and subscribers, and Log, Heard, Publishing and Runs which messages each
--                   subscriber hears
--   Sync/Select     src/sync/select.rs: one poll of each form; First has the arrays, Forms the others
--   Time            src/time/timer_queue.rs: `TimerQueue`; Expiry has `dequeue_expired`
--   Cpu/Alarm       src/cpu/alarm.rs: `AlarmQueue`; Calls has `call_all_expired`, Handles the callbacks
--   Cpu/Kernel      src/cpu/cpu0.rs and src/executor/pender.rs: ticks, event, requests and alarms; Interrupt
--                   has the timer interrupt, Due the alarms that are due by a time
--   Cpu/Executors   src/cpu/executor_list.rs: `ExecutorList`; Start has the start of an interrupt executor
--   Executor        src/executor/base_executor.rs, task.rs and waker.rs: the queues in Executor, the loop in Run; Tasks
--                   is what a task can do in a poll, with src/executor/yields.rs and src/time/timer_fut.rs; Loop is the
--                   turns of src/executor/thread_executor.rs and interrupt_executor.rs among interrupts, as a
--                   relation; Expired has `check_timer_queue`, Advance and Yields `advance_runnable_tasks`,
--                   Once `exec_once`, Armed and Sleep `renew_alarm` and the alarm that it sets, Calls, Grows and
--                   Wakeups the wake-ups
--   Runtime         src/runtime.rs: `Crt0BssInit`, `Crt0DataInit`, `Crt0CtorInit`, the routines that they call and the
--                   list of context save areas, over the loads and stores in Words; Clear, Copy, Tables and Csa have
--                   what they do
--   Memory/Bump     src/memory/bump.rs; Blocks has the blocks
--   SrpMutex        src/srp_mutex.rs; Ceiling has the ceiling
--
-- Bounds and fuel. The pipe's capacity `cap` is the const parameter `N`; a valid ring has less than 2 ^ 31
-- slots, since no Rust array is larger than `isize::MAX` bytes. The places of a `Deque` are fewer than 2 ^ 32, by the type of `N`. `pop_read`, the loop of
-- `unregister_subscriber`, runs for the length of the queue, and each round pops a message. `expire`, the loop of
-- `dequeue_expired`, has one round more than the queue has timers, and it panics when it runs out, so
-- a result shows that it did not; two rounds are enough for `try_next_message_pure`. `call_expired`, the loop of
-- `call_all_expired`, is counted like `expire`. `advance_runnable_tasks` is given a number of rounds and says whether it came to its end; a task that
-- wakes itself can keep it from ending. The theorems on pubsub take fewer than
-- 2 ^ 63 messages to be published, and a run of them has fewer than 2 ^ 63 calls. The loops of the start-up code that walk a table get one round more than
-- the table has rows, and those that count a register down run for the count.
--
-- Not modelled: the set-up of registers, of the stack and of the vector tables in src/runtime.rs, the set-up of hardware
-- and allocators in `Kernel::init`, and the console output; src/memory/heap.rs, a copy of the crate linked_list_allocator that is
-- commented out; the blocking mutex and the logging macros, which are the boundary of a step here;
-- src/sync/waitqueue/atomic_waker_turbo.rs; the handles of the priority channel and the pipe, which pass one call on;
-- and the demonstration programs (src/main.rs, src/test_cases.rs). A task that spawns tasks in its poll is not modelled, and
-- the allocation of a task in `spawn` is taken to succeed. The
-- blocking mutex is taken to exclude; interrupts inside a step are not considered: a step of the executor is a check of
-- the timers, a poll of one task, or the renewal of the alarm.
pub mod Prelude
pub mod Heapless
pub mod Sync
pub mod Time
pub mod Cpu
pub mod Executor
pub mod Memory
pub mod SrpMutex
pub mod Runtime
