-- ===== src/Lib.antt =====
-- A model of the synchronisation primitives of the crate cynosure, and proofs of what they promise.
--
-- The crate has two halves. `src/site_c` is for the tasks of one thread: `Queue` (queue.rs), a
-- double-ended queue whose first elements stay inline, and on top of it `LocalMutex` (mutex.rs),
-- `LocalRwLock` (rwlock.rs) and `LocalSemaphore` (semaphore.rs), each of which keeps its waiting
-- futures in a `Queue<_, 8>`, and the buffer pool (pool.rs) on top of the semaphore. `src/site_d`
-- has the channels between threads; of these there are `RingBuf` (ringbuf.rs), the channel of
-- one value (oneshot.rs), and the slot through which one half wakes the other (notify.rs).
--
-- The module Prelude has numbers, Boolean tests, list lemmas, and `Exec`, the outcome of code that
-- can return, panic or read memory that holds no value.
-- The module Queue is `Queue<T, N>`. Queue.antt has the storage and the operations on the ends,
-- Queue/Bulk.antt and Queue/Walk.antt those that go through the whole queue. Queue/Spec.antt is the
-- list that a user sees, Queue/Refine.antt relates the two.
-- The module Waiters has the interface through which the locks use the queue, which `Queue<_, 8>`
-- fills (Waiters/Inline.antt), and the registration of a future (`register_in` and `deregister_in`
-- of rwlock.rs, which mutex.rs and semaphore.rs repeat as methods).
-- The module Mutex is `LocalMutex`. Mutex.antt has its methods and those of its future and guard;
-- Mutex/System.antt has all its users, as a sequence of events.
-- The module RwLock is `LocalRwLock`, in the same way.
-- The module Semaphore is `LocalSemaphore`, in the same way.
-- The module Pool is `LocalBufferPool` (pool.rs) over the semaphore, with the buffers of
-- `src/site_d/buffer.rs`.
-- The module Notify is `AtomicWaker` and `WaiterSlot`. Notify.antt has each atomic access,
-- Notify/System.antt the order of them, in one task that waits and any number of threads that signal.
-- The module RingBuf is `RingBuf` with its `Producer` and `Consumer`. RingBuf.antt has the accesses of
-- the operations, RingBuf/Operations.antt the operations, RingBuf/Futures.antt and
-- RingBuf/Transfers.antt the polls of their futures; RingBuf/System.antt lets both halves work at the
-- same time, RingBuf/Calls.antt has the queue that a user sees.
-- The module Oneshot is the channel of one value, with its accesses in Oneshot.antt and both halves at
-- work in Oneshot/System.antt.
--
-- The code as it is modelled:
-- A `MaybeUninit` slot is an `Option`; a read takes the value out of its slot, and a read of an
-- empty slot is a fault. An index out of bounds and a failed `assert!` are a panic. The `VecDeque`
-- that a queue spills to is a list, since the code relies only on its documented order. Elements
-- that the code drops are returned by the model.
-- The `Cell`s of a lock are the fields of a record that is passed along. A method returns the
-- entries whose wakers it calls. A waker is a value of any type `W`, and `same` stands for
-- `Waker::will_wake`; `Waker::clone` is the identity. That a waker only marks its task to be polled
-- later, and does not enter the lock before the method that calls it returns, is assumed.
-- A user's future is a number, and what is kept for it is its `registered` field. An event is one
-- call: a poll, a drop of a future or guard, or one of the try methods. Any order of the calls of
-- any number of futures is a list of events, and so is any cancellation. The entries that were
-- woken, and whose futures were neither polled nor dropped since, are recorded beside the lock.
-- A buffer is the list of its cells and its logical length; the asserts on its layout are tests of
-- the size and the alignment of the element type. The numbers of permits and of futures' requests are
-- any, up to what a `usize` of 64 bits holds.
-- An allocation that is asked for with more bytes than `isize::MAX` is a panic: in `Queue::reserve` and
-- `Queue::with_capacity`, where the largest capacity is an input, in the vector of the pool, and in a
-- buffer. Else an allocation succeeds, that of a ring included, and so does the growth of a `VecDeque`
-- that doubles. Whether the build has overflow checks is an input of `Queue::reserve`.
-- A token is a `u64` that wraps; the runs considered are shorter than 2^64 events, since a run gives
-- at most one token for each event.
-- The count of readers is a `usize` of 64 bits, and its overflow is a panic.
-- Loops are recursive on the number of rounds. The loop that wakes the readers has fuel, one more
-- than the length of the queue, which empties it.
--
-- The indices of a ring are counters modulo 2^64; its capacity is a power of two, so that `& mask` is
-- `% capacity`. A thread is a sequence of steps, each with at most one access to what another thread may
-- change; steps of different threads come in any order, and every access is sequentially consistent,
-- those that the code declares weaker too. In a ring and in the channel of one value, all that a signal
-- does to the flag is one step, and the two bulk copies of a slice are one step. In the functions for the
-- polls of a future the other half is a function, which stands for all it does between the two attempts.
-- The elements that are pushed in slices are `Copy`, and stay in their slots when they are popped.
-- The loop of a ring's `Drop` has fuel, one more than the capacity, which is more than the elements.
--
-- Not modelled: size hints of iterators, `Debug` formatting, branch hints, the value inside
-- `LocalRwLock` while a guard is out, re-entrant wakers, and the other files of the crate (the triple
-- buffer, the bip buffer and the mpsc channel of `src/site_d`, `src/blocking.rs`); of a ring, the
-- blocking calls and the `io` traits.
pub mod Prelude
pub mod Queue
pub mod Waiters
pub mod Mutex
pub mod RwLock
pub mod Semaphore
pub mod Pool
pub mod Notify
pub mod RingBuf
pub mod Oneshot
