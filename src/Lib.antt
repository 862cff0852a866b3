-- ===== src/Lib.antt =====
-- Verification of the concurrent deques of this repository: the unbounded obstruction-free
-- deque (deque/OFDeque.hpp) and those it is compared with, and of the support code of the
-- harness (cpp_harness). A test thread calls `left_push`, `right_push`, `left_pop` and
-- `right_pop` of an object (deque/RDeque.hpp), whose blocks a HazardTracker guards.
--
-- Concurrency is modelled by schedules: a thread is a program counter with the local
-- variables that are live there, a turn is one shared access of one thread, and a theorem
-- holds for every list of turns. Memory is sequentially consistent. An event is emitted at
-- the access where an operation takes effect, and the list of events is compared with a run
-- of the abstract deque, which is a list.
--
-- - Base: the names and lemmas that the modules share. Spec: the abstract deque. Threads:
--   threads that take turns over a shared memory, and how an invariant of each thread and of
--   each pair is kept.
--
-- - OfDeque/Slot: the slot, the buffer, `casSafe`, `casType`, `casValue`, `casLink`, `fill`,
--   the indices and types of OFDequeUtils, and the checks on the edge (deque/OFDeque.hpp).
--   The counter of a slot has 30 bits and wraps round; a local hint has 32. The code compares
--   slots as 64-bit words, so pointers have 32 bits. The words and counters that the code
--   leaves uninitialised are parameters.
--
-- - OfDeque/Interior: `doPush` and `doPop` without elimination where the edge lies inside one
--   buffer. The edge that `oracle` returns is any index with a far value beyond it.
--   OfDeque/Interior/Inv: the invariant, which says what a thread knows of the slots that it
--   has loaded and what a pusher and a popper on the same edge know of each other.
--   OfDeque/Interior/Unsealed: the types of the slots that the interior branches store.
--   OfDeque/Interior/Refine: linearizability, for schedules shorter than what the 30-bit
--   counters can count. OfDeque/Interior/Solo: a thread alone finishes.
--
-- - OfDeque/Hints: `reserveHint`, `isSealed`, `findActiveBuffer` and `updateHint`, over a
--   history that gives the memory at each access of the thread: between two of them, other
--   threads may have done anything. Rounds are bounded by fuel; a result `none` means that it
--   has run out. OfDeque/Hints/Sealed: what `isSealed` has seen. OfDeque/Hints/Publish: what
--   the others return with. OfDeque/Hints/Alone: how much fuel is enough for a thread that
--   runs alone.
--
-- - OfDeque/Search: `findEdge` and `oracle`, over the same histories.
--   OfDeque/Search/Protected: what they return with. OfDeque/Search/Alone: the search of a
--   thread that runs alone.
--
-- - OfDeque/Border: the branches of `doPush` and `doPop` at the border of a buffer, each as a
--   round with no access of another thread in between: append, straddle, seal, remove and
--   `retire`. The block that the pool would allocate and the uninitialised words are
--   parameters; the hazard tracker is the list of what it was given. OfDeque/Border/Chain:
--   the chain of linked buffers and what it holds. OfDeque/Border/Append, Straddle, Boundary,
--   Removal and Sealing: one branch each. One link of sealed buffers needs one unit of fuel.
--   OfDeque/Create: the constructor.
--
-- - MmDeque: the compare-and-swap deque (deque/MMDeque.hpp), one shared access at a time. An
--   anchor is read and exchanged whole; MmDeque/AnchorWord packs it into its words. A node is
--   an address with a link on either side, whose serial number has 32 bits, and a value. No
--   address is allocated twice, which is what the hazard slots are for, and they are left
--   out. A memory also holds at which positions the nodes of the deque stand, which the code
--   does not store. MmDeque/Inv: what holds between two accesses, what a thread knows of what
--   it has loaded, and which accesses keep it. MmDeque/Access: every access of a push, of a
--   pop and of `stabilize`. MmDeque/Refine: linearizability, for schedules in which no serial
--   number wraps round. MmDeque/Turns and MmDeque/Alone: a thread alone finishes.
--
-- - SglDeque: the deque under one test-and-set lock (deque/SGLDeque.hpp); `std::deque` is a
--   list. SglDeque/Inv: its invariant and theorems.
--
-- - FcDeque: the pass of the combiner of the flat-combining deque (deque/FCDeque.hpp) over
--   the requests of all threads; its at most ten rounds are the fuel, and one is enough. The
--   requests do not change during the pass but by the combiner. FcDeque/Combine and
--   FcDeque/Served: what it serves.
--
-- - ElimTable: the elimination table (deque/ElimTable.hpp) under the loops of `doPush` and
--   `doPop` that use it; the attempt on the deque, the random start of a scan and its count
--   are choices. A memory also holds what has become of each operation, which the code does
--   not store. ElimTable/Local: what holds of a thread's slot. ElimTable/Access: every access
--   keeps it. ElimTable/Meets: whom it meets. ElimTable/Missed: an elimination that its
--   thread does not notice.
--
-- - WsDeque: the deque of one thread and its ring (deque/WSDeque.hpp). The top and the bottom
--   are natural numbers, since a bottom below 0 is stored only to be replaced within the same
--   call; the memory of a new ring is a parameter. WsDeque/Content: what the ring holds.
--   WsDeque/Refine: calls one after the other. WsDeque/Queue: `enqueue` and `dequeue` over
--   the deques of all threads, with the random numbers as a parameter; WsDeque/Queue/Refine:
--   what they take. WsDeque/Contended: the owner and a thief at the last value.
--
-- - CountedPointer: the counted pointers (cpp_harness/ConcurrentPrimitives.hpp), words of 64
--   bits. What other threads store between the load and the exchange of a round of `storePtr`
--   is a list of pointers, and the rounds are a list of such lists. CountedPointer/Serial:
--   the serial number tells equal pointers apart.
--
-- - BlockPool: the pool of free blocks (cpp_harness/BlockPool.hpp), one access of the global
--   pool at a time. An address counts blocks, 0 is `NULL`, and the memory that `memalign`
--   gives lies beyond what it has given before. A memory also holds where each block is,
--   which the code does not store; callers free only what they hold. BlockPool/Inv: the lists
--   of the threads, the groups of the global pool, and the accesses that change them.
--   BlockPool/Access: every access of a call. BlockPool/Refine: no block is given to two
--   callers, for schedules in which the serial number does not wrap round.
--
-- - HazardTracker: hazard slots, retirement and release (cpp_harness/HazardTracker.cpp). The
--   allocator's `freeBlock` is outside, and the model lists the blocks that it was given.
--   HazardTracker/Slots: reservations. HazardTracker/Release: what is released.
--
-- Not modelled: other threads in the midst of a round at the border of a buffer in the
-- obstruction-free deque, its destructor, its logs, and its elimination; the lock and the
-- waiting loops of the flat-combining deque; thieves of the work-stealing deque that
-- interrupt each other; the hazard slots of the compare-and-swap deque and the reuse of its
-- nodes; the glibc mode of the block pool; the tests and the configuration of the harness;
-- the vendored Scal library. Weak memory orders are not modelled, nor the allocation of
-- memory.
pub mod Base
pub mod Spec
pub mod Threads
pub mod SglDeque
pub mod FcDeque
pub mod ElimTable
pub mod WsDeque
pub mod CountedPointer
pub mod HazardTracker
pub mod OfDeque
pub mod MmDeque
pub mod BlockPool
