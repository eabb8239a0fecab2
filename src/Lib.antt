-- ===== src/Lib.antt =====
-- A verification library for the systems projects of this repository. Each project is a program
-- of its own. Only the two of ReinC share code, and so the others share no module here but Base.
--
-- Memory pool (Memory-Pool-in-CPP/MemPool/MemPool.h, MemPool.cpp). MemPool.antt has the pool as
--   a record, with the memory that its pointers lead to as a function from addresses to words;
--   `memory_manager`, `allocate` and `deallocate` are the constructor, Allocate and Deallocate.
--   The link word of a free chunk is the word at its address, as in the code. Sizes and addresses
--   wrap in 64 bits; `block_size` is what the constructor asks `new` for. MemPool/Chain.antt
--   says when a pool is well-formed, MemPool/Construct.antt is about the constructor, and
--   MemPool/Clients.antt about clients, which allocate, give back and write to what they hold.
-- Hash map (Intrusive-Hash-Map/hashmap.h, hashmap.cc; the entries of main.cc). In HashMap.antt a
--   `Link` is a variable that holds a node pointer: a slot of the array or the `next` of a node;
--   an `HNode **` of the code is a `Link`. The array is absent, live or freed, and an access to it
--   in another state is a `fault`. Search.antt, Invariant.antt, Construct.antt and Remove.antt in
--   HashMap/ hold the theorems; HashMap/Entries.antt is about container_of and the comparison of
--   keys in main.cc, where std::hash is a parameter. The walk along a chain has fuel for one node
--   more than the size of the map, which is enough in a well-formed map.
-- Port scanner (knocker/knocker-intrusive.cc). Knocker.antt has the limits and the 64-bit word
--   of an event. Knocker/Intrusive.antt has the table of connections with the list through it
--   (list_insert_tail, list_unlink), and Intrusive/Scanner.antt the loops of main: `fill`,
--   `sweep`, `handle_all`, `scan`. The kernel is a parameter: what socket, inet_pton, connect and
--   the clock answer may depend on the state, and what epoll_wait delivers is a list of lists of
--   events. Where the code has -1 for no neighbour, the model has `none`. The sweep has fuel 501,
--   one more than the limit of connections in flight; the inner loop has fuel for end_port + 1
--   rounds, of which each tries one port. Knocker/Blocking.antt has the main of
--   knocker/knocker.cc; its loop has fuel end_port + 2, for a round per port and one to see that
--   none is left. Knocker/Timer.antt has the loops of knocker/knocker-epoll-timer.cc, with a list
--   for the map from sockets to start times, in the order of its iteration; Timer/Tracked.antt,
--   Timer/Filled.antt, Timer/Handled.antt and Timer/Closed.antt follow the sockets, and
--   Timer/Covered.antt the ports. Fuel is as in the other loops.
--   Knocker/Epoll.antt has those of knocker/knocker-epoll.cc, with fuel for each port and one
--   round more; Epoll/Tally.antt is about its counter, Epoll/Ports.antt about the loop over the
--   ports.
-- Garbage collector (mark-n-sweep/Mark & sweep/garbage_collector.h). GarbageCollector.antt has
--   the objects by address: mark, references, deleted or not. An access through null or to a
--   deleted object is a `fault`, and so is a print that reads a name there. The fuel of `mark`
--   bounds the depth of its recursion; more than the number of objects is enough.
--   GarbageCollector/Mark.antt, Sweep.antt and Collect.antt are about the phases and the whole
--   collection.
-- Thread-safe queue (Thread_Safe_Queue/thread_safe_queue.h, thread_safe_queue.cpp).
--   ThreadSafeQueue.antt has what each function does while it holds the mutex: return, or wait on
--   its condition variable. ThreadSafeQueue/Threads.antt has any number of threads on a queue: an
--   `Action` is one stretch under the mutex, and a number in it says which thread is notified or
--   runs on, so a list of actions is any interleaving. Threads can wake up without a notification.
-- Vector (my_vector/main.cpp). In Vector.antt a slot of a block is raw memory or holds an
--   object, and a block knows whether it came from new[] or from ::operator new; undefined
--   behaviour is a `fault`. Vector/Slots.antt has the loops over the slots, Vector/Lists.antt,
--   Vector/Emplace.antt and Vector/Back.antt compare the functions with lists, Vector/Mixed.antt
--   is about the two kinds of memory. An `Arg` is an argument taken by reference, which may be an
--   element of the vector: it is read where the code uses it, and not at the call. Constructors that throw and sizes that overflow in bytes are
--   left out. `new T[n]` makes a value that is a parameter.
-- Arena (ReinC/arena.c, arena.h, base.h). Arena.antt has the creation and arena_push, with the
--   bytes of the memory; Arena/Blocks.antt says what the blocks are.
-- Automatic differentiation (ReinC/autograd.c). Autograd.antt has create_matrix, create_var and
--   create_node over the arena of Arena.antt: the objects are kept by their addresses, beside the
--   bytes, and a write through a null pointer is an outcome of its own. Autograd/Variables.antt
--   says where the objects lie.
-- Bump allocator (my_alloc/bump_allocator/main.cpp). BumpAllocator.antt, with addresses of 64
--   bits; BumpAllocator/Blocks.antt is about the blocks of a run.
-- Lock-free stack (Lock-free-stack/main.cpp). LockFreeStack.antt has push and pop as steps of
--   threads, each step one access to shared memory: an `Action` says which thread goes on, where
--   `new` finds memory, whether a weak exchange fails for no reason, and what a read of a deleted
--   node gives. Memory is sequentially consistent there. LockFreeStack/Abstract.antt has a stack
--   of keys in which a call puts or takes its key at once, and says what a thread may do next
--   (`Duty`). Invariant.antt says what a thread knows and
--   owns, and Threads.antt, Steps.antt, Linear.antt and Runs.antt follow the steps.
-- Thread pool (Thread-Pool/main.cpp). ThreadPool.antt counts the workers by what they are at,
--   and has `enqueue`, what a worker does under the mutex (`look`), the destructor stage by stage,
--   and the notifications. A task is a number. ThreadPool/Invariant.antt and Promises.antt hold
--   the proofs.
-- Function wrapper (my_function/my_function.hpp). In MyFunction.antt a wrapper is a number, with
--   a buffer and a pointer that is null, leads to a buffer, or to the heap. `Platform` has what is
--   not in the file: sizes, calls, `new`. MyFunction/Values.antt says which objects a store
--   represents, Primitives.antt, Operations.antt, Leads.antt and Assign.antt follow the functions,
--   Lifetimes.antt says which wrappers of a program are alive, Ops.antt has any sequence of
--   operations, the destructor included, and Programs.antt what holds after it.
-- Framebuffer (low-level-graphics/sdl-framebuffer/main.c). Framebuffer.antt has the array with
--   its bounds, put_pixel, clear, and main with what SDL answers as a parameter. The loop of
--   `clear` has as many rounds as the array has cells. Framebuffer/Pixels.antt and Play.antt hold
--   the proofs.
--
-- Base has the shared notation, lists, the memory as a function (Store), chains of pointers
-- (Chain), sums (Sums), bit fields (Bits) and integers (Int).
--
-- Not modelled: printing, clocks and benchmarks (Memory-Pool-in-CPP/MemPool/main.cpp, the demo
-- programs); system calls but for their answers; rocker/main.cpp, which is a sequence of system
-- calls; the choice between the constructors of my_function.hpp, and callable objects that throw.
pub mod Arena
pub mod Autograd
pub mod Base
pub mod BumpAllocator
pub mod Framebuffer
pub mod GarbageCollector
pub mod HashMap
pub mod Knocker
pub mod LockFreeStack
pub mod MemPool
pub mod MyFunction
pub mod ThreadPool
pub mod ThreadSafeQueue
pub mod Vector
