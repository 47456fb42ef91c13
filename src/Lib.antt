-- ===== src/Lib.antt =====
-- An in-memory key-value server: clients send binary requests, a command processor runs them on a store of
-- entries, and the store is built from the containers of src/dsa. The entry manager keeps its entries in a
-- hash map and their expiry times in a binary heap; a sorted set keeps its members in a balanced tree.
-- A server reads the requests from the sockets of its connections and writes the responses back. This
-- library models the containers, the entry manager, the sorted set, the command processor, the two ends
-- of the wire format, the connections and the server; and, apart from these, the thread pool, the skip
-- list, the lock-free tree and the count-min sketch.
--
-- Avl       src/dsa/avl_locking.hpp, `AVLTree`. Insertion and removal with the rotations; `depth` and
--           `weight` are `uint32_t` and wrap. Avl/Order and Avl/Lookup are about the search order,
--           Avl/Balance about the two fields and the balance, Avl/Calls about sequences of calls. In
--           Avl/Order/Keys is what holds of every key, in Avl/Balance/Rotations a repaired node.
-- LockFree  src/dsa/avl_lockfree.hpp, its `AVLTree`, as one thread runs it while no other writes: each
--           compare-exchange then succeeds at once. LockFree/Entries is the list that a tree stands for.
-- Hash      src/dsa/hashtable.hpp, `hash_key`: 64-bit FNV-1a on byte strings. A Key of the tables has a
--           hash, an equality test, and the law that the test decides equality.
-- HashTable src/dsa/hashtable.hpp, `HTable`: buckets of chains. A chain of owned nodes is a list. The
--           test on the stored hash codes that precedes the test on the keys is left out: equal keys have
--           equal codes.
-- HashMap   src/dsa/hashtable.hpp, `HMap`: a primary table, and an older one from which nodes move a few
--           at a time. `help_resize` is a loop on fuel, with two rounds for each of the nodes that a call
--           may move and two more: a round moves a node, or finds none up to the last bucket and starts
--           over. Using it up is the fault `out_of_fuel`.
-- Heap      src/dsa/heap.hpp, `BinaryHeap<uint64_t>` with `std::less`. A position reference is an index
--           into a list of cells outside the heap. A sift is a loop on fuel: a position falls at each step
--           of sift_up, so the position is enough, and grows below the length at each step of sift_down,
--           so the length is enough. `top` copies an item that can only be moved, and so does not compile when it
--           is used; it is read as a copy of the two fields.
-- Bytes     The layout of `uint32_t` in memory, little-endian, and `__builtin_bswap32`.
-- RequestParser
--           request_parser.hpp, `RequestParser::parse`. A round of its loop takes at least four bytes, so
--           one round more than the length of the payload is fuel enough.
-- ResponseSerializer
--           response_serializer.hpp and the tags of common.hpp. A number is printed by a loop on fuel; a
--           number has fewer digits than its value, or one, so the value is fuel enough.
-- EntryManager
--           entry_manager.hpp, over HashMap and Heap. An entry is the number of its creation, and its
--           `heap_idx` is the cell of that number. The clock is an argument of the calls that read it.
-- SortedSet src/dsa/zset.hpp, `ZSet`, over Avl and HashMap. A node is the number of its creation. The header
--           avl.hpp that it includes does not exist; the tree is that of Avl.
-- CommandProcessor
--           command_processor.hpp, over EntryManager, SortedSet and ResponseSerializer. A handler returns the
--           response buffer and the entry manager; `std::stod`, `std::stoll` and `std::isnan` are parameters.
--           CommandProcessor/Script has sequences of commands, and the same commands on stacks of texts;
--           Stored relates a store to them, Simulation, Commands and Session are about the replies.
-- Connection
--           connection.hpp, over RequestParser and CommandProcessor. What `read` and `write` return are lists
--           of values; a loop that can call again is on fuel, and a theorem says where the fuel is enough.
-- ThreadPool
--           src/dsa/thread_pool.hpp, as a step relation on the pool, its mutex, its threads, the calls of
--           `enqueue` and the thread that makes and ends the pool, with the notifications and spurious wake-ups.
--           The header does not compile once `enqueue` or `worker` is used: the wait on a `std::lock_guard` is
--           read as one on a `std::unique_lock`, and `pop` on the `std::deque` as `pop_front`. ThreadPool/Owners
--           says who has the mutex, ThreadPool/Woken is about the wake-ups of `shutdown` and the destructor,
--           ThreadPool/Lost about the one that the constructor's cleanup can lose.
-- SkipList  src/dsa/skiplist.hpp, as one thread runs it, on a list of nodes that pointers index. A level is
--           searched on fuel: there are no more steps than nodes. SkipList/Cells and SkipList/Find read the
--           nodes as a list of cells, SkipList/Specification has the calls on a set of keys.
-- LinkedList
--           src/dsa/list.hpp. The nodes are a function of their addresses, and what a client sees of a list are
--           its two loops: one round more than the nodes is fuel enough for each. LinkedList/Writes has the
--           pointers after each operation, LinkedList/Ring a pointer that leads through a list and back,
--           LinkedList/Linked both pointers of a list, LinkedList/Cuts the calls on the list of addresses.
-- CountMinSketch
--           src/cache/CountMinSketch.cpp. A word of eight counters is a number below 2^31; CountMinSketch/Counters
--           reads its counters, CountMinSketch/Rows a row as a function of its slots,
--           CountMinSketch/Powers has the capacity, and
--           CountMinSketch/Calls has the sequences of calls and the counts that they stand for.
-- Socket    socket.hpp, `Socket`: the sockets, the descriptors that they hold, and which descriptors are open.
-- Startup   main.cpp, socket.hpp and server.hpp: the arguments, the listening socket and the start.
-- Server    server.hpp, over Connection. A round of `run` takes what the system calls return in it, and the
--           map of the connections is iterated in an order that is an argument. Server/Open and Server/Idle
--           are about the connections between the rounds, Server/Rounds about what the rounds keep,
--           Server/Quiet about a connection without events, Server/Clients about the commands of a round.
-- Prelude   Shared names, lists and tests on native numbers, orders, and results with faults.
--
-- Every call is the call of one thread, but in ThreadPool. A class that locks a mutex takes the argument
-- `held`: whether the thread holds the mutex already. Locking it again is the fault `relock` (undefined
-- behaviour for `std::shared_mutex`), and a result is `ret` of a value or a fault: an exception, a failed
-- assertion, a relock, a read outside of a buffer, a null pointer that is followed, an
-- overflow, or fuel used up.
--
-- Not modelled: interleavings of threads outside of ThreadPool, memory exhaustion, and output to the console.
-- src/dsa/hnsw.hpp has no code that is compiled, logging.hpp is output, and src/raft and src/hnsw are copies
-- of other projects.
mod Prelude
pub mod Avl
pub mod Hash
pub mod HashTable
pub mod HashMap
pub mod Heap
pub mod Bytes
pub mod RequestParser
pub mod ResponseSerializer
pub mod EntryManager
pub mod SortedSet
pub mod LockFree
pub mod CommandProcessor
pub mod Connection
pub mod ThreadPool
pub mod SkipList
pub mod LinkedList
pub mod CountMinSketch
pub mod Socket
pub mod Startup
pub mod Server
