-- ===== src/Lib.antt =====
-- ShaperIO gives GPU threads block storage: a page cache in GPU memory whose misses and evictions become
-- NVMe commands, on queues that thousands of GPU threads share; a host library that sets controllers and
-- queues up; and a Linux module that hands the devices and their memory to user space.
--
-- The parts, and the files that model them:
-- * ParallelQueue (include/nvm_parallel_queue.h): the queue functions that GPU threads share. `sq_enqueue`
--   takes a ticket, waits for its slot, writes the command and publishes it with `move_tail`; `cq_poll`
--   finds a completion; `cq_dequeue` retires it with `move_head_cq`, which gives submission slots their
--   next ticket. Submit and Complete hold the two halves, Tail, Head, Freed and Retire the walks, Cycle a
--   slot from one use to the next.
-- * Util (include/nvm_util.h, src/regs.h): fields of words, page arithmetic, doorbell addresses.
-- * Command (include/nvm_cmd.h): commands and PRP lists; Walk is how a controller reads a chain.
-- * HostQueue (include/nvm_queue.h, src/queue.cpp, `_nvm_delay_remain` of src/lib_util.h): the host's queue
--   functions, with one user at a time; Ring is the arithmetic of slots and phase tags.
-- * Kernel (module/list.c, module/ctrl.c, `map_find` of module/map.c, `add_pci_dev` and `remove_pci_dev` of
--   module/pci.c): lists on a store of nodes, and in Registry the controllers on them.
-- * PageCache (include/page_cache.h): `acquire_page`, `find_slot`, eviction and `release_page`; Coherent
--   says when a cache stands for a memory. It reaches storage through `Device`, which stands for
--   `read_data` and `write_data`; Memory has the laws of it that the proofs use.
-- * Errors (include/nvm_error.h, src/error.cpp): status codes and their texts.
-- * Controller (src/ctrl.cpp, src/lib_ctrl.h, src/regs.h, `_nvm_b2log` of src/lib_util.h): registers, the
--   reset, the set-up of a handle (Init) and its reference count (References).
-- * Dma (src/dma.cpp, src/dma.h): mappings and the handles that share them (Sharing, Copies), what an error
--   gives back (Undo, Addresses), and the addresses of a buffer's controller pages (Pages).
-- * Rpc (src/rpc.cpp, src/rpc.h): Binding has the references and a server's handles, Queues makes the admin
--   queues from a DMA window and resets the controller, Execute runs a command on them with the functions
--   of HostQueue.
-- * Admin (src/admin.cpp): the admin commands and the calls that send them through Rpc: Queues makes and
--   deletes I/O queues with `nvm_queue_clear` of HostQueue in a window of Dma, Info reads what the
--   controller says of itself and of namespaces.
-- * IoQueue (include/io_scheduler.cuh, benchmarks/io_scheduler/io_scheduler_impl.cuh): the ring of the I/O
--   scheduler. System is a step relation of threads in `io_sched_read` or `io_sched_write` and of the
--   write scheduler, which collects, notifies in any order and retires; Ready is the scan, Keys the sort
--   keys, Waiters the waits. It stands alone: the sorted and merged commands go to queues of ParallelQueue.
-- * Types (include/nvm_types.h) are the descriptors, Prelude the helpers, Examples and the Tests modules
--   the functions and theorems at concrete values.
--
-- State. A descriptor is a record of its words, an array a list, a pointer an address or the thing it
-- points to, a status code a value. Words are natural numbers, cut to their width where the source's
-- type cuts them. Outside IoQueue each function is one thread's run with no other thread in between; an
-- atomic operation is a read and a write. Where a thread waits for another, the result is `none`, or the
-- states that it sees are an argument (`cq_poll`, `nvm_cq_dequeue_block`). What hardware, the kernel
-- and storage do is an argument: a controller is a function of its registers (`Controller`) or of the
-- queues that it sees (`Rpc`), applied between two looks of the host. Locks and allocations give their
-- result as an argument, and references that a function takes or returns are explicit state.
--
-- Fuel. Loops that the source does not bound take fuel, and `none` says that it ran out. A queue of `2 ^ k`
-- slots, k at most 16, needs `2 ^ k` rounds of its walks and one round at a free lock; a search for an
-- identifier 65536; a list one more than its nodes; a cache miss as many rounds as the ticket takes to a
-- page that can be evicted; the blocking dequeue and each wait of a reset one poll more than their
-- milliseconds.
--
-- Interleavings within a function are modelled for IoQueue only, whose steps are its stores and tests; at
-- most 2^32 - 1 requests are made there.
--
-- Not modelled: memory order, cache flushes, counters for profiling; of the page cache its construction,
-- array accessors, flush and batches, and the builds with the I/O scheduler or the victim buffer; of the
-- scheduler the sort, the merge, its submissions and the read kernel; system calls (src/linux,
-- src/mutex.cpp); memory mapping and ioctl of the module (the rest of module/map.c and of module/pci.c);
-- the benchmarks; the vendored include/freestanding.
pub mod Prelude
pub mod Types
pub mod ParallelQueue
pub mod Util
pub mod Command
pub mod Dma
pub mod Controller
pub mod Errors
pub mod HostQueue
pub mod Kernel
pub mod PageCache
pub mod Rpc
pub mod Admin
pub mod IoQueue
pub mod Examples
