-- ===== src/Lib.antt =====
-- libshmipc: messages between processes through a circular buffer in shared memory.
--
-- The program's parts. The buffer (core/src/ipc_buffer.c) keeps entries in a region of shared memory
-- behind a header with two positions, `head` and `tail`, that only grow; the lowest bit of each is a
-- lock. The channel (core/src/ipc_channel.c) adds waiting and allocation, ipc_init.c and ipc_mmap.c map
-- the memory. All use core/src/ipc_utils.c and include/shmipc/ipc_common.h.
--
-- Which file models what.
--   Base: shared names; Base/Word the arithmetic of uint64_t, with its wrap-around; Base/Mask `&` and
--     `|` with masks; Base/Modulus positions modulo a capacity.
--   Common: ipc_common.h. The status codes, the result structures (without the text of `detail`), and
--     IpcEntry, whose payload is NULL, memory of the caller, or an index into the data region.
--   Utils: ipc_utils.h and ipc_utils.c. Utils/Align and Utils/Power prove its properties.
--   Memory: the data region as a function from indices to bytes, memcpy, and the uint64_t fields of
--     an entry's header, little-endian.
--   Buffer: ipc_buffer.c. Buffer/State has the shared words (`Shm`), the macros and the static helpers
--     (`_lock` is lock_ref, `_unlock` is unlock_ref, `_read_entry_header` is read_entry_header);
--     Buffer/Size, Create, Write, Read, Peek and Skip have the operations under their own names. A
--     function takes the shared memory and returns it with its result. Buffer/Layout says which memory
--     holds which entries, and the children named Refine or Outcome relate the operations to a queue.
--     Buffer/Trace has sequences of writes and reads.
--   Buffer/Threads: ipc_buffer.c once more, for any number of threads. Point says where a thread stands
--     within an operation, with its local variables; Writing, Reading and System are the steps, one access
--     of `head` or `tail` each, with the macros and helpers of Buffer/State. Invariant, Frame and the
--     files named for who moves have the invariant of the steps, and Safety what it says of all
--     reachable states. Alone compares the steps of one thread with the operations as functions.
--   Channel: ipc_channel.c. Channel/State has the shared memory (the buffer and the counter `notify`)
--     and the guards of the operations; Channel/Open, Write, TryRead, Read and Look have the operations
--     (`_try_read` is try_read, its loop try_read_rounds; Look has peek, skip and skip_force). Between
--     two calls of the buffer the loops of TryRead and Read meet a list of rounds that says what other
--     threads do to the shared memory, and what the allocator, the clock and the futex answer.
--     Children named Refine, Outcome and Interleaved relate the operations to a queue; those named
--     Rounds say what other threads may do in a round, and what the calls may return.
--   System: the answers of system calls, a value or `errno`.
--   Futex: ipc_futex.c, as Linux builds it. The wait of ipc_channel_read goes through it. Futex/Apple has
--     the branch of the file for macOS.
--   Mmap: ipc_mmap.c over the answers of shm_open, ftruncate, fstat, mmap, munmap, shm_unlink and malloc
--     (`Calls`). The state is what the process holds (`Process`): descriptors, mappings, blocks, and the
--     names of the objects that it has created.
--   Init: ipc_init.c over Mmap, Buffer and Channel.
--   Jni: the native methods of the Java class. Jni/State has the conversions of jlong and jsize, what a
--     process keeps (`Native`) and the arrays that go to Java; Jni/Init and Jni/Transfer are
--     java/native/src/lib_shm_ipc_jni_IpcChannel.c, and Jni/Retry is the file of that name in
--     java/native/native/src, whose write and read try again. The answers of the JVM are arguments. The
--     structure of a channel stands at an address of the heap, which the Java object keeps as a jlong.
--     Jni/Session and Jni/Conversation put two processes together.
--   Tests: runs on small inputs, and each theorem at a concrete input.
--
-- Fuel and rounds. `none` stands for a call that is still running. The loops on powers of two take 64
-- tests at most where they end at all. The operations of the buffer restart behind a placeholder, at
-- most once, and their compare-exchange loops end in the first round as long as no other thread
-- interferes; so fuel 2 is enough, which the theorems prove. The loops of the channel take one element of the list of
-- rounds each time; without interference one is enough.
--
-- What is not modelled. In Buffer/Threads the plain stores to an entry are one step, and so are the plain
-- loads; the calls with wrong arguments, which touch nothing, are no steps. Memory is sequentially
-- consistent, as the default of the atomic operations is. The operations of Buffer and Channel as
-- functions run alone, and other threads act between two of them. The positions are 64-bit words that
-- wrap; the theorems ask that `tail` stays below 2^64. malloc, realloc, the clock and all system calls
-- are parameters, as are the addresses; outside Mmap, freed memory is not tracked. What `__ulock_wait` does
-- with its arguments is not modelled, and channels are read over the futex of Linux. A native method sees one channel; the
-- messages that it prints are left out, as is `close`, which no file defines.
pub mod Base
pub mod Common
pub mod Utils
pub mod Memory
pub mod System
pub mod Futex
pub mod Mmap
pub mod Buffer
pub mod Channel
pub mod Init
pub mod Jni
mod Tests
