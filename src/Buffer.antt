-- ===== src/Buffer.antt =====
-- core/src/ipc_buffer.c: the circular buffer of entries in shared memory. `State` holds the shared
-- data and the position words; `Write`, `Read`, `Peek` and `Skip` are the operations.
pub mod State
pub mod Words
pub mod Layout
pub mod Head
pub mod Size
pub mod Create
pub mod Write
pub mod Read
pub mod Peek
pub mod Skip
pub mod Trace
pub mod Threads
