-- ===== src/Buffer/Threads.antt =====
-- core/src/ipc_buffer.c: the operations of any number of threads, an access of a shared word at a
-- time. `Point`, `Writing`, `Reading` and `System` are the model, the others what holds in it.
pub mod Point
pub mod Writing
pub mod Reading
pub mod System
pub mod Invariant
pub mod LockWord
pub mod Frame
pub mod Store
pub mod Writers
pub mod Readers
pub mod Taking
pub mod Forcing
pub mod Safety
pub mod Alone
pub mod Progress
