-- ===== src/Channel.antt =====
-- core/src/ipc_channel.c: the channel, a buffer with a counter that waiting readers watch.
pub mod State
pub mod Open
pub mod Write
pub mod TryRead
pub mod Read
pub mod Look
