-- ===== src/Jni.antt =====
-- java/native: the native methods of the Java class IpcChannel, over the models of the mapping and the
-- channel.
pub mod State
pub mod Init
pub mod Transfer
pub mod Retry
pub mod Session
pub mod Conversation
