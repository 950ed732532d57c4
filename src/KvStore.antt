-- ===== src/KvStore.antt =====
-- The request handlers of src/server/kvstore.c, and what is proved of them.
pub mod Handlers
pub mod Get
pub mod Set
pub mod Del
pub mod Stored
pub mod Session
pub mod Limits
pub mod Prefix
