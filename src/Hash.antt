-- ===== src/Hash.antt =====
-- The hash table of src/server/hash.c: its state, its operations, and what is proved of them.
pub mod State
pub mod Table
pub mod Entries
pub mod Function
pub mod Chain
pub mod Splice
pub mod Model
pub mod Init
pub mod KeyCopy
pub mod Insert
pub mod Spec
pub mod Update
pub mod Relink
pub mod Remove
