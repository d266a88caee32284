-- ===== src/Concurrent.antt =====
-- The calls of crates/rpc, crates/payload, crates/primitives and crates/txpool on the shared mapping of
-- crates/tx_mapping, where any number of threads run at once. Each method of the mapping holds its lock
-- from its first line to its last, so a call of a method is one step, and between two calls of one
-- thread the other threads may make theirs.
pub mod Program
pub mod Threads
pub mod Builds
pub mod Alone
pub mod System
pub mod Safety
pub mod Sources
pub mod Atomic
pub mod Leak
pub mod Marks
pub mod Reorg
