-- ===== src/Block.antt =====
-- crates/block: the EVM configuration, the block executor and the block assembler.
mod Data
pub mod Config
pub mod Executor
pub mod Assembler
pub mod ForPayload
pub use Data.*
