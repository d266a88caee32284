-- ===== src/Evm.antt =====
-- crates/evm: the treasury address, the fees that the handler moves, the EVM wrapper, and
-- what of revm's EVM is passed on.
pub mod Treasury
pub mod Journal
pub mod Handler
pub mod Wrapper
pub mod Execution
pub mod Frames
