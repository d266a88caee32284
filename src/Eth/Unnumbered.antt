-- ===== src/Eth/Unnumbered.antt =====
-- crates/rpc/src/eth/types.rs with crates/payload and crates/txpool: a transaction that comes by the
-- public interface has no number, and what follows from it.
use kx_reth.TxMapping
use kx_reth.TxMapping.{TxMapping}
