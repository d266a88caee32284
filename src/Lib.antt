-- ===== src/Lib.antt =====
-- Verification of kx-reth, the Kasplex execution client on reth.
--
-- The node keeps one map from transaction hashes to the numbers of the blocks they were submitted in. The
-- authenticated interface fills it when a transaction is sent; the payload builder reads it when it builds
-- a block from the attributes of the engine API, and writes it for the block it has built; the engine API
-- reads and empties it when a payload comes back; and the clean-up of the pool after a reorg or a block
-- decides by it what stays. Around this stand the chain specifications, the consensus rules with their
-- fixed base fee, the EVM whose base fee goes to a treasury, and the executor and assembler of blocks.
--
-- Files, and the code they model:
--   Prelude    tests, lists, results, machine words, hash maps and sets that the others share
--   TxMapping  crates/tx_mapping/src/lib.rs: the state behind the lock as `TxMapping`, each method as a
--              function of the same name, calls as data in Calls, what its comments say, without a
--              table or machine words, in Spec
--   TxPool     crates/txpool/src/lib.rs: `handle_kasplex_pool_reorg`, `remove_included_transactions`
--   ChainSpec  crates/chainspec/src/{lib,hardfork,spec,parser}.rs: the specs, the `--chain` argument, and
--              what the node asks a spec (Queries)
--   Consensus  crates/consensus/src/validation.rs: header checks, as a chain of results
--   Evm        crates/evm/src/lib.rs (Treasury), handler.rs (Handler, on the Journal), alloy.rs (Wrapper),
--              execution.rs and factory.rs (Execution), evm.rs (Frames)
--   Block      crates/block/src/config.rs and factory.rs (Config), executor.rs (Executor), assembler.rs
--              (Assembler), the engine's side of config.rs (ForPayload); Data has headers and contexts
--   Attributes crates/primitives/src/payload/{attributes,builder}.rs
--   Payload    crates/payload/src/builder.rs: `kasplex_payload`, its loop in `execute_all_transactions`;
--              Threads has the opening of a block as single accesses to the shared cells, for two builds,
--              and a build while the mapping changes
--   Engine     crates/primitives/src/engine/{mod,types}.rs; crates/rpc/src/engine/validator.rs
--              (Validator, Rules) and api.rs (Api)
--   Auth       crates/rpc/src/eth/auth.rs: what is handed out of the pool, and what is sent to it; the
--              request handlers of `into_rpc` (Rpc)
--   Eth        crates/rpc/src/eth/{types,eth,error}.rs: `send_raw_transaction` of the public interface, and
--              the calls that it passes on (Delegation)
--   Cli        crates/cli/src/{lib,command}.rs: the runners of the commands, the launch of the node
--   Launch     bin/kasplex-reth/src/main.rs: the methods that the servers get
--   Node       crates/{node,network,payload,consensus}/src and crates/rpc/src/engine/builder.rs: how the
--              parts are built
--   Lifecycle  the number of one transaction across Auth, Payload and Engine, and its stay in TxPool
--   Shared     the mapping and the cells under any sequence of calls of Auth, Payload, Engine and TxPool
--   Concurrent the same calls as threads: Program is what a thread does with the mapping, one locked call
--              after the other; Threads and Builds have the operations as such programs, System any number
--              of them; Alone and Atomic compare them with the one-step operations above, Safety and Marks
--              have what each thread keeps, Sources, Reorg and Leak what follows for all schedules
--   Tests      runs on small inputs
--
-- State is passed explicitly: a method that changes a shared object returns the new state with its result.
-- Errors are `Result`s; a panic (`expect`, or `to()` on a number that is too large) is an outcome of its
-- own. Words wrap around as in the release profile, and `saturating_*` stop at the ends. Hashes and
-- addresses are the numbers of their bytes, byte strings are lists.
--
-- What is not in the repository is a parameter: reth's pool, engine, block builder and checks, revm's
-- journal and execution, alloy's codec, hashes and conversions. Where a result rests on how these behave,
-- the parameter has that behaviour as a law, and Tests has an instance that meets all laws. No hash is
-- assumed to be injective.
--
-- Every loop of the code goes over a list, and is recursion on that list; so no fuel is needed, except in
-- the printing of a decimal number: it has 20 rounds, as many as a u64 has digits.
--
-- Not modelled: the types by which crates/node/src/lib.rs names its parts for reth, and the order in which
-- reth builds them; the parsing of arguments; logging; the JSON form of requests and answers. In Shared a
-- call is one step on the shared state. In Concurrent a call on the mapping is one, and a thread finds the
-- cells, the pool and the chain in any state at its start; what other threads do to these while it runs is
-- left out, but for the cells of two builds in Payload.Threads.
pub mod Prelude
pub mod TxMapping
pub mod TxPool
pub mod ChainSpec
pub mod Consensus
pub mod Evm
pub mod Block
pub mod Attributes
pub mod Payload
pub mod Engine
pub mod Auth
pub mod Eth
pub mod Cli
pub mod Launch
pub mod Node
pub mod Concurrent
pub mod Lifecycle
pub mod Shared
mod Tests
