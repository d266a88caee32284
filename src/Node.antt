-- ===== src/Node.antt =====
-- crates/node/src/{lib,pool}.rs, crates/network/src/lib.rs, crates/payload/src/lib.rs,
-- crates/consensus/src/builder.rs, crates/block/src/factory.rs and crates/rpc/src/engine/{builder,
-- validator}.rs: how the parts of the node are built from reth's context. reth's own builders are the
-- parameter `Host`; each may fail, and may change the world.
use kx_reth.Prelude.{
  ◌≡◌, refl, Bool, true, Option, none, some, Result, ok, err, Result-cases, ◌⊎◌, inl, inr,
}
use kx_reth.TxMapping.{TxMapping}
use kx_reth.Engine.Rules.{TreeConfig, tree_config_for}

pub record Host : Type 1 where
  pub World : Type 0
  pub Error : Type 0
  pub ChainSpec : Type 0
  pub Provider : Type 0
  pub Pool : Type 0
  pub EvmConfig : Type 0
  pub Consensus : Type 0
  pub NetworkBuilder : Type 0
  pub NetworkHandle : Type 0
  pub BeaconHandle : Type 0
  pub PayloadHandle : Type 0
  pub TaskExecutor : Type 0
  pub Validator : Type 0
  -- the rest of reth's `TreeConfig`
  pub TreeRest : Type 0
  pub DataDir : Type 0
  pub Hook : Type 0
  pub ChangesetCache : Type 0
  -- `KasplexEvmConfig::new`, `KasplexBeaconConsensus::new`, `KasplexEngineValidator::new`
  pub evm_config_new : ChainSpec → EvmConfig
  pub consensus_new : ChainSpec → Consensus
  pub validator_new : ChainSpec → Validator
  -- `EthereumPoolBuilder::build_pool`
  pub build_ethereum_pool : World → Result Error Pool × World
  pub network_builder : World → Result Error NetworkBuilder × World
  pub start_network : NetworkBuilder → Pool → World → NetworkHandle × World
  pub resolve_datadir : ChainSpec → DataDir
  pub create_invalid_block_hook : DataDir → World → Result Error Hook × World

module _ (host : Host) where
  open host use {
    World, Error, ChainSpec, Provider, Pool, EvmConfig, Consensus, NetworkHandle, BeaconHandle,
    PayloadHandle, TaskExecutor, Validator, TreeRest, Hook, ChangesetCache, evm_config_new,
    consensus_new, validator_new, build_ethereum_pool, network_builder, start_network,
    resolve_datadir, create_invalid_block_hook,
  }

  -- `KasplexPoolBuilder`, without the builder that it wraps
  pub record KasplexPoolBuilder : Type 0 where
    pub tx_mapping : Option TxMapping

  -- the handle is on the global mapping
  abbrev pub new : TxMapping → KasplexPoolBuilder
  new global = record { tx_mapping = some global }

  abbrev pub with_tx_mapping : TxMapping → KasplexPoolBuilder → KasplexPoolBuilder
  with_tx_mapping tx_mapping b = record b { tx_mapping = some tx_mapping }

  -- `build_pool`: the mapping is only logged
  unfoldable pub build_pool : KasplexPoolBuilder → World → Result Error Pool × World
  build_pool b w =
      let (pool, w') = build_ethereum_pool w in
      elim pool [
        | err e ↦ (err e, w')
        | ok p ↦ elim b.tx_mapping [ none ↦ (ok p, w') | some _ ↦ (ok p, w') ]
      ]

  -- `build_network`
  unfoldable pub build_network : Pool → World → Result Error NetworkHandle × World
  build_network pool w =
      let (network, w') = network_builder w in
      elim network [
        | err e ↦ (err e, w')
        | ok n ↦ let (handle, w'') = start_network n pool w' in (ok handle, w'')
      ]

  -- what reth's contexts have of the node
  pub record Context : Type 0 where
    pub chain_spec : ChainSpec
    pub provider : Provider
    pub pool : Pool
    pub evm_config : EvmConfig
    pub consensus : Consensus
    pub network : NetworkHandle
    pub beacon_engine_handle : BeaconHandle
    pub payload_builder_handle : PayloadHandle
    pub task_executor : TaskExecutor
    pub accept_execution_requests_hash : Bool

  -- `KasplexPayloadBuilder`
  pub record PayloadBuilder : Type 0 where
    pub client : Provider
    pub evm_config : EvmConfig

  -- `build_payload_builder`; the pool is dropped
  abbrev pub build_payload_builder : Context → Pool → EvmConfig → PayloadBuilder
  build_payload_builder ctx pool evm_config = record {
    client = ctx.provider;
    evm_config = evm_config;
  }

  abbrev pub build_evm : Context → EvmConfig
  build_evm ctx = evm_config_new ctx.chain_spec

  abbrev pub build_consensus : Context → Consensus
  build_consensus ctx = consensus_new ctx.chain_spec

  -- `KasplexEngineValidatorBuilder::build`
  abbrev pub build_validator : Context → World → Result Error Validator × World
  build_validator ctx w = (ok (validator_new ctx.chain_spec), w)

  -- reth's `BasicEngineValidator`
  pub record EngineValidator : Type 0 where
    pub provider : Provider
    pub consensus : Consensus
    pub evm_config : EvmConfig
    pub payload_validator : Validator
    pub config : TreeConfig TreeRest
    pub invalid_block_hook : Hook
    pub changeset_cache : ChangesetCache

  -- `build_tree_validator`
  unfoldable pub build_tree_validator :
      Context → TreeConfig TreeRest → ChangesetCache → World → Result Error EngineValidator × World
  build_tree_validator ctx tree_config changeset_cache w =
      let (built, w1) = build_validator ctx w in
      elim built [
        | err e ↦ (err e, w1)
        | ok validator ↦
            let (hook, w2) = create_invalid_block_hook (resolve_datadir ctx.chain_spec) w1 in
            elim hook [
              | err e ↦ (err e, w2)
              | ok invalid_block_hook ↦ (
                ok (record {
                  provider = ctx.provider;
                  consensus = ctx.consensus;
                  evm_config = ctx.evm_config;
                  payload_validator = validator;
                  config = tree_config_for tree_config;
                  invalid_block_hook = invalid_block_hook;
                  changeset_cache = changeset_cache;
                }),
                w2,
              )
            ]
      ]

  -- what `EngineApi::new` is given, without the name of the client; the capabilities are the default
  pub record InnerEngineApi : Type 0 where
    pub provider : Provider
    pub chain_spec : ChainSpec
    pub beacon_consensus : BeaconHandle
    pub payload_store : PayloadHandle
    pub tx_pool : Pool
    pub task_spawner : TaskExecutor
    pub validator : Validator
    pub accept_execution_requests_hash : Bool
    pub network : NetworkHandle

  -- `KasplexEngineApi`
  pub record EngineApi : Type 0 where
    pub inner : InnerEngineApi
    pub provider : Provider
    pub pool : Pool

  -- `build_engine_api`, on the builder of the validator
  unfoldable pub build_engine_api :
      (Context → World → Result Error Validator × World)
      → Context
      → World
      → Result Error EngineApi × World
  build_engine_api payload_validator_builder ctx w =
      let (built, w') = payload_validator_builder ctx w in
      elim built [
        | err e ↦ (err e, w')
        | ok engine_validator ↦ (
          ok (record {
            inner = record {
              provider = ctx.provider;
              chain_spec = ctx.chain_spec;
              beacon_consensus = ctx.beacon_engine_handle;
              payload_store = ctx.payload_builder_handle;
              tx_pool = ctx.pool;
              task_spawner = ctx.task_executor;
              validator = engine_validator;
              accept_execution_requests_hash = ctx.accept_execution_requests_hash;
              network = ctx.network;
            };
            provider = ctx.provider;
            pool = ctx.pool;
          }),
          w',
        )
      ]

  -- With this crate's builder of the validator the engine API is always built, on the pool and the
  -- provider of the node and with a validator for its chain. The tree validator is built exactly when
  -- reth makes the hook for invalid blocks, and then has the same validator and both flags for reorgs
  -- to an older block.
  pub built_parts_agree :
      (ctx : Context) (config : TreeConfig TreeRest) (cache : ChangesetCache) (w : World)
      → ((api : EngineApi) × (build_engine_api build_validator ctx w ≡ (ok api, w))
          × (api.pool ≡ ctx.pool)
          × (api.inner.tx_pool ≡ ctx.pool)
          × (api.inner.validator ≡ validator_new ctx.chain_spec))
        × (let hook = create_invalid_block_hook (resolve_datadir ctx.chain_spec) w in
            ((e : Error) × (hook.0 ≡ err e)
              × (build_tree_validator ctx config cache w ≡ (err e, hook.1)))
            ⊎ ((v : EngineValidator) × (build_tree_validator ctx config cache w ≡ (ok v, hook.1))
                × (v.payload_validator ≡ validator_new ctx.chain_spec)
                × (v.config.always_process_payload_attributes_on_canonical_head ≡ true)
                × (v.config.unwind_canonical_header ≡ true)))
  unfolding build_engine_api build_tree_validator tree_config_for
  built_parts_agree ctx config cache w = (
    (_, refl, refl, refl, refl),
    elim (Result-cases (create_invalid_block_hook (resolve_datadir ctx.chain_spec) w).0) [
      | inr (e, q) ↦ inl (e, q, rw (build_tree_validator, q) refl)
      | inl (h, q) ↦
          let v : EngineValidator = record {
            provider = ctx.provider;
            consensus = ctx.consensus;
            evm_config = ctx.evm_config;
            payload_validator = validator_new ctx.chain_spec;
            config = tree_config_for config;
            invalid_block_hook = h;
            changeset_cache = cache;
          } in
          inr (v, rw (build_tree_validator, q) refl, refl, refl, refl)
    ],
  )
