-- ===== src/Eth/Delegation.antt =====
-- crates/rpc/src/eth/{types,builder}.rs: the methods of `KasplexEthApi` that hand a call on to the Eth API
-- of reth that it wraps, which is the parameter `EthApi`.
use kx_reth.Prelude.{ℕ, Option, Result, ok}

pub record EthApi : Type 1 where
  pub Inner : Type 0
  pub RpcConvert : Type 0
  pub Pool : Type 0
  pub Evm : Type 0
  pub Network : Type 0
  pub Provider : Type 0
  pub EthStateCache : Type 0
  pub TaskSpawner : Type 0
  pub BlockingTaskPool : Type 0
  pub BlockingTaskGuard : Type 0
  pub Semaphore : Type 0
  pub GasPriceOracle : Type 0
  pub FeeHistoryCache : Type 0
  pub PendingBlock : Type 0
  pub PendingBlockKind : Type 0
  pub PendingEnvBuilder : Type 0
  pub Signers : Type 0
  pub Transaction : Type 0
  pub Error : Type 0
  pub Builder : Type 0
  pub converter : Inner → RpcConvert
  pub pool : Inner → Pool
  pub evm_config : Inner → Evm
  pub network : Inner → Network
  pub provider : Inner → Provider
  pub cache : Inner → EthStateCache
  pub task_spawner : Inner → TaskSpawner
  pub blocking_task_pool : Inner → BlockingTaskPool
  pub blocking_task_guard : Inner → BlockingTaskGuard
  pub blocking_io_task_guard : Inner → Semaphore
  pub gas_oracle : Inner → GasPriceOracle
  pub fee_history_cache : Inner → FeeHistoryCache
  pub gas_cap : Inner → ℕ
  pub max_simulate_blocks : Inner → ℕ
  pub evm_memory_limit : Inner → ℕ
  pub eth_proof_window : Inner → ℕ
  pub pending_block : Inner → Option PendingBlock
  pub pending_block_kind : Inner → PendingBlockKind
  pub pending_env_builder : Inner → PendingEnvBuilder
  pub signers : Inner → Signers
  pub send_raw_transaction_sync_timeout : Inner → ℕ
  pub send_transaction : Transaction → Inner → Result Error ℕ × Inner
  pub starting_block : Inner → ℕ
  -- `EthApiBuilder::build`
  pub build : Builder → Inner

-- `KasplexEthApi`
pub record KasplexEthApi (api : EthApi) : Type 0 where
  pub inner : api.Inner

module _ (api : EthApi) where
  abbrev Wrapped : Type 0
  Wrapped = KasplexEthApi api

  -- `EthApiTypes`, `RpcNodeCore` and `RpcNodeCoreExt`
  abbrev pub converter : Wrapped → api.RpcConvert
  converter self = api.converter self.inner

  abbrev pub pool : Wrapped → api.Pool
  pool self = api.pool self.inner

  abbrev pub evm_config : Wrapped → api.Evm
  evm_config self = api.evm_config self.inner

  abbrev pub network : Wrapped → api.Network
  network self = api.network self.inner

  abbrev pub provider : Wrapped → api.Provider
  provider self = api.provider self.inner

  abbrev pub cache : Wrapped → api.EthStateCache
  cache self = api.cache self.inner

  -- `SpawnBlocking`
  abbrev pub io_task_spawner : Wrapped → api.TaskSpawner
  io_task_spawner self = api.task_spawner self.inner

  abbrev pub tracing_task_pool : Wrapped → api.BlockingTaskPool
  tracing_task_pool self = api.blocking_task_pool self.inner

  abbrev pub tracing_task_guard : Wrapped → api.BlockingTaskGuard
  tracing_task_guard self = api.blocking_task_guard self.inner

  abbrev pub blocking_io_task_guard : Wrapped → api.Semaphore
  blocking_io_task_guard self = api.blocking_io_task_guard self.inner

  -- `LoadFee`
  abbrev pub gas_oracle : Wrapped → api.GasPriceOracle
  gas_oracle self = api.gas_oracle self.inner

  abbrev pub fee_history_cache : Wrapped → api.FeeHistoryCache
  fee_history_cache self = api.fee_history_cache self.inner

  -- `Call` and `EthState`
  abbrev pub call_gas_limit : Wrapped → ℕ
  call_gas_limit self = api.gas_cap self.inner

  abbrev pub max_simulate_blocks : Wrapped → ℕ
  max_simulate_blocks self = api.max_simulate_blocks self.inner

  abbrev pub evm_memory_limit : Wrapped → ℕ
  evm_memory_limit self = api.evm_memory_limit self.inner

  abbrev pub max_proof_window : Wrapped → ℕ
  max_proof_window self = api.eth_proof_window self.inner

  -- `LoadPendingBlock`
  abbrev pub pending_block : Wrapped → Option api.PendingBlock
  pending_block self = api.pending_block self.inner

  abbrev pub pending_block_kind : Wrapped → api.PendingBlockKind
  pending_block_kind self = api.pending_block_kind self.inner

  abbrev pub pending_env_builder : Wrapped → api.PendingEnvBuilder
  pending_env_builder self = api.pending_env_builder self.inner

  -- `EthTransactions` and `EthApiSpec`
  abbrev pub signers : Wrapped → api.Signers
  signers self = api.signers self.inner

  abbrev pub send_raw_transaction_sync_timeout : Wrapped → ℕ
  send_raw_transaction_sync_timeout self = api.send_raw_transaction_sync_timeout self.inner

  abbrev pub send_transaction : api.Transaction → Wrapped → Result api.Error ℕ × Wrapped
  send_transaction tx self =
      let (result, inner) = api.send_transaction tx self.inner in (result, record { inner = inner })

  abbrev pub starting_block : Wrapped → ℕ
  starting_block self = api.starting_block self.inner

  -- `build_eth_api`
  abbrev pub build_eth_api : api.Builder → Result api.Error Wrapped
  build_eth_api builder = ok (record { inner = api.build builder })
