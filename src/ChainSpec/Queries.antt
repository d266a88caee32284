-- ===== src/ChainSpec/Queries.antt =====
-- crates/chainspec/src/spec.rs: what the other parts of the node ask a chain specification. What it
-- passes on to reth's `ChainSpec` and `ChainHardforks` is the parameter `Reth`.
use kx_reth.Prelude.{
  ℕ, ◌+◌, ◌≡◌, ◌∙◌, ap, Bool, true, Option, none, some, List, [], ◌∷◌, arith, unwrap_or, ok,
}
use kx_reth.Prelude.HashMap
use kx_reth.Prelude.HashMap.{HashMap, IsDistinct}
use kx_reth.ChainSpec.{
  Alloy, ChainSpec, Genesis, Hardfork, ForkCondition, frontier, homestead, tangerine,
  spurious_dragon, byzantium, constantinople, petersburg, istanbul, berlin, london, paris, shanghai,
  unlisted, block, timestamp, ttd, never, kasplex_hardforks, make_kasplex_mainnet_chain_spec,
  make_kasplex_internal_l2_chain_spec, make_kasplex_testnet_chain_spec,
  make_kasplex_devnet_chain_spec,
}

-- Hardforks are told apart by their place in alloy's list.
abbrev pub fork_index : Hardfork → ℕ
fork_index frontier = 0
fork_index homestead = 1
fork_index tangerine = 2
fork_index spurious_dragon = 3
fork_index byzantium = 4
fork_index constantinople = 5
fork_index petersburg = 6
fork_index istanbul = 7
fork_index berlin = 8
fork_index london = 9
fork_index paris = 10
fork_index shanghai = 11
fork_index (unlisted n) = 12 + n

abbrev pub by_index : List (Hardfork × ForkCondition) → HashMap ForkCondition
by_index [] = []
by_index ((h, c) ∷ forks) = (fork_index h, c) ∷ by_index forks

-- reth's `ChainSpec`, over the fields of ours. Its hardforks are looked up in the list, where each is
-- listed once; one that is not listed is never active.
pub record Reth (alloy : Alloy) : Type 1 where
  pub BaseFeeParams : Type 0
  pub Head : Type 0
  pub ForkId : Type 0
  pub ForkFilter : Type 0
  pub NodeRecord : Type 0
  pub fork : List (Hardfork × ForkCondition) → Hardfork → ForkCondition
  pub fork_lem :
      (forks : List (Hardfork × ForkCondition)) (h : Hardfork)
      → IsDistinct (by_index forks)
      → fork forks h ≡ unwrap_or (HashMap.get (fork_index h) (by_index forks)) never
  pub from_genesis : Genesis alloy.Account → ChainSpec alloy
  pub fork_id : ChainSpec alloy → Head → ForkId
  pub latest_fork_id : ChainSpec alloy → ForkId
  pub fork_filter : ChainSpec alloy → Head → ForkFilter
  pub base_fee_params_at_timestamp : ChainSpec alloy → ℕ → BaseFeeParams
  pub display_hardforks : ChainSpec alloy → List ℕ
  pub bootnodes : ChainSpec alloy → Option (List NodeRecord)

distinct_lem : IsDistinct (by_index kasplex_hardforks)
unfolding HashMap.get
distinct_lem = ground arith

module _ (alloy : Alloy) (reth : Reth alloy) where
  -- `From<Genesis>`
  abbrev pub from_genesis : Genesis alloy.Account → ChainSpec alloy
  from_genesis genesis = reth.from_genesis genesis

  -- `Hardforks::fork` and `forks_iter`
  unfoldable pub fork : ChainSpec alloy → Hardfork → ForkCondition
  fork c h = reth.fork c.hardforks h

  abbrev pub forks_iter : ChainSpec alloy → List (Hardfork × ForkCondition)
  forks_iter c = c.hardforks

  abbrev pub fork_id : ChainSpec alloy → reth.Head → reth.ForkId
  fork_id c head = reth.fork_id c head

  abbrev pub latest_fork_id : ChainSpec alloy → reth.ForkId
  latest_fork_id c = reth.latest_fork_id c

  abbrev pub fork_filter : ChainSpec alloy → reth.Head → reth.ForkFilter
  fork_filter c head = reth.fork_filter c head

  -- `EthereumHardforks`: reth's `ChainSpec::fork` looks into its own hardforks
  unfoldable pub ethereum_fork_activation : ChainSpec alloy → Hardfork → ForkCondition
  unfolding fork
  ethereum_fork_activation c h = fork c h

  -- `EthExecutorSpec`
  unfoldable pub deposit_contract_address : ChainSpec alloy → Option ℕ
  deposit_contract_address c = none

  -- `EthChainSpec`
  abbrev pub chain : ChainSpec alloy → ℕ
  chain c = c.chain

  abbrev pub base_fee_params_at_timestamp : ChainSpec alloy → ℕ → reth.BaseFeeParams
  base_fee_params_at_timestamp c time = reth.base_fee_params_at_timestamp c time

  -- blob parameters and a deposit contract, of which there are none: what they would hold is not read
  unfoldable pub blob_params_at_timestamp :
      {BlobParams : Type 0} → ChainSpec alloy → ℕ → Option BlobParams
  blob_params_at_timestamp c time = none

  unfoldable pub deposit_contract :
      {DepositContract : Type 0} → ChainSpec alloy → Option DepositContract
  deposit_contract c = none

  abbrev pub genesis_hash : ChainSpec alloy → ℕ
  genesis_hash c = c.genesis_hash

  abbrev pub prune_delete_limit : ChainSpec alloy → ℕ
  prune_delete_limit c = c.prune_delete_limit

  abbrev pub display_hardforks : ChainSpec alloy → List ℕ
  display_hardforks c = reth.display_hardforks c

  abbrev pub genesis_header : ChainSpec alloy → alloy.Header
  genesis_header c = c.genesis_header

  abbrev pub genesis : ChainSpec alloy → Genesis alloy.Account
  genesis c = c.genesis

  abbrev pub bootnodes : ChainSpec alloy → Option (List reth.NodeRecord)
  bootnodes c = reth.bootnodes c

  unfoldable pub is_optimism : ChainSpec alloy → Bool
  is_optimism c = true

  unfoldable pub final_paris_total_difficulty : ChainSpec alloy → Option ℕ
  final_paris_total_difficulty c = some 0

  -- The four networks.
  pub data IsNetwork (json : Option (Genesis alloy.Account)) (c : ChainSpec alloy) : Type 0 where
    is_mainnet : make_kasplex_mainnet_chain_spec alloy json ≡ ok c → IsNetwork json c
    is_internal_l2 : c ≡ make_kasplex_internal_l2_chain_spec alloy → IsNetwork json c
    is_testnet : c ≡ make_kasplex_testnet_chain_spec alloy → IsNetwork json c
    is_devnet : c ≡ make_kasplex_devnet_chain_spec alloy → IsNetwork json c

  -- When a hardfork is active on a Kasplex network.
  abbrev pub kasplex_activation : Hardfork → ForkCondition
  kasplex_activation paris = ttd 0 (some 0) 0
  kasplex_activation shanghai = timestamp 0
  kasplex_activation (unlisted n) = never
  kasplex_activation _ = block 0

  listed_lem : (h : Hardfork) → reth.fork kasplex_hardforks h ≡ kasplex_activation h
  unfolding HashMap.get
  listed_lem frontier = reth.fork_lem kasplex_hardforks frontier distinct_lem
  listed_lem homestead = reth.fork_lem kasplex_hardforks homestead distinct_lem
  listed_lem tangerine = reth.fork_lem kasplex_hardforks tangerine distinct_lem
  listed_lem spurious_dragon = reth.fork_lem kasplex_hardforks spurious_dragon distinct_lem
  listed_lem byzantium = reth.fork_lem kasplex_hardforks byzantium distinct_lem
  listed_lem constantinople = reth.fork_lem kasplex_hardforks constantinople distinct_lem
  listed_lem petersburg = reth.fork_lem kasplex_hardforks petersburg distinct_lem
  listed_lem istanbul = reth.fork_lem kasplex_hardforks istanbul distinct_lem
  listed_lem berlin = reth.fork_lem kasplex_hardforks berlin distinct_lem
  listed_lem london = reth.fork_lem kasplex_hardforks london distinct_lem
  listed_lem paris = reth.fork_lem kasplex_hardforks paris distinct_lem
  listed_lem shanghai = reth.fork_lem kasplex_hardforks shanghai distinct_lem
  listed_lem (unlisted n) = reth.fork_lem kasplex_hardforks (unlisted n) distinct_lem ∙ ground arith

  same_forks :
      (json : Option (Genesis alloy.Account)) (c : ChainSpec alloy)
      → IsNetwork json c
      → c.hardforks ≡ kasplex_hardforks
  unfolding make_kasplex_mainnet_chain_spec make_kasplex_internal_l2_chain_spec
      make_kasplex_testnet_chain_spec make_kasplex_devnet_chain_spec
  same_forks json c (is_mainnet e) = ground (arith, e)
  same_forks json c (is_internal_l2 e) = ground (arith, e)
  same_forks json c (is_testnet e) = ground (arith, e)
  same_forks json c (is_devnet e) = ground (arith, e)

  -- On each of the four networks the node sees the same hardforks: Paris by the total difficulty 0 at
  -- block 0, Shanghai from the time 0 on, those before them that the code lists from block 0 on, and no
  -- other hardfork, so nothing after Shanghai is ever active.
  pub network_forks :
      (json : Option (Genesis alloy.Account)) (c : ChainSpec alloy) (h : Hardfork)
      → IsNetwork json c
      → (fork c h ≡ kasplex_activation h) × (ethereum_fork_activation c h ≡ kasplex_activation h)
  unfolding fork ethereum_fork_activation
  network_forks json c h network =
      let same = ap (λ forks. reth.fork forks h) (same_forks json c network) ∙ listed_lem h in
      (same, same)
