-- ===== src/ChainSpec.antt =====
-- crates/chainspec/src/{lib,hardfork,spec}.rs: the chain specifications of the Kasplex networks.
-- alloy's genesis accounts, headers, `make_genesis_header` and `hash_slow` are the parameter `Alloy`.
mod Data
pub mod Parser
pub mod Laws
pub mod Queries
pub use Data.*
use kx_reth.Prelude.{
  ℕ, Bool, true, false, ◌||◌, Option, none, some, List, [], ◌∷◌, ◌==◌, not, if◌then◌else◌, Result,
  ok, err, ◌>>=◌,
}

abbrev pub kasplex_mainnet_chain_id : ℕ
kasplex_mainnet_chain_id = 202555

abbrev pub kasplex_internal_l2_chain_id : ℕ
kasplex_internal_l2_chain_id = 168001

abbrev pub kasplex_testnet_chain_id : ℕ
kasplex_testnet_chain_id = 168002

abbrev pub kasplex_devnet_chain_id : ℕ
kasplex_devnet_chain_id = 167012

-- the four `KASPLEX_*_GENESIS_HASH` constants
abbrev pub placeholder_genesis_hash : ℕ
placeholder_genesis_hash = 0

-- `KASPLEX_HARDFORKS`
abbrev pub kasplex_hardforks : List (Hardfork × ForkCondition)
kasplex_hardforks =
    (frontier, block 0)
    ∷ (homestead, block 0)
    ∷ (tangerine, block 0)
    ∷ (spurious_dragon, block 0)
    ∷ (byzantium, block 0)
    ∷ (constantinople, block 0)
    ∷ (petersburg, block 0)
    ∷ (istanbul, block 0)
    ∷ (berlin, block 0)
    ∷ (london, block 0)
    ∷ (paris, ttd 0 (some 0) 0)
    ∷ (shanghai, timestamp 0)
    ∷ []

-- `KasplexChainCheck::is_kasplex`, on `inner.chain.id()`
unfoldable pub is_kasplex_id : ℕ → Bool
is_kasplex_id id =
    (id == kasplex_mainnet_chain_id)
    || ((id == kasplex_internal_l2_chain_id)
        || ((id == kasplex_testnet_chain_id) || (id == kasplex_devnet_chain_id)))

module _ (alloy : Alloy) where
  open alloy use {Account, Header, make_genesis_header, hash_slow}

  -- `KasplexChainSpec`, with the fields of reth's `ChainSpec` that the crate sets
  pub record ChainSpec : Type 0 where
    pub chain : ℕ
    pub genesis_header : Header
    pub genesis_hash : ℕ
    pub genesis : Genesis Account
    pub paris_block_and_final_difficulty : Option (ℕ × ℕ)
    pub hardforks : List (Hardfork × ForkCondition)
    pub prune_delete_limit : ℕ

  unfoldable pub is_kasplex : ChainSpec → Bool
  unfolding is_kasplex_id
  is_kasplex c = is_kasplex_id c.chain

  -- the genesis literal of `make_kasplex_chain_spec_minimal`
  abbrev pub minimal_genesis : ℕ → Genesis Account
  minimal_genesis chain_id = record {
    chain_id = chain_id;
    extra_data = [];
    gas_limit = 15_000_000;
    base_fee_per_gas = some 2_000_000_000_000;
    difficulty = 0;
    timestamp = 0;
    nonce = 0;
    mix_hash = 0;
    alloc = [];
    number = some 0;
    parent_hash = 0;
    coinbase = 0;
    blob_gas_used = none;
    excess_blob_gas = none;
  }

  -- `make_kasplex_chain_spec_minimal`: the header is sealed with the hash that is handed in
  unfoldable pub make_kasplex_chain_spec_minimal :
      ℕ → ℕ → List (Hardfork × ForkCondition) → ChainSpec
  make_kasplex_chain_spec_minimal chain_id given hardforks = record {
    chain = chain_id;
    genesis_header = make_genesis_header (minimal_genesis chain_id) hardforks;
    genesis_hash = given;
    genesis = minimal_genesis chain_id;
    paris_block_and_final_difficulty = some (0, 0);
    hardforks = hardforks;
    prune_delete_limit = 10000;
  }

  -- the struct literal at the end of `make_kasplex_chain_spec`
  abbrev spec_of : Genesis Account → Header → ℕ → List (Hardfork × ForkCondition) → ChainSpec
  spec_of genesis header final_hash hardforks = record {
    chain = genesis.chain_id;
    genesis_header = header;
    genesis_hash = final_hash;
    genesis = genesis;
    paris_block_and_final_difficulty = some (0, 0);
    hardforks = hardforks;
    prune_delete_limit = 10000;
  }

  -- `make_kasplex_chain_spec`. Its first argument is what serde makes of the JSON text, `none` if the
  -- text is no genesis; the two panics are errors here.
  unfoldable pub make_kasplex_chain_spec :
      Option (Genesis Account) → ℕ → List (Hardfork × ForkCondition) → Result ChainError ChainSpec
  make_kasplex_chain_spec none given hardforks = err genesis_not_deserialized
  make_kasplex_chain_spec (some genesis) given hardforks =
      let header = make_genesis_header genesis hardforks in
      let computed = hash_slow header in
      do
        final_hash ←
            (if given == 0
              then ok computed
              else if not (computed == given)
              then err genesis_hash_mismatch
              else ok given)
        ok (spec_of genesis header final_hash hardforks)

  unfoldable pub make_kasplex_internal_l2_chain_spec : ChainSpec
  unfolding make_kasplex_chain_spec_minimal
  make_kasplex_internal_l2_chain_spec =
      make_kasplex_chain_spec_minimal kasplex_internal_l2_chain_id placeholder_genesis_hash
        kasplex_hardforks

  unfoldable pub make_kasplex_testnet_chain_spec : ChainSpec
  unfolding make_kasplex_chain_spec_minimal
  make_kasplex_testnet_chain_spec =
      make_kasplex_chain_spec_minimal kasplex_testnet_chain_id placeholder_genesis_hash
        kasplex_hardforks

  unfoldable pub make_kasplex_devnet_chain_spec : ChainSpec
  unfolding make_kasplex_chain_spec_minimal
  make_kasplex_devnet_chain_spec =
      make_kasplex_chain_spec_minimal kasplex_devnet_chain_id placeholder_genesis_hash
        kasplex_hardforks

  -- `make_kasplex_mainnet_chain_spec`, over what serde makes of the included JSON file
  unfoldable pub make_kasplex_mainnet_chain_spec :
      Option (Genesis Account) → Result ChainError ChainSpec
  unfolding make_kasplex_chain_spec
  make_kasplex_mainnet_chain_spec json =
      make_kasplex_chain_spec json placeholder_genesis_hash kasplex_hardforks
