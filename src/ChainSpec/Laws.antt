-- ===== src/ChainSpec/Laws.antt =====
-- crates/chainspec: which hash seals the genesis block, and what the supported names stand for.
use Prim.Native.String.{String}
use kx_reth.Prelude.{
  ℕ, ◌≡◌, ◌≢◌, ◌↔◌, refl, sym, true, Option, some, List, arith, All, Result, ok, err,
}
use kx_reth.ChainSpec.{
  Alloy, Genesis, Hardfork, ForkCondition, ChainSpec, ChainError, genesis_hash_mismatch, is_kasplex,
  make_kasplex_chain_spec, make_kasplex_mainnet_chain_spec, make_kasplex_internal_l2_chain_spec,
  make_kasplex_testnet_chain_spec, make_kasplex_devnet_chain_spec, kasplex_mainnet_chain_id,
}
use kx_reth.ChainSpec.Parser.{supported_chains, chain_value_parser}

module _ (alloy : Alloy) where
  open alloy use {Account, make_genesis_header, hash_slow}

  -- A chain spec made from a genesis file has the hash of its own genesis header and the chain id of
  -- the file, whatever hash was configured.
  pub make_kasplex_chain_spec-genesis_hash :
      (genesis : Genesis Account) (given : ℕ) (forks : List (Hardfork × ForkCondition))
      {c : ChainSpec alloy}
      → make_kasplex_chain_spec alloy (some genesis) given forks ≡ ok c
      → (c.genesis_hash ≡ hash_slow c.genesis_header) × (c.chain ≡ genesis.chain_id)
  unfolding make_kasplex_chain_spec
  make_kasplex_chain_spec-genesis_hash genesis given forks h = ground arith

  -- A genesis file that is read is refused exactly when a hash other than 0 was configured that is not
  -- the hash of the genesis header.
  pub make_kasplex_chain_spec_mismatch :
      (genesis : Genesis Account) (given : ℕ) (forks : List (Hardfork × ForkCondition))
      → (make_kasplex_chain_spec alloy (some genesis) given forks ≡ err genesis_hash_mismatch)
        ↔ ((given ≢ 0) × (hash_slow (make_genesis_header genesis forks) ≢ given))
  unfolding make_kasplex_chain_spec
  make_kasplex_chain_spec_mismatch genesis given forks = ground arith

  -- the genesis block is sealed with the hash of its header
  abbrev pub IsSealed : ChainSpec alloy → Type 0
  IsSealed c = c.genesis_hash ≡ hash_slow c.genesis_header

  -- The specs that are made with no genesis file keep the placeholder: if no header has the hash 0,
  -- none of the three has the hash of its own genesis header, and all three have the same hash.
  minimal_chains_missealed :
      ((h : alloy.Header) → hash_slow h ≢ 0)
      → (¬ IsSealed (make_kasplex_internal_l2_chain_spec alloy))
        × (¬ IsSealed (make_kasplex_testnet_chain_spec alloy))
        × (¬ IsSealed (make_kasplex_devnet_chain_spec alloy))
        × ((make_kasplex_testnet_chain_spec alloy).genesis_hash
            ≡ (make_kasplex_internal_l2_chain_spec alloy).genesis_hash)
        × ((make_kasplex_devnet_chain_spec alloy).genesis_hash
            ≡ (make_kasplex_internal_l2_chain_spec alloy).genesis_hash)
  unfolding make_kasplex_internal_l2_chain_spec make_kasplex_testnet_chain_spec
      make_kasplex_devnet_chain_spec
  minimal_chains_missealed nonzero =
      (λ e. nonzero _ (sym e), λ e. nonzero _ (sym e), λ e. nonzero _ (sym e), refl, refl)

  abbrev pub ParsesToKasplex :
      Option (Genesis Account) → (String → Result ChainError (ChainSpec alloy)) → String → Type 0
  ParsesToKasplex json parse_genesis s =
      (c : ChainSpec alloy) × (chain_value_parser alloy json parse_genesis s ≡ ok c)
      × (is_kasplex alloy c ≡ true)

  -- Where the included genesis file is read and has the mainnet chain id, each supported chain name is
  -- parsed, whatever `parse_genesis` does, and to a spec that counts as a Kasplex chain.
  pub supported_chains-ParsesToKasplex :
      (genesis : Genesis Account) (parse_genesis : String → Result ChainError (ChainSpec alloy))
      → genesis.chain_id ≡ kasplex_mainnet_chain_id
      → All (ParsesToKasplex (some genesis) parse_genesis) supported_chains
  unfolding chain_value_parser is_kasplex make_kasplex_mainnet_chain_spec
      make_kasplex_internal_l2_chain_spec make_kasplex_testnet_chain_spec
      make_kasplex_devnet_chain_spec
  supported_chains-ParsesToKasplex genesis parse_genesis e =
      ((_, refl, rw e refl), ((_, refl, refl), ((_, refl, refl), ((_, refl, refl), tt))))
