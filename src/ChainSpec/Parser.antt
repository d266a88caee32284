-- ===== src/ChainSpec/Parser.antt =====
-- crates/chainspec/src/parser.rs: the `--chain` argument.
use Prim.Native.String.{String}
use text.Mathlib.Text.{◌==◌}
use kx_reth.Prelude.{◌||◌, Option, List, [], ◌∷◌, if◌then◌else◌, Result, ok}
use kx_reth.ChainSpec.{
  Alloy, Genesis, ChainSpec, ChainError, make_kasplex_mainnet_chain_spec,
  make_kasplex_internal_l2_chain_spec, make_kasplex_testnet_chain_spec,
  make_kasplex_devnet_chain_spec,
}

abbrev pub supported_chains : List String
supported_chains =
    "kasplex-mainnet" ∷ "kasplex-internal-l2" ∷ "kasplex-testnet" ∷ "kasplex-devnet" ∷ []

module _ (alloy : Alloy) where
  open alloy use {Account}

  -- `chain_value_parser`. `json` is the included mainnet genesis as serde reads it, and
  -- `parse_genesis` is reth's, followed by the conversion of its genesis to a chain spec.
  unfoldable pub chain_value_parser :
      Option (Genesis Account)
      → (String → Result ChainError (ChainSpec alloy))
      → String
      → Result ChainError (ChainSpec alloy)
  chain_value_parser json parse_genesis s =
      if (s == "kasplex-mainnet") || (s == "kasplex_mainnet")
      then make_kasplex_mainnet_chain_spec alloy json
      else if (s == "kasplex-internal-l2") || (s == "kasplex_internal_l2")
      then ok (make_kasplex_internal_l2_chain_spec alloy)
      else if (s == "kasplex-testnet") || (s == "kasplex_testnet")
      then ok (make_kasplex_testnet_chain_spec alloy)
      else if (s == "kasplex-devnet") || (s == "kasplex_devnet")
      then ok (make_kasplex_devnet_chain_spec alloy)
      else parse_genesis s
