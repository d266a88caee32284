-- ===== src/Evm/Treasury/Networks.antt =====
-- crates/evm/src/lib.rs, `get_treasury_address_from_spec`: the treasuries of the Kasplex networks.
use kx_reth.Prelude.{ℕ, ◌≡◌, ◌<◌, refl, ap, ◌∙◌, sym, true, arith, length}
use kx_reth.Prelude.Word.{u64_mod}
use kx_reth.ChainSpec.{
  Alloy, ChainSpec, is_kasplex, is_kasplex_id, kasplex_mainnet_chain_id,
  kasplex_internal_l2_chain_id, kasplex_testnet_chain_id, kasplex_devnet_chain_id,
}
use kx_reth.Evm.Treasury.{AddressParser, get_treasury_address}
use kx_reth.Evm.Treasury.Decimal.{decimal}
use kx_reth.Evm.Treasury.Laws.{get_treasury_address_injective}

four_lengths :
    (length (decimal kasplex_mainnet_chain_id) ≡ 6)
    × (length (decimal kasplex_internal_l2_chain_id) ≡ 6)
    × (length (decimal kasplex_testnet_chain_id) ≡ 6)
    × (length (decimal kasplex_devnet_chain_id) ≡ 6)
unfolding decimal kx_reth.Evm.Treasury.Decimal.emit
four_lengths = (refl, refl, refl, refl)

-- An id of one of the four networks fits a u64 and has six digits.
six_digits : (id : ℕ) → is_kasplex_id id ≡ true → (id < u64_mod) × (length (decimal id) ≡ 6)
unfolding is_kasplex_id
six_digits id h = (ground (arith, h), ground (arith, h, four_lengths, ap (λ n. length (decimal n))))

module _ (alloy : Alloy) where
  -- `get_treasury_address_from_spec`
  unfoldable pub get_treasury_address_from_spec : AddressParser → ChainSpec alloy → ℕ
  get_treasury_address_from_spec parse c = get_treasury_address parse c.chain

  -- Two chain specifications that count as Kasplex chains have one treasury address only if they are for
  -- one chain id: no two of the four networks share a treasury.
  pub networks_have_own_treasuries :
      (parse : AddressParser) (c d : ChainSpec alloy)
      → is_kasplex alloy c ≡ true
      → is_kasplex alloy d ≡ true
      → get_treasury_address_from_spec parse c ≡ get_treasury_address_from_spec parse d
      → c.chain ≡ d.chain
  unfolding get_treasury_address_from_spec is_kasplex
  networks_have_own_treasuries parse c d hc hd same =
      let of_c = six_digits c.chain hc in
      let of_d = six_digits d.chain hd in
      get_treasury_address_injective parse c.chain d.chain of_c.0 of_d.0 (of_c.1 ∙ sym of_d.1) same
