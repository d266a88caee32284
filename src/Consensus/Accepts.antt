-- ===== src/Consensus/Accepts.antt =====
-- crates/consensus/src/validation.rs: exactly which headers are accepted.
use kx_reth.Prelude.{ℕ, ◌≡◌, ◌≢◌, ◌≤◌, ◌<◌, ◌↔◌, true, Option, some, arith, ok, err}
use kx_reth.Consensus.{
  BlockHeader, RethChecks, kasplex_base_fee, timestamp_is_in_past, base_fee_diff, validate_header,
  validate_header_against_parent, validate_kasplex_base_fee, calculate_kasplex_base_fee,
}

module _ {H : Type 0} (view : BlockHeader H) (reth : RethChecks H) where
  open view use {difficulty, nonce, ommers_hash, base_fee_per_gas, timestamp}
  open reth use {
    empty_ommer_root_hash, validate_header_extra_data, validate_header_gas,
    validate_header_base_fee, validate_against_parent_hash_number,
  }

  -- What a standalone header has to be.
  pub record IsAcceptable (h : H) : Type 0 where
    pub no_difficulty : difficulty h ≡ 0
    pub zero_nonce : nonce h ≡ some 0
    pub no_ommers : ommers_hash h ≡ empty_ommer_root_hash
    pub extra_data_passes : validate_header_extra_data h 32 ≡ ok tt
    pub gas_passes : validate_header_gas h ≡ ok tt
    pub base_fee_passes : validate_header_base_fee h ≡ ok tt
    pub fixed_base_fee : base_fee_per_gas h ≡ some kasplex_base_fee

  -- A header is accepted exactly when it has difficulty 0, nonce 0, no ommers and the fixed base fee,
  -- and reth's checks of its extra data (at 32 bytes), gas and base fee pass.
  pub validate_header_iff : (h : H) → (validate_header view reth h ≡ ok tt) ↔ IsAcceptable h
  unfolding validate_header
  validate_header_iff h = (
    λ e. record {
      no_difficulty = ground arith;
      zero_nonce = ground arith;
      no_ommers = ground arith;
      extra_data_passes = ground arith;
      gas_passes = ground arith;
      base_fee_passes = ground arith;
      fixed_base_fee = ground arith;
    },
    λ a. ground arith,
  )

  -- A header is accepted against its parent exactly when reth's check of hash and number passes, its
  -- timestamp is not before the parent's (it may be equal) and it has the fixed base fee.
  pub validate_header_against_parent_iff :
      (h parent : H)
      → (validate_header_against_parent view reth h parent ≡ ok tt) ↔ (
          (validate_against_parent_hash_number h parent ≡ ok tt)
          × (timestamp parent ≤ timestamp h)
          × (base_fee_per_gas h ≡ some kasplex_base_fee))
  unfolding validate_header_against_parent
  validate_header_against_parent_iff h parent = (λ e. ground arith, λ a. ground arith)

  -- A header whose hash and number pass and that has a base fee is refused for its timestamp first,
  -- and then for its fee, and the error carries the values compared.
  pub validate_header_against_parent_errors :
      (h parent : H) (fee : ℕ)
      → validate_against_parent_hash_number h parent ≡ ok tt
      → base_fee_per_gas h ≡ some fee
      → (timestamp h < timestamp parent
          → validate_header_against_parent view reth h parent
            ≡ err (timestamp_is_in_past (timestamp parent) (timestamp h)))
        × (timestamp parent ≤ timestamp h
            → fee ≢ kasplex_base_fee
            → validate_header_against_parent view reth h parent
              ≡ err (base_fee_diff fee kasplex_base_fee))
  unfolding validate_header_against_parent
  validate_header_against_parent_errors h parent fee passes e =
      (λ t. ground arith, λ t ne. ground arith)

-- The stand-alone check of a fee accepts exactly the fee that the crate computes.
pub validate_kasplex_base_fee_iff :
    (fee : Option ℕ)
    → (validate_kasplex_base_fee fee ≡ true) ↔ (fee ≡ some calculate_kasplex_base_fee)
unfolding validate_kasplex_base_fee calculate_kasplex_base_fee
validate_kasplex_base_fee_iff fee = ground arith
