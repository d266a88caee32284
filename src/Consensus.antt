-- ===== src/Consensus.antt =====
-- crates/consensus/src/validation.rs: the checks of headers and blocks. A header is used through
-- alloy's `BlockHeader` trait, the parameter `view`; reth's own validations are the parameter `reth`.
pub mod Accepts
pub mod Chain
pub mod Body
use kx_reth.Prelude.{
  ℕ, Bool, true, false, not, Option, none, some, ltb, ◌==◌, Result, ok, err, ◌>>=◌, ◌>>◌, fail_if,
  ok_or, Option,
}

-- `KASPLEX_BASE_FEE`: 2000 GWei
abbrev pub kasplex_base_fee : ℕ
kasplex_base_fee = 2_000_000_000_000

-- reth's `ConsensusError`, the cases that this crate makes; `other` is an error of reth's checks
pub data ConsensusError : Type 0 where
  the_merge_difficulty_is_not_zero the_merge_nonce_is_not_zero : ConsensusError
  the_merge_ommer_root_is_not_empty base_fee_missing : ConsensusError
  -- the parent's timestamp and the header's
  timestamp_is_in_past : ℕ → ℕ → ConsensusError
  -- the fee got and the fee expected
  base_fee_diff : ℕ → ℕ → ConsensusError
  other : ℕ → ConsensusError

abbrev pub Check : Type 0
Check = Result ConsensusError (Unit {0})

-- alloy's trait `BlockHeader`, the methods that are called
pub record BlockHeader (H : Type 0) : Type 0 where
  pub difficulty : H → ℕ
  pub nonce : H → Option ℕ
  pub ommers_hash : H → ℕ
  pub base_fee_per_gas : H → Option ℕ
  pub timestamp : H → ℕ

-- reth's `consensus_common::validation`, at the chain spec of the node, and alloy's
-- `EMPTY_OMMER_ROOT_HASH`
pub record RethChecks (H : Type 0) : Type 0 where
  pub empty_ommer_root_hash : ℕ
  pub validate_header_extra_data : H → ℕ → Check
  pub validate_header_gas : H → Check
  pub validate_header_base_fee : H → Check
  pub validate_against_parent_hash_number : H → H → Check

-- `Option::is_some_and(|nonce| nonce.is_zero())`
abbrev pub is_some_zero : Option ℕ → Bool
is_some_zero none = false
is_some_zero (some n) = n == 0

module _ {H : Type 0} (view : BlockHeader H) (reth : RethChecks H) where
  open view use {difficulty, nonce, ommers_hash, base_fee_per_gas, timestamp}
  open reth use {
    empty_ommer_root_hash, validate_header_extra_data, validate_header_gas,
    validate_header_base_fee, validate_against_parent_hash_number,
  }

  -- `validate_kasplex_base_fee_in_header`
  unfoldable pub validate_kasplex_base_fee_in_header : H → Check
  validate_kasplex_base_fee_in_header h = do
    base_fee ← ok_or (base_fee_per_gas h) base_fee_missing
    fail_if (not (base_fee == kasplex_base_fee)) (base_fee_diff base_fee kasplex_base_fee)

  -- `HeaderValidator::validate_header`
  unfoldable pub validate_header : H → Check
  unfolding validate_kasplex_base_fee_in_header
  validate_header h = do
    fail_if (not (difficulty h == 0)) the_merge_difficulty_is_not_zero
    fail_if (not (is_some_zero (nonce h))) the_merge_nonce_is_not_zero
    fail_if (not (ommers_hash h == empty_ommer_root_hash)) the_merge_ommer_root_is_not_empty
    validate_header_extra_data h 32
    validate_header_gas h
    validate_header_base_fee h
    validate_kasplex_base_fee_in_header h

  -- `HeaderValidator::validate_header_against_parent`
  unfoldable pub validate_header_against_parent : H → H → Check
  validate_header_against_parent h parent = do
    validate_against_parent_hash_number h parent
    header_base_fee ← ok_or (base_fee_per_gas h) base_fee_missing
    fail_if (ltb (timestamp h) (timestamp parent))
        (timestamp_is_in_past (timestamp parent) (timestamp h))
    fail_if (not (header_base_fee == kasplex_base_fee))
        (base_fee_diff header_base_fee kasplex_base_fee)
    ok tt

-- `validate_block_pre_execution`
unfoldable pub validate_block_pre_execution : {B : Type 0} → B → Check
validate_block_pre_execution block = ok tt

-- `calculate_kasplex_base_fee` and `get_kasplex_base_fee`
unfoldable pub calculate_kasplex_base_fee : ℕ
calculate_kasplex_base_fee = kasplex_base_fee

unfoldable pub get_kasplex_base_fee : ℕ
get_kasplex_base_fee = kasplex_base_fee

-- `validate_kasplex_base_fee`
unfoldable pub validate_kasplex_base_fee : Option ℕ → Bool
validate_kasplex_base_fee none = false
validate_kasplex_base_fee (some fee) = fee == kasplex_base_fee
