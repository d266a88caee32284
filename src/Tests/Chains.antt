-- ===== src/Tests/Chains.antt =====
-- crates/consensus on a chain whose headers are timestamps.
use kx_reth.Prelude.{ℕ, ◌≡◌, ◌≤◌, refl, some, [], ◌∷◌, ok, All}
use kx_reth.Consensus.{BlockHeader, RethChecks, kasplex_base_fee, validate_header_against_parent}
use kx_reth.Consensus.Chain.{Extends, genesis, next, chain_is_monotone}

-- a header is its timestamp; all else is as it has to be
abbrev time_view : BlockHeader ℕ
time_view = record {
  difficulty = λ h. 0;
  nonce = λ h. some 0;
  ommers_hash = λ h. 9;
  base_fee_per_gas = λ h. some kasplex_base_fee;
  timestamp = λ h. h;
}

abbrev lenient_checks : RethChecks ℕ
lenient_checks = record {
  empty_ommer_root_hash = 9;
  validate_header_extra_data = λ h n. ok tt;
  validate_header_gas = λ h. ok tt;
  validate_header_base_fee = λ h. ok tt;
  validate_against_parent_hash_number = λ h p. ok tt;
}

two_accepted : Extends time_view lenient_checks 3 7 (7 ∷ 3 ∷ [])
unfolding validate_header_against_parent
two_accepted = next 7 (next 3 genesis refl) refl

chain_is_monotone_example :
    (3 ≤ 7)
    × All (λ (k : ℕ). (k ≤ 7) × (time_view.base_fee_per_gas k ≡ some kasplex_base_fee)) (7 ∷ 3 ∷ [])
chain_is_monotone_example = chain_is_monotone time_view lenient_checks 3 two_accepted
