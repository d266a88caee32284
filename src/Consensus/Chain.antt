-- ===== src/Consensus/Chain.antt =====
-- Chains of headers that crates/consensus accepts one after the other.
use kx_reth.Prelude.{◌≡◌, ◌≤◌, some, List, [], ◌∷◌, arith, ok, All}
use kx_reth.Consensus.{BlockHeader, RethChecks, kasplex_base_fee, validate_header_against_parent}
use kx_reth.Consensus.Accepts.{validate_header_against_parent_iff}

module _ {H : Type 0} (view : BlockHeader H) (reth : RethChecks H) where
  open view use {base_fee_per_gas, timestamp}

  -- `Extends g h hs`: the headers `hs`, newest first, each accepted against the next, lead
  -- from `g` to `h`.
  pub data Extends (g : H) : H → List H → Type 0 where
    genesis : Extends g g []
    next :
        {p : H} {hs : List H} (h : H)
        → Extends g p hs
        → validate_header_against_parent view reth h p ≡ ok tt
        → Extends g h (h ∷ hs)

  later :
      {k h : H} (hs : List H)
      → timestamp k ≤ timestamp h
      → All (λ i. (timestamp i ≤ timestamp k) × (base_fee_per_gas i ≡ some kasplex_base_fee)) hs
      → All (λ i. (timestamp i ≤ timestamp h) × (base_fee_per_gas i ≡ some kasplex_base_fee)) hs
  later [] le all = tt
  later (i ∷ hs) le all = ((omega arith, all.0.1), later hs le all.1)

  -- Along every accepted chain from `g`, however long, the head's timestamp is at least that of each
  -- header in the chain and that of `g`, and each header after `g` has the fixed base fee.
  pub chain_is_monotone :
      (g : H) {h : H} {hs : List H}
      → Extends g h hs
      → (timestamp g ≤ timestamp h)
        × All (λ k. (timestamp k ≤ timestamp h) × (base_fee_per_gas k ≡ some kasplex_base_fee)) hs
  chain_is_monotone g genesis = (omega arith, tt)
  chain_is_monotone g (next {hs = hs} h chain accepted) =
      let ih = chain_is_monotone g chain in
      let now = (validate_header_against_parent_iff view reth h _).0 accepted in
      (omega arith, ((omega arith, now.2), later hs (omega arith) ih.1))
