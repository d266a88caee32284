-- ===== src/Shared/Reachable.antt =====
-- What holds of the shared mapping and cells in every state that calls of crates/rpc, crates/payload,
-- crates/primitives and crates/txpool can reach.
use kx_reth.Prelude.{
  ℕ, ◌≡◌, refl, sym, ◌∙◌, true, none, some, List, [], ◌∷◌, ◌++◌, arith, ◌⊎◌, inl, inr,
}
use kx_reth.Prelude.HashMap
use kx_reth.TxMapping
use kx_reth.TxMapping.{TxMapping, default}
use kx_reth.TxPool.{Pool}
use kx_reth.Block.Config.{new}
use kx_reth.Attributes.{Codec}
use kx_reth.Payload.{Builder}
use kx_reth.Engine.{Blocks}
use kx_reth.Auth.{SendNode}
use kx_reth.Shared.{
  SharedState, number_given, Step, sends, builds, hands_out, checks, processes, reorgs, Reach, here,
  next,
}
use kx_reth.Shared.Calls.{
  OldNumbers, hands_out_lem, processes_lem, checks_lem, reorgs_lem, builds_lem, sends_lem,
  was_given,
}

-- The cells are empty, and every number in the table is 0 or was given out for its hash.
record IsSound (s : SharedState) : Type 0 where
  cells_empty : s.cells ≡ new
  numbers_given :
      (h n : ℕ)
      → TxMapping.get_submission_block h s.mapping ≡ some n
      → (n ≡ 0) ⊎ (was_given h n s.given ≡ true)

-- What the node starts with: the global table of a new process, and a new configuration.
abbrev pub start : SharedState
start = record { mapping = default; cells = new; given = [] }

nothing_lem : (h : ℕ) → TxMapping.get_submission_block h default ≡ none
unfolding TxMapping.get_submission_block HashMap.get
nothing_lem h = refl

module _ (node : SendNode) (codec : Codec) (builder : Builder codec.Recovered) (blocks : Blocks)
    (pool : Pool) where
  kept_lem :
      (s : SharedState) (m' : TxMapping)
      → IsSound s
      → OldNumbers s.mapping m'
      → IsSound (record s { mapping = m' })
  kept_lem s m' sound old = record {
    cells_empty = sound.cells_empty;
    numbers_given = λ h n found. elim (old h n found) [
      | inl zero ↦ inl zero
      | inr before ↦ sound.numbers_given h n before
    ];
  }

  was_given-append :
      (h n : ℕ) (new_ones given : List (ℕ × ℕ))
      → was_given h n given ≡ true
      → was_given h n (new_ones ++ given) ≡ true
  was_given-append h n [] given q = q
  was_given-append h n (g ∷ gs) given q = ground (arith, was_given-append h n gs given q)

  Step-IsSound :
      {s t : SharedState} → Step node codec builder blocks pool s t → IsSound s → IsSound t
  Step-IsSound {s = s} (sends raw st) sound = record {
    cells_empty = sound.cells_empty;
    numbers_given = λ h n found. elim (sends_lem node raw s.mapping st h n s.given found) [
      | inr given ↦ inr given
      | inl before ↦ elim (sound.numbers_given h n before) [
        | inl zero ↦ inl zero
        | inr given ↦ inr (was_given-append h n (number_given node raw st) s.given given)
      ]
    ];
  }
  Step-IsSound {s = s} (builds inner parent attributes is_cancelled) sound =
      let built =
        builds_lem codec builder inner parent attributes is_cancelled s.cells s.mapping
          sound.cells_empty in
      record { cells_empty = built.0; numbers_given = (kept_lem s _ sound built.1).numbers_given }
  Step-IsSound {s = s} (hands_out b) sound = kept_lem s _ sound (hands_out_lem blocks b s.mapping)
  Step-IsSound {s = s} (checks p) sound = kept_lem s _ sound (checks_lem blocks p s.mapping)
  Step-IsSound {s = s} (processes p extra) sound =
      kept_lem s _ sound (processes_lem blocks p extra s.mapping)
  Step-IsSound {s = s} (reorgs is_kasplex new_head txs) sound =
      kept_lem s _ sound
        (λ h n found. inr (sym (reorgs_lem pool is_kasplex new_head s.mapping txs h) ∙ found))

  Reach-IsSound :
      {s t : SharedState} → IsSound s → Reach node codec builder blocks pool s t → IsSound t
  Reach-IsSound sound here = sound
  Reach-IsSound sound (next r step) = Step-IsSound step (Reach-IsSound sound r)

  -- From a new table and a new configuration, after any sequence of calls that send a transaction,
  -- build a payload, make a block into one, check or process one, with any sidecar, or clean the pool
  -- up, whatever the rest of the node is at each call: a number that a transaction is found under is 0
  -- or was given out for this transaction by a call that sent it; and the cells of the configuration are
  -- empty. So no payload and no sidecar can give a transaction a number.
  pub numbers_come_from_sends :
      (s : SharedState) (h n : ℕ)
      → Reach node codec builder blocks pool start s
      → TxMapping.get_submission_block h s.mapping ≡ some n
      → ((n ≡ 0) ⊎ (was_given h n s.given ≡ true)) × (s.cells ≡ new)
  numbers_come_from_sends s h n r found =
      let begun : IsSound start = record {
        cells_empty = refl;
        numbers_given = λ k i absent.
            let no_number : ⊥ = ground (arith, nothing_lem k, absent) in absurd no_number;
      } in
      let sound = Reach-IsSound begun r in (sound.numbers_given h n found, sound.cells_empty)
