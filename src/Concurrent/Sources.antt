-- ===== src/Concurrent/Sources.antt =====
-- Where the numbers in the shared mapping of crates/tx_mapping come from, in every state that threads of
-- crates/rpc, crates/payload, crates/primitives and crates/txpool can reach.
use kx_reth.Prelude.{
  ℕ, suc, zero, ◌≡◌, refl, true, ◌||◌, some, List, [], ◌∷◌, ◌++◌, arith, All, ◌⊎◌, inl, inr,
}
use kx_reth.Prelude.HashMap
use kx_reth.TxMapping
use kx_reth.TxMapping.{TxMapping, default}
use kx_reth.TxPool.{Pool}
use kx_reth.Attributes.{Codec}
use kx_reth.Payload.{Builder}
use kx_reth.Engine.{Blocks}
use kx_reth.Auth.{SendNode}
use kx_reth.Shared.{number_given}
use kx_reth.Shared.Calls.{was_given}
use kx_reth.Concurrent.Program.{Program}
use kx_reth.Concurrent.Threads.{payload_thread, process_thread, reorg_thread, send_thread}
use kx_reth.Concurrent.Builds.{build_thread}
use kx_reth.Concurrent.Safety.{
  Safe, bind-Safe, Table, Found, advance-Safe, payload_thread-Safe, process_thread-Safe,
  reorg_thread-Safe, send_thread-Safe,
}
use kx_reth.Concurrent.Safety.Builds.{build_thread-Safe}
use kx_reth.Concurrent.System.{
  System, start, spawn, advance_at, schedule, sidecar_numbers, Step, sends, builds, hands_out,
  processes, reorgs, runs, Reach, here, next,
}

was_given-append_right :
    (h n : ℕ) (new_ones given : List (ℕ × ℕ))
    → was_given h n given ≡ true
    → was_given h n (new_ones ++ given) ≡ true
was_given-append_right h n [] given q = q
was_given-append_right h n (g ∷ gs) given q = ground (arith, was_given-append_right h n gs given q)

was_given-append_left :
    (h n : ℕ) (new_ones given : List (ℕ × ℕ))
    → was_given h n new_ones ≡ true
    → was_given h n (new_ones ++ given) ≡ true
was_given-append_left h n [] given q = ground (arith, q)
was_given-append_left h n (g ∷ gs) given q = ground (arith, was_given-append_left h n gs given)

-- the number 0, and the numbers that sends gave out or sidecars brought
abbrev HasSource : System → ℕ → ℕ → Type 0
HasSource s h n = (n ≡ 0) ⊎ ((was_given h n s.sent || was_given h n s.from_sidecars) ≡ true)

module _ (Belongs : ℕ → ℕ → Type 0) (zero_belongs : (h : ℕ) → Belongs h 0) where
  abbrev IsSafe : Program (Unit {0}) → Type 0
  IsSafe p = Safe Belongs zero_belongs (λ u. Unit {0}) p

  nothing_found : Table Belongs zero_belongs default
  unfolding TxMapping.get_submission_block HashMap.get
  nothing_found h = tt

  record IsSound (s : System) : Type 0 where
    table : Table Belongs zero_belongs s.mapping
    threads_safe : All IsSafe s.threads

  advance_at-Safe :
      (i : ℕ) (ps : List (Program (Unit {0}))) (m : TxMapping)
      → All IsSafe ps
      → Table Belongs zero_belongs m
      → All IsSafe (advance_at i ps m).0 × Table Belongs zero_belongs (advance_at i ps m).1
  unfolding advance_at
  advance_at-Safe i [] m safe table = (tt, table)
  advance_at-Safe zero (p ∷ ps) m safe table =
      let (safe', table') = advance-Safe Belongs zero_belongs _ p m safe.0 table in
      ((safe', safe.1), table')
  advance_at-Safe (suc i) (p ∷ ps) m safe table =
      let (safe', table') = advance_at-Safe i ps m safe.1 table in ((safe.0, safe'), table')

  schedule-IsSound : (i : ℕ) (s : System) → IsSound s → IsSound (schedule i s)
  unfolding schedule
  schedule-IsSound i s sound =
      let (safe, table') = advance_at-Safe i s.threads s.mapping sound.threads_safe sound.table in
      record { table = table'; threads_safe = safe }

  spawned :
      {A : Type 0} (p : Program A) (s : System)
      → Safe Belongs zero_belongs (λ (a : A). Unit {0}) p
      → IsSound s
      → All IsSafe (spawn p s).threads
  spawned p s safe sound =
      (bind-Safe Belongs zero_belongs _ _ p _ safe (λ a u. tt), sound.threads_safe)

  module _ (node : SendNode) (codec : Codec) (builder : Builder codec.Recovered) (blocks : Blocks)
      (pool : Pool) where
    -- Numbers that were sent or brought before a step were so after it.
    Step-IsSound :
        {s t : System}
        → Step node codec builder blocks pool s t
        → ((h n : ℕ) → HasSource t h n → Belongs h n)
        → (((h n : ℕ) → HasSource s h n → Belongs h n) → IsSound s)
        → IsSound t
    unfolding schedule
    Step-IsSound {s = s} (runs i) covered sound = schedule-IsSound i s (sound covered)
    Step-IsSound {s = s} (sends raw st) covered sound =
        let before = sound λ h n source.
          covered h n (
            ground (arith, source, was_given-append_right h n (number_given node raw st) s.sent)) in
        let own = send_thread-Safe Belongs zero_belongs node raw st λ h n given. covered h n (
          inr (
            ground
              (arith, given, was_given-append_left h n (number_given node raw st) s.sent given))) in
        record {
          table = before.table;
          threads_safe = spawned (send_thread node raw st) s own before;
        }
    Step-IsSound {s = s} (processes p extra) covered sound =
        let brought = sidecar_numbers blocks p extra in
        let before = sound λ h n source.
          covered h n
            (ground (arith, source, was_given-append_right h n brought s.from_sidecars)) in
        let own = process_thread-Safe Belongs zero_belongs blocks p extra λ h n given.
          covered h n (
            inr (ground (arith, given, was_given-append_left h n brought s.from_sidecars given))) in
        record {
          table = before.table;
          threads_safe = spawned (process_thread blocks p extra) s own before;
        }
    Step-IsSound {s = s} (builds inner parent attributes is_cancelled cells) covered sound =
        record {
          table = (sound covered).table;
          threads_safe =
              spawned (build_thread codec builder inner parent attributes is_cancelled cells) s
                (build_thread-Safe Belongs zero_belongs codec builder inner parent attributes
                  is_cancelled cells)
                (sound covered);
        }
    Step-IsSound {s = s} (hands_out b) covered sound = record {
      table = (sound covered).table;
      threads_safe =
          spawned (payload_thread blocks b) s (payload_thread-Safe Belongs zero_belongs blocks b)
            (sound covered);
    }
    Step-IsSound {s = s} (reorgs is_kasplex new_head txs) covered sound = record {
      table = (sound covered).table;
      threads_safe =
          spawned (reorg_thread pool is_kasplex new_head txs) s
            (reorg_thread-Safe Belongs zero_belongs pool is_kasplex new_head txs) (sound covered);
    }

    Reach-IsSound :
        {s : System}
        → Reach node codec builder blocks pool start s
        → ((h n : ℕ) → HasSource s h n → Belongs h n)
        → IsSound s
    Reach-IsSound here covered = record { table = nothing_found; threads_safe = tt }
    Reach-IsSound (next r step) covered = Step-IsSound step covered (λ c. Reach-IsSound r c)

-- From the mapping of a new process, however many threads send transactions, build payloads, make blocks
-- into payloads, check or process payloads, and clean the pool up, and in whatever order they make their
-- calls on the mapping: a number that a transaction is found under is 0, or a send gave it out for this
-- transaction, or a sidecar that was handed to the processing of a payload named it for this
-- transaction.
pub numbers_have_sources :
    (node : SendNode) (codec : Codec) (builder : Builder codec.Recovered) (blocks : Blocks)
    (pool : Pool) (s : System) (h n : ℕ)
    → Reach node codec builder blocks pool start s
    → TxMapping.get_submission_block h s.mapping ≡ some n
    → (n ≡ 0) ⊎ ((was_given h n s.sent || was_given h n s.from_sidecars) ≡ true)
numbers_have_sources node codec builder blocks pool s h n r found =
    let zero_source : (k : ℕ) → HasSource s k 0 = λ k. inl refl in
    let sound =
      Reach-IsSound (HasSource s) zero_source node codec builder blocks pool r
        (λ k i source. source) in
    let has : Found (HasSource s) zero_source h (TxMapping.get_submission_block h s.mapping) =
      sound.table h in
    rw found at has
