-- ===== src/Concurrent/Reorg.antt =====
-- The mark of a reorganisation of the pool, and the set of deleted transactions, under threads of
-- crates/rpc, crates/payload, crates/primitives and crates/txpool.
use kx_reth.Prelude.{
  ℕ, suc, zero, ◌≡◌, refl, ap, ◌∙◌, true, false, not, List, [], ◌∷◌, All, ◌⊎◌, inl, inr, Bool-cases,
}
use kx_reth.TxMapping
use kx_reth.TxMapping.{TxMapping, default}
use kx_reth.TxPool.{Pool, handle_kasplex_pool_reorg}
use kx_reth.Attributes.{Codec}
use kx_reth.Payload.{Builder}
use kx_reth.Engine.{Blocks}
use kx_reth.Auth.{SendNode}
use kx_reth.Concurrent.Program.{
  Program, pure, get_submission_block, get_tx_number, insert, mark_start_pool_reorg,
  mark_pool_reorged, ◌>>◌, advance, run_alone, run_alone-bind,
}
use kx_reth.Concurrent.Threads.{reorg_thread}
use kx_reth.Concurrent.Marks.{
  Clears, Paired, bind-Clears, bind-Paired, payload_thread-Paired, process_thread-Paired,
  reorg_thread-Paired, send_thread-Paired, rest_of_reorg, rest_of_reorg-Clears,
}
use kx_reth.Concurrent.Marks.Builds.{build_thread-Paired}
use kx_reth.Concurrent.System.{
  System, start, spawn, advance_at, schedule, sends, builds, hands_out, processes, reorgs, runs,
  Reach, here, next,
}
use kx_reth.Concurrent.Alone.{reorg_thread_alone}
use kx_reth.Concurrent.Atomic.{Finished, runs_out}

-- some thread has an end to mark
AnyClears : List (Program (Unit {0})) → Type 0
AnyClears [] = ⊥
AnyClears (p ∷ ps) = Clears p ⊎ AnyClears ps

-- What a call can do to the mark: if it is set afterwards, it was set before, or `p'` has to clear it.
module _ {A : Type 0} where
  call_lem :
      (p : Program A) (m : TxMapping)
      → Paired p
      → let (p', m') = advance p m in
        Paired p'
        × (m'.deleted ≡ m.deleted)
        × (m'.reorg_in_progress ≡ true
            → ((m.reorg_in_progress ≡ true) × (Clears p → Clears p')) ⊎ Clears p')
  unfolding advance TxMapping.get_tx_number TxMapping.insert TxMapping.mark_start_pool_reorg
      TxMapping.mark_pool_reorged
  call_lem (pure a) m paired = (paired, refl, λ on. inl (on, λ c. c))
  call_lem (get_submission_block h k) m paired = (paired _, refl, λ on. inl (on, λ c. c _))
  call_lem (get_tx_number h k) m paired = (paired _, refl, λ on. inl (on, λ c. c _))
  call_lem (insert h n p) m paired = (paired, refl, λ on. inl (on, λ c. c))
  call_lem (mark_start_pool_reorg p) m paired = (paired.1, refl, λ on. inr paired.0)
  call_lem (mark_pool_reorged p) m paired = (paired, refl, λ on. absurd (cc))

advance_at_lem :
    (i : ℕ) (ps : List (Program (Unit {0}))) (m : TxMapping)
    → All (λ p. Paired p) ps
    → let (ps', m') = advance_at i ps m in
      All (λ p. Paired p) ps'
      × (m'.deleted ≡ m.deleted)
      × (m'.reorg_in_progress ≡ true
          → ((m.reorg_in_progress ≡ true) × (AnyClears ps → AnyClears ps')) ⊎ AnyClears ps')
unfolding advance_at AnyClears
advance_at_lem i [] m paired = (tt, refl, λ on. inl (on, λ c. c))
advance_at_lem zero (p ∷ ps) m paired =
    let (paired', same, marked) = call_lem p m paired.0 in
    (
      (paired', paired.1),
      same,
      λ on. elim (marked on) [
        | inr clears ↦ inr (inl clears)
        | inl (was_on, keeps) ↦
            inl (was_on, λ any. elim any [ inl c ↦ inl (keeps c) | inr c ↦ inr c ])
      ],
    )
advance_at_lem (suc i) (p ∷ ps) m paired =
    let (paired', same, marked) = advance_at_lem i ps m paired.1 in
    (
      (paired.0, paired'),
      same,
      λ on. elim (marked on) [
        | inr clears ↦ inr (inr clears)
        | inl (was_on, keeps) ↦
            inl (was_on, λ any. elim any [ inl c ↦ inl c | inr c ↦ inr (keeps c) ])
      ],
    )

record IsPaired (s : System) : Type 0 where
  threads_paired : All (λ p. Paired p) s.threads
  none_deleted : s.mapping.deleted ≡ []
  mark_has_owner : s.mapping.reorg_in_progress ≡ true → AnyClears s.threads

spawned :
    {A : Type 0} (p : Program A) (s : System) (sent from_sidecars : List (ℕ × ℕ))
    → Paired p
    → IsPaired s
    → IsPaired (record (spawn p s) { sent = sent; from_sidecars = from_sidecars })
unfolding AnyClears
spawned p s sent brought paired before = record {
  threads_paired = (bind-Paired p _ paired (λ a. tt), before.threads_paired);
  none_deleted = before.none_deleted;
  mark_has_owner = λ on. inr (before.mark_has_owner on);
}

schedule-IsPaired : (i : ℕ) (s : System) → IsPaired s → IsPaired (schedule i s)
unfolding schedule
schedule-IsPaired i s before =
    let (paired', same, marked) = advance_at_lem i s.threads s.mapping before.threads_paired in
    record {
      threads_paired = paired';
      none_deleted = same ∙ before.none_deleted;
      mark_has_owner = λ on. elim (marked on) [
        | inr clears ↦ clears
        | inl (was_on, keeps) ↦ keeps (before.mark_has_owner was_on)
      ];
    }

nothing_to_mark : (ps : List (Program (Unit {0}))) → Finished ps → AnyClears ps → ⊥
unfolding AnyClears
nothing_to_mark [] finished any = any
nothing_to_mark (p ∷ ps) finished (inl c) =
    let clears : Clears (pure tt) = rw finished.0 at c in clears
nothing_to_mark (p ∷ ps) finished (inr c) = nothing_to_mark ps finished.1 c

module _ (node : SendNode) (codec : Codec) (builder : Builder codec.Recovered) (blocks : Blocks)
    (pool : Pool) where
  Reach-IsPaired : {s : System} → Reach node codec builder blocks pool start s → IsPaired s
  Reach-IsPaired here = record {
    threads_paired = tt;
    none_deleted = refl;
    mark_has_owner = λ on. absurd (cc);
  }
  Reach-IsPaired (next r (runs i)) = schedule-IsPaired i _ (Reach-IsPaired r)
  Reach-IsPaired (next r (sends raw st)) =
      spawned _ _ _ _ (send_thread-Paired node raw st) (Reach-IsPaired r)
  Reach-IsPaired (next r (builds inner parent attributes is_cancelled cells)) =
      spawned _ _ _ _ (build_thread-Paired codec builder inner parent attributes is_cancelled cells)
        (Reach-IsPaired r)
  Reach-IsPaired (next r (hands_out b)) =
      spawned _ _ _ _ (payload_thread-Paired blocks b) (Reach-IsPaired r)
  Reach-IsPaired (next r (processes p extra)) =
      spawned _ _ _ _ (process_thread-Paired blocks p extra) (Reach-IsPaired r)
  Reach-IsPaired (next r (reorgs is_kasplex new_head txs)) =
      spawned _ _ _ _ (reorg_thread-Paired pool is_kasplex new_head txs) (Reach-IsPaired r)

  -- From the mapping of a new process, however many threads were started, and in whatever order they
  -- have made their calls on the mapping: when all of them have ended, no transaction counts as deleted
  -- and the reorganisation of the pool counts as complete.
  pub complete_at_rest :
      (s : System) (h : ℕ)
      → Reach node codec builder blocks pool start s
      → Finished s.threads
      → (TxMapping.is_deleted_transaction h s.mapping ≡ false)
        × (TxMapping.is_reorg_complete s.mapping ≡ true)
  unfolding TxMapping.is_deleted_transaction TxMapping.is_reorg_complete
  complete_at_rest s h r finished =
      let sound = Reach-IsPaired r in
      (
        rw (sound.none_deleted) refl,
        elim (Bool-cases s.mapping.reorg_in_progress) [
          | inl on ↦ absurd (nothing_to_mark s.threads finished (sound.mark_has_owner on))
          | inr off ↦ rw off refl
        ],
      )

  clears_mark :
      (new_head : ℕ) (txs : pool.State) (m : TxMapping)
      → TxMapping.is_reorg_complete (run_alone (reorg_thread pool true new_head txs >> pure tt) m).1
        ≡ true
  unfolding run_alone TxMapping.is_reorg_complete handle_kasplex_pool_reorg
      TxMapping.mark_start_pool_reorg TxMapping.mark_pool_reorged
  clears_mark new_head txs m =
      let p = reorg_thread pool true new_head txs in
      ap (λ r. not r.1.reorg_in_progress) (run_alone-bind p (λ a. pure tt) m)
      ∙ ap (λ r. not r.0.reorg_in_progress) (reorg_thread_alone pool true new_head m txs)

  -- Two clean-ups of the pool can overlap: a state is reached in which the newer one has ended, the
  -- older one has marked its start and has yet to mark its end, whatever it reads, and the
  -- reorganisation counts as complete.
  pub complete_too_early :
      (head head' : ℕ) (txs txs' : pool.State)
      → (s : System) × (older : Program (Unit {0})) × Reach node codec builder blocks pool start s
        × (s.threads ≡ pure tt ∷ older ∷ [])
        × ((reorg_thread pool true head txs >> pure tt) ≡ mark_start_pool_reorg older)
        × Clears older
        × (TxMapping.is_reorg_complete s.mapping ≡ true)
  unfolding reorg_thread rest_of_reorg schedule advance_at advance
  complete_too_early head head' txs txs' =
      let older = rest_of_reorg pool head txs >> pure tt in
      let newer = reorg_thread pool true head' txs' >> pure tt in
      let marked = TxMapping.mark_start_pool_reorg default in
      let both = next (next (next here (reorgs true head txs)) (runs 0)) (reorgs true head' txs') in
      (
        record {
          mapping = (run_alone newer marked).1;
          threads = pure tt ∷ older ∷ [];
          sent = [];
          from_sidecars = [];
        },
        older,
        runs_out node codec builder blocks pool newer (older ∷ []) marked [] [] both,
        refl,
        refl,
        bind-Clears (rest_of_reorg pool head txs) _ (rest_of_reorg-Clears pool head txs),
        clears_mark head' txs' marked,
      )
