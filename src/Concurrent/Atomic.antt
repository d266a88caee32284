-- ===== src/Concurrent/Atomic.antt =====
-- The sequences of calls of crates/rpc, crates/payload, crates/primitives and crates/txpool that are one
-- step each on the shared mapping, as schedules of threads.
use kx_reth.Prelude.{ℕ, ◌≡◌, refl, sym, ap, ◌∙◌, none, List, ◌∷◌, ◌++◌, All}
use kx_reth.TxMapping.{TxMapping}
use kx_reth.TxPool.{Pool, handle_kasplex_pool_reorg}
use kx_reth.Attributes.{Codec}
use kx_reth.Payload.{Builder, kasplex_payload}
use kx_reth.Engine.{Blocks, block_to_payload, process_kasplex_execution_data}
use kx_reth.Engine.Validator.{ensure_well_formed_payload}
use kx_reth.Auth
use kx_reth.Auth.{SendNode}
use kx_reth.Shared
use kx_reth.Shared.{SharedState, number_given}
use kx_reth.Shared.Calls.{same_mapping}
use kx_reth.Shared.Reachable
use kx_reth.Concurrent.Program.{
  Program, pure, get_submission_block, get_tx_number, insert, mark_start_pool_reorg,
  mark_pool_reorged, ◌>>◌, advance, run_alone, run_alone-bind,
}
use kx_reth.Concurrent.Threads.{payload_thread, process_thread, reorg_thread, send_thread}
use kx_reth.Concurrent.Builds.{build_thread}
use kx_reth.Concurrent.Alone.{
  payload_thread_alone, process_thread_alone, reorg_thread_alone, send_thread_alone,
}
use kx_reth.Concurrent.Alone.Builds.{build_thread_alone}
use kx_reth.Concurrent.System.{
  System, start, spawn, advance_at, schedule, sends, builds, hands_out, processes, reorgs, runs,
  Reach, here, next, sidecar_numbers,
}

-- no thread has a call left
abbrev pub Finished : List (Program (Unit {0})) → Type 0
Finished ps = All (λ p. p ≡ pure tt) ps

-- A state of the threads that is at rest with a given mapping and given numbers.
pub record AtRest (node : SendNode) (codec : Codec) (builder : Builder codec.Recovered)
    (blocks : Blocks) (pool : Pool) (s : SharedState) : Type 0 where
  pub system : System
  pub reached : Reach node codec builder blocks pool start system
  pub finished : Finished system.threads
  pub same_mapping_left : system.mapping ≡ s.mapping
  pub same_numbers : system.sent ≡ s.given

module _ (node : SendNode) (codec : Codec) (builder : Builder codec.Recovered) (blocks : Blocks)
    (pool : Pool) where
  -- The newest thread can run to its end.
  pub runs_out :
      (p : Program (Unit {0})) (ps : List (Program (Unit {0}))) (m : TxMapping)
      (sent from_sidecars : List (ℕ × ℕ))
      → Reach node codec builder blocks pool start
          (record { mapping = m; threads = p ∷ ps; sent = sent; from_sidecars = from_sidecars })
      → Reach node codec builder blocks pool start (record {
        mapping = (run_alone p m).1;
        threads = pure tt ∷ ps;
        sent = sent;
        from_sidecars = from_sidecars;
      })
  unfolding run_alone schedule advance_at advance
  runs_out (pure u) ps m sent brought r = r
  runs_out (get_submission_block h k) ps m sent brought r =
      runs_out (k _) ps m sent brought (next r (runs 0))
  runs_out (get_tx_number h k) ps m sent brought r =
      runs_out (k _) ps _ sent brought (next r (runs 0))
  runs_out (insert h n p) ps m sent brought r = runs_out p ps _ sent brought (next r (runs 0))
  runs_out (mark_start_pool_reorg p) ps m sent brought r =
      runs_out p ps _ sent brought (next r (runs 0))
  runs_out (mark_pool_reorged p) ps m sent brought r =
      runs_out p ps _ sent brought (next r (runs 0))

  settles :
      {A : Type 0} (p : Program A) (c : System) (sent from_sidecars : List (ℕ × ℕ))
      (s : SharedState)
      → Finished c.threads
      → Reach node codec builder blocks pool start
          (record (spawn p c) { sent = sent; from_sidecars = from_sidecars })
      → (run_alone p c.mapping).1 ≡ s.mapping
      → sent ≡ s.given
      → AtRest node codec builder blocks pool s
  unfolding run_alone
  settles p c sent brought s done_before r same given = record {
    system = record {
      mapping = (run_alone (p >> pure tt) c.mapping).1;
      threads = pure tt ∷ c.threads;
      sent = sent;
      from_sidecars = brought;
    };
    reached = runs_out (p >> pure tt) c.threads c.mapping sent brought r;
    finished = (refl, done_before);
    same_mapping_left = ap (λ r. r.1) (run_alone-bind p (λ a. pure tt) c.mapping) ∙ same;
    same_numbers = given;
  }

  Step-AtRest :
      {s t : SharedState}
      → Shared.Step node codec builder blocks pool s t
      → AtRest node codec builder blocks pool s
      → AtRest node codec builder blocks pool t
  Step-AtRest {s = s} (Shared.sends raw st) rest =
      let c = rest.system in
      settles (send_thread node raw st) c (number_given node raw st ++ c.sent) c.from_sidecars _
        rest.finished (next rest.reached (sends raw st))
        (send_thread_alone node raw c.mapping st
          ∙ ap (λ m. (Auth.send_raw_transaction node raw m st).1) rest.same_mapping_left)
        (ap (λ given. number_given node raw st ++ given) rest.same_numbers)
  Step-AtRest {s = s} (Shared.builds inner parent attributes is_cancelled) rest =
      let c = rest.system in
      settles (build_thread codec builder inner parent attributes is_cancelled s.cells) c c.sent
        c.from_sidecars _ rest.finished
        (next rest.reached (builds inner parent attributes is_cancelled s.cells))
        (ap (λ r. r.1)
            (build_thread_alone codec builder inner parent attributes is_cancelled s.cells
              c.mapping)
          ∙ ap
              (λ m.
                (kasplex_payload codec builder inner parent attributes is_cancelled s.cells m).2)
              rest.same_mapping_left)
        rest.same_numbers
  Step-AtRest {s = s} (Shared.hands_out b) rest =
      let c = rest.system in
      settles (payload_thread blocks b) c c.sent c.from_sidecars _ rest.finished
        (next rest.reached (hands_out b))
        (ap (λ r. r.1) (payload_thread_alone blocks b c.mapping)
          ∙ ap (λ m. (block_to_payload blocks b m).1) rest.same_mapping_left)
        rest.same_numbers
  Step-AtRest {s = s} (Shared.checks p) rest =
      let c = rest.system in
      settles (process_thread blocks p none) c c.sent
        (sidecar_numbers blocks p none ++ c.from_sidecars) _ rest.finished
        (next rest.reached (processes p none))
        (ap (λ r. r.1) (process_thread_alone blocks p none c.mapping)
          ∙ sym (same_mapping blocks p c.mapping)
          ∙ ap (λ m. (ensure_well_formed_payload blocks p m).1) rest.same_mapping_left)
        rest.same_numbers
  Step-AtRest {s = s} (Shared.processes p extra) rest =
      let c = rest.system in
      settles (process_thread blocks p extra) c c.sent
        (sidecar_numbers blocks p extra ++ c.from_sidecars) _ rest.finished
        (next rest.reached (processes p extra))
        (ap (λ r. r.1) (process_thread_alone blocks p extra c.mapping)
          ∙ ap (λ m. (process_kasplex_execution_data blocks p extra m).1) rest.same_mapping_left)
        rest.same_numbers
  Step-AtRest {s = s} (Shared.reorgs is_kasplex new_head txs) rest =
      let c = rest.system in
      settles (reorg_thread pool is_kasplex new_head txs) c c.sent c.from_sidecars _ rest.finished
        (next rest.reached (reorgs is_kasplex new_head txs))
        (ap (λ r. r.0) (reorg_thread_alone pool is_kasplex new_head c.mapping txs)
          ∙ ap (λ m. (handle_kasplex_pool_reorg pool is_kasplex new_head m txs).0)
              rest.same_mapping_left)
        rest.same_numbers

  -- Whatever a sequence of calls can make of the mapping when each call is one step, threads that make
  -- their calls on the mapping one by one can make of it too, with all of them run to their ends and the
  -- same numbers given out.
  pub atomic_calls_are_schedules :
      (s : SharedState)
      → Shared.Reach node codec builder blocks pool Shared.Reachable.start s
      → AtRest node codec builder blocks pool s
  atomic_calls_are_schedules s Shared.here = record {
    system = start;
    reached = here;
    finished = tt;
    same_mapping_left = refl;
    same_numbers = refl;
  }
  atomic_calls_are_schedules s (Shared.next r step) =
      Step-AtRest step (atomic_calls_are_schedules _ r)
