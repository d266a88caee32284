-- ===== src/Concurrent/System.antt =====
-- Any number of threads on the shared mapping: a thread is started by a call of crates/rpc,
-- crates/payload, crates/primitives or crates/txpool, and at each step one of the threads makes its next
-- call on the mapping. A check of a payload is `processes` with no sidecar. The parts that are not in the repository may be in any state at each start; the
-- transactions of a batch are sent by a thread each.
use kx_reth.Prelude.{ℕ, suc, zero, Bool, Option, none, some, List, [], ◌∷◌, ◌++◌, ok, err}
use kx_reth.TxMapping.{TxMapping, default}
use kx_reth.TxPool.{Pool}
use kx_reth.Block.{SealedHeader}
use kx_reth.Block.Config.{Cells, InnerConfig}
use kx_reth.Attributes.{Codec, BuilderAttributes}
use kx_reth.Payload.{Builder}
use kx_reth.Engine.{
  Block, Blocks, ExecutionPayload, v1, v2, v3, KasplexExecutionData, fix_withdrawals_root,
}
use kx_reth.Auth.{SendNode}
use kx_reth.Shared.{number_given}
use kx_reth.Concurrent.Program.{Program, pure, advance, ◌>>◌}
use kx_reth.Concurrent.Threads.{payload_thread, process_thread, reorg_thread, send_thread}
use kx_reth.Concurrent.Builds.{build_thread}

-- The mapping, the threads with the newest first, the numbers that sends have given out, and those that
-- came with sidecars, each with its hash.
pub record System : Type 0 where
  pub mapping : TxMapping
  pub threads : List (Program (Unit {0}))
  pub sent : List (ℕ × ℕ)
  pub from_sidecars : List (ℕ × ℕ)

-- a new process
abbrev pub start : System
start = record { mapping = default; threads = []; sent = []; from_sidecars = [] }

abbrev pub spawn : {A : Type 0} → Program A → System → System
spawn p s = record s { threads = (p >> pure tt) ∷ s.threads }

-- the next call of the i-th thread, if there is such a thread
unfoldable pub advance_at :
    ℕ → List (Program (Unit {0})) → TxMapping → List (Program (Unit {0})) × TxMapping
advance_at i [] m = ([], m)
advance_at zero (p ∷ ps) m = let (p', m') = advance p m in (p' ∷ ps, m')
advance_at (suc i) (p ∷ ps) m = let (ps', m') = advance_at i ps m in (p ∷ ps', m')

unfoldable pub schedule : ℕ → System → System
schedule i s =
    let (ps, m) = advance_at i s.threads s.mapping in record s { threads = ps; mapping = m }

-- the calls of the threads that a list names, one after the other
unfoldable pub run_schedule : List ℕ → System → System
run_schedule [] s = s
run_schedule (i ∷ is) s = run_schedule is (schedule i s)

module _ (blocks : Blocks) where
  open blocks use {Tx, V1, hash, try_into_block}

  abbrev pub pair_up : List Tx → List ℕ → List (ℕ × ℕ)
  pair_up [] ns = []
  pair_up (tx ∷ txs) [] = []
  pair_up (tx ∷ txs) (n ∷ ns) = (hash tx, n) ∷ pair_up txs ns

  -- the numbers that a sidecar names for the transactions of its payload
  unfoldable pub sidecar_numbers :
      ExecutionPayload V1 → Option (KasplexExecutionData V1) → List (ℕ × ℕ)
  sidecar_numbers p none = []
  sidecar_numbers v2 (some d) = []
  sidecar_numbers v3 (some d) = []
  sidecar_numbers (v1 p) (some d) = elim (try_into_block p) [
    | err e ↦ []
    | ok b ↦ pair_up (fix_withdrawals_root blocks b).transactions d.kasplex_sidecar.numbers
  ]

pub data Step (node : SendNode) (codec : Codec) (builder : Builder codec.Recovered)
    (blocks : Blocks) (pool : Pool) (s : System) : System → Type 0 where
  sends :
      (raw : List ℕ) (st : node.State)
      → Step node codec builder blocks pool s
          (record (spawn (send_thread node raw st) s) { sent = number_given node raw st ++ s.sent })
  builds :
      (inner : InnerConfig) (parent : SealedHeader) (attributes : BuilderAttributes codec)
      (is_cancelled : ℕ → Bool) (cells : Cells)
      → Step node codec builder blocks pool s
          (spawn (build_thread codec builder inner parent attributes is_cancelled cells) s)
  hands_out :
      (b : Block blocks.Tx)
      → Step node codec builder blocks pool s (spawn (payload_thread blocks b) s)
  processes :
      (p : ExecutionPayload blocks.V1) (extra : Option (KasplexExecutionData blocks.V1))
      → Step node codec builder blocks pool s (record (spawn (process_thread blocks p extra) s) {
        from_sidecars = sidecar_numbers blocks p extra ++ s.from_sidecars;
      })
  reorgs :
      (is_kasplex : Bool) (new_head : ℕ) (txs : pool.State)
      → Step node codec builder blocks pool s (spawn (reorg_thread pool is_kasplex new_head txs) s)
  runs : (i : ℕ) → Step node codec builder blocks pool s (schedule i s)

-- Any number of steps from a start.
pub data Reach (node : SendNode) (codec : Codec) (builder : Builder codec.Recovered)
    (blocks : Blocks) (pool : Pool) (start : System) : System → Type 0 where
  here : Reach node codec builder blocks pool start start
  next :
      {s t : System}
      → Reach node codec builder blocks pool start s
      → Step node codec builder blocks pool s t
      → Reach node codec builder blocks pool start t
