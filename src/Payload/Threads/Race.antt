-- ===== src/Payload/Threads/Race.antt =====
-- crates/payload/src/builder.rs with crates/block/src/config.rs: what two builds at once can make of the
-- shared cells, whatever the order of their steps.
use kx_reth.Prelude.{
  ℕ, ◌≡◌, refl, Bool, true, false, ◌||◌, ◌&&◌, Bool-cases, none, some, List, [], ◌∷◌, arith, ◌⊎◌,
  inl, inr,
}
use kx_reth.Block.{SealedHeader, BlockEnv, BlockExecutionCtx, NextBlockEnvAttributes}
use kx_reth.Block.Config.{
  InnerConfig, new, set_next_block_extra_data, set_next_block_base_fee_per_gas,
  clear_next_block_extra_data, clear_next_block_base_fee_per_gas, next_evm_env,
  context_for_next_block,
}
use kx_reth.Payload.Threads.{
  Phase, idle, extra_data_set, base_fee_set, env_read, ctx_read, extra_data_cleared, opened, Job,
  System, advance, step, run,
}

-- The job is between the set and the clear of a cell.
abbrev holds_extra_data : Phase → Bool
holds_extra_data idle = false
holds_extra_data extra_data_set = true
holds_extra_data base_fee_set = true
holds_extra_data env_read = true
holds_extra_data ctx_read = true
holds_extra_data extra_data_cleared = false
holds_extra_data opened = false

abbrev holds_base_fee : Phase → Bool
holds_base_fee idle = false
holds_base_fee extra_data_set = false
holds_base_fee base_fee_set = true
holds_base_fee env_read = true
holds_base_fee ctx_read = true
holds_base_fee extra_data_cleared = true
holds_base_fee opened = false

-- A full cell has the value of one of the jobs, and a job that is not done with it.
pub record CellsAreHeld (s : System) : Type 0 where
  pub extra_data_held :
      (s.cells.extra_data ≡ none)
      ⊎ (((s.cells.extra_data ≡ some s.first.extra_data)
            ⊎ (s.cells.extra_data ≡ some s.second.extra_data))
          × ((holds_extra_data s.first.phase || holds_extra_data s.second.phase) ≡ true))
  pub base_fee_held :
      (s.cells.base_fee_per_gas ≡ none)
      ⊎ (((s.cells.base_fee_per_gas ≡ some s.first.base_fee)
            ⊎ (s.cells.base_fee_per_gas ≡ some s.second.base_fee))
          × ((holds_base_fee s.first.phase || holds_base_fee s.second.phase) ≡ true))

step-CellsAreHeld :
    (inner : InnerConfig) (who : Bool) (s : System)
    → CellsAreHeld s
    → CellsAreHeld (step inner who s)
unfolding step advance set_next_block_extra_data set_next_block_base_fee_per_gas
    clear_next_block_extra_data clear_next_block_base_fee_per_gas
step-CellsAreHeld inner true s h = record {
  extra_data_held = ground (arith, h.extra_data_held);
  base_fee_held = ground (arith, h.base_fee_held);
}
step-CellsAreHeld inner false s h = record {
  extra_data_held = ground (arith, h.extra_data_held);
  base_fee_held = ground (arith, h.base_fee_held);
}

-- The environment that reth computes for a job without a cell.
abbrev pub computed : InnerConfig → Job → BlockEnv
computed inner job = inner.next_evm_env job.parent.header job.next_attributes

-- A job has no environment yet, or the computed one, or the computed one with the base fee of one of
-- the two jobs.
abbrev pub EnvFrom : InnerConfig → System → Job → Type 0
EnvFrom inner s job =
    (job.env ≡ none)
    ⊎ ((job.env ≡ some (computed inner job))
        ⊎ ((job.env ≡ some (record (computed inner job) { basefee = s.first.base_fee }))
            ⊎ (job.env ≡ some (record (computed inner job) { basefee = s.second.base_fee }))))

read_env_lem :
    (inner : InnerConfig) (s : System) (job : Job)
    → CellsAreHeld s
    → let env = next_evm_env inner s.cells job.parent.header job.next_attributes in
      EnvFrom inner s (record job { phase = env_read; env = some env })
unfolding next_evm_env
read_env_lem inner s job h = ground (arith, h.base_fee_held)

step-EnvFrom :
    (inner : InnerConfig) (who : Bool) (s : System)
    → CellsAreHeld s
    → EnvFrom inner s s.first
    → EnvFrom inner s s.second
    → let s' = step inner who s in EnvFrom inner s' s'.first × EnvFrom inner s' s'.second
unfolding step advance
step-EnvFrom inner true s h first second =
    (ground (arith, first, read_env_lem inner s s.first h), ground (arith, second))
step-EnvFrom inner false s h first second =
    (ground (arith, first), ground (arith, second, read_env_lem inner s s.second h))

-- What holds at every point of every schedule.
pub record IsSound (inner : InnerConfig) (s : System) : Type 0 where
  pub cells_held : CellsAreHeld s
  pub first_env : EnvFrom inner s s.first
  pub second_env : EnvFrom inner s s.second

run-IsSound :
    (inner : InnerConfig) (schedule : List Bool) (s : System)
    → IsSound inner s
    → IsSound inner (run inner schedule s)
unfolding run
run-IsSound inner [] s h = h
run-IsSound inner (who ∷ schedule) s h =
    let envs = step-EnvFrom inner who s h.cells_held h.first_env h.second_env in
    run-IsSound inner schedule (step inner who s) (record {
      cells_held = step-CellsAreHeld inner who s h.cells_held;
      first_env = envs.0;
      second_env = envs.1;
    })

-- Two jobs that have not begun, and empty cells.
abbrev pub job_of : SealedHeader → NextBlockEnvAttributes → List ℕ → ℕ → Job
job_of parent next extra fee = record {
  parent = parent;
  next_attributes = next;
  extra_data = extra;
  base_fee = fee;
  phase = idle;
  env = none;
  ctx = none;
}

abbrev pub start : Job → Job → System
start first second = record { first = first; second = second; cells = new }

abbrev pub IsFresh : Job → Type 0
IsFresh job = (job.phase ≡ idle) × (job.env ≡ none)

abbrev pub is_opened : Phase → Bool
is_opened opened = true
is_opened _ = false

emptied_lem :
    (s : System)
    → CellsAreHeld s
    → ((is_opened s.first.phase && is_opened s.second.phase) ≡ false) ⊎ (s.cells ≡ new)
emptied_lem s h = elim (Bool-cases (is_opened s.first.phase && is_opened s.second.phase)) [
  | inr q ↦ inl q
  | inl q ↦ inr (ground (arith, h.extra_data_held, h.base_fee_held, q))
]

-- Two jobs that have not begun are run on empty cells in any order of their steps. At every point, a
-- full cell has the value of one of the jobs, and one of them is between its set and its clear; a job
-- that has an environment has the one that reth computes for its attributes, with the computed base fee
-- or the base fee of one of the two; and when both blocks are opened, both cells are empty.
pub every_schedule-IsSound :
    (inner : InnerConfig) (first second : Job) (schedule : List Bool)
    → IsFresh first
    → IsFresh second
    → let s = run inner schedule (start first second) in
      IsSound inner s
      × (((is_opened s.first.phase && is_opened s.second.phase) ≡ false) ⊎ (s.cells ≡ new))
every_schedule-IsSound inner first second schedule fresh_first fresh_second =
    let begun : IsSound inner (start first second) = record {
      cells_held = record { extra_data_held = inl refl; base_fee_held = inl refl };
      first_env = inl fresh_first.1;
      second_env = inl fresh_second.1;
    } in
    let sound = run-IsSound inner schedule (start first second) begun in
    (sound, emptied_lem (run inner schedule (start first second)) sound.cells_held)

-- The second job sets the cells between the set and the reads of the first.
abbrev pub overwritten : List Bool
overwritten = true ∷ true ∷ false ∷ false ∷ true ∷ true ∷ []

-- The second job, ahead of the first, clears the cells between the set and the reads of the first.
abbrev pub cleared : List Bool
cleared = false ∷ false ∷ false ∷ false ∷ true ∷ true ∷ false ∷ false ∷ true ∷ true ∷ []

-- With two builds at once there is an order of the steps in which the first block is opened with the
-- base fee and the extra data of the second job, and one in which it is opened with the base fee that
-- reth computes and the extra data of its parent, whatever the attributes of the first job are.
pub builds_can_mix :
    (inner : InnerConfig) (parent parent' : SealedHeader) (next next' : NextBlockEnvAttributes)
    (extra extra' : List ℕ) (fee fee' : ℕ)
    → let first = job_of parent next extra fee in
      let second = job_of parent' next' extra' fee' in
      let s = run inner overwritten (start first second) in
      let t = run inner cleared (start first second) in
      ((env : BlockEnv) × (ctx : BlockExecutionCtx) × (s.first.env ≡ some env)
        × (s.first.ctx ≡ some ctx)
        × (env.basefee ≡ fee')
        × (ctx.extra_data ≡ extra'))
      × ((env : BlockEnv) × (ctx : BlockExecutionCtx) × (t.first.env ≡ some env)
          × (t.first.ctx ≡ some ctx)
          × (env ≡ inner.next_evm_env parent.header next)
          × (ctx.extra_data ≡ parent.header.extra_data))
unfolding run step advance set_next_block_extra_data set_next_block_base_fee_per_gas
    clear_next_block_extra_data clear_next_block_base_fee_per_gas next_evm_env
    context_for_next_block
builds_can_mix inner parent parent' next next' extra extra' fee fee' =
    ((_, _, refl, refl, refl, refl), (_, _, refl, refl, refl, refl))
