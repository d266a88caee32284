-- ===== src/Evm/Frames.antt =====
-- crates/evm/src/evm.rs: `KasplexEvm` as revm's EVM. Its methods hand the call on to the EVM that it
-- wraps, which is the parameter `RevmEvm`; a mutable reference that they give out is a reading and a
-- writing here.
use kx_reth.Prelude.{◌≡◌, refl, Option, Result}

pub record EvmTypes : Type 1 where
  pub Context : Type 0
  pub Instructions : Type 0
  pub Precompiles : Type 0
  pub FrameStack : Type 0
  pub FrameInit : Type 0
  pub FrameResult : Type 0
  pub InitOrResult : Type 0
  pub ItemOrResult : Type 0
  pub Error : Type 0

-- the parts of the EVM that its methods give references to
pub data Part : Type 0 where
  whole context context_instructions frames context_precompiles : Part

abbrev pub View : EvmTypes → Part → Type 0
View t whole = t.Context × t.Instructions × t.Precompiles × t.FrameStack
View t context = t.Context
View t context_instructions = t.Context × t.Instructions
View t frames = t.FrameStack
View t context_precompiles = t.Context × t.Precompiles

-- revm's `Evm`
pub record RevmEvm (t : EvmTypes) : Type 1 where
  pub Inner : Type 0
  pub view : (q : Part) → Inner → View t q
  pub set : (q : Part) → View t q → Inner → Inner
  pub frame_init : t.FrameInit → Inner → Result t.Error t.ItemOrResult × Inner
  pub frame_run : Inner → Result t.Error t.InitOrResult × Inner
  pub frame_return_result : t.FrameResult → Inner → Result t.Error (Option t.FrameResult) × Inner

module _ (t : EvmTypes) (revm : RevmEvm t) where
  open t use {FrameInit, FrameResult, InitOrResult, ItemOrResult, Error}
  open revm use {Inner}

  -- `KasplexEvm`
  pub record WrappedEvm : Type 0 where
    pub inner : Inner

  -- `all`, `ctx_ref`, and the readings of the other references
  unfoldable pub view : (q : Part) → WrappedEvm → View t q
  view whole evm = revm.view whole evm.inner
  view context evm = revm.view context evm.inner
  view context_instructions evm = revm.view context_instructions evm.inner
  view frames evm = revm.view frames evm.inner
  view context_precompiles evm = revm.view context_precompiles evm.inner

  -- what is written through `all_mut`, `ctx`, `ctx_instructions`, `frame_stack` and `ctx_precompiles`
  unfoldable pub set : (q : Part) → View t q → WrappedEvm → WrappedEvm
  set whole parts evm = record { inner = revm.set whole parts evm.inner }
  set context ctx evm = record { inner = revm.set context ctx evm.inner }
  set context_instructions parts evm = record {
    inner = revm.set context_instructions parts evm.inner;
  }
  set frames stack evm = record { inner = revm.set frames stack evm.inner }
  set context_precompiles parts evm = record {
    inner = revm.set context_precompiles parts evm.inner;
  }

  unfoldable pub frame_init : FrameInit → WrappedEvm → Result Error ItemOrResult × WrappedEvm
  frame_init frame_input evm =
      let (r, inner) = revm.frame_init frame_input evm.inner in (r, record { inner = inner })

  unfoldable pub frame_run : WrappedEvm → Result Error InitOrResult × WrappedEvm
  frame_run evm = let (r, inner) = revm.frame_run evm.inner in (r, record { inner = inner })

  unfoldable pub frame_return_result :
      FrameResult → WrappedEvm → Result Error (Option FrameResult) × WrappedEvm
  frame_return_result frame_result evm =
      let (r, inner) = revm.frame_return_result frame_result evm.inner in
      (r, record { inner = inner })

  -- What a handler does with the EVM, each step after the replies to those before.
  pub data Loop (A : Type 0) : Type 0 where
    ends : A → Loop A
    reads : (q : Part) → (View t q → Loop A) → Loop A
    writes : (q : Part) → View t q → Loop A → Loop A
    inits : FrameInit → (Result Error ItemOrResult → Loop A) → Loop A
    runs : (Result Error InitOrResult → Loop A) → Loop A
    returns : FrameResult → (Result Error (Option FrameResult) → Loop A) → Loop A

  -- a handler on revm's EVM, and on the wrapped one
  pub run_inner : {A : Type 0} → Loop A → Inner → A × Inner
  run_inner (ends a) evm = (a, evm)
  run_inner (reads q k) evm = run_inner (k (revm.view q evm)) evm
  run_inner (writes q v p) evm = run_inner p (revm.set q v evm)
  run_inner (inits i k) evm = let (r, evm') = revm.frame_init i evm in run_inner (k r) evm'
  run_inner (runs k) evm = let (r, evm') = revm.frame_run evm in run_inner (k r) evm'
  run_inner (returns x k) evm =
      let (r, evm') = revm.frame_return_result x evm in run_inner (k r) evm'

  pub run_wrapped : {A : Type 0} → Loop A → WrappedEvm → A × WrappedEvm
  run_wrapped (ends a) evm = (a, evm)
  run_wrapped (reads q k) evm = run_wrapped (k (view q evm)) evm
  run_wrapped (writes q v p) evm = run_wrapped p (set q v evm)
  run_wrapped (inits i k) evm = let (r, evm') = frame_init i evm in run_wrapped (k r) evm'
  run_wrapped (runs k) evm = let (r, evm') = frame_run evm in run_wrapped (k r) evm'
  run_wrapped (returns x k) evm =
      let (r, evm') = frame_return_result x evm in run_wrapped (k r) evm'

  view_lem : (q : Part) (evm : Inner) → view q (record { inner = evm }) ≡ revm.view q evm
  unfolding view
  view_lem whole evm = refl
  view_lem context evm = refl
  view_lem context_instructions evm = refl
  view_lem frames evm = refl
  view_lem context_precompiles evm = refl

  set_lem :
      (q : Part) (v : View t q) (evm : Inner)
      → set q v (record { inner = evm }) ≡ record { inner = revm.set q v evm }
  unfolding set
  set_lem whole v evm = refl
  set_lem context v evm = refl
  set_lem context_instructions v evm = refl
  set_lem frames v evm = refl
  set_lem context_precompiles v evm = refl

  -- Whatever a handler does with the frame operations, the context, the instructions, the precompiles
  -- and the frame stack of an EVM, in whatever order and depending on whatever it has read, it has the
  -- same result on the wrapped EVM as on revm's own, and leaves the wrapped EVM around what it leaves of
  -- revm's.
  pub wrapped_runs_like_inner :
      {A : Type 0} (p : Loop A) (evm : Inner)
      → run_wrapped p (record { inner = evm })
        ≡ ((run_inner p evm).0, record { inner = (run_inner p evm).1 })
  unfolding run_inner run_wrapped frame_init frame_run frame_return_result
  wrapped_runs_like_inner (ends a) evm = refl
  wrapped_runs_like_inner (reads q k) evm =
      rw (view_lem q evm) (wrapped_runs_like_inner (k (revm.view q evm)) evm)
  wrapped_runs_like_inner (writes q v p) evm =
      rw (set_lem q v evm) (wrapped_runs_like_inner p (revm.set q v evm))
  wrapped_runs_like_inner (inits i k) evm = wrapped_runs_like_inner (k _) _
  wrapped_runs_like_inner (runs k) evm = wrapped_runs_like_inner (k _) _
  wrapped_runs_like_inner (returns x k) evm = wrapped_runs_like_inner (k _) _
