-- ===== src/TxMapping/Spec.antt =====
-- What the comments of crates/tx_mapping/src/lib.rs say of its methods, with no table and no machine
-- word: a partial function from hashes to numbers, a set and a flag.
use mathlib.Core.Path.{subst}
use kx_reth.Prelude.{
  ◌+◌, ◌-◌, ◌<◌, sym, Option-cases, inl, inr, ℕ, ◌≡◌, refl, Bool, true, false, not, ◌||◌, Option,
  none, some, List, [], ◌∷◌, arith, ltb, ◌==◌, contains, if◌then◌else◌, unwrap_or, ap, ◌∙◌,
}
use kx_reth.Prelude.HashMap
use kx_reth.Prelude.HashMap.{get-insert, get-remove}
use kx_reth.Prelude.HashSet.{contains-insert}
use kx_reth.Prelude.Word.{u64_mod}
use kx_reth.TxMapping.{
  TxMapping, unexecuted_tx_retention_blocks, set_mapping, get_tx_number, add_deleted_transaction,
  is_deleted_transaction, mark_start_pool_reorg, mark_pool_reorged, is_reorg_complete, insert,
  is_transaction_expired, get_submission_block, clear,
}
use kx_reth.TxMapping.Calls.{Op, Reply, done, number, flag, block, step, run}

pub record View : Type 0 where
  pub block_of : ℕ → Option ℕ
  pub is_deleted : ℕ → Bool
  pub reorging : Bool

abbrev pub view : TxMapping → View
view s = record {
  block_of = λ h. HashMap.get h s.mapping;
  is_deleted = λ h. contains h s.deleted;
  reorging = s.reorg_in_progress;
}

abbrev pub update : (ℕ → Option ℕ) → ℕ → Option ℕ → ℕ → Option ℕ
update f h o k = if h == k then o else f k

-- submitted more than 100 blocks ago, or in a future block
abbrev pub expired_at : ℕ → Option ℕ → Bool
expired_at current none = false
expired_at current (some n) = ltb unexecuted_tx_retention_blocks (current - n) || ltb current n

abbrev pub spec_step : Op → View → Reply × View
spec_step (Op.set_mapping m) v = (done, record v { block_of = λ h. HashMap.get h m })
spec_step (Op.get_tx_number h) v =
    (number (unwrap_or (v.block_of h) 0), record v { block_of = update v.block_of h none })
spec_step (Op.add_deleted h) v = (done, record v { is_deleted = λ k. (k == h) || v.is_deleted k })
spec_step (Op.is_deleted h) v = (flag (v.is_deleted h), v)
spec_step (Op.get_submission_block h) v = (block (v.block_of h), v)
spec_step Op.mark_start v = (done, record v { reorging = true })
spec_step Op.mark_reorged v = (done, record v { reorging = false })
spec_step Op.is_reorg_complete v = (flag (not v.reorging), v)
spec_step Op.clear v =
    (done, record { block_of = λ _. none; is_deleted = λ _. false; reorging = false })
spec_step (Op.insert h n) v = (done, record v { block_of = update v.block_of h (some n) })
spec_step (Op.is_expired h current) v = (flag (expired_at current (v.block_of h)), v)

abbrev pub spec_run : List Op → View → List Reply × View
spec_run [] v = ([], v)
spec_run (op ∷ ops) v =
    let (r, v') = spec_step op v in let (rs, v'') = spec_run ops v' in (r ∷ rs, v'')

-- Each number that is found leaves room in a u64 for the retention.
abbrev pub Fits : View → Type 0
Fits v = (h n : ℕ) → v.block_of h ≡ some n → n + unexecuted_tx_retention_blocks < u64_mod

-- what is put into the mapping leaves room, too
abbrev pub OpFits : Op → Type 0
OpFits (Op.set_mapping m) =
    (h n : ℕ) → HashMap.get h m ≡ some n → n + unexecuted_tx_retention_blocks < u64_mod
OpFits (Op.insert h n) = n + unexecuted_tx_retention_blocks < u64_mod
OpFits _ = Unit

abbrev pub AllFit : List Op → Type 0
AllFit [] = Unit
AllFit (op ∷ ops) = OpFits op × AllFit ops

spec_step-Fits : (op : Op) (v : View) → OpFits op → Fits v → Fits (spec_step op v).1
spec_step-Fits (Op.set_mapping m) v w f h n e = w h n e
spec_step-Fits (Op.get_tx_number k) v w f h n e = ground (arith, e, f h n)
spec_step-Fits (Op.insert k l) v w f h n e = ground (arith, e, w, f h n)
spec_step-Fits Op.clear v w f h n e = cc
spec_step-Fits _ v w f h n e = f h n e

expired-eq :
    (h current : ℕ) (s : TxMapping)
    → Fits (view s)
    → is_transaction_expired h current s ≡ expired_at current (HashMap.get h s.mapping)
unfolding is_transaction_expired
expired-eq h current s f = elim (Option-cases (HashMap.get h s.mapping)) [
  | inl q ↦ ground (arith, q)
  | inr (n, q) ↦ ground (arith, q, f h n q)
]

-- Seen through `view`, one call has the reply and the effect of the specification.
step-refines :
    (op : Op) (s : TxMapping)
    → Fits (view s)
    → ((step op s).0, view (step op s).1) ≡ spec_step op (view s)
unfolding step set_mapping get_tx_number add_deleted_transaction is_deleted_transaction
    mark_start_pool_reorg mark_pool_reorged is_reorg_complete insert get_submission_block clear
    HashMap.get
step-refines (Op.set_mapping m) s f = refl
step-refines (Op.get_tx_number h) s f = λ i. (
  number (unwrap_or (HashMap.get h s.mapping) 0),
  record (view s) { block_of = λ k. get-remove h k s.mapping i },
)
step-refines (Op.add_deleted h) s f =
    λ i. (done, record (view s) { is_deleted = λ k. contains-insert h k s.deleted i })
step-refines (Op.is_deleted h) s f = refl
step-refines (Op.get_submission_block h) s f = refl
step-refines Op.mark_start s f = refl
step-refines Op.mark_reorged s f = refl
step-refines Op.is_reorg_complete s f = refl
step-refines Op.clear s f = refl
step-refines (Op.insert h n) s f =
    λ i. (done, record (view s) { block_of = λ k. get-insert h k n s.mapping i })
step-refines (Op.is_expired h current) s f = λ i. (flag (expired-eq h current s f i), view s)

-- Where the numbers that the mapping holds at first, and those that are put into it, leave room for 100
-- more in a u64: for every schedule of calls the replies are those of the specification, and the state
-- at the end is seen as the state that the specification ends in. There a mapped transaction is expired
-- when more than 100 blocks lie from its block to the current one, or its block comes after the current
-- one, as the comments of the crate say; so at exactly 100 blocks it is not, whatever the test of the
-- crate asserts.
pub run-refines :
    (ops : List Op) (s : TxMapping)
    → AllFit ops
    → Fits (view s)
    → ((run ops s).0, view (run ops s).1) ≡ spec_run ops (view s)
unfolding run
run-refines [] s w f = refl
run-refines (op ∷ ops) s w f =
    let first = step-refines op s f in
    let kept : Fits (view (step op s).1) =
      subst (λ (q : Reply × View). Fits q.1) (sym first) (spec_step-Fits op (view s) w.0 f) in
    ap (λ (q : List Reply × View). ((step op s).0 ∷ q.0, q.1))
      (run-refines ops (step op s).1 w.1 kept)
    ∙ ap (λ (q : Reply × View). (q.0 ∷ (spec_run ops q.1).0, (spec_run ops q.1).1)) first
