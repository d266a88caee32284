-- ===== src/Auth/Content.antt =====
-- crates/rpc/src/eth/auth.rs, `tx_pool_content`: which pending transactions are handed out.
use mathlib.Core.List.{append_assoc}
use kx_reth.Prelude.{
  ℕ, ◌+◌, ◌≡◌, ◌≤◌, ◌<◌, refl, ◌∙◌, Bool, not, List, [], ◌∷◌, ◌++◌, arith, ltb, ◌==◌, if◌then◌else◌,
  length, keep_if, All, ◌⊎◌, inl, inr, Bool-cases,
}
use kx_reth.Prelude.Word.{u64_mod, add_u64}
use kx_reth.Auth.{PoolTx, Selected, select, tx_pool_content}

abbrev pub gas_sum : List PoolTx → ℕ
gas_sum [] = 0
gas_sum (tx ∷ txs) = tx.gas_limit + gas_sum txs

abbrev pub byte_sum : List PoolTx → ℕ
byte_sum [] = 0
byte_sum (tx ∷ txs) = length tx.encoded_2718 + byte_sum txs

-- The transactions that can pay the base fee.
abbrev pub affordable : ℕ → PoolTx → Bool
affordable base_fee tx = not (ltb tx.max_fee_per_gas base_fee)

-- Neither limit wraps around with one more transaction.
abbrev pub Fits : ℕ → ℕ → PoolTx → Type 0
Fits max_gas max_bytes tx =
    (max_gas + tx.gas_limit < u64_mod) × (max_bytes + length tx.encoded_2718 < u64_mod)

-- The totals are those of the selected transactions and within the limits.
pub record Within (max_gas max_bytes : ℕ) (s : Selected) : Type 0 where
  pub gas_counted : s.total_gas_used ≡ gas_sum s.transactions
  pub bytes_counted : s.total_bytes ≡ byte_sum s.transactions
  pub gas_within : s.total_gas_used ≤ max_gas
  pub bytes_within : s.total_bytes ≤ max_bytes

-- What is left begins with a transaction that does not fit any more.
pub data Stops (max_gas max_bytes : ℕ) (s : Selected) : List PoolTx → Type 0 where
  at_end : Stops max_gas max_bytes s []
  at_limit :
      (tx : PoolTx) (rest : List PoolTx)
      → ((max_gas < s.total_gas_used + tx.gas_limit)
          ⊎ (max_bytes < s.total_bytes + length tx.encoded_2718))
      → Stops max_gas max_bytes s (tx ∷ rest)

gas_sum-snoc : (xs : List PoolTx) (x : PoolTx) → gas_sum (xs ++ x ∷ []) ≡ gas_sum xs + x.gas_limit
gas_sum-snoc [] x = omega arith
gas_sum-snoc (y ∷ xs) x = omega (arith, gas_sum-snoc xs x)

byte_sum-snoc :
    (xs : List PoolTx) (x : PoolTx) → byte_sum (xs ++ x ∷ []) ≡ byte_sum xs + length x.encoded_2718
byte_sum-snoc [] x = omega arith
byte_sum-snoc (y ∷ xs) x = omega (arith, byte_sum-snoc xs x)

select_from :
    (base_fee max_gas max_bytes : ℕ) (pending : List PoolTx) (s : Selected)
    → All (Fits max_gas max_bytes) pending
    → Within max_gas max_bytes s
    → let out = select base_fee max_gas max_bytes pending s in
      Within max_gas max_bytes out
      × (rest : List PoolTx) × (out.transactions ++ rest
          ≡ s.transactions ++ keep_if (affordable base_fee) pending)
      × Stops max_gas max_bytes out rest
unfolding select
select_from base_fee max_gas max_bytes [] s fits w = (w, [], refl, at_end)
select_from base_fee max_gas max_bytes (tx ∷ txs) s fits w =
    elim (Bool-cases (ltb tx.max_fee_per_gas base_fee)) [
      | inl poor ↦ rw (poor, select) (select_from base_fee max_gas max_bytes txs s fits.1 w)
      | inr rich ↦ elim (Bool-cases (ltb max_gas (add_u64 s.total_gas_used tx.gas_limit))) [
        | inl over ↦
            rw (rich, over, select)
              (
                w,
                tx ∷ keep_if (affordable base_fee) txs,
                refl,
                at_limit tx _ (inl (ground (arith, over, fits.0, w.gas_within))),
              )
        | inr under ↦
            elim (Bool-cases (ltb max_bytes (add_u64 s.total_bytes (length tx.encoded_2718)))) [
              | inl over ↦
                  rw (rich, under, over, select)
                    (
                      w,
                      tx ∷ keep_if (affordable base_fee) txs,
                      refl,
                      at_limit tx _ (inr (ground (arith, over, fits.0, w.bytes_within))),
                    )
              | inr small ↦
                  let s' : Selected = record {
                    transactions = s.transactions ++ tx ∷ [];
                    total_gas_used = add_u64 s.total_gas_used tx.gas_limit;
                    total_bytes = add_u64 s.total_bytes (length tx.encoded_2718);
                  } in
                  let w' : Within max_gas max_bytes s' = record {
                    gas_counted = ground (
                      arith,
                      fits.0,
                      w.gas_within,
                      w.gas_counted,
                      gas_sum-snoc s.transactions tx,
                    );
                    bytes_counted = ground (
                      arith,
                      fits.0,
                      w.bytes_within,
                      w.bytes_counted,
                      byte_sum-snoc s.transactions tx,
                    );
                    gas_within = ground (arith, under);
                    bytes_within = ground (arith, small);
                  } in
                  let r = select_from base_fee max_gas max_bytes txs s' fits.1 w' in
                  rw (rich, under, small, select)
                    (r.0, r.1, r.2 ∙ append_assoc s.transactions (tx ∷ []) _, r.3)
            ]
      ]
    ]

-- If no sum with a limit wraps around, there is one list that is handed out when at least one is asked
-- for, and none is handed out when none is asked for. The totals of the list are those of its
-- transactions, within both limits; and it is a first part of the pending transactions that can pay the
-- base fee: all of them, or those before the first that does not fit any more.
pub tx_pool_content_is_a_prefix :
    (beneficiary base_fee max_gas max_bytes : ℕ) (locals : List (List ℕ)) (max_lists : ℕ)
    (pending : List PoolTx)
    → All (Fits max_gas max_bytes) pending
    → (out : Selected) × (tx_pool_content beneficiary base_fee max_gas max_bytes locals max_lists
          pending
        ≡ (if max_lists == 0 then [] else out ∷ []))
      × Within max_gas max_bytes out
      × (rest : List PoolTx) × (out.transactions ++ rest ≡ keep_if (affordable base_fee) pending)
      × Stops max_gas max_bytes out rest
unfolding tx_pool_content
tx_pool_content_is_a_prefix beneficiary base_fee max_gas max_bytes locals max_lists pending fits =
    let start : Selected = record { transactions = []; total_gas_used = 0; total_bytes = 0 } in
    let within : Within max_gas max_bytes start = record {
      gas_counted = refl;
      bytes_counted = refl;
      gas_within = omega arith;
      bytes_within = omega arith;
    } in
    let chosen = select_from base_fee max_gas max_bytes pending start fits within in
    (
      select base_fee max_gas max_bytes pending start,
      ground arith,
      chosen.0,
      chosen.1,
      chosen.2,
      chosen.3,
    )
