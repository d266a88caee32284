-- ===== src/Auth/MinTip.antt =====
-- crates/rpc/src/eth/auth.rs, `tx_pool_content_with_min_tip`: the pending and the queued transactions
-- that leave a tip, by sender and by nonce. Each of the two maps of maps is keyed with the nonce, whose
-- decimal text is the key in the code. The RPC form of a transaction is the parameter `fill_pending`.
use kx_reth.Prelude.{
  ℕ, ◌+◌, ◌-◌, ◌≡◌, refl, Bool, true, false, Option, none, some, List, [], ◌∷◌, arith, ltb, leb,
  ◌==◌, ◌&&◌, ◌||◌, min, unwrap_or, if◌then◌else◌, Result, ok, err, Bool-cases, Option-cases,
  ==_iff, ap, ◌∙◌, inl, inr,
}
use kx_reth.Prelude.HashMap
use kx_reth.Prelude.HashMap.{HashMap, get-insert}
use kx_reth.Auth.{PoolTx, min_l2_base_fee}

-- the effective tip at a base fee
unfoldable pub effective_tip : ℕ → PoolTx → ℕ
effective_tip base_fee tx = elim (ltb base_fee tx.max_fee_per_gas) [
  | false ↦ 0
  | true ↦
      let fee_cap_tip = tx.max_fee_per_gas - base_fee in
      elim tx.max_priority_fee_per_gas [
        | some priority_fee ↦ min priority_fee fee_cap_tip
        | none ↦ fee_cap_tip
      ]
]

get-empty : {A : Type 0} (n : ℕ) → HashMap.get n (HashMap.empty {V = A}) ≡ none
unfolding HashMap.get
get-empty n = refl

module _ {E Rpc : Type 0} (fill_pending : PoolTx → Result E Rpc) where
  -- `BTreeMap<Address, BTreeMap<String, RpcTransaction>>`
  abbrev pub ContentMap : Type 0
  ContentMap = HashMap (HashMap Rpc)

  -- `content.entry(sender).or_default().insert(nonce, …)`
  unfoldable pub insert_entry : PoolTx → Rpc → ContentMap → ContentMap
  insert_entry tx filled content =
      let of_sender = unwrap_or (HashMap.get tx.sender content) HashMap.empty in
      HashMap.insert tx.sender (HashMap.insert tx.nonce filled of_sender) content

  -- `insert_with_min_tip`; on an error the content is dropped with the request
  unfoldable pub insert_with_min_tip : ℕ → ℕ → PoolTx → ContentMap → Result E (Bool × ContentMap)
  insert_with_min_tip min_tip base_fee tx content =
      if leb min_tip (effective_tip base_fee tx)
      then elim (fill_pending tx) [
        | err e ↦ err e
        | ok filled ↦ ok (true, insert_entry tx filled content)
      ]
      else ok (false, content)

  -- the loops over the pending and the queued transactions
  unfoldable pub insert_each : ℕ → List PoolTx → ContentMap → Result E ContentMap
  insert_each min_tip [] content = ok content
  insert_each min_tip (tx ∷ txs) content =
      elim (insert_with_min_tip min_tip min_l2_base_fee tx content) [
        | err e ↦ err e
        | ok r ↦ insert_each min_tip txs r.1
      ]

  -- `tx_pool_content_with_min_tip`
  unfoldable pub tx_pool_content_with_min_tip :
      ℕ → List PoolTx → List PoolTx → Result E (ContentMap × ContentMap)
  tx_pool_content_with_min_tip min_tip pending queued =
      elim (insert_each min_tip pending HashMap.empty) [
        | err e ↦ err e
        | ok of_pending ↦ elim (insert_each min_tip queued HashMap.empty) [
          | err e ↦ err e
          | ok of_queued ↦ ok (of_pending, of_queued)
        ]
      ]

  -- What is in the content for a sender and a nonce.
  abbrev pub entry_at : ℕ → ℕ → ContentMap → Option Rpc
  entry_at sender nonce content = elim (HashMap.get sender content) [
    | none ↦ none
    | some of_sender ↦ HashMap.get nonce of_sender
  ]

  entry_at-insert_entry :
      (tx : PoolTx) (filled : Rpc) (content : ContentMap) (s n : ℕ)
      → entry_at s n (insert_entry tx filled content)
        ≡ (if (tx.sender == s) && (tx.nonce == n) then some filled else entry_at s n content)
  unfolding insert_entry
  entry_at-insert_entry tx filled content s n =
      let of_sender = unwrap_or (HashMap.get tx.sender content) HashMap.empty in
      let outer = get-insert tx.sender s (HashMap.insert tx.nonce filled of_sender) content in
      let inner = get-insert tx.nonce n filled of_sender in
      elim (Bool-cases (tx.sender == s)) [
        | inr q ↦ ground (arith, outer, q)
        | inl q ↦
            let same : tx.sender ≡ s = (==_iff tx.sender s).0 q in
            let here = ap (λ k. HashMap.get k content) same in
            elim (Option-cases (HashMap.get tx.sender content)) [
              | inl r ↦ ground (arith, outer, inner, q, here, r, get-empty {A = Rpc} n)
              | inr (old, r) ↦ ground (arith, outer, inner, q, here, r)
            ]
      ]

  -- The transaction leaves the tip `min_tip` at the fixed base fee.
  abbrev pub leaves_tip : ℕ → PoolTx → Bool
  leaves_tip min_tip tx =
      (min_tip == 0)
      || (leb (min_l2_base_fee + min_tip) tx.max_fee_per_gas
          && leb min_tip (unwrap_or tx.max_priority_fee_per_gas min_tip))

  -- The last transaction of a sender with a nonce that leaves the tip.
  abbrev pub last_of : ℕ → ℕ → ℕ → List PoolTx → Option PoolTx
  last_of min_tip s n [] = none
  last_of min_tip s n (tx ∷ txs) = elim (last_of min_tip s n txs) [
    | some later ↦ some later
    | none ↦ if (tx.sender == s) && (tx.nonce == n) && leaves_tip min_tip tx then some tx else none
  ]

  leaves_tip_lem :
      (min_tip : ℕ) (tx : PoolTx)
      → leb min_tip (effective_tip min_l2_base_fee tx) ≡ leaves_tip min_tip tx
  unfolding effective_tip
  leaves_tip_lem min_tip tx = elim (Option-cases tx.max_priority_fee_per_gas) [
    | inl q ↦ ground (arith, q)
    | inr (fee, q) ↦ ground (arith, q)
  ]

  -- What the loop adds to the content.
  abbrev after : (PoolTx → Rpc) → ℕ → ℕ → ℕ → List PoolTx → Option Rpc → Option Rpc
  after fill min_tip s n txs before = elim (last_of min_tip s n txs) [
    | some tx ↦ some (fill tx)
    | none ↦ before
  ]

  insert_each_lem :
      (fill : PoolTx → Rpc) (min_tip : ℕ) (txs : List PoolTx) (content : ContentMap)
      → ((tx : PoolTx) → fill_pending tx ≡ ok (fill tx))
      → (out : ContentMap) × (insert_each min_tip txs content ≡ ok out)
        × ((s n : ℕ) → entry_at s n out ≡ after fill min_tip s n txs (entry_at s n content))
  unfolding insert_each insert_with_min_tip
  insert_each_lem fill min_tip [] content fills = (content, refl, λ s n. refl)
  insert_each_lem fill min_tip (tx ∷ txs) content fills =
      elim (Bool-cases (leb min_tip (effective_tip min_l2_base_fee tx))) [
        | inr q ↦
            let rest = insert_each_lem fill min_tip txs content fills in
            (
              rest.0,
              ground (arith, q, rest.1),
              λ s n. ground (arith, q, leaves_tip_lem min_tip tx, rest.2 s n),
            )
        | inl q ↦
            let rest = insert_each_lem fill min_tip txs (insert_entry tx (fill tx) content) fills in
            (
              rest.0,
              ground (arith, q, fills tx, rest.1),
              λ s n. ground (
                arith,
                q,
                leaves_tip_lem min_tip tx,
                rest.2 s n,
                entry_at-insert_entry tx (fill tx) content s n,
              ),
            )
      ]

  nothing_at : (s n : ℕ) → entry_at s n HashMap.empty ≡ none
  nothing_at s n = ground (arith, get-empty {A = HashMap Rpc} s)

  abbrev pub entry_of : (PoolTx → Rpc) → ℕ → ℕ → ℕ → List PoolTx → Option Rpc
  entry_of fill min_tip s n txs = elim (last_of min_tip s n txs) [
    | some tx ↦ some (fill tx)
    | none ↦ none
  ]

  -- If every transaction has an RPC form, the answer has, for a sender and a nonce, exactly the last
  -- pending transaction of them that leaves the tip, and apart from these the last queued one. A
  -- transaction leaves the tip `t` when `t` is 0, or its fee cap is at least the fixed base fee and `t`,
  -- and its priority fee, if it has one, at least `t`.
  pub content_has_last_paying :
      (fill : PoolTx → Rpc) (min_tip : ℕ) (pending queued : List PoolTx)
      → ((tx : PoolTx) → fill_pending tx ≡ ok (fill tx))
      → (of_pending : ContentMap) × (of_queued : ContentMap) × (tx_pool_content_with_min_tip min_tip
            pending queued
          ≡ ok (of_pending, of_queued))
        × ((s n : ℕ)
            → (entry_at s n of_pending ≡ entry_of fill min_tip s n pending)
              × (entry_at s n of_queued ≡ entry_of fill min_tip s n queued))
  unfolding tx_pool_content_with_min_tip
  content_has_last_paying fill min_tip pending queued fills =
      let p = insert_each_lem fill min_tip pending HashMap.empty fills in
      let q = insert_each_lem fill min_tip queued HashMap.empty fills in
      (
        p.0,
        q.0,
        ground (arith, p.1, q.1),
        λ s n. (
          p.2 s n ∙ ap (after fill min_tip s n pending) (nothing_at s n),
          q.2 s n ∙ ap (after fill min_tip s n queued) (nothing_at s n),
        ),
      )
