-- ===== src/Attributes/Laws.antt =====
-- crates/primitives/src/payload/builder.rs: when the builder's attributes exist, what they contain, and
-- what the payload's id depends on.
use kx_reth.Prelude.{
  ℕ, zero, suc, ◌≡◌, ◌<◌, refl, ap, ◌∙◌, none, some, List, [], ◌∷◌, arith, length, take, ok, ◌⊎◌,
  inl, inr, ◌≤◌,
}
use kx_reth.Prelude.Word.{u64_mod, to_u64-cases}
use kx_reth.Attributes.{
  Codec, KasplexPayloadAttributes, BuilderAttributes, payload_id_kasplex, hashed_bytes, set_first,
  attributes_of, try_new,
}

module _ (codec : Codec) where
  open codec use {
    Signed, Recovered, RlpError, decode_transactions, try_into_recovered, sha256, sha256_length,
  }

  -- If the time of the metadata fits a u64, the attributes are built, without an error whatever the
  -- bytes of the transaction list are. The time, the fee recipient, the gas limit and the extra data
  -- are those of the metadata, but the mix hash is the `prev_randao` of the engine API's attributes.
  -- If it does not fit, the code panics.
  pub try_new_total :
      (parent : ℕ) (a : KasplexPayloadAttributes) (version : ℕ)
      → ((try_new codec parent a version ≡ none) × (u64_mod ≤ a.block_metadata.timestamp))
        ⊎ ((b : BuilderAttributes codec) × (try_new codec parent a version ≡ some (ok b))
            × (a.block_metadata.timestamp < u64_mod)
            × (b.timestamp ≡ a.block_metadata.timestamp)
            × (b.beneficiary ≡ a.block_metadata.beneficiary)
            × (b.gas_limit ≡ a.block_metadata.gas_limit)
            × (b.extra_data ≡ a.block_metadata.extra_data)
            × (b.mix_hash ≡ a.payload_attributes.prev_randao))
  unfolding try_new attributes_of
  try_new_total parent a version = elim (to_u64-cases a.block_metadata.timestamp) [
    | inl (q, big) ↦ inl (ground (arith, q), big)
    | inr (q, small) ↦ inr (
      attributes_of codec parent a version a.block_metadata.timestamp,
      ground (arith, q),
      small,
      refl,
      refl,
      refl,
      refl,
      refl,
    )
  ]

  take-suc : (n : ℕ) (v : ℕ) (bs : List ℕ) → n ≤ length bs → length (take n bs) ≡ n
  take-suc zero v bs h = refl
  take-suc (suc n) v [] h = omega (arith, h)
  take-suc (suc n) v (b ∷ bs) h = ap suc (take-suc n v bs (omega (arith, h)))

  id_of_digest :
      (v : ℕ) (digest : List ℕ)
      → length digest ≡ 32
      → (rest : List ℕ) × (take 8 (set_first v digest) ≡ v ∷ rest) × (length rest ≡ 7)
  id_of_digest v [] h = let no : ⊥ = omega (arith, h) in absurd no
  id_of_digest v (b ∷ bs) h = (take 7 bs, refl, take-suc 7 v bs (omega (arith, h)))

  -- Attributes that agree in the engine API's part and in the transaction list have one payload id on
  -- one parent: it depends neither on the base fee nor on the rest of the metadata, the gas limit, the
  -- fee recipient, the time and the extra data of the block. The id is eight bytes, the version first.
  pub payload_id_depends_on :
      (parent : ℕ) (a b : KasplexPayloadAttributes) (version : ℕ)
      → a.payload_attributes ≡ b.payload_attributes
      → a.block_metadata.tx_list ≡ b.block_metadata.tx_list
      → (rest : List ℕ) × (payload_id_kasplex codec parent a version ≡ version ∷ rest)
        × (payload_id_kasplex codec parent b version ≡ version ∷ rest)
        × (length rest ≡ 7)
  unfolding payload_id_kasplex hashed_bytes
  payload_id_depends_on parent a b version same_eth same_list =
      let id = id_of_digest version (sha256 (hashed_bytes codec parent a)) (sha256_length _) in
      let same : hashed_bytes codec parent b ≡ hashed_bytes codec parent a =
        rw (same_eth, same_list) in
      (id.0, id.1, ap (λ bytes. take 8 (set_first version (sha256 bytes))) same ∙ id.1, id.2)
