-- ===== src/Engine/Validator.antt =====
-- crates/rpc/src/engine/validator.rs: which payloads and which payload attributes are well formed.
use kx_reth.Prelude.{
  ℕ, ◌≡◌, ◌<◌, ◌↔◌, ◌⊎◌, ◌≢◌, inl, inr, refl, Option, none, some, arith, ltb, ◌==◌, if◌then◌else◌,
  Result, ok, err, Result-cases, contains,
}
use kx_reth.Prelude.Word.{u64_mod, to_u64}
use kx_reth.TxMapping
use kx_reth.TxMapping.{TxMapping}
use kx_reth.Block.{Header}
use kx_reth.Attributes.{KasplexPayloadAttributes, Codec, BuilderAttributes, try_new, attributes_of}
use kx_reth.Engine.{
  Block, Blocks, ExecutionPayload, v1, v2, v3, fix_withdrawals_root, process_kasplex_execution_data,
}
use kx_reth.Engine.Numbers.{hashes, processed_numbers_are_gone}

-- `NewPayloadError::Other`, with what it wraps
pub data NewPayloadError (E : Type 0) : Type 0 where
  conversion : E → NewPayloadError E
  -- the computed hash and the expected one
  block_hash_mismatch : ℕ → ℕ → NewPayloadError E
  recovery : E → NewPayloadError E

-- `InvalidPayloadAttributesError`
pub data AttributesError : Type 0 where
  invalid_timestamp : AttributesError

-- `validate_payload_attributes_against_header`: the time is that of the engine API's attributes
unfoldable pub validate_payload_attributes_against_header :
    KasplexPayloadAttributes → Header → Result AttributesError (Unit {0})
validate_payload_attributes_against_header attr header =
    if ltb attr.payload_attributes.timestamp header.timestamp then err invalid_timestamp else ok tt

-- `validate_kasplex_block`, whose error is a text with the two times
unfoldable pub validate_kasplex_block : Header → ℕ → Result (ℕ × ℕ) (Unit {0})
validate_kasplex_block header parent_timestamp =
    if ltb header.timestamp parent_timestamp
    then err (header.timestamp, parent_timestamp)
    else ok tt

module _ (blocks : Blocks) where
  open blocks use {
    V1, Error, Recovered, block_hash, base_fee_per_gas, base_fee_lem, hash_slow, try_into_block,
    try_recover,
  }

  -- the hash that the payload names; of V2 and V3 the placeholder 0
  unfoldable pub expected_hash : ExecutionPayload V1 → ℕ
  expected_hash (v1 p) = block_hash p
  expected_hash v2 = 0
  expected_hash v3 = 0

  -- the comparison for the log on a mismatch; `none` is the panic of `base_fee_per_gas.to::<u64>()`
  unfoldable pub log_mismatch : ExecutionPayload V1 → Option (Unit {0})
  log_mismatch (v1 p) = elim (to_u64 (base_fee_per_gas p)) [ none ↦ none | some _ ↦ some tt ]
  log_mismatch v2 = some tt
  log_mismatch v3 = some tt

  -- `ensure_well_formed_payload`; `none` is a panic
  unfoldable pub ensure_well_formed_payload :
      ExecutionPayload V1
      → TxMapping
      → Option (Result (NewPayloadError Error) Recovered) × TxMapping
  ensure_well_formed_payload payload m =
      let (processed, m') = process_kasplex_execution_data blocks payload none m in
      elim processed [
        | err e ↦ (some (err (conversion e)), m')
        | ok block ↦
            let computed = hash_slow block.header in
            let named = expected_hash payload in
            let expected = if named == 0 then computed else named in
            if expected == computed
            then (
              elim (try_recover block) [
                | ok recovered ↦ some (ok recovered)
                | err e ↦ some (err (recovery e))
              ],
              m',
            )
            else (
              elim (log_mismatch payload) [
                | none ↦ none
                | some _ ↦ some (err (block_hash_mismatch computed expected))
              ],
              m',
            )
      ]

  -- A converted payload is accepted as `r` exactly when it names the hash of the block, or the hash 0,
  -- and the signers are recovered as `r`. The code does not panic. Whether it is accepted or not, its
  -- transactions are no longer found in the mapping.
  pub ensure_well_formed_payload_iff :
      (p : V1) (b : Block blocks.Tx) (m : TxMapping) (r : Recovered) (h : ℕ)
      → try_into_block p ≡ ok b
      → let fixed = fix_withdrawals_root blocks b in
        let out = ensure_well_formed_payload (v1 p) m in
        ((((block_hash p ≡ 0) ⊎ (block_hash p ≡ hash_slow fixed.header))
            × (try_recover fixed ≡ ok r))
          ↔ (out.0 ≡ some (ok r)))
        × (out.0 ≢ none)
        × (TxMapping.get_submission_block h out.1
            ≡ (if contains h (hashes blocks b) then none else TxMapping.get_submission_block h m))
  unfolding ensure_well_formed_payload expected_hash log_mismatch
  ensure_well_formed_payload_iff p b m r h q =
      let (result, gone) = processed_numbers_are_gone blocks p none b m h q in
      let fits = base_fee_lem p b q in
      elim (Result-cases (try_recover (fix_withdrawals_root blocks b))) [
        | inl (r', qr) ↦ (
          ground (arith, result, fits, qr),
          ground (arith, result, fits, qr),
          ground (arith, result, fits, qr, gone),
        )
        | inr (e, qr) ↦ (
          ground (arith, result, fits, qr),
          ground (arith, result, fits, qr),
          ground (arith, result, fits, qr, gone),
        )
      ]

-- The time that is checked is not the time of the block: attributes that pass the check against a
-- header pass it with every time of a u64 in the metadata, and the builder then works with that time.
pub checked_time_is_not_built_time :
    (codec : Codec) (parent : ℕ) (version : ℕ) (header : Header) (a : KasplexPayloadAttributes)
    (time : ℕ)
    → time < u64_mod
    → validate_payload_attributes_against_header a header ≡ ok tt
    → let a' = record a { block_metadata = record a.block_metadata { timestamp = time } } in
      (b : BuilderAttributes codec) × (validate_payload_attributes_against_header a' header ≡ ok tt)
      × (try_new codec parent a' version ≡ some (ok b))
      × (b.timestamp ≡ time)
unfolding validate_payload_attributes_against_header try_new attributes_of
checked_time_is_not_built_time codec parent version header a time fits h =
    let a' = record a { block_metadata = record a.block_metadata { timestamp = time } } in
    (attributes_of codec parent a' version time, h, ground arith, refl)
