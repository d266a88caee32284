-- ===== src/Attributes.antt =====
-- crates/primitives/src/payload/{attributes,builder}.rs: the payload attributes of the engine API, and
-- the attributes that the payload builder works on. The codec, the signatures and the hashes are the
-- parameter `Codec`. Texts of bytes are lists of bytes.
pub mod Laws
use kx_reth.Prelude.{
  ℕ, zero, suc, ◌+◌, ◌*◌, ◌^◌, ◌/◌, ◌%◌, ◌≡◌, Option, none, some, List, [], ◌∷◌, ◌++◌, take, length,
  unwrap_or, Result, ok, err,
}
use kx_reth.Prelude.Word.{to_u64}
use kx_reth.Block.{Withdrawal}

-- alloy's `PayloadAttributes`
pub record RpcAttributes : Type 0 where
  pub timestamp : ℕ
  pub prev_randao : ℕ
  pub suggested_fee_recipient : ℕ
  pub withdrawals : Option (List Withdrawal)
  pub parent_beacon_block_root : Option ℕ

-- `KasplexBlockMetadata`
pub record KasplexBlockMetadata : Type 0 where
  pub beneficiary : ℕ
  pub gas_limit : ℕ
  pub timestamp : ℕ
  pub mix_hash : ℕ
  pub tx_list : List ℕ
  pub extra_data : List ℕ

-- `KasplexPayloadAttributes`
pub record KasplexPayloadAttributes : Type 0 where
  pub payload_attributes : RpcAttributes
  pub base_fee_per_gas : ℕ
  pub block_metadata : KasplexBlockMetadata

-- `MAXIMUM_GAS_LIMIT_BLOCK` is the argument; the rest is `KasplexPayloadAttributes` as the local
-- builder fills it
unfoldable pub build : ℕ → RpcAttributes → KasplexPayloadAttributes
build maximum_gas_limit_block eth = record {
  payload_attributes = eth;
  base_fee_per_gas = 0;
  block_metadata = record {
    beneficiary = 0;
    timestamp = eth.timestamp;
    gas_limit = maximum_gas_limit_block;
    mix_hash = 0;
    tx_list = [];
    extra_data = [];
  };
}

-- reth's `EthPayloadBuilderAttributes`
pub record EthPayloadBuilderAttributes : Type 0 where
  pub id : List ℕ
  pub parent : ℕ
  pub timestamp : ℕ
  pub suggested_fee_recipient : ℕ
  pub prev_randao : ℕ
  pub withdrawals : List Withdrawal
  pub parent_beacon_block_root : Option ℕ

-- The RLP decoder of a list of transactions, the recovery of a signer, and the hashes.
pub record Codec : Type 1 where
  pub Signed : Type 0
  pub Recovered : Type 0
  pub RlpError : Type 0
  pub SignatureError : Type 0
  pub decode_transactions : List ℕ → Result RlpError (List Signed)
  pub try_into_recovered : Signed → Result SignatureError Recovered
  pub encode_withdrawals : List Withdrawal → List ℕ
  -- the bytes of the digest, and the number they spell
  pub keccak256 : List ℕ → List ℕ
  pub keccak256_number : List ℕ → ℕ
  pub sha256 : List ℕ → List ℕ
  pub sha256_length : (bytes : List ℕ) → length (sha256 bytes) ≡ 32

-- the big-endian bytes of a number, so many of them
unfoldable pub to_be_bytes : ℕ → ℕ → List ℕ
to_be_bytes zero n = []
to_be_bytes (suc k) n = (n / 256 ^ k) % 256 ∷ to_be_bytes k n

-- `out[0] = payload_version`
abbrev pub set_first : ℕ → List ℕ → List ℕ
set_first v [] = []
set_first v (b ∷ bs) = v ∷ bs

module _ (codec : Codec) where
  open codec use {
    Signed, Recovered, RlpError, decode_transactions, try_into_recovered, encode_withdrawals,
    keccak256, keccak256_number, sha256,
  }

  -- what `payload_id_kasplex` feeds to the hasher, in order
  unfoldable pub hashed_bytes : ℕ → KasplexPayloadAttributes → List ℕ
  hashed_bytes parent a =
      let eth = a.payload_attributes in
      let withdrawals : List ℕ = elim eth.withdrawals [
        | none ↦ []
        | some ws ↦ encode_withdrawals ws
      ] in
      let root : List ℕ = elim eth.parent_beacon_block_root [
        | none ↦ []
        | some r ↦ to_be_bytes 32 r
      ] in
      to_be_bytes 32 parent
      ++ to_be_bytes 8 eth.timestamp
      ++ to_be_bytes 32 eth.prev_randao
      ++ to_be_bytes 20 eth.suggested_fee_recipient
      ++ withdrawals
      ++ root
      ++ keccak256 a.block_metadata.tx_list

  -- `payload_id_kasplex`
  unfoldable pub payload_id_kasplex : ℕ → KasplexPayloadAttributes → ℕ → List ℕ
  payload_id_kasplex parent a payload_version =
      take 8 (set_first payload_version (sha256 (hashed_bytes parent a)))

  -- `KasplexPayloadBuilderAttributes`
  pub record BuilderAttributes : Type 0 where
    pub payload_attributes : EthPayloadBuilderAttributes
    pub tx_list_hash : ℕ
    pub beneficiary : ℕ
    pub gas_limit : ℕ
    pub timestamp : ℕ
    pub mix_hash : ℕ
    pub base_fee_per_gas : ℕ
    pub transactions : List Recovered
    pub extra_data : List ℕ

  -- `filter_map` with `try_into_recovered`
  abbrev pub recover_all : List Signed → List Recovered
  recover_all [] = []
  recover_all (tx ∷ txs) =
      let rest = recover_all txs in
      elim (try_into_recovered tx) [ err e ↦ rest | ok recovered ↦ recovered ∷ rest ]

  -- `decode_transactions(…).unwrap_or_else(|_| Vec::new())`, then the transactions with a signer
  unfoldable pub transactions_of : List ℕ → List Recovered
  transactions_of bytes = elim (decode_transactions bytes) [
    | err e ↦ recover_all []
    | ok txs ↦ recover_all txs
  ]

  -- the attributes that `try_new` fills in, with the time as a u64
  unfoldable pub attributes_of : ℕ → KasplexPayloadAttributes → ℕ → ℕ → BuilderAttributes
  attributes_of parent a version timestamp =
      let eth = a.payload_attributes in
      record {
        payload_attributes = record {
          id = payload_id_kasplex parent a version;
          parent = parent;
          timestamp = eth.timestamp;
          suggested_fee_recipient = eth.suggested_fee_recipient;
          prev_randao = eth.prev_randao;
          withdrawals = unwrap_or eth.withdrawals [];
          parent_beacon_block_root = eth.parent_beacon_block_root;
        };
        tx_list_hash = keccak256_number a.block_metadata.tx_list;
        beneficiary = a.block_metadata.beneficiary;
        gas_limit = a.block_metadata.gas_limit;
        timestamp = timestamp;
        mix_hash = eth.prev_randao;
        base_fee_per_gas = a.base_fee_per_gas;
        transactions = transactions_of a.block_metadata.tx_list;
        extra_data = a.block_metadata.extra_data;
      }

  -- `try_new`; `none` is the panic of `to()` on a time that does not fit a u64
  unfoldable pub try_new :
      ℕ → KasplexPayloadAttributes → ℕ → Option (Result RlpError BuilderAttributes)
  try_new parent a version = elim (to_u64 a.block_metadata.timestamp) [
    | none ↦ none
    | some timestamp ↦ some (ok (attributes_of parent a version timestamp))
  ]
