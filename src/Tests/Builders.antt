-- ===== src/Tests/Builders.antt =====
-- A codec and a block builder that meet their laws, and the values that several runs share. A transaction
-- is its hash.
use kx_reth.Prelude.{
  ℕ, ◌≡◌, refl, false, none, some, List, [], ◌∷◌, ◌++◌, map, arith, length, replicate, Result, ok,
  err, if◌then◌else◌, ◌==◌, ltb,
}
use kx_reth.TxMapping.{TxMapping}
use kx_reth.Block.{Header}
use kx_reth.Attributes.{Codec, KasplexPayloadAttributes}
use kx_reth.Payload.{Builder, ExecutionError, invalid_tx}

-- each byte is a transaction; those below 100 have a signer
abbrev pub recover : ℕ → Result (Unit {0}) ℕ
recover n = if ltb n 100 then ok n else err tt

abbrev pub byte_codec : Codec
byte_codec = record {
  Signed = ℕ;
  Recovered = ℕ;
  RlpError = Unit;
  SignatureError = Unit;
  decode_transactions = λ bytes. ok bytes;
  try_into_recovered = recover;
  encode_withdrawals = λ ws. [];
  keccak256 = λ bytes. bytes;
  keccak256_number = length;
  sha256 = λ bytes. replicate 32 (length bytes);
  sha256_length = λ bytes. refl;
}

-- the builder's state is what it has taken; 8 is no valid transaction
abbrev pub execute : ℕ → List (ℕ × ℕ) → Result ExecutionError ℕ × List (ℕ × ℕ)
execute tx s = if tx == 8 then (err invalid_tx, s) else (ok 21000, s ++ (tx, 21000) ∷ [])

pub execute_ok :
    (tx : ℕ) (s : List (ℕ × ℕ)) (gas : ℕ)
    → (execute tx s).0 ≡ ok gas
    → (execute tx s).1 ≡ s ++ (tx, gas) ∷ []
execute_ok tx s gas e = ground arith

pub execute_err :
    (tx : ℕ) (s : List (ℕ × ℕ)) (e : ExecutionError)
    → (execute tx s).0 ≡ err e
    → (execute tx s).1 ≡ s
execute_err tx s e h = ground arith

abbrev pub bundle : List (ℕ × ℕ) → Result (Unit {0}) (List ℕ)
bundle s = ok (map (λ (e : ℕ × ℕ). e.0) s)

pub finish_ok :
    (p : Unit {0}) (s : List (ℕ × ℕ)) (b : List ℕ)
    → bundle s ≡ ok b
    → b ≡ map (λ (e : ℕ × ℕ). e.0) s
finish_ok p s b h = cc

abbrev pub list_builder : Builder ℕ
list_builder = record {
  Provider = Unit;
  State = List (ℕ × ℕ);
  Error = Unit;
  Block = List ℕ;
  hash = λ tx. tx;
  effective_tip_per_gas = λ tx fee. some 2;
  state_by_block_hash = λ h. ok tt;
  create_block_builder = λ p env parent ctx. [];
  apply_pre_execution_changes = λ s. (ok tt, s);
  execute_transaction = execute;
  finish = λ p s. bundle s;
  transactions = λ b. b;
  executed = λ s. s;
  created_lem = λ p env parent ctx. refl;
  pre_execution_lem = λ s. refl;
  execute_ok_lem = execute_ok;
  execute_err_lem = execute_err;
  finish_lem = finish_ok;
}

abbrev pub rpc_attributes : KasplexPayloadAttributes
rpc_attributes = record {
  payload_attributes = record {
    timestamp = 700;
    prev_randao = 4;
    suggested_fee_recipient = 3;
    withdrawals = none;
    parent_beacon_block_root = none;
  };
  base_fee_per_gas = 5;
  block_metadata = record {
    beneficiary = 3;
    gas_limit = 15000000;
    timestamp = 701;
    mix_hash = 0;
    tx_list = 7 ∷ 8 ∷ [];
    extra_data = 1 ∷ [];
  };
}

-- the same with another gas limit
abbrev pub other_limit : KasplexPayloadAttributes
other_limit = record rpc_attributes {
  block_metadata = record rpc_attributes.block_metadata { gas_limit = 1 };
}

-- 7 was submitted in block 40, 8 in block 160
abbrev pub table : TxMapping
table = record { mapping = (7, 40) ∷ (8, 160) ∷ []; deleted = []; reorg_in_progress = false }

abbrev pub parent_header : Header
parent_header = record {
  parent_hash = 4;
  ommers_hash = 9;
  beneficiary = 0;
  state_root = 0;
  transactions_root = 0;
  receipts_root = 0;
  withdrawals_root = none;
  logs_bloom = 0;
  timestamp = 699;
  mix_hash = 0;
  nonce = 0;
  base_fee_per_gas = some 5;
  number = 160;
  gas_limit = 15000000;
  difficulty = 0;
  gas_used = 0;
  extra_data = [];
  parent_beacon_block_root = none;
  blob_gas_used = none;
  excess_blob_gas = none;
  requests_hash = none;
}
