-- ===== src/Evm/Treasury.antt =====
-- crates/evm/src/lib.rs: the address that the base fee is paid to. Texts are lists of codes.
-- alloy's `Address::from_str` is the parameter `parse`.
pub mod Decimal
pub mod Laws
pub mod Networks
use kx_reth.Prelude.{
  ℕ, ◌+◌, ◌*◌, ◌-◌, ◌≡◌, ◌≤◌, Option, some, List, [], ◌∷◌, ◌++◌, All, length, replicate, unwrap_or,
}
use kx_reth.Prelude.Word.{saturating_sub}
use kx_reth.Evm.Treasury.Decimal.{decimal, IsDigit}

abbrev pub address_length : ℕ
address_length = 40

-- "10001"
abbrev pub suffix : List ℕ
suffix = b'1' ∷ b'0' ∷ b'0' ∷ b'0' ∷ b'1' ∷ []

-- `format!("{}{}{}", chain_id_str, padding, suffix)`
unfoldable pub address_hex : ℕ → List ℕ
address_hex chain_id =
    let chain_id_str = decimal chain_id in
    let padding_needed = saturating_sub address_length (length chain_id_str + length suffix) in
    chain_id_str ++ (replicate padding_needed b'0' ++ suffix)

-- The number that decimal digits spell when they are read in base 16.
abbrev pub hex_value : ℕ → List ℕ → ℕ
hex_value acc [] = acc
hex_value acc (c ∷ cs) = hex_value (acc * 16 + (c - b'0')) cs

-- `Address::from_str`: a text of "0x" and 40 decimal digits is read as the hexadecimal number.
pub record AddressParser : Type 0 where
  pub from_str : List ℕ → Option ℕ
  pub from_str_lem :
      (ds : List ℕ)
      → All IsDigit ds
      → length ds ≡ address_length
      → from_str (b'0' ∷ b'x' ∷ ds) ≡ some (hex_value 0 ds)

-- `get_treasury_address`
unfoldable pub get_treasury_address : AddressParser → ℕ → ℕ
get_treasury_address parse chain_id =
    unwrap_or (parse.from_str (b'0' ∷ b'x' ∷ address_hex chain_id)) 0
