-- ===== src/Evm/Treasury/Laws.antt =====
-- crates/evm/src/lib.rs, `get_treasury_address`: the form of the address, and which chains share
-- one.
use mathlib.Core.List.{append_assoc}
use kx_reth.Prelude.{
  ℕ, zero, suc, ◌+◌, ◌-◌, ◌*◌, ◌%◌, ◌^◌, ◌<◌, ◌≡◌, ◌≢◌, refl, ap, sym, ◌∙◌, List, [], ◌∷◌, ◌++◌,
  arith, All, length, length-append, length-replicate, replicate,
}
use kx_reth.Prelude.Word.{u64_mod}
use kx_reth.Evm.Treasury.{
  AddressParser, address_hex, address_length, suffix, hex_value, get_treasury_address,
}
use kx_reth.Evm.Treasury.Decimal.{
  decimal, IsDigit, decimal_value, decimal-IsDigit, length-decimal, decimal_value_lem,
  decimal-times_ten,
}

All-append : (xs ys : List ℕ) → All IsDigit xs → All IsDigit ys → All IsDigit (xs ++ ys)
All-append [] ys hx hy = hy
All-append (x ∷ xs) ys hx hy = (hx.0, All-append xs ys hx.1 hy)

All-zeros : (n : ℕ) → All IsDigit (replicate n b'0')
All-zeros zero = tt
All-zeros (suc n) = (omega arith, All-zeros n)

pub address_hex-IsDigit : (c : ℕ) → All IsDigit (address_hex c)
unfolding address_hex
address_hex-IsDigit c =
    All-append (decimal c) _ (decimal-IsDigit c) (All-append _ suffix (All-zeros _) (omega arith))

pub length-address_hex : (c : ℕ) → length (address_hex c) ≡ address_length
unfolding address_hex
length-address_hex c = omega (
  arith,
  length-decimal c,
  length-append (decimal c) (replicate (40 - (length (decimal c) + 5)) b'0' ++ suffix),
  length-append (replicate (40 - (length (decimal c) + 5)) b'0') suffix,
  length-replicate {A = ℕ} (40 - (length (decimal c) + 5)) b'0',
)

treasury_value :
    (parse : AddressParser) (c : ℕ) → get_treasury_address parse c ≡ hex_value 0 (address_hex c)
unfolding get_treasury_address
treasury_value parse c =
    rw (parse.from_str_lem (address_hex c) (address_hex-IsDigit c) (length-address_hex c))

hex_value-append :
    (acc : ℕ) (xs ys : List ℕ) → hex_value acc (xs ++ ys) ≡ hex_value (hex_value acc xs) ys
hex_value-append acc [] ys = refl
hex_value-append acc (x ∷ xs) ys = hex_value-append (acc * 16 + (x - b'0')) xs ys

-- Two texts of one length that spell one number are one text, and began from one number.
hex_value_injective :
    (a b : ℕ) (xs ys : List ℕ)
    → All IsDigit xs
    → All IsDigit ys
    → length xs ≡ length ys
    → hex_value a xs ≡ hex_value b ys
    → (a ≡ b) × (xs ≡ ys)
hex_value_injective a b [] [] hx hy l e = (e, refl)
hex_value_injective a b [] (y ∷ ys) hx hy l e = absurd (omega arith)
hex_value_injective a b (x ∷ xs) [] hx hy l e = absurd (omega arith)
hex_value_injective a b (x ∷ xs) (y ∷ ys) hx hy l e =
    let (heads, tails) =
      hex_value_injective (a * 16 + (x - b'0')) (b * 16 + (y - b'0')) xs ys hx.1 hy.1 (omega arith)
        e in
    (omega arith, let same : x ≡ y = omega arith in cc)

ends_in_suffix : (c : ℕ) → hex_value 0 (address_hex c) % 16 ^ 5 ≡ 0x10001
unfolding address_hex
ends_in_suffix c = rw (hex_value-append, hex_value-append) (omega arith)

-- For every chain id the text has the 40 digits that an address needs, so the address is the number
-- that the text spells, and not the fallback; its last five hexadecimal digits are 10001.
pub treasury_address_is_well_formed :
    (parse : AddressParser) (c : ℕ)
    → (length (address_hex c) ≡ address_length)
      × (get_treasury_address parse c ≡ hex_value 0 (address_hex c))
      × (get_treasury_address parse c % 16 ^ 5 ≡ 0x10001)
treasury_address_is_well_formed parse c =
    (length-address_hex c, treasury_value parse c, rw treasury_value (ends_in_suffix c))

append_cancel : (xs ys r s : List ℕ) → length xs ≡ length ys → xs ++ r ≡ ys ++ s → xs ≡ ys
append_cancel [] [] r s l e = refl
append_cancel [] (y ∷ ys) r s l e = absurd (omega arith)
append_cancel (x ∷ xs) [] r s l e = absurd (omega arith)
append_cancel (x ∷ xs) (y ∷ ys) r s l e =
    let tails : xs ++ r ≡ ys ++ s = cc in
    let same : xs ≡ ys = append_cancel xs ys r s (omega arith) tails in cc

same_decimal :
    (c d : ℕ)
    → length (decimal c) ≡ length (decimal d)
    → address_hex c ≡ address_hex d
    → decimal c ≡ decimal d
unfolding address_hex
same_decimal c d l e = append_cancel (decimal c) (decimal d) _ _ l e

-- Two chains with ids of equally many digits share a treasury address only if they are one chain.
pub get_treasury_address_injective :
    (parse : AddressParser) (c d : ℕ)
    → c < u64_mod
    → d < u64_mod
    → length (decimal c) ≡ length (decimal d)
    → get_treasury_address parse c ≡ get_treasury_address parse d
    → c ≡ d
get_treasury_address_injective parse c d hc hd l e =
    let texts : hex_value 0 (address_hex c) ≡ hex_value 0 (address_hex d) =
      sym (treasury_value parse c) ∙ e ∙ treasury_value parse d in
    let same : address_hex c ≡ address_hex d =
      (hex_value_injective 0 0 (address_hex c) (address_hex d) (address_hex-IsDigit c)
        (address_hex-IsDigit d) (length-address_hex c ∙ sym (length-address_hex d)) texts).1 in
    sym (decimal_value_lem c (omega arith))
    ∙ ap (decimal_value 0) (same_decimal c d l same)
    ∙ decimal_value_lem d (omega arith)

padding_shift :
    (n m : ℕ) → suc n ≡ m → b'0' ∷ (replicate n b'0' ++ suffix) ≡ replicate m b'0' ++ suffix
padding_shift n m e = ap (λ k. replicate k b'0' ++ suffix) e

address_hex-times_ten : (c : ℕ) → c ≢ 0 → c * 10 < u64_mod → address_hex (c * 10) ≡ address_hex c
unfolding address_hex
address_hex-times_ten c nz fits =
    rw (decimal-times_ten c nz (omega arith), append_assoc)
      (ap (λ r. decimal c ++ r)
        (padding_shift _ _
          (omega (arith, length-append (decimal c) (b'0' ∷ []), length-decimal c))))

-- Chains with ids of different lengths can share one: the padding hides the zeros at the end of the
-- id, so an id and ten times that id, where both fit a u64, have the same treasury address.
pub treasury_address_collides :
    (parse : AddressParser) (c : ℕ)
    → c ≢ 0
    → c * 10 < u64_mod
    → get_treasury_address parse (c * 10) ≡ get_treasury_address parse c
treasury_address_collides parse c nz fits =
    treasury_value parse (c * 10)
    ∙ ap (hex_value 0) (address_hex-times_ten c nz fits)
    ∙ sym (treasury_value parse c)
