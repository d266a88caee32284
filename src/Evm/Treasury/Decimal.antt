-- ===== src/Evm/Treasury/Decimal.antt =====
-- `format!("{}", n)` for a u64: its decimal digits, and the facts that the address needs.
use native.Mathlib.Nat.{pow-suc}
use kx_reth.Prelude.{
  ℕ, zero, suc, ◌+◌, ◌-◌, ◌*◌, ◌/◌, ◌%◌, ◌^◌, ◌≤◌, ◌<◌, ◌≡◌, ◌≢◌, refl, ap, sym, ◌∙◌, List, [], ◌∷◌,
  ◌++◌, arith, ◌==◌, All, length, if◌then◌else◌, Bool-cases, inl, inr,
}

-- The digits of `n` in front of `out`, one a round; 20 rounds are enough for a u64.
unfoldable pub emit : ℕ → ℕ → List ℕ → List ℕ
emit zero n out = out
emit (suc f) n out =
    let rest = emit f (n / 10) ((b'0' + n % 10) ∷ out) in if n == 0 then out else rest

unfoldable pub decimal : ℕ → List ℕ
decimal n = if n == 0 then b'0' ∷ [] else emit 20 n []

abbrev pub IsDigit : ℕ → Type 0
IsDigit c = (b'0' ≤ c) × (c ≤ b'9')

abbrev pub decimal_value : ℕ → List ℕ → ℕ
decimal_value acc [] = acc
decimal_value acc (c ∷ cs) = decimal_value (acc * 10 + (c - b'0')) cs

shrink : (f n : ℕ) → n < 10 ^ suc f → n / 10 < 10 ^ f
shrink f n h = let h' : n < 10 ^ f * 10 = rw (← pow-suc) h in omega arith

emit-IsDigit : (f n : ℕ) (out : List ℕ) → All IsDigit out → All IsDigit (emit f n out)
unfolding emit
emit-IsDigit zero n out h = h
emit-IsDigit (suc f) n out h = ground (arith, emit-IsDigit f (n / 10) ((b'0' + n % 10) ∷ out))

pub length-emit : (f n : ℕ) (out : List ℕ) → length (emit f n out) ≤ f + length out
unfolding emit
length-emit zero n out = omega arith
length-emit (suc f) n out = ground (arith, length-emit f (n / 10) ((b'0' + n % 10) ∷ out))

value-emit :
    (f n : ℕ) (out : List ℕ) → n < 10 ^ f → decimal_value 0 (emit f n out) ≡ decimal_value n out
unfolding emit
value-emit zero n out h = ap (λ k. decimal_value k out) (omega arith)
value-emit (suc f) n out h = elim (Bool-cases (n == 0)) [
  | inl none_left ↦ rw none_left (ap (λ k. decimal_value k out) (ground arith))
  | inr more ↦ rw more (
      value-emit f (n / 10) ((b'0' + n % 10) ∷ out) (shrink f n h)
      ∙ ap (λ k. decimal_value k out) (omega arith))
]

pub emit-append : (f n : ℕ) (out tail : List ℕ) → emit f n (out ++ tail) ≡ emit f n out ++ tail
unfolding emit
emit-append zero n out tail = refl
emit-append (suc f) n out tail = ground (arith, emit-append f (n / 10) ((b'0' + n % 10) ∷ out) tail)

-- A round more changes nothing once the number fits.
pub emit_stable : (f n : ℕ) (out : List ℕ) → n < 10 ^ f → emit (suc f) n out ≡ emit f n out
unfolding emit
emit_stable zero n out h = ground arith
emit_stable (suc f) n out h =
    ground (arith, emit_stable f (n / 10) ((b'0' + n % 10) ∷ out) (shrink f n h))

pub decimal-IsDigit : (n : ℕ) → All IsDigit (decimal n)
unfolding decimal
decimal-IsDigit n = ground (arith, emit-IsDigit 20 n [])

pub length-decimal : (n : ℕ) → length (decimal n) ≤ 20
unfolding decimal
length-decimal n = ground (arith, length-emit 20 n [])

pub decimal_value_lem : (n : ℕ) → n < 10 ^ 20 → decimal_value 0 (decimal n) ≡ n
unfolding decimal
decimal_value_lem n h = ground (arith, value-emit 20 n [])

emit_times_ten : (f k : ℕ) → k ≢ 0 → emit (suc f) (k * 10) [] ≡ emit f k (b'0' ∷ [])
unfolding emit
emit_times_ten f k nz =
    let zero_digit : b'0' + k * 10 % 10 ≡ b'0' = omega arith in
    let quotient : k * 10 / 10 ≡ k = omega arith in ground arith

emit_shift :
    (f c : ℕ) → c ≢ 0 → c < 10 ^ f → emit (suc f) (c * 10) [] ≡ emit (suc f) c [] ++ b'0' ∷ []
emit_shift f c nz h =
    emit_times_ten f c nz
    ∙ emit-append f c [] (b'0' ∷ [])
    ∙ ap (λ ds. ds ++ b'0' ∷ []) (sym (emit_stable f c [] h))

decimal_nonzero : (n : ℕ) → n ≢ 0 → decimal n ≡ emit 20 n []
unfolding decimal
decimal_nonzero n h = ground arith

-- A factor of ten is one more zero.
pub decimal-times_ten : (c : ℕ) → c ≢ 0 → c < 10 ^ 19 → decimal (c * 10) ≡ decimal c ++ b'0' ∷ []
decimal-times_ten c nz h =
    decimal_nonzero (c * 10) (omega arith)
    ∙ emit_shift 19 c nz h
    ∙ ap (λ ds. ds ++ b'0' ∷ []) (sym (decimal_nonzero c nz))
