-- ===== src/Base/Decimal.antt =====
-- `n.to_string()` of an unsigned number, and that `parse` reads it back. No file of the repository.
use Prim.Native.Nat.{ℕ, zero, suc, ◌+◌, ◌-◌, ◌*◌, ◌/◌, ◌%◌, ◌^◌, ◌<◌}
use mathlib.Core.Path.{◌≡◌, refl, ap, ◌∙◌}
use mathlib.Core.Bool.{true}
use mathlib.Core.List.{[], ◌∷◌}
use mathlib.Core.Option.{some}
use mathlib.Core.Logic.{inl, inr}
use native.Mathlib.Omega.{arith}
use gabrielbrowser.Base.Tests.{if◌then◌else◌, ltb, Bool-cases}
use gabrielbrowser.Base.Lists.{All}
use gabrielbrowser.Base.Bytes.{Str}
use gabrielbrowser.Base.Text.{is_digit, parse_unsigned, parse_u64, parse_digits, skip_plus}

-- the digits of a number before those written: a round for each digit, at most as many as the number
digits_before : ℕ → ℕ → Str → Str
digits_before zero n s = s
digits_before (suc fuel) n s =
    let rest = digits_before fuel (n / 10) ((b'0' + n % 10) ∷ s) in
    if ltb n 10 then (b'0' + n) ∷ s else rest

unfoldable pub decimal : ℕ → Str
unfolding digits_before
decimal n = digits_before (suc n) n []

decimal_7 : decimal 7 ≡ b'7' ∷ []
unfolding decimal
decimal_7 = refl

decimal_120 : decimal 120 ≡ b'1' ∷ b'2' ∷ b'0' ∷ []
unfolding decimal
decimal_120 = refl

abbrev pub AllDigits : Str → Type 0
AllDigits s = All (λ c. is_digit c ≡ true) s

digit_lem : (d : ℕ) → d < 10 → is_digit (b'0' + d) ≡ true
digit_lem d h = ground arith

digits_before-AllDigits : (fuel n : ℕ) (s : Str) → AllDigits s → AllDigits (digits_before fuel n s)
unfolding digits_before
digits_before-AllDigits zero n s h = h
digits_before-AllDigits (suc fuel) n s h =
    let later =
      digits_before-AllDigits fuel (n / 10) ((b'0' + n % 10) ∷ s)
        (digit_lem (n % 10) (omega arith), h) in
    ground (arith, later, digit_lem n)

pub decimal-AllDigits : (n : ℕ) → AllDigits (decimal n)
unfolding decimal
decimal-AllDigits n = digits_before-AllDigits (suc n) n [] tt

-- what the digits `s` make of a number read so far
digits_step :
    (acc d : ℕ) (s : Str)
    → d < 10
    → parse_digits acc ((b'0' + d) ∷ s) ≡ parse_digits (acc * 10 + d) s
unfolding parse_digits
digits_step acc d s h =
    ground (arith, digit_lem d h, ap (λ (i : ℕ). parse_digits (acc * 10 + i) s) (minus d))
  where
    minus : (d : ℕ) → b'0' + d - b'0' ≡ d
    minus d = omega arith

digits_before_parsed :
    (fuel n : ℕ) (s : Str) → n < fuel → parse_digits 0 (digits_before fuel n s) ≡ parse_digits n s
unfolding digits_before
digits_before_parsed zero n s h = absurd (omega arith)
digits_before_parsed (suc fuel) n s h =
    let step = digits_before_parsed fuel (n / 10) ((b'0' + n % 10) ∷ s) in
    let last = digits_step (n / 10) (n % 10) s (omega arith) in
    let whole : n / 10 * 10 + n % 10 ≡ n = omega arith in
    let zero_n : 0 * 10 + n ≡ n = omega arith in
    ground (
      arith,
      step,
      last,
      ap (λ (i : ℕ). parse_digits i s) whole,
      ap (λ (i : ℕ). parse_digits i s) zero_n,
      digits_step 0 n s,
    )

below_ten : (n : ℕ) → ltb n 10 ≡ true → n < 10
below_ten n h = ground arith

digits_before_suffix :
    (fuel n : ℕ) (s : Str)
    → (d : ℕ) × (t : Str) × (digits_before (suc fuel) n s ≡ d ∷ t) × (is_digit d ≡ true)
unfolding digits_before
digits_before_suffix zero n s = elim (Bool-cases (ltb n 10)) [
  | inl h ↦ (b'0' + n, s, ground arith, digit_lem n (below_ten n h))
  | inr h ↦ (b'0' + n % 10, s, ground arith, digit_lem (n % 10) (omega arith))
]
digits_before_suffix (suc fuel) n s = elim (Bool-cases (ltb n 10)) [
  | inl h ↦ (b'0' + n, s, ground arith, digit_lem n (below_ten n h))
  | inr h ↦
      let (d, t, e, k) = digits_before_suffix fuel (n / 10) ((b'0' + n % 10) ∷ s) in
      (d, t, ground arith, k)
]

-- The digits of a number are not empty.
pub decimal-cons : (n : ℕ) → (d : ℕ) × (t : Str) × (decimal n ≡ d ∷ t) × (is_digit d ≡ true)
unfolding decimal
decimal-cons n = digits_before_suffix n n []

skip_plus-digit : (d : ℕ) (t : Str) → is_digit d ≡ true → skip_plus (d ∷ t) ≡ d ∷ t
skip_plus-digit d t h = ground arith

pub parse_digits-decimal : (n : ℕ) → parse_digits 0 (decimal n) ≡ some n
unfolding decimal parse_digits
parse_digits-decimal n = digits_before_parsed (suc n) n [] (omega arith)

parse_unsigned-cons : (d : ℕ) (t : Str) → parse_unsigned (d ∷ t) ≡ parse_digits 0 (d ∷ t)
unfolding parse_unsigned
parse_unsigned-cons d t = refl

-- A number that is printed and parsed is the number.
pub parse_u64-decimal : (n : ℕ) → n < 2 ^ 64 → parse_u64 (decimal n) ≡ some n
unfolding parse_u64
parse_u64-decimal n h =
    let (d, t, e, k) = decimal-cons n in
    let back = parse_digits-decimal n in
    ap parse_u64 e
    ∙ ground (arith, skip_plus-digit d t k, parse_unsigned-cons d t, ap (parse_digits 0) e, back)
