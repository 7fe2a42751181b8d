-- ===== src/Base/Int.antt =====
-- Signed integers over the native numbers, for the `i64` of the source, with the division and the
-- remainder of Rust, which round towards zero, and the wrap-around of a release build.
use Prim.Native.Nat.{ℕ, suc, ◌+◌, ◌-◌, ◌*◌, ◌/◌, ◌%◌, ◌^◌, ◌≤◌, ◌<◌}
use mathlib.Core.Path.{◌≡◌}
use mathlib.Core.Bool.{Bool}
use mathlib.Core.Option.{Option, none, some}
use mathlib.Core.List.{[], ◌∷◌}
use native.Mathlib.Omega.{arith}
use gabrielbrowser.Base.Tests.{ltb, leb, if◌then◌else◌, ◌==◌, ◌>>=◌}
use gabrielbrowser.Base.Bytes.{Str}
use gabrielbrowser.Base.Text.{parse_unsigned}

-- `negsuc n` is -(n + 1).
pub data ℤ : Type 0 where
  pos : ℕ → ℤ
  negsuc : ℕ → ℤ

abbrev pub pos_part : ℤ → ℕ
pos_part (pos n) = n
pos_part (negsuc n) = 0

abbrev pub neg_part : ℤ → ℕ
neg_part (pos n) = 0
neg_part (negsuc n) = suc n

-- a - b, as an integer.
abbrev pub sub_ℕ : ℕ → ℕ → ℤ
sub_ℕ a b = if leb b a then pos (a - b) else negsuc (b - a - 1)

infixl 65 ◌+ℤ◌ ◌-ℤ◌
infixl 70 ◌*ℤ◌ ◌/ℤ◌ ◌%ℤ◌
infix 50 ◌≤ℤ◌
unfoldable pub ◌+ℤ◌ : ℤ → ℤ → ℤ
a +ℤ b = sub_ℕ (pos_part a + pos_part b) (neg_part a + neg_part b)

unfoldable pub ◌-ℤ◌ : ℤ → ℤ → ℤ
a -ℤ b = sub_ℕ (pos_part a + neg_part b) (neg_part a + pos_part b)

unfoldable pub ◌*ℤ◌ : ℤ → ℤ → ℤ
a *ℤ b =
    sub_ℕ (pos_part a * pos_part b + neg_part a * neg_part b)
      (pos_part a * neg_part b + neg_part a * pos_part b)

abbrev pub ◌≤ℤ◌ : ℤ → ℤ → Type 0
a ≤ℤ b = pos_part a + neg_part b ≤ pos_part b + neg_part a

abbrev pub ltb_ℤ : ℤ → ℤ → Bool
ltb_ℤ a b = ltb (pos_part a + neg_part b) (pos_part b + neg_part a)

abbrev pub leb_ℤ : ℤ → ℤ → Bool
leb_ℤ a b = leb (pos_part a + neg_part b) (pos_part b + neg_part a)

-- By a positive number, rounding towards zero.
unfoldable pub ◌/ℤ◌ : ℤ → ℕ → ℤ
a /ℤ n = sub_ℕ (pos_part a / n) (neg_part a / n)

unfoldable pub ◌%ℤ◌ : ℤ → ℕ → ℤ
a %ℤ n = sub_ℕ (pos_part a % n) (neg_part a % n)

abbrev pub half_range : ℕ
half_range = 2 ^ 63

abbrev pub range : ℕ
range = 2 ^ 64

-- The `i64` with the low 64 bits of an integer.
unfoldable pub wrap_i64 : ℤ → ℤ
wrap_i64 a =
    let r = (pos_part a % range + (range - neg_part a % range)) % range in
    if ltb r half_range then pos r else negsuc (range - r - 1)

-- `n as i64` of a `u64`, and `a as u64` of an `i64`
unfoldable pub as_i64 : ℕ → ℤ
unfolding wrap_i64
as_i64 n = wrap_i64 (pos n)

-- Within the range of `i64` nothing wraps.
pub wrap_i64_id : (a : ℤ) → pos_part a < half_range → neg_part a ≤ half_range → wrap_i64 a ≡ a
unfolding wrap_i64
wrap_i64_id (pos n) h k = ground arith
wrap_i64_id (negsuc n) h k = ground arith

-- `a.max(0) as u64`
abbrev pub clamp_zero : ℤ → ℕ
clamp_zero a = pos_part a

-- `str::parse::<i64>`
unfoldable pub parse_i64 : Str → Option ℤ
unfolding parse_unsigned
parse_i64 [] = none
parse_i64 (c ∷ s) =
    if c == b'-'
    then (do n ← parse_unsigned s; if leb n half_range then some (sub_ℕ 0 n) else none)
    else (do
      n ← parse_unsigned (if c == b'+' then s else c ∷ s)
      if ltb n half_range then some (pos n) else none)

pub +ℤ_parts :
    (a b : ℤ)
    → pos_part (a +ℤ b) + neg_part a + neg_part b ≡ neg_part (a +ℤ b) + pos_part a + pos_part b
unfolding ◌+ℤ◌
+ℤ_parts a b = ground arith

pub -ℤ_parts :
    (a b : ℤ)
    → pos_part (a -ℤ b) + neg_part a + pos_part b ≡ neg_part (a -ℤ b) + pos_part a + neg_part b
unfolding ◌-ℤ◌
-ℤ_parts a b = ground arith

pub eq_of_parts : (a b : ℤ) → pos_part a + neg_part b ≡ pos_part b + neg_part a → a ≡ b
eq_of_parts a b h = ground arith

pub ruleset int_laws = (arith, +ℤ_parts, -ℤ_parts, eq_of_parts)
