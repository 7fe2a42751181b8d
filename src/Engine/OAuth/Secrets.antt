-- ===== src/Engine/OAuth/Secrets.antt =====
-- The comparison of states, `constant_time_eq` of crates/gabriel-engine/src/oauth.rs.
use gabrielbrowser.Base.{
  ℕ, zero, suc, ◌+◌, ◌*◌, ◌/◌, ◌%◌, ◌<◌, Bool, true, false, not, [], ◌∷◌, Str, if◌then◌else◌, ◌==◌,
  ==_iff, length, ◌≡◌, refl, sym, ap, ◌∙◌, ◌↔◌, arith, All, subst,
}
use gabrielbrowser.Engine.OAuth.{xor, or, or_bit, differences, constant_time_eq}

-- no more binary digits than `bits`
abbrev Fits : ℕ → ℕ → Type 0
Fits zero x = x ≡ 0
Fits (suc bits) x = Fits bits (x / 2)

abbrev pub IsByte : ℕ → Type 0
IsByte c = c < 256

IsByte-Fits : (c : ℕ) → IsByte c → Fits 8 c
IsByte-Fits c h = omega arith

xor_same : (bits x : ℕ) → xor bits x x ≡ 0
unfolding xor
xor_same zero x = refl
xor_same (suc bits) x = omega (arith, xor_same bits (x / 2))

xor_zero : (bits x y : ℕ) → Fits bits x → Fits bits y → xor bits x y ≡ 0 → x ≡ y
unfolding xor
xor_zero zero x y h k e = omega arith
xor_zero (suc bits) x y h k e =
    let half = xor_zero bits (x / 2) (y / 2) h k (omega arith) in omega arith

or_bit_zero : (x y : ℕ) → or_bit x y ≡ 0 → (x ≡ 0) × (y ≡ 0)
or_bit_zero zero y e = (refl, e)
or_bit_zero (suc x) y e = absurd (omega arith)

or_zero : (bits x y : ℕ) → Fits bits x → Fits bits y → or bits x y ≡ 0 → (x ≡ 0) × (y ≡ 0)
unfolding or
or_zero zero x y h k e = (h, k)
or_zero (suc bits) x y h k e =
    let (p, q) = or_bit_zero (x % 2) (y % 2) (omega arith) in
    let (a, b) = or_zero bits (x / 2) (y / 2) h k (omega arith) in (omega arith, omega arith)

or_bit-le : (x y : ℕ) → x < 2 → y < 2 → or_bit x y < 2
or_bit-le zero y h k = k
or_bit-le (suc x) y h k = omega arith

or-Fits : (bits x y : ℕ) → Fits bits (or bits x y)
unfolding or
or-Fits zero x y = refl
or-Fits (suc bits) x y =
    let small = or_bit-le (x % 2) (y % 2) (omega arith) (omega arith) in
    let half : (or_bit (x % 2) (y % 2) + 2 * or bits (x / 2) (y / 2)) / 2
        ≡ or bits (x / 2) (y / 2) =
      omega arith in
    subst (Fits bits) (sym half) (or-Fits bits (x / 2) (y / 2))

xor-Fits : (bits x y : ℕ) → Fits bits (xor bits x y)
unfolding xor
xor-Fits zero x y = refl
xor-Fits (suc bits) x y =
    let half : ((x % 2 + y % 2) % 2 + 2 * xor bits (x / 2) (y / 2)) / 2 ≡ xor bits (x / 2) (y / 2) =
      omega arith in
    subst (Fits bits) (sym half) (xor-Fits bits (x / 2) (y / 2))

differences_zero :
    (acc : ℕ) (a b : Str)
    → length a ≡ length b
    → Fits 8 acc
    → All IsByte a
    → All IsByte b
    → differences acc a b ≡ 0
    → (acc ≡ 0) × (a ≡ b)
unfolding differences
differences_zero acc [] [] e h ha hb d = (d, refl)
differences_zero acc [] (y ∷ b) e h ha hb d = absurd (omega arith)
differences_zero acc (x ∷ a) [] e h ha hb d = absurd (omega arith)
differences_zero acc (x ∷ a) (y ∷ b) e h (hx, ha) (hy, hb) d =
    let (first, rest) =
      differences_zero (or 8 acc (xor 8 x y)) a b (omega arith) (or-Fits 8 acc (xor 8 x y)) ha hb
        d in
    let (none_before, none_here) = or_zero 8 acc (xor 8 x y) h (xor-Fits 8 x y) first in
    let same = xor_zero 8 x y (IsByte-Fits x hx) (IsByte-Fits y hy) none_here in (none_before, cc)

differences_same : (acc : ℕ) (a : Str) → acc ≡ 0 → differences acc a a ≡ 0
unfolding differences
differences_same acc [] h = h
differences_same acc (x ∷ a) h =
    differences_same (or 8 acc (xor 8 x x)) a
      (ap (λ (n : ℕ). or 8 n (xor 8 x x)) h ∙ (ap (or 8 0) (xor_same 8 x) ∙ unfold or in refl))

-- The comparison that looks at all bytes decides whether two byte strings are equal.
pub constant_time_eq_iff :
    (a b : Str) → All IsByte a → All IsByte b → (constant_time_eq a b ≡ true) ↔ (a ≡ b)
unfolding constant_time_eq
constant_time_eq_iff a b ha hb = (to (length a == length b) refl, from)
  where
    to :
        (t : Bool)
        → (length a == length b) ≡ t
        → (if not t then false else differences 0 a b == 0) ≡ true
        → a ≡ b
    to false e h = cc
    to true e h =
        (differences_zero 0 a b ((==_iff (length a) (length b)).0 e) refl ha hb
          ((==_iff (differences 0 a b) 0).0 h)).1

    from : a ≡ b → (if not (length a == length b) then false else differences 0 a b == 0) ≡ true
    from e = rw e (ground (arith, (==_iff (length b) (length b)).1 refl, differences_same 0 b refl))
