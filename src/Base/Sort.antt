-- ===== src/Base/Sort.antt =====
-- `slice::sort_by_key` and `sort_by`: a stable sort. No file of the repository.
use gabrielbrowser.Base.Tests.{if◌then◌else◌, ltb, ◌==◌}
use gabrielbrowser.Base.Lists.{All, length, filter}
use Prim.Native.Nat.{ℕ, suc, ◌≤◌}
use mathlib.Core.Path.{◌≡◌, refl}
use mathlib.Core.Bool.{Bool}
use mathlib.Core.List.{List, [], ◌∷◌}
use native.Mathlib.Omega.{arith}

module _ {ℓ} {A : Type ℓ} (before : A → A → Bool) where
  -- In front of the first member that need not stand before `x`.
  abbrev pub place : A → List A → List A
  place x [] = x ∷ []
  place x (y ∷ ys) = let rest = place x ys in if before y x then y ∷ rest else x ∷ (y ∷ ys)

  -- `before y x` says that `y` must stand before a member `x` that came earlier.
  abbrev pub stable_sort : List A → List A
  stable_sort [] = []
  stable_sort (x ∷ xs) = place x (stable_sort xs)

  module _ {κ} (P : A → Type κ) where
    All-place : (x : A) (ys : List A) → P x → All P ys → All P (place x ys)
    All-place x [] p h = (p, tt)
    All-place x (y ∷ ys) p (q, h) = ground (arith, All-place x ys p h)

    pub All-stable_sort : (xs : List A) → All P xs → All P (stable_sort xs)
    All-stable_sort [] h = tt
    All-stable_sort (x ∷ xs) (p, h) = All-place x (stable_sort xs) p (All-stable_sort xs h)

  length-place : (x : A) (ys : List A) → length (place x ys) ≡ suc (length ys)
  length-place x [] = refl
  length-place x (y ∷ ys) = ground (arith, length-place x ys)

  pub length-stable_sort : (xs : List A) → length (stable_sort xs) ≡ length xs
  length-stable_sort [] = refl
  length-stable_sort (x ∷ xs) =
      omega (arith, length-place x (stable_sort xs), length-stable_sort xs)

-- No member stands behind one that its key should follow.
module _ {ℓ} {A : Type ℓ} (key : A → ℕ) where
  abbrev pub longest_first : A → A → Bool
  longest_first y x = ltb (key x) (key y)

  abbrev pub IsDescending : List A → Type 0
  IsDescending [] = Unit
  IsDescending (x ∷ xs) = All (λ y. key y ≤ key x) xs × IsDescending xs

  All-le_trans : (m n : ℕ) (xs : List A) → m ≤ n → All (λ y. key y ≤ m) xs → All (λ y. key y ≤ n) xs
  All-le_trans m n [] h _ = tt
  All-le_trans m n (x ∷ xs) h (p, ps) = (omega arith, All-le_trans m n xs h ps)

  place-IsDescending :
      (x : A) (ys : List A) → IsDescending ys → IsDescending (place longest_first x ys)
  place-IsDescending x [] h = (tt, tt)
  place-IsDescending x (y ∷ ys) (top, h) = ground (
    arith,
    place-IsDescending x ys h,
    All-place longest_first (λ z. key z ≤ key y) x ys,
    All-le_trans (key y) (key x) ys,
    top,
  )

  pub stable_sort-IsDescending : (xs : List A) → IsDescending (stable_sort longest_first xs)
  stable_sort-IsDescending [] = tt
  stable_sort-IsDescending (x ∷ xs) =
      place-IsDescending x (stable_sort longest_first xs) (stable_sort-IsDescending xs)

  abbrev has_key : ℕ → A → Bool
  has_key n x = key x == n

  place_stable :
      (n : ℕ) (x : A) (ys : List A)
      → filter (has_key n) (place longest_first x ys) ≡ filter (has_key n) (x ∷ ys)
  place_stable n x [] = refl
  place_stable n x (y ∷ ys) = ground (arith, place_stable n x ys)

  -- The members with one key stay in their order: with the order of the keys this determines the
  -- sorted list.
  pub stable_sort_stable :
      (n : ℕ) (xs : List A)
      → filter (has_key n) (stable_sort longest_first xs) ≡ filter (has_key n) xs
  stable_sort_stable n [] = refl
  stable_sort_stable n (x ∷ xs) =
      ground (arith, place_stable n x (stable_sort longest_first xs), stable_sort_stable n xs)
