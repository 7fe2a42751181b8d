-- ===== src/Base/Map.antt =====
-- `BTreeMap<String, V>`: an association list in the order of its keys, which is the order of their
-- bytes. No file of the repository: it models what the source uses of the language's library.
use gabrielbrowser.Base.Tests.{if◌then◌else◌, ◌==◌, ltb}
use gabrielbrowser.Base.Bytes.{Str, str_eq, str_eq_iff, str_eq_refl}
use mathlib.Core.Path.{◌≡◌, refl}
use mathlib.Core.Bool.{Bool, true, false}
use mathlib.Core.Option.{Option, none, some}
use mathlib.Core.List.{List, [], ◌∷◌}
use native.Mathlib.Omega.{arith}

-- `a < b` on strings
unfoldable pub str_lt : Str → Str → Bool
str_lt s [] = false
str_lt [] (b ∷ t) = true
str_lt (a ∷ s) (b ∷ t) =
    let rest = str_lt s t in if ltb a b then true else if a == b then rest else false

abbrev pub Map {ℓ} : Type ℓ → Type ℓ
Map V = List (Str × V)

module _ {ℓ} {V : Type ℓ} where
  unfoldable pub lookup : Str → Map V → Option V
  unfolding str_eq
  lookup k [] = none
  lookup k ((j, v) ∷ m) = let rest = lookup k m in if str_eq j k then some v else rest

  unfoldable pub insert : Str → V → Map V → Map V
  unfolding str_eq str_lt
  insert k v [] = (k, v) ∷ []
  insert k v ((j, w) ∷ m) =
      let rest = insert k v m in
      if str_eq j k then (k, v) ∷ m else if str_lt k j then (k, v) ∷ ((j, w) ∷ m) else (j, w) ∷ rest

  unfoldable pub remove : Str → Map V → Map V
  unfolding str_eq
  remove k [] = []
  remove k ((j, w) ∷ m) = let rest = remove k m in if str_eq j k then rest else (j, w) ∷ rest

  -- `m.extend(more)`
  unfoldable pub extend : Map V → Map V → Map V
  unfolding insert
  extend m [] = m
  extend m ((k, v) ∷ more) = extend (insert k v m) more

module _ {ℓ} {V : Type ℓ} where
  abbrev insert_test : Bool → Bool → Str → V → Str → V → Map V → Map V → Map V
  insert_test same below k v j w m rest =
      if same then (k, v) ∷ m else if below then (k, v) ∷ ((j, w) ∷ m) else (j, w) ∷ rest

  insert-cons :
      (k j : Str) (v w : V) (m : Map V)
      → insert k v ((j, w) ∷ m) ≡ insert_test (str_eq j k) (str_lt k j) k v j w m (insert k v m)
  unfolding insert
  insert-cons k j v w m = refl

  lookup-cons :
      (k j : Str) (v : V) (m : Map V)
      → lookup k ((j, v) ∷ m) ≡ (if str_eq j k then some v else lookup k m)
  unfolding lookup
  lookup-cons k j v m = refl

  pub lookup-insert :
      (k j : Str) (v : V) (m : Map V)
      → lookup j (insert k v m) ≡ (if str_eq k j then some v else lookup j m)
  lookup-insert k j v [] = unfold insert lookup in refl
  lookup-insert k j v ((i, w) ∷ m) = rw insert-cons (
      ground (
        arith,
        lookup-cons j k v m,
        lookup-cons j k v ((i, w) ∷ m),
        lookup-cons j i w m,
        lookup-cons j i w (insert k v m),
        str_eq_iff i k,
        str_eq_iff k j,
        str_eq_iff i j,
        lookup-insert k j v m,
      ))

  pub lookup-insert_self : (k : Str) (v : V) (m : Map V) → lookup k (insert k v m) ≡ some v
  lookup-insert_self k v m = ground (arith, lookup-insert k k v m, str_eq_refl k)

  remove-cons :
      (k j : Str) (w : V) (m : Map V)
      → remove k ((j, w) ∷ m) ≡ (if str_eq j k then remove k m else (j, w) ∷ remove k m)
  unfolding remove
  remove-cons k j w m = refl

  pub lookup-remove :
      (k j : Str) (m : Map V) → lookup j (remove k m) ≡ (if str_eq k j then none else lookup j m)
  lookup-remove k j [] = unfold remove lookup in ground arith
  lookup-remove k j ((i, w) ∷ m) = rw remove-cons (
      ground (
        arith,
        lookup-cons j i w m,
        lookup-cons j i w (remove k m),
        str_eq_iff i k,
        str_eq_iff k j,
        str_eq_iff i j,
        lookup-remove k j m,
      ))
