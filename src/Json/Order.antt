-- ===== src/Json/Order.antt =====
-- Objects whose keys are in order, as the maps of `serde_json` keep them, crates/gabriel-core/src.
use gabrielbrowser.Base.{
  Bool, true, false, some, [], ◌∷◌, Str, str_eq, if◌then◌else◌, ◌≡◌, refl, arith, str_eq_sound,
  is_some,
}
use gabrielbrowser.Base.Map.{str_lt}
use gabrielbrowser.Json.{Json, Elems, Props, array, object, nil, cons, end, prop, get_prop}

module _ {N : Type 0} where
  abbrev pub IsAbove : Str → Props N → Type 0
  IsAbove k end = Unit
  IsAbove k (prop j w ps) = (str_lt k j ≡ true) × IsAbove k ps

  abbrev mutual
    pub IsOrdered : Json N → Type 0
    IsOrdered (array vs) = AllOrdered vs
    IsOrdered (object ps) = IsOrderedProps ps
    IsOrdered _ = Unit

    pub AllOrdered : Elems N → Type 0
    AllOrdered nil = Unit
    AllOrdered (cons v vs) = IsOrdered v × AllOrdered vs

    pub IsOrderedProps : Props N → Type 0
    IsOrderedProps end = Unit
    IsOrderedProps (prop k v ps) = IsAbove k ps × (IsOrdered v × IsOrderedProps ps)

pub str_lt_irrefl : (s : Str) → str_lt s s ≡ false
unfolding str_lt
str_lt_irrefl [] = refl
str_lt_irrefl (a ∷ s) = ground (arith, str_lt_irrefl s)

pub str_lt_asym : (s t : Str) → str_lt s t ≡ true → str_lt t s ≡ false
unfolding str_lt
str_lt_asym [] [] h = cc
str_lt_asym [] (b ∷ t) h = refl
str_lt_asym (a ∷ s) [] h = cc
str_lt_asym (a ∷ s) (b ∷ t) h = ground (arith, str_lt_asym s t)

pub str_lt_apart : (s t : Str) → str_lt s t ≡ true → str_eq s t ≡ false
str_lt_apart s t h =
    elim (str_eq s t) as (λ b. str_eq s t ≡ b → b ≡ false) [
      | false ↦ λ _. refl
      | true ↦ λ e. absurd (different (str_eq_sound s t e))
    ]
      refl
  where
    different : s ≡ t → ⊥
    different e = let self = str_lt_irrefl t in cc

pub str_eq_sym : (s t : Str) → str_eq s t ≡ str_eq t s
unfolding str_eq
str_eq_sym [] [] = refl
str_eq_sym [] (b ∷ t) = refl
str_eq_sym (a ∷ s) [] = refl
str_eq_sym (a ∷ s) (b ∷ t) = ground (arith, str_eq_sym s t)

module _ {N : Type 0} where
  pub get_prop-cons :
      (k j : Str) (w : Json N) (ps : Props N)
      → get_prop k (prop j w ps) ≡ (if str_eq j k then some w else get_prop k ps)
  unfolding get_prop
  get_prop-cons k j w ps = refl

  pub get_prop-skip :
      (k j : Str) (w : Json N) (ps : Props N)
      → str_lt j k ≡ true
      → get_prop k (prop j w ps) ≡ get_prop k ps
  get_prop-skip k j w ps h = ground (arith, get_prop-cons k j w ps, str_lt_apart j k h)

  -- A key that an object of larger keys has is larger itself.
  pub get_prop-above :
      (k j : Str) (ps : Props N) → IsAbove j ps → is_some (get_prop k ps) ≡ true → str_lt j k ≡ true
  get_prop-above k j end _ h = unfold get_prop in cc
  get_prop-above k j (prop i v ps) (h, hs) e =
      ground (arith, get_prop-cons k i v ps, get_prop-above k j ps hs, same (str_eq i k) refl)
    where
      same : (b : Bool) → str_eq i k ≡ b → b ≡ true → str_lt j k ≡ true
      same false eq k = cc
      same true eq _ = let e = str_eq_sound i k eq in cc
