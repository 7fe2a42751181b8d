-- ===== src/Json/Diff/Keys.antt =====
-- The loops over two objects of `walk` of crates/gabriel-core/src/diff.rs.
use gabrielbrowser.Base.{
  true, Option, none, some, List, [], ◌∷◌, ◌++◌, Str, str_eq, if◌then◌else◌, ◌≡◌, refl, ap, ◌∙◌,
  ◌⊎◌, inl, inr, arith, is_some, str_eq_refl, Option-cases,
}
use gabrielbrowser.Json.{Json, Props, JsonOps, end, prop, get_prop}
use gabrielbrowser.Json.Order.{
  IsAbove, str_lt_asym, str_eq_sym, get_prop-cons, get_prop-skip, get_prop-above,
}
use gabrielbrowser.Json.Diff.{Change, walk, walk_props, added_props, join, removed_at, added_at}

pub both_empty : (xs ys : List Change) → xs ++ ys ≡ [] → (xs ≡ []) × (ys ≡ [])
both_empty [] ys h = (refl, h)
both_empty (x ∷ xs) ys h = cc

module _ {N F : Type 0} (ops : JsonOps N F) where
  -- A smaller key of the later object is not looked at.
  walk_props-skip :
      (path j : Str) (w : Json N) (a b : Props N)
      → IsAbove j a
      → walk_props ops path a (prop j w b) ≡ walk_props ops path a b
  unfolding walk
  walk_props-skip path j w end b _ = refl
  walk_props-skip path j w (prop k v a) b (h, hs) =
      ap
        (λ (o : Option (Json N)). elim o [
          | some x ↦ walk ops (join path k) v x ++ walk_props ops path a (prop j w b)
          | none ↦ removed_at ops (join path k) v ∷ walk_props ops path a (prop j w b)
        ])
        (get_prop-skip k j w b h)
      ∙ ap
          (λ (l : List Change). elim (get_prop k b) [
            | some x ↦ walk ops (join path k) v x ++ l
            | none ↦ removed_at ops (join path k) v ∷ l
          ])
          (walk_props-skip path j w a b hs)

  -- Nor a smaller key of the earlier one.
  added_props-skip :
      (path k : Str) (v : Json N) (a b : Props N)
      → IsAbove k b
      → added_props ops path (prop k v a) b ≡ added_props ops path a b
  unfolding added_props
  added_props-skip path k v a end _ = refl
  added_props-skip path k v a (prop j w b) (h, hs) =
      ground (arith, get_prop-skip j k v a h, added_props-skip path k v a b hs)

  pub walk_props-found :
      (path k : Str) (v x : Json N) (a b : Props N)
      → get_prop k b ≡ some x
      → walk_props ops path (prop k v a) b ≡ walk ops (join path k) v x ++ walk_props ops path a b
  unfolding walk
  walk_props-found path k v x a b h =
      ap
        (λ (o : Option (Json N)). elim o [
          | some x ↦ walk ops (join path k) v x ++ walk_props ops path a b
          | none ↦ removed_at ops (join path k) v ∷ walk_props ops path a b
        ])
        h

  pub walk_props-lost :
      (path k : Str) (v : Json N) (a b : Props N)
      → get_prop k b ≡ none
      → walk_props ops path (prop k v a) b
        ≡ removed_at ops (join path k) v ∷ walk_props ops path a b
  unfolding walk
  walk_props-lost path k v a b h =
      ap
        (λ (o : Option (Json N)). elim o [
          | some x ↦ walk ops (join path k) v x ++ walk_props ops path a b
          | none ↦ removed_at ops (join path k) v ∷ walk_props ops path a b
        ])
        h

  pub added_props-cons :
      (path j : Str) (w : Json N) (a b : Props N)
      → added_props ops path a (prop j w b) ≡ (
          if is_some (get_prop j a)
          then added_props ops path a b
          else added_at ops (join path j) w ∷ added_props ops path a b)
  unfolding added_props
  added_props-cons path j w a b = refl

  -- Two objects with the same first key.
  pub same_key :
      (path k : Str) (v w : Json N) (a b : Props N)
      → IsAbove k a
      → walk_props ops path (prop k v a) (prop k w b)
        ≡ walk ops (join path k) v w ++ walk_props ops path a b
  same_key path k v w a b h =
      walk_props-found path k v w a (prop k w b)
        (ground (arith, get_prop-cons k k w b, str_eq_refl k))
      ∙ ap (λ (l : List Change). walk ops (join path k) v w ++ l) (walk_props-skip path k w a b h)

  pub same_key_added :
      (path k : Str) (v w : Json N) (a b : Props N)
      → IsAbove k b
      → added_props ops path (prop k v a) (prop k w b) ≡ added_props ops path a b
  same_key_added path k v w a b h = ground (
    arith,
    added_props-cons path k w (prop k v a) b,
    get_prop-cons k k v a,
    str_eq_refl k,
    added_props-skip path k v a b h,
  )

  -- Objects without a change between them have the same first key.
  pub first_keys :
      (path k j : Str) (v w : Json N) (a b : Props N)
      → IsAbove k a
      → IsAbove j b
      → walk_props ops path (prop k v a) (prop j w b) ≡ []
      → added_props ops path (prop k v a) (prop j w b) ≡ []
      → str_eq k j ≡ true
  first_keys path k j v w a b ha hb hw hd = ground (
    arith,
    found (Option-cases (get_prop k (prop j w b))),
    added_props-cons path j w (prop k v a) b,
    get_prop-cons k j w b,
    get_prop-cons j k v a,
    str_eq_sym k j,
    get_prop-above k j b hb,
    get_prop-above j k a ha,
    str_lt_asym j k,
  )
    where
      found :
          (get_prop k (prop j w b) ≡ none) ⊎ ((x : Json N) × (get_prop k (prop j w b) ≡ some x))
          → is_some (get_prop k (prop j w b)) ≡ true
      found (inl e) = let h = walk_props-lost path k v a (prop j w b) e in cc
      found (inr (x, e)) = rw e refl
