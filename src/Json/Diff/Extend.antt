-- ===== src/Json/Diff/Extend.antt =====
-- How a path of a diff grows by a segment, crates/gabriel-core/src/diff.rs.
use gabrielbrowser.Base.{
  ℕ, ◌<◌, ◌^◌, Option, none, some, List, [], ◌∷◌, ◌++◌, Str, ◌≡◌, refl, sym, ap, ◌∙◌, arith,
  is_some, str_eq_refl, All, All-append, some_inj,
}
use gabrielbrowser.Base.Decimal.{decimal}
use gabrielbrowser.Json.{
  Json, Elems, Props, array, object, nil, cons, end, prop, get_prop, elems_len,
}
use gabrielbrowser.Json.Order.{IsAbove, get_prop-cons, get_prop-skip, get_prop-above}
use gabrielbrowser.Json.Select
use gabrielbrowser.Json.Select.{Segment, key, index, PathError, select, parse, step}
use gabrielbrowser.Json.Select.Loop.{IsPlainKey, IsPlain, extend, print_from, print_from-rest}
use gabrielbrowser.Json.Diff.{join, at_index, root_path}

module _ {N : Type 0} where
  -- All keys are plain, and all arrays shorter than 2^64.
  abbrev mutual
    pub IsPlainDoc : Json N → Type 0
    IsPlainDoc (array vs) = (elems_len vs < 2 ^ 64) × AllPlain vs
    IsPlainDoc (object ps) = IsPlainProps ps
    IsPlainDoc _ = Unit

    pub AllPlain : Elems N → Type 0
    AllPlain nil = Unit
    AllPlain (cons v vs) = IsPlainDoc v × AllPlain vs

    pub IsPlainProps : Props N → Type 0
    IsPlainProps end = Unit
    IsPlainProps (prop k v ps) = IsPlainKey k × (IsPlainDoc v × IsPlainProps ps)

  pub walk-snoc :
      (segments : List Segment) (s : Segment) (root v : Json N)
      → Select.walk segments root ≡ some v
      → Select.walk (segments ++ s ∷ []) root ≡ step s v
  unfolding Select.walk
  walk-snoc [] s root v h = only (step s root) ∙ ap (step s) (some_inj h)
    where
      only : (o : Option (Json N)) → (elim o [ some x ↦ some x | none ↦ none ]) ≡ o
      only none = refl
      only (some x) = refl
  walk-snoc (t ∷ segments) s root v h = later (step t root) (walk-snoc segments s) h
    where
      later :
          (o : Option (Json N))
          → ((root v : Json N)
              → Select.walk segments root ≡ some v
              → Select.walk (segments ++ s ∷ []) root ≡ step s v)
          → (elim o [ some x ↦ Select.walk segments x | none ↦ none ]) ≡ some v
          → (elim o [ some x ↦ Select.walk (segments ++ s ∷ []) x | none ↦ none ]) ≡ step s v
      later none ih h = cc
      later (some x) ih h = ih x v h

  -- The object has what its tail `c` has.
  abbrev pub Finds : Props N → Props N → Type 0
  Finds b c = (k : Str) (w : Json N) → get_prop k c ≡ some w → get_prop k b ≡ some w

  pub Finds-first :
      (b c : Props N) (k : Str) (w : Json N) → Finds b (prop k w c) → get_prop k b ≡ some w
  Finds-first b c k w finds = finds k w (ground (arith, get_prop-cons k k w c, str_eq_refl k))

  pub Finds-rest :
      (b c : Props N) (k : Str) (w : Json N) → IsAbove k c → Finds b (prop k w c) → Finds b c
  Finds-rest b c k w above finds j x e =
      let larger = get_prop-above j k c above (ap is_some e) in
      finds j x (get_prop-skip j k w c larger ∙ e)

pub join-extend : (p k : Str) → join p k ≡ extend p (key k)
unfolding join
join-extend [] k = refl
join-extend (c ∷ p) k = refl

pub at_index-extend : (p : Str) (i : ℕ) → at_index p i ≡ extend p (index i)
at_index-extend [] i = refl
at_index-extend (c ∷ p) i = refl

pub print_from-snoc :
    (p : Str) (segments : List Segment) (s : Segment)
    → print_from p (segments ++ s ∷ []) ≡ extend (print_from p segments) s
unfolding print_from
print_from-snoc p [] s = refl
print_from-snoc p (t ∷ segments) s = print_from-snoc (extend p t) segments s

pub IsPlain-snoc :
    (segments : List Segment) (s : Segment)
    → All IsPlain segments
    → IsPlain s
    → All IsPlain (segments ++ s ∷ [])
IsPlain-snoc segments s h k = All-append IsPlain segments (s ∷ []) h (k, tt)

root_path-rest :
    (c : ℕ) (p : Str) (segments : List Segment)
    → root_path (print_from (c ∷ p) segments) ≡ print_from (c ∷ p) segments
root_path-rest c p segments = let e = print_from-rest c p segments in ap root_path e ∙ sym e

pub root_path-print :
    (s : Segment) (segments : List Segment)
    → All IsPlain (s ∷ segments)
    → root_path (print_from [] (s ∷ segments)) ≡ print_from [] (s ∷ segments)
unfolding print_from
root_path-print (key []) segments ((h, _), _) = cc
root_path-print (key (c ∷ k)) segments h = root_path-rest c k segments
root_path-print (index i) segments h = root_path-rest b'[' (decimal i ++ b']' ∷ []) segments
