-- ===== src/Json/Diff/Placed.antt =====
-- Every change that `diff_json` of crates/gabriel-core/src/diff.rs reports is at its path.
use gabrielbrowser.Base.{
  ℕ, zero, suc, ◌+◌, ◌<◌, ◌^◌, Option, none, some, List, [], ◌∷◌, ◌++◌, Str, ◌≡◌, refl, sym, ap,
  ◌∙◌, subst, inl, inr, arith, Option-cases, All, match_if, str_eq,
}
use gabrielbrowser.Json.{
  Json, Elems, Props, JsonOps, null, bool, number, string, array, object, nil, cons, end, prop,
  get_prop, get_elem, elems_len,
}
use gabrielbrowser.Json.Elements.{drop_elems, first_elem, rest_elems, get_elem-drop, drop_elems-suc}
use gabrielbrowser.Json.Order.{IsOrdered, AllOrdered, IsOrderedProps}
use gabrielbrowser.Json.Select
use gabrielbrowser.Json.Select.{Segment, key, index, step}
use gabrielbrowser.Json.Select.Loop.{IsPlain, print_from, extend}
use gabrielbrowser.Json.Diff.{
  Change, walk, walk_props, walk_elems, added_props, added_elems, join, at_index, diff_json,
}
use gabrielbrowser.Json.Diff.Keys.{walk_props-found, walk_props-lost}
use gabrielbrowser.Json.Diff.Empty.{walk_elems-found, walk_elems-lost}
use gabrielbrowser.Json.Diff.Extend.{
  IsPlainDoc, AllPlain, IsPlainProps, Finds, Finds-first, Finds-rest, walk-snoc, join-extend,
  at_index-extend, print_from-snoc, IsPlain-snoc,
}
use gabrielbrowser.Json.Diff.Places.{
  IsPlaced, Placed, Selects-snoc, Placed-added_props, Placed-added_elems, Placed-leaf,
  Placed-append,
}

module _ {N : Type 0} where
  -- What a plain, ordered document holds is plain and ordered.
  abbrev IsGood : Option (Json N) → Type 0
  IsGood none = Unit
  IsGood (some v) = IsPlainDoc v × IsOrdered v

  prop-IsGood : (k : Str) (b : Props N) → IsPlainProps b → IsOrderedProps b → IsGood (get_prop k b)
  unfolding get_prop
  prop-IsGood k end p o = tt
  prop-IsGood k (prop j v b) (hk, (hv, hb)) (above, (ov, ob)) =
      let later = prop-IsGood k b hb ob in match_if IsGood (str_eq j k) (λ _. (hv, ov)) (λ _. later)

  elem-IsGood : (i : ℕ) (b : Elems N) → AllPlain b → AllOrdered b → IsGood (get_elem i b)
  unfolding get_elem
  elem-IsGood i nil p o = tt
  elem-IsGood zero (cons v b) (hv, hb) (ov, ob) = (hv, ov)
  elem-IsGood (suc i) (cons v b) (hv, hb) (ov, ob) = elem-IsGood i b hb ob

module _ {N F : Type 0} (ops : JsonOps N F) (before after : Json N) where
  -- the two documents at a path
  abbrev Meets : List Segment → Json N → Json N → Type 0
  Meets segments a b =
      All IsPlain segments
      × ((Select.walk segments before ≡ some a)
          × ((Select.walk segments after ≡ some b)
              × ((IsPlainDoc a × IsOrdered a) × (IsPlainDoc b × IsOrdered b))))

  abbrev AllPlaced : List Change → Type 0
  AllPlaced = Placed ops before after

  -- The walk one segment further.
  abbrev PlacedAt : List Segment → Json N → Json N → Type 0
  PlacedAt segments a b = Meets segments a b → AllPlaced (walk ops (print_from [] segments) a b)

  further :
      (segments : List Segment) (s : Segment) (p : Str) (a b v w : Json N)
      → PlacedAt (segments ++ s ∷ []) v w
      → p ≡ extend (print_from [] segments) s
      → All IsPlain segments
      → IsPlain s
      → Select.walk segments before ≡ some a
      → Select.walk segments after ≡ some b
      → step s a ≡ some v
      → step s b ≡ some w
      → IsPlainDoc v × IsOrdered v
      → IsPlainDoc w × IsOrdered w
      → AllPlaced (walk ops p v w)
  further segments s p a b v w placed e hs h ha hb ea eb gv gw =
      let place : print_from [] (segments ++ s ∷ []) ≡ p = print_from-snoc [] segments s ∙ sym e in
      subst (λ q. AllPlaced (walk ops q v w)) place
        (placed (
          IsPlain-snoc segments s hs h,
          (walk-snoc segments s before a ha ∙ ea, (walk-snoc segments s after b hb ∙ eb, (gv, gw))),
        ))

  mutual
    unfolding walk

    placed_walk : (segments : List Segment) (a b : Json N) → PlacedAt segments a b
    placed_walk segments (object a) (object b) (hs, (ha, (hb, ((pa, oa), (pb, ob))))) =
        Placed-append ops before after (walk_props ops (print_from [] segments) a b)
          (added_props ops (print_from [] segments) a b)
          (placed_props segments a a b hs ha hb (λ k w e. e) pa oa pb ob)
          (Placed-added_props ops before after segments a b b hs hb (λ k w e. e) pb ob)
    placed_walk segments (array a) (array b) (hs, (ha, (hb, (((la, pa), oa), ((lb, pb), ob))))) =
        Placed-append ops before after (walk_elems ops (print_from [] segments) 0 a b)
          (added_elems ops (print_from [] segments) 0 (elems_len a) b)
          (placed_elems segments 0 a a b hs ha hb refl (omega (arith, la)) pa oa pb ob)
          (Placed-added_elems ops before after segments 0 (elems_len a) b b hs hb refl
            (omega (arith, lb)))
    placed_walk segments null b (hs, (ha, (hb, _))) =
        Placed-leaf ops before after segments null b hs ha hb
    placed_walk segments (bool x) b (hs, (ha, (hb, _))) =
        Placed-leaf ops before after segments (bool x) b hs ha hb
    placed_walk segments (number x) b (hs, (ha, (hb, _))) =
        Placed-leaf ops before after segments (number x) b hs ha hb
    placed_walk segments (string x) b (hs, (ha, (hb, _))) =
        Placed-leaf ops before after segments (string x) b hs ha hb
    placed_walk segments (array a) b (hs, (ha, (hb, _))) =
        Placed-leaf ops before after segments (array a) b hs ha hb
    placed_walk segments (object a) b (hs, (ha, (hb, _))) =
        Placed-leaf ops before after segments (object a) b hs ha hb

    placed_props :
        (segments : List Segment) (whole a b : Props N)
        → All IsPlain segments
        → Select.walk segments before ≡ some (object whole)
        → Select.walk segments after ≡ some (object b)
        → Finds whole a
        → IsPlainProps a
        → IsOrderedProps a
        → IsPlainProps b
        → IsOrderedProps b
        → AllPlaced (walk_props ops (print_from [] segments) a b)
    placed_props segments whole end b hs ha hb finds pa oa pb ob = tt
    placed_props segments whole (prop k v a) b hs ha hb finds (hk, (hv, pa)) (above, (ov, oa)) pb
          ob =
        let p : Str = print_from [] segments in
        let first = Finds-first whole a k v finds in
        let later =
          placed_props segments whole a b hs ha hb (Finds-rest whole a k v above finds) pa oa pb
            ob in
        elim (Option-cases (get_prop k b)) [
          | inl e ↦ subst AllPlaced (sym (walk_props-lost ops p k v a b e)) (
            inr (
                Selects-snoc ops segments (key k) (join p k) before (object whole) v hs hk
                  (join-extend p k) ha first),
            later,
          )
          | inr (w, e) ↦ subst AllPlaced (sym (walk_props-found ops p k v w a b e)) (
              Placed-append ops before after (walk ops (join p k) v w) (walk_props ops p a b)
                (further segments (key k) (join p k) (object whole) (object b) v w
                  (placed_walk (segments ++ key k ∷ []) v w) (join-extend p k) hs hk ha hb first e
                  (hv, ov) (subst IsGood e (prop-IsGood k b pb ob)))
                later)
        ]

    placed_elems :
        (segments : List Segment) (i : ℕ) (whole a b : Elems N)
        → All IsPlain segments
        → Select.walk segments before ≡ some (array whole)
        → Select.walk segments after ≡ some (array b)
        → drop_elems i whole ≡ a
        → i + elems_len a < 2 ^ 64
        → AllPlain a
        → AllOrdered a
        → AllPlain b
        → AllOrdered b
        → AllPlaced (walk_elems ops (print_from [] segments) i a b)
    placed_elems segments i whole nil b hs ha hb d h pa oa pb ob = tt
    placed_elems segments i whole (cons v a) b hs ha hb d h (hv, pa) (ov, oa) pb ob =
        let p : Str = print_from [] segments in
        let first = get_elem-drop i whole ∙ ap first_elem d in
        let bound : i < 2 ^ 64 = omega arith in
        let later =
          placed_elems segments (suc i) whole a b hs ha hb
            (drop_elems-suc i whole ∙ ap rest_elems d) (omega arith) pa oa pb ob in
        elim (Option-cases (get_elem i b)) [
          | inl e ↦ subst AllPlaced (sym (walk_elems-lost ops p i v a b e)) (
            inr (
                Selects-snoc ops segments (index i) (at_index p i) before (array whole) v hs bound
                  (at_index-extend p i) ha first),
            later,
          )
          | inr (w, e) ↦ subst AllPlaced (sym (walk_elems-found ops p i v w a b e)) (
              Placed-append ops before after (walk ops (at_index p i) v w)
                (walk_elems ops p (suc i) a b)
                (further segments (index i) (at_index p i) (array whole) (array b) v w
                  (placed_walk (segments ++ index i ∷ []) v w) (at_index-extend p i) hs bound ha hb
                  first e (hv, ov) (subst IsGood e (elem-IsGood i b pb ob)))
                later)
        ]

  -- Every change that is reported is at its path: `select` finds the text of what was removed, or
  -- stood there before, in the earlier document and the text of what was added, or stands there now,
  -- in the later one; or it is the change of the whole documents, at `$`. The keys of the documents'
  -- objects are in order and plain, and their arrays shorter than 2^64.
  pub diff_json-IsPlaced :
      IsPlainDoc before
      → IsOrdered before
      → IsPlainDoc after
      → IsOrdered after
      → All (IsPlaced ops before after) (diff_json ops before after)
  unfolding diff_json print_from Select.walk
  diff_json-IsPlaced pb ob pa oa =
      placed_walk [] before after (tt, (refl, (refl, ((pb, ob), (pa, oa)))))
