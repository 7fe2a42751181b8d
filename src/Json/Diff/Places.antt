-- ===== src/Json/Diff/Places.antt =====
-- The paths that `diff_json` of crates/gabriel-core/src/diff.rs reports, read by `select` of
-- crates/gabriel-core/src/jsonpath.rs.
use gabrielbrowser.Base.{
  ℕ, zero, suc, ◌+◌, ◌<◌, ◌^◌, Option, some, List, [], ◌∷◌, ◌++◌, Str, codes, ◌≡◌, refl, sym, ap,
  ◌∙◌, ◌⊎◌, inl, inr, arith, is_some, All, All-append, match_if, some_inj,
}
use gabrielbrowser.Base.Results.{Result, ok, err}
use gabrielbrowser.Json.{
  Json, Elems, Props, JsonOps, array, object, nil, cons, end, prop, get_prop, elems_len, json_eq,
}
use gabrielbrowser.Json.Elements.{drop_elems, first_elem, rest_elems, get_elem-drop, drop_elems-suc}
use gabrielbrowser.Json.Order.{IsOrderedProps}
use gabrielbrowser.Json.Select
use gabrielbrowser.Json.Select.{Segment, key, index, PathError, select, parse, step}
use gabrielbrowser.Json.Select.Loop.{IsPlain, extend, print_from}
use gabrielbrowser.Json.Select.RoundTrip.{parse-print_from}
use gabrielbrowser.Json.Diff.{
  Change, ChangeKind, added, removed, changed, added_props, added_elems, leaf, join, at_index,
  render, changed_at, root_path,
}
use gabrielbrowser.Json.Diff.Extend.{
  IsPlainProps, walk-snoc, Finds, Finds-first, Finds-rest, join-extend, at_index-extend,
  print_from-snoc, IsPlain-snoc, root_path-print,
}

module _ {N F : Type 0} (ops : JsonOps N F) where
  -- What `select` finds at a path is printed as `text`.
  abbrev pub Selects : Json N → Str → Str → Type 0
  Selects root p text = (v : Json N) × (select root p ≡ ok (some v)) × (text ≡ render ops v)

  -- The texts of a change are those of the values at its path, in the document or the documents that
  -- have it.
  abbrev pub IsPlacedKind : Json N → Json N → Str → ChangeKind → Type 0
  IsPlacedKind before after p (added y) = Selects after p y
  IsPlacedKind before after p (removed x) = Selects before p x
  IsPlacedKind before after p (changed x y) = Selects before p x × Selects after p y

  abbrev pub IsPlaced : Json N → Json N → Change → Type 0
  IsPlaced before after c =
      (c ≡ changed_at ops (codes "$") before after) ⊎ IsPlacedKind before after (c.path) (c.kind)

  select-printed :
      (s : Segment) (segments : List Segment) (root v : Json N)
      → All IsPlain (s ∷ segments)
      → Select.walk (s ∷ segments) root ≡ some v
      → select root (print_from [] (s ∷ segments)) ≡ ok (some v)
  unfolding select
  select-printed s segments root v h e =
      ap
        (λ (r : Result PathError (List Segment)). elim r [
          | err x ↦ err x
          | ok segments ↦ ok (Select.walk segments root)
        ])
        (parse-print_from s segments h)
      ∙ ap (λ (o : Option (Json N)). ok o) e

  select-snoc :
      (segments : List Segment) (s : Segment) (root v : Json N)
      → All IsPlain (segments ++ s ∷ [])
      → Select.walk (segments ++ s ∷ []) root ≡ some v
      → select root (print_from [] (segments ++ s ∷ [])) ≡ ok (some v)
  select-snoc [] s root v h e = select-printed s [] root v h e
  select-snoc (t ∷ segments) s root v h e = select-printed t (segments ++ s ∷ []) root v h e

  -- One step further than a path that is followed to `v`.
  pub Selects-snoc :
      (segments : List Segment) (s : Segment) (p : Str) (root v w : Json N)
      → All IsPlain segments
      → IsPlain s
      → p ≡ extend (print_from [] segments) s
      → Select.walk segments root ≡ some v
      → step s v ≡ some w
      → Selects root p (render ops w)
  Selects-snoc segments s p root v w hs h e at next =
      let place : p ≡ print_from [] (segments ++ s ∷ []) =
        e ∙ sym (print_from-snoc [] segments s) in
      let plain = IsPlain-snoc segments s hs h in
      let found = walk-snoc segments s root v at ∙ next in
      (w, ap (select root) place ∙ select-snoc segments s root w plain found, refl)

  -- The place of a path that is not empty.
  pub Selects-here :
      (s : Segment) (segments : List Segment) (root v : Json N)
      → All IsPlain (s ∷ segments)
      → Select.walk (s ∷ segments) root ≡ some v
      → Selects root (root_path (print_from [] (s ∷ segments))) (render ops v)
  Selects-here s segments root v hs at = (
    v,
    ap (select root) (root_path-print s segments hs) ∙ select-printed s segments root v hs at,
    refl,
  )

  module _ (before after : Json N) where
    abbrev pub Placed : List Change → Type 0
    Placed cs = All (IsPlaced before after) cs

    -- what the later object adds
    pub Placed-added_props :
        (segments : List Segment) (a b c : Props N)
        → All IsPlain segments
        → Select.walk segments after ≡ some (object b)
        → Finds b c
        → IsPlainProps c
        → IsOrderedProps c
        → Placed (added_props ops (print_from [] segments) a c)
    unfolding added_props
    Placed-added_props segments a b end hs at finds _ _ = tt
    Placed-added_props segments a b (prop k w c) hs at finds (hk, (hw, hc)) (above, (ow, oc)) =
        let p : Str = print_from [] segments in
        let here =
          Selects-snoc segments (key k) (join p k) after (object b) w hs hk (join-extend p k) at
            (Finds-first b c k w finds) in
        let later =
          Placed-added_props segments a b c hs at (Finds-rest b c k w above finds) hc oc in
        match_if Placed (is_some (get_prop k a)) (λ _. later) (λ _. (inr here, later))

    -- what the later array adds
    pub Placed-added_elems :
        (segments : List Segment) (i skip : ℕ) (b d : Elems N)
        → All IsPlain segments
        → Select.walk segments after ≡ some (array b)
        → drop_elems i b ≡ d
        → i + elems_len d < 2 ^ 64
        → Placed (added_elems ops (print_from [] segments) i skip d)
    unfolding added_elems
    Placed-added_elems segments i skip b nil hs at e h = tt
    Placed-added_elems segments i (suc skip) b (cons w d) hs at e h =
        Placed-added_elems segments (suc i) skip b d hs at (drop_elems-suc i b ∙ ap rest_elems e)
          (omega arith)
    Placed-added_elems segments i zero b (cons w d) hs at e h =
        let p : Str = print_from [] segments in
        let here =
          Selects-snoc segments (index i) (at_index p i) after (array b) w hs (omega arith)
            (at_index-extend p i) at (get_elem-drop i b ∙ ap first_elem e) in
        let later =
          Placed-added_elems segments (suc i) zero b d hs at (drop_elems-suc i b ∙ ap rest_elems e)
            (omega arith) in
        (inr here, later)

    pub Placed-leaf :
        (segments : List Segment) (a b : Json N)
        → All IsPlain segments
        → Select.walk segments before ≡ some a
        → Select.walk segments after ≡ some b
        → Placed (leaf ops (print_from [] segments) a b)
    unfolding Select.walk print_from
    Placed-leaf [] a b hs ha hb =
        match_if Placed (json_eq (ops.num_eq) a b) (λ _. tt)
          (λ _. (
            inl (
                ap (λ (v : Json N). changed_at ops (codes "$") v b) (sym (some_inj ha))
                ∙ ap (changed_at ops (codes "$") before) (sym (some_inj hb))),
            tt,
          ))
    Placed-leaf (s ∷ segments) a b hs ha hb =
        let first = Selects-here s segments before a hs ha in
        let second = Selects-here s segments after b hs hb in
        match_if Placed (json_eq (ops.num_eq) a b) (λ _. tt) (λ _. (inr (first, second), tt))

    pub Placed-append : (xs ys : List Change) → Placed xs → Placed ys → Placed (xs ++ ys)
    Placed-append xs ys = All-append (IsPlaced before after) xs ys
