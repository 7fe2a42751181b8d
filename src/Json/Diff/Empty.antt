-- ===== src/Json/Diff/Empty.antt =====
-- When `diff_json` of crates/gabriel-core/src/diff.rs reports nothing.
use gabrielbrowser.Base.{
  ℕ, suc, Bool, true, false, ◌&&◌, Option, none, some, List, [], ◌∷◌, ◌++◌, Str, str_eq, ◌≡◌, refl,
  sym, ap, ◌∙◌, subst, arith, str_eq_sound, ◌↔◌,
}
use gabrielbrowser.Json.{
  Json, Elems, Props, JsonOps, null, bool, number, string, array, object, nil, cons, end, prop,
  get_prop, get_elem, json_eq, elems_eq, props_eq, elems_len,
}
use gabrielbrowser.Json.Elements.{
  drop_elems, first_elem, rest_elems, get_elem-drop, drop_elems-suc, get_prop-end,
}
use gabrielbrowser.Json.Order.{IsAbove, IsOrdered, AllOrdered, IsOrderedProps}
use gabrielbrowser.Json.Diff.{
  Change, walk, walk_props, walk_elems, added_props, added_elems, leaf, join, at_index, diff_json,
  removed_at, added_at,
}
use gabrielbrowser.Json.Diff.Keys.{
  both_empty, walk_props-lost, same_key, same_key_added, first_keys,
}

and_true : (a : Bool) {b : Bool} → (a && b) ≡ true → (a ≡ true) × (b ≡ true)
and_true true h = (refl, h)
and_true false h = cc

module _ {N F : Type 0} (ops : JsonOps N F) where
  pub walk_elems-found :
      (path : Str) (i : ℕ) (v x : Json N) (a b : Elems N)
      → get_elem i b ≡ some x
      → walk_elems ops path i (cons v a) b
        ≡ walk ops (at_index path i) v x ++ walk_elems ops path (suc i) a b
  unfolding walk
  walk_elems-found path i v x a b h =
      ap
        (λ (o : Option (Json N)). elim o [
          | some x ↦ walk ops (at_index path i) v x ++ walk_elems ops path (suc i) a b
          | none ↦ removed_at ops (at_index path i) v ∷ walk_elems ops path (suc i) a b
        ])
        h

  pub walk_elems-lost :
      (path : Str) (i : ℕ) (v : Json N) (a b : Elems N)
      → get_elem i b ≡ none
      → walk_elems ops path i (cons v a) b
        ≡ removed_at ops (at_index path i) v ∷ walk_elems ops path (suc i) a b
  unfolding walk
  walk_elems-lost path i v a b h =
      ap
        (λ (o : Option (Json N)). elim o [
          | some x ↦ walk ops (at_index path i) v x ++ walk_elems ops path (suc i) a b
          | none ↦ removed_at ops (at_index path i) v ∷ walk_elems ops path (suc i) a b
        ])
        h

  leaf-same : (path : Str) (a b : Json N) → json_eq (ops.num_eq) a b ≡ true → leaf ops path a b ≡ []
  leaf-same path a b h = ground arith

  same_added :
      (path : Str) (i : ℕ) (a b : Elems N)
      → elems_eq (ops.num_eq) a b ≡ true
      → added_elems ops path i (elems_len a) b ≡ []
  unfolding json_eq added_elems
  same_added path i nil nil h = refl
  same_added path i nil (cons w b) h = cc
  same_added path i (cons v a) nil h = refl
  same_added path i (cons v a) (cons w b) h =
      same_added path (suc i) a b (and_true (json_eq (ops.num_eq) v w) h).1

  mutual
    unfolding walk json_eq added_props

    same_walk :
        (path : Str) (a b : Json N)
        → json_eq (ops.num_eq) a b ≡ true
        → IsOrdered a
        → IsOrdered b
        → walk ops path a b ≡ []
    same_walk path (object a) (object b) h o p =
        let (first, second) = same_props path a b h o p in
        ap (λ (l : List Change). l ++ added_props ops path a b) first ∙ second
    same_walk path (array a) (array b) h o p =
        ap (λ (l : List Change). l ++ added_elems ops path 0 (elems_len a) b)
          (same_elems path 0 a b b refl h o p)
        ∙ same_added path 0 a b h
    same_walk path null b h o p = leaf-same path null b h
    same_walk path (bool x) b h o p = leaf-same path (bool x) b h
    same_walk path (number x) b h o p = leaf-same path (number x) b h
    same_walk path (string x) b h o p = leaf-same path (string x) b h
    same_walk path (array a) (object b) h o p = cc
    same_walk path (object a) (array b) h o p = cc
    same_walk path (array a) _ h o p = cc
    same_walk path (object a) _ h o p = cc

    same_elems :
        (path : Str) (i : ℕ) (a d b : Elems N)
        → drop_elems i b ≡ d
        → elems_eq (ops.num_eq) a d ≡ true
        → AllOrdered a
        → AllOrdered d
        → walk_elems ops path i a b ≡ []
    same_elems path i nil d b e h o p = refl
    same_elems path i (cons v a) nil b e h o p = cc
    same_elems path i (cons v a) (cons w d) b e h (ov, oa) (pw, pd) =
        let found : get_elem i b ≡ some w = get_elem-drop i b ∙ ap first_elem e in
        let (hv, ha) = and_true (json_eq (ops.num_eq) v w) h in
        let later = same_elems path (suc i) a d b (drop_elems-suc i b ∙ ap rest_elems e) ha oa pd in
        walk_elems-found path i v w a b found
        ∙ (ap (λ (l : List Change). l ++ walk_elems ops path (suc i) a b)
              (same_walk (at_index path i) v w hv ov pw)
            ∙ later)

    same_props :
        (path : Str) (a b : Props N)
        → props_eq (ops.num_eq) a b ≡ true
        → IsOrderedProps a
        → IsOrderedProps b
        → (walk_props ops path a b ≡ []) × (added_props ops path a b ≡ [])
    same_props path end end h o p = (refl, refl)
    same_props path end (prop j w b) h o p = cc
    same_props path (prop k v a) end h o p = cc
    same_props path (prop k v a) (prop j w b) h (ka, (ov, oa)) (jb, (pw, pb)) =
        let (hk, hrest) = and_true (str_eq k j) h in
        let (hv, ha) = and_true (json_eq (ops.num_eq) v w) hrest in
        let key : j ≡ k = sym (str_eq_sound k j hk) in
        let (first, second) = same_props path a b ha oa pb in
        let kb : IsAbove k b = subst (λ i. IsAbove i b) key jb in
        (
          ap (λ (i : Str). walk_props ops path (prop k v a) (prop i w b)) key
              ∙ (same_key ops path k v w a b ka
                  ∙ (ap (λ (l : List Change). l ++ walk_props ops path a b)
                        (same_walk (join path k) v w hv ov pw)
                      ∙ first)),
          ap (λ (i : Str). added_props ops path (prop k v a) (prop i w b)) key
              ∙ (same_key_added ops path k v w a b kb ∙ second),
        )

  leaf-empty :
      (path : Str) (a b : Json N) → leaf ops path a b ≡ [] → json_eq (ops.num_eq) a b ≡ true
  leaf-empty path a b h = ground arith

  added_none :
      (path : Str) (i : ℕ) (a d : Elems N)
      → added_elems ops path i (elems_len a) d ≡ []
      → (e : a ≡ nil) → elems_eq (ops.num_eq) a d ≡ true
  unfolding added_elems json_eq
  added_none path i nil nil h e = refl
  added_none path i nil (cons w d) h e = cc
  added_none path i (cons v a) d h e = cc

  added_end :
      (path j : Str) (w : Json N) (b : Props N)
      → added_props ops path end (prop j w b)
        ≡ added_at ops (join path j) w ∷ added_props ops path end b
  unfolding added_props get_prop
  added_end path j w b = refl

  mutual
    unfolding walk json_eq added_props added_elems

    empty_walk :
        (path : Str) (a b : Json N)
        → walk ops path a b ≡ []
        → IsOrdered a
        → IsOrdered b
        → json_eq (ops.num_eq) a b ≡ true
    empty_walk path (object a) (object b) h o p =
        let (first, second) = both_empty (walk_props ops path a b) (added_props ops path a b) h in
        empty_props path a b first second o p
    empty_walk path (array a) (array b) h o p =
        let (first, second) =
          both_empty (walk_elems ops path 0 a b) (added_elems ops path 0 (elems_len a) b) h in
        empty_elems path 0 0 a b b refl first second o p
    empty_walk path null b h o p = leaf-empty path null b h
    empty_walk path (bool x) b h o p = leaf-empty path (bool x) b h
    empty_walk path (number x) b h o p = leaf-empty path (number x) b h
    empty_walk path (string x) b h o p = leaf-empty path (string x) b h
    empty_walk path (array a) (object b) h o p = cc
    empty_walk path (object a) (array b) h o p = cc
    empty_walk path (array a) _ h o p = cc
    empty_walk path (object a) _ h o p = cc

    empty_elems :
        (path : Str) (i m : ℕ) (a d b : Elems N)
        → drop_elems i b ≡ d
        → walk_elems ops path i a b ≡ []
        → added_elems ops path m (elems_len a) d ≡ []
        → AllOrdered a
        → AllOrdered d
        → elems_eq (ops.num_eq) a d ≡ true
    empty_elems path i m nil d b e h k o p = added_none path m nil d k refl
    empty_elems path i m (cons v a) nil b e h k o p =
        let lost = walk_elems-lost path i v a b (get_elem-drop i b ∙ ap first_elem e) in cc
    empty_elems path i m (cons v a) (cons w d) b e h k (ov, oa) (pw, pd) =
        let found = walk_elems-found path i v w a b (get_elem-drop i b ∙ ap first_elem e) in
        let (first, second) =
          both_empty (walk ops (at_index path i) v w) (walk_elems ops path (suc i) a b)
            (sym found ∙ h) in
        let here = empty_walk (at_index path i) v w first ov pw in
        let later =
          empty_elems path (suc i) (suc m) a d b (drop_elems-suc i b ∙ ap rest_elems e) second k oa
            pd in
        ap (λ (x : Bool). x && elems_eq (ops.num_eq) a d) here ∙ later

    empty_props :
        (path : Str) (a b : Props N)
        → walk_props ops path a b ≡ []
        → added_props ops path a b ≡ []
        → IsOrderedProps a
        → IsOrderedProps b
        → props_eq (ops.num_eq) a b ≡ true
    empty_props path end end h k o p = refl
    empty_props path end (prop j w b) h k o p = let added = added_end path j w b in cc
    empty_props path (prop i v a) end h k o p =
        let lost = walk_props-lost ops path i v a end (get_prop-end i) in cc
    empty_props path (prop i v a) (prop j w b) h k (ia, (ov, oa)) (jb, (pw, pb)) =
        let test = first_keys ops path i j v w a b ia jb h k in
        let key : j ≡ i = sym (str_eq_sound i j test) in
        let ib : IsAbove i b = subst (λ x. IsAbove x b) key jb in
        let (first, second) = both_empty (walk ops (join path i) v w) (walk_props ops path a b) (
          sym (same_key ops path i v w a b ia)
          ∙ (ap (λ (x : Str). walk_props ops path (prop i v a) (prop x w b)) (sym key) ∙ h)) in
        let more =
          sym (same_key_added ops path i v w a b ib)
          ∙ (ap (λ (x : Str). added_props ops path (prop i v a) (prop x w b)) (sym key) ∙ k) in
        let here = empty_walk (join path i) v w first ov pw in
        let later = empty_props path a b second more oa pb in
        ap (λ (x : Bool). x && (json_eq (ops.num_eq) v w && props_eq (ops.num_eq) a b)) test
        ∙ (ap (λ (x : Bool). x && props_eq (ops.num_eq) a b) here ∙ later)

-- Two documents, with the keys of their objects in order, differ in nothing exactly when they are
-- equal.
pub diff_json-empty_iff :
    {N F : Type 0} (ops : JsonOps N F) (a b : Json N)
    → IsOrdered a
    → IsOrdered b
    → (diff_json ops a b ≡ []) ↔ (json_eq (ops.num_eq) a b ≡ true)
unfolding diff_json
diff_json-empty_iff ops a b o p =
    (λ h. empty_walk ops [] a b h o p, λ h. same_walk ops [] a b h o p)
