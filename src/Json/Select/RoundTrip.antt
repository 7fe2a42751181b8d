-- ===== src/Json/Select/RoundTrip.antt =====
-- Printed paths are parsed, crates/gabriel-core/src/jsonpath.rs.
use gabrielbrowser.Base.{
  ℕ, true, false, none, List, [], ◌∷◌, ◌++◌, Str, ◌==◌, ◌≡◌, refl, ap, sym, ◌∙◌, All, reverse,
  arith, strip_prefix, reverse-append, reverse-first, subst,
}
use gabrielbrowser.Base.Text.{trim}
use gabrielbrowser.Base.Text.Trim.{is_graphic, trim_id}
use gabrielbrowser.Base.Decimal.{decimal}
use gabrielbrowser.Base.Results.{ok}
use gabrielbrowser.Json.Select.{Segment, key, index, parse, segments_of, without_root}
use gabrielbrowser.Json.Select.Loop.{
  is_plain, IsPlainKey, IsPlain, extend, print_from, printed, rest_of, print_from-rest,
  segments_of-key, segments_of-index, segments_of-rest,
}

abbrev pub IsGraphicEnd : Str → Type 0
IsGraphicEnd s = (d : ℕ) × (t : Str) × (reverse s ≡ d ∷ t) × (is_graphic d ≡ true)

IsGraphicEnd-append : (s u : Str) → IsGraphicEnd u → IsGraphicEnd (s ++ u)
IsGraphicEnd-append s u (d, t, e, h) =
    (d, t ++ reverse s, reverse-append s u ∙ ap (λ (l : Str). l ++ reverse s) e, h)

plain-is_graphic : (c : ℕ) → is_plain c ≡ true → is_graphic c ≡ true
plain-is_graphic c h = ground arith

IsPlainKey-end : (k : Str) → IsPlainKey k → IsGraphicEnd k
IsPlainKey-end [] (h, _) = cc
IsPlainKey-end (c ∷ k) (_, all) =
    let (d, t, e, h) = reverse-first (λ b. is_plain b ≡ true) c k all in
    (d, t, e, plain-is_graphic d h)

-- a number in brackets ends with a bracket
bracket_end : (s : Str) → IsGraphicEnd (b'[' ∷ (s ++ b']' ∷ []))
bracket_end s = IsGraphicEnd-append (b'[' ∷ s) (b']' ∷ []) (b']', [], refl, refl)

extend-end : (path : Str) (s : Segment) → IsPlain s → IsGraphicEnd (extend path s)
extend-end [] (key k) h = IsPlainKey-end k h
extend-end (c ∷ path) (key k) h =
    IsGraphicEnd-append (c ∷ path) (b'.' ∷ k)
      (IsGraphicEnd-append (b'.' ∷ []) k (IsPlainKey-end k h))
extend-end [] (index i) h = bracket_end (decimal i)
extend-end (c ∷ path) (index i) h =
    IsGraphicEnd-append (c ∷ path) (b'[' ∷ (decimal i ++ b']' ∷ [])) (bracket_end (decimal i))

print_from-end :
    (path : Str) (segments : List Segment)
    → IsGraphicEnd path
    → All IsPlain segments
    → IsGraphicEnd (print_from path segments)
unfolding print_from
print_from-end path [] e _ = e
print_from-end path (s ∷ segments) e (h, hs) =
    print_from-end (extend path s) segments (extend-end path s h) hs

without_root_id : (c : ℕ) (s : Str) → (c == b'$') ≡ false → without_root (c ∷ s) ≡ c ∷ s
unfolding without_root strip_prefix
without_root_id c s h = ground arith

-- A printed path is its own path: nothing is trimmed and no root is removed.
print_id :
    (p : Str) (c : ℕ) (s : Str)
    → p ≡ c ∷ s
    → is_graphic c ≡ true
    → (c == b'$') ≡ false
    → IsGraphicEnd p
    → without_root (trim p) ≡ p
print_id p c s e hc root (d, t, r, hd) =
    ap without_root (trim_id c d s t p e r hc hd)
    ∙ (ap without_root e ∙ (without_root_id c s root ∙ sym e))

parse-eq : (p : Str) → without_root (trim p) ≡ p → parse p ≡ segments_of p none [] [] p
unfolding parse
parse-eq p e = ap (λ (path : Str). segments_of path none [] [] path) e

plain-root : (c : ℕ) → is_plain c ≡ true → (c == b'$') ≡ false
plain-root c h = ground arith

print_from-first :
    (s : Segment) (segments : List Segment)
    → print_from [] (s ∷ segments) ≡ print_from (extend [] s) segments
unfolding print_from
print_from-first s segments = refl

-- A path that is printed from segments, the first among them given, is parsed as these segments. The
-- keys are not empty and made of graphic ASCII bytes other than a dot, a bracket or a dollar sign, and
-- the indexes are below 2^64.
pub parse-print_from :
    (s : Segment) (segments : List Segment)
    → All IsPlain (s ∷ segments)
    → parse (print_from [] (s ∷ segments)) ≡ ok (s ∷ segments)
parse-print_from (key []) segments ((h, _), _) = cc
parse-print_from (key (c ∷ k)) segments ((h, (hc, hk)), later) =
    let p = print_from [] (key (c ∷ k) ∷ segments) in
    let shape : p ≡ (c ∷ k) ++ rest_of segments =
      print_from-first (key (c ∷ k)) segments ∙ print_from-rest c k segments in
    let ends : IsGraphicEnd p =
      subst IsGraphicEnd (sym (print_from-first (key (c ∷ k)) segments))
        (print_from-end (c ∷ k) segments (IsPlainKey-end (c ∷ k) (h, (hc, hk))) later) in
    let same =
      print_id p c (k ++ rest_of segments) shape (plain-is_graphic c hc) (plain-root c hc) ends in
    parse-eq p same
    ∙ (ap (segments_of p none [] []) shape
        ∙ (segments_of-key p [] [] (c ∷ k) (rest_of segments) (hc, hk)
            ∙ segments_of-rest p segments [] (c ∷ k) later))
parse-print_from (index i) segments (h, later) =
    let p = print_from [] (index i ∷ segments) in
    let inner = decimal i ++ b']' ∷ [] in
    let shape : p ≡ printed (index i) ++ rest_of segments =
      print_from-first (index i) segments ∙ print_from-rest b'[' inner segments in
    let ends : IsGraphicEnd p =
      subst IsGraphicEnd (sym (print_from-first (index i) segments))
        (print_from-end (b'[' ∷ inner) segments (bracket_end (decimal i)) later) in
    let same = print_id p b'[' (inner ++ rest_of segments) shape refl refl ends in
    parse-eq p same
    ∙ (ap (segments_of p none [] []) shape
        ∙ (segments_of-index p [] [] (rest_of segments) i h
            ∙ segments_of-rest p segments (index i ∷ []) [] later))
