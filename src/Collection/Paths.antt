-- ===== src/Collection/Paths.antt =====
-- Where a request may be saved, `sanitize_request_path` of crates/gabriel-collection/src/lib.rs. The
-- path functions of Rust's library are those of a Unix target, where `/` separates the parts.
use gabrielbrowser.Base.{
  ℕ, zero, suc, ◌==◌, Bool, false, ◌&&◌, ◌||◌, Option, none, some, List, [], ◌∷◌, Str, codes,
  str_eq, if◌then◌else◌, leb, starts_with, strip_suffix, length, ◌>>=◌, >>=-eq-some, some_inj, ◌≡◌,
  refl, sym, subst, arith, All, match_if, Bool-cases, inl, inr,
}
use gabrielbrowser.Base.Text.{
  trim, trim_start_matches, trim_end_matches, is_empty, has_byte, split, cons_first, join,
}

pub data Component : Type 0 where
  root_dir cur_dir parent_dir : Component
  normal : Str → Component

-- `Path::components`: empty parts go, and `.` goes unless it comes first.
abbrev pub later_components : List Str → List Component
later_components [] = []
later_components (p ∷ ps) =
    let rest = later_components ps in
    if is_empty p || str_eq p (codes ".")
    then rest
    else if str_eq p (codes "..")
    then parent_dir ∷ rest
    else normal p ∷ rest

abbrev pub first_components : List Str → List Component
first_components [] = []
first_components (p ∷ ps) =
    if is_empty p
    then root_dir ∷ later_components ps
    else if str_eq p (codes ".")
    then cur_dir ∷ later_components ps
    else later_components (p ∷ ps)

abbrev pub components : Str → List Component
components path = if is_empty path then [] else first_components (split b'/' path)

-- `s.trim_end_matches(".toml")`: every round removes five bytes
abbrev pub trim_end_string : ℕ → Str → Str → Str
trim_end_string zero s p = s
trim_end_string (suc fuel) s p = elim (strip_suffix s p) [
  | some r ↦ trim_end_string fuel r p
  | none ↦ s
]

abbrev pub is_ascii_alphabetic : ℕ → Bool
is_ascii_alphabetic c = (leb b'a' c && leb c b'z') || (leb b'A' c && leb c b'Z')

-- a drive prefix
abbrev pub has_drive : Str → Bool
has_drive (c ∷ d ∷ s) = is_ascii_alphabetic c && d == b':'
has_drive _ = false

unfoldable pub looks_absolute : Str → Bool
looks_absolute rel =
    let path = trim rel in
    starts_with path (codes "/") || (starts_with path (codes "\\") || has_drive path)

-- the loop over the components; `none` is the error `UnsafePath`
unfoldable pub path_parts : List Component → Option (List Str)
path_parts [] = some []
path_parts (normal part ∷ cs) =
    let rest = path_parts cs in
    if has_byte b'\\' part then none else (do ps ← rest; some (part ∷ ps))
path_parts (cur_dir ∷ cs) = path_parts cs
path_parts (root_dir ∷ cs) = none
path_parts (parent_dir ∷ cs) = none

abbrev pub trimmed_path : Str → Str
trimmed_path rel =
    let bare = trim_end_matches b'/' (trim_start_matches b'/' (trim rel)) in
    trim_end_string (length bare) bare (codes ".toml")

abbrev pub join_parts : List Str → Option Str
join_parts parts = if is_empty parts then none else some (join (codes "/") parts)

unfoldable pub sanitize_request_path : Str → Option Str
unfolding looks_absolute path_parts
sanitize_request_path rel =
    if looks_absolute rel
    then none
    else if is_empty (trimmed_path rel)
    then none
    else (do parts ← path_parts (components (trimmed_path rel)); join_parts parts)

-- A name of a file or a folder: no separator of any platform in it, and neither `.` nor `..`.
abbrev pub IsName : Str → Type 0
IsName part =
    (is_empty part ≡ false)
    × ((str_eq part (codes ".") ≡ false)
        × ((str_eq part (codes "..") ≡ false)
            × ((has_byte b'/' part ≡ false) × (has_byte b'\\' part ≡ false))))

All-split : (c : ℕ) (s : Str) → All (λ p. has_byte c p ≡ false) (split c s)
unfolding split
All-split c [] = (refl, tt)
All-split c (d ∷ s) = elim (Bool-cases (d == c)) [
  | inl e ↦ rw e (refl, All-split c s)
  | inr e ↦ rw e (kept (split c s) (All-split c s) e)
]
  where
    kept :
        (ps : List Str)
        → All (λ p. has_byte c p ≡ false) ps
        → (d == c) ≡ false
        → All (λ p. has_byte c p ≡ false) (cons_first d ps)
    kept [] h e = (ground (arith, e), tt)
    kept (p ∷ ps) (h, hs) e = (ground (arith, e, h), hs)

-- a component that is a name
abbrev IsNameComponent : Component → Type 0
IsNameComponent (normal p) =
    (is_empty p ≡ false)
    × ((str_eq p (codes ".") ≡ false)
        × ((str_eq p (codes "..") ≡ false) × (has_byte b'/' p ≡ false)))
IsNameComponent _ = Unit

later_components-All :
    (ps : List Str)
    → All (λ p. has_byte b'/' p ≡ false) ps
    → All IsNameComponent (later_components ps)
later_components-All [] h = tt
later_components-All (p ∷ ps) (h, hs) =
    let rest = later_components-All ps hs in
    match_if (All IsNameComponent) (is_empty p || str_eq p (codes ".")) (λ _. rest)
      (λ e.
        match_if (All IsNameComponent) (str_eq p (codes "..")) (λ _. (tt, rest))
          (λ f. ((ground (arith, e), (ground (arith, e), (f, h))), rest)))

first_components-All :
    (ps : List Str)
    → All (λ p. has_byte b'/' p ≡ false) ps
    → All IsNameComponent (first_components ps)
first_components-All [] h = tt
first_components-All (p ∷ ps) (h, hs) =
    match_if (All IsNameComponent) (is_empty p) (λ _. (tt, later_components-All ps hs))
      (λ _.
        match_if (All IsNameComponent) (str_eq p (codes "."))
          (λ _. (tt, later_components-All ps hs)) (λ _. later_components-All (p ∷ ps) (h, hs)))

path_parts-All :
    (cs : List Component) (parts : List Str)
    → All IsNameComponent cs
    → path_parts cs ≡ some parts
    → All IsName parts
unfolding path_parts
path_parts-All [] parts h e = subst (All IsName) (some_inj e) tt
path_parts-All (cur_dir ∷ cs) parts (_, h) e = path_parts-All cs parts h e
path_parts-All (root_dir ∷ cs) parts h e = ground arith
path_parts-All (parent_dir ∷ cs) parts h e = ground arith
path_parts-All (normal p ∷ cs) parts ((a, (b, (c, d))), h) e =
    elim (Bool-cases (has_byte b'\\' p)) [
      | inl f ↦ ground (arith, e, f)
      | inr f ↦
          let (ps, g, last) = >>=-eq-some (path_parts cs) (λ ps. some (p ∷ ps)) (opened f) in
          subst (All IsName) (some_inj last) ((a, (b, (c, (d, f)))), path_parts-All cs ps h g)
    ]
  where
    opened : has_byte b'\\' p ≡ false → (path_parts cs >>= (λ ps. some (p ∷ ps))) ≡ some parts
    opened f = ground (arith, e, f)

components-All : (path : Str) → All IsNameComponent (components path)
components-All path =
    match_if (All IsNameComponent) (is_empty path) (λ _. tt)
      (λ _. first_components-All (split b'/' path) (All-split b'/' path))

-- What an accepted path is made of.
abbrev pub IsContained : Str → Type 0
IsContained out =
    (parts : List Str) × (out ≡ join (codes "/") parts)
    × (is_empty parts ≡ false)
    × All IsName parts

-- A request path that is accepted is made of names alone, one at least, joined by `/`: none of them
-- is `.` or `..`, and none has a separator of any platform.
pub sanitize_request_path_lem :
    (rel out : Str) → sanitize_request_path rel ≡ some out → IsContained out
unfolding sanitize_request_path
sanitize_request_path_lem rel out =
    let accepted : Option Str → Type 0 = λ o. o ≡ some out → IsContained out in
    match_if accepted (looks_absolute rel) (λ _ h. cc)
      (λ _.
        match_if accepted (is_empty (trimmed_path rel)) (λ _ h. cc)
          (λ _ h.
            let (parts, e, last) =
              >>=-eq-some (path_parts (components (trimmed_path rel))) join_parts h in
            joined parts
              (path_parts-All (components (trimmed_path rel)) parts
                (components-All (trimmed_path rel)) e)
              last))
  where
    joined : (parts : List Str) → All IsName parts → join_parts parts ≡ some out → IsContained out
    joined [] names h = cc
    joined (p ∷ ps) names h = (p ∷ ps, sym (some_inj h), refl, names)
