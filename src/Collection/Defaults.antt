-- ===== src/Collection/Defaults.antt =====
-- What the defaults of a collection do to the headers of a request,
-- crates/gabriel-collection/src/lib.rs.
use gabrielbrowser.Base.{
  Bool, true, false, not, List, [], ◌∷◌, ◌++◌, Str, str_eq, str_eq_sound, if◌then◌else◌, ◌≡◌, refl,
  sym, All, All-append, append_assoc, ap, ◌∙◌, arith, match_if, eq_ignore_ascii_case, str_eq_refl,
  to_ascii_lowercase,
}
use gabrielbrowser.Base.Map
use gabrielbrowser.Model.{Settings, RequestSpec}
use gabrielbrowser.Model.Fields
use gabrielbrowser.Model.Fields.{
  FieldMap, FieldValue, one, many, contains_key, iter_pairs, with_key, extended, values,
}
use gabrielbrowser.Model.Fields.Laws.{values_of, values_of-insert}
use gabrielbrowser.Collection.{Collection, add_headers, apply_defaults}

contains_key-cons :
    (key j : Str) (v : FieldValue) (m : FieldMap)
    → contains_key key ((j, v) ∷ m)
      ≡ (if eq_ignore_ascii_case j key then true else contains_key key m)
unfolding contains_key
contains_key-cons key j v m = refl

same_key : (k : Str) → eq_ignore_ascii_case k k ≡ true
unfolding eq_ignore_ascii_case
same_key k = str_eq_refl (to_ascii_lowercase k)

-- A key that is there stays there when another one is inserted.
contains_key-map_insert :
    (key k : Str) (v : FieldValue) (m : FieldMap)
    → contains_key key m ≡ true
    → contains_key key (Map.insert k v m) ≡ true
unfolding Map.insert contains_key
contains_key-map_insert key k v [] h = cc
contains_key-map_insert key k v ((j, w) ∷ m) h =
    match_if (λ (l : FieldMap). contains_key key l ≡ true) (str_eq j k)
      (λ e. ground (arith, h, ap (λ i. eq_ignore_ascii_case i key) (str_eq_sound j k e)))
      (λ _.
        match_if (λ (l : FieldMap). contains_key key l ≡ true) (Map.str_lt k j)
          (λ _. ground (arith, h)) (λ _. ground (arith, h, contains_key-map_insert key k v m)))

-- the headers after one default
abbrev add_header : FieldMap → Str → Str → FieldMap
add_header headers key value =
    if not (contains_key key headers) then Fields.insert key value headers else headers

-- what a request says itself
abbrev Keeps : Str → FieldMap → FieldMap → Type 0
Keeps key before after =
    (contains_key key after ≡ true) × (values_of key after ≡ values_of key before)

add_header-Keeps :
    (key k value : Str) (headers : FieldMap)
    → contains_key key headers ≡ true
    → Keeps key headers (add_header headers k value)
unfolding Fields.insert
add_header-Keeps key k value headers h =
    match_if (Keeps key headers) (not (contains_key k headers))
      (λ e.
        let other : str_eq k key ≡ true → contains_key k headers ≡ contains_key key headers =
          λ f. ap (λ i. contains_key i headers) (str_eq_sound k key f) in
        (
          contains_key-map_insert key k (extended (Map.lookup k headers) value) headers h,
          ground (arith, values_of-insert key k value headers, other, e, h),
        ))
      (λ _. (h, refl))

add_headers-Keeps :
    (key : Str) (headers : FieldMap) (pairs : List (Str × Str))
    → contains_key key headers ≡ true
    → Keeps key headers (add_headers headers pairs)
unfolding add_headers
add_headers-Keeps key headers [] h = (h, refl)
add_headers-Keeps key headers ((k, value) ∷ pairs) h =
    let (there, same) = add_header-Keeps key k value headers h in
    let (there', same') = add_headers-Keeps key (add_header headers k value) pairs there in
    (there', same' ∙ same)

-- A header that a request has itself, in any spelling, keeps exactly its values when the defaults of
-- the collection are applied.
values_of-apply_defaults :
    {V : Type 0} (is_default : Settings → Bool) (c : Collection V) (spec : RequestSpec V)
    (key : Str)
    → contains_key key spec.headers ≡ true
    → values_of key (apply_defaults is_default c spec).headers ≡ values_of key spec.headers
unfolding apply_defaults
values_of-apply_defaults is_default c spec key h =
    (add_headers-Keeps key spec.headers (iter_pairs c.manifest.defaults.headers) h).1

contains_key-map_insert_self :
    (k : Str) (v : FieldValue) (m : FieldMap) → contains_key k (Map.insert k v m) ≡ true
unfolding Map.insert contains_key
contains_key-map_insert_self k v [] = ground (arith, same_key k)
contains_key-map_insert_self k v ((j, w) ∷ m) =
    match_if (λ (l : FieldMap). contains_key k l ≡ true) (str_eq j k)
      (λ _. ground (arith, same_key k))
      (λ _.
        match_if (λ (l : FieldMap). contains_key k l ≡ true) (Map.str_lt k j)
          (λ _. ground (arith, same_key k))
          (λ _. ground (arith, contains_key-map_insert_self k v m)))

values_of-absent : (key : Str) (m : FieldMap) → contains_key key m ≡ false → values_of key m ≡ []
unfolding contains_key Map.lookup
values_of-absent key [] h = refl
values_of-absent key ((j, w) ∷ m) h =
    let same : str_eq j key ≡ true → eq_ignore_ascii_case j key ≡ true =
      λ e. ap (λ i. eq_ignore_ascii_case i key) (str_eq_sound j key e) ∙ same_key key in
    ground (arith, h, same, values_of-absent key m)

first_value_kept :
    (key first : Str) (rest : List (Str × Str)) (headers : FieldMap)
    → contains_key key headers ≡ false
    → values_of key (add_headers headers ((key, first) ∷ rest)) ≡ first ∷ []
unfolding add_headers
first_value_kept key first rest headers h =
    let put : add_header headers key first ≡ Fields.insert key first headers =
      ap (λ (b : Bool). if not b then Fields.insert key first headers else headers) h in
    let there : contains_key key (Fields.insert key first headers) ≡ true =
      unfold Fields.insert in
      contains_key-map_insert_self key (extended (Map.lookup key headers) first) headers in
    let held : values_of key (Fields.insert key first headers) ≡ first ∷ [] = ground (
      arith,
      values_of-insert key key first headers,
      str_eq_refl key,
      values_of-absent key headers h,
    ) in
    ap (λ (m : FieldMap). values_of key (add_headers m rest)) put
    ∙ (add_headers-Keeps key (Fields.insert key first headers) rest there).1
    ∙ held

-- A header that is not there is not put there by others.
contains_key-insert_other :
    (key k : Str) (v : FieldValue) (m : FieldMap)
    → eq_ignore_ascii_case k key ≡ false
    → contains_key key m ≡ false
    → contains_key key (Map.insert k v m) ≡ false
unfolding Map.insert contains_key
contains_key-insert_other key k v [] e h = ground (arith, e)
contains_key-insert_other key k v ((j, w) ∷ m) e h =
    match_if (λ (l : FieldMap). contains_key key l ≡ false) (str_eq j k) (λ _. ground (arith, e, h))
      (λ _.
        match_if (λ (l : FieldMap). contains_key key l ≡ false) (Map.str_lt k j)
          (λ _. ground (arith, e, h))
          (λ _. ground (arith, h, contains_key-insert_other key k v m e)))

-- No pair has the key, in any spelling.
abbrev Lacks : Str → List (Str × Str) → Type 0
Lacks key pairs = All (λ (p : Str × Str). eq_ignore_ascii_case p.0 key ≡ false) pairs

add_headers-others :
    (key : Str) (headers : FieldMap) (pairs : List (Str × Str))
    → Lacks key pairs
    → contains_key key headers ≡ false
    → contains_key key (add_headers headers pairs) ≡ false
unfolding add_headers Fields.insert
add_headers-others key headers [] others h = h
add_headers-others key headers ((k, value) ∷ pairs) (first, others) h =
    add_headers-others key (add_header headers k value) pairs others (
      match_if (λ (m : FieldMap). contains_key key m ≡ false) (not (contains_key k headers))
        (λ _.
          contains_key-insert_other key k (extended (Map.lookup k headers) value) headers first h)
        (λ _. h))

add_headers-append :
    (headers : FieldMap) (ps qs : List (Str × Str))
    → add_headers headers (ps ++ qs) ≡ add_headers (add_headers headers ps) qs
unfolding add_headers
add_headers-append headers [] qs = refl
add_headers-append headers ((k, value) ∷ ps) qs =
    add_headers-append (add_header headers k value) ps qs

with_key-Lacks :
    (key j : Str) (vs : List Str) → eq_ignore_ascii_case j key ≡ false → Lacks key (with_key j vs)
with_key-Lacks key j [] h = tt
with_key-Lacks key j (v ∷ vs) h = (h, with_key-Lacks key j vs h)

iter_pairs-Lacks :
    (key : Str) (m : FieldMap) → contains_key key m ≡ false → Lacks key (iter_pairs m)
unfolding iter_pairs contains_key
iter_pairs-Lacks key [] h = tt
iter_pairs-Lacks key ((j, v) ∷ m) h =
    All-append (λ (p : Str × Str). eq_ignore_ascii_case p.0 key ≡ false) (with_key j (values v))
      (iter_pairs m) (with_key-Lacks key j (values v) (ground (arith, h)))
      (iter_pairs-Lacks key m (ground (arith, h)))

iter_pairs-append : (m n : FieldMap) → iter_pairs (m ++ n) ≡ iter_pairs m ++ iter_pairs n
unfolding iter_pairs
iter_pairs-append [] n = refl
iter_pairs-append ((j, v) ∷ m) n =
    ap (λ l. with_key j (values v) ++ l) (iter_pairs-append m n)
    ∙ sym (append_assoc (with_key j (values v)) (iter_pairs m) (iter_pairs n))

-- A default header with several values gives a request that lacks it the first of them only: once
-- that one is there, the request counts as having the header. The default headers before it are
-- other ones, not the same in another spelling; those after it are any.
pub apply_defaults-many :
    {V : Type 0} (is_default : Settings → Bool) (c : Collection V) (spec : RequestSpec V)
    (before after : FieldMap) (key first : Str) (others : List Str)
    → c.manifest.defaults.headers ≡ before ++ (key, many (first ∷ others)) ∷ after
    → contains_key key before ≡ false
    → contains_key key spec.headers ≡ false
    → values_of key (apply_defaults is_default c spec).headers ≡ first ∷ []
unfolding apply_defaults iter_pairs
apply_defaults-many is_default c spec before after key first others e apart h =
    let headers = add_headers spec.headers (iter_pairs before) in
    ap (λ (m : FieldMap). values_of key (add_headers spec.headers (iter_pairs m))) e
    ∙ ap (λ l. values_of key (add_headers spec.headers l))
        (iter_pairs-append before ((key, many (first ∷ others)) ∷ after))
    ∙ ap (values_of key) (
        add_headers-append spec.headers (iter_pairs before)
          (iter_pairs ((key, many (first ∷ others)) ∷ after)))
    ∙ first_value_kept key first (with_key key others ++ iter_pairs after) headers (
        add_headers-others key spec.headers (iter_pairs before) (iter_pairs-Lacks key before apart)
          h)
