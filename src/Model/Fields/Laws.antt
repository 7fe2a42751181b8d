-- ===== src/Model/Fields/Laws.antt =====
-- What the operations of `FieldMap`, crates/gabriel-core/src/model.rs, do to the values of a key.
use gabrielbrowser.Base.{
  Bool, true, false, Option, none, some, List, [], ◌∷◌, ◌++◌, append-nil, append_assoc, Str, str_eq,
  str_eq_iff, str_eq_sound, eq_ignore_ascii_case, if◌then◌else◌, is_some, ◌≡◌, refl, sym, ap, ◌∙◌,
  arith,
}
use gabrielbrowser.Base.Map
use gabrielbrowser.Base.Map.{Map, lookup-insert, lookup-remove}
use gabrielbrowser.Model.Fields.{
  FieldValue, one, many, FieldMap, insert, extended, contains_key, get_first, keys_like, remove_all,
  remove, values, from_pairs,
}

abbrev found : Option FieldValue → List Str
found none = []
found (some v) = values v

-- All values under exactly one key, in order.
abbrev pub values_of : Str → FieldMap → List Str
values_of k m = found (Map.lookup k m)

found-extended : (o : Option FieldValue) (v : Str) → values (extended o v) ≡ found o ++ v ∷ []
found-extended none v = refl
found-extended (some (one first)) v = refl
found-extended (some (many list)) v = refl

-- Inserting appends the value to those of its key, and leaves every other key as it was.
pub values_of-insert :
    (j k v : Str) (m : FieldMap)
    → values_of j (insert k v m) ≡ (if str_eq k j then values_of j m ++ v ∷ [] else values_of j m)
unfolding insert
values_of-insert j k v m = ground (
  arith,
  lookup-insert k j (extended (Map.lookup k m) v) m,
  found-extended (Map.lookup k m) v,
  str_eq_iff k j,
)

-- The values that a list of pairs has for a key, in order.
abbrev pub valued : Str → List (Str × Str) → List Str
valued j [] = []
valued j ((k, v) ∷ ps) = let rest = valued j ps in if str_eq k j then v ∷ rest else rest

from_pairs_from :
    (j : Str) (m : FieldMap) (ps : List (Str × Str))
    → values_of j (from_pairs m ps) ≡ values_of j m ++ valued j ps
unfolding from_pairs
from_pairs_from j m [] = sym (append-nil (values_of j m))
from_pairs_from j m ((k, v) ∷ ps) =
    let step = from_pairs_from j (insert k v m) ps in
    let put = values_of-insert j k v m in
    let assoc = append_assoc (values_of j m) (v ∷ []) (valued j ps) in
    ground (arith, step, put, assoc)

-- A map collected from pairs holds under each key the values that the pairs give it, in their order.
pub values_of-from_pairs :
    (j : Str) (ps : List (Str × Str)) → values_of j (from_pairs [] ps) ≡ valued j ps
values_of-from_pairs j ps = from_pairs_from j [] ps ∙ (unfold Map.lookup in refl)

abbrev listed : Str → List Str → Bool
listed j [] = false
listed j (k ∷ ks) = let rest = listed j ks in if str_eq k j then true else rest

lookup-remove_all :
    (j : Str) (ks : List Str) (m : FieldMap)
    → Map.lookup j (remove_all ks m) ≡ (if listed j ks then none else Map.lookup j m)
unfolding remove_all
lookup-remove_all j [] m = refl
lookup-remove_all j (k ∷ ks) m =
    ground (arith, lookup-remove_all j ks (Map.remove k m), lookup-remove k j m)

-- Only keys that are like the key are to be removed.
listed-keys_like :
    (j key : Str) (m : FieldMap)
    → listed j (keys_like key m) ≡ true
    → eq_ignore_ascii_case j key ≡ true
unfolding keys_like
listed-keys_like j key [] h = cc
listed-keys_like j key ((k, v) ∷ m) h = ground (arith, listed-keys_like j key m, same)
  where
    same : str_eq k j ≡ true → eq_ignore_ascii_case k key ≡ eq_ignore_ascii_case j key
    same h = ap (λ t. eq_ignore_ascii_case t key) (str_eq_sound k j h)

keys_like_lem :
    (j key : Str) (m : FieldMap)
    → (if listed j (keys_like key m) then none else Map.lookup j m)
      ≡ (if eq_ignore_ascii_case j key then none else Map.lookup j m)
unfolding keys_like Map.lookup
keys_like_lem j key [] = ground arith
keys_like_lem j key ((k, v) ∷ m) =
    ground (arith, keys_like_lem j key m, same, listed-keys_like j key m)
  where
    same : str_eq k j ≡ true → eq_ignore_ascii_case k key ≡ eq_ignore_ascii_case j key
    same h = ap (λ t. eq_ignore_ascii_case t key) (str_eq_sound k j h)

-- Removing a key removes it in every spelling, upper or lower case, and nothing else.
lookup-remove_any_case :
    (j key : Str) (m : FieldMap)
    → Map.lookup j (remove key m) ≡ (if eq_ignore_ascii_case j key then none else Map.lookup j m)
unfolding remove
lookup-remove_any_case j key m = lookup-remove_all j (keys_like key m) m ∙ keys_like_lem j key m

-- A key is contained exactly when it has a first value.
pub contains_key_iff : (key : Str) (m : FieldMap) → contains_key key m ≡ is_some (get_first key m)
unfolding contains_key get_first
contains_key_iff key [] = refl
contains_key_iff key ((k, v) ∷ m) = ground (arith, contains_key_iff key m)
