-- ===== src/Model/Fields.antt =====
-- `FieldMap` of crates/gabriel-core/src/model.rs: headers and query parameters, where one key may
-- carry several values.
pub mod Laws
use gabrielbrowser.Base.{
  ℕ, Bool, true, false, Option, none, some, List, [], ◌∷◌, ◌++◌, map, Str, codes, str_eq,
  eq_ignore_ascii_case, length, filter, any, find, if◌then◌else◌,
}
use gabrielbrowser.Base.Map
use gabrielbrowser.Base.Map.{Map}

pub data FieldValue : Type 0 where
  one : Str → FieldValue
  many : List Str → FieldValue

abbrev pub FieldMap : Type 0
FieldMap = Map FieldValue

abbrev pub is_empty_map : FieldMap → Bool
is_empty_map [] = true
is_empty_map (e ∷ m) = false

abbrev pub len : FieldMap → ℕ
len m = length m

-- the value of `insert`, from what the key had
abbrev pub extended : Option FieldValue → Str → FieldValue
extended none v = one v
extended (some (one first)) v = many (first ∷ v ∷ [])
extended (some (many list)) v = many (list ++ v ∷ [])

unfoldable pub insert : Str → Str → FieldMap → FieldMap
insert k v m = Map.insert k (extended (Map.lookup k m) v) m

unfoldable pub set : Str → Str → FieldMap → FieldMap
set k v m = Map.insert k (one v) m

abbrev pub first_value : FieldValue → Str
first_value (one s) = s
first_value (many []) = []
first_value (many (s ∷ list)) = s

unfoldable pub get_first : Str → FieldMap → Option Str
get_first key [] = none
get_first key ((k, v) ∷ m) =
    let rest = get_first key m in if eq_ignore_ascii_case k key then some (first_value v) else rest

unfoldable pub contains_key : Str → FieldMap → Bool
contains_key key [] = false
contains_key key ((k, v) ∷ m) =
    let rest = contains_key key m in if eq_ignore_ascii_case k key then true else rest

-- the keys to remove, and their removal one by one
unfoldable pub keys_like : Str → FieldMap → List Str
keys_like key [] = []
keys_like key ((k, v) ∷ m) =
    let rest = keys_like key m in if eq_ignore_ascii_case k key then k ∷ rest else rest

unfoldable pub remove_all : List Str → FieldMap → FieldMap
remove_all [] m = m
remove_all (k ∷ ks) m = remove_all ks (Map.remove k m)

unfoldable pub remove : Str → FieldMap → FieldMap
unfolding keys_like remove_all
remove key m = remove_all (keys_like key m) m

abbrev pub values : FieldValue → List Str
values (one s) = s ∷ []
values (many list) = list

abbrev pub with_key : Str → List Str → List (Str × Str)
with_key k [] = []
with_key k (v ∷ vs) = (k, v) ∷ with_key k vs

unfoldable pub iter_pairs : FieldMap → List (Str × Str)
iter_pairs [] = []
iter_pairs ((k, v) ∷ m) = with_key k (values v) ++ iter_pairs m

-- `FromIterator`
unfoldable pub from_pairs : FieldMap → List (Str × Str) → FieldMap
unfolding insert
from_pairs m [] = m
from_pairs m ((k, v) ∷ rest) = from_pairs (insert k v m) rest
