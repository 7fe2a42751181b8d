-- ===== src/Json.antt =====
-- JSON documents, `serde_json::Value`, with the operations on them that the source uses. The maps of
-- the crate are in the order of their keys here, since no feature changes that in Cargo.toml.
pub mod Order
pub mod Diff
pub mod Elements
pub mod Select
pub mod Response
mod Tests
use gabrielbrowser.Base.{
  ℕ, zero, suc, Bool, true, false, ◌&&◌, Option, none, some, List, [], ◌∷◌, Str, str_eq,
  if◌then◌else◌,
}

-- The numbers of the crate are a parameter.
mutual
  pub data Json (N : Type 0) : Type 0 where
    null : Json N
    bool : Bool → Json N
    number : N → Json N
    string : Str → Json N
    array : Elems N → Json N
    object : Props N → Json N

  pub data Elems (N : Type 0) : Type 0 where
    nil : Elems N
    cons : Json N → Elems N → Elems N

  pub data Props (N : Type 0) : Type 0 where
    end : Props N
    prop : Str → Json N → Props N → Props N

-- What the source uses of the crate: the equality of numbers, their values as floating-point
-- numbers `F` with the comparisons of those, the reader and the writer.
pub record JsonOps (N F : Type 0) : Type 0 where
  pub num_eq : N → N → Bool
  pub as_f64 : N → Option F
  pub f64_eq : F → F → Bool
  pub f64_lt : F → F → Bool
  pub from_u64 : ℕ → N
  pub to_string : Json N → Str
  pub from_slice : Str → Option (Json N)

module _ {N : Type 0} where
  -- `map.get(key)` and `map.contains_key(key)`
  unfoldable pub get_prop : Str → Props N → Option (Json N)
  get_prop key end = none
  get_prop key (prop k v ps) = let rest = get_prop key ps in if str_eq k key then some v else rest

  -- `value.get(key)` for a text key
  abbrev pub get_key : Str → Json N → Option (Json N)
  get_key key (object ps) = get_prop key ps
  get_key key _ = none

  unfoldable pub get_elem : ℕ → Elems N → Option (Json N)
  get_elem i nil = none
  get_elem zero (cons v vs) = some v
  get_elem (suc i) (cons v vs) = get_elem i vs

  -- `array.len()`
  abbrev pub elems_len : Elems N → ℕ
  elems_len nil = 0
  elems_len (cons v vs) = suc (elems_len vs)

  -- `value.get(index)` for a number
  abbrev pub get_index : ℕ → Json N → Option (Json N)
  get_index i (array vs) = get_elem i vs
  get_index i _ = none

  abbrev pub as_str : Json N → Option Str
  as_str (string s) = some s
  as_str _ = none

  -- `a == b`
  unfoldable mutual
    pub json_eq : (N → N → Bool) → Json N → Json N → Bool
    json_eq same null null = true
    json_eq same (bool true) (bool b) = b
    json_eq same (bool false) (bool true) = false
    json_eq same (bool false) (bool false) = true
    json_eq same (number m) (number n) = same m n
    json_eq same (string s) (string t) = str_eq s t
    json_eq same (array vs) (array ws) = elems_eq same vs ws
    json_eq same (object ps) (object qs) = props_eq same ps qs
    json_eq same _ _ = false

    pub elems_eq : (N → N → Bool) → Elems N → Elems N → Bool
    elems_eq same nil nil = true
    elems_eq same (cons v vs) (cons w ws) = json_eq same v w && elems_eq same vs ws
    elems_eq same _ _ = false

    pub props_eq : (N → N → Bool) → Props N → Props N → Bool
    props_eq same end end = true
    props_eq same (prop k v ps) (prop j w qs) =
        str_eq k j && (json_eq same v w && props_eq same ps qs)
    props_eq same _ _ = false
