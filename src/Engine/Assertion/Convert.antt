-- ===== src/Engine/Assertion/Convert.antt =====
-- TOML values as JSON values, `toml_to_json` of crates/gabriel-engine/src/assertion.rs.
use gabrielbrowser.Base.{Bool, Str}
use gabrielbrowser.Base.Int.{ℤ}
use gabrielbrowser.Json.{
  Json, Elems, Props, bool as json_bool, number as json_number, string as json_string,
  array as json_array, object as json_object, nil as json_nil, cons as json_cons, end as json_end,
  prop as json_prop,
}

-- `toml::Value`; floating-point numbers `F` and dates `D` are parameters. Tables are in the order of
-- their keys.
mutual
  pub data Toml (F D : Type 0) : Type 0 where
    string : Str → Toml F D
    integer : ℤ → Toml F D
    float : F → Toml F D
    boolean : Bool → Toml F D
    datetime : D → Toml F D
    array : Items F D → Toml F D
    table : Fields F D → Toml F D

  pub data Items (F D : Type 0) : Type 0 where
    nil : Items F D
    cons : Toml F D → Items F D → Items F D

  pub data Fields (F D : Type 0) : Type 0 where
    end : Fields F D
    field : Str → Toml F D → Fields F D → Fields F D

-- the numbers of `serde_json` and the dates of the `toml` crate
pub record TomlOps (N F D : Type 0) : Type 0 where
  pub from_i64 : ℤ → N
  pub from_f64 : F → Json N
  pub date_text : D → Str

module _ {N F D : Type 0} (ops : TomlOps N F D) where
  unfoldable mutual
    pub toml_to_json : Toml F D → Json N
    toml_to_json (string s) = json_string s
    toml_to_json (integer i) = json_number (ops.from_i64 i)
    toml_to_json (float f) = ops.from_f64 f
    toml_to_json (boolean b) = json_bool b
    toml_to_json (datetime d) = json_string (ops.date_text d)
    toml_to_json (array items) = json_array (items_to_json items)
    toml_to_json (table fields) = json_object (fields_to_json fields)

    pub items_to_json : Items F D → Elems N
    items_to_json nil = json_nil
    items_to_json (cons v vs) = json_cons (toml_to_json v) (items_to_json vs)

    pub fields_to_json : Fields F D → Props N
    fields_to_json end = json_end
    fields_to_json (field k v fs) = json_prop k (toml_to_json v) (fields_to_json fs)
