-- ===== src/Vars.antt =====
-- `{{template}}` resolution, crates/gabriel-core/src/vars.rs.
pub mod Redact
pub mod Secrets
pub mod Fuel
mod Tests
use gabrielbrowser.Base.{
  ℕ, zero, suc, Bool, true, false, not, ◌||◌, Option, none, some, List, [], ◌∷◌, ◌++◌, Str, codes,
  str_eq, if◌then◌else◌, length, filter, any, strip_prefix,
}
use gabrielbrowser.Base.Text.{split_once_str, contains, trim, is_empty}
use gabrielbrowser.Base.Map
use gabrielbrowser.Base.Map.{Map, extend}
use gabrielbrowser.Base.Sort.{stable_sort, longest_first}
use gabrielbrowser.Base.Results.{Result, ok, err, and_then}
use gabrielbrowser.Model.Fields.{FieldMap, FieldValue, one, many}

-- The errors of crates/gabriel-core/src/error.rs that resolution returns.
pub data Error : Type 0 where
  variable_recursion : Str → Error
  unterminated_template : Str → Error
  unknown_secret : Str → Error
  unknown_variable : Str → Error
  invalid : Str → Error

-- What resolution asks the world for: the secret provider, the process environment, and the values
-- that are generated, which may differ at every draw.
pub record World : Type 0 where
  pub secret : Str → Option Str
  pub env : Str → Option Str
  pub uuid : ℕ → Str
  pub timestamp : ℕ → Str
  pub iso_timestamp : ℕ → Str
  pub random_int : ℕ → Str

-- `Resolver` without its secret provider, which is the world's; `draws` counts the generated values.
pub record Resolver : Type 0 where
  pub vars : Map Str
  pub allow_process_env : Bool
  pub used_secrets : Map (Unit {0})
  pub draws : ℕ

abbrev pub new : Resolver
new = record { vars = []; allow_process_env = false; used_secrets = []; draws = 0 }

abbrev pub with_process_env : Resolver → Bool → Resolver
with_process_env r allow = record r { allow_process_env = allow }

abbrev pub with_vars : Resolver → Map Str → Resolver
with_vars r vars = record r { vars = extend r.vars vars }

abbrev pub set : Resolver → Str → Str → Resolver
set r key value = record r { vars = Map.insert key value r.vars }

abbrev pub get : Resolver → Str → Option Str
get r key = Map.lookup key r.vars

-- the keys of a set
abbrev pub members : Map (Unit {0}) → List Str
members [] = []
members ((k, v) ∷ m) = k ∷ members m

unfoldable pub used_secrets_list : Resolver → List Str
used_secrets_list r = stable_sort (longest_first length) (members r.used_secrets)

unfoldable pub generated_value : World → Str → ℕ → Option Str
generated_value w name draw =
    if str_eq name (codes "$uuid")
    then some (w.uuid draw)
    else if str_eq name (codes "$timestamp")
    then some (w.timestamp draw)
    else if str_eq name (codes "$isoTimestamp")
    then some (w.iso_timestamp draw)
    else if str_eq name (codes "$randomInt")
    then some (w.random_int draw)
    else none

abbrev pub Outcome : Type 0
Outcome = Resolver × Result Error Str

-- `used_secrets.insert`, of a value that is not empty
abbrev pub record_secret : Resolver → Str → Resolver
record_secret r value =
    if not (is_empty value)
    then record r { used_secrets = Map.insert value tt r.used_secrets }
    else r

unfoldable pub lookup_secret : World → Resolver → Str → Outcome
lookup_secret w r key = elim (w.secret key) [
  | none ↦ (r, err (unknown_secret key))
  | some value ↦ (record_secret r value, ok value)
]

unfoldable pub lookup_env : World → Resolver → Str → Outcome
lookup_env w r key =
    if not r.allow_process_env
    then (
      r,
      err (
          invalid (
            codes "`{{env:"
            ++ (key ++ codes "}}` needs --allow-env; process environment access is opt-in"))),
    )
    else elim (w.env key) [
      | none ↦ (r, err (unknown_variable (codes "env:" ++ key)))
      | some value ↦ (r, ok value)
    ]

-- `expand`, one level deeper
abbrev pub Expander : Type 0
Expander = Resolver → Str → List Str → Outcome

unfoldable pub lookup_var : Expander → Resolver → Str → List Str → Outcome
lookup_var deeper r name stack = elim (Map.lookup name r.vars) [
  | none ↦ (r, err (unknown_variable name))
  | some raw ↦
      if any (λ n. str_eq n name) stack
      then (r, err (variable_recursion name))
      else deeper r raw (stack ++ name ∷ [])
]

unfoldable pub lookup : World → Expander → Resolver → Str → List Str → Outcome
unfolding lookup_secret lookup_env lookup_var generated_value
lookup w deeper r name stack = elim (strip_prefix name (codes "secret:")) [
  | some key ↦ lookup_secret w r (trim key)
  | none ↦ elim (strip_prefix name (codes "env:")) [
    | some key ↦ lookup_env w r (trim key)
    | none ↦ elim (generated_value w name r.draws) [
      | some value ↦ (record r { draws = suc r.draws }, ok value)
      | none ↦ lookup_var deeper r name stack
    ]
  ]
]

-- The loop of `expand`. A round takes at least the four bytes of the braces from `rest`, so as many
-- rounds as bytes are enough.
unfoldable pub expand_loop :
    (Resolver → Str → Outcome) → (template : Str) → ℕ → Resolver → (out rest : Str) → Outcome
expand_loop look template zero r out rest = (r, ok (out ++ rest))
expand_loop look template (suc fuel) r out rest = elim (split_once_str (codes "{{") rest) [
  | none ↦ (r, ok (out ++ rest))
  | some (before, after) ↦ elim (split_once_str (codes "}}") after) [
    | none ↦ (r, err (unterminated_template template))
    | some (name, later) ↦
        and_then (look r (trim name))
          (λ r' value. expand_loop look template fuel r' ((out ++ before) ++ value) later)
  ]
]

abbrev pub last_or : Str → List Str → Str
last_or d [] = d
last_or d (x ∷ []) = x
last_or d (x ∷ y ∷ xs) = last_or d (y ∷ xs)

-- `expand` at depth `9 - left`: MAX_DEPTH is 8, so no level is left at depth 9.
unfoldable pub expand : World → (left : ℕ) → Expander
unfolding lookup expand_loop
expand w zero r template stack = (r, err (variable_recursion (last_or template stack)))
expand w (suc left) r template stack =
    if not (contains template (codes "{{"))
    then (r, ok template)
    else expand_loop (λ r' name. lookup w (expand w left) r' name stack) template (length template)
        r [] template

unfoldable pub resolve : World → Resolver → Str → Outcome
unfolding expand
resolve w r template = expand w 9 r template []

unfoldable pub resolve_list : World → Resolver → List Str → Resolver × Result Error (List Str)
unfolding resolve
resolve_list w r [] = (r, ok [])
resolve_list w r (s ∷ list) =
    and_then (resolve w r s)
      (λ r' v. and_then (resolve_list w r' list) (λ r'' vs. (r'', ok (v ∷ vs))))

unfoldable pub resolve_value : World → Resolver → FieldValue → Resolver × Result Error FieldValue
unfolding resolve resolve_list
resolve_value w r (one s) = and_then (resolve w r s) (λ r' v. (r', ok (one v)))
resolve_value w r (many list) = and_then (resolve_list w r list) (λ r' vs. (r', ok (many vs)))

-- `resolve_map`, from the entries resolved before
unfoldable pub resolve_map :
    World → Resolver → FieldMap → FieldMap → Resolver × Result Error FieldMap
unfolding resolve resolve_value
resolve_map w r out [] = (r, ok out)
resolve_map w r out ((key, value) ∷ m) = and_then (resolve w r key) (λ r' k.
    and_then (resolve_value w r' value) (λ r'' v. resolve_map w r'' (Map.insert k v out) m))
