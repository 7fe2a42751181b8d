-- ===== src/Vars/Tests.antt =====
-- Runs of the resolver of crates/gabriel-core/src/vars.rs, and the instances of its theorems.
use gabrielbrowser.Base.{
  Option, none, some, [], ◌∷◌, Str, codes, str_eq, strip_prefix, ◌≡◌, refl, if◌then◌else◌, arith,
}
use gabrielbrowser.Base.Text.{split_once_str, contains, trim, trim_start, trim_end}
use gabrielbrowser.Base.Map
use gabrielbrowser.Base.Results.{ok, err}
use gabrielbrowser.Vars.{
  World, Resolver, new, resolve, expand, expand_loop, lookup, lookup_secret, lookup_env, lookup_var,
  generated_value, variable_recursion,
}
use gabrielbrowser.Vars.Secrets.{resolve-secrets, with_secrets, IsHiding}

abbrev vault : Str → Option Str
vault key =
    if str_eq key (codes "token")
    then some (codes "sk-1234")
    else if str_eq key (codes "pin")
    then some (codes "{{a}}")
    else none

abbrev no_pin : Str → Option Str
no_pin key = if str_eq key (codes "token") then some (codes "sk-1234") else none

abbrev world : World
world = record {
  secret = vault;
  env = λ _. none;
  uuid = λ n. codes "uuid";
  timestamp = λ n. codes "0";
  iso_timestamp = λ n. codes "iso";
  random_int = λ n. codes "7";
}

abbrev vars : Map.Map Str
vars =
    (codes "a", codes "{{b}}")
    ∷ (codes "b", codes "{{a}}")
    ∷ (codes "host", codes "api.test")
    ∷ (codes "url", codes "https://{{host}}")
    ∷ []

abbrev resolver : Resolver
resolver = record new { vars = vars }

abbrev template : Str
template = codes "{{url}}/v1?k={{ secret:token }}"

run : Unit {0}
unfolding resolve expand expand_loop lookup lookup_secret lookup_env lookup_var generated_value
    split_once_str contains trim trim_start trim_end strip_prefix str_eq Map.lookup Map.insert
run =
    let url : (resolve world resolver template).1 ≡ ok (codes "https://api.test/v1?k=sk-1234") =
      refl in
    let cyclic : (resolve world resolver (codes "{{a}}")).1 ≡ err (variable_recursion (codes "a")) =
      refl in
    let terminal : (resolve world resolver (codes "{{secret:pin}}")).1 ≡ ok (codes "{{a}}") =
      refl in
    tt

hidden : IsHiding (codes "{{a}}") world no_pin
hidden key = ground arith

resolve-secrets_example :
    resolve (with_secrets world no_pin) resolver template ≡ resolve world resolver template
unfolding resolve expand expand_loop lookup lookup_secret lookup_env lookup_var generated_value
    split_once_str contains trim trim_start trim_end strip_prefix str_eq Map.lookup Map.insert
resolve-secrets_example =
    resolve-secrets world resolver template (codes "{{a}}") no_pin refl hidden refl
