-- ===== src/Json/Elements.antt =====
-- Positions in arrays. No file of the repository: these are laws of `serde_json::Value::get`.
use gabrielbrowser.Base.{ℕ, zero, suc, Option, none, some, Str, ◌≡◌, refl}
use gabrielbrowser.Json.{Json, Elems, nil, cons, end, get_elem, get_prop}

module _ {N : Type 0} where
  abbrev pub drop_elems : ℕ → Elems N → Elems N
  drop_elems zero vs = vs
  drop_elems (suc i) nil = nil
  drop_elems (suc i) (cons v vs) = drop_elems i vs

  abbrev pub first_elem : Elems N → Option (Json N)
  first_elem nil = none
  first_elem (cons v vs) = some v

  abbrev pub rest_elems : Elems N → Elems N
  rest_elems nil = nil
  rest_elems (cons v vs) = vs

  pub get_elem-drop : (i : ℕ) (b : Elems N) → get_elem i b ≡ first_elem (drop_elems i b)
  unfolding get_elem
  get_elem-drop zero nil = refl
  get_elem-drop zero (cons v b) = refl
  get_elem-drop (suc i) nil = refl
  get_elem-drop (suc i) (cons v b) = get_elem-drop i b

  pub get_prop-end : (k : Str) → get_prop {N = N} k end ≡ none
  unfolding get_prop
  get_prop-end k = refl

  pub drop_elems-suc : (i : ℕ) (b : Elems N) → drop_elems (suc i) b ≡ rest_elems (drop_elems i b)
  drop_elems-suc zero nil = refl
  drop_elems-suc zero (cons v b) = refl
  drop_elems-suc (suc i) nil = refl
  drop_elems-suc (suc i) (cons v b) = drop_elems-suc i b
