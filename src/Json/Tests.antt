-- ===== src/Json/Tests.antt =====
-- Documents, paths and diffs on concrete inputs, and the instances of the theorems,
-- crates/gabriel-core/src/jsonpath.rs and diff.rs.
use gabrielbrowser.Base.{
  str_eq, strip_prefix, starts_with, ℕ, true, none, some, List, [], ◌∷◌, codes, ◌≡◌, refl, All,
  arith, ◌==◌, ltb, ◌↔◌,
}
use gabrielbrowser.Base.Map.{str_lt}
use gabrielbrowser.Base.Results.{ok, err}
use gabrielbrowser.Json.{
  Json, Elems, JsonOps, null, number, string, array, object, nil, cons, end, prop, json_eq,
  get_prop, get_elem,
}
use gabrielbrowser.Base.Decimal.{decimal}
use gabrielbrowser.Base.Text.{trim}
use gabrielbrowser.Json.Select.{
  Segment, key, index, parse, select, segments_of, without_root, bad_json_path,
}
use gabrielbrowser.Json.Select.Loop.{print_from, IsPlainKey}
use gabrielbrowser.Json.Select.RoundTrip.{parse-print_from}
use gabrielbrowser.Json.Diff.{join, changed_at, added_at, removed_at, diff_json}
use gabrielbrowser.Json.Order.{IsOrdered}
use gabrielbrowser.Json.Diff.Empty.{diff_json-empty_iff}
use gabrielbrowser.Json.Diff.Places.{IsPlaced}
use gabrielbrowser.Json.Diff.Placed.{diff_json-IsPlaced}

abbrev ops : JsonOps ℕ ℕ
ops = record {
  num_eq = λ m n. m == n;
  as_f64 = λ n. some n;
  f64_eq = λ m n. m == n;
  f64_lt = ltb;
  from_u64 = λ n. n;
  to_string = λ _. codes "?";
  from_slice = λ _. none;
}

-- {"id": 7, "tags": ["a", null]} and {"id": 8, "name": "x", "tags": ["a"]}
abbrev tags : Elems ℕ
tags = cons (string (codes "a")) (cons null nil)

abbrev earlier : Json ℕ
earlier = object (prop (codes "id") (number 7) (prop (codes "tags") (array tags) end))

abbrev later : Json ℕ
later = object (
    prop (codes "id") (number 8) (
      prop (codes "name") (string (codes "x"))
        (prop (codes "tags") (array (cons (string (codes "a")) nil)) end)))

abbrev user_name : List Segment
user_name = key (codes "users") ∷ index 12 ∷ key (codes "name") ∷ []

parse-print_from_example : parse (print_from [] user_name) ≡ ok user_name
parse-print_from_example =
    parse-print_from (key (codes "users")) (index 12 ∷ key (codes "name") ∷ []) (
      (refl, (refl, (refl, (refl, (refl, (refl, tt)))))),
      (omega arith, ((refl, (refl, (refl, (refl, (refl, tt))))), tt)),
    )

earlier-IsOrdered : IsOrdered earlier
unfolding str_lt
earlier-IsOrdered = ((refl, tt), (tt, (tt, ((tt, (tt, tt)), tt))))

later-IsOrdered : IsOrdered later
unfolding str_lt
later-IsOrdered = ((refl, (refl, tt)), (tt, ((refl, tt), (tt, (tt, ((tt, tt), tt))))))

diff_json-empty_iff_example :
    (diff_json ops earlier later ≡ []) ↔ (json_eq ops.num_eq earlier later ≡ true)
diff_json-empty_iff_example =
    diff_json-empty_iff ops earlier later earlier-IsOrdered later-IsOrdered

id-IsPlainKey : IsPlainKey (codes "id")
id-IsPlainKey = (refl, (refl, (refl, tt)))

tags-IsPlainKey : IsPlainKey (codes "tags")
tags-IsPlainKey = (refl, (refl, (refl, (refl, (refl, tt)))))

name-IsPlainKey : IsPlainKey (codes "name")
name-IsPlainKey = (refl, (refl, (refl, (refl, (refl, tt)))))

diff_json-IsPlaced_example : All (IsPlaced ops earlier later) (diff_json ops earlier later)
diff_json-IsPlaced_example =
    diff_json-IsPlaced ops earlier later
      (id-IsPlainKey, (tt, (tags-IsPlainKey, ((omega arith, (tt, (tt, tt))), tt))))
      earlier-IsOrdered
      (
        id-IsPlainKey,
        (tt, (name-IsPlainKey, (tt, (tags-IsPlainKey, ((omega arith, (tt, tt)), tt))))),
      )
      later-IsOrdered

diff_json_test :
    diff_json ops earlier later
    ≡ changed_at ops (codes "id") (number 7) (number 8)
      ∷ removed_at ops (codes "tags[1]") null
      ∷ added_at ops (codes "name") (string (codes "x"))
      ∷ []
unfolding diff_json get_prop str_eq json_eq join get_elem decimal
diff_json_test = refl

abbrev one : Json ℕ
one = number 1

abbrev two : Json ℕ
two = number 2

-- The path at which a change of whole documents is reported is refused.
root_path_test :
    (diff_json ops one two ≡ changed_at ops (codes "$") one two ∷ [])
    × (select one (codes "$") ≡ err (bad_json_path []))
unfolding diff_json select json_eq parse segments_of trim strip_prefix starts_with without_root
root_path_test = (refl, refl)
