-- ===== src/Json/Select.antt =====
-- JSON paths, crates/gabriel-core/src/jsonpath.rs.
pub mod Loop
pub mod RoundTrip
use gabrielbrowser.Base.{
  ℕ, Bool, true, false, not, Option, none, some, List, [], ◌∷◌, ◌++◌, Str, codes, if◌then◌else◌,
  ◌==◌, strip_prefix, reverse,
}
use gabrielbrowser.Base.Text.{trim, is_empty, parse_u64}
use gabrielbrowser.Base.Results.{Result, ok, err}
use gabrielbrowser.Json.{
  Json, JsonOps, null, bool, number, string, array, object, get_key, get_index,
}

pub data Segment : Type 0 where
  key : Str → Segment
  index : ℕ → Segment

-- `Error::BadJsonPath`, with the path
pub data PathError : Type 0 where
  bad_json_path : Str → PathError

-- the path without a leading `$.` or `$`
unfoldable pub without_root : Str → Str
unfolding strip_prefix
without_root path = elim (strip_prefix path (codes "$.")) [
  | some r ↦ r
  | none ↦ elim (strip_prefix path (codes "$")) [ some r ↦ r | none ↦ path ]
]

-- the segments, after the key under way is pushed
abbrev pub flush : List Segment → Str → List Segment
flush segments [] = segments
flush segments (c ∷ current) = segments ++ key (c ∷ current) ∷ []

abbrev pub is_quote : ℕ → Bool
is_quote c = if c == 0x27 then true else c == 0x22

-- `trim_matches(['\'', '"'])`, at the start and at both ends
unfoldable pub trim_start_quotes : Str → Str
trim_start_quotes [] = []
trim_start_quotes (c ∷ s) = let rest = trim_start_quotes s in if is_quote c then rest else c ∷ s

unfoldable pub trim_quotes : Str → Str
unfolding trim_start_quotes
trim_quotes s = reverse (trim_start_quotes (reverse (trim_start_quotes s)))

-- what stands between brackets: a number, or a key that is not empty
unfoldable pub bracket_segment : Str → Option Segment
bracket_segment inner =
    let text = trim_quotes (trim inner) in
    elim (parse_u64 text) [
      | some n ↦ some (index n)
      | none ↦ if is_empty text then none else some (key text)
    ]

-- after the loop
abbrev pub finish : Str → List Segment → Result PathError (List Segment)
finish path [] = err (bad_json_path path)
finish path (s ∷ segments) = ok (s ∷ segments)

-- The loop over the characters. `inner` holds the text of the loop over an index, while that runs.
unfoldable pub segments_of :
    Str → Option Str → List Segment → Str → Str → Result PathError (List Segment)
segments_of path none segments current [] = finish path (flush segments current)
segments_of path (some inner) segments current [] = err (bad_json_path path)
segments_of path (some inner) segments current (c ∷ s) = elim (c == b']') [
  | true ↦ elim (bracket_segment inner) [
    | some segment ↦ segments_of path none (segments ++ segment ∷ []) current s
    | none ↦ err (bad_json_path path)
  ]
  | false ↦ segments_of path (some (inner ++ c ∷ [])) segments current s
]
segments_of path none segments current (c ∷ s) = elim (c == b'.') [
  | true ↦ segments_of path none (flush segments current) [] s
  | false ↦ elim (c == b'[') [
    | true ↦ segments_of path (some []) (flush segments current) [] s
    | false ↦ elim (c == b']') [
      | true ↦ err (bad_json_path path)
      | false ↦ segments_of path none segments (current ++ c ∷ []) s
    ]
  ]
]

unfoldable pub parse : Str → Result PathError (List Segment)
unfolding segments_of without_root
parse text = let path = without_root (trim text) in segments_of path none [] [] path

module _ {N : Type 0} where
  abbrev pub step : Segment → Json N → Option (Json N)
  step (key k) v = get_key k v
  step (index i) v = get_index i v

  -- the loop of `select`
  unfoldable pub walk : List Segment → Json N → Option (Json N)
  walk [] current = some current
  walk (segment ∷ segments) current = elim (step segment current) [
    | some value ↦ walk segments value
    | none ↦ none
  ]

  unfoldable pub select : Json N → Str → Result PathError (Option (Json N))
  unfolding walk
  select root path = elim (parse path) [ err e ↦ err e | ok segments ↦ ok (walk segments root) ]

unfoldable pub to_plain_string : {N F : Type 0} → JsonOps N F → Json N → Str
to_plain_string ops (string s) = s
to_plain_string ops null = []
to_plain_string ops other = ops.to_string other
