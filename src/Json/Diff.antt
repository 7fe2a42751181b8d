-- ===== src/Json/Diff.antt =====
-- Differences between JSON documents, crates/gabriel-core/src/diff.rs.
pub mod Responses
pub mod Keys
pub mod Empty
pub mod Extend
pub mod Places
pub mod Placed
use gabrielbrowser.Base.{
  ℕ, zero, suc, ◌+◌, Bool, true, false, not, ◌&&◌, Option, none, some, List, [], ◌∷◌, ◌++◌, Str,
  codes, str_eq, if◌then◌else◌, is_some, ◌==◌, length, to_ascii_lowercase,
}
use gabrielbrowser.Base.Text.{is_empty}
use gabrielbrowser.Base.Decimal.{decimal}
use gabrielbrowser.Json.{
  Json, Elems, Props, JsonOps, null, bool, number, string, array, object, nil, cons, end, prop,
  get_prop, get_elem, elems_len, json_eq,
}

pub data ChangeKind : Type 0 where
  added : (after : Str) → ChangeKind
  removed : (before : Str) → ChangeKind
  changed : (before after : Str) → ChangeKind

pub record Change : Type 0 where
  pub path : Str
  pub kind : ChangeKind

unfoldable pub join : Str → Str → Str
join [] key = key
join (c ∷ path) key = (c ∷ path) ++ b'.' ∷ key

-- `format!("{path}[{i}]")`
abbrev pub at_index : Str → ℕ → Str
at_index path i = path ++ b'[' ∷ (decimal i ++ b']' ∷ [])

-- the path of a change at the root
abbrev pub root_path : Str → Str
root_path [] = codes "$"
root_path (c ∷ path) = c ∷ path

module _ {N F : Type 0} (ops : JsonOps N F) where
  unfoldable pub render : Json N → Str
  render (string s) = s
  render other = ops.to_string other

  abbrev pub added_at : Str → Json N → Change
  added_at path after = record { path = path; kind = added (render after) }

  abbrev pub removed_at : Str → Json N → Change
  removed_at path before = record { path = path; kind = removed (render before) }

  abbrev pub changed_at : Str → Json N → Json N → Change
  changed_at path before after = record {
    path = path;
    kind = changed (render before) (render after);
  }

  -- the last two arms of the match
  abbrev pub leaf : Str → Json N → Json N → List Change
  leaf path a b = if json_eq (ops.num_eq) a b then [] else changed_at (root_path path) a b ∷ []

  -- the second loops: what only the later document has
  unfoldable pub added_props : Str → Props N → Props N → List Change
  added_props path a end = []
  added_props path a (prop k v b) =
      let rest = added_props path a b in
      if is_some (get_prop k a) then rest else added_at (join path k) v ∷ rest

  unfoldable pub added_elems : Str → ℕ → ℕ → Elems N → List Change
  added_elems path i skip nil = []
  added_elems path i zero (cons v b) =
      added_at (at_index path i) v ∷ added_elems path (suc i) zero b
  added_elems path i (suc skip) (cons v b) = added_elems path (suc i) skip b

  -- `walk`, with the two first loops
  unfoldable mutual
    unfolding added_props added_elems

    pub walk : Str → Json N → Json N → List Change
    walk path (object a) (object b) = walk_props path a b ++ added_props path a b
    walk path (array a) (array b) = walk_elems path 0 a b ++ added_elems path 0 (elems_len a) b
    walk path a b = leaf path a b

    pub walk_props : Str → Props N → Props N → List Change
    walk_props path end b = []
    walk_props path (prop k v a) b = elim (get_prop k b) [
      | some w ↦ walk (join path k) v w ++ walk_props path a b
      | none ↦ removed_at (join path k) v ∷ walk_props path a b
    ]

    pub walk_elems : Str → ℕ → Elems N → Elems N → List Change
    walk_elems path i nil b = []
    walk_elems path i (cons v a) b = elim (get_elem i b) [
      | some w ↦ walk (at_index path i) v w ++ walk_elems path (suc i) a b
      | none ↦ removed_at (at_index path i) v ∷ walk_elems path (suc i) a b
    ]

  unfoldable pub diff_json : Json N → Json N → List Change
  unfolding walk
  diff_json before after = walk [] before after
