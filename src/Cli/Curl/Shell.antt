-- ===== src/Cli/Curl/Shell.antt =====
-- How a POSIX shell takes a command line apart, as far as the commands of
-- crates/gabriel-cli/src/codegen.rs go: this is the description that they are held against.
use gabrielbrowser.Base.{
  ℕ, Bool, ◌||◌, Option, none, some, List, [], ◌∷◌, ◌++◌, Str, if◌then◌else◌, ◌==◌,
}
use gabrielbrowser.Collection.Slug.{is_ascii_alphanumeric}

-- A byte that stands for itself outside quotes.
abbrev pub is_literal : ℕ → Bool
is_literal c =
    is_ascii_alphanumeric c || (c == b'-' || (c == b'_' || (c == b'.' || (c == b'/' || c == b':'))))

-- Between words, in a word, between single quotes, and behind a backslash between words or in a word;
-- with the word so far.
pub data Mode : Type 0 where
  between : Mode
  word : Str → Mode
  quoted : Str → Mode
  escaped_between : Mode
  escaped : Str → Mode

-- A byte in a word; the word that it ends, if it does. `none`: the byte has another meaning.
abbrev pub in_word : Str → ℕ → Option (Mode × List Str)
in_word w c =
    if c == b' '
    then some (between, w ∷ [])
    else if c == 0x27
    then some (quoted w, [])
    else if c == 0x5c
    then some (escaped w, [])
    else if is_literal c
    then some (word (w ++ c ∷ []), [])
    else none

abbrev pub next : Mode → ℕ → Option (Mode × List Str)
next between c =
    if c == b' '
    then some (between, [])
    else if c == 0x5c
    then some (escaped_between, [])
    else in_word [] c
next (word w) c = in_word w c
next (quoted w) c = if c == 0x27 then some (word w, []) else some (quoted (w ++ c ∷ []), [])
next escaped_between c = if c == b'\n' then some (between, []) else some (word (c ∷ []), [])
next (escaped w) c = if c == b'\n' then some (word w, []) else some (word (w ++ c ∷ []), [])

-- the words at the end of the line
abbrev pub last_words : Mode → Option (List Str)
last_words between = some []
last_words (word w) = some (w ∷ [])
last_words _ = none

abbrev pub prepend : List Str → Option (List Str) → Option (List Str)
prepend ws none = none
prepend ws (some rest) = some (ws ++ rest)

-- The words of a line, from a mode on.
unfoldable pub words : Mode → Str → Option (List Str)
words m [] = last_words m
words m (c ∷ s) = elim (next m c) [ none ↦ none | some (m', ws) ↦ prepend ws (words m' s) ]
