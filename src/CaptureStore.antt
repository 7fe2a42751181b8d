-- ===== src/CaptureStore.antt =====
-- The capture log, crates/gabriel-proxy/src/store.rs: a file of newline-delimited JSON that is
-- appended to and read backwards in chunks. `decode` is `serde_json::from_slice::<Capture>`.
pub mod Scan
pub mod Queries
pub mod Append
mod Tests
use gabrielbrowser.Base.{
  ℕ, zero, suc, ◌+◌, ◌-◌, ◌==◌, min, Bool, true, false, not, ◌&&◌, ◌||◌, Option, none, some, List,
  [], ◌∷◌, ◌++◌, Str, codes, str_eq, if◌then◌else◌, length, take, drop, ltb, leb, reverse,
  starts_with, eq_ignore_ascii_case,
}
use gabrielbrowser.Base.Text.{is_empty, contains, split, split_once}
use gabrielbrowser.Capture
use gabrielbrowser.Capture.{Capture, host}

pub record CaptureFilter : Type 0 where
  pub host : Option Str
  pub url : Option Str
  pub method : Option Str
  pub status_min : Option ℕ
  pub status_max : Option ℕ
  pub session : Option Str

-- a test of an optional part of a filter, which holds when the part is not there
abbrev pub holds_for : Option Str → (Str → Bool) → Bool
holds_for none test = true
holds_for (some x) test = test x

abbrev pub or_default : ℕ → Option ℕ → ℕ
or_default d none = d
or_default d (some n) = n

-- the `match` on the status and its bounds; a status is a `u16`
abbrev pub status_matches : Option ℕ → Option ℕ → Option ℕ → Bool
status_matches status none none = true
status_matches (some s) min max = leb (or_default 0 min) s && leb s (or_default 65535 max)
status_matches none min max = false

abbrev pub is_session : Option Str → Str → Bool
is_session none name = false
is_session (some s) name = str_eq s name

unfoldable pub matches : CaptureFilter → Capture → Bool
matches f c =
    if not (holds_for f.host (λ h. contains (host c) h))
    then false
    else if not (holds_for f.url (λ u. contains c.request.url u))
    then false
    else if not (holds_for f.method (λ m. eq_ignore_ascii_case c.request.method m))
    then false
    else if not (holds_for f.session (λ s. is_session c.session s))
    then false
    else status_matches (Capture.status c) f.status_min f.status_max

-- the bytes that `append` writes; `none` is a file that does not exist
unfoldable pub append : (Capture → Str) → Option Str → Capture → Option Str
append encode file c = some (elim file [ none ↦ [] | some bs ↦ bs ] ++ (encode c ++ codes "\n"))

unfoldable pub clear : Option Str → Option Str
clear file = none

abbrev pub chunk_size : ℕ
chunk_size = 65536

module _ (decode : Str → Option Capture) {S : Type 0} (visit : S → Capture → S × Bool) where
  -- one line: the visitor's state, and whether to go on
  unfoldable pub visit_line : S → Str → S × Bool
  visit_line s line =
      if is_empty line
      then (s, true)
      else elim (decode line) [ none ↦ (s, true) | some c ↦ visit s c ]

  unfoldable pub visit_lines : S → List Str → S × Bool
  unfolding visit_line
  visit_lines s [] = (s, true)
  visit_lines s (line ∷ lines) =
      let (s', go_on) = visit_line s line in
      let rest = visit_lines s' lines in if go_on then rest else (s', false)

  -- the lines of a chunk, the last one first
  abbrev pub visit_chunk : S → Str → S × Bool
  visit_chunk s complete = visit_lines s (reverse (split b'\n' complete))

  -- what is left at the start of the file
  unfoldable pub visit_tail : S → Str → S
  unfolding visit_line
  visit_tail s tail = (visit_line s tail).0

  -- The loop of `scan_backwards` on a file read `size` bytes at a time. A round takes a byte at
  -- least from `remaining`, so as many rounds as bytes are enough.
  unfoldable pub scan_rounds : (size : ℕ) (file : Str) → ℕ → (remaining : ℕ) (tail : Str) → S → S
  unfolding visit_lines visit_tail
  scan_rounds size file zero remaining tail s = visit_tail s tail
  scan_rounds size file (suc fuel) remaining tail s =
      if remaining == 0
      then visit_tail s tail
      else (let read_size = min size remaining in
          let remaining' = remaining - read_size in
          let chunk = take read_size (drop remaining' file) ++ tail in
          elim (split_once b'\n' chunk) [
            | some (carry, complete) ↦
                let (s', go_on) = visit_chunk s complete in
                if go_on then scan_rounds size file fuel remaining' carry s' else s'
            | none ↦
                if ltb 0 remaining'
                then scan_rounds size file fuel remaining' chunk s
                else (let (s', go_on) = visit_chunk s chunk in
                    if go_on then scan_rounds size file fuel remaining' [] s' else s')
          ])

  unfoldable pub scan_backwards : ℕ → Option Str → S → S
  unfolding scan_rounds
  scan_backwards size none s = s
  scan_backwards size (some file) s = scan_rounds size file (length file) (length file) [] s

-- the visitors of the queries
abbrev pub list_visit : CaptureFilter → ℕ → List Capture → Capture → List Capture × Bool
list_visit filter limit captures c =
    let captures' = if matches filter c then captures ++ c ∷ [] else captures in
    (captures', ltb (length captures') limit)

abbrev pub get_visit : Str → Option Capture → Capture → Option Capture × Bool
get_visit id found c =
    if str_eq c.id id || starts_with c.id id then (some c, false) else (found, true)

module _ (decode : Str → Option Capture) (file : Option Str) where
  unfoldable pub list : CaptureFilter → ℕ → List Capture
  unfolding scan_backwards
  list filter limit =
      if limit == 0 then [] else scan_backwards decode (list_visit filter limit) chunk_size file []

  unfoldable pub get : Str → Option Capture
  unfolding scan_backwards
  get id = scan_backwards decode (get_visit id) chunk_size file none

  unfoldable pub count : ℕ
  unfolding scan_backwards
  count = scan_backwards decode (λ n (c : Capture). (n + 1, true)) chunk_size file 0
