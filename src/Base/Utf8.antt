-- ===== src/Base/Utf8.antt =====
-- `String::from_utf8_lossy` and `String::from_utf8` of Rust's library: text from bytes. No file of the repository.
use gabrielbrowser.Base.Tests.{if◌then◌else◌, leb, ltb, ◌==◌}
use gabrielbrowser.Base.Bytes.{Str, str_eq}
use Prim.Native.Nat.{ℕ}
use mathlib.Core.Bool.{◌&&◌}
use mathlib.Core.List.{List, [], ◌∷◌, ◌++◌}
use mathlib.Core.Option.{Option, none, some}

-- the bounds of one continuation byte
abbrev Range : Type 0
Range = ℕ × ℕ

abbrev tail : Range
tail = (0x80, 0xbf)

-- The bounds of the bytes after a first byte, none for a byte that starts no character of several.
abbrev needs_of : ℕ → List Range
needs_of c =
    if leb 0xc2 c && leb c 0xdf
    then tail ∷ []
    else if c == 0xe0
    then (0xa0, 0xbf) ∷ tail ∷ []
    else if c == 0xed
    then (0x80, 0x9f) ∷ tail ∷ []
    else if leb 0xe1 c && leb c 0xef
    then tail ∷ tail ∷ []
    else if c == 0xf0
    then (0x90, 0xbf) ∷ tail ∷ tail ∷ []
    else if leb 0xf1 c && leb c 0xf3
    then tail ∷ tail ∷ tail ∷ []
    else if c == 0xf4
    then (0x80, 0x8f) ∷ tail ∷ tail ∷ []
    else []

-- U+FFFD
abbrev replacement : Str
replacement = 0xef ∷ 0xbf ∷ 0xbd ∷ []

-- `pending` is the part read of a character that still needs bytes in `needs`; a byte that does not
-- fit ends it with one replacement and starts over.
abbrev lossy_from : (pending : Str) (needs : List Range) → Str → Str
lossy_from pending [] [] = pending
lossy_from pending (r ∷ needs) [] = replacement
lossy_from pending [] (c ∷ s) =
    pending
    ++ (if ltb c 0x80 then c ∷ lossy_from [] [] s else elim (needs_of c) [
      | [] ↦ replacement ++ lossy_from [] [] s
      | r ∷ rs ↦ lossy_from (c ∷ []) (r ∷ rs) s
    ])
lossy_from pending (r ∷ needs) (c ∷ s) =
    if leb r.0 c && leb c r.1
    then lossy_from (pending ++ c ∷ []) needs s
    else replacement
      ++ (if ltb c 0x80 then c ∷ lossy_from [] [] s else elim (needs_of c) [
        | [] ↦ replacement ++ lossy_from [] [] s
        | q ∷ qs ↦ lossy_from (c ∷ []) (q ∷ qs) s
      ])

unfoldable pub from_utf8_lossy : Str → Str
from_utf8_lossy s = lossy_from [] [] s

-- Valid bytes are those that stay as they are.
unfoldable pub from_utf8 : Str → Option Str
unfolding from_utf8_lossy str_eq
from_utf8 s = if str_eq (from_utf8_lossy s) s then some s else none
