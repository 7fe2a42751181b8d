-- ===== src/Sse/Fields.antt =====
-- Which events the lines of a stream give, crates/gabriel-core/src/sse.rs.
use gabrielbrowser.Base.{
  ℕ, true, false, Option, none, some, List, [], ◌∷◌, ◌++◌, Str, append-nil, append_assoc, map, ◌≡◌,
  refl, sym, ap, ◌∙◌, codes, str_eq, starts_with, strip_prefix, All,
}
use gabrielbrowser.Base.Text.{split_once, has_byte, join}
use gabrielbrowser.Base.Utf8.{from_utf8_lossy}
use gabrielbrowser.Sse.{
  Parser, Event, line, without_cr, and_events, push, dispatch_started, apply_field, field_value,
  dispatch, finish,
}
use gabrielbrowser.Sse.Feed.{
  feed, push-feed, with_buffer, feed-kept, feed-newline, line_of, line_of-buffer,
}
use gabrielbrowser.Sse.Chunks.{concat}

-- The lines of a stream, handled in order.
unfoldable pub lines : Parser → List Str → Parser × List Event
lines p [] = (p, [])
lines p (l ∷ ls) = and_events (line p l).1 (lines (line p l).0 ls)

-- A line that gives no event.
lines-quiet :
    (p : Parser) (l : Str) (ls : List Str) (q : Parser)
    → line p l ≡ (q, none)
    → lines p (l ∷ ls) ≡ lines q ls
unfolding lines
lines-quiet p l ls q e = ap (λ (r : Parser × Option Event). and_events r.1 (lines r.0 ls)) e

-- A line that bytes carry unchanged: no newline in it, no `\r` at its end, and valid UTF-8.
abbrev pub IsLine : Str → Type 0
IsLine l = (has_byte b'\n' l ≡ false) × (from_utf8_lossy (without_cr l) ≡ l)

abbrev pub wire : List Str → Str
wire ls = concat (map (λ (l : Str). l ++ codes "\n") ls)

feed-wire :
    (p : Parser) (ls : List Str)
    → All IsLine ls
    → feed (with_buffer [] p) (wire ls) ≡ lines (with_buffer [] p) ls
unfolding lines
feed-wire p [] _ = unfold feed in refl
feed-wire p (l ∷ ls) ((clean, same), rest) =
    let q : Parser = (line_of p l).0 in
    let later : feed q (wire ls) ≡ lines q ls = rw (line_of-buffer p l) (feed-wire q ls rest) in
    ap (feed (with_buffer [] p)) (append_assoc l (codes "\n") (wire ls))
    ∙ feed-kept p [] l (b'\n' ∷ wire ls) clean
    ∙ feed-newline (with_buffer l p) (wire ls)
    ∙ ap (and_events (line_of p l).1) later
    ∙ ap
        (λ (text : Str).
          and_events (line (with_buffer [] p) text).1 (lines (line (with_buffer [] p) text).0 ls))
        same

-- The lines that carry an event: its name, the lines of its data, its id, and the blank line.
abbrev pub encode : Str → List Str → Str → List Str
encode name parts id =
    (codes "event: " ++ name)
    ∷ (map (λ (d : Str). codes "data: " ++ d) parts ++ (codes "id: " ++ id) ∷ [] ∷ [])

line-event :
    (p : Parser) (v : Str)
    → line p (codes "event: " ++ v) ≡ (record p { name = some v; started = true }, none)
unfolding line starts_with strip_prefix field_value split_once apply_field str_eq
line-event p v = refl

line-data :
    (p : Parser) (v : Str)
    → line p (codes "data: " ++ v)
      ≡ (record p { «data» = p.«data» ++ v ∷ []; started = true }, none)
unfolding line starts_with strip_prefix field_value split_once apply_field str_eq
line-data p v = refl

line-id :
    (p : Parser) (v : Str)
    → has_byte 0 v ≡ false
    → line p (codes "id: " ++ v) ≡ (record p { last_id = some v; started = true }, none)
unfolding line starts_with strip_prefix field_value split_once apply_field str_eq
line-id p v h = rw h refl

-- A parser in the middle of an event.
abbrev pub under_way : Option Str → List Str → Option Str → Option ℕ → Parser
under_way name parts id retry_ms = record {
  buffer = [];
  name = name;
  «data» = parts;
  last_id = id;
  retry_ms = retry_ms;
  started = true;
}

lines-data :
    (n : Option Str) (ds : List Str) (i : Option Str) (r : Option ℕ) (parts rest : List Str)
    → lines (under_way n ds i r) (map (λ (d : Str). codes "data: " ++ d) parts ++ rest)
      ≡ lines (under_way n (ds ++ parts) i r) rest
lines-data n ds i r [] rest = rw append-nil refl
lines-data n ds i r (d ∷ parts) rest =
    lines-quiet (under_way n ds i r) (codes "data: " ++ d) _ _ (line-data (under_way n ds i r) d)
    ∙ lines-data n (ds ++ d ∷ []) i r parts rest
    ∙ ap (λ l. lines (under_way n l i r) rest) (append_assoc ds (d ∷ []) parts)

-- A parser between two events, with nothing left over but the last id.
abbrev pub idle : Option Str → Parser
idle id = record {
  buffer = [];
  name = none;
  «data» = [];
  last_id = id;
  retry_ms = none;
  started = false;
}

lines-encode :
    (old : Option Str) (name : Str) (parts : List Str) (id : Str)
    → has_byte 0 id ≡ false
    → lines (idle old) (encode name parts id) ≡ (
      idle (some id),
      record { name = some name; «data» = join (codes "\n") parts; id = some id; retry_ms = none }
          ∷ [],
    )
lines-encode old name parts id h =
    lines-quiet (idle old) (codes "event: " ++ name) _ _ (line-event (idle old) name)
    ∙ lines-data (some name) [] old none parts ((codes "id: " ++ id) ∷ [] ∷ [])
    ∙ lines-quiet (under_way (some name) parts old none) (codes "id: " ++ id) _ _
        (line-id (under_way (some name) parts old none) id h)
    ∙ last_line
  where
    last_line : lines (under_way (some name) parts (some id) none) ([] ∷ []) ≡ (
      idle (some id),
      record { name = some name; «data» = join (codes "\n") parts; id = some id; retry_ms = none }
          ∷ [],
    )
    last_line = unfold lines line dispatch_started dispatch in refl

-- An event written on the wire is read back with its name, the lines of its data joined by
-- newlines and its id, whatever the id before it; the id is kept for the next event.
pub push-encode :
    (old : Option Str) (name : Str) (parts : List Str) (id : Str)
    → has_byte 0 id ≡ false
    → All IsLine (encode name parts id)
    → push (idle old) (wire (encode name parts id)) ≡ (
      idle (some id),
      record { name = some name; «data» = join (codes "\n") parts; id = some id; retry_ms = none }
          ∷ [],
    )
push-encode old name parts id h clean =
    push-feed (idle old) (wire (encode name parts id)) refl
    ∙ feed-wire (idle old) (encode name parts id) clean
    ∙ lines-encode old name parts id h

-- The lines of an event that the stream ended in the middle of: no blank line.
abbrev pub encode_cut : Str → List Str → List Str
encode_cut name parts = (codes "event: " ++ name) ∷ map (λ (d : Str). codes "data: " ++ d) parts

lines-encode_cut :
    (old : Option Str) (name : Str) (parts : List Str)
    → lines (idle old) (encode_cut name parts) ≡ (under_way (some name) parts old none, [])
lines-encode_cut old name parts =
    lines-quiet (idle old) (codes "event: " ++ name) _ _ (line-event (idle old) name)
    ∙ ap (lines (under_way (some name) [] old none))
        (sym (append-nil (map (λ (d : Str). codes "data: " ++ d) parts)))
    ∙ lines-data (some name) [] old none parts []
    ∙ nothing_more
  where
    nothing_more :
        lines (under_way (some name) parts old none) [] ≡ (under_way (some name) parts old none, [])
    nothing_more = unfold lines in refl

finish-under_way :
    (n : Option Str) (ds : List Str) (i : Option Str) (r : Option ℕ)
    → (finish (under_way n ds i r)).1
      ≡ some (record { name = n; «data» = join (codes "\n") ds; id = i; retry_ms = r })
unfolding finish dispatch_started dispatch
finish-under_way n ds i r = refl

-- When the stream ends before the blank line of an event, pushing gives nothing, and finishing
-- gives the event as far as it came.
finish-encode_cut :
    (old : Option Str) (name : Str) (parts : List Str)
    → All IsLine (encode_cut name parts)
    → let (p, events) = push (idle old) (wire (encode_cut name parts)) in
      (events ≡ [])
      × ((finish p).1
          ≡ some (record {
            name = some name;
            «data» = join (codes "\n") parts;
            id = old;
            retry_ms = none;
          }))
finish-encode_cut old name parts clean =
    let same : push (idle old) (wire (encode_cut name parts))
        ≡ (under_way (some name) parts old none, []) =
      push-feed (idle old) (wire (encode_cut name parts)) refl
      ∙ feed-wire (idle old) (encode_cut name parts) clean
      ∙ lines-encode_cut old name parts in
    (
      ap (λ (r : Parser × List Event). r.1) same,
      ap (λ (r : Parser × List Event). (finish r.0).1) same
          ∙ finish-under_way (some name) parts old none,
    )
