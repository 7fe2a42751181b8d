-- ===== src/Sse.antt =====
-- The incremental parser of server-sent events, crates/gabriel-core/src/sse.rs.
pub mod Feed
pub mod Chunks
pub mod Fields
mod Tests
use gabrielbrowser.Base.{
  ℕ, zero, suc, Bool, true, false, not, Option, none, some, List, [], ◌∷◌, ◌++◌, Str, codes, str_eq,
  if◌then◌else◌, length, strip_suffix, strip_prefix, starts_with, ◌&&◌,
}
use gabrielbrowser.Base.Text.{split_once, join, is_empty, has_byte, parse_u64}
use gabrielbrowser.Base.Utf8.{from_utf8_lossy}

pub record Event : Type 0 where
  pub name : Option Str
  pub «data» : Str
  pub id : Option Str
  pub retry_ms : Option ℕ

pub record Parser : Type 0 where
  pub buffer : Str
  pub name : Option Str
  pub «data» : List Str
  pub last_id : Option Str
  pub retry_ms : Option ℕ
  pub started : Bool

abbrev pub new : Parser
new = record {
  buffer = [];
  name = none;
  «data» = [];
  last_id = none;
  retry_ms = none;
  started = false;
}

abbrev pub is_empty_event : Event → Bool
is_empty_event e = is_empty e.«data» && elim e.name [ none ↦ true | some n ↦ false ]

unfoldable pub dispatch : Parser → Parser × Event
dispatch p = (
  record p { name = none; retry_ms = none; «data» = []; started = false },
  record {
    name = p.name;
    «data» = join (codes "\n") p.«data»;
    id = p.last_id;
    retry_ms = p.retry_ms;
  },
)

-- `self.started.then(|| self.dispatch())`
unfoldable pub dispatch_started : Parser → Parser × Option Event
unfolding dispatch
dispatch_started p = if p.started then (let (p', e) = dispatch p in (p', some e)) else (p, none)

-- The field and the value of a line: one space after the colon is dropped.
unfoldable pub field_value : Str → Str × Str
field_value line = elim (split_once b':' line) [
  | some (field, value) ↦ elim (strip_prefix value (codes " ")) [
    | some v ↦ (field, v)
    | none ↦ (field, value)
  ]
  | none ↦ (line, [])
]

unfoldable pub apply_field : Parser → Str → Str → Parser
apply_field p field value =
    if str_eq field (codes "event")
    then record p { name = some value; started = true }
    else if str_eq field (codes "data")
    then record p { «data» = p.«data» ++ value ∷ []; started = true }
    else if str_eq field (codes "id")
    then record p {
      last_id = if not (has_byte 0 value) then some value else p.last_id;
      started = true;
    }
    else if str_eq field (codes "retry")
    then record p {
      retry_ms = elim (parse_u64 value) [ some ms ↦ some ms | none ↦ p.retry_ms ];
      started = true;
    }
    else p

unfoldable pub line : Parser → Str → Parser × Option Event
unfolding dispatch_started field_value apply_field
line p text =
    if is_empty text
    then dispatch_started p
    else if starts_with text (codes ":")
    then (p, none)
    else let (field, value) = field_value text in (apply_field p field value, none)

-- a line without the `\r` that may end it
unfoldable pub without_cr : Str → Str
without_cr raw = elim (strip_suffix raw (codes "\r")) [ some r ↦ r | none ↦ raw ]

-- an event, if there is one, in front of the later ones
abbrev pub and_events : Option Event → Parser × List Event → Parser × List Event
and_events none r = r
and_events (some e) r = (r.0, e ∷ r.1)

-- The loop of `push`. A round removes a byte at least, so as many rounds as bytes are enough.
unfoldable pub drain : ℕ → Parser → Parser × List Event
unfolding line without_cr
drain zero p = (p, [])
drain (suc fuel) p = elim (split_once b'\n' p.buffer) [
  | none ↦ (p, [])
  | some (raw, rest) ↦
      let (p', event) = line (record p { buffer = rest }) (from_utf8_lossy (without_cr raw)) in
      and_events event (drain fuel p')
]

unfoldable pub push : Parser → Str → Parser × List Event
unfolding drain
push p chunk =
    let p' : Parser = record p { buffer = p.buffer ++ chunk } in drain (length p'.buffer) p'

unfoldable pub finish : Parser → Parser × Option Event
unfolding line dispatch_started
finish p =
    let p' : Parser =
      if not (is_empty p.buffer)
      then (line (record p { buffer = [] }) (from_utf8_lossy p.buffer)).0
      else p in
    dispatch_started p'
