-- ===== src/Engine/Stream.antt =====
-- Following a response as a stream of events, `Executor::execute_stream` of
-- crates/gabriel-engine/src/lib.rs.
pub mod Events
pub mod Outcome
pub mod Ends
mod Tests
use gabrielbrowser.Base.{
  ℕ, zero, suc, ◌-◌, Bool, true, false, not, Option, none, some, List, [], ◌∷◌, ◌++◌, Str, codes,
  if◌then◌else◌, length, leb, ◌==◌, starts_with, to_ascii_lowercase,
}
use gabrielbrowser.Base.Results.{Result, ok, err}
use gabrielbrowser.Model.Fields.{FieldMap, iter_pairs, get_first, contains_key}
use gabrielbrowser.Engine.{EngineError, transport, SentRequest, Raw}
use gabrielbrowser.Engine.Body.{PreparedBody}
use gabrielbrowser.Engine.Redirect.{response_headers}
use gabrielbrowser.Sse
use gabrielbrowser.Sse.{Event, Parser, push, finish}

pub data StreamEnd : Type 0 where
  closed limit_reached timed_out not_a_stream : StreamEnd

-- The duration is in milliseconds.
pub record StreamLimits : Type 0 where
  pub max_events : ℕ
  pub max_duration : ℕ

abbrev pub default_limits : StreamLimits
default_limits = record { max_events = 100; max_duration = 30000 }

-- What waiting for the next chunk comes to.
pub data Poll : Type 0 where
  late : Poll
  over : Poll
  broken : (message : Str) → Poll
  arrived : (chunk : Str) → Poll

-- The clock and the body's stream, at each turn of the loop; the wait takes what time remains.
pub record Feed : Type 0 where
  pub elapsed : ℕ → ℕ
  pub next : (turn remaining : ℕ) → Poll

-- The loop over the events of a chunk, and whether it returns from the function.
unfoldable pub deliver : ℕ → List Event → List Event → List Event × Bool
deliver max_events events [] = (events, false)
deliver max_events events (event ∷ later) =
    let events' = events ++ event ∷ [] in
    let rest = deliver max_events events' later in
    if leb max_events (length events') then (events', true) else rest

-- after the stream is closed: a half-finished event is surfaced
abbrev pub with_last : List Event → Option Event → List Event
with_last events none = events
with_last events (some event) = events ++ event ∷ []

abbrev pub Followed : Type 0
Followed = Result EngineError (List Event × StreamEnd)

-- what a turn of the loop goes on to
abbrev pub Next : Type 0
Next = Parser → List Event → Option Followed

-- after the events of a chunk
abbrev pub after_push : Next → Parser → List Event × Bool → Option Followed
after_push next parser (events, true) = some (ok (events, limit_reached))
after_push next parser (events, false) = next parser events

module _ (limits : StreamLimits) (feed : Feed) where
  abbrev pub remaining : ℕ → ℕ
  remaining turn = limits.max_duration - feed.elapsed turn

  -- after the wait for a chunk
  abbrev pub after_poll : Next → Parser → List Event → Poll → Option Followed
  after_poll next parser events late = some (ok (events, timed_out))
  after_poll next parser events over = some (ok (with_last events (finish parser).1, closed))
  after_poll next parser events (broken message) = some (err (transport message))
  after_poll next parser events (arrived chunk) =
      let (parser', fresh) = push parser chunk in
      after_push next parser' (deliver limits.max_events events fresh)

  -- after the look at the clock
  abbrev pub after_clock : Next → ℕ → Parser → List Event → Bool → Option Followed
  after_clock next turn parser events true = some (ok (events, timed_out))
  after_clock next turn parser events false =
      after_poll next parser events (feed.next turn (remaining turn))

  -- The loop, from a turn on; `none` says that the rounds ran out.
  unfoldable pub follow : (rounds turn : ℕ) → Next
  unfolding deliver
  follow zero turn parser events = none
  follow (suc rounds) turn parser events =
      after_clock (follow rounds (suc turn)) turn parser events (remaining turn == 0)

-- The headers that are sent: a stream is asked for unless the request says what it wants.
unfoldable pub stream_headers : FieldMap → Option PreparedBody → List (Str × Str)
stream_headers headers body = with_type body
  where
    accepting : List (Str × Str)
    accepting =
        if not (contains_key (codes "accept") headers)
        then iter_pairs headers ++ (codes "Accept", codes "text/event-stream") ∷ []
        else iter_pairs headers

    typed : Option Str → List (Str × Str)
    typed none = accepting
    typed (some ct) =
        if not (contains_key (codes "content-type") headers)
        then accepting ++ (codes "Content-Type", ct) ∷ []
        else accepting

    with_type : Option PreparedBody → List (Str × Str)
    with_type none = accepting
    with_type (some b) = typed b.content_type

abbrev pub names_stream : Option Str → Bool
names_stream none = false
names_stream (some ct) = starts_with (to_ascii_lowercase ct) (codes "text/event-stream")

unfoldable pub is_stream : FieldMap → Bool
unfolding get_first
is_stream headers = names_stream (get_first (codes "content-type") headers)

-- The duration, which the clock gives, is left out.
pub record StreamOutcome : Type 0 where
  pub sent : SentRequest
  pub status : ℕ
  pub status_text : Str
  pub headers : FieldMap
  pub events : List Event
  pub ended : StreamEnd

abbrev pub outcome_of :
    SentRequest → Str → Raw → FieldMap → Followed → Result EngineError StreamOutcome
outcome_of sent status_text raw headers (err e) = err e
outcome_of sent status_text raw headers (ok (events, ended)) = ok (record {
  sent = sent;
  status = raw.status;
  status_text = status_text;
  headers = headers;
  events = events;
  ended = ended;
})

-- `execute_stream` from the response's head on.
unfoldable pub stream_response :
    StreamLimits
    → Feed
    → (rounds : ℕ) → SentRequest
    → (status_text : Str) → Raw
    → Option (Result EngineError StreamOutcome)
unfolding follow is_stream
stream_response limits feed rounds sent status_text raw =
    let headers = response_headers [] raw.headers in
    elim (is_stream headers) [
      | false ↦ some (outcome_of sent status_text raw headers (ok ([], not_a_stream)))
      | true ↦ elim (follow limits feed rounds 0 Sse.new []) [
        | none ↦ none
        | some followed ↦ some (outcome_of sent status_text raw headers followed)
      ]
    ]
