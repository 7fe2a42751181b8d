-- ===== src/Engine/Stream/Tests.antt =====
-- A stream of two chunks, and the instances of the theorems, crates/gabriel-engine/src/lib.rs.
use gabrielbrowser.Base.{
  ℕ, zero, suc, ◌*◌, none, some, [], ◌∷◌, Str, codes, str_eq, ◌≡◌, refl, arith, starts_with,
  strip_suffix, strip_prefix, List,
}
use gabrielbrowser.Base.Results.{Result, ok}
use gabrielbrowser.Sse
use gabrielbrowser.Base.Text.{split_once, join}
use gabrielbrowser.Base.Utf8.{from_utf8_lossy}
use gabrielbrowser.Sse.{
  Event, push, finish, drain, line, dispatch_started, dispatch, field_value, apply_field,
  without_cr,
}
use gabrielbrowser.Engine.{EngineError, SentRequest, Raw}
use gabrielbrowser.Engine.Stream.{
  StreamLimits, StreamOutcome, Feed, Poll, over, arrived, closed, limit_reached, follow, deliver,
  stream_response,
}
use gabrielbrowser.Engine.Stream.Outcome.{FollowedTo, ended_with, follow_lem}
use gabrielbrowser.Engine.Stream.Ends.{stream_response-returns}

abbrev limits : StreamLimits
limits = record { max_events = 3; max_duration = 100 }

-- two chunks that cut an event in two, and the end of the stream
abbrev poll : ℕ → Poll
poll zero = arrived (codes "data: a\n\nda")
poll (suc zero) = arrived (codes "ta: b\n\n")
poll (suc (suc turn)) = over

abbrev feed : Feed
feed = record { elapsed = λ turn. 10 * turn; next = λ turn _. poll turn }

abbrev event : Str → Event
event text = record { name = none; «data» = text; id = none; retry_ms = none }

abbrev events : List Event
events = event (codes "a") ∷ event (codes "b") ∷ []

followed : follow limits feed 3 0 Sse.new [] ≡ ended_with events closed
unfolding follow deliver push finish drain line dispatch_started dispatch field_value apply_field
    without_cr from_utf8_lossy split_once str_eq strip_suffix strip_prefix starts_with join
followed = refl

follow_lem_example : FollowedTo limits feed 0 Sse.new [] (ok (events, closed))
follow_lem_example = follow_lem limits feed 3 (ok (events, closed)) followed

abbrev sent : SentRequest
sent = record { method = codes "GET"; url = codes "https://a/"; headers = []; body = none }

abbrev raw : Raw
raw = record {
  status = 200;
  version = codes "HTTP/1.1";
  url = codes "https://a/";
  headers = (codes "content-type", some (codes "text/event-stream")) ∷ [];
  body = ok [];
}

stream_response-returns_example :
    (r : Result EngineError StreamOutcome) × (stream_response limits feed 11 sent (codes "OK") raw
      ≡ some r)
stream_response-returns_example =
    stream_response-returns limits feed 10 sent (codes "OK") raw (omega arith)

-- A limit of no events lets one through.
no_events_test :
    follow (record { max_events = 0; max_duration = 100 }) feed 1 0 Sse.new []
    ≡ ended_with (event (codes "a") ∷ []) limit_reached
unfolding follow deliver push finish drain line dispatch_started dispatch field_value apply_field
    without_cr from_utf8_lossy split_once str_eq strip_suffix strip_prefix starts_with join
no_events_test = refl
