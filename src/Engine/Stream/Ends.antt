-- ===== src/Engine/Stream/Ends.antt =====
-- A followed stream comes to an end, crates/gabriel-engine/src/lib.rs.
use gabrielbrowser.Base.{
  ℕ, zero, suc, ◌+◌, ◌≤◌, ◌<◌, Bool, true, false, Option, none, some, List, [], Str, ◌==◌, ◌≡◌,
  refl, sym, ap, subst, arith, inl, inr, Bool-cases, ==_iff,
}
use gabrielbrowser.Base.Results.{Result, ok, err}
use gabrielbrowser.Engine.{EngineError, transport, SentRequest, Raw}
use gabrielbrowser.Engine.Redirect.{response_headers}
use gabrielbrowser.Engine.Stream.{
  closed, limit_reached, timed_out, not_a_stream, StreamLimits, Poll, late, over, broken, arrived,
  Feed, deliver, with_last, Followed, follow, remaining, after_push, after_poll, after_clock, Next,
  stream_response, is_stream, StreamOutcome, outcome_of,
}
use gabrielbrowser.Sse
use gabrielbrowser.Sse.{Event, Parser, push, finish}

abbrev pub Returns : Option Followed → Type 0
Returns o = (r : Followed) × (o ≡ some r)

module _ (limits : StreamLimits) (feed : Feed) where
  abbrev AllReturn : Next → Type 0
  AllReturn next = (parser : Parser) (events : List Event) → Returns (next parser events)

  push-Returns :
      (next : Next) (parser : Parser) (delivered : List Event × Bool)
      → AllReturn next
      → Returns (after_push next parser delivered)
  push-Returns next parser (events, true) h = (ok (events, limit_reached), refl)
  push-Returns next parser (events, false) h = h parser events

  poll-Returns :
      (next : Next) (parser : Parser) (events : List Event) (poll : Poll)
      → AllReturn next
      → Returns (after_poll limits feed next parser events poll)
  poll-Returns next parser events late h = (ok (events, timed_out), refl)
  poll-Returns next parser events over h = (ok (with_last events (finish parser).1, closed), refl)
  poll-Returns next parser events (broken message) h = (err (transport message), refl)
  poll-Returns next parser events (arrived chunk) h =
      push-Returns next (push parser chunk).0
        (deliver (limits.max_events) events (push parser chunk).1) h

  clock-Returns :
      (next : Next) (turn : ℕ) (parser : Parser) (events : List Event) (b : Bool)
      → AllReturn next
      → Returns (after_clock limits feed next turn parser events b)
  clock-Returns next turn parser events true h = (ok (events, timed_out), refl)
  clock-Returns next turn parser events false h =
      poll-Returns next parser events (feed.next turn (remaining limits feed turn)) h

  -- At the last turn no time remains.
  no_time :
      (turn : ℕ)
      → limits.max_duration ≤ feed.elapsed turn
      → (remaining limits feed turn == 0) ≡ true
  no_time turn h = ground arith

  not_last :
      (turn last : ℕ)
      → limits.max_duration ≤ feed.elapsed last
      → (remaining limits feed turn == 0) ≡ false
      → turn ≤ last
      → suc turn ≤ last
  not_last turn last up e h = elim (Bool-cases (turn == last)) [
    | inr different ↦ below turn last different h
    | inl same ↦
        let equal : last ≡ turn = sym ((==_iff turn last).0 same) in
        let zero_left =
          no_time turn (subst (λ (n : ℕ). limits.max_duration ≤ feed.elapsed n) equal up) in
        cc
  ]
    where
      below : (a b : ℕ) → (a == b) ≡ false → a ≤ b → suc a ≤ b
      below a b d k = ground arith

  follow-Returns :
      (rounds turn : ℕ) (parser : Parser) (events : List Event) (last : ℕ)
      → limits.max_duration ≤ feed.elapsed last
      → last < turn + rounds
      → turn ≤ last
      → Returns (follow limits feed rounds turn parser events)
  unfolding follow
  follow-Returns zero turn parser events last up h k = absurd (omega arith)
  follow-Returns (suc rounds) turn parser events last up h k =
      elim (Bool-cases (remaining limits feed turn == 0)) [
        | inl e ↦ (
          ok (events, timed_out),
          ap (after_clock limits feed (follow limits feed rounds (suc turn)) turn parser events) e,
        )
        | inr e ↦
            clock-Returns (follow limits feed rounds (suc turn)) turn parser events
              (remaining limits feed turn == 0)
              λ p es.
                follow-Returns rounds (suc turn) p es last up (omega arith)
                  (not_last turn last up e k)
      ]

-- Following a response comes to a result, with as many rounds as turns up to one that the time
-- limit has passed by: an outcome, or the error of a broken stream.
pub stream_response-returns :
    (limits : StreamLimits) (feed : Feed) (last : ℕ) (sent : SentRequest) (status_text : Str)
    (raw : Raw)
    → limits.max_duration ≤ feed.elapsed last
    → (r : Result EngineError StreamOutcome) × (stream_response limits feed
          (suc last)
          sent
          status_text
          raw
        ≡ some r)
unfolding stream_response
stream_response-returns limits feed last sent status_text raw up =
    by_type (is_stream (response_headers [] raw.headers))
  where
    by_type :
        (b : Bool)
        → (r : Result EngineError StreamOutcome) × ((elim b [
          | false ↦ some (
              outcome_of sent status_text raw
                (response_headers [] raw.headers)
                (ok ([], not_a_stream)))
          | true ↦ elim (follow limits feed (suc last) 0 Sse.new []) [
            | none ↦ none
            | some followed ↦
                some (outcome_of sent status_text raw (response_headers [] raw.headers) followed)
          ]
        ])
            ≡ some r)
    by_type false = (
      outcome_of sent status_text raw (response_headers [] raw.headers) (ok ([], not_a_stream)),
      refl,
    )
    by_type true =
        let (followed, e) =
          follow-Returns limits feed (suc last) 0 Sse.new [] last up (omega arith) (omega arith) in
        (
          outcome_of sent status_text raw (response_headers [] raw.headers) followed,
          ap
              (λ (o : Option Followed). elim o [
                | none ↦ none
                | some followed ↦
                    some
                      (outcome_of sent status_text raw (response_headers [] raw.headers) followed)
              ])
              e,
        )
