-- ===== src/Engine/Stream/Outcome.antt =====
-- What a followed stream gives, from the chunks that arrive, crates/gabriel-engine/src/lib.rs.
use gabrielbrowser.Base.{
  ℕ, zero, suc, ==_iff, ◌⊎◌, inl, inr, some_inj, ◌≤◌, ◌<◌, Bool, true, false, Option, some, List,
  [], ◌∷◌, ◌++◌, Str, length, leb, ◌==◌, take, ◌≡◌, refl, sym, ap, ◌∙◌, subst, append_assoc,
  append-nil, arith,
}
use gabrielbrowser.Base.Results.{ok, err}
use gabrielbrowser.Engine.{transport}
use gabrielbrowser.Engine.Stream.{
  StreamEnd, closed, limit_reached, timed_out, not_a_stream, StreamLimits, Poll, late, over, broken,
  arrived, Feed, with_last, Followed, follow, remaining, after_push, after_poll, after_clock, Next,
}
use gabrielbrowser.Engine.Stream.Events.{kept, deliver_lem, delivered_events-few, leb_le, leb_lt}
use gabrielbrowser.Sse
use gabrielbrowser.Sse.{Event, Parser, push, finish}
use gabrielbrowser.Sse.Chunks.{push_all}

-- the turn after some chunks
abbrev pub turn_after : ℕ → List Str → ℕ
turn_after turn [] = turn
turn_after turn (chunk ∷ chunks) = turn_after (suc turn) chunks

abbrev pub ended_with : List Event → StreamEnd → Option Followed
ended_with events end = some (ok (events, end))

module _ (limits : StreamLimits) (feed : Feed) where
  abbrev pub limit : ℕ
  limit = kept limits.max_events

  -- There is time left at a turn.
  abbrev pub HasTime : ℕ → Type 0
  HasTime turn = 0 < remaining limits feed turn

  -- what the wait at a turn comes to
  abbrev pub polled_at : ℕ → Poll
  polled_at turn = feed.next turn (remaining limits feed turn)

  -- Chunks that arrive one after another, from a turn on: at each of them there is time left and
  -- fewer events than are kept.
  abbrev pub Arrive : ℕ → Parser → List Event → List Str → Type 0
  Arrive turn parser events [] = Unit
  Arrive turn parser events (chunk ∷ chunks) =
      HasTime turn
      × (polled_at turn ≡ arrived chunk)
      × (length events < limit)
      × Arrive (suc turn) (push parser chunk).0 (events ++ (push parser chunk).1) chunks

  -- How the stream ends at a turn, with the parser and all the events of the chunks before it.
  abbrev pub EndsAt : ℕ → Parser → List Event → Followed → Type 0
  EndsAt turn parser all (err e) =
      HasTime turn
      × (length all < limit)
      × ((message : Str) × (polled_at turn ≡ broken message) × (e ≡ transport message))
  EndsAt turn parser all (ok (events, limit_reached)) =
      (events ≡ take limit all) × (limit ≤ length all)
  EndsAt turn parser all (ok (events, timed_out)) =
      (events ≡ all)
      × (length all < limit)
      × ((remaining limits feed turn ≡ 0) ⊎ (HasTime turn × (polled_at turn ≡ late)))
  EndsAt turn parser all (ok (events, closed)) =
      (events ≡ with_last all (finish parser).1)
      × (length all < limit)
      × HasTime turn
      × (polled_at turn ≡ over)
  EndsAt turn parser all (ok (events, not_a_stream)) = ⊥

  abbrev pub FollowedTo : ℕ → Parser → List Event → Followed → Type 0
  FollowedTo turn parser events r =
      (chunks : List Str) × Arrive turn parser events chunks
      × EndsAt (turn_after turn chunks) (push_all parser chunks).0
          (events ++ (push_all parser chunks).1) r

  -- What one turn and a well-behaved rest of the loop come to.
  abbrev Follows : ℕ → Next → Type 0
  Follows turn next =
      (parser : Parser) (events : List Event) (r : Followed)
      → length events < limit
      → next parser events ≡ some r
      → FollowedTo turn parser events r

  no_chunk :
      (turn : ℕ) (parser : Parser) (events : List Event) (r s : Followed)
      → EndsAt turn parser events r
      → some r ≡ some s
      → FollowedTo turn parser events s
  unfolding push_all
  no_chunk turn parser events r s h e = (
    [],
    tt,
    subst (λ (l : List Event). EndsAt turn parser l s) (sym (append-nil events))
        (subst (EndsAt turn parser events) (some_inj e) h),
  )

  -- A chunk in front of those that the rest of the loop reads.
  one_more :
      (turn : ℕ) (parser : Parser) (events : List Event) (r : Followed) (chunk : Str)
      → HasTime turn
      → polled_at turn ≡ arrived chunk
      → length events < limit
      → FollowedTo (suc turn) (push parser chunk).0 (events ++ (push parser chunk).1) r
      → FollowedTo turn parser events r
  unfolding push_all
  one_more turn parser events r chunk time e few (chunks, arrive, ends) = (
    chunk ∷ chunks,
    (time, e, few, arrive),
    subst
        (λ (l : List Event).
          EndsAt (turn_after (suc turn) chunks) (push_all (push parser chunk).0 chunks).0 l r)
        (append_assoc events (push parser chunk).1 (push_all (push parser chunk).0 chunks).1) ends,
  )

  pushed :
      (turn : ℕ) (next : Next) (parser : Parser) (r : Followed) (all : List Event) (full : Bool)
      → Follows turn next
      → leb limit (length all) ≡ full
      → after_push next parser (take limit all, full) ≡ some r
      → FollowedTo turn parser all r
  pushed turn next parser r all true ih e h =
      no_chunk turn parser all (ok (take limit all, limit_reached)) r
        (refl, leb_le limit (length all) e) h
  pushed turn next parser r all false ih e h =
      let below = leb_lt limit (length all) e in
      ih parser all r below (
        ap (after_push next parser) (sym (delivered_events-few (limits.max_events) all below))
        ∙ (ap (λ (b : Bool). after_push next parser (take limit all, b)) e ∙ h))

  polled :
      (turn : ℕ) (next : Next) (poll : Poll)
      → Follows (suc turn) next
      → HasTime turn
      → polled_at turn ≡ poll
      → Follows turn (λ parser events. after_poll limits feed next parser events poll)
  polled turn next late ih time e parser events r few h =
      no_chunk turn parser events (ok (events, timed_out)) r (refl, few, inr (time, e)) h
  polled turn next over ih time e parser events r few h =
      no_chunk turn parser events (ok (with_last events (finish parser).1, closed)) r
        (refl, few, time, e) h
  polled turn next (broken message) ih time e parser events r few h =
      no_chunk turn parser events (err (transport message)) r (time, few, (message, e, refl)) h
  polled turn next (arrived chunk) ih time e parser events r few h =
      let all = events ++ (push parser chunk).1 in
      let delivered =
        ap (after_push next (push parser chunk).0)
          (sym (deliver_lem (limits.max_events) events (push parser chunk).1 few)) in
      one_more turn parser events r chunk time e few (
        pushed (suc turn) next (push parser chunk).0 r all (leb limit (length all)) ih refl
          (delivered ∙ h))

  clocked :
      (turn : ℕ) (next : Next) (b : Bool)
      → (remaining limits feed turn == 0) ≡ b
      → Follows (suc turn) next
      → Follows turn (λ parser events. after_clock limits feed next turn parser events b)
  clocked turn next true e ih parser events r few h =
      let up = (==_iff (remaining limits feed turn) 0).0 e in
      no_chunk turn parser events (ok (events, timed_out)) r (refl, few, inl up) h
  clocked turn next false e ih parser events r few h =
      polled turn next (polled_at turn) ih (ground (arith, e)) refl parser events r few h

  follow-Follows : (rounds turn : ℕ) → Follows turn (follow limits feed rounds turn)
  unfolding follow
  follow-Follows zero turn parser events r few h = cc
  follow-Follows (suc rounds) turn parser events r few h =
      clocked turn (follow limits feed rounds (suc turn)) (remaining limits feed turn == 0) refl
        (follow-Follows rounds (suc turn)) parser events r few h

  -- What following a stream from its start comes to is settled by chunks that arrived in time, each
  -- read while there were fewer events than are kept, and by the turn after them. The limit is
  -- reached when they have as many events as are kept, which is what is given. Otherwise all their
  -- events are given: timed out when the clock is up or the wait for a chunk is late, and closed,
  -- with a half-finished event besides, when the server is over; and a broken stream is its error.
  -- One event is kept where the limit is zero.
  pub follow_lem :
      (rounds : ℕ) (r : Followed)
      → follow limits feed rounds 0 Sse.new [] ≡ some r
      → FollowedTo 0 Sse.new [] r
  follow_lem rounds r h = follow-Follows rounds 0 Sse.new [] r (omega arith) h
