-- ===== src/Sse/Chunks.antt =====
-- The parser does not depend on how the network cuts the stream, crates/gabriel-core/src/sse.rs.
use gabrielbrowser.Base.{List, [], ◌∷◌, ◌++◌, Str, ◌≡◌, refl, sym, ◌∙◌}
use gabrielbrowser.Sse.{Parser, Event, push, new}
use gabrielbrowser.Sse.Feed.{feed, feed-append, feed-IsDrained, push-feed, IsDrained}

-- Chunks pushed one after another.
unfoldable pub push_all : Parser → List Str → Parser × List Event
push_all p [] = (p, [])
push_all p (chunk ∷ chunks) =
    let (p', events) = push p chunk in let (q, later) = push_all p' chunks in (q, events ++ later)

-- the bytes of a list of chunks
abbrev pub concat : List Str → Str
concat [] = []
concat (s ∷ ss) = s ++ concat ss

push_all-feed :
    (p : Parser) (chunks : List Str) → IsDrained p → push_all p chunks ≡ feed p (concat chunks)
unfolding push_all
push_all-feed p [] h = unfold feed in refl
push_all-feed p (chunk ∷ chunks) h =
    let later = push_all-feed (feed p chunk).0 chunks (feed-IsDrained p chunk h) in
    rw (push-feed p chunk h) (rw later (sym (feed-append p chunk (concat chunks))))

-- However the network cuts the stream, the events are those that one chunk with all the bytes
-- gives, and so is the state that is left.
pub push_chunks : (chunks : List Str) → push_all new chunks ≡ push new (concat chunks)
push_chunks chunks = push_all-feed new chunks refl ∙ sym (push-feed new (concat chunks) refl)
