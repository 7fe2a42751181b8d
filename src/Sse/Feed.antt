-- ===== src/Sse/Feed.antt =====
-- A chunk is handled as its bytes are one by one, crates/gabriel-core/src/sse.rs.
use gabrielbrowser.Base.{
  ℕ, zero, suc, ◌≤◌, false, Option, none, some, List, [], ◌∷◌, ◌++◌, Str, append-nil, append_assoc,
  if◌then◌else◌, ◌==◌, length, length-append, ◌≡◌, refl, sym, ap, ◌∙◌, arith, Bool-cases, ==_iff,
  Option-cases, codes, str_eq, inl, inr, starts_with,
}
use gabrielbrowser.Base.Text.{split_once, has_byte, is_empty}
use gabrielbrowser.Base.Splits.{split_once_sound, split_once-none}
use gabrielbrowser.Base.Utf8.{from_utf8_lossy}
use gabrielbrowser.Sse.{
  Parser, Event, line, without_cr, and_events, drain, push, dispatch_started, apply_field,
  field_value, dispatch,
}

-- The specification: one byte at a time. A newline ends the line in the buffer, any other byte
-- is kept there.
unfoldable pub feed : Parser → Str → Parser × List Event
feed p [] = (p, [])
feed p (c ∷ s) =
    if c == b'\n'
    then (let (p', event) =
          line (record p { buffer = [] }) (from_utf8_lossy (without_cr p.buffer)) in
        and_events event (feed p' s))
    else feed (record p { buffer = p.buffer ++ c ∷ [] }) s

abbrev pub with_buffer : Str → Parser → Parser
with_buffer b p = record p { buffer = b }

pub feed-kept :
    (p : Parser) (b s t : Str)
    → has_byte b'\n' s ≡ false
    → feed (with_buffer b p) (s ++ t) ≡ feed (with_buffer (b ++ s) p) t
unfolding feed
feed-kept p b [] t h = rw append-nil refl
feed-kept p b (c ∷ s) t h = elim (Bool-cases (c == b'\n')) [
  | inl e ↦ ground arith
  | inr e ↦
      rw e (feed-kept p (b ++ c ∷ []) s t (ground arith) ∙ rw (append_assoc b (c ∷ []) s) refl)
]

dispatch_started-buffer :
    (p : Parser) (b : Str)
    → dispatch_started (with_buffer b p)
      ≡ (with_buffer b (dispatch_started p).0, (dispatch_started p).1)
unfolding dispatch_started dispatch
dispatch_started-buffer p b = elim (Bool-cases p.started) [ inl e ↦ rw e refl | inr e ↦ rw e refl ]

apply_field-buffer :
    (p : Parser) (b field value : Str)
    → apply_field (with_buffer b p) field value ≡ with_buffer b (apply_field p field value)
unfolding apply_field
apply_field-buffer p b field value = elim (Bool-cases (str_eq field (codes "event"))) [
  | inl e ↦ rw e refl
  | inr e ↦ rw e (elim (Bool-cases (str_eq field (codes "data"))) [
    | inl e2 ↦ rw e2 refl
    | inr e2 ↦ rw e2 (elim (Bool-cases (str_eq field (codes "id"))) [
      | inl e3 ↦ rw e3 refl
      | inr e3 ↦ rw e3 (elim (Bool-cases (str_eq field (codes "retry"))) [
        | inl e4 ↦ rw e4 refl
        | inr e4 ↦ rw e4 refl
      ])
    ])
  ])
]

line-buffer :
    (p : Parser) (b text : Str)
    → line (with_buffer b p) text
      ≡ (with_buffer b (line (with_buffer [] p) text).0, (line (with_buffer [] p) text).1)
unfolding line
line-buffer p b text = elim (Bool-cases (is_empty text)) [
  | inl e ↦ rw e (dispatch_started-buffer (with_buffer [] p) b)
  | inr e ↦ rw e (elim (Bool-cases (starts_with text (codes ":"))) [
    | inl e2 ↦ rw e2 refl
    | inr e2 ↦ rw e2 (
        ap (λ (q : Parser). (q, none))
          (apply_field-buffer (with_buffer [] p) b (field_value text).0 (field_value text).1))
  ])
]

abbrev pub IsDrained : Parser → Type 0
IsDrained p = has_byte b'\n' p.buffer ≡ false

length-split :
    (raw rest b : Str) (c n : ℕ) → b ≡ raw ++ c ∷ rest → length b ≤ suc n → length rest ≤ n
length-split raw rest b c n e h = omega (arith, ap length e, length-append raw (c ∷ rest))

-- a line without its newline is taken
abbrev pub line_of : Parser → Str → Parser × Option Event
line_of p raw = line (with_buffer [] p) (from_utf8_lossy (without_cr raw))

pub line_of-buffer : (p : Parser) (raw : Str) → (line_of p raw).0 ≡ with_buffer [] (line_of p raw).0
line_of-buffer p raw =
    ap (λ (r : Parser × Option Event). r.0) (line-buffer p [] (from_utf8_lossy (without_cr raw)))

abbrev drained_by : ℕ → Parser → Option (Str × Str) → Parser × List Event
drained_by fuel p o = elim o [
  | none ↦ (p, [])
  | some (raw, rest) ↦
      let (p', event) = line (record p { buffer = rest }) (from_utf8_lossy (without_cr raw)) in
      and_events event (drain fuel p')
]

drain_whole :
    (fuel : ℕ) (p : Parser)
    → split_once b'\n' p.buffer ≡ none
    → drain (suc fuel) p ≡ feed (with_buffer [] p) p.buffer
unfolding drain feed
drain_whole fuel p e =
    ap (drained_by fuel p) e
    ∙ sym (feed-kept p [] p.buffer [] (split_once-none b'\n' p.buffer e))
    ∙ ap (feed (with_buffer [] p)) (append-nil p.buffer)

drain_line :
    (fuel : ℕ) (p : Parser) (raw rest : Str)
    → split_once b'\n' p.buffer ≡ some (raw, rest)
    → drain (suc fuel) p
      ≡ and_events (line_of p raw).1 (drain fuel (with_buffer rest (line_of p raw).0))
unfolding drain
drain_line fuel p raw rest e =
    ap (drained_by fuel p) e
    ∙ ap (λ (r : Parser × Option Event). and_events r.1 (drain fuel r.0))
        (line-buffer p rest (from_utf8_lossy (without_cr raw)))

feed_line :
    (p : Parser) (raw rest : Str)
    → split_once b'\n' p.buffer ≡ some (raw, rest)
    → feed (with_buffer [] p) p.buffer
      ≡ and_events (line_of p raw).1 (feed (with_buffer [] (line_of p raw).0) rest)
feed_line p raw rest e =
    let (cut, clean) = split_once_sound b'\n' p.buffer raw rest e in
    ap (feed (with_buffer [] p)) cut
    ∙ feed-kept p [] raw (b'\n' ∷ rest) clean
    ∙ (unfold feed in
        ap (λ (q : Parser). and_events (line_of p raw).1 (feed q rest)) (line_of-buffer p raw))

-- Draining the buffer is feeding its bytes one by one.
drain-feed :
    (fuel : ℕ) (p : Parser)
    → length p.buffer ≤ fuel
    → drain fuel p ≡ feed (with_buffer [] p) p.buffer
unfolding drain feed
drain-feed zero p h = empty p.buffer refl h
  where
    empty : (b : Str) → p.buffer ≡ b → length b ≤ 0 → (p, []) ≡ feed (with_buffer [] p) b
    empty [] e k = ap (λ (b : Str). (with_buffer b p, [])) e
    empty (c ∷ b) e k = ground arith
drain-feed (suc fuel) p h = elim (Option-cases (split_once b'\n' p.buffer)) [
  | inl e ↦ drain_whole fuel p e
  | inr ((raw, rest), e) ↦
      let q = line_of p raw in
      drain_line fuel p raw rest e
      ∙ ap (and_events q.1) (
          drain-feed fuel (with_buffer rest q.0) (
            omega (
              arith,
              length-split raw rest p.buffer b'\n' fuel
                  (split_once_sound b'\n' p.buffer raw rest e).0 h,
            )))
      ∙ sym (feed_line p raw rest e)
]

and_events-append :
    (o : Option Event) (q : Parser) (es fs : List Event)
    → and_events o (q, es ++ fs) ≡ (q, (and_events o (q, es)).1 ++ fs)
and_events-append none q es fs = refl
and_events-append (some e) q es fs = refl

and_events-parser : (o : Option Event) (r : Parser × List Event) → (and_events o r).0 ≡ r.0
and_events-parser none r = refl
and_events-parser (some e) r = refl

-- the specification, one byte more
pub feed-newline :
    (p : Parser) (s : Str)
    → feed p (b'\n' ∷ s) ≡ and_events (line_of p p.buffer).1 (feed (line_of p p.buffer).0 s)
unfolding feed
feed-newline p s = refl

feed-other :
    (p : Parser) (c : ℕ) (s : Str)
    → (c == b'\n') ≡ false
    → feed p (c ∷ s) ≡ feed (with_buffer (p.buffer ++ c ∷ []) p) s
unfolding feed
feed-other p c s e = rw e refl

-- what `t` adds to a result
abbrev pub then_feed : Str → Parser × List Event → Parser × List Event
then_feed t r = ((feed r.0 t).0, r.1 ++ (feed r.0 t).1)

and_events-then_feed :
    (o : Option Event) (t : Str) (r : Parser × List Event)
    → and_events o (then_feed t r) ≡ then_feed t (and_events o r)
and_events-then_feed none t r = refl
and_events-then_feed (some e) t r = refl

pub feed-append : (p : Parser) (s t : Str) → feed p (s ++ t) ≡ then_feed t (feed p s)
feed-append p [] t = unfold feed in refl
feed-append p (c ∷ s) t =
    let later = feed-append (line_of p p.buffer).0 s t in
    let kept = feed-append (with_buffer (p.buffer ++ c ∷ []) p) s t in
    elim (Bool-cases (c == b'\n')) [
      | inl e ↦
          let same : c ≡ b'\n' = (==_iff c b'\n').0 e in
          rw same (
            feed-newline p (s ++ t)
            ∙ ap (and_events (line_of p p.buffer).1) later
            ∙ and_events-then_feed (line_of p p.buffer).1 t (feed (line_of p p.buffer).0 s)
            ∙ ap (then_feed t) (sym (feed-newline p s)))
      | inr e ↦ feed-other p c (s ++ t) e ∙ kept ∙ ap (then_feed t) (sym (feed-other p c s e))
    ]

has_byte-snoc :
    (s : Str) (c d : ℕ) → has_byte d s ≡ false → (c == d) ≡ false → has_byte d (s ++ c ∷ []) ≡ false
has_byte-snoc [] c d h e = ground arith
has_byte-snoc (x ∷ s) c d h e = ground (arith, has_byte-snoc s c d)

-- No newline is left in the buffer after a push.
pub feed-IsDrained : (p : Parser) (s : Str) → IsDrained p → IsDrained (feed p s).0
feed-IsDrained p [] h = unfold feed in h
feed-IsDrained p (c ∷ s) h =
    let later = feed-IsDrained (line_of p p.buffer).0 s in
    let kept = feed-IsDrained (with_buffer (p.buffer ++ c ∷ []) p) s in
    elim (Bool-cases (c == b'\n')) [
      | inl e ↦
          let same : c ≡ b'\n' = (==_iff c b'\n').0 e in
          rw same (
            rw (feed-newline p s) (
              rw (and_events-parser (line_of p p.buffer).1 (feed (line_of p p.buffer).0 s))
                (later (ap (λ (q : Parser). has_byte b'\n' q.buffer) (line_of-buffer p p.buffer)))))
      | inr e ↦ rw (feed-other p c s e) (kept (has_byte-snoc p.buffer c b'\n' h e))
    ]

pub push-feed : (p : Parser) (chunk : Str) → IsDrained p → push p chunk ≡ feed p chunk
unfolding push
push-feed p chunk h =
    drain-feed (length (p.buffer ++ chunk)) (with_buffer (p.buffer ++ chunk) p) (omega arith)
    ∙ feed-kept p [] p.buffer chunk h
