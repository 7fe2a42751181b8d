-- ===== src/Engine/Stream/Events.antt =====
-- Which events a followed stream gives, crates/gabriel-engine/src/lib.rs.
use gabrielbrowser.Base.{
  ℕ, zero, suc, ◌≤◌, ◌<◌, max, Bool, true, false, List, [], ◌∷◌, ◌++◌, if◌then◌else◌, length, leb,
  take, ◌≡◌, refl, sym, ap, ◌∙◌, append_assoc, append-nil, arith, length-append, inl, inr,
  Bool-cases,
}
use gabrielbrowser.Engine.Stream.{deliver}
use gabrielbrowser.Sse.{Event}

module _ {A : Type 0} where
  take-all : (n : ℕ) (xs : List A) → length xs ≤ n → take n xs ≡ xs
  take-all zero [] h = refl
  take-all zero (x ∷ xs) h = absurd (omega arith)
  take-all (suc n) [] h = refl
  take-all (suc n) (x ∷ xs) h = ap (λ (l : List A). x ∷ l) (take-all n xs (omega arith))

  take-append : (xs ys : List A) → take (length xs) (xs ++ ys) ≡ xs
  take-append [] ys = refl
  take-append (x ∷ xs) ys = ap (λ (l : List A). x ∷ l) (take-append xs ys)

leb-false : (a b : ℕ) → b < a → leb a b ≡ false
leb-false a b h = ground arith

pub leb-true : (a b : ℕ) → a ≤ b → leb a b ≡ true
leb-true a b h = ground arith

pub leb_le : (a b : ℕ) → leb a b ≡ true → a ≤ b
leb_le a b h = ground arith

pub leb_lt : (a b : ℕ) → leb a b ≡ false → b < a
leb_lt a b h = ground arith

-- the events that are kept at most: one is delivered before the limit is looked at
abbrev pub kept : ℕ → ℕ
kept max_events = max 1 max_events

abbrev pub delivered_events : ℕ → List Event → List Event × Bool
delivered_events m all = (take (kept m) all, leb (kept m) (length all))

pub delivered_events-few :
    (m : ℕ) (all : List Event) → length all < kept m → delivered_events m all ≡ (all, false)
delivered_events-few m all h =
    let first = take-all (kept m) all (omega (arith, h)) in
    let second = leb-false (kept m) (length all) h in cc

delivered_events-full :
    (m : ℕ) (events later : List Event)
    → length events ≡ kept m
    → delivered_events m (events ++ later) ≡ (events, true)
delivered_events-full m events later h =
    let first : take (kept m) (events ++ later) ≡ events =
      ap (λ (n : ℕ). take n (events ++ later)) (sym h) ∙ take-append events later in
    let second : leb (kept m) (length (events ++ later)) ≡ true =
      leb-true (kept m) (length (events ++ later)) (omega (arith, h, length-append events later)) in
    cc

pub deliver_lem :
    (m : ℕ) (events fresh : List Event)
    → length events < kept m
    → deliver m events fresh ≡ delivered_events m (events ++ fresh)
unfolding deliver
deliver_lem m events [] h =
    sym (ap (delivered_events m) (append-nil events) ∙ delivered_events-few m events h)
deliver_lem m events (e ∷ fresh) h =
    let events' = events ++ e ∷ [] in
    let size = length-append events (e ∷ []) in
    let whole : delivered_events m (events' ++ fresh) ≡ delivered_events m (events ++ e ∷ fresh) =
      ap (delivered_events m) (append_assoc events (e ∷ []) fresh) in
    elim (Bool-cases (leb m (length events'))) [
      | inl full ↦
          let reached = leb_le m (length events') full in
          ap (λ (b : Bool). if b then (events', true) else deliver m events' fresh) full
          ∙ (sym (delivered_events-full m events' fresh (omega (arith, h, size, reached))) ∙ whole)
      | inr free ↦
          let below = leb_lt m (length events') free in
          ap (λ (b : Bool). if b then (events', true) else deliver m events' fresh) free
          ∙ (deliver_lem m events' fresh (omega (arith, below)) ∙ whole)
    ]
