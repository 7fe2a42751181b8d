-- ===== src/Collection/Slug/Free.antt =====
-- A free name is found, `unique_request_path` of crates/gabriel-collection/src/lib.rs.
use gabrielbrowser.Base.{
  ℕ, zero, suc, ◌<◌, Bool, true, false, not, Option, some, List, [], ◌∷◌, ◌++◌, Str, str_eq,
  str_eq_sound, filter, length, if◌then◌else◌, ◌≡◌, refl, sym, ap, ◌∙◌, inl, inr, arith, Bool-cases,
  some_inj, length-filter-le,
}
use gabrielbrowser.Base.Decimal.{decimal, parse_digits-decimal}
use gabrielbrowser.Base.Text.{parse_digits}
use gabrielbrowser.Collection.{Collection, RequestEntry}
use gabrielbrowser.Collection.Slug.{is_taken, numbered, search, slugify, unique_request_path}

decimal_inj : (m n : ℕ) → decimal m ≡ decimal n → m ≡ n
decimal_inj m n e =
    some_inj (sym (parse_digits-decimal m) ∙ (ap (parse_digits 0) e ∙ parse_digits-decimal n))

append_cancel : (p s t : Str) → p ++ s ≡ p ++ t → s ≡ t
append_cancel [] s t e = e
append_cancel (c ∷ p) s t e = append_cancel p s t (cc)

numbered_inj : (base : Str) (m n : ℕ) → numbered base m ≡ numbered base n → m ≡ n
numbered_inj base m n e =
    decimal_inj m n (tail (append_cancel base (b'-' ∷ decimal m) (b'-' ∷ decimal n) e))
  where
    tail : b'-' ∷ decimal m ≡ b'-' ∷ decimal n → decimal m ≡ decimal n
    tail h = cc

numbered_apart : (base : Str) (m n : ℕ) → m < n → str_eq (numbered base m) (numbered base n) ≡ false
numbered_apart base m n h = elim (Bool-cases (str_eq (numbered base m) (numbered base n))) [
  | inr e ↦ e
  | inl e ↦
      let same = numbered_inj base m n (str_eq_sound (numbered base m) (numbered base n) e) in
      absurd (omega arith)
]

module _ {V : Type 0} where
  -- the requests without those of an id
  abbrev without : Str → List (RequestEntry V) → List (RequestEntry V)
  without id requests = filter (λ r. not (str_eq r.id id)) requests

  is_taken-without :
      (id other : Str) (requests : List (RequestEntry V))
      → str_eq other id ≡ false
      → is_taken (without other requests) id ≡ is_taken requests id
  is_taken-without id other [] h = refl
  is_taken-without id other (r ∷ requests) h = ground (
    arith,
    is_taken-without id other requests h,
    str_eq_sound r.id other,
    str_eq_sound r.id id,
    same r.id,
  )
    where
      same : (s : Str) → str_eq s other ≡ true → str_eq s id ≡ false
      same s e = ap (λ (x : Str). str_eq x id) (str_eq_sound s other e) ∙ h

  length-without :
      (id : Str) (requests : List (RequestEntry V))
      → is_taken requests id ≡ true
      → length (without id requests) < length requests
  length-without id [] h = cc
  length-without id (r ∷ requests) h =
      let shorter = length-filter-le (λ (x : RequestEntry V). not (str_eq x.id id)) requests in
      ground (arith, length-without id requests, shorter)

  -- A search does not look at names with smaller numbers.
  search-without :
      (rounds m n : ℕ) (base : Str) (requests : List (RequestEntry V))
      → m < n
      → search rounds n base (without (numbered base m) requests) ≡ search rounds n base requests
  unfolding search
  search-without zero m n base requests h = refl
  search-without (suc rounds) m n base requests h =
      let later = search-without rounds m (suc n) base requests (omega arith) in
      let here =
        is_taken-without (numbered base n) (numbered base m) requests (numbered_apart base m n h) in
      ap
        (λ (b : Bool). elim b [
          | true ↦ search rounds (suc n) base (without (numbered base m) requests)
          | false ↦ some (numbered base n)
        ])
        here
      ∙ ap
          (λ (o : Option Str). elim (is_taken requests (numbered base n)) [
            | true ↦ o
            | false ↦ some (numbered base n)
          ])
          later

  abbrev Finds : ℕ → ℕ → Str → List (RequestEntry V) → Type 0
  Finds rounds n base requests = (id : Str) × (search rounds n base requests ≡ some id)

  search-Finds :
      (rounds n : ℕ) (base : Str) (requests : List (RequestEntry V))
      → length requests < rounds
      → Finds rounds n base requests
  unfolding search
  search-Finds zero n base requests h = absurd (omega arith)
  search-Finds (suc rounds) n base requests h =
      elim (Bool-cases (is_taken requests (numbered base n))) [
        | inr e ↦ (
          numbered base n,
          ap
              (λ (b : Bool). elim b [
                | true ↦ search rounds (suc n) base requests
                | false ↦ some (numbered base n)
              ])
              e,
        )
        | inl e ↦
            let fewer = length-without (numbered base n) requests e in
            let (id, found) =
              search-Finds rounds (suc n) base (without (numbered base n) requests) (omega arith) in
            (
              id,
              ap
                    (λ (b : Bool). elim b [
                      | true ↦ search rounds (suc n) base requests
                      | false ↦ some (numbered base n)
                    ])
                    e
                  ∙ (sym (search-without rounds n (suc n) base requests (omega arith)) ∙ found),
            )
      ]

  search-free :
      (rounds n : ℕ) (base id : Str) (requests : List (RequestEntry V))
      → search rounds n base requests ≡ some id
      → is_taken requests id ≡ false
  unfolding search
  search-free zero n base id requests h = cc
  search-free (suc rounds) n base id requests h =
      elim (Bool-cases (is_taken requests (numbered base n))) [
        | inl e ↦ search-free rounds (suc n) base id requests (
            sym (
              ap
                (λ (b : Bool). elim b [
                  | true ↦ search rounds (suc n) base requests
                  | false ↦ some (numbered base n)
                ])
                e)
            ∙ h)
        | inr e ↦
            let same = some_inj (
              sym (
                ap
                  (λ (b : Bool). elim b [
                    | true ↦ search rounds (suc n) base requests
                    | false ↦ some (numbered base n)
                  ])
                  e)
              ∙ h) in
            ap (is_taken requests) (sym same) ∙ e
      ]

  -- A name is found, and no request has it: one round more than there are requests is enough.
  pub unique_request_path_lem :
      (c : Collection V) (preferred : Str) (rounds : ℕ)
      → length c.requests < rounds
      → (id : Str) × (unique_request_path rounds c preferred ≡ some id)
        × (is_taken c.requests id ≡ false)
  unfolding unique_request_path
  unique_request_path_lem c preferred rounds h =
      elim (Bool-cases (is_taken c.requests (slugify preferred))) [
        | inr e ↦ (
          slugify preferred,
          ap
              (λ (b : Bool).
                if b
                then search rounds 2 (slugify preferred) c.requests
                else some (slugify preferred))
              e,
          e,
        )
        | inl e ↦
            let (id, found) = search-Finds rounds 2 (slugify preferred) c.requests h in
            (
              id,
              ap
                    (λ (b : Bool).
                      if b
                      then search rounds 2 (slugify preferred) c.requests
                      else some (slugify preferred))
                    e
                  ∙ found,
              search-free rounds 2 (slugify preferred) id c.requests found,
            )
      ]
