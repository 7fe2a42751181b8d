-- ===== src/CaptureStore/Queries.antt =====
-- What the queries of crates/gabriel-proxy/src/store.rs answer: the captures of the log, newest
-- first.
use gabrielbrowser.Base.{
  ℕ, zero, suc, ◌+◌, ◌≤◌, ◌<◌, ◌==◌, Bool, true, false, ◌||◌, Option, none, some, List, [], ◌∷◌,
  ◌++◌, Str, append-nil, append_assoc, reverse, if◌then◌else◌, length, length-append, take, filter,
  find, ltb, ◌≡◌, refl, sym, ap, ◌∙◌, arith, match_if, Bool-cases, inl, inr, str_eq, starts_with,
}
use gabrielbrowser.Base.Text.{is_empty, split}
use gabrielbrowser.Capture.{Capture}
use gabrielbrowser.CaptureStore.{
  visit_line, visit_lines, CaptureFilter, matches, list, list_visit, get, get_visit, count,
  scan_backwards, chunk_size,
}
use gabrielbrowser.CaptureStore.Scan.{scan_backwards_lem}

-- visiting captures until the visitor stops
abbrev visit_all : {S : Type 0} → (S → Capture → S × Bool) → S → List Capture → S
visit_all visit s [] = s
visit_all visit s (c ∷ cs) =
    let rest = visit_all visit (visit s c).0 cs in if (visit s c).1 then rest else (visit s c).0

module _ (decode : Str → Option Capture) where
  -- The captures that lines hold; a line that is empty or is no capture holds none.
  abbrev pub decoded : List Str → List Capture
  decoded [] = []
  decoded (l ∷ ls) =
      let rest = decoded ls in
      if is_empty l then rest else elim (decode l) [ none ↦ rest | some c ↦ c ∷ rest ]

  -- The captures of a log, newest first.
  abbrev pub newest_first : Str → List Capture
  newest_first file = decoded (reverse (split b'\n' file))

  visited-cons :
      {S : Type 0} (visit : S → Capture → S × Bool) (s : S) (l : Str) (ls : List Str)
      → ((t : S) → (visit_lines decode visit t ls).0 ≡ visit_all visit t (decoded ls))
      → (b : Bool) (o : Option Capture)
      → (let (s', go_on) =
            if◌then◌else◌ {A = S × Bool} b
              (s, true)
              (elim o [ none ↦ (s, true) | some c ↦ visit s c ]) in
          if go_on then visit_lines decode visit s' ls else (s', false)).0
        ≡ visit_all visit s
            (if b then decoded ls else elim o [ none ↦ decoded ls | some c ↦ c ∷ decoded ls ])
  visited-cons visit s l ls later true o = later s
  visited-cons visit s l ls later false none = later s
  visited-cons visit s l ls later false (some c) = elim (Bool-cases (visit s c).1) [
    | inl e ↦ rw e (later (visit s c).0)
    | inr e ↦ rw e refl
  ]

  visit_lines-decoded :
      {S : Type 0} (visit : S → Capture → S × Bool) (s : S) (ls : List Str)
      → (visit_lines decode visit s ls).0 ≡ visit_all visit s (decoded ls)
  unfolding visit_lines visit_line
  visit_lines-decoded visit s [] = refl
  visit_lines-decoded visit s (l ∷ ls) =
      visited-cons visit s l ls (λ t. visit_lines-decoded visit t ls) (is_empty l) (decode l)

take-append : (n : ℕ) (xs ys : List Capture) → length xs ≡ n → take n (xs ++ ys) ≡ xs
take-append zero [] ys e = refl
take-append zero (x ∷ xs) ys e = ground (arith, e)
take-append (suc n) [] ys e = ground (arith, e)
take-append (suc n) (x ∷ xs) ys e =
    ap (λ (l : List Capture). x ∷ l) (take-append n xs ys (omega (arith, e)))

take-short : (n : ℕ) (xs : List Capture) → length xs ≤ n → take n xs ≡ xs
take-short zero [] h = refl
take-short zero (x ∷ xs) h = ground (arith, h)
take-short (suc n) [] h = refl
take-short (suc n) (x ∷ xs) h =
    ap (λ (l : List Capture). x ∷ l) (take-short n xs (omega (arith, h)))

module _ (f : CaptureFilter) (limit : ℕ) where
  visit_all-list :
      (found cs : List Capture)
      → length found < limit
      → visit_all (list_visit f limit) found cs ≡ take limit (found ++ filter (matches f) cs)
  visit_all-list found [] h =
      sym (append-nil found)
      ∙ sym (take-short limit (found ++ []) (omega (arith, ap length (append-nil found))))
  visit_all-list found (c ∷ cs) h = elim (Bool-cases (matches f c)) [
    | inl e ↦ rw e (
        let longer = length-append found (c ∷ []) in
        elim (Bool-cases (ltb (length (found ++ c ∷ [])) limit)) [
          | inl k ↦ rw k (
              visit_all-list (found ++ c ∷ []) cs (ground (arith, k))
              ∙ ap (take limit) (append_assoc found (c ∷ []) (filter (matches f) cs)))
          | inr k ↦ rw k (
              sym (
                take-append limit (found ++ c ∷ []) (filter (matches f) cs)
                  (ground (arith, k, h, longer)))
              ∙ ap (take limit) (append_assoc found (c ∷ []) (filter (matches f) cs)))
        ])
    | inr e ↦ rw e (ground (arith, h, visit_all-list found cs h))
  ]

visit_all-get :
    (id : Str) (cs : List Capture)
    → visit_all (get_visit id) none cs
      ≡ find (λ (c : Capture). str_eq c.id id || starts_with c.id id) cs
visit_all-get id [] = refl
visit_all-get id (c ∷ cs) = ground (arith, visit_all-get id cs)

visit_all-count :
    (n : ℕ) (cs : List Capture) → visit_all (λ n (c : Capture). (n + 1, true)) n cs ≡ n + length cs
visit_all-count n [] = omega arith
visit_all-count n (c ∷ cs) = omega (arith, visit_all-count (n + 1) cs)

module _ (decode : Str → Option Capture) where
  scanned :
      {S : Type 0} (visit : S → Capture → S × Bool) (file : Str) (s : S)
      → scan_backwards decode visit chunk_size (some file) s
        ≡ visit_all visit s (newest_first decode file)
  scanned visit file s =
      scan_backwards_lem decode visit chunk_size file s (omega arith)
      ∙ visit_lines-decoded decode visit s (reverse (split b'\n' file))

  -- Listing gives the newest captures that the filter lets through, newest first, as many as the
  -- limit says at most.
  pub list_lem :
      (file : Str) (f : CaptureFilter) (limit : ℕ)
      → list decode (some file) f limit ≡ take limit (filter (matches f) (newest_first decode file))
  unfolding list
  list_lem file f limit =
      let answer = take limit (filter (matches f) (newest_first decode file)) in
      match_if (λ (x : List Capture). x ≡ answer) (limit == 0)
        (λ e.
          let none_asked : limit ≡ 0 = ground (arith, e) in
          sym (ap (λ n. take n (filter (matches f) (newest_first decode file))) none_asked))
        (λ e.
          scanned (list_visit f limit) file []
          ∙ visit_all-list f limit [] (newest_first decode file) (ground (arith, e)))

  -- Looking up gives the newest capture whose id is the text or begins with it.
  get_lem :
      (file : Str) (id : Str)
      → get decode (some file) id
        ≡ find (λ (c : Capture). str_eq c.id id || starts_with c.id id) (newest_first decode file)
  unfolding get
  get_lem file id = scanned (get_visit id) file none ∙ visit_all-get id (newest_first decode file)

  -- Counting gives the number of captures that the log holds.
  count_lem : (file : Str) → count decode (some file) ≡ length (newest_first decode file)
  unfolding count
  count_lem file =
      scanned (λ n (c : Capture). (n + 1, true)) file 0
      ∙ visit_all-count 0 (newest_first decode file)
      ∙ omega arith
