-- ===== src/Collection/Save/Upsert.antt =====
-- What saving a request changes, crates/gabriel-collection/src/lib.rs.
use gabrielbrowser.Base.{
  Bool, true, false, Option, none, some, List, [], ◌∷◌, ◌++◌, Str, str_eq, str_eq_sound, str_eq_iff,
  if◌then◌else◌, ◌≡◌, refl, sym, ap, ◌∙◌, arith, is_some, match_if, match_option,
}
use gabrielbrowser.Base.Sort.{stable_sort, place}
use gabrielbrowser.Base.Results.{Result, ok, err}
use gabrielbrowser.Model.{RequestSpec}
use gabrielbrowser.Collection.{Collection, RequestEntry, CollectionError}
use gabrielbrowser.Collection.Paths.{sanitize_request_path}
use gabrielbrowser.Collection.Save.{
  with_id, replace_first, id_before, put_entry, entry_of, save_request, IsUnique, request_path,
}

module _ {V : Type 0} where
  with_id-cons :
      (id : Str) (r : RequestEntry V) (requests : List (RequestEntry V))
      → with_id id (r ∷ requests) ≡ (if str_eq r.id id then some r else with_id id requests)
  unfolding with_id
  with_id-cons id r requests = refl

  with_id-place :
      (id : Str) (x : RequestEntry V) (ys : List (RequestEntry V))
      → with_id x.id ys ≡ none
      → with_id id (place id_before x ys) ≡ (if str_eq x.id id then some x else with_id id ys)
  with_id-place id x [] h = with_id-cons id x []
  with_id-place id x (y ∷ ys) h = ground (
    arith,
    with_id-cons id y ys,
    with_id-cons x.id y ys,
    with_id-cons id x (y ∷ ys),
    with_id-cons id y (place id_before x ys),
    with_id-place id x ys,
    str_eq_iff x.id id,
    str_eq_iff y.id id,
    str_eq_iff y.id x.id,
  )

  place-IsUnique :
      (x : RequestEntry V) (ys : List (RequestEntry V))
      → with_id x.id ys ≡ none
      → IsUnique ys
      → IsUnique (place id_before x ys)
  place-IsUnique x [] h u = (unfold with_id in refl, tt)
  place-IsUnique x (y ∷ ys) h (new, u) =
      let later = place-IsUnique x ys (ground (arith, with_id-cons x.id y ys)) u in
      match_if IsUnique (id_before y x)
        (λ _. (
          ground (
            arith,
            with_id-place y.id x ys,
            with_id-cons x.id y ys,
            str_eq_iff y.id x.id,
            str_eq_iff x.id y.id,
          ),
          later,
        ))
        (λ _. (h, (new, u)))

  sort_lem :
      (xs : List (RequestEntry V))
      → IsUnique xs
      → ((id : Str) → with_id id (stable_sort id_before xs) ≡ with_id id xs)
        × IsUnique (stable_sort id_before xs)
  sort_lem [] u = (λ id. refl, tt)
  sort_lem (x ∷ xs) (new, u) =
      let (same, sorted) = sort_lem xs u in
      let absent = same x.id ∙ new in
      (
        λ id.
            with_id-place id x (stable_sort id_before xs) absent
            ∙ (ap (λ (o : Option (RequestEntry V)). if str_eq x.id id then some x else o) (same id)
                ∙ sym (with_id-cons id x xs)),
        place-IsUnique x (stable_sort id_before xs) absent sorted,
      )

  abbrev or_entry : RequestEntry V → Str → Option (RequestEntry V) → Option (RequestEntry V)
  or_entry e id (some r) = some r
  or_entry e id none = if str_eq e.id id then some e else none

  with_id-append :
      (id : Str) (xs : List (RequestEntry V)) (e : RequestEntry V)
      → with_id id (xs ++ e ∷ []) ≡ or_entry e id (with_id id xs)
  unfolding with_id
  with_id-append id [] e = refl
  with_id-append id (x ∷ xs) e = by_id (str_eq x.id id) (with_id-append id xs e)
    where
      by_id :
          (b : Bool)
          → with_id id (xs ++ e ∷ []) ≡ or_entry e id (with_id id xs)
          → (if b then some x else with_id id (xs ++ e ∷ []))
            ≡ or_entry e id (if b then some x else with_id id xs)
      by_id true h = refl
      by_id false h = h

  append-IsUnique :
      (xs : List (RequestEntry V)) (e : RequestEntry V)
      → with_id e.id xs ≡ none
      → IsUnique xs
      → IsUnique (xs ++ e ∷ [])
  append-IsUnique [] e h u = (h, tt)
  append-IsUnique (x ∷ xs) e h (new, u) = (
    with_id-append x.id xs e
        ∙ (ap (or_entry e x.id) new
            ∙ ground (arith, with_id-cons e.id x xs, str_eq_iff x.id e.id, str_eq_iff e.id x.id)),
    append-IsUnique xs e (ground (arith, with_id-cons e.id x xs)) u,
  )

  replace_first-cons :
      (e x : RequestEntry V) (xs : List (RequestEntry V))
      → replace_first e (x ∷ xs) ≡ (if str_eq x.id e.id then e ∷ xs else x ∷ replace_first e xs)
  unfolding replace_first
  replace_first-cons e x xs = refl

  with_id-replace_first :
      (id : Str) (e : RequestEntry V) (xs : List (RequestEntry V))
      → is_some (with_id e.id xs) ≡ true
      → with_id id (replace_first e xs) ≡ (if str_eq e.id id then some e else with_id id xs)
  with_id-replace_first id e [] h = unfold with_id in cc
  with_id-replace_first id e (x ∷ xs) h = rw replace_first-cons (
      ground (
        arith,
        with_id-cons e.id x xs,
        with_id-cons id x xs,
        with_id-cons id e xs,
        with_id-cons id x (replace_first e xs),
        with_id-replace_first id e xs,
        str_eq_iff x.id e.id,
        str_eq_iff x.id id,
        str_eq_iff e.id id,
      ))

  replace_first-IsUnique :
      (e : RequestEntry V) (xs : List (RequestEntry V))
      → is_some (with_id e.id xs) ≡ true
      → IsUnique xs
      → IsUnique (replace_first e xs)
  replace_first-IsUnique e [] h u = unfold with_id in cc
  replace_first-IsUnique e (x ∷ xs) h (new, u) = rw replace_first-cons (
      match_if IsUnique (str_eq x.id e.id)
        (λ same. (ap (λ (id : Str). with_id id xs) (sym (str_eq_sound x.id e.id same)) ∙ new, u))
        λ other.
          let there : is_some (with_id e.id xs) ≡ true = ground (arith, with_id-cons e.id x xs) in
          (
            ground (
              arith,
              with_id-replace_first x.id e xs,
              str_eq_iff x.id e.id,
              str_eq_iff e.id x.id,
            ),
            replace_first-IsUnique e xs there u,
          ))

  -- What putting an entry does to the requests.
  abbrev Puts : RequestEntry V → List (RequestEntry V) → List (RequestEntry V) → Type 0
  Puts e before after =
      ((id : Str) → with_id id after ≡ (if str_eq e.id id then some e else with_id id before))
      × IsUnique after

  put_entry_lem :
      (e : RequestEntry V) (xs : List (RequestEntry V)) → IsUnique xs → Puts e xs (put_entry e xs)
  unfolding put_entry
  put_entry_lem e xs u =
      match_option (Puts e xs) (with_id e.id xs)
        (λ absent.
          let (same, unique) = sort_lem (xs ++ e ∷ []) (append-IsUnique xs e absent u) in
          (λ id. same id ∙ (with_id-append id xs e ∙ appended id absent), unique))
        λ r present.
          let there : is_some (with_id e.id xs) ≡ true = ap is_some present in
          (λ id. with_id-replace_first id e xs there, replace_first-IsUnique e xs there u)
    where
      by_id :
          (id : Str) (b : Bool)
          → str_eq e.id id ≡ b
          → with_id e.id xs ≡ none
          → or_entry e id (with_id id xs) ≡ (if b then some e else with_id id xs)
      by_id id true same absent =
          ap (or_entry e id)
            (ap (λ (i : Str). with_id i xs) (sym (str_eq_sound e.id id same)) ∙ absent)
          ∙ ap (λ (b : Bool). if b then some e else none) same
      by_id id false other absent = kept (with_id id xs)
        where
          kept : (o : Option (RequestEntry V)) → or_entry e id o ≡ o
          kept none = ap (λ (b : Bool). if b then some e else none) other
          kept (some r) = refl

      appended :
          (id : Str)
          → with_id e.id xs ≡ none
          → or_entry e id (with_id id xs) ≡ (if str_eq e.id id then some e else with_id id xs)
      appended id absent = by_id id (str_eq e.id id) refl absent

  -- A saved request is the one that its path names from then on.
  abbrev pub Saves :
      Collection V → Str → RequestSpec V → Collection V → Result CollectionError Str → Type 0
  Saves c rel spec c' (err e) = c' ≡ c
  Saves c rel spec c' (ok file) =
      (path : Str) × (sanitize_request_path rel ≡ some path)
      × (file ≡ request_path c.root path)
      × ((id : Str)
          → with_id id c'.requests
            ≡ (if str_eq path id then some (entry_of c.root path spec) else with_id id c.requests))

  -- Saving keeps the ids of the requests apart. Where it fails nothing changes; where it does not,
  -- the file is the one of the sanitized path, the request with that path as its id is the saved one,
  -- and all other ids have the requests that they had.
  pub save_request-Saves :
      (write : Str → RequestSpec V → Option CollectionError) (c : Collection V) (rel : Str)
      (spec : RequestSpec V)
      → IsUnique c.requests
      → let (c', result) = save_request write c rel spec in
        Saves c rel spec c' result × IsUnique c'.requests
  unfolding save_request
  save_request-Saves write c rel spec u =
      match_option
        (λ (r : Collection V × Result CollectionError Str).
          Saves c rel spec r.0 r.1 × IsUnique r.0.requests)
        (sanitize_request_path rel) (λ _. (refl, u))
        λ path safe.
          match_option
            (λ (r : Collection V × Result CollectionError Str).
              Saves c rel spec r.0 r.1 × IsUnique r.0.requests)
            (write (request_path c.root path) spec)
            (λ _.
              let (holds, unique) = put_entry_lem (entry_of c.root path spec) c.requests u in
              ((path, safe, refl, holds), unique))
            λ e _. (refl, u)
