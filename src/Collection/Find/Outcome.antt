-- ===== src/Collection/Find/Outcome.antt =====
-- What a lookup comes to, `Collection::find` of crates/gabriel-collection/src/lib.rs.
use gabrielbrowser.Base.{
  Bool, true, ◌||◌, Option, none, some, List, [], ◌∷◌, ◌++◌, Str, codes, str_eq, str_eq_iff,
  ends_with_iff, find, filter, map, ◌≡◌, refl, ap, ◌⊎◌, ◌↔◌, inl, inr, Bool-cases, subst, some_inj,
}
use gabrielbrowser.Base.Text.Contains.{Occurs, contains_iff}
use gabrielbrowser.Base.Results.{Result, ok, err}
use gabrielbrowser.Collection.{
  Collection, RequestEntry, LoadProblem, CollectionError, parse, no_such_request, ambiguous_request,
  unsafe_path,
}
use gabrielbrowser.Collection.Find.{
  normal_query, name_is, has_suffix, has_part, is_problem, is_match, by_matches, find_request,
  id_of,
}
use gabrielbrowser.Collection.Find.Query.{IsQuery, normal_query-IsQuery}
use gabrielbrowser.Collection.Find.Search.{
  AllNot, IsFirst, Decides, fails, find-none, find-some, filter_none, filter-IsFirst, or_iff,
}

-- The id is the query, or ends in it after a slash.
abbrev pub IsBelowQuery : Str → Str → Type 0
IsBelowQuery id q = (folder : Str) × (id ≡ folder ++ (codes "/" ++ q))

name_is_iff : (name : Option Str) (query : Str) → (name_is name query ≡ true) ↔ (name ≡ some query)
name_is_iff none query = (λ h. cc, λ h. cc)
name_is_iff (some name) query = (
  λ h. ap (λ n. some n) ((str_eq_iff name query).0 h),
  λ h. (str_eq_iff name query).1 (some_inj h),
)

module _ (to_lowercase : Str → Str) where
  -- A problem that a query may mean.
  abbrev pub IsMeant : Str → LoadProblem → Type 0
  IsMeant q p = (p.id ≡ q) ⊎ (IsBelowQuery p.id q ⊎ Occurs (to_lowercase q) (to_lowercase p.id))

  is_problem-IsMeant : (q : Str) → Decides (is_problem to_lowercase q) (IsMeant q)
  is_problem-IsMeant q p =
      or_iff (str_eq p.id q) (has_suffix p.id q || has_part to_lowercase p.id q) (str_eq_iff p.id q)
        (or_iff (has_suffix p.id q) (has_part to_lowercase p.id q)
          (ends_with_iff p.id (codes "/" ++ q)) (contains_iff (to_lowercase p.id) (to_lowercase q)))

module _ {V : Type 0} (to_lowercase : Str → Str) where
  -- A request that a query may mean: its id ends in the query after a slash, its name is the query as
  -- it was written, or its id holds the query somewhere, in any case.
  abbrev pub IsMatch : Str → Str → RequestEntry V → Type 0
  IsMatch query q r =
      IsBelowQuery r.id q
      ⊎ ((r.spec.name ≡ some query) ⊎ Occurs (to_lowercase q) (to_lowercase r.id))

  abbrev pub HasId : Str → RequestEntry V → Type 0
  HasId q r = r.id ≡ q

  is_match-IsMatch :
      (query : Str) → Decides (is_match to_lowercase query) (IsMatch query (normal_query query))
  is_match-IsMatch query r =
      let q = normal_query query in
      or_iff (has_suffix r.id q) (name_is r.spec.name query || has_part to_lowercase r.id q)
        (ends_with_iff r.id (codes "/" ++ q))
        (or_iff (name_is r.spec.name query) (has_part to_lowercase r.id q)
          (name_is_iff r.spec.name query) (contains_iff (to_lowercase r.id) (to_lowercase q)))

  -- The texts are the ids of all requests of the list that are ones, in their order.
  abbrev pub AreNamed : (RequestEntry V → Type 0) → List (RequestEntry V) → List Str → Type 0
  AreNamed P [] ids = ids ≡ []
  AreNamed P (r ∷ rs) ids =
      (P r × ((rest : List Str) × (ids ≡ r.id ∷ rest) × AreNamed P rs rest))
      ⊎ ((¬ P r) × AreNamed P rs ids)

  abbrev pub Found : Collection V → Str → Str → Result CollectionError (RequestEntry V) → Type 0
  Found c query q (ok r) =
      ((after : List (RequestEntry V)) × IsFirst (HasId q) r after c.requests)
      ⊎ (AllNot (HasId q) c.requests
          × ((after : List (RequestEntry V)) × IsFirst (IsMatch query q) r after c.requests
              × AllNot (IsMatch query q) after))
  Found c query q (err (ambiguous_request asked ids)) =
      AllNot (HasId q) c.requests
      × (asked ≡ query)
      × AreNamed (IsMatch query q) c.requests ids
      × ((first second : Str) × (more : List Str) × (ids ≡ first ∷ second ∷ more))
  Found c query q (err (no_such_request asked)) =
      AllNot (HasId q) c.requests
      × (asked ≡ query)
      × AllNot (IsMatch query q) c.requests
      × AllNot (IsMeant to_lowercase q) c.problems
  Found c query q (err (parse path message)) =
      AllNot (HasId q) c.requests
      × AllNot (IsMatch query q) c.requests
      × ((p : LoadProblem) × (after : List LoadProblem) × IsFirst (IsMeant to_lowercase q) p after
            c.problems
          × (path ≡ p.path)
          × (message ≡ p.message))
  Found c query q (err (unsafe_path path)) = ⊥

  -- The ids of all members that are ones, in their order.
  filter-AreNamed :
      (p : RequestEntry V → Bool) (P : RequestEntry V → Type 0)
      → Decides p P
      → (rs : List (RequestEntry V)) → AreNamed P rs (map id_of (filter p rs))
  filter-AreNamed p P t [] = refl
  filter-AreNamed p P t (r ∷ rs) = elim (Bool-cases (p r)) [
    | inl e ↦ rw e (inl ((t r).0 e, (map id_of (filter p rs), refl, filter-AreNamed p P t rs)))
    | inr e ↦ rw e (inr (fails p P t r e, filter-AreNamed p P t rs))
  ]

  str_eq-HasId : (q : Str) → Decides (λ (r : RequestEntry V). str_eq r.id q) (HasId q)
  str_eq-HasId q r = str_eq_iff r.id q

  no_match-Found :
      (c : Collection V) (query : Str) (o : Option LoadProblem)
      → find (is_problem to_lowercase (normal_query query)) c.problems ≡ o
      → AllNot (HasId (normal_query query)) c.requests
      → AllNot (IsMatch query (normal_query query)) c.requests
      → Found c query
          (normal_query query)
          (elim o [ some p ↦ err (parse p.path p.message) | none ↦ err (no_such_request query) ])
  no_match-Found c query none e no_id no_match' =
      let q = normal_query query in
      (
        no_id,
        refl,
        no_match',
        find-none (is_problem to_lowercase q) (IsMeant to_lowercase q)
            (is_problem-IsMeant to_lowercase q) c.problems e,
      )
  no_match-Found c query (some p) e no_id no_match' =
      let q = normal_query query in
      let (after, first) =
        find-some (is_problem to_lowercase q) (IsMeant to_lowercase q)
          (is_problem-IsMeant to_lowercase q) c.problems p e in
      (no_id, no_match', (p, after, first, refl, refl))

  by_matches-Found :
      (c : Collection V) (query : Str) (ms : List (RequestEntry V))
      → filter (is_match to_lowercase query) c.requests ≡ ms
      → AllNot (HasId (normal_query query)) c.requests
      → Found c query (normal_query query) (by_matches to_lowercase c.problems query ms)
  by_matches-Found c query [] e no_id =
      let q = normal_query query in
      no_match-Found c query (find (is_problem to_lowercase q) c.problems) refl no_id (
        filter_none (is_match to_lowercase query) (IsMatch query q) (is_match-IsMatch query)
          c.requests e)
  by_matches-Found c query (r ∷ []) e no_id =
      let p = is_match to_lowercase query in
      let P = IsMatch query (normal_query query) in
      let (after, first, rest) = filter-IsFirst p P (is_match-IsMatch query) c.requests r [] e in
      inr (no_id, (after, first, filter_none p P (is_match-IsMatch query) after rest))
  by_matches-Found c query (r ∷ s ∷ ms) e no_id =
      let named =
        filter-AreNamed (is_match to_lowercase query) (IsMatch query (normal_query query))
          (is_match-IsMatch query) c.requests in
      (
        no_id,
        refl,
        subst (λ l. AreNamed (IsMatch query (normal_query query)) c.requests (map id_of l)) e named,
        (r.id, s.id, map id_of ms, refl),
      )

  -- A lookup takes the extensions and slashes off the query, and then: the first request with that
  -- very id is found; where none has it, the one request that the query may mean is found; where the
  -- query may mean several, the error names them all in their order; and where it may mean none, the error is that of
  -- the first file that failed to load and that it may mean, or that there is no such request.
  pub find_request-Found :
      (c : Collection V) (query : Str)
      → (q : Str) × IsQuery query q × Found c query q (find_request to_lowercase c query)
  unfolding find_request
  find_request-Found c query =
      let q = normal_query query in
      (q, normal_query-IsQuery query, by_exact (find (λ r. str_eq r.id q) c.requests) refl)
    where
      by_exact :
          (o : Option (RequestEntry V))
          → find (λ r. str_eq r.id (normal_query query)) c.requests ≡ o
          → Found c query (normal_query query) (elim o [
            | some exact ↦ ok exact
            | none ↦
                by_matches to_lowercase c.problems query
                  (filter (is_match to_lowercase query) c.requests)
          ])
      by_exact none e =
          by_matches-Found c query (filter (is_match to_lowercase query) c.requests) refl (
            find-none (λ (r : RequestEntry V). str_eq r.id (normal_query query))
              (HasId (normal_query query)) (str_eq-HasId (normal_query query)) c.requests e)
      by_exact (some r) e = inl (
          find-some (λ (x : RequestEntry V). str_eq x.id (normal_query query))
            (HasId (normal_query query)) (str_eq-HasId (normal_query query)) c.requests r e)
