-- ===== src/Session/Store/Header.antt =====
-- The `Cookie` header of a request.
use gabrielbrowser.Base.{
  ℕ, ◌≡◌, refl, sym, ◌∙◌, ◌↔◌, inl, inr, Bool, false, not, ◌&&◌, ◌==◌, Option, none, some, List, [],
  ◌∷◌, map, Str, codes, length, filter, All, if◌then◌else◌, arith, Bool-cases,
}
use gabrielbrowser.Base.Text.{join, is_empty}
use gabrielbrowser.Base.Sort.{
  stable_sort, longest_first, length-stable_sort, IsDescending, stable_sort-IsDescending,
  stable_sort_stable,
}
use gabrielbrowser.Session.{Cookie, is_expired, matches}
use gabrielbrowser.Session.Store.{SessionStore, jar, matching, cookie_header, pair}

-- A cookie of the jar that is alive and in scope.
abbrev pub is_due : ℕ → Str → Str → Bool → Cookie → Bool
is_due now host path is_secure c = not (is_expired now c) && matches c host path is_secure

abbrev longest : List Cookie → List Cookie
longest = stable_sort (longest_first (λ (c : Cookie). length c.path))

none_due :
    (p : Cookie → Bool) (j : List Cookie) → (length (filter p j) ≡ 0) ↔ All (λ c. p c ≡ false) j
none_due p [] = (λ _. tt, λ _. refl)
none_due p (c ∷ j) = elim (Bool-cases (p c)) [
  | inl yes_due ↦ rw yes_due (λ h. absurd (omega arith), λ h. cc h.0)
  | inr not_due ↦ rw not_due (λ h. (refl, (none_due p j).0 h), λ h. (none_due p j).1 h.1)
]

header_of : List Cookie → Option Str
header_of found = if is_empty found then none else some (join (codes "; ") (map pair found))

header_of-none : (found : List Cookie) → (header_of found ≡ none) ↔ (length found ≡ 0)
unfolding header_of
header_of-none [] = (λ _. refl, λ _. refl)
header_of-none (c ∷ found) = (λ h. cc, λ h. absurd (omega arith))

header_of-some :
    (found : List Cookie) (h : Str)
    → header_of found ≡ some h
    → h ≡ join (codes "; ") (map pair found)
unfolding header_of
header_of-some [] h e = cc
header_of-some (c ∷ found) h e = cc

-- Two lists with the same members, in the same order among those with paths of one length.
abbrev pub SameButForPaths : List Cookie → List Cookie → Type 0
SameButForPaths xs ys =
    (n : ℕ) → filter (λ c. length c.path == n) xs ≡ filter (λ c. length c.path == n) ys

-- There is no `Cookie` header exactly when no cookie of the session's jar is alive and in scope.
-- If there is one, it lists `name=value` for all cookies of the jar that are, longer paths first
-- and otherwise in the order of the jar.
pub cookie_header_lem :
    (now : ℕ) (s : SessionStore) (session host path : Str) (is_secure : Bool)
    → let due = filter (is_due now host path is_secure) (jar s session) in
      ((cookie_header now s session host path is_secure ≡ none)
        ↔ All (λ c. is_due now host path is_secure c ≡ false) (jar s session))
      × ((h : Str)
          → cookie_header now s session host path is_secure ≡ some h
          → (sent : List Cookie) × (h ≡ join (codes "; ") (map pair sent))
            × IsDescending (λ (c : Cookie). length c.path) sent
            × SameButForPaths sent due)
unfolding cookie_header matching header_of
cookie_header_lem now s session host path is_secure =
    let p = is_due now host path is_secure in
    let due = filter p (jar s session) in
    let (to, from) = header_of-none (longest due) in
    let (none_to, none_from) = none_due p (jar s session) in
    (
      (
        λ e.
            none_to
              (sym (length-stable_sort (longest_first (λ (c : Cookie). length c.path)) due) ∙ to e),
        λ h.
            from (
              length-stable_sort (longest_first (λ (c : Cookie). length c.path)) due ∙ none_from h),
      ),
      λ h e. (
        longest due,
        header_of-some (longest due) h e,
        stable_sort-IsDescending (λ (c : Cookie). length c.path) due,
        λ n. stable_sort_stable (λ (c : Cookie). length c.path) n due,
      ),
    )
