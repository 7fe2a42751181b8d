-- ===== src/Session/Store/Jar.antt =====
-- Jars hold one cookie for each identity, and pruning counts what it removes.
use gabrielbrowser.Base.{
  ℕ, ◌≡◌, refl, Bool, true, false, not, ◌&&◌, Option, none, some, List, [], ◌∷◌, ◌++◌, Str, str_eq,
  str_eq_iff, filter, All, find, All-append, All-filter, All-of_filter, if◌then◌else◌, arith,
  Bool-cases, ◌↔◌, inl, inr,
}
use gabrielbrowser.Base.Map.{lookup-insert}
use gabrielbrowser.Session.{Cookie, is_expired, same_identity}
use gabrielbrowser.Session.Store.{SessionStore, jar, put, record_cookie}

-- Cookies with the same name, domain and path.
abbrev pub Identity : Cookie → Cookie → Type 0
Identity a b = (a.name ≡ b.name) × (a.domain ≡ b.domain) × (a.path ≡ b.path)

pub same_identity_iff : (a b : Cookie) → (same_identity a b ≡ true) ↔ Identity a b
unfolding same_identity
same_identity_iff a b =
    ground (arith, str_eq_iff a.name b.name, str_eq_iff a.domain b.domain, str_eq_iff a.path b.path)

same_identity_comm : (a b : Cookie) → same_identity a b ≡ false → same_identity b a ≡ false
same_identity_comm a b h = ground (arith, same_identity_iff a b, same_identity_iff b a)

abbrev Differs : Cookie → Cookie → Type 0
Differs a b = same_identity a b ≡ false

-- No two cookies of a jar have the same identity.
abbrev pub IsUnique : List Cookie → Type 0
IsUnique [] = Unit
IsUnique (c ∷ j) = All (Differs c) j × IsUnique j

pub filter-IsUnique : (p : Cookie → Bool) (j : List Cookie) → IsUnique j → IsUnique (filter p j)
filter-IsUnique p [] h = tt
filter-IsUnique p (c ∷ j) (d, h) =
    ground (arith, filter-IsUnique p j h, All-filter (Differs c) p j d)

concat-IsUnique :
    (j : List Cookie) (c : Cookie) → IsUnique j → All (λ x. Differs x c) j → IsUnique (j ++ c ∷ [])
concat-IsUnique [] c h k = (tt, tt)
concat-IsUnique (x ∷ j) c (d, h) (k, ks) =
    (All-append (Differs x) j (c ∷ []) d (k, tt), concat-IsUnique j c h ks)

pub put-IsUnique : (now : ℕ) (j : List Cookie) (c : Cookie) → IsUnique j → IsUnique (put now j c)
unfolding put
put-IsUnique now j c h =
    let p : Cookie → Bool = λ existing. not (same_identity existing c) in
    let kept = filter-IsUnique p j h in
    let apart : All (λ x. Differs x c) (filter p j) =
      All-of_filter (λ x. Differs x c) p j (λ x e. ground arith) in
    let full = concat-IsUnique (filter p j) c kept apart in go (is_expired now c) kept full
  where
    go :
        (b : Bool)
        → IsUnique (filter (λ existing. not (same_identity existing c)) j)
        → IsUnique (filter (λ existing. not (same_identity existing c)) j ++ c ∷ [])
        → IsUnique (
            if not b
            then filter (λ existing. not (same_identity existing c)) j ++ c ∷ []
            else filter (λ existing. not (same_identity existing c)) j)
    go true k f = k
    go false k f = f

-- The jars of a store after a cookie is recorded.
pub jar-record_cookie :
    (now : ℕ) (s : SessionStore) (session other : Str) (c : Cookie)
    → jar (record_cookie now s session c) other
      ≡ (if str_eq session other then put now (jar s session) c else jar s other)
unfolding record_cookie jar
jar-record_cookie now s session other c =
    ground (arith, lookup-insert session other (put now (jar s session) c) s.sessions)

-- The cookie of a jar with the identity of `probe`.
abbrev pub held : Cookie → List Cookie → Option Cookie
held probe = find (λ c. same_identity c probe)

identity_through :
    (x c probe : Cookie) → same_identity x c ≡ true → same_identity x probe ≡ same_identity c probe
identity_through x c probe h =
    ground (arith, same_identity_iff x c, same_identity_iff x probe, same_identity_iff c probe)

held-filter :
    (j : List Cookie) (c probe : Cookie)
    → held probe (filter (λ existing. not (same_identity existing c)) j)
      ≡ (if same_identity c probe then none else held probe j)
held-filter [] c probe = ground arith
held-filter (x ∷ j) c probe = ground (
  arith,
  held-filter j c probe,
  identity_through x c probe,
  same_identity_iff x c,
  same_identity_iff x probe,
  same_identity_iff c probe,
)

held-concat :
    (j : List Cookie) (c probe : Cookie)
    → held probe (j ++ c ∷ []) ≡ (elim (held probe j) [
      | some x ↦ some x
      | none ↦ if same_identity c probe then some c else none
    ])
held-concat [] c probe = ground arith
held-concat (x ∷ j) c probe = ground (arith, held-concat j c probe)

held-put :
    (now : ℕ) (j : List Cookie) (c probe : Cookie)
    → held probe (put now j c) ≡ (
        if same_identity c probe then (if is_expired now c then none else some c) else held probe j)
unfolding put
held-put now j c probe =
    let kept = filter (λ existing. not (same_identity existing c)) j in
    ground (arith, held-filter j c probe, held-concat kept c probe)

-- After a cookie is recorded in a session, what the jar of any session holds under any identity is:
-- in that session and under the cookie's own identity, the cookie, or nothing if it has expired;
-- everywhere else what was there before.
pub held-record_cookie :
    (now : ℕ) (s : SessionStore) (session other : Str) (c probe : Cookie)
    → held probe (jar (record_cookie now s session c) other) ≡ (
        if str_eq session other && same_identity c probe
        then (if is_expired now c then none else some c)
        else held probe (jar s other))
held-record_cookie now s session other c probe =
    rw jar-record_cookie (elim (Bool-cases (str_eq session other)) [
      | inl same ↦
          rw (same, held-put now (jar s session) c probe, (str_eq_iff session other).0 same) refl
      | inr differs ↦ rw differs refl
    ])
