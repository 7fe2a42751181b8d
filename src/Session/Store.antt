-- ===== src/Session/Store.antt =====
-- `SessionStore` of crates/gabriel-engine/src/session.rs: one cookie jar for each session. Loading
-- and saving the file are left out.
pub mod Jar
pub mod Prune
pub mod Origin
pub mod Header
use gabrielbrowser.Base.{
  ℕ, suc, ◌+◌, ◌-◌, Bool, true, false, not, ◌&&◌, Option, none, some, List, [], ◌∷◌, ◌++◌, map, Str,
  codes, length, filter, if◌then◌else◌, ltb,
}
use gabrielbrowser.Base.Text.{join, is_empty}
use gabrielbrowser.Base.Map.{Map, lookup, insert, remove}
use gabrielbrowser.Base.Sort.{stable_sort, longest_first}
use gabrielbrowser.Session.{Cookie, is_expired, matches, same_identity}
use gabrielbrowser.Session.Parse.{parse}

pub record SessionStore : Type 0 where
  pub sessions : Map (List Cookie)
  pub path : Option Str

abbrev pub new : SessionStore
new = record { sessions = []; path = none }

pub set_path : SessionStore → Str → SessionStore
set_path s p = record s { path = some p }

pub names : SessionStore → List Str
names s = map (λ (e : Str × List Cookie). e.0) s.sessions

-- `sessions.get(session)`, with no cookies for a session that is not there
unfoldable pub jar : SessionStore → Str → List Cookie
jar s session = elim (lookup session s.sessions) [ none ↦ [] | some j ↦ j ]

unfoldable pub cookie_count : SessionStore → Str → ℕ
unfolding jar
cookie_count s session = length (jar s session)

-- the store that is left, and how many cookies went
unfoldable pub clear : SessionStore → Str → SessionStore × ℕ
unfolding jar
clear s session = (record s { sessions = remove session s.sessions }, length (jar s session))

-- The jar after a cookie is recorded.
unfoldable pub put : ℕ → List Cookie → Cookie → List Cookie
put now j c =
    let kept = filter (λ existing. not (same_identity existing c)) j in
    if not (is_expired now c) then kept ++ c ∷ [] else kept

-- `SessionStore::insert`
unfoldable pub record_cookie : ℕ → SessionStore → Str → Cookie → SessionStore
record_cookie now s session c = record s {
  sessions = insert session (put now (jar s session) c) s.sessions;
}

-- the store and how many cookies were recorded
unfoldable pub record_set_cookies : ℕ → SessionStore → Str → List Str → Str → Str → SessionStore × ℕ
record_set_cookies now s session [] host path = (s, 0)
record_set_cookies now s session (header ∷ headers) host path = elim (parse now header host path) [
  | none ↦ record_set_cookies now s session headers host path
  | some c ↦
      let (s', n) =
        record_set_cookies now (record_cookie now s session c) session headers host path in
      (s', n + 1)
]

-- the cookies of `cookie_header`, in its order
unfoldable pub matching : ℕ → SessionStore → Str → Str → Str → Bool → List Cookie
matching now s session host path is_secure =
    stable_sort (longest_first (λ (c : Cookie). length c.path))
      (filter (λ c. not (is_expired now c) && matches c host path is_secure) (jar s session))

abbrev pub pair : Cookie → Str
pair c = c.name ++ (codes "=" ++ c.value)

unfoldable pub cookie_header : ℕ → SessionStore → Str → Str → Str → Bool → Option Str
cookie_header now s session host path is_secure =
    let found = matching now s session host path is_secure in
    if is_empty found then none else some (join (codes "; ") (map pair found))

abbrev live : ℕ → List Cookie → List Cookie
live now = filter (λ c. not (is_expired now c))

-- the loop of `prune`, over the jars
unfoldable pub prune_jars : ℕ → Map (List Cookie) → Map (List Cookie) × ℕ
prune_jars now [] = ([], 0)
prune_jars now ((k, j) ∷ m) =
    let (m', n) = prune_jars now m in ((k, live now j) ∷ m', length j - length (live now j) + n)

-- the store and how many cookies were removed
unfoldable pub prune : ℕ → SessionStore → SessionStore × ℕ
unfolding prune_jars
prune now s = let (m, n) = prune_jars now s.sessions in (record s { sessions = m }, n)
