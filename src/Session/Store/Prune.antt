-- ===== src/Session/Store/Prune.antt =====
-- Pruning removes exactly what has expired, and says how much that was.
use gabrielbrowser.Base.{
  ℕ, ◌+◌, ◌≡◌, refl, false, not, none, some, List, [], ◌∷◌, Str, length, filter, length-filter-le,
  All, All-of_filter, arith,
}
use gabrielbrowser.Base.Map.{Map, lookup}
use gabrielbrowser.Session.{Cookie, is_expired}
use gabrielbrowser.Session.Store.{SessionStore, jar, prune, prune_jars, live}

-- The cookies of all jars.
abbrev pub total : Map (List Cookie) → ℕ
total [] = 0
total ((k, j) ∷ m) = length j + total m

prune_jars-total :
    (now : ℕ) (m : Map (List Cookie)) → total m ≡ total (prune_jars now m).0 + (prune_jars now m).1
unfolding prune_jars
prune_jars-total now [] = refl
prune_jars-total now ((k, j) ∷ m) =
    omega (arith, prune_jars-total now m, length-filter-le (λ c. not (is_expired now c)) j)

lookup-prune_jars :
    (now : ℕ) (session : Str) (m : Map (List Cookie))
    → lookup session (prune_jars now m).0
      ≡ (elim (lookup session m) [ none ↦ none | some j ↦ some (live now j) ])
unfolding prune_jars lookup
lookup-prune_jars now session [] = refl
lookup-prune_jars now session ((k, j) ∷ m) = ground (arith, lookup-prune_jars now session m)

pub jar-prune :
    (now : ℕ) (s : SessionStore) (session : Str)
    → jar (prune now s).0 session ≡ live now (jar s session)
unfolding prune jar
jar-prune now s session = ground (arith, lookup-prune_jars now session s.sessions)

live-live : (now : ℕ) (j : List Cookie) → All (λ c. is_expired now c ≡ false) j → live now j ≡ j
live-live now [] h = refl
live-live now (c ∷ j) (p, h) = ground (arith, live-live now j h)

-- After pruning each session holds exactly its cookies that have not expired, in their order; none
-- that is left has expired; and the number returned is what the store has lost.
pub prune_lem :
    (now : ℕ) (s : SessionStore)
    → ((session : Str)
        → (jar (prune now s).0 session ≡ filter (λ c. not (is_expired now c)) (jar s session))
          × All (λ c. is_expired now c ≡ false) (jar (prune now s).0 session))
      × (total s.sessions ≡ total (prune now s).0.sessions + (prune now s).1)
prune_lem now s = (
  λ session. (
    jar-prune now s session,
    rw jar-prune
        (All-of_filter (λ c. is_expired now c ≡ false) _ (jar s session) (λ c e. ground arith)),
  ),
  unfold prune in prune_jars-total now s.sessions,
)
