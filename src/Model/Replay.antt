-- ===== src/Model/Replay.antt =====
-- What replaying a request does to the world, crates/gabriel-core/src/model.rs.
use gabrielbrowser.Base.{
  Bool, true, false, ◌||◌, Str, codes, str_eq, to_ascii_uppercase, if◌then◌else◌, ◌≡◌, ◌↔◌, ◌⊎◌,
  arith, str_eq_iff, List, [], ◌∷◌,
}

pub data Effect : Type 0 where
  read idempotent unsafe unknown : Effect

unfoldable pub changes_state : Effect → Bool
changes_state read = false
changes_state _ = true

unfoldable pub needs_confirmation : Effect → Bool
unfolding changes_state
needs_confirmation e = changes_state e

abbrev pub is_one_of : Str → List Str → Bool
is_one_of s [] = false
is_one_of s (x ∷ xs) = str_eq s x || is_one_of s xs

unfoldable pub effect_of_method : Str → Effect
effect_of_method method =
    let m = to_ascii_uppercase method in
    if is_one_of m (codes "GET" ∷ codes "HEAD" ∷ codes "OPTIONS" ∷ codes "TRACE" ∷ [])
    then read
    else if is_one_of m (codes "PUT" ∷ codes "DELETE" ∷ [])
    then idempotent
    else if is_one_of m (codes "POST" ∷ codes "PATCH" ∷ [])
    then unsafe
    else unknown

-- Which of the two a declared effect and a method give.
abbrev pub AllowsReplay : Str → Type 0
AllowsReplay method =
    (to_ascii_uppercase method ≡ codes "GET")
    ⊎ ((to_ascii_uppercase method ≡ codes "HEAD")
        ⊎ ((to_ascii_uppercase method ≡ codes "OPTIONS")
            ⊎ (to_ascii_uppercase method ≡ codes "TRACE")))

-- A method alone lets a replay run unannounced exactly when it is, in any case, GET, HEAD, OPTIONS
-- or TRACE.
needs_confirmation-effect_of_method :
    (method : Str) → (needs_confirmation (effect_of_method method) ≡ false) ↔ AllowsReplay method
unfolding needs_confirmation effect_of_method changes_state
needs_confirmation-effect_of_method method =
    let m = to_ascii_uppercase method in
    (
      ground (
        arith,
        str_eq_iff m (codes "GET"),
        str_eq_iff m (codes "HEAD"),
        str_eq_iff m (codes "OPTIONS"),
        str_eq_iff m (codes "TRACE"),
      ),
      ground (
        arith,
        str_eq_iff m (codes "GET"),
        str_eq_iff m (codes "HEAD"),
        str_eq_iff m (codes "OPTIONS"),
        str_eq_iff m (codes "TRACE"),
      ),
    )
