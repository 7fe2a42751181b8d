-- ===== src/Engine/OAuth/Callback.antt =====
-- Which callback the flow accepts, crates/gabriel-engine/src/oauth.rs.
use gabrielbrowser.Base.{
  ℕ, Bool, true, false, Option, none, some, List, [], ◌∷◌, ◌++◌, Str, codes, ◌≡◌, refl, ap, ◌∙◌,
  All, some_inj,
}
use gabrielbrowser.Base.Map.{Map, lookup}
use gabrielbrowser.Base.Results.{ok, err}
use gabrielbrowser.Base.Text.{split_once}
use gabrielbrowser.Base.Utf8.{from_utf8_lossy}
use gabrielbrowser.Engine.{auth}
use gabrielbrowser.Engine.OAuth.{
  parse_query, constant_time_eq, target_of, Answer, again, refused, accepted, state_matches,
  code_answer, description_of, answer_params, answer, Accepted, late, failed, connection,
  wait_for_code,
}

-- A request that carries a code under the state that was sent out, and no error.
abbrev pub IsGenuine : Str → Str → Str → Type 0
IsGenuine expected request code =
    (path : Str) × (query : Str) × (params : Map Str) × (state : Str) × (split_once b'?'
        (target_of request)
      ≡ some (path, query))
    × (parse_query query ≡ some params)
    × (lookup (codes "error") params ≡ none)
    × (lookup (codes "state") params ≡ some state)
    × (constant_time_eq state expected ≡ true)
    × (lookup (codes "code") params ≡ some code)

-- A connection that is answered and otherwise ignored.
abbrev pub IsIgnored : Str → Accepted → Type 0
IsIgnored expected late = ⊥
IsIgnored expected (failed message) = ⊥
IsIgnored expected (connection bytes) =
    (status : ℕ) × (answer expected (from_utf8_lossy bytes) ≡ some (again status))

code_answer_lem : (o : Option Str) (code : Str) → code_answer o ≡ accepted code → o ≡ some code
code_answer_lem none code h = cc
code_answer_lem (some c) code h = let same : c ≡ code = cc in ap (λ x. some x) same

state_matches_lem :
    (expected : Str) (o : Option Str)
    → state_matches expected o ≡ true
    → (state : Str) × (o ≡ some state) × (constant_time_eq state expected ≡ true)
state_matches_lem expected none h = cc
state_matches_lem expected (some state) h = (state, refl, h)

-- What parameters that are accepted say.
abbrev Accepts : Str → Map Str → Str → Type 0
Accepts expected params code =
    (state : Str) × (lookup (codes "error") params ≡ none)
    × (lookup (codes "state") params ≡ some state)
    × (constant_time_eq state expected ≡ true)
    × (lookup (codes "code") params ≡ some code)

answer_params_lem :
    (expected : Str) (params : Map Str) (code : Str)
    → answer_params expected params ≡ accepted code
    → Accepts expected params code
unfolding answer_params
answer_params_lem expected params code h = by_error (lookup (codes "error") params) refl h
  where
    by_state :
        (b : Bool)
        → lookup (codes "error") params ≡ none
        → state_matches expected (lookup (codes "state") params) ≡ b
        → (elim b [
          | true ↦ code_answer (lookup (codes "code") params)
          | false ↦ refused (
              codes "the callback's state did not match "
              ++ (0xe2 ∷ 0x80 ∷ 0x94 ∷ [] ++ codes " the response was discarded"))
        ])
          ≡ accepted code
        → Accepts expected params code
    by_state false e f k = cc
    by_state true e f k =
        let (state, there, same) = state_matches_lem expected (lookup (codes "state") params) f in
        (state, e, there, same, code_answer_lem (lookup (codes "code") params) code k)

    by_error :
        (o : Option Str)
        → lookup (codes "error") params ≡ o
        → (elim o [
          | some error ↦ refused (
              codes "the provider refused: "
              ++ (error
                  ++ (0x20 ∷ 0xe2 ∷ 0x80 ∷ 0x94 ∷ 0x20 ∷ []
                      ++ description_of error (lookup (codes "error_description") params))))
          | none ↦ elim (state_matches expected (lookup (codes "state") params)) [
            | true ↦ code_answer (lookup (codes "code") params)
            | false ↦ refused (
                codes "the callback's state did not match "
                ++ (0xe2 ∷ 0x80 ∷ 0x94 ∷ [] ++ codes " the response was discarded"))
          ]
        ])
          ≡ accepted code
        → Accepts expected params code
    by_error (some error) e k = cc
    by_error none e k = by_state (state_matches expected (lookup (codes "state") params)) e refl k

answer_lem :
    (expected request code : Str)
    → answer expected request ≡ some (accepted code)
    → IsGenuine expected request code
unfolding answer
answer_lem expected request code h = by_target (split_once b'?' (target_of request)) refl h
  where
    by_params :
        (path query : Str) (o : Option (Map Str))
        → split_once b'?' (target_of request) ≡ some (path, query)
        → parse_query query ≡ o
        → (elim o [ none ↦ none | some params ↦ some (answer_params expected params) ])
          ≡ some (accepted code)
        → IsGenuine expected request code
    by_params path query none e f k = cc
    by_params path query (some params) e f k =
        let given : answer_params expected params ≡ accepted code = some_inj k in
        let (state, a, b, c, d) = answer_params_lem expected params code given in
        (path, query, params, state, e, f, a, b, c, d)

    by_target :
        (o : Option (Str × Str))
        → split_once b'?' (target_of request) ≡ o
        → (elim o [
          | none ↦ some (again 404)
          | some (path, query) ↦ elim (parse_query query) [
            | none ↦ none
            | some params ↦ some (answer_params expected params)
          ]
        ])
          ≡ some (accepted code)
        → IsGenuine expected request code
    by_target none e k = cc
    by_target (some (path, query)) e k = by_params path query (parse_query query) e refl k

-- A code is accepted only from a request that carries it under the state that was sent out, with no
-- error beside it; every connection before that one was answered and ignored.
pub wait_for_code_lem :
    (expected : Str) (connections : List Accepted) (code : Str)
    → wait_for_code expected connections ≡ some (ok code)
    → (before : List Accepted) × (bytes : Str) × (later : List Accepted) × (connections
        ≡ before ++ connection bytes ∷ later)
      × All (IsIgnored expected) before
      × IsGenuine expected (from_utf8_lossy bytes) code
unfolding wait_for_code
wait_for_code_lem expected [] code h = cc
wait_for_code_lem expected (late ∷ later) code h = cc
wait_for_code_lem expected (failed message ∷ later) code h = cc
wait_for_code_lem expected (connection bytes ∷ later) code h =
    by_answer (answer expected (from_utf8_lossy bytes)) refl h
      (wait_for_code_lem expected later code)
  where
    Goal : List Accepted → Type 0
    Goal connections =
        (before : List Accepted) × (bytes : Str) × (later : List Accepted) × (connections
          ≡ before ++ connection bytes ∷ later)
        × All (IsIgnored expected) before
        × IsGenuine expected (from_utf8_lossy bytes) code

    by_answer :
        (o : Option Answer)
        → answer expected (from_utf8_lossy bytes) ≡ o
        → (elim o [
          | none ↦ none
          | some given ↦ elim given [
            | again status ↦ wait_for_code expected later
            | refused message ↦ some (err (auth message))
            | accepted code ↦ some (ok code)
          ]
        ])
          ≡ some (ok code)
        → (wait_for_code expected later ≡ some (ok code) → Goal later)
        → Goal (connection bytes ∷ later)
    by_answer none e k ih = cc
    by_answer (some (again status)) e k ih =
        let (before, found, rest, whole, ignored, genuine) = ih k in
        (
          connection bytes ∷ before,
          found,
          rest,
          ap (λ (l : List Accepted). connection bytes ∷ l) whole,
          ((status, e), ignored),
          genuine,
        )
    by_answer (some (refused message)) e k ih = cc
    by_answer (some (accepted given)) e k ih =
        let same : given ≡ code = cc in
        (
          [],
          bytes,
          later,
          refl,
          tt,
          answer_lem expected (from_utf8_lossy bytes) code
              (e ∙ ap (λ (x : Str). some (accepted x)) same),
        )
