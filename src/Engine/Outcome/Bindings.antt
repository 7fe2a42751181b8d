-- ===== src/Engine/Outcome/Bindings.antt =====
-- The variables that `apply_captures` of crates/gabriel-engine/src/lib.rs binds.
use gabrielbrowser.Base.{
  Option, none, some, List, [], ◌∷◌, ◌++◌, Str, str_eq, if◌then◌else◌, ◌≡◌, refl, sym, ap, ◌∙◌,
  append_assoc, append-nil, match_options,
}
use gabrielbrowser.Base.Map.{lookup-insert}
use gabrielbrowser.Model.{VarCapture}
use gabrielbrowser.Vars
use gabrielbrowser.Vars.{Resolver, get}
use gabrielbrowser.Json.{Json, JsonOps}
use gabrielbrowser.Json.Response.{ExecutedResponse, json}
use gabrielbrowser.Engine.Outcome.{captured_value, capture_all, apply_captures}

-- The value of a variable after a list of bindings: the last one counts.
abbrev pub last_bound : Str → List (Str × Str) → Option Str → Option Str
last_bound name [] before = before
last_bound name ((k, v) ∷ bindings) before =
    last_bound name bindings (if str_eq k name then some v else before)

module _ {N F : Type 0} (ops : JsonOps N F) where
  -- What the captures find, in their order.
  abbrev pub found : Option (Json N) → ExecutedResponse → List VarCapture → List (Str × Str)
  found doc response [] = []
  found doc response (capture ∷ captures) = elim (captured_value ops doc response capture) [
    | none ↦ found doc response captures
    | some value ↦ (capture.var, value) ∷ found doc response captures
  ]

  -- The loop keeps what is found, and binds it in order.
  capture_all_lem :
      (doc : Option (Json N)) (response : ExecutedResponse) (captures : List VarCapture)
      (r : Resolver) (captured : List (Str × Str))
      → ((capture_all ops doc response captures r captured).1
          ≡ captured ++ found doc response captures)
        × ((name : Str)
            → get (capture_all ops doc response captures r captured).0 name
              ≡ last_bound name (found doc response captures) (get r name))
  unfolding capture_all
  capture_all_lem doc response [] r captured = (sym (append-nil captured), λ name. refl)
  capture_all_lem doc response (capture ∷ captures) r captured =
      match_options
        (λ (a : Resolver × List (Str × Str)) (b : List (Str × Str)).
          (a.1 ≡ captured ++ b) × ((name : Str) → get a.0 name ≡ last_bound name b (get r name)))
        (captured_value ops doc response capture)
        (λ _. capture_all_lem doc response captures r captured)
        λ value _.
          let r' = Vars.set r capture.var value in
          let captured' = captured ++ (capture.var, value) ∷ [] in
          let (kept, bound) = capture_all_lem doc response captures r' captured' in
          (
            kept ∙ append_assoc captured ((capture.var, value) ∷ []) (found doc response captures),
            λ name.
                bound name
                ∙ ap (last_bound name (found doc response captures))
                    (lookup-insert capture.var name value r.vars),
          )

  -- Captures bind, in their order, exactly what they find in the response, and give the same list to
  -- show; of two captures of one variable that find something the later counts, and every other
  -- variable keeps its value.
  pub apply_captures_lem :
      (captures : List VarCapture) (response : ExecutedResponse) (r : Resolver)
      → let bindings = found (json ops response) response captures in
        let (r', captured) = apply_captures ops captures response r in
        (captured ≡ bindings) × ((name : Str) → get r' name ≡ last_bound name bindings (get r name))
  unfolding apply_captures
  apply_captures_lem captures response r =
      capture_all_lem (json ops response) response captures r []
