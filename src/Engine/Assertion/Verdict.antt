-- ===== src/Engine/Assertion/Verdict.antt =====
-- When an assertion passes, crates/gabriel-engine/src/assertion.rs.
use gabrielbrowser.Base.{
  Bool, true, false, not, Option, none, some, if◌then◌else◌, ◌≡◌, refl, sym, ap, ◌∙◌, ◌↔◌, ◌⊎◌, inl,
  inr, subst, some_inj,
}
use gabrielbrowser.Base.Text.{contains}
use gabrielbrowser.Base.Text.Contains.{Occurs, contains_iff}
use gabrielbrowser.Model
use gabrielbrowser.Model.{AssertTarget, AssertOp, Assertion, eq, ne, lt, gt, exists, missing}
use gabrielbrowser.Json.{Json, JsonOps, json_eq}
use gabrielbrowser.Json.Diff.{render}
use gabrielbrowser.Json.Response.{ExecutedResponse}
use gabrielbrowser.Engine.Assertion.{
  AssertionOutcome, as_float, both, values_equal, compare, both_values, verdict, evaluate,
  actual_value, expected_value, outcome_of,
}
use gabrielbrowser.Engine.Assertion.Convert.{Toml, TomlOps}

module _ {N F : Type 0} (ops : JsonOps N F) where
  -- Two values are numbers, and their floating-point values are in a relation.
  abbrev pub Floats : (F → F → Bool) → Json N → Json N → Type 0
  Floats test v w =
      (x : F) × (y : F) × (as_float ops v ≡ some x) × (as_float ops w ≡ some y) × (test x y ≡ true)

  abbrev pub AreEqual : Json N → Json N → Type 0
  AreEqual v w = (json_eq ops.num_eq v w ≡ true) ⊎ Floats ops.f64_eq v w

  abbrev pub Compares : AssertOp → Json N → Json N → Type 0
  Compares eq v w = AreEqual v w
  Compares ne v w = ¬ AreEqual v w
  Compares lt v w = Floats ops.f64_lt v w
  Compares gt v w = Floats ops.f64_lt w v
  Compares Model.contains v w = Occurs (render ops w) (render ops v)
  Compares exists v w = ⊥
  Compares missing v w = ⊥

  abbrev pub Holds : AssertOp → Option (Json N) → Option (Json N) → Type 0
  Holds exists actual expected = (v : Json N) × (actual ≡ some v)
  Holds missing actual expected = actual ≡ none
  Holds op actual expected =
      (v : Json N) × (w : Json N) × (actual ≡ some v) × (expected ≡ some w) × Compares op v w

  both_iff :
      (test : F → F → Bool) (o p : Option F)
      → (both ops test o p ≡ true)
        ↔ ((x : F) × (y : F) × (o ≡ some x) × (p ≡ some y) × (test x y ≡ true))
  both_iff test none none = (λ h. cc, λ k. cc)
  both_iff test none (some y) = (λ h. cc, λ (x, z, e, f, t). cc)
  both_iff test (some x) none = (λ h. cc, λ (z, y, e, f, t). cc)
  both_iff test (some x) (some y) = (
    λ h. (x, y, refl, refl, h),
    λ (a, b, e, f, t). ap (λ (c : F). test c y) (some_inj e) ∙ (ap (test a) (some_inj f) ∙ t),
  )

  values_equal_iff : (v w : Json N) → (values_equal ops v w ≡ true) ↔ AreEqual v w
  unfolding values_equal
  values_equal_iff v w = by_eq (json_eq ops.num_eq v w) refl
    where
      floats :
          (both ops (ops.f64_eq) (as_float ops v) (as_float ops w) ≡ true) ↔ Floats ops.f64_eq v w
      floats = both_iff (ops.f64_eq) (as_float ops v) (as_float ops w)

      by_eq :
          (b : Bool)
          → json_eq ops.num_eq v w ≡ b
          → ((if b then true else both ops (ops.f64_eq) (as_float ops v) (as_float ops w)) ≡ true)
            ↔ AreEqual v w
      by_eq true e = (λ _. inl e, λ _. refl)
      by_eq false e = (λ h. inr (floats.0 h), λ k. elim k [ inl same ↦ cc | inr f ↦ floats.1 f ])

  -- what a comparison gives, and when it is true
  abbrev Decides : Option Bool → Type 0 → Type 0
  Decides o P = (b : Bool) × (o ≡ some b) × ((b ≡ true) ↔ P)

  not_iff : {P : Type 0} (b : Bool) → ((b ≡ true) ↔ P) → (not b ≡ true) ↔ (¬ P)
  not_iff true (f, g) = (λ h. cc, λ k. absurd (k (f refl)))
  not_iff false (f, g) = (λ h p. let e = g p in cc, λ k. refl)

  -- All operators but the last two.
  abbrev is_comparison : AssertOp → Bool
  is_comparison exists = false
  is_comparison missing = false
  is_comparison _ = true

  compare_lem :
      (op : AssertOp) (v w : Json N)
      → is_comparison op ≡ true
      → Decides (compare ops op v w) (Compares op v w)
  unfolding compare
  compare_lem eq v w h = (values_equal ops v w, refl, values_equal_iff v w)
  compare_lem ne v w h =
      (not (values_equal ops v w), refl, not_iff (values_equal ops v w) (values_equal_iff v w))
  compare_lem lt v w h =
      (both ops ops.f64_lt (as_float ops v) (as_float ops w), refl, both_iff ops.f64_lt _ _)
  compare_lem gt v w h =
      (both ops ops.f64_lt (as_float ops w) (as_float ops v), refl, both_iff ops.f64_lt _ _)
  compare_lem Model.contains v w h =
      (contains (render ops v) (render ops w), refl, contains_iff (render ops v) (render ops w))
  compare_lem exists v w h = cc
  compare_lem missing v w h = cc

  -- a comparison of values that may be absent
  abbrev HoldsFor : AssertOp → Option (Json N) → Option (Json N) → Type 0
  HoldsFor op actual expected =
      (v : Json N) × (w : Json N) × (actual ≡ some v) × (expected ≡ some w) × Compares op v w

  both_values_lem :
      (op : AssertOp) (actual expected : Option (Json N))
      → is_comparison op ≡ true
      → Decides (both_values ops op actual expected) (HoldsFor op actual expected)
  both_values_lem op none expected h = (false, refl, (λ k. cc, λ (v, w, e, f, c). cc))
  both_values_lem op (some v) none h = (false, refl, (λ k. cc, λ (x, w, e, f, c). cc))
  both_values_lem op (some v) (some w) h =
      let (b, e, (f, g)) = compare_lem op v w h in
      (
        b,
        e,
        (
          λ k. (v, w, refl, refl, f k),
          λ (x, y, p, q, c). g (
              subst (λ u. Compares op u w) (sym (some_inj p))
                (subst (λ u. Compares op x u) (sym (some_inj q)) c)),
        ),
      )

  verdict_lem :
      (op : AssertOp) (actual expected : Option (Json N))
      → Decides (verdict ops op actual expected) (Holds op actual expected)
  unfolding verdict
  verdict_lem exists none expected = (false, refl, (λ k. cc, λ (v, e). cc))
  verdict_lem exists (some v) expected = (true, refl, (λ k. (v, refl), λ _. refl))
  verdict_lem missing none expected = (true, refl, (λ k. refl, λ _. refl))
  verdict_lem missing (some v) expected = (false, refl, (λ k. cc, λ e. cc))
  verdict_lem eq actual expected = both_values_lem eq actual expected refl
  verdict_lem ne actual expected = both_values_lem ne actual expected refl
  verdict_lem lt actual expected = both_values_lem lt actual expected refl
  verdict_lem gt actual expected = both_values_lem gt actual expected refl
  verdict_lem Model.contains actual expected = both_values_lem Model.contains actual expected refl

  -- An assertion is evaluated without a panic, and passes exactly when it holds: `exists` and
  -- `missing` say whether there is an actual value; for every other operator there are an actual and
  -- an expected value, and they are equal as values or as floating-point numbers (`eq`), they are not
  -- (`ne`), they are numbers of which one is below the other (`lt`, `gt`), or the expected text occurs
  -- in the actual one (`contains`).
  pub evaluate_lem :
      {D : Type 0} (toml : TomlOps N F D) (a : Assertion (Toml F D)) (response : ExecutedResponse)
      → (outcome : AssertionOutcome) × (evaluate ops toml a response ≡ some outcome)
        × ((outcome.passed ≡ true)
            ↔ Holds a.op
                (actual_value ops a.target a.path response)
                (expected_value ops toml a.value))
  unfolding evaluate
  evaluate_lem toml a response =
      let actual = actual_value ops a.target a.path response in
      let (b, e, holds) = verdict_lem a.op actual (expected_value ops toml a.value) in
      (
        outcome_of ops toml a actual b,
        ap
            (λ (o : Option Bool). elim o [
              | none ↦ none
              | some passed ↦ some (outcome_of ops toml a actual passed)
            ])
            e,
        holds,
      )
