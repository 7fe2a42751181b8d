-- ===== src/Collection/Find/Search.antt =====
-- What searching a list by a test comes to, for the lookup of crates/gabriel-collection/src/lib.rs.
use gabrielbrowser.Base.{
  Bool, true, false, ◌||◌, none, some, List, [], ◌∷◌, ◌++◌, find, filter, ◌≡◌, refl, sym, ap, ◌∙◌,
  ◌⊎◌, ◌↔◌, inl, inr, All, arith, Bool-cases, if◌then◌else◌,
}

module _ {A : Type 0} where
  -- No member of the list is one.
  abbrev pub AllNot : (A → Type 0) → List A → Type 0
  AllNot P xs = All (λ x. ¬ P x) xs

  -- The first member of the list that is one.
  abbrev pub IsFirst : (A → Type 0) → A → List A → List A → Type 0
  IsFirst P x after xs = (before : List A) × (xs ≡ before ++ x ∷ after) × AllNot P before × P x

  -- A test that decides a property.
  abbrev pub Decides : (A → Bool) → (A → Type 0) → Type 0
  Decides p P = (x : A) → (p x ≡ true) ↔ P x

  pub fails : (p : A → Bool) (P : A → Type 0) → Decides p P → (x : A) → p x ≡ false → ¬ P x
  fails p P t x e h = let yes = (t x).1 h in cc

  pub find-none :
      (p : A → Bool) (P : A → Type 0) → Decides p P → (xs : List A) → find p xs ≡ none → AllNot P xs
  find-none p P t [] h = tt
  find-none p P t (x ∷ xs) h = elim (Bool-cases (p x)) [
    | inl e ↦ ground (arith, e, h)
    | inr e ↦ (fails p P t x e, find-none p P t xs (ground (arith, e, h)))
  ]

  pub find-some :
      (p : A → Bool) (P : A → Type 0)
      → Decides p P
      → (xs : List A) (y : A) → find p xs ≡ some y
      → (after : List A) × IsFirst P y after xs
  find-some p P t [] y h = cc
  find-some p P t (x ∷ xs) y h = elim (Bool-cases (p x)) [
    | inl e ↦
        let same : x ≡ y = ground (arith, e, h) in
        (xs, ([], ap (λ z. z ∷ xs) same, tt, (t y).0 (ap p (sym same) ∙ e)))
    | inr e ↦
        let (after, (before, split, others, found)) = find-some p P t xs y (ground (arith, e, h)) in
        (after, (x ∷ before, ap (λ l. x ∷ l) split, (fails p P t x e, others), found))
  ]

  pub filter_none :
      (p : A → Bool) (P : A → Type 0) → Decides p P → (xs : List A) → filter p xs ≡ [] → AllNot P xs
  filter_none p P t [] h = tt
  filter_none p P t (x ∷ xs) h = elim (Bool-cases (p x)) [
    | inl e ↦ ground (arith, e, h)
    | inr e ↦ (fails p P t x e, filter_none p P t xs (ground (arith, e, h)))
  ]

  pub filter-IsFirst :
      (p : A → Bool) (P : A → Type 0)
      → Decides p P
      → (xs : List A) (y : A) (ys : List A) → filter p xs ≡ y ∷ ys
      → (after : List A) × IsFirst P y after xs × (filter p after ≡ ys)
  filter-IsFirst p P t [] y ys h = cc
  filter-IsFirst p P t (x ∷ xs) y ys h = elim (Bool-cases (p x)) [
    | inl e ↦
        let taken : x ∷ filter p xs ≡ y ∷ ys =
          ap (λ (b : Bool). if b then x ∷ filter p xs else filter p xs) (sym e) ∙ h in
        let same : x ≡ y = cc in
        let rest : filter p xs ≡ ys = cc in
        (xs, ([], ap (λ z. z ∷ xs) same, tt, (t y).0 (ap p (sym same) ∙ e)), rest)
    | inr e ↦
        let skipped : filter p xs ≡ y ∷ ys =
          ap (λ (b : Bool). if b then x ∷ filter p xs else filter p xs) (sym e) ∙ h in
        let (after, (before, split, others, found), rest) = filter-IsFirst p P t xs y ys skipped in
        (after, (x ∷ before, ap (λ l. x ∷ l) split, (fails p P t x e, others), found), rest)
  ]

pub or_iff :
    (a b : Bool) {P Q : Type 0} → (a ≡ true) ↔ P → (b ≡ true) ↔ Q → ((a || b) ≡ true) ↔ (P ⊎ Q)
or_iff true b (p, p') (q, q') = (λ _. inl (p refl), λ _. refl)
or_iff false b (p, p') (q, q') =
    (λ h. inr (q h), λ h. elim h [ inl x ↦ let no = p' x in cc | inr y ↦ q' y ])
