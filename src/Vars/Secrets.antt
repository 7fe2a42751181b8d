-- ===== src/Vars/Secrets.antt =====
-- Every secret that reaches a resolved text is recorded, crates/gabriel-core/src/vars.rs.
use gabrielbrowser.Base.{
  ℕ, zero, suc, Bool, true, false, not, Option, none, some, List, [], ◌∷◌, ◌++◌, Str, codes, str_eq,
  str_eq_refl, length, any, strip_prefix, is_some, ◌≡◌, ◌⊎◌, inl, inr, refl, ap, ◌∙◌, arith,
  some_inj, match_option, match_if, match_options, match_ifs,
}
use gabrielbrowser.Base.Text.{split_once_str, contains, trim, is_empty}
use gabrielbrowser.Base.Map
use gabrielbrowser.Base.Map.{lookup-insert}
use gabrielbrowser.Base.Results.{ok, err, and_then}
use gabrielbrowser.Vars.{
  World, Resolver, Outcome, Expander, record_secret, lookup_secret, lookup_env, lookup_var,
  generated_value, lookup, expand_loop, expand, resolve, unknown_secret,
}

-- Is this text a recorded secret?
abbrev pub is_recorded : Str → Resolver → Bool
is_recorded v r = is_some (Map.lookup v r.used_secrets)

-- What is recorded stays recorded.
abbrev Keeps : Str → Resolver → Outcome → Type 0
Keeps v r result = is_recorded v r ≡ true → is_recorded v result.0 ≡ true

record_secret-Keeps :
    (v : Str) (r : Resolver) (x : Str)
    → is_recorded v r ≡ true
    → is_recorded v (record_secret r x) ≡ true
record_secret-Keeps v r x h = ground (arith, lookup-insert x v tt r.used_secrets)

record_secret_lem :
    (r : Resolver) (v : Str) → is_empty v ≡ false → is_recorded v (record_secret r v) ≡ true
record_secret_lem r v h = ground (arith, lookup-insert v v tt r.used_secrets, str_eq_refl v)

module _ (w : World) (v : Str) where
  lookup_secret-Keeps : (r : Resolver) (key : Str) → Keeps v r (lookup_secret w r key)
  unfolding lookup_secret
  lookup_secret-Keeps r key =
      match_option (Keeps v r) (w.secret key) (λ e h. h) (λ x e. record_secret-Keeps v r x)

  lookup_env-Keeps : (r : Resolver) (key : Str) → Keeps v r (lookup_env w r key)
  unfolding lookup_env
  lookup_env-Keeps r key h = ground arith

  lookup-Keeps :
      (deeper : Expander) (r : Resolver) (name : Str) (stack : List Str)
      → ((r : Resolver) (t : Str) (s : List Str) → Keeps v r (deeper r t s))
      → Keeps v r (lookup w deeper r name stack)
  unfolding lookup lookup_var
  lookup-Keeps deeper r name stack later =
      match_option (Keeps v r) (strip_prefix name (codes "secret:"))
        (λ _.
          match_option (Keeps v r) (strip_prefix name (codes "env:"))
            (λ _.
              match_option (Keeps v r) (generated_value w name r.draws)
                (λ _.
                  match_option (Keeps v r) (Map.lookup name r.vars) (λ _ h. h)
                    (λ raw _.
                      match_if (Keeps v r) (any (λ n. str_eq n name) stack) (λ _ h. h)
                        (λ _. later r raw (stack ++ name ∷ []))))
                (λ value _ h. h))
            (λ key _. lookup_env-Keeps r (trim key)))
        (λ key _. lookup_secret-Keeps r (trim key))

  and_then-Keeps :
      (r : Resolver) (f : Outcome) (k : Resolver → Str → Outcome)
      → Keeps v r f
      → ((r : Resolver) (t : Str) → Keeps v r (k r t))
      → Keeps v r (and_then f k)
  and_then-Keeps r (s, err e) k first second h = first h
  and_then-Keeps r (s, ok a) k first second h = second s a (first h)

  expand_loop-Keeps :
      (look : Resolver → Str → Outcome) (template : Str)
      → ((r : Resolver) (name : Str) → Keeps v r (look r name))
      → (fuel : ℕ) (r : Resolver) (out rest : Str)
      → Keeps v r (expand_loop look template fuel r out rest)
  unfolding expand_loop
  expand_loop-Keeps look template each zero r out rest = λ h. h
  expand_loop-Keeps look template each (suc fuel) r out rest =
      let later = expand_loop-Keeps look template each fuel in
      match_option (Keeps v r) (split_once_str (codes "{{") rest) (λ _ h. h)
        (λ p _.
          match_option (Keeps v r) (split_once_str (codes "}}") p.1) (λ _ h. h)
            (λ q _.
              and_then-Keeps r (look r (trim q.0))
                (λ r' value. expand_loop look template fuel r' ((out ++ p.0) ++ value) q.1)
                (each r (trim q.0)) (λ r' value. later r' ((out ++ p.0) ++ value) q.1)))

  expand-Keeps :
      (left : ℕ) (r : Resolver) (t : Str) (s : List Str) → Keeps v r (expand w left r t s)
  unfolding expand
  expand-Keeps zero r t s = λ h. h
  expand-Keeps (suc left) r t s =
      let each : (r : Resolver) (name : Str) → Keeps v r (lookup w (expand w left) r name s) =
        λ r name. lookup-Keeps (expand w left) r name s (expand-Keeps left) in
      match_if (Keeps v r) (not (contains t (codes "{{"))) (λ _ h. h)
        (λ _.
          expand_loop-Keeps (λ r' name. lookup w (expand w left) r' name s) t each (length t) r []
            t)

-- Two results that are the same unless the first has recorded the secret.
abbrev Agrees : Str → Outcome → Outcome → Type 0
Agrees v a b = is_recorded v a.0 ≡ false → b ≡ a

-- A provider that may differ from the other one only where the other one gives this secret.
abbrev pub IsHiding : Str → World → (Str → Option Str) → Type 0
IsHiding v w other = (key : Str) → (w.secret key ≡ some v) ⊎ (other key ≡ w.secret key)

abbrev pub with_secrets : World → (Str → Option Str) → World
with_secrets w other = record w { secret = other }

module _ (w : World) (v : Str) (other : Str → Option Str) (given : is_empty v ≡ false)
    (hides : IsHiding v w other) where
  lookup_secret-Agrees :
      (r : Resolver) (key : Str)
      → Agrees v (lookup_secret w r key) (lookup_secret (with_secrets w other) r key)
  unfolding lookup_secret
  lookup_secret-Agrees r key h = go (w.secret key) (hides key) h
    where
      found : Option Str → Outcome
      found o = elim o [
        | none ↦ (r, err (unknown_secret key))
        | some value ↦ (record_secret r value, ok value)
      ]

      go :
          (o : Option Str)
          → (o ≡ some v) ⊎ (other key ≡ o)
          → is_recorded v (found o).0 ≡ false
          → found (other key) ≡ found o
      go o (inr e) k = ap found e
      go (some x) (inl e) k =
          let same : x ≡ v = some_inj e in
          let held : is_recorded v (record_secret r x) ≡ true =
            rw same (record_secret_lem r v given) in
          ground arith
      go none (inl e) k = ground arith

  lookup-Agrees :
      (deeper other_deeper : Expander) (r : Resolver) (name : Str) (stack : List Str)
      → ((r : Resolver) (t : Str) (s : List Str) → Agrees v (deeper r t s) (other_deeper r t s))
      → Agrees v
          (lookup w deeper r name stack)
          (lookup (with_secrets w other) other_deeper r name stack)
  unfolding lookup lookup_var lookup_env generated_value
  lookup-Agrees deeper other_deeper r name stack later =
      match_options (Agrees v) (strip_prefix name (codes "secret:"))
        (λ _.
          match_options (Agrees v) (strip_prefix name (codes "env:"))
            (λ _.
              match_options (Agrees v) (generated_value w name r.draws)
                (λ _.
                  match_options (Agrees v) (Map.lookup name r.vars) (λ _ h. refl)
                    (λ raw _.
                      match_ifs (Agrees v) (any (λ n. str_eq n name) stack) (λ _ h. refl)
                        (λ _. later r raw (stack ++ name ∷ []))))
                (λ value _ h. refl))
            (λ key _ h. refl))
        (λ key _. lookup_secret-Agrees r (trim key))

  and_then-Agrees :
      (r : Resolver) (f g : Outcome) (k l : Resolver → Str → Outcome)
      → ((r : Resolver) (t : Str) → Keeps v r (k r t))
      → Agrees v f g
      → ((r : Resolver) (t : Str) → Agrees v (k r t) (l r t))
      → Agrees v (and_then f k) (and_then g l)
  and_then-Agrees r (s, err e) g k l keeps first second h =
      ap (λ (x : Outcome). and_then x l) (first h)
  and_then-Agrees r (s, ok a) g k l keeps first second h =
      let before : is_recorded v s ≡ false = ground (arith, keeps s a) in
      ap (λ (x : Outcome). and_then x l) (first before) ∙ second s a h

  expand_loop-Agrees :
      (look other_look : Resolver → Str → Outcome) (template : Str)
      → ((r : Resolver) (name : Str) → Keeps v r (look r name))
      → ((r : Resolver) (name : Str) → Agrees v (look r name) (other_look r name))
      → (fuel : ℕ) (r : Resolver) (out rest : Str)
      → Agrees v
          (expand_loop look template fuel r out rest)
          (expand_loop other_look template fuel r out rest)
  unfolding expand_loop
  expand_loop-Agrees look other_look template keeps each zero r out rest = λ h. refl
  expand_loop-Agrees look other_look template keeps each (suc fuel) r out rest =
      let later = expand_loop-Agrees look other_look template keeps each fuel in
      let kept = expand_loop-Keeps w v look template keeps fuel in
      match_options (Agrees v) (split_once_str (codes "{{") rest) (λ _ h. refl)
        (λ p _.
          match_options (Agrees v) (split_once_str (codes "}}") p.1) (λ _ h. refl)
            (λ q _.
              and_then-Agrees r (look r (trim q.0)) (other_look r (trim q.0))
                (λ r' value. expand_loop look template fuel r' ((out ++ p.0) ++ value) q.1)
                (λ r' value. expand_loop other_look template fuel r' ((out ++ p.0) ++ value) q.1)
                (λ r' value. kept r' ((out ++ p.0) ++ value) q.1) (each r (trim q.0))
                (λ r' value. later r' ((out ++ p.0) ++ value) q.1)))

  expand-Agrees :
      (left : ℕ) (r : Resolver) (t : Str) (s : List Str)
      → Agrees v (expand w left r t s) (expand (with_secrets w other) left r t s)
  unfolding expand
  expand-Agrees zero r t s = λ h. refl
  expand-Agrees (suc left) r t s =
      match_ifs (Agrees v) (not (contains t (codes "{{"))) (λ _ h. refl)
        (λ _.
          expand_loop-Agrees (λ r' name. lookup w (expand w left) r' name s)
            (λ r' name.
              lookup (with_secrets w other) (expand (with_secrets w other) left) r' name s)
            t (λ r' name. lookup-Keeps w v (expand w left) r' name s (expand-Keeps w v left))
            (λ r' name.
              lookup-Agrees (expand w left) (expand (with_secrets w other) left) r' name s
                (expand-Agrees left))
            (length t) r [] t)

-- A secret that resolving a text has not recorded has not reached the result: with a provider that
-- differs wherever this one gives the secret, the result and the resolver's state are the same.
pub resolve-secrets :
    (w : World) (r : Resolver) (template v : Str) (other : Str → Option Str)
    → is_empty v ≡ false
    → IsHiding v w other
    → is_recorded v (resolve w r template).0 ≡ false
    → resolve (with_secrets w other) r template ≡ resolve w r template
unfolding resolve
resolve-secrets w r template v other given hides h =
    expand-Agrees w v other given hides 9 r template [] h
