-- ===== src/Base/Results.antt =====
-- `Result<T, E>` of Rust's library. No file of the repository.
use mathlib.Core.Path.{◌≡◌, refl}

pub data Result (E A : Type 0) : Type 0 where
  err : E → Result E A
  ok : A → Result E A

-- A call that returns its state beside its result, with `?` after it.
abbrev pub and_then :
    {S E A B : Type 0} → S × Result E A → (S → A → S × Result E B) → S × Result E B
and_then (s, err e) k = (s, err e)
and_then (s, ok a) k = k s a

-- What a match on a result gives has a property when each of its cases has it.
pub match_result {κ ι} :
    {E A : Type 0} {B : Type κ} (P : B → Type ι) (o : Result E A) {f : E → B} {g : A → B}
    → ((e : E) → o ≡ err e → P (f e))
    → ((a : A) → o ≡ ok a → P (g a))
    → P (elim o [ err e ↦ f e | ok a ↦ g a ])
match_result P (err e) h k = h e refl
match_result P (ok a) h k = k a refl

-- Two calls after one call, and the same call after equal ones.
pub and_then_assoc :
    {S E A B C : Type 0} (f : S × Result E A) (k : S → A → S × Result E B)
    (l : S → B → S × Result E C)
    → and_then (and_then f k) l ≡ and_then f (λ s a. and_then (k s a) l)
and_then_assoc (s, err e) k l = refl
and_then_assoc (s, ok a) k l = refl

pub and_then_same :
    {S E A B : Type 0} (f : S × Result E A) (k l : S → A → S × Result E B)
    → ((s : S) (a : A) → k s a ≡ l s a)
    → and_then f k ≡ and_then f l
and_then_same (s, err e) k l h = refl
and_then_same (s, ok a) k l h = h s a
