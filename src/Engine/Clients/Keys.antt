-- ===== src/Engine/Clients/Keys.antt =====
-- Equal keys of clients, crates/gabriel-engine/src/lib.rs.
use gabrielbrowser.Base.{
  Bool, true, false, ◌&&◌, Option, none, some, str_eq, str_eq_sound, ◌==◌, ==_iff, ◌≡◌, refl, ap,
}
use gabrielbrowser.Engine.Clients.{ClientKey, bool_eq, option_eq, key_eq}

bool_eq_sound : (a b : Bool) → bool_eq a b ≡ true → a ≡ b
bool_eq_sound true true h = refl
bool_eq_sound true false h = cc
bool_eq_sound false true h = cc
bool_eq_sound false false h = refl

option_eq_sound :
    {A : Type 0} (same : A → A → Bool) (o p : Option A)
    → ((a b : A) → same a b ≡ true → a ≡ b)
    → option_eq same o p ≡ true
    → o ≡ p
option_eq_sound same none none sound h = refl
option_eq_sound same none (some b) sound h = cc
option_eq_sound same (some a) none sound h = cc
option_eq_sound same (some a) (some b) sound h = ap (λ x. some x) (sound a b h)

and_split : (a b : Bool) → (a && b) ≡ true → (a ≡ true) × (b ≡ true)
and_split true b h = (refl, h)
and_split false b h = cc

pub key_eq_sound : (a b : ClientKey) → key_eq a b ≡ true → a ≡ b
unfolding key_eq
key_eq_sound a b h =
    let (e1, h1) = and_split (a.timeout_ms == b.timeout_ms) _ h in
    let (e2, h2) = and_split (bool_eq a.verify_tls b.verify_tls) _ h1 in
    let (e3, h3) = and_split (option_eq str_eq a.proxy b.proxy) _ h2 in
    let (e4, e5) = and_split (bool_eq a.streaming b.streaming) _ h3 in
    let timeout = (==_iff a.timeout_ms b.timeout_ms).0 e1 in
    let verify = bool_eq_sound a.verify_tls b.verify_tls e2 in
    let proxy = option_eq_sound str_eq a.proxy b.proxy str_eq_sound e3 in
    let streaming = bool_eq_sound a.streaming b.streaming e4 in
    let identity =
      option_eq_sound (λ m n. m == n) a.identity b.identity (λ m n. (==_iff m n).0) e5 in
    cc
