-- ===== src/Engine/Redirect/Bounds.antt =====
-- How a redirect chain of crates/gabriel-engine/src/lib.rs goes on, and that it ends.
use gabrielbrowser.Base.{
  ℕ, zero, suc, ◌+◌, ◌≤◌, ◌<◌, true, ◌&&◌, Option, List, [], Str, codes, length, length-append, ltb,
  is_some, ◌≡◌, refl, sym, ap, ◌∙◌, arith, match_option, match_if,
}
use gabrielbrowser.Base.Text.{is_empty}
use gabrielbrowser.Base.Results.{Result, ok, match_result}
use gabrielbrowser.Model.Fields.{FieldMap, get_first}
use gabrielbrowser.Session.Store.{SessionStore}
use gabrielbrowser.Engine.{UrlOps, Network, Raw, Hop, EngineError}
use gabrielbrowser.Engine.Headers.{is_redirect}
use gabrielbrowser.Engine.Redirect.{
  Plan, Chain, Turn, stop, follow, Final, Reaches, here, later, turn, answer, advance,
  record_answer, set_cookies, response_headers, run, wire, finish, becomes_get, first,
}

follow_inj : {Url : Type 0} {a b : Chain Url} → follow a ≡ follow b → a ≡ b
follow_inj h = cc

match_turn :
    {Url B : Type 0} (P : B → Type 0) (t : Turn Url) {f : Result EngineError Final → B}
    {g : Chain Url → B}
    → ((result : Result EngineError Final) → t ≡ stop result → P (f result))
    → ((next : Chain Url) → t ≡ follow next → P (g next))
    → P (elim t [ stop result ↦ f result | follow next ↦ g next ])
match_turn P (stop result) h k = h result refl
match_turn P (follow next) h k = k next refl

module _ {Url : Type 0} (ops : UrlOps Url) (net : Network Url) (plan : Plan) where
  -- the chain after an answer is recorded
  abbrev pub recorded : Raw → Chain Url → Chain Url
  recorded raw b = record_answer ops net plan (set_cookies raw.headers) b

  -- What a turn that goes on has done.
  pub record IsFollowed (b c : Chain Url) : Type 0 where
    pub raw : Raw
    pub next : Url
    pub answered : net.send (length b.hops) (wire ops net plan b) ≡ ok raw
    pub allowed :
        is_redirect raw.status
          && (plan.follow_redirects && ltb (length (recorded raw b).hops) plan.max_redirects)
        ≡ true
    pub to : c ≡ advance ops net plan raw.status next (recorded raw b)

  -- a property of what follows
  abbrev GoesOn : Chain Url → Chain Url → Turn Url → Type 0
  GoesOn b c t = t ≡ follow c → IsFollowed b c

  GoesOn-finish :
      (b c : Chain Url) (raw : Raw) (m : FieldMap) → GoesOn b c (finish ops net plan raw m)
  GoesOn-finish b c raw m h = cc

  GoesOn-answer :
      (b c : Chain Url) (raw : Raw)
      → net.send (length b.hops) (wire ops net plan b) ≡ ok raw
      → GoesOn b c (answer ops net plan raw (recorded raw b))
  unfolding answer
  GoesOn-answer b c raw answered =
      let headers = response_headers [] raw.headers in
      match_if (GoesOn b c)
        (is_redirect raw.status
          && (plan.follow_redirects && ltb (length (recorded raw b).hops) plan.max_redirects))
        (λ yes.
          match_option (GoesOn b c) (get_first (codes "location") headers)
            (λ _. GoesOn-finish b c raw headers)
            (λ location _.
              match_result (GoesOn b c) (ops.join_url (recorded raw b).url location)
                (λ message _ h. cc)
                (λ next _ h. record {
                  raw = raw;
                  next = next;
                  answered = answered;
                  allowed = yes;
                  to = sym (follow_inj h);
                })))
        (λ _. GoesOn-finish b c raw headers)

  pub turn-follow : (b c : Chain Url) → (turn ops net plan b).1 ≡ follow c → IsFollowed b c
  unfolding turn
  turn-follow b c =
      match_result (λ (x : SessionStore × Turn Url). GoesOn b c x.1)
        (net.send (length b.hops) (wire ops net plan b)) (λ message _ h. cc)
        (λ raw e. GoesOn-answer b c raw e)

  record_answer-hops : (raw : Raw) (c : Chain Url) → (recorded raw c).hops ≡ c.hops
  unfolding record_answer
  record_answer-hops raw c =
      match_if (λ (d : Chain Url). d.hops ≡ c.hops) (is_empty (set_cookies raw.headers)) (λ _. refl)
        (λ _. refl)

  length-advance :
      (status : ℕ) (next : Url) (c : Chain Url)
      → length (advance ops net plan status next c).hops ≡ suc (length c.hops)
  unfolding advance
  length-advance status next c =
      match_if (λ (d : Chain Url). length d.hops ≡ suc (length c.hops))
        (becomes_get ops net plan status c.method) (λ _. length-append c.hops _ ∙ omega arith)
        (λ _. length-append c.hops _ ∙ omega arith)

  -- Each turn that goes on has one hop more, and the limit was not reached before it.
  pub length-turn :
      (b c : Chain Url)
      → (turn ops net plan b).1 ≡ follow c
      → (length c.hops ≡ suc (length b.hops)) × (length b.hops < plan.max_redirects)
  length-turn b c h =
      let f = turn-follow b c h in
      let same : length (recorded f.raw b).hops ≡ length b.hops =
        ap length (record_answer-hops f.raw b) in
      let longer : length c.hops ≡ suc (length (recorded f.raw b).hops) =
        ap (λ (d : Chain Url). length d.hops) f.to
        ∙ length-advance f.raw.status f.next (recorded f.raw b) in
      (longer ∙ ap suc same, ground (arith, f.allowed))

  -- No chain has more hops than the request's settings allow.
  pub hops-le :
      (a b : Chain Url)
      → Reaches ops net plan a b
      → length a.hops ≤ plan.max_redirects
      → length b.hops ≤ plan.max_redirects
  hops-le a b (here _) h = h
  hops-le a c (later {b = b} r e) h = let (longer, below) = length-turn b c e in omega arith

  run_from :
      (rounds : ℕ) (c : Chain Url)
      → plan.max_redirects < length c.hops + rounds
      → length c.hops ≤ plan.max_redirects
      → is_some (run ops net plan rounds c) ≡ true
  unfolding run
  run_from zero c h k = ground arith
  run_from (suc rounds) c h k =
      match_turn
        (λ (o : Option (SessionStore × List Hop × Result EngineError Final)). is_some o ≡ true)
        (turn ops net plan c).1 (λ result _. refl)
        (λ next e.
          let (longer, below) = length-turn c next e in
          run_from rounds next (omega arith) (omega arith))

  -- One round more than the redirects allowed is enough: the loop ends with a result, whatever the
  -- network answers.
  pub run-first :
      (url : Url) (method : Str) (body : Option Str) (headers : List (Str × Str))
      (sessions : SessionStore)
      → is_some (
          run ops net plan
            (suc plan.max_redirects)
            (first ops net plan url method body headers sessions))
        ≡ true
  run-first url method body headers sessions =
      run_from (suc plan.max_redirects) (first ops net plan url method body headers sessions)
        (omega arith) (omega arith)
