-- ===== src/Cli/Curl/Joined.antt =====
-- How a shell reads quoted words and words that are joined, for crates/gabriel-cli/src/codegen.rs.
use gabrielbrowser.Base.{
  ℕ, Bool, true, false, Option, none, some, List, [], ◌∷◌, ◌++◌, Str, codes, if◌then◌else◌, ◌==◌,
  ==_iff, ◌≡◌, refl, sym, ap, ◌∙◌, append_assoc, append-nil,
}
use gabrielbrowser.Base.Text.{replace, join}
use gabrielbrowser.Base.Text.Replace.{replace_byte, replace-byte}
use gabrielbrowser.Cli.Curl.{quote, joiner}
use gabrielbrowser.Cli.Curl.Shell.{
  Mode, between, word, quoted, escaped_between, escaped, next, prepend, words,
}

pub prepend-nil : (o : Option (List Str)) → prepend [] o ≡ o
prepend-nil none = refl
prepend-nil (some ws) = refl

prepend-append :
    (xs ys : List Str) (o : Option (List Str)) → prepend xs (prepend ys o) ≡ prepend (xs ++ ys) o
prepend-append xs ys none = refl
prepend-append xs ys (some ws) = ap (λ l. some l) (sym (append_assoc xs ys ws))

-- A byte that ends no word.
pub silent :
    (m m' : Mode) (c : ℕ) (s : Str) → next m c ≡ some (m', []) → words m (c ∷ s) ≡ words m' s
unfolding words
silent m m' c s h =
    ap
      (λ (o : Option (Mode × List Str)). elim o as (λ _. Option (List Str)) [
        | none ↦ none
        | some (n, ws) ↦ prepend ws (words n s)
      ])
      h
    ∙ prepend-nil (words m' s)

-- The escape of a quote, between quotes.
words-escape :
    (w s : Str) → words (quoted w) (codes "'\\''" ++ s) ≡ words (quoted (w ++ 0x27 ∷ [])) s
words-escape w s =
    silent (quoted w) (word w) 0x27 (0x5c ∷ 0x27 ∷ 0x27 ∷ s) refl
    ∙ (silent (word w) (escaped w) 0x5c (0x27 ∷ 0x27 ∷ s) refl
        ∙ (silent (escaped w) (word (w ++ 0x27 ∷ [])) 0x27 (0x27 ∷ s) refl
            ∙ silent (word (w ++ 0x27 ∷ [])) (quoted (w ++ 0x27 ∷ [])) 0x27 s refl))

words-quoted :
    (w v s : Str)
    → words (quoted w) (replace_byte 0x27 (codes "'\\''") v ++ (0x27 ∷ s)) ≡ words (word (w ++ v)) s
words-quoted w [] s =
    silent (quoted w) (word w) 0x27 s refl ∙ ap (λ (x : Str). words (word x) s) (sym (append-nil w))
words-quoted w (c ∷ v) s = by_byte (c == 0x27) refl (words-quoted (w ++ c ∷ []) v s)
  where
    later : Str
    later = replace_byte 0x27 (codes "'\\''") v

    whole : words (word ((w ++ c ∷ []) ++ v)) s ≡ words (word (w ++ c ∷ v)) s
    whole = ap (λ (x : Str). words (word x) s) (append_assoc w (c ∷ []) v)

    by_byte :
        (b : Bool)
        → (c == 0x27) ≡ b
        → words (quoted (w ++ c ∷ [])) (later ++ (0x27 ∷ s)) ≡ words (word ((w ++ c ∷ []) ++ v)) s
        → words (quoted w) ((if b then codes "'\\''" ++ later else c ∷ later) ++ (0x27 ∷ s))
          ≡ words (word (w ++ c ∷ v)) s
    by_byte true e ih =
        ap (words (quoted w)) (append_assoc (codes "'\\''") later (0x27 ∷ s))
        ∙ (words-escape w (later ++ (0x27 ∷ s))
            ∙ (ap (λ (q : ℕ). words (quoted (w ++ q ∷ [])) (later ++ (0x27 ∷ s)))
                  (sym ((==_iff c 0x27).0 e))
                ∙ (ih ∙ whole)))
    by_byte false e ih =
        silent (quoted w) (quoted (w ++ c ∷ [])) c (later ++ (0x27 ∷ s))
          (ap (λ (b : Bool). if b then some (word w, []) else some (quoted (w ++ c ∷ []), [])) e)
        ∙ (ih ∙ whole)

-- A quoted value is one word, whatever its bytes are.
pub words-quote : (v s : Str) → words between (quote v ++ s) ≡ words (word v) s
unfolding quote
words-quote v s =
    silent between (quoted []) 0x27 ((replace v (codes "'") (codes "'\\''") ++ 0x27 ∷ []) ++ s) refl
    ∙ (ap (λ (x : Str). words (quoted []) ((x ++ 0x27 ∷ []) ++ s))
          (replace-byte 0x27 (codes "'\\''") v)
        ∙ (ap (words (quoted [])) (append_assoc (replace_byte 0x27 (codes "'\\''") v) (0x27 ∷ []) s)
            ∙ words-quoted [] v s))

-- A text in front of the end of a line, or of white space, is some words and a last one.
abbrev pub Reads : Str → List Str → Str → Type 0
Reads p ws last = (s : Str) → words between (p ++ s) ≡ prepend ws (words (word last) s)

-- The parts of a command, and its words.
pub data AllRead : List Str → List Str → Type 0 where
  done : AllRead [] []
  part :
      (p : Str) (ws : List Str) (last : Str) (ps rest : List Str)
      → Reads p ws last
      → AllRead ps rest
      → AllRead (p ∷ ps) (ws ++ last ∷ rest)

pub words-joiner :
    (multiline : Bool) (w s : Str)
    → words (word w) (joiner multiline ++ s) ≡ prepend (w ∷ []) (words between s)
words-joiner false w s = ended w s
  where
    ended : (w s : Str) → words (word w) (b' ' ∷ s) ≡ prepend (w ∷ []) (words between s)
    ended w s = unfold words in refl
words-joiner true w s =
    ended w (0x5c ∷ b'\n' ∷ b' ' ∷ b' ' ∷ s)
    ∙ ap (prepend (w ∷ [])) (
        silent between escaped_between 0x5c (b'\n' ∷ b' ' ∷ b' ' ∷ s) refl
        ∙ (silent escaped_between between b'\n' (b' ' ∷ b' ' ∷ s) refl
            ∙ (silent between between b' ' (b' ' ∷ s) refl ∙ silent between between b' ' s refl)))
  where
    ended : (w s : Str) → words (word w) (b' ' ∷ s) ≡ prepend (w ∷ []) (words between s)
    ended w s = unfold words in refl

words-last : (w : Str) → words (word w) [] ≡ some (w ∷ [])
words-last w = unfold words in refl

pub words-join :
    (multiline : Bool) (ps args : List Str)
    → AllRead ps args
    → words between (join (joiner multiline) ps) ≡ some args
unfolding join
words-join multiline [] [] done = unfold words in refl
words-join multiline [] (a ∷ args) h = elim h [ ]
words-join multiline (p ∷ []) _ (part _ ws last _ _ reads done) =
    ap (words between) (sym (append-nil p)) ∙ (reads [] ∙ ap (prepend ws) (words-last last))
words-join multiline (p ∷ q ∷ ps) _ (part _ ws last _ rest reads more) =
    let tail = join (joiner multiline) (q ∷ ps) in
    reads (joiner multiline ++ tail)
    ∙ (ap (prepend ws) (
        words-joiner multiline last tail
        ∙ ap (prepend (last ∷ [])) (words-join multiline (q ∷ ps) rest more)))
