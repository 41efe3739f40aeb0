-- ===== src/Capture/Export/Quote.antt =====
-- Which quoted texts a shell reads back as they were.
use tlscope_rs.Base.{
  ℕ, ◌≡◌, refl, sym, ap, ◌∙◌, Bool, true, false, not, ◌&&◌, ◌||◌, [], ◌∷◌, ◌++◌, Option, none, some,
  arith, ◌==◌, if◌then◌else◌, every, some_of, is_empty, append_assoc, append-nil, Bool-cases, inl,
  inr,
}
use tlscope_rs.Text.{Text, text, contains_char}
use tlscope_rs.Capture.Export.{is_plain, escape_quotes, shell_quote}
use tlscope_rs.Capture.Export.Shell.{
  blank, quote, backslash, special, literal, kind, plain, quoted, read_words, shell_words,
  finish_some, begin, push,
}

-- The characters that are left unquoted and mean something to a shell.
unfoldable pub is_misread : ℕ → Bool
is_misread c = c == b'&' || c == b'?'

-- A plain text stands unquoted: it is to be there, and to have no such character.
unfoldable pub reads_back : Text → Bool
reads_back v = not (every is_plain v) || (not (is_empty v) && not (some_of is_misread v))

kind-literal : (c : ℕ) → is_plain c ≡ true → is_misread c ≡ false → kind c ≡ literal
unfolding kind is_plain is_misread contains_char text
kind-literal c p m = ground arith

kind-special : (c : ℕ) → is_misread c ≡ true → kind c ≡ special
unfolding kind is_misread contains_char text
kind-special c m = ground arith

-- A plain text goes on with the word.
read_plain :
    (v w s : Text)
    → every is_plain v ≡ true
    → some_of is_misread v ≡ false
    → read_words plain (some w) (v ++ s) ≡ read_words plain (some (w ++ v)) s
unfolding read_words
read_plain [] w s p m = ap (λ x. read_words plain (some x) s) (sym (append-nil w))
read_plain (c ∷ v) w s p m =
    let here : (is_plain c ≡ true) × (is_misread c ≡ false) = ground arith in
    let rest : (every is_plain v ≡ true) × (some_of is_misread v ≡ false) = ground arith in
    rw (read_words, kind-literal c here.0 here.1)
      (read_plain v (w ++ c ∷ []) s rest.0 rest.1
        ∙ ap (λ x. read_words plain (some x) s) (append_assoc w (c ∷ []) v))

read_plain_first :
    (v s : Text)
    → is_empty v ≡ false
    → every is_plain v ≡ true
    → some_of is_misread v ≡ false
    → read_words plain none (v ++ s) ≡ read_words plain (some v) s
unfolding read_words
read_plain_first [] s e p m = cc
read_plain_first (c ∷ v) s e p m =
    let here : (is_plain c ≡ true) × (is_misread c ≡ false) = ground arith in
    let rest : (every is_plain v ≡ true) × (some_of is_misread v ≡ false) = ground arith in
    rw (read_words, kind-literal c here.0 here.1) (read_plain v (c ∷ []) s rest.0 rest.1)

kind_quote : kind 39 ≡ quote
unfolding kind contains_char text
kind_quote = refl

kind_backslash : kind 92 ≡ backslash
unfolding kind contains_char text
kind_backslash = refl

kind_blank : kind 32 ≡ blank
unfolding kind contains_char text
kind_blank = refl

read_open :
    (w : Option Text) (s : Text) → read_words plain w (39 ∷ s) ≡ read_words quoted (begin w) s
unfolding read_words
read_open w s = rw (read_words, kind_quote) refl

read_escaped :
    (w : Option Text) (c : ℕ) (s : Text)
    → read_words plain w (92 ∷ c ∷ s) ≡ read_words plain (push w c) s
unfolding read_words
read_escaped w c s = rw (read_words, kind_backslash) refl

pub read_blank :
    (w : Option Text) (s : Text)
    → read_words plain w (32 ∷ s) ≡ finish_some w (read_words plain none s)
unfolding read_words
read_blank w s = rw (read_words, kind_blank) refl

pub read_end : (w : Text) → read_words plain (some w) [] ≡ some (w ∷ [])
unfolding read_words
read_end w = refl

read_close : (w : Option Text) (s : Text) → read_words quoted w (39 ∷ s) ≡ read_words plain w s
unfolding read_words
read_close w s = refl

read_inside :
    (w : Option Text) (c : ℕ) (s : Text)
    → (c == 39) ≡ false
    → read_words quoted w (c ∷ s) ≡ read_words quoted (push w c) s
unfolding read_words
read_inside w c s e = rw (read_words, e) refl

-- A quote closes, stands escaped, and opens again.
read_quote_mark :
    (w s : Text)
    → read_words quoted (some w) (39 ∷ 92 ∷ 39 ∷ 39 ∷ s) ≡ read_words quoted (some (w ++ 39 ∷ [])) s
read_quote_mark w s =
    read_close (some w) (92 ∷ 39 ∷ 39 ∷ s)
    ∙ read_escaped (some w) 39 (39 ∷ s)
    ∙ read_open (some (w ++ 39 ∷ [])) s

-- Up to the closing quote the word goes on, whatever the characters.
read_quoted :
    (v w s : Text)
    → read_words quoted (some w) (escape_quotes v ++ 39 ∷ s) ≡ read_words plain (some (w ++ v)) s
unfolding escape_quotes
read_quoted [] w s =
    read_close (some w) s ∙ ap (λ x. read_words plain (some x) s) (sym (append-nil w))
read_quoted (c ∷ v) w s = elim (Bool-cases (c == 39)) [
  | inl e ↦
      let is_quote : c ≡ 39 = ground arith in
      rw (e, is_quote)
        (read_quote_mark w (escape_quotes v ++ 39 ∷ s)
          ∙ read_quoted v (w ++ 39 ∷ []) s
          ∙ ap (λ x. read_words plain (some x) s) (append_assoc w (39 ∷ []) v))
  | inr e ↦ rw e (
      read_inside (some w) c (escape_quotes v ++ 39 ∷ s) e
      ∙ read_quoted v (w ++ c ∷ []) s
      ∙ ap (λ x. read_words plain (some x) s) (append_assoc w (c ∷ []) v))
]

-- A quoted text that reads back is one word, or the beginning of one.
pub read_words-shell_quote :
    (v s : Text)
    → reads_back v ≡ true
    → read_words plain none (shell_quote v ++ s) ≡ read_words plain (some v) s
unfolding shell_quote reads_back
read_words-shell_quote v s h = elim (Bool-cases (every is_plain v)) [
  | inl e ↦
      let r : (is_empty v ≡ false) × (some_of is_misread v ≡ false) = ground arith in
      rw e (read_plain_first v s r.0 e r.1)
  | inr e ↦
      rw (e, append_assoc (escape_quotes v) (39 ∷ []) s)
        (read_open none (escape_quotes v ++ 39 ∷ s) ∙ read_quoted v [] s)
]

read_special :
    (v : Text) (w : Option Text)
    → every is_plain v ≡ true
    → some_of is_misread v ≡ true
    → read_words plain w v ≡ none
unfolding read_words
read_special [] w p m = cc
read_special (c ∷ v) w p m = elim (Bool-cases (is_misread c)) [
  | inl e ↦ rw (read_words, kind-special c e) refl
  | inr e ↦
      let here : is_plain c ≡ true = ground arith in
      let rest : (every is_plain v ≡ true) × (some_of is_misread v ≡ true) = ground arith in
      rw (read_words, kind-literal c here e) (read_special v (push w c) rest.0 rest.1)
]

misread_word :
    (v : Text)
    → reads_back v ≡ false
    → read_words plain none (shell_quote v) ≡ (if is_empty v then some [] else none)
unfolding reads_back shell_quote read_words
misread_word [] h = refl
misread_word (c ∷ v) h =
    let p : every is_plain (c ∷ v) ≡ true = ground arith in
    let m : some_of is_misread (c ∷ v) ≡ true = ground arith in rw p (read_special (c ∷ v) none p m)

-- A shell reads a quoted text back as one word, the text itself, unless the text is empty, which leaves
-- no word, or stands unquoted with an `&` or a `?`, which are not literal there.
pub shell_words-shell_quote :
    (value : Text)
    → shell_words (shell_quote value)
      ≡ (if reads_back value then some (value ∷ []) else if is_empty value then some [] else none)
unfolding shell_words read_words
shell_words-shell_quote v = elim (Bool-cases (reads_back v)) [
  | inl e ↦ rw e (
      ap (read_words plain none) (sym (append-nil (shell_quote v))) ∙ read_words-shell_quote v [] e)
  | inr e ↦ rw e (misread_word v e)
]
