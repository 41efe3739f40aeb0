-- ===== src/Launcher/Args/Quoted.antt =====
-- Arguments in double quotes are split as they were.
use tlscope_rs.Base.{
  ℕ, ◌≡◌, refl, sym, ap, ◌∙◌, Bool, false, not, ◌||◌, List, [], ◌∷◌, ◌++◌, ok, arith, ◌==◌,
  if◌then◌else◌, is_empty, keep, each, append_assoc, append-nil, Bool-cases, inl, inr,
}
use tlscope_rs.Text.{Text, text, join, is_whitespace}
use tlscope_rs.Launcher.Args.{
  outside, inside, is_quote, keep_word, then_words, split_from, split_args,
}

-- How an argument is written so that nothing in it is read as something else.
unfoldable pub escape : Text → Text
escape [] = []
escape (c ∷ s) = let rest = escape s in if c == 34 || c == 92 then 92 ∷ c ∷ rest else c ∷ rest

unfoldable pub quote_argument : Text → Text
quote_argument a = 34 ∷ (escape a ++ 34 ∷ [])

split_backslash :
    (w : Text) (c : ℕ) (s : Text)
    → split_from (inside 34) w (92 ∷ c ∷ s) ≡ split_from (inside 34) (w ++ c ∷ []) s
unfolding split_from
split_backslash w c s = refl

split_other :
    (w : Text) (c : ℕ) (s : Text)
    → (c == 34 || c == 92) ≡ false
    → split_from (inside 34) w (c ∷ s) ≡ split_from (inside 34) (w ++ c ∷ []) s
unfolding split_from
split_other w c s e =
    let here : (c == 34 ≡ false) × (c == 92 ≡ false) = ground arith in
    rw (split_from, here.0, here.1) refl

-- The characters of an argument go to the word.
split_from-escape :
    (a w s : Text) → split_from (inside 34) w (escape a ++ s) ≡ split_from (inside 34) (w ++ a) s
unfolding escape
split_from-escape [] w s = ap (λ x. split_from (inside 34) x s) (sym (append-nil w))
split_from-escape (c ∷ a) w s =
    let rest =
      split_from-escape a (w ++ c ∷ []) s
      ∙ ap (λ x. split_from (inside 34) x s) (append_assoc w (c ∷ []) a) in
    elim (Bool-cases (c == 34 || c == 92)) [
      | inl e ↦ rw (escape, e) (split_backslash w c (escape a ++ s) ∙ rest)
      | inr e ↦ rw (escape, e) (split_other w c (escape a ++ s) e ∙ rest)
    ]

split_open : (w s : Text) → split_from outside w (34 ∷ s) ≡ split_from (inside 34) w s
unfolding split_from is_quote
split_open w s = refl

split_close : (w s : Text) → split_from (inside 34) w (34 ∷ s) ≡ split_from outside w s
unfolding split_from
split_close w s = refl

split_blank : (w s : Text) → split_from outside w (32 ∷ s) ≡ then_words w (split_from outside [] s)
unfolding split_from is_quote is_whitespace
split_blank w s = refl

split_from-quote_argument :
    (a s : Text) → split_from outside [] (quote_argument a ++ s) ≡ split_from outside a s
unfolding quote_argument
split_from-quote_argument a s =
    split_open [] ((escape a ++ 34 ∷ []) ++ s)
    ∙ ap (split_from (inside 34) []) (append_assoc (escape a) (34 ∷ []) s)
    ∙ split_from-escape a [] (34 ∷ s)
    ∙ split_close a s

abbrev is_given : Text → Bool
is_given a = not (is_empty a)

keep_word-keep :
    (a : Text) (args : List Text) → keep_word a (keep is_given args) ≡ keep is_given (a ∷ args)
keep_word-keep [] args = refl
keep_word-keep (c ∷ a) args = refl

-- Arguments that are written in double quotes, with a backslash before each quote and backslash, and
-- with blanks between them, are split as they were, except that those without characters are dropped.
pub split_args-quote_argument :
    (args : List Text)
    → split_args (join (each quote_argument args) (text " "))
      ≡ ok (keep (λ a. not (is_empty a)) args)
unfolding split_args split_from text
split_args-quote_argument [] = refl
split_args-quote_argument (a ∷ []) =
    ap (split_from outside []) (sym (append-nil (quote_argument a)))
    ∙ split_from-quote_argument a []
    ∙ ap ok (keep_word-keep a [])
split_args-quote_argument (a ∷ b ∷ args) =
    let rest = join (each quote_argument (b ∷ args)) (32 ∷ []) in
    ap (split_from outside []) (append_assoc (quote_argument a) (32 ∷ []) rest)
    ∙ split_from-quote_argument a (32 ∷ rest)
    ∙ split_blank a rest
    ∙ ap (then_words a) (split_args-quote_argument (b ∷ args))
    ∙ ap ok (keep_word-keep a (b ∷ args))
