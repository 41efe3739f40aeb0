-- ===== src/Launcher/Args.antt =====
-- src/interactive.rs: the texts that are typed into the launcher. A path is its text.
pub mod Quoted
use tlscope_rs.Base.{
  ℕ, Bool, true, false, not, ◌&&◌, ◌||◌, List, [], ◌∷◌, ◌++◌, Option, none, some, Result, ok, err,
  ◌==◌, if◌then◌else◌, ◌>>=◌, is_empty, keep, each,
}
use tlscope_rs.Text.{Text, text, trim, split, is_whitespace}
use tlscope_rs.Process.Targets.{trim_matches}

-- Where the loop stands: outside quotes, inside those of a kind, or behind a backslash in double ones.
pub data Quoting : Type 0 where
  outside : Quoting
  inside : ℕ → Quoting
  escaped : Quoting

unfoldable pub is_quote : ℕ → Bool
is_quote c = c == 34 || c == 39

abbrev pub keep_word : Text → List Text → List Text
keep_word current args = if is_empty current then args else current ∷ args

-- The word that was read, and those that follow.
abbrev pub then_words : Text → Result Text (List Text) → Result Text (List Text)
then_words current rest = do args ← rest; ok (keep_word current args)

abbrev unclosed : ℕ → Result Text (List Text)
unfolding text
unclosed quote = err (text "unclosed quote " ++ (quote ∷ text " in arguments"))

unfoldable pub split_from : Quoting → Text → Text → Result Text (List Text)
unfolding unclosed
split_from outside current [] = ok (keep_word current [])
split_from (inside quote) current [] = unclosed quote
split_from escaped current [] = unclosed 34
split_from outside current (c ∷ s) = elim (is_quote c) [
  | true ↦ split_from (inside c) current s
  | false ↦ elim (is_whitespace c) [
    | true ↦ then_words current (split_from outside [] s)
    | false ↦ split_from outside (current ++ c ∷ []) s
  ]
]
split_from (inside quote) current (c ∷ s) = elim (c == quote) [
  | true ↦ split_from outside current s
  | false ↦ elim (c == 92 && quote == 34) [
    | true ↦ split_from escaped current s
    | false ↦ split_from (inside quote) (current ++ c ∷ []) s
  ]
]
split_from escaped current (c ∷ s) = split_from (inside 34) (current ++ c ∷ []) s

unfoldable pub split_args : Text → Result Text (List Text)
unfolding split_from
split_args input = split_from outside [] input

unfoldable pub parse_env_overrides : Text → List Text
unfolding split trim
parse_env_overrides input = keep (λ item. not (is_empty item)) (each trim (split input b';'))

unfoldable pub normalize_path : Text → Text
unfolding trim trim_matches
normalize_path input = trim_matches 34 (trim input)

unfoldable pub optional_path : Text → Option Text
unfolding trim normalize_path
optional_path input = if is_empty (trim input) then none else some (normalize_path input)
