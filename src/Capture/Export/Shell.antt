-- ===== src/Capture/Export/Shell.antt =====
-- How a POSIX shell takes a line apart into words, as far as all of them are literal: `none` is a line
-- with an operator, an expansion or an open quote in it. This is the reference for the quoting.
use tlscope_rs.Base.{ℕ, true, false, List, [], ◌∷◌, ◌++◌, Option, none, some, ◌==◌, if◌then◌else◌}
use tlscope_rs.Text.{Text, text, contains_char}

-- What a character outside quotes does.
pub data Kind : Type 0 where
  blank quote backslash special literal : Kind

abbrev special_marks : Text
unfolding text
special_marks = text "|&;<>()$`\"*?[]#~{}!\t\n"

unfoldable pub kind : ℕ → Kind
unfolding special_marks contains_char
kind c =
    if c == b' '
    then blank
    else if c == 39
    then quote
    else if c == 92
    then backslash
    else if contains_char special_marks c
    then special
    else literal

pub data Mode : Type 0 where
  plain quoted escaped : Mode

-- The word that was begun, with one more character.
abbrev pub push : Option Text → ℕ → Option Text
push none c = some (c ∷ [])
push (some w) c = some (w ++ c ∷ [])

abbrev pub begin : Option Text → Option Text
begin none = some []
begin (some w) = some w

abbrev pub finish : Option Text → List Text → List Text
finish none ws = ws
finish (some w) ws = w ∷ ws

abbrev pub finish_some : Option Text → Option (List Text) → Option (List Text)
finish_some word none = none
finish_some word (some ws) = some (finish word ws)

unfoldable pub read_words : Mode → Option Text → Text → Option (List Text)
read_words plain word [] = some (finish word [])
read_words quoted word [] = none
read_words escaped word [] = none
read_words quoted word (c ∷ s) = elim (c == 39) [
  | true ↦ read_words plain word s
  | false ↦ read_words quoted (push word c) s
]
read_words escaped word (c ∷ s) = read_words plain (push word c) s
read_words plain word (c ∷ s) = elim (kind c) [
  | blank ↦ finish_some word (read_words plain none s)
  | quote ↦ read_words quoted (begin word) s
  | backslash ↦ read_words escaped word s
  | special ↦ none
  | literal ↦ read_words plain (push word c) s
]

unfoldable pub shell_words : Text → Option (List Text)
unfolding read_words kind
shell_words line = read_words plain none line
