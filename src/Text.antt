-- ===== src/Text.antt =====
-- Rust's `str` as the list of its characters, and the operations of `str` and `char` that the
-- program calls. Offsets into a text count bytes of UTF-8, as in Rust.
pub mod Laws
pub mod Number
pub mod Utf8
pub mod Ip
pub mod Offset
use Prim.Native.Char.{code}
use Prim.Native.String.{String}
use tlscope_rs.Base.{
  ℕ, zero, suc, ◌+◌, ◌-◌, Bool, true, false, not, ◌&&◌, ◌||◌, List, [], ◌∷◌, ◌++◌, Option, none,
  some, ltb, leb, ◌==◌, if◌then◌else◌, some_of, every, is_empty, each,
}

abbrev pub Text : Type 0
Text = List ℕ

-- A literal, as its characters.
unfoldable pub text : String → Text
text String.[] = []
text (String.◌∷◌ c s) = code c ∷ text s

abbrev pub text_eq : Text → Text → Bool
text_eq [] [] = true
text_eq [] (d ∷ t) = false
text_eq (c ∷ s) [] = false
text_eq (c ∷ s) (d ∷ t) = c == d && text_eq s t

-- `char::is_whitespace`: the Unicode property White_Space.
unfoldable pub is_whitespace : ℕ → Bool
is_whitespace c =
    (leb 9 c && leb c 13)
    || (c == 32)
    || (c == 0x85)
    || (c == 0xa0)
    || (c == 0x1680)
    || (leb 0x2000 c && leb c 0x200a)
    || (c == 0x2028)
    || (c == 0x2029)
    || (c == 0x202f)
    || (c == 0x205f)
    || (c == 0x3000)

-- `char::is_control`: the Unicode category Cc.
unfoldable pub is_control : ℕ → Bool
is_control c = ltb c 32 || (leb 127 c && ltb c 160)

unfoldable pub to_lower : ℕ → ℕ
to_lower c = if leb b'A' c && leb c b'Z' then c + 32 else c

unfoldable pub to_upper : ℕ → ℕ
to_upper c = if leb b'a' c && leb c b'z' then c - 32 else c

unfoldable pub to_ascii_lowercase : Text → Text
unfolding to_lower
to_ascii_lowercase s = each to_lower s

unfoldable pub to_ascii_uppercase : Text → Text
unfolding to_upper
to_ascii_uppercase s = each to_upper s

unfoldable pub eq_ignore_ascii_case : Text → Text → Bool
unfolding to_ascii_lowercase
eq_ignore_ascii_case s t = text_eq (to_ascii_lowercase s) (to_ascii_lowercase t)

abbrev pub strip_prefix : Text → Text → Option Text
strip_prefix s [] = some s
strip_prefix [] (d ∷ p) = none
strip_prefix (c ∷ s) (d ∷ p) = if c == d then strip_prefix s p else none

abbrev pub starts_with : Text → Text → Bool
starts_with s [] = true
starts_with [] (d ∷ p) = false
starts_with (c ∷ s) (d ∷ p) = c == d && starts_with s p

unfoldable pub contains : Text → Text → Bool
contains [] p = is_empty p
contains (c ∷ s) p = starts_with (c ∷ s) p || contains s p

unfoldable pub contains_char : Text → ℕ → Bool
contains_char s c = some_of (λ d. d == c) s

-- `strip_suffix`.
unfoldable pub strip_suffix : Text → Text → Option Text
strip_suffix [] p = if is_empty p then some [] else none
strip_suffix (c ∷ s) p =
    let rest = strip_suffix s p in
    if text_eq (c ∷ s) p then some [] else elim rest [ none ↦ none | some t ↦ some (c ∷ t) ]

abbrev first_part : ℕ → Option (Text × Text) → Option (Text × Text)
first_part c none = none
first_part c (some (a, b)) = some (c ∷ a, b)

-- `split_once` at a character.
unfoldable pub split_once : Text → ℕ → Option (Text × Text)
split_once [] sep = none
split_once (c ∷ s) sep =
    let rest = split_once s sep in if c == sep then some ([], s) else first_part c rest

-- `rsplit_once` at a character: the last one splits.
unfoldable pub rsplit_once : Text → ℕ → Option (Text × Text)
rsplit_once [] sep = none
rsplit_once (c ∷ s) sep = elim (rsplit_once s sep) [
  | some (a, b) ↦ some (c ∷ a, b)
  | none ↦ if c == sep then some ([], s) else none
]

abbrev pub onto_head : ℕ → List Text → List Text
onto_head c [] = (c ∷ []) ∷ []
onto_head c (p ∷ ps) = (c ∷ p) ∷ ps

-- `split` at a character: one more part than there are separators.
unfoldable pub split : Text → ℕ → List Text
split [] sep = [] ∷ []
split (c ∷ s) sep = let rest = split s sep in if c == sep then [] ∷ rest else onto_head c rest

unfoldable pub trim_start : Text → Text
trim_start [] = []
trim_start (c ∷ s) = if is_whitespace c then trim_start s else c ∷ s

unfoldable pub trim_end : Text → Text
trim_end [] = []
trim_end (c ∷ s) = elim (trim_end s) [
  | [] ↦ if is_whitespace c then [] else c ∷ []
  | d ∷ t ↦ c ∷ d ∷ t
]

unfoldable pub trim : Text → Text
unfolding trim_start trim_end is_whitespace
trim s = trim_end (trim_start s)

-- The word being read, if there is one, in front of the others.
abbrev pub flush : Text → List Text → List Text
flush [] ws = ws
flush (c ∷ w) ws = (c ∷ w) ∷ ws

-- The word so far is the second argument.
unfoldable pub words : Text → Text → List Text
words [] word = flush word []
words (c ∷ s) word =
    let next = words s [] in
    let more = words s (word ++ c ∷ []) in if is_whitespace c then flush word next else more

unfoldable pub split_whitespace : Text → List Text
unfolding words is_whitespace
split_whitespace s = words s []

unfoldable pub len_utf8 : ℕ → ℕ
len_utf8 c = if ltb c 128 then 1 else if ltb c 2048 then 2 else if ltb c 65536 then 3 else 4

-- `str::len`: the number of bytes.
unfoldable pub byte_len : Text → ℕ
unfolding len_utf8
byte_len [] = 0
byte_len (c ∷ s) = len_utf8 c + byte_len s

-- `[String]::join`.
abbrev pub join : List Text → Text → Text
join [] sep = []
join (p ∷ []) sep = p
join (p ∷ q ∷ ps) sep = p ++ sep ++ join (q ∷ ps) sep

abbrev lines_of : List Text → List Text
lines_of [] = []
lines_of (p ∷ []) = if is_empty p then [] else p ∷ []
lines_of (p ∷ q ∷ ps) = p ∷ lines_of (q ∷ ps)

abbrev without_cr : Text → Text
without_cr s = elim (strip_suffix s (b'\r' ∷ [])) [ none ↦ s | some t ↦ t ]

-- `str::lines`: at each newline, with no last empty line.
unfoldable pub lines : Text → List Text
unfolding split strip_suffix
lines s = each without_cr (lines_of (split s b'\n'))
