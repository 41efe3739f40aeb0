-- ===== src/Process/Paths.antt =====
-- `std::path::Path` on Unix, as far as the program asks: the last component, its
-- stem, what stands before it, and a name behind a path. A path is its
-- text.
use tlscope_rs.Base.{
  ℕ, Bool, false, not, ◌==◌, ◌&&◌, ◌||◌, ◌++◌, List, [], ◌∷◌, Option, none, some, if◌then◌else◌,
  is_empty, take,
}
use tlscope_rs.Text.{Text, text, text_eq, split, rsplit_once, starts_with}

-- The components without the empty ones and those for the directory itself.
abbrev proper : List Text → List Text
unfolding text
proper [] = []
proper (p ∷ ps) =
    let rest = proper ps in if is_empty p || text_eq p (text ".") then rest else p ∷ rest

abbrev last_of : List Text → Option Text
last_of [] = none
last_of (p ∷ []) = some p
last_of (p ∷ q ∷ ps) = last_of (q ∷ ps)

unfoldable pub file_name : Text → Option Text
unfolding proper text
file_name path = elim (last_of (proper (split path b'/'))) [
  | none ↦ none
  | some name ↦ if text_eq name (text "..") then none else some name
]

-- A name up to its last dot; a dot at its beginning is part of it.
unfoldable pub stem_of : Text → Text
stem_of name = elim (rsplit_once name b'.') [
  | none ↦ name
  | some (before, extension) ↦ if is_empty before then name else before
]

unfoldable pub file_stem : Text → Option Text
unfolding stem_of
file_stem path = elim (file_name path) [ none ↦ none | some name ↦ some (stem_of name) ]

abbrev pub reverse : Text → Text
reverse [] = []
reverse (c ∷ s) = reverse s ++ c ∷ []

abbrev pub ends_with : Text → ℕ → Bool
ends_with [] d = false
ends_with (c ∷ []) d = c == d
ends_with (c ∷ e ∷ s) d = ends_with (e ∷ s) d

-- A name behind a directory.
unfoldable pub join_path : Text → Text → Text
unfolding text
join_path dir name =
    if starts_with name (text "/") || is_empty dir
    then name
    else if ends_with dir b'/'
    then dir ++ name
    else dir ++ b'/' ∷ name

-- A path, from its last character on, without the separators and the `/.` at its end.
abbrev trim_back : Text → Text
trim_back [] = []
trim_back (c ∷ []) = if c == b'/' then [] else c ∷ []
trim_back (c ∷ d ∷ s) =
    let rest = trim_back (d ∷ s) in
    if c == b'/' || (c == b'.' && d == b'/') then rest else c ∷ d ∷ s

abbrev without_end : Text → Text
without_end path =
    let rest = reverse (trim_back (reverse path)) in
    if is_empty rest && not (is_empty path) then take 1 path else rest

unfoldable pub parent : Text → Option Text
unfolding text rsplit_once
parent path =
    let whole = without_end path in
    if is_empty whole || text_eq whole (text "/") then none else elim (rsplit_once whole b'/') [
      | none ↦ some []
      | some (before, name) ↦ some (without_end (if is_empty before then text "/" else before))
    ]
