-- ===== src/Tui/Editor/Zipper.antt =====
-- The line editor of src/tui/filter.rs as a user sees it: the characters before the cursor and those
-- after it, and no byte offsets.
use tlscope_rs.Base.{ℕ, ◌≡◌, List, [], ◌∷◌, ◌++◌}
use tlscope_rs.Text.{Text, byte_len}
use tlscope_rs.Capture.Store.{FilterIndex}
use tlscope_rs.Tui.Editor.{
  FilterEditorState, refresh, refreshed, clamp_suggestion_selection, keep_selected_visible,
  replace_range, previous_boundary, last_start, next_boundary, second_start,
}
use tlscope_rs.Tui.Editor

-- The characters before the cursor, the nearest first, and those after it.
abbrev pub Zipper : Type 0
Zipper = List ℕ × List ℕ

-- The characters before the cursor in the order of the text.
unfoldable pub upto : List ℕ → Text
upto [] = []
upto (c ∷ l) = upto l ++ c ∷ []

abbrev pub Represents : FilterEditorState → Zipper → Type 0
Represents e (l, r) = (e.buffer ≡ upto l ++ r) × (e.cursor ≡ byte_len (upto l))

pub data Edit : Type 0 where
  insert_char : ℕ → Edit
  backspace delete move_left move_right move_home move_end clear : Edit

unfoldable pub all_right : List ℕ → List ℕ → Zipper
all_right [] after = ([], after)
all_right (c ∷ l) after = all_right l (c ∷ after)

unfoldable pub all_left : List ℕ → List ℕ → Zipper
all_left l [] = (l, [])
all_left l (c ∷ s) = all_left (c ∷ l) s

-- What each key does to the two sides.
unfoldable pub edit_zipper : Edit → Zipper → Zipper
unfolding all_right all_left
edit_zipper (insert_char c) (l, r) = (c ∷ l, r)
edit_zipper backspace ([], r) = ([], r)
edit_zipper backspace (c ∷ l, r) = (l, r)
edit_zipper delete (l, []) = (l, [])
edit_zipper delete (l, c ∷ r) = (l, r)
edit_zipper move_left ([], r) = ([], r)
edit_zipper move_left (c ∷ l, r) = (l, c ∷ r)
edit_zipper move_right (l, []) = (l, [])
edit_zipper move_right (l, c ∷ r) = (c ∷ l, r)
edit_zipper move_home (l, r) = all_right l r
edit_zipper move_end (l, r) = all_left l r
edit_zipper clear z = ([], [])

-- The code of each key.
unfoldable pub edit_editor : Edit → FilterIndex → FilterEditorState → FilterEditorState
edit_editor (insert_char c) index e = Editor.insert_char e index c
edit_editor backspace index e = Editor.backspace e index
edit_editor delete index e = Editor.delete e index
edit_editor move_left index e = Editor.move_left e
edit_editor move_right index e = Editor.move_right e
edit_editor move_home index e = Editor.move_home e
edit_editor move_end index e = Editor.move_end e
edit_editor clear index e = Editor.clear e index
