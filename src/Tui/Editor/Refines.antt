-- ===== src/Tui/Editor/Refines.antt =====
-- Each operation of the editor against what it does to the two sides of the cursor.
use tlscope_rs.Base.{
  ℕ, ◌+◌, ◌≡◌, refl, sym, ◌∙◌, List, [], ◌∷◌, ◌++◌, none, some, append_assoc, append-nil,
}
use tlscope_rs.Text.{byte_len, len_utf8}
use tlscope_rs.Capture.Store.{FilterIndex}
use tlscope_rs.Tui.Editor.{
  FilterEditorState, refresh, refreshed, clamp_suggestion_selection, keep_selected_visible,
  replace_range, previous_boundary, last_start, next_boundary, second_start,
}
use tlscope_rs.Tui.Editor
use tlscope_rs.Tui.Editor.Boundary.{
  refresh-split, previous_boundary-append, next_boundary-append, next_boundary-end,
  replace_range-cut, replace_range-insert, previous_boundary-start, byte_len_snoc,
}
use tlscope_rs.Tui.Editor.Zipper.{
  Zipper, upto, Represents, Edit, insert_char, backspace, delete, move_left, move_right, move_home,
  move_end, clear, all_right, all_left, edit_zipper, edit_editor,
}

all_right-split : (l r : List ℕ) → ((all_right l r).0 ≡ []) × ((all_right l r).1 ≡ upto l ++ r)
unfolding all_right upto
all_right-split [] r = (refl, refl)
all_right-split (c ∷ l) r =
    let (p, q) = all_right-split l (c ∷ r) in (p, q ∙ sym (append_assoc (upto l) (c ∷ []) r))

all_left-split : (l r : List ℕ) → (upto (all_left l r).0 ≡ upto l ++ r) × ((all_left l r).1 ≡ [])
unfolding all_left upto
all_left-split l [] = (sym (append-nil (upto l)), refl)
all_left-split l (c ∷ r) =
    let (p, q) = all_left-split (c ∷ l) r in (p ∙ append_assoc (upto l) (c ∷ []) r, q)

insert_char-Represents :
    (e : FilterEditorState) (index : FilterIndex) (c : ℕ) (l r : List ℕ)
    → Represents e (l, r)
    → Represents (Editor.insert_char e index c) (c ∷ l, r)
unfolding Editor.insert_char upto
insert_char-Represents e index c l r (h, k) =
    let p : replace_range e.buffer e.cursor e.cursor (c ∷ []) ≡ upto l ++ c ∷ [] ++ r =
      rw (h, k) (replace_range-insert (upto l) r (c ∷ [])) in
    let q : e.cursor + len_utf8 c ≡ byte_len (upto l ++ c ∷ []) =
      rw k (sym (byte_len_snoc (upto l) c)) in
    refresh-split
      (record e {
        buffer = replace_range e.buffer e.cursor e.cursor (c ∷ []);
        cursor = e.cursor + len_utf8 c;
        error = none;
      })
      index (upto l ++ c ∷ []) r p q

backspace-Represents :
    (e : FilterEditorState) (index : FilterIndex) (z : Zipper)
    → Represents e z
    → Represents (Editor.backspace e index) (edit_zipper backspace z)
unfolding upto edit_zipper byte_len Editor.backspace
backspace-Represents e index ([], r) (h, k) =
    let n : previous_boundary e.buffer e.cursor ≡ none =
      previous_boundary-start e.buffer e.cursor k in
    rw (Editor.backspace, n) (h, k)
backspace-Represents e index (c ∷ l, r) (h, k) =
    let n : previous_boundary e.buffer e.cursor ≡ some (byte_len (upto l)) =
      rw (h, k) (previous_boundary-append (upto l) r c) in
    let p : replace_range e.buffer (byte_len (upto l)) e.cursor [] ≡ upto l ++ r =
      rw (h, k) (replace_range-cut (upto l) (c ∷ []) r) in
    rw (Editor.backspace, n)
      (refresh-split
        (record e {
          buffer = replace_range e.buffer (byte_len (upto l)) e.cursor [];
          cursor = byte_len (upto l);
          error = none;
        })
        index (upto l) r p refl)

delete-Represents :
    (e : FilterEditorState) (index : FilterIndex) (z : Zipper)
    → Represents e z
    → Represents (Editor.delete e index) (edit_zipper delete z)
unfolding upto edit_zipper byte_len Editor.delete
delete-Represents e index (l, []) (h, k) =
    let n : next_boundary e.buffer e.cursor ≡ none = rw (h, k) (next_boundary-end (upto l)) in
    rw (Editor.delete, n) (h, k)
delete-Represents e index (l, c ∷ r) (h, k) =
    let n : next_boundary e.buffer e.cursor ≡ some (byte_len (upto l) + len_utf8 c) =
      rw (h, k) (next_boundary-append (upto l) r c) in
    let p : replace_range e.buffer e.cursor (byte_len (upto l) + len_utf8 c) [] ≡ upto l ++ r =
      rw (h, k, sym (byte_len_snoc (upto l) c), sym (append_assoc (upto l) (c ∷ []) r))
        (replace_range-cut (upto l) (c ∷ []) r) in
    rw (Editor.delete, n)
      (refresh-split
        (record e {
          buffer = replace_range e.buffer e.cursor (byte_len (upto l) + len_utf8 c) [];
          error = none;
        })
        index (upto l) r p k)

pub move_left-Represents :
    (e : FilterEditorState) (z : Zipper)
    → Represents e z
    → Represents (Editor.move_left e) (edit_zipper move_left z)
unfolding upto edit_zipper byte_len Editor.move_left
move_left-Represents e ([], r) (h, k) =
    let n : previous_boundary e.buffer e.cursor ≡ none =
      previous_boundary-start e.buffer e.cursor k in
    rw (Editor.move_left, n) (h, k)
move_left-Represents e (c ∷ l, r) (h, k) =
    let n : previous_boundary e.buffer e.cursor ≡ some (byte_len (upto l)) =
      rw (h, k) (previous_boundary-append (upto l) r c) in
    rw (Editor.move_left, n) (h ∙ append_assoc (upto l) (c ∷ []) r, refl)

pub move_right-Represents :
    (e : FilterEditorState) (z : Zipper)
    → Represents e z
    → Represents (Editor.move_right e) (edit_zipper move_right z)
unfolding upto edit_zipper byte_len Editor.move_right
move_right-Represents e (l, []) (h, k) =
    let n : next_boundary e.buffer e.cursor ≡ none = rw (h, k) (next_boundary-end (upto l)) in
    rw (Editor.move_right, n) (h, k)
move_right-Represents e (l, c ∷ r) (h, k) =
    let n : next_boundary e.buffer e.cursor ≡ some (byte_len (upto l) + len_utf8 c) =
      rw (h, k) (next_boundary-append (upto l) r c) in
    rw (Editor.move_right, n)
      (h ∙ sym (append_assoc (upto l) (c ∷ []) r), sym (byte_len_snoc (upto l) c))

edit_editor-refines :
    (k : Edit) (index : FilterIndex) (e : FilterEditorState) (z : Zipper)
    → Represents e z
    → Represents (edit_editor k index e) (edit_zipper k z)
unfolding edit_editor edit_zipper byte_len upto Editor.move_home Editor.move_end Editor.clear
edit_editor-refines (insert_char c) index e (l, r) h = insert_char-Represents e index c l r h
edit_editor-refines backspace index e z h = backspace-Represents e index z h
edit_editor-refines delete index e z h = delete-Represents e index z h
edit_editor-refines move_left index e z h = move_left-Represents e z h
edit_editor-refines move_right index e z h = move_right-Represents e z h
edit_editor-refines move_home index e (l, r) (h, k) =
    let (p, q) = all_right-split l r in (rw (p, q) h, rw p refl)
edit_editor-refines move_end index e (l, r) (h, k) =
    let (p, q) = all_left-split l r in
    (rw (p, q) (h ∙ sym (append-nil (upto l ++ r))), rw (p, h) refl)
edit_editor-refines clear index e z h =
    refresh-split (record e { buffer = []; cursor = 0; error = none }) index [] [] refl refl

-- A sequence of edits, each with the filter index of its time.
unfoldable pub run_edits : List (Edit × FilterIndex) → FilterEditorState → FilterEditorState
unfolding edit_editor
run_edits [] e = e
run_edits ((k, index) ∷ ks) e = run_edits ks (edit_editor k index e)

unfoldable pub run_zipper : List (Edit × FilterIndex) → Zipper → Zipper
unfolding edit_zipper
run_zipper [] z = z
run_zipper ((k, index) ∷ ks) z = run_zipper ks (edit_zipper k z)

-- If an editor shows the characters before and after its cursor, then after any sequence of edits it
-- shows what the edits make of these two sides; the byte offsets are right whatever the widths of
-- the characters.
pub run_edits-refines :
    (ks : List (Edit × FilterIndex)) (e : FilterEditorState) (z : Zipper)
    → Represents e z
    → Represents (run_edits ks e) (run_zipper ks z)
unfolding run_edits run_zipper
run_edits-refines [] e z h = h
run_edits-refines ((k, index) ∷ ks) e z h =
    run_edits-refines ks (edit_editor k index e) (edit_zipper k z)
      (edit_editor-refines k index e z h)
