-- ===== src/Tui/Consistent.antt =====
-- What holds of the interface between two keys of src/tui/events.rs.
use tlscope_rs.Base.{◌≡◌, refl, sym, subst, Bool-cases, inl, inr, ◌&&◌, Result, ok, err, ◌==◌}
use tlscope_rs.Text.{Text}
use tlscope_rs.Capture.Filter.{parse, TrafficFilter}
use tlscope_rs.Capture.Suggest.{FilterParseState, valid, incomplete, invalid}
use tlscope_rs.Capture.Store.{FilterIndex}
use tlscope_rs.Tui.Editor.{FilterEditorState, refresh}
use tlscope_rs.Tui.Editor.Invariant.{IsWellFormed, refresh-IsWellFormed}
use tlscope_rs.Tui.Editor.Keeps.{
  backspace-Keeps, delete-Keeps, move_left-Keeps, move_right-Keeps, move_home-Keeps, move_end-Keeps,
  delete_current_token-Keeps, apply_selected_suggestion-Keeps, select_next_suggestion-Keeps,
  select_previous_suggestion-Keeps, insert_char-Keeps, clear-Keeps, reset_to-IsWellFormed,
}
use tlscope_rs.Tui.State.{TuiState}
use tlscope_rs.Tui.Scroll.Filter.{SameFilter}
use tlscope_rs.Tui.Keys.{
  KeyCode, char, enter, esc, backspace, delete, left, right, home, end, up, down, tab, back_tab,
  page_up, page_down, other, KeyEvent, apply_filter, apply_parsed, begin_filter_edit, filter_key,
  handle_filter_key,
}

-- The editor is well formed, and the filter in force is what its text parses to.
abbrev pub IsConsistent : TuiState → Type 0
IsConsistent s = IsWellFormed s.filter_editor × (parse s.applied_filter_text ≡ ok s.applied_filter)

pub SameFilter-IsConsistent : (s t : TuiState) → IsConsistent s → SameFilter s t → IsConsistent t
SameFilter-IsConsistent s t (w, p) (e, m, a, f, q) = (subst IsWellFormed (sym e) w, rw (a, f) p)

-- A change of the editor alone.
edited :
    (s : TuiState) (e : FilterEditorState)
    → IsConsistent s
    → IsWellFormed e
    → IsConsistent (record s { filter_editor = e })
edited s e (w, p) v = (v, p)

apply_parsed-IsConsistent :
    (s : TuiState) (v : FilterParseState) (r : Result Text TrafficFilter)
    → parse s.filter_editor.buffer ≡ r
    → IsConsistent s
    → IsConsistent (apply_parsed s v r)
unfolding apply_parsed
apply_parsed-IsConsistent s incomplete r h (w, p) = (w, p)
apply_parsed-IsConsistent s (invalid e) r h (w, p) = (w, p)
apply_parsed-IsConsistent s valid (ok f) h (w, p) = (w, h)
apply_parsed-IsConsistent s valid (err e) h (w, p) = (w, p)

apply_filter-IsConsistent : (s : TuiState) → IsConsistent s → IsConsistent (apply_filter s)
unfolding apply_filter
apply_filter-IsConsistent s c =
    apply_parsed-IsConsistent s s.filter_editor.parse_state (parse s.filter_editor.buffer) refl c

pub begin_filter_edit-IsConsistent :
    (s : TuiState) (index : FilterIndex) → IsConsistent s → IsConsistent (begin_filter_edit s index)
unfolding begin_filter_edit
begin_filter_edit-IsConsistent s index (w, p) =
    (reset_to-IsWellFormed s.filter_editor s.applied_filter_text index, p)

-- Every key of the filter mode, on a refreshed editor.
filter_key-IsConsistent :
    (key : KeyEvent) (k : KeyCode) (s : TuiState) (index : FilterIndex)
    → IsConsistent s
    → IsConsistent (filter_key key k s index)
unfolding filter_key
filter_key-IsConsistent key enter s index c = apply_filter-IsConsistent s c
filter_key-IsConsistent key esc s index (w, p) =
    (reset_to-IsWellFormed s.filter_editor s.applied_filter_text index, p)
filter_key-IsConsistent key backspace s index (w, p) = (backspace-Keeps index s.filter_editor w, p)
filter_key-IsConsistent key delete s index (w, p) = (delete-Keeps index s.filter_editor w, p)
filter_key-IsConsistent key left s index (w, p) = (move_left-Keeps s.filter_editor w, p)
filter_key-IsConsistent key right s index (w, p) = (move_right-Keeps s.filter_editor w, p)
filter_key-IsConsistent key home s index (w, p) = (move_home-Keeps s.filter_editor w, p)
filter_key-IsConsistent key end s index (w, p) = (move_end-Keeps s.filter_editor w, p)
filter_key-IsConsistent key up s index (w, p) =
    (select_previous_suggestion-Keeps s.filter_editor w, p)
filter_key-IsConsistent key down s index (w, p) =
    (select_next_suggestion-Keeps s.filter_editor w, p)
filter_key-IsConsistent key tab s index (w, p) =
    (apply_selected_suggestion-Keeps index s.filter_editor w, p)
filter_key-IsConsistent key back_tab s index (w, p) =
    (select_previous_suggestion-Keeps s.filter_editor w, p)
filter_key-IsConsistent key (char c) s index (w, p) = elim (Bool-cases (c == b'u' && key.control)) [
  | inl a ↦ rw a (clear-Keeps index s.filter_editor w, p)
  | inr a ↦ elim (Bool-cases (c == b'w' && key.control)) [
    | inl b ↦ rw (a, b) (delete_current_token-Keeps index s.filter_editor w, p)
    | inr b ↦ rw (a, b) (insert_char-Keeps index c s.filter_editor w, p)
  ]
]
filter_key-IsConsistent key page_up s index c = c
filter_key-IsConsistent key page_down s index c = c
filter_key-IsConsistent key other s index c = c

pub handle_filter_key-IsConsistent :
    (key : KeyEvent) (s : TuiState) (index : FilterIndex)
    → IsConsistent s
    → IsConsistent (handle_filter_key key s index)
unfolding handle_filter_key
handle_filter_key-IsConsistent key s index (w, p) =
    filter_key-IsConsistent key key.code
      (record s { filter_editor = refresh s.filter_editor index }) index
      (refresh-IsWellFormed s.filter_editor index, p)
