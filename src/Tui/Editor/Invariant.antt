-- ===== src/Tui/Editor/Invariant.antt =====
-- What holds of the filter editor between two keys.
use tlscope_rs.Base.{◌+◌, ◌-◌, ◌≤◌, ◌<◌, ◌≡◌, sym, ap, ◌∙◌, min, true, arith, length}
use tlscope_rs.Text.{byte_len}
use tlscope_rs.Text.Offset.{is_char_boundary, clamp_to_char_boundary-boundary}
use tlscope_rs.Capture.Store.{FilterIndex}
use tlscope_rs.Capture.Suggest.Verdict.{filter_parse_state}
use tlscope_rs.Tui.Editor.{
  FilterEditorState, refresh, refreshed, clamp_suggestion_selection, keep_selected_visible,
  max_visible,
}

-- The selected suggestion exists, if there is one, and is one of the seven that are shown.
abbrev pub IsInView : FilterEditorState → Type 0
IsInView e =
    (e.selected_suggestion ≤ length e.suggestions - 1)
    × (e.suggestion_scroll ≤ e.selected_suggestion)
    × (e.selected_suggestion < e.suggestion_scroll + max_visible)

-- The cursor stands between two characters, the verdict is that of the text, and the selection is
-- in view.
abbrev pub IsWellFormed : FilterEditorState → Type 0
IsWellFormed e =
    (is_char_boundary e.buffer e.cursor ≡ true)
    × (e.parse_state ≡ filter_parse_state e.buffer)
    × IsInView e

pub keep_selected_visible-IsInView :
    (e : FilterEditorState)
    → e.selected_suggestion ≤ length e.suggestions - 1
    → IsInView (keep_selected_visible e)
unfolding keep_selected_visible
keep_selected_visible-IsInView e h = ground arith

-- The fields that a change of the selection leaves alone.
abbrev pub Same : FilterEditorState → FilterEditorState → Type 0
Same d e = (d.buffer ≡ e.buffer) × (d.cursor ≡ e.cursor) × (d.parse_state ≡ e.parse_state)

pub keep_selected_visible-Same : (e : FilterEditorState) → Same (keep_selected_visible e) e
unfolding keep_selected_visible
keep_selected_visible-Same e = ground arith

clamp_suggestion_selection-IsInView :
    (e : FilterEditorState)
    → IsInView (clamp_suggestion_selection e) × Same (clamp_suggestion_selection e) e
unfolding clamp_suggestion_selection
clamp_suggestion_selection-IsInView e =
    let clamped : FilterEditorState = record e {
      selected_suggestion = min e.selected_suggestion (length e.suggestions - 1);
    } in
    ground (
      arith,
      keep_selected_visible-IsInView clamped (omega arith),
      keep_selected_visible-Same clamped,
    )

-- Refreshing makes any editor well formed.
pub refresh-IsWellFormed :
    (e : FilterEditorState) (index : FilterIndex) → IsWellFormed (refresh e index)
unfolding refresh refreshed
refresh-IsWellFormed e index =
    let (v, same) = clamp_suggestion_selection-IsInView (refreshed e index) in
    let (b, c, p) = same in
    (
      rw (b, c) (clamp_to_char_boundary-boundary e.buffer (min e.cursor (byte_len e.buffer))).0,
      p ∙ ap filter_parse_state (sym b),
      v,
    )

-- What the invariant asks of an operation.
abbrev pub Keeps : (FilterEditorState → FilterEditorState) → Type 0
Keeps f = (e : FilterEditorState) → IsWellFormed e → IsWellFormed (f e)
