-- ===== src/Tui/Editor.antt =====
-- src/tui/filter.rs: the line editor of the filter. The cursor is a byte offset; off a boundary
-- between characters the slices would panic, and the invariant of `Editor.Invariant` excludes that.
pub mod Boundary
pub mod Zipper
pub mod Refines
pub mod Invariant
pub mod Keeps
pub mod Token
use tlscope_rs.Base.{
  ℕ, zero, suc, ◌+◌, ◌-◌, min, Bool, true, false, List, [], ◌∷◌, ◌++◌, Option, none, some, ltb, leb,
  ◌==◌, if◌then◌else◌, length, get_elem?, is_empty,
}
use tlscope_rs.Text.{Text, byte_len, len_utf8}
use tlscope_rs.Text.Offset.{take_bytes, drop_bytes, clamp_to_char_boundary}
use tlscope_rs.Capture.Store.{FilterIndex}
use tlscope_rs.Capture.Suggest.{
  FilterSuggestion, FilterParseState, valid, TokenRange, current_token,
}
use tlscope_rs.Capture.Suggest.Build.{build_filter_suggestions}
use tlscope_rs.Capture.Suggest.Verdict.{filter_parse_state}

pub record FilterEditorState : Type 0 where
  pub buffer : Text
  pub cursor : ℕ
  pub horizontal_offset : ℕ
  pub suggestions : List FilterSuggestion
  pub selected_suggestion : ℕ
  pub suggestion_scroll : ℕ
  pub parse_state : FilterParseState
  pub error : Option Text

unfoldable pub default_editor : FilterEditorState
default_editor = record {
  buffer = [];
  cursor = 0;
  horizontal_offset = 0;
  suggestions = [];
  selected_suggestion = 0;
  suggestion_scroll = 0;
  parse_state = valid;
  error = none;
}

abbrev pub max_visible : ℕ
max_visible = 7

unfoldable pub keep_selected_visible : FilterEditorState → FilterEditorState
keep_selected_visible e =
    if ltb e.selected_suggestion e.suggestion_scroll
    then record e { suggestion_scroll = e.selected_suggestion }
    else if leb (e.suggestion_scroll + max_visible) e.selected_suggestion
    then record e { suggestion_scroll = e.selected_suggestion + 1 - max_visible }
    else e

unfoldable pub clamp_suggestion_selection : FilterEditorState → FilterEditorState
unfolding keep_selected_visible
clamp_suggestion_selection e =
    if is_empty e.suggestions
    then record e { selected_suggestion = 0; suggestion_scroll = 0 }
    else keep_selected_visible
        (record e { selected_suggestion = min e.selected_suggestion (length e.suggestions - 1) })

-- The fields that `refresh` sets before the selection is clamped.
unfoldable pub refreshed : FilterEditorState → FilterIndex → FilterEditorState
refreshed e index =
    let cursor = clamp_to_char_boundary e.buffer (min e.cursor (byte_len e.buffer)) in
    record e {
      cursor = cursor;
      parse_state = filter_parse_state e.buffer;
      suggestions = build_filter_suggestions e.buffer cursor index;
    }

unfoldable pub refresh : FilterEditorState → FilterIndex → FilterEditorState
unfolding clamp_suggestion_selection refreshed
refresh e index = clamp_suggestion_selection (refreshed e index)

unfoldable pub reset_to : FilterEditorState → Text → FilterIndex → FilterEditorState
reset_to e buffer index =
    refresh
      (record e { buffer = buffer; cursor = byte_len buffer; horizontal_offset = 0; error = none })
      index

-- `text.replace_range(start..stop, by)`.
unfoldable pub replace_range : Text → ℕ → ℕ → Text → Text
replace_range s start stop by = take_bytes start s ++ by ++ drop_bytes stop s

unfoldable pub insert_char : FilterEditorState → FilterIndex → ℕ → FilterEditorState
unfolding replace_range
insert_char e index c =
    refresh
      (record e {
        buffer = replace_range e.buffer e.cursor e.cursor (c ∷ []);
        cursor = e.cursor + len_utf8 c;
        error = none;
      })
      index

-- `char_indices().last()`: where the last character starts, from the offset of the first.
last_start : ℕ → Text → Option ℕ
last_start pos [] = none
last_start pos (c ∷ s) = elim (last_start (pos + len_utf8 c) s) [
  | none ↦ some pos
  | some i ↦ some i
]

unfoldable pub previous_boundary : Text → ℕ → Option ℕ
unfolding last_start
previous_boundary s cursor = if cursor == 0 then none else last_start 0 (take_bytes cursor s)

-- `char_indices().nth(1)`, or the end of the text.
second_start : ℕ → ℕ → Text → ℕ
second_start cursor end [] = end
second_start cursor end (c ∷ []) = end
second_start cursor end (c ∷ d ∷ s) = cursor + len_utf8 c

unfoldable pub next_boundary : Text → ℕ → Option ℕ
unfolding second_start
next_boundary s cursor =
    if leb (byte_len s) cursor
    then none
    else some (second_start cursor (byte_len s) (drop_bytes cursor s))

unfoldable pub backspace : FilterEditorState → FilterIndex → FilterEditorState
unfolding replace_range previous_boundary
backspace e index = elim (previous_boundary e.buffer e.cursor) [
  | none ↦ e
  | some previous ↦
      refresh
        (record e {
          buffer = replace_range e.buffer previous e.cursor [];
          cursor = previous;
          error = none;
        })
        index
]

unfoldable pub delete : FilterEditorState → FilterIndex → FilterEditorState
unfolding replace_range next_boundary
delete e index = elim (next_boundary e.buffer e.cursor) [
  | none ↦ e
  | some next ↦
      refresh (record e { buffer = replace_range e.buffer e.cursor next []; error = none }) index
]

unfoldable pub move_left : FilterEditorState → FilterEditorState
unfolding previous_boundary
move_left e = elim (previous_boundary e.buffer e.cursor) [
  | none ↦ e
  | some previous ↦ record e { cursor = previous }
]

unfoldable pub move_right : FilterEditorState → FilterEditorState
unfolding next_boundary
move_right e = elim (next_boundary e.buffer e.cursor) [
  | none ↦ e
  | some next ↦ record e { cursor = next }
]

unfoldable pub move_home : FilterEditorState → FilterEditorState
move_home e = record e { cursor = 0 }

unfoldable pub move_end : FilterEditorState → FilterEditorState
move_end e = record e { cursor = byte_len e.buffer }

unfoldable pub clear : FilterEditorState → FilterIndex → FilterEditorState
clear e index = refresh (record e { buffer = []; cursor = 0; error = none }) index

unfoldable pub delete_current_token : FilterEditorState → FilterIndex → FilterEditorState
unfolding replace_range
delete_current_token e index =
    let range = current_token e.buffer e.cursor in
    if range.start == range.stop
    then e
    else refresh
        (record e {
          buffer = replace_range e.buffer range.start range.stop [];
          cursor = range.start;
          error = none;
        })
        index

unfoldable pub select_next_suggestion : FilterEditorState → FilterEditorState
unfolding keep_selected_visible
select_next_suggestion e =
    if is_empty e.suggestions
    then e
    else keep_selected_visible (record e {
      selected_suggestion = min (e.selected_suggestion + 1) (length e.suggestions - 1);
    })

unfoldable pub select_previous_suggestion : FilterEditorState → FilterEditorState
unfolding keep_selected_visible
select_previous_suggestion e =
    if is_empty e.suggestions
    then e
    else keep_selected_visible (record e { selected_suggestion = e.selected_suggestion - 1 })

-- With the result of the call: whether there was a suggestion.
unfoldable pub apply_selected_suggestion :
    FilterEditorState → FilterIndex → FilterEditorState × Bool
unfolding replace_range
apply_selected_suggestion e index = elim (get_elem? e.suggestions e.selected_suggestion) [
  | none ↦ (e, false)
  | some suggestion ↦
      let range = current_token e.buffer e.cursor in
      (
        refresh
            (record e {
              buffer = replace_range e.buffer range.start range.stop suggestion.replacement;
              cursor = range.start + byte_len suggestion.replacement;
              error = none;
            })
            index,
        true,
      )
]
