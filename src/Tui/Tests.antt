-- ===== src/Tui/Tests.antt =====
-- The theorems on the interface at concrete inputs, and runs of the code.
use tlscope_rs.Base.{
  ℕ, ◌+◌, ◌-◌, ◌<◌, ◌≡◌, ◌≢◌, ◌↔◌, refl, min, max, true, false, List, [], ◌∷◌, ◌++◌, none, some,
  arith, length, get_elem?,
}
use tlscope_rs.Text.{Text, text, byte_len, is_whitespace}
use tlscope_rs.Text.Offset.{take_bytes, clamp_to_char_boundary, is_char_boundary}
use tlscope_rs.Capture.Store.{FilterIndex, empty_index}
use tlscope_rs.Capture.Store
use tlscope_rs.Capture.Store.Index.{Indexes}
use tlscope_rs.Capture.Suggest.{FilterSuggestion, valid}
use tlscope_rs.Capture.Suggest.Token.{EndsBlank}
use tlscope_rs.Capture.Tests.{sample, config}
use tlscope_rs.Tui.Editor.{
  FilterEditorState, default_editor, delete_current_token, apply_selected_suggestion,
}
use tlscope_rs.Tui.Editor.Zipper.{upto, Represents, Edit, insert_char, move_left}
use tlscope_rs.Tui.Editor.Refines.{run_edits, run_zipper, run_edits-refines}
use tlscope_rs.Tui.Editor.Token.{token_edits_lem}
use tlscope_rs.Tui.State.{TuiState, default_state}
use tlscope_rs.Tui.Scroll.{select_next_request, select_previous_request}
use tlscope_rs.Tui.Scroll.Bounds.{next, move, move-selected, select-steps}
use tlscope_rs.Tui.Keys.{KeyEvent, char, Session, View, Outside, apply_filter}
use tlscope_rs.Tui.Keys.Apply.{IsAccepted, IsRefused, apply_filter_lem}
use tlscope_rs.Tui.Consistent.{IsConsistent}
use tlscope_rs.Tui.Loop.{stop, go, captures, first_session}
use tlscope_rs.Tui.Loop.Reach.{reach-IsSound}
use tlscope_rs.Tui.Visible.{FilterView, visible_text}
use tlscope_rs.Tui.Visible.Panic.{IsWide, visible_text-none}
use tlscope_rs.Tui.Visible.Fits.{Draws, visible_text-fits}

abbrev outside : Outside
outside = record { detail_text = λ t e. []; export_session_json = λ es r. none }

abbrev one_capture : Session
unfolding first_session
one_capture = record first_session { store = Store.push first_session.store sample }

reach-IsSound_example :
    IsConsistent one_capture.state
    × Indexes one_capture.store.entries one_capture.store.filter_index
unfolding first_session one_capture
reach-IsSound_example = reach-IsSound outside config one_capture (
    go first_session first_session one_capture (stop first_session) (captures first_session sample))

first-IsConsistent : IsConsistent first_session.state
first-IsConsistent = (reach-IsSound outside config first_session (stop first_session)).0

abbrev asked : Session
unfolding first_session
asked = record first_session { state = record (first_session.state) { confirm_quit = true } }

abbrev empty_view : View
empty_view = record {
  entries = [];
  process_logs = record { lines = []; dropped = 0; total = 0 };
  tlscope_logs = record { lines = []; dropped = 0; total = 0 };
}

abbrev one : KeyEvent
one = record { code = char b'1'; control = false; shift = false }

-- Ten characters of two bytes in a field of three columns.
abbrev wide : Text
wide = 233 ∷ 233 ∷ 233 ∷ 233 ∷ 233 ∷ []

panic_example : visible_text (wide ++ []) (byte_len wide) 3 ≡ none
unfolding visible_text byte_len take_bytes clamp_to_char_boundary is_char_boundary
panic_example = refl

visible_text-none_example : (visible_text (wide ++ []) (byte_len wide) 3 ≡ none) ↔ (
    (max 3 1 < length (wide ++ []))
    × (0 < length wide - (max 3 1 - 1))
    × IsWide (get_elem? (wide ++ []) (length wide - (max 3 1 - 1))))
visible_text-none_example = visible_text-none wide [] 3

abbrev letters : Text
unfolding text
letters = text "abcd"

abbrev drawn : FilterView
unfolding text
drawn = record { shown = text "<d"; cursor_column = 2 }

visible_text-fits_example : (start : ℕ) × Draws (letters ++ []) (length letters) 3 start drawn
unfolding visible_text byte_len take_bytes clamp_to_char_boundary is_char_boundary drawn letters
    text
visible_text-fits_example = visible_text-fits letters [] 3 drawn (omega arith) (omega arith) refl

-- An é typed in front of an `a`.
abbrev edits : List (Edit × FilterIndex)
unfolding empty_index
edits =
    (insert_char b'a', empty_index) ∷ (move_left, empty_index) ∷ (insert_char 233, empty_index) ∷ []

run_edits-refines_example : Represents (run_edits edits default_editor) (run_zipper edits ([], []))
unfolding default_editor upto byte_len
run_edits-refines_example = run_edits-refines edits default_editor ([], []) (refl, refl)

abbrev editor : FilterEditorState
unfolding default_editor text byte_len
editor = record default_editor {
  buffer = text "tls:true " ++ text "er" ++ (text "ror:x" ++ text " host:y");
  cursor = byte_len (text "tls:true " ++ text "er");
}

token_edits_lem_example :
    (((delete_current_token editor empty_index).buffer ≡ text "tls:true " ++ text " host:y")
      × ((delete_current_token editor empty_index).cursor ≡ byte_len (text "tls:true ")))
    × ((s : FilterSuggestion)
        → get_elem? editor.suggestions editor.selected_suggestion ≡ some s
        → ((apply_selected_suggestion editor empty_index).0.buffer
            ≡ text "tls:true " ++ s.replacement ++ text " host:y")
          × ((apply_selected_suggestion editor empty_index).0.cursor
              ≡ byte_len (text "tls:true " ++ s.replacement))
          × ((apply_selected_suggestion editor empty_index).1 ≡ true))
unfolding text EndsBlank is_whitespace editor
token_edits_lem_example =
    token_edits_lem editor empty_index (text "tls:true ") (text "er") (text "ror:x")
      (text " host:y")
      (refl, refl, refl, (refl, (refl, tt)), (refl, (refl, (refl, (refl, (refl, tt))))), refl)

abbrev far : TuiState
unfolding default_state
far = record default_state { selected = 9 }

move-selected_example :
    (move (next 1) far (sample ∷ sample ∷ [])).selected < length (sample ∷ sample ∷ [])
move-selected_example = move-selected (next 1) far sample (sample ∷ [])

select-steps_example :
    ((select_next_request default_state (sample ∷ sample ∷ []) 10).selected
      ≡ min (default_state.selected + 10) (length (sample ∷ sample ∷ []) - 1))
    × ((select_previous_request default_state (sample ∷ sample ∷ []) 10).selected
        ≡ default_state.selected - 10)
unfolding default_state
select-steps_example =
    select-steps default_state (sample ∷ sample ∷ []) 10 (omega arith) (omega arith)

apply_filter_lem_example :
    (default_state.filter_editor.parse_state ≡ valid
      → IsAccepted default_state (apply_filter default_state))
    × (default_state.filter_editor.parse_state ≢ valid
        → IsRefused default_state (apply_filter default_state))
unfolding first_session
apply_filter_lem_example = apply_filter_lem default_state first-IsConsistent.0
