-- ===== src/Tui/Keys.antt =====
-- src/tui/events.rs: what each key does on each screen. Writing the export file and the texts of a
-- details tab are the arguments `Outside`; a poisoned mutex is not modelled.
pub mod Apply
use tlscope_rs.Base.{
  ℕ, ◌+◌, ◌-◌, min, Bool, true, false, not, ◌&&◌, List, [], ◌∷◌, ◌++◌, Option, none, some, ltb,
  ◌==◌, if◌then◌else◌, Result, ok, err, length, is_empty,
}
use tlscope_rs.Text.{Text, text}
use tlscope_rs.Capture.Entry.{TrafficEntry}
use tlscope_rs.Capture.Redact.{RedactionConfig}
use tlscope_rs.Capture.Filter.{parse, TrafficFilter}
use tlscope_rs.Capture.Suggest.{FilterParseState, valid, incomplete, invalid}
use tlscope_rs.Capture.Store.{TrafficStore, FilterIndex}
use tlscope_rs.Capture.Store
use tlscope_rs.Logs.Child.{ChildLogSnapshot}
use tlscope_rs.Logs.Diagnostics.{TlscopeLogSnapshot}
use tlscope_rs.Tui.LogTab
use tlscope_rs.Tui.LogTab.{LogTab}
use tlscope_rs.Tui.DetailTab
use tlscope_rs.Tui.DetailTab.{DetailTab}
use tlscope_rs.Tui.Editor
use tlscope_rs.Tui.Editor.{FilterEditorState}
use tlscope_rs.Tui.Scroll
use tlscope_rs.Tui.Scroll.{unavailable}
use tlscope_rs.Tui.State.{
  TuiState, TuiExit, terminate_child, leave_child_running, Screen, list, details, logs, help,
}

pub data KeyCode : Type 0 where
  char : ℕ → KeyCode
  enter esc backspace delete left right home end up down tab back_tab page_up page_down : KeyCode
  other : KeyCode

pub record KeyEvent : Type 0 where
  pub code : KeyCode
  pub control : Bool
  pub shift : Bool

-- What the keys act on: the interface and the store that the proxy fills.
pub record Session : Type 0 where
  pub state : TuiState
  pub store : TrafficStore

-- What a key sees: the filtered entries and the two log snapshots, taken before it.
pub record View : Type 0 where
  pub entries : List TrafficEntry
  pub process_logs : ChildLogSnapshot
  pub tlscope_logs : TlscopeLogSnapshot

-- The rest of the program: an export gives an error or nothing.
pub record Outside : Type 0 where
  pub detail_text : DetailTab → TrafficEntry → Text
  pub export_session_json : List TrafficEntry → RedactionConfig → Option Text

-- A handler's result: the state after it, and `Result<Option<TuiExit>>`.
pub record Outcome : Type 0 where
  pub session : Session
  pub result : Result Text (Option TuiExit)

abbrev pub stay : Session → Outcome
stay s = record { session = s; result = ok none }

abbrev pub with_state : Session → TuiState → Outcome
with_state s t = stay (record s { state = t })

unfoldable pub handle_quit_choice : KeyCode → TuiState → TuiState × Option TuiExit
unfolding unavailable
handle_quit_choice (char c) s =
    if c == b'1'
    then (s, some terminate_child)
    else if c == b'2'
    then (s, some leave_child_running)
    else if c == b'3'
    then (record s { confirm_quit = false; message = text "quit cancelled" }, none)
    else (unavailable s (text "Choose 1, 2, 3 or Esc."), none)
handle_quit_choice esc s =
    (record s { confirm_quit = false; message = text "quit cancelled" }, none)
handle_quit_choice _ s = (unavailable s (text "Choose 1, 2, 3 or Esc."), none)

abbrev filter_refused : TuiState → Text → Text → TuiState
filter_refused s error message = record s {
  filter_editor = record (s.filter_editor) { error = some error };
  message = message;
}

abbrev accept : TuiState → TrafficFilter → TuiState
accept s parsed = record s {
  applied_filter_text = s.filter_editor.buffer;
  applied_filter = parsed;
  entering_filter = false;
  filter_editor = record (s.filter_editor) { error = none };
  selected = 0;
  detail_scroll_offset = 0;
  message =
      if is_empty s.filter_editor.buffer then text "filter cleared" else text "filter applied";
}

-- With the verdict on the text and what it parses to.
unfoldable pub apply_parsed : TuiState → FilterParseState → Result Text TrafficFilter → TuiState
unfolding text
apply_parsed s incomplete r =
    filter_refused s (text "incomplete filter token") (text "filter is incomplete")
apply_parsed s (invalid error) r = filter_refused s error (text "filter has errors")
apply_parsed s valid (ok parsed) = accept s parsed
apply_parsed s valid (err error) = filter_refused s error (text "filter has errors")

unfoldable pub apply_filter : TuiState → TuiState
unfolding apply_parsed
apply_filter s = apply_parsed s s.filter_editor.parse_state (parse s.filter_editor.buffer)

unfoldable pub begin_filter_edit : TuiState → FilterIndex → TuiState
begin_filter_edit s index = record s {
  filter_editor = Editor.reset_to s.filter_editor s.applied_filter_text index;
  entering_filter = true;
  message = text "filter mode";
}

-- A change of the editor alone.
abbrev edit : TuiState → FilterEditorState → TuiState
edit s e = record s { filter_editor = e }

-- The match of `handle_filter_key`, on a state whose editor was refreshed.
unfoldable pub filter_key : KeyEvent → KeyCode → TuiState → FilterIndex → TuiState
unfolding unavailable apply_filter
filter_key key enter s index = apply_filter s
filter_key key esc s index = record s {
  filter_editor = Editor.reset_to s.filter_editor s.applied_filter_text index;
  entering_filter = false;
  message = text "filter editing cancelled";
}
filter_key key backspace s index = edit s (Editor.backspace s.filter_editor index)
filter_key key delete s index = edit s (Editor.delete s.filter_editor index)
filter_key key left s index = edit s (Editor.move_left s.filter_editor)
filter_key key right s index = edit s (Editor.move_right s.filter_editor)
filter_key key home s index = edit s (Editor.move_home s.filter_editor)
filter_key key end s index = edit s (Editor.move_end s.filter_editor)
filter_key key up s index = edit s (Editor.select_previous_suggestion s.filter_editor)
filter_key key down s index = edit s (Editor.select_next_suggestion s.filter_editor)
filter_key key tab s index = edit s (Editor.apply_selected_suggestion s.filter_editor index).0
filter_key key back_tab s index = edit s (Editor.select_previous_suggestion s.filter_editor)
filter_key key (char c) s index =
    if c == b'u' && key.control
    then edit s (Editor.clear s.filter_editor index)
    else if c == b'w' && key.control
    then edit s (Editor.delete_current_token s.filter_editor index)
    else edit s (Editor.insert_char s.filter_editor index c)
filter_key key _ s index =
    unavailable s (text "Filter mode: type, arrows, Tab suggestion, Enter apply, Esc cancel.")

unfoldable pub handle_filter_key : KeyEvent → TuiState → FilterIndex → TuiState
unfolding filter_key
handle_filter_key key s index =
    filter_key key key.code (edit s (Editor.refresh s.filter_editor index)) index

unfoldable pub clear_session : Session → Session
clear_session s = record {
  store = Store.clear s.store;
  state = record (s.state) {
    selected = 0;
    detail_scroll_offset = 0;
    log_scroll_offset = 0;
    message = text "session cleared";
  };
}

unfoldable pub export_current_session : Outside → RedactionConfig → Session → Outcome
export_current_session o redaction s = elim (o.export_session_json s.store.entries redaction) [
  | some error ↦ record { session = s; result = err error }
  | none ↦ with_state s (record (s.state) { message = text "exported TLScope-export.json" })
]
