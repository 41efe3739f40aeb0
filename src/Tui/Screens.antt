-- ===== src/Tui/Screens.antt =====
-- src/tui/events.rs: the keys of each screen, and `handle_key`, which picks the screen.
pub mod Letters
pub mod Consistent
use tlscope_rs.Base.{ℕ, ◌-◌, min, Bool, true, List, [], ◌++◌, ◌==◌, if◌then◌else◌, length, is_empty}
use tlscope_rs.Text.{text}
use tlscope_rs.Capture.Entry.{TrafficEntry}
use tlscope_rs.Capture.Redact.{RedactionConfig}
use tlscope_rs.Tui.LogTab
use tlscope_rs.Tui.DetailTab
use tlscope_rs.Tui.State.{TuiState, list, details}
use tlscope_rs.Tui.Scroll.{
  unavailable, select_next_request, select_previous_request, select_first_request,
  select_last_request, detail_scroll_limit, scroll_details_down, scroll_details_up,
  current_log_count, switch_log_tab, copy_current_logs, scroll_logs_older, scroll_logs_newer,
  toggle_pause, show_selected_url,
}
use tlscope_rs.Tui.Keys.{
  char, enter, esc, home, end, up, down, tab, back_tab, page_up, page_down, KeyEvent, Session, View,
  Outside, Outcome, stay, with_state, begin_filter_edit, clear_session, export_current_session,
}

-- Back to the list, the message gone.
abbrev to_list : TuiState → TuiState
to_list s = record s { screen = list; message = [] }

unfoldable pub inspect : TuiState → List TrafficEntry → TuiState
inspect s entries =
    if is_empty entries
    then unavailable s (text "No captured request to inspect yet.")
    else record s {
      selected = min s.selected (length entries - 1);
      screen = details;
      detail_scroll_offset = 0;
      message = [];
    }

abbrev reapplied : TuiState → TuiState
reapplied s = record s { message = text "filter reapplied" }

unfoldable pub details_refused : TuiState → TuiState
details_refused s =
    unavailable s (text "Details: Up/Down scroll, PgUp/PgDn page, Home/End jump, Esc list.")

unfoldable pub turn_tab : TuiState → Bool → TuiState
turn_tab s back =
    let turned = if back then DetailTab.previous s.tab else DetailTab.next s.tab in
    record s {
      tab = turned;
      detail_scroll_offset = 0;
      message = text "tab: " ++ DetailTab.title turned;
    }

unfoldable pub handle_help_key : KeyEvent → TuiState → TuiState
handle_help_key key s = elim key.code [
  | esc ↦ to_list s
  | _ ↦ unavailable s (text "Help: Esc back, l logs, q quit.")
]

unfoldable pub logs_refused : TuiState → TuiState
logs_refused s =
    unavailable s (text "Log mode: Up/Down scroll, Tab page, y copy logs, Esc or l back.")

unfoldable pub oldest_logs : TuiState → ℕ → TuiState
oldest_logs s log_count =
    if log_count == 0 then unavailable s (LogTab.empty_message s.log_tab) else record s {
      log_scroll_offset = log_count - 1;
      message = text "oldest " ++ LogTab.label s.log_tab ++ text " logs";
    }

unfoldable pub following_logs : TuiState → TuiState
following_logs s = record s {
  log_scroll_offset = 0;
  message = text "following " ++ LogTab.label s.log_tab ++ text " logs";
}

module _ (o : Outside) (redaction : RedactionConfig) where
  -- The letters of the list, with `j` and `k` for the arrows.

  unfoldable pub list_char : ℕ → Session → List TrafficEntry → Outcome
  list_char c s entries =
      if c == b'j'
      then with_state s (select_next_request s.state entries 1)
      else if c == b'k'
      then with_state s (select_previous_request s.state entries 1)
      else if c == b'/'
      then with_state s (begin_filter_edit s.state s.store.filter_index)
      else if c == b' '
      then with_state s (toggle_pause s.state)
      else if c == b'c'
      then stay (clear_session s)
      else if c == b'e'
      then export_current_session o redaction s
      else if c == b'r'
      then with_state s (reapplied s.state)
      else if c == b'y'
      then with_state s (show_selected_url s.state entries)
      else with_state s
          (unavailable s.state (text "This key is not available here. Press ? for help."))

  unfoldable pub handle_list_key : KeyEvent → Session → List TrafficEntry → Outcome
  unfolding list_char
  handle_list_key key s entries = elim key.code [
    | char c ↦ list_char c s entries
    | down ↦ with_state s (select_next_request s.state entries 1)
    | up ↦ with_state s (select_previous_request s.state entries 1)
    | page_down ↦ with_state s (select_next_request s.state entries 10)
    | page_up ↦ with_state s (select_previous_request s.state entries 10)
    | home ↦ with_state s (select_first_request s.state entries)
    | end ↦ with_state s (select_last_request s.state entries)
    | enter ↦ with_state s (inspect s.state entries)
    | esc ↦
        with_state s (unavailable s.state (text "Already on the request list. Press q to quit."))
    | tab ↦ with_state s (
        unavailable s.state (text "Tabs are available only in request details. Press Enter first."))
    | back_tab ↦ with_state s (
        unavailable s.state (text "Tabs are available only in request details. Press Enter first."))
    | _ ↦
        with_state s
          (unavailable s.state (text "This key is not available here. Press ? for help."))
  ]

  unfoldable pub detail_char : ℕ → Session → List TrafficEntry → Outcome
  detail_char c s entries =
      if c == b'j'
      then with_state s (scroll_details_down o.detail_text s.state entries 1)
      else if c == b'k'
      then with_state s (scroll_details_up s.state 1)
      else if c == b'/'
      then with_state s (begin_filter_edit s.state s.store.filter_index)
      else if c == b' '
      then with_state s (toggle_pause s.state)
      else if c == b'c'
      then stay (clear_session s)
      else if c == b'e'
      then export_current_session o redaction s
      else if c == b'r'
      then with_state s (reapplied s.state)
      else if c == b'y'
      then with_state s (show_selected_url s.state entries)
      else with_state s (details_refused s.state)

  unfoldable pub handle_detail_key : KeyEvent → Session → List TrafficEntry → Outcome
  unfolding detail_char
  handle_detail_key key s entries = elim key.code [
    | char c ↦ detail_char c s entries
    | down ↦ with_state s (scroll_details_down o.detail_text s.state entries 1)
    | up ↦ with_state s (scroll_details_up s.state 1)
    | page_down ↦ with_state s (scroll_details_down o.detail_text s.state entries 10)
    | page_up ↦ with_state s (scroll_details_up s.state 10)
    | home ↦
        with_state s
          (record (s.state) { detail_scroll_offset = 0; message = text "top of details" })
    | end ↦ with_state s (record (s.state) {
      detail_scroll_offset = detail_scroll_limit o.detail_text s.state entries;
      message = text "bottom of details";
    })
    | esc ↦ with_state s (to_list s.state)
    | tab ↦ with_state s (turn_tab s.state key.shift)
    | back_tab ↦ with_state s (turn_tab s.state true)
    | _ ↦ with_state s (details_refused s.state)
  ]

  unfoldable pub log_char : ℕ → Session → View → ℕ → Outcome
  log_char c s v log_count =
      if c == b'k'
      then with_state s (scroll_logs_older s.state log_count 1)
      else if c == b'j'
      then with_state s (scroll_logs_newer s.state 1)
      else if c == b' '
      then with_state s (toggle_pause s.state)
      else if c == b'c'
      then stay (clear_session s)
      else if c == b'e'
      then export_current_session o redaction s
      else if c == b'y'
      then with_state s (copy_current_logs s.state v.process_logs v.tlscope_logs)
      else with_state s (logs_refused s.state)

  unfoldable pub handle_log_key : KeyEvent → Session → View → Outcome
  unfolding log_char
  handle_log_key key s v =
      let log_count = current_log_count s.state v.process_logs v.tlscope_logs in
      elim key.code [
        | char c ↦ log_char c s v log_count
        | up ↦ with_state s (scroll_logs_older s.state log_count 1)
        | down ↦ with_state s (scroll_logs_newer s.state 1)
        | page_up ↦ with_state s (scroll_logs_older s.state log_count 10)
        | page_down ↦ with_state s (scroll_logs_newer s.state 10)
        | home ↦ with_state s (oldest_logs s.state log_count)
        | end ↦ with_state s (following_logs s.state)
        | tab ↦ with_state s (switch_log_tab s.state key.shift)
        | back_tab ↦ with_state s (switch_log_tab s.state true)
        | esc ↦ with_state s (to_list s.state)
        | _ ↦ with_state s (logs_refused s.state)
      ]
