-- ===== src/Tui/Dispatch.antt =====
-- `handle_key` of src/tui/events.rs: the prompts first, then the keys that act on every screen, then
-- the screen's own.
pub mod Invariant
use tlscope_rs.Base.{ℕ, true, [], ◌++◌, ◌==◌, if◌then◌else◌, ok}
use tlscope_rs.Text.{text}
use tlscope_rs.Capture.Redact.{RedactionConfig}
use tlscope_rs.Tui.LogTab
use tlscope_rs.Tui.State.{TuiState, list, details, logs, help}
use tlscope_rs.Tui.Keys.{
  char, KeyEvent, Session, View, Outside, Outcome, with_state, handle_quit_choice,
  handle_filter_key,
}
use tlscope_rs.Tui.Screens.{handle_list_key, handle_detail_key, handle_help_key, handle_log_key}

unfoldable pub toggle_logs : TuiState → TuiState
unfolding text
toggle_logs s = elim s.screen [
  | logs ↦ record s { screen = list; message = text "request list" }
  | _ ↦ record s {
    screen = logs;
    log_scroll_offset = 0;
    message = LogTab.label s.log_tab ++ text " logs";
  }
]

abbrev pub quit_choice : KeyEvent → Session → Outcome
unfolding handle_quit_choice
quit_choice key s = record {
  session = record s { state = (handle_quit_choice key.code s.state).0 };
  result = ok (handle_quit_choice key.code s.state).1;
}

module _ (o : Outside) (redaction : RedactionConfig) where
  unfoldable pub screen_key : KeyEvent → Session → View → Outcome
  unfolding handle_list_key handle_detail_key handle_help_key handle_log_key
  screen_key key s v = elim s.state.screen [
    | logs ↦ handle_log_key o redaction key s v
    | details ↦ handle_detail_key o redaction key s v.entries
    | help ↦ with_state s (handle_help_key key s.state)
    | list ↦ handle_list_key o redaction key s v.entries
  ]

  -- The keys that mean the same on every screen.
  unfoldable pub global_char : ℕ → KeyEvent → Session → View → Outcome
  unfolding toggle_logs screen_key
  global_char c key s v =
      if c == b'q'
      then with_state s (record (s.state) { confirm_quit = true })
      else if c == b'?'
      then with_state s (record (s.state) { screen = help; message = [] })
      else if c == b'l'
      then with_state s (toggle_logs s.state)
      else screen_key key s v

  unfoldable pub main_key : KeyEvent → Session → View → Outcome
  unfolding global_char screen_key
  main_key key s v = elim key.code [ char c ↦ global_char c key s v | _ ↦ screen_key key s v ]

  unfoldable pub handle_key : KeyEvent → Session → View → Outcome
  unfolding main_key handle_filter_key
  handle_key key s v =
      if s.state.confirm_quit
      then quit_choice key s
      else if s.state.entering_filter
      then with_state s (handle_filter_key key s.state s.store.filter_index)
      else main_key key s v
