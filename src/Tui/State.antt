-- ===== src/Tui/State.antt =====
-- src/tui/state.rs: what the terminal interface shows and where it stands in it.
use tlscope_rs.Base.{ℕ, Bool, false, [], Option, none}
use tlscope_rs.Text.{Text}
use tlscope_rs.Capture.Filter.{TrafficFilter}
use tlscope_rs.Tui.LogTab.{LogTab, process}
use tlscope_rs.Tui.DetailTab.{DetailTab, overview}
use tlscope_rs.Tui.Editor.{FilterEditorState, default_editor}

pub data TuiExit : Type 0 where
  quit terminate_child leave_child_running : TuiExit

pub data Screen : Type 0 where
  list details logs help : Screen

pub record ClipboardRequest : Type 0 where
  pub name : Text
  pub content : Text

pub record TuiState : Type 0 where
  pub selected : ℕ
  pub paused : Bool
  pub screen : Screen
  pub tab : DetailTab
  pub applied_filter_text : Text
  pub applied_filter : TrafficFilter
  pub filter_editor : FilterEditorState
  pub entering_filter : Bool
  pub message : Text
  pub confirm_quit : Bool
  pub log_tab : LogTab
  pub log_scroll_offset : ℕ
  pub detail_scroll_offset : ℕ
  pub clipboard_request : Option ClipboardRequest

unfoldable pub default_state : TuiState
unfolding default_editor
default_state = record {
  selected = 0;
  paused = false;
  screen = list;
  tab = overview;
  applied_filter_text = [];
  applied_filter = record { conditions = [] };
  filter_editor = default_editor;
  entering_filter = false;
  message = [];
  confirm_quit = false;
  log_tab = process;
  log_scroll_offset = 0;
  detail_scroll_offset = 0;
  clipboard_request = none;
}
