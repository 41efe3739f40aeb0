-- ===== src/Tui/Scroll.antt =====
-- src/tui/events.rs: moving the selection and the scroll offsets. The text of a details tab is the
-- argument `detail_text`: src/capture/details.rs writes it.
pub mod Filter
pub mod Bounds
use tlscope_rs.Base.{
  ℕ, zero, suc, ◌+◌, ◌-◌, ◌/◌, min, max, Bool, true, false, not, List, [], ◌∷◌, ◌++◌, Option, none,
  some, ltb, leb, ◌==◌, if◌then◌else◌, length, get_elem?, is_empty, saturating_add,
}
use tlscope_rs.Text.{Text, text, lines}
use tlscope_rs.Capture.Entry.{TrafficEntry, url}
use tlscope_rs.Logs.Child.{ChildLogSnapshot}
use tlscope_rs.Logs.Child
use tlscope_rs.Logs.Diagnostics.{TlscopeLogSnapshot}
use tlscope_rs.Logs.Diagnostics
use tlscope_rs.Tui.LogTab.{process, tlscope}
use tlscope_rs.Tui.LogTab
use tlscope_rs.Tui.DetailTab.{DetailTab}
use tlscope_rs.Tui.State.{TuiState, ClipboardRequest}

unfoldable pub unavailable : TuiState → Text → TuiState
unavailable s message = record s { message = message }

no_request : Text
unfolding text
no_request = text "No captured request to select yet."

-- `entries.len().checked_sub(1)`.
abbrev pub last_index {ℓ} : {A : Type ℓ} → List A → Option ℕ
last_index [] = none
last_index (x ∷ xs) = some (length xs)

unfoldable pub select_next_request : TuiState → List TrafficEntry → ℕ → TuiState
unfolding unavailable no_request
select_next_request s entries amount = elim (last_index entries) [
  | none ↦ unavailable s no_request
  | some last ↦
      if min s.selected last == last
      then unavailable (record s { selected = min s.selected last })
          (text "Already at the last request.")
      else record s {
        selected = min (saturating_add (min s.selected last) amount) last;
        detail_scroll_offset = 0;
        message = [];
      }
]

unfoldable pub select_previous_request : TuiState → List TrafficEntry → ℕ → TuiState
unfolding unavailable no_request
select_previous_request s entries amount =
    let selected = min s.selected (length entries - 1) in
    if is_empty entries
    then unavailable s no_request
    else if selected == 0
    then unavailable (record s { selected = selected }) (text "Already at the first request.")
    else record s { selected = selected - amount; detail_scroll_offset = 0; message = [] }

unfoldable pub select_first_request : TuiState → List TrafficEntry → TuiState
unfolding unavailable no_request
select_first_request s entries =
    if is_empty entries
    then unavailable s no_request
    else record s { selected = 0; detail_scroll_offset = 0; message = text "first request" }

unfoldable pub select_last_request : TuiState → List TrafficEntry → TuiState
unfolding unavailable no_request
select_last_request s entries = elim (last_index entries) [
  | none ↦ unavailable s no_request
  | some last ↦ record s {
    selected = last;
    detail_scroll_offset = 0;
    message = text "last request";
  }
]

unfoldable pub selected_entry : TuiState → List TrafficEntry → Option TrafficEntry
selected_entry s entries = get_elem? entries (min s.selected (length entries - 1))

-- Lines of at most forty columns, an empty line counting as one.
visual_lines : List Text → ℕ
visual_lines [] = 0
visual_lines (l ∷ ls) = (max (length l) 1 + 39) / 40 + visual_lines ls

unfoldable pub estimated_visual_lines : Text → ℕ
unfolding visual_lines lines
estimated_visual_lines s = max (visual_lines (lines s)) 1

module _ (detail_text : DetailTab → TrafficEntry → Text) where
  unfoldable pub detail_scroll_limit : TuiState → List TrafficEntry → ℕ
  unfolding selected_entry estimated_visual_lines
  detail_scroll_limit s entries = elim (selected_entry s entries) [
    | none ↦ 0
    | some entry ↦ estimated_visual_lines (detail_text s.tab entry) - 1
  ]

  unfoldable pub scroll_details_down : TuiState → List TrafficEntry → ℕ → TuiState
  unfolding unavailable
  scroll_details_down s entries amount =
      let max_scroll = detail_scroll_limit s entries in
      if max_scroll == 0
      then unavailable s (text "Current detail tab fits on screen.")
      else if leb max_scroll s.detail_scroll_offset
      then unavailable s (text "Already at the bottom of details.")
      else record s {
        detail_scroll_offset = min (saturating_add s.detail_scroll_offset amount) max_scroll;
        message = text "details down";
      }

unfoldable pub scroll_details_up : TuiState → ℕ → TuiState
unfolding unavailable
scroll_details_up s amount =
    let offset = s.detail_scroll_offset - amount in
    if s.detail_scroll_offset == 0
    then unavailable s (text "Already at the top of details.")
    else record s {
      detail_scroll_offset = offset;
      message = if offset == 0 then text "top of details" else text "details up";
    }

unfoldable pub current_log_count : TuiState → ChildLogSnapshot → TlscopeLogSnapshot → ℕ
current_log_count s process_logs tlscope_logs = elim s.log_tab [
  | process ↦ length process_logs.lines
  | tlscope ↦ length tlscope_logs.lines
]

unfoldable pub switch_log_tab : TuiState → Bool → TuiState
switch_log_tab s previous =
    let tab = if previous then LogTab.previous s.log_tab else LogTab.next s.log_tab in
    record s { log_tab = tab; log_scroll_offset = 0; message = LogTab.label tab ++ text " logs" }

unfoldable pub copy_current_logs : TuiState → ChildLogSnapshot → TlscopeLogSnapshot → TuiState
unfolding unavailable
copy_current_logs s process_logs tlscope_logs =
    let content : Text = elim s.log_tab [
      | process ↦ Child.clipboard_text process_logs
      | tlscope ↦ Diagnostics.clipboard_text tlscope_logs
    ] in
    if is_empty content then unavailable s (LogTab.empty_message s.log_tab) else record s {
      clipboard_request = some (record { name = LogTab.label s.log_tab; content = content });
    }

unfoldable pub scroll_logs_older : TuiState → ℕ → ℕ → TuiState
unfolding unavailable
scroll_logs_older s log_count amount =
    if log_count == 0
    then unavailable s (LogTab.empty_message s.log_tab)
    else if leb (log_count - 1) s.log_scroll_offset
    then unavailable s (text "Already at the oldest log line.")
    else record s {
      log_scroll_offset = min (saturating_add s.log_scroll_offset amount) (log_count - 1);
      message = text "older " ++ LogTab.label s.log_tab ++ text " logs";
    }

unfoldable pub scroll_logs_newer : TuiState → ℕ → TuiState
unfolding unavailable
scroll_logs_newer s amount =
    let offset = s.log_scroll_offset - amount in
    if s.log_scroll_offset == 0
    then unavailable s (text "Already following the latest log line.")
    else record s {
      log_scroll_offset = offset;
      message =
          (if offset == 0 then text "following " else text "newer ")
          ++ LogTab.label s.log_tab
          ++ text " logs";
    }

unfoldable pub toggle_pause : TuiState → TuiState
toggle_pause s = record s {
  paused = not s.paused;
  message = if s.paused then text "live" else text "paused";
}

unfoldable pub show_selected_url : TuiState → List TrafficEntry → TuiState
unfolding unavailable selected_entry
show_selected_url s entries = elim (selected_entry s entries) [
  | none ↦ unavailable s (text "No selected request.")
  | some entry ↦ record s { message = text "selected URL: " ++ url entry }
]
