-- ===== src/Tui/Screens/Consistent.antt =====
-- The keys of each screen keep the interface consistent.
use tlscope_rs.Base.{ℕ, refl, inl, Bool, true, List, [], ◌∷◌, arith}
use tlscope_rs.Text.{text}
use tlscope_rs.Capture.Entry.{TrafficEntry}
use tlscope_rs.Capture.Redact.{RedactionConfig}
use tlscope_rs.Tui.State.{TuiState}
use tlscope_rs.Tui.Scroll.Filter.{
  SameFilter, select_next_request-SameFilter, select_previous_request-SameFilter,
  select_first_request-SameFilter, select_last_request-SameFilter, scroll_details_down-SameFilter,
  scroll_details_up-SameFilter, switch_log_tab-SameFilter, scroll_logs_older-SameFilter,
  scroll_logs_newer-SameFilter,
}
use tlscope_rs.Tui.Scroll.{
  unavailable, select_next_request, select_previous_request, select_first_request,
  select_last_request, scroll_details_down, scroll_details_up, switch_log_tab, scroll_logs_older,
  scroll_logs_newer,
}
use tlscope_rs.Tui.Keys.{
  KeyCode, char, enter, esc, backspace, delete, left, right, home, end, up, down, tab, back_tab,
  page_up, page_down, other, KeyEvent, Session, View, Outside, with_state,
}
use tlscope_rs.Tui.Screens.{
  inspect, handle_list_key, details_refused, turn_tab, handle_detail_key, handle_help_key,
  logs_refused, oldest_logs, following_logs, handle_log_key,
}
use tlscope_rs.Tui.Screens.Letters.{
  IsGood, moved, said, list_char-IsGood, detail_char-IsGood, log_char-IsGood,
}
use tlscope_rs.Tui.Consistent.{IsConsistent}

inspect-SameFilter : (s : TuiState) (entries : List TrafficEntry) → SameFilter s (inspect s entries)
unfolding inspect unavailable
inspect-SameFilter s [] = (refl, refl, refl, refl, refl)
inspect-SameFilter s (e ∷ es) = (refl, refl, refl, refl, refl)

oldest_logs-SameFilter : (s : TuiState) (n : ℕ) → SameFilter s (oldest_logs s n)
unfolding oldest_logs unavailable
oldest_logs-SameFilter s n = ground arith

module _ (o : Outside) (redaction : RedactionConfig) (s : Session) (c : IsConsistent s.state) where
  list_key :
      (k : KeyCode) (control shift : Bool) (entries : List TrafficEntry)
      → IsGood s (
          handle_list_key o redaction
            (record { code = k; control = control; shift = shift })
            s
            entries)
  unfolding handle_list_key unavailable
  list_key (char x) a b entries = list_char-IsGood s c o redaction x entries
  list_key down a b entries =
      moved s c (select_next_request s.state entries 1)
        (select_next_request-SameFilter s.state entries 1)
  list_key up a b entries =
      moved s c (select_previous_request s.state entries 1)
        (select_previous_request-SameFilter s.state entries 1)
  list_key page_down a b entries =
      moved s c (select_next_request s.state entries 10)
        (select_next_request-SameFilter s.state entries 10)
  list_key page_up a b entries =
      moved s c (select_previous_request s.state entries 10)
        (select_previous_request-SameFilter s.state entries 10)
  list_key home a b entries =
      moved s c (select_first_request s.state entries)
        (select_first_request-SameFilter s.state entries)
  list_key end a b entries =
      moved s c (select_last_request s.state entries)
        (select_last_request-SameFilter s.state entries)
  list_key enter a b entries =
      moved s c (inspect s.state entries) (inspect-SameFilter s.state entries)
  list_key esc a b entries = said s c (text "Already on the request list. Press q to quit.")
  list_key tab a b entries =
      said s c (text "Tabs are available only in request details. Press Enter first.")
  list_key back_tab a b entries =
      said s c (text "Tabs are available only in request details. Press Enter first.")
  list_key backspace a b entries =
      said s c (text "This key is not available here. Press ? for help.")
  list_key delete a b entries = said s c (text "This key is not available here. Press ? for help.")
  list_key left a b entries = said s c (text "This key is not available here. Press ? for help.")
  list_key right a b entries = said s c (text "This key is not available here. Press ? for help.")
  list_key other a b entries = said s c (text "This key is not available here. Press ? for help.")

  detail_key :
      (k : KeyCode) (control shift : Bool) (entries : List TrafficEntry)
      → IsGood s (
          handle_detail_key o redaction
            (record { code = k; control = control; shift = shift })
            s
            entries)
  unfolding handle_detail_key details_refused unavailable IsGood turn_tab
  detail_key (char x) a b entries = detail_char-IsGood s c o redaction x entries
  detail_key down a b entries =
      moved s c (scroll_details_down o.detail_text s.state entries 1)
        (scroll_details_down-SameFilter s.state o.detail_text entries 1)
  detail_key up a b entries =
      moved s c (scroll_details_up s.state 1) (scroll_details_up-SameFilter s.state 1)
  detail_key page_down a b entries =
      moved s c (scroll_details_down o.detail_text s.state entries 10)
        (scroll_details_down-SameFilter s.state o.detail_text entries 10)
  detail_key page_up a b entries =
      moved s c (scroll_details_up s.state 10) (scroll_details_up-SameFilter s.state 10)
  detail_key home a b entries = (c, inl refl, λ x e. cc)
  detail_key end a b entries = (c, inl refl, λ x e. cc)
  detail_key esc a b entries = (c, inl refl, λ x e. cc)
  detail_key tab a b entries = (c, inl refl, λ x e. cc)
  detail_key back_tab a b entries = (c, inl refl, λ x e. cc)
  detail_key enter a b entries = (c, inl refl, λ x e. cc)
  detail_key backspace a b entries = (c, inl refl, λ x e. cc)
  detail_key delete a b entries = (c, inl refl, λ x e. cc)
  detail_key left a b entries = (c, inl refl, λ x e. cc)
  detail_key right a b entries = (c, inl refl, λ x e. cc)
  detail_key other a b entries = (c, inl refl, λ x e. cc)

  log_key :
      (k : KeyCode) (control shift : Bool) (v : View)
      → IsGood s
          (handle_log_key o redaction (record { code = k; control = control; shift = shift }) s v)
  unfolding handle_log_key logs_refused unavailable IsGood following_logs
  log_key (char x) a b v = log_char-IsGood s c o redaction x v _
  log_key up a b v =
      moved s c (scroll_logs_older s.state _ 1) (scroll_logs_older-SameFilter s.state _ 1)
  log_key down a b v =
      moved s c (scroll_logs_newer s.state 1) (scroll_logs_newer-SameFilter s.state 1)
  log_key page_up a b v =
      moved s c (scroll_logs_older s.state _ 10) (scroll_logs_older-SameFilter s.state _ 10)
  log_key page_down a b v =
      moved s c (scroll_logs_newer s.state 10) (scroll_logs_newer-SameFilter s.state 10)
  log_key home a b v = moved s c (oldest_logs s.state _) (oldest_logs-SameFilter s.state _)
  log_key tab a b v = moved s c (switch_log_tab s.state b) (switch_log_tab-SameFilter s.state b)
  log_key back_tab a b v =
      moved s c (switch_log_tab s.state true) (switch_log_tab-SameFilter s.state true)
  log_key end a b v = (c, inl refl, λ x e. cc)
  log_key esc a b v = (c, inl refl, λ x e. cc)
  log_key enter a b v = (c, inl refl, λ x e. cc)
  log_key backspace a b v = (c, inl refl, λ x e. cc)
  log_key delete a b v = (c, inl refl, λ x e. cc)
  log_key left a b v = (c, inl refl, λ x e. cc)
  log_key right a b v = (c, inl refl, λ x e. cc)
  log_key other a b v = (c, inl refl, λ x e. cc)

  pub handle_list_key-IsGood :
      (key : KeyEvent) (entries : List TrafficEntry)
      → IsGood s (handle_list_key o redaction key s entries)
  handle_list_key-IsGood key entries = list_key key.code key.control key.shift entries

  pub handle_detail_key-IsGood :
      (key : KeyEvent) (entries : List TrafficEntry)
      → IsGood s (handle_detail_key o redaction key s entries)
  handle_detail_key-IsGood key entries = detail_key key.code key.control key.shift entries

  pub handle_log_key-IsGood :
      (key : KeyEvent) (v : View) → IsGood s (handle_log_key o redaction key s v)
  handle_log_key-IsGood key v = log_key key.code key.control key.shift v

  help_key :
      (k : KeyCode) (control shift : Bool)
      → IsGood s (
          with_state s
            (handle_help_key (record { code = k; control = control; shift = shift }) s.state))
  unfolding IsGood handle_help_key unavailable
  help_key (char k) a b = (c, inl refl, λ x e. cc)
  help_key home a b = (c, inl refl, λ x e. cc)
  help_key end a b = (c, inl refl, λ x e. cc)
  help_key esc a b = (c, inl refl, λ x e. cc)
  help_key tab a b = (c, inl refl, λ x e. cc)
  help_key back_tab a b = (c, inl refl, λ x e. cc)
  help_key enter a b = (c, inl refl, λ x e. cc)
  help_key backspace a b = (c, inl refl, λ x e. cc)
  help_key delete a b = (c, inl refl, λ x e. cc)
  help_key left a b = (c, inl refl, λ x e. cc)
  help_key right a b = (c, inl refl, λ x e. cc)
  help_key up a b = (c, inl refl, λ x e. cc)
  help_key down a b = (c, inl refl, λ x e. cc)
  help_key page_up a b = (c, inl refl, λ x e. cc)
  help_key page_down a b = (c, inl refl, λ x e. cc)
  help_key other a b = (c, inl refl, λ x e. cc)

  pub handle_help_key-IsGood :
      (key : KeyEvent) → IsGood s (with_state s (handle_help_key key s.state))
  handle_help_key-IsGood key = help_key key.code key.control key.shift
