-- ===== src/Tui/Screens/Letters.antt =====
-- The letters of each screen keep the interface consistent.
use tlscope_rs.Base.{ℕ, ◌≡◌, ◌≢◌, refl, ◌⊎◌, inl, inr, ok, List, some, if_both, option_both}
use tlscope_rs.Text.{Text, text}
use tlscope_rs.Capture.Entry.{TrafficEntry}
use tlscope_rs.Capture.Redact.{RedactionConfig}
use tlscope_rs.Capture.Store
use tlscope_rs.Tui.State.{TuiState, TuiExit}
use tlscope_rs.Tui.Scroll.Filter.{
  SameFilter, select_next_request-SameFilter, select_previous_request-SameFilter,
  scroll_details_down-SameFilter, scroll_details_up-SameFilter, copy_current_logs-SameFilter,
  scroll_logs_older-SameFilter, scroll_logs_newer-SameFilter, toggle_pause-SameFilter,
  show_selected_url-SameFilter,
}
use tlscope_rs.Tui.Scroll.{
  unavailable, select_next_request, select_previous_request, scroll_details_down, scroll_details_up,
  copy_current_logs, scroll_logs_older, scroll_logs_newer, toggle_pause, show_selected_url,
}
use tlscope_rs.Tui.Keys.{
  Session, View, Outside, Outcome, stay, with_state, begin_filter_edit, clear_session,
  export_current_session,
}
use tlscope_rs.Tui.Screens.{list_char, details_refused, detail_char, logs_refused, log_char}
use tlscope_rs.Tui.Consistent.{
  IsConsistent, SameFilter-IsConsistent, begin_filter_edit-IsConsistent,
}

-- The outcome of a key in the session `s` leaves a consistent state, and the store as it is or
-- empty, and does not end the interface.
unfoldable pub IsGood : Session → Outcome → Type 0
IsGood s o =
    IsConsistent o.session.state
    × ((o.session.store ≡ s.store) ⊎ (o.session.store ≡ Store.clear s.store))
    × ((x : TuiExit) → o.result ≢ ok (some x))

module _ (s : Session) (c : IsConsistent s.state) where
  -- A state with the same filter.
  pub moved : (t : TuiState) → SameFilter s.state t → IsGood s (with_state s t)
  unfolding IsGood
  moved t h = (SameFilter-IsConsistent s.state t c h, inl refl, λ x e. cc)

  -- Another message alone.
  pub said : (m : Text) → IsGood s (with_state s (record (s.state) { message = m }))
  unfolding IsGood
  said m = (c, inl refl, λ x e. cc)

  pub begin-IsGood : IsGood s (with_state s (begin_filter_edit s.state s.store.filter_index))
  unfolding IsGood
  begin-IsGood =
      (begin_filter_edit-IsConsistent s.state s.store.filter_index c, inl refl, λ x e. cc)

  pub clear_session-IsGood : IsGood s (stay (clear_session s))
  unfolding IsGood clear_session
  clear_session-IsGood = (c, inr refl, λ x e. cc)

  module _ (o : Outside) (redaction : RedactionConfig) where
    pub export-IsGood : IsGood s (export_current_session o redaction s)
    unfolding IsGood export_current_session
    export-IsGood =
        option_both (IsGood s) (o.export_session_json s.store.entries redaction)
          (c, inl refl, λ x e. cc) (λ e. (c, inl refl, λ x e. cc))

    pub list_char-IsGood :
        (k : ℕ) (entries : List TrafficEntry) → IsGood s (list_char o redaction k s entries)
    unfolding list_char unavailable
    list_char-IsGood k entries =
        if_both (IsGood s) _
          (moved (select_next_request s.state entries 1)
            (select_next_request-SameFilter s.state entries 1))
          (if_both (IsGood s) _
            (moved (select_previous_request s.state entries 1)
              (select_previous_request-SameFilter s.state entries 1))
            (if_both (IsGood s) _ begin-IsGood (
              if_both (IsGood s) _ (moved (toggle_pause s.state) (toggle_pause-SameFilter s.state))
                (if_both (IsGood s) _ clear_session-IsGood (
                  if_both (IsGood s) _ export-IsGood (
                    if_both (IsGood s) _ (said (text "filter reapplied")) (
                      if_both (IsGood s) _
                        (moved (show_selected_url s.state entries)
                          (show_selected_url-SameFilter s.state entries))
                        (said (text "This key is not available here. Press ? for help.")))))))))

    pub detail_char-IsGood :
        (k : ℕ) (entries : List TrafficEntry) → IsGood s (detail_char o redaction k s entries)
    unfolding detail_char details_refused unavailable
    detail_char-IsGood k entries =
        if_both (IsGood s) _
          (moved (scroll_details_down o.detail_text s.state entries 1)
            (scroll_details_down-SameFilter s.state o.detail_text entries 1))
          (if_both (IsGood s) _
            (moved (scroll_details_up s.state 1) (scroll_details_up-SameFilter s.state 1))
            (if_both (IsGood s) _ begin-IsGood (
              if_both (IsGood s) _ (moved (toggle_pause s.state) (toggle_pause-SameFilter s.state))
                (if_both (IsGood s) _ clear_session-IsGood (
                  if_both (IsGood s) _ export-IsGood (
                    if_both (IsGood s) _ (said (text "filter reapplied")) (
                      if_both (IsGood s) _
                        (moved (show_selected_url s.state entries)
                          (show_selected_url-SameFilter s.state entries))
                        (said (
                          text
                            "Details: Up/Down scroll, PgUp/PgDn page, Home/End jump, Esc list.")))))))))

    pub log_char-IsGood :
        (k : ℕ) (v : View) (count : ℕ) → IsGood s (log_char o redaction k s v count)
    unfolding log_char logs_refused unavailable
    log_char-IsGood k v count =
        if_both (IsGood s) _
          (moved (scroll_logs_older s.state count 1) (scroll_logs_older-SameFilter s.state count 1))
          (if_both (IsGood s) _
            (moved (scroll_logs_newer s.state 1) (scroll_logs_newer-SameFilter s.state 1))
            (if_both (IsGood s) _ (moved (toggle_pause s.state) (toggle_pause-SameFilter s.state)) (
              if_both (IsGood s) _ clear_session-IsGood (
                if_both (IsGood s) _ export-IsGood (
                  if_both (IsGood s) _
                    (moved (copy_current_logs s.state v.process_logs v.tlscope_logs)
                      (copy_current_logs-SameFilter s.state v.process_logs v.tlscope_logs))
                    (said
                      (text "Log mode: Up/Down scroll, Tab page, y copy logs, Esc or l back.")))))))
