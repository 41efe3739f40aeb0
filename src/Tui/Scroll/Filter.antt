-- ===== src/Tui/Scroll/Filter.antt =====
-- Moving through requests, details and logs leaves the filter alone.
use tlscope_rs.Base.{ℕ, ◌≡◌, refl, Bool, List, [], ◌∷◌, arith, if_both, option_both}
use tlscope_rs.Text.{Text}
use tlscope_rs.Capture.Entry.{TrafficEntry}
use tlscope_rs.Logs.Child.{ChildLogSnapshot}
use tlscope_rs.Logs.Diagnostics.{TlscopeLogSnapshot}
use tlscope_rs.Tui.DetailTab.{DetailTab}
use tlscope_rs.Tui.State.{TuiState}
use tlscope_rs.Tui.Scroll.{
  unavailable, select_next_request, select_previous_request, select_first_request,
  select_last_request, scroll_details_down, scroll_details_up, switch_log_tab, copy_current_logs,
  scroll_logs_older, scroll_logs_newer, toggle_pause, show_selected_url,
}

-- The same editor, filter mode, applied filter and quit prompt.
abbrev pub SameFilter : TuiState → TuiState → Type 0
SameFilter s t =
    (t.filter_editor ≡ s.filter_editor)
    × (t.entering_filter ≡ s.entering_filter)
    × (t.applied_filter_text ≡ s.applied_filter_text)
    × (t.applied_filter ≡ s.applied_filter)
    × (t.confirm_quit ≡ s.confirm_quit)

module _ (s : TuiState) where
  abbrev same : SameFilter s s
  same = (refl, refl, refl, refl, refl)

  pub select_next_request-SameFilter :
      (entries : List TrafficEntry) (n : ℕ) → SameFilter s (select_next_request s entries n)
  unfolding select_next_request unavailable
  select_next_request-SameFilter [] n = same
  select_next_request-SameFilter (e ∷ es) n = if_both (SameFilter s) _ same same

  pub select_previous_request-SameFilter :
      (entries : List TrafficEntry) (n : ℕ) → SameFilter s (select_previous_request s entries n)
  unfolding select_previous_request unavailable
  select_previous_request-SameFilter [] n = same
  select_previous_request-SameFilter (e ∷ es) n = if_both (SameFilter s) _ same same

  pub select_first_request-SameFilter :
      (entries : List TrafficEntry) → SameFilter s (select_first_request s entries)
  unfolding select_first_request unavailable
  select_first_request-SameFilter [] = same
  select_first_request-SameFilter (e ∷ es) = same

  pub select_last_request-SameFilter :
      (entries : List TrafficEntry) → SameFilter s (select_last_request s entries)
  unfolding select_last_request unavailable
  select_last_request-SameFilter [] = same
  select_last_request-SameFilter (e ∷ es) = same

  pub scroll_details_down-SameFilter :
      (detail_text : DetailTab → TrafficEntry → Text) (entries : List TrafficEntry) (n : ℕ)
      → SameFilter s (scroll_details_down detail_text s entries n)
  unfolding scroll_details_down unavailable
  scroll_details_down-SameFilter detail_text entries n = ground arith

  pub scroll_details_up-SameFilter : (n : ℕ) → SameFilter s (scroll_details_up s n)
  unfolding scroll_details_up unavailable
  scroll_details_up-SameFilter n = if_both (SameFilter s) _ same same

  pub switch_log_tab-SameFilter : (b : Bool) → SameFilter s (switch_log_tab s b)
  unfolding switch_log_tab
  switch_log_tab-SameFilter b = same

  pub copy_current_logs-SameFilter :
      (p : ChildLogSnapshot) (t : TlscopeLogSnapshot) → SameFilter s (copy_current_logs s p t)
  unfolding copy_current_logs unavailable
  copy_current_logs-SameFilter p t = if_both (SameFilter s) _ same same

  pub scroll_logs_older-SameFilter : (c n : ℕ) → SameFilter s (scroll_logs_older s c n)
  unfolding scroll_logs_older unavailable
  scroll_logs_older-SameFilter c n = ground arith

  pub scroll_logs_newer-SameFilter : (n : ℕ) → SameFilter s (scroll_logs_newer s n)
  unfolding scroll_logs_newer unavailable
  scroll_logs_newer-SameFilter n = if_both (SameFilter s) _ same same

  pub toggle_pause-SameFilter : SameFilter s (toggle_pause s)
  unfolding toggle_pause
  toggle_pause-SameFilter = same

  pub show_selected_url-SameFilter :
      (entries : List TrafficEntry) → SameFilter s (show_selected_url s entries)
  unfolding show_selected_url unavailable
  show_selected_url-SameFilter entries = option_both (SameFilter s) _ same (λ e. same)
