-- ===== src/Tui/Dispatch/Invariant.antt =====
-- `handle_key` keeps the interface consistent, whatever the key and the screen.
use tlscope_rs.Base.{
  ℕ, ◌≡◌, refl, sym, subst, inl, ok-injective, ok, ◌⊎◌, arith, Bool, true, [], Option, some,
  if_both, if_under,
}
use tlscope_rs.Capture.Redact.{RedactionConfig}
use tlscope_rs.Capture.Store
use tlscope_rs.Tui.State.{
  TuiState, TuiExit, terminate_child, leave_child_running, Screen, list, details, logs, help,
}
use tlscope_rs.Tui.Scroll.Filter.{SameFilter}
use tlscope_rs.Tui.Scroll.{unavailable}
use tlscope_rs.Tui.Scroll.{unavailable}
use tlscope_rs.Tui.Keys.{
  KeyCode, char, enter, esc, backspace, delete, left, right, home, end, up, down, tab, back_tab,
  page_up, page_down, other, KeyEvent, Session, View, Outside, Outcome, with_state,
  handle_quit_choice, handle_filter_key,
}
use tlscope_rs.Tui.Dispatch.{
  toggle_logs, quit_choice, screen_key, global_char, main_key, handle_key,
}
use tlscope_rs.Tui.Screens.Letters.{IsGood, moved}
use tlscope_rs.Tui.Screens.Consistent.{
  handle_list_key-IsGood, handle_detail_key-IsGood, handle_log_key-IsGood, handle_help_key-IsGood,
}
use tlscope_rs.Tui.Editor.Invariant.{IsWellFormed}
use tlscope_rs.Tui.Consistent.{IsConsistent, handle_filter_key-IsConsistent}

-- What holds on each screen holds.
screen_each :
    (s : Session) (x : Screen) (a b c d : Outcome)
    → IsGood s a
    → IsGood s b
    → IsGood s c
    → IsGood s d
    → IsGood s (elim x [ logs ↦ a | details ↦ b | help ↦ c | list ↦ d ])
screen_each s list a b c d ha hb hc hd = hd
screen_each s details a b c d ha hb hc hd = hb
screen_each s logs a b c d ha hb hc hd = ha
screen_each s help a b c d ha hb hc hd = hc

toggle_logs-SameFilter : (s : TuiState) → SameFilter s (toggle_logs s)
unfolding toggle_logs
toggle_logs-SameFilter s = ground arith

-- The answers that end the interface.
abbrev pub IsAnswer : KeyCode → TuiExit → Type 0
IsAnswer k x =
    ((k ≡ char b'1') × (x ≡ terminate_child)) ⊎ ((k ≡ char b'2') × (x ≡ leave_child_running))

-- The prompt leaves the filter alone, and ends the interface for two answers only.
abbrev Answers : KeyCode → TuiState → TuiState × Option TuiExit → Type 0
Answers k s (t, r) =
    (t.filter_editor ≡ s.filter_editor)
    × (t.applied_filter_text ≡ s.applied_filter_text)
    × (t.applied_filter ≡ s.applied_filter)
    × ((x : TuiExit) → r ≡ some x → IsAnswer k x)

digit :
    (x : ℕ) (s : TuiState) (y : TuiExit)
    → (handle_quit_choice (char x) s).1 ≡ some y
    → IsAnswer (char x) y
unfolding handle_quit_choice
digit x s y e = ground arith

quit_choice-Answers : (k : KeyCode) (s : TuiState) → Answers k s (handle_quit_choice k s)
unfolding handle_quit_choice unavailable
quit_choice-Answers (char x) s = (ground arith, ground arith, ground arith, λ y e. digit x s y e)
quit_choice-Answers home s = (refl, refl, refl, λ y e. absurd (cc))
quit_choice-Answers end s = (refl, refl, refl, λ y e. absurd (cc))
quit_choice-Answers esc s = (refl, refl, refl, λ y e. absurd (cc))
quit_choice-Answers tab s = (refl, refl, refl, λ y e. absurd (cc))
quit_choice-Answers back_tab s = (refl, refl, refl, λ y e. absurd (cc))
quit_choice-Answers enter s = (refl, refl, refl, λ y e. absurd (cc))
quit_choice-Answers backspace s = (refl, refl, refl, λ y e. absurd (cc))
quit_choice-Answers delete s = (refl, refl, refl, λ y e. absurd (cc))
quit_choice-Answers left s = (refl, refl, refl, λ y e. absurd (cc))
quit_choice-Answers right s = (refl, refl, refl, λ y e. absurd (cc))
quit_choice-Answers up s = (refl, refl, refl, λ y e. absurd (cc))
quit_choice-Answers down s = (refl, refl, refl, λ y e. absurd (cc))
quit_choice-Answers page_up s = (refl, refl, refl, λ y e. absurd (cc))
quit_choice-Answers page_down s = (refl, refl, refl, λ y e. absurd (cc))
quit_choice-Answers other s = (refl, refl, refl, λ y e. absurd (cc))

module _ (o : Outside) (redaction : RedactionConfig) (s : Session) (c : IsConsistent s.state) where
  screen_key-IsGood : (key : KeyEvent) (v : View) → IsGood s (screen_key o redaction key s v)
  unfolding screen_key
  screen_key-IsGood key v =
      screen_each s s.state.screen _ _ _ _ (handle_log_key-IsGood o redaction s c key v)
        (handle_detail_key-IsGood o redaction s c key v.entries)
        (handle_help_key-IsGood o redaction s c key)
        (handle_list_key-IsGood o redaction s c key v.entries)

  on_screen :
      (k : KeyCode) (control shift : Bool) (v : View)
      → IsGood s
          (screen_key o redaction (record { code = k; control = control; shift = shift }) s v)
  on_screen k a b v = screen_key-IsGood (record { code = k; control = a; shift = b }) v

  prompt-IsGood : IsGood s (with_state s (record (s.state) { confirm_quit = true }))
  unfolding IsGood
  prompt-IsGood = (c, inl refl, λ x e. cc)

  help-IsGood : IsGood s (with_state s (record (s.state) { screen = help; message = [] }))
  unfolding IsGood
  help-IsGood = (c, inl refl, λ x e. cc)

  filter-IsGood :
      (key : KeyEvent)
      → IsGood s (with_state s (handle_filter_key key s.state s.store.filter_index))
  unfolding IsGood
  filter-IsGood key =
      (handle_filter_key-IsConsistent key s.state s.store.filter_index c, inl refl, λ x e. cc)

  global_char-IsGood :
      (x : ℕ) (key : KeyEvent) (v : View) → IsGood s (global_char o redaction x key s v)
  unfolding global_char
  global_char-IsGood x key v = if_both (IsGood s) _ prompt-IsGood (
      if_both (IsGood s) _ help-IsGood (
        if_both (IsGood s) _ (moved s c (toggle_logs s.state) (toggle_logs-SameFilter s.state))
          (screen_key-IsGood key v)))

  main_key-IsGood :
      (k : KeyCode) (control shift : Bool) (v : View)
      → IsGood s (main_key o redaction (record { code = k; control = control; shift = shift }) s v)
  unfolding main_key
  main_key-IsGood (char x) a b v =
      global_char-IsGood x (record { code = char x; control = a; shift = b }) v
  main_key-IsGood home a b v = on_screen home a b v
  main_key-IsGood end a b v = on_screen end a b v
  main_key-IsGood esc a b v = on_screen esc a b v
  main_key-IsGood tab a b v = on_screen tab a b v
  main_key-IsGood back_tab a b v = on_screen back_tab a b v
  main_key-IsGood enter a b v = on_screen enter a b v
  main_key-IsGood backspace a b v = on_screen backspace a b v
  main_key-IsGood delete a b v = on_screen delete a b v
  main_key-IsGood left a b v = on_screen left a b v
  main_key-IsGood right a b v = on_screen right a b v
  main_key-IsGood up a b v = on_screen up a b v
  main_key-IsGood down a b v = on_screen down a b v
  main_key-IsGood page_up a b v = on_screen page_up a b v
  main_key-IsGood page_down a b v = on_screen page_down a b v
  main_key-IsGood other a b v = on_screen other a b v

transport_filter :
    (s t : TuiState)
    → (t.filter_editor ≡ s.filter_editor)
      × (t.applied_filter_text ≡ s.applied_filter_text)
      × (t.applied_filter ≡ s.applied_filter)
    → IsConsistent s
    → IsConsistent t
transport_filter s t (a, b, f) (w, p) = (subst IsWellFormed (sym a) w, rw (b, f) p)

-- What a key does: it leaves a consistent state and the store as it is or empty, and ends the
-- interface only as an answer to the prompt.
unfoldable Handled : KeyEvent → Session → Outcome → Type 0
Handled key s o =
    IsConsistent o.session.state
    × ((o.session.store ≡ s.store) ⊎ (o.session.store ≡ Store.clear s.store))
    × ((x : TuiExit) → o.result ≡ ok (some x) → (s.state.confirm_quit ≡ true) × IsAnswer key.code x)

Handled-IsGood : (key : KeyEvent) (s : Session) (o : Outcome) → IsGood s o → Handled key s o
unfolding Handled IsGood
Handled-IsGood key s o (a, b, n) = (a, b, λ x e. absurd (n x e))

quit_choice-Handled :
    (key : KeyEvent) (s : Session)
    → IsConsistent s.state
    → s.state.confirm_quit ≡ true
    → Handled key s (quit_choice key s)
unfolding Handled quit_choice
quit_choice-Handled key s c h =
    let (a, b, f, n) = quit_choice-Answers key.code s.state in
    (
      transport_filter s.state (handle_quit_choice key.code s.state).0 (a, b, f) c,
      inl refl,
      λ x e. (h, n x (ok-injective (ok (handle_quit_choice key.code s.state).1) refl e)),
    )

handle_key-Handled :
    (o : Outside) (redaction : RedactionConfig) (key : KeyEvent) (s : Session) (v : View)
    → IsConsistent s.state
    → Handled key s (handle_key o redaction key s v)
unfolding handle_key
handle_key-Handled o redaction key s v c =
    if_under (Handled key s) s.state.confirm_quit (quit_choice-Handled key s c) (λ h.
      Handled-IsGood key s _ (
        if_both (IsGood s) s.state.entering_filter (filter-IsGood o redaction s c key)
          (main_key-IsGood o redaction s c key.code key.control key.shift v)))

pub handle_key_lem :
    (o : Outside) (redaction : RedactionConfig) (key : KeyEvent) (s : Session) (v : View)
    → IsConsistent s.state
    → IsConsistent (handle_key o redaction key s v).session.state
      × (((handle_key o redaction key s v).session.store ≡ s.store)
          ⊎ ((handle_key o redaction key s v).session.store ≡ Store.clear s.store))
      × ((x : TuiExit)
          → (handle_key o redaction key s v).result ≡ ok (some x)
          → (s.state.confirm_quit ≡ true) × IsAnswer key.code x)
unfolding Handled
handle_key_lem o redaction key s v c = handle_key-Handled o redaction key s v c
