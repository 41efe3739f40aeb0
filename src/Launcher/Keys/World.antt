-- ===== src/Launcher/Keys/World.antt =====
-- Which keys of the launcher change the files of the certificate authority or the trust of the system.
use tlscope_rs.Base.{
  ℕ, ◌≡◌, refl, sym, ap, ◌∙◌, subst, true, false, Option, none, some, ◌==◌, Bool-cases, inl, inr,
  if_both, get_elem?,
}
use tlscope_rs.Tui.Keys.{
  KeyCode, char, enter, esc, backspace, delete, left, right, home, end, up, down, tab, back_tab,
  page_up, page_down, other,
}
use tlscope_rs.Launcher.Field.{Field}
use tlscope_rs.Launcher.Form.{
  LauncherState, LaunchOption, LauncherScreen, form, launch_select, selected_field, forward,
  move_selection_vertical, move_selection_horizontal, backward,
}
use tlscope_rs.Launcher.System.{System}
use tlscope_rs.Launcher.Authority.{Turn, stay}
use tlscope_rs.Launcher.Keys.{
  handle_launcher_key, handle_screen_key, handle_ca_remove_confirmation, handle_form_key, cancel,
  handle_edit_key,
}
use tlscope_rs.Launcher.Activate.{activate, activate_field}
use tlscope_rs.Launcher.Select.{
  handle_launch_select_key, move_on, launch_option, launch_selected_option,
}
use tlscope_rs.Launcher.Run.{build_run_args}
use tlscope_rs.Launcher.Options.{
  move_launch_selection_vertical, move_launch_selection_horizontal, filtered_launch_indices,
}
use tlscope_rs.Launcher.Keys.Touches.{
  Activates, Touches, untouched, confirmation-Touches, activate-Touches, run_or_say-world,
}

module _ {W : Type 0} (system : System W) (w : W) (s : LauncherState) where
  say-world : (t : LauncherState) → (stay w t).world ≡ w
  say-world t = refl

  -- A turn, if there is one, leaves the world as it is.
  Idle : Option (Turn W) → Type 0
  Idle none = Unit
  Idle (some t) = t.world ≡ w

  move_on-Idle : (o : Option LauncherState) → Idle (move_on w o)
  unfolding Idle
  move_on-Idle none = tt
  move_on-Idle (some t) = refl

  launch_option-Idle : (o : Option LaunchOption) → Idle (launch_option system w s o)
  unfolding Idle launch_option
  launch_option-Idle none = tt
  launch_option-Idle (some o) =
      let t = record s { target = o.path } in
      run_or_say-world system w s t (build_run_args system w t)

  launch_selected_option-Idle : (o : Option ℕ) → Idle (launch_selected_option system w s o)
  unfolding Idle launch_selected_option
  launch_selected_option-Idle none = refl
  launch_selected_option-Idle (some index) = launch_option-Idle (get_elem? s.launch_options index)

  select-Idle : (key : KeyCode) → Idle (handle_launch_select_key system w s key)
  unfolding Idle handle_launch_select_key
  select-Idle down = move_on-Idle (move_launch_selection_vertical system.launch_formats s forward)
  select-Idle up = move_on-Idle (move_launch_selection_vertical system.launch_formats s backward)
  select-Idle right =
      move_on-Idle (move_launch_selection_horizontal system.launch_formats s forward)
  select-Idle left =
      move_on-Idle (move_launch_selection_horizontal system.launch_formats s backward)
  select-Idle enter =
      launch_selected_option-Idle (get_elem? (filtered_launch_indices s) s.launch_selected)
  select-Idle esc = refl
  select-Idle (char c) = refl
  select-Idle backspace = refl
  select-Idle delete = refl
  select-Idle home = refl
  select-Idle end = refl
  select-Idle tab = refl
  select-Idle back_tab = refl
  select-Idle page_up = refl
  select-Idle page_down = refl
  select-Idle other = refl

  Idle-Touches :
      (key : KeyCode) (o : Option (Turn W)) (t : Turn W)
      → Idle o
      → o ≡ some t
      → Touches system w s key t.world
  unfolding Idle
  Idle-Touches key none t i e = cc
  Idle-Touches key (some u) t i e =
      let same : u ≡ t = cc in
      subst (Touches system w s key) (sym i ∙ ap (λ (x : Turn W). x.world) same) untouched

  -- The turn that is taken is the one that was found.
  taken-Touches :
      (key : KeyCode) (u t : Turn W)
      → Touches system w s key u.world
      → some u ≡ some t
      → Touches system w s key t.world
  taken-Touches key u t h e =
      let same : u ≡ t = cc in subst (λ (x : Turn W). Touches system w s key x.world) same h

  letter-Idle : (c : ℕ) → Idle (handle_form_key system w s (char c))
  unfolding Idle handle_form_key
  letter-Idle c = if_both Idle (c == b'j') (move_on-Idle (move_selection_vertical s forward)) (
      if_both Idle (c == b'k') (move_on-Idle (move_selection_vertical s backward)) (
        if_both Idle (c == b'l') (move_on-Idle (move_selection_horizontal s forward)) (
          if_both Idle (c == b'h') (move_on-Idle (move_selection_horizontal s backward))
            (if_both Idle (c == b'q') refl refl))))

  form-Touches :
      (key : KeyCode)
      → Activates s enter (selected_field s)
      → (t : Turn W) → handle_form_key system w s key ≡ some t
      → Touches system w s key t.world
  unfolding handle_form_key activate_field
  form-Touches enter a t h =
      taken-Touches enter (activate system w s (selected_field s)) t
        (activate-Touches system w s (selected_field s) a) h
  form-Touches (char c) a t h = Idle-Touches (char c) _ t (letter-Idle c) h
  form-Touches esc a t h = taken-Touches esc (cancel system w s) t untouched h
  form-Touches down a t h =
      Idle-Touches down _ t (move_on-Idle (move_selection_vertical s forward)) h
  form-Touches up a t h = Idle-Touches up _ t (move_on-Idle (move_selection_vertical s backward)) h
  form-Touches right a t h =
      Idle-Touches right _ t (move_on-Idle (move_selection_horizontal s forward)) h
  form-Touches left a t h =
      Idle-Touches left _ t (move_on-Idle (move_selection_horizontal s backward)) h
  form-Touches backspace a t h = taken-Touches backspace (stay w _) t untouched h
  form-Touches delete a t h = taken-Touches delete (stay w _) t untouched h
  form-Touches home a t h = taken-Touches home (stay w _) t untouched h
  form-Touches end a t h = taken-Touches end (stay w _) t untouched h
  form-Touches tab a t h = taken-Touches tab (stay w _) t untouched h
  form-Touches back_tab a t h = taken-Touches back_tab (stay w _) t untouched h
  form-Touches page_up a t h = taken-Touches page_up (stay w _) t untouched h
  form-Touches page_down a t h = taken-Touches page_down (stay w _) t untouched h
  form-Touches other a t h = taken-Touches other (stay w _) t untouched h

  screen-Touches :
      (key : KeyCode) (editing : Option Field) (screen : LauncherScreen) (t : Turn W)
      → s.confirm_remove_ca ≡ false
      → s.editing ≡ editing
      → s.screen ≡ screen
      → handle_screen_key system w s key editing screen ≡ some t
      → Touches system w s key t.world
  unfolding handle_screen_key
  screen-Touches key (some field) screen t c e f h =
      taken-Touches key (stay w (handle_edit_key system w s field key)) t untouched h
  screen-Touches key none form t c e f h =
      form-Touches key
        (record { unasked = c; unedited = e; shown = f; pressed = refl; selected = refl }) t h
  screen-Touches key none launch_select t c e f h =
      Idle-Touches key (handle_launch_select_key system w s key) t (select-Idle key) h

  asked :
      (key : KeyCode)
      → s.confirm_remove_ca ≡ true
      → handle_launcher_key system w s key ≡ some (handle_ca_remove_confirmation system w s key)
  unfolding handle_launcher_key
  asked key y = rw (handle_launcher_key, y) refl

  unasked :
      (key : KeyCode)
      → s.confirm_remove_ca ≡ false
      → handle_launcher_key system w s key ≡ handle_screen_key system w s key s.editing s.screen
  unfolding handle_launcher_key
  unasked key n = rw (handle_launcher_key, n) refl

-- A key of the launcher changes the files of the certificate authority or the trust of the system only as
-- follows: a yes to the question of the removal removes the files, Enter on the field that creates the
-- authority loads or creates it, and Enter on the field that installs it loads or creates it, and installs
-- it if it is found not to be trusted.
pub handle_launcher_key-Touches :
    {W : Type 0} (system : System W) (w : W) (s : LauncherState) (key : KeyCode) (t : Turn W)
    → handle_launcher_key system w s key ≡ some t
    → Touches system w s key t.world
handle_launcher_key-Touches system w s key t h = elim (Bool-cases s.confirm_remove_ca) [
  | inl y ↦
      taken-Touches system w s key (handle_ca_remove_confirmation system w s key) t
        (confirmation-Touches system w s key y) (sym (asked system w s key y) ∙ h)
  | inr n ↦
      screen-Touches system w s key s.editing s.screen t n refl refl
        (sym (unasked system w s key n) ∙ h)
]
