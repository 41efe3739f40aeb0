-- ===== src/Launcher/Keys.antt =====
-- src/interactive.rs: the keys of the launcher. `none` is a panic on an index out of range.
pub mod Touches
pub mod World
pub mod View
pub mod Form
pub mod Within
use tlscope_rs.Base.{
  ℕ, zero, suc, ◌+◌, ◌-◌, Bool, true, false, not, ◌&&◌, ◌||◌, List, [], ◌∷◌, ◌++◌, Option, none,
  some, Result, ok, err, ◌==◌, if◌then◌else◌, length, is_empty, get_elem?,
}
use tlscope_rs.Text.{Text, text}
use tlscope_rs.Tui.Keys.{
  KeyCode, char, enter, esc, backspace, delete, left, right, home, end, up, down, tab,
}
use tlscope_rs.Launcher.Args.{normalize_path}
use tlscope_rs.Launcher.Field
use tlscope_rs.Launcher.Field.{
  Field, field_label, start, https_inspection, only_http1, extra_ca_env, redact, show_secrets,
  ca_status, create_ca, install_ca_trust, ca_path, ca_fingerprint, remove_ca,
}
use tlscope_rs.Launcher.Form.{
  LauncherState, LaunchOption, LauncherScreen, form, launch_select, Direction, backward, forward,
  selected_field, move_selection_vertical, move_selection_horizontal, editable_value, apply_edit,
}
use tlscope_rs.Launcher.Options.{
  filtered_launch_indices, clamp_launch_selection, launch_filter_message,
  supported_launch_formats_label, move_launch_selection_vertical, move_launch_selection_horizontal,
}
use tlscope_rs.Launcher.System.{System}
use tlscope_rs.Launcher.Complete.{is_launchable_file, complete_edit_buffer}
use tlscope_rs.Launcher.Run.{RunArgs, build_run_args, list_launch_options}
use tlscope_rs.Launcher.Authority.{
  Turn, stay, check_ca_status_from_launcher, create_ca_from_launcher,
  install_ca_trust_from_launcher, show_ca_path_from_launcher, show_ca_fingerprint_from_launcher,
  begin_ca_remove_from_launcher, remove_ca_files,
}
use tlscope_rs.Launcher.Activate.{say, run_or_say, activate_field}
use tlscope_rs.Launcher.Select.{move_on, pop, handle_launch_select_key}

module _ {W : Type 0} (system : System W) where
  abbrev pub cancel : W → LauncherState → Turn W
  unfolding text
  cancel w s = record { outcome = err (text "launch cancelled"); state = s; world = w }

  unfoldable pub handle_form_key : W → LauncherState → KeyCode → Option (Turn W)
  unfolding text move_selection_vertical move_selection_horizontal activate_field cancel
  handle_form_key w s down = move_on w (move_selection_vertical s forward)
  handle_form_key w s up = move_on w (move_selection_vertical s backward)
  handle_form_key w s right = move_on w (move_selection_horizontal s forward)
  handle_form_key w s left = move_on w (move_selection_horizontal s backward)
  handle_form_key w s enter = some (activate_field system w s)
  handle_form_key w s esc = some (cancel w s)
  handle_form_key w s (char c) =
      if c == b'j'
      then move_on w (move_selection_vertical s forward)
      else if c == b'k'
      then move_on w (move_selection_vertical s backward)
      else if c == b'l'
      then move_on w (move_selection_horizontal s forward)
      else if c == b'h'
      then move_on w (move_selection_horizontal s backward)
      else if c == b'q'
      then some (cancel w s)
      else some (stay w (say s (text "This key is not available here.")))
  handle_form_key w s key = some (stay w (say s (text "This key is not available here.")))

  abbrev pub cancel_removal : W → LauncherState → Turn W
  unfolding text
  cancel_removal w s =
      stay w (record s { confirm_remove_ca = false; message = text "CA removal cancelled." })

  abbrev pub ask_again : W → LauncherState → Turn W
  unfolding text
  ask_again w s = stay w (say s (text "Confirm CA removal with Enter/y, or cancel with Esc/n."))

  unfoldable pub handle_ca_remove_confirmation : W → LauncherState → KeyCode → Turn W
  unfolding remove_ca_files cancel_removal ask_again
  handle_ca_remove_confirmation w s enter = remove_ca_files system w s
  handle_ca_remove_confirmation w s esc = cancel_removal w s
  handle_ca_remove_confirmation w s (char c) =
      if c == b'y' || c == b'Y'
      then remove_ca_files system w s
      else if c == b'n' || c == b'N'
      then cancel_removal w s
      else ask_again w s
  handle_ca_remove_confirmation w s key = ask_again w s

  unfoldable pub handle_edit_key : W → LauncherState → Field → KeyCode → LauncherState
  unfolding text apply_edit complete_edit_buffer
  handle_edit_key w s field enter = record (apply_edit s field) {
    editing = none;
    message = text "Value saved.";
  }
  handle_edit_key w s field esc = record s { editing = none; message = text "Edit cancelled." }
  handle_edit_key w s field backspace = record s { edit_buffer = pop s.edit_buffer }
  handle_edit_key w s field tab = complete_edit_buffer system w s field
  handle_edit_key w s field (char ch) = record s { edit_buffer = s.edit_buffer ++ ch ∷ [] }
  handle_edit_key w s field key = say s (text "This key is not available while editing.")

  -- A key without a question to answer, by the field that is edited and the screen.
  unfoldable pub handle_screen_key :
      W → LauncherState → KeyCode → Option Field → LauncherScreen → Option (Turn W)
  unfolding handle_form_key handle_launch_select_key handle_edit_key
  handle_screen_key w s key (some field) screen = some (stay w (handle_edit_key w s field key))
  handle_screen_key w s key none form = handle_form_key w s key
  handle_screen_key w s key none launch_select = handle_launch_select_key system w s key

  unfoldable pub handle_launcher_key : W → LauncherState → KeyCode → Option (Turn W)
  unfolding handle_screen_key handle_ca_remove_confirmation
  handle_launcher_key w s key =
      if s.confirm_remove_ca
      then some (handle_ca_remove_confirmation w s key)
      else handle_screen_key w s key s.editing s.screen
