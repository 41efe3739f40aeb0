-- ===== src/Launcher/Shown.antt =====
-- src/interactive.rs: what the launcher shows of a field, and the key that it hints at.
use tlscope_rs.Base.{Bool, true, false, ◌++◌, Option, none, some, if◌then◌else◌, is_empty}
use tlscope_rs.Text.{Text, text, trim}
use tlscope_rs.Launcher.Field.{
  Field, same_field, target, arguments, workdir, start, listen, max_body, env, save_session,
  https_inspection, only_http1, extra_ca_env, redact, show_secrets, ca_dir, ca_status, create_ca,
  install_ca_trust, ca_path, ca_fingerprint, remove_ca,
}
use tlscope_rs.Launcher.Form.{LauncherState, LauncherScreen, form, launch_select}
use tlscope_rs.Launcher.System.{System}
use tlscope_rs.Launcher.Complete.{completion_mode}
use tlscope_rs.Launcher.Authority.{launcher_ca_dir, ca_cert_path}

unfoldable pub display_empty : Text → Text → Text
unfolding text trim
display_empty value placeholder =
    if is_empty (trim value) then text "<" ++ placeholder ++ text ">" else value

unfoldable pub on_off : Bool → Text
unfolding text
on_off value = if value then text "ON" else text "OFF"

unfoldable pub ca_trust_value : LauncherState → Text
unfolding text
ca_trust_value s = s.ca_trust_status ++ text " | Enter install/check"

-- The field that is edited, if it is this one.
abbrev is_edited : Option Field → Field → Bool
is_edited none field = false
is_edited (some edited) field = same_field edited field

abbrev completes : Field → Bool
unfolding completion_mode
completes field = elim (completion_mode field) [ none ↦ false | some mode ↦ true ]

abbrev screen_hint : LauncherScreen → Text
unfolding text
screen_hint form =
    text "Up/Down select | Left/Right paired fields | Enter edit/toggle/action | Esc/q cancel"
screen_hint launch_select =
    text "Type filter | Arrows select | Enter launch selected | Backspace edit | Esc back"

-- The line of help at the bottom.
unfoldable pub launcher_hint : LauncherState → Text
unfolding text completes screen_hint
launcher_hint s =
    if s.confirm_remove_ca
    then text "Enter/y remove local CA files | Esc/n cancel"
    else elim s.editing [
      | some field ↦
          if completes field
          then text "Type value | Tab complete path | Enter save | Esc cancel edit"
          else text "Type value | Enter save | Esc cancel edit"
      | none ↦ screen_hint s.screen
    ]

module _ {W : Type 0} (system : System W) (w : W) where
  unfoldable pub ca_status_value : LauncherState → Text
  unfolding text launcher_ca_dir ca_cert_path
  ca_status_value s =
      if system.exists w (ca_cert_path (launcher_ca_dir system s))
      then text "created | trust: " ++ s.ca_trust_status
      else text "not created"

  -- The value of a field that is not edited.
  unfoldable pub resting_value : LauncherState → Field → Text
  unfolding text display_empty on_off ca_status_value ca_trust_value
  resting_value s target = display_empty s.target (text "file/folder, Tab completes")
  resting_value s arguments = display_empty s.arguments (text "optional")
  resting_value s workdir = display_empty s.workdir (text "auto")
  resting_value s start = text "Enter to launch"
  resting_value s listen = s.listen
  resting_value s max_body = s.max_body_size
  resting_value s env = display_empty s.env (text "KEY=VALUE;KEY2=VALUE")
  resting_value s save_session = display_empty s.save_session (text "off")
  resting_value s https_inspection = on_off s.https_inspection
  resting_value s only_http1 = on_off s.only_http1
  resting_value s extra_ca_env = on_off s.extra_ca_env
  resting_value s redact = on_off s.redact
  resting_value s show_secrets = on_off s.show_secrets
  resting_value s ca_dir = display_empty s.ca_dir (text "default")
  resting_value s ca_status = ca_status_value s
  resting_value s create_ca = text "Enter"
  resting_value s install_ca_trust = ca_trust_value s
  resting_value s ca_path = text "Enter"
  resting_value s ca_fingerprint = text "Enter"
  resting_value s remove_ca = text "Enter"

  unfoldable pub field_value : LauncherState → Field → Text
  unfolding text resting_value
  field_value s field =
      if is_edited s.editing field then s.edit_buffer ++ text "_" else resting_value s field
