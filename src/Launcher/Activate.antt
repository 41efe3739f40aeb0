-- ===== src/Launcher/Activate.antt =====
-- src/interactive.rs: what Enter does on a field of the launcher's form.
use tlscope_rs.Base.{Bool, not, List, [], ◌∷◌, ◌++◌, some, Result, ok, err, if◌then◌else◌}
use tlscope_rs.Text.{Text, text}
use tlscope_rs.Launcher.Args.{normalize_path}
use tlscope_rs.Launcher.Field.{
  Field, field_label, start, https_inspection, only_http1, extra_ca_env, redact, show_secrets,
  ca_status, create_ca, install_ca_trust, ca_path, ca_fingerprint, remove_ca,
}
use tlscope_rs.Launcher.Form.{
  LauncherState, LaunchOption, launch_select, selected_field, editable_value,
}
use tlscope_rs.Launcher.Options.{supported_launch_formats_label}
use tlscope_rs.Launcher.System.{System}
use tlscope_rs.Launcher.Complete.{is_launchable_file}
use tlscope_rs.Launcher.Run.{RunArgs, build_run_args, list_launch_options}
use tlscope_rs.Launcher.Authority.{
  Turn, stay, check_ca_status_from_launcher, create_ca_from_launcher,
  install_ca_trust_from_launcher, show_ca_path_from_launcher, show_ca_fingerprint_from_launcher,
  begin_ca_remove_from_launcher,
}

abbrev pub say : LauncherState → Text → LauncherState
say s message = record s { message = message }

abbrev said : Bool → Text → Text → Text
said b on off = if b then on else off

-- A run, or the error as the message.
abbrev pub run_or_say : {W : Type 0} → W → LauncherState → Result Text RunArgs → Turn W
run_or_say w s (ok args) = record { outcome = ok (some args); state = s; world = w }
run_or_say w s (err e) = stay w (record s { message = e })

module _ {W : Type 0} (system : System W) where
  unfoldable pub show_options :
      LauncherState → Text → Result Text (List LaunchOption) → LauncherState
  unfolding text supported_launch_formats_label
  show_options s target (err e) = say s e
  show_options s target (ok []) = say s (
      text "No supported launch files ("
      ++ supported_launch_formats_label system.launch_formats
      ++ text ") found in "
      ++ target
      ++ text ".")
  show_options s target (ok (o ∷ options)) = record s {
    launch_options = o ∷ options;
    launch_selected = 0;
    launch_filter = [];
    screen = launch_select;
    message = text "Folder selected. Filter by name, then launch a file.";
  }

  unfoldable pub start_from_form : W → LauncherState → Turn W
  unfolding text normalize_path supported_launch_formats_label is_launchable_file build_run_args
      list_launch_options show_options
  start_from_form w s =
      let target = normalize_path s.target in
      if not (system.exists w target)
      then stay w (say s (text "Path does not exist: " ++ target))
      else if system.is_dir w target
      then stay w (show_options s target (list_launch_options system w target))
      else if not (is_launchable_file system w target)
      then stay w (
          say s (
            text "Target must be a supported launch file ("
            ++ supported_launch_formats_label system.launch_formats
            ++ text ") or a folder."))
      else run_or_say w s (build_run_args system w s)

  abbrev pub edit_field : LauncherState → Field → LauncherState
  unfolding text field_label editable_value
  edit_field s field = record s {
    editing = some field;
    edit_buffer = editable_value s field;
    message = text "Editing " ++ field_label field ++ text ".";
  }

  unfoldable pub activate : W → LauncherState → Field → Turn W
  unfolding text start_from_form edit_field check_ca_status_from_launcher create_ca_from_launcher
      install_ca_trust_from_launcher show_ca_path_from_launcher show_ca_fingerprint_from_launcher
      begin_ca_remove_from_launcher
  activate w s https_inspection =
      let on = not s.https_inspection in
      stay w (record s {
        https_inspection = on;
        message =
            said on (text "HTTPS inspection enabled. Make sure the TLScope CA is trusted.")
              (text "HTTPS inspection disabled; CONNECT will be tunneled.");
      })
  activate w s only_http1 =
      let on = not s.only_http1 in
      stay w (record s {
        only_http1 = on;
        message =
            said on (text "HTTP/2 ALPN disabled; inspected HTTPS will stay on HTTP/1.1.")
              (text "HTTP/2 ALPN enabled for inspected HTTPS.");
      })
  activate w s extra_ca_env =
      let on = not s.extra_ca_env in
      stay w (record s {
        extra_ca_env = on;
        message =
            said on (text "Extra CA environment variables will be passed to the child.")
              (text "Extra CA environment variables disabled.");
      })
  activate w s redact =
      let on = not s.redact in
      stay w (record s {
        redact = on;
        message =
            said on (text "JSON/form sensitive fields will be redacted.")
              (text "Only default sensitive headers will be redacted.");
      })
  activate w s show_secrets =
      let on = not s.show_secrets in
      stay w (record s {
        show_secrets = on;
        message =
            said on (text "Sensitive values will be visible in UI and exports.")
              (text "Sensitive values will be redacted.");
      })
  activate w s start = start_from_form w s
  activate w s ca_status = check_ca_status_from_launcher system w s
  activate w s create_ca = create_ca_from_launcher system w s
  activate w s install_ca_trust = install_ca_trust_from_launcher system w s
  activate w s ca_path = show_ca_path_from_launcher system w s
  activate w s ca_fingerprint = show_ca_fingerprint_from_launcher system w s
  activate w s remove_ca = begin_ca_remove_from_launcher system w s
  activate w s field = stay w (edit_field s field)

  unfoldable pub activate_field : W → LauncherState → Turn W
  unfolding activate selected_field
  activate_field w s = activate w s (selected_field s)
