-- ===== src/Launcher/Keys/Form.antt =====
-- The keys of the form keep the selection within the list of files.
use tlscope_rs.Base.{
  refl, ◌≡◌, ap, Option, some, not, List, [], ◌∷◌, Result, ok, err, arith, ◌==◌, if_both,
}
use tlscope_rs.Text.{Text}
use tlscope_rs.Tui.Keys.{
  KeyCode, char, enter, esc, backspace, delete, left, right, home, end, up, down, tab, back_tab,
  page_up, page_down, other,
}
use tlscope_rs.Launcher.Field.{
  Field, target, arguments, workdir, start, listen, max_body, env, save_session, https_inspection,
  only_http1, extra_ca_env, redact, show_secrets, ca_dir, ca_status, create_ca, install_ca_trust,
  ca_path, ca_fingerprint, remove_ca,
}
use tlscope_rs.Launcher.Form.{
  LauncherState, LaunchOption, forward, backward, Direction, selected_field,
  move_selection_vertical, move_selection_horizontal,
}
use tlscope_rs.Launcher.Options.Bounds.{IsWithin}
use tlscope_rs.Launcher.System.{System}
use tlscope_rs.Launcher.Args.{normalize_path}
use tlscope_rs.Launcher.Complete.{is_launchable_file}
use tlscope_rs.Launcher.Run.{RunArgs, build_run_args, list_launch_options}
use tlscope_rs.Launcher.Authority.{
  Turn, stay, launcher_ca_dir, show_ca_path_from_launcher, show_ca_fingerprint_from_launcher,
  begin_ca_remove_from_launcher, create_ca_from_launcher, install_ca_trust_from_launcher,
}
use tlscope_rs.Launcher.Keys.{handle_form_key, cancel}
use tlscope_rs.Launcher.Select.{move_on}
use tlscope_rs.Launcher.Activate.{
  activate, activate_field, start_from_form, show_options, run_or_say,
}
use tlscope_rs.Launcher.Keys.View.{
  IsWithin-view, Unmoved, vertical_from-Unmoved, horizontal_from-Unmoved, check_ca_status-Unmoved,
  created-Unmoved, install_made-Unmoved,
}

-- A turn is taken, and leaves the selection within the list.
unfoldable pub Keeps : {W : Type 0} → Option (Turn W) → Type 0
Keeps o = (t : Turn _) × (o ≡ some t) × IsWithin t.state

pub keeps : {W : Type 0} (t : Turn W) → IsWithin t.state → Keeps (some t)
unfolding Keeps
keeps t h = (t, refl, h)

module _ {W : Type 0} (system : System W) (w : W) (s : LauncherState) (within : IsWithin s) where
  pub unmoved : (t : LauncherState) → Unmoved s t → IsWithin t
  unfolding Unmoved
  unmoved t e = IsWithin-view s t e within

  pub run_or_say-IsWithin :
      (t : LauncherState) (r : Result Text RunArgs)
      → Unmoved s t
      → IsWithin (run_or_say w t r).state
  unfolding Unmoved
  run_or_say-IsWithin t (ok args) e = unmoved t e
  run_or_say-IsWithin t (err message) e = unmoved (record t { message = message }) e

  show_options-IsWithin :
      (path : Text) (r : Result Text (List LaunchOption)) → IsWithin (show_options system s path r)
  unfolding show_options Unmoved IsWithin
  show_options-IsWithin path (err e) = unmoved (record s { message = e }) refl
  show_options-IsWithin path (ok []) = unmoved (show_options system s path (ok [])) refl
  show_options-IsWithin path (ok (o ∷ options)) = omega arith

  start_from_form-IsWithin : IsWithin (start_from_form system w s).state
  unfolding start_from_form Unmoved
  start_from_form-IsWithin =
      let P : Turn W → Type 0 = λ t. IsWithin t.state in
      let path = normalize_path s.target in
      let said : (message : Text) → IsWithin (record s { message = message }) =
        λ message. unmoved (record s { message = message }) refl in
      if_both P (not (system.exists w path)) (said _) (
        if_both P (system.is_dir w path)
          (show_options-IsWithin path (list_launch_options system w path))
          (if_both P (not (is_launchable_file system w path)) (said _)
            (run_or_say-IsWithin s (build_run_args system w s) refl)))

  activate-IsWithin : (field : Field) → IsWithin (activate system w s field).state
  unfolding activate create_ca_from_launcher install_ca_trust_from_launcher
      show_ca_path_from_launcher show_ca_fingerprint_from_launcher begin_ca_remove_from_launcher
      Unmoved
  activate-IsWithin target = unmoved (activate system w s target).state refl
  activate-IsWithin arguments = unmoved (activate system w s arguments).state refl
  activate-IsWithin workdir = unmoved (activate system w s workdir).state refl
  activate-IsWithin start = start_from_form-IsWithin
  activate-IsWithin listen = unmoved (activate system w s listen).state refl
  activate-IsWithin max_body = unmoved (activate system w s max_body).state refl
  activate-IsWithin env = unmoved (activate system w s env).state refl
  activate-IsWithin save_session = unmoved (activate system w s save_session).state refl
  activate-IsWithin https_inspection = unmoved (activate system w s https_inspection).state refl
  activate-IsWithin only_http1 = unmoved (activate system w s only_http1).state refl
  activate-IsWithin extra_ca_env = unmoved (activate system w s extra_ca_env).state refl
  activate-IsWithin redact = unmoved (activate system w s redact).state refl
  activate-IsWithin show_secrets = unmoved (activate system w s show_secrets).state refl
  activate-IsWithin ca_dir = unmoved (activate system w s ca_dir).state refl
  activate-IsWithin ca_status = unmoved _ (check_ca_status-Unmoved s system w)
  activate-IsWithin create_ca = unmoved _ (
      created-Unmoved s system w (system.load_or_create w (launcher_ca_dir system s)).1
        (system.load_or_create w (launcher_ca_dir system s)).0)
  activate-IsWithin install_ca_trust = unmoved _ (
      install_made-Unmoved s system w (system.load_or_create w (launcher_ca_dir system s)).1
        (system.load_or_create w (launcher_ca_dir system s)).0)
  activate-IsWithin ca_path = unmoved (activate system w s ca_path).state refl
  activate-IsWithin ca_fingerprint = unmoved (activate system w s ca_fingerprint).state refl
  activate-IsWithin remove_ca = unmoved (activate system w s remove_ca).state refl

  moved-Keeps :
      (o : Option LauncherState)
      → (t : LauncherState) × (o ≡ some t) × Unmoved s t
      → Keeps (move_on w o)
  unfolding Keeps
  moved-Keeps o (t, e, u) = (stay w t, ap (move_on w) e, unmoved t u)

  vertical-Keeps : (d : Direction) → Keeps (move_on w (move_selection_vertical s d))
  unfolding move_selection_vertical
  vertical-Keeps d =
      moved-Keeps (move_selection_vertical s d) (vertical_from-Unmoved s d (selected_field s))

  horizontal-Keeps : (d : Direction) → Keeps (move_on w (move_selection_horizontal s d))
  unfolding move_selection_horizontal
  horizontal-Keeps d =
      moved-Keeps (move_selection_horizontal s d) (horizontal_from-Unmoved s d (selected_field s))

  pub say-IsWithin : (message : Text) → IsWithin (record s { message = message })
  unfolding Unmoved
  say-IsWithin message = unmoved (record s { message = message }) refl

  pub say-Keeps : (message : Text) → Keeps (some (stay w (record s { message = message })))
  say-Keeps message = keeps (stay w (record s { message = message })) (say-IsWithin message)

  pub form-Keeps : (key : KeyCode) → Keeps (handle_form_key system w s key)
  unfolding handle_form_key activate_field
  form-Keeps down = vertical-Keeps forward
  form-Keeps up = vertical-Keeps backward
  form-Keeps right = horizontal-Keeps forward
  form-Keeps left = horizontal-Keeps backward
  form-Keeps enter = keeps _ (activate-IsWithin (selected_field s))
  form-Keeps esc = keeps _ within
  form-Keeps (char c) = if_both Keeps (c == b'j') (vertical-Keeps forward) (
      if_both Keeps (c == b'k') (vertical-Keeps backward) (
        if_both Keeps (c == b'l') (horizontal-Keeps forward) (
          if_both Keeps (c == b'h') (horizontal-Keeps backward)
            (if_both Keeps (c == b'q') (keeps (cancel system w s) within) (say-Keeps _)))))
  form-Keeps backspace = say-Keeps _
  form-Keeps delete = say-Keeps _
  form-Keeps home = say-Keeps _
  form-Keeps end = say-Keeps _
  form-Keeps tab = say-Keeps _
  form-Keeps back_tab = say-Keeps _
  form-Keeps page_up = say-Keeps _
  form-Keeps page_down = say-Keeps _
  form-Keeps other = say-Keeps _
