-- ===== src/Launcher/Keys/View.antt =====
-- What leaves the list of files, its filter and its selection as they are.
use tlscope_rs.Base.{
  ℕ, ◌-◌, ◌≤◌, ◌≡◌, refl, sym, subst, Bool, true, false, not, List, Option, none, some, Result, ok,
  err, length, if_both, option_both,
}
use tlscope_rs.Text.{Text, to_ascii_lowercase}
use tlscope_rs.Tui.Keys.{
  KeyCode, char, enter, esc, backspace, delete, left, right, home, end, up, down, tab, back_tab,
  page_up, page_down, other,
}
use tlscope_rs.Launcher.Field.{
  Field, target, arguments, workdir, start, listen, max_body, env, save_session, https_inspection,
  only_http1, extra_ca_env, redact, show_secrets, ca_dir, ca_status, create_ca, install_ca_trust,
  ca_path, ca_fingerprint, remove_ca, fields, position_of,
}
use tlscope_rs.Launcher.Form.{
  LauncherState, LaunchOption, Direction, apply_edit, select_field, vertical_from, horizontal_from,
}
use tlscope_rs.Launcher.Form.Bounds.{vertical_from-Succeeds, horizontal_from-Succeeds}
use tlscope_rs.Launcher.Options.{shown_indices, filtered_launch_indices}
use tlscope_rs.Launcher.Options.Bounds.{IsWithin}
use tlscope_rs.Launcher.System.{System, Authority}
use tlscope_rs.Launcher.Complete.{
  CompletionOutcome, completed, choices, no_match, completion_mode, complete_path_input,
  after_completion, complete_edit_buffer,
}
use tlscope_rs.Launcher.Authority.{
  Turn, launcher_ca_dir, ca_cert_path, check_ca_status_from_launcher, created, install_made,
  install_if_new, installed, inspected, removed,
}
use tlscope_rs.Launcher.Keys.{handle_edit_key}

-- What the list of files depends on.
abbrev View : Type 0
View = List LaunchOption × Text × ℕ

abbrev view : LauncherState → View
view s = (s.launch_options, s.launch_filter, s.launch_selected)

-- The bound, of what is seen.
IsBounded : View → Type 0
IsBounded (options, filter, selected) =
    selected ≤ length (shown_indices (to_ascii_lowercase filter) 0 options) - 1

pub IsWithin-view : (s t : LauncherState) → view t ≡ view s → IsWithin s → IsWithin t
unfolding IsWithin IsBounded filtered_launch_indices
IsWithin-view s t e h = subst IsBounded (sym e) h

-- Moving through the form leaves the list as it is.
module _ (s : LauncherState) where
  unfoldable pub Unmoved : LauncherState → Type 0
  Unmoved t = view t ≡ view s

  select_field-Unmoved : (f : Field) → Unmoved (select_field s f)
  unfolding select_field Unmoved
  select_field-Unmoved f = option_both Unmoved (position_of f fields) refl (λ index. refl)

  pub vertical_from-Unmoved :
      (d : Direction) (f : Field) → (t : LauncherState) × (vertical_from s d f ≡ some t) × Unmoved t
  unfolding Unmoved
  vertical_from-Unmoved d f =
      vertical_from-Succeeds s Unmoved select_field-Unmoved (λ message. refl) d f

  pub horizontal_from-Unmoved :
      (d : Direction) (f : Field)
      → (t : LauncherState) × (horizontal_from s d f ≡ some t) × Unmoved t
  unfolding Unmoved
  horizontal_from-Unmoved d f =
      horizontal_from-Succeeds s Unmoved select_field-Unmoved (λ message. refl) d f

  pub apply_edit-Unmoved : (f : Field) → Unmoved (apply_edit s f)
  unfolding apply_edit Unmoved
  apply_edit-Unmoved target = refl
  apply_edit-Unmoved arguments = refl
  apply_edit-Unmoved workdir = refl
  apply_edit-Unmoved start = refl
  apply_edit-Unmoved listen = refl
  apply_edit-Unmoved max_body = refl
  apply_edit-Unmoved env = refl
  apply_edit-Unmoved save_session = refl
  apply_edit-Unmoved https_inspection = refl
  apply_edit-Unmoved only_http1 = refl
  apply_edit-Unmoved extra_ca_env = refl
  apply_edit-Unmoved redact = refl
  apply_edit-Unmoved show_secrets = refl
  apply_edit-Unmoved ca_dir = refl
  apply_edit-Unmoved ca_status = refl
  apply_edit-Unmoved create_ca = refl
  apply_edit-Unmoved install_ca_trust = refl
  apply_edit-Unmoved ca_path = refl
  apply_edit-Unmoved ca_fingerprint = refl
  apply_edit-Unmoved remove_ca = refl

  after_completion-Unmoved : (r : Result Text CompletionOutcome) → Unmoved (after_completion s r)
  unfolding after_completion Unmoved
  after_completion-Unmoved (err e) = refl
  after_completion-Unmoved (ok (completed value message)) = refl
  after_completion-Unmoved (ok (choices message)) = refl
  after_completion-Unmoved (ok (no_match message)) = refl

  module _ {W : Type 0} (system : System W) (w : W) where
    complete_edit_buffer-Unmoved : (f : Field) → Unmoved (complete_edit_buffer system w s f)
    unfolding complete_edit_buffer Unmoved
    complete_edit_buffer-Unmoved f =
        option_both Unmoved (completion_mode f) refl
          (λ mode. after_completion-Unmoved (complete_path_input system w s.edit_buffer mode))

    pub handle_edit_key-Unmoved :
        (f : Field) (key : KeyCode) → Unmoved (handle_edit_key system w s f key)
    unfolding handle_edit_key Unmoved
    handle_edit_key-Unmoved f enter = apply_edit-Unmoved f
    handle_edit_key-Unmoved f tab = complete_edit_buffer-Unmoved f
    handle_edit_key-Unmoved f esc = refl
    handle_edit_key-Unmoved f backspace = refl
    handle_edit_key-Unmoved f (char c) = refl
    handle_edit_key-Unmoved f delete = refl
    handle_edit_key-Unmoved f left = refl
    handle_edit_key-Unmoved f right = refl
    handle_edit_key-Unmoved f home = refl
    handle_edit_key-Unmoved f end = refl
    handle_edit_key-Unmoved f up = refl
    handle_edit_key-Unmoved f down = refl
    handle_edit_key-Unmoved f back_tab = refl
    handle_edit_key-Unmoved f page_up = refl
    handle_edit_key-Unmoved f page_down = refl
    handle_edit_key-Unmoved f other = refl

    inspected-Unmoved :
        (fingerprint : Text) (r : Result Text Bool) → Unmoved (inspected system s fingerprint r)
    unfolding inspected Unmoved
    inspected-Unmoved fingerprint (ok true) = refl
    inspected-Unmoved fingerprint (ok false) = refl
    inspected-Unmoved fingerprint (err e) = refl

    pub check_ca_status-Unmoved : Unmoved (check_ca_status_from_launcher system w s).state
    unfolding check_ca_status_from_launcher Unmoved
    check_ca_status-Unmoved =
        let cert_path = ca_cert_path (launcher_ca_dir system s) in
        if_both (λ (t : Turn W). Unmoved t.state) (not (system.exists w cert_path)) refl
          (inspected-Unmoved _ (system.is_current_user_root_installed w cert_path))

    pub created-Unmoved : (v : W) (r : Result Text Authority) → Unmoved (created system v s r).state
    unfolding created Unmoved
    created-Unmoved v (ok ca) = refl
    created-Unmoved v (err e) = refl

    installed-Unmoved :
        (fingerprint : Text) (r : Option Text × W)
        → Unmoved (installed system s fingerprint r).state
    unfolding installed Unmoved
    installed-Unmoved fingerprint (none, v) = refl
    installed-Unmoved fingerprint (some e, v) = refl

    install_if_new-Unmoved :
        (v : W) (ca : Authority) (r : Result Text Bool)
        → Unmoved (install_if_new system v s ca r).state
    unfolding install_if_new Unmoved
    install_if_new-Unmoved v ca (ok true) = refl
    install_if_new-Unmoved v ca (ok false) =
        installed-Unmoved _ (system.install_current_user_root v ca.cert_path)
    install_if_new-Unmoved v ca (err e) = refl

    pub install_made-Unmoved :
        (v : W) (r : Result Text Authority) → Unmoved (install_made system v s r).state
    unfolding install_made Unmoved
    install_made-Unmoved v (ok ca) =
        install_if_new-Unmoved v ca (system.is_current_user_root_installed v ca.cert_path)
    install_made-Unmoved v (err e) = refl

    pub removed-Unmoved : (dir : Text) (r : Result Text Bool) → Unmoved (removed system dir s r)
    unfolding removed Unmoved
    removed-Unmoved dir (ok true) = refl
    removed-Unmoved dir (ok false) = refl
    removed-Unmoved dir (err e) = refl
