-- ===== src/Launcher/Keys/Touches.antt =====
-- What the fields of the form and the answer to a question make of the files of the certificate authority
-- and the trust of the system.
use tlscope_rs.Base.{
  ℕ, ◌≡◌, refl, sym, subst, Bool, true, false, not, ◌||◌, Option, none, some, Result, ok, err, ◌==◌,
  Bool-cases, inl, inr, if_both,
}
use tlscope_rs.Text.{Text}
use tlscope_rs.Tui.Keys.{
  KeyCode, char, enter, esc, backspace, delete, left, right, home, end, up, down, tab, back_tab,
  page_up, page_down, other,
}
use tlscope_rs.Launcher.Field.{
  Field, start, https_inspection, only_http1, extra_ca_env, redact, show_secrets, ca_status,
  create_ca, install_ca_trust, ca_path, ca_fingerprint, remove_ca, target, arguments, workdir,
  listen, max_body, env, save_session, ca_dir,
}
use tlscope_rs.Launcher.Form.{LauncherState, form, selected_field}
use tlscope_rs.Launcher.System.{System, Authority}
use tlscope_rs.Launcher.Authority.{
  Turn, launcher_ca_dir, ca_cert_path, show_ca_path_from_launcher,
  show_ca_fingerprint_from_launcher, begin_ca_remove_from_launcher, create_ca_from_launcher,
  install_ca_trust_from_launcher, check_ca_status_from_launcher, created, install_made,
  install_if_new, installed, remove_ca_files,
}
use tlscope_rs.Launcher.Keys.{handle_ca_remove_confirmation}
use tlscope_rs.Launcher.Activate.{activate, start_from_form, run_or_say}
use tlscope_rs.Launcher.Run.{RunArgs, build_run_args}
use tlscope_rs.Launcher.Complete.{is_launchable_file}
use tlscope_rs.Launcher.Args.{normalize_path}

-- The keys that answer a question with yes.
unfoldable pub is_yes : KeyCode → Bool
is_yes enter = true
is_yes (char c) = c == b'y' || c == b'Y'
is_yes key = false

-- Enter on a field of the form, with no question to answer and no field that is edited.
pub record Activates (s : LauncherState) (key : KeyCode) (field : Field) : Type 0 where
  pub unasked : s.confirm_remove_ca ≡ false
  pub unedited : s.editing ≡ none
  pub shown : s.screen ≡ form
  pub pressed : key ≡ enter
  pub selected : selected_field s ≡ field

module _ {W : Type 0} (system : System W) (w : W) (s : LauncherState) (key : KeyCode) where
  -- What a key makes of the files and of the trust of the system.
  pub data Touches : W → Type 0 where
    untouched : Touches w
    removes :
        s.confirm_remove_ca ≡ true
        → is_yes key ≡ true
        → Touches (system.remove_created_files w (launcher_ca_dir system s) true).1
    creates :
        Activates s key create_ca → Touches (system.load_or_create w (launcher_ca_dir system s)).1
    loads :
        Activates s key install_ca_trust
        → Touches (system.load_or_create w (launcher_ca_dir system s)).1
    installs :
        (ca : Authority)
        → Activates s key install_ca_trust
        → (system.load_or_create w (launcher_ca_dir system s)).0 ≡ ok ca
        → system.is_current_user_root_installed
            (system.load_or_create w (launcher_ca_dir system s)).1
            ca.cert_path
          ≡ ok false
        → Touches
            (system.install_current_user_root
              (system.load_or_create w (launcher_ca_dir system s)).1
              ca.cert_path).1

module _ {W : Type 0} (system : System W) (w : W) (s : LauncherState) where
  confirmed-Touches :
      (key : KeyCode)
      → s.confirm_remove_ca ≡ true
      → is_yes key ≡ true
      → Touches system w s key (remove_ca_files system w s).world
  unfolding remove_ca_files
  confirmed-Touches key e y = removes e y

  character-Touches :
      (c : ℕ)
      → s.confirm_remove_ca ≡ true
      → Touches system w s (char c) (handle_ca_remove_confirmation system w s (char c)).world
  unfolding handle_ca_remove_confirmation is_yes
  character-Touches c e = elim (Bool-cases (c == b'y' || c == b'Y')) [
    | inl y ↦ rw (handle_ca_remove_confirmation, y) (confirmed-Touches (char c) e y)
    | inr y ↦ elim (Bool-cases (c == b'n' || c == b'N')) [
      | inl n ↦ rw (handle_ca_remove_confirmation, y, n) untouched
      | inr n ↦ rw (handle_ca_remove_confirmation, y, n) untouched
    ]
  ]

  pub confirmation-Touches :
      (key : KeyCode)
      → s.confirm_remove_ca ≡ true
      → Touches system w s key (handle_ca_remove_confirmation system w s key).world
  unfolding handle_ca_remove_confirmation is_yes
  confirmation-Touches enter e = confirmed-Touches enter e refl
  confirmation-Touches (char c) e = character-Touches c e
  confirmation-Touches esc e = untouched
  confirmation-Touches backspace e = untouched
  confirmation-Touches delete e = untouched
  confirmation-Touches left e = untouched
  confirmation-Touches right e = untouched
  confirmation-Touches home e = untouched
  confirmation-Touches end e = untouched
  confirmation-Touches up e = untouched
  confirmation-Touches down e = untouched
  confirmation-Touches tab e = untouched
  confirmation-Touches back_tab e = untouched
  confirmation-Touches page_up e = untouched
  confirmation-Touches page_down e = untouched
  confirmation-Touches other e = untouched

  pub run_or_say-world :
      (t : LauncherState) (r : Result Text RunArgs) → (run_or_say w t r).world ≡ w
  run_or_say-world t (ok args) = refl
  run_or_say-world t (err e) = refl

  start_from_form-world : (start_from_form system w s).world ≡ w
  unfolding start_from_form
  start_from_form-world =
      let P : Turn W → Type 0 = λ t. t.world ≡ w in
      let target = normalize_path s.target in
      if_both P (not (system.exists w target)) refl (
        if_both P (system.is_dir w target) refl (
          if_both P (not (is_launchable_file system w target)) refl
            (run_or_say-world s (build_run_args system w s))))

  installed-world :
      (fingerprint : Text) (r : Option Text × W) → (installed system s fingerprint r).world ≡ r.1
  unfolding installed
  installed-world fingerprint (none, v) = refl
  installed-world fingerprint (some e, v) = refl

  -- The world behind an installation, by what looking the certificate up gave.
  install_if_new-Touches :
      (key : KeyCode) (ca : Authority) (found : Result Text Bool)
      → Activates s key install_ca_trust
      → (system.load_or_create w (launcher_ca_dir system s)).0 ≡ ok ca
      → system.is_current_user_root_installed
          (system.load_or_create w (launcher_ca_dir system s)).1
          ca.cert_path
        ≡ found
      → Touches system w s key
          (install_if_new system
            (system.load_or_create w (launcher_ca_dir system s)).1
            s
            ca
            found).world
  unfolding install_if_new
  install_if_new-Touches key ca (ok true) a m f = loads a
  install_if_new-Touches key ca (ok false) a m f =
      subst (Touches system w s key)
        (sym (
          installed-world _ (
            system.install_current_user_root (system.load_or_create w (launcher_ca_dir system s)).1
              ca.cert_path)))
        (installs ca a m f)
  install_if_new-Touches key ca (err e) a m f = loads a

  install_made-Touches :
      (key : KeyCode) (made : Result Text Authority)
      → Activates s key install_ca_trust
      → (system.load_or_create w (launcher_ca_dir system s)).0 ≡ made
      → Touches system w s key
          (install_made system (system.load_or_create w (launcher_ca_dir system s)).1 s made).world
  unfolding install_made
  install_made-Touches key (err e) a m = loads a
  install_made-Touches key (ok ca) a m =
      install_if_new-Touches key ca
        (system.is_current_user_root_installed
          (system.load_or_create w (launcher_ca_dir system s)).1 ca.cert_path)
        a m refl

  created-Touches :
      (key : KeyCode) (made : Result Text Authority)
      → Activates s key create_ca
      → Touches system w s key
          (created system (system.load_or_create w (launcher_ca_dir system s)).1 s made).world
  unfolding created
  created-Touches key (ok ca) a = creates a
  created-Touches key (err e) a = creates a

  check_ca_status-world : (check_ca_status_from_launcher system w s).world ≡ w
  unfolding check_ca_status_from_launcher
  check_ca_status-world =
      if_both (λ (t : Turn W). t.world ≡ w)
        (not (system.exists w (ca_cert_path (launcher_ca_dir system s)))) refl refl

  pub activate-Touches :
      (field : Field)
      → Activates s enter field
      → Touches system w s enter (activate system w s field).world
  unfolding activate create_ca_from_launcher install_ca_trust_from_launcher
      check_ca_status_from_launcher show_ca_path_from_launcher show_ca_fingerprint_from_launcher
      begin_ca_remove_from_launcher
  activate-Touches target a = untouched
  activate-Touches arguments a = untouched
  activate-Touches workdir a = untouched
  activate-Touches start a = subst (Touches system w s enter) (sym start_from_form-world) untouched
  activate-Touches listen a = untouched
  activate-Touches max_body a = untouched
  activate-Touches env a = untouched
  activate-Touches save_session a = untouched
  activate-Touches https_inspection a = untouched
  activate-Touches only_http1 a = untouched
  activate-Touches extra_ca_env a = untouched
  activate-Touches redact a = untouched
  activate-Touches show_secrets a = untouched
  activate-Touches ca_dir a = untouched
  activate-Touches ca_status a =
      subst (Touches system w s enter) (sym check_ca_status-world) untouched
  activate-Touches create_ca a =
      created-Touches enter (system.load_or_create w (launcher_ca_dir system s)).0 a
  activate-Touches install_ca_trust a =
      install_made-Touches enter (system.load_or_create w (launcher_ca_dir system s)).0 a refl
  activate-Touches ca_path a = untouched
  activate-Touches ca_fingerprint a = untouched
  activate-Touches remove_ca a = untouched
