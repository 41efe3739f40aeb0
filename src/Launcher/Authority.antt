-- ===== src/Launcher/Authority.antt =====
-- src/interactive.rs: what the launcher does with the certificate authority.
use tlscope_rs.Base.{
  Bool, true, false, not, ◌++◌, Option, none, some, Result, ok, err, if◌then◌else◌,
}
use tlscope_rs.Text.{Text, text}
use tlscope_rs.Process.Paths.{join_path}
use tlscope_rs.Launcher.Args.{optional_path}
use tlscope_rs.Launcher.Form.{LauncherState}
use tlscope_rs.Launcher.Run.{RunArgs}
use tlscope_rs.Launcher.System.{System, Authority}

-- What a key leads to: an error, which ends the launcher, a run, or neither.
pub record Turn (W : Type 0) : Type 0 where
  pub outcome : Result Text (Option RunArgs)
  pub state : LauncherState
  pub world : W

abbrev pub stay : {W : Type 0} → W → LauncherState → Turn W
stay w s = record { outcome = ok none; state = s; world = w }

abbrev known : Result Text Text → Text
unfolding text
known (ok fingerprint) = fingerprint
known (err e) = text "unknown"

abbrev trust : LauncherState → Text → Text → LauncherState
trust s status message = record s { ca_trust_status = status; message = message }

unfoldable pub ca_cert_path : Text → Text
unfolding text join_path
ca_cert_path dir = join_path dir (text "TLScope-ca.pem")

module _ {W : Type 0} (system : System W) where
  unfoldable pub launcher_ca_dir : LauncherState → Text
  unfolding optional_path
  launcher_ca_dir s = elim (optional_path s.ca_dir) [
    | none ↦ system.default_ca_dir
    | some dir ↦ dir
  ]

  unfoldable pub inspected : LauncherState → Text → Result Text Bool → LauncherState
  unfolding text
  inspected s fingerprint (ok true) =
      trust s (text "trusted") (text "CA is trusted. SHA-256 " ++ fingerprint)
  inspected s fingerprint (ok false) =
      trust s (text "not trusted") (text "CA exists but is not trusted. SHA-256 " ++ fingerprint)
  inspected s fingerprint (err e) =
      trust s (text "check failed") (text "Cannot inspect OS trust store: " ++ e)

  unfoldable pub check_ca_status_from_launcher : W → LauncherState → Turn W
  unfolding text launcher_ca_dir ca_cert_path inspected
  check_ca_status_from_launcher w s =
      let ca_dir = launcher_ca_dir s in
      let cert_path = ca_cert_path ca_dir in
      if not (system.exists w cert_path)
      then stay w (
          trust s (text "not created")
            (text "No TLScope CA at " ++ cert_path ++ text ". Choose Create CA."))
      else stay w (
          inspected s (known (system.ca_fingerprint_from_dir w ca_dir))
            (system.is_current_user_root_installed w cert_path))

  unfoldable pub created : W → LauncherState → Result Text Authority → Turn W
  unfolding text
  created w s (ok ca) = stay w (
      trust s (text "not checked")
        (text "CA ready at " ++ ca.cert_path ++ text ". SHA-256 " ++ known ca.fingerprint))
  created w s (err e) =
      stay w (trust s (text "CA error") (text "Cannot create/load TLScope CA: " ++ e))

  unfoldable pub create_ca_from_launcher : W → LauncherState → Turn W
  unfolding launcher_ca_dir created
  create_ca_from_launcher w s =
      let (made, next) = system.load_or_create w (launcher_ca_dir s) in created next s made

  unfoldable pub installed : LauncherState → Text → Option Text × W → Turn W
  unfolding text
  installed s fingerprint (none, w) = stay w (
      trust s (text "trusted")
        (text "Installed TLScope CA into CurrentUser Root. SHA-256 " ++ fingerprint))
  installed s fingerprint (some e, w) =
      stay w (trust s (text "install failed") (text "CA install failed: " ++ e))

  unfoldable pub install_if_new : W → LauncherState → Authority → Result Text Bool → Turn W
  unfolding text installed
  install_if_new w s ca (ok true) = stay w (
      trust s (text "trusted")
        (text "TLScope CA is already trusted. SHA-256 " ++ known ca.fingerprint))
  install_if_new w s ca (ok false) =
      installed s (known ca.fingerprint) (system.install_current_user_root w ca.cert_path)
  install_if_new w s ca (err e) =
      stay w (trust s (text "check failed") (text "Cannot inspect CurrentUser Root store: " ++ e))

  unfoldable pub install_made : W → LauncherState → Result Text Authority → Turn W
  unfolding text install_if_new
  install_made w s (ok ca) =
      install_if_new w s ca (system.is_current_user_root_installed w ca.cert_path)
  install_made w s (err e) =
      stay w (trust s (text "CA error") (text "Cannot create/load TLScope CA: " ++ e))

  unfoldable pub install_ca_trust_from_launcher : W → LauncherState → Turn W
  unfolding launcher_ca_dir install_made
  install_ca_trust_from_launcher w s =
      let (made, next) = system.load_or_create w (launcher_ca_dir s) in install_made next s made

  unfoldable pub show_ca_path_from_launcher : W → LauncherState → Turn W
  unfolding text launcher_ca_dir ca_cert_path
  show_ca_path_from_launcher w s =
      let cert_path = ca_cert_path (launcher_ca_dir s) in
      let note =
        if system.exists w cert_path then text "certificate" else text "planned certificate path" in
      stay w (record s { message = text "CA " ++ note ++ text ": " ++ cert_path })

  abbrev fingerprint_message : Result Text Text → Text
  unfolding text
  fingerprint_message (ok fingerprint) = text "CA SHA-256 fingerprint: " ++ fingerprint
  fingerprint_message (err e) = text "Cannot read CA fingerprint: " ++ e

  unfoldable pub show_ca_fingerprint_from_launcher : W → LauncherState → Turn W
  unfolding launcher_ca_dir fingerprint_message
  show_ca_fingerprint_from_launcher w s = stay w (record s {
    message = fingerprint_message (system.ca_fingerprint_from_dir w (launcher_ca_dir s));
  })

  unfoldable pub begin_ca_remove_from_launcher : W → LauncherState → Turn W
  unfolding text launcher_ca_dir
  begin_ca_remove_from_launcher w s = stay w (record s {
    confirm_remove_ca = true;
    message =
        text "Remove local CA files in "
        ++ launcher_ca_dir s
        ++ text "? Enter/y confirms. This does not remove OS trust.";
  })

  unfoldable pub removed : Text → LauncherState → Result Text Bool → LauncherState
  unfolding text
  removed dir s (ok true) = trust s (text "not created") (
      text "Removed local CA files from "
      ++ dir
      ++ text ". Remove OS trust manually if it was installed.")
  removed dir s (ok false) =
      trust s (text "not created") (text "No TLScope-created CA files were removed.")
  removed dir s (err e) =
      trust s (text "remove failed") (text "Cannot remove local CA files: " ++ e)

  unfoldable pub remove_ca_files : W → LauncherState → Turn W
  unfolding launcher_ca_dir removed
  remove_ca_files w s =
      let (gone, next) = system.remove_created_files w (launcher_ca_dir s) true in
      stay next (removed (launcher_ca_dir s) (record s { confirm_remove_ca = false }) gone)
