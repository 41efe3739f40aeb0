-- ===== src/Launcher/System.antt =====
-- What the launcher of src/interactive.rs asks of the rest of the program: the files, the launch formats
-- of the platform, and the certificate authority of src/certificates. `W` is the state they keep.
use tlscope_rs.Base.{Bool, List, Option, Result}
use tlscope_rs.Text.{Text}
use tlscope_rs.Process.Targets.{ProcessTrackingConfig}

pub record ResolvedLaunchTarget : Type 0 where
  pub program : Text
  pub arguments : List Text
  pub workdir : Option Text
  pub process_tracking : ProcessTrackingConfig

-- `LocalAuthority`, as the launcher sees it.
pub record Authority : Type 0 where
  pub fingerprint : Result Text Text
  pub cert_path : Text

-- A directory is read as the names of its entries, and an installation gives an error or nothing.
pub record System (W : Type 0) : Type 0 where
  pub exists : W → Text → Bool
  pub is_dir : W → Text → Bool
  pub is_file : W → Text → Bool
  pub read_dir : W → Text → Result Text (List Text)
  pub launch_formats : List Text
  pub launch_kind_for_path : Text → Option Text
  pub is_shortcut_path : Text → Bool
  pub resolve_shortcut_target : W → Text → Result Text ResolvedLaunchTarget
  pub default_ca_dir : Text
  pub load_or_create : W → Text → Result Text Authority × W
  pub ca_fingerprint_from_dir : W → Text → Result Text Text
  pub is_current_user_root_installed : W → Text → Result Text Bool
  pub install_current_user_root : W → Text → Option Text × W
  pub remove_created_files : W → Text → Bool → Result Text Bool × W
