-- ===== src/Launcher/Run.antt =====
-- src/interactive.rs: what a launch runs, and the files of a folder that can be launched; src/cli.rs: the
-- arguments of a run. A number of bytes is to fit in 64 bits.
use tlscope_rs.Base.{
  ℕ, ◌+◌, ◌-◌, Bool, false, not, ◌&&◌, ◌||◌, List, [], ◌∷◌, ◌++◌, Option, none, some, Result, ok,
  err, ok_or, ◌>>=◌, ltb, ◌==◌, if◌then◌else◌, is_empty, u64_mod, u16_mod,
}
use tlscope_rs.Text.{
  Text, text, text_eq, trim, to_ascii_lowercase, rsplit_once, strip_prefix, strip_suffix,
  starts_with,
}
use tlscope_rs.Text.Number.{parse_uint}
use tlscope_rs.Text.Ip.{is_ipv4, is_ipv6}
use tlscope_rs.Capture.Suggest.Build.{sort_by, text_le}
use tlscope_rs.Process.Paths.{file_name, parent, join_path}
use tlscope_rs.Process.Targets.{ProcessTrackingConfig, default_config, add_target_path}
use tlscope_rs.Launcher.Args.{split_args, parse_env_overrides, normalize_path, optional_path}
use tlscope_rs.Launcher.Form.{LauncherState, LaunchOption}
use tlscope_rs.Launcher.Options.{supported_launch_formats_label}
use tlscope_rs.Launcher.System.{System, ResolvedLaunchTarget}
use tlscope_rs.Launcher.Complete.{launch_file_kind, is_launchable_file}

pub record SocketAddr : Type 0 where
  pub ip : Text
  pub port : ℕ

pub record CommonProxyArgs : Type 0 where
  pub listen : SocketAddr
  pub no_tls_decryption : Bool
  pub only_http1 : Bool
  pub ca_dir : Option Text
  pub max_body_size : ℕ
  pub redact : Bool
  pub show_secrets : Bool
  pub save_session : Option Text
  pub allow_external : Bool

pub record RunArgs : Type 0 where
  pub common : CommonProxyArgs
  pub workdir : Option Text
  pub env : List Text
  pub no_extra_ca_env : Bool
  pub tls_confirmed : Bool
  pub command : List Text
  pub process_tracking : ProcessTrackingConfig

abbrev with_ip : Text → Option ℕ → Option SocketAddr
with_ip ip none = none
with_ip ip (some port) = some (record { ip = ip; port = port })

-- A port of an address has digits only.
abbrev address_port : Text → Option ℕ
unfolding text parse_uint
address_port port = if starts_with port (text "+") then none else parse_uint u16_mod port

abbrev bracketed_ip : Text → Option Text
unfolding text strip_suffix
bracketed_ip host = elim (strip_prefix host (text "[")) [
  | none ↦ none
  | some rest ↦ strip_suffix rest (text "]")
]

-- The parser of socket addresses, without the scopes of IPv6.
unfoldable pub parse_socket_addr : Text → Option SocketAddr
unfolding address_port bracketed_ip rsplit_once is_ipv4 is_ipv6
parse_socket_addr value = elim (rsplit_once value b':') [
  | none ↦ none
  | some (host, port) ↦
      if is_ipv4 host then with_ip host (address_port port) else elim (bracketed_ip host) [
        | none ↦ none
        | some ip ↦ if is_ipv6 ip then with_ip ip (address_port port) else none
      ]
]

unfoldable pub tracking_for_target_path : Text → ProcessTrackingConfig
tracking_for_target_path path = add_target_path default_config path

unfoldable pub build_resolved_command : ResolvedLaunchTarget → Text → Result Text (List Text)
unfolding split_args
build_resolved_command resolved user_args = do
  args ← split_args user_args
  ok (resolved.program ∷ (resolved.arguments ++ args))

abbrev or_else : Option Text → Option Text → Option Text
or_else none b = b
or_else (some a) b = some a

abbrev unwrap_or : Option Text → Text → Text
unwrap_or none t = t
unwrap_or (some a) t = a

-- The first place of a format among those of the platform.
abbrev format_place : Text → ℕ → List Text → Option ℕ
format_place kind at [] = none
format_place kind at (format ∷ formats) =
    let rest = format_place kind (at + 1) formats in if text_eq format kind then some at else rest

unfoldable pub launch_format_order : List Text → Text → ℕ
launch_format_order formats kind = elim (format_place kind 0 formats) [
  | none ↦ u64_mod - 1
  | some place ↦ place
]

abbrev name_key : LaunchOption → Text
unfolding file_name to_ascii_lowercase
name_key o = to_ascii_lowercase (unwrap_or (file_name o.path) [])

unfoldable pub option_le : List Text → LaunchOption → LaunchOption → Bool
unfolding launch_format_order name_key
option_le formats a b =
    ltb (launch_format_order formats a.kind) (launch_format_order formats b.kind)
    || ((launch_format_order formats a.kind == launch_format_order formats b.kind)
        && text_le (name_key a) (name_key b))

module _ {W : Type 0} (system : System W) where
  unfoldable pub options_in : W → Text → List Text → List LaunchOption
  unfolding join_path
  options_in w folder [] = []
  options_in w folder (name ∷ names) =
      let path = join_path folder name in
      let rest = options_in w folder names in
      elim (launch_file_kind system w path) [
        | none ↦ rest
        | some kind ↦ record { path = path; kind = kind } ∷ rest
      ]

  unfoldable pub list_launch_options : W → Text → Result Text (List LaunchOption)
  unfolding text options_in sort_by option_le
  list_launch_options w folder = elim (system.read_dir w folder) [
    | err e ↦ err (text "cannot read folder " ++ folder)
    | ok names ↦ ok (sort_by (option_le system.launch_formats) (options_in w folder names))
  ]

  unfoldable pub resolve_launch_target : W → Text → Result Text ResolvedLaunchTarget
  unfolding parent tracking_for_target_path
  resolve_launch_target w target =
      if system.is_shortcut_path target
      then system.resolve_shortcut_target w target
      else ok (record {
        program = target;
        arguments = [];
        workdir = parent target;
        process_tracking = tracking_for_target_path target;
      })

  -- The messages of what failed are those at the top of the chain.
  unfoldable pub build_run_args : W → LauncherState → Result Text RunArgs
  unfolding text trim parse_uint parent supported_launch_formats_label resolve_launch_target
      parse_socket_addr build_resolved_command parse_env_overrides normalize_path optional_path
      is_launchable_file
  build_run_args w s =
      let target = normalize_path s.target in
      if not (is_launchable_file system w target)
      then err (
          text "target is not a supported launch file ("
          ++ supported_launch_formats_label system.launch_formats
          ++ text "): "
          ++ target)
      else (do
        resolved ← resolve_launch_target w target
        listen ←
            ok_or (parse_socket_addr (trim s.listen))
              (text "invalid proxy listen address '" ++ trim s.listen ++ text "'")
        max_body_size ←
            ok_or (parse_uint u64_mod (trim s.max_body_size))
              (text "invalid max body size '" ++ trim s.max_body_size ++ text "'")
        command ← build_resolved_command resolved s.arguments
        let default_workdir =
              unwrap_or
                (or_else resolved.workdir (or_else (parent resolved.program) (parent target)))
                (text ".") in
            ok (record {
              common = record {
                listen = listen;
                no_tls_decryption = not s.https_inspection;
                only_http1 = s.only_http1;
                ca_dir = optional_path s.ca_dir;
                max_body_size = max_body_size;
                redact = s.redact;
                show_secrets = s.show_secrets;
                save_session = optional_path s.save_session;
                allow_external = false;
              };
              workdir =
                  some (
                    if is_empty (trim s.workdir)
                    then default_workdir
                    else normalize_path s.workdir);
              env = parse_env_overrides s.env;
              no_extra_ca_env = not s.extra_ca_env;
              tls_confirmed = s.https_inspection;
              command = command;
              process_tracking = resolved.process_tracking;
            }))
