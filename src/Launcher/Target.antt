-- ===== src/Launcher/Target.antt =====
-- src/interactive.rs: the command that is given, with a folder or a shortcut resolved, and the keys of the
-- selector that a folder opens.
use tlscope_rs.Base.{
  ℕ, Bool, not, ◌&&◌, List, [], ◌∷◌, ◌++◌, Option, none, some, Result, ok, err, ◌>>=◌,
  if◌then◌else◌, is_empty, get_elem?,
}
use tlscope_rs.Text.{Text, text, trim, lines, split_once, eq_ignore_ascii_case}
use tlscope_rs.Tui.Keys.{KeyCode, char, enter, esc, backspace, delete, left, right, up, down}
use tlscope_rs.Process.Targets.{
  ProcessTrackingConfig, for_command, is_empty_config, trim_start_char,
}
use tlscope_rs.Launcher.Form.{LauncherState, launch_select, default_launcher, forward, backward}
use tlscope_rs.Launcher.Options.{
  filtered_launch_indices, supported_launch_formats_label, move_launch_selection_vertical,
  move_launch_selection_horizontal,
}
use tlscope_rs.Launcher.System.{System}
use tlscope_rs.Launcher.Run.{list_launch_options}
use tlscope_rs.Launcher.Activate.{say}
use tlscope_rs.Launcher.Select.{pop, refilter}

pub record ResolvedCommandTarget : Type 0 where
  pub command : List Text
  pub process_tracking : ProcessTrackingConfig

unfoldable pub non_empty_path : Option Text → Option Text
unfolding trim
non_empty_path none = none
non_empty_path (some value) = if is_empty (trim value) then none else some (trim value)

-- The URL of a line, if it has one: a key and a value, behind a byte order mark.
abbrev url_of_line : Text → Option Text
unfolding text trim trim_start_char split_once eq_ignore_ascii_case
url_of_line line = elim (split_once (trim_start_char 0xFEFF (trim line)) b'=') [
  | none ↦ none
  | some (key, value) ↦
      if eq_ignore_ascii_case (trim key) (text "URL") && not (is_empty (trim value))
      then some (trim value)
      else none
]

abbrev first_url : List Text → Option Text
unfolding url_of_line
first_url [] = none
first_url (line ∷ rest) = elim (url_of_line line) [ none ↦ first_url rest | some u ↦ some u ]

unfoldable pub parse_internet_shortcut_url : Text → Option Text
unfolding lines first_url
parse_internet_shortcut_url contents = first_url (lines contents)

-- What a key of the selector leads to: a choice, the end, or the next key. `none` is a panic.
pub data Selection : Type 0 where
  chosen : Text → Selection
  cancelled : Text → Selection
  next : LauncherState → Selection

abbrev after_move : Option LauncherState → Option Selection
after_move none = none
after_move (some s) = some (next s)

abbrev choose : LauncherState → Option ℕ → Option Selection
choose s none = some (next s)
choose s (some option_index) = elim (get_elem? s.launch_options option_index) [
  | none ↦ none
  | some o ↦ some (chosen o.path)
]

module _ {W : Type 0} (system : System W) where
  unfoldable pub choose_launch_target_key : LauncherState → KeyCode → Option Selection
  unfolding text filtered_launch_indices move_launch_selection_vertical
      move_launch_selection_horizontal refilter
  choose_launch_target_key s enter =
      choose s (get_elem? (filtered_launch_indices s) s.launch_selected)
  choose_launch_target_key s esc = some (cancelled (text "launch cancelled"))
  choose_launch_target_key s down =
      after_move (move_launch_selection_vertical system.launch_formats s forward)
  choose_launch_target_key s up =
      after_move (move_launch_selection_vertical system.launch_formats s backward)
  choose_launch_target_key s right =
      after_move (move_launch_selection_horizontal system.launch_formats s forward)
  choose_launch_target_key s left =
      after_move (move_launch_selection_horizontal system.launch_formats s backward)
  choose_launch_target_key s backspace =
      some (next (refilter (record s { launch_filter = pop s.launch_filter })))
  choose_launch_target_key s delete = some (next (refilter (record s { launch_filter = [] })))
  choose_launch_target_key s (char ch) =
      some (next (refilter (record s { launch_filter = s.launch_filter ++ ch ∷ [] })))
  choose_launch_target_key s key =
      some (next (say s (text "Choose with Enter, or cancel with Esc.")))

  -- The selector of a folder as it opens.
  unfoldable pub choose_launch_target_start : W → Text → Result Text LauncherState
  unfolding text list_launch_options supported_launch_formats_label default_launcher
  choose_launch_target_start w folder = do
    options ← list_launch_options system w folder
    (if is_empty options
        then err (
            text "no supported launch files ("
            ++ supported_launch_formats_label system.launch_formats
            ++ text ") found in "
            ++ folder)
        else ok (record default_launcher {
          screen = launch_select;
          launch_options = options;
          message =
              text "Choose a launch file ("
              ++ supported_launch_formats_label system.launch_formats
              ++ text ") from "
              ++ folder
              ++ text ".";
        }))

  unfoldable pub resolve_shortcut_command : W → List Text → Result Text ResolvedCommandTarget
  unfolding text for_command
  resolve_shortcut_command w [] = err (text "child process not specified")
  resolve_shortcut_command w (first ∷ arguments) =
      if not (system.is_shortcut_path first)
      then ok (record {
        command = first ∷ arguments;
        process_tracking = for_command (first ∷ arguments);
      })
      else if not (system.is_file w first)
      then err (text "shortcut is not a file: " ++ first)
      else (do
        resolved ← system.resolve_shortcut_target w first
        ok (record {
          command = resolved.program ∷ (resolved.arguments ++ arguments);
          process_tracking = resolved.process_tracking;
        }))

  abbrev with_tracking : ProcessTrackingConfig → ResolvedCommandTarget → ResolvedCommandTarget
  unfolding is_empty_config
  with_tracking given resolved = record resolved {
    process_tracking = if is_empty_config given then resolved.process_tracking else given;
  }

  -- The outcome of the selector, which a folder opens, is the argument `choose_in`.
  unfoldable pub resolve_command_target :
      W
      → Bool
      → (Text → Result Text Text)
      → List Text
      → ProcessTrackingConfig
      → Result Text ResolvedCommandTarget
  unfolding text resolve_shortcut_command with_tracking
  resolve_command_target w is_terminal choose_in [] tracking =
      err (text "child process not specified")
  resolve_command_target w is_terminal choose_in (first ∷ arguments) tracking =
      if system.is_dir w first
      then (if not is_terminal
          then err (
              text
                "program path points to a folder; run TLScope in a terminal to choose a launch file, or pass the file path directly")
          else (do
            selected ← choose_in first
            resolved ← resolve_shortcut_command w (selected ∷ arguments)
            ok (with_tracking tracking resolved)))
      else (do
        resolved ← resolve_shortcut_command w (first ∷ arguments)
        ok (with_tracking tracking resolved))
