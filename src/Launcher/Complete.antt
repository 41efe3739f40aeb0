-- ===== src/Launcher/Complete.antt =====
-- src/interactive.rs: completing a path that is typed. The separator is that of Unix.
use tlscope_rs.Base.{
  ℕ, ◌+◌, Bool, true, false, not, ◌&&◌, ◌||◌, List, [], ◌∷◌, ◌++◌, Option, none, some, Result, ok,
  err, ltb, ◌==◌, if◌then◌else◌, length, is_empty, get_elem?, each, every, take,
}
use tlscope_rs.Text.{
  Text, text, text_eq, trim, to_lower, to_ascii_lowercase, contains_char, starts_with, byte_len,
  join,
}
use tlscope_rs.Text.Number.{show_uint}
use tlscope_rs.Capture.Suggest.Build.{sort_by, text_le}
use tlscope_rs.Process.Paths.{file_name, parent, join_path, ends_with}
use tlscope_rs.Process.Targets.{trim_matches}
use tlscope_rs.Launcher.Field.{Field, target, workdir, ca_dir, save_session}
use tlscope_rs.Launcher.Form.{LauncherState}
use tlscope_rs.Launcher.System.{System}

pub data CompletionMode : Type 0 where
  executable_or_dir directory any : CompletionMode

pub data CompletionOutcome : Type 0 where
  completed : Text → Text → CompletionOutcome
  choices no_match : Text → CompletionOutcome

pub record CompletionCandidate : Type 0 where
  pub name : Text
  pub is_dir : Bool

unfoldable pub completion_mode : Field → Option CompletionMode
completion_mode target = some executable_or_dir
completion_mode workdir = some directory
completion_mode ca_dir = some directory
completion_mode save_session = some any
completion_mode field = none

unfoldable pub strip_optional_quote : Text → Text × Bool
unfolding text trim_matches
strip_optional_quote input = (trim_matches 34 input, starts_with input (text "\""))

abbrev is_separated : Text → Bool
is_separated value = ends_with value 92 || ends_with value b'/'

abbrev here_if_empty : Option Text → Text
unfolding text
here_if_empty none = text "."
here_if_empty (some dir) = if is_empty dir then text "." else dir

abbrev text_or_empty : Option Text → Text
text_or_empty none = []
text_or_empty (some t) = t

unfoldable pub completion_join : Text → Text → Text
unfolding text join_path
completion_join base_dir name =
    if text_eq base_dir (text ".") then name else join_path base_dir name

unfoldable pub format_path_for_edit : Text → Bool → Bool → Text
unfolding contains_char
format_path_for_edit path append_separator force_quote =
    let value = if append_separator && not (is_separated path) then path ++ b'/' ∷ [] else path in
    if force_quote || contains_char value b' ' then 34 ∷ (value ++ 34 ∷ []) else value

-- The characters of the first value that all values have at their place, which counts from the third
-- argument on.
unfoldable pub common_from : List Text → Text → ℕ → Text
unfolding to_lower
common_from values [] index = []
common_from values (ch ∷ first) index =
    let rest = common_from values first (index + 1) in
    if every
      (λ (value : Text). elim (get_elem? value index) [
        | none ↦ false
        | some c ↦ to_lower c == to_lower ch
      ])
      values
    then ch ∷ rest
    else []

unfoldable pub common_prefix : List Text → Text
unfolding common_from
common_prefix [] = []
common_prefix (first ∷ values) = common_from (first ∷ values) first 0

unfoldable pub after_completion : LauncherState → Result Text CompletionOutcome → LauncherState
after_completion s (err e) = record s { message = e }
after_completion s (ok (completed value message)) = record s {
  edit_buffer = value;
  message = message;
}
after_completion s (ok (choices message)) = record s { message = message }
after_completion s (ok (no_match message)) = record s { message = message }

module _ {W : Type 0} (system : System W) where
  abbrev pub launch_file_kind : W → Text → Option Text
  launch_file_kind w path = if system.is_file w path then system.launch_kind_for_path path else none

  unfoldable pub is_launchable_file : W → Text → Bool
  is_launchable_file w path = elim (launch_file_kind w path) [ none ↦ false | some kind ↦ true ]

  unfoldable pub completion_candidate_allowed : W → Text → CompletionMode → Bool
  completion_candidate_allowed w path any = true
  completion_candidate_allowed w path directory = system.is_dir w path
  completion_candidate_allowed w path executable_or_dir =
      system.is_dir w path || is_launchable_file w path

  unfoldable pub completion_base_and_prefix : W → Text → Text × Text
  unfolding text file_name parent
  completion_base_and_prefix w input =
      if is_empty input
      then (text ".", [])
      else if is_separated input || system.is_dir w input
      then (input, [])
      else (here_if_empty (parent input), text_or_empty (file_name input))

  unfoldable pub candidates_of :
      W → Text → Text → CompletionMode → List Text → List CompletionCandidate
  unfolding to_ascii_lowercase completion_candidate_allowed join_path
  candidates_of w base_dir prefix mode [] = []
  candidates_of w base_dir prefix mode (name ∷ names) =
      let path = join_path base_dir name in
      let rest = candidates_of w base_dir prefix mode names in
      if completion_candidate_allowed w path mode
        && starts_with (to_ascii_lowercase name) (to_ascii_lowercase prefix)
      then record { name = name; is_dir = system.is_dir w path } ∷ rest
      else rest

  unfoldable pub completion_of : Text → Text → Bool → List CompletionCandidate → CompletionOutcome
  unfolding text show_uint byte_len completion_join format_path_for_edit common_prefix
  completion_of base_dir prefix quoted [] =
      no_match (text "No path matches '" ++ prefix ++ text "' in " ++ base_dir ++ text ".")
  completion_of base_dir prefix quoted (candidate ∷ []) =
      completed
        (format_path_for_edit (completion_join base_dir candidate.name) candidate.is_dir quoted)
        (text "Completed " ++ candidate.name ++ text ".")
  completion_of base_dir prefix quoted (first ∷ second ∷ rest) =
      let names : List Text = each (λ (c : CompletionCandidate). c.name) (first ∷ second ∷ rest) in
      let common = common_prefix names in
      if ltb (byte_len prefix) (byte_len common)
      then completed (format_path_for_edit (completion_join base_dir common) false quoted)
          (text "Completed common prefix; " ++ show_uint (length names) ++ text " matches.")
      else choices
          (show_uint (length names) ++ text " matches: " ++ join (take 5 names) (text ", "))

  unfoldable pub complete_path_input : W → Text → CompletionMode → Result Text CompletionOutcome
  unfolding text trim strip_optional_quote completion_base_and_prefix candidates_of completion_of
      sort_by to_ascii_lowercase
  complete_path_input w input mode =
      let (raw, quoted) = strip_optional_quote (trim input) in
      let (base_dir, prefix) = completion_base_and_prefix w raw in
      elim (system.read_dir w base_dir) [
        | err e ↦ err (text "cannot read " ++ base_dir ++ text ": " ++ e)
        | ok names ↦ ok (
            completion_of base_dir prefix quoted (
              sort_by
                (λ (a b : CompletionCandidate).
                  text_le (to_ascii_lowercase a.name) (to_ascii_lowercase b.name))
                (candidates_of w base_dir prefix mode names)))
      ]

  unfoldable pub complete_edit_buffer : W → LauncherState → Field → LauncherState
  unfolding text completion_mode complete_path_input after_completion
  complete_edit_buffer w s field = elim (completion_mode field) [
    | none ↦ record s { message = text "Path completion is not available for this field." }
    | some mode ↦ after_completion s (complete_path_input w s.edit_buffer mode)
  ]
