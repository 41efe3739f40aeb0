-- ===== src/Launcher/Select.antt =====
-- src/interactive.rs: the keys of the list of files. `none` is a panic on an index out of range.
use tlscope_rs.Base.{ℕ, ◌-◌, [], ◌∷◌, ◌++◌, Option, none, some, length, get_elem?}
use tlscope_rs.Text.{Text, text}
use tlscope_rs.Tui.Keys.{
  KeyCode, char, enter, esc, backspace, delete, left, right, home, end, up, down,
}
use tlscope_rs.Launcher.Form.{LauncherState, LaunchOption, form, backward, forward}
use tlscope_rs.Launcher.Options.{
  filtered_launch_indices, clamp_launch_selection, launch_filter_message,
  move_launch_selection_vertical, move_launch_selection_horizontal,
}
use tlscope_rs.Launcher.System.{System}
use tlscope_rs.Launcher.Run.{build_run_args}
use tlscope_rs.Launcher.Authority.{Turn, stay}
use tlscope_rs.Launcher.Activate.{say, run_or_say}

-- `String::pop`.
abbrev pub pop : Text → Text
pop [] = []
pop (c ∷ []) = []
pop (c ∷ d ∷ s) = c ∷ pop (d ∷ s)

-- The list of files behind a change of its filter.
unfoldable pub refilter : LauncherState → LauncherState
unfolding clamp_launch_selection launch_filter_message
refilter s = let t = clamp_launch_selection s in record t { message = launch_filter_message t }

abbrev pub move_on : {W : Type 0} → W → Option LauncherState → Option (Turn W)
move_on w none = none
move_on w (some s) = some (stay w s)

module _ {W : Type 0} (system : System W) where
  -- The option that Enter launches.
  unfoldable pub launch_option : W → LauncherState → Option LaunchOption → Option (Turn W)
  unfolding build_run_args
  launch_option w s none = none
  launch_option w s (some o) =
      let t = record s { target = o.path } in some (run_or_say w t (build_run_args system w t))

  unfoldable pub launch_selected_option : W → LauncherState → Option ℕ → Option (Turn W)
  unfolding text
  launch_selected_option w s none = some (stay w (say s (text "No launchable file selected.")))
  launch_selected_option w s (some option_index) =
      launch_option w s (get_elem? s.launch_options option_index)

  unfoldable pub handle_launch_select_key : W → LauncherState → KeyCode → Option (Turn W)
  unfolding text move_launch_selection_vertical move_launch_selection_horizontal
      filtered_launch_indices refilter launch_selected_option
  handle_launch_select_key w s down =
      move_on w (move_launch_selection_vertical system.launch_formats s forward)
  handle_launch_select_key w s up =
      move_on w (move_launch_selection_vertical system.launch_formats s backward)
  handle_launch_select_key w s right =
      move_on w (move_launch_selection_horizontal system.launch_formats s forward)
  handle_launch_select_key w s left =
      move_on w (move_launch_selection_horizontal system.launch_formats s backward)
  handle_launch_select_key w s home = some (stay w (record s { launch_selected = 0; message = [] }))
  handle_launch_select_key w s end =
      some (
        stay w
          (record s { launch_selected = length (filtered_launch_indices s) - 1; message = [] }))
  handle_launch_select_key w s backspace =
      some (stay w (refilter (record s { launch_filter = pop s.launch_filter })))
  handle_launch_select_key w s delete = some (stay w (refilter (record s { launch_filter = [] })))
  handle_launch_select_key w s (char ch) =
      some (stay w (refilter (record s { launch_filter = s.launch_filter ++ ch ∷ [] })))
  handle_launch_select_key w s enter =
      launch_selected_option w s (get_elem? (filtered_launch_indices s) s.launch_selected)
  handle_launch_select_key w s esc =
      some (stay w (record s { screen = form; message = text "Program selection cancelled." }))
  handle_launch_select_key w s key =
      some (stay w (say s (text "Choose a launchable file with Enter, or press Esc.")))
