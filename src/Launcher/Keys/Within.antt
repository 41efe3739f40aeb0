-- ===== src/Launcher/Keys/Within.antt =====
-- No key of the launcher panics, and the selection stays within the list of files.
use tlscope_rs.Base.{
  ℕ, ◌+◌, ◌-◌, ◌<◌, ◌≡◌, refl, ap, true, false, ◌||◌, [], ◌∷◌, ◌++◌, Option, none, some, arith,
  ◌==◌, length, get_elem?, if_both,
}
use tlscope_rs.Text.{text, to_ascii_lowercase}
use tlscope_rs.Tui.Keys.{
  KeyCode, char, enter, esc, backspace, delete, left, right, home, end, up, down, tab, back_tab,
  page_up, page_down, other,
}
use tlscope_rs.Launcher.Field.{Field}
use tlscope_rs.Launcher.Form.{
  LauncherState, LaunchOption, LauncherScreen, form, launch_select, forward, backward,
}
use tlscope_rs.Launcher.Options.{
  shown_indices, filtered_launch_indices, clamp_launch_selection, move_launch_selection_vertical,
  move_launch_selection_horizontal,
}
use tlscope_rs.Launcher.Index.{get_elem?-some, get_elem?-All}
use tlscope_rs.Launcher.Options.Groups.{shown_indices-bounded}
use tlscope_rs.Launcher.Options.Bounds.{
  IsWithin, StaysWithin, clamp_launch_selection-IsWithin,
  move_launch_selection_vertical-StaysWithin, move_launch_selection_horizontal-StaysWithin,
}
use tlscope_rs.Launcher.System.{System}
use tlscope_rs.Launcher.Run.{build_run_args}
use tlscope_rs.Launcher.Authority.{Turn, stay, launcher_ca_dir, remove_ca_files}
use tlscope_rs.Launcher.Keys.{
  handle_launcher_key, handle_screen_key, handle_ca_remove_confirmation, handle_edit_key,
}
use tlscope_rs.Launcher.Activate.{run_or_say}
use tlscope_rs.Launcher.Select.{
  handle_launch_select_key, move_on, launch_option, launch_selected_option, refilter, pop,
}
use tlscope_rs.Launcher.Keys.View.{IsWithin-view, Unmoved, handle_edit_key-Unmoved, removed-Unmoved}
use tlscope_rs.Launcher.Keys.Form.{
  Keeps, keeps, unmoved, run_or_say-IsWithin, say-IsWithin, say-Keeps, form-Keeps,
}

module _ {W : Type 0} (system : System W) (w : W) (s : LauncherState) (within : IsWithin s) where
  move_on-Keeps : (o : Option LauncherState) → StaysWithin o → Keeps (move_on w o)
  unfolding Keeps StaysWithin
  move_on-Keeps o (t, e, h) = (stay w t, ap (move_on w) e, h)

  -- Every place of the list that is shown is that of an option.
  shown_option :
      (index : ℕ)
      → get_elem? (filtered_launch_indices s) s.launch_selected ≡ some index
      → (o : LaunchOption) × (get_elem? s.launch_options index ≡ some o)
  unfolding filtered_launch_indices
  shown_option index e =
      let bounded =
        get_elem?-All (λ i. i < 0 + length s.launch_options)
          (shown_indices (to_ascii_lowercase s.launch_filter) 0 s.launch_options) s.launch_selected
          index (shown_indices-bounded (to_ascii_lowercase s.launch_filter) 0 s.launch_options) e in
      get_elem?-some s.launch_options index (omega arith)

  launch-Keeps :
      (found : Option ℕ)
      → get_elem? (filtered_launch_indices s) s.launch_selected ≡ found
      → Keeps (launch_selected_option system w s found)
  unfolding launch_selected_option launch_option Keeps Unmoved
  launch-Keeps none e = keeps _ (say-IsWithin system w s within _)
  launch-Keeps (some index) e =
      let o = shown_option index e in
      let t = record s { target = o.0.path } in
      (
        run_or_say w t (build_run_args system w t),
        ap (launch_option system w s) o.1,
        run_or_say-IsWithin system w s within t (build_run_args system w t) refl,
      )

  refilter-Keeps : (t : LauncherState) → Keeps (some (stay w (refilter t)))
  unfolding refilter Keeps
  refilter-Keeps t = (
    stay w (refilter t),
    refl,
    IsWithin-view (clamp_launch_selection t) (refilter t) refl (clamp_launch_selection-IsWithin t),
  )

  select-Keeps : (key : KeyCode) → Keeps (handle_launch_select_key system w s key)
  unfolding handle_launch_select_key refilter Unmoved IsWithin filtered_launch_indices
  select-Keeps down =
      move_on-Keeps (move_launch_selection_vertical system.launch_formats s forward)
        (move_launch_selection_vertical-StaysWithin system.launch_formats s forward within)
  select-Keeps up =
      move_on-Keeps (move_launch_selection_vertical system.launch_formats s backward)
        (move_launch_selection_vertical-StaysWithin system.launch_formats s backward within)
  select-Keeps right =
      move_on-Keeps (move_launch_selection_horizontal system.launch_formats s forward)
        (move_launch_selection_horizontal-StaysWithin system.launch_formats s forward within)
  select-Keeps left =
      move_on-Keeps (move_launch_selection_horizontal system.launch_formats s backward)
        (move_launch_selection_horizontal-StaysWithin system.launch_formats s backward within)
  select-Keeps home = keeps (stay w (record s { launch_selected = 0; message = [] })) (omega arith)
  select-Keeps end =
      keeps
        (stay w
          (record s { launch_selected = length (filtered_launch_indices s) - 1; message = [] }))
        (omega arith)
  select-Keeps backspace = refilter-Keeps (record s { launch_filter = pop s.launch_filter })
  select-Keeps delete = refilter-Keeps (record s { launch_filter = [] })
  select-Keeps (char ch) = refilter-Keeps (record s { launch_filter = s.launch_filter ++ ch ∷ [] })
  select-Keeps enter = launch-Keeps (get_elem? (filtered_launch_indices s) s.launch_selected) refl
  select-Keeps esc = keeps _ (
      unmoved system w s within
        (record s { screen = form; message = text "Program selection cancelled." }) refl)
  select-Keeps tab = say-Keeps system w s within _
  select-Keeps back_tab = say-Keeps system w s within _
  select-Keeps page_up = say-Keeps system w s within _
  select-Keeps page_down = say-Keeps system w s within _
  select-Keeps other = say-Keeps system w s within _

  removal-IsWithin : IsWithin (remove_ca_files system w s).state
  unfolding remove_ca_files Unmoved
  removal-IsWithin =
      let t = record s { confirm_remove_ca = false } in
      let kept : IsWithin t = unmoved system w s within t refl in
      IsWithin-view t (remove_ca_files system w s).state
        (removed-Unmoved t system w (launcher_ca_dir system s)
          (system.remove_created_files w (launcher_ca_dir system s) true).0)
        kept

  confirmation-IsWithin :
      (key : KeyCode) → IsWithin (handle_ca_remove_confirmation system w s key).state
  unfolding handle_ca_remove_confirmation Unmoved
  confirmation-IsWithin enter = removal-IsWithin
  confirmation-IsWithin esc =
      unmoved system w s within (handle_ca_remove_confirmation system w s esc).state refl
  confirmation-IsWithin (char c) =
      let P : Turn W → Type 0 = λ t. IsWithin t.state in
      if_both P (c == b'y' || c == b'Y') removal-IsWithin (
        if_both P (c == b'n' || c == b'N')
          (unmoved system w s within (handle_ca_remove_confirmation system w s esc).state refl)
          (say-IsWithin system w s within _))
  confirmation-IsWithin backspace = say-IsWithin system w s within _
  confirmation-IsWithin delete = say-IsWithin system w s within _
  confirmation-IsWithin left = say-IsWithin system w s within _
  confirmation-IsWithin right = say-IsWithin system w s within _
  confirmation-IsWithin home = say-IsWithin system w s within _
  confirmation-IsWithin end = say-IsWithin system w s within _
  confirmation-IsWithin up = say-IsWithin system w s within _
  confirmation-IsWithin down = say-IsWithin system w s within _
  confirmation-IsWithin tab = say-IsWithin system w s within _
  confirmation-IsWithin back_tab = say-IsWithin system w s within _
  confirmation-IsWithin page_up = say-IsWithin system w s within _
  confirmation-IsWithin page_down = say-IsWithin system w s within _
  confirmation-IsWithin other = say-IsWithin system w s within _

  screen-Keeps :
      (key : KeyCode) (editing : Option Field) (screen : LauncherScreen)
      → Keeps (handle_screen_key system w s key editing screen)
  unfolding handle_screen_key
  screen-Keeps key (some field) screen = keeps _ (
      unmoved system w s within (handle_edit_key system w s field key)
        (handle_edit_key-Unmoved s system w field key))
  screen-Keeps key none form = form-Keeps system w s within key
  screen-Keeps key none launch_select = select-Keeps key

  launcher-Keeps : (key : KeyCode) → Keeps (handle_launcher_key system w s key)
  unfolding handle_launcher_key
  launcher-Keeps key =
      if_both Keeps s.confirm_remove_ca
        (keeps (handle_ca_remove_confirmation system w s key) (confirmation-IsWithin key))
        (screen-Keeps key s.editing s.screen)

-- With the selection on an option that is shown, or at the beginning of an empty list, every
-- key of the launcher is answered, without a panic on an index that is out of range, and keeps
-- the selection so.
pub handle_launcher_key-IsWithin :
    {W : Type 0} (system : System W) (w : W) (s : LauncherState) (key : KeyCode)
    → IsWithin s
    → (t : Turn W) × (handle_launcher_key system w s key ≡ some t) × IsWithin t.state
unfolding Keeps
handle_launcher_key-IsWithin system w s key h = launcher-Keeps system w s h key
