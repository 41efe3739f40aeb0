-- ===== src/Launcher/Options.antt =====
-- src/interactive.rs: the list of files that can be launched, its filter, and moving through its columns.
-- The launch formats of the platform are the argument `formats`.
pub mod Groups
pub mod Bounds
use tlscope_rs.Base.{
  ℕ, ◌+◌, ◌-◌, min, Bool, false, ◌||◌, List, [], ◌∷◌, ◌++◌, Option, none, some, leb, ◌==◌,
  if◌then◌else◌, length, is_empty, get_elem?, each,
}
use tlscope_rs.Text.{Text, text, text_eq, contains, to_ascii_lowercase, join}
use tlscope_rs.Text.Number.{show_uint}
use tlscope_rs.Process.Paths.{file_name}
use tlscope_rs.Launcher.Form.{LauncherState, LaunchOption, Direction, next_within, pick}

unfoldable pub launch_option_name : LaunchOption → Text
launch_option_name o = elim (file_name o.path) [ none ↦ o.path | some name ↦ name ]

unfoldable pub launch_group_title : Text → Text
unfolding text
launch_group_title kind = if text_eq kind (text "file") then text "files" else text "." ++ kind

unfoldable pub is_shown : Text → LaunchOption → Bool
unfolding contains to_ascii_lowercase
is_shown needle o = is_empty needle || contains (to_ascii_lowercase (launch_option_name o)) needle

-- The places, counted from the second argument on, of the options whose name has the needle in it.
unfoldable pub shown_indices : Text → ℕ → List LaunchOption → List ℕ
shown_indices needle at [] = []
shown_indices needle at (o ∷ options) =
    let rest = shown_indices needle (at + 1) options in
    if is_shown needle o then at ∷ rest else rest

unfoldable pub filtered_launch_indices : LauncherState → List ℕ
unfolding shown_indices to_ascii_lowercase
filtered_launch_indices s = shown_indices (to_ascii_lowercase s.launch_filter) 0 s.launch_options

pub record LaunchGroupIndices : Type 0 where
  pub kind : Text
  pub indices : List ℕ

-- An index that is out of range is a panic, `none`, here and in what uses it.
abbrev pub is_of_kind : List LaunchOption → Text → ℕ → Option Bool
is_of_kind options kind index = elim (get_elem? options index) [
  | none ↦ none
  | some o ↦ some (text_eq o.kind kind)
]

-- A place in front of others, if its option is of the kind.
abbrev pub with_place : ℕ → Option Bool → Option (List ℕ) → Option (List ℕ)
with_place at none rest = none
with_place at (some here) none = none
with_place at (some here) (some indices) = some (if here then at ∷ indices else indices)

-- The places in the filtered list, counted from the third argument on, of the options of a kind.
unfoldable pub kind_indices : List LaunchOption → Text → ℕ → List ℕ → Option (List ℕ)
kind_indices options kind at [] = some []
kind_indices options kind at (index ∷ filtered) =
    with_place at (is_of_kind options kind index) (kind_indices options kind (at + 1) filtered)

-- A column in front of others, if it has places.
abbrev pub with_group :
    Text → Option (List ℕ) → Option (List LaunchGroupIndices) → Option (List LaunchGroupIndices)
with_group kind none rest = none
with_group kind (some indices) none = none
with_group kind (some indices) (some groups) =
    some (if is_empty indices then groups else record { kind = kind; indices = indices } ∷ groups)

unfoldable pub groups_of : List LaunchOption → List ℕ → List Text → Option (List LaunchGroupIndices)
unfolding kind_indices
groups_of options filtered [] = some []
groups_of options filtered (kind ∷ formats) =
    with_group kind (kind_indices options kind 0 filtered) (groups_of options filtered formats)

unfoldable pub clamp_launch_selection : LauncherState → LauncherState
clamp_launch_selection s =
    let filtered_len = length (filtered_launch_indices s) in
    if filtered_len == 0
    then record s { launch_selected = 0 }
    else if leb filtered_len s.launch_selected
    then record s { launch_selected = filtered_len - 1 }
    else s

unfoldable pub launch_filter_message : LauncherState → Text
unfolding text show_uint
launch_filter_message s =
    let count = length (filtered_launch_indices s) in
    if is_empty s.launch_filter
    then show_uint count ++ text " launchable files."
    else show_uint count ++ text " matches for '" ++ s.launch_filter ++ text "'."

-- The first place of a number, counted from the second argument on.
abbrev pub index_from : ℕ → ℕ → List ℕ → Option ℕ
index_from selected at [] = none
index_from selected at (index ∷ indices) =
    let rest = index_from selected (at + 1) indices in if index == selected then some at else rest

unfoldable pub position_from : ℕ → ℕ → List LaunchGroupIndices → Option (ℕ × ℕ)
position_from selected at [] = none
position_from selected at (g ∷ groups) =
    let rest = position_from selected (at + 1) groups in
    elim (index_from selected 0 g.indices) [ none ↦ rest | some row ↦ some (at, row) ]

unfoldable pub launch_selection_position : List LaunchGroupIndices → ℕ → Option (ℕ × ℕ)
unfolding position_from
launch_selection_position groups selected = position_from selected 0 groups

-- The place in a column.
abbrev pub place_at : List LaunchGroupIndices → ℕ → ℕ → Option ℕ
place_at groups column row = elim (get_elem? groups column) [
  | none ↦ none
  | some g ↦ get_elem? g.indices row
]

abbrev pub select_place : LauncherState → Option ℕ → Option LauncherState
select_place s none = none
select_place s (some place) = some (record s { launch_selected = place; message = [] })

-- In a column that was indexed.
unfoldable pub move_in_group :
    LauncherState → Direction → ℕ → Option LaunchGroupIndices → Option LauncherState
unfolding text
move_in_group s direction row_index none = none
move_in_group s direction row_index (some g) =
    let next_row = next_within direction row_index (length g.indices) in
    if next_row == row_index
    then some (record s {
      message =
          pick direction (text "Already at the first file in this column.")
            (text "Already at the last file in this column.");
    })
    else select_place s (get_elem? g.indices next_row)

unfoldable pub vertical_move :
    LauncherState → Direction → List LaunchGroupIndices → ℕ × ℕ → Option LauncherState
unfolding move_in_group
vertical_move s direction groups (group_index, row_index) =
    move_in_group s direction row_index (get_elem? groups group_index)

-- The number of places in a column that `place_at` then indexes.
abbrev pub rows_at : List LaunchGroupIndices → ℕ → ℕ
rows_at groups column = elim (get_elem? groups column) [ none ↦ 0 | some g ↦ length g.indices ]

unfoldable pub horizontal_move :
    LauncherState → Direction → List LaunchGroupIndices → ℕ × ℕ → Option LauncherState
unfolding text
horizontal_move s direction groups (group_index, row_index) =
    let next_group = next_within direction group_index (length groups) in
    if next_group == group_index
    then some (record s {
      message =
          pick direction (text "No file column to the left.") (text "No file column to the right.");
    })
    else select_place s (place_at groups next_group (min row_index (rows_at groups next_group - 1)))

-- From the selection, in the columns that were made.
unfoldable pub move_from_selection :
    (LauncherState → List LaunchGroupIndices → ℕ × ℕ → Option LauncherState)
    → LauncherState
    → Option (List LaunchGroupIndices)
    → Option LauncherState
unfolding launch_selection_position
move_from_selection go s none = none
move_from_selection go s (some groups) = elim (launch_selection_position groups s.launch_selected) [
  | none ↦ some (record s { launch_selected = 0 })
  | some place ↦ go s groups place
]

-- What both moves do before they move.
unfoldable pub move_in_groups :
    (LauncherState → List LaunchGroupIndices → ℕ × ℕ → Option LauncherState)
    → LauncherState
    → List Text
    → Option LauncherState
unfolding text groups_of filtered_launch_indices move_from_selection
move_in_groups go s formats =
    let filtered = filtered_launch_indices s in
    if is_empty filtered
    then some
        (record s { message = text "No launchable files match the filter."; launch_selected = 0 })
    else move_from_selection go s (groups_of s.launch_options filtered formats)

module _ (formats : List Text) where
  unfoldable pub supported_launch_formats_label : Text
  unfolding text launch_group_title
  supported_launch_formats_label = join (each launch_group_title formats) (text ", ")

  unfoldable pub launch_group_indices : LauncherState → List ℕ → Option (List LaunchGroupIndices)
  unfolding groups_of
  launch_group_indices s filtered = groups_of s.launch_options filtered formats

  unfoldable pub move_launch_selection_vertical : LauncherState → Direction → Option LauncherState
  unfolding move_in_groups vertical_move
  move_launch_selection_vertical s direction =
      move_in_groups (λ t groups place. vertical_move t direction groups place) s formats

  unfoldable pub move_launch_selection_horizontal : LauncherState → Direction → Option LauncherState
  unfolding move_in_groups horizontal_move
  move_launch_selection_horizontal s direction =
      move_in_groups (λ t groups place. horizontal_move t direction groups place) s formats
