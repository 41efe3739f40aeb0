-- ===== src/Launcher/Options/Bounds.antt =====
-- Moving through the list of files stays within it, and takes no index that is out of range.
use tlscope_rs.Base.{
  ℕ, ◌+◌, ◌-◌, ◌≤◌, ◌<◌, ◌≡◌, refl, sym, ap, ◌∙◌, subst, List, [], Option, none, some, arith, ◌==◌,
  length, is_empty, get_elem?, All, if_under, if_both, leb, min,
}
use tlscope_rs.Text.{Text, to_ascii_lowercase}
use tlscope_rs.Launcher.Index.{get_elem?-some, get_elem?-All, get_elem?-bounded}
use tlscope_rs.Launcher.Form.Bounds.{next_within-bounded}
use tlscope_rs.Launcher.Form.{LauncherState, Direction, next_within}
use tlscope_rs.Launcher.Options.{
  filtered_launch_indices, LaunchGroupIndices, launch_selection_position, place_at, rows_at,
  vertical_move, move_in_group, move_from_selection, horizontal_move, move_in_groups,
  clamp_launch_selection, select_place, move_launch_selection_vertical,
  move_launch_selection_horizontal,
}
use tlscope_rs.Launcher.Options.Groups.{
  shown_indices-bounded, IsGroup, groups_of-IsGroup, Found, position_from-Found,
}

-- The selection is on an option that is shown, or at the beginning if there is none.
unfoldable pub IsWithin : LauncherState → Type 0
IsWithin s = s.launch_selected ≤ length (filtered_launch_indices s) - 1

-- A move that does not panic, and stays within the list.
unfoldable pub StaysWithin : Option LauncherState → Type 0
StaysWithin o = (t : LauncherState) × (o ≡ some t) × IsWithin t

select_place-StaysWithin :
    (s : LauncherState) (place : Option ℕ) (i : ℕ)
    → place ≡ some i
    → i < length (filtered_launch_indices s)
    → StaysWithin (select_place s place)
unfolding StaysWithin IsWithin filtered_launch_indices
select_place-StaysWithin s place i e h =
    (record s { launch_selected = i; message = [] }, ap (select_place s) e, omega arith)

-- A message does not move the selection.
say-StaysWithin :
    (s : LauncherState) (message : Text)
    → IsWithin s
    → StaysWithin (some (record s { message = message }))
unfolding StaysWithin IsWithin filtered_launch_indices
say-StaysWithin s message h = (record s { message = message }, refl, h)

-- The place in a row of a group.
place_at-bounded :
    (n : ℕ) (groups : List LaunchGroupIndices) (column row : ℕ) (g : LaunchGroupIndices)
    → All (IsGroup n) groups
    → get_elem? groups column ≡ some g
    → row < length g.indices
    → (i : ℕ) × (place_at groups column row ≡ some i) × (i < n)
place_at-bounded n groups column row g h e r =
    let found = get_elem?-some g.indices row r in
    let within = (get_elem?-All (IsGroup n) groups column g h e).1 in
    (
      found.0,
      ap (λ x. elim x as (λ y. Option ℕ) [ none ↦ none | some k ↦ get_elem? k.indices row ]) e
          ∙ found.1,
      get_elem?-All (λ i. i < n) g.indices row found.0 within found.1,
    )

rows_at-length :
    (groups : List LaunchGroupIndices) (column : ℕ) (g : LaunchGroupIndices)
    → get_elem? groups column ≡ some g
    → rows_at groups column ≡ length g.indices
rows_at-length groups column g e =
    ap (λ x. elim x as (λ y. ℕ) [ none ↦ 0 | some k ↦ length k.indices ]) e

-- What a move is told of the place it starts from.
abbrev Starts : LauncherState → List LaunchGroupIndices → ℕ × ℕ → Type 0
Starts s groups place =
    (g : LaunchGroupIndices) × (get_elem? groups place.0 ≡ some g)
    × (place.1 < length g.indices)
    × All (IsGroup (length (filtered_launch_indices s))) groups
    × IsWithin s

move_in_group-StaysWithin :
    (s : LauncherState) (d : Direction) (row : ℕ) (g : LaunchGroupIndices)
    → IsGroup (length (filtered_launch_indices s)) g
    → row < length g.indices
    → IsWithin s
    → StaysWithin (move_in_group s d row (some g))
unfolding move_in_group
move_in_group-StaysWithin s d row g group r within =
    let next = next_within d row (length g.indices) in
    let (i, found) = get_elem?-some g.indices next (next_within-bounded d row _ r) in
    let below =
      get_elem?-All (λ k. k < length (filtered_launch_indices s)) g.indices next i group.1 found in
    if_both StaysWithin (next == row) (say-StaysWithin s _ within)
      (select_place-StaysWithin s (get_elem? g.indices next) i found below)

vertical_move-StaysWithin :
    (s : LauncherState) (d : Direction) (groups : List LaunchGroupIndices) (place : ℕ × ℕ)
    → Starts s groups place
    → StaysWithin (vertical_move s d groups place)
unfolding vertical_move
vertical_move-StaysWithin s d groups (column, row) (g, e, r, all, within) =
    let group =
      get_elem?-All (IsGroup (length (filtered_launch_indices s))) groups column g all e in
    subst (λ o. StaysWithin (move_in_group s d row o)) (sym e)
      (move_in_group-StaysWithin s d row g group r within)

horizontal_move-StaysWithin :
    (s : LauncherState) (d : Direction) (groups : List LaunchGroupIndices) (place : ℕ × ℕ)
    → Starts s groups place
    → StaysWithin (horizontal_move s d groups place)
unfolding horizontal_move
horizontal_move-StaysWithin s d groups (column, row) (g, e, r, all, within) =
    let n = length (filtered_launch_indices s) in
    let next = next_within d column (length groups) in
    let inside =
      next_within-bounded d column (length groups) (get_elem?-bounded groups column g e) in
    let other = get_elem?-some groups next inside in
    let rows = rows_at-length groups next other.0 other.1 in
    let some_rows = (get_elem?-All (IsGroup n) groups next other.0 all other.1).0 in
    let target_row = min row (rows_at groups next - 1) in
    let below : target_row < length other.0.indices = omega arith in
    let target = place_at-bounded n groups next target_row other.0 all other.1 below in
    if_both StaysWithin (next == column) (say-StaysWithin s _ within)
      (select_place-StaysWithin s (place_at groups next target_row) target.0 target.1 target.2)

-- The selection at the beginning is always within the list.
first-StaysWithin : (s : LauncherState) → StaysWithin (some (record s { launch_selected = 0 }))
unfolding StaysWithin IsWithin filtered_launch_indices
first-StaysWithin s = (record s { launch_selected = 0 }, refl, omega arith)

none_shown-StaysWithin :
    (s : LauncherState) (message : Text)
    → StaysWithin (some (record s { message = message; launch_selected = 0 }))
unfolding StaysWithin IsWithin filtered_launch_indices
none_shown-StaysWithin s message =
    (record s { message = message; launch_selected = 0 }, refl, omega arith)

module _ (go : LauncherState → List LaunchGroupIndices → ℕ × ℕ → Option LauncherState) where
  -- From the place that was found, or from none.
  from_place-StaysWithin :
      (s : LauncherState) (groups : List LaunchGroupIndices) (found : Option (ℕ × ℕ))
      → ((place : ℕ × ℕ) → found ≡ some place → StaysWithin (go s groups place))
      → StaysWithin (elim found as (λ x. Option LauncherState) [
        | none ↦ some (record s { launch_selected = 0 })
        | some place ↦ go s groups place
      ])
  from_place-StaysWithin s groups none h = first-StaysWithin s
  from_place-StaysWithin s groups (some place) h = h place refl

  from_selection-StaysWithin :
      (s : LauncherState) (groups : List LaunchGroupIndices)
      → ((place : ℕ × ℕ) → Starts s groups place → StaysWithin (go s groups place))
      → All (IsGroup (length (filtered_launch_indices s))) groups
      → IsWithin s
      → StaysWithin (move_from_selection go s (some groups))
  unfolding move_from_selection launch_selection_position Found
  from_selection-StaysWithin s groups moves all within =
      from_place-StaysWithin s groups (launch_selection_position groups s.launch_selected)
        (λ place e.
          let found = position_from-Found s.launch_selected 0 groups place e in
          let zero_off : place.0 - 0 ≡ place.0 = omega arith in
          moves place
            (found.1.0, sym (ap (get_elem? groups) zero_off) ∙ found.1.1, found.1.2, all, within))

  move_in_groups-StaysWithin :
      (s : LauncherState) (formats : List Text)
      → ((groups : List LaunchGroupIndices) (place : ℕ × ℕ)
          → Starts s groups place
          → StaysWithin (go s groups place))
      → IsWithin s
      → StaysWithin (move_in_groups go s formats)
  unfolding move_in_groups filtered_launch_indices
  move_in_groups-StaysWithin s formats moves within =
      let filtered = filtered_launch_indices s in
      let shown = shown_indices-bounded (to_ascii_lowercase s.launch_filter) 0 s.launch_options in
      let count : 0 + length s.launch_options ≡ length s.launch_options = omega arith in
      let (groups, made, all) =
        groups_of-IsGroup s.launch_options filtered formats
          (subst (λ n. All (λ i. i < n) filtered) count shown) in
      if_both StaysWithin (is_empty filtered) (none_shown-StaysWithin s _) (
        subst (λ o. StaysWithin (move_from_selection go s o)) (sym made)
          (from_selection-StaysWithin s groups (moves groups) all within))

pub move_launch_selection_vertical-StaysWithin :
    (formats : List Text) (s : LauncherState) (d : Direction)
    → IsWithin s
    → StaysWithin (move_launch_selection_vertical formats s d)
unfolding move_launch_selection_vertical
move_launch_selection_vertical-StaysWithin formats s d within =
    move_in_groups-StaysWithin (λ t groups place. vertical_move t d groups place) s formats
      (λ groups place h. vertical_move-StaysWithin s d groups place h) within

pub move_launch_selection_horizontal-StaysWithin :
    (formats : List Text) (s : LauncherState) (d : Direction)
    → IsWithin s
    → StaysWithin (move_launch_selection_horizontal formats s d)
unfolding move_launch_selection_horizontal
move_launch_selection_horizontal-StaysWithin formats s d within =
    move_in_groups-StaysWithin (λ t groups place. horizontal_move t d groups place) s formats
      (λ groups place h. horizontal_move-StaysWithin s d groups place h) within

-- Behind a change of the filter the selection is put back within the list.
pub clamp_launch_selection-IsWithin : (s : LauncherState) → IsWithin (clamp_launch_selection s)
unfolding clamp_launch_selection IsWithin filtered_launch_indices
clamp_launch_selection-IsWithin s =
    let n = length (filtered_launch_indices s) in
    if_both IsWithin (n == 0) (omega arith)
      (if_under IsWithin (leb n s.launch_selected) (λ h. omega arith) (λ h. ground arith))
