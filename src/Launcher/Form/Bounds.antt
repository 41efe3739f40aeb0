-- ===== src/Launcher/Form/Bounds.antt =====
-- Moving through the form takes no index that is out of range.
use tlscope_rs.Base.{
  ℕ, ◌-◌, ◌≤◌, ◌<◌, ◌≡◌, refl, sym, subst, List, Option, some, arith, ◌==◌, length, min, get_elem?,
  All, if_both,
}
use tlscope_rs.Text.{Text}
use tlscope_rs.Launcher.Index.{get_elem?-some, get_elem?-All, get_elem?-bounded}
use tlscope_rs.Launcher.Field.{
  Field, target, arguments, workdir, start, listen, max_body, env, save_session, https_inspection,
  only_http1, extra_ca_env, redact, show_secrets, ca_dir, ca_status, create_ca, install_ca_trust,
  ca_path, ca_fingerprint, remove_ca, field_position, field_rows,
}
use tlscope_rs.Launcher.Form.{
  LauncherState, Direction, backward, forward, next_within, select_field, select_at, select_in_row,
  move_along, vertical_from, horizontal_from,
}

pub next_within-bounded :
    (d : Direction) (at count : ℕ) → at < count → next_within d at count < count
next_within-bounded backward at count h = omega arith
next_within-bounded forward at count h = omega arith

-- A place of the form: its row is there, and its column is in the row.
IsPlace : ℕ × ℕ → Type 0
IsPlace (row, column) = (r : List Field) × (get_elem? field_rows row ≡ some r) × (column < length r)

field_position-IsPlace : (f : Field) → IsPlace (field_position f)
unfolding IsPlace field_position
field_position-IsPlace target = (_, refl, omega arith)
field_position-IsPlace arguments = (_, refl, omega arith)
field_position-IsPlace workdir = (_, refl, omega arith)
field_position-IsPlace start = (_, refl, omega arith)
field_position-IsPlace listen = (_, refl, omega arith)
field_position-IsPlace max_body = (_, refl, omega arith)
field_position-IsPlace env = (_, refl, omega arith)
field_position-IsPlace save_session = (_, refl, omega arith)
field_position-IsPlace https_inspection = (_, refl, omega arith)
field_position-IsPlace only_http1 = (_, refl, omega arith)
field_position-IsPlace extra_ca_env = (_, refl, omega arith)
field_position-IsPlace redact = (_, refl, omega arith)
field_position-IsPlace show_secrets = (_, refl, omega arith)
field_position-IsPlace ca_dir = (_, refl, omega arith)
field_position-IsPlace ca_status = (_, refl, omega arith)
field_position-IsPlace create_ca = (_, refl, omega arith)
field_position-IsPlace install_ca_trust = (_, refl, omega arith)
field_position-IsPlace ca_path = (_, refl, omega arith)
field_position-IsPlace ca_fingerprint = (_, refl, omega arith)
field_position-IsPlace remove_ca = (_, refl, omega arith)

rows_filled : All (λ (row : List Field). 1 ≤ length row) field_rows
rows_filled = ground arith

-- A move does not panic, and its state has a property that selecting a field and a message have.
module _ (s : LauncherState) (P : LauncherState → Type 0)
    (selects : (f : Field) → P (select_field s f))
    (says : (message : Text) → P (record s { message = message })) where
  Succeeds : Option LauncherState → Type 0
  Succeeds o = (t : LauncherState) × (o ≡ some t) × P t

  say-Succeeds : (message : Text) → Succeeds (some (record s { message = message }))
  unfolding Succeeds
  say-Succeeds message = (record s { message = message }, refl, says message)

  select_at-Succeeds :
      (row : List Field) (column : ℕ) → column < length row → Succeeds (select_at s row column)
  unfolding Succeeds select_at
  select_at-Succeeds row column h =
      let (f, e) = get_elem?-some row column h in
      (select_field s f, rw (select_at, e) refl, selects f)

  select_in_row-Succeeds :
      (column : ℕ) (row : List Field)
      → 1 ≤ length row
      → Succeeds (select_in_row s column (some row))
  unfolding select_in_row
  select_in_row-Succeeds column row h =
      select_at-Succeeds row (min column (length row - 1)) (omega arith)

  pub vertical_from-Succeeds :
      (d : Direction) (f : Field) → (t : LauncherState) × (vertical_from s d f ≡ some t) × P t
  unfolding vertical_from Succeeds IsPlace
  vertical_from-Succeeds d f =
      let row = (field_position f).0 in
      let (r, e, h) = field_position-IsPlace f in
      let next = next_within d row (length field_rows) in
      let (other, found) =
        get_elem?-some field_rows next
          (next_within-bounded d row _ (get_elem?-bounded field_rows row r e)) in
      let filled =
        get_elem?-All (λ (x : List Field). 1 ≤ length x) field_rows next other rows_filled found in
      if_both Succeeds (next == row) (say-Succeeds _) (
        subst (λ o. Succeeds (select_in_row s (field_position f).1 o)) (sym found)
          (select_in_row-Succeeds (field_position f).1 other filled))

  move_along-Succeeds :
      (d : Direction) (column : ℕ) (row : List Field)
      → column < length row
      → Succeeds (move_along s d column (some row))
  unfolding move_along
  move_along-Succeeds d column row h =
      let next = next_within d column (length row) in
      if_both Succeeds (next == column) (say-Succeeds _)
        (select_at-Succeeds row next (next_within-bounded d column (length row) h))

  pub horizontal_from-Succeeds :
      (d : Direction) (f : Field) → (t : LauncherState) × (horizontal_from s d f ≡ some t) × P t
  unfolding horizontal_from Succeeds IsPlace
  horizontal_from-Succeeds d f =
      let (r, e, h) = field_position-IsPlace f in
      subst (λ o. Succeeds (move_along s d (field_position f).1 o)) (sym e)
        (move_along-Succeeds d (field_position f).1 r h)
