-- ===== src/Launcher/Form.antt =====
-- src/interactive.rs: the state of the launcher, moving through its form, and editing a field. Opening the
-- certificates' directory of the system is the argument of what needs it.
pub mod Bounds
pub mod Reach
use tlscope_rs.Base.{
  ℕ, ◌+◌, ◌-◌, min, Bool, true, false, List, [], ◌∷◌, Option, none, some, ltb, ◌==◌, if◌then◌else◌,
  length, is_empty, get_elem?,
}
use tlscope_rs.Text.{Text, text, trim}
use tlscope_rs.Launcher.Field.{
  Field, fields, field_rows, same_field, position_of, field_position, target, arguments, workdir,
  start, listen, max_body, env, save_session, https_inspection, only_http1, extra_ca_env, redact,
  show_secrets, ca_dir, ca_status, create_ca, install_ca_trust, ca_path, ca_fingerprint, remove_ca,
}

pub data LauncherScreen : Type 0 where
  form launch_select : LauncherScreen

-- The kind is one of the launch formats.
pub record LaunchOption : Type 0 where
  pub path : Text
  pub kind : Text

pub record LauncherState : Type 0 where
  pub screen : LauncherScreen
  pub selected : ℕ
  pub editing : Option Field
  pub edit_buffer : Text
  pub target : Text
  pub arguments : Text
  pub workdir : Text
  pub listen : Text
  pub ca_dir : Text
  pub max_body_size : Text
  pub env : Text
  pub save_session : Text
  pub https_inspection : Bool
  pub only_http1 : Bool
  pub extra_ca_env : Bool
  pub redact : Bool
  pub show_secrets : Bool
  pub ca_trust_status : Text
  pub confirm_remove_ca : Bool
  pub launch_options : List LaunchOption
  pub launch_selected : ℕ
  pub launch_filter : Text
  pub message : Text

unfoldable pub default_launcher : LauncherState
unfolding text
default_launcher = record {
  screen = form;
  selected = 0;
  editing = none;
  edit_buffer = [];
  target = [];
  arguments = [];
  workdir = [];
  listen = text "127.0.0.1:8080";
  ca_dir = [];
  max_body_size = text "1048576";
  env = [];
  save_session = [];
  https_inspection = false;
  only_http1 = false;
  extra_ca_env = true;
  redact = true;
  show_secrets = false;
  ca_trust_status = text "not checked";
  confirm_remove_ca = false;
  launch_options = [];
  launch_selected = 0;
  launch_filter = [];
  message = text "Choose a program, tune launch settings, then start.";
}

abbrev pub field_or : Field → Option Field → Field
field_or fallback none = fallback
field_or fallback (some f) = f

unfoldable pub selected_field : LauncherState → Field
selected_field s = field_or target (get_elem? fields s.selected)

unfoldable pub select_field : LauncherState → Field → LauncherState
select_field s f = elim (position_of f fields) [
  | none ↦ s
  | some index ↦ record s { selected = index; message = [] }
]

-- A direction is negative or not.
pub data Direction : Type 0 where
  backward forward : Direction

abbrev pub next_within : Direction → ℕ → ℕ → ℕ
next_within backward at count = at - 1
next_within forward at count = min (at + 1) (count - 1)

abbrev pub pick {ℓ} : {A : Type ℓ} → Direction → A → A → A
pick backward a b = a
pick forward a b = b

-- An index that is out of range is a panic, `none`.
unfoldable pub select_at : LauncherState → List Field → ℕ → Option LauncherState
unfolding select_field
select_at s row column = elim (get_elem? row column) [
  | none ↦ none
  | some f ↦ some (select_field s f)
]

-- In a row that was indexed, at the column or at the last one.
unfoldable pub select_in_row : LauncherState → ℕ → Option (List Field) → Option LauncherState
unfolding select_at
select_in_row s column none = none
select_in_row s column (some row) = select_at s row (min column (length row - 1))

-- From the field that is selected.
unfoldable pub vertical_from : LauncherState → Direction → Field → Option LauncherState
unfolding text field_position select_in_row
vertical_from s direction field =
    let (row, column) = field_position field in
    let next = next_within direction row (length field_rows) in
    if next == row
    then some (record s {
      message = pick direction (text "Already at the first row.") (text "Already at the last row.");
    })
    else select_in_row s column (get_elem? field_rows next)

unfoldable pub move_selection_vertical : LauncherState → Direction → Option LauncherState
unfolding vertical_from
move_selection_vertical s direction = vertical_from s direction (selected_field s)

-- Along a row that was indexed.
unfoldable pub move_along :
    LauncherState → Direction → ℕ → Option (List Field) → Option LauncherState
unfolding text select_at
move_along s direction column none = none
move_along s direction column (some row) =
    let next = next_within direction column (length row) in
    if next == column
    then some (record s {
      message = pick direction (text "No field to the left.") (text "No field to the right.");
    })
    else select_at s row next

unfoldable pub horizontal_from : LauncherState → Direction → Field → Option LauncherState
unfolding field_position move_along
horizontal_from s direction field =
    let (row, column) = field_position field in
    move_along s direction column (get_elem? field_rows row)

unfoldable pub move_selection_horizontal : LauncherState → Direction → Option LauncherState
unfolding horizontal_from
move_selection_horizontal s direction = horizontal_from s direction (selected_field s)

unfoldable pub editable_value : LauncherState → Field → Text
editable_value s target = s.target
editable_value s arguments = s.arguments
editable_value s workdir = s.workdir
editable_value s listen = s.listen
editable_value s ca_dir = s.ca_dir
editable_value s max_body = s.max_body_size
editable_value s env = s.env
editable_value s save_session = s.save_session
editable_value s start = []
editable_value s https_inspection = []
editable_value s only_http1 = []
editable_value s extra_ca_env = []
editable_value s redact = []
editable_value s show_secrets = []
editable_value s ca_status = []
editable_value s create_ca = []
editable_value s install_ca_trust = []
editable_value s ca_path = []
editable_value s ca_fingerprint = []
editable_value s remove_ca = []

unfoldable pub apply_edit : LauncherState → Field → LauncherState
unfolding text trim
apply_edit s target = record s { target = trim s.edit_buffer }
apply_edit s arguments = record s { arguments = trim s.edit_buffer }
apply_edit s workdir = record s { workdir = trim s.edit_buffer }
apply_edit s listen = record s { listen = trim s.edit_buffer }
apply_edit s ca_dir = record s { ca_dir = trim s.edit_buffer; ca_trust_status = text "not checked" }
apply_edit s max_body = record s { max_body_size = trim s.edit_buffer }
apply_edit s env = record s { env = trim s.edit_buffer }
apply_edit s save_session = record s { save_session = trim s.edit_buffer }
apply_edit s start = s
apply_edit s https_inspection = s
apply_edit s only_http1 = s
apply_edit s extra_ca_env = s
apply_edit s redact = s
apply_edit s show_secrets = s
apply_edit s ca_status = s
apply_edit s create_ca = s
apply_edit s install_ca_trust = s
apply_edit s ca_path = s
apply_edit s ca_fingerprint = s
apply_edit s remove_ca = s
