-- ===== src/Process/Targets.antt =====
-- src/process/tracking.rs: which processes belong to a program, by path and by name. Durations are numbers of
-- nanoseconds.
use tlscope_rs.Base.{
  ℕ, Bool, false, ◌&&◌, ◌||◌, List, [], ◌∷◌, ◌++◌, Option, none, some, ◌==◌, if◌then◌else◌,
  is_empty, some_of, each,
}
use tlscope_rs.Text.{Text, text_eq, trim, to_ascii_lowercase}
use tlscope_rs.Process.Paths.{file_name, file_stem}

pub record ProcessTrackingConfig : Type 0 where
  pub executable_paths : List Text
  pub process_names : List Text
  pub label : Option Text
  pub poll_interval : ℕ
  pub exit_settle : ℕ

unfoldable pub default_config : ProcessTrackingConfig
default_config = record {
  executable_paths = [];
  process_names = [];
  label = none;
  poll_interval = 1000000000;
  exit_settle = 30000000000;
}

-- `trim_matches` at a character.
unfoldable pub trim_start_char : ℕ → Text → Text
trim_start_char q [] = []
trim_start_char q (c ∷ s) = if c == q then trim_start_char q s else c ∷ s

unfoldable pub trim_end_char : ℕ → Text → Text
trim_end_char q [] = []
trim_end_char q (c ∷ s) = elim (trim_end_char q s) [
  | [] ↦ if c == q then [] else c ∷ []
  | d ∷ t ↦ c ∷ d ∷ t
]

unfoldable pub trim_matches : ℕ → Text → Text
unfolding trim_start_char trim_end_char
trim_matches q s = trim_end_char q (trim_start_char q s)

unfoldable pub normalize_process_name : Text → Text
normalize_process_name name = to_ascii_lowercase (trim_matches b'"' (trim name))

unfoldable pub normalize_process_path : Text → Text
normalize_process_path path =
    to_ascii_lowercase (trim_matches b'"' (each (λ c. if c == b'/' then 92 else c) path))

unfoldable pub same_process_path : Text → Text → Bool
same_process_path left right = text_eq (normalize_process_path left) (normalize_process_path right)

unfoldable pub push_unique_path : List Text → Text → List Text
push_unique_path paths path =
    if some_of (λ candidate. same_process_path candidate path) paths
    then paths
    else paths ++ path ∷ []

unfoldable pub push_unique_name : List Text → Text → List Text
push_unique_name names name =
    if some_of (λ item. text_eq item name) names then names else names ++ name ∷ []

unfoldable pub add_process_name : ProcessTrackingConfig → Text → ProcessTrackingConfig
add_process_name c given =
    let name = normalize_process_name given in
    if is_empty name then c else record c { process_names = push_unique_name c.process_names name }

abbrev add_some : ProcessTrackingConfig → Option Text → ProcessTrackingConfig
add_some c none = c
add_some c (some name) = add_process_name c name

unfoldable pub add_process_names_from_path : ProcessTrackingConfig → Text → ProcessTrackingConfig
add_process_names_from_path c path = add_some (add_some c (file_name path)) (file_stem path)

abbrev non_empty_text : Option Text → Option Text
non_empty_text none = none
non_empty_text (some t) = if is_empty t then none else some t

unfoldable pub add_target_path : ProcessTrackingConfig → Text → ProcessTrackingConfig
add_target_path c path =
    let named =
      add_process_names_from_path
        (record c { executable_paths = push_unique_path c.executable_paths path }) path in
    if is_empty path then c else record named {
      label = elim named.label [ none ↦ non_empty_text (file_stem path) | some l ↦ some l ];
    }

unfoldable pub for_command : List Text → ProcessTrackingConfig
for_command [] = default_config
for_command (program ∷ arguments) = add_target_path default_config program

unfoldable pub set_label : ProcessTrackingConfig → Text → ProcessTrackingConfig
set_label c label = if is_empty (trim label) then c else record c { label = some label }

unfoldable pub push_all : (List Text → Text → List Text) → List Text → List Text → List Text
push_all push items [] = items
push_all push items (x ∷ xs) = push_all push (push items x) xs

unfoldable pub merge : ProcessTrackingConfig → ProcessTrackingConfig → ProcessTrackingConfig
merge c other = record {
  executable_paths = push_all push_unique_path c.executable_paths other.executable_paths;
  process_names = push_all push_unique_name c.process_names other.process_names;
  label = elim c.label [ none ↦ other.label | some l ↦ some l ];
  poll_interval = other.poll_interval;
  exit_settle = other.exit_settle;
}

unfoldable pub is_empty_config : ProcessTrackingConfig → Bool
is_empty_config c = is_empty c.executable_paths && is_empty c.process_names

pub record ProcessInfo : Type 0 where
  pub pid : ℕ
  pub parent_pid : Option ℕ
  pub name : Text
  pub executable_path : Option Text

unfoldable pub name_matches : ProcessInfo → Text → Bool
name_matches p candidate =
    text_eq (normalize_process_name p.name) candidate || elim (file_stem p.name) [
      | none ↦ false
      | some stem ↦ text_eq (normalize_process_name stem) candidate
    ]

unfoldable pub config_matches : ProcessTrackingConfig → ProcessInfo → Bool
config_matches c p =
    let path_matches : Bool = elim p.executable_path [
      | none ↦ false
      | some path ↦ some_of (λ candidate. same_process_path candidate path) c.executable_paths
    ] in
    path_matches || some_of (name_matches p) c.process_names
