-- ===== src/Launcher/Field.antt =====
-- src/interactive.rs: the fields of the launcher's form and their places in it.
use tlscope_rs.Base.{ℕ, ◌+◌, Bool, List, [], ◌∷◌, Option, none, some, ◌==◌, if◌then◌else◌}
use tlscope_rs.Text.{Text, text}

pub data Field : Type 0 where
  target arguments workdir start listen max_body env save_session : Field
  https_inspection only_http1 extra_ca_env redact show_secrets : Field
  ca_dir ca_status create_ca install_ca_trust ca_path ca_fingerprint remove_ca : Field

abbrev pub fields : List Field
fields =
    target ∷ arguments ∷ workdir ∷ listen ∷ max_body ∷ env ∷ save_session ∷ https_inspection
    ∷ only_http1 ∷ extra_ca_env ∷ redact ∷ show_secrets ∷ ca_dir ∷ ca_status ∷ create_ca
    ∷ install_ca_trust ∷ ca_path ∷ ca_fingerprint ∷ remove_ca ∷ start ∷ []

abbrev pub field_rows : List (List Field)
field_rows =
    (target ∷ [])
    ∷ (arguments ∷ [])
    ∷ (workdir ∷ [])
    ∷ (listen ∷ ca_dir ∷ [])
    ∷ (max_body ∷ ca_status ∷ [])
    ∷ (env ∷ create_ca ∷ [])
    ∷ (save_session ∷ install_ca_trust ∷ [])
    ∷ (https_inspection ∷ ca_path ∷ [])
    ∷ (only_http1 ∷ ca_fingerprint ∷ [])
    ∷ (extra_ca_env ∷ remove_ca ∷ [])
    ∷ (redact ∷ [])
    ∷ (show_secrets ∷ [])
    ∷ (start ∷ [])
    ∷ []

-- The derived equality, by the place of a field in the declaration.
abbrev pub discriminant : Field → ℕ
discriminant target = 0
discriminant arguments = 1
discriminant workdir = 2
discriminant start = 3
discriminant listen = 4
discriminant max_body = 5
discriminant env = 6
discriminant save_session = 7
discriminant https_inspection = 8
discriminant only_http1 = 9
discriminant extra_ca_env = 10
discriminant redact = 11
discriminant show_secrets = 12
discriminant ca_dir = 13
discriminant ca_status = 14
discriminant create_ca = 15
discriminant install_ca_trust = 16
discriminant ca_path = 17
discriminant ca_fingerprint = 18
discriminant remove_ca = 19

abbrev pub same_field : Field → Field → Bool
same_field f g = discriminant f == discriminant g

unfoldable pub field_label : Field → Text
unfolding text
field_label target = text "Program path"
field_label arguments = text "Arguments"
field_label workdir = text "Workdir"
field_label start = text "Start"
field_label listen = text "Proxy listen"
field_label max_body = text "Max body bytes"
field_label env = text "Extra env"
field_label save_session = text "Save JSON"
field_label https_inspection = text "HTTPS inspect"
field_label only_http1 = text "Only HTTP/1.1"
field_label extra_ca_env = text "CA env vars"
field_label redact = text "Redact body"
field_label show_secrets = text "Show secrets"
field_label ca_dir = text "CA directory"
field_label ca_status = text "CA status"
field_label create_ca = text "Create/load CA"
field_label install_ca_trust = text "Trust in OS"
field_label ca_path = text "Show path"
field_label ca_fingerprint = text "Fingerprint"
field_label remove_ca = text "Remove files"

-- `position`.
abbrev pub position_of : Field → List Field → Option ℕ
position_of f [] = none
position_of f (g ∷ gs) =
    let rest : Option ℕ = elim (position_of f gs) [ none ↦ none | some n ↦ some (n + 1) ] in
    if same_field g f then some 0 else rest

-- `find_map` over the rows, which are counted from the second argument on.
abbrev pub position_in : Field → ℕ → List (List Field) → ℕ × ℕ
position_in f row [] = (0, 0)
position_in f row (r ∷ rows) =
    let rest = position_in f (row + 1) rows in
    elim (position_of f r) [ none ↦ rest | some column ↦ (row, column) ]

unfoldable pub field_position : Field → ℕ × ℕ
field_position f = position_in f 0 field_rows
