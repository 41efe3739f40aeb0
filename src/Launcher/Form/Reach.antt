-- ===== src/Launcher/Form/Reach.antt =====
-- Every field of the form is reached with the arrow keys.
use tlscope_rs.Base.{
  ℕ, zero, suc, ◌==◌, if◌then◌else◌, ◌≡◌, refl, ap, ◌∙◌, List, [], ◌∷◌, ◌++◌, Option, none, some,
}
use tlscope_rs.Launcher.Field.{
  Field, field_position, target, arguments, workdir, start, listen, max_body, env, save_session,
  https_inspection, only_http1, extra_ca_env, redact, show_secrets, ca_dir, ca_status, create_ca,
  install_ca_trust, ca_path, ca_fingerprint, remove_ca,
}
use tlscope_rs.Launcher.Form.{
  LauncherState, Direction, backward, forward, selected_field, select_field,
  move_selection_vertical, move_selection_horizontal, select_at, select_in_row, move_along,
  vertical_from, horizontal_from,
}

pub data Move : Type 0 where
  vertical horizontal : Direction → Move

unfoldable pub move_one : LauncherState → Move → Option LauncherState
move_one s (vertical d) = move_selection_vertical s d
move_one s (horizontal d) = move_selection_horizontal s d

-- A panic, `none`, ends the moves.
unfoldable pub moves : LauncherState → List Move → Option LauncherState
moves s [] = some s
moves s (m ∷ ms) = elim (move_one s m) [ none ↦ none | some t ↦ moves t ms ]

abbrev moves_from : Option LauncherState → List Move → Option LauncherState
moves_from o ms = elim o [ none ↦ none | some t ↦ moves t ms ]

append_from :
    (o : Option LauncherState) (a b : List Move)
    → ((t : LauncherState) → moves t (a ++ b) ≡ moves_from (moves t a) b)
    → moves_from o (a ++ b) ≡ moves_from (moves_from o a) b
append_from none a b h = refl
append_from (some t) a b h = h t

moves-append : (s : LauncherState) (a b : List Move) → moves s (a ++ b) ≡ moves_from (moves s a) b
unfolding moves
moves-append s [] b = refl
moves-append s (m ∷ a) b = append_from (move_one s m) a b (λ t. moves-append t a b)

-- The field that the moves lead to, if they do not panic.
abbrev lands : Option LauncherState → Option Field
lands none = none
lands (some t) = some (selected_field t)

landed :
    (o : Option LauncherState) (f : Field)
    → lands o ≡ some f
    → (t : LauncherState) × (o ≡ some t) × (selected_field t ≡ f)
landed none f e = cc
landed (some t) f e = (t, refl, cc)

-- So many rows on in a direction.
rows_on : ℕ → Direction → List Move
rows_on zero d = []
rows_on (suc n) d = vertical d ∷ rows_on n d

first_move :
    (s : LauncherState) (f : Field) (d : Direction) (ms : List Move)
    → selected_field s ≡ f
    → lands (moves s (vertical d ∷ ms)) ≡ lands (moves_from (vertical_from s d f) ms)
unfolding moves move_one move_selection_vertical
first_move s f d ms e = ap (λ x. lands (moves_from (vertical_from s d x) ms)) e

-- As many rows up as there are above a field lead to the first one.
top_moves : Field → List Move
unfolding field_position
top_moves f = rows_on (field_position f).0 backward

to_top :
    (s : LauncherState) (f : Field)
    → selected_field s ≡ f
    → lands (moves s (top_moves f)) ≡ some target
unfolding moves move_one move_selection_vertical vertical_from selected_field field_position
    select_field select_at select_in_row top_moves rows_on
to_top s target e = ap some e
to_top s arguments e = first_move s arguments backward (rows_on 0 backward) e
to_top s workdir e = first_move s workdir backward (rows_on 1 backward) e
to_top s listen e = first_move s listen backward (rows_on 2 backward) e
to_top s max_body e = first_move s max_body backward (rows_on 3 backward) e
to_top s env e = first_move s env backward (rows_on 4 backward) e
to_top s save_session e = first_move s save_session backward (rows_on 5 backward) e
to_top s https_inspection e = first_move s https_inspection backward (rows_on 6 backward) e
to_top s only_http1 e = first_move s only_http1 backward (rows_on 7 backward) e
to_top s extra_ca_env e = first_move s extra_ca_env backward (rows_on 8 backward) e
to_top s redact e = first_move s redact backward (rows_on 9 backward) e
to_top s show_secrets e = first_move s show_secrets backward (rows_on 10 backward) e
to_top s ca_dir e = first_move s ca_dir backward (rows_on 2 backward) e
to_top s ca_status e = first_move s ca_status backward (rows_on 3 backward) e
to_top s create_ca e = first_move s create_ca backward (rows_on 4 backward) e
to_top s install_ca_trust e = first_move s install_ca_trust backward (rows_on 5 backward) e
to_top s ca_path e = first_move s ca_path backward (rows_on 6 backward) e
to_top s ca_fingerprint e = first_move s ca_fingerprint backward (rows_on 7 backward) e
to_top s remove_ca e = first_move s remove_ca backward (rows_on 8 backward) e
to_top s start e = first_move s start backward (rows_on 11 backward) e

-- From the first one down to the row of a field, and to the right if it is there.
moves_to : Field → List Move
unfolding field_position
moves_to f =
    rows_on (field_position f).0 forward
    ++ (if (field_position f).1 == 0 then [] else horizontal forward ∷ [])

from_top :
    (s : LauncherState) (f : Field)
    → selected_field s ≡ target
    → lands (moves s (moves_to f)) ≡ some f
unfolding moves move_one move_selection_vertical move_selection_horizontal vertical_from
    horizontal_from selected_field field_position select_field select_at select_in_row move_along
    moves_to rows_on
from_top s target e = ap some e
from_top s arguments e = first_move s target forward (rows_on 0 forward) e
from_top s workdir e = first_move s target forward (rows_on 1 forward) e
from_top s listen e = first_move s target forward (rows_on 2 forward) e
from_top s max_body e = first_move s target forward (rows_on 3 forward) e
from_top s env e = first_move s target forward (rows_on 4 forward) e
from_top s save_session e = first_move s target forward (rows_on 5 forward) e
from_top s https_inspection e = first_move s target forward (rows_on 6 forward) e
from_top s only_http1 e = first_move s target forward (rows_on 7 forward) e
from_top s extra_ca_env e = first_move s target forward (rows_on 8 forward) e
from_top s redact e = first_move s target forward (rows_on 9 forward) e
from_top s show_secrets e = first_move s target forward (rows_on 10 forward) e
from_top s ca_dir e = first_move s target forward (rows_on 2 forward ++ horizontal forward ∷ []) e
from_top s ca_status e =
    first_move s target forward (rows_on 3 forward ++ horizontal forward ∷ []) e
from_top s create_ca e =
    first_move s target forward (rows_on 4 forward ++ horizontal forward ∷ []) e
from_top s install_ca_trust e =
    first_move s target forward (rows_on 5 forward ++ horizontal forward ∷ []) e
from_top s ca_path e = first_move s target forward (rows_on 6 forward ++ horizontal forward ∷ []) e
from_top s ca_fingerprint e =
    first_move s target forward (rows_on 7 forward ++ horizontal forward ∷ []) e
from_top s remove_ca e =
    first_move s target forward (rows_on 8 forward ++ horizontal forward ∷ []) e
from_top s start e = first_move s target forward (rows_on 11 forward) e

-- From wherever the selection stands, the arrow keys select any field of the form, without a panic.
pub selected_field-moves :
    (s : LauncherState) (f : Field)
    → (keys : List Move) × (t : LauncherState) × (moves s keys ≡ some t) × (selected_field t ≡ f)
selected_field-moves s f =
    let up = top_moves (selected_field s) in
    let (top, climbed, at_top) = landed (moves s up) target (to_top s (selected_field s) refl) in
    let (t, moved, at_field) = landed (moves top (moves_to f)) f (from_top top f at_top) in
    (
      up ++ moves_to f,
      t,
      moves-append s up (moves_to f) ∙ ap (λ o. moves_from o (moves_to f)) climbed ∙ moved,
      at_field,
    )
