-- ===== src/Launcher/Tests.antt =====
-- The launcher at concrete inputs.
use tlscope_rs.Base.{
  ℕ, ◌+◌, ◌≡◌, refl, true, false, not, List, [], ◌∷◌, none, some, ok, err, arith, keep, each,
  is_empty,
}
use tlscope_rs.Text.{Text, text, join, is_whitespace, trim, split}
use tlscope_rs.Tui.Keys.{enter, down}
use tlscope_rs.Launcher.Args.{split_args, split_from, is_quote, parse_env_overrides}
use tlscope_rs.Launcher.Args.Quoted.{quote_argument, split_args-quote_argument}
use tlscope_rs.Launcher.Field.{ca_fingerprint}
use tlscope_rs.Launcher.Form.{LauncherState, default_launcher, launch_select, selected_field}
use tlscope_rs.Launcher.Form.Reach.{Move, moves, selected_field-moves}
use tlscope_rs.Launcher.System.{System}
use tlscope_rs.Launcher.Authority.{Turn, remove_ca_files}
use tlscope_rs.Launcher.Options.Bounds.{IsWithin}
use tlscope_rs.Launcher.Keys.{handle_launcher_key, handle_ca_remove_confirmation}
use tlscope_rs.Launcher.Keys.Touches.{Touches}
use tlscope_rs.Launcher.Keys.World.{handle_launcher_key-Touches}
use tlscope_rs.Launcher.Keys.Within.{handle_launcher_key-IsWithin}

words_in_quotes :
    split_args (text "--name 'a b' \"c \\\" d\" \"\"")
    ≡ ok (text "--name" ∷ text "a b" ∷ text "c \" d" ∷ [])
unfolding split_args split_from is_quote is_whitespace text
words_in_quotes = refl

environment : parse_env_overrides (text " A=1 ;; B=2;") ≡ text "A=1" ∷ text "B=2" ∷ []
unfolding parse_env_overrides split trim is_whitespace text
environment = refl

abbrev arguments_of_user : List Text
unfolding text
arguments_of_user = text "a b" ∷ [] ∷ text "\"c\\" ∷ []

split_args-quote_argument_example :
    split_args (join (each quote_argument arguments_of_user) (text " "))
    ≡ ok (keep (λ a. not (is_empty a)) arguments_of_user)
split_args-quote_argument_example = split_args-quote_argument arguments_of_user

selected_field-moves_example :
    (keys : List Move) × (t : LauncherState) × (moves default_launcher keys ≡ some t)
    × (selected_field t ≡ ca_fingerprint)
selected_field-moves_example = selected_field-moves default_launcher ca_fingerprint

-- A system whose state counts what is done to the authority, with one file to launch.
abbrev system : System ℕ
unfolding text
system = record {
  exists = λ w path. true;
  is_dir = λ w path. false;
  is_file = λ w path. true;
  read_dir = λ w path. ok [];
  launch_formats = text "file" ∷ [];
  launch_kind_for_path = λ path. some (text "file");
  is_shortcut_path = λ path. false;
  resolve_shortcut_target = λ w path. err [];
  default_ca_dir = text "/home/u/.config/TLScope/ca";
  load_or_create = λ w dir. (err [], w + 1);
  ca_fingerprint_from_dir = λ w dir. err [];
  is_current_user_root_installed = λ w path. ok false;
  install_current_user_root = λ w path. (none, w + 1);
  remove_created_files = λ w dir confirmed. (ok true, w + 1);
}

abbrev asked : LauncherState
unfolding default_launcher text
asked = record default_launcher { confirm_remove_ca = true }

abbrev answered : Turn ℕ
answered = remove_ca_files system 0 asked

yes_removes : handle_launcher_key system 0 asked enter ≡ some answered
unfolding handle_launcher_key handle_ca_remove_confirmation default_launcher asked
yes_removes = refl

handle_launcher_key-Touches_example : Touches system 0 asked enter answered.world
handle_launcher_key-Touches_example =
    handle_launcher_key-Touches system 0 asked enter answered yes_removes

abbrev choosing : LauncherState
unfolding default_launcher text
choosing = record default_launcher {
  screen = launch_select;
  launch_options =
      record { path = text "/b/run"; kind = text "file" }
      ∷ record { path = text "/b/stop"; kind = text "file" }
      ∷ [];
}

choosing-IsWithin : IsWithin choosing
unfolding IsWithin choosing default_launcher
choosing-IsWithin = omega arith

handle_launcher_key-IsWithin_example :
    (t : Turn ℕ) × (handle_launcher_key system 0 choosing down ≡ some t) × IsWithin t.state
handle_launcher_key-IsWithin_example =
    handle_launcher_key-IsWithin system 0 choosing down choosing-IsWithin
