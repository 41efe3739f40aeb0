-- ===== src/Process/Tests.antt =====
-- The tracking of processes at concrete inputs.
use tlscope_rs.Base.{
  ℕ, ◌+◌, ◌≡◌, ◌↔◌, refl, Bool, true, List, [], ◌∷◌, Option, none, some, arith, each,
}
use tlscope_rs.Text.{text, trim, to_ascii_lowercase, split, rsplit_once}
use tlscope_rs.Process.Paths.{file_name, file_stem}
use tlscope_rs.Process.Tracking.{
  ProcessTracker, Parents, Poll, TrackingSummary, is_descendant_of, matching_processes,
  without_baseline, wait_for_quiet_after_exit, climb, parent_of, parents_of, has_pid, insert_pids,
  child_related, quiet_step, active_processes,
}
use tlscope_rs.Process.Targets.{
  ProcessInfo, default_config, add_process_name, config_matches, name_matches,
  normalize_process_name, push_unique_name, trim_matches,
}
use tlscope_rs.Process.Tracking.Descendants.{Descends, is_descendant_of_lem}
use tlscope_rs.Process.Tracking.Quiet.{IsQuiet, SettlesLater}
use tlscope_rs.Process.Tracking.Quiet.Seen.{wait_for_quiet_after_exit_lem}
use tlscope_rs.Process.Tracking.Quiet.Long.{wait_for_quiet_after_exit-settles}

paths :
    (file_name (text "/opt/my.app/") ≡ some (text "my.app"))
    × (file_stem (text "/opt/my.app/") ≡ some (text "my"))
    × (file_stem (text ".bashrc") ≡ some (text ".bashrc"))
    × (file_name (text "a/..") ≡ none)
unfolding file_name file_stem text split rsplit_once
paths = (refl, refl, refl, refl)

abbrev process : ℕ → Option ℕ → ProcessInfo
unfolding text
process pid parent_pid = record {
  pid = pid;
  parent_pid = parent_pid;
  name = text "Game.exe";
  executable_path = none;
}

abbrev processes : List ProcessInfo
processes =
    process 10 none ∷ process 11 (some 10) ∷ process 12 (some 13) ∷ process 13 (some 12) ∷ []

descendants :
    each (λ (p : ProcessInfo). p.pid) (matching_processes default_config (some 10) [] processes)
    ≡ 10 ∷ 11 ∷ []
unfolding matching_processes default_config child_related is_descendant_of climb parent_of
    parents_of has_pid config_matches name_matches process
descendants = refl

by_stem :
    each
      (λ (p : ProcessInfo). p.pid)
      (matching_processes
        (add_process_name default_config (text " \"GAME\" "))
        none
        (10 ∷ 13 ∷ [])
        processes)
    ≡ 11 ∷ 12 ∷ []
unfolding matching_processes default_config child_related has_pid config_matches name_matches
    add_process_name normalize_process_name push_unique_name trim_matches trim to_ascii_lowercase
    text file_stem file_name split rsplit_once
by_stem = refl

abbrev cycle : Parents
cycle = (12, 13) ∷ (13, 12) ∷ []

is_descendant_of_lem_example :
    (found : Bool) × (is_descendant_of 12 10 cycle ≡ some found)
    × ((found ≡ true) ↔ Descends cycle 10 12)
is_descendant_of_lem_example = is_descendant_of_lem 12 10 cycle

abbrev tracker : ProcessTracker
unfolding without_baseline default_config
tracker = without_baseline (record default_config { exit_settle = 5 })

abbrev poll : ℕ → Poll
poll now = record { snapshot = processes; now = now; later = now + 1 }

settled :
    wait_for_quiet_after_exit tracker none (poll 1 ∷ poll 4 ∷ poll 7 ∷ [])
    ≡ some (record { observed_process_count = 0; quiet_for = 7 })
unfolding wait_for_quiet_after_exit quiet_step active_processes matching_processes child_related
    parents_of has_pid config_matches insert_pids default_config without_baseline tracker process
settled = refl

wait_for_quiet_after_exit_lem_example : SettlesLater tracker (poll 1 ∷ poll 4 ∷ poll 7 ∷ []) 7
wait_for_quiet_after_exit_lem_example =
    wait_for_quiet_after_exit_lem tracker (poll 1 ∷ poll 4 ∷ poll 7 ∷ [])
      (record { observed_process_count = 0; quiet_for = 7 }) settled

none_tracked : (now : ℕ) → IsQuiet tracker (poll now)
unfolding matching_processes child_related parents_of has_pid config_matches default_config
    without_baseline tracker process
none_tracked now = refl

wait_for_quiet_after_exit-settles_example :
    (summary : TrackingSummary) × (wait_for_quiet_after_exit tracker none
        (poll 0 ∷ poll 1 ∷ (poll 4 ∷ poll 7 ∷ []))
      ≡ some summary)
unfolding tracker without_baseline
wait_for_quiet_after_exit-settles_example =
    wait_for_quiet_after_exit-settles tracker (poll 0 ∷ []) (poll 1) (poll 4 ∷ []) (poll 7) []
      (omega arith) (none_tracked 1, (none_tracked 4, tt)) (none_tracked 7) (omega arith)
