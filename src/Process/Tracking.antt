-- ===== src/Process/Tracking.antt =====
-- src/process/tracking.rs: the processes that belong to a program, and the wait for their end. A snapshot of
-- the processes is a list.
pub mod Descendants
pub mod Quiet
use tlscope_rs.Base.{
  ℕ, zero, suc, ◌+◌, ◌-◌, ◌*◌, Bool, true, false, not, ◌&&◌, ◌||◌, List, [], ◌∷◌, ◌++◌, Option,
  none, some, ltb, leb, ◌==◌, if◌then◌else◌, length, is_empty, some_of, keep, each,
}
use tlscope_rs.Text.{Text, text, text_eq, trim, to_ascii_lowercase}
use tlscope_rs.Process.Paths.{file_name, file_stem}
use tlscope_rs.Process.Targets.{
  ProcessTrackingConfig, default_config, trim_start_char, trim_end_char, trim_matches,
  normalize_process_name, normalize_process_path, same_process_path, push_unique_path,
  push_unique_name, add_process_name, add_process_names_from_path, add_target_path, for_command,
  set_label, push_all, merge, is_empty_config, ProcessInfo, name_matches, config_matches,
}

-- `HashMap<u32, u32>`, the newest pair first.
abbrev pub Parents : Type 0
Parents = List (ℕ × ℕ)

unfoldable pub parent_of : Parents → ℕ → Option ℕ
parent_of [] pid = none
parent_of ((child, parent) ∷ parents) pid =
    if child == pid then some parent else parent_of parents pid

-- `collect`: a later pair takes the place of an earlier one.
unfoldable pub parents_of : Parents → List ProcessInfo → Parents
parents_of parents [] = parents
parents_of parents (p ∷ snapshot) =
    parents_of (elim p.parent_pid [ none ↦ parents | some parent ↦ (p.pid, parent) ∷ parents ])
      snapshot

unfoldable pub has_pid : List ℕ → ℕ → Bool
has_pid pids pid = some_of (λ p. p == pid) pids

-- `HashSet::insert`.
unfoldable pub insert_pid : List ℕ → ℕ → List ℕ
insert_pid pids pid = if has_pid pids pid then pids else pid ∷ pids

-- The loop over the ancestors, on fuel; `none` is a loop that has not ended.
unfoldable pub climb : ℕ → ℕ → Parents → ℕ → List ℕ → Option Bool
climb zero ancestor parents current visited = none
climb (suc fuel) ancestor parents current visited = elim (parent_of parents current) [
  | none ↦ some false
  | some parent ↦ elim (parent == ancestor) [
    | true ↦ some true
    | false ↦ elim (has_pid visited current) [
      | true ↦ some false
      | false ↦ climb fuel ancestor parents parent (current ∷ visited)
    ]
  ]
]

-- Each round but the last two visits a process that is in the map and was not visited.
unfoldable pub is_descendant_of : ℕ → ℕ → Parents → Option Bool
is_descendant_of pid ancestor parents = climb (length parents + 2) ancestor parents pid []

abbrev pub holds : Option Bool → Bool
holds none = false
holds (some b) = b

unfoldable pub child_related : Option ℕ → Parents → ProcessInfo → Bool
child_related none parents p = false
child_related (some pid) parents p = p.pid == pid || holds (is_descendant_of p.pid pid parents)

unfoldable pub matching_processes :
    ProcessTrackingConfig → Option ℕ → List ℕ → List ProcessInfo → List ProcessInfo
matching_processes config child_pid baseline_pids snapshot =
    keep
      (λ (p : ProcessInfo).
        child_related child_pid (parents_of [] snapshot) p
        || (config_matches config p && not (has_pid baseline_pids p.pid)))
      snapshot

pub record ProcessTracker : Type 0 where
  pub config : ProcessTrackingConfig
  pub baseline_pids : List ℕ
  pub child_pid : Option ℕ
  pub observed_pids : List ℕ

unfoldable pub insert_pids : List ℕ → List ProcessInfo → List ℕ
insert_pids pids [] = pids
insert_pids pids (p ∷ ps) = insert_pids (insert_pid pids p.pid) ps

unfoldable pub prepare : ProcessTrackingConfig → List ProcessInfo → ProcessTracker
prepare config snapshot = record {
  config = config;
  baseline_pids = insert_pids [] (matching_processes config none [] snapshot);
  child_pid = none;
  observed_pids = [];
}

unfoldable pub without_baseline : ProcessTrackingConfig → ProcessTracker
without_baseline config = record {
  config = config;
  baseline_pids = [];
  child_pid = none;
  observed_pids = [];
}

unfoldable pub set_child_pid : ProcessTracker → Option ℕ → ProcessTracker
set_child_pid t none = record t { child_pid = none }
set_child_pid t (some pid) = record t {
  child_pid = some pid;
  observed_pids = insert_pid t.observed_pids pid;
}

-- The parent of a process is not among what is returned of it, which nothing reads.
unfoldable pub active_processes :
    ProcessTracker → List ProcessInfo → ProcessTracker × List ProcessInfo
active_processes t snapshot =
    let active = matching_processes t.config t.child_pid t.baseline_pids snapshot in
    (record t { observed_pids = insert_pids t.observed_pids active }, active)

pub record TrackingSummary : Type 0 where
  pub observed_process_count : ℕ
  pub quiet_for : ℕ

-- A look at the processes, and the times that the clock shows behind it: when a quiet time may begin,
-- and when its length is taken.
pub record Poll : Type 0 where
  pub snapshot : List ProcessInfo
  pub now : ℕ
  pub later : ℕ

-- `quiet_since.get_or_insert_with(Instant::now)`.
abbrev pub get_or_insert : Option ℕ → ℕ → ℕ
get_or_insert none now = now
get_or_insert (some since) now = since

-- One round of the loop: the outcome, or the time since when it has been quiet.
unfoldable pub quiet_step :
    ProcessTracker → Option ℕ → Poll → ProcessTracker × Option TrackingSummary × Option ℕ
quiet_step t quiet_since poll =
    let (next, active) = active_processes t poll.snapshot in
    let since = get_or_insert quiet_since poll.now in
    if not (is_empty active)
    then (next, none, none)
    else if leb t.config.exit_settle (poll.later - since)
    then (
      next,
      some (record {
        observed_process_count = length next.observed_pids;
        quiet_for = poll.later - since;
      }),
      some since,
    )
    else (next, none, some since)

-- What a round leads to: the end of the loop, or the next round.
abbrev pub after_step :
    (ProcessTracker → Option ℕ → Option TrackingSummary)
    → ProcessTracker × Option TrackingSummary × Option ℕ
    → Option TrackingSummary
after_step go_on (t, some summary, quiet_since) = some summary
after_step go_on (t, none, quiet_since) = go_on t quiet_since

-- The loop over the polls to come; `none` is a loop that has not ended by the last of them.
unfoldable pub wait_for_quiet_after_exit :
    ProcessTracker → Option ℕ → List Poll → Option TrackingSummary
wait_for_quiet_after_exit t quiet_since [] = none
wait_for_quiet_after_exit t quiet_since (poll ∷ polls) =
    after_step (λ next since. wait_for_quiet_after_exit next since polls)
      (quiet_step t quiet_since poll)
