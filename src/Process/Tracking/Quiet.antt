-- ===== src/Process/Tracking/Quiet.antt =====
-- Waiting until the tracked processes have been gone for long enough.
pub mod Seen
pub mod Long
use tlscope_rs.Base.{
  ℕ, zero, suc, ◌+◌, ◌-◌, ◌≤◌, ◌<◌, ◌≡◌, ◌≢◌, refl, sym, ap, ◌∙◌, ◌⊎◌, inl, inr, Bool, true, false,
  not, List, [], ◌∷◌, ◌++◌, Option, none, some, arith, leb, if◌then◌else◌, length, is_empty, All,
  Bool-cases, Option-cases,
}
use tlscope_rs.Process.Tracking.{
  ProcessTracker, TrackingSummary, Poll, get_or_insert, matching_processes, insert_pids,
  active_processes, quiet_step, wait_for_quiet_after_exit,
}
use tlscope_rs.Process.Targets.{ProcessInfo}

-- A poll that shows no tracked process.
abbrev pub IsQuiet : ProcessTracker → Poll → Type 0
IsQuiet t poll = matching_processes t.config t.child_pid t.baseline_pids poll.snapshot ≡ []

-- The processes seen are all that a poll changes of the tracker.
abbrev pub seen : ProcessTracker → Poll → ProcessTracker
seen t poll = record t {
  observed_pids =
      insert_pids t.observed_pids
        (matching_processes t.config t.child_pid t.baseline_pids poll.snapshot);
}

-- The first polls show nothing, up to one at which it has been quiet long enough since `since`.
pub record Settles (t : ProcessTracker) (since : ℕ) (polls : List Poll) (quiet_for : ℕ)
    : Type 0 where
  pub window : List Poll
  pub last : Poll
  pub after : List Poll
  pub split : polls ≡ window ++ last ∷ after
  pub quiet : All (IsQuiet t) (window ++ last ∷ [])
  pub long : t.config.exit_settle ≤ quiet_for
  pub measured : quiet_for ≡ last.later - since

-- After some polls there is such a time, which its first poll begins.
pub record SettlesLater (t : ProcessTracker) (polls : List Poll) (quiet_for : ℕ) : Type 0 where
  pub before : List Poll
  pub first : Poll
  pub rest : List Poll
  pub split : polls ≡ before ++ first ∷ rest
  pub settles : Settles t first.now (first ∷ rest) quiet_for

module _ (t : ProcessTracker) (quiet_since : Option ℕ) (poll : Poll) (polls : List Poll) where
  pub active : List ProcessInfo
  active = matching_processes t.config t.child_pid t.baseline_pids poll.snapshot

  pub began : ℕ
  began = get_or_insert quiet_since poll.now

  step_busy : is_empty active ≡ false → quiet_step t quiet_since poll ≡ (seen t poll, none, none)
  unfolding quiet_step active_processes active
  step_busy e = rw e refl

  step_settled :
      is_empty active ≡ true
      → leb t.config.exit_settle (poll.later - began) ≡ true
      → quiet_step t quiet_since poll ≡ (
        seen t poll,
        some (record {
          observed_process_count = length (seen t poll).observed_pids;
          quiet_for = poll.later - began;
        }),
        some began,
      )
  unfolding quiet_step active_processes active began
  step_settled e f = rw (e, f) refl

  step_quiet :
      is_empty active ≡ true
      → leb t.config.exit_settle (poll.later - began) ≡ false
      → quiet_step t quiet_since poll ≡ (seen t poll, none, some began)
  unfolding quiet_step active_processes active began
  step_quiet e f = rw (e, f) refl

  pub wait_busy :
      is_empty active ≡ false
      → wait_for_quiet_after_exit t quiet_since (poll ∷ polls)
        ≡ wait_for_quiet_after_exit (seen t poll) none polls
  unfolding wait_for_quiet_after_exit
  wait_busy e = rw (wait_for_quiet_after_exit, step_busy e) refl

  pub wait_settled :
      is_empty active ≡ true
      → leb t.config.exit_settle (poll.later - began) ≡ true
      → wait_for_quiet_after_exit t quiet_since (poll ∷ polls)
        ≡ some (record {
          observed_process_count = length (seen t poll).observed_pids;
          quiet_for = poll.later - began;
        })
  unfolding wait_for_quiet_after_exit
  wait_settled e f = rw (wait_for_quiet_after_exit, step_settled e f) refl

  pub wait_quiet :
      is_empty active ≡ true
      → leb t.config.exit_settle (poll.later - began) ≡ false
      → wait_for_quiet_after_exit t quiet_since (poll ∷ polls)
        ≡ wait_for_quiet_after_exit (seen t poll) (some began) polls
  unfolding wait_for_quiet_after_exit
  wait_quiet e f = rw (wait_for_quiet_after_exit, step_quiet e f) refl

pub wait_ended :
    (t : ProcessTracker) (quiet_since : Option ℕ)
    → wait_for_quiet_after_exit t quiet_since [] ≡ none
unfolding wait_for_quiet_after_exit
wait_ended t quiet_since = refl

pub empty_list : (ps : List ProcessInfo) → is_empty ps ≡ true → ps ≡ []
empty_list [] h = refl
empty_list (p ∷ ps) h = cc
