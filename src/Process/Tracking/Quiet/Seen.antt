-- ===== src/Process/Tracking/Quiet/Seen.antt =====
-- What a wait that ended has seen.
use tlscope_rs.Base.{
  ℕ, ◌-◌, ◌≡◌, refl, sym, ap, ◌∙◌, ◌⊎◌, inl, inr, List, [], ◌∷◌, Option, none, some, arith, leb,
  is_empty, Bool-cases,
}
use tlscope_rs.Process.Tracking.{
  ProcessTracker, TrackingSummary, Poll, get_or_insert, wait_for_quiet_after_exit,
}
use tlscope_rs.Process.Tracking.Quiet.{
  IsQuiet, Settles, SettlesLater, seen, active, began, wait_busy, wait_settled, wait_quiet,
  wait_ended, empty_list,
}

-- A poll leaves the settings of the tracker as they are.
Settles-seen :
    (t : ProcessTracker) (poll : Poll) (since n : ℕ) (polls : List Poll)
    → Settles (seen t poll) since polls n
    → Settles t since polls n
Settles-seen t poll since n polls s = record {
  window = s.window;
  last = s.last;
  after = s.after;
  split = s.split;
  quiet = s.quiet;
  long = s.long;
  measured = s.measured;
}

Settles-longer :
    (t : ProcessTracker) (poll : Poll) (since n : ℕ) (polls : List Poll)
    → IsQuiet t poll
    → Settles (seen t poll) since polls n
    → Settles t since (poll ∷ polls) n
Settles-longer t poll since n polls q s = record {
  window = poll ∷ s.window;
  last = s.last;
  after = s.after;
  split = ap (λ ps. poll ∷ ps) s.split;
  quiet = (q, s.quiet);
  long = s.long;
  measured = s.measured;
}

SettlesLater-seen :
    (t : ProcessTracker) (poll : Poll) (n : ℕ) (polls : List Poll)
    → SettlesLater (seen t poll) polls n
    → SettlesLater t (poll ∷ polls) n
SettlesLater-seen t poll n polls s = record {
  before = poll ∷ s.before;
  first = s.first;
  rest = s.rest;
  split = ap (λ ps. poll ∷ ps) s.split;
  settles = Settles-seen t poll s.first.now n (s.first ∷ s.rest) s.settles;
}

-- What a loop that ends has seen, given since when it was quiet before.
Ends : ProcessTracker → Option ℕ → List Poll → ℕ → Type 0
Ends t none polls n = SettlesLater t polls n
Ends t (some since) polls n = Settles t since polls n ⊎ SettlesLater t polls n

Ends-busy :
    (t : ProcessTracker) (quiet_since : Option ℕ) (polls : List Poll) (n : ℕ)
    → SettlesLater t polls n
    → Ends t quiet_since polls n
unfolding Ends
Ends-busy t none polls n s = s
Ends-busy t (some since) polls n s = inr s

-- A quiet time that goes on from `since`, or from the first poll.
Ends-quiet :
    (t : ProcessTracker) (quiet_since : Option ℕ) (poll : Poll) (polls : List Poll) (n : ℕ)
    → Settles t (get_or_insert quiet_since poll.now) (poll ∷ polls) n
    → Ends t quiet_since (poll ∷ polls) n
unfolding Ends
Ends-quiet t none poll polls n s = record {
  before = [];
  first = poll;
  rest = polls;
  split = refl;
  settles = s;
}
Ends-quiet t (some since) poll polls n s = inl s

wait-Ends :
    (t : ProcessTracker) (quiet_since : Option ℕ) (polls : List Poll) (summary : TrackingSummary)
    → wait_for_quiet_after_exit t quiet_since polls ≡ some summary
    → Ends t quiet_since polls summary.quiet_for
unfolding active began Ends
wait-Ends t quiet_since [] summary h = let z = wait_ended t quiet_since in absurd (ground arith)
wait-Ends t quiet_since (poll ∷ polls) summary h =
    elim (Bool-cases (is_empty (active t quiet_since poll polls))) [
      | inr e ↦ Ends-busy t quiet_since (poll ∷ polls) summary.quiet_for (
          SettlesLater-seen t poll summary.quiet_for polls (
            wait-Ends (seen t poll) none polls summary
              (sym (wait_busy t quiet_since poll polls e) ∙ h)))
      | inl e ↦
          let q : IsQuiet t poll = empty_list (active t quiet_since poll polls) e in
          let since = began t quiet_since poll polls in
          elim (Bool-cases (leb t.config.exit_settle (poll.later - since))) [
            | inl f ↦
                let same = sym (wait_settled t quiet_since poll polls e f) ∙ h in
                let n : summary.quiet_for ≡ poll.later - since = ground arith in
                Ends-quiet t quiet_since poll polls summary.quiet_for (record {
                  window = [];
                  last = poll;
                  after = polls;
                  split = refl;
                  quiet = (q, tt);
                  long = ground arith;
                  measured = n;
                })
            | inr f ↦
                elim (wait-Ends (seen t poll) (some since) polls summary
                  (sym (wait_quiet t quiet_since poll polls e f) ∙ h)) [
                    | inl s ↦
                        Ends-quiet t quiet_since poll polls summary.quiet_for
                          (Settles-longer t poll since summary.quiet_for polls q s)
                    | inr s ↦
                        Ends-busy t quiet_since (poll ∷ polls) summary.quiet_for
                          (SettlesLater-seen t poll summary.quiet_for polls s)
                  ]
          ]
    ]

-- When the wait ends, the last polls show a quiet time: none of them has a tracked process, and from the
-- first of them to the last `quiet_for` has passed, which is at least `exit_settle`.
pub wait_for_quiet_after_exit_lem :
    (t : ProcessTracker) (polls : List Poll) (summary : TrackingSummary)
    → wait_for_quiet_after_exit t none polls ≡ some summary
    → SettlesLater t polls summary.quiet_for
unfolding Ends
wait_for_quiet_after_exit_lem t polls summary h = wait-Ends t none polls summary h
