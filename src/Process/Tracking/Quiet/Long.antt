-- ===== src/Process/Tracking/Quiet/Long.antt =====
-- What ends a wait.
use tlscope_rs.Base.{
  ℕ, ◌-◌, ◌≤◌, ◌≡◌, ◌≢◌, sym, ap, ◌∙◌, inl, inr, true, List, [], ◌∷◌, ◌++◌, Option, none, some,
  arith, leb, is_empty, All, Bool-cases, Option-cases,
}
use tlscope_rs.Process.Tracking.{ProcessTracker, TrackingSummary, Poll, wait_for_quiet_after_exit}
use tlscope_rs.Process.Tracking.Quiet.{
  IsQuiet, seen, active, began, wait_busy, wait_settled, wait_quiet,
}

-- The time of a quiet poll that has begun is not after `start`.
Began : Option ℕ → ℕ → Type 0
Began none start = Unit
Began (some since) start = since ≤ start

began-le :
    (t : ProcessTracker) (quiet_since : Option ℕ) (poll : Poll) (polls : List Poll) (start : ℕ)
    → Began quiet_since start
    → poll.now ≤ start
    → began t quiet_since poll polls ≤ start
unfolding Began began
began-le t none poll polls start b k = k
began-le t (some since) poll polls start b k = b

-- A quiet time that is long enough ends the wait.
wait_window :
    (t : ProcessTracker) (since : ℕ) (window : List Poll) (last : Poll) (after : List Poll)
    → All (IsQuiet t) window
    → IsQuiet t last
    → t.config.exit_settle ≤ last.later - since
    → wait_for_quiet_after_exit t (some since) (window ++ last ∷ after) ≢ none
unfolding active began
wait_window t since [] last after a q k = λ x.
    let e : is_empty (active t (some since) last after) ≡ true = ap is_empty q in
    let s = wait_settled t (some since) last after e (ground arith) in ground arith
wait_window t since (poll ∷ window) last after a q k =
    let e : is_empty (active t (some since) poll (window ++ last ∷ after)) ≡ true =
      ap is_empty a.0 in
    elim (Bool-cases (leb t.config.exit_settle (poll.later - since))) [
      | inl f ↦
          λ x. let s = wait_settled t (some since) poll (window ++ last ∷ after) e f in ground arith
      | inr f ↦ λ x.
          wait_window (seen t poll) since window last after a.1 q k
            (sym (wait_quiet t (some since) poll (window ++ last ∷ after) e f) ∙ x)
    ]

wait_first :
    (t : ProcessTracker) (quiet_since : Option ℕ) (first : Poll) (window : List Poll) (last : Poll)
    (after : List Poll)
    → Began quiet_since first.now
    → IsQuiet t first
    → All (IsQuiet t) window
    → IsQuiet t last
    → t.config.exit_settle ≤ last.later - first.now
    → wait_for_quiet_after_exit t quiet_since (first ∷ (window ++ last ∷ after)) ≢ none
unfolding active
wait_first t quiet_since first window last after b p a q k =
    let polls = window ++ last ∷ after in
    let e : is_empty (active t quiet_since first polls) ≡ true = ap is_empty p in
    let early = began-le t quiet_since first polls first.now b (omega arith) in
    elim (Bool-cases (leb t.config.exit_settle (first.later - began t quiet_since first polls))) [
      | inl f ↦ λ x. let s = wait_settled t quiet_since first polls e f in ground arith
      | inr f ↦ λ x.
          wait_window (seen t first) (began t quiet_since first polls) window last after a q
            (omega arith) (sym (wait_quiet t quiet_since first polls e f) ∙ x)
    ]

wait_before :
    (t : ProcessTracker) (quiet_since : Option ℕ) (before : List Poll) (first : Poll)
    (window : List Poll) (last : Poll) (after : List Poll)
    → Began quiet_since first.now
    → All (λ (p : Poll). p.now ≤ first.now) before
    → IsQuiet t first
    → All (IsQuiet t) window
    → IsQuiet t last
    → t.config.exit_settle ≤ last.later - first.now
    → wait_for_quiet_after_exit t quiet_since (before ++ first ∷ (window ++ last ∷ after)) ≢ none
unfolding Began active
wait_before t quiet_since [] first window last after b o p a q k =
    wait_first t quiet_since first window last after b p a q k
wait_before t quiet_since (poll ∷ before) first window last after b o p a q k =
    let polls = before ++ first ∷ (window ++ last ∷ after) in
    elim (Bool-cases (is_empty (active t quiet_since poll polls))) [
      | inr e ↦ λ x.
          wait_before (seen t poll) none before first window last after tt o.1 p a q k
            (sym (wait_busy t quiet_since poll polls e) ∙ x)
      | inl e ↦
          elim (Bool-cases
            (leb t.config.exit_settle (poll.later - began t quiet_since poll polls))) [
              | inl f ↦ λ x. let s = wait_settled t quiet_since poll polls e f in ground arith
              | inr f ↦ λ x.
                  wait_before (seen t poll) (some (began t quiet_since poll polls)) before first
                    window last after (began-le t quiet_since poll polls first.now b o.0) o.1 p a q
                    k (sym (wait_quiet t quiet_since poll polls e f) ∙ x)
            ]
    ]

-- The wait ends, at the latest, when no poll from `first` to `last` shows a tracked process and
-- `exit_settle` has passed between the two, if the clock did not go back before `first`.
pub wait_for_quiet_after_exit-settles :
    (t : ProcessTracker) (before : List Poll) (first : Poll) (window : List Poll) (last : Poll)
    (after : List Poll)
    → All (λ (p : Poll). p.now ≤ first.now) before
    → All (IsQuiet t) (first ∷ window)
    → IsQuiet t last
    → t.config.exit_settle ≤ last.later - first.now
    → (summary : TrackingSummary) × (wait_for_quiet_after_exit t none
          (before ++ first ∷ (window ++ last ∷ after))
        ≡ some summary)
unfolding Began
wait_for_quiet_after_exit-settles t before first window last after o a q k =
    elim (Option-cases
      (wait_for_quiet_after_exit t none (before ++ first ∷ (window ++ last ∷ after)))) [
        | inl e ↦ absurd (wait_before t none before first window last after tt o a.0 a.1 q k e)
        | inr s ↦ s
      ]
