-- ===== src/Logs/Child/Recent.antt =====
-- The store keeps the newest lines of its history, and counts the others.
use tlscope_rs.Base.{
  ℕ, ◌-◌, ◌%◌, ◌≤◌, ◌<◌, ◌≡◌, refl, ap, List, [], ◌∷◌, ◌++◌, arith, length, length-append, u64_mod,
  append_assoc, append-nil,
}
use native.Mathlib.Decide.{dec_lt}
use tlscope_rs.Logs.Window.{
  recent, recent-append_full, recent-append_room, recent_zero, length-recent_full,
  length-recent_room,
}
use tlscope_rs.Logs.Child.{ChildOutputLine, ChildLogStore, new, push, snapshot}

-- What a snapshot shows after the lines of a history have come in.
pub record Shows (max_lines : ℕ) (history : List ChildOutputLine) (s : ChildLogStore) : Type 0 where
  pub limit : s.max_lines ≡ max_lines
  pub kept : s.lines ≡ recent max_lines history
  pub lost : s.dropped ≡ (length history - max_lines) % u64_mod
  pub seen : s.total ≡ length history % u64_mod

module _ (n : ℕ) (h : List ChildOutputLine) (s : ChildLogStore) (l : ChildOutputLine)
    (v : Shows n h s) where
  push-Shows_zero : n ≡ 0 → Shows n (h ++ l ∷ []) (push s l.stream l.line)
  unfolding push
  push-Shows_zero z =
      ground (arith, length-append h (l ∷ []), recent_zero n h z, recent_zero n (h ++ l ∷ []) z)

  push-Shows_full : 0 < n → n ≤ length h → Shows n (h ++ l ∷ []) (push s l.stream l.line)
  unfolding push
  push-Shows_full p q = ground (
    arith,
    length-append h (l ∷ []),
    recent-append_full n h l p q,
    length-recent_full n h q,
    ap length v.kept,
  )

  push-Shows_room : length h < n → Shows n (h ++ l ∷ []) (push s l.stream l.line)
  unfolding push
  push-Shows_room q = ground (
    arith,
    length-append h (l ∷ []),
    recent-append_room n h l q,
    length-recent_room n h q,
    ap length v.kept,
  )

  push-Shows : Shows n (h ++ l ∷ []) (push s l.stream l.line)
  push-Shows = elim (dec_lt (length h) n) [
    | yes q ↦ push-Shows_room q
    | no q ↦ elim (dec_lt 0 n) [
      | yes p ↦ push-Shows_full p (omega arith)
      | no z ↦ push-Shows_zero (omega arith)
    ]
  ]

-- The lines of a history come in one by one.
unfoldable pub push_all : ChildLogStore → List ChildOutputLine → ChildLogStore
push_all s [] = s
push_all s (l ∷ ls) = push_all (push s l.stream l.line) ls

push_all-Shows :
    (n : ℕ) (h ls : List ChildOutputLine) (s : ChildLogStore)
    → Shows n h s
    → Shows n (h ++ ls) (push_all s ls)
unfolding push_all
push_all-Shows n h [] s v = rw (append-nil h) v
push_all-Shows n h (l ∷ ls) s v =
    rw (← append_assoc h (l ∷ []) ls)
      (push_all-Shows n (h ++ l ∷ []) ls (push s l.stream l.line) (push-Shows n h s l v))

new-Shows : (n : ℕ) → Shows n [] (new n)
unfolding new
new-Shows n = record { limit = refl; kept = ground arith; lost = omega arith; seen = omega arith }

-- After any history of pushed lines a snapshot holds the newest `max_lines` of them in order,
-- `dropped` counts the older ones and `total` all of them, both modulo 2^64.
pub snapshot-recent :
    (max_lines : ℕ) (history : List ChildOutputLine)
    → let s = snapshot (push_all (new max_lines) history) in
      (s.lines ≡ recent max_lines history)
      × (s.dropped ≡ (length history - max_lines) % u64_mod)
      × (s.total ≡ length history % u64_mod)
unfolding snapshot
snapshot-recent n h =
    let v : Shows n h (push_all (new n) h) = push_all-Shows n [] h (new n) (new-Shows n) in
    (v.kept, v.lost, v.seen)
