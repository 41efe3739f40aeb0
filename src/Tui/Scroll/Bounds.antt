-- ===== src/Tui/Scroll/Bounds.antt =====
-- Where moving the selection and the scroll offsets can end up.
use tlscope_rs.Base.{
  ℕ, zero, suc, ◌+◌, ◌-◌, ◌^◌, ◌<◌, ◌≡◌, refl, min, List, [], ◌∷◌, some, arith, length, get_elem?,
}
use tlscope_rs.Capture.Entry.{TrafficEntry}
use tlscope_rs.Tui.State.{TuiState}
use tlscope_rs.Tui.Scroll.{
  select_next_request, select_previous_request, select_first_request, select_last_request,
}

-- A move through the requests.
pub data Move : Type 0 where
  next previous : ℕ → Move
  first last : Move

unfoldable pub move : Move → TuiState → List TrafficEntry → TuiState
unfolding select_next_request select_previous_request select_first_request select_last_request
move (next n) s es = select_next_request s es n
move (previous n) s es = select_previous_request s es n
move first s es = select_first_request s es
move last s es = select_last_request s es

get_elem?-length {ℓ} :
    {A : Type ℓ} (xs : List A) (i : ℕ) → i < length xs → (x : A) × (get_elem? xs i ≡ some x)
get_elem?-length [] i h = absurd (omega arith)
get_elem?-length (x ∷ xs) zero h = (x, refl)
get_elem?-length (x ∷ xs) (suc i) h = get_elem?-length xs i (omega arith)

-- Wherever the selection stood, a move through a list that is not empty ends on an entry of it.
pub move-selected :
    (m : Move) (s : TuiState) (e : TrafficEntry) (es : List TrafficEntry)
    → (move m s (e ∷ es)).selected < length (e ∷ es)
unfolding move
move-selected (next n) s e es = ground arith
move-selected (previous n) s e es = ground arith
move-selected first s e es = omega arith
move-selected last s e es = omega arith

-- From a selection of an entry, `amount` steps on stop at the last one, and back at the first.
pub select-steps :
    (s : TuiState) (es : List TrafficEntry) (n : ℕ)
    → s.selected < length es
    → s.selected + n < 2 ^ 64
    → ((select_next_request s es n).selected ≡ min (s.selected + n) (length es - 1))
      × ((select_previous_request s es n).selected ≡ s.selected - n)
unfolding select_next_request select_previous_request
select-steps s [] n h k = absurd (omega arith)
select-steps s (e ∷ es) n h k = (ground arith, ground arith)
