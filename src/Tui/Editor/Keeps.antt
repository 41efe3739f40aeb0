-- ===== src/Tui/Editor/Keeps.antt =====
-- Every operation of the filter editor keeps it well formed.
use tlscope_rs.Base.{
  ℕ, ◌-◌, ◌≤◌, ◌≡◌, sym, ap, subst, ◌∙◌, Bool, true, false, List, [], ◌∷◌, ◌++◌, Option, none, some,
  append_assoc, append-nil, arith, if◌then◌else◌, is_empty, length, get_elem?,
}
use tlscope_rs.Text.{Text, byte_len}
use tlscope_rs.Text.Offset.{is_char_boundary, Splits-boundary, boundary_of_Splits, boundary_zero}
use tlscope_rs.Capture.Store.{FilterIndex}
use tlscope_rs.Capture.Suggest.{FilterSuggestion}
use tlscope_rs.Capture.Suggest.Verdict.{filter_parse_state}
use tlscope_rs.Tui.Editor.{
  FilterEditorState, keep_selected_visible, replace_range, previous_boundary, next_boundary,
}
use tlscope_rs.Tui.Editor
use tlscope_rs.Tui.Editor.Zipper.{Zipper, upto, Represents, edit_zipper, move_left, move_right}
use tlscope_rs.Tui.Editor.Refines.{move_left-Represents, move_right-Represents}
use tlscope_rs.Tui.Editor.Invariant.{
  IsWellFormed, Keeps, refresh-IsWellFormed, keep_selected_visible-IsInView,
  keep_selected_visible-Same,
}

-- A text read backwards and turned round.
turned : (l r : Text) → (b : Text) × (upto b ≡ upto l ++ r)
unfolding upto
turned l [] = (l, sym (append-nil (upto l)))
turned l (c ∷ r) = let (b, p) = turned (c ∷ l) r in (b, p ∙ append_assoc (upto l) (c ∷ []) r)

-- A well-formed editor shows two sides of its cursor.
sides : (e : FilterEditorState) → IsWellFormed e → (l : List ℕ) × (r : List ℕ) × Represents e (l, r)
unfolding upto
sides e (h, p, v) =
    let (a, b, q, k) = Splits-boundary e.buffer e.cursor h in
    let (l, t) = turned [] a in (l, b, rw t (q, k))

-- Moving the cursor to another boundary.
moved-IsWellFormed :
    (e : FilterEditorState) (n : ℕ) (z : Zipper)
    → IsWellFormed e
    → Represents (record e { cursor = n }) z
    → IsWellFormed (record e { cursor = n })
moved-IsWellFormed e n (l, r) (h, p, v) (q, k) = (rw (q, k) (boundary_of_Splits (upto l) r), p, v)

move_left-cursor :
    (e : FilterEditorState) → Editor.move_left e ≡ record e { cursor = (Editor.move_left e).cursor }
unfolding Editor.move_left
move_left-cursor e = ground arith

move_right-cursor :
    (e : FilterEditorState)
    → Editor.move_right e ≡ record e { cursor = (Editor.move_right e).cursor }
unfolding Editor.move_right
move_right-cursor e = ground arith

pub move_left-Keeps : Keeps Editor.move_left
move_left-Keeps e w =
    let (l, r, shown) = sides e w in
    let m = move_left-Represents e (l, r) shown in
    let same = move_left-cursor e in
    let b : e.buffer ≡ (Editor.move_left e).buffer = sym (ap (λ d. d.buffer) same) in
    rw same (
      moved-IsWellFormed e (Editor.move_left e).cursor (edit_zipper move_left (l, r)) w
        (b ∙ m.0, m.1))

pub move_right-Keeps : Keeps Editor.move_right
move_right-Keeps e w =
    let (l, r, shown) = sides e w in
    let m = move_right-Represents e (l, r) shown in
    let same = move_right-cursor e in
    let b : e.buffer ≡ (Editor.move_right e).buffer = sym (ap (λ d. d.buffer) same) in
    rw same (
      moved-IsWellFormed e (Editor.move_right e).cursor (edit_zipper move_right (l, r)) w
        (b ∙ m.0, m.1))

pub move_home-Keeps : Keeps Editor.move_home
unfolding Editor.move_home
move_home-Keeps e (h, p, v) = (boundary_zero e.buffer, p, v)

pub move_end-Keeps : Keeps Editor.move_end
unfolding Editor.move_end
move_end-Keeps e (h, p, v) = (
  subst (λ s. is_char_boundary s (byte_len e.buffer) ≡ true) (append-nil e.buffer)
      (boundary_of_Splits e.buffer []),
  p,
  v,
)

-- An operation that leaves the editor alone in one case.
or_stays :
    {A : Type 0} (o : Option A) (f : A → FilterEditorState) (e : FilterEditorState)
    → IsWellFormed e
    → ((a : A) → IsWellFormed (f a))
    → IsWellFormed (elim o [ none ↦ e | some a ↦ f a ])
or_stays none f e w h = w
or_stays (some a) f e w h = h a

if_either :
    (b : Bool) (d e : FilterEditorState)
    → IsWellFormed d
    → IsWellFormed e
    → IsWellFormed (if b then d else e)
if_either true d e w h = w
if_either false d e w h = h

pub backspace-Keeps : (index : FilterIndex) → Keeps (λ e. Editor.backspace e index)
unfolding Editor.backspace
backspace-Keeps index e w =
    or_stays (previous_boundary e.buffer e.cursor) _ e w (λ n. refresh-IsWellFormed _ index)

pub delete-Keeps : (index : FilterIndex) → Keeps (λ e. Editor.delete e index)
unfolding Editor.delete
delete-Keeps index e w =
    or_stays (next_boundary e.buffer e.cursor) _ e w (λ n. refresh-IsWellFormed _ index)

pub delete_current_token-Keeps :
    (index : FilterIndex) → Keeps (λ e. Editor.delete_current_token e index)
unfolding Editor.delete_current_token
delete_current_token-Keeps index e w = if_either _ e _ w (refresh-IsWellFormed _ index)

apply_none :
    (o : Option FilterSuggestion) (e : FilterEditorState) (f : FilterSuggestion → FilterEditorState)
    → IsWellFormed e
    → ((s : FilterSuggestion) → IsWellFormed (f s))
    → IsWellFormed
        (elim o as (λ _. FilterEditorState × Bool) [ none ↦ (e, false) | some s ↦ (f s, true) ]).0
apply_none none e f w h = w
apply_none (some s) e f w h = h s

pub apply_selected_suggestion-Keeps :
    (index : FilterIndex) → Keeps (λ e. (Editor.apply_selected_suggestion e index).0)
unfolding Editor.apply_selected_suggestion
apply_selected_suggestion-Keeps index e w =
    apply_none (get_elem? e.suggestions e.selected_suggestion) e _ w
      (λ s. refresh-IsWellFormed _ index)

-- A new selection, brought into view.
selected-IsWellFormed :
    (e : FilterEditorState) (n : ℕ)
    → IsWellFormed e
    → n ≤ length e.suggestions - 1
    → IsWellFormed (keep_selected_visible (record e { selected_suggestion = n }))
selected-IsWellFormed e n (h, p, v) low =
    let moved : FilterEditorState = record e { selected_suggestion = n } in
    let (b, c, q) = keep_selected_visible-Same moved in
    (rw (b, c) h, q ∙ p ∙ ap filter_parse_state (sym b), keep_selected_visible-IsInView moved low)

pub select_next_suggestion-Keeps : Keeps Editor.select_next_suggestion
unfolding Editor.select_next_suggestion
select_next_suggestion-Keeps e w =
    if_either (is_empty e.suggestions) e _ w (selected-IsWellFormed e _ w (omega arith))

pub select_previous_suggestion-Keeps : Keeps Editor.select_previous_suggestion
unfolding Editor.select_previous_suggestion
select_previous_suggestion-Keeps e w =
    let low : e.selected_suggestion - 1 ≤ length e.suggestions - 1 = omega (arith, w.2.0) in
    if_either (is_empty e.suggestions) e _ w (selected-IsWellFormed e _ w low)

pub insert_char-Keeps : (index : FilterIndex) (c : ℕ) → Keeps (λ e. Editor.insert_char e index c)
unfolding Editor.insert_char
insert_char-Keeps index c e w = refresh-IsWellFormed _ index

pub clear-Keeps : (index : FilterIndex) → Keeps (λ e. Editor.clear e index)
unfolding Editor.clear
clear-Keeps index e w = refresh-IsWellFormed _ index

pub reset_to-IsWellFormed :
    (e : FilterEditorState) (s : Text) (index : FilterIndex)
    → IsWellFormed (Editor.reset_to e s index)
unfolding Editor.reset_to
reset_to-IsWellFormed e s index = refresh-IsWellFormed _ index
