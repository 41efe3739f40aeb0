-- ===== src/Tui/Editor/Boundary.antt =====
-- The steps of the editor at a boundary between two characters of the filter text.
use tlscope_rs.Base.{
  ℕ, ◌+◌, ◌-◌, ◌≡◌, refl, ap, ◌∙◌, min, true, false, [], ◌∷◌, ◌++◌, none, some, append_assoc,
  append-nil, arith, leb, ◌==◌, length,
}
use tlscope_rs.Text.{Text, byte_len, len_utf8}
use tlscope_rs.Text.Laws.{byte_len-append, len_utf8_pos}
use tlscope_rs.Text.Offset.{
  take_bytes, drop_bytes, clamp_to_char_boundary, take_bytes-append, drop_bytes-append,
  boundary_of_Splits, clamp_to_char_boundary_id,
}
use tlscope_rs.Capture.Store.{FilterIndex}
use tlscope_rs.Tui.Editor.{
  FilterEditorState, refresh, refreshed, clamp_suggestion_selection, keep_selected_visible,
  replace_range, previous_boundary, last_start, next_boundary, second_start,
}

keep_selected_visible-buffer :
    (e : FilterEditorState)
    → ((keep_selected_visible e).buffer ≡ e.buffer) × ((keep_selected_visible e).cursor ≡ e.cursor)
unfolding keep_selected_visible
keep_selected_visible-buffer e = ground arith

clamp_suggestion_selection-buffer :
    (e : FilterEditorState)
    → ((clamp_suggestion_selection e).buffer ≡ e.buffer)
      × ((clamp_suggestion_selection e).cursor ≡ e.cursor)
unfolding clamp_suggestion_selection
clamp_suggestion_selection-buffer e =
    let clamped : FilterEditorState = record e {
      selected_suggestion = min e.selected_suggestion (length e.suggestions - 1);
    } in
    ground (arith, keep_selected_visible-buffer clamped)

-- Refreshing at a boundary leaves the text and the cursor alone.
pub refresh-split :
    (e : FilterEditorState) (index : FilterIndex) (a b : Text)
    → e.buffer ≡ a ++ b
    → e.cursor ≡ byte_len a
    → ((refresh e index).buffer ≡ a ++ b) × ((refresh e index).cursor ≡ byte_len a)
unfolding refresh refreshed
refresh-split e index a b h k =
    let low : min e.cursor (byte_len e.buffer) ≡ byte_len a =
      rw (h, k, byte_len-append a b) (omega arith) in
    let at : clamp_to_char_boundary e.buffer (min e.cursor (byte_len e.buffer)) ≡ byte_len a =
      rw (low, h) (clamp_to_char_boundary_id (a ++ b) (byte_len a) (boundary_of_Splits a b)) in
    let (p, q) = clamp_suggestion_selection-buffer (refreshed e index) in (p ∙ h, q ∙ at)

last_start-append :
    (pos : ℕ) (a : Text) (c : ℕ) → last_start pos (a ++ c ∷ []) ≡ some (pos + byte_len a)
unfolding last_start byte_len
last_start-append pos [] c = ground arith
last_start-append pos (d ∷ a) c = ground (arith, last_start-append (pos + len_utf8 d) a c)

pub byte_len_snoc : (a : Text) (c : ℕ) → byte_len (a ++ c ∷ []) ≡ byte_len a + len_utf8 c
unfolding byte_len
byte_len_snoc a c = byte_len-append a (c ∷ []) ∙ omega arith

-- The boundary before the cursor is where the character before it starts.
pub previous_boundary-append :
    (a b : Text) (c : ℕ)
    → previous_boundary ((a ++ c ∷ []) ++ b) (byte_len (a ++ c ∷ [])) ≡ some (byte_len a)
unfolding previous_boundary
previous_boundary-append a b c =
    let pos : (byte_len (a ++ c ∷ []) == 0) ≡ false =
      ground (arith, byte_len_snoc a c, len_utf8_pos c) in
    rw (pos, take_bytes-append (a ++ c ∷ []) b) (last_start-append 0 a c ∙ ap some (omega arith))

pub next_boundary-append :
    (a b : Text) (c : ℕ) → next_boundary (a ++ c ∷ b) (byte_len a) ≡ some (byte_len a + len_utf8 c)
unfolding next_boundary second_start byte_len
next_boundary-append a [] c =
    let e : byte_len (a ++ c ∷ []) ≡ byte_len a + len_utf8 c = byte_len_snoc a c in
    let h : leb (byte_len (a ++ c ∷ [])) (byte_len a) ≡ false = ground (arith, len_utf8_pos c) in
    rw (h, drop_bytes-append a (c ∷ []), e) refl
next_boundary-append a (d ∷ b) c =
    let e : byte_len (a ++ c ∷ d ∷ b) ≡ byte_len a + (len_utf8 c + (len_utf8 d + byte_len b)) =
      byte_len-append a (c ∷ d ∷ b) in
    let h : leb (byte_len (a ++ c ∷ d ∷ b)) (byte_len a) ≡ false = ground (arith, len_utf8_pos c) in
    rw (h, drop_bytes-append a (c ∷ d ∷ b)) refl

pub next_boundary-end : (a : Text) → next_boundary (a ++ []) (byte_len a) ≡ none
unfolding next_boundary
next_boundary-end a =
    let h : leb (byte_len (a ++ [])) (byte_len a) ≡ true = rw (append-nil a) (ground arith) in
    rw h refl

-- Replacing what lies between two boundaries.
pub replace_range-append :
    (a m b by : Text)
    → replace_range (a ++ m ++ b) (byte_len a) (byte_len (a ++ m)) by ≡ a ++ by ++ b
unfolding replace_range
replace_range-append a m b by =
    let front : take_bytes (byte_len a) (a ++ m ++ b) ≡ a =
      rw (append_assoc a m b) (take_bytes-append a (m ++ b)) in
    let back : drop_bytes (byte_len (a ++ m)) (a ++ m ++ b) ≡ b = drop_bytes-append (a ++ m) b in
    rw (replace_range, front, back) refl

pub replace_range-cut :
    (a m b : Text) → replace_range (a ++ m ++ b) (byte_len a) (byte_len (a ++ m)) [] ≡ a ++ b
replace_range-cut a m b = replace_range-append a m b [] ∙ ap (λ l. l ++ b) (append-nil a)

pub replace_range-insert :
    (a b by : Text) → replace_range (a ++ b) (byte_len a) (byte_len a) by ≡ a ++ by ++ b
unfolding replace_range
replace_range-insert a b by = rw (replace_range, take_bytes-append a b, drop_bytes-append a b) refl

pub previous_boundary-start : (s : Text) (n : ℕ) → n ≡ 0 → previous_boundary s n ≡ none
unfolding previous_boundary
previous_boundary-start s n h = rw h refl
