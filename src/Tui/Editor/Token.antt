-- ===== src/Tui/Editor/Token.antt =====
-- Deleting the token under the cursor, and putting a suggestion in its place.
use tlscope_rs.Base.{
  ◌+◌, ◌≡◌, refl, sym, ap, ◌∙◌, true, [], ◌∷◌, ◌++◌, arith, append_assoc, append-nil, ◌==◌,
  if_under, none, some, get_elem?,
}
use tlscope_rs.Text.{Text, byte_len}
use tlscope_rs.Text.Laws.{IsSolid, byte_len-append, len_utf8_pos}
use tlscope_rs.Capture.Store.{FilterIndex}
use tlscope_rs.Capture.Suggest.{current_token, FilterSuggestion}
use tlscope_rs.Capture.Suggest.Token.{EndsBlank, StartsBlank, current_token_lem}
use tlscope_rs.Tui.Editor.{
  FilterEditorState, replace_range, delete_current_token, apply_selected_suggestion,
}
use tlscope_rs.Tui.Editor.Boundary.{refresh-split, replace_range-append}

-- The cursor stands in the token `m n`, with `a` before it and `b` behind it.
abbrev pub InToken : FilterEditorState → Text → Text → Text → Text → Type 0
InToken e a m n b =
    (e.buffer ≡ a ++ m ++ (n ++ b))
    × (e.cursor ≡ byte_len (a ++ m))
    × EndsBlank a
    × IsSolid m
    × IsSolid n
    × StartsBlank b

-- Putting a text in place of the token.
replace_range-token :
    (a m n b by : Text)
    → replace_range (a ++ m ++ (n ++ b)) (byte_len a) (byte_len (a ++ m ++ n)) by ≡ a ++ by ++ b
replace_range-token a m n b by =
    let e : a ++ m ++ (n ++ b) ≡ a ++ (m ++ n) ++ b =
      sym (append_assoc (a ++ m) n b) ∙ ap (λ l. l ++ b) (append_assoc a m n) in
    let f : a ++ m ++ n ≡ a ++ (m ++ n) = append_assoc a m n in
    rw (e, f) (replace_range-append a (m ++ n) b by)

-- The cursor between two sides of the text.
unfoldable At : Text → Text → FilterEditorState → Type 0
At a b d = (d.buffer ≡ a ++ b) × (d.cursor ≡ byte_len a)

empty_of_byte_len : (s : Text) → byte_len s ≡ 0 → s ≡ []
unfolding byte_len
empty_of_byte_len [] h = refl
empty_of_byte_len (c ∷ s) h = absurd (omega (arith, len_utf8_pos c))

-- An empty token.
nothing_between :
    (a m n : Text) → (byte_len a == byte_len (a ++ m ++ n)) ≡ true → (m ≡ []) × (n ≡ [])
nothing_between a m n h =
    let e : byte_len (a ++ m ++ n) ≡ byte_len a + byte_len m + byte_len n =
      rw (byte_len-append (a ++ m) n, byte_len-append a m) refl in
    let same : byte_len a ≡ byte_len (a ++ m ++ n) = ground arith in
    (empty_of_byte_len m (omega arith), empty_of_byte_len n (omega arith))

-- The token of the editor.
token_range :
    (e : FilterEditorState) (a m n b : Text)
    → InToken e a m n b
    → ((current_token e.buffer e.cursor).start ≡ byte_len a)
      × ((current_token e.buffer e.cursor).stop ≡ byte_len (a ++ m ++ n))
token_range e a m n b (h, k, p, q, r, t) = rw (h, k) (current_token_lem a m n b p q r t)

-- What is left without the token, which is all where the token is empty.
untouched-At :
    (e : FilterEditorState) (a m n b : Text) → InToken e a m n b → (m ≡ []) × (n ≡ []) → At a b e
unfolding At
untouched-At e a m n b (h, k, p, q, r, t) (x, y) =
    (h ∙ rw (x, y, append-nil a) refl, k ∙ rw (x, append-nil a) refl)

replaced :
    (e : FilterEditorState) (a m n b by : Text)
    → InToken e a m n b
    → replace_range e.buffer
        (current_token e.buffer e.cursor).start
        (current_token e.buffer e.cursor).stop
        by
      ≡ a ++ by ++ b
replaced e a m n b by w =
    let (x, y) = token_range e a m n b w in rw (x, y, w.0) (replace_range-token a m n b by)

delete_current_token-At :
    (e : FilterEditorState) (index : FilterIndex) (a m n b : Text)
    → InToken e a m n b
    → At a b (delete_current_token e index)
unfolding delete_current_token At
delete_current_token-At e index a m n b w =
    let (x, y) = token_range e a m n b w in
    if_under (At a b)
      ((current_token e.buffer e.cursor).start == (current_token e.buffer e.cursor).stop)
      (λ z. untouched-At e a m n b w (nothing_between a m n (rw (x, y) at z)))
      (λ z. refresh-split _ index a b (replaced e a m n b [] w ∙ ap (λ l. l ++ b) (append-nil a)) x)

-- Deleting the token joins what stands before it and behind it, with the cursor between the two. A
-- selected suggestion takes the token's place, with the cursor behind it.
pub token_edits_lem :
    (e : FilterEditorState) (index : FilterIndex) (a m n b : Text)
    → InToken e a m n b
    → (((delete_current_token e index).buffer ≡ a ++ b)
        × ((delete_current_token e index).cursor ≡ byte_len a))
      × ((s : FilterSuggestion)
          → get_elem? e.suggestions e.selected_suggestion ≡ some s
          → ((apply_selected_suggestion e index).0.buffer ≡ a ++ s.replacement ++ b)
            × ((apply_selected_suggestion e index).0.cursor ≡ byte_len (a ++ s.replacement))
            × ((apply_selected_suggestion e index).1 ≡ true))
unfolding apply_selected_suggestion At
token_edits_lem e index a m n b w = (
  delete_current_token-At e index a m n b w,
  λ s h.
      let (x, y) = token_range e a m n b w in
      let (p, q) =
        refresh-split
          (record e {
            buffer =
                replace_range e.buffer (current_token e.buffer e.cursor).start
                  (current_token e.buffer e.cursor).stop s.replacement;
            cursor = (current_token e.buffer e.cursor).start + byte_len s.replacement;
            error = none;
          })
          index (a ++ s.replacement) b (replaced e a m n b s.replacement w)
          (rw x (sym (byte_len-append a s.replacement))) in
      rw (apply_selected_suggestion, h) (p, q, refl),
)
