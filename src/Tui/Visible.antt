-- ===== src/Tui/Visible.antt =====
-- `visible_text` of src/tui/filter.rs: the part of the filter text that fits, with `<` and `>` where
-- it goes on. `none` is a panic.
pub mod Panic
pub mod Marks
pub mod Fits
use tlscope_rs.Base.{
  ℕ, zero, suc, ◌+◌, ◌-◌, ◌%◌, ◌≤◌, ◌<◌, ◌≡◌, ◌≢◌, refl, min, max, Bool, true, false, List, [], ◌∷◌,
  ◌++◌, Option, none, some, ltb, leb, ◌==◌, if◌then◌else◌, length, take, drop, is_empty, arith,
  u16_mod,
}
use tlscope_rs.Text.{Text, byte_len, len_utf8}
use tlscope_rs.Text.Offset.{take_bytes, clamp_to_char_boundary}

pub record FilterView : Type 0 where
  pub shown : Text
  pub cursor_column : ℕ

-- `visible.replace_range(0..1, "<")`: one byte, so the character there has to be one byte long.
pub mark_start : Text → Option Text
mark_start [] = some []
mark_start (c ∷ s) = if len_utf8 c == 1 then some (b'<' ∷ s) else none

-- The last character gives way to `>`, whatever its length.
pub mark_end : Text → Text
mark_end [] = []
mark_end (c ∷ []) = b'>' ∷ []
mark_end (c ∷ d ∷ s) = c ∷ mark_end (d ∷ s)

-- The branch in which the text is longer than the width.
unfoldable pub scrolled : Text → ℕ → ℕ → Option FilterView
unfolding mark_start mark_end
scrolled chars cursor_char width =
    let start = cursor_char - (width - 1) in
    let stop = min (start + width) (length chars) in
    let visible = take (stop - start) (drop start chars) in
    elim (if ltb 0 start then mark_start visible else some visible) [
      | none ↦ none
      | some left ↦ some (record {
        shown = if ltb stop (length chars) then mark_end left else left;
        cursor_column = min (cursor_char - start) (width - 1) % u16_mod;
      })
    ]

unfoldable pub visible_text : Text → ℕ → ℕ → Option FilterView
unfolding scrolled
visible_text s at columns =
    let width = max columns 1 in
    let cursor_char = length (take_bytes (clamp_to_char_boundary s (min at (byte_len s))) s) in
    if leb (length s) width
    then some (record { shown = s; cursor_column = min cursor_char (width - 1) % u16_mod })
    else scrolled s cursor_char width
