-- ===== src/Tui/Visible/Fits.antt =====
-- What `visible_text` draws, and where the cursor stands in it.
use tlscope_rs.Base.{
  ℕ, suc, ◌+◌, ◌-◌, ◌≤◌, ◌<◌, ◌≡◌, sym, ap, subst, if_under, ◌==◌, length-take, ◌∙◌, min, max, ◌++◌,
  Option, some, arith, length, take, drop, Bool-cases, inl, inr, if◌then◌else◌, ◌%◌, u16_mod, ltb,
  leb, ◌&&◌, ◌⊎◌, get_elem?, length-append,
}
use tlscope_rs.Text.{Text, byte_len}
use tlscope_rs.Tui.Visible.{FilterView, visible_text, scrolled, mark_end}
use tlscope_rs.Tui.Visible.Marks.{
  part_at, length-drop, mark_end-at, marked, stop_before, ended-length,
}
use tlscope_rs.Tui.Visible.Panic.{visible_text-split}

-- The character at a place of a field that shows a text from a character on: `>` at the end if the
-- text goes on behind it, `<` at the beginning if it goes on in front of it.
pub drawn_at : Text → ℕ → ℕ → ℕ → Option ℕ
drawn_at s columns start i =
    if (suc i == columns) && ltb (start + columns) (length s)
    then some b'>'
    else if (i == 0) && ltb 0 start
    then some b'<'
    else get_elem? s (start + i)

-- What is drawn of a text with the cursor behind so many characters.
pub record Draws (s : Text) (cursor columns start : ℕ) (v : FilterView) : Type 0 where
  pub size : length v.shown ≡ min columns (length s - start)
  pub characters : (i : ℕ) → i < length v.shown → get_elem? v.shown i ≡ drawn_at s columns start i
  pub inside : v.cursor_column < columns
  pub place :
      (cursor ≡ start + v.cursor_column)
      ⊎ ((length s ≡ columns) × (cursor ≡ length s) × (suc v.cursor_column ≡ columns))

-- A part of a long text, with the cursor in it, is what is to be drawn, once its end is marked if the text
-- goes on.
module _ (s l : Text) (cursor columns : ℕ) (long : columns < length s) (room : 0 < columns)
    (small : columns ≤ u16_mod) (low : cursor ≤ length s)
    (size : length l ≡ min columns (length s - (cursor - (columns - 1))))
    (places : (j : ℕ)
      → j < length l
      → get_elem? l j ≡ (
          if (j == 0) && ltb 0 (cursor - (columns - 1))
          then some b'<'
          else get_elem? s (cursor - (columns - 1) + j))) where
  ended-at :
      (i : ℕ)
      → i < length l
      → get_elem? (if ltb (cursor - (columns - 1) + columns) (length s) then mark_end l else l) i
        ≡ drawn_at s columns (cursor - (columns - 1)) i
  unfolding drawn_at
  ended-at i h = elim (Bool-cases (ltb (cursor - (columns - 1) + columns) (length s))) [
    | inl e ↦ rw e (ground (arith, mark_end-at l i h, places i h))
    | inr e ↦ rw e (ground (arith, places i h))
  ]

  ended-Draws : Draws s cursor columns (cursor - (columns - 1)) (record {
    shown =
        if ltb (min (cursor - (columns - 1) + columns) (length s)) (length s)
        then mark_end l
        else l;
    cursor_column = min (cursor - (cursor - (columns - 1))) (columns - 1) % u16_mod;
  })
  ended-Draws =
      let goes_on = ltb (min (cursor - (columns - 1) + columns) (length s)) (length s) in
      let same = stop_before (cursor - (columns - 1) + columns) (length s) in
      record {
        size = ended-length goes_on l ∙ size;
        characters = λ i h.
            ap (λ b. get_elem? (if b then mark_end l else l) i) same
            ∙ ended-at i (subst (λ n. i < n) (ended-length goes_on l) h);
        inside = omega arith;
        place = inl (omega arith);
      }

scrolled-Draws :
    (s : Text) (cursor width : ℕ) (v : FilterView)
    → 0 < width
    → width ≤ u16_mod
    → width < length s
    → cursor ≤ length s
    → scrolled s cursor width ≡ some v
    → Draws s cursor width (cursor - (width - 1)) v
unfolding scrolled
scrolled-Draws s cursor width v h small long low e =
    let start = cursor - (width - 1) in
    let stop = min (start + width) (length s) in
    let part = take (stop - start) (drop start s) in
    let size : length part ≡ min width (length s - start) =
      omega (arith, length-take (stop - start) (drop start s), length-drop s start) in
    let (l, (same_size, at), made) = marked (ltb 0 start) part _ v e in
    let made_view : FilterView = record {
      shown = if ltb stop (length s) then mark_end l else l;
      cursor_column = min (cursor - start) (width - 1) % u16_mod;
    } in
    let places : (j : ℕ)
        → j < length l
        → get_elem? l j ≡ (if (j == 0) && ltb 0 start then some b'<' else get_elem? s (start + j)) =
      λ j k.
        at j k
        ∙ ap (λ o. if (j == 0) && ltb 0 start then some b'<' else o)
            (part_at s (stop - start) start j (omega arith)) in
    let long_l : length l ≡ min width (length s - start) = same_size ∙ size in
    subst (Draws s cursor width start) made
      (ended-Draws s l cursor width long h small low long_l places)

-- The whole text fits.
whole-Draws :
    (s : Text) (cursor columns : ℕ)
    → 0 < columns
    → columns ≤ u16_mod
    → length s ≤ columns
    → cursor ≤ length s
    → Draws s cursor columns 0
        (record { shown = s; cursor_column = min cursor (columns - 1) % u16_mod })
unfolding drawn_at
whole-Draws s cursor columns h small short low = record {
  size = omega arith;
  characters = λ i k. let e : i ≡ 0 + i = omega arith in ground arith;
  inside = omega arith;
  place = ground arith;
}

-- Where `visible_text` does not panic, in a field with columns, of which there are at most 2^16: from some
-- character on it shows as many as there are, up to one for each column, with `<` in the first place if the
-- text goes on in front of them and `>` in the last place if it goes on behind them; and the cursor stands
-- in the field, at its place in the text, or on the last column where the text fills the field and the
-- cursor is behind it. Columns count characters, whatever their width.
pub visible_text-fits :
    (a b : Text) (columns : ℕ) (v : FilterView)
    → 0 < columns
    → columns ≤ u16_mod
    → visible_text (a ++ b) (byte_len a) columns ≡ some v
    → (start : ℕ) × Draws (a ++ b) (length a) columns start v
visible_text-fits a b columns v h small e =
    let low : length a ≤ length (a ++ b) = omega (arith, length-append a b) in
    let width : max columns 1 ≡ columns = omega arith in
    let view =
      subst
        (λ w. visible_text (a ++ b) (byte_len a) columns ≡ (
          if leb (length (a ++ b)) w
          then some (record { shown = a ++ b; cursor_column = min (length a) (w - 1) % u16_mod })
          else scrolled (a ++ b) (length a) w))
        width (visible_text-split a b columns) in
    if_under (λ o. o ≡ some v → (start : ℕ) × Draws (a ++ b) (length a) columns start v)
      (leb (length (a ++ b)) columns)
      (λ fits made. (
        0,
        subst (Draws (a ++ b) (length a) columns 0) (some_view _ v made)
            (whole-Draws (a ++ b) (length a) columns h small (ground arith) low),
      ))
      (λ over made. (
        length a - (columns - 1),
        scrolled-Draws (a ++ b) (length a) columns v h small (ground arith) low made,
      ))
      (sym view ∙ e)
  where
    some_view : (x y : FilterView) → some x ≡ some y → x ≡ y
    some_view x y q = cc
