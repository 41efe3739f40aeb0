-- ===== src/Tui/Visible/Panic.antt =====
-- When `visible_text` panics.
use tlscope_rs.Base.{
  ℕ, zero, suc, ◌+◌, ◌-◌, ◌≤◌, ◌<◌, ◌≡◌, ◌≢◌, refl, sym, ◌∙◌, min, max, Bool, true, false, [], ◌∷◌,
  ◌++◌, Option, none, some, arith, length, take, drop, length-append, if◌then◌else◌, ◌↔◌, ◌%◌,
  u16_mod, ltb, leb, get_elem?,
}
use tlscope_rs.Text.{Text, byte_len, len_utf8}
use tlscope_rs.Text.Offset.{
  take_bytes, clamp_to_char_boundary, take_bytes-append, boundary_of_Splits,
  clamp_to_char_boundary_id,
}
use tlscope_rs.Text.Laws.{byte_len-append}
use tlscope_rs.Tui.Visible.{visible_text, scrolled, mark_start}

-- A character that takes several bytes.
abbrev pub IsWide : Option ℕ → Type 0
IsWide none = ⊥
IsWide (some c) = len_utf8 c ≢ 1

mark_start-none :
    (s : Text) (i n : ℕ)
    → (n ≡ 0 → length s ≤ i)
    → (mark_start (take n (drop i s)) ≡ none) ↔ IsWide (get_elem? s i)
unfolding mark_start
mark_start-none [] zero zero h = (λ e. absurd (cc), λ e. absurd e)
mark_start-none [] zero (suc n) h = (λ e. absurd (cc), λ e. absurd e)
mark_start-none [] (suc i) zero h = (λ e. absurd (cc), λ e. absurd e)
mark_start-none [] (suc i) (suc n) h = (λ e. absurd (cc), λ e. absurd e)
mark_start-none (c ∷ s) zero zero h = absurd (omega (arith, h refl))
mark_start-none (c ∷ s) zero (suc n) h = (λ e. ground arith, λ e. ground arith)
mark_start-none (c ∷ s) (suc i) n h = mark_start-none s i n (λ e. omega (arith, h e))

-- The cursor between two sides of the text.
cursor_chars :
    (a b : Text)
    → length (
        take_bytes
          (clamp_to_char_boundary (a ++ b) (min (byte_len a) (byte_len (a ++ b))))
          (a ++ b))
      ≡ length a
cursor_chars a b =
    let low : min (byte_len a) (byte_len (a ++ b)) ≡ byte_len a =
      rw (byte_len-append a b) (omega arith) in
    rw
      (
        low,
        clamp_to_char_boundary_id (a ++ b) (byte_len a) (boundary_of_Splits a b),
        take_bytes-append a b,
      )
      refl

pick-none :
    {A : Type 0} (b : Bool) (o : Option Text) (v : Text) (f : Text → A)
    → (elim (if b then o else some v) as (λ _. Option A) [ none ↦ none | some l ↦ some (f l) ]
        ≡ none)
      ↔ ((b ≡ true) × (o ≡ none))
pick-none true none v f = (λ e. (refl, refl), λ e. refl)
pick-none true (some l) v f = (λ e. absurd (cc), λ e. absurd (cc))
pick-none false o v f = (λ e. absurd (cc), λ e. absurd (cc))

scrolled-none :
    (s : Text) (at width : ℕ)
    → 0 < width
    → at ≤ length s
    → (scrolled s at width ≡ none)
      ↔ ((0 < at - (width - 1)) × IsWide (get_elem? s (at - (width - 1))))
unfolding scrolled
scrolled-none s at width h k =
    let m =
      mark_start-none s (at - (width - 1))
        (min (at - (width - 1) + width) (length s) - (at - (width - 1))) (λ e. omega arith) in
    let p =
      pick-none (ltb 0 (at - (width - 1)))
        (mark_start (
          take (min (at - (width - 1) + width) (length s) - (at - (width - 1)))
            (drop (at - (width - 1)) s)))
        _ _ in
    (λ e. (ground (arith, (p.0 e).0), m.0 (p.0 e).1), λ e. p.1 (ground (arith, e.0), m.1 e.1))

fits-none :
    {A : Type 0} (b : Bool) (v : A) (o : Option A)
    → ((if b then some v else o) ≡ none) ↔ ((b ≡ false) × (o ≡ none))
fits-none true v o = (λ e. absurd (cc), λ e. absurd (cc))
fits-none false v o = (λ e. (refl, e), λ e. e.1)

-- With the cursor behind the characters `a`.
pub visible_text-split :
    (a b : Text) (columns : ℕ)
    → visible_text (a ++ b) (byte_len a) columns ≡ (
        if leb (length (a ++ b)) (max columns 1)
        then some (record {
          shown = a ++ b;
          cursor_column = min (length a) (max columns 1 - 1) % u16_mod;
        })
        else scrolled (a ++ b) (length a) (max columns 1))
unfolding visible_text
visible_text-split a b columns = rw (visible_text, cursor_chars a b) refl

-- With the cursor behind the characters `a` of the text `a ++ b`, drawing the filter panics exactly
-- if the text is longer than the field, its beginning does not fit, and the first character shown
-- takes several bytes.
pub visible_text-none :
    (a b : Text) (columns : ℕ)
    → (visible_text (a ++ b) (byte_len a) columns ≡ none) ↔ (
        (max columns 1 < length (a ++ b))
        × (0 < length a - (max columns 1 - 1))
        × IsWide (get_elem? (a ++ b) (length a - (max columns 1 - 1))))
visible_text-none a b columns =
    let low : length a ≤ length (a ++ b) = omega (arith, length-append a b) in
    let n = scrolled-none (a ++ b) (length a) (max columns 1) (omega arith) low in
    let f =
      fits-none (leb (length (a ++ b)) (max columns 1)) _
        (scrolled (a ++ b) (length a) (max columns 1)) in
    let g = visible_text-split a b columns in
    (
      λ e. let (x, y) = f.0 (sym g ∙ e) in let (z, w) = n.0 y in (ground arith, z, w),
      λ (x, y, z). g ∙ f.1 (ground arith, n.1 (y, z)),
    )
