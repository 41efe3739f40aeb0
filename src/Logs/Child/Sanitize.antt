-- ===== src/Logs/Child/Sanitize.antt =====
-- `sanitize_output_line` and `strip_ansi_sequences` of src/process/logs.rs.
use tlscope_rs.Base.{
  ℕ, ◌+◌, ◌-◌, ◌≤◌, ◌≡◌, refl, ◌⊎◌, inr, Bool, true, false, not, ◌&&◌, ◌||◌, [], ◌∷◌, ◌++◌, arith,
  leb, ◌==◌, if◌then◌else◌, length, length-append, All, All-append, append-nil,
}
use tlscope_rs.Text.{Text, text, is_control}
use tlscope_rs.Text.Utf8.{Bytes, from_utf8_lossy}

escape : ℕ
escape = 0x1b

-- `'@'..='~'` ends a control sequence.
ends_sequence : ℕ → Bool
ends_sequence c = leb b'@' c && leb c b'~'

-- The flag says that a control sequence is being skipped.
strip : Bool → Text → Text
unfolding escape ends_sequence
strip skipping [] = []
strip true (c ∷ s) = strip (not (ends_sequence c)) s
strip false (c ∷ []) = c ∷ []
strip false (c ∷ d ∷ s) = elim (c == escape && d == b'[') [
  | true ↦ strip true s
  | false ↦ c ∷ strip false (d ∷ s)
]

pub strip_ansi_sequences : Text → Text
unfolding strip
strip_ansi_sequences = strip false

-- `while end > 0 && matches!(bytes[end - 1], b'\n' | b'\r')`.
without_newlines : Bytes → Bytes
without_newlines [] = []
without_newlines (b ∷ bs) = elim (without_newlines bs) [
  | [] ↦ if b == b'\n' || b == b'\r' then [] else b ∷ []
  | d ∷ ds ↦ b ∷ d ∷ ds
]

clean : ℕ → ℕ
unfolding is_control
clean c = if c == b'\t' || not (is_control c) then c else b' '

-- The loop over the stripped characters: the text, and `truncated`.
copy_chars : ℕ → ℕ → Text → Text × Bool
unfolding clean
copy_chars max_chars count [] = ([], false)
copy_chars max_chars count (c ∷ s) =
    let rest = copy_chars max_chars (count + 1) s in
    if count == max_chars then ([], true) else (clean c ∷ rest.0, rest.1)

unfoldable pub sanitize_output_line : Bytes → ℕ → Text
unfolding without_newlines strip_ansi_sequences copy_chars from_utf8_lossy
sanitize_output_line bytes max_chars =
    let r =
      copy_chars max_chars 0 (strip_ansi_sequences (from_utf8_lossy (without_newlines bytes))) in
    r.0 ++ (if r.1 then text "..." else [])

-- A character that a terminal shows in place, or a tab.
abbrev pub IsPrintable : ℕ → Type 0
IsPrintable c = (c ≡ b'\t') ⊎ (is_control c ≡ false)

clean-IsPrintable : (c : ℕ) → IsPrintable (clean c)
unfolding clean is_control
clean-IsPrintable c = ground arith

copy_chars_lem :
    (max_chars count : ℕ) (s : Text)
    → count ≤ max_chars
    → All IsPrintable (copy_chars max_chars count s).0
      × (length (copy_chars max_chars count s).0 ≤ max_chars - count)
unfolding copy_chars
copy_chars_lem n k [] h = (tt, omega arith)
copy_chars_lem n k (c ∷ s) h = ground (arith, clean-IsPrintable c, copy_chars_lem n (k + 1) s)

dots : All IsPrintable (text "...") × (length (text "...") ≡ 3)
unfolding text is_control
dots = ((inr refl, (inr refl, (inr refl, tt))), refl)

-- What a copy leaves, with the dots if it stopped early.
finish-IsPrintable :
    (n : ℕ) (out : Text) (cut : Bool)
    → All IsPrintable out
    → length out ≤ n
    → All IsPrintable (out ++ (if cut then text "..." else []))
      × (length (out ++ (if cut then text "..." else [])) ≤ n + 3)
finish-IsPrintable n out false p q = rw (append-nil out) (p, omega arith)
finish-IsPrintable n out true p q = (
  All-append IsPrintable out (text "...") p dots.0,
  omega (arith, length-append out (text "..."), dots.1),
)

-- Whatever bytes the child prints, the stored line has no control character but tabs (so no escape
-- sequence reaches the terminal), and at most `max_chars` characters and the three dots.
pub sanitize_output_line-IsPrintable :
    (bytes : Bytes) (max_chars : ℕ)
    → All IsPrintable (sanitize_output_line bytes max_chars)
      × (length (sanitize_output_line bytes max_chars) ≤ max_chars + 3)
unfolding sanitize_output_line
sanitize_output_line-IsPrintable bytes n =
    let s : Text = strip_ansi_sequences (from_utf8_lossy (without_newlines bytes)) in
    let (p, q) = copy_chars_lem n 0 s (omega arith) in
    finish-IsPrintable n (copy_chars n 0 s).0 (copy_chars n 0 s).1 p (omega arith)
