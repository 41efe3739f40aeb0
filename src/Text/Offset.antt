-- ===== src/Text/Offset.antt =====
-- Byte offsets into a text: slices `s[..n]` and `s[n..]`, and the boundaries between characters.
-- Off a boundary Rust panics at a slice; here the character in the way is left out of the front.
use tlscope_rs.Base.{
  ℕ, zero, suc, ◌+◌, ◌-◌, ◌≤◌, ◌≡◌, refl, ap, Bool, true, false, [], ◌∷◌, ◌++◌, leb, ◌==◌,
  if◌then◌else◌, arith,
}
use tlscope_rs.Text.{Text, len_utf8, byte_len}
use tlscope_rs.Text.Laws.{len_utf8_pos}

unfoldable pub take_bytes : ℕ → Text → Text
take_bytes n [] = []
take_bytes n (c ∷ s) = if leb (len_utf8 c) n then c ∷ take_bytes (n - len_utf8 c) s else []

unfoldable pub drop_bytes : ℕ → Text → Text
drop_bytes n [] = []
drop_bytes n (c ∷ s) = if leb (len_utf8 c) n then drop_bytes (n - len_utf8 c) s else c ∷ s

unfoldable pub is_char_boundary : Text → ℕ → Bool
is_char_boundary [] n = n == 0
is_char_boundary (c ∷ s) n =
    if n == 0
    then true
    else if leb (len_utf8 c) n
    then is_char_boundary s (n - len_utf8 c)
    else false

-- `while cursor > 0 && !text.is_char_boundary(cursor) { cursor -= 1; }`
unfoldable pub clamp_to_char_boundary : Text → ℕ → ℕ
clamp_to_char_boundary s zero = 0
clamp_to_char_boundary s (suc n) =
    let down = clamp_to_char_boundary s n in if is_char_boundary s (suc n) then suc n else down

-- An offset between two characters splits the text in two.
abbrev pub Splits : Text → ℕ → Type 0
Splits s n = (a : Text) × (b : Text) × (s ≡ a ++ b) × (n ≡ byte_len a)

pub take_bytes-append : (a b : Text) → take_bytes (byte_len a) (a ++ b) ≡ a
unfolding take_bytes byte_len
take_bytes-append [] [] = refl
take_bytes-append [] (c ∷ b) = ground (arith, len_utf8_pos c)
take_bytes-append (c ∷ a) b =
    let e : len_utf8 c + byte_len a - len_utf8 c ≡ byte_len a = omega arith in
    ground (arith, take_bytes-append a b)

pub drop_bytes-append : (a b : Text) → drop_bytes (byte_len a) (a ++ b) ≡ b
unfolding drop_bytes byte_len
drop_bytes-append [] [] = refl
drop_bytes-append [] (c ∷ b) = ground (arith, len_utf8_pos c)
drop_bytes-append (c ∷ a) b =
    let e : len_utf8 c + byte_len a - len_utf8 c ≡ byte_len a = omega arith in
    ground (arith, drop_bytes-append a b)

Splits-cons : (c : ℕ) (s : Text) (m n : ℕ) → Splits s m → n ≡ len_utf8 c + m → Splits (c ∷ s) n
unfolding byte_len
Splits-cons c s m n (a, b, p, q) h = (c ∷ a, b, ap (◌∷◌ c) p, omega arith)

pub Splits-boundary : (s : Text) (n : ℕ) → is_char_boundary s n ≡ true → Splits s n
unfolding is_char_boundary byte_len
Splits-boundary [] n h = ([], [], refl, ground arith)
Splits-boundary (c ∷ s) zero h = ([], c ∷ s, refl, refl)
Splits-boundary (c ∷ s) (suc n) h =
    let low : len_utf8 c ≤ suc n = ground arith in
    Splits-cons c s (suc n - len_utf8 c) (suc n)
      (Splits-boundary s (suc n - len_utf8 c) (ground arith)) (omega arith)

pub boundary_of_Splits : (a b : Text) → is_char_boundary (a ++ b) (byte_len a) ≡ true
unfolding is_char_boundary byte_len
boundary_of_Splits [] [] = refl
boundary_of_Splits [] (c ∷ b) = refl
boundary_of_Splits (c ∷ a) b =
    let e : len_utf8 c + byte_len a - len_utf8 c ≡ byte_len a = omega arith in
    ground (arith, len_utf8_pos c, boundary_of_Splits a b)

pub boundary_zero : (s : Text) → is_char_boundary s 0 ≡ true
unfolding is_char_boundary
boundary_zero [] = refl
boundary_zero (c ∷ s) = refl

-- Clamping ends at a boundary, and moves only to the left.
pub clamp_to_char_boundary-boundary :
    (s : Text) (n : ℕ)
    → (is_char_boundary s (clamp_to_char_boundary s n) ≡ true) × (clamp_to_char_boundary s n ≤ n)
unfolding clamp_to_char_boundary
clamp_to_char_boundary-boundary s zero = (boundary_zero s, omega arith)
clamp_to_char_boundary-boundary s (suc n) = ground (arith, clamp_to_char_boundary-boundary s n)

-- At a boundary it stays.
pub clamp_to_char_boundary_id :
    (s : Text) (n : ℕ) → is_char_boundary s n ≡ true → clamp_to_char_boundary s n ≡ n
unfolding clamp_to_char_boundary
clamp_to_char_boundary_id s zero h = refl
clamp_to_char_boundary_id s (suc n) h = ground arith
