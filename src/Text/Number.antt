-- ===== src/Text/Number.antt =====
-- Decimal numbers: `str::parse` of an unsigned type, and `Display` of one.
use tlscope_rs.Base.{
  ℕ, zero, suc, ◌+◌, ◌-◌, ◌*◌, ◌/◌, ◌%◌, ◌≤◌, ◌<◌, ◌≡◌, true, false, not, ◌&&◌, [], ◌∷◌, Option,
  none, some, ltb, leb, ◌==◌, if◌then◌else◌, arith, All, Bool-cases, inl, inr,
}
use tlscope_rs.Text.{Text}

-- Each digit joins the number read so far; the bound is the type's largest value plus one.
scan : ℕ → Text → ℕ → Option ℕ
scan bound [] n = some n
scan bound (c ∷ s) n =
    if not (leb b'0' c && leb c b'9')
    then none
    else if leb bound (n * 10 + (c - b'0'))
    then none
    else scan bound s (n * 10 + (c - b'0'))

scan_some : ℕ → Text → Option ℕ
scan_some bound [] = none
scan_some bound (c ∷ s) = scan bound (c ∷ s) 0

-- One leading `+` is allowed.
unfoldable pub parse_uint : ℕ → Text → Option ℕ
unfolding scan scan_some
parse_uint bound [] = none
parse_uint bound (c ∷ s) = if c == b'+' then scan_some bound s else scan bound (c ∷ s) 0

-- The fuel bounds the digits; `n` rounds are enough for `n`.
digits : ℕ → ℕ → Text → Text
digits zero n out = out
digits (suc fuel) n out = elim (ltb n 10) [
  | true ↦ (b'0' + n) ∷ out
  | false ↦ digits fuel (n / 10) ((b'0' + n % 10) ∷ out)
]

unfoldable pub show_uint : ℕ → Text
unfolding digits
show_uint n = digits (n + 1) n []

scan_last :
    (bound n : ℕ) (out : Text)
    → n < bound
    → scan bound ((b'0' + n % 10) ∷ out) (n / 10) ≡ scan bound out n
unfolding scan
scan_last bound n out h = ground arith

scan_first :
    (bound n : ℕ) (out : Text)
    → n < bound
    → n < 10
    → scan bound ((b'0' + n) ∷ out) 0 ≡ scan bound out n
unfolding scan
scan_first bound n out h k = ground arith

scan-digits :
    (fuel bound n : ℕ) (out : Text)
    → n < fuel
    → n < bound
    → scan bound (digits fuel n out) 0 ≡ scan bound out n
unfolding digits
scan-digits zero bound n out f h = absurd (omega arith)
scan-digits (suc fuel) bound n out f h = ground (
  arith,
  scan_first bound n out h,
  scan_last bound n out h,
  scan-digits fuel bound (n / 10) ((b'0' + n % 10) ∷ out),
)

-- The text starts with a digit.
abbrev pub StartsDigit : Text → Type 0
StartsDigit [] = ⊥
StartsDigit (c ∷ s) = (b'0' ≤ c) × (c ≤ b'9')

digits-StartsDigit : (fuel n : ℕ) (out : Text) → n < fuel → StartsDigit (digits fuel n out)
unfolding digits
digits-StartsDigit zero n out f = absurd (omega arith)
digits-StartsDigit (suc fuel) n out f =
    ground (arith, digits-StartsDigit fuel (n / 10) ((b'0' + n % 10) ∷ out))

pub show_uint-StartsDigit : (n : ℕ) → StartsDigit (show_uint n)
unfolding show_uint
show_uint-StartsDigit n = digits-StartsDigit (n + 1) n [] (omega arith)

parse-scan : (bound : ℕ) (s : Text) → StartsDigit s → parse_uint bound s ≡ scan bound s 0
unfolding parse_uint
parse-scan bound [] h = absurd h
parse-scan bound (c ∷ s) h = ground arith

-- A number below the bound is read back from its print.
pub parse_uint-show_uint : (bound n : ℕ) → n < bound → parse_uint bound (show_uint n) ≡ some n
unfolding show_uint scan
parse_uint-show_uint bound n h =
    rw (parse-scan bound (digits (n + 1) n []) (digits-StartsDigit (n + 1) n [] (omega arith)))
      (scan-digits (n + 1) bound n [] (omega arith) h)

abbrev pub IsDigits : Text → Type 0
IsDigits = All (λ c. (b'0' ≤ c) × (c ≤ b'9'))

digits-IsDigits : (fuel n : ℕ) (out : Text) → n < fuel → IsDigits out → IsDigits (digits fuel n out)
unfolding digits
digits-IsDigits zero n out f h = absurd (omega arith)
digits-IsDigits (suc fuel) n out f h = elim (Bool-cases (ltb n 10)) [
  | inl e ↦ rw (digits, e) (ground arith)
  | inr e ↦ rw (digits, e) (digits-IsDigits fuel (n / 10) _ (ground arith) (omega arith, h))
]

pub show_uint-IsDigits : (n : ℕ) → IsDigits (show_uint n)
unfolding show_uint
show_uint-IsDigits n = digits-IsDigits (n + 1) n [] (omega arith) tt
