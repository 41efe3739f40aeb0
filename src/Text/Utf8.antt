-- ===== src/Text/Utf8.antt =====
-- UTF-8: `String::from_utf8_lossy`, `str::from_utf8` and `str::as_bytes`.
use tlscope_rs.Base.{
  ℕ, ◌+◌, ◌-◌, ◌*◌, ◌/◌, ◌%◌, Bool, ◌&&◌, List, [], ◌∷◌, ◌++◌, Option, none, some, ltb, leb, ◌==◌,
  if◌then◌else◌,
}
use tlscope_rs.Text.{Text}

abbrev pub Bytes : Type 0
Bytes = List ℕ

-- The character being read: how many bytes it still needs, the range of the next one, and its bits.
pub record Pending : Type 0 where
  pub need : ℕ
  pub low : ℕ
  pub high : ℕ
  pub bits : ℕ

idle : Pending
idle = record { need = 0; low = 0; high = 0; bits = 0 }

-- What one byte settles: nothing, or a character, where a bad sequence counts as the character
-- U+FFFD.
replacement : ℕ
replacement = 0xfffd

pub data Lead : Type 0 where
  char : ℕ → Lead
  bad : Lead
  more : Pending → Lead

lead : ℕ → Lead
unfolding idle
lead b =
    if ltb b 0x80
    then char b
    else if ltb b 0xc2
    then bad
    else if ltb b 0xe0
    then more (record { need = 1; low = 0x80; high = 0xbf; bits = b - 0xc0 })
    else if ltb b 0xf0
    then more (record {
      need = 2;
      low = if b == 0xe0 then 0xa0 else 0x80;
      high = if b == 0xed then 0x9f else 0xbf;
      bits = b - 0xe0;
    })
    else if ltb b 0xf5
    then more (record {
      need = 3;
      low = if b == 0xf0 then 0x90 else 0x80;
      high = if b == 0xf4 then 0x8f else 0xbf;
      bits = b - 0xf0;
    })
    else bad

is_next : Pending → ℕ → Bool
is_next p b = leb p.low b && leb b p.high

shift : Pending → ℕ → Pending
shift p b = record { need = p.need - 1; low = 0x80; high = 0xbf; bits = p.bits * 64 + (b - 0x80) }

lossy_lead : Lead → List ℕ × Pending
unfolding idle replacement
lossy_lead (char c) = (c ∷ [], idle)
lossy_lead bad = (replacement ∷ [], idle)
lossy_lead (more p) = ([], p)

lossy_step : Pending → ℕ → List ℕ × Pending
unfolding lossy_lead lead is_next shift idle replacement
lossy_step p b =
    if p.need == 0
    then lossy_lead (lead b)
    else if is_next p b
    then (if p.need == 1 then ((shift p b).bits ∷ [], idle) else ([], shift p b))
    else (replacement ∷ (lossy_lead (lead b)).0, (lossy_lead (lead b)).1)

lossy : Pending → Bytes → Text
unfolding lossy_step
lossy p [] = if p.need == 0 then [] else replacement ∷ []
lossy p (b ∷ bs) = (lossy_step p b).0 ++ lossy (lossy_step p b).1 bs

unfoldable pub from_utf8_lossy : Bytes → Text
unfolding lossy
from_utf8_lossy bs = lossy idle bs

strict_lead : Lead → Option (List ℕ × Pending)
unfolding idle
strict_lead (char c) = some (c ∷ [], idle)
strict_lead bad = none
strict_lead (more p) = some ([], p)

strict_step : Pending → ℕ → Option (List ℕ × Pending)
unfolding strict_lead lead is_next shift idle
strict_step p b =
    if p.need == 0
    then strict_lead (lead b)
    else if is_next p b
    then some (if p.need == 1 then ((shift p b).bits ∷ [], idle) else ([], shift p b))
    else none

strict : Pending → Bytes → Option Text
unfolding strict_step
strict p [] = if p.need == 0 then some [] else none
strict p (b ∷ bs) = elim (strict_step p b) [
  | none ↦ none
  | some (cs, q) ↦ elim (strict q bs) [ none ↦ none | some s ↦ some (cs ++ s) ]
]

unfoldable pub from_utf8 : Bytes → Option Text
unfolding strict
from_utf8 bs = strict idle bs

encode_char : ℕ → Bytes
encode_char c =
    if ltb c 0x80
    then c ∷ []
    else if ltb c 0x800
    then (0xc0 + c / 64) ∷ (0x80 + c % 64) ∷ []
    else if ltb c 0x10000
    then (0xe0 + c / 4096) ∷ (0x80 + c / 64 % 64) ∷ (0x80 + c % 64) ∷ []
    else (0xf0 + c / 262144) ∷ (0x80 + c / 4096 % 64) ∷ (0x80 + c / 64 % 64) ∷ (0x80 + c % 64) ∷ []

unfoldable pub as_bytes : Text → Bytes
unfolding encode_char
as_bytes [] = []
as_bytes (c ∷ s) = encode_char c ++ as_bytes s
