-- ===== src/Text/Laws.antt =====
-- Equations of the operations on texts.
use tlscope_rs.Base.{
  ℕ, ◌+◌, ◌≤◌, ◌≡◌, refl, ap, ◌∙◌, ◌↔◌, ◌≢◌, true, false, [], ◌∷◌, ◌++◌, Option, none, some, ◌==◌,
  append_assoc, append-nil, arith, All, Bool-cases, inl, inr,
}
use tlscope_rs.Text.{
  Text, text_eq, is_whitespace, to_lower, to_ascii_lowercase, strip_prefix, split_once, words,
  byte_len, len_utf8, first_part, trim_start, trim_end, trim, rsplit_once, contains_char,
}

pub eq_of_text_eq : (s t : Text) → text_eq s t ≡ true → s ≡ t
eq_of_text_eq [] [] h = refl
eq_of_text_eq [] (d ∷ t) h = cc
eq_of_text_eq (c ∷ s) [] h = cc
eq_of_text_eq (c ∷ s) (d ∷ t) h = ground (arith, eq_of_text_eq s t)

pub text_eq_refl : (s : Text) → text_eq s s ≡ true
text_eq_refl [] = refl
text_eq_refl (c ∷ s) = ground (arith, text_eq_refl s)

pub text_eq_iff : (s t : Text) → (text_eq s t ≡ true) ↔ (s ≡ t)
text_eq_iff s t = (eq_of_text_eq s t, λ e. rw e (text_eq_refl t))

pub to_lower_idem : (c : ℕ) → to_lower (to_lower c) ≡ to_lower c
unfolding to_lower
to_lower_idem c = ground arith

pub to_ascii_lowercase_idem :
    (s : Text) → to_ascii_lowercase (to_ascii_lowercase s) ≡ to_ascii_lowercase s
unfolding to_ascii_lowercase
to_ascii_lowercase_idem [] = refl
to_ascii_lowercase_idem (c ∷ s) = cc (to_lower_idem c, to_ascii_lowercase_idem s)

pub strip_prefix-append : (p s : Text) → strip_prefix (p ++ s) p ≡ some s
strip_prefix-append [] s = refl
strip_prefix-append (d ∷ p) s = ground (arith, strip_prefix-append p s)

pub strip_prefix-eq : (s p t : Text) → strip_prefix s p ≡ some t → s ≡ p ++ t
strip_prefix-eq s [] t h = ground arith
strip_prefix-eq [] (d ∷ p) t h = ground arith
strip_prefix-eq (c ∷ s) (d ∷ p) t h = ground (arith, strip_prefix-eq s p t)

abbrev pub Lacks : ℕ → Text → Type 0
Lacks sep = All (λ c. c ≢ sep)

pub split_once-append :
    (a b : Text) (sep : ℕ) → Lacks sep a → split_once (a ++ sep ∷ b) sep ≡ some (a, b)
unfolding split_once
split_once-append [] b sep h = ground arith
split_once-append (c ∷ a) b sep h = ground (arith, split_once-append a b sep h.1)

first_part-eq :
    (c : ℕ) (r : Option (Text × Text)) (a b : Text)
    → first_part c r ≡ some (a, b)
    → (x : Text) × (r ≡ some (x, b)) × (a ≡ c ∷ x)
first_part-eq c none a b h = cc
first_part-eq c (some (x, y)) a b h = (x, ground arith, ground arith)

-- The part before the split holds no separator, and the parts spell the text.
pub split_once-eq :
    (s : Text) (sep : ℕ) (a b : Text)
    → split_once s sep ≡ some (a, b)
    → (s ≡ a ++ sep ∷ b) × Lacks sep a
unfolding split_once
split_once-eq [] sep a b h = cc
split_once-eq (c ∷ s) sep a b h = elim (Bool-cases (c == sep)) [
  | inl e ↦ ground arith
  | inr e ↦
      let (x, p, q) = first_part-eq c (split_once s sep) a b (rw e at h) in
      let ih : (s ≡ x ++ sep ∷ b) × Lacks sep x = split_once-eq s sep x b p in ground arith
]

-- No character of a word is white space.
abbrev pub IsSolid : Text → Type 0
IsSolid = All (λ c. is_whitespace c ≡ false)

pub words_solid : (w s word : Text) → IsSolid w → words (w ++ s) word ≡ words s (word ++ w)
unfolding words
words_solid [] s word h = rw (append-nil word)
words_solid (c ∷ w) s word h =
    rw (h.0) (words_solid w s (word ++ c ∷ []) h.1 ∙ ap (words s) (append_assoc word (c ∷ []) w))

pub byte_len-append : (s t : Text) → byte_len (s ++ t) ≡ byte_len s + byte_len t
unfolding byte_len
byte_len-append [] t = omega arith
byte_len-append (c ∷ s) t = omega (arith, byte_len-append s t)

pub len_utf8_pos : (c : ℕ) → 1 ≤ len_utf8 c
unfolding len_utf8
len_utf8_pos c = ground arith

pub trim_start_solid : (s : Text) → IsSolid s → trim_start s ≡ s
unfolding trim_start
trim_start_solid [] h = refl
trim_start_solid (c ∷ s) h = rw (h.0) refl

pub trim_end_solid : (s : Text) → IsSolid s → trim_end s ≡ s
unfolding trim_end
trim_end_solid [] h = refl
trim_end_solid (c ∷ []) h = rw (h.0) refl
trim_end_solid (c ∷ d ∷ s) h = rw (trim_end, trim_end_solid (d ∷ s) h.1) refl

pub trim_solid : (s : Text) → IsSolid s → trim s ≡ s
unfolding trim
trim_solid s h = rw (trim_start_solid s h) (trim_end_solid s h)

pub rsplit_once-Lacks : (s : Text) (sep : ℕ) → Lacks sep s → rsplit_once s sep ≡ none
unfolding rsplit_once
rsplit_once-Lacks [] sep h = refl
rsplit_once-Lacks (c ∷ s) sep h = rw (rsplit_once, rsplit_once-Lacks s sep h.1) (ground arith)

pub rsplit_once-append :
    (a b : Text) (sep : ℕ) → Lacks sep b → rsplit_once (a ++ sep ∷ b) sep ≡ some (a, b)
unfolding rsplit_once
rsplit_once-append [] b sep h = rw (rsplit_once, rsplit_once-Lacks b sep h) (ground arith)
rsplit_once-append (c ∷ a) b sep h = rw (rsplit_once, rsplit_once-append a b sep h) refl

pub contains_char-Lacks : (s : Text) (sep : ℕ) → contains_char s sep ≡ false → Lacks sep s
unfolding contains_char
contains_char-Lacks [] sep h = tt
contains_char-Lacks (c ∷ s) sep h = ground (arith, contains_char-Lacks s sep)
