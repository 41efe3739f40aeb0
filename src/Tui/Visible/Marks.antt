-- ===== src/Tui/Visible/Marks.antt =====
-- The part of a text that is drawn, and its marks.
use tlscope_rs.Base.{
  ℕ, zero, suc, ◌+◌, ◌-◌, ◌<◌, ◌≡◌, refl, ap, subst, ◌==◌, ◌∙◌, min, Bool, true, false, [], ◌∷◌,
  Option, none, some, arith, length, take, drop, Bool-cases, inl, inr, if◌then◌else◌, ltb, ◌&&◌,
  get_elem?,
}
use tlscope_rs.Text.{Text, len_utf8}
use tlscope_rs.Tui.Visible.{FilterView, mark_start, mark_end}

get_elem?-take : (s : Text) (n i : ℕ) → i < n → get_elem? (take n s) i ≡ get_elem? s i
get_elem?-take s zero i h = absurd (omega arith)
get_elem?-take [] (suc n) i h = refl
get_elem?-take (c ∷ s) (suc n) zero h = refl
get_elem?-take (c ∷ s) (suc n) (suc i) h = get_elem?-take s n i (omega arith)

get_elem?-drop : (s : Text) (k i : ℕ) → get_elem? (drop k s) i ≡ get_elem? s (k + i)
get_elem?-drop s zero i = let e : i ≡ 0 + i = omega arith in ap (get_elem? s) e
get_elem?-drop [] (suc k) i = refl
get_elem?-drop (c ∷ s) (suc k) i =
    let e : suc (k + i) ≡ suc k + i = omega arith in get_elem?-drop s k i ∙ ap (get_elem? (c ∷ s)) e

pub length-drop : (s : Text) (k : ℕ) → length (drop k s) ≡ length s - k
length-drop s zero = omega arith
length-drop [] (suc k) = omega arith
length-drop (c ∷ s) (suc k) = length-drop s k ∙ omega arith

-- The part of a text from a character on.
pub part_at : (s : Text) (n k i : ℕ) → i < n → get_elem? (take n (drop k s)) i ≡ get_elem? s (k + i)
part_at s n k i h = get_elem?-take (drop k s) n i h ∙ get_elem?-drop s k i

-- The mark at the end.
pub mark_end-length : (s : Text) → length (mark_end s) ≡ length s
unfolding mark_end
mark_end-length [] = refl
mark_end-length (c ∷ []) = refl
mark_end-length (c ∷ d ∷ s) = ap suc (mark_end-length (d ∷ s))

pub mark_end-at :
    (s : Text) (i : ℕ)
    → i < length s
    → get_elem? (mark_end s) i ≡ (if suc i == length s then some b'>' else get_elem? s i)
unfolding mark_end
mark_end-at [] i h = absurd (omega arith)
mark_end-at (c ∷ []) zero h = refl
mark_end-at (c ∷ []) (suc i) h = absurd (omega arith)
mark_end-at (c ∷ d ∷ s) zero h = ground arith
mark_end-at (c ∷ d ∷ s) (suc i) h = ground (arith, mark_end-at (d ∷ s) i)

-- A part with its mark at the beginning, if it gets one.
abbrev pub Marked : Bool → Text → Text → Type 0
Marked b s l =
    (length l ≡ length s)
    × ((i : ℕ)
        → i < length l
        → get_elem? l i ≡ (if (i == 0) && b then some b'<' else get_elem? s i))

mark_start-Marked : (c : ℕ) (s l : Text) → mark_start (c ∷ s) ≡ some l → Marked true (c ∷ s) l
unfolding mark_start
mark_start-Marked c s l h = elim (Bool-cases (len_utf8 c == 1)) [
  | inl e ↦
      let same : b'<' ∷ s ≡ l = ground arith in subst (Marked true (c ∷ s)) same (refl, at_place)
  | inr e ↦ absurd (ground arith)
]
  where
    at_place :
        (i : ℕ)
        → i < suc (length s)
        → get_elem? (b'<' ∷ s) i ≡ (if (i == 0) && true then some b'<' else get_elem? (c ∷ s) i)
    at_place zero h = refl
    at_place (suc i) h = ground arith

-- What is made of the part, with its mark if it gets one.
pub marked :
    (b : Bool) (s : Text) (f : Text → FilterView) (v : FilterView)
    → (elim (if b then mark_start s else some s) as (λ _. Option FilterView) [
      | none ↦ none
      | some l ↦ some (f l)
    ])
      ≡ some v
    → (l : Text) × Marked b s l × (f l ≡ v)
unfolding mark_start
marked false [] f v e = ([], (refl, λ i h. absurd (omega arith)), cc)
marked true [] f v e = ([], (refl, λ i h. absurd (omega arith)), cc)
marked false (c ∷ s) f v e = (c ∷ s, (refl, λ i h. ground arith), cc)
marked true (c ∷ s) f v e = elim (Bool-cases (len_utf8 c == 1)) [
  | inl w ↦
      let same : some (f (b'<' ∷ s)) ≡ some v =
        subst
          (λ t.
            (elim (if t then some (b'<' ∷ s) else none) as (λ _. Option FilterView) [
              | none ↦ none
              | some l ↦ some (f l)
            ])
            ≡ some v)
          w e in
      (b'<' ∷ s, mark_start-Marked c s (b'<' ∷ s) (rw (mark_start, w) refl), cc)
  | inr w ↦
      let none_left : none ≡ some v =
        subst
          (λ t.
            (elim (if t then some (b'<' ∷ s) else none) as (λ _. Option FilterView) [
              | none ↦ none
              | some l ↦ some (f l)
            ])
            ≡ some v)
          w e in
      absurd (cc)
]

pub stop_before : (a n : ℕ) → ltb (min a n) n ≡ ltb a n
stop_before a n = ground arith

pub ended-length : (b : Bool) (l : Text) → length (if b then mark_end l else l) ≡ length l
ended-length true l = mark_end-length l
ended-length false l = refl
