-- ===== src/Capture/Suggest/State.antt =====
-- `filter_parse_state` against `TrafficFilter::parse`.
use tlscope_rs.Base.{
  ◌≡◌, refl, Bool, true, false, [], ◌∷◌, arith, Result, ok, err, is_empty, if◌then◌else◌, some_of,
  Bool-cases, inl, inr, ◌⊎◌, ℕ,
}
use tlscope_rs.Text.{Text, trim_start, trim_end, trim, words, split_whitespace, is_whitespace}
use tlscope_rs.Capture.Filter.{parse, parse_tokens, TrafficFilter}
use tlscope_rs.Capture.Suggest.{valid, incomplete, invalid}
use tlscope_rs.Capture.Suggest.Verdict.{filter_parse_state, state_of, is_incomplete_token}

-- A text that starts with a solid character has one when its end is trimmed.
trim_end_keeps : (c : ℕ) (s : Text) → is_whitespace c ≡ false → is_empty (trim_end (c ∷ s)) ≡ false
unfolding trim_end
trim_end_keeps c s h = ground arith

trim_end_blank : (s : Text) → is_empty (trim_end (trim_start s)) ≡ true → words s [] ≡ []
unfolding trim_start words
trim_end_blank [] h = refl
trim_end_blank (c ∷ s) h = elim (Bool-cases (is_whitespace c)) [
  | inl w ↦ rw w (trim_end_blank s (rw w at h))
  | inr w ↦
      let k : is_empty (trim_end (c ∷ s)) ≡ true = rw w at h in
      let n : is_empty (trim_end (c ∷ s)) ≡ false = trim_end_keeps c s w in absurd (cc)
]

blank : (s : Text) → is_empty (trim s) ≡ true → split_whitespace s ≡ []
unfolding trim split_whitespace
blank s h = trim_end_blank s h

parse-blank : (s : Text) → split_whitespace s ≡ [] → parse s ≡ ok (record { conditions = [] })
unfolding parse parse_tokens
parse-blank s h = rw (h, parse)

state_of-valid :
    (r : Result Text TrafficFilter) → state_of r ≡ valid → (f : TrafficFilter) × (r ≡ ok f)
unfolding state_of
state_of-valid (ok f) h = (f, refl)
state_of-valid (err e) h = cc

state_of-invalid : (r : Result Text TrafficFilter) (e : Text) → state_of r ≡ invalid e → r ≡ err e
unfolding state_of
state_of-invalid (ok f) e h = cc
state_of-invalid (err d) e h = cc

pick-valid :
    (a b : Bool) (r : Result Text TrafficFilter)
    → (if a then valid else if b then incomplete else state_of r) ≡ valid
    → (a ≡ true) ⊎ (state_of r ≡ valid)
pick-valid true b r h = inl refl
pick-valid false true r h = absurd (cc)
pick-valid false false r h = inr h

pick-invalid :
    (a b : Bool) (r : Result Text TrafficFilter) (e : Text)
    → (if a then valid else if b then incomplete else state_of r) ≡ invalid e
    → state_of r ≡ invalid e
pick-invalid true b r e h = absurd (cc)
pick-invalid false true r e h = absurd (cc)
pick-invalid false false r e h = h

-- A text shown as valid parses, and the error shown for an invalid one is the parser's.
pub filter_parse_state_lem :
    (s : Text)
    → (filter_parse_state s ≡ valid → (f : TrafficFilter) × (parse s ≡ ok f))
      × ((e : Text) → filter_parse_state s ≡ invalid e → parse s ≡ err e)
unfolding filter_parse_state
filter_parse_state_lem s = (
  λ h.
      elim (pick-valid (is_empty (trim s)) (some_of is_incomplete_token (split_whitespace s))
        (parse s) h) [
          | inl b ↦ (record { conditions = [] }, parse-blank s (blank s b))
          | inr v ↦ state_of-valid (parse s) v
        ],
  λ e h. state_of-invalid (parse s) e (
      pick-invalid (is_empty (trim s)) (some_of is_incomplete_token (split_whitespace s)) (parse s)
        e h),
)
