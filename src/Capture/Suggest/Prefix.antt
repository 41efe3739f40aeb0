-- ===== src/Capture/Suggest/Prefix.antt =====
-- The completion of a host or a content type from the sorted index.
use Prim.Native.Nat.{Ordering}
use Prim.Native.Nat.Ordering.{lt, eq, gt}
use tlscope_rs.Base.{
  ℕ, zero, suc, ◌≤◌, ◌<◌, ◌≡◌, ◌≢◌, refl, ap, ◌∙◌, sym, Bool, true, false, List, [], ◌∷◌, arith,
  Option, none, some, keep, take, drop, take_while, length, if◌then◌else◌, All, ◌⊎◌, inl, inr,
  Bool-cases,
}
use tlscope_rs.Base.Order.{compare_text, text_ord}
use tlscope_rs.Text.{Text, starts_with}
use tlscope_rs.Capture.SortedVec.{partition_point, probe_test, settle, index_of}
use tlscope_rs.Capture.SortedVec.Search.{IsSorted, search_all-settle}
use tlscope_rs.Capture.Suggest.Build.{prefix_suggestions, text_lt}

-- Texts below a prefix do not start with it.
not-starts_with_below : (v p : Text) → compare_text v p ≡ lt → starts_with v p ≡ false
not-starts_with_below [] [] h = cc
not-starts_with_below [] (d ∷ p) h = refl
not-starts_with_below (c ∷ v) [] h = cc
not-starts_with_below (c ∷ v) (d ∷ p) h = ground (arith, not-starts_with_below v p)

-- Past the texts that start with a prefix there are no more.
not-starts_with_past :
    (v w p : Text)
    → compare_text v p ≢ lt
    → starts_with v p ≡ false
    → compare_text v w ≡ lt
    → (starts_with w p ≡ false) × (compare_text w p ≢ lt)
not-starts_with_past v w [] a b c = absurd (cc)
not-starts_with_past [] w (d ∷ p) a b c = absurd (a refl)
not-starts_with_past (x ∷ v) [] (d ∷ p) a b c = cc
not-starts_with_past (x ∷ v) (y ∷ w) (d ∷ p) a b c = ground (arith, not-starts_with_past v w p)

text_lt-cases :
    (v p : Text)
    → ((text_lt v p ≡ true) × (compare_text v p ≡ lt))
      ⊎ ((text_lt v p ≡ false) × (compare_text v p ≢ lt))
text_lt-cases v p = ground arith

-- The point where texts stop being below the prefix.
unfoldable below_count : Text → List Text → ℕ
below_count p [] = 0
below_count p (v ∷ vs) = let rest = below_count p vs in if text_lt v p then suc rest else 0

abbrev AtLeast : Text → List Text → Type 0
AtLeast p = All (λ v. compare_text v p ≢ lt)

AtLeast-above :
    (x p : Text) (vs : List Text)
    → compare_text x p ≢ lt
    → All (λ y. compare_text x y ≡ lt) vs
    → AtLeast p vs
AtLeast-above x p [] a h = tt
AtLeast-above x p (v ∷ vs) a h =
    (λ k. a (text_ord.lt_trans x v p h.0 k), AtLeast-above x p vs a h.1)

keep_none :
    (x p : Text) (vs : List Text)
    → compare_text x p ≢ lt
    → starts_with x p ≡ false
    → All (λ y. compare_text x y ≡ lt) vs
    → keep (λ v. starts_with v p) vs ≡ []
keep_none x p [] a b h = refl
keep_none x p (v ∷ vs) a b h =
    let q : starts_with v p ≡ false = (not-starts_with_past x v p a b h.0).0 in
    rw q (keep_none x p vs a b h.1)

take_while-keep :
    (p : Text) (vs : List Text)
    → AtLeast p vs
    → IsSorted text_ord vs
    → take_while (λ v. starts_with v p) vs ≡ keep (λ v. starts_with v p) vs
take_while-keep p [] a s = refl
take_while-keep p (v ∷ vs) a s = elim (Bool-cases (starts_with v p)) [
  | inl q ↦ rw q (ap (◌∷◌ v) (take_while-keep p vs a.1 s.1))
  | inr q ↦ rw q (sym (keep_none v p vs a.0 q s.0))
]

take_while-drop :
    (p : Text) (vs : List Text)
    → IsSorted text_ord vs
    → take_while (λ v. starts_with v p) (drop (below_count p vs) vs)
      ≡ keep (λ v. starts_with v p) vs
unfolding below_count
take_while-drop p [] s = refl
take_while-drop p (v ∷ vs) s = elim (text_lt-cases v p) [
  | inl (q, k) ↦ rw (q, not-starts_with_below v p k) (take_while-drop p vs s.1)
  | inr (q, k) ↦ rw (q) (take_while-keep p (v ∷ vs) (k, AtLeast-above v p vs k s.0) s)
]

below_count-le : (p : Text) (vs : List Text) → below_count p vs ≤ length vs
unfolding below_count
below_count-le p [] = omega arith
below_count-le p (v ∷ vs) = ground (arith, below_count-le p vs)

abbrev is_below : Text → Text → Bool
is_below p v = text_lt v p

test_below :
    (p : Text) (vs : List Text) (i : ℕ)
    → i < below_count p vs
    → probe_test (is_below p) vs i ≡ some lt
unfolding below_count
test_below p [] i h = absurd (omega arith)
test_below p (v ∷ vs) zero h = ground arith
test_below p (v ∷ vs) (suc i) h = ground (arith, test_below p vs i)

test_at : (p : Text) (vs : List Text) → probe_test (is_below p) vs (below_count p vs) ≢ some lt
unfolding below_count
test_at p [] h = cc
test_at p (v ∷ vs) h = ground (arith, test_at p vs)

test_least :
    (p : Text) (vs : List Text) (i : ℕ)
    → AtLeast p vs
    → (probe_test (is_below p) vs i ≡ some gt) ⊎ (probe_test (is_below p) vs i ≡ none)
test_least p [] i a = inr refl
test_least p (v ∷ vs) zero a = ground arith
test_least p (v ∷ vs) (suc i) a = test_least p vs i a.1

test_above :
    (p : Text) (vs : List Text) (i : ℕ)
    → IsSorted text_ord vs
    → below_count p vs < i
    → (probe_test (is_below p) vs i ≡ some gt) ⊎ (probe_test (is_below p) vs i ≡ none)
unfolding below_count
test_above p [] i s h = inr refl
test_above p (v ∷ vs) zero s h = absurd (omega arith)
test_above p (v ∷ vs) (suc i) s h = elim (text_lt-cases v p) [
  | inl (q, k) ↦ test_above p vs i s.1 (ground arith)
  | inr (q, k) ↦ test_least p vs i (AtLeast-above v p vs k s.0)
]

test_inside :
    (p : Text) (vs : List Text) (i : ℕ) → i < length vs → probe_test (is_below p) vs i ≢ none
test_inside p [] i h e = absurd (omega arith)
test_inside p (v ∷ vs) zero h e = cc
test_inside p (v ∷ vs) (suc i) h e = test_inside p vs i (omega arith) e

test_end : (p : Text) (vs : List Text) → probe_test (is_below p) vs (length vs) ≡ none
test_end p [] = refl
test_end p (v ∷ vs) = test_end p vs

index-settle : (o : Option Ordering) (i : ℕ) → o ≢ some lt → index_of (settle o i) ≡ i
index-settle none i h = refl
index-settle (some lt) i h = absurd (h refl)
index-settle (some eq) i h = refl
index-settle (some gt) i h = refl

partition_point-below :
    (p : Text) (vs : List Text)
    → IsSorted text_ord vs
    → partition_point (is_below p) vs ≡ below_count p vs
unfolding partition_point
partition_point-below p vs s =
    ap index_of (
      search_all-settle (length vs) (below_count p vs) (probe_test (is_below p) vs) (record {
        within = below_count-le p vs;
        below = test_below p vs;
        at = test_at p vs;
        above = λ i. test_above p vs i s;
        inside = test_inside p vs;
        end = test_end p vs;
      }))
    ∙ index-settle (probe_test (is_below p) vs (below_count p vs)) (below_count p vs) (test_at p vs)

-- On a sorted list the two searches from the partition point find what a filter of the whole list
-- by `starts_with` finds, up to the limit.
pub prefix_suggestions-keep :
    (values : List Text) (prefix : Text) (limit : ℕ)
    → IsSorted text_ord values
    → prefix_suggestions values prefix limit ≡ take limit (keep (λ v. starts_with v prefix) values)
unfolding prefix_suggestions
prefix_suggestions-keep vs p limit s =
    ap (λ n. take limit (take_while (λ v. starts_with v p) (drop n vs)))
      (partition_point-below p vs s)
    ∙ ap (take limit) (take_while-drop p vs s)
