-- ===== src/Base/Order.antt =====
-- `Ord`: a total comparison with its laws, at the numbers and at lists of them.
use Prim.Native.Nat.{ℕ, compare, Ordering}
use Prim.Native.Nat.Ordering.{lt, eq, gt}
use mathlib.Core.Path.{◌≡◌, refl}
use mathlib.Core.List.{List, [], ◌∷◌}
use native.Mathlib.Omega.{arith}

pub record IsTotal {ℓ} {A : Type ℓ} (cmp : A → A → Ordering) : Type ℓ where
  pub cmp_refl : (a : A) → cmp a a ≡ eq
  pub eq_of_cmp : (a b : A) → cmp a b ≡ eq → a ≡ b
  pub lt_of_gt : (a b : A) → cmp a b ≡ gt → cmp b a ≡ lt
  pub gt_of_lt : (a b : A) → cmp a b ≡ lt → cmp b a ≡ gt
  pub lt_trans : (a b c : A) → cmp a b ≡ lt → cmp b c ≡ lt → cmp a c ≡ lt

pub record Ord {ℓ} (A : Type ℓ) : Type ℓ where
  pub cmp : A → A → Ordering
  pub total : IsTotal cmp
  pub open total use *

pub compare-IsTotal : IsTotal compare
compare-IsTotal = ground arith

abbrev pub nat_ord : Ord ℕ
nat_ord = record { cmp = compare; total = compare-IsTotal }

abbrev pub first_then : Ordering → Ordering → Ordering
first_then eq o = o
first_then lt o = lt
first_then gt o = gt

-- `str` is ordered by its bytes, which for UTF-8 is the order of the code points.
abbrev pub compare_text : List ℕ → List ℕ → Ordering
compare_text [] [] = eq
compare_text [] (y ∷ ys) = lt
compare_text (x ∷ xs) [] = gt
compare_text (x ∷ xs) (y ∷ ys) = first_then (compare x y) (compare_text xs ys)

compare_text_refl : (s : List ℕ) → compare_text s s ≡ eq
compare_text_refl [] = refl
compare_text_refl (x ∷ xs) = ground (arith, compare_text_refl xs)

pub eq_of_compare_text : (s t : List ℕ) → compare_text s t ≡ eq → s ≡ t
eq_of_compare_text [] [] h = refl
eq_of_compare_text [] (y ∷ ys) h = ground arith
eq_of_compare_text (x ∷ xs) [] h = ground arith
eq_of_compare_text (x ∷ xs) (y ∷ ys) h = ground (arith, eq_of_compare_text xs ys)

lt_of_gt_text : (s t : List ℕ) → compare_text s t ≡ gt → compare_text t s ≡ lt
lt_of_gt_text [] [] h = ground arith
lt_of_gt_text [] (y ∷ ys) h = ground arith
lt_of_gt_text (x ∷ xs) [] h = refl
lt_of_gt_text (x ∷ xs) (y ∷ ys) h = ground (arith, lt_of_gt_text xs ys)

gt_of_lt_text : (s t : List ℕ) → compare_text s t ≡ lt → compare_text t s ≡ gt
gt_of_lt_text [] [] h = ground arith
gt_of_lt_text [] (y ∷ ys) h = refl
gt_of_lt_text (x ∷ xs) [] h = ground arith
gt_of_lt_text (x ∷ xs) (y ∷ ys) h = ground (arith, gt_of_lt_text xs ys)

lt_trans_text :
    (s t u : List ℕ) → compare_text s t ≡ lt → compare_text t u ≡ lt → compare_text s u ≡ lt
lt_trans_text [] [] u h k = ground arith
lt_trans_text [] (y ∷ ys) [] h k = ground arith
lt_trans_text [] (y ∷ ys) (z ∷ zs) h k = refl
lt_trans_text (x ∷ xs) [] u h k = ground arith
lt_trans_text (x ∷ xs) (y ∷ ys) [] h k = ground arith
lt_trans_text (x ∷ xs) (y ∷ ys) (z ∷ zs) h k = ground (arith, lt_trans_text xs ys zs)

pub compare_text-IsTotal : IsTotal compare_text
compare_text-IsTotal = record {
  cmp_refl = compare_text_refl;
  eq_of_cmp = eq_of_compare_text;
  lt_of_gt = lt_of_gt_text;
  gt_of_lt = gt_of_lt_text;
  lt_trans = lt_trans_text;
}

abbrev pub text_ord : Ord (List ℕ)
text_ord = record { cmp = compare_text; total = compare_text-IsTotal }
