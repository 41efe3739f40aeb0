-- ===== src/Capture/SortedVec/Search.antt =====
-- On a sorted vector the binary search finds what a scan from the front finds.
use Prim.Native.Nat.{Ordering}
use Prim.Native.Nat.Ordering.{lt, eq, gt}
use tlscope_rs.Base.{
  ℕ, zero, suc, ◌+◌, ◌-◌, ◌/◌, ◌≤◌, ◌<◌, ◌≡◌, ◌≢◌, refl, false, List, [], ◌∷◌, Option, none, some,
  ltb, if◌then◌else◌, length, arith, lt→ltb, All, ◌⊎◌, inr,
}
use native.Mathlib.Decide.{dec_lt}
use tlscope_rs.Base.Order.{Ord}
use tlscope_rs.Capture.SortedVec.{settle, probe, is_gt, search, search_all, binary_search}

not_ltb : (a b : ℕ) → ¬ (a < b) → ltb a b ≡ false
not_ltb a b h = ground arith

-- A search whose comparisons are less before one point and greater after it.
module _ (n cut : ℕ) (f : ℕ → Option Ordering) where
  pub record Cuts : Type 0 where
    pub within : cut ≤ n
    pub below : (i : ℕ) → i < cut → f i ≡ some lt
    pub at : f cut ≢ some lt
    pub above : (i : ℕ) → cut < i → (f i ≡ some gt) ⊎ (f i ≡ none)
    pub inside : (i : ℕ) → i < n → f i ≢ none
    pub end : f n ≡ none

  -- The interval still holds the cut point, and the value itself if it is there.
  record Brackets (base size : ℕ) : Type 0 where
    low : base ≤ cut
    high : cut ≤ base + size
    room : base + size ≤ n
    some_left : 1 ≤ size
    hit : f cut ≡ some eq → cut < base + size

  module _ (c : Cuts) where
    settle_cut :
        (base size : ℕ) → Brackets base size → size ≤ 1 → settle (f base) base ≡ settle (f cut) cut
    settle_cut base size b h =
        ground (arith, b.hit, c.at, c.below base, c.inside base, c.above base)

    Brackets-next :
        (base size : ℕ)
        → Brackets base size
        → 1 < size
        → Brackets (if is_gt (f (base + size / 2)) then base else base + size / 2) (size - size / 2)
    Brackets-next base size b h =
        let mid : ℕ = base + size / 2 in
        ground (arith, b.hit, c.at, c.below mid, c.inside mid, c.above mid)

    search-settle :
        (fuel base size : ℕ)
        → Brackets base size
        → size ≤ suc fuel
        → search fuel f base size ≡ settle (f cut) cut
    unfolding search
    search-settle zero base size b h = settle_cut base size b (omega arith)
    search-settle (suc fuel) base size b h = elim (dec_lt 1 size) [
      | yes p ↦
          rw (lt→ltb 1 size p)
            (search-settle fuel _ (size - size / 2) (Brackets-next base size b p) (omega arith))
      | no p ↦ rw (not_ltb 1 size p) (settle_cut base size b (omega arith))
    ]

pub search_all-settle :
    (n cut : ℕ) (f : ℕ → Option Ordering) → Cuts n cut f → search_all n f ≡ settle (f cut) cut
unfolding search_all
search_all-settle zero cut f c = let e : cut ≡ 0 = omega (arith, c.within) in ground (arith, c.end)
search_all-settle (suc n) cut f c =
    search-settle (suc n) cut f c n 0 (suc n)
      (record {
        low = omega arith;
        high = omega (arith, c.within);
        room = omega arith;
        some_left = omega arith;
        hit = λ e. ground (arith, c.within, c.end);
      })
      (omega arith)

module _ {ℓ} {A : Type ℓ} (o : Ord A) where
  -- Each element is below all that follow it: sorted, without duplicates.
  abbrev pub IsSorted : List A → Type ℓ
  IsSorted [] = Unit
  IsSorted (x ∷ xs) = All (λ y. o.cmp x y ≡ lt) xs × IsSorted xs

  -- The number of elements in front that are below the value.
  unfoldable pub cut_point : List A → A → ℕ
  cut_point [] v = 0
  cut_point (x ∷ xs) v = elim (o.cmp x v) [ lt ↦ suc (cut_point xs v) | _ ↦ 0 ]

  pub cut_point-le : (xs : List A) (v : A) → cut_point xs v ≤ length xs
  unfolding cut_point
  cut_point-le [] v = omega arith
  cut_point-le (x ∷ xs) v = ground (arith, cut_point-le xs v)

  probe_below : (xs : List A) (v : A) (i : ℕ) → i < cut_point xs v → probe o xs v i ≡ some lt
  unfolding cut_point
  probe_below [] v i h = absurd (omega arith)
  probe_below (x ∷ xs) v zero h = ground arith
  probe_below (x ∷ xs) v (suc i) h = ground (arith, probe_below xs v i)

  probe_above-All :
      (xs : List A) (v x : A) (i : ℕ)
      → All (λ y. o.cmp x y ≡ lt) xs
      → o.cmp x v ≢ lt
      → (probe o xs v i ≡ some gt) ⊎ (probe o xs v i ≡ none)
  probe_above-All [] v x i h k = inr refl
  probe_above-All (y ∷ xs) v x zero h k = ground (arith, o.lt_trans x y v, o.eq_of_cmp y v, h.0)
  probe_above-All (y ∷ xs) v x (suc i) h k = probe_above-All xs v x i h.1 k

  probe_cut : (xs : List A) (v : A) → probe o xs v (cut_point xs v) ≢ some lt
  unfolding cut_point
  probe_cut [] v h = cc
  probe_cut (x ∷ xs) v h = ground (arith, probe_cut xs v)

  probe_above :
      (xs : List A) (v : A) (i : ℕ)
      → IsSorted xs
      → cut_point xs v < i
      → (probe o xs v i ≡ some gt) ⊎ (probe o xs v i ≡ none)
  unfolding cut_point
  probe_above [] v i s h = inr refl
  probe_above (x ∷ xs) v zero s h = absurd (omega arith)
  probe_above (x ∷ xs) v (suc i) s h =
      ground (arith, probe_above xs v i s.1, probe_above-All xs v x i s.0)

  probe_inside : (xs : List A) (v : A) (i : ℕ) → i < length xs → probe o xs v i ≢ none
  probe_inside [] v i h e = absurd (omega arith)
  probe_inside (x ∷ xs) v zero h e = cc
  probe_inside (x ∷ xs) v (suc i) h e = probe_inside xs v i (omega arith) e

  probe_end : (xs : List A) (v : A) → probe o xs v (length xs) ≡ none
  probe_end [] v = refl
  probe_end (x ∷ xs) v = probe_end xs v

  probe-Cuts :
      (xs : List A) (v : A) → IsSorted xs → Cuts (length xs) (cut_point xs v) (probe o xs v)
  probe-Cuts xs v s = record {
    within = cut_point-le xs v;
    below = probe_below xs v;
    at = probe_cut xs v;
    above = λ i. probe_above xs v i s;
    inside = probe_inside xs v;
    end = probe_end xs v;
  }

  pub binary_search-settle :
      (xs : List A) (v : A)
      → IsSorted xs
      → binary_search o xs v ≡ settle (probe o xs v (cut_point xs v)) (cut_point xs v)
  unfolding binary_search
  binary_search-settle xs v s =
      search_all-settle (length xs) (cut_point xs v) (probe o xs v) (probe-Cuts xs v s)
