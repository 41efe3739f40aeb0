-- ===== src/Capture/SortedVec.antt =====
-- `insert_sorted_unique` of src/capture/store.rs, over the standard library's `binary_search` and
-- `Vec::insert`.
pub mod Search
pub mod Insert
use Prim.Native.Nat.{Ordering}
use Prim.Native.Nat.Ordering.{lt, eq, gt}
use tlscope_rs.Base.{
  ℕ, zero, suc, ◌+◌, ◌-◌, ◌/◌, Bool, true, false, List, [], ◌∷◌, ◌++◌, Option, none, some, ltb,
  if◌then◌else◌, length, get_elem?, take, drop,
}
use tlscope_rs.Base.Order.{Ord}

-- `Result<usize, usize>`: where the value is, or where it belongs.
pub data Place : Type 0 where
  found : ℕ → Place
  missing : ℕ → Place

abbrev pub insert_at {ℓ} : {A : Type ℓ} → List A → ℕ → A → List A
insert_at xs i v = take i xs ++ v ∷ drop i xs

abbrev pub is_gt : Option Ordering → Bool
is_gt (some gt) = true
is_gt (some lt) = false
is_gt (some eq) = false
is_gt none = false

-- How the last comparison of a search decides.
abbrev pub settle : Option Ordering → ℕ → Place
settle (some eq) base = found base
settle (some lt) base = missing (suc base)
settle (some gt) base = missing base
settle none base = missing base

-- The loop `while size > 1` of `binary_search_by`: `f` compares the element at an index. The fuel
-- bounds the rounds.
unfoldable pub search : ℕ → (ℕ → Option Ordering) → ℕ → ℕ → Place
search zero f base size = settle (f base) base
search (suc fuel) f base size =
    let next =
      search fuel f (if is_gt (f (base + size / 2)) then base else base + size / 2)
        (size - size / 2) in
    if ltb 1 size then next else settle (f base) base

-- `binary_search_by` on a vector of the given length.
unfoldable pub search_all : ℕ → (ℕ → Option Ordering) → Place
unfolding search
search_all zero f = missing 0
search_all (suc n) f = search n f 0 (suc n)

module _ {ℓ} {A : Type ℓ} (o : Ord A) where
  -- How the element at an index compares to the value.
  abbrev pub probe : List A → A → ℕ → Option Ordering
  probe xs v i = elim (get_elem? xs i) [ none ↦ none | some x ↦ some (o.cmp x v) ]

  unfoldable pub binary_search : List A → A → Place
  unfolding search_all
  binary_search xs v = search_all (length xs) (probe xs v)

  unfoldable pub insert_sorted_unique : List A → A → List A
  unfolding binary_search
  insert_sorted_unique values value = elim (binary_search values value) [
    | found i ↦ values
    | missing i ↦ insert_at values i value
  ]

abbrev pub index_of : Place → ℕ
index_of (found i) = i
index_of (missing i) = i

-- `partition_point`: the search for where the test turns false.
module _ {ℓ} {A : Type ℓ} where
  abbrev pub probe_test : (A → Bool) → List A → ℕ → Option Ordering
  probe_test p xs i = elim (get_elem? xs i) [ none ↦ none | some x ↦ some (if p x then lt else gt) ]

  unfoldable pub partition_point : (A → Bool) → List A → ℕ
  unfolding search_all
  partition_point p xs = index_of (search_all (length xs) (probe_test p xs))
