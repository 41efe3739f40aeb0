-- ===== src/Capture/SortedVec/Insert.antt =====
-- `insert_sorted_unique` is the ordered insertion into a sorted vector.
use Prim.Native.Nat.Ordering.{lt, eq, gt}
use tlscope_rs.Base.{◌≡◌, refl, List, [], ◌∷◌, arith, All, ◌⊎◌, ◌↔◌}
use tlscope_rs.Base.Order.{Ord}
use tlscope_rs.Capture.SortedVec.{
  Place, found, missing, settle, probe, insert_at, insert_sorted_unique,
}
use tlscope_rs.Capture.SortedVec.Search.{IsSorted, cut_point, binary_search-settle}

abbrev pub Occurs : {A : Type 0} → A → List A → Type 0
Occurs a [] = ⊥
Occurs a (x ∷ xs) = (x ≡ a) ⊎ Occurs a xs

module _ {A : Type 0} (o : Ord A) where
  -- The plain scan from the front.
  unfoldable pub insert_ordered : List A → A → List A
  insert_ordered [] v = v ∷ []
  insert_ordered (x ∷ xs) v = elim (o.cmp x v) [
    | lt ↦ x ∷ insert_ordered xs v
    | eq ↦ x ∷ xs
    | gt ↦ v ∷ x ∷ xs
  ]

  abbrev put : List A → A → Place → List A
  put xs v (found i) = xs
  put xs v (missing i) = insert_at xs i v

  put-settle :
      (xs : List A) (v : A)
      → put xs v (settle (probe o xs v (cut_point o xs v)) (cut_point o xs v)) ≡ insert_ordered xs v
  unfolding cut_point insert_ordered
  put-settle [] v = refl
  put-settle (x ∷ xs) v = ground (arith, put-settle xs v)

  -- On a sorted vector the binary search inserts where the scan does, and only a new value.
  pub insert_sorted_unique-ordered :
      (xs : List A) (v : A) → IsSorted o xs → insert_sorted_unique o xs v ≡ insert_ordered xs v
  unfolding insert_sorted_unique
  insert_sorted_unique-ordered xs v s =
      rw (binary_search-settle o xs v s, insert_sorted_unique) (put-settle xs v)

  insert_ordered-All :
      (P : A → Type 0) (xs : List A) (v : A) → P v → All P xs → All P (insert_ordered xs v)
  unfolding insert_ordered
  insert_ordered-All P [] v p q = (p, tt)
  insert_ordered-All P (x ∷ xs) v p q = ground (arith, insert_ordered-All P xs v p q.1)

  All-trans :
      (x y : A) (xs : List A)
      → o.cmp x y ≡ lt
      → All (λ z. o.cmp y z ≡ lt) xs
      → All (λ z. o.cmp x z ≡ lt) xs
  All-trans x y [] h q = tt
  All-trans x y (z ∷ xs) h q = (o.lt_trans x y z h q.0, All-trans x y xs h q.1)

  insert_ordered-IsSorted : (xs : List A) (v : A) → IsSorted o xs → IsSorted o (insert_ordered xs v)
  unfolding insert_ordered
  insert_ordered-IsSorted [] v s = (tt, tt)
  insert_ordered-IsSorted (x ∷ xs) v s = ground (
    arith,
    insert_ordered-IsSorted xs v s.1,
    insert_ordered-All (λ y. o.cmp x y ≡ lt) xs v,
    o.lt_of_gt x v,
    All-trans v x xs,
  )

  insert_ordered-Occurs :
      (xs : List A) (v a : A) → Occurs a (insert_ordered xs v) ↔ ((v ≡ a) ⊎ Occurs a xs)
  unfolding insert_ordered
  insert_ordered-Occurs [] v a = (λ h. h, λ h. h)
  insert_ordered-Occurs (x ∷ xs) v a =
      let ih : Occurs a (insert_ordered xs v) ↔ ((v ≡ a) ⊎ Occurs a xs) =
        insert_ordered-Occurs xs v a in
      (λ h. ground (arith, o.eq_of_cmp x v, ih), λ h. ground (arith, o.eq_of_cmp x v, ih))

  -- Inserting keeps a vector sorted and free of duplicates, and adds the value to its elements and
  -- nothing else.
  pub insert_sorted_unique_lem :
      (xs : List A) (v : A)
      → IsSorted o xs
      → IsSorted o (insert_sorted_unique o xs v)
        × ((a : A) → Occurs a (insert_sorted_unique o xs v) ↔ ((v ≡ a) ⊎ Occurs a xs))
  insert_sorted_unique_lem xs v s =
      rw (insert_sorted_unique-ordered xs v s)
        (insert_ordered-IsSorted xs v s, insert_ordered-Occurs xs v)
