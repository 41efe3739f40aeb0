-- ===== src/Launcher/Options/Groups.antt =====
-- The columns of the list of files: their places are places of the list, and none of them is empty.
use tlscope_rs.Base.{
  ℕ, Bool, suc, ◌+◌, ◌-◌, ◌≤◌, ◌<◌, ◌≡◌, refl, ap, ◌∙◌, subst, false, List, [], ◌∷◌, Option, none,
  some, arith, ◌==◌, length, is_empty, get_elem?, All, if_under, if_both, if◌then◌else◌,
}
use tlscope_rs.Text.{Text, text_eq}
use tlscope_rs.Launcher.Index.{get_elem?-some}
use tlscope_rs.Launcher.Form.{LaunchOption}
use tlscope_rs.Launcher.Options.{
  shown_indices, LaunchGroupIndices, kind_indices, groups_of, index_from, position_from, is_shown,
  with_place,
}

length_of_some {ℓ} : {A : Type ℓ} (xs : List A) → is_empty xs ≡ false → 1 ≤ length xs
length_of_some [] e = cc
length_of_some (x ∷ xs) e = omega arith

-- Every option that is shown is there, so the places of a kind are found, and they are places of the
-- filtered list.
kind_indices-bounded :
    (options : List LaunchOption) (kind : Text) (at : ℕ) (filtered : List ℕ)
    → All (λ i. i < length options) filtered
    → (indices : List ℕ) × (kind_indices options kind at filtered ≡ some indices)
      × All (λ i. i < at + length filtered) indices
unfolding kind_indices
kind_indices-bounded options kind at [] shown = ([], refl, tt)
kind_indices-bounded options kind at (index ∷ filtered) (first, shown) =
    let (o, e) = get_elem?-some options index first in
    let (indices, r, bounded) = kind_indices-bounded options kind (at + 1) filtered shown in
    let moved : (at + 1) + length filtered ≡ at + suc (length filtered) = omega arith in
    let rest = subst (λ n. All (λ i. i < n) indices) moved bounded in
    let here = text_eq o.kind kind in
    let found =
      ap
        (λ x.
          with_place at
            (elim x as (λ y. Option Bool) [ none ↦ none | some k ↦ some (text_eq k.kind kind) ])
            (kind_indices options kind (at + 1) filtered))
        e in
    (
      if here then at ∷ indices else indices,
      found ∙ ap (with_place at (some here)) r,
      if_both (All (λ i. i < at + suc (length filtered))) here (omega arith, rest) rest,
    )

-- What is shown is among the options.
pub shown_indices-bounded :
    (needle : Text) (at : ℕ) (options : List LaunchOption)
    → All (λ i. i < at + length options) (shown_indices needle at options)
unfolding shown_indices
shown_indices-bounded needle at [] = tt
shown_indices-bounded needle at (o ∷ options) =
    let moved : (at + 1) + length options ≡ at + suc (length options) = omega arith in
    let rest =
      subst (λ n. All (λ i. i < n) (shown_indices needle (at + 1) options)) moved
        (shown_indices-bounded needle (at + 1) options) in
    if_both (All (λ i. i < at + suc (length options))) (is_shown needle o) (omega arith, rest) rest

-- A group has places, and they are below a number.
abbrev pub IsGroup : ℕ → LaunchGroupIndices → Type 0
IsGroup n g = (1 ≤ length g.indices) × All (λ i. i < n) g.indices

pub groups_of-IsGroup :
    (options : List LaunchOption) (filtered : List ℕ) (formats : List Text)
    → All (λ i. i < length options) filtered
    → (groups : List LaunchGroupIndices) × (groups_of options filtered formats ≡ some groups)
      × All (IsGroup (length filtered)) groups
unfolding groups_of
groups_of-IsGroup options filtered [] shown = ([], refl, tt)
groups_of-IsGroup options filtered (kind ∷ formats) shown =
    let (groups, r, rest) = groups_of-IsGroup options filtered formats shown in
    let (indices, e, bounded) = kind_indices-bounded options kind 0 filtered shown in
    let count : 0 + length filtered ≡ length filtered = omega arith in
    let within = subst (λ n. All (λ i. i < n) indices) count bounded in
    (
      if is_empty indices then groups else record { kind = kind; indices = indices } ∷ groups,
      rw (e, r) refl,
      if_under (All (IsGroup (length filtered))) (is_empty indices) (λ e. rest)
          (λ e. ((length_of_some indices e, within), rest)),
    )

index_from-bounded :
    (selected at : ℕ) (indices : List ℕ) (row : ℕ)
    → index_from selected at indices ≡ some row
    → row < at + length indices
index_from-bounded selected at [] row e = cc
index_from-bounded selected at (index ∷ indices) row e =
    if_under (λ o. o ≡ some row → row < at + suc (length indices)) (index == selected)
      (λ b h. let same : at ≡ row = cc in omega arith)
      (λ b h. let next = index_from-bounded selected (at + 1) indices row h in omega arith) e

-- A place that is found is one of a group.
unfoldable pub Found : List LaunchGroupIndices → ℕ → ℕ × ℕ → Type 0
Found groups at place =
    (at ≤ place.0)
    × ((g : LaunchGroupIndices) × (get_elem? groups (place.0 - at) ≡ some g)
        × (place.1 < length g.indices))

-- The place in a group, or in a later one.
in_column :
    (at : ℕ) (g : LaunchGroupIndices) (groups : List LaunchGroupIndices) (place : ℕ × ℕ)
    (later : Option (ℕ × ℕ)) (here : Option ℕ)
    → ((row : ℕ) → here ≡ some row → row < length g.indices)
    → (later ≡ some place → Found groups (at + 1) place)
    → (elim here as (λ x. Option (ℕ × ℕ)) [ none ↦ later | some row ↦ some (at, row) ]) ≡ some place
    → Found (g ∷ groups) at place
unfolding Found
in_column at g groups place later none bounded rest e =
    let r = rest e in
    let step : place.0 - at ≡ suc (place.0 - (at + 1)) = omega (arith, r.0) in
    (omega (arith, r.0), (r.1.0, ap (get_elem? (g ∷ groups)) step ∙ r.1.1, r.1.2))
in_column at g groups place later (some row) bounded rest e =
    let same : (at, row) ≡ place = cc in
    let first : at - at ≡ 0 = omega arith in
    subst (Found (g ∷ groups) at) same
      (omega arith, (g, ap (get_elem? (g ∷ groups)) first, bounded row refl))

pub position_from-Found :
    (selected at : ℕ) (groups : List LaunchGroupIndices) (place : ℕ × ℕ)
    → position_from selected at groups ≡ some place
    → Found groups at place
unfolding position_from Found
position_from-Found selected at [] place e = cc
position_from-Found selected at (g ∷ groups) place e =
    in_column at g groups place (position_from selected (at + 1) groups)
      (index_from selected 0 g.indices)
      (λ row h. let b = index_from-bounded selected 0 g.indices row h in omega arith)
      (position_from-Found selected (at + 1) groups place) e
