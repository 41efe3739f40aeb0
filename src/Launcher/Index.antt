-- ===== src/Launcher/Index.antt =====
-- Indexing a list within its bounds.
use tlscope_rs.Base.{
  ℕ, zero, suc, ◌<◌, ◌≡◌, refl, subst, List, [], ◌∷◌, some, arith, length, get_elem?, All,
}

pub get_elem?-some {ℓ} :
    {A : Type ℓ} (xs : List A) (i : ℕ) → i < length xs → (x : A) × (get_elem? xs i ≡ some x)
get_elem?-some [] i h = absurd (omega arith)
get_elem?-some (x ∷ xs) zero h = (x, refl)
get_elem?-some (x ∷ xs) (suc i) h = get_elem?-some xs i (omega arith)

pub get_elem?-All {ℓ κ} :
    {A : Type ℓ} (P : A → Type κ) (xs : List A) (i : ℕ) (x : A)
    → All P xs
    → get_elem? xs i ≡ some x
    → P x
get_elem?-All P [] i x h e = cc
get_elem?-All P (y ∷ xs) zero x h e = let same : y ≡ x = cc in subst P same h.0
get_elem?-All P (y ∷ xs) (suc i) x h e = get_elem?-All P xs i x h.1 e

pub get_elem?-bounded {ℓ} :
    {A : Type ℓ} (xs : List A) (i : ℕ) (x : A) → get_elem? xs i ≡ some x → i < length xs
get_elem?-bounded [] i x e = cc
get_elem?-bounded (y ∷ xs) zero x e = omega arith
get_elem?-bounded (y ∷ xs) (suc i) x e = let h = get_elem?-bounded xs i x e in omega arith
