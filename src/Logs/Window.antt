-- ===== src/Logs/Window.antt =====
-- What both stores do to their deque: at the limit the oldest line goes before the new one comes.
use tlscope_rs.Base.{
  ℕ, zero, suc, ◌-◌, ◌≤◌, ◌<◌, ◌≡◌, refl, ap, ◌∙◌, sym, List, [], ◌∷◌, ◌++◌, arith, length, drop,
  length-append, length-drop, drop-append,
}

module _ {ℓ} {A : Type ℓ} where
  -- `VecDeque::pop_front`.
  abbrev pub pop_front : List A → List A
  pop_front [] = []
  pop_front (x ∷ xs) = xs

  -- The last `n` entries of a history.
  abbrev pub recent : ℕ → List A → List A
  recent n h = drop (length h - n) h

  pop_front-drop : (n : ℕ) (xs : List A) → pop_front (drop n xs) ≡ drop (suc n) xs
  pop_front-drop zero [] = refl
  pop_front-drop zero (x ∷ xs) = refl
  pop_front-drop (suc n) [] = refl
  pop_front-drop (suc n) (x ∷ xs) = pop_front-drop n xs

  length-recent : (n : ℕ) (h : List A) → length (recent n h) ≡ length h - (length h - n)
  length-recent n h = length-drop (length h - n) h

  -- At the limit: the oldest line goes.
  pub recent-append_full :
      (n : ℕ) (h : List A) (x : A)
      → 0 < n
      → n ≤ length h
      → recent n (h ++ x ∷ []) ≡ pop_front (recent n h) ++ x ∷ []
  recent-append_full n h x p q =
      ap (λ k. drop k (h ++ x ∷ [])) (size x)
      ∙ drop-append (suc (length h - n)) h (x ∷ []) (omega arith)
      ∙ ap (λ l. l ++ x ∷ []) (sym (pop_front-drop (length h - n) h))
    where
      size : (y : A) → length (h ++ x ∷ []) - n ≡ suc (length h - n)
      size y = omega (arith, length-append h (x ∷ []))

  -- Below the limit: nothing goes.
  pub recent-append_room :
      (n : ℕ) (h : List A) (x : A) → length h < n → recent n (h ++ x ∷ []) ≡ recent n h ++ x ∷ []
  recent-append_room n h x q =
      ap (λ k. drop k (h ++ x ∷ [])) size ∙ ap (λ k. drop k h ++ x ∷ []) (sym none_gone)
    where
      size : length (h ++ x ∷ []) - n ≡ 0
      size = omega (arith, length-append h (x ∷ []))

      none_gone : length h - n ≡ 0
      none_gone = omega arith

  drop-length_all : (h : List A) → drop (length h) h ≡ []
  drop-length_all [] = refl
  drop-length_all (x ∷ h) = drop-length_all h

  -- With a limit of zero nothing stays.
  pub recent_zero : (n : ℕ) (h : List A) → n ≡ 0 → recent n h ≡ []
  recent_zero n h z =
      let e : length h - n ≡ length h = omega arith in ap (λ k. drop k h) e ∙ drop-length_all h

  pub length-recent_full : (n : ℕ) (h : List A) → n ≤ length h → length (recent n h) ≡ n
  length-recent_full n h p = omega (arith, length-recent n h)

  pub length-recent_room : (n : ℕ) (h : List A) → length h < n → length (recent n h) ≡ length h
  length-recent_room n h p = omega (arith, length-recent n h)
