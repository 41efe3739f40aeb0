-- ===== src/Capture/Suggest/Token.antt =====
-- The token under the cursor.
use tlscope_rs.Base.{
  ℕ, ◌+◌, ◌≡◌, refl, sym, ap, ◌∙◌, true, [], ◌∷◌, ◌++◌, arith, min, if◌then◌else◌,
}
use tlscope_rs.Text.{Text, byte_len, len_utf8, is_whitespace}
use tlscope_rs.Text.Laws.{IsSolid, byte_len-append}
use tlscope_rs.Text.Offset.{
  take_bytes, drop_bytes, clamp_to_char_boundary, take_bytes-append, drop_bytes-append,
  boundary_of_Splits, clamp_to_char_boundary_id,
}
use tlscope_rs.Capture.Suggest.{current_token, after_last_space, until_space}

-- A text that is empty or ends in white space.
unfoldable pub EndsBlank : Text → Type 0
EndsBlank [] = Unit
EndsBlank (c ∷ []) = is_whitespace c ≡ true
EndsBlank (c ∷ d ∷ s) = EndsBlank (d ∷ s)

-- A text that is empty or starts with white space.
abbrev pub StartsBlank : Text → Type 0
StartsBlank [] = Unit
StartsBlank (c ∷ s) = is_whitespace c ≡ true

solid_keeps : (m : Text) (pos start : ℕ) → IsSolid m → after_last_space m pos start ≡ start
unfolding after_last_space
solid_keeps [] pos start s = refl
solid_keeps (c ∷ m) pos start s = rw s.0 (solid_keeps m (pos + len_utf8 c) start s.1)

after_last_space-split :
    (a m : Text) (pos start : ℕ)
    → EndsBlank a
    → IsSolid m
    → (a ≡ [] → start ≡ pos)
    → after_last_space (a ++ m) pos start ≡ pos + byte_len a
unfolding after_last_space byte_len EndsBlank
after_last_space-split [] [] pos start e s h = h refl ∙ omega arith
after_last_space-split [] (c ∷ m) pos start e s h =
    rw (after_last_space, s.0) (solid_keeps m (pos + len_utf8 c) start s.1 ∙ h refl ∙ omega arith)
after_last_space-split (c ∷ []) m pos start e s h =
    rw (after_last_space, e) (solid_keeps m (pos + len_utf8 c) (pos + len_utf8 c) s ∙ omega arith)
after_last_space-split (c ∷ d ∷ a) m pos start e s h =
    after_last_space-split (d ∷ a) m (pos + len_utf8 c)
      (if is_whitespace c then pos + len_utf8 c else start) e s (λ k. absurd (cc))
    ∙ omega arith

until_space-split : (n b : Text) → IsSolid n → StartsBlank b → until_space (n ++ b) ≡ byte_len n
unfolding until_space byte_len
until_space-split [] [] s h = refl
until_space-split [] (c ∷ b) s h = rw h refl
until_space-split (c ∷ n) b s h = rw (s.0) (ap (λ k. len_utf8 c + k) (until_space-split n b s.1 h))

-- In a text of `a`, `m`, `n` and `b`, where `a` is empty or ends in white space, `b` is empty or starts
-- with it and `m` and `n` have none, the token at the cursor between `m` and `n` is both of them.
pub current_token_lem :
    (a m n b : Text)
    → EndsBlank a
    → IsSolid m
    → IsSolid n
    → StartsBlank b
    → ((current_token (a ++ m ++ (n ++ b)) (byte_len (a ++ m))).start ≡ byte_len a)
      × ((current_token (a ++ m ++ (n ++ b)) (byte_len (a ++ m))).stop ≡ byte_len (a ++ m ++ n))
unfolding current_token
current_token_lem a m n b p q r s =
    let low : min (byte_len (a ++ m)) (byte_len (a ++ m ++ (n ++ b))) ≡ byte_len (a ++ m) =
      rw (byte_len-append (a ++ m) (n ++ b)) (omega arith) in
    let here : clamp_to_char_boundary (a ++ m ++ (n ++ b))
          (min (byte_len (a ++ m)) (byte_len (a ++ m ++ (n ++ b))))
        ≡ byte_len (a ++ m) =
      rw low (
        clamp_to_char_boundary_id (a ++ m ++ (n ++ b)) (byte_len (a ++ m))
          (boundary_of_Splits (a ++ m) (n ++ b))) in
    let front : take_bytes (byte_len (a ++ m)) (a ++ m ++ (n ++ b)) ≡ a ++ m =
      take_bytes-append (a ++ m) (n ++ b) in
    let back : drop_bytes (byte_len (a ++ m)) (a ++ m ++ (n ++ b)) ≡ n ++ b =
      drop_bytes-append (a ++ m) (n ++ b) in
    (
      rw (here, front) (after_last_space-split a m 0 0 p q (λ _. refl) ∙ omega arith),
      rw (here, back, until_space-split n b r s) (sym (byte_len-append (a ++ m) n)),
    )
