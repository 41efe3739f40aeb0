-- ===== src/Capture/Filter/Join.antt =====
-- Two filters typed one behind the other.
use tlscope_rs.Base.{
  ℕ, ◌≡◌, refl, ap, ◌∙◌, Bool, true, ◌&&◌, List, [], ◌∷◌, ◌++◌, arith, Result, ok, err,
  ok-injective, ◌>>=◌, every, Bool-cases, inl, inr,
}
use tlscope_rs.Text.{Text, flush, words, split_whitespace, is_whitespace}
use tlscope_rs.Capture.Entry.{TrafficEntry}
use tlscope_rs.Capture.Filter.{Condition, TrafficFilter, parse, parse_token, parse_tokens, matches}

flush-append : (w : Text) (xs ys zs : List Text) → xs ≡ ys ++ zs → flush w xs ≡ flush w ys ++ zs
flush-append [] xs ys zs h = h
flush-append (c ∷ w) xs ys zs h = ap (◌∷◌ (c ∷ w)) h

words-append :
    (s t w : Text) (sep : ℕ)
    → is_whitespace sep ≡ true
    → words (s ++ sep ∷ t) w ≡ words s w ++ words t []
unfolding words
words-append [] t [] sep h = rw h refl
words-append [] t (c ∷ w) sep h = rw h refl
words-append (c ∷ s) t w sep h = elim (Bool-cases (is_whitespace c)) [
  | inl e ↦ rw e (flush-append w _ _ _ (words-append s t [] sep h))
  | inr e ↦ rw e (words-append s t (w ++ c ∷ []) sep h)
]

split_whitespace-append :
    (s t : Text) (sep : ℕ)
    → is_whitespace sep ≡ true
    → split_whitespace (s ++ sep ∷ t) ≡ split_whitespace s ++ split_whitespace t
unfolding split_whitespace
split_whitespace-append s t sep h = words-append s t [] sep h

-- What two parses make together: the conditions of both, or the first error.
unfoldable pub joined :
    Result Text TrafficFilter → Result Text TrafficFilter → Result Text TrafficFilter
joined (err e) r = err e
joined (ok f) (err e) = err e
joined (ok f) (ok g) = ok (record { conditions = f.conditions ++ g.conditions })

abbrev of_tokens : Result Text (List Condition) → Result Text TrafficFilter
of_tokens (ok cs) = ok (record { conditions = cs })
of_tokens (err e) = err e

parse-of_tokens : (s : Text) → parse s ≡ of_tokens (parse_tokens (split_whitespace s))
unfolding parse
parse-of_tokens s = ground arith

-- One more token in front of both.
joined_step :
    (r : Result Text Condition) (x y z : Result Text (List Condition))
    → of_tokens z ≡ joined (of_tokens x) (of_tokens y)
    → of_tokens (do c ← r; cs ← z; ok (c ∷ cs))
      ≡ joined (of_tokens (do c ← r; cs ← x; ok (c ∷ cs))) (of_tokens y)
unfolding joined
joined_step (err e) x y z h = refl
joined_step (ok c) (err e) y (err d) h = h
joined_step (ok c) (err e) y (ok zs) h = absurd (cc)
joined_step (ok c) (ok xs) (err e) (err d) h = h
joined_step (ok c) (ok xs) (err e) (ok zs) h = absurd (cc)
joined_step (ok c) (ok xs) (ok ys) (err d) h = absurd (cc)
joined_step (ok c) (ok xs) (ok ys) (ok zs) h = let e : zs ≡ xs ++ ys = cc in rw e refl

joined_nothing :
    (y : Result Text (List Condition))
    → of_tokens y ≡ joined (ok (record { conditions = [] })) (of_tokens y)
unfolding joined
joined_nothing (ok ys) = refl
joined_nothing (err e) = refl

parse_tokens-append :
    (ts us : List Text)
    → of_tokens (parse_tokens (ts ++ us))
      ≡ joined (of_tokens (parse_tokens ts)) (of_tokens (parse_tokens us))
unfolding parse_tokens
parse_tokens-append [] us = joined_nothing (parse_tokens us)
parse_tokens-append (t ∷ ts) us =
    joined_step (parse_token t) (parse_tokens ts) (parse_tokens us) (parse_tokens (ts ++ us))
      (parse_tokens-append ts us)

every-append :
    {A : Type 0} (p : A → Bool) (xs ys : List A) → every p (xs ++ ys) ≡ (every p xs && every p ys)
every-append p [] ys = refl
every-append p (x ∷ xs) ys = ground (arith, every-append p xs ys)

parse-append :
    (s t : Text) (sep : ℕ)
    → is_whitespace sep ≡ true
    → parse (s ++ sep ∷ t) ≡ joined (parse s) (parse t)
parse-append s t sep w =
    let e : split_whitespace (s ++ sep ∷ t) ≡ split_whitespace s ++ split_whitespace t =
      split_whitespace-append s t sep w in
    rw (parse-of_tokens (s ++ sep ∷ t), parse-of_tokens s, parse-of_tokens t, e)
      (parse_tokens-append (split_whitespace s) (split_whitespace t))

parse-matches :
    (s t : Text) (sep : ℕ)
    → is_whitespace sep ≡ true
    → (f g h : TrafficFilter) (e : TrafficEntry) → parse s ≡ ok f
    → parse t ≡ ok g
    → parse (s ++ sep ∷ t) ≡ ok h
    → matches h e ≡ (matches f e && matches g e)
unfolding joined matches
parse-matches s t sep w f g h e p q r =
    let j : parse (s ++ sep ∷ t) ≡ ok (record { conditions = f.conditions ++ g.conditions }) =
      parse-append s t sep w ∙ (rw (p, q) refl) in
    let k : h ≡ record { conditions = f.conditions ++ g.conditions } =
      ok-injective (parse (s ++ sep ∷ t)) r j in
    rw k (every-append _ f.conditions g.conditions)

-- A filter of two texts with white space between them parses exactly if both do, with the error of
-- the first that does not, and then lets through what both let through.
pub parse-joined :
    (s t : Text) (sep : ℕ)
    → is_whitespace sep ≡ true
    → (parse (s ++ sep ∷ t) ≡ joined (parse s) (parse t))
      × ((f g h : TrafficFilter) (e : TrafficEntry)
          → parse s ≡ ok f
          → parse t ≡ ok g
          → parse (s ++ sep ∷ t) ≡ ok h
          → matches h e ≡ (matches f e && matches g e))
parse-joined s t sep w = (parse-append s t sep w, parse-matches s t sep w)
