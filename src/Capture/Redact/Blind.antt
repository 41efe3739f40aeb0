-- ===== src/Capture/Redact/Blind.antt =====
-- The redacted view is blind to secrets: what it shows is the same whatever they are.
use tlscope_rs.Base.{
  ◌≡◌, refl, ap, sym, Bool-cases, inl, inr, Bool, false, List, [], ◌∷◌, each, arith,
}
use tlscope_rs.Text.{Text}
use tlscope_rs.Capture.Entry.{Headers}
use tlscope_rs.Capture.Redact.{
  RedactionConfig, redact_headers, should_redact_header, redact_pair, Value, null, bool, number,
  string, array, object, Items, nil, cons, Fields, end, field, redact_json_value, redact_items,
  redact_fields, should_redact_field,
}

-- Two lists of pairs with the same names in the same order, whose values may differ under the
-- names that are secret.
abbrev pub AgreePairs : (Text → Bool) → List (Text × Text) → List (Text × Text) → Type 0
AgreePairs secret [] [] = Unit
AgreePairs secret [] (q ∷ qs) = ⊥
AgreePairs secret (p ∷ ps) [] = ⊥
AgreePairs secret ((n, v) ∷ ps) ((m, w) ∷ qs) =
    (n ≡ m) × (secret n ≡ false → v ≡ w) × AgreePairs secret ps qs

redact_pair-blind :
    (secret : Text → Bool) (ps qs : List (Text × Text))
    → AgreePairs secret ps qs
    → each (redact_pair secret) ps ≡ each (redact_pair secret) qs
redact_pair-blind secret [] [] h = refl
redact_pair-blind secret [] (q ∷ qs) h = absurd h
redact_pair-blind secret (p ∷ ps) [] h = absurd h
redact_pair-blind secret ((n, v) ∷ ps) ((m, w) ∷ qs) (e, a, h) =
    ground (arith, redact_pair-blind secret ps qs h)

redact_pair-shows :
    (secret : Text → Bool) (ps qs : List (Text × Text))
    → each (redact_pair secret) ps ≡ each (redact_pair secret) qs
    → AgreePairs secret ps qs
redact_pair-shows secret [] [] h = tt
redact_pair-shows secret [] (q ∷ qs) h = absurd (cc)
redact_pair-shows secret (p ∷ ps) [] h = absurd (cc)
redact_pair-shows secret ((n, v) ∷ ps) ((m, w) ∷ qs) h =
    (ground arith, λ k. ground arith, redact_pair-shows secret ps qs (ground arith))

-- Two header lists are shown alike exactly if they agree outside the values of secret headers, so a
-- secret value has no influence on what is shown, and everything else is seen.
pub redact_headers-blind :
    (c : RedactionConfig) (hs ks : Headers)
    → (AgreePairs (should_redact_header c) hs ks → redact_headers hs c ≡ redact_headers ks c)
      × (redact_headers hs c ≡ redact_headers ks c → AgreePairs (should_redact_header c) hs ks)
unfolding redact_headers
redact_headers-blind c hs ks = (
  redact_pair-blind (should_redact_header c) hs ks,
  redact_pair-shows (should_redact_header c) hs ks,
)

-- JSON values that agree outside the secret fields, at every depth.
unfoldable mutual
  pub Agree : RedactionConfig → Value → Value → Type 0
  Agree c (array xs) w = elim w [ array ys ↦ AgreeItems c xs ys | _ ↦ ⊥ ]
  Agree c (object fs) w = elim w [ object gs ↦ AgreeFields c fs gs | _ ↦ ⊥ ]
  Agree c v w = v ≡ w

  pub AgreeItems : RedactionConfig → Items → Items → Type 0
  AgreeItems c nil nil = Unit
  AgreeItems c nil (cons y ys) = ⊥
  AgreeItems c (cons x xs) nil = ⊥
  AgreeItems c (cons x xs) (cons y ys) = Agree c x y × AgreeItems c xs ys

  pub AgreeFields : RedactionConfig → Fields → Fields → Type 0
  AgreeFields c end end = Unit
  AgreeFields c end (field m w gs) = ⊥
  AgreeFields c (field n v fs) end = ⊥
  AgreeFields c (field n v fs) (field m w gs) =
      (n ≡ m) × (should_redact_field c n ≡ false → Agree c v w) × AgreeFields c fs gs

mutual
  unfolding Agree redact_json_value

  redact_json_value-same :
      (c : RedactionConfig) (v w : Value)
      → Agree c v w
      → redact_json_value c v ≡ redact_json_value c w
  redact_json_value-same c null w h = rw (sym h) refl
  redact_json_value-same c (bool b) w h = rw (sym h) refl
  redact_json_value-same c (number n) w h = rw (sym h) refl
  redact_json_value-same c (string t) w h = rw (sym h) refl
  redact_json_value-same c (array xs) (array ys) h = ap array (redact_items-same c xs ys h)
  redact_json_value-same c (array xs) null h = absurd h
  redact_json_value-same c (array xs) (bool b) h = absurd h
  redact_json_value-same c (array xs) (number n) h = absurd h
  redact_json_value-same c (array xs) (string t) h = absurd h
  redact_json_value-same c (array xs) (object gs) h = absurd h
  redact_json_value-same c (object fs) (object gs) h = ap object (redact_fields-same c fs gs h)
  redact_json_value-same c (object fs) null h = absurd h
  redact_json_value-same c (object fs) (bool b) h = absurd h
  redact_json_value-same c (object fs) (number n) h = absurd h
  redact_json_value-same c (object fs) (string t) h = absurd h
  redact_json_value-same c (object fs) (array ys) h = absurd h

  redact_items-same :
      (c : RedactionConfig) (xs ys : Items)
      → AgreeItems c xs ys
      → redact_items c xs ≡ redact_items c ys
  redact_items-same c nil nil h = refl
  redact_items-same c nil (cons y ys) h = absurd h
  redact_items-same c (cons x xs) nil h = absurd h
  redact_items-same c (cons x xs) (cons y ys) (h, k) =
      let p : redact_json_value c x ≡ redact_json_value c y = redact_json_value-same c x y h in
      let q : redact_items c xs ≡ redact_items c ys = redact_items-same c xs ys k in rw (p, q) refl

  redact_fields-same :
      (c : RedactionConfig) (fs gs : Fields)
      → AgreeFields c fs gs
      → redact_fields c fs ≡ redact_fields c gs
  redact_fields-same c end end h = refl
  redact_fields-same c end (field m w gs) h = absurd h
  redact_fields-same c (field n v fs) end h = absurd h
  redact_fields-same c (field n v fs) (field m w gs) (e, a, h) =
      let q : redact_fields c fs ≡ redact_fields c gs = redact_fields-same c fs gs h in
      elim (Bool-cases (should_redact_field c n)) [
        | inl k ↦ rw (sym e, k, q) refl
        | inr k ↦
            let p : redact_json_value c v ≡ redact_json_value c w =
              redact_json_value-same c v w (a k) in
            rw (sym e, k, p, q) refl
      ]

mutual
  unfolding Agree redact_json_value

  Agree-same :
      (c : RedactionConfig) (v w : Value)
      → redact_json_value c v ≡ redact_json_value c w
      → Agree c v w
  Agree-same c null null h = refl
  Agree-same c (bool a) (bool b) h = h
  Agree-same c (number m) (number n) h = h
  Agree-same c (string s) (string t) h = h
  Agree-same c (array xs) (array ys) h = AgreeItems-same c xs ys (cc)
  Agree-same c (object fs) (object gs) h = AgreeFields-same c fs gs (cc)
  Agree-same c null (bool b) h = absurd (cc)
  Agree-same c null (number n) h = absurd (cc)
  Agree-same c null (string t) h = absurd (cc)
  Agree-same c null (array ys) h = absurd (cc)
  Agree-same c null (object gs) h = absurd (cc)
  Agree-same c (bool a) null h = absurd (cc)
  Agree-same c (bool a) (number n) h = absurd (cc)
  Agree-same c (bool a) (string t) h = absurd (cc)
  Agree-same c (bool a) (array ys) h = absurd (cc)
  Agree-same c (bool a) (object gs) h = absurd (cc)
  Agree-same c (number m) null h = absurd (cc)
  Agree-same c (number m) (bool b) h = absurd (cc)
  Agree-same c (number m) (string t) h = absurd (cc)
  Agree-same c (number m) (array ys) h = absurd (cc)
  Agree-same c (number m) (object gs) h = absurd (cc)
  Agree-same c (string s) null h = absurd (cc)
  Agree-same c (string s) (bool b) h = absurd (cc)
  Agree-same c (string s) (number n) h = absurd (cc)
  Agree-same c (string s) (array ys) h = absurd (cc)
  Agree-same c (string s) (object gs) h = absurd (cc)
  Agree-same c (array xs) null h = absurd (cc)
  Agree-same c (array xs) (bool b) h = absurd (cc)
  Agree-same c (array xs) (number n) h = absurd (cc)
  Agree-same c (array xs) (string t) h = absurd (cc)
  Agree-same c (array xs) (object gs) h = absurd (cc)
  Agree-same c (object fs) null h = absurd (cc)
  Agree-same c (object fs) (bool b) h = absurd (cc)
  Agree-same c (object fs) (number n) h = absurd (cc)
  Agree-same c (object fs) (string t) h = absurd (cc)
  Agree-same c (object fs) (array ys) h = absurd (cc)

  AgreeItems-same :
      (c : RedactionConfig) (xs ys : Items)
      → redact_items c xs ≡ redact_items c ys
      → AgreeItems c xs ys
  AgreeItems-same c nil nil h = tt
  AgreeItems-same c nil (cons y ys) h = absurd (cc)
  AgreeItems-same c (cons x xs) nil h = absurd (cc)
  AgreeItems-same c (cons x xs) (cons y ys) h =
      (Agree-same c x y (cc), AgreeItems-same c xs ys (cc))

  AgreeFields-same :
      (c : RedactionConfig) (fs gs : Fields)
      → redact_fields c fs ≡ redact_fields c gs
      → AgreeFields c fs gs
  AgreeFields-same c end end h = tt
  AgreeFields-same c end (field m w gs) h = absurd (cc)
  AgreeFields-same c (field n v fs) end h = absurd (cc)
  AgreeFields-same c (field n v fs) (field m w gs) h =
      (ground arith, λ k. Agree-same c v w (ground arith), AgreeFields-same c fs gs (ground arith))

-- Two JSON values are redacted alike exactly if they agree outside the fields with secret names, at
-- every depth.
pub redact_json_value-blind :
    (c : RedactionConfig) (v w : Value)
    → (Agree c v w → redact_json_value c v ≡ redact_json_value c w)
      × (redact_json_value c v ≡ redact_json_value c w → Agree c v w)
redact_json_value-blind c v w = (redact_json_value-same c v w, Agree-same c v w)
