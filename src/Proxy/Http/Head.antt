-- ===== src/Proxy/Http/Head.antt =====
-- Reading the head of a message from a stream, however its bytes arrive.
use tlscope_rs.Base.{
  ℕ, zero, suc, ◌+◌, ◌≤◌, ◌<◌, ◌≡◌, refl, sym, ap, subst, ◌∙◌, true, List, [], ◌∷◌, ◌++◌, Option,
  none, some, arith, Result, ok, length, take, drop, append_assoc, take-append-drop, length-append,
  Bool-cases, inl, inr, take-length, drop-length, take-append_long, drop-append, Option-cases,
}
use tlscope_rs.Text.{starts_with}
use tlscope_rs.Text.Utf8.{Bytes}
use tlscope_rs.Proxy.Stream.{Stream, IsIntact, arrivals, read-Reads}
use tlscope_rs.Proxy.Http.{
  header_limit, blank_line, plus_one, find_header_end, done, go_on, head_step, head_loop,
  read_header_block,
}
use native.Mathlib.Decide.{dec_lt}

starts_with-append :
    (s t p : Bytes) → length p ≤ length s → starts_with (s ++ t) p ≡ starts_with s p
starts_with-append s t [] h = refl
starts_with-append [] t (d ∷ p) h = absurd (omega arith)
starts_with-append (c ∷ s) t (d ∷ p) h = rw (starts_with-append s t p (omega arith)) refl

starts_with-length : (s p : Bytes) → starts_with s p ≡ true → length p ≤ length s
starts_with-length s [] h = omega arith
starts_with-length [] (d ∷ p) h = cc
starts_with-length (c ∷ s) (d ∷ p) h = ground (arith, starts_with-length s p)

-- An end that is found lies behind four of the bytes.
IsEnd : ℕ → Option ℕ → Type 0
IsEnd size none = Unit
IsEnd size (some n) = (4 ≤ n) × (n ≤ size)

plus_one-IsEnd : (size : ℕ) (o : Option ℕ) → IsEnd size o → IsEnd (suc size) (plus_one o)
unfolding IsEnd
plus_one-IsEnd size none h = h
plus_one-IsEnd size (some n) h = omega arith

find_header_end-IsEnd : (s : Bytes) → IsEnd (length s) (find_header_end s)
unfolding find_header_end IsEnd
find_header_end-IsEnd [] = tt
find_header_end-IsEnd (c ∷ s) = elim (Bool-cases (starts_with (c ∷ s) blank_line)) [
  | inl e ↦ rw e (omega (arith, starts_with-length (c ∷ s) blank_line e))
  | inr e ↦ rw e (plus_one-IsEnd (length s) (find_header_end s) (find_header_end-IsEnd s))
]

find_header_end_bounds : (s : Bytes) {n : ℕ} → find_header_end s ≡ some n → (4 ≤ n) × (n ≤ length s)
unfolding IsEnd
find_header_end_bounds s e = subst (IsEnd (length s)) e (find_header_end-IsEnd s)

plus_one-eq : (o : Option ℕ) {n : ℕ} → plus_one o ≡ some n → (m : ℕ) × (o ≡ some m) × (n ≡ suc m)
plus_one-eq none h = cc
plus_one-eq (some m) h = (m, refl, ground arith)

-- More bytes do not move the end that was found.
find_header_end-append :
    (s t : Bytes) {n : ℕ} → find_header_end s ≡ some n → find_header_end (s ++ t) ≡ some n
unfolding find_header_end
find_header_end-append [] t h = cc
find_header_end-append (c ∷ s) t {n} h = elim (Bool-cases (starts_with (c ∷ s) blank_line)) [
  | inl e ↦
      rw (starts_with-append (c ∷ s) t blank_line (starts_with-length (c ∷ s) blank_line e))
        (rw e (rw e at h))
  | inr e ↦
      let (m, found, p) = plus_one-eq (find_header_end s) (rw e at h) in
      let b : (4 ≤ m) × (m ≤ length s) = find_header_end_bounds s found in
      rw (starts_with-append (c ∷ s) t blank_line (omega arith), e)
        (rw (find_header_end-append s t found, p) refl)
]

-- A head: it ends where its first blank line does.
abbrev pub IsHead : Bytes → Type 0
IsHead header = find_header_end header ≡ some (length header)

-- A part of a head has no end, and what starts with a head ends where the head does.
find_header_end-part :
    (b u header : Bytes)
    → IsHead header
    → b ++ u ≡ header
    → length b < length header
    → find_header_end b ≡ none
find_header_end-part b u header h e k = elim (Option-cases (find_header_end b)) [
  | inl missing ↦ missing
  | inr (n, found) ↦
      let f : some n ≡ some (length header) =
        sym (find_header_end-append b u found) ∙ ap find_header_end e ∙ h in
      let g : (4 ≤ n) × (n ≤ length b) = find_header_end_bounds b found in absurd (ground arith)
]

-- Of two splits of one text the shorter front starts the longer one.
split_longer :
    (b r h t : Bytes) → b ++ r ≡ h ++ t → length b ≤ length h → b ++ drop (length b) h ≡ h
split_longer b r h t e k =
    let f : take (length b) h ≡ b =
      sym (take-append_long (length b) h t k) ∙ ap (take (length b)) (sym e) ∙ take-length b r in
    ap (λ x. x ++ drop (length b) h) (sym f) ∙ take-append-drop (length b) h

-- What the bytes read so far, and those to come, are; and what a loop is to give.
module _ (header t : Bytes) (head : IsHead header)
    (small : length header + 8192 ≤ header_limit) where
  abbrev Delivers : Option (Result (List ℕ) (Option (Bytes × Bytes) × Stream)) → Type 0
  Delivers r =
      (body : Bytes) × (rest : Stream) × (r ≡ some (ok (some (header, body), rest)))
      × (body ++ arrivals rest ≡ t)

  step_early :
      (buffer got : Bytes) (rest : Stream)
      → 1 ≤ length got
      → length got ≤ 8192
      → buffer ++ (got ++ arrivals rest) ≡ header ++ t
      → length buffer + length got < length header
      → head_step buffer (ok (got, rest)) ≡ go_on (buffer ++ got) rest
  unfolding head_step
  step_early buffer got rest some_bytes few e k =
      let whole : (buffer ++ got) ++ arrivals rest ≡ header ++ t =
        append_assoc buffer got (arrivals rest) ∙ e in
      let size : length (buffer ++ got) ≡ length buffer + length got = length-append buffer got in
      let missing : find_header_end (buffer ++ got) ≡ none =
        find_header_end-part (buffer ++ got) (drop (length (buffer ++ got)) header) header head
          (split_longer (buffer ++ got) (arrivals rest) header t whole (omega arith))
          (omega arith) in
      rw missing (ground arith)

  step_done :
      (buffer got : Bytes) (rest : Stream)
      → 1 ≤ length got
      → length got ≤ 8192
      → length buffer < length header
      → buffer ++ (got ++ arrivals rest) ≡ header ++ t
      → length header ≤ length buffer + length got
      → (body : Bytes) × (head_step buffer (ok (got, rest)) ≡ done (ok (some (header, body), rest)))
        × (body ++ arrivals rest ≡ t)
  unfolding head_step
  step_done buffer got rest some_bytes few early e k =
      let whole : (buffer ++ got) ++ arrivals rest ≡ header ++ t =
        append_assoc buffer got (arrivals rest) ∙ e in
      let size : length (buffer ++ got) ≡ length buffer + length got = length-append buffer got in
      let body = drop (length header) (buffer ++ got) in
      let split : header ++ body ≡ buffer ++ got =
        split_longer header t (buffer ++ got) (arrivals rest) (sym whole) (omega arith) in
      let found : find_header_end (buffer ++ got) ≡ some (length header) =
        ap find_header_end (sym split) ∙ find_header_end-append header body head in
      let front : take (length header) (buffer ++ got) ≡ header =
        ap (take (length header)) (sym split) ∙ take-length header body in
      let back : body ++ arrivals rest ≡ t =
        sym (drop-append (length header) (buffer ++ got) (arrivals rest) (omega arith))
        ∙ ap (drop (length header)) whole
        ∙ drop-length header t in
      (body, rw (found, front) (ground arith), back)

  loop-Delivers :
      (fuel : ℕ) (buffer : Bytes) (s : Stream)
      → IsIntact s
      → buffer ++ arrivals s ≡ header ++ t
      → length buffer < length header
      → length header ≤ fuel + length buffer
      → Delivers (head_loop fuel buffer s)
  unfolding head_loop
  loop-Delivers zero buffer s i e early k = absurd (omega arith)
  loop-Delivers (suc fuel) buffer s i e early k =
      let r =
        read-Reads 8192 s i (omega arith)
          (omega (arith, ap length e, length-append buffer (arrivals s), length-append header t)) in
      let e' : buffer ++ (r.got ++ arrivals r.rest) ≡ header ++ t =
        ap (λ x. buffer ++ x) r.in_order ∙ e in
      elim (dec_lt (length buffer + length r.got) (length header)) [
        | yes p ↦
            rw (head_loop, r.outcome, step_early buffer r.got r.rest r.some_bytes r.few_bytes e' p)
              (loop-Delivers fuel (buffer ++ r.got) r.rest r.intact
                (append_assoc buffer r.got (arrivals r.rest) ∙ e')
                (omega (arith, length-append buffer r.got))
                (omega (arith, length-append buffer r.got, r.some_bytes)))
        | no p ↦
            let (body, q, back) =
              step_done buffer r.got r.rest r.some_bytes r.few_bytes early e' (omega arith) in
            (body, r.rest, rw (head_loop, r.outcome, q) refl, back)
      ]

-- However the bytes of an intact connection arrive, a head of them that leaves a read's room below the
-- limit is read as it was sent; what was read behind it and what is still to come are what follows it.
pub read_header_block_lem :
    (header t : Bytes) (s : Stream)
    → IsIntact s
    → arrivals s ≡ header ++ t
    → IsHead header
    → length header + 8192 ≤ header_limit
    → (body : Bytes) × (rest : Stream) × (read_header_block s
        ≡ some (ok (some (header, body), rest)))
      × (body ++ arrivals rest ≡ t)
unfolding read_header_block
read_header_block_lem header t s i e head small =
    loop-Delivers header t head small (header_limit + 1) [] s i e
      (omega (arith, find_header_end_bounds header head)) (omega arith)
