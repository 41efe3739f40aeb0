-- ===== src/Proxy/Http/Forward/Whole.antt =====
-- Forwarding a whole body, whose first bytes were read with the head.
use tlscope_rs.Base.{
  ℕ, ◌-◌, ◌≤◌, ◌<◌, ◌≡◌, refl, sym, ap, subst, ◌∙◌, true, [], ◌∷◌, ◌++◌, arith, ok, err, length,
  take, drop, length-append, length-take, min, take-append_short, take-append_long, take-min,
  take_all, append-nil, ltb,
}
use tlscope_rs.Text.Utf8.{Bytes}
use tlscope_rs.Proxy.Stream.{IsIntact, arrivals}
use tlscope_rs.Proxy.Http.{Transfer, Messages, pass_initial, forward_exactly, forward_length}
use tlscope_rs.Proxy.Http.Forward.{Moves, Moves-none, Moves-trans, pass_on-Passes}
use tlscope_rs.Proxy.Http.Forward.Exactly.{forward_exactly-Forwards, forward_exactly_short}
use native.Mathlib.Decide.{dec_lt}

take-append : (n : ℕ) (xs ys : Bytes) → take n (xs ++ ys) ≡ take n xs ++ take (n - length xs) ys
take-append n xs ys = elim (dec_lt n (length xs)) [
  | yes p ↦
      let e : n - length xs ≡ 0 = omega arith in
      take-append_long n xs ys (omega arith)
      ∙ sym (append-nil (take n xs))
      ∙ ap (λ k. take n xs ++ take k ys) (sym e)
  | no p ↦
      take-append_short n xs ys (omega arith)
      ∙ ap (λ x. x ++ take (n - length xs) ys) (sym (take_all n xs (omega arith)))
]

take-min_flip : (n : ℕ) (xs : Bytes) → take (min (length xs) n) xs ≡ take n xs
take-min_flip n xs =
    let e : min (length xs) n ≡ min n (length xs) = omega arith in
    ap (λ k. take k xs) e ∙ take-min n xs

module _ (m : Messages) (size : ℕ) where
  -- The bytes that were read with the head.
  pub record Starts (t : Transfer) (bytes : Bytes) : Type 0 where
    pub next : Transfer
    pub outcome : pass_initial m size t bytes ≡ ok next
    pub moves : Moves size t next bytes
    pub same : next.stream ≡ t.stream

  pub pass_initial-Starts :
      (t : Transfer) (bytes : Bytes) → length bytes ≤ t.writer.room → Starts t bytes
  unfolding pass_initial
  pass_initial-Starts t [] h = record {
    next = t;
    outcome = refl;
    moves = Moves-none size t;
    same = refl;
  }
  pass_initial-Starts t (x ∷ bytes) h =
      let p = pass_on-Passes size m t t.stream (x ∷ bytes) h in
      let some_bytes : ltb 0 (length (x ∷ bytes)) ≡ true = ground arith in
      record { next = p.next; outcome = rw some_bytes p.outcome; moves = p.moves; same = p.same }

  module _ (n : ℕ) (initial : Bytes) (t : Transfer) (fresh : t.written ≡ 0) (i : IsIntact t.stream)
      (w : n ≤ t.writer.room) where
    forward_length-start :
        (start : Starts t (take (min (length initial) n) initial))
        → forward_length m size t initial n
          ≡ forward_exactly m size (n - length initial) (n - length initial) start.next
    unfolding forward_length
    forward_length-start start =
        let e : n - start.next.written ≡ n - length initial =
          omega (arith, start.moves.written, length-take (min (length initial) n) initial) in
        rw (start.outcome) (ap (λ k. forward_exactly m size k k start.next) e)

    start : Starts t (take (min (length initial) n) initial)
    start =
        pass_initial-Starts t (take (min (length initial) n) initial)
          (omega (arith, length-take (min (length initial) n) initial))

    -- What comes after the first bytes has room.
    start-room : n - length initial ≤ start.next.writer.room
    start-room = omega (arith, start.moves.room, length-take (min (length initial) n) initial)

    start-arrivals : arrivals start.next.stream ≡ arrivals t.stream
    start-arrivals = ap arrivals start.same

    pub forward_length_short :
        length (initial ++ arrivals t.stream) < n → forward_length m size t initial n ≡ err m.closed
    forward_length_short h =
        forward_length-start start
        ∙ forward_exactly_short m size (n - length initial) (n - length initial) start.next
            (subst IsIntact (sym start.same) i) (omega arith)
            (omega (arith, ap length start-arrivals, length-append initial (arrivals t.stream)))
            start-room

    pub record Sends : Type 0 where
      pub next : Transfer
      pub outcome : forward_length m size t initial n ≡ ok next
      pub moves : Moves size t next (take n (initial ++ arrivals t.stream))
      pub left : arrivals next.stream ≡ drop (n - length initial) (arrivals t.stream)

    pub forward_length-Sends : n ≤ length (initial ++ arrivals t.stream) → Sends
    forward_length-Sends h =
        let f =
          forward_exactly-Forwards m size (n - length initial) (n - length initial) start.next
            (subst IsIntact (sym start.same) i) (omega arith)
            (omega (arith, ap length start-arrivals, length-append initial (arrivals t.stream)))
            start-room in
        record {
          next = f.next;
          outcome = forward_length-start start ∙ f.outcome;
          moves =
              subst (Moves size t f.next)
                (ap (λ s. take (min (length initial) n) initial ++ take (n - length initial) s)
                    start-arrivals
                  ∙ ap (λ x. x ++ take (n - length initial) (arrivals t.stream))
                      (take-min_flip n initial)
                  ∙ sym (take-append n initial (arrivals t.stream)))
                (Moves-trans size start.moves f.moves);
          left = f.left ∙ ap (drop (n - length initial)) start-arrivals;
        }
