-- ===== src/Proxy/Http/Forward/Exactly.antt =====
-- The loop that forwards as many bytes as were announced.
use tlscope_rs.Base.{
  ℕ, zero, suc, ◌-◌, ◌≤◌, ◌<◌, ◌≡◌, refl, sym, ap, subst, ◌∙◌, false, [], ◌∷◌, ◌++◌, arith, Result,
  ok, err, length, take, drop, length-append, is_empty, min, take-append_short, drop-append_short,
}
use tlscope_rs.Text.{Text}
use tlscope_rs.Text.Utf8.{Bytes}
use tlscope_rs.Proxy.Stream.{Stream, read, IsIntact, arrivals, read-Reads, read-ended}
use tlscope_rs.Proxy.Http.{Transfer, Messages, pass_on, forward_exactly}
use tlscope_rs.Proxy.Http.Forward.{Moves, Moves-none, Moves-trans, pass_on-Passes}
use native.Mathlib.Decide.{dec_lt}

-- The first `n` bytes of the stream move, and the others stay.
pub record Forwards (size n : ℕ) (t : Transfer) (r : Result Text Transfer) : Type 0 where
  pub next : Transfer
  pub outcome : r ≡ ok next
  pub moves : Moves size t next (take n (arrivals t.stream))
  pub left : arrivals next.stream ≡ drop n (arrivals t.stream)

-- Some bytes that moved first.
Forwards-after :
    (size n : ℕ) (t u : Transfer) (got : Bytes) (rest : Stream) (r q : Result Text Transfer)
    → Moves size t u got
    → u.stream ≡ rest
    → got ++ arrivals rest ≡ arrivals t.stream
    → length got ≤ n
    → q ≡ r
    → Forwards size (n - length got) u r
    → Forwards size n t q
Forwards-after size n t u got rest r q m same order k e f = record {
  next = f.next;
  outcome = e ∙ f.outcome;
  moves =
      subst (Moves size t f.next)
        (ap (λ s. got ++ take (n - length got) (arrivals s)) same
          ∙ sym (take-append_short n got (arrivals rest) k)
          ∙ ap (take n) order)
        (Moves-trans size m f.moves);
  left =
      f.left
      ∙ ap (λ s. drop (n - length got) (arrivals s)) same
      ∙ sym (drop-append_short n got (arrivals rest) k)
      ∙ ap (drop n) order;
}

pub not_empty : (b : Bytes) → 1 ≤ length b → is_empty b ≡ false
not_empty [] h = absurd (omega arith)
not_empty (x ∷ b) h = refl

module _ (m : Messages) (size : ℕ) where
  -- One round, once its read and its write are known.
  forward_exactly-round :
      (fuel k : ℕ) (t next : Transfer) (got : Bytes) (rest : Stream)
      → read (min 16384 (suc k)) t.stream ≡ ok (got, rest)
      → 1 ≤ length got
      → pass_on m size (record t { stream = rest }) got ≡ ok next
      → forward_exactly m size (suc fuel) (suc k) t
        ≡ forward_exactly m size fuel (suc k - length got) next
  unfolding forward_exactly
  forward_exactly-round fuel k t next got rest e h p =
      rw (forward_exactly, e, not_empty got h, p) refl

  pub forward_exactly-Forwards :
      (fuel n : ℕ) (t : Transfer)
      → IsIntact t.stream
      → n ≤ fuel
      → n ≤ length (arrivals t.stream)
      → n ≤ t.writer.room
      → Forwards size n t (forward_exactly m size fuel n t)
  unfolding forward_exactly
  forward_exactly-Forwards fuel zero t i f a w = record {
    next = t;
    outcome = refl;
    moves = Moves-none size t;
    left = refl;
  }
  forward_exactly-Forwards zero (suc k) t i f a w = absurd (omega arith)
  forward_exactly-Forwards (suc fuel) (suc k) t i f a w =
      let r = read-Reads (min 16384 (suc k)) t.stream i (omega arith) (omega arith) in
      let p = pass_on-Passes size m t r.rest r.got (omega (arith, r.few_bytes)) in
      let some_bytes = r.some_bytes in
      let ih =
        forward_exactly-Forwards fuel (suc k - length r.got) p.next
          (subst IsIntact (sym p.same) r.intact) (omega arith)
          (omega (
            arith,
            ap (λ s. length (arrivals s)) p.same,
            ap length r.in_order,
            length-append r.got (arrivals r.rest),
          ))
          (omega (arith, p.moves.room)) in
      Forwards-after size (suc k) t p.next r.got r.rest _ _ p.moves p.same r.in_order
        (omega (arith, r.few_bytes))
        (forward_exactly-round fuel k t p.next r.got r.rest r.outcome r.some_bytes p.outcome) ih

  -- A stream that ends before is an error.
  pub forward_exactly_short :
      (fuel n : ℕ) (t : Transfer)
      → IsIntact t.stream
      → n ≤ fuel
      → length (arrivals t.stream) < n
      → n ≤ t.writer.room
      → forward_exactly m size fuel n t ≡ err m.closed
  unfolding forward_exactly
  forward_exactly_short fuel zero t i f a w = absurd (omega arith)
  forward_exactly_short zero (suc k) t i f a w = absurd (omega arith)
  forward_exactly_short (suc fuel) (suc k) t i f a w =
      elim (dec_lt 0 (length (arrivals t.stream))) [
        | yes some_left ↦
            let r = read-Reads (min 16384 (suc k)) t.stream i (omega arith) (omega arith) in
            let p = pass_on-Passes size m t r.rest r.got (omega (arith, r.few_bytes)) in
            let some_bytes = r.some_bytes in
            forward_exactly-round fuel k t p.next r.got r.rest r.outcome r.some_bytes p.outcome
            ∙ forward_exactly_short fuel (suc k - length r.got) p.next
                (subst IsIntact (sym p.same) r.intact) (omega arith)
                (omega (
                  arith,
                  r.few_bytes,
                  ap (λ s. length (arrivals s)) p.same,
                  ap length r.in_order,
                  length-append r.got (arrivals r.rest),
                ))
                (omega (arith, p.moves.room))
        | no none_left ↦
            rw (forward_exactly, read-ended (min 16384 (suc k)) t.stream i (omega arith)) refl
      ]
