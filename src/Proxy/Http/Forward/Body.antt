-- ===== src/Proxy/Http/Forward/Body.antt =====
-- What `forward_known_body` and `forward_response_body` do with a body.
use mathlib.Core.List.{flatten}
use tlscope_rs.Base.{
  ℕ, zero, suc, ◌+◌, ◌-◌, ◌≤◌, ◌<◌, ◌≡◌, refl, sym, ap, subst, ◌∙◌, [], ◌∷◌, ◌++◌, Option, none,
  some, arith, Result, ok, err, length, take, drop, length-append, length-take, u64_mod, append-nil,
}
use tlscope_rs.Text.{Text, text}
use tlscope_rs.Text.Utf8.{Bytes}
use tlscope_rs.Capture.Body.{from_bytes}
use tlscope_rs.Capture.Body.Stream.{capture_all, capture_all-from_bytes}
use tlscope_rs.Proxy.Stream.{Stream, read, IsIntact, arrivals, read-Reads, read-ended, Writer}
use tlscope_rs.Proxy.Http.{
  Transfer, Messages, request_messages, response_messages, forward_length, forward_to_end,
  forward_known_body, forward_response_body, start_capture, start_transfer, pass_on, pass_initial,
}
use tlscope_rs.Proxy.Http.Forward.{Moves, Moves-trans, pass_on-Passes}
use tlscope_rs.Proxy.Http.Forward.Whole.{
  forward_length-Sends, forward_length_short, pass_initial-Starts,
}
use tlscope_rs.Proxy.Http.Forward.Exactly.{not_empty}
use native.Mathlib.Decide.{dec_lt}

-- The body went to the peer whole, and was captured as `from_bytes` would have it.
abbrev pub forwarded :
    ℕ → Option Text → Option Text → Option Text → Bytes → Writer → Stream → Transfer
forwarded max_body_size kind encoding transfer body w rest = record {
  captured = record (from_bytes body max_body_size kind encoding) { transfer_encoding = transfer };
  writer = record { sent = w.sent ++ body; room = w.room - length body };
  written = length body;
  stream = rest;
}

Transfer-eq :
    (t u : Transfer)
    → t.captured ≡ u.captured
    → t.writer.sent ≡ u.writer.sent
    → t.writer.room ≡ u.writer.room
    → t.written ≡ u.written
    → t.stream ≡ u.stream
    → t ≡ u
Transfer-eq t u p q r s e = ground arith

module _ (size : ℕ) (kind encoding transfer : Option Text) (s : Stream) (w : Writer) where
  Moves-forwarded :
      (body : Bytes) (u : Transfer)
      → length body < u64_mod
      → Moves size (start_transfer (start_capture kind encoding transfer) s w) u body
      → u ≡ forwarded size kind encoding transfer body w u.stream
  unfolding start_capture
  Moves-forwarded body u fits m =
      Transfer-eq u (forwarded size kind encoding transfer body w u.stream)
        (m.captured
          ∙ capture_all-from_bytes size m.chunks kind encoding transfer
              (omega (arith, ap length m.spelled))
          ∙ ap (λ b. record (from_bytes b size kind encoding) { transfer_encoding = transfer })
              m.spelled)
        m.sent (omega (arith, m.room)) (m.written ∙ omega arith) refl

  -- A body of known length that is all there.
  forward_length-forwarded :
      (m : Messages) (n : ℕ) (initial : Bytes)
      → IsIntact s
      → n < u64_mod
      → n ≤ w.room
      → n ≤ length (initial ++ arrivals s)
      → (rest : Stream) × (arrivals rest ≡ drop (n - length initial) (arrivals s))
        × (forward_length m size
              (start_transfer (start_capture kind encoding transfer) s w)
              initial
              n
            ≡ ok (forwarded size kind encoding transfer (take n (initial ++ arrivals s)) w rest))
  forward_length-forwarded m n initial i fits room h =
      let t = start_transfer (start_capture kind encoding transfer) s w in
      let d = forward_length-Sends m size n initial t refl i room h in
      (
        d.next.stream,
        d.left,
        d.outcome
            ∙ ap ok (
                Moves-forwarded (take n (initial ++ arrivals s)) d.next
                  (omega (arith, length-take n (initial ++ arrivals s))) d.moves),
      )

-- Of a request body or a response body with the length `n`, below 2^64, whose first bytes are
-- `initial` and whose other bytes arrive on an intact connection, exactly `n` bytes go to a
-- peer that takes them, the capture is that of these bytes, and the rest stays in the stream.
pub forward_known_body_lem :
    (size n : ℕ) (initial : Bytes) (kind encoding transfer : Option Text) (s : Stream) (w : Writer)
    → IsIntact s
    → n < u64_mod
    → n ≤ w.room
    → n ≤ length (initial ++ arrivals s)
    → ((rest : Stream) × (arrivals rest ≡ drop (n - length initial) (arrivals s))
        × (forward_known_body s w initial n size kind encoding transfer
            ≡ ok (forwarded size kind encoding transfer (take n (initial ++ arrivals s)) w rest)))
      × ((rest : Stream) × (arrivals rest ≡ drop (n - length initial) (arrivals s))
          × (forward_response_body s w initial (some n) size kind encoding transfer
              ≡ some (
                  ok (
                    forwarded size kind encoding transfer
                      (take n (initial ++ arrivals s))
                      w
                      rest))))
unfolding forward_known_body forward_response_body
forward_known_body_lem size n initial kind encoding transfer s w i fits room h =
    let (rest, left, e) =
      forward_length-forwarded size kind encoding transfer s w response_messages n initial i fits
        room h in
    (
      forward_length-forwarded size kind encoding transfer s w request_messages n initial i fits
          room h,
      (rest, left, ap some e),
    )

-- An intact connection that ends before the announced length is an error of the request or of
-- the response, never a shorter body, also with a peer that would take it all.
pub forward_known_body_short :
    (size n : ℕ) (initial : Bytes) (kind encoding transfer : Option Text) (s : Stream) (w : Writer)
    → IsIntact s
    → n ≤ w.room
    → length (initial ++ arrivals s) < n
    → (forward_known_body s w initial n size kind encoding transfer
        ≡ err (text "connection closed before full request body was sent"))
      × (forward_response_body s w initial (some n) size kind encoding transfer
          ≡ some (err (text "upstream closed before full response body was sent")))
unfolding forward_known_body forward_response_body text
forward_known_body_short size n initial kind encoding transfer s w i room h =
    let t = start_transfer (start_capture kind encoding transfer) s w in
    (
      forward_length_short request_messages size n initial t refl i room h,
      ap some (forward_length_short response_messages size n initial t refl i room h),
    )

-- The loop up to the end of the stream moves all of it.
record Empties (size : ℕ) (t : Transfer) (r : Option (Result Text Transfer)) : Type 0 where
  next : Transfer
  outcome : r ≡ some (ok next)
  moves : Moves size t next (arrivals t.stream)

module _ (m : Messages) (size : ℕ) where
  forward_to_end-round :
      (fuel : ℕ) (t next : Transfer) (got : Bytes) (rest : Stream)
      → read 16384 t.stream ≡ ok (got, rest)
      → 1 ≤ length got
      → pass_on m size (record t { stream = rest }) got ≡ ok next
      → forward_to_end m size (suc fuel) t ≡ forward_to_end m size fuel next
  unfolding forward_to_end
  forward_to_end-round fuel t next got rest e h p = rw (forward_to_end, e, not_empty got h, p) refl

  forward_to_end-last :
      (fuel : ℕ) (t : Transfer)
      → read 16384 t.stream ≡ ok ([], [])
      → forward_to_end m size (suc fuel) t ≡ some (ok (record t { stream = [] }))
  unfolding forward_to_end
  forward_to_end-last fuel t e = rw (forward_to_end, e) refl

  ended-Moves :
      (t : Transfer) (a : Bytes) → length a ≡ 0 → Moves size t (record t { stream = [] }) a
  unfolding capture_all flatten
  ended-Moves t [] h = record {
    chunks = [];
    spelled = refl;
    captured = refl;
    sent = sym (append-nil t.writer.sent);
    room = omega arith;
    written = omega arith;
  }
  ended-Moves t (x ∷ a) h = absurd (omega arith)

  forward_to_end-Empties :
      (fuel : ℕ) (t : Transfer)
      → IsIntact t.stream
      → length (arrivals t.stream) < fuel
      → length (arrivals t.stream) ≤ t.writer.room
      → Empties size t (forward_to_end m size fuel t)
  forward_to_end-Empties zero t i f w = absurd (omega arith)
  forward_to_end-Empties (suc fuel) t i f w = elim (dec_lt 0 (length (arrivals t.stream))) [
    | yes some_left ↦
        let r = read-Reads 16384 t.stream i (omega arith) (omega arith) in
        let sizes : length r.got + length (arrivals r.rest) ≡ length (arrivals t.stream) =
          omega (arith, ap length r.in_order, length-append r.got (arrivals r.rest)) in
        let p = pass_on-Passes size m t r.rest r.got (omega arith) in
        let at_least = r.some_bytes in
        let same : length (arrivals p.next.stream) ≡ length (arrivals r.rest) =
          ap (λ s. length (arrivals s)) p.same in
        let ih =
          forward_to_end-Empties fuel p.next (subst IsIntact (sym p.same) r.intact) (omega arith)
            (omega (arith, p.moves.room)) in
        record {
          next = ih.next;
          outcome =
              forward_to_end-round fuel t p.next r.got r.rest r.outcome r.some_bytes p.outcome
              ∙ ih.outcome;
          moves =
              subst (Moves size t ih.next) (ap (λ s. r.got ++ arrivals s) p.same ∙ r.in_order)
                (Moves-trans size p.moves ih.moves);
        }
    | no none_left ↦
        let empty : length (arrivals t.stream) ≡ 0 = omega arith in
        record {
          next = record t { stream = [] };
          outcome = forward_to_end-last fuel t (read-ended 16384 t.stream i empty);
          moves = ended-Moves t (arrivals t.stream) empty;
        }
  ]

forward_response_body-forward_to_end :
    (size : ℕ) (initial : Bytes) (kind encoding transfer : Option Text) (s : Stream) (w : Writer)
    (next : Transfer)
    → pass_initial response_messages size
        (start_transfer (start_capture kind encoding transfer) s w)
        initial
      ≡ ok next
    → forward_response_body s w initial none size kind encoding transfer
      ≡ forward_to_end response_messages size (length (arrivals s) + 1) next
unfolding forward_response_body
forward_response_body-forward_to_end size initial kind encoding transfer s w next e =
    rw (forward_response_body, e) refl

-- A response without a length, on an intact connection, of less than 2^64 bytes, to a peer that
-- takes them, is forwarded and captured up to the end of the connection.
pub forward_response_body_end :
    (size : ℕ) (initial : Bytes) (kind encoding transfer : Option Text) (s : Stream) (w : Writer)
    → IsIntact s
    → length (initial ++ arrivals s) < u64_mod
    → length (initial ++ arrivals s) ≤ w.room
    → (rest : Stream) × (forward_response_body s w initial none size kind encoding transfer
        ≡ some (ok (forwarded size kind encoding transfer (initial ++ arrivals s) w rest)))
forward_response_body_end size initial kind encoding transfer s w i fits room =
    let t = start_transfer (start_capture kind encoding transfer) s w in
    let sizes = length-append initial (arrivals s) in
    let st = pass_initial-Starts response_messages size t initial (omega arith) in
    let same : arrivals st.next.stream ≡ arrivals s = ap arrivals st.same in
    let e =
      forward_to_end-Empties response_messages size (length (arrivals s) + 1) st.next
        (subst IsIntact (sym st.same) i) (omega (arith, ap length same))
        (omega (arith, ap length same, st.moves.room)) in
    (
      e.next.stream,
      forward_response_body-forward_to_end size initial kind encoding transfer s w st.next
            st.outcome
          ∙ (e.outcome
              ∙ ap (λ x. some (ok x))
                  (Moves-forwarded size kind encoding transfer s w (initial ++ arrivals s) e.next
                    fits
                    (subst (Moves size t e.next) (ap (λ x. initial ++ x) same)
                      (Moves-trans size st.moves e.moves)))),
    )
