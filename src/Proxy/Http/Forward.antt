-- ===== src/Proxy/Http/Forward.antt =====
-- What forwarding does to the peer and to the capture. The children prove what the loops do.
pub mod Exactly
pub mod Whole
pub mod Body
use mathlib.Core.List.{flatten}
use tlscope_rs.Base.{
  ℕ, zero, suc, ◌+◌, ◌-◌, ◌≤◌, ◌<◌, ◌≡◌, refl, sym, ap, subst, ◌∙◌, true, false, List, [], ◌∷◌,
  ◌++◌, Option, none, some, arith, Result, ok, err, ltb, length, take, drop, append_assoc,
  append-nil, take-append-drop, length-append, length-take, Bool-cases, inl, inr, is_empty, min,
  take_all, u64_mod, take-append_long, take-append_short, drop-append, drop-length, length-drop,
  take-length,
}
use tlscope_rs.Text.{Text}
use tlscope_rs.Text.Utf8.{Bytes}
use tlscope_rs.Capture.Body.{CapturedBody, from_bytes, empty, push_capture}
use tlscope_rs.Capture.Body.Stream.{capture_all, capture_all-from_bytes}
use tlscope_rs.Proxy.Stream.{
  Stream, read, write_all, Writer, IsIntact, arrivals, Reads, read-Reads, read-ended,
}
use tlscope_rs.Proxy.Http.{
  Transfer, Messages, request_messages, response_messages, pass_on, pass_initial, forward_exactly,
  forward_to_end, forward_length, forward_known_body, forward_response_body, start_capture,
  start_transfer,
}
use native.Mathlib.Decide.{dec_lt}

flatten-append : (cs ds : List Bytes) → flatten (cs ++ ds) ≡ flatten cs ++ flatten ds
unfolding flatten
flatten-append [] ds = refl
flatten-append (c ∷ cs) ds =
    ap (λ x. c ++ x) (flatten-append cs ds) ∙ sym (append_assoc c (flatten cs) (flatten ds))

capture_all-append :
    (b : CapturedBody) (cs ds : List Bytes) (n : ℕ)
    → capture_all b (cs ++ ds) n ≡ capture_all (capture_all b cs n) ds n
unfolding capture_all
capture_all-append b [] ds n = refl
capture_all-append b (c ∷ cs) ds n = capture_all-append (push_capture b c n) cs ds n

-- From `t` to `u` the bytes went to the peer and, in chunks, into the capture.
pub record Moves (max_body_size : ℕ) (t u : Transfer) (bytes : Bytes) : Type 0 where
  pub chunks : List Bytes
  pub spelled : flatten chunks ≡ bytes
  pub captured : u.captured ≡ capture_all t.captured chunks max_body_size
  pub sent : u.writer.sent ≡ t.writer.sent ++ bytes
  pub room : u.writer.room + length bytes ≡ t.writer.room
  pub written : u.written ≡ t.written + length bytes

module _ (n : ℕ) where
  pub Moves-none : (t : Transfer) → Moves n t t []
  unfolding capture_all flatten
  Moves-none t = record {
    chunks = [];
    spelled = refl;
    captured = refl;
    sent = sym (append-nil t.writer.sent);
    room = omega arith;
    written = omega arith;
  }

  pub Moves-trans :
      {t u v : Transfer} {a b : Bytes} → Moves n t u a → Moves n u v b → Moves n t v (a ++ b)
  Moves-trans {t} {u} {v} {a} {b} p q = record {
    chunks = p.chunks ++ q.chunks;
    spelled =
        flatten-append p.chunks q.chunks
        ∙ ap (λ x. x ++ flatten q.chunks) p.spelled
        ∙ ap (λ x. a ++ x) q.spelled;
    captured =
        q.captured
        ∙ ap (λ x. capture_all x q.chunks n) p.captured
        ∙ sym (capture_all-append t.captured p.chunks q.chunks n);
    sent = q.sent ∙ ap (λ x. x ++ b) p.sent ∙ append_assoc t.writer.sent a b;
    room = omega (arith, length-append a b, p.room, q.room);
    written = omega (arith, length-append a b, p.written, q.written);
  }

  module _ (m : Messages) where
    -- A write that the peer has room for, with what is left of the stream.
    pub record Passes (t : Transfer) (rest : Stream) (bytes : Bytes) : Type 0 where
      pub next : Transfer
      pub outcome : pass_on m n (record t { stream = rest }) bytes ≡ ok next
      pub moves : Moves n t next bytes
      pub same : next.stream ≡ rest

    pub pass_on-Passes :
        (t : Transfer) (rest : Stream) (bytes : Bytes)
        → length bytes ≤ t.writer.room
        → Passes t rest bytes
    unfolding pass_on write_all capture_all flatten
    pass_on-Passes t rest bytes h =
        let fits : ltb t.writer.room (length bytes) ≡ false = ground arith in
        record {
          next = record {
            captured = push_capture t.captured bytes n;
            writer = record { sent = t.writer.sent ++ bytes; room = t.writer.room - length bytes };
            written = t.written + length bytes;
            stream = rest;
          };
          outcome = rw fits refl;
          moves = record {
            chunks = bytes ∷ [];
            spelled = append-nil bytes;
            captured = refl;
            sent = refl;
            room = omega arith;
            written = refl;
          };
          same = refl;
        }
