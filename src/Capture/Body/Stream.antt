-- ===== src/Capture/Body/Stream.antt =====
-- Capturing a body chunk by chunk.
use tlscope_rs.Base.{
  take-append_long, take-append_short, take-min, ℕ, ◌-◌, ◌≤◌, ◌<◌, ◌≡◌, sym, ap, ◌∙◌, List, [], ◌∷◌,
  ◌++◌, Option, arith, ltb, length, take, length-append, length-take, take_all, min, u64_mod,
  append_assoc, append-nil,
}
use native.Mathlib.Decide.{dec_lt}
use mathlib.Core.List.{flatten}
use tlscope_rs.Text.{Text}
use tlscope_rs.Text.Utf8.{Bytes}
use tlscope_rs.Capture.Body.{CapturedBody, empty, from_bytes, push_capture}

-- The chunks that came in so far are spelled by `all`.
pub record Captures (max_body_size : ℕ) (all : Bytes) (b : CapturedBody) : Type 0 where
  pub stored : b.bytes ≡ take max_body_size all
  pub size : b.original_size ≡ min (length all) 18446744073709551615
  pub cut : b.truncated ≡ ltb max_body_size (length all)

module _ (n : ℕ) (all chunk : Bytes) (b : CapturedBody) (v : Captures n all b) where
  push_capture-Captures_full : n ≤ length all → Captures n (all ++ chunk) (push_capture b chunk n)
  unfolding push_capture
  push_capture-Captures_full p = ground (
    arith,
    ap length v.stored,
    length-take n all,
    length-append all chunk,
    take-append_long n all chunk p,
  )

  push_capture-Captures_room : length all < n → Captures n (all ++ chunk) (push_capture b chunk n)
  unfolding push_capture
  push_capture-Captures_room p = ground (
    arith,
    ap length v.stored,
    length-take n all,
    take_all n all,
    length-append all chunk,
    take-append_short n all chunk,
    take-min (n - length all) chunk,
  )

  push_capture-Captures : Captures n (all ++ chunk) (push_capture b chunk n)
  push_capture-Captures = elim (dec_lt (length all) n) [
    | yes p ↦ push_capture-Captures_room p
    | no p ↦ push_capture-Captures_full (omega arith)
  ]

-- The chunks of a body come in one by one, as both forwarding loops push them.
unfoldable pub capture_all : CapturedBody → List Bytes → ℕ → CapturedBody
capture_all b [] max_body_size = b
capture_all b (c ∷ cs) max_body_size = capture_all (push_capture b c max_body_size) cs max_body_size

capture_all-Captures :
    (n : ℕ) (all : Bytes) (cs : List Bytes) (b : CapturedBody)
    → Captures n all b
    → Captures n (all ++ flatten cs) (capture_all b cs n)
unfolding capture_all flatten
capture_all-Captures n all [] b v = rw (append-nil all) v
capture_all-Captures n all (c ∷ cs) b v =
    rw (← append_assoc all c (flatten cs)) (
      capture_all-Captures n (all ++ c) cs (push_capture b c n) (push_capture-Captures n all c b v))

-- What the capture does not touch.
record SameLabels (b d : CapturedBody) : Type 0 where
  decoded : d.decoded_size ≡ b.decoded_size
  kind : d.content_type ≡ b.content_type
  encoding : d.content_encoding ≡ b.content_encoding
  transfer : d.transfer_encoding ≡ b.transfer_encoding

push_capture-SameLabels : (n : ℕ) (c : Bytes) (b : CapturedBody) → SameLabels b (push_capture b c n)
unfolding push_capture
push_capture-SameLabels n c b = ground arith

capture_all-SameLabels :
    (n : ℕ) (cs : List Bytes) (b : CapturedBody) → SameLabels b (capture_all b cs n)
unfolding capture_all
capture_all-SameLabels n [] b = ground arith
capture_all-SameLabels n (c ∷ cs) b =
    let one : SameLabels b (push_capture b c n) = push_capture-SameLabels n c b in
    let rest : SameLabels (push_capture b c n) (capture_all (push_capture b c n) cs n) =
      capture_all-SameLabels n cs (push_capture b c n) in
    ground arith

body_path :
    (b d : CapturedBody)
    → b.bytes ≡ d.bytes
    → b.original_size ≡ d.original_size
    → b.truncated ≡ d.truncated
    → SameLabels d b
    → b ≡ d
body_path b d p q r s = ground arith

min_flip : (a b : ℕ) → min a b ≡ min b a
min_flip a b = omega arith

ltb-min : (n k : ℕ) → ltb n k ≡ ltb (min k n) k
ltb-min n k = ground arith

-- A body captured chunk by chunk is the body captured at once: the first `max_body_size` bytes of
-- the chunks joined, their total size, and the truncation mark exactly if bytes are missing. The
-- total is to fit in a `u64`.
pub capture_all-from_bytes :
    (max_body_size : ℕ) (chunks : List Bytes) (kind encoding transfer : Option Text)
    → length (flatten chunks) < u64_mod
    → capture_all
        (record empty {
          content_type = kind;
          content_encoding = encoding;
          transfer_encoding = transfer;
        })
        chunks
        max_body_size
      ≡ record (from_bytes (flatten chunks) max_body_size kind encoding) {
        transfer_encoding = transfer;
      }
unfolding from_bytes empty
capture_all-from_bytes n cs kind encoding transfer fits =
    let start : CapturedBody = record empty {
      content_type = kind;
      content_encoding = encoding;
      transfer_encoding = transfer;
    } in
    let v : Captures n (flatten cs) (capture_all start cs n) =
      capture_all-Captures n [] cs start (record {
        stored = sym (take_all n [] (omega arith));
        size = omega arith;
        cut = ground arith;
      }) in
    let l : SameLabels start (capture_all start cs n) = capture_all-SameLabels n cs start in
    body_path _ _
      (v.stored
        ∙ sym (take-min n (flatten cs))
        ∙ ap (λ k. take k (flatten cs)) (min_flip n (length (flatten cs))))
      (v.size ∙ omega arith) (v.cut ∙ ltb-min n (length (flatten cs)))
      (record { decoded = l.decoded; kind = l.kind; encoding = l.encoding; transfer = l.transfer })
