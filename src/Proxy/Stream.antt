-- ===== src/Proxy/Stream.antt =====
-- The two ends of a connection, as tokio shows them to src/proxy/http.rs: reads give what has arrived,
-- and writes succeed until the peer is gone.
use tlscope_rs.Base.{
  ℕ, ◌-◌, ◌≤◌, ◌≡◌, refl, sym, ap, ◌∙◌, List, [], ◌∷◌, ◌++◌, arith, Result, ok, err, ltb, leb,
  if◌then◌else◌, length, take, drop, append_assoc, take-append-drop, length-take, length-append,
  Bool-cases, inl, inr,
}
use tlscope_rs.Text.{Text}
use tlscope_rs.Text.Utf8.{Bytes}

-- What arrives: some bytes, or the failure of the connection.
pub data Arrival : Type 0 where
  chunk : Bytes → Arrival
  failure : Text → Arrival

abbrev pub Stream : Type 0
Stream = List Arrival

-- A read into a buffer of `size` bytes; no bytes are the end of the stream.
unfoldable pub read : ℕ → Stream → Result Text (Bytes × Stream)
read size [] = ok ([], [])
read size (failure e ∷ s) = err e
read size (chunk b ∷ s) =
    if leb (length b) size then ok (b, s) else ok (take size b, chunk (drop size b) ∷ s)

-- The bytes that the peer has been sent, and how many more it takes before it is gone.
pub record Writer : Type 0 where
  pub sent : Bytes
  pub room : ℕ

unfoldable pub write_all : Writer → Bytes → Result Text Writer
write_all w b =
    if ltb w.room (length b)
    then err []
    else ok (record { sent = w.sent ++ b; room = w.room - length b })

-- Nothing fails, and the stream ends only where its bytes do.
abbrev pub IsIntact : Stream → Type 0
IsIntact [] = Unit
IsIntact (failure e ∷ s) = ⊥
IsIntact (chunk b ∷ s) = (1 ≤ length b) × IsIntact s

abbrev pub arrivals : Stream → Bytes
arrivals [] = []
arrivals (failure e ∷ s) = arrivals s
arrivals (chunk b ∷ s) = b ++ arrivals s

-- A read of a stream that still has bytes gives some of them, in order.
pub record Reads (size : ℕ) (s : Stream) : Type 0 where
  pub got : Bytes
  pub rest : Stream
  pub outcome : read size s ≡ ok (got, rest)
  pub some_bytes : 1 ≤ length got
  pub few_bytes : length got ≤ size
  pub in_order : got ++ arrivals rest ≡ arrivals s
  pub intact : IsIntact rest

pub read-Reads :
    (size : ℕ) (s : Stream) → IsIntact s → 1 ≤ size → 1 ≤ length (arrivals s) → Reads size s
unfolding read
read-Reads size [] i h k = absurd (omega arith)
read-Reads size (failure e ∷ s) i h k = absurd i
read-Reads size (chunk b ∷ s) i h k = elim (Bool-cases (leb (length b) size)) [
  | inl e ↦ record {
    got = b;
    rest = s;
    outcome = rw e;
    some_bytes = i.0;
    few_bytes = ground arith;
    in_order = refl;
    intact = i.1;
  }
  | inr e ↦ record {
    got = take size b;
    rest = chunk (drop size b) ∷ s;
    outcome = rw e;
    some_bytes = ground (arith, length-take size b);
    few_bytes = ground (arith, length-take size b);
    in_order =
        sym (append_assoc (take size b) (drop size b) (arrivals s))
        ∙ ap (λ x. x ++ arrivals s) (take-append-drop size b);
    intact = (
      ground (
        arith,
        length-take size b,
        length-append (take size b) (drop size b),
        ap length (take-append-drop size b),
      ),
      i.1,
    );
  }
]

pub read-ended :
    (size : ℕ) (s : Stream) → IsIntact s → length (arrivals s) ≡ 0 → read size s ≡ ok ([], [])
unfolding read
read-ended size [] i e = refl
read-ended size (failure m ∷ s) i e = absurd i
read-ended size (chunk b ∷ s) i e = absurd (omega (arith, length-append b (arrivals s)))
