-- ===== src/Capture/Decode/Chunks.antt =====
-- A body written in chunks is decoded to its data.
use mathlib.Core.List.{flatten}
use native.Mathlib.Decide.{dec_lt}
use tlscope_rs.Base.{
  ℕ, zero, suc, ◌+◌, ◌-◌, ◌≤◌, ◌<◌, ◌≡◌, refl, sym, ap, Bool, false, List, [], ◌∷◌, ◌++◌, some,
  arith, ok, length, take, drop, length-append, length-take, take-length, drop-length, append_assoc,
  append-nil, take_all, take-append_long, take-append_short, take-min, ltb, each, All,
}
use tlscope_rs.Text.{split_once}
use tlscope_rs.Text.Laws.{Lacks, split_once-append}
use tlscope_rs.Text.Utf8.{Bytes}
use tlscope_rs.Capture.Decode.{
  DecodeBytes, stop, next, skip_crlf, keep_chunk, read_data, chunk_size, round, rounds,
  decode_chunked,
}

-- A chunk as it is sent: the line of its size, with any extensions, and its data.
pub record Chunk : Type 0 where
  pub line : Bytes
  pub content : Bytes

-- The line announces the size of the data, which is not empty.
abbrev pub IsChunk : Chunk → Type 0
IsChunk c = Lacks 10 c.line × (chunk_size c.line ≡ ok (length c.content)) × (1 ≤ length c.content)

-- The chunks, the line that ends them, and what comes after.
unfoldable pub wire : List Chunk → Bytes → Bytes → Bytes
wire [] last trailer = last ++ 10 ∷ trailer
wire (c ∷ cs) last trailer = c.line ++ 10 ∷ (c.content ++ 13 ∷ 10 ∷ wire cs last trailer)

abbrev pub contents : List Chunk → Bytes
unfolding flatten
contents cs = flatten (each (λ c. c.content) cs)

-- What of `all` has been decoded.
abbrev Holds : ℕ → Bytes → DecodeBytes → Type 0
Holds limit all d = (d.bytes ≡ take limit all) × (d.truncated ≡ ltb limit (length all))

module _ (limit : ℕ) (all chunk : Bytes) (d : DecodeBytes) (h : Holds limit all d) where
  keep_chunk-Holds_full :
      limit ≤ length all → 1 ≤ length chunk → Holds limit (all ++ chunk) (keep_chunk limit d chunk)
  unfolding keep_chunk
  keep_chunk-Holds_full p k = ground (
    arith,
    ap length h.0,
    length-take limit all,
    length-append all chunk,
    take-append_long limit all chunk p,
  )

  keep_chunk-Holds_room : length all < limit → Holds limit (all ++ chunk) (keep_chunk limit d chunk)
  unfolding keep_chunk
  keep_chunk-Holds_room p = ground (
    arith,
    ap length h.0,
    length-take limit all,
    take_all limit all,
    length-append all chunk,
    take-append_short limit all chunk,
    take-min (limit - length all) chunk,
  )

  keep_chunk-Holds : 1 ≤ length chunk → Holds limit (all ++ chunk) (keep_chunk limit d chunk)
  keep_chunk-Holds k = elim (dec_lt (length all) limit) [
    | yes p ↦ keep_chunk-Holds_room p
    | no p ↦ keep_chunk-Holds_full (omega arith) k
  ]

-- The data of a chunk and its line ending are read.
read_data-chunk :
    (limit n : ℕ) (content rest : Bytes) (d : DecodeBytes)
    → n ≡ length content
    → 1 ≤ n
    → read_data limit d n (content ++ 13 ∷ 10 ∷ rest) ≡ next rest (keep_chunk limit d content)
unfolding read_data skip_crlf
read_data-chunk limit zero content rest d h k = absurd (omega arith)
read_data-chunk limit (suc n) content rest d h k =
    let room : ltb (length (content ++ 13 ∷ 10 ∷ rest)) (suc n) ≡ false =
      ground (arith, length-append content (13 ∷ 10 ∷ rest)) in
    let after : drop (suc n) (content ++ 13 ∷ 10 ∷ rest) ≡ 13 ∷ 10 ∷ rest =
      rw h (drop-length content (13 ∷ 10 ∷ rest)) in
    let kept : take (suc n) (content ++ 13 ∷ 10 ∷ rest) ≡ content =
      rw h (take-length content (13 ∷ 10 ∷ rest)) in
    rw (room, after, kept) refl

round-chunk :
    (limit : ℕ) (c : Chunk) (rest : Bytes) (d : DecodeBytes)
    → IsChunk c
    → round limit (c.line ++ 10 ∷ (c.content ++ 13 ∷ 10 ∷ rest)) d
      ≡ next rest (keep_chunk limit d c.content)
unfolding round read_data skip_crlf
round-chunk limit c rest d (l, s, n) =
    let cut : split_once (c.line ++ 10 ∷ (c.content ++ 13 ∷ 10 ∷ rest)) 10
        ≡ some (c.line, c.content ++ 13 ∷ 10 ∷ rest) =
      split_once-append c.line (c.content ++ 13 ∷ 10 ∷ rest) 10 l in
    rw (round, cut, s) (read_data-chunk limit (length c.content) c.content rest d refl n)

-- The last chunk ends the loop.
round-last :
    (limit : ℕ) (last trailer : Bytes) (d : DecodeBytes)
    → Lacks 10 last
    → chunk_size last ≡ ok 0
    → round limit (last ++ 10 ∷ trailer) d ≡ stop (ok d)
unfolding round read_data
round-last limit last trailer d l z = rw (round, split_once-append last trailer 10 l, z) refl

DecodeBytes-eq :
    (d : DecodeBytes) (bytes : Bytes) (truncated : Bool)
    → d.bytes ≡ bytes
    → d.truncated ≡ truncated
    → d ≡ record { bytes = bytes; truncated = truncated }
DecodeBytes-eq d bytes truncated p q = rw (sym p, sym q) refl

rounds-wire :
    (fuel limit : ℕ) (cs : List Chunk) (last trailer all : Bytes) (d : DecodeBytes)
    → All IsChunk cs
    → Lacks 10 last
    → chunk_size last ≡ ok 0
    → Holds limit all d
    → length cs < fuel
    → rounds fuel limit (wire cs last trailer) d
      ≡ some (
          ok (record {
            bytes = take limit (all ++ contents cs);
            truncated = ltb limit (length (all ++ contents cs));
          }))
unfolding rounds wire flatten
rounds-wire zero limit cs last trailer all d a l z h k = absurd (omega arith)
rounds-wire (suc fuel) limit [] last trailer all d a l z (p, q) k =
    let e : d
        ≡ record { bytes = take limit (all ++ []); truncated = ltb limit (length (all ++ [])) } =
      rw (append-nil all) (DecodeBytes-eq d (take limit all) (ltb limit (length all)) p q) in
    rw (rounds, round-last limit last trailer d l z) (ap (λ x. some (ok x)) e)
rounds-wire (suc fuel) limit (c ∷ cs) last trailer all d (w, a) l z h k =
    rw
      (
        rounds,
        round-chunk limit c (wire cs last trailer) d w,
        sym (append_assoc all c.content (contents cs)),
      )
      (rounds-wire fuel limit cs last trailer (all ++ c.content) (keep_chunk limit d c.content) a l
        z (keep_chunk-Holds limit all c.content d h w.2) (omega arith))

wire-length : (cs : List Chunk) (last trailer : Bytes) → length cs < length (wire cs last trailer)
unfolding wire
wire-length [] last trailer = omega (arith, length-append last (10 ∷ trailer))
wire-length (c ∷ cs) last trailer =
    let rest = 13 ∷ 10 ∷ wire cs last trailer in
    omega (
      arith,
      wire-length cs last trailer,
      length-append c.line (10 ∷ (c.content ++ rest)),
      length-append c.content rest,
    )

-- Chunks whose lines announce the sizes of their data, and a last line that announces none, are
-- decoded to the first `limit` bytes of the data, marked as truncated exactly if there is more.
pub decode_chunked-wire :
    (cs : List Chunk) (last trailer : Bytes) (limit : ℕ)
    → All IsChunk cs
    → Lacks 10 last
    → chunk_size last ≡ ok 0
    → decode_chunked (wire cs last trailer) limit
      ≡ some (
          ok (record {
            bytes = take limit (contents cs);
            truncated = ltb limit (length (contents cs));
          }))
unfolding decode_chunked
decode_chunked-wire cs last trailer limit a l z =
    rounds-wire (length (wire cs last trailer) + 1) limit cs last trailer []
      (record { bytes = []; truncated = false }) a l z
      (sym (take_all limit [] (omega arith)), ground arith)
      (omega (arith, wire-length cs last trailer))
