-- ===== src/Capture/Decode/Ends.antt =====
-- The loop of `decode_chunked` ends, and keeps to its limit.
use tlscope_rs.Base.{
  ℕ, zero, suc, ◌+◌, ◌-◌, ◌≤◌, ◌<◌, ◌≡◌, refl, sym, subst, false, [], ◌∷◌, Option, none, some,
  arith, Result, ok, err, ok-injective, length, take, drop, length-append, length-take, length-drop,
  Bool-cases, inl, inr, ltb, min,
}
use tlscope_rs.Text.{Text, split_once}
use tlscope_rs.Text.Laws.{split_once-eq}
use tlscope_rs.Text.Utf8.{Bytes}
use tlscope_rs.Capture.Decode.{
  DecodeBytes, Round, stop, next, skip_crlf, keep_chunk, read_data, chunk_size, round, rounds,
  decode_chunked,
}

skip_crlf-length : (s t : Bytes) → skip_crlf s ≡ some t → length t < length s
unfolding skip_crlf
skip_crlf-length [] t h = absurd (cc)
skip_crlf-length (a ∷ []) t h = ground arith
skip_crlf-length (a ∷ b ∷ s) t h = ground arith

-- A round keeps to the limit, and leaves fewer than `n` bytes to read.
abbrev IsShort : ℕ → ℕ → Round → Type 0
IsShort n limit (stop (err e)) = Unit
IsShort n limit (stop (ok d)) = length d.bytes ≤ limit
IsShort n limit (next rest e) = (length rest < n) × (length e.bytes ≤ limit)

keep_chunk-le :
    (limit : ℕ) (d : DecodeBytes) (chunk : Bytes)
    → length d.bytes ≤ limit
    → length (keep_chunk limit d chunk).bytes ≤ limit
unfolding keep_chunk
keep_chunk-le limit d chunk h =
    let n = min (limit - length d.bytes) (length chunk) in
    ground (arith, length-append d.bytes (take n chunk), length-take n chunk)

crlf-IsShort :
    (limit n : ℕ) (s : Bytes) (o : Option Bytes) (e : DecodeBytes) (m : Text)
    → skip_crlf s ≡ o
    → length s ≤ n
    → length e.bytes ≤ limit
    → IsShort n limit (elim o [ none ↦ stop (err m) | some after ↦ next after e ])
crlf-IsShort limit n s none e m h k l = tt
crlf-IsShort limit n s (some t) e m h k l = (omega (arith, skip_crlf-length s t h), l)

read_data-IsShort :
    (limit : ℕ) (d : DecodeBytes) (size : ℕ) (rest : Bytes)
    → length d.bytes ≤ limit
    → IsShort (length rest) limit (read_data limit d size rest)
unfolding read_data
read_data-IsShort limit d zero rest h = h
read_data-IsShort limit d (suc n) rest h = elim (Bool-cases (ltb (length rest) (suc n))) [
  | inl e ↦ rw e tt
  | inr e ↦ rw e (
      crlf-IsShort limit (length rest) (drop (suc n) rest) (skip_crlf (drop (suc n) rest))
        (keep_chunk limit d (take (suc n) rest)) _ refl (omega (arith, length-drop (suc n) rest))
        (keep_chunk-le limit d (take (suc n) rest) h))
]

sized-IsShort :
    (limit : ℕ) (d : DecodeBytes) (rest : Bytes) (n : ℕ) (r : Result Text ℕ)
    → length d.bytes ≤ limit
    → length rest < n
    → IsShort n limit (elim r [ err e ↦ stop (err e) | ok size ↦ read_data limit d size rest ])
sized-IsShort limit d rest n (err e) h k = tt
sized-IsShort limit d rest n (ok size) h k =
    longer (read_data limit d size rest) (read_data-IsShort limit d size rest h)
  where
    longer : (x : Round) → IsShort (length rest) limit x → IsShort n limit x
    longer (stop (ok e)) p = p
    longer (stop (err e)) p = tt
    longer (next s e) (p, q) = (omega arith, q)

line-IsShort :
    (limit : ℕ) (d : DecodeBytes) (n : ℕ) (o : Option (Bytes × Bytes)) (m : Text)
    → length d.bytes ≤ limit
    → ((line rest : Bytes) → o ≡ some (line, rest) → length rest < n)
    → IsShort n limit (elim o [
      | none ↦ stop (err m)
      | some (line, rest) ↦ elim (chunk_size line) [
        | err e ↦ stop (err e)
        | ok size ↦ read_data limit d size rest
      ]
    ])
line-IsShort limit d n none m h k = tt
line-IsShort limit d n (some (line, rest)) m h k =
    sized-IsShort limit d rest n (chunk_size line) h (k line rest refl)

-- A round leaves less to read, and keeps to the limit.
round-IsShort :
    (limit : ℕ) (input : Bytes) (d : DecodeBytes)
    → length d.bytes ≤ limit
    → IsShort (length input) limit (round limit input d)
unfolding round
round-IsShort limit input d h =
    line-IsShort limit d (length input) (split_once input 10) _ h (λ line rest e.
      let (p, _) = split_once-eq input 10 line rest e in
      subst (λ s. length rest < length s) (sym p) (omega (arith, length-append line (10 ∷ rest))))

-- How a loop ends: it does, and within the limit.
abbrev Ends : ℕ → Option (Result Text DecodeBytes) → Type 0
Ends limit none = ⊥
Ends limit (some (err e)) = Unit
Ends limit (some (ok d)) = length d.bytes ≤ limit

go_on-Ends :
    (fuel n limit : ℕ) (x : Round)
    → IsShort n limit x
    → ((rest : Bytes) (e : DecodeBytes)
        → length rest < n
        → length e.bytes ≤ limit
        → Ends limit (rounds fuel limit rest e))
    → Ends limit (elim x [ stop r ↦ some r | next rest e ↦ rounds fuel limit rest e ])
go_on-Ends fuel n limit (stop (ok e)) p k = p
go_on-Ends fuel n limit (stop (err e)) p k = tt
go_on-Ends fuel n limit (next rest e) (p, q) k = k rest e p q

rounds-Ends :
    (fuel limit : ℕ) (input : Bytes) (d : DecodeBytes)
    → length input < fuel
    → length d.bytes ≤ limit
    → Ends limit (rounds fuel limit input d)
unfolding rounds
rounds-Ends zero limit input d h k = absurd (omega arith)
rounds-Ends (suc fuel) limit input d h k =
    go_on-Ends fuel (length input) limit (round limit input d) (round-IsShort limit input d k)
      (λ rest e p q. rounds-Ends fuel limit rest e (omega arith) q)

-- Whatever the bytes, decoding ends, with an error or with a body of at most `limit` bytes.
pub decode_chunked-Ends :
    (input : Bytes) (limit : ℕ)
    → (r : Result Text DecodeBytes) × (decode_chunked input limit ≡ some r)
      × ((d : DecodeBytes) → r ≡ ok d → length d.bytes ≤ limit)
unfolding decode_chunked
decode_chunked-Ends input limit =
    found (rounds (length input + 1) limit input (record { bytes = []; truncated = false }))
      (rounds-Ends (length input + 1) limit input _ (omega arith) (omega arith))
  where
    found :
        (o : Option (Result Text DecodeBytes))
        → Ends limit o
        → (r : Result Text DecodeBytes) × (o ≡ some r)
          × ((d : DecodeBytes) → r ≡ ok d → length d.bytes ≤ limit)
    found none h = absurd h
    found (some (err e)) h = (err e, refl, λ d k. absurd (cc))
    found (some (ok c)) h =
        (ok c, refl, λ d k. subst (λ e. length e.bytes ≤ limit) (ok-injective (ok c) refl k) h)
