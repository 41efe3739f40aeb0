-- ===== src/Capture/Decode/Preview/Honest.antt =====
-- What a preview shows of a captured body.
use tlscope_rs.Base.{
  ℕ, ◌≤◌, ◌≡◌, refl, Bool, true, false, ◌||◌, List, [], ◌∷◌, Option, none, some, arith, Result, ok,
  err, is_empty, each, length, take, length-take, if_both, option_both, ◌>>=◌, ltb, saturating_add,
}
use tlscope_rs.Text.{Text, text, split, trim, eq_ignore_ascii_case}
use tlscope_rs.Text.Utf8.{Bytes}
use tlscope_rs.Capture.Body.{CapturedBody}
use tlscope_rs.Capture.Decode.{
  DecodeBytes, Inflate, Format, gz, zlib, deflate, has_token, decode_chunked, read_limited,
  decode_content_encoding,
}
use tlscope_rs.Capture.Decode.Ends.{decode_chunked-Ends}
use tlscope_rs.Capture.Decode.Preview.{
  DecodedPreview, warn, with_layer, with_chunks, decode_transfer, decode_content,
  decode_body_for_preview_with_limit, reversed,
}

-- Bytes that were decoded keep to the limit, and bytes that were not are the captured ones.
unfoldable Honest : CapturedBody → ℕ → DecodedPreview → Type 0
Honest body limit p =
    ((p.transfer_decoded || p.content_decoded) ≡ true → length p.bytes ≤ limit)
    × ((p.transfer_decoded || p.content_decoded) ≡ false → p.bytes ≡ body.bytes)

some-injective : {A : Type 0} (o : Option A) {a b : A} → o ≡ some a → o ≡ some b → a ≡ b
some-injective o e f = cc

with_chunks-Honest :
    (body : CapturedBody) (limit : ℕ) (p : DecodedPreview) (o : Option (Result Text DecodeBytes))
    → Honest body limit p
    → ((d : DecodeBytes) → o ≡ some (ok d) → length d.bytes ≤ limit)
    → Honest body limit (with_chunks p o)
unfolding Honest with_chunks
with_chunks-Honest body limit p none h k = h
with_chunks-Honest body limit p (some (err e)) h k = h
with_chunks-Honest body limit p (some (ok d)) h k =
    let low : length d.bytes ≤ limit = k d refl in ground arith

start-Honest :
    (body : CapturedBody) (limit : ℕ)
    → Honest body limit (record {
      bytes = body.bytes;
      transfer_decoded = false;
      content_decoded = false;
      warnings = [];
    })
unfolding Honest
start-Honest body limit = (λ e. absurd (cc), λ e. refl)

decode_chunked-le :
    (input : Bytes) (limit : ℕ) (d : DecodeBytes)
    → decode_chunked input limit ≡ some (ok d)
    → length d.bytes ≤ limit
decode_chunked-le input limit d h =
    let (r, e, b) = decode_chunked-Ends input limit in
    b d (some-injective (decode_chunked input limit) e h)

decode_transfer-Honest :
    (body : CapturedBody) (limit : ℕ) → Honest body limit (decode_transfer body limit)
unfolding decode_transfer text
decode_transfer-Honest body limit =
    let start : DecodedPreview = record {
      bytes = body.bytes;
      transfer_decoded = false;
      content_decoded = false;
      warnings = [];
    } in
    let plain : Honest body limit start = start-Honest body limit in
    if_both (Honest body limit) (has_token body.transfer_encoding (text "chunked"))
      (with_chunks-Honest body limit start (decode_chunked body.bytes limit) plain
        (decode_chunked-le body.bytes limit))
      plain

-- A result within the limit.
unfoldable IsWithin : ℕ → Result Text DecodeBytes → Type 0
IsWithin limit (err e) = Unit
IsWithin limit (ok d) = length d.bytes ≤ limit

read_limited-IsWithin :
    (inflate : Inflate) (format : Format) (input : Bytes) (limit : ℕ)
    → IsWithin limit (read_limited inflate format input limit)
unfolding read_limited IsWithin
read_limited-IsWithin inflate format input limit =
    go (inflate format input (saturating_add limit 1))
  where
    go :
        (r : Result Text Bytes)
        → IsWithin limit (do
          bytes ← r
          ok (record { bytes = take limit bytes; truncated = ltb limit (length bytes) }))
    go (err e) = tt
    go (ok bytes) = omega (arith, length-take limit bytes)

or_else-IsWithin :
    (limit : ℕ) (r s : Result Text DecodeBytes)
    → IsWithin limit r
    → IsWithin limit s
    → IsWithin limit (elim r [ ok d ↦ ok d | err e ↦ s ])
or_else-IsWithin limit (ok d) s h k = h
or_else-IsWithin limit (err e) s h k = k

unsupported : (limit : ℕ) → IsWithin limit (err (text "unsupported content encoding"))
unfolding IsWithin
unsupported limit = tt

decode_content_encoding-IsWithin :
    (inflate : Inflate) (input : Bytes) (encoding : Text) (limit : ℕ)
    → IsWithin limit (decode_content_encoding inflate input encoding limit)
unfolding decode_content_encoding text
decode_content_encoding-IsWithin inflate input encoding limit =
    if_both (IsWithin limit)
      (eq_ignore_ascii_case encoding (text "gzip") || eq_ignore_ascii_case encoding (text "x-gzip"))
      (read_limited-IsWithin inflate gz input limit)
      (if_both (IsWithin limit) (eq_ignore_ascii_case encoding (text "deflate"))
        (or_else-IsWithin limit (read_limited inflate zlib input limit)
          (read_limited inflate deflate input limit)
          (read_limited-IsWithin inflate zlib input limit)
          (read_limited-IsWithin inflate deflate input limit))
        (unsupported limit))

-- One encoding: skipped, failed or undone.
encoding-Honest :
    (body : CapturedBody) (limit : ℕ) (b : Bool) (r : Result Text DecodeBytes)
    (p q : DecodedPreview) (message : Text → Text) (f : DecodeBytes → DecodedPreview)
    → IsWithin limit r
    → Honest body limit p
    → Honest body limit q
    → ((d : DecodeBytes) → length d.bytes ≤ limit → Honest body limit (f d))
    → Honest body limit
        (elim b [ true ↦ q | false ↦ elim r [ err e ↦ warn p (message e) | ok d ↦ f d ] ])
unfolding Honest IsWithin
encoding-Honest body limit true r p q message f w hp hq k = hq
encoding-Honest body limit false (err e) p q message f w hp hq k = hp
encoding-Honest body limit false (ok d) p q message f w hp hq k = k d w

layer-Honest :
    (body : CapturedBody) (limit : ℕ) (p : DecodedPreview) (d : DecodeBytes) (message : Text)
    → length d.bytes ≤ limit
    → Honest body limit (with_layer (record p { content_decoded = true }) d message)
unfolding Honest
layer-Honest body limit p d message h = ground arith

decode_content-Honest :
    (inflate : Inflate) (body : CapturedBody) (limit : ℕ) (p : DecodedPreview) (es : List Text)
    → Honest body limit p
    → Honest body limit (decode_content inflate p es limit)
unfolding decode_content text
decode_content-Honest inflate body limit p [] h = h
decode_content-Honest inflate body limit p (encoding ∷ rest) h =
    encoding-Honest body limit
      (is_empty encoding || eq_ignore_ascii_case encoding (text "identity"))
      (decode_content_encoding inflate p.bytes encoding limit) p _ _ _
      (decode_content_encoding-IsWithin inflate p.bytes encoding limit) h
      (decode_content-Honest inflate body limit p rest h)
      (λ d low. decode_content-Honest inflate body limit _ rest (layer-Honest body limit p d _ low))

preview-Honest :
    (inflate : Inflate) (body : CapturedBody) (limit : ℕ)
    → Honest body limit (decode_body_for_preview_with_limit inflate body limit)
unfolding decode_body_for_preview_with_limit
preview-Honest inflate body limit =
    option_both (Honest body limit) body.content_encoding (decode_transfer-Honest body limit) (λ es.
      decode_content-Honest inflate body limit (decode_transfer body limit)
        (reversed [] (each trim (split es b','))) (decode_transfer-Honest body limit))

-- What the preview shows of a body with a layer undone is at most `max_decoded_size` bytes, and of any
-- other body it is the captured bytes.
pub decode_body_for_preview_lem :
    (inflate : Inflate) (body : CapturedBody) (max_decoded_size : ℕ)
    → let p = decode_body_for_preview_with_limit inflate body max_decoded_size in
      ((p.transfer_decoded || p.content_decoded) ≡ true → length p.bytes ≤ max_decoded_size)
      × ((p.transfer_decoded || p.content_decoded) ≡ false → p.bytes ≡ body.bytes)
unfolding Honest
decode_body_for_preview_lem inflate body limit = preview-Honest inflate body limit
