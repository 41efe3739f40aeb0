-- ===== src/Capture/Decode/Preview.antt =====
-- `decode_body_for_preview` of src/capture/decode.rs: the chunked layer, then the content encodings.
pub mod Honest
use tlscope_rs.Base.{
  ℕ, ◌*◌, ◌≤◌, ◌≡◌, refl, ◌∙◌, sym, subst, Bool, true, false, ◌||◌, List, [], ◌∷◌, ◌++◌, Option,
  none, some, arith, Result, ok, err, if◌then◌else◌, is_empty, each, length, take, length-take,
  Bool-cases, inl, inr, if_both, if_under, ◌>>=◌, ltb, saturating_add,
}
use tlscope_rs.Text.{Text, text, split, trim, eq_ignore_ascii_case}
use tlscope_rs.Text.Utf8.{Bytes}
use tlscope_rs.Capture.Body.{CapturedBody}
use tlscope_rs.Capture.Decode.{
  DecodeBytes, Inflate, Format, gz, zlib, deflate, has_token, decode_chunked, read_limited,
  decode_content_encoding,
}
use tlscope_rs.Capture.Decode.Ends.{decode_chunked-Ends}

pub record DecodedPreview : Type 0 where
  pub bytes : Bytes
  pub transfer_decoded : Bool
  pub content_decoded : Bool
  pub warnings : List Text

abbrev pub warn : DecodedPreview → Text → DecodedPreview
warn p message = record p { warnings = p.warnings ++ message ∷ [] }

-- A layer undone, with a warning if the limit cut it.
abbrev pub with_layer : DecodedPreview → DecodeBytes → Text → DecodedPreview
with_layer p d message =
    if d.truncated
    then warn (record p { bytes = d.bytes }) message
    else record p { bytes = d.bytes }

-- The outcome of the chunked layer; a loop without an outcome leaves the body.
unfoldable pub with_chunks : DecodedPreview → Option (Result Text DecodeBytes) → DecodedPreview
unfolding text
with_chunks p none = p
with_chunks p (some (err error)) = warn p (text "could not decode chunked body: " ++ error)
with_chunks p (some (ok d)) =
    with_layer (record p { transfer_decoded = true }) d
      (text "decoded chunked body was truncated for preview")

unfoldable pub decode_transfer : CapturedBody → ℕ → DecodedPreview
unfolding with_chunks has_token decode_chunked text
decode_transfer body max_decoded_size =
    let p : DecodedPreview = record {
      bytes = body.bytes;
      transfer_decoded = false;
      content_decoded = false;
      warnings = [];
    } in
    if has_token body.transfer_encoding (text "chunked")
    then with_chunks p (decode_chunked body.bytes max_decoded_size)
    else p

-- `rev()`.
abbrev pub reversed : List Text → List Text → List Text
reversed out [] = out
reversed out (x ∷ xs) = reversed (x ∷ out) xs

module _ (inflate : Inflate) where
  -- The loop over the encodings, the last applied first.
  unfoldable pub decode_content : DecodedPreview → List Text → ℕ → DecodedPreview
  unfolding decode_content_encoding text eq_ignore_ascii_case
  decode_content p [] limit = p
  decode_content p (encoding ∷ rest) limit =
      elim (is_empty encoding || eq_ignore_ascii_case encoding (text "identity")) [
        | true ↦ decode_content p rest limit
        | false ↦ elim (decode_content_encoding inflate p.bytes encoding limit) [
          | err error ↦ warn p (text "could not decode " ++ encoding ++ text " body: " ++ error)
          | ok d ↦
              decode_content
                (with_layer (record p { content_decoded = true }) d
                  (text "decoded " ++ encoding ++ text " body was truncated for preview"))
                rest limit
        ]
      ]

  unfoldable pub decode_body_for_preview_with_limit : CapturedBody → ℕ → DecodedPreview
  unfolding decode_transfer decode_content
  decode_body_for_preview_with_limit body max_decoded_size = elim body.content_encoding [
    | none ↦ decode_transfer body max_decoded_size
    | some encodings ↦
        decode_content (decode_transfer body max_decoded_size)
          (reversed [] (each trim (split encodings b','))) max_decoded_size
  ]

  -- The limit of the program is 2 MB.
  abbrev pub decode_body_for_preview : CapturedBody → DecodedPreview
  decode_body_for_preview body = decode_body_for_preview_with_limit body (2 * 1024 * 1024)
