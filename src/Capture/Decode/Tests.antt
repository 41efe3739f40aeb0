-- ===== src/Capture/Decode/Tests.antt =====
-- The decoding of bodies at concrete inputs.
use tlscope_rs.Base.{
  ◌≡◌, refl, true, false, ◌||◌, ◌≤◌, ltb, length, List, [], ◌∷◌, some, arith, ok, err, take, Result,
}
use tlscope_rs.Text.{Text, text}
use tlscope_rs.Text.Utf8.{Bytes}
use tlscope_rs.Capture.Body.{CapturedBody, empty}
use tlscope_rs.Capture.Decode.{DecodeBytes, Inflate, decode_chunked, chunk_size}
use tlscope_rs.Capture.Decode.Ends.{decode_chunked-Ends}
use tlscope_rs.Capture.Decode.Chunks.{Chunk, wire, contents, decode_chunked-wire}
use tlscope_rs.Capture.Decode.Preview.{decode_body_for_preview_with_limit, decode_body_for_preview}
use tlscope_rs.Capture.Decode.Preview.Honest.{decode_body_for_preview_lem}

-- `4;x` and a carriage return, with `Wiki`, then `1` and `!`.
abbrev two_chunks : List Chunk
unfolding text
two_chunks =
    record { line = text "4;x\r"; content = text "Wiki" }
    ∷ record { line = text "1"; content = text "!" }
    ∷ []

abbrev last_line : Bytes
unfolding text
last_line = text "0\r"

decode_chunked_example :
    decode_chunked (wire two_chunks last_line (text "\r\n")) 3
    ≡ some (ok (record { bytes = text "Wik"; truncated = true }))
unfolding decode_chunked two_chunks last_line text wire
decode_chunked_example = refl

decode_chunked-wire_example :
    decode_chunked (wire two_chunks last_line []) 3
    ≡ some (
        ok (record {
          bytes = take 3 (contents two_chunks);
          truncated = ltb 3 (length (contents two_chunks));
        }))
unfolding two_chunks last_line text chunk_size
decode_chunked-wire_example =
    decode_chunked-wire two_chunks last_line [] 3
      (
        (
          (
            (λ e. omega arith),
            ((λ e. omega arith), ((λ e. omega arith), ((λ e. omega arith), tt))),
          ),
          refl,
          omega arith,
        ),
        ((((λ e. omega arith), tt), refl, omega arith), tt),
      )
      ((λ e. omega arith), ((λ e. omega arith), tt)) refl

decode_chunked-Ends_example :
    (r : Result Text DecodeBytes) × (decode_chunked last_line 3 ≡ some r)
    × ((d : DecodeBytes) → r ≡ ok d → length d.bytes ≤ 3)
decode_chunked-Ends_example = decode_chunked-Ends last_line 3

abbrev no_codec : Inflate
unfolding text
no_codec = λ format input n. err (text "corrupt stream")

-- A chunked body whose gzip layer is broken shows the data of its chunks, with a warning.
abbrev sent_body : CapturedBody
unfolding empty text wire
sent_body = record empty {
  bytes = wire two_chunks last_line (text "\r\n");
  transfer_encoding = some (text "gzip, Chunked");
  content_encoding = some (text "identity, gzip");
}

decode_body_for_preview_example : decode_body_for_preview no_codec sent_body ≡ record {
  bytes = text "Wiki!";
  transfer_decoded = true;
  content_decoded = false;
  warnings = text "could not decode gzip body: corrupt stream" ∷ [];
}
unfolding decode_body_for_preview_with_limit sent_body text two_chunks last_line wire empty
decode_body_for_preview_example = refl

decode_body_for_preview_lem_example :
    let p = decode_body_for_preview_with_limit no_codec sent_body 3 in
    ((p.transfer_decoded || p.content_decoded) ≡ true → length p.bytes ≤ 3)
    × ((p.transfer_decoded || p.content_decoded) ≡ false → p.bytes ≡ sent_body.bytes)
decode_body_for_preview_lem_example = decode_body_for_preview_lem no_codec sent_body 3
