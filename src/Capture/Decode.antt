-- ===== src/Capture/Decode.antt =====
-- src/capture/decode.rs: a chunked body, and the layers of content encoding, undone for a preview.
-- The decompressors of flate2 are the argument `inflate`. `&input[pos..]` is the list that is left.
pub mod Ends
pub mod Chunks
pub mod Preview
pub mod Tests
use tlscope_rs.Base.{
  ℕ, zero, suc, ◌+◌, ◌-◌, ◌*◌, min, Bool, true, false, not, ◌&&◌, ◌||◌, List, [], ◌∷◌, ◌++◌, Option,
  none, some, ltb, leb, ◌==◌, if◌then◌else◌, Result, ok, err, ◌>>=◌, ok_or, length, take, drop,
  u64_mod, saturating_add, is_empty, some_of, each,
}
use tlscope_rs.Text.{Text, text, split, split_once, strip_suffix, trim, eq_ignore_ascii_case}
use tlscope_rs.Text.Utf8.{Bytes, from_utf8}
use tlscope_rs.Capture.Body.{CapturedBody}

pub record DecodeBytes : Type 0 where
  pub bytes : Bytes
  pub truncated : Bool

-- `char::to_digit(16)`.
hex_digit : ℕ → Option ℕ
hex_digit c =
    if leb b'0' c && leb c b'9'
    then some (c - b'0')
    else if leb b'a' c && leb c b'f'
    then some (c - b'a' + 10)
    else if leb b'A' c && leb c b'F'
    then some (c - b'A' + 10)
    else none

scan_hex : Text → ℕ → Option ℕ
unfolding hex_digit
scan_hex [] n = some n
scan_hex (c ∷ s) n = elim (hex_digit c) [
  | none ↦ none
  | some d ↦ elim (leb u64_mod (n * 16 + d)) [ true ↦ none | false ↦ scan_hex s (n * 16 + d) ]
]

scan_some_hex : Text → Option ℕ
unfolding scan_hex
scan_some_hex [] = none
scan_some_hex (c ∷ s) = scan_hex (c ∷ s) 0

-- `usize::from_str_radix(s, 16)`: one leading `+` is allowed.
unfoldable pub parse_hex : Text → Option ℕ
unfolding scan_hex scan_some_hex
parse_hex [] = none
parse_hex (c ∷ s) = if c == b'+' then scan_some_hex s else scan_hex (c ∷ s) 0

abbrev first_part : List Text → Text
first_part [] = []
first_part (p ∷ ps) = p

-- A line without the carriage return at its end.
abbrev chomp : Bytes → Bytes
unfolding strip_suffix
chomp line = elim (strip_suffix line (13 ∷ [])) [ none ↦ line | some l ↦ l ]

-- The size that a line announces, its extensions aside.
unfoldable pub chunk_size : Bytes → Result Text ℕ
unfolding text chomp from_utf8 split trim parse_hex
chunk_size line = do
  printed ← ok_or (from_utf8 (chomp line)) (text "chunk size is not valid ASCII")
  let size_text = trim (first_part (split printed b';')) in
      ok_or (parse_hex size_text) (text "invalid chunk size '" ++ size_text ++ text "'")

-- Behind the line ending of a chunk, if it is there.
unfoldable pub skip_crlf : Bytes → Option Bytes
skip_crlf [] = none
skip_crlf (a ∷ []) = if a == 10 then some [] else none
skip_crlf (a ∷ b ∷ s) =
    if a == 13 then if b == 10 then some s else none else if a == 10 then some (b ∷ s) else none

-- What is kept of a chunk.
unfoldable pub keep_chunk : ℕ → DecodeBytes → Bytes → DecodeBytes
keep_chunk limit d chunk =
    let keep = min (limit - length d.bytes) (length chunk) in
    if ltb (length d.bytes) limit
    then record {
      bytes = d.bytes ++ take keep chunk;
      truncated = d.truncated || ltb keep (length chunk);
    }
    else record d { truncated = true }

-- The outcome of one round of the loop.
pub data Round : Type 0 where
  stop : Result Text DecodeBytes → Round
  next : Bytes → DecodeBytes → Round

-- A round once its line is read: the size, and what follows the line.
unfoldable pub read_data : ℕ → DecodeBytes → ℕ → Bytes → Round
unfolding text skip_crlf keep_chunk
read_data limit d zero rest = stop (ok d)
read_data limit d (suc n) rest =
    if ltb (length rest) (suc n)
    then stop (err (text "chunk data is incomplete"))
    else elim (skip_crlf (drop (suc n) rest)) [
      | none ↦ stop (err (text "chunk data is missing trailing CRLF"))
      | some after ↦ next after (keep_chunk limit d (take (suc n) rest))
    ]

unfoldable pub round : ℕ → Bytes → DecodeBytes → Round
unfolding split_once chunk_size read_data text
round limit input d = elim (split_once input 10) [
  | none ↦ stop (err (text "missing chunk size line ending"))
  | some (line, rest) ↦ elim (chunk_size line) [
    | err e ↦ stop (err e)
    | ok size ↦ read_data limit d size rest
  ]
]

-- The loop, on fuel; `none` is a loop that has not ended.
unfoldable pub rounds : ℕ → ℕ → Bytes → DecodeBytes → Option (Result Text DecodeBytes)
unfolding round
rounds zero limit input d = none
rounds (suc fuel) limit input d = elim (round limit input d) [
  | stop r ↦ some r
  | next rest e ↦ rounds fuel limit rest e
]

-- Each round takes a line, so there are no more rounds than bytes.
unfoldable pub decode_chunked : Bytes → ℕ → Option (Result Text DecodeBytes)
unfolding rounds
decode_chunked input limit =
    rounds (length input + 1) limit input (record { bytes = []; truncated = false })

-- Reading at most one byte more than the limit: `inflate format input n` is what a reader of flate2
-- gives for its first `n` bytes.
pub data Format : Type 0 where
  gz zlib deflate : Format

abbrev pub Inflate : Type 0
Inflate = Format → Bytes → ℕ → Result Text Bytes

unfoldable pub has_token : Option Text → Text → Bool
unfolding split trim eq_ignore_ascii_case
has_token none token = some_of (λ part. eq_ignore_ascii_case (trim part) token) (split [] b',')
has_token (some value) token =
    some_of (λ part. eq_ignore_ascii_case (trim part) token) (split value b',')

module _ (inflate : Inflate) where
  unfoldable pub read_limited : Format → Bytes → ℕ → Result Text DecodeBytes
  read_limited format input limit = do
    bytes ← inflate format input (saturating_add limit 1)
    ok (record { bytes = take limit bytes; truncated = ltb limit (length bytes) })

  unfoldable pub decode_content_encoding : Bytes → Text → ℕ → Result Text DecodeBytes
  unfolding read_limited text eq_ignore_ascii_case
  decode_content_encoding input encoding limit =
      if eq_ignore_ascii_case encoding (text "gzip")
        || eq_ignore_ascii_case encoding (text "x-gzip")
      then read_limited gz input limit
      else if eq_ignore_ascii_case encoding (text "deflate")
      then elim (read_limited zlib input limit) [
        | ok d ↦ ok d
        | err e ↦ read_limited deflate input limit
      ]
      else err (text "unsupported content encoding")
