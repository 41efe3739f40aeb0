-- ===== src/Proxy/Http.antt =====
-- src/proxy/http.rs: reading the head of a message from a connection, and the forwarding of bodies.
pub mod Head
pub mod Forward
use tlscope_rs.Base.{
  ℕ, zero, suc, ◌+◌, ◌-◌, Bool, true, false, ◌&&◌, List, [], ◌∷◌, ◌++◌, Option, none, some, Result,
  ok, err, ok_or, ltb, leb, ◌==◌, if◌then◌else◌, ◌>>=◌, length, take, drop, is_empty, some_of, find,
  each, min, u64_mod,
}
use tlscope_rs.Text.{Text, text, split, trim, eq_ignore_ascii_case, starts_with, byte_len}
use tlscope_rs.Text.Number.{parse_uint, show_uint}
use tlscope_rs.Text.Utf8.{Bytes, from_utf8_lossy, as_bytes}
use tlscope_rs.Capture.Body.{CapturedBody, empty, push_capture}
use tlscope_rs.Capture.Entry.{Headers}
use tlscope_rs.Proxy.Stream.{Stream, read, arrivals, Writer, write_all}
use tlscope_rs.Proxy.Message.{context}

abbrev pub header_limit : ℕ
header_limit = 65536

abbrev pub blank_line : Bytes
blank_line = 13 ∷ 10 ∷ 13 ∷ 10 ∷ []

abbrev plus_one : Option ℕ → Option ℕ
plus_one none = none
plus_one (some n) = some (suc n)

-- `windows(4).position(..)`, and four more.
unfoldable pub find_header_end : Bytes → Option ℕ
find_header_end [] = none
find_header_end (c ∷ s) =
    let rest = find_header_end s in if starts_with (c ∷ s) blank_line then some 4 else plus_one rest

-- The head of a message and what was read behind it, or nothing from a stream that has ended.
abbrev pub HeadResult : Type 0
HeadResult = Result Text (Option (Bytes × Bytes) × Stream)

-- One round of the loop, given what the read gave: an outcome, or the buffer to go on with.
pub data HeadStep : Type 0 where
  done : HeadResult → HeadStep
  go_on : Bytes → Stream → HeadStep

unfoldable pub head_step : Bytes → Result Text (Bytes × Stream) → HeadStep
unfolding text find_header_end
head_step buffer (err e) = done (err (text "failed to read HTTP header"))
head_step buffer (ok (got, rest)) =
    let grown = buffer ++ got in
    if is_empty got
    then done (
        if is_empty buffer
        then ok (none, rest)
        else err (text "connection closed before complete HTTP header"))
    else if ltb header_limit (length grown)
    then done (err (text "HTTP header is too large"))
    else elim (find_header_end grown) [
      | none ↦ go_on grown rest
      | some end ↦ done (ok (some (take end grown, drop end grown), rest))
    ]

-- The loop, on fuel; `none` is a loop that has not ended.
unfoldable pub head_loop : ℕ → Bytes → Stream → Option HeadResult
unfolding head_step read
head_loop zero buffer s = none
head_loop (suc fuel) buffer s = elim (head_step buffer (read 8192 s)) [
  | done r ↦ some r
  | go_on grown rest ↦ head_loop fuel grown rest
]

-- Each round adds a byte, and none goes on past the limit.
unfoldable pub read_header_block : Stream → Option HeadResult
unfolding head_loop
read_header_block s = head_loop (header_limit + 1) [] s

-- What a forwarding loop keeps: the capture, the peer, the bytes written and what is left to read.
pub record Transfer : Type 0 where
  pub captured : CapturedBody
  pub writer : Writer
  pub written : ℕ
  pub stream : Stream

-- The texts of the errors, which differ between requests and responses.
pub record Messages : Type 0 where
  pub forward : Text
  pub read_failed : Text
  pub closed : Text

abbrev pub request_messages : Messages
unfolding text
request_messages = record {
  forward = text "failed to forward request body";
  read_failed = text "failed to read request body";
  closed = text "connection closed before full request body was sent";
}

abbrev pub response_messages : Messages
unfolding text
response_messages = record {
  forward = text "failed to forward response body";
  read_failed = text "failed to read response body";
  closed = text "upstream closed before full response body was sent";
}

module _ (m : Messages) (max_body_size : ℕ) where
  -- Bytes go to the peer and into the capture.
  unfoldable pub pass_on : Transfer → Bytes → Result Text Transfer
  unfolding write_all push_capture
  pass_on t bytes = do
    writer ← context (write_all t.writer bytes) m.forward
    ok (record {
      captured = push_capture t.captured bytes max_body_size;
      writer = writer;
      written = t.written + length bytes;
      stream = t.stream;
    })

  unfoldable pub pass_initial : Transfer → Bytes → Result Text Transfer
  unfolding pass_on
  pass_initial t initial = if ltb 0 (length initial) then pass_on t initial else ok t

  -- `while remaining > 0`: each round reads at least a byte, so as many rounds as bytes are enough.
  unfoldable pub forward_exactly : ℕ → ℕ → Transfer → Result Text Transfer
  unfolding pass_on read
  forward_exactly fuel zero t = ok t
  forward_exactly zero (suc remaining) t = err []
  forward_exactly (suc fuel) (suc remaining) t = elim (read (min 16384 (suc remaining)) t.stream) [
    | err e ↦ err m.read_failed
    | ok (got, rest) ↦ elim (is_empty got) [
      | true ↦ err m.closed
      | false ↦ elim (pass_on (record t { stream = rest }) got) [
        | err e ↦ err e
        | ok next ↦ forward_exactly fuel (suc remaining - length got) next
      ]
    ]
  ]

  -- `loop`, up to the end of the stream; `none` is a loop that has not ended.
  unfoldable pub forward_to_end : ℕ → Transfer → Option (Result Text Transfer)
  unfolding pass_on read
  forward_to_end zero t = none
  forward_to_end (suc fuel) t = elim (read 16384 t.stream) [
    | err e ↦ some (err m.read_failed)
    | ok (got, rest) ↦ elim (is_empty got) [
      | true ↦ some (ok (record t { stream = rest }))
      | false ↦ elim (pass_on (record t { stream = rest }) got) [
        | err e ↦ some (err e)
        | ok next ↦ forward_to_end fuel next
      ]
    ]
  ]

  -- A body whose length is known: its first bytes were read with the head.
  unfoldable pub forward_length : Transfer → Bytes → ℕ → Result Text Transfer
  unfolding pass_initial forward_exactly
  forward_length t initial content_length = do
    let initial_len = min (length initial) content_length
    started ← pass_initial t (take initial_len initial)
    forward_exactly (content_length - started.written) (content_length - started.written) started

unfoldable pub start_capture : Option Text → Option Text → Option Text → CapturedBody
unfolding empty
start_capture kind encoding transfer = record empty {
  content_type = kind;
  content_encoding = encoding;
  transfer_encoding = transfer;
}

abbrev pub start_transfer : CapturedBody → Stream → Writer → Transfer
start_transfer captured reader writer = record {
  captured = captured;
  writer = writer;
  written = 0;
  stream = reader;
}

unfoldable pub forward_known_body :
    Stream → Writer → Bytes → ℕ → ℕ → Option Text → Option Text → Option Text → Result Text Transfer
unfolding forward_length start_capture
forward_known_body reader writer initial content_length max_body_size kind encoding transfer =
    forward_length request_messages max_body_size
      (start_transfer (start_capture kind encoding transfer) reader writer) initial content_length

-- Without a length the body ends with the stream; each read but the last takes one of its bytes.
unfoldable pub forward_response_body :
    Stream
    → Writer
    → Bytes
    → Option ℕ
    → ℕ
    → Option Text
    → Option Text
    → Option Text
    → Option (Result Text Transfer)
unfolding forward_length forward_to_end pass_initial start_capture
forward_response_body reader writer initial content_length max_body_size kind encoding transfer =
    let start = start_transfer (start_capture kind encoding transfer) reader writer in
    elim content_length [
      | some length ↦ some (forward_length response_messages max_body_size start initial length)
      | none ↦ elim (pass_initial response_messages max_body_size start initial) [
        | err e ↦ some (err e)
        | ok started ↦
            forward_to_end response_messages max_body_size (length (arrivals reader) + 1) started
      ]
    ]
