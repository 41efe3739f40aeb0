-- ===== src/Capture/Tests.antt =====
-- The theorems on captured traffic at concrete inputs, and runs of the code.
use mathlib.Core.List.{flatten}
use tlscope_rs.Base.{
  ◌≡◌, refl, true, false, ◌&&◌, List, [], ◌∷◌, ◌++◌, none, some, arith, ok, err, take, keep,
}
use tlscope_rs.Base.Order.{nat_ord}
use tlscope_rs.Text.{Text, text, starts_with, byte_len, is_whitespace}
use tlscope_rs.Text.Utf8.{Bytes}
use tlscope_rs.Capture.Body.{CapturedBody, empty, from_bytes}
use tlscope_rs.Capture.Body.Stream.{capture_all, capture_all-from_bytes}
use tlscope_rs.Capture.Entry.{TrafficEntry, Headers}
use tlscope_rs.Capture.Filter.{TrafficFilter, parse, matches}
use tlscope_rs.Capture.Filter.Join.{joined, parse-joined}
use tlscope_rs.Capture.Store
use tlscope_rs.Capture.Store.{default_store}
use tlscope_rs.Capture.Store.Index.{Indexes, Operation, pushes, clears, run, run-Indexes}
use tlscope_rs.Capture.SortedVec.{insert_sorted_unique}
use tlscope_rs.Capture.SortedVec.Insert.{insert_ordered, insert_sorted_unique-ordered}
use tlscope_rs.Capture.Suggest.{valid, invalid, current_token}
use tlscope_rs.Capture.Suggest.Build.{prefix_suggestions}
use tlscope_rs.Capture.Suggest.Verdict.{filter_parse_state}
use tlscope_rs.Capture.Suggest.Prefix.{prefix_suggestions-keep}
use tlscope_rs.Capture.Suggest.State.{filter_parse_state_lem}
use tlscope_rs.Capture.Suggest.Token.{EndsBlank, current_token_lem}
use tlscope_rs.Capture.Redact.{
  RedactionConfig, new, redact_headers, should_redact_header, redact_json_value, Value, object,
  string, field, end,
}
use tlscope_rs.Capture.Redact.Blind.{
  AgreePairs, Agree, redact_headers-blind, redact_json_value-blind,
}

abbrev pub sample_body : CapturedBody
unfolding empty text
sample_body = record empty { content_type = some (text "Text/HTML; charset=utf-8") }

abbrev pub sample : TrafficEntry
unfolding text empty
sample = record {
  id = 1;
  started_at = 0;
  duration = 5;
  process_id = none;
  scheme = text "http";
  host = text "Example.com";
  port = 80;
  method = text "GET";
  path = text "/";
  http_version = text "HTTP/1.1";
  request_headers = [];
  request_body = empty;
  response_status = some 200;
  response_headers = [];
  response_body = sample_body;
  request_size = 0;
  response_size = 0;
  tls = none;
  error = none;
}

abbrev history : List Operation
history = pushes sample ∷ clears ∷ pushes sample ∷ pushes sample ∷ []

run_example : (run default_store history).filter_index.content_types ≡ text "text/html" ∷ []
unfolding run default_store Store.push sample Store.clear text
run_example = refl

run-Indexes_example :
    Indexes (run default_store history).entries (run default_store history).filter_index
run-Indexes_example = run-Indexes history

abbrev chunks : List Bytes
chunks = (1 ∷ 2 ∷ []) ∷ (3 ∷ []) ∷ []

capture_all-from_bytes_example :
    capture_all
      (record empty { content_type = none; content_encoding = none; transfer_encoding = none })
      chunks
      2
    ≡ record (from_bytes (flatten chunks) 2 none none) { transfer_encoding = none }
unfolding flatten
capture_all-from_bytes_example = capture_all-from_bytes 2 chunks none none none (omega arith)

insert_sorted_unique-ordered_example :
    insert_sorted_unique nat_ord (200 ∷ 404 ∷ []) 301 ≡ insert_ordered nat_ord (200 ∷ 404 ∷ []) 301
insert_sorted_unique-ordered_example =
    insert_sorted_unique-ordered nat_ord (200 ∷ 404 ∷ []) 301 ((refl, tt), (tt, tt))

abbrev hosts : List Text
unfolding text
hosts = text "api.example.com" ∷ text "example.com" ∷ text "example.org" ∷ []

prefix_suggestions-keep_example :
    prefix_suggestions hosts (text "example") 1
    ≡ take 1 (keep (λ v. starts_with v (text "example")) hosts)
unfolding hosts
prefix_suggestions-keep_example =
    prefix_suggestions-keep hosts (text "example") 1 ((refl, (refl, tt)), ((refl, tt), (tt, tt)))

abbrev bad_text : Text
unfolding text
bad_text = text "tls:maybe"

filter_parse_state_lem_example :
    (filter_parse_state bad_text ≡ valid → (f : TrafficFilter) × (parse bad_text ≡ ok f))
    × ((e : Text) → filter_parse_state bad_text ≡ invalid e → parse bad_text ≡ err e)
filter_parse_state_lem_example = filter_parse_state_lem bad_text

abbrev left_text : Text
unfolding text
left_text = text "has:request-body"

abbrev right_text : Text
unfolding text
right_text = text "error:true"

parse-joined_example :
    (parse (left_text ++ 32 ∷ right_text) ≡ joined (parse left_text) (parse right_text))
    × ((f g h : TrafficFilter) (e : TrafficEntry)
        → parse left_text ≡ ok f
        → parse right_text ≡ ok g
        → parse (left_text ++ 32 ∷ right_text) ≡ ok h
        → matches h e ≡ (matches f e && matches g e))
unfolding is_whitespace
parse-joined_example = parse-joined left_text right_text 32 refl

-- `tls:true er|ror:x host:y`, the cursor at the bar.
current_token_lem_example :
    ((current_token
        (text "tls:true " ++ text "er" ++ (text "ror:x" ++ text " host:y"))
        (byte_len (text "tls:true " ++ text "er"))).start
      ≡ byte_len (text "tls:true "))
    × ((current_token
          (text "tls:true " ++ text "er" ++ (text "ror:x" ++ text " host:y"))
          (byte_len (text "tls:true " ++ text "er"))).stop
        ≡ byte_len (text "tls:true " ++ text "er" ++ text "ror:x"))
unfolding text EndsBlank is_whitespace
current_token_lem_example =
    current_token_lem (text "tls:true ") (text "er") (text "ror:x") (text " host:y") refl
      (refl, (refl, tt)) (refl, (refl, (refl, (refl, (refl, tt))))) refl

abbrev pub config : RedactionConfig
unfolding new
config = new true false

abbrev captured_headers : Headers
unfolding text
captured_headers = (text "Cookie", text "session=1") ∷ (text "Accept", text "*/*") ∷ []

abbrev other_headers : Headers
unfolding text
other_headers = (text "Cookie", text "session=2") ∷ (text "Accept", text "*/*") ∷ []

redact_headers-blind_example :
    (AgreePairs (should_redact_header config) captured_headers other_headers
      → redact_headers captured_headers config ≡ redact_headers other_headers config)
    × (redact_headers captured_headers config ≡ redact_headers other_headers config
        → AgreePairs (should_redact_header config) captured_headers other_headers)
redact_headers-blind_example = redact_headers-blind config captured_headers other_headers

abbrev login : Text → Value
unfolding text
login secret =
    object (field (text "user") (string (text "ann")) (field (text "Password") (string secret) end))

redact_json_value-blind_example :
    (Agree config (login (text "a")) (login (text "b"))
      → redact_json_value config (login (text "a")) ≡ redact_json_value config (login (text "b")))
    × (redact_json_value config (login (text "a")) ≡ redact_json_value config (login (text "b"))
        → Agree config (login (text "a")) (login (text "b")))
redact_json_value-blind_example =
    redact_json_value-blind config (login (text "a")) (login (text "b"))
