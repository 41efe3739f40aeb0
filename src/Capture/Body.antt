-- ===== src/Capture/Body.antt =====
-- `CapturedBody` of src/capture/model.rs: the first bytes of a body, and the size of all of it.
pub mod Stream
use tlscope_rs.Base.{
  ℕ, ◌-◌, Bool, true, false, ◌||◌, not, List, [], ◌++◌, Option, none, ltb, if◌then◌else◌, length,
  take, is_empty, saturating_add, min,
}
use tlscope_rs.Text.{Text}
use tlscope_rs.Text.Utf8.{Bytes, from_utf8}

pub record CapturedBody : Type 0 where
  pub bytes : Bytes
  pub original_size : ℕ
  pub decoded_size : Option ℕ
  pub truncated : Bool
  pub content_type : Option Text
  pub content_encoding : Option Text
  pub transfer_encoding : Option Text

unfoldable pub empty : CapturedBody
empty = record {
  bytes = [];
  original_size = 0;
  decoded_size = none;
  truncated = false;
  content_type = none;
  content_encoding = none;
  transfer_encoding = none;
}

unfoldable pub from_bytes : Bytes → ℕ → Option Text → Option Text → CapturedBody
from_bytes bytes max_body_size content_type content_encoding =
    let keep = min (length bytes) max_body_size in
    record {
      bytes = take keep bytes;
      original_size = length bytes;
      decoded_size = none;
      truncated = ltb keep (length bytes);
      content_type = content_type;
      content_encoding = content_encoding;
      transfer_encoding = none;
    }

unfoldable pub push_capture : CapturedBody → Bytes → ℕ → CapturedBody
push_capture b chunk max_body_size =
    let size = saturating_add b.original_size (length chunk) in
    let remaining = max_body_size - length b.bytes in
    let keep = min remaining (length chunk) in
    if ltb 0 remaining
    then record b {
      bytes = b.bytes ++ take keep chunk;
      original_size = size;
      truncated = if ltb keep (length chunk) then true else b.truncated;
    }
    else record b {
      original_size = size;
      truncated = if not (is_empty chunk) then true else b.truncated;
    }

unfoldable pub text_preview : CapturedBody → Option Text
unfolding from_utf8
text_preview b = from_utf8 b.bytes
