-- ===== src/Capture/Store.antt =====
-- `TrafficStore` and `FilterIndex` of src/capture/store.rs.
pub mod Index
use tlscope_rs.Base.{
  ℕ, List, [], ◌∷◌, ◌++◌, Option, none, some, if◌then◌else◌, keep, length, is_empty,
}
use tlscope_rs.Base.Order.{nat_ord, text_ord}
use tlscope_rs.Text.{Text, to_ascii_lowercase, split, trim}
use tlscope_rs.Capture.Body.{CapturedBody}
use tlscope_rs.Capture.Entry.{TrafficEntry}
use tlscope_rs.Capture.Filter.{TrafficFilter, matches, is_some}
use tlscope_rs.Capture.SortedVec.{insert_sorted_unique}

pub record FilterIndex : Type 0 where
  pub hosts : List Text
  pub statuses : List ℕ
  pub content_types : List Text

unfoldable pub empty_index : FilterIndex
empty_index = record { hosts = []; statuses = []; content_types = [] }

-- `split(';').next().unwrap_or(content_type)`.
first_of_split : Text → List Text → Text
first_of_split whole [] = whole
first_of_split whole (p ∷ ps) = p

-- The content type without its parameters.
unfoldable pub media_type : Text → Text
unfolding first_of_split split trim to_ascii_lowercase
media_type content_type =
    to_ascii_lowercase (trim (first_of_split content_type (split content_type b';')))

unfoldable pub insert_content_type : List Text → Option Text → List Text
unfolding media_type insert_sorted_unique
insert_content_type values none = values
insert_content_type values (some content_type) =
    if is_empty (media_type content_type)
    then values
    else insert_sorted_unique text_ord values (media_type content_type)

unfoldable pub insert_status : List ℕ → Option ℕ → List ℕ
unfolding insert_sorted_unique
insert_status values none = values
insert_status values (some status) = insert_sorted_unique nat_ord values status

unfoldable pub insert_entry : FilterIndex → TrafficEntry → FilterIndex
unfolding insert_status insert_content_type insert_sorted_unique to_ascii_lowercase
insert_entry i e = record {
  hosts = insert_sorted_unique text_ord i.hosts (to_ascii_lowercase e.host);
  statuses = insert_status i.statuses e.response_status;
  content_types =
      insert_content_type (insert_content_type i.content_types e.request_body.content_type)
        e.response_body.content_type;
}

pub record TrafficStore : Type 0 where
  pub entries : List TrafficEntry
  pub filter_index : FilterIndex

unfoldable pub default_store : TrafficStore
unfolding empty_index
default_store = record { entries = []; filter_index = empty_index }

unfoldable pub push : TrafficStore → TrafficEntry → TrafficStore
unfolding insert_entry
push s e = record { entries = s.entries ++ e ∷ []; filter_index = insert_entry s.filter_index e }

unfoldable pub clear : TrafficStore → TrafficStore
unfolding empty_index
clear s = record { entries = []; filter_index = empty_index }

unfoldable pub filtered : TrafficStore → TrafficFilter → List TrafficEntry
unfolding matches
filtered s f = keep (matches f) s.entries

unfoldable pub error_count : TrafficStore → ℕ
error_count s = length (keep (λ e. is_some e.error) s.entries)
