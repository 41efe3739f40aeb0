-- ===== src/Capture/Redact.antt =====
-- src/capture/redact.rs: hiding secrets in headers and bodies. serde_json and form_urlencoded are
-- the argument `Codecs`; a hash set is a list without duplicates.
pub mod Blind
use tlscope_rs.Base.{
  ℕ, Bool, true, false, not, ◌&&◌, ◌||◌, List, [], ◌∷◌, ◌++◌, Option, none, some, if◌then◌else◌,
  some_of, each, length,
}
use tlscope_rs.Text.{Text, text, text_eq, to_ascii_lowercase, contains}
use tlscope_rs.Text.Utf8.{Bytes}
use tlscope_rs.Capture.Body.{CapturedBody}
use tlscope_rs.Capture.Entry.{TrafficEntry, Headers}

abbrev pub default_headers : List Text
unfolding text
default_headers =
    text "authorization"
    ∷ text "proxy-authorization"
    ∷ text "cookie"
    ∷ text "set-cookie"
    ∷ text "x-api-key"
    ∷ []

abbrev pub default_fields : List Text
unfolding text
default_fields =
    text "password"
    ∷ text "passwd"
    ∷ text "token"
    ∷ text "access_token"
    ∷ text "refresh_token"
    ∷ text "secret"
    ∷ text "api_key"
    ∷ text "client_secret"
    ∷ text "credit_card"
    ∷ text "card_number"
    ∷ text "cvv"
    ∷ []

pub record RedactionConfig : Type 0 where
  pub redact_body_fields : Bool
  pub show_secrets : Bool
  pub headers : List Text
  pub fields : List Text

unfoldable pub new : Bool → Bool → RedactionConfig
new redact_body_fields show_secrets = record {
  redact_body_fields = redact_body_fields;
  show_secrets = show_secrets;
  headers = default_headers;
  fields = default_fields;
}

unfoldable pub has : List Text → Text → Bool
has set t = some_of (text_eq t) set

-- `HashSet::insert`.
unfoldable pub insert : List Text → Text → List Text
unfolding has
insert set t = if has set t then set else t ∷ set

unfoldable pub add_header : RedactionConfig → Text → RedactionConfig
unfolding insert to_ascii_lowercase
add_header c header = record c { headers = insert c.headers (to_ascii_lowercase header) }

unfoldable pub add_field : RedactionConfig → Text → RedactionConfig
unfolding insert to_ascii_lowercase
add_field c field = record c { fields = insert c.fields (to_ascii_lowercase field) }

unfoldable pub should_redact_header : RedactionConfig → Text → Bool
unfolding has to_ascii_lowercase
should_redact_header c name = not c.show_secrets && has c.headers (to_ascii_lowercase name)

unfoldable pub should_redact_field : RedactionConfig → Text → Bool
unfolding has to_ascii_lowercase
should_redact_field c name =
    not c.show_secrets && c.redact_body_fields && has c.fields (to_ascii_lowercase name)

unfoldable pub redacted : Text
unfolding text
redacted = text "<redacted>"

-- What one pair becomes under a test of its name.
abbrev pub redact_pair : (Text → Bool) → Text × Text → Text × Text
redact_pair secret (name, value) = if secret name then (name, redacted) else (name, value)

unfoldable pub redact_headers : Headers → RedactionConfig → Headers
unfolding should_redact_header redacted
redact_headers headers c = each (redact_pair (should_redact_header c)) headers

mutual
  pub data Value : Type 0 where
    null : Value
    bool : Bool → Value
    -- A number as it is written.
    number : Text → Value
    string : Text → Value
    array : Items → Value
    object : Fields → Value

  pub data Items : Type 0 where
    nil : Items
    cons : Value → Items → Items

  pub data Fields : Type 0 where
    end : Fields
    field : Text → Value → Fields → Fields

unfoldable mutual
  unfolding redacted

  pub redact_json_value : RedactionConfig → Value → Value
  redact_json_value c null = null
  redact_json_value c (bool b) = bool b
  redact_json_value c (number n) = number n
  redact_json_value c (string t) = string t
  redact_json_value c (array xs) = array (redact_items c xs)
  redact_json_value c (object fs) = object (redact_fields c fs)

  pub redact_items : RedactionConfig → Items → Items
  redact_items c nil = nil
  redact_items c (cons x xs) = cons (redact_json_value c x) (redact_items c xs)

  pub redact_fields : RedactionConfig → Fields → Fields
  redact_fields c end = end
  redact_fields c (field k v fs) =
      field k (if should_redact_field c k then string redacted else redact_json_value c v)
        (redact_fields c fs)

-- What the program uses of serde_json and of form_urlencoded.
pub record Codecs : Type 0 where
  pub from_slice : Bytes → Option Value
  pub to_vec_pretty : Value → Option Bytes
  pub form_parse : Bytes → List (Text × Text)
  pub form_serialize : List (Text × Text) → Bytes

abbrev with_bytes : CapturedBody → Bytes → CapturedBody
with_bytes b bytes = record b { bytes = bytes; decoded_size = some (length bytes) }

abbrev or_empty : Option Text → Text
or_empty none = []
or_empty (some t) = t

module _ (codecs : Codecs) where
  open codecs use {from_slice, to_vec_pretty, form_parse, form_serialize}

  -- `none` where the body does not parse or print as JSON.
  unfoldable pub redact_json : RedactionConfig → Bytes → Option Bytes
  unfolding redact_json_value
  redact_json c bytes = elim (from_slice bytes) [
    | none ↦ none
    | some value ↦ to_vec_pretty (redact_json_value c value)
  ]

  unfoldable pub redact_form : RedactionConfig → Bytes → Bytes
  unfolding should_redact_field redacted
  redact_form c bytes =
      form_serialize (each (redact_pair (should_redact_field c)) (form_parse bytes))

  redact_form_body : RedactionConfig → CapturedBody → Text → CapturedBody
  unfolding redact_form contains text
  redact_form_body c b content_type =
      if contains content_type (text "application/x-www-form-urlencoded")
      then with_bytes b (redact_form c b.bytes)
      else b

  unfoldable pub redact_body : CapturedBody → RedactionConfig → CapturedBody
  unfolding redact_json redact_form_body contains text to_ascii_lowercase
  redact_body b c =
      let content_type = to_ascii_lowercase (or_empty b.content_type) in
      if c.show_secrets || not c.redact_body_fields
      then b
      else if contains content_type (text "application/json")
      then elim (redact_json c b.bytes) [
        | some bytes ↦ with_bytes b bytes
        | none ↦ redact_form_body c b content_type
      ]
      else redact_form_body c b content_type

  unfoldable pub redacted_entry : TrafficEntry → RedactionConfig → TrafficEntry
  unfolding redact_headers redact_body
  redacted_entry e c = record e {
    request_headers = redact_headers e.request_headers c;
    response_headers = redact_headers e.response_headers c;
    request_body = redact_body e.request_body c;
    response_body = redact_body e.response_body c;
  }
