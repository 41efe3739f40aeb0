-- ===== src/Logs/Diagnostics.antt =====
-- src/diagnostics/logs.rs: TLScope's own log lines, taken from tracing events. A store is behind an
-- `Arc<Mutex<…>>`: here it is a cell of `stores`, and the active one is named by `slot`. A lock is
-- taken to succeed (a poisoned mutex is not modelled).
pub mod Recent
pub mod Capture
use tlscope_rs.Base.{
  ℕ, ◌+◌, ◌%◌, Bool, ◌||◌, List, [], ◌∷◌, ◌++◌, Option, none, some, ltb, ◌==◌, if◌then◌else◌,
  length, u64_mod, is_empty,
}
use tlscope_rs.Text.{Text, text, text_eq, starts_with, strip_prefix, join}
use tlscope_rs.Text.Number.{show_uint}
use tlscope_rs.Logs.Window.{pop_front}

pub data TlscopeLogLevel : Type 0 where
  error warn info debug trace : TlscopeLogLevel

unfoldable pub label : TlscopeLogLevel → Text
unfolding text
label error = text "ERROR"
label warn = text "WARN"
label info = text "INFO"
label debug = text "DEBUG"
label trace = text "TRACE"

pub record TlscopeLogLine : Type 0 where
  pub level : TlscopeLogLevel
  pub target : Text
  pub line : Text

pub record TlscopeLogSnapshot : Type 0 where
  pub lines : List TlscopeLogLine
  pub dropped : ℕ
  pub total : ℕ

-- The loop of `clipboard_text`; the first argument is `index`.
clipboard_lines : ℕ → List TlscopeLogLine → Text
clipboard_lines index [] = []
clipboard_lines index (l ∷ ls) =
    (if ltb 0 index then b'\n' ∷ [] else [])
    ++ (text "[" ++ label l.level ++ text " " ++ l.target ++ text "] " ++ l.line)
    ++ clipboard_lines (index + 1) ls

unfoldable pub clipboard_text : TlscopeLogSnapshot → Text
unfolding clipboard_lines label text show_uint
clipboard_text s =
    (if ltb 0 s.dropped
      then text "[" ++ show_uint s.dropped ++ text " older TLScope log lines dropped]\n"
      else [])
    ++ clipboard_lines 0 s.lines

pub record TlscopeLogStore : Type 0 where
  pub lines : List TlscopeLogLine
  pub max_lines : ℕ
  pub dropped : ℕ
  pub total : ℕ

unfoldable pub new : ℕ → TlscopeLogStore
new max_lines = record { lines = []; max_lines = max_lines; dropped = 0; total = 0 }

unfoldable pub push : TlscopeLogStore → TlscopeLogLevel → Text → Text → TlscopeLogStore
push s level target line =
    let full = length s.lines == s.max_lines in
    let counted = (s.total + 1) % u64_mod in
    if s.max_lines == 0
    then record s { dropped = (s.dropped + 1) % u64_mod; total = counted }
    else record s {
      lines =
          (if full then pop_front s.lines else s.lines)
          ++ record { level = level; target = target; line = line } ∷ [];
      dropped = if full then (s.dropped + 1) % u64_mod else s.dropped;
      total = counted;
    }

unfoldable pub snapshot : TlscopeLogStore → TlscopeLogSnapshot
snapshot s = record { lines = s.lines; dropped = s.dropped; total = s.total }

-- The process-wide slot `ACTIVE_LOG_STORE`, and the stores that there are.
pub record World : Type 0 where
  pub slot : Option ℕ
  pub stores : ℕ → TlscopeLogStore

abbrev update : (ℕ → TlscopeLogStore) → ℕ → TlscopeLogStore → ℕ → TlscopeLogStore
update stores id s j = if id == j then s else stores j

unfoldable pub activate_tlscope_log_capture : World → ℕ → World
activate_tlscope_log_capture w id = record w { slot = some id }

-- `drop` of the guard that activation returns.
unfoldable pub drop_capture : World → World
drop_capture w = record w { slot = none }

unfoldable pub push_tlscope_log : World → ℕ → TlscopeLogLevel → Text → Text → World
unfolding push
push_tlscope_log w id level target line = record w {
  stores = update w.stores id (push (w.stores id) level target line);
}

unfoldable pub is_tlscope_target : Text → Bool
unfolding text
is_tlscope_target target =
    text_eq target (text "tlscope")
    || starts_with target (text "tlscope::")
    || text_eq target (text "TLScope")
    || starts_with target (text "TLScope::")

unfoldable pub short_target : Text → Text
unfolding text
short_target target = elim (strip_prefix target (text "tlscope::")) [
  | some rest ↦ rest
  | none ↦ elim (strip_prefix target (text "TLScope::")) [ some rest ↦ rest | none ↦ target ]
]

pub record LogEventVisitor : Type 0 where
  pub message : Option Text
  pub fields : List Text

-- A field of an event is its name and its value as printed.
unfoldable pub record_value : LogEventVisitor → Text × Text → LogEventVisitor
unfolding text
record_value v (name, value) =
    if text_eq name (text "message")
    then record v { message = some value }
    else record v { fields = v.fields ++ (name ++ b'=' ∷ [] ++ value) ∷ [] }

abbrev or_nothing : Option Text → Text
or_nothing none = []
or_nothing (some t) = t

unfoldable pub finish : LogEventVisitor → Text
unfolding text
finish v =
    let message = or_nothing v.message in
    let line =
      if is_empty v.fields
      then message
      else message ++ (if is_empty message then [] else b' ' ∷ []) ++ join v.fields (b' ' ∷ []) in
    if is_empty line then text "event" else line

unfoldable pub record_all : LogEventVisitor → List (Text × Text) → LogEventVisitor
unfolding record_value
record_all v [] = v
record_all v (f ∷ fs) = record_all (record_value v f) fs

pub record Event : Type 0 where
  pub level : TlscopeLogLevel
  pub target : Text
  pub fields : List (Text × Text)

unfoldable pub event_text : List (Text × Text) → Text
unfolding finish record_all
event_text fields = finish (record_all (record { message = none; fields = [] }) fields)

unfoldable pub on_event : World → Event → World
unfolding is_tlscope_target push_tlscope_log short_target event_text
on_event w e =
    if is_tlscope_target e.target
    then elim w.slot [
      | none ↦ w
      | some id ↦ push_tlscope_log w id e.level (short_target e.target) (event_text e.fields)
    ]
    else w
