-- ===== src/Logs/Child.antt =====
-- src/process/logs.rs: the lines that the child process printed, the newest `max_lines` of them.
pub mod Recent
pub mod Sanitize
use tlscope_rs.Base.{ℕ, ◌+◌, ◌%◌, List, [], ◌∷◌, ◌++◌, ltb, ◌==◌, if◌then◌else◌, length, u64_mod}
use tlscope_rs.Text.{Text, text}
use tlscope_rs.Text.Number.{show_uint}
use tlscope_rs.Logs.Window.{pop_front}

pub data ChildOutputStream : Type 0 where
  stdout stderr : ChildOutputStream

unfoldable pub label : ChildOutputStream → Text
unfolding text
label stdout = text "stdout"
label stderr = text "stderr"

pub record ChildOutputLine : Type 0 where
  pub stream : ChildOutputStream
  pub line : Text

pub record ChildLogSnapshot : Type 0 where
  pub lines : List ChildOutputLine
  pub dropped : ℕ
  pub total : ℕ

-- The loop of `clipboard_text`; the first argument is `index`.
clipboard_lines : ℕ → List ChildOutputLine → Text
clipboard_lines index [] = []
clipboard_lines index (l ∷ ls) =
    (if ltb 0 index then b'\n' ∷ [] else [])
    ++ (text "[" ++ label l.stream ++ text "] " ++ l.line)
    ++ clipboard_lines (index + 1) ls

unfoldable pub clipboard_text : ChildLogSnapshot → Text
unfolding clipboard_lines label text show_uint
clipboard_text s =
    (if ltb 0 s.dropped
      then text "[" ++ show_uint s.dropped ++ text " older process log lines dropped]\n"
      else [])
    ++ clipboard_lines 0 s.lines

pub record ChildLogStore : Type 0 where
  pub lines : List ChildOutputLine
  pub max_lines : ℕ
  pub dropped : ℕ
  pub total : ℕ

unfoldable pub new : ℕ → ChildLogStore
new max_lines = record { lines = []; max_lines = max_lines; dropped = 0; total = 0 }

-- The counters are `usize`, and wrap in a release build.
unfoldable pub push : ChildLogStore → ChildOutputStream → Text → ChildLogStore
push s stream line =
    let full = length s.lines == s.max_lines in
    let counted = (s.total + 1) % u64_mod in
    if s.max_lines == 0
    then record s { dropped = (s.dropped + 1) % u64_mod; total = counted }
    else record s {
      lines =
          (if full then pop_front s.lines else s.lines)
          ++ record { stream = stream; line = line } ∷ [];
      dropped = if full then (s.dropped + 1) % u64_mod else s.dropped;
      total = counted;
    }

unfoldable pub snapshot : ChildLogStore → ChildLogSnapshot
snapshot s = record { lines = s.lines; dropped = s.dropped; total = s.total }

unfoldable pub default_store : ChildLogStore
unfolding new
default_store = new 2000
