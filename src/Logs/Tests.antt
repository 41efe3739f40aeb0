-- ===== src/Logs/Tests.antt =====
-- The theorems on the logs at concrete inputs, and runs of the code.
use tlscope_rs.Base.{
  ℕ, ◌-◌, ◌%◌, ◌+◌, ◌≤◌, ◌≡◌, ◌≢◌, refl, List, [], ◌∷◌, none, length, All, u64_mod,
}
use tlscope_rs.Text.{text}
use tlscope_rs.Logs.Window.{recent}
use tlscope_rs.Logs.Child
use tlscope_rs.Logs.Child.{ChildOutputLine, stdout, stderr}
use tlscope_rs.Logs.Child.Recent.{push_all, snapshot-recent}
use tlscope_rs.Logs.Child.Sanitize.{
  sanitize_output_line, IsPrintable, sanitize_output_line-IsPrintable,
}
use tlscope_rs.Logs.Diagnostics
use tlscope_rs.Logs.Diagnostics.{
  TlscopeLogLine, World, Event, activate_tlscope_log_capture, drop_capture, warn, info,
}
use tlscope_rs.Logs.Diagnostics.Recent.{push_all as push_all_own, tlscope_snapshot-recent}
use tlscope_rs.Logs.Diagnostics.Capture.{on_events, Takes, capture_session}

abbrev three_lines : List ChildOutputLine
unfolding text
three_lines =
    record { stream = stdout; line = text "one" }
    ∷ record { stream = stderr; line = text "two" }
    ∷ record { stream = stdout; line = text "three" }
    ∷ []

snapshot-recent_example :
    ((Child.snapshot (push_all (Child.new 2) three_lines)).lines ≡ recent 2 three_lines)
    × ((Child.snapshot (push_all (Child.new 2) three_lines)).dropped
        ≡ (length three_lines - 2) % u64_mod)
    × ((Child.snapshot (push_all (Child.new 2) three_lines)).total ≡ length three_lines % u64_mod)
snapshot-recent_example = snapshot-recent 2 three_lines

abbrev two_own_lines : List TlscopeLogLine
unfolding text
two_own_lines =
    record { level = info; target = text "app"; line = text "started" }
    ∷ record { level = warn; target = text "proxy"; line = text "retry" }
    ∷ []

tlscope_snapshot-recent_example :
    ((Diagnostics.snapshot (push_all_own (Diagnostics.new 1) two_own_lines)).lines
      ≡ recent 1 two_own_lines)
    × ((Diagnostics.snapshot (push_all_own (Diagnostics.new 1) two_own_lines)).dropped
        ≡ (length two_own_lines - 1) % u64_mod)
    × ((Diagnostics.snapshot (push_all_own (Diagnostics.new 1) two_own_lines)).total
        ≡ length two_own_lines % u64_mod)
tlscope_snapshot-recent_example = tlscope_snapshot-recent 1 two_own_lines

-- An escape sequence, a bell and a newline.
abbrev raw_line : List ℕ
raw_line = 27 ∷ 91 ∷ 51 ∷ 49 ∷ 109 ∷ 111 ∷ 107 ∷ 7 ∷ 10 ∷ []

sanitized_example : sanitize_output_line raw_line 10 ≡ text "ok "
unfolding sanitize_output_line text
sanitized_example = refl

sanitize_output_line-IsPrintable_example :
    All IsPrintable (sanitize_output_line raw_line 10)
    × (length (sanitize_output_line raw_line 10) ≤ 10 + 3)
sanitize_output_line-IsPrintable_example = sanitize_output_line-IsPrintable raw_line 10

abbrev own_event : Event
unfolding text
own_event = record {
  level = warn;
  target = text "tlscope::proxy";
  fields = (text "message", text "retry") ∷ [];
}

abbrev foreign_event : Event
unfolding text
foreign_event = record { level = info; target = text "hyper"; fields = [] }

abbrev world : World
world = record { slot = none; stores = λ id. Diagnostics.new 5 }

abbrev session : World
session =
    on_events
      (drop_capture
        (on_events (activate_tlscope_log_capture world 1) (own_event ∷ foreign_event ∷ [])))
      (own_event ∷ [])

-- The line of TLScope's own event is stored, and no other.
stored_example :
    (session.stores 1).lines
    ≡ record { level = warn; target = text "proxy"; line = text "retry" } ∷ []
unfolding on_events drop_capture activate_tlscope_log_capture Diagnostics.on_event
    Diagnostics.event_text Diagnostics.record_all Diagnostics.record_value Diagnostics.finish
    Diagnostics.push_tlscope_log Diagnostics.push Diagnostics.new Diagnostics.is_tlscope_target
    Diagnostics.short_target text
stored_example = refl

capture_session_example :
    Takes (world.stores 1) (own_event ∷ foreign_event ∷ []) (session.stores 1)
    × ((j : ℕ) → j ≢ 1 → session.stores j ≡ world.stores j)
capture_session_example = capture_session world 1 (own_event ∷ foreign_event ∷ []) (own_event ∷ [])
