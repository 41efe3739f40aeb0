-- ===== src/Tui/Loop.antt =====
-- `run_loop` and `flush_clipboard_request` of src/tui/mod.rs as steps of the session. Between two
-- steps of the interface the proxy may push what it captured. Drawing shows a session and does not
-- change it; the end of the child only ends the loop.
pub mod Reach
use tlscope_rs.Base.{
  ℕ, zero, suc, ◌≡◌, Bool, true, false, ◌++◌, Option, none, some, if◌then◌else◌, ok, List, [], ◌∷◌,
}
use tlscope_rs.Text.{Text, text}
use tlscope_rs.Capture.Entry.{TrafficEntry}
use tlscope_rs.Capture.Redact.{RedactionConfig}
use tlscope_rs.Capture.Store
use tlscope_rs.Logs.Child.{ChildLogSnapshot}
use tlscope_rs.Logs.Diagnostics.{TlscopeLogSnapshot}
use tlscope_rs.Tui.Editor.{refresh}
use tlscope_rs.Tui.State.{TuiState, TuiExit, ClipboardRequest, default_state}
use tlscope_rs.Tui.Keys.{KeyEvent, Session, View, Outside, Outcome}
use tlscope_rs.Tui.Dispatch.{handle_key}

-- The events that wait in the channel, by their number.
unfoldable pub drain_events : TuiState → ℕ → TuiState
drain_events s zero = s
drain_events s (suc n) =
    drain_events (if s.paused then s else record s { message = text "captured" }) n

-- What happens to the session before it is drawn.
unfoldable pub begin_frame : Session → Session
begin_frame s =
    if s.state.entering_filter
    then record s {
      state = record (s.state) {
        filter_editor = refresh s.state.filter_editor s.store.filter_index;
      };
    }
    else s

-- With the error of the terminal, if writing to it fails.
unfoldable pub flush_clipboard_request : Option Text → TuiState → TuiState
flush_clipboard_request copied s = elim s.clipboard_request [
  | none ↦ s
  | some request ↦ elim copied [
    | none ↦ record s {
      clipboard_request = none;
      message = text "copied " ++ request.name ++ text " logs";
    }
    | some error ↦ record s {
      clipboard_request = none;
      message = text "failed to copy " ++ request.name ++ text " logs: " ++ error;
    }
  ]
]

module _ (o : Outside) (redaction : RedactionConfig) where
  -- One step of the program, by the interface or by the proxy. A key acts on any view, since the
  -- proxy may have pushed since the view was taken; the steps stand in any order.
  pub data Step : Session → Session → Type 0 where
    captures : (s : Session) (e : TrafficEntry) → Step s (record s { store = Store.push s.store e })
    drains : (s : Session) (n : ℕ) → Step s (record s { state = drain_events s.state n })
    draws : (s : Session) → Step s (begin_frame s)
    presses :
        (s : Session) (key : KeyEvent) (v : View)
        → (handle_key o redaction key s v).result ≡ ok none
        → Step s (handle_key o redaction key s v).session
    flushes :
        (s : Session) (copied : Option Text)
        → Step s (record s { state = flush_clipboard_request copied s.state })

  pub data Steps : Session → Session → Type 0 where
    stop : (s : Session) → Steps s s
    go : (r s t : Session) → Steps r s → Step s t → Steps r t

unfoldable pub first_session : Session
unfolding default_state Store.default_store
first_session = record { state = default_state; store = Store.default_store }
