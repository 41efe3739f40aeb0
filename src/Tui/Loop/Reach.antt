-- ===== src/Tui/Loop/Reach.antt =====
-- What holds of every session that the program reaches.
use tlscope_rs.Base.{ℕ, zero, suc, ◌≡◌, refl, Option, if◌then◌else◌, if_both, inl, inr, ◌⊎◌, arith}
use tlscope_rs.Text.{Text, text}
use tlscope_rs.Capture.Filter.{parse}
use tlscope_rs.Capture.Redact.{RedactionConfig}
use tlscope_rs.Capture.Store.{TrafficStore}
use tlscope_rs.Capture.Store
use tlscope_rs.Capture.Store.Index.{Indexes, push-Indexes, empty-Indexes}
use tlscope_rs.Tui.Editor.Invariant.{refresh-IsWellFormed}
use tlscope_rs.Tui.State.{TuiState, default_state}
use tlscope_rs.Tui.Editor.{default_editor}
use tlscope_rs.Capture.Suggest.Verdict.{filter_parse_state}
use tlscope_rs.Text.Offset.{is_char_boundary}
use tlscope_rs.Tui.Scroll.Filter.{SameFilter}
use tlscope_rs.Tui.Keys.{Session, Outside}
use tlscope_rs.Tui.Consistent.{IsConsistent, SameFilter-IsConsistent}
use tlscope_rs.Tui.Dispatch.{handle_key}
use tlscope_rs.Tui.Dispatch.Invariant.{handle_key_lem}
use tlscope_rs.Tui.Loop.{
  drain_events, begin_frame, flush_clipboard_request, Step, captures, drains, draws, presses,
  flushes, Steps, stop, go, first_session,
}

-- A consistent interface over a store whose index is exact.
unfoldable pub IsSound : Session → Type 0
IsSound s = IsConsistent s.state × Indexes s.store.entries s.store.filter_index

captured-SameFilter :
    (s : TuiState) → SameFilter s (if s.paused then s else record s { message = text "captured" })
captured-SameFilter s = ground arith

drain_events-IsConsistent :
    (s : TuiState) (n : ℕ) → IsConsistent s → IsConsistent (drain_events s n)
unfolding drain_events
drain_events-IsConsistent s zero c = c
drain_events-IsConsistent s (suc n) c =
    let t : TuiState = if s.paused then s else record s { message = text "captured" } in
    drain_events-IsConsistent t n (SameFilter-IsConsistent s t c (captured-SameFilter s))

flush-SameFilter :
    (copied : Option Text) (s : TuiState) → SameFilter s (flush_clipboard_request copied s)
unfolding flush_clipboard_request
flush-SameFilter copied s = ground arith

begin_frame-IsSound : (s : Session) → IsSound s → IsSound (begin_frame s)
unfolding IsSound begin_frame
begin_frame-IsSound s ((w, p), x) =
    if_both IsSound s.state.entering_filter
      ((refresh-IsWellFormed s.state.filter_editor s.store.filter_index, p), x) ((w, p), x)

store-Indexes :
    (t s : TrafficStore)
    → (t ≡ s) ⊎ (t ≡ Store.clear s)
    → Indexes s.entries s.filter_index
    → Indexes t.entries t.filter_index
unfolding Store.clear
store-Indexes t s (inl e) x = rw e x
store-Indexes t s (inr e) x = rw e empty-Indexes

module _ (o : Outside) (redaction : RedactionConfig) where
  Step-IsSound : (s t : Session) → IsSound s → Step o redaction s t → IsSound t
  unfolding IsSound
  Step-IsSound _ _ (c, x) (captures s e) = (c, push-Indexes s.store e x)
  Step-IsSound _ _ (c, x) (drains s n) = (drain_events-IsConsistent s.state n c, x)
  Step-IsSound _ _ h (draws s) = begin_frame-IsSound s h
  Step-IsSound _ _ (c, x) (presses s key v e) =
      let (d, k, _) = handle_key_lem o redaction key s v c in
      (d, store-Indexes (handle_key o redaction key s v).session.store s.store k x)
  Step-IsSound _ _ (c, x) (flushes s copied) = (
    SameFilter-IsConsistent s.state (flush_clipboard_request copied s.state) c
        (flush-SameFilter copied s.state),
    x,
  )

  Steps-IsSound : (r t : Session) → IsSound r → Steps o redaction r t → IsSound t
  Steps-IsSound _ _ h (stop r) = h
  Steps-IsSound _ _ h (go r s t w x) = Step-IsSound s t (Steps-IsSound r s h w) x

first-IsSound : IsSound first_session
unfolding IsSound first_session default_state Store.default_store parse filter_parse_state
    default_editor is_char_boundary
first-IsSound = (((refl, refl, (omega arith, omega arith, omega arith)), refl), empty-Indexes)

-- In every session the program reaches, whatever the keys and the captured traffic and in whatever
-- order, the filter editor is well formed, the filter in force is what its text parses to, and the
-- filter index holds exactly what the entries have.
pub reach-IsSound :
    (o : Outside) (redaction : RedactionConfig) (s : Session)
    → Steps o redaction first_session s
    → IsConsistent s.state × Indexes s.store.entries s.store.filter_index
unfolding IsSound
reach-IsSound o redaction s w = Steps-IsSound o redaction first_session s first-IsSound w
