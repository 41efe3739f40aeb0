-- ===== src/Tui/Keys/Apply.antt =====
-- What Enter does in filter mode.
use tlscope_rs.Base.{◌≡◌, ◌≢◌, refl, sym, ◌∙◌, false, none, Result, ok}
use tlscope_rs.Text.{Text}
use tlscope_rs.Capture.Filter.{parse, TrafficFilter}
use tlscope_rs.Capture.Suggest.{FilterParseState, valid, incomplete, invalid}
use tlscope_rs.Capture.Suggest.State.{filter_parse_state_lem}
use tlscope_rs.Tui.State.{TuiState}
use tlscope_rs.Tui.Editor.Invariant.{IsWellFormed}
use tlscope_rs.Tui.Keys.{apply_filter, apply_parsed}

-- The text is taken over with the filter it parses to, and the list starts from the top.
abbrev pub IsAccepted : TuiState → TuiState → Type 0
IsAccepted s t =
    (t.applied_filter_text ≡ s.filter_editor.buffer)
    × (parse s.filter_editor.buffer ≡ ok t.applied_filter)
    × (t.entering_filter ≡ false)
    × (t.filter_editor.error ≡ none)
    × (t.selected ≡ 0)

-- The filter in force stays, the editor stays open on its text, and says why.
abbrev pub IsRefused : TuiState → TuiState → Type 0
IsRefused s t =
    (t.applied_filter_text ≡ s.applied_filter_text)
    × (t.applied_filter ≡ s.applied_filter)
    × (t.entering_filter ≡ s.entering_filter)
    × (t.filter_editor.buffer ≡ s.filter_editor.buffer)
    × (t.filter_editor.error ≢ none)

refused :
    (s : TuiState) (v : FilterParseState) (r : Result Text TrafficFilter)
    → v ≢ valid
    → IsRefused s (apply_parsed s v r)
unfolding apply_parsed
refused s valid r n = absurd (n refl)
refused s incomplete r n = (refl, refl, refl, refl, λ e. cc)
refused s (invalid x) r n = (refl, refl, refl, refl, λ e. cc)

accepted :
    (s : TuiState) (v : FilterParseState) (r : Result Text TrafficFilter) (f : TrafficFilter)
    → v ≡ valid
    → parse s.filter_editor.buffer ≡ r
    → r ≡ ok f
    → IsAccepted s (apply_parsed s v r)
unfolding apply_parsed
accepted s v r f h p q = rw (h, q) (refl, p ∙ q, refl, refl, refl)

-- In a well-formed editor Enter takes over a text shown as valid, and any other text is refused. No
-- text shown as valid fails to parse.
pub apply_filter_lem :
    (s : TuiState)
    → IsWellFormed s.filter_editor
    → (s.filter_editor.parse_state ≡ valid → IsAccepted s (apply_filter s))
      × (s.filter_editor.parse_state ≢ valid → IsRefused s (apply_filter s))
unfolding apply_filter
apply_filter_lem s (b, p, i) = (
  λ h.
      let (f, e) = (filter_parse_state_lem s.filter_editor.buffer).0 (sym p ∙ h) in
      accepted s s.filter_editor.parse_state (parse s.filter_editor.buffer) f h refl e,
  λ n. refused s s.filter_editor.parse_state (parse s.filter_editor.buffer) n,
)
