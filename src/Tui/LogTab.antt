-- ===== src/Tui/LogTab.antt =====
-- `LogTab` of src/tui/state.rs: the two pages of logs.
use tlscope_rs.Text.{Text, text}

pub data LogTab : Type 0 where
  process tlscope : LogTab

unfoldable pub title : LogTab → Text
unfolding text
title process = text "Process"
title tlscope = text "TLScope"

unfoldable pub label : LogTab → Text
unfolding text
label process = text "process"
label tlscope = text "TLScope"

unfoldable pub empty_message : LogTab → Text
unfolding text
empty_message process = text "No process logs captured yet."
empty_message tlscope = text "No TLScope logs captured yet."

unfoldable pub next : LogTab → LogTab
next process = tlscope
next tlscope = process

unfoldable pub previous : LogTab → LogTab
unfolding next
previous t = next t
