-- ===== src/Tui/DetailTab.antt =====
-- `DetailTab` of src/tui/state.rs: the pages of a request's details.
use tlscope_rs.Text.{Text, text}

pub data DetailTab : Type 0 where
  overview request response tls timing raw : DetailTab

unfoldable pub title : DetailTab → Text
unfolding text
title overview = text "Overview"
title request = text "Request"
title response = text "Response"
title tls = text "TLS"
title timing = text "Timing"
title raw = text "Raw"

unfoldable pub next : DetailTab → DetailTab
next overview = request
next request = response
next response = tls
next tls = timing
next timing = raw
next raw = overview

unfoldable pub previous : DetailTab → DetailTab
previous overview = raw
previous request = overview
previous response = request
previous tls = response
previous timing = tls
previous raw = timing
