-- ===== src/Lib.antt =====
-- The core of TLScope, a proxy with a terminal interface: what it keeps of the traffic, how it
-- filters, suggests, redacts and exports, the logs it shows, what each key does, what it sends on for a
-- client, which processes it waits for,
-- and the launcher.
--
-- Parts of the program and the files that model them (paths from the repository's root):
--   Base           Boolean tests, lists and results over native numbers; orders.
--   Text           `str` as a list of characters, with byte offsets and UTF-8 (Text/Offset, Text/Utf8).
--                  A slice off a character boundary panics in Rust: here the character in the way is
--                  left out of the front, and the editor's invariant excludes the case.
--   Logs/Child, Logs/Diagnostics
--                  src/process/logs.rs and src/diagnostics/logs.rs: two bounded logs (`push`,
--                  `snapshot`, `clipboard_text`), the cleaning of a line, and the process-wide slot
--                  that names the store which takes tracing events (`World`).
--   Capture/Body, Capture/Entry
--                  src/capture/model.rs: `CapturedBody` (`push_capture`, `from_bytes`) and
--                  `TrafficEntry`.
--   Capture/Store, Capture/Filter, Capture/SortedVec
--                  src/capture/store.rs: `TrafficStore` with its `FilterIndex`, and `TrafficFilter`
--                  (`parse`, `matches`). `binary_search` and `partition_point` are the loop of the
--                  standard library, on fuel: as many rounds as the vector is long, which a search
--                  that halves its range does not use up (Capture/SortedVec/Search).
--   Capture/Suggest
--                  src/capture/filter_suggestions.rs: the token at the cursor, the suggestions for it
--                  (Suggest/Build), and the verdict on a filter text (Suggest/Verdict).
--   Capture/Decode src/capture/decode.rs: `decode_chunked`, whose loop is on fuel, one more than the
--                  bytes, and takes a line in each round, so that it always ends before; and the
--                  layers undone for a preview (Decode/Preview).
--   Capture/Redact src/capture/redact.rs: secret headers and fields. The JSON and form codecs are the
--                  argument `Codecs`.
--   Capture/Details
--                  src/capture/details.rs: the texts of the details tabs.
--   Capture/Export src/capture/export.rs: the copied curl command and the text report. Export/Shell is a
--                  reader of shell words, which src/ does not have: the results say how a shell reads
--                  what is copied. base64 is an argument.
--   Proxy/Message, Proxy/Http
--                  src/proxy/http.rs: what is read of a head, reading it, and forwarding bodies. httparse
--                  is the argument `Httparse`. Proxy/Stream is the connection: the parts in which bytes
--                  arrive, and a peer that takes a number of them. The loops are on fuel: each round of
--                  `read_header_block` adds a byte and none goes on past the limit, and a body is
--                  forwarded in at most as many rounds as it has bytes.
--   Proxy/Upstream, Proxy/Connect
--                  src/proxy/upstream.rs and src/proxy/connect.rs: where a request goes, the head sent
--                  there, and tunnels. The parser of URLs is the argument `url_parse`.
--   Process/Targets, Process/Tracking
--                  src/process/tracking.rs: which processes belong to the program, and the wait for
--                  their end over the snapshots to come (`Poll`). `climb` is on fuel, two more than the
--                  processes, each of which it visits once. Process/Paths is what it uses of
--                  `std::path`, on Unix.
--   Launcher/Args, Launcher/Field, Launcher/Form, Launcher/Options, Launcher/Complete
--                  src/interactive.rs: the texts of the launcher, its form, the list of files, and the
--                  completion of paths. An index that is out of range, in the rows of the form or in the
--                  columns of the list, is `none`, a panic.
--   Launcher/Run   src/interactive.rs and src/cli.rs: the run that a launch gives (`RunArgs`).
--   Launcher/Authority, Launcher/Activate, Launcher/Select, Launcher/Keys
--                  src/interactive.rs: what each key of the launcher does (`handle_launcher_key`; `none` is
--                  a panic). The files, the launch formats of the platform and the certificate authority
--                  are the record `System` (Launcher/System), whose state a key passes on.
--   Launcher/Shown, Launcher/Target
--                  src/interactive.rs: what is shown of a field, and the command that is given, with a
--                  folder or a shortcut resolved.
--   Config         src/config.rs: the configuration from the arguments; src/process/launcher.rs: the
--                  environment of the child.
--   Tui/Editor, Tui/Visible
--                  src/tui/filter.rs: the line editor, and the part of its text that is drawn
--                  (`none` is a panic).
--   Tui/State, Tui/LogTab, Tui/DetailTab
--                  src/tui/state.rs.
--   Tui/Scroll, Tui/Keys, Tui/Screens, Tui/Dispatch
--                  src/tui/events.rs: moving and scrolling, the filter mode, the keys of each screen,
--                  and `handle_key`.
--   Tui/Loop       src/tui/mod.rs: the turns of `run_loop`, as steps of a session between which the
--                  proxy pushes what it captured.
-- A file below another one proves what its name says of it; the Tests modules run the code and apply
-- the results to concrete inputs.
--
-- How they interact: the proxy reads a head, finds the target, sends its own head there and forwards the
-- bodies, of which it captures the beginning; it pushes entries into the store, which keeps the index that the editor's
-- suggestions are taken from; a key changes the interface's state, and may empty the store; the
-- interface shows the entries that the filter in force lets through.
--
-- Numbers: `u64` counters wrap at 2^64 (`u64_mod`) or saturate as in the source; `u16` parsing is
-- bounded. Times are nanoseconds. Lower case is ASCII's where the source uses ASCII's.
--
-- Not modelled: poisoned locks, drawing, sockets, TLS, HTTP/2, certificates, spawning processes and
-- taking a snapshot of them, and what runs around the keys of the launcher. Arguments stand for what other
-- code does: `Codecs`, `Inflate` (the decompressors of flate2, up to a number of bytes), `Httparse`,
-- `System` (what the launcher asks for), and `Outside` (the text of a details tab as the keys see it, and
-- writing the export file).
pub mod Base
pub mod Text
pub mod Config
pub mod Launcher
pub mod Logs
pub mod Capture
pub mod Process
pub mod Proxy
pub mod Tui
