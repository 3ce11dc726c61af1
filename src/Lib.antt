-- ===== src/Lib.antt =====
-- A model of lmux, a terminal multiplexer whose panes hold terminals, agents and GUI windows, with
-- theorems about its state: the tree of panes and the bookkeeping of the application around it, the
-- agents' access rights, the anchors and their windows, the output of a terminal, the saved files
-- and the named sessions.
--
-- The parts and their files. Layout: the tree of splits of crates/lmux/src/layout.rs, and the two
-- functions of crates/lmux/src/state.rs that cut it down to what is shown or saved. App: the
-- bookkeeping of `AppState`, crates/lmux/src/state.rs, with the steps of a run in App/Runs, and the
-- pausing, hiding and ordering of anchors in App/Control; App/Access is what the bus asks of a
-- pane, App/Making a pane made over the bus, and App/Hosted the windows of the Wayland host. Shell:
-- the quoting of a command line, of the same file. Autodetect: which panes become anchors by
-- themselves, crates/lmux-anchor/src/autodetect.rs with the rules of crates/lmux-config/src/lib.rs.
-- Grants: what an agent may do to a pane, crates/lmux/src/agent_control.rs. Anchors: the registry
-- of anchors and its state machine, crates/lmux-anchor/src; Anchors/Sidebar is its order on the
-- screen. Satellites: which anchor owns which GUI window, crates/lmux/src/state/support.rs.
-- Terminal: the bell scanner and the transcript of crates/lmux/src/pane.rs. Bus: payload types,
-- error codes and frames of crates/lmux-bus/src, with Bus/Catalog for the requests, and in
-- Bus/Requests what crates/lmux/src/bus.rs refuses at once. Dispatch: the handling of the requests
-- on panes, anchors and grants, of the same file, with the choice of the window that a launch
-- attaches in Dispatch/Attach. Mcp: the frames of the MCP server and the request for each of its
-- tools, crates/lmux-mcp/src/lib.rs. State: the atomic writer, the saved session and its reader,
-- crates/lmux-state/src, with the conversions of crates/lmux/src/state.rs. Session: named sessions
-- and their index, crates/lmux-session/src. Prelude has what the others share.
--
-- How they interact: an `App` state holds a Layout, an anchor registry (Anchors) and the grants,
-- and its operations call theirs; App/Panes asks Satellites for the anchor that owns a terminal.
-- The conversions of State/Snapshot turn a Layout into what State/Load writes; Session/Store writes
-- its files through State/AtomicWrite, and Session/Migration reads the old file through State/Load.
-- Grants and Terminal use the payload types of Bus/Kinds. App/Access asks Grants before it touches
-- a pane, App/Making types what Shell quotes, and the requests that Mcp makes are those of
-- Bus/Catalog. Dispatch passes what Bus/Requests admits to the operations of App and Grants.
--
-- How the code is read: a struct is a record, an enum a data type, a `&mut` method a function that
-- returns the new value, `Result` and `Option` are values. A `HashMap` or `BTreeMap` is an
-- association list; no theorem assumes an order of it. A machine integer that the code only stores,
-- compares or counts up by saturation is a natural number, with the saturation written out; an
-- `i64` sort key is an integer. An `f64` ratio is only copied, so its type is a parameter. Fresh
-- identifiers and the clock are arguments. The file system is a state, State/Disk, which says for
-- each call to come whether it fails; the text formats (serde_json, toml) are parameters,
-- State/Codec, and a theorem that needs it asks that the saved value's own text is read back; so
-- are, in Mcp, the JSON values with their parser and printer and the decoder of UTF-8, and in
-- Dispatch/Attach the lower case of a text. In App/Access and App/Control, the terminals called and
-- the signals sent are part of a result. The texts of errors and reasons, which are formatted, are data that say what they are
-- about.
--
-- Fuel: the loop of the atomic writer that looks for an unused name has one round more than there
-- are files, and State/AtomicWrite/Loop shows that it never runs out. The loop over the headers of
-- an MCP message has one round more than there are bytes, and Mcp/Ends shows the same of it; the
-- digits of its length have twenty rounds, enough for 64 bits. The way up from a process to its
-- pane has 64 rounds in the code too, and the polling for a window is over the list of polls that
-- there are. All other loops are recursions on their data.
--
-- Bounds: pane ids are `u32`; where they run out the code gives the last id again, and the theorems
-- on new panes ask for one id that is left. `Pane::new` may fail, so the pane it makes is an
-- optional argument, and what a run gets from it is part of the step.
--
-- Not modelled: the widgets, event handlers and rendering (crates/lmux/src/app.rs, the sidebar, the
-- rest of pane.rs and state.rs), the Wayland host and the compositors' backends, the PTY, the
-- command line, the JSON-RPC answers of the MCP server, the notifier and the bus's sockets, which
-- are calls of GTK, Wayland, tokio and the operating system around the parts above. Of the files
-- modelled, the environment lookups, the log lines, the serde attributes and the serde adapters of
-- crates/lmux-session/src/lib.rs are left out, and `Edge::from_xy`, which computes
-- with floats.
pub mod Prelude
pub mod Layout
pub mod Bus
pub mod Grants
pub mod Anchors
pub mod Satellites
pub mod Terminal
pub mod State
pub mod Session
pub mod App
pub mod Shell
pub mod Autodetect
pub mod Mcp
pub mod Dispatch
