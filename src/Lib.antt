-- ===== src/Lib.antt =====
-- Zenith lets a designer edit a running web page and writes each change back into the source. Two
-- parts of zenith-vite-plugin do the core of this. The injector
-- (zenith-vite-plugin/src/injector.ts) walks the syntax tree of a file and gives each JSX element
-- an ID that spells its place, `path:tag.index:tag.index`. The surgical patcher
-- (zenith-vite-plugin/src/surgical.ts) gets such an ID with a list of changes, finds the element
-- again, and changes it in place. The webview keeps the selected element and its styles in stores
-- (zenith-extension/webview-ui/src/stores).
--
-- Prelude holds the shared notation and lemmas: tests, lists, integers, texts as lists of code
-- units, decimal numerals. Jsx is the part of the Babel syntax tree that both sides read;
-- Jsx/Names are the two `getTagName` functions and `isFragment`; Jsx/Inert describes code without
-- JSX.
--
-- Injector is the visitor of `injectGhostIds` with `getJSXElementIndex`, as a function from the
-- tree to the manifest entries; Injector/Attributes is the same visitor as a function to the tree
-- that it leaves, with the fingerprint; Injector/Written, Injector/Marked and Injector/Idempotence
-- have its proofs; Injector/Plain and Injector/Components describe the trees, and the files with
-- one component, for which its output is computed.
--
-- Surgical/Resolve is `matchPath` with `matchInChildren`, `findInExpr` and
-- `checkChildrenForFallback`; Surgical/Locate are the two traversals, by component root and by
-- fingerprint, and the errors; Surgical/Edit are `updateAttribute`, `updateStyleAttribute`,
-- `updateTextContent`, `createJSXElement` and the insertion of a child; Surgical/Removal is the
-- deletion from a list; Surgical/Patch is `patchSourceFile` from the parsed tree to the tree that
-- is printed. Each has its proofs below it; Surgical/Matching, Surgical/Selectors,
-- Surgical/Searching, Surgical/Roundtrip and Surgical/Components lead from the IDs of the injector
-- to the targets of the patcher.
--
-- Selection is the selection store (useSelectionStore.ts with its slices): Selection/Store its
-- state and messages, Selection/Slices and Selection/History its actions, and `step` and `run` the
-- calls of them. An action that reads the clock takes its value. Selection/Invariant and
-- Selection/Undo have the proofs; the bound of 50 entries is `MAX_HISTORY_LENGTH`.
--
-- Explorer is the explorer store (useExplorerStore.ts), with Explorer/Path; System is the system
-- store (useSystemStore.ts), with System/Notifications. Bridge is `throttle` of
-- zenith-extension/webview-ui/src/bridge.ts, through which the store sends its style changes, as a
-- machine over calls and timeouts; Bridge/Burst and Bridge/Order say what it sends.
--
-- Rpc is the table of pending requests of `RpcClient` (zenith-extension/src/rpc_client.ts),
-- through which the extension host talks to its sidecar process, as a machine over calls,
-- messages, timers and the end of the connection; Rpc/Settled has its proofs.
--
-- Host is the extension host (zenith-extension/src/extension.ts): a computation takes the
-- workspace, the sidecars and the trace of what was done, and returns or throws with a new state.
-- A sidecar is a function from everything that was done before to its answer, so that it may
-- answer anything at any time; a handler runs from a message to its end with no other handler in
-- between. Host/Sync is the polling of the sidecar and the status bar, Host/Commands the commands
-- that stage, heal and commit, and Host/Router the handlers of the messages of the webview, by
-- groups; Host/Silent, Host/Answers, Host/Offline, Host/TextEdit and the children of Host/Sync
-- have the proofs. Host/Ports is the search for a free port, whose fuel is the number of ports
-- that it may try, and Host/Startup the life of the handles, as a machine over requests, startups
-- and shutdowns, with its proofs in Host/Startup/Starting. Output channels and the console are
-- left out of the trace. The workspace that a command acts on is given, since it depends on the
-- active editor and on what the user picks.
--
-- Hash is the hash by which the extension and the Vite plugin (zenith-vite-plugin/src/index.ts)
-- name a workspace, on signed 32-bit integers as JavaScript computes it; Hash/Hex prints it.
-- HotPath is the producer of the ring buffer (zenith-extension/src/hot_path.ts), down to the bytes
-- of its file; HotPath/Slots says where it writes and HotPath/Recent what can be read.
--
-- Vite is the hook `transform` of the Vite plugin (zenith-vite-plugin/src/index.ts) with the
-- manifest of zenith-vite-plugin/src/shadow.ts, over given results of `injectGhostIds` on texts;
-- Vite/Cache says when its cache is not seen, and Vite/Proxy is the request to the ghost proxy,
-- whose five attempts are the fuel of its loop.
--
-- Sidecar is the class `SidecarManager` of zenith-extension/src/sidecar.ts, a machine over its
-- calls and the events of its process, sockets and timers; Sidecar/Reconnect counts its attempts
-- to connect again.
--
-- Snapping is `getSnapping` of zenith-extension/webview-ui/src/utils/snapUtils.ts, on whole pixels
-- and counted in half pixels; Snapping/Pairs lists the lines that its loops compare, and
-- Snapping/Nearest is about the place that it chooses.
--
-- Styles is `normalizeStyles` of stores/utils.ts with the object operations that it uses.
--
-- Apart from the loops for which a bound is named above, the functions are structural on the tree,
-- the selector or the list of actions or events, and need no fuel. The nodes that the source
-- compares by `===` carry an identity, and mutation of a node is a change of the element with its
-- identity. The parser, the printer, the cache of the injector, the file system and the log are
-- left out, and so are the parameters of functions, whose default values are taken to hold no JSX;
-- a number is known by a text that `parseFloat` reads as it; the removal of a Babel path that
-- stands in no list is a parameter. The line and column of a manifest entry are replaced by the
-- identity of its node. Except where a hash or a hot-path slot wraps around and where coordinates
-- are signed, numbers are natural numbers without an upper bound, as no index comes near 2 ^ 53.
mod Prelude
pub mod Styles
pub mod Jsx
pub mod Injector
pub mod Surgical
pub mod Selection
pub mod Bridge
pub mod Host
pub mod Hash
pub mod HotPath
pub mod Vite
pub mod Sidecar
pub mod Snapping
pub mod Rpc
pub mod Explorer
pub mod System
mod Tests
