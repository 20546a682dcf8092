-- ===== src/Injector/Written.antt =====
-- The attributes of an element behind the visitor of `injectGhostIds`
-- (zenith-vite-plugin/src/injector.ts).
use zenith_extension.Prelude.Text.{Text}
use zenith_extension.Jsx.{Node, Nodes, element, nil}
use mathlib.Core.Option

abbrev pub attributes_of : Node → Nodes
attributes_of (element loc name closed attrs kids) = attrs
attributes_of _ = nil
