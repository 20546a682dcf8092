-- ===== src/Jsx.antt =====
-- The part of the Babel syntax tree of a JSX/TSX file that the injector
-- (zenith-vite-plugin/src/injector.ts) and the surgical patcher (zenith-vite-plugin/src/surgical.ts)
-- read and change. Any other node is `other` with its child nodes in visiting order. An element
-- carries the identity of its node, which the source compares by `===`: its start offset.
pub mod Names
pub mod Inert
use zenith_extension.Prelude.{ℕ, Bool}
use zenith_extension.Prelude.Text.{Text}

-- `JSXIdentifier`, `JSXMemberExpression`, `JSXNamespacedName`
pub data Name : Type 0 where
  ident : Text → Name
  dotted : Name → Text → Name
  namespaced : Text → Text → Name

-- A number, by a text that `parseFloat` reads as it. Two texts may stand for one number, so nothing
-- is said of two numbers that differ.
pub data Number : Type 0 where
  parse_float : Text → Number

mutual
  pub data Node : Type 0 where
    -- identity, name, `selfClosing`, attributes, children
    element : ℕ → Name → Bool → Nodes → Nodes → Node
    fragment : Nodes → Node
    jsx_text : Text → Node
    container : Node → Node
    -- name and value; a name alone; `{...e}`
    attribute : Text → Node → Node
    bare_attribute : Text → Node
    spread : Node → Node
    object : Nodes → Node
    property : Text → Node → Node
    string_literal : Text → Node
    numeric_literal : Number → Node
    conditional : Node → Node → Node → Node
    logical : Node → Node → Node
    -- callee and arguments
    call : Node → Nodes → Node
    -- object and property name
    member : Node → Text → Node
    -- A function, by its body; its parameters hold no JSX in their default values.
    function : Node → Node
    block : Nodes → Node
    return_void : Node
    return_value : Node → Node
    if_then : Node → Node → Node
    if_else : Node → Node → Node → Node
    other : Nodes → Node

  pub data Nodes : Type 0 where
    nil : Nodes
    cons : Node → Nodes → Nodes
