-- ===== src/Injector.antt =====
-- zenith-vite-plugin/src/injector.ts: the visitor of `injectGhostIds`, which walks the syntax tree of
-- a file, gives each JSX element its ghost ID, and records manifest entries. The attributes that it
-- writes are read by no later visit.
pub mod Attributes
pub mod Written
pub mod Marked
pub mod Idempotence
mod Tests
pub mod Plain
pub mod Components
use zenith_extension.Prelude.{
  ℕ, zero, suc, ◌+◌, Bool, true, false, ◌||◌, List, [], ◌∷◌, ◌++◌, ◌==◌, if◌then◌else◌, push, map,
}
use zenith_extension.Prelude.Text.{Text, codes, text_eq, join}
use zenith_extension.Prelude.Decimal.{decimal}
use zenith_extension.Jsx.{
  Name, Node, Nodes, element, fragment, jsx_text, container, attribute, bare_attribute, spread,
  object, property, string_literal, numeric_literal, conditional, logical, call, member, function,
  block, return_void, return_value, if_then, if_else, other, nil, cons,
}
use zenith_extension.Jsx.Names.{tag_name, is_fragment}

-- `GhostManifestEntry`, with the identity of the node for its line and column.
pub record Entry : Type 0 where
  pub id : Text
  pub tag : Text
  pub file : Text
  pub loc : ℕ
  pub is_logic_locked : Bool

-- Where a node stands, as far as `getJSXElementIndex` looks at it: below a JSX element, with the
-- number of elements before it (fragments flattened); below a fragment that is below no element; a
-- statement of a block, with the number of `return` and `if` statements before it; the argument of
-- such a `return`; anywhere else.
pub data Place : Type 0 where
  child : ℕ → Place
  loose : Place
  statement : ℕ → Place
  returned : ℕ → Place
  free : Place

-- The elements that `countFlattened` counts in a list of nodes.
unfoldable mutual
  pub flat_count : Node → ℕ
  flat_count (element loc name closed attrs kids) = 1
  flat_count (fragment kids) = flat_count_all kids
  flat_count _ = 0

  pub flat_count_all : Nodes → ℕ
  flat_count_all nil = 0
  flat_count_all (cons n ns) = flat_count n + flat_count_all ns

-- `return` and `if` statements separate the branches of a function.
unfoldable pub branch_count : Node → ℕ
branch_count return_void = 1
branch_count (return_value e) = 1
branch_count (if_then c a) = 1
branch_count (if_else c a b) = 1
branch_count _ = 0

-- The place of the next sibling.
unfoldable pub after : Place → Node → Place
unfolding flat_count branch_count
after (child n) node = child (n + flat_count node)
after loose node = loose
after (statement k) node = statement (k + branch_count node)
after (returned k) node = returned k
after free node = free

-- `getJSXElementIndex`
unfoldable pub element_index : Place → ℕ
element_index (child n) = n
element_index loose = 0
element_index (statement k) = 0
element_index (returned k) = k
element_index free = 0

-- The children of a fragment.
unfoldable pub inside : Place → Place
inside (child n) = child n
inside _ = loose

-- The argument of a `return`: a `return` that is no statement of its block has index 0.
unfoldable pub argument_of : Place → Place
argument_of (statement k) = returned k
argument_of _ = returned 0

-- A container among the children of an element or fragment is a logic zone.
unfoldable pub is_logic_zone : Place → Bool
is_logic_zone (child n) = true
is_logic_zone loose = true
is_logic_zone _ = false

-- `${tag}.${index}`
unfoldable pub segment : Name → Place → Text
unfolding element_index
segment name place = tag_name name ++ b'.' ∷ decimal (element_index place)

-- `node.attributes.some(attr => t.isJSXAttribute(attr) && attr.name.name === attribute)`
unfoldable pub has_attribute : Text → Nodes → Bool
has_attribute wanted nil = false
has_attribute wanted (cons (attribute name v) ns) = text_eq name wanted || has_attribute wanted ns
has_attribute wanted (cons (bare_attribute name) ns) =
    text_eq name wanted || has_attribute wanted ns
has_attribute wanted (cons _ ns) = has_attribute wanted ns

-- The early returns of the visitor.
unfoldable pub is_skipped : Text → Name → Nodes → Bool
unfolding is_fragment has_attribute
is_skipped wanted name attrs = is_fragment name || has_attribute wanted attrs

module _ (wanted file : Text) where
  unfoldable pub entry : List Text → Bool → ℕ → Name → Entry
  entry chain locked loc name = record {
    id = join b':' (file ∷ chain);
    tag = tag_name name;
    file = file;
    loc = loc;
    is_logic_locked = locked;
  }

  -- What the visitor pushes to `entries` below a node: `chain` holds the segments of the JSX
  -- elements around it, outermost first, and `locked` says whether it is inside a logic zone.
  unfoldable mutual
    pub entries : List Text → Bool → Place → Node → List Entry
    entries chain locked place (element loc name closed attrs kids) =
        let chain' = push chain (segment name place) in
        (if is_skipped wanted name attrs then [] else entry chain' locked loc name ∷ [])
        ++ (entries_all chain' locked free attrs ++ entries_all chain' locked (child 0) kids)
    entries chain locked place (fragment kids) = entries_all chain locked (inside place) kids
    entries chain locked place (jsx_text s) = []
    entries chain locked place (container e) = entries chain (locked || is_logic_zone place) free e
    entries chain locked place (attribute name v) = entries chain locked free v
    entries chain locked place (bare_attribute name) = []
    entries chain locked place (spread e) = entries chain locked free e
    entries chain locked place (object ps) = entries_all chain locked free ps
    entries chain locked place (property name v) = entries chain locked free v
    entries chain locked place (string_literal s) = []
    entries chain locked place (numeric_literal s) = []
    entries chain locked place (conditional c a b) =
        entries chain locked free c ++ (entries chain locked free a ++ entries chain locked free b)
    entries chain locked place (logical a b) =
        entries chain locked free a ++ entries chain locked free b
    entries chain locked place (call f args) =
        entries chain locked free f ++ entries_all chain locked free args
    entries chain locked place (member e name) = entries chain locked free e
    entries chain locked place (function body) = entries chain locked free body
    entries chain locked place (block ss) = entries_all chain locked (statement 0) ss
    entries chain locked place return_void = []
    entries chain locked place (return_value e) = entries chain locked (argument_of place) e
    entries chain locked place (if_then c a) =
        entries chain locked free c ++ entries chain locked free a
    entries chain locked place (if_else c a b) =
        entries chain locked free c ++ (entries chain locked free a ++ entries chain locked free b)
    entries chain locked place (other ns) = entries_all chain locked free ns

    pub entries_all : List Text → Bool → Place → Nodes → List Entry
    entries_all chain locked place nil = []
    entries_all chain locked place (cons n ns) =
        entries chain locked place n ++ entries_all chain locked (after place n) ns

  -- The manifest entries of a file.
  unfoldable pub file_entries : Node → List Entry
  unfolding entries
  file_entries ast = entries [] false free ast
