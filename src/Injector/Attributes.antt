-- ===== src/Injector/Attributes.antt =====
-- What the visitor of `injectGhostIds` (zenith-vite-plugin/src/injector.ts) writes into the tree: the
-- ID, the fingerprint and the lock of each element, as attributes. An attribute with one of their
-- names is taken not to hold JSX.
use zenith_extension.Prelude.{
  ℕ, ◌+◌, Bool, false, ◌||◌, List, [], ◌∷◌, ◌++◌, if◌then◌else◌, push, take, length,
}
use zenith_extension.Prelude.Text.{Text, codes, text_eq, join}
use zenith_extension.Prelude.Decimal.{decimal}
use zenith_extension.Jsx.{
  Name, Node, Nodes, element, fragment, jsx_text, container, attribute, bare_attribute, spread,
  object, property, string_literal, numeric_literal, conditional, logical, call, member, function,
  block, return_void, return_value, if_then, if_else, other, nil, cons,
}
use zenith_extension.Jsx.Names.{tag_name}
use zenith_extension.Injector.{
  Place, child, statement, free, after, inside, argument_of, is_logic_zone, segment, is_skipped,
}
use zenith_extension.Injector.Components.{append}
use zenith_extension.Surgical.Edit.{is_attribute}

-- `node.attributes.filter(...)`: all attributes of the name are taken out.
unfoldable pub strip : Text → Nodes → Nodes
unfolding is_attribute
strip name nil = nil
strip name (cons a attrs) =
    if is_attribute name a then strip name attrs else cons a (strip name attrs)

-- `updateAttr`
unfoldable pub update_attr : Text → Text → Nodes → Nodes
unfolding strip
update_attr name value attrs =
    append (strip name attrs) (cons (attribute name (string_literal value)) nil)

-- The values of the `className` attributes that are string literals.
unfoldable pub static_classes : Nodes → List Text
static_classes nil = []
static_classes (cons (attribute name (string_literal s)) attrs) =
    if text_eq name (codes "className") then s ∷ static_classes attrs else static_classes attrs
static_classes (cons a attrs) = static_classes attrs

-- The tags of the child elements.
unfoldable pub child_tags : Nodes → List Text
child_tags nil = []
child_tags (cons (element loc name closed attrs kids) ns) = tag_name name ∷ child_tags ns
child_tags (cons n ns) = child_tags ns

unfoldable pub count_tag : Text → List Text → ℕ
count_tag tag [] = 0
count_tag tag (t ∷ tags) = (if text_eq t tag then 1 else 0) + count_tag tag tags

unfoldable pub attribute_count : Nodes → ℕ
attribute_count nil = 0
attribute_count (cons a attrs) = 1 + attribute_count attrs

-- `fingerprint`, with `siblingCount` and `tagInstanceIdx` as the code counts them: over the children
-- of the element itself.
unfoldable pub fingerprint : Name → Nodes → Nodes → Text
unfolding static_classes child_tags
fingerprint name attrs kids =
    let tags = child_tags kids in
    tag_name name
    ++ codes "|"
    ++ join b' ' (static_classes attrs)
    ++ codes "|"
    ++ join b',' (take 5 tags)
    ++ codes "|s"
    ++ decimal (length tags)
    ++ codes "|a"
    ++ decimal (attribute_count attrs)
    ++ codes "|i"
    ++ decimal (count_tag (tag_name name) tags)

abbrev pub fingerprint_name : Text
fingerprint_name = codes "data-zenith-fingerprint"

abbrev pub locked_name : Text
locked_name = codes "data-zenith-logic-locked"

-- The attributes that an element gets.
unfoldable pub tagged : Text → Text → Text → Bool → Nodes → Nodes
unfolding update_attr
tagged wanted id print locked attrs =
    let both = update_attr fingerprint_name print (update_attr wanted id attrs) in
    if locked then update_attr locked_name (codes "true") both else both

module _ (wanted file : Text) where
  -- The tree behind the visitor, with the arguments of `entries`.
  unfoldable mutual
    pub inject : List Text → Bool → Place → Node → Node
    inject chain locked place (element loc name closed attrs kids) =
        let chain' = push chain (segment name place) in
        let below = inject_all chain' locked free attrs in
        element loc name closed
          (if is_skipped wanted name attrs
            then below
            else tagged wanted (join b':' (file ∷ chain')) (fingerprint name attrs kids) locked
                below)
          (inject_all chain' locked (child 0) kids)
    inject chain locked place (fragment kids) =
        fragment (inject_all chain locked (inside place) kids)
    inject chain locked place (jsx_text s) = jsx_text s
    inject chain locked place (container e) =
        container (inject chain (locked || is_logic_zone place) free e)
    inject chain locked place (attribute name v) = attribute name (inject chain locked free v)
    inject chain locked place (bare_attribute name) = bare_attribute name
    inject chain locked place (spread e) = spread (inject chain locked free e)
    inject chain locked place (object ps) = object (inject_all chain locked free ps)
    inject chain locked place (property name v) = property name (inject chain locked free v)
    inject chain locked place (string_literal s) = string_literal s
    inject chain locked place (numeric_literal s) = numeric_literal s
    inject chain locked place (conditional c a b) =
        conditional (inject chain locked free c) (inject chain locked free a)
          (inject chain locked free b)
    inject chain locked place (logical a b) =
        logical (inject chain locked free a) (inject chain locked free b)
    inject chain locked place (call f args) =
        call (inject chain locked free f) (inject_all chain locked free args)
    inject chain locked place (member e name) = member (inject chain locked free e) name
    inject chain locked place (function body) = function (inject chain locked free body)
    inject chain locked place (block ss) = block (inject_all chain locked (statement 0) ss)
    inject chain locked place return_void = return_void
    inject chain locked place (return_value e) =
        return_value (inject chain locked (argument_of place) e)
    inject chain locked place (if_then c a) =
        if_then (inject chain locked free c) (inject chain locked free a)
    inject chain locked place (if_else c a b) =
        if_else (inject chain locked free c) (inject chain locked free a)
          (inject chain locked free b)
    inject chain locked place (other ns) = other (inject_all chain locked free ns)

    pub inject_all : List Text → Bool → Place → Nodes → Nodes
    inject_all chain locked place nil = nil
    inject_all chain locked place (cons n ns) =
        cons (inject chain locked place n) (inject_all chain locked (after place n) ns)

  -- The tree of a file that is printed.
  unfoldable pub inject_file : Node → Node
  unfolding inject
  inject_file ast = inject [] false free ast
