-- ===== src/Surgical/Edit.antt =====
-- The helpers of zenith-vite-plugin/src/surgical.ts that change one element: `updateAttribute`,
-- `updateStyleAttribute`, `updateTextContent`, `createJSXElement`, and the insertion of a child. A
-- node that a patch makes has the identity `made`; no search looks for it.
pub mod Attributes
pub mod Children
use zenith_extension.Prelude.{
  ℕ, zero, suc, ◌+◌, Bool, true, false, not, ◌&&◌, ◌||◌, Option, none, some, List, [], ◌∷◌, ◌==◌,
  ltb, min, if◌then◌else◌,
}
use zenith_extension.Prelude.Text.{Text, codes, text_eq, split}
use zenith_extension.Prelude.Decimal.{is_digit}
use zenith_extension.Styles.{Styles, lookup}
use zenith_extension.Jsx.{
  parse_float, Name, ident, Node, Nodes, element, fragment, jsx_text, container, attribute,
  bare_attribute, object, property, string_literal, numeric_literal, nil, cons,
}
use zenith_extension.Injector.Components.{append}

abbrev pub made : ℕ
made = 0

-- `\d+` and then what `rest` accepts
unfoldable pub digits_then : (Text → Bool) → Text → Bool
digits_then rest [] = false
digits_then rest (c ∷ []) = is_digit c && rest []
digits_then rest (c ∷ d ∷ s) =
    is_digit c && (if is_digit d then digits_then rest (d ∷ s) else rest (d ∷ s))

abbrev is_end : Text → Bool
is_end [] = true
is_end (c ∷ s) = false

-- `(\.\d+)?$`
unfoldable pub is_fraction : Text → Bool
unfolding digits_then
is_fraction [] = true
is_fraction (c ∷ s) = c == b'.' && digits_then is_end s

-- `/^-?\d+(\.\d+)?$/.test(value)`
unfoldable pub is_numeric : Text → Bool
unfolding digits_then is_fraction
is_numeric [] = false
is_numeric (c ∷ s) = digits_then is_fraction (if c == b'-' then s else c ∷ s)

-- A value as it is written: `t.numericLiteral(parseFloat(value))` or `t.stringLiteral(value)`.
unfoldable pub literal : Text → Node
unfolding is_numeric
literal value =
    if is_numeric value then numeric_literal (parse_float value) else string_literal value

-- `a => t.isJSXAttribute(a) && t.isJSXIdentifier(a.name) && a.name.name === name`
unfoldable pub is_attribute : Text → Node → Bool
is_attribute name (attribute key v) = text_eq key name
is_attribute name (bare_attribute key) = text_eq key name
is_attribute name _ = false

-- `findIndex` and `splice(idx, 1)`: the first attribute of that name is taken out.
unfoldable pub remove_attribute : Text → Nodes → Nodes
unfolding is_attribute
remove_attribute name nil = nil
remove_attribute name (cons a attrs) =
    if is_attribute name a then attrs else cons a (remove_attribute name attrs)

abbrev pub attribute_value : Text → Node
attribute_value value =
    if is_numeric value
    then container (numeric_literal (parse_float value))
    else string_literal value

-- `updateAttribute`
unfoldable pub update_attribute : Text → Text → Nodes → Nodes
unfolding remove_attribute is_numeric
update_attribute name value attrs =
    append (remove_attribute name attrs) (cons (attribute name (attribute_value value)) nil)

-- `newStyles[key]` is a non-empty string.
abbrev is_truthy : Option Text → Bool
is_truthy none = false
is_truthy (some []) = false
is_truthy (some (c ∷ s)) = true

-- The properties that are kept.
unfoldable pub keep_properties : Styles → Nodes → Nodes
unfolding lookup
keep_properties news nil = nil
keep_properties news (cons (property key v) ps) =
    if is_truthy (lookup key news)
    then keep_properties news ps
    else cons (property key v) (keep_properties news ps)
keep_properties news (cons p ps) = cons p (keep_properties news ps)

-- `existingProps`, from the first `style` attribute, if its value is an object literal.
unfoldable pub existing_properties : Styles → Nodes → Nodes
unfolding keep_properties
existing_properties news nil = nil
existing_properties news (cons (attribute key (container (object ps))) attrs) =
    if text_eq key (codes "style") then keep_properties news ps else existing_properties news attrs
existing_properties news (cons (attribute key v) attrs) =
    if text_eq key (codes "style") then nil else existing_properties news attrs
existing_properties news (cons (bare_attribute key) attrs) =
    if text_eq key (codes "style") then nil else existing_properties news attrs
existing_properties news (cons a attrs) = existing_properties news attrs

unfoldable pub new_properties : Styles → Nodes
unfolding literal
new_properties [] = nil
new_properties ((key, value) ∷ news) = cons (property key (literal value)) (new_properties news)

-- `updateStyleAttribute`
unfoldable pub update_style_attribute : Styles → Nodes → Nodes
unfolding remove_attribute existing_properties new_properties
update_style_attribute [] attrs = attrs
update_style_attribute ((k, v) ∷ news) attrs = append (remove_attribute (codes "style") attrs) (
    cons
      (attribute (codes "style") (
        container (
          object
            (append (existing_properties ((k, v) ∷ news) attrs) (new_properties ((k, v) ∷ news))))))
      nil)

-- `<br />`
abbrev pub line_break : Node
line_break = element made (ident (codes "br")) true nil nil

abbrev text_then : Text → Nodes → Nodes
text_then [] ns = ns
text_then (c ∷ s) ns = cons (jsx_text (c ∷ s)) ns

-- The nodes of a text: a text for each line that is not empty, with a break after all but the last.
unfoldable pub line_nodes : List Text → Nodes
line_nodes [] = nil
line_nodes (part ∷ []) = text_then part nil
line_nodes (part ∷ next ∷ parts) = text_then part (cons line_break (line_nodes (next ∷ parts)))

unfoldable pub text_nodes : Text → Nodes
unfolding split line_nodes
text_nodes s = line_nodes (split 10 s)

-- `t.isJSXElement(c) || t.isJSXFragment(c)`
unfoldable pub is_jsx : Node → Bool
is_jsx (element loc name closed attrs kids) = true
is_jsx (fragment kids) = true
is_jsx _ = false

unfoldable pub has_jsx : Nodes → Bool
unfolding is_jsx
has_jsx nil = false
has_jsx (cons n ns) = is_jsx n || has_jsx ns

abbrev pub has_multiple : Nodes → Bool
has_multiple nil = false
has_multiple (cons n nil) = false
has_multiple (cons n (cons m ns)) = true

-- The first text is replaced; `none` if there is none.
unfoldable pub replace_first_text : Nodes → Nodes → Option Nodes
replace_first_text new nil = none
replace_first_text new (cons (jsx_text s) ns) = some (append new ns)
replace_first_text new (cons n ns) = elim (replace_first_text new ns) [
  | none ↦ none
  | some ms ↦ some (cons n ms)
]

-- `updateTextContent`, on the children
unfoldable pub update_text_content : Text → Nodes → Nodes
unfolding text_nodes has_jsx replace_first_text
update_text_content s kids =
    if not (has_jsx kids) || not (has_multiple kids)
    then text_nodes s
    else elim (replace_first_text (text_nodes s) kids) [
      | none ↦ append (text_nodes s) kids
      | some ms ↦ ms
    ]

pub data Position : Type 0 where
  -- `type === "append"`, or an index position with no index
  at_end at_start : Position
  at_index : ℕ → Position

pub record InsertDescriptor : Type 0 where
  pub tag_name : Text
  pub text_content : Text
  pub attributes : Styles
  pub position : Position

abbrev lower : Text → Text
lower [] = []
lower (c ∷ s) = (if ltb c b'A' || ltb b'Z' c then c else c + 32) ∷ lower s

unfoldable pub is_member : Text → List Text → Bool
is_member s [] = false
is_member s (t ∷ ts) = text_eq s t || is_member s ts

abbrev self_closing_tags : List Text
self_closing_tags =
    codes "img" ∷ codes "input" ∷ codes "br" ∷ codes "hr" ∷ codes "meta" ∷ codes "link" ∷ []

unfoldable pub string_attributes : Styles → Nodes
string_attributes [] = nil
string_attributes ((k, v) ∷ rest) = cons (attribute k (string_literal v)) (string_attributes rest)

-- `createJSXElement`; tag names are ASCII.
unfoldable pub create_element : InsertDescriptor → Node
unfolding is_member string_attributes
create_element d =
    let closes = is_member (lower d.tag_name) self_closing_tags in
    element made (ident d.tag_name) closes (string_attributes d.attributes)
      (if closes then nil else text_then d.text_content nil)

-- Before the element or fragment with that index among its kind, or at the end.
unfoldable pub insert_at : ℕ → Node → Nodes → Nodes
unfolding is_jsx
insert_at k new nil = cons new nil
insert_at zero new (cons n ns) =
    if is_jsx n then cons new (cons n ns) else cons n (insert_at zero new ns)
insert_at (suc k) new (cons n ns) = cons n (insert_at (if is_jsx n then k else suc k) new ns)

unfoldable pub insert_child : InsertDescriptor → Nodes → Nodes
unfolding create_element insert_at
insert_child d kids = elim d.position [
  | at_end ↦ append kids (cons (create_element d) nil)
  | at_start ↦ cons (create_element d) kids
  | at_index k ↦ insert_at k (create_element d) kids
]
