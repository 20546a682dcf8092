-- ===== src/Tests.antt =====
-- The properties at concrete inputs: a small component file, a patch for one of its elements, and
-- style records.
use zenith_extension.Prelude.{
  ℕ, ◌≡◌, refl, Bool, true, false, not, ◌&&◌, ◌==◌, Bool-cases, none, some, [], ◌∷◌, ◌++◌, Member,
  ◌⊎◌, inl, inr, take, drop, push, if◌then◌else◌,
}
use zenith_extension.Prelude.Text.{Text, Without, codes, join, text_eq}
use zenith_extension.Styles.{Styles, lookup, normalize_styles, is_lower}
use zenith_extension.Styles.Camel.{lookup-normalize_styles, Word, kebab, camel, AllWords}
use zenith_extension.Jsx.{
  Name, ident, Node, Nodes, element, fragment, jsx_text, container, attribute, nil, cons,
  string_literal, object, property, other,
}
use zenith_extension.Jsx.Names.{tag_name, patcher_tag_name}
use zenith_extension.Prelude.Decimal.{decimal}
use zenith_extension.Injector.Plain.{AllPlain, IsSimpleTag}
use zenith_extension.Injector.{
  Entry, file_entries, is_skipped, entry, segment, argument_of, after, inside,
}
use zenith_extension.Injector.Components.{Around, IsQuiet, direct, within, component_file}
use zenith_extension.Surgical.Components.{file_entries-IsFound, IsFound}
use zenith_extension.Prelude.Int.{pos}
use zenith_extension.Injector.{returned, element_index}
use zenith_extension.Styles.Laws.{last_value}
use zenith_extension.Surgical.Resolve.{Target, is_dynamic, read_selector}
use zenith_extension.Surgical.Selectors.{read_selector-segment}
use zenith_extension.Surgical.Edit.{
  update_attribute, attribute_value, update_style_attribute, text_nodes, update_text_content,
  is_jsx, insert_at, has_multiple, is_attribute, remove_attribute,
}
use zenith_extension.Surgical.Edit.Attributes.{
  HasOnce, find_attribute, find_attribute-update, last_property, style_of, written,
  style_properties, last_property-update_style_attribute,
}
use zenith_extension.Surgical.Edit.Children.{
  read_text, read_text-text_nodes, old_jsx, old_jsx-update_text_content, jsx_children,
  jsx_children-insert_at,
}
use zenith_extension.Surgical.Patch.Locality.{outside}
use zenith_extension.Surgical.Patch.Outcome.{patch-eq-ok, patch-noop, patch-expected_tag}
use zenith_extension.Surgical.Patch.{Instructions, is_structural, update, edit, patch}
use zenith_extension.Surgical.Patch.Pipeline.{patch-Member}
use zenith_extension.Surgical.Locate.{ok, resolve}

abbrev title : Node
title = element 40 (ident (codes "h1")) false nil (cons (jsx_text (codes "Hi")) nil)

abbrev first_line : Node
first_line = element 50 (ident (codes "p")) false nil nil

abbrev second_line : Node
second_line = element 60 (ident (codes "p")) false nil (cons (jsx_text (codes "two")) nil)

abbrev body : Nodes
body = cons title (cons (fragment (cons first_line (cons second_line nil))) nil)

-- `import ...; export const App = () => {...}; ...`
abbrev exported : Around
exported =
    within (cons (other nil) nil) (within nil (within (cons (other nil) nil) direct nil) nil)
      (cons (other nil) nil)

exported-IsQuiet : IsQuiet exported
exported-IsQuiet = ((tt, tt), (tt, ((tt, tt), tt, tt), tt), (tt, tt))

abbrev app : Node
app = component_file exported nil (element 30 (ident (codes "div")) false nil body) nil

abbrev id_name : Text
id_name = codes "data-zenith-id"

abbrev app_path : Text
app_path = codes "src/App.tsx"

abbrev second_entry : Entry
second_entry = record {
  id = codes "src/App.tsx:div.0:p.2";
  tag = codes "p";
  file = app_path;
  loc = 60;
  is_logic_locked = false;
}

second_entry-Member : Member second_entry (file_entries id_name app_path app)
unfolding file_entries is_skipped text_eq entry join tag_name segment decimal argument_of after
    inside
second_entry-Member = inr (inr (inr (inl refl)))

abbrev div_name : Name
div_name = ident (codes "div")

abbrev lacks : ℕ → Text → Bool
lacks sep [] = true
lacks sep (c ∷ s) = not (c == sep) && lacks sep s

lacks-Without : (sep : ℕ) (s : Text) → lacks sep s ≡ true → Without sep s
lacks-Without sep [] h = tt
lacks-Without sep (c ∷ s) h = elim (Bool-cases (c == sep)) [
  | inl y ↦ cc (rw y at h)
  | inr n ↦ (n, lacks-Without sep s (rw n at h))
]

app_path-Without : Without b':' app_path
app_path-Without = lacks-Without b':' app_path refl

simple : (s : Text) → lacks b'.' s ≡ true → lacks b':' s ≡ true → IsSimpleTag (ident s)
simple s h k = (lacks-Without b'.' s h, lacks-Without b':' s k)

div_name-IsSimpleTag : IsSimpleTag div_name
div_name-IsSimpleTag = simple (codes "div") refl refl

body-AllPlain : AllPlain body
body-AllPlain =
    let p : IsSimpleTag (ident (codes "p")) = simple (codes "p") refl refl in
    ((simple (codes "h1") refl refl, tt, (tt, tt)), (((p, tt, tt), ((p, tt, (tt, tt)), tt)), tt))

file_entries-IsFound_example : IsFound app (some (codes "p||s0")) second_entry
file_entries-IsFound_example =
    file_entries-IsFound app_path exported nil 30 div_name false nil body nil (some (codes "p||s0"))
      app_path-Without div_name-IsSimpleTag exported-IsQuiet tt tt id_name second_entry tt
      body-AllPlain second_entry-Member

abbrev rename : Instructions
rename = record {
  zenith_id = codes "src/App.tsx:div.0:p.2";
  fingerprint = none;
  styles = some ((codes "color", codes "red") ∷ []);
  class_name = none;
  text_content = some (codes "Two");
  delete = false;
  insert = none;
  move = none;
  group = none;
  ungroup = false;
  duplicate = false;
  reparent = none;
  expected_tag = none;
  content_update = none;
}

abbrev remove_nothing : ℕ → Node → Node
remove_nothing loc ast = ast

patch-Member_example : patch remove_nothing rename app ≡ ok (update 60 (edit rename) app)
patch-Member_example =
    patch-Member remove_nothing app_path exported nil 30 div_name false nil body nil id_name
      second_entry rename app_path-Without div_name-IsSimpleTag exported-IsQuiet tt tt tt
      body-AllPlain second_entry-Member refl refl refl refl

abbrev renamed : Node
renamed = update 60 (edit rename) app

patch-eq-ok_example :
    (t : Target) × (resolve rename.zenith_id none app ≡ ok t)
    × (false ≡ false)
    × ((is_structural rename ≡ true) ⊎ ((t.locked ≡ false) × (is_dynamic t.origin ≡ false)))
    × (update t.loc (edit rename) app ≡ renamed)
    × (outside t.loc renamed ≡ outside t.loc app)
patch-eq-ok_example = patch-eq-ok remove_nothing rename app renamed refl patch-Member_example

abbrev copy : Instructions
copy = record rename { styles = none; text_content = none; duplicate = true }

copied : patch remove_nothing copy app ≡ ok (update 60 (edit copy) app)
copied =
    patch-Member remove_nothing app_path exported nil 30 div_name false nil body nil id_name
      second_entry copy app_path-Without div_name-IsSimpleTag exported-IsQuiet tt tt tt
      body-AllPlain second_entry-Member refl refl refl refl

patch-noop_example : update 60 (edit copy) app ≡ app
patch-noop_example =
    patch-noop remove_nothing copy app (update 60 (edit copy) app) refl refl refl refl refl refl
      copied

abbrev with_tag : Instructions
with_tag = record rename { fingerprint = some (codes "p||s0"); expected_tag = some (codes "h1") }

patch-expected_tag_example :
    patch remove_nothing with_tag app
    ≡ patch remove_nothing (record with_tag { expected_tag = none }) app
patch-expected_tag_example =
    let (o, d, found) = file_entries-IsFound_example in
    patch-expected_tag remove_nothing with_tag (record { loc = 60; locked = false; origin = o }) app
      found refl refl

abbrev old_attributes : Nodes
old_attributes = cons (attribute (codes "className") (string_literal (codes "wide"))) (
    cons
      (attribute (codes "style") (
        container (
          object (
            cons (property (codes "color") (string_literal (codes "blue")))
              (cons (property (codes "top") (string_literal (codes "1rem"))) nil)))))
      nil)

class_name-HasOnce : HasOnce (codes "className") old_attributes
unfolding find_attribute remove_attribute is_attribute text_eq
class_name-HasOnce = refl

style-HasOnce : HasOnce (codes "style") old_attributes
unfolding find_attribute remove_attribute is_attribute text_eq
style-HasOnce = refl

first_line-is_jsx : is_jsx first_line ≡ true
unfolding is_jsx
first_line-is_jsx = refl

find_attribute-update_example :
    find_attribute (codes "style") (update_attribute (codes "className") (codes "7") old_attributes)
    ≡ (if text_eq (codes "className") (codes "style")
        then some (attribute (codes "className") (attribute_value (codes "7")))
        else find_attribute (codes "style") old_attributes)
find_attribute-update_example =
    find_attribute-update (codes "className") (codes "7") (codes "style") old_attributes
      class_name-HasOnce

abbrev old_style : Nodes
old_style =
    cons (property (codes "color") (string_literal (codes "blue")))
      (cons (property (codes "top") (string_literal (codes "1rem"))) nil)

old_style-found : style_properties (find_attribute (codes "style") old_attributes) ≡ some old_style
unfolding style_properties find_attribute is_attribute text_eq
old_style-found = refl

last_property-update_style_attribute_example :
    last_property
      (codes "top")
      (style_of (update_style_attribute ((codes "color", codes "red") ∷ []) old_attributes))
    ≡ written
        (last_value (codes "top") ((codes "color", codes "red") ∷ []))
        (last_property (codes "top") old_style)
last_property-update_style_attribute_example =
    last_property-update_style_attribute (codes "top") ((codes "color", codes "red") ∷ [])
      old_attributes old_style style-HasOnce old_style-found

read_text-text_nodes_example : read_text (text_nodes (codes "a b")) ≡ codes "a b"
read_text-text_nodes_example = read_text-text_nodes (codes "a b")

old_jsx-update_text_content_example :
    old_jsx (update_text_content (codes "x") body)
    ≡ (if has_multiple body then old_jsx body else [])
old_jsx-update_text_content_example = old_jsx-update_text_content (codes "x") body

jsx_children-insert_at_example :
    jsx_children (insert_at 1 first_line body)
    ≡ take 1 (jsx_children body) ++ first_line ∷ drop 1 (jsx_children body)
jsx_children-insert_at_example = jsx_children-insert_at 1 first_line body first_line-is_jsx

read_selector-segment_example :
    read_selector (segment div_name (returned 12))
    ≡ record { expected_tag = codes "div"; expected_index = some (pos 12) }
unfolding patcher_tag_name element_index
read_selector-segment_example = read_selector-segment div_name (returned 12) div_name-IsSimpleTag

abbrev raw_styles : Styles
raw_styles = (codes "font-size", codes "1px") ∷ (codes "fontSize", codes "2px") ∷ []

abbrev size : Word
size = record { letter = b's'; rest = codes "ize" }

size-AllWords : AllWords (size ∷ [])
unfolding is_lower
size-AllWords = (refl, lacks-Without b'-' (codes "ize") refl, tt)

lookup-normalize_styles_example :
    lookup
      (codes "fontSize")
      (normalize_styles (push raw_styles (kebab (codes "font") (size ∷ []), codes "3px")))
    ≡ (if text_eq (camel (codes "font") (size ∷ [])) (codes "fontSize")
        then some (codes "3px")
        else lookup (codes "fontSize") (normalize_styles raw_styles))
lookup-normalize_styles_example =
    lookup-normalize_styles (codes "fontSize") (codes "font") (codes "3px") (size ∷ []) raw_styles
      (lacks-Without b'-' (codes "font") refl) size-AllWords
