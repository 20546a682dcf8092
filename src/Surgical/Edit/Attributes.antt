-- ===== src/Surgical/Edit/Attributes.antt =====
-- What `updateAttribute` and `updateStyleAttribute` leave in the attributes of an element.
use zenith_extension.Prelude.{
  ◌≡◌, refl, sym, ap, ◌∙◌, true, false, Option, none, some, [], ◌∷◌, arith, Bool-cases, ◌⊎◌, inl,
  inr, if◌then◌else◌,
}
use mathlib.Core.Option.{some-injective}
use zenith_extension.Prelude.Text.{Text, codes, text_eq, text_eq_iff, text_eq_refl}
use zenith_extension.Styles.{Styles, lookup}
use zenith_extension.Styles.Laws.{last_value}
use zenith_extension.Jsx.{
  Node, Nodes, container, attribute, bare_attribute, object, property, nil, cons,
}
use zenith_extension.Injector.Components.{append}
use zenith_extension.Surgical.Edit.{
  literal, is_attribute, remove_attribute, attribute_value, update_attribute, keep_properties,
  existing_properties, new_properties, update_style_attribute,
}

-- The first attribute of a name.
unfoldable pub find_attribute : Text → Nodes → Option Node
find_attribute name nil = none
find_attribute name (cons a attrs) =
    if is_attribute name a then some a else find_attribute name attrs

abbrev pub first {ℓ} : {A : Type ℓ} → Option A → Option A → Option A
first none b = b
first (some a) b = some a

pub find_attribute-append :
    (name : Text) (attrs more : Nodes)
    → find_attribute name (append attrs more)
      ≡ first (find_attribute name attrs) (find_attribute name more)
unfolding find_attribute
find_attribute-append name nil more = refl
find_attribute-append name (cons a attrs) more =
    ground (arith, find_attribute-append name attrs more)

-- An attribute node has one name.
pub is_attribute_ne :
    (name key : Text) (a : Node)
    → text_eq name key ≡ false
    → is_attribute name a ≡ true
    → is_attribute key a ≡ false
unfolding is_attribute
is_attribute_ne name key (attribute k v) h e =
    ground (arith, text_eq_iff k name, text_eq_iff k key, text_eq_iff name key)
is_attribute_ne name key (bare_attribute k) h e =
    ground (arith, text_eq_iff k name, text_eq_iff k key, text_eq_iff name key)
is_attribute_ne name key _ h e = cc

find_attribute-remove_ne :
    (name key : Text) (attrs : Nodes)
    → text_eq name key ≡ false
    → find_attribute key (remove_attribute name attrs) ≡ find_attribute key attrs
unfolding find_attribute remove_attribute
find_attribute-remove_ne name key nil h = refl
find_attribute-remove_ne name key (cons a attrs) h =
    ground (arith, is_attribute_ne name key a h, find_attribute-remove_ne name key attrs h)

-- No attribute has the name twice, as JSX demands.
abbrev pub HasOnce : Text → Nodes → Type 0
HasOnce name attrs = find_attribute name (remove_attribute name attrs) ≡ none

pub first-none {ℓ} : {A : Type ℓ} (o : Option A) → first o none ≡ o
first-none none = refl
first-none (some a) = refl

find_attribute-replace :
    (name key : Text) (v : Node) (attrs : Nodes)
    → HasOnce name attrs
    → find_attribute key (append (remove_attribute name attrs) (cons (attribute name v) nil))
      ≡ (if text_eq name key then some (attribute name v) else find_attribute key attrs)
find_attribute-replace name key v attrs h =
    find_attribute-append key (remove_attribute name attrs) (cons (attribute name v) nil)
    ∙ split (Bool-cases (text_eq name key))
  where
    split :
        (text_eq name key ≡ true) ⊎ (text_eq name key ≡ false)
        → first
            (find_attribute key (remove_attribute name attrs))
            (find_attribute key (cons (attribute name v) nil))
          ≡ (if text_eq name key then some (attribute name v) else find_attribute key attrs)
    split (inl y) =
        let same : name ≡ key = (text_eq_iff name key).0 y in
        rw (y, ← same, h) (unfold find_attribute is_attribute in rw (text_eq_refl name))
    split (inr n) =
        rw (n, find_attribute-remove_ne name key attrs n)
          (unfold find_attribute is_attribute in rw n (first-none (find_attribute key attrs)))

-- After `updateAttribute` the element has the new value under the name and its old attributes under
-- every other name, if it had the name at most once.
pub find_attribute-update :
    (name value key : Text) (attrs : Nodes)
    → HasOnce name attrs
    → find_attribute key (update_attribute name value attrs) ≡ (
        if text_eq name key
        then some (attribute name (attribute_value value))
        else find_attribute key attrs)
unfolding update_attribute
find_attribute-update name value key attrs h =
    find_attribute-replace name key (attribute_value value) attrs h

abbrev properties_of : Option Node → Nodes
properties_of (some (attribute key (container (object ps)))) = ps
properties_of _ = nil

-- The properties of the style object, none where there is no object literal.
unfoldable pub style_of : Nodes → Nodes
style_of attrs = properties_of (find_attribute (codes "style") attrs)

-- The last property of a key, which is the one that counts.
unfoldable pub last_property : Text → Nodes → Option Node
last_property key nil = none
last_property key (cons (property k v) ps) =
    first (last_property key ps) (if text_eq k key then some v else none)
last_property key (cons p ps) = last_property key ps

last_property-append :
    (key : Text) (ps qs : Nodes)
    → last_property key (append ps qs) ≡ first (last_property key qs) (last_property key ps)
unfolding last_property
last_property-append key nil qs = sym (first-none _)
last_property-append key (cons (property k v) ps) qs =
    ground (arith, last_property-append key ps qs)
last_property-append key (cons _ ps) qs = last_property-append key ps qs

existing_properties_lem :
    (news : Styles) (attrs : Nodes)
    → existing_properties news attrs ≡ keep_properties news (style_of attrs)
unfolding existing_properties style_of find_attribute is_attribute
existing_properties_lem news nil = refl
existing_properties_lem news (cons (attribute key (container (object ps))) attrs) =
    ground (arith, existing_properties_lem news attrs)
existing_properties_lem news (cons (attribute key v) attrs) =
    ground (arith, existing_properties_lem news attrs)
existing_properties_lem news (cons (bare_attribute key) attrs) =
    ground (arith, existing_properties_lem news attrs)
existing_properties_lem news (cons _ attrs) = existing_properties_lem news attrs

abbrev pub written : Option Text → Option Node → Option Node
written none old = old
written (some v) old = some (literal v)

last_property-keep :
    (key : Text) (news : Styles) (ps : Nodes)
    → lookup key news ≡ none
    → last_property key (keep_properties news ps) ≡ last_property key ps
unfolding last_property keep_properties
last_property-keep key news nil h = refl
last_property-keep key news (cons (property k v) ps) h =
    ground (arith, text_eq_iff k key, last_property-keep key news ps h)
last_property-keep key news (cons _ ps) h = last_property-keep key news ps h

last_property-new :
    (key : Text) (news : Styles)
    → last_property key (new_properties news) ≡ written (last_value key news) none
unfolding last_property new_properties last_value
last_property-new key [] = refl
last_property-new key ((k, v) ∷ news) = ground (arith, last_property-new key news)

lookup_of_last_value :
    (key : Text) (news : Styles) → last_value key news ≡ none → lookup key news ≡ none
unfolding lookup last_value
lookup_of_last_value key [] h = refl
lookup_of_last_value key ((k, v) ∷ news) h = ground (arith, lookup_of_last_value key news)

style_of-update_lem :
    (k v : Text) (news : Styles) (attrs : Nodes)
    → style_of (update_style_attribute ((k, v) ∷ news) attrs)
      ≡ properties_of (
          find_attribute (codes "style") (
            append (remove_attribute (codes "style") attrs) (
              cons
                (attribute (codes "style") (
                  container (
                    object (
                      append
                        (existing_properties ((k, v) ∷ news) attrs)
                        (new_properties ((k, v) ∷ news))))))
                nil)))
unfolding style_of update_style_attribute
style_of-update_lem k v news attrs = refl

style_of-update :
    (kv : Text × Text) (news : Styles) (attrs : Nodes)
    → HasOnce (codes "style") attrs
    → style_of (update_style_attribute (kv ∷ news) attrs)
      ≡ append (keep_properties (kv ∷ news) (style_of attrs)) (new_properties (kv ∷ news))
unfolding text_eq existing_properties
style_of-update (k, v) news attrs h =
    let all = append (existing_properties ((k, v) ∷ news) attrs) (new_properties ((k, v) ∷ news)) in
    style_of-update_lem k v news attrs
    ∙ ap properties_of
        (find_attribute-replace (codes "style") (codes "style") (container (object all)) attrs h)
    ∙ ap (λ ps. append ps (new_properties ((k, v) ∷ news)))
        (existing_properties_lem ((k, v) ∷ news) attrs)

last_property-update_lem :
    (key : Text) (news : Styles) (attrs : Nodes)
    → HasOnce (codes "style") attrs
    → last_property key (style_of (update_style_attribute news attrs))
      ≡ written (last_value key news) (last_property key (style_of attrs))
last_property-update_lem key [] attrs h = unfold update_style_attribute last_value in refl
last_property-update_lem key ((k, v) ∷ news) attrs h =
    ap (last_property key) (style_of-update (k, v) news attrs h)
    ∙ last_property-append key (keep_properties ((k, v) ∷ news) (style_of attrs)) _
    ∙ ap (λ o. first o (last_property key (keep_properties ((k, v) ∷ news) (style_of attrs))))
        (last_property-new key ((k, v) ∷ news))
    ∙ decided (last_value key ((k, v) ∷ news)) (lookup_of_last_value key ((k, v) ∷ news))
  where
    decided :
        (o : Option Text)
        → (o ≡ none → lookup key ((k, v) ∷ news) ≡ none)
        → first
            (written o none)
            (last_property key (keep_properties ((k, v) ∷ news) (style_of attrs)))
          ≡ written o (last_property key (style_of attrs))
    decided none absent = last_property-keep key ((k, v) ∷ news) (style_of attrs) (absent refl)
    decided (some w) absent = refl

-- The properties of an element's style: none without the attribute, and those of an object literal.
-- Of any other value, such as `styles.box`, they cannot be read.
unfoldable pub style_properties : Option Node → Option Nodes
style_properties none = some nil
style_properties (some (attribute key (container (object ps)))) = some ps
style_properties (some a) = none

style_of-style_properties :
    (o : Option Node) (ps : Nodes) → style_properties o ≡ some ps → properties_of o ≡ ps
unfolding style_properties
style_of-style_properties none ps h = some-injective nil ps h
style_of-style_properties (some (attribute key (container (object qs)))) ps h =
    some-injective qs ps h
style_of-style_properties (some a) ps h = cc

-- If the style of an element is absent or an object literal, and stands there once at most, then
-- after `updateStyleAttribute` the style object has the new value under each key of the new styles,
-- and under every other key the value that it had.
pub last_property-update_style_attribute :
    (key : Text) (news : Styles) (attrs ps : Nodes)
    → HasOnce (codes "style") attrs
    → style_properties (find_attribute (codes "style") attrs) ≡ some ps
    → last_property key (style_of (update_style_attribute news attrs))
      ≡ written (last_value key news) (last_property key ps)
last_property-update_style_attribute key news attrs ps h e =
    last_property-update_lem key news attrs h
    ∙ ap (λ qs. written (last_value key news) (last_property key qs))
        (unfold style_of in style_of-style_properties (find_attribute (codes "style") attrs) ps e)
