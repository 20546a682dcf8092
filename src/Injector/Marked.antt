-- ===== src/Injector/Marked.antt =====
-- The injector on a tree that it has tagged (zenith-vite-plugin/src/injector.ts).
use zenith_extension.Prelude.{
  ◌≡◌, refl, sym, ap₂, ◌∙◌, Bool, true, false, ◌||◌, List, arith, if◌then◌else◌, Bool-cases, inl,
  inr,
}
use zenith_extension.Prelude.Text.{Text, text_eq, text_eq_iff, text_eq_refl}
use zenith_extension.Jsx.{
  Name, Node, Nodes, element, fragment, jsx_text, container, attribute, bare_attribute, spread,
  object, property, string_literal, numeric_literal, conditional, logical, call, member, function,
  block, return_void, return_value, if_then, if_else, other, nil, cons,
}
use zenith_extension.Jsx.Names.{is_fragment}
use zenith_extension.Injector.{Place, after, has_attribute, is_skipped}
use zenith_extension.Injector.Components.{append}
use zenith_extension.Injector.Attributes.{
  strip, update_attr, fingerprint_name, locked_name, tagged, inject, inject_all,
}
use zenith_extension.Surgical.Edit.{is_attribute}

or-true : (b : Bool) → (b || true) ≡ true
or-true true = refl
or-true false = refl

or_assoc : (a b c : Bool) → (a || (b || c)) ≡ ((a || b) || c)
or_assoc true b c = refl
or_assoc false b c = refl

module _ (wanted : Text) where
  -- The visitor skips every element.
  abbrev mutual
    pub IsMarked : Node → Type 0
    IsMarked (element loc name closed attrs kids) =
        (is_skipped wanted name attrs ≡ true) × AllMarked attrs × AllMarked kids
    IsMarked (fragment kids) = AllMarked kids
    IsMarked (jsx_text s) = Unit
    IsMarked (container e) = IsMarked e
    IsMarked (attribute name v) = IsMarked v
    IsMarked (bare_attribute name) = Unit
    IsMarked (spread e) = IsMarked e
    IsMarked (object ps) = AllMarked ps
    IsMarked (property name v) = IsMarked v
    IsMarked (string_literal s) = Unit
    IsMarked (numeric_literal s) = Unit
    IsMarked (conditional c a b) = IsMarked c × IsMarked a × IsMarked b
    IsMarked (logical a b) = IsMarked a × IsMarked b
    IsMarked (call f args) = IsMarked f × AllMarked args
    IsMarked (member e name) = IsMarked e
    IsMarked (function body) = IsMarked body
    IsMarked (block ss) = AllMarked ss
    IsMarked return_void = Unit
    IsMarked (return_value e) = IsMarked e
    IsMarked (if_then c a) = IsMarked c × IsMarked a
    IsMarked (if_else c a b) = IsMarked c × IsMarked a × IsMarked b
    IsMarked (other ns) = AllMarked ns

    pub AllMarked : Nodes → Type 0
    AllMarked nil = Unit
    AllMarked (cons n ns) = IsMarked n × AllMarked ns

  AllMarked-append : (ns ms : Nodes) → AllMarked ns → AllMarked ms → AllMarked (append ns ms)
  AllMarked-append nil ms h k = k
  AllMarked-append (cons n ns) ms (i, h) k = (i, AllMarked-append ns ms h k)

  AllMarked-strip : (name : Text) (ns : Nodes) → AllMarked ns → AllMarked (strip name ns)
  unfolding strip
  AllMarked-strip name nil h = tt
  AllMarked-strip name (cons n ns) (i, h) = elim (Bool-cases (is_attribute name n)) [
    | inl y ↦ rw (y, strip) (AllMarked-strip name ns h)
    | inr x ↦ rw (x, strip) (i, AllMarked-strip name ns h)
  ]

  AllMarked-update_attr :
      (name value : Text) (ns : Nodes) → AllMarked ns → AllMarked (update_attr name value ns)
  unfolding update_attr
  AllMarked-update_attr name value ns h =
      AllMarked-append (strip name ns) _ (AllMarked-strip name ns h) (tt, tt)

  pub AllMarked-tagged :
      (id print : Text) (locked : Bool) (ns : Nodes)
      → AllMarked ns
      → AllMarked (tagged wanted id print locked ns)
  unfolding tagged
  AllMarked-tagged id print true ns h =
      AllMarked-update_attr locked_name _ _
        (AllMarked-update_attr fingerprint_name print _ (AllMarked-update_attr wanted id ns h))
  AllMarked-tagged id print false ns h =
      AllMarked-update_attr fingerprint_name print _ (AllMarked-update_attr wanted id ns h)

  has_attribute-cons :
      (n : Node) (ns : Nodes)
      → has_attribute wanted (cons n ns) ≡ (is_attribute wanted n || has_attribute wanted ns)
  unfolding has_attribute is_attribute
  has_attribute-cons (attribute name v) ns = refl
  has_attribute-cons (bare_attribute name) ns = refl
  has_attribute-cons _ ns = refl

  has_attribute-append :
      (ns ms : Nodes)
      → has_attribute wanted (append ns ms) ≡ (has_attribute wanted ns || has_attribute wanted ms)
  unfolding has_attribute
  has_attribute-append nil ms = refl
  has_attribute-append (cons n ns) ms =
      rw (has_attribute-cons n (append ns ms), has_attribute-cons n ns, has_attribute-append ns ms)
        (or_assoc (is_attribute wanted n) (has_attribute wanted ns) (has_attribute wanted ms))

  is_attribute_ne :
      (name : Text) (n : Node)
      → text_eq name wanted ≡ false
      → is_attribute name n ≡ true
      → is_attribute wanted n ≡ false
  unfolding is_attribute
  is_attribute_ne name (attribute k v) h e =
      ground (arith, text_eq_iff k name, text_eq_iff k wanted, text_eq_iff name wanted)
  is_attribute_ne name (bare_attribute k) h e =
      ground (arith, text_eq_iff k name, text_eq_iff k wanted, text_eq_iff name wanted)
  is_attribute_ne name _ h e = cc

  has_attribute-strip :
      (name : Text) (ns : Nodes)
      → text_eq name wanted ≡ false
      → has_attribute wanted (strip name ns) ≡ has_attribute wanted ns
  unfolding strip
  has_attribute-strip name nil h = refl
  has_attribute-strip name (cons n ns) h = elim (Bool-cases (is_attribute name n)) [
    | inl y ↦
        rw (y, strip, has_attribute-cons n ns, is_attribute_ne name n h y)
          (has_attribute-strip name ns h)
    | inr x ↦ rw (
      x,
      strip,
      has_attribute-cons n (strip name ns),
      has_attribute-cons n ns,
      has_attribute-strip name ns h,
    )
  ]

  has_attribute-update_attr :
      (value : Text) (ns : Nodes) → has_attribute wanted (update_attr wanted value ns) ≡ true
  unfolding update_attr has_attribute
  has_attribute-update_attr value ns =
      rw (has_attribute-append, text_eq_refl wanted)
        (or-true (has_attribute wanted (strip wanted ns)))

  has_attribute-update_attr_ne :
      (name value : Text) (ns : Nodes)
      → text_eq name wanted ≡ false
      → has_attribute wanted ns ≡ true
      → has_attribute wanted (update_attr name value ns) ≡ true
  unfolding update_attr
  has_attribute-update_attr_ne name value ns e h =
      rw (has_attribute-append, has_attribute-strip name ns e, h) refl

  module _ (file : Text) (print_ne : text_eq fingerprint_name wanted ≡ false)
      (locked_ne : text_eq locked_name wanted ≡ false) where
    has_attribute-tagged :
        (id print : Text) (locked : Bool) (ns : Nodes)
        → has_attribute wanted (tagged wanted id print locked ns) ≡ true
    unfolding tagged
    has_attribute-tagged id print true ns = has_attribute-update_attr_ne locked_name _ _ locked_ne (
        has_attribute-update_attr_ne fingerprint_name print _ print_ne
          (has_attribute-update_attr id ns))
    has_attribute-tagged id print false ns =
        has_attribute-update_attr_ne fingerprint_name print _ print_ne
          (has_attribute-update_attr id ns)

    pub has_attribute-inject_all :
        (chain : List Text) (locked : Bool) (place : Place) (ns : Nodes)
        → has_attribute wanted (inject_all wanted file chain locked place ns)
          ≡ has_attribute wanted ns
    unfolding inject is_attribute
    has_attribute-inject_all chain locked place nil = refl
    has_attribute-inject_all chain locked place (cons n ns) =
        has_attribute-cons (inject wanted file chain locked place n) _
        ∙ ap₂ ◌||◌ (is_attribute-inject chain locked place n)
            (has_attribute-inject_all chain locked (after place n) ns)
        ∙ sym (has_attribute-cons n ns)
      where
        is_attribute-inject :
            (chain : List Text) (locked : Bool) (place : Place) (n : Node)
            → is_attribute wanted (inject wanted file chain locked place n) ≡ is_attribute wanted n
        is_attribute-inject c l p (attribute name v) = refl
        is_attribute-inject c l p (bare_attribute name) = refl
        is_attribute-inject c l p _ = refl

    pub inject_element-IsMarked :
        (id print : Text) (locked : Bool) (name : Name) (attrs below : Nodes)
        → has_attribute wanted below ≡ has_attribute wanted attrs
        → is_skipped wanted name
            (if is_skipped wanted name attrs then below else tagged wanted id print locked below)
          ≡ true
    unfolding is_skipped
    inject_element-IsMarked id print locked name attrs below h =
        elim (Bool-cases (is_skipped wanted name attrs)) [
          | inl y ↦ rw (y, is_skipped) (rw h y)
          | inr n ↦
              rw (n, is_skipped)
                (rw (has_attribute-tagged id print locked below) (or-true (is_fragment name)))
        ]
