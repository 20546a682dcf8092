-- ===== src/Injector/Idempotence.antt =====
-- The injector run on its own output (zenith-vite-plugin/src/injector.ts): "Skip if already tagged".
use zenith_extension.Prelude.{
  ◌≡◌, refl, ap, ap₂, Bool, true, false, ◌||◌, List, [], ◌∷◌, ◌++◌, if◌then◌else◌, push,
}
use zenith_extension.Prelude.Text.{Text, text_eq, join}
use zenith_extension.Jsx.{
  Node, Nodes, element, fragment, jsx_text, container, attribute, bare_attribute, spread, object,
  property, string_literal, numeric_literal, conditional, logical, call, member, function, block,
  return_void, return_value, if_then, if_else, other, nil, cons,
}
use zenith_extension.Injector.{
  Place, child, statement, free, after, inside, argument_of, is_logic_zone, segment, is_skipped,
  entries, entries_all, file_entries,
}
use zenith_extension.Injector.Attributes.{
  fingerprint, fingerprint_name, locked_name, tagged, inject, inject_all, inject_file,
}
use zenith_extension.Injector.Marked.{
  IsMarked, AllMarked, AllMarked-tagged, inject_element-IsMarked, has_attribute-inject_all,
}

module _ (wanted file : Text) where
  -- Where every element is skipped, nothing is recorded and nothing is written.
  mutual
    unfolding entries

    entries_of_IsMarked :
        (n : Node) (c : List Text) (l : Bool) (p : Place)
        → IsMarked wanted n
        → entries wanted file c l p n ≡ []
    entries_of_IsMarked (element loc name closed attrs kids) c l p (s, i, j) =
        rw (s, entries)
          (ap₂ ◌++◌ (entries_all_of_AllMarked attrs _ l free i)
            (entries_all_of_AllMarked kids _ l (child 0) j))
    entries_of_IsMarked (fragment kids) c l p h = entries_all_of_AllMarked kids c l (inside p) h
    entries_of_IsMarked (jsx_text s) c l p h = refl
    entries_of_IsMarked (container e) c l p h =
        entries_of_IsMarked e c (l || is_logic_zone p) free h
    entries_of_IsMarked (attribute name v) c l p h = entries_of_IsMarked v c l free h
    entries_of_IsMarked (bare_attribute name) c l p h = refl
    entries_of_IsMarked (spread e) c l p h = entries_of_IsMarked e c l free h
    entries_of_IsMarked (object ps) c l p h = entries_all_of_AllMarked ps c l free h
    entries_of_IsMarked (property name v) c l p h = entries_of_IsMarked v c l free h
    entries_of_IsMarked (string_literal s) c l p h = refl
    entries_of_IsMarked (numeric_literal s) c l p h = refl
    entries_of_IsMarked (conditional x a b) c l p (i, j, k) =
        ap₂ ◌++◌ (entries_of_IsMarked x c l free i)
          (ap₂ ◌++◌ (entries_of_IsMarked a c l free j) (entries_of_IsMarked b c l free k))
    entries_of_IsMarked (logical a b) c l p (i, j) =
        ap₂ ◌++◌ (entries_of_IsMarked a c l free i) (entries_of_IsMarked b c l free j)
    entries_of_IsMarked (call f args) c l p (i, j) =
        ap₂ ◌++◌ (entries_of_IsMarked f c l free i) (entries_all_of_AllMarked args c l free j)
    entries_of_IsMarked (member e name) c l p h = entries_of_IsMarked e c l free h
    entries_of_IsMarked (function body) c l p h = entries_of_IsMarked body c l free h
    entries_of_IsMarked (block ss) c l p h = entries_all_of_AllMarked ss c l (statement 0) h
    entries_of_IsMarked return_void c l p h = refl
    entries_of_IsMarked (return_value e) c l p h = entries_of_IsMarked e c l (argument_of p) h
    entries_of_IsMarked (if_then x a) c l p (i, j) =
        ap₂ ◌++◌ (entries_of_IsMarked x c l free i) (entries_of_IsMarked a c l free j)
    entries_of_IsMarked (if_else x a b) c l p (i, j, k) =
        ap₂ ◌++◌ (entries_of_IsMarked x c l free i)
          (ap₂ ◌++◌ (entries_of_IsMarked a c l free j) (entries_of_IsMarked b c l free k))
    entries_of_IsMarked (other ns) c l p h = entries_all_of_AllMarked ns c l free h

    entries_all_of_AllMarked :
        (ns : Nodes) (c : List Text) (l : Bool) (p : Place)
        → AllMarked wanted ns
        → entries_all wanted file c l p ns ≡ []
    entries_all_of_AllMarked nil c l p h = refl
    entries_all_of_AllMarked (cons n ns) c l p (i, j) =
        ap₂ ◌++◌ (entries_of_IsMarked n c l p i) (entries_all_of_AllMarked ns c l (after p n) j)

  mutual
    unfolding inject

    inject_of_IsMarked :
        (n : Node) (c : List Text) (l : Bool) (p : Place)
        → IsMarked wanted n
        → inject wanted file c l p n ≡ n
    inject_of_IsMarked (element loc name closed attrs kids) c l p (s, i, j) =
        rw (s, inject)
          (ap₂ (element loc name closed) (inject_all_of_AllMarked attrs _ l free i)
            (inject_all_of_AllMarked kids _ l (child 0) j))
    inject_of_IsMarked (fragment kids) c l p h =
        ap fragment (inject_all_of_AllMarked kids c l (inside p) h)
    inject_of_IsMarked (jsx_text s) c l p h = refl
    inject_of_IsMarked (container e) c l p h =
        ap container (inject_of_IsMarked e c (l || is_logic_zone p) free h)
    inject_of_IsMarked (attribute name v) c l p h =
        ap (attribute name) (inject_of_IsMarked v c l free h)
    inject_of_IsMarked (bare_attribute name) c l p h = refl
    inject_of_IsMarked (spread e) c l p h = ap spread (inject_of_IsMarked e c l free h)
    inject_of_IsMarked (object ps) c l p h = ap object (inject_all_of_AllMarked ps c l free h)
    inject_of_IsMarked (property name v) c l p h =
        ap (property name) (inject_of_IsMarked v c l free h)
    inject_of_IsMarked (string_literal s) c l p h = refl
    inject_of_IsMarked (numeric_literal s) c l p h = refl
    inject_of_IsMarked (conditional x a b) c l p (i, j, k) = cc (
      inject_of_IsMarked x c l free i,
      inject_of_IsMarked a c l free j,
      inject_of_IsMarked b c l free k,
    )
    inject_of_IsMarked (logical a b) c l p (i, j) =
        ap₂ logical (inject_of_IsMarked a c l free i) (inject_of_IsMarked b c l free j)
    inject_of_IsMarked (call f args) c l p (i, j) =
        ap₂ call (inject_of_IsMarked f c l free i) (inject_all_of_AllMarked args c l free j)
    inject_of_IsMarked (member e name) c l p h =
        ap (λ o. member o name) (inject_of_IsMarked e c l free h)
    inject_of_IsMarked (function body) c l p h = ap function (inject_of_IsMarked body c l free h)
    inject_of_IsMarked (block ss) c l p h =
        ap block (inject_all_of_AllMarked ss c l (statement 0) h)
    inject_of_IsMarked return_void c l p h = refl
    inject_of_IsMarked (return_value e) c l p h =
        ap return_value (inject_of_IsMarked e c l (argument_of p) h)
    inject_of_IsMarked (if_then x a) c l p (i, j) =
        ap₂ if_then (inject_of_IsMarked x c l free i) (inject_of_IsMarked a c l free j)
    inject_of_IsMarked (if_else x a b) c l p (i, j, k) = cc (
      inject_of_IsMarked x c l free i,
      inject_of_IsMarked a c l free j,
      inject_of_IsMarked b c l free k,
    )
    inject_of_IsMarked (other ns) c l p h = ap other (inject_all_of_AllMarked ns c l free h)

    inject_all_of_AllMarked :
        (ns : Nodes) (c : List Text) (l : Bool) (p : Place)
        → AllMarked wanted ns
        → inject_all wanted file c l p ns ≡ ns
    inject_all_of_AllMarked nil c l p h = refl
    inject_all_of_AllMarked (cons n ns) c l p (i, j) =
        ap₂ cons (inject_of_IsMarked n c l p i) (inject_all_of_AllMarked ns c l (after p n) j)

  module _ (print_ne : text_eq fingerprint_name wanted ≡ false)
      (locked_ne : text_eq locked_name wanted ≡ false) where
    AllMarked-attributes :
        (id print : Text) (locked : Bool) (b : Bool) (below : Nodes)
        → AllMarked wanted below
        → AllMarked wanted (if b then below else tagged wanted id print locked below)
    AllMarked-attributes id print locked true below h = h
    AllMarked-attributes id print locked false below h =
        AllMarked-tagged wanted id print locked below h

    mutual
      unfolding inject

      inject-IsMarked :
          (n : Node) (c : List Text) (l : Bool) (p : Place)
          → IsMarked wanted (inject wanted file c l p n)
      inject-IsMarked (element loc name closed attrs kids) c l p =
          let chain = push c (segment name p) in
          let below = inject_all wanted file chain l free attrs in
          let id = join b':' (file ∷ chain) in
          let print = fingerprint name attrs kids in
          (
            inject_element-IsMarked wanted file print_ne locked_ne id print l name attrs below
                (has_attribute-inject_all wanted file print_ne locked_ne chain l free attrs),
            AllMarked-attributes id print l (is_skipped wanted name attrs) below
                (inject_all-AllMarked attrs chain l free),
            inject_all-AllMarked kids chain l (child 0),
          )
      inject-IsMarked (fragment kids) c l p = inject_all-AllMarked kids c l (inside p)
      inject-IsMarked (jsx_text s) c l p = tt
      inject-IsMarked (container e) c l p = inject-IsMarked e c (l || is_logic_zone p) free
      inject-IsMarked (attribute name v) c l p = inject-IsMarked v c l free
      inject-IsMarked (bare_attribute name) c l p = tt
      inject-IsMarked (spread e) c l p = inject-IsMarked e c l free
      inject-IsMarked (object ps) c l p = inject_all-AllMarked ps c l free
      inject-IsMarked (property name v) c l p = inject-IsMarked v c l free
      inject-IsMarked (string_literal s) c l p = tt
      inject-IsMarked (numeric_literal s) c l p = tt
      inject-IsMarked (conditional x a b) c l p =
          (inject-IsMarked x c l free, inject-IsMarked a c l free, inject-IsMarked b c l free)
      inject-IsMarked (logical a b) c l p = (inject-IsMarked a c l free, inject-IsMarked b c l free)
      inject-IsMarked (call f args) c l p =
          (inject-IsMarked f c l free, inject_all-AllMarked args c l free)
      inject-IsMarked (member e name) c l p = inject-IsMarked e c l free
      inject-IsMarked (function body) c l p = inject-IsMarked body c l free
      inject-IsMarked (block ss) c l p = inject_all-AllMarked ss c l (statement 0)
      inject-IsMarked return_void c l p = tt
      inject-IsMarked (return_value e) c l p = inject-IsMarked e c l (argument_of p)
      inject-IsMarked (if_then x a) c l p = (inject-IsMarked x c l free, inject-IsMarked a c l free)
      inject-IsMarked (if_else x a b) c l p =
          (inject-IsMarked x c l free, inject-IsMarked a c l free, inject-IsMarked b c l free)
      inject-IsMarked (other ns) c l p = inject_all-AllMarked ns c l free

      inject_all-AllMarked :
          (ns : Nodes) (c : List Text) (l : Bool) (p : Place)
          → AllMarked wanted (inject_all wanted file c l p ns)
      inject_all-AllMarked nil c l p = tt
      inject_all-AllMarked (cons n ns) c l p =
          (inject-IsMarked n c l p, inject_all-AllMarked ns c l (after p n))

    -- If the attribute of the IDs is neither that of the fingerprints nor that of the locks, then
    -- running the injector on a tree that it has written records no entry and changes nothing.
    pub inject_file_idem :
        (ast : Node)
        → (file_entries wanted file (inject_file wanted file ast) ≡ [])
          × (inject_file wanted file (inject_file wanted file ast) ≡ inject_file wanted file ast)
    unfolding inject_file file_entries
    inject_file_idem ast =
        let marked = inject-IsMarked ast [] false free in
        (
          entries_of_IsMarked (inject wanted file [] false free ast) [] false free marked,
          inject_of_IsMarked (inject wanted file [] false free ast) [] false free marked,
        )
