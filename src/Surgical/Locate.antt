-- ===== src/Surgical/Locate.antt =====
-- The traversals of `patchSourceFile` (zenith-vite-plugin/src/surgical.ts) that look for its target:
-- the component root that the first selector part names, and the fingerprint attribute.
use zenith_extension.Prelude.{
  ℕ, ◌+◌, Bool, true, false, not, ◌&&◌, ◌||◌, Option, none, some, List, [], ◌∷◌, if◌then◌else◌,
}
use zenith_extension.Prelude.Text.{Text, codes, text_eq, split}
use zenith_extension.Jsx.{
  Name, Node, Nodes, element, fragment, jsx_text, container, attribute, bare_attribute, spread,
  object, property, string_literal, numeric_literal, conditional, logical, call, member, function,
  block, return_void, return_value, if_then, if_else, other, nil, cons,
}
use zenith_extension.Jsx.Names.{patcher_tag_name}
use zenith_extension.Injector.{branch_count}
use zenith_extension.Surgical.Resolve.{Target, real, read_selector, index_is, match_path}

-- Where a node stands: a child of an element or fragment, a statement of a block behind `k` branch
-- statements, the argument of a `return` with the index that the search counts for it, elsewhere.
pub data Site : Type 0 where
  in_jsx : Site
  statement_at : ℕ → Site
  returned_at : ℕ → Site
  elsewhere : Site

-- What a visit of an opening element sees: its node, its site, and `isInDynamicBlock`.
pub record Visit : Type 0 where
  pub loc : ℕ
  pub name : Name
  pub attrs : Nodes
  pub kids : Nodes
  pub site : Site
  pub is_dynamic : Bool

-- The kinds of expression in a container that lock what is below.
unfoldable pub is_dynamic_expr : Node → Bool
is_dynamic_expr (call f args) = true
is_dynamic_expr (conditional c a b) = true
is_dynamic_expr (logical a b) = true
is_dynamic_expr (function body) = true
is_dynamic_expr _ = false

unfoldable pub is_function : Node → Bool
is_function (function body) = true
is_function _ = false

abbrev is_in_jsx : Site → Bool
is_in_jsx in_jsx = true
is_in_jsx _ = false

-- All branch statements of a block: the loop over the siblings of a `return` that is none of them
-- ends behind the last.
unfoldable pub branch_total : Nodes → ℕ
unfolding branch_count
branch_total nil = 0
branch_total (cons n ns) = branch_count n + branch_total ns

-- The index of the argument of a `return`, in a block with `total` branch statements.
unfoldable pub return_site : ℕ → Site → Site
return_site total (statement_at k) = returned_at k
return_site total _ = returned_at total

unfoldable pub next_site : Site → Node → Site
unfolding branch_count
next_site (statement_at k) n = statement_at (k + branch_count n)
next_site site n = site

unfoldable pub return_index : Site → ℕ
return_index (returned_at k) = k
return_index _ = 0

abbrev pub or_else {ℓ} : {A : Type ℓ} → Option A → Option A → Option A
or_else none b = b
or_else (some a) b = some a

-- `traverse(ast, { JSXOpeningElement })`, stopped at the first visit that gives a result. `total`
-- counts the branch statements of the nearest block.
module _ {A : Type 0} (visit : Visit → Option A) where
  unfoldable mutual
    pub search : ℕ → Bool → Site → Node → Option A
    search total dynamic site (element loc name closed attrs kids) =
        or_else
          (visit (record {
            loc = loc;
            name = name;
            attrs = attrs;
            kids = kids;
            site = site;
            is_dynamic = dynamic;
          }))
          (or_else (search_all total dynamic elsewhere attrs)
            (search_all total dynamic in_jsx kids))
    search total dynamic site (fragment kids) = search_all total dynamic in_jsx kids
    search total dynamic site (jsx_text s) = none
    search total dynamic site (container e) =
        search total (dynamic || (is_in_jsx site && is_dynamic_expr e)) elsewhere e
    search total dynamic site (attribute name v) = search total dynamic elsewhere v
    search total dynamic site (bare_attribute name) = none
    search total dynamic site (spread e) = search total dynamic elsewhere e
    search total dynamic site (object ps) = search_all total dynamic elsewhere ps
    search total dynamic site (property name v) = search total dynamic elsewhere v
    search total dynamic site (string_literal s) = none
    search total dynamic site (numeric_literal s) = none
    search total dynamic site (conditional c a b) =
        or_else (search total dynamic elsewhere c)
          (or_else (search total dynamic elsewhere a) (search total dynamic elsewhere b))
    search total dynamic site (logical a b) =
        or_else (search total dynamic elsewhere a) (search total dynamic elsewhere b)
    search total dynamic site (call f args) =
        or_else (search total (dynamic || is_function f) elsewhere f)
          (search_all total dynamic elsewhere args)
    search total dynamic site (member e name) = search total dynamic elsewhere e
    search total dynamic site (function body) = search total dynamic elsewhere body
    search total dynamic site (block ss) = search_all (branch_total ss) dynamic (statement_at 0) ss
    search total dynamic site return_void = none
    search total dynamic site (return_value e) = search total dynamic (return_site total site) e
    search total dynamic site (if_then c a) =
        or_else (search total dynamic elsewhere c) (search total dynamic elsewhere a)
    search total dynamic site (if_else c a b) =
        or_else (search total dynamic elsewhere c)
          (or_else (search total dynamic elsewhere a) (search total dynamic elsewhere b))
    search total dynamic site (other ns) = search_all total dynamic elsewhere ns

    pub search_all : ℕ → Bool → Site → Nodes → Option A
    search_all total dynamic site nil = none
    search_all total dynamic site (cons n ns) =
        or_else (search total dynamic site n) (search_all total dynamic (next_site site n) ns)

-- `isComponentRoot`: not directly below JSX, and with the expected tag.
unfoldable pub is_component_root : Visit → Text → Bool
is_component_root v expected_tag =
    not (is_in_jsx v.site) && text_eq (patcher_tag_name v.name) expected_tag

-- The first visitor: match the rest of the selector below each root that fits its first part.
unfoldable pub visit_root : Bool → Text → List Text → Visit → Option Target
unfolding is_component_root return_index
visit_root has_fingerprint part parts v =
    let sel = read_selector part in
    if is_component_root v sel.expected_tag && index_is sel.expected_index (return_index v.site)
    then match_path has_fingerprint parts v.loc v.kids false (real v.is_dynamic)
    else none

-- `attributes.find(...)` by name, and its value if that is a string literal.
unfoldable pub fingerprint_of : Nodes → Option Text
fingerprint_of nil = none
fingerprint_of (cons (attribute name (string_literal s)) ns) =
    if text_eq name (codes "data-zenith-fingerprint") then some s else fingerprint_of ns
fingerprint_of (cons (attribute name v) ns) =
    if text_eq name (codes "data-zenith-fingerprint") then none else fingerprint_of ns
fingerprint_of (cons (bare_attribute name) ns) =
    if text_eq name (codes "data-zenith-fingerprint") then none else fingerprint_of ns
fingerprint_of (cons _ ns) = fingerprint_of ns

-- The second visitor, by fingerprint.
unfoldable pub visit_fingerprint : Text → Visit → Option Target
unfolding fingerprint_of
visit_fingerprint wanted v = elim (fingerprint_of v.attrs) [
  | none ↦ none
  | some s ↦
      if text_eq s wanted
      then some (record { loc = v.loc; locked = false; origin = real v.is_dynamic })
      else none
]

-- A file, from its program node.
abbrev pub search_file : {A : Type 0} → (Visit → Option A) → Node → Option A
search_file visit ast = search visit 0 false elsewhere ast

-- `if (instructions.fingerprint)`: an empty string is none.
abbrev pub is_given : Option Text → Bool
is_given none = false
is_given (some []) = false
is_given (some (c ∷ s)) = true

abbrev by_fingerprint : Option Text → Node → Option Target
by_fingerprint none ast = none
by_fingerprint (some []) ast = none
by_fingerprint (some (c ∷ s)) ast = search_file (visit_fingerprint (c ∷ s)) ast

-- `targetPath` behind both traversals, for the selector parts of an ID.
unfoldable pub locate : Text → List Text → Option Text → Node → Option Target
unfolding visit_root search visit_fingerprint
locate part parts fingerprint ast =
    or_else (search_file (visit_root (is_given fingerprint) part parts) ast)
      (by_fingerprint fingerprint ast)

-- What `patchSourceFile` throws: the errors of its own, and the `TypeError` or `ReferenceError` of a
-- call that goes wrong.
pub data Error : Type 0 where
  invalid_id not_found collision logic_locked runtime_error : Error

pub data Result {ℓ} (A : Type ℓ) : Type ℓ where
  ok : A → Result A
  err : Error → Result A

abbrev pub target_or_error : Option Target → Result Target
target_or_error none = err not_found
target_or_error (some t) = ok t

-- `idParts.slice(1)` and the search for its target
unfoldable pub resolve_parts : List Text → Option Text → Node → Result Target
resolve_parts [] fingerprint ast = err invalid_id
resolve_parts (file ∷ []) fingerprint ast = err invalid_id
resolve_parts (file ∷ part ∷ parts) fingerprint ast =
    target_or_error (locate part parts fingerprint ast)

-- From `instructions.zenithId` to `targetPath`, or the error thrown.
unfoldable pub resolve : Text → Option Text → Node → Result Target
unfolding split resolve_parts locate
resolve zenith_id fingerprint ast = resolve_parts (split b':' zenith_id) fingerprint ast
