-- ===== src/Surgical/Resolve.antt =====
-- How `patchSourceFile` (zenith-vite-plugin/src/surgical.ts) finds the element that a Zenith ID
-- names: `matchPath` with its helpers, the search for the component root, and the search by
-- fingerprint. `targetPath` is the `Option` result.
use zenith_extension.Prelude.{
  ℕ, zero, suc, Bool, true, false, not, ◌&&◌, ◌||◌, Option, none, some, List, [], ◌∷◌, ◌==◌, leb,
  if◌then◌else◌,
}
use zenith_extension.Prelude.Int.{ℤ, pos, negsuc}
use zenith_extension.Prelude.Text.{Text, codes, text_eq, split}
use zenith_extension.Prelude.Decimal.{is_digit, read_digits}
use zenith_extension.Jsx.{
  Node, Nodes, element, fragment, container, conditional, logical, call, member, function, block,
  return_value, if_then, if_else, nil, cons,
}
use zenith_extension.Jsx.Names.{patcher_tag_name}

-- White space of `parseInt`.
unfoldable pub is_space : ℕ → Bool
is_space c =
    (leb 9 c && leb c 13)
    || c == 32
    || c == 160
    || c == 0x1680
    || (leb 0x2000 c && leb c 0x200a)
    || c == 0x2028
    || c == 0x2029
    || c == 0x202f
    || c == 0x205f
    || c == 0x3000
    || c == 0xfeff

-- -n
abbrev negated : ℕ → ℤ
negated zero = pos 0
negated (suc n) = negsuc n

-- The digits behind the sign: `NaN` if there is none.
unfoldable pub read_unsigned : Text → Option ℕ
unfolding is_digit read_digits
read_unsigned [] = none
read_unsigned (c ∷ s) = if is_digit c then some (read_digits 0 (c ∷ s)) else none

-- `parseInt(s, 10)`, `none` for `NaN`
unfoldable pub parse_int : Text → Option ℤ
unfolding is_space read_unsigned
parse_int [] = none
parse_int (c ∷ s) =
    let rest = parse_int s in
    if is_space c
    then rest
    else if c == b'-'
    then elim (read_unsigned s) [ none ↦ none | some n ↦ some (negated n) ]
    else elim (read_unsigned (if c == b'+' then s else c ∷ s)) [
      | none ↦ none
      | some n ↦ some (pos n)
    ]

-- A selector part: `const [expectedTag, expectedIdxStr] = part.split(".")`.
pub record Selector : Type 0 where
  pub expected_tag : Text
  pub expected_index : Option ℤ

unfoldable pub selector_of : List Text → Selector
unfolding parse_int
selector_of [] = record { expected_tag = []; expected_index = none }
selector_of (tag ∷ []) = record { expected_tag = tag; expected_index = none }
selector_of (tag ∷ index ∷ more) = record { expected_tag = tag; expected_index = parse_int index }

unfoldable pub read_selector : Text → Selector
unfolding split selector_of
read_selector part = selector_of (split b'.' part)

-- `n === expectedIdx`
unfoldable pub index_is : Option ℤ → ℕ → Bool
index_is none n = false
index_is (some (pos i)) n = n == i
index_is (some (negsuc i)) n = false

-- The path object of a match: a path of the traversal, with the answer of `isInDynamicBlock`, or
-- one of the literals that `matchPath` builds: `{ node, container, index }` among the children of an
-- element or fragment, the same with a fresh one-element container inside an expression, or the
-- `{ node }` of the fallback.
pub data Origin : Type 0 where
  real : Bool → Origin
  listed wrapped bare : Origin

abbrev pub is_dynamic : Origin → Bool
is_dynamic (real dynamic) = dynamic
is_dynamic _ = false

pub record Target : Type 0 where
  pub loc : ℕ
  pub locked : Bool
  pub origin : Origin

-- The state of a search through children: found, or `tracker.jsxIdx` where the search goes on, or
-- where the list is left because of a tag mismatch.
pub data Step : Type 0 where
  found : Target → Step
  missed stopped : ℕ → Step

abbrev pub and_then : Step → (ℕ → Step) → Step
and_then (found x) k = found x
and_then (missed t) k = k t
and_then (stopped t) k = missed t

abbrev pub step_of : Option Target → ℕ → Step
step_of none t = missed t
step_of (some x) t = found x

-- `t.isMemberExpression(callee) && t.isIdentifier(callee.property, { name: 'map' })`
unfoldable pub is_map : Node → Bool
is_map (member e name) = text_eq name (codes "map")
is_map _ = false

-- One level of `matchPath`. `go` is `matchPath` for the rest of the selector.
abbrev pub Descent : Type 0
Descent = ℕ → Nodes → Bool → Origin → Option Target

module _ (go : Descent) (sel : Selector) (has_fingerprint : Bool) where
  -- `matchInChildren` and `findInExpr`
  unfoldable mutual
    pub match_all : Nodes → ℕ → Bool → Step
    match_all nil t locked = missed t
    match_all (cons n ns) t locked =
        and_then (match_child n t locked) (λ t'. match_all ns t' locked)

    pub match_child : Node → ℕ → Bool → Step
    match_child (element loc name closed attrs kids) t locked =
        if index_is sel.expected_index t
        then (if not (text_eq (patcher_tag_name name) sel.expected_tag) && has_fingerprint
            then stopped t
            else step_of (go loc kids locked listed) (suc t))
        else missed (suc t)
    match_child (fragment kids) t locked = match_all kids t locked
    match_child (container e) t locked = find_in_expr e t
    match_child _ t locked = missed t

    pub find_in_expr : Node → ℕ → Step
    find_in_expr (element loc name closed attrs kids) t =
        if index_is sel.expected_index t
        then step_of (go loc kids true wrapped) t
        else missed (suc t)
    find_in_expr (fragment kids) t = match_all kids t true
    find_in_expr (conditional c a b) t = and_then (find_in_expr a t) (λ t'. find_in_expr b t')
    find_in_expr (call f args) t = if is_map f then find_in_first args t else find_in_body f t
    find_in_expr (logical a b) t = find_in_expr b t
    find_in_expr (block ss) t = find_in_statements ss t
    find_in_expr (return_value e) t = find_in_expr e t
    find_in_expr (if_then c a) t = find_in_expr a t
    find_in_expr (if_else c a b) t = and_then (find_in_expr a t) (λ t'. find_in_expr b t')
    find_in_expr _ t = missed t

    pub find_in_body : Node → ℕ → Step
    find_in_body (function body) t = find_in_expr body t
    find_in_body _ t = missed t

    pub find_in_first : Nodes → ℕ → Step
    find_in_first nil t = missed t
    find_in_first (cons n ns) t = find_in_body n t

    pub find_in_statements : Nodes → ℕ → Step
    find_in_statements nil t = missed t
    find_in_statements (cons n ns) t = and_then (find_in_expr n t) (λ t'. find_in_statements ns t')

  -- `checkChildrenForFallback`: the n-th of the child elements that have the tag
  unfoldable pub fallback : Nodes → ℕ → Bool → Option Target
  fallback nil k locked = none
  fallback (cons (element loc name closed attrs kids) ns) k locked =
      let later = fallback ns (suc k) locked in
      let other_tag = fallback ns k locked in
      if text_eq (patcher_tag_name name) sel.expected_tag
      then (if index_is sel.expected_index k
          then elim (go loc kids locked bare) [ some x ↦ some x | none ↦ later ]
          else later)
      else other_tag
  fallback (cons _ ns) k locked = fallback ns k locked

  unfoldable pub match_level : Nodes → Bool → Option Target
  unfolding match_all fallback
  match_level kids locked = elim (match_all kids 0 locked) [
    | found x ↦ some x
    | _ ↦ fallback kids 0 locked
  ]

-- `matchPath`: `loc`, `kids`, `locked` and `origin` are those of the current path.
unfoldable pub match_path : Bool → List Text → ℕ → Nodes → Bool → Origin → Option Target
match_path has_fingerprint [] loc kids locked origin =
    some (record { loc = loc; locked = locked; origin = origin })
match_path has_fingerprint (part ∷ parts) loc kids locked origin =
    match_level (match_path has_fingerprint parts) (read_selector part) has_fingerprint kids locked
