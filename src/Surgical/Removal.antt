-- ===== src/Surgical/Removal.antt =====
-- The deletion of an element from a list, in `patchSourceFile` of zenith-vite-plugin/src/surgical.ts.
use zenith_extension.Prelude.{ℕ, Bool, false, ◌||◌, ◌==◌, if◌then◌else◌}
use zenith_extension.Jsx.{
  Node, Nodes, element, fragment, jsx_text, container, attribute, bare_attribute, spread, object,
  property, string_literal, numeric_literal, conditional, logical, call, member, function, block,
  return_void, return_value, if_then, if_else, other, nil, cons,
}

abbrev is_target : ℕ → Node → Bool
is_target target (element loc name closed attrs kids) = loc == target
is_target target _ = false

-- `container.splice(index, 1)`: an element is taken out of the children that hold it.
module _ (target : ℕ) where
  unfoldable mutual
    pub splice_out : Node → Node
    splice_out (element loc name closed attrs kids) =
        element loc name closed (splice_out_all attrs) (splice_out_all kids)
    splice_out (fragment kids) = fragment (splice_out_all kids)
    splice_out (jsx_text s) = jsx_text s
    splice_out (container e) = container (splice_out e)
    splice_out (attribute name v) = attribute name (splice_out v)
    splice_out (bare_attribute name) = bare_attribute name
    splice_out (spread e) = spread (splice_out e)
    splice_out (object ps) = object (splice_out_all ps)
    splice_out (property name v) = property name (splice_out v)
    splice_out (string_literal s) = string_literal s
    splice_out (numeric_literal s) = numeric_literal s
    splice_out (conditional c a b) = conditional (splice_out c) (splice_out a) (splice_out b)
    splice_out (logical a b) = logical (splice_out a) (splice_out b)
    splice_out (call g args) = call (splice_out g) (splice_out_all args)
    splice_out (member e name) = member (splice_out e) name
    splice_out (function body) = function (splice_out body)
    splice_out (block ss) = block (splice_out_all ss)
    splice_out return_void = return_void
    splice_out (return_value e) = return_value (splice_out e)
    splice_out (if_then c a) = if_then (splice_out c) (splice_out a)
    splice_out (if_else c a b) = if_else (splice_out c) (splice_out a) (splice_out b)
    splice_out (other ns) = other (splice_out_all ns)

    pub splice_out_all : Nodes → Nodes
    splice_out_all nil = nil
    splice_out_all (cons n ns) =
        let rest = splice_out_all ns in
        let kept = cons (splice_out n) rest in if is_target target n then rest else kept

-- Whether `jsxElementPath.container` is an array: the children of an element or fragment, or the
-- arguments of a call. Of other nodes it is left to `remove_path` whether a child stands in a list.
module _ (target : ℕ) where
  has_target : Nodes → Bool
  has_target nil = false
  has_target (cons n ns) = is_target target n || has_target ns

  unfoldable mutual
    unfolding has_target

    pub in_list : Node → Bool
    in_list (element loc name closed attrs kids) =
        in_list_all attrs || has_target kids || in_list_all kids
    in_list (fragment kids) = has_target kids || in_list_all kids
    in_list (container e) = in_list e
    in_list (attribute name v) = in_list v
    in_list (spread e) = in_list e
    in_list (object ps) = in_list_all ps
    in_list (property name v) = in_list v
    in_list (conditional c a b) = in_list c || in_list a || in_list b
    in_list (logical a b) = in_list a || in_list b
    in_list (call f args) = in_list f || has_target args || in_list_all args
    in_list (member e name) = in_list e
    in_list (function body) = in_list body
    in_list (block ss) = in_list_all ss
    in_list (return_value e) = in_list e
    in_list (if_then c a) = in_list c || in_list a
    in_list (if_else c a b) = in_list c || in_list a || in_list b
    in_list (other ns) = in_list_all ns
    in_list (jsx_text s) = false
    in_list (bare_attribute name) = false
    in_list (string_literal s) = false
    in_list (numeric_literal s) = false
    in_list return_void = false

    pub in_list_all : Nodes → Bool
    in_list_all nil = false
    in_list_all (cons n ns) = in_list n || in_list_all ns
