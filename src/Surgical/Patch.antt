-- ===== src/Surgical/Patch.antt =====
-- `patchSourceFile` of zenith-vite-plugin/src/surgical.ts between parsing and printing: the target
-- is found and checked, and its element is changed in place. The parser and printer of recast and
-- Babel's `path.remove()` are not modelled; the latter is the parameter `remove_path`.
pub mod Locality
pub mod Outcome
pub mod Pipeline
use zenith_extension.Prelude.{
  ℕ, Bool, true, false, not, ◌&&◌, ◌||◌, Option, none, some, List, [], ◌∷◌, ◌==◌, if◌then◌else◌,
}
use zenith_extension.Prelude.Text.{Text, codes, text_eq}
use zenith_extension.Styles.{Styles}
use zenith_extension.Jsx.{
  Name, Node, Nodes, element, fragment, jsx_text, container, attribute, bare_attribute, spread,
  object, property, string_literal, numeric_literal, conditional, logical, call, member, function,
  block, return_void, return_value, if_then, if_else, other, nil, cons,
}
use zenith_extension.Jsx.Names.{patcher_tag_name}
use zenith_extension.Surgical.Resolve.{Target, Origin, real, listed, wrapped, bare, is_dynamic}
use zenith_extension.Surgical.Locate.{
  Visit, search_file, is_given, Error, invalid_id, not_found, collision, logic_locked,
  runtime_error, Result, ok, err, resolve,
}
use zenith_extension.Surgical.Removal.{splice_out, in_list}
use zenith_extension.Surgical.Edit.{
  update_attribute, update_style_attribute, update_text_content, InsertDescriptor, insert_child,
}

-- `PatchInstructions`
pub record Instructions : Type 0 where
  pub zenith_id : Text
  pub fingerprint : Option Text
  pub styles : Option Styles
  pub class_name : Option Text
  pub text_content : Option Text
  pub delete : Bool
  pub insert : Option InsertDescriptor
  pub move : Option ℕ
  -- `containerTag` and `containerAttributes`
  pub group : Option (Text × Styles)
  pub ungroup : Bool
  pub duplicate : Bool
  -- `newParentId` and `index`
  pub reparent : Option (Text × ℕ)
  pub expected_tag : Option Text
  pub content_update : Option Text

abbrev pub is_some {ℓ} : {A : Type ℓ} → Option A → Bool
is_some none = false
is_some (some a) = true

-- `isStructuralOp`
unfoldable pub is_structural : Instructions → Bool
is_structural i = i.delete || is_some i.move || is_some i.group || i.ungroup

-- The attributes and children of an element.
pub record Parts : Type 0 where
  pub attrs : Nodes
  pub kids : Nodes

abbrev when_given {ℓ κ} : {A : Type ℓ} {B : Type κ} → Option A → (A → B → B) → B → B
when_given none f b = b
when_given (some a) f b = f a b

-- Sections 2 to 5 of `patchSourceFile`, in their order.
unfoldable pub edit : Instructions → Parts → Parts
edit i p = record {
  attrs =
      when_given i.class_name (update_attribute (codes "className"))
        (when_given i.styles update_style_attribute p.attrs);
  kids = when_given i.insert insert_child (
      when_given i.content_update update_text_content
        (when_given i.text_content update_text_content p.kids));
}

-- The element with an identity is changed where it stands.
module _ (target : ℕ) (f : Parts → Parts) where
  unfoldable mutual
    pub update : Node → Node
    update (element loc name closed attrs kids) =
        let new = f (record { attrs = attrs; kids = kids }) in
        let below = element loc name closed (update_all attrs) (update_all kids) in
        if loc == target then element loc name closed new.attrs new.kids else below
    update (fragment kids) = fragment (update_all kids)
    update (jsx_text s) = jsx_text s
    update (container e) = container (update e)
    update (attribute name v) = attribute name (update v)
    update (bare_attribute name) = bare_attribute name
    update (spread e) = spread (update e)
    update (object ps) = object (update_all ps)
    update (property name v) = property name (update v)
    update (string_literal s) = string_literal s
    update (numeric_literal s) = numeric_literal s
    update (conditional c a b) = conditional (update c) (update a) (update b)
    update (logical a b) = logical (update a) (update b)
    update (call g args) = call (update g) (update_all args)
    update (member e name) = member (update e) name
    update (function body) = function (update body)
    update (block ss) = block (update_all ss)
    update return_void = return_void
    update (return_value e) = return_value (update e)
    update (if_then c a) = if_then (update c) (update a)
    update (if_else c a b) = if_else (update c) (update a) (update b)
    update (other ns) = other (update_all ns)

    pub update_all : Nodes → Nodes
    update_all nil = nil
    update_all (cons n ns) = cons (update n) (update_all ns)

-- `getTagName(node.name)` of the target
unfoldable pub tag_at : ℕ → Node → Option Text
tag_at loc ast =
    search_file (λ v. if v.loc == loc then some (patcher_tag_name v.name) else none) ast

-- `instructions.expectedTag && getTagName(node.name) !== instructions.expectedTag`
unfoldable pub is_mismatch : Option Text → Option Text → Bool
is_mismatch none found = false
is_mismatch (some []) found = false
is_mismatch (some (c ∷ s)) none = true
is_mismatch (some (c ∷ s)) (some tag) = not (text_eq tag (c ∷ s))

module _ (remove_path : ℕ → Node → Node) where
  -- The deletion, by the kind of path object that the target was found with.
  unfoldable pub remove_target : Target → Node → Result Node
  remove_target t ast = elim t.origin [
    | real dynamic ↦ ok (if in_list t.loc ast then splice_out t.loc ast else remove_path t.loc ast)
    | listed ↦ ok (splice_out t.loc ast)
    | wrapped ↦ ok ast
    | bare ↦ err runtime_error
  ]

  -- Behind the search: the tag check, the logic lock, and the changes. `reparent` reads
  -- `jsxElementPath.parentPath.container` and then `destIdParts`, which no line declares.
  unfoldable pub apply : Instructions → Target → Node → Result Node
  unfolding is_mismatch is_structural
  apply i t ast =
      if is_mismatch i.expected_tag (tag_at t.loc ast)
        && not (is_given i.fingerprint && not t.locked)
      then err collision
      else if not (is_structural i) && (t.locked || is_dynamic t.origin)
      then err logic_locked
      else if i.delete
      then remove_target t ast
      else if is_some i.reparent
      then err runtime_error
      else ok (update t.loc (edit i) ast)

  unfoldable pub patch : Instructions → Node → Result Node
  patch i ast = elim (resolve i.zenith_id i.fingerprint ast) [
    | err e ↦ err e
    | ok t ↦ apply i t ast
  ]
