-- ===== src/Surgical/Patch/Locality.antt =====
-- A change of one element leaves the rest of the tree as it was.
use zenith_extension.Prelude.{ℕ, ◌≡◌, refl, ap, ap₂, if◌then◌else◌, ◌==◌, Bool-cases, inl, inr}
use zenith_extension.Jsx.{
  Node, Nodes, element, fragment, jsx_text, container, attribute, bare_attribute, spread, object,
  property, string_literal, numeric_literal, conditional, logical, call, member, function, block,
  return_void, return_value, if_then, if_else, other, nil, cons,
}
use zenith_extension.Surgical.Patch.{Parts, update, update_all}

-- Two changes of one element are one change.
module _ (t : ℕ) (f g : Parts → Parts) where
  mutual
    unfolding update

    pub update-update : (n : Node) → update t g (update t f n) ≡ update t (λ p. g (f p)) n
    update-update (element loc name closed attrs kids) = elim (Bool-cases (loc == t)) [
      | inl y ↦ rw (y, update) (rw (y, update))
      | inr n ↦
          rw (n, update)
            (rw (n, update)
              (ap₂ (element loc name closed) (update_all-update_all attrs)
                (update_all-update_all kids)))
    ]
    update-update (fragment kids) = ap fragment (update_all-update_all kids)
    update-update (jsx_text s) = refl
    update-update (container e) = ap container (update-update e)
    update-update (attribute name v) = ap (attribute name) (update-update v)
    update-update (bare_attribute name) = refl
    update-update (spread e) = ap spread (update-update e)
    update-update (object ps) = ap object (update_all-update_all ps)
    update-update (property name v) = ap (property name) (update-update v)
    update-update (string_literal s) = refl
    update-update (numeric_literal s) = refl
    update-update (conditional c a b) = cc (update-update c, update-update a, update-update b)
    update-update (logical a b) = ap₂ logical (update-update a) (update-update b)
    update-update (call h args) = ap₂ call (update-update h) (update_all-update_all args)
    update-update (member e name) = ap (λ x. member x name) (update-update e)
    update-update (function body) = ap function (update-update body)
    update-update (block ss) = ap block (update_all-update_all ss)
    update-update return_void = refl
    update-update (return_value e) = ap return_value (update-update e)
    update-update (if_then c a) = ap₂ if_then (update-update c) (update-update a)
    update-update (if_else c a b) = cc (update-update c, update-update a, update-update b)
    update-update (other ns) = ap other (update_all-update_all ns)

    pub update_all-update_all :
        (ns : Nodes) → update_all t g (update_all t f ns) ≡ update_all t (λ p. g (f p)) ns
    update_all-update_all nil = refl
    update_all-update_all (cons n ns) = ap₂ cons (update-update n) (update_all-update_all ns)

-- The tree without the attributes and children of one element: all that a change of it must keep.
module _ (t : ℕ) where
  unfoldable mutual
    pub outside : Node → Node
    outside (element loc name closed attrs kids) =
        let below = element loc name closed (outside_all attrs) (outside_all kids) in
        if loc == t then element loc name closed nil nil else below
    outside (fragment kids) = fragment (outside_all kids)
    outside (container e) = container (outside e)
    outside (attribute name v) = attribute name (outside v)
    outside (spread e) = spread (outside e)
    outside (object ps) = object (outside_all ps)
    outside (property name v) = property name (outside v)
    outside (conditional c a b) = conditional (outside c) (outside a) (outside b)
    outside (logical a b) = logical (outside a) (outside b)
    outside (call h args) = call (outside h) (outside_all args)
    outside (member e name) = member (outside e) name
    outside (function body) = function (outside body)
    outside (block ss) = block (outside_all ss)
    outside (return_value e) = return_value (outside e)
    outside (if_then c a) = if_then (outside c) (outside a)
    outside (if_else c a b) = if_else (outside c) (outside a) (outside b)
    outside (other ns) = other (outside_all ns)
    outside (jsx_text s) = jsx_text s
    outside (bare_attribute name) = bare_attribute name
    outside (string_literal s) = string_literal s
    outside (numeric_literal s) = numeric_literal s
    outside return_void = return_void

    pub outside_all : Nodes → Nodes
    outside_all nil = nil
    outside_all (cons n ns) = cons (outside n) (outside_all ns)

module _ (t : ℕ) (f : Parts → Parts) where
  mutual
    unfolding update outside

    kept : (n : Node) → outside t (update t f n) ≡ outside t n
    kept (element loc name closed attrs kids) = elim (Bool-cases (loc == t)) [
      | inl y ↦ rw (y, update) (rw (y, outside))
      | inr n ↦
          rw (n, update)
            (rw (n, outside) (ap₂ (element loc name closed) (kept_all attrs) (kept_all kids)))
    ]
    kept (fragment kids) = ap fragment (kept_all kids)
    kept (container e) = ap container (kept e)
    kept (attribute name v) = ap (attribute name) (kept v)
    kept (spread e) = ap spread (kept e)
    kept (object ps) = ap object (kept_all ps)
    kept (property name v) = ap (property name) (kept v)
    kept (conditional c a b) = cc (kept c, kept a, kept b)
    kept (logical a b) = ap₂ logical (kept a) (kept b)
    kept (call h args) = ap₂ call (kept h) (kept_all args)
    kept (member e name) = ap (λ x. member x name) (kept e)
    kept (function body) = ap function (kept body)
    kept (block ss) = ap block (kept_all ss)
    kept (return_value e) = ap return_value (kept e)
    kept (if_then c a) = ap₂ if_then (kept c) (kept a)
    kept (if_else c a b) = cc (kept c, kept a, kept b)
    kept (other ns) = ap other (kept_all ns)
    kept (jsx_text s) = refl
    kept (bare_attribute name) = refl
    kept (string_literal s) = refl
    kept (numeric_literal s) = refl
    kept return_void = refl

    kept_all : (ns : Nodes) → outside_all t (update_all t f ns) ≡ outside_all t ns
    kept_all nil = refl
    kept_all (cons n ns) = ap₂ cons (kept n) (kept_all ns)

  pub outside-update : (n : Node) → outside t (update t f n) ≡ outside t n
  outside-update n = kept n

module _ (t : ℕ) where
  mutual
    unfolding update

    pub update_id : (n : Node) → update t (λ p. p) n ≡ n
    update_id (element loc name closed attrs kids) = elim (Bool-cases (loc == t)) [
      | inl y ↦ rw (y, update)
      | inr n ↦
          rw (n, update) (ap₂ (element loc name closed) (update_all_id attrs) (update_all_id kids))
    ]
    update_id (fragment kids) = ap fragment (update_all_id kids)
    update_id (jsx_text s) = refl
    update_id (container e) = ap container (update_id e)
    update_id (attribute name v) = ap (attribute name) (update_id v)
    update_id (bare_attribute name) = refl
    update_id (spread e) = ap spread (update_id e)
    update_id (object ps) = ap object (update_all_id ps)
    update_id (property name v) = ap (property name) (update_id v)
    update_id (string_literal s) = refl
    update_id (numeric_literal s) = refl
    update_id (conditional c a b) = cc (update_id c, update_id a, update_id b)
    update_id (logical a b) = ap₂ logical (update_id a) (update_id b)
    update_id (call h args) = ap₂ call (update_id h) (update_all_id args)
    update_id (member e name) = ap (λ x. member x name) (update_id e)
    update_id (function body) = ap function (update_id body)
    update_id (block ss) = ap block (update_all_id ss)
    update_id return_void = refl
    update_id (return_value e) = ap return_value (update_id e)
    update_id (if_then c a) = ap₂ if_then (update_id c) (update_id a)
    update_id (if_else c a b) = cc (update_id c, update_id a, update_id b)
    update_id (other ns) = ap other (update_all_id ns)

    pub update_all_id : (ns : Nodes) → update_all t (λ p. p) ns ≡ ns
    update_all_id nil = refl
    update_all_id (cons n ns) = ap₂ cons (update_id n) (update_all_id ns)
