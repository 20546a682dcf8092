-- ===== src/Surgical/Matching.antt =====
-- One level of `matchPath` on plain JSX.
use zenith_extension.Prelude.{
  ℕ, suc, ◌+◌, ◌≤◌, ◌≡◌, refl, Bool, true, false, some, inl, inr, arith, ap, ◌∙◌,
}
use zenith_extension.Prelude.Int.{pos}
use zenith_extension.Prelude.Text.{Text, text_eq_refl}
use zenith_extension.Jsx.{
  Name, Node, Nodes, element, fragment, jsx_text, container, conditional, logical, call, function,
  block, return_value, if_then, if_else, nil, cons,
}
use zenith_extension.Jsx.Inert.{IsInert, AllInert}
use zenith_extension.Jsx.Names.{patcher_tag_name}
use zenith_extension.Injector.{flat_count, flat_count_all}
use zenith_extension.Injector.Plain.{IsPlain, AllPlain, Element, At, AtAll}
use zenith_extension.Surgical.Resolve.{
  Selector, Target, Descent, found, missed, listed, and_then, step_of, index_is, match_all,
  match_child, find_in_expr, find_in_body, find_in_first, find_in_statements, match_level,
}

flat_count-element :
    (loc : ℕ) (name : Name) (closed : Bool) (attrs kids : Nodes)
    → flat_count (element loc name closed attrs kids) ≡ 1
unfolding flat_count
flat_count-element loc name closed attrs kids = refl

flat_count-fragment : (kids : Nodes) → flat_count (fragment kids) ≡ flat_count_all kids
unfolding flat_count
flat_count-fragment kids = refl

flat_count-text : (s : Text) → flat_count (jsx_text s) ≡ 0
unfolding flat_count
flat_count-text s = refl

flat_count-container : (e : Node) → flat_count (container e) ≡ 0
unfolding flat_count
flat_count-container e = refl

flat_count_all-nil : flat_count_all nil ≡ 0
unfolding flat_count
flat_count_all-nil = refl

flat_count_all-cons :
    (n : Node) (ns : Nodes) → flat_count_all (cons n ns) ≡ flat_count n + flat_count_all ns
unfolding flat_count
flat_count_all-cons n ns = refl

module _ (go : Descent) (sel : Selector) (fp : Bool) where
  -- In code without JSX nothing is found and nothing is counted.
  mutual
    unfolding match_all

    find_in_expr_of_IsInert : (n : Node) (t : ℕ) → IsInert n → find_in_expr go sel fp n t ≡ missed t
    find_in_expr_of_IsInert (element loc name closed attrs kids) t h = absurd h
    find_in_expr_of_IsInert (fragment kids) t h = absurd h
    find_in_expr_of_IsInert (conditional c a b) t (_, i, j) =
        rw (find_in_expr_of_IsInert a t i) (find_in_expr_of_IsInert b t j)
    find_in_expr_of_IsInert (call f args) t (i, j) =
        ground (arith, find_in_body_of_IsInert f t i, find_in_first_of_AllInert args t j)
    find_in_expr_of_IsInert (logical a b) t (_, j) = find_in_expr_of_IsInert b t j
    find_in_expr_of_IsInert (block ss) t h = find_in_statements_of_AllInert ss t h
    find_in_expr_of_IsInert (return_value e) t h = find_in_expr_of_IsInert e t h
    find_in_expr_of_IsInert (if_then c a) t (_, i) = find_in_expr_of_IsInert a t i
    find_in_expr_of_IsInert (if_else c a b) t (_, i, j) =
        rw (find_in_expr_of_IsInert a t i) (find_in_expr_of_IsInert b t j)
    find_in_expr_of_IsInert _ t h = refl

    find_in_body_of_IsInert : (n : Node) (t : ℕ) → IsInert n → find_in_body go sel fp n t ≡ missed t
    find_in_body_of_IsInert (function body) t h = find_in_expr_of_IsInert body t h
    find_in_body_of_IsInert _ t h = refl

    find_in_first_of_AllInert :
        (ns : Nodes) (t : ℕ) → AllInert ns → find_in_first go sel fp ns t ≡ missed t
    find_in_first_of_AllInert nil t h = refl
    find_in_first_of_AllInert (cons n ns) t (i, _) = find_in_body_of_IsInert n t i

    find_in_statements_of_AllInert :
        (ns : Nodes) (t : ℕ) → AllInert ns → find_in_statements go sel fp ns t ≡ missed t
    find_in_statements_of_AllInert nil t h = refl
    find_in_statements_of_AllInert (cons n ns) t (i, j) =
        rw (find_in_expr_of_IsInert n t i) (find_in_statements_of_AllInert ns t j)

  -- The clauses as equations, so that the proofs below keep the search shut.
  match_all-cons :
      (n : Node) (ns : Nodes) (t : ℕ) (locked : Bool)
      → match_all go sel fp (cons n ns) t locked
        ≡ and_then (match_child go sel fp n t locked) (λ t'. match_all go sel fp ns t' locked)
  unfolding match_all
  match_all-cons n ns t locked = refl

  match_all-nil : (t : ℕ) (locked : Bool) → match_all go sel fp nil t locked ≡ missed t
  unfolding match_all
  match_all-nil t locked = refl

  match_child-fragment :
      (ns : Nodes) (t : ℕ) (locked : Bool)
      → match_child go sel fp (fragment ns) t locked ≡ match_all go sel fp ns t locked
  unfolding match_all
  match_child-fragment ns t locked = refl

  match_child-container :
      (e : Node) (t : ℕ) (locked : Bool)
      → IsInert e
      → match_child go sel fp (container e) t locked ≡ missed t
  unfolding match_all
  match_child-container e t locked h = find_in_expr_of_IsInert e t h

  match_child-text :
      (s : Text) (t : ℕ) (locked : Bool) → match_child go sel fp (jsx_text s) t locked ≡ missed t
  unfolding match_all
  match_child-text s t locked = refl

  -- An element whose index is not the wanted one is counted and passed.
  match_child-element_ne :
      (loc : ℕ) (name : Name) (closed : Bool) (attrs kids : Nodes) (t : ℕ) (locked : Bool)
      → index_is sel.expected_index t ≡ false
      → match_child go sel fp (element loc name closed attrs kids) t locked ≡ missed (suc t)
  unfolding match_all
  match_child-element_ne loc name closed attrs kids t locked h = rw h

  -- One with the wanted index and tag is entered.
  match_child-element_eq :
      (loc : ℕ) (name : Name) (closed : Bool) (attrs kids : Nodes) (t : ℕ) (locked : Bool)
      → index_is sel.expected_index t ≡ true
      → patcher_tag_name name ≡ sel.expected_tag
      → match_child go sel fp (element loc name closed attrs kids) t locked
        ≡ step_of (go loc kids locked listed) (suc t)
  unfolding match_all
  match_child-element_eq loc name closed attrs kids t locked h k =
      rw (h, k, text_eq_refl sel.expected_tag)

  module _ (m : ℕ) (e : sel.expected_index ≡ some (pos m)) where
    index_ne : (t : ℕ) → t + 1 ≤ m → index_is sel.expected_index t ≡ false
    index_ne t h = rw e (unfold index_is in ground arith)

    index_eq : (t : ℕ) → m ≡ t → index_is sel.expected_index t ≡ true
    index_eq t h = rw e (unfold index_is in ground arith)

    -- Before the wanted index every element is counted and passed.
    mutual
      match_child_before :
          (n : Node) (t : ℕ) (locked : Bool)
          → IsPlain n
          → t + flat_count n ≤ m
          → match_child go sel fp n t locked ≡ missed (t + flat_count n)
      match_child_before (element loc name closed attrs kids) t l p h =
          let one : t + 1 ≤ m = rw flat_count-element at h in
          rw flat_count-element (
            match_child-element_ne loc name closed attrs kids t l (index_ne t one)
            ∙ ap missed (omega arith))
      match_child_before (fragment kids) t l p h =
          rw (match_child-fragment, flat_count-fragment)
            (match_all_before kids t l p (rw flat_count-fragment at h))
      match_child_before (jsx_text s) t l p h =
          rw (match_child-text, flat_count-text) (ap missed (omega arith))
      match_child_before (container x) t l p h =
          rw (match_child-container x t l p, flat_count-container) (ap missed (omega arith))
      match_child_before _ t l p h = absurd p

      match_all_before :
          (ns : Nodes) (t : ℕ) (locked : Bool)
          → AllPlain ns
          → t + flat_count_all ns ≤ m
          → match_all go sel fp ns t locked ≡ missed (t + flat_count_all ns)
      match_all_before nil t l p h =
          rw (match_all-nil, flat_count_all-nil) (ap missed (omega arith))
      match_all_before (cons n ns) t l (p, q) h =
          let h' : t + (flat_count n + flat_count_all ns) ≤ m = rw flat_count_all-cons at h in
          rw (match_all-cons, match_child_before n t l p (omega arith), flat_count_all-cons)
            (match_all_before ns (t + flat_count n) l q (omega arith) ∙ ap missed (omega arith))

    -- The plain element at the wanted index is entered, if its tag is the expected one.
    module _ (el : Element) (same_tag : patcher_tag_name el.name ≡ sel.expected_tag) (locked : Bool)
        (x : Target) (enters : go el.loc el.kids locked listed ≡ some x) where
      mutual
        match_child-At :
            (n : Node) (t k : ℕ)
            → IsPlain n
            → At n k el
            → m ≡ t + k
            → match_child go sel fp n t locked ≡ found x
        match_child-At (element loc name closed attrs kids) t k p (zero_index, same) h =
            match_child-element_eq loc name closed attrs kids t locked (index_eq t (omega arith))
              (rw same at same_tag)
            ∙ ap (λ o. step_of o (suc t)) (rw same at enters)
        match_child-At (fragment kids) t k p a h =
            rw match_child-fragment (match_all_at kids t k p a h)
        match_child-At (jsx_text s) t k p a h = absurd a
        match_child-At (container y) t k p a h = absurd a
        match_child-At _ t k p a h = absurd p

        match_all_at :
            (ns : Nodes) (t k : ℕ)
            → AllPlain ns
            → AtAll ns k el
            → m ≡ t + k
            → match_all go sel fp ns t locked ≡ found x
        match_all_at nil t k p a h = absurd a
        match_all_at (cons n ns) t k (p, q) (inl a) h =
            rw (match_all-cons, match_child-At n t k p a h)
        match_all_at (cons n ns) t k (p, q) (inr (j, e', a)) h =
            rw (match_all-cons, match_child_before n t locked p (omega arith))
              (match_all_at ns (t + flat_count n) j q a (omega arith))

      pub match_level_at :
          (ns : Nodes) → AllPlain ns → AtAll ns m el → match_level go sel fp ns locked ≡ some x
      unfolding match_level
      match_level_at ns p a = rw (match_all_at ns 0 m p a (omega arith), match_level)
