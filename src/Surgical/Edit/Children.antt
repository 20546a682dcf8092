-- ===== src/Surgical/Edit/Children.antt =====
-- What `updateTextContent` and the insertion leave in the children of an element.
use mathlib.Core.Option.{some-injective, none-ne-some}
use zenith_extension.Prelude.{
  ℕ, zero, suc, ◌≡◌, refl, ap, ◌∙◌, Bool, true, false, not, ◌||◌, some, List, [], ◌∷◌, ◌++◌, ◌==◌,
  arith, take, drop, Bool-cases, Option-cases, inl, inr, append-nil, if◌then◌else◌,
}
use zenith_extension.Prelude.Text.{Text, split, join, join-split}
use zenith_extension.Jsx.{Node, Nodes, element, fragment, jsx_text, nil, cons}
use zenith_extension.Injector.Components.{append}
use zenith_extension.Surgical.Edit.{
  made, line_nodes, text_nodes, is_jsx, has_jsx, has_multiple, replace_first_text,
  update_text_content, insert_at,
}

-- The text that children show: a break is a new line.
unfoldable pub read_text : Nodes → Text
read_text nil = []
read_text (cons (jsx_text s) ns) = s ++ read_text ns
read_text (cons (element loc name closed attrs kids) ns) = 10 ∷ read_text ns
read_text (cons _ ns) = read_text ns

read_text-line_nodes : (parts : List Text) → read_text (line_nodes parts) ≡ join 10 parts
unfolding read_text line_nodes join
read_text-line_nodes [] = refl
read_text-line_nodes ([] ∷ []) = refl
read_text-line_nodes ((c ∷ s) ∷ []) = append-nil (c ∷ s)
read_text-line_nodes ([] ∷ next ∷ parts) = ap (λ t. 10 ∷ t) (read_text-line_nodes (next ∷ parts))
read_text-line_nodes ((c ∷ s) ∷ next ∷ parts) =
    ap (λ t. (c ∷ s) ++ 10 ∷ t) (read_text-line_nodes (next ∷ parts))

-- The nodes that `updateTextContent` makes show the text that it was given.
pub read_text-text_nodes : (s : Text) → read_text (text_nodes s) ≡ s
unfolding text_nodes
read_text-text_nodes s = read_text-line_nodes (split 10 s) ∙ join-split 10 s

-- The elements and fragments among children that no patch made.
unfoldable pub old_jsx : Nodes → List Node
old_jsx nil = []
old_jsx (cons (element loc name closed attrs kids) ns) =
    if loc == made then old_jsx ns else element loc name closed attrs kids ∷ old_jsx ns
old_jsx (cons (fragment kids) ns) = fragment kids ∷ old_jsx ns
old_jsx (cons _ ns) = old_jsx ns

old_jsx-append : (ns ms : Nodes) → old_jsx (append ns ms) ≡ old_jsx ns ++ old_jsx ms
unfolding old_jsx
old_jsx-append nil ms = refl
old_jsx-append (cons (element loc name closed attrs kids) ns) ms =
    ground (arith, old_jsx-append ns ms)
old_jsx-append (cons (fragment kids) ns) ms = rw (old_jsx-append ns ms)
old_jsx-append (cons _ ns) ms = old_jsx-append ns ms

old_jsx-line_nodes : (parts : List Text) → old_jsx (line_nodes parts) ≡ []
unfolding old_jsx line_nodes
old_jsx-line_nodes [] = refl
old_jsx-line_nodes ([] ∷ []) = refl
old_jsx-line_nodes ((c ∷ s) ∷ []) = refl
old_jsx-line_nodes ([] ∷ next ∷ parts) = old_jsx-line_nodes (next ∷ parts)
old_jsx-line_nodes ((c ∷ s) ∷ next ∷ parts) = old_jsx-line_nodes (next ∷ parts)

old_jsx-text_nodes : (s : Text) → old_jsx (text_nodes s) ≡ []
unfolding text_nodes
old_jsx-text_nodes s = old_jsx-line_nodes (split 10 s)

old_jsx-cons :
    (n : Node) (ns ms : Nodes) → old_jsx ns ≡ old_jsx ms → old_jsx (cons n ns) ≡ old_jsx (cons n ms)
unfolding old_jsx
old_jsx-cons (element loc name closed attrs kids) ns ms h = rw h
old_jsx-cons (fragment kids) ns ms h = rw h
old_jsx-cons _ ns ms h = h

old_jsx-replace_first_text :
    (new kids ms : Nodes)
    → old_jsx new ≡ []
    → replace_first_text new kids ≡ some ms
    → old_jsx ms ≡ old_jsx kids
unfolding old_jsx replace_first_text
old_jsx-replace_first_text new nil ms h e = cc
old_jsx-replace_first_text new (cons (jsx_text s) ns) ms h e =
    let same : append new ns ≡ ms = cc in rw (← same, old_jsx-append new ns, h)
old_jsx-replace_first_text new (cons n ns) ms h e =
    elim (Option-cases (replace_first_text new ns)) [
      | inl x ↦ absurd (none-ne-some ms (rw (x, replace_first_text) at e))
      | inr (ms', x) ↦
          let same : cons n ms' ≡ ms = some-injective _ _ (rw (x, replace_first_text) at e) in
          rw (← same) (old_jsx-cons n ms' ns (old_jsx-replace_first_text new ns ms' h x))
    ]

old_jsx_of_has_jsx : (kids : Nodes) → has_jsx kids ≡ false → old_jsx kids ≡ []
unfolding old_jsx has_jsx
old_jsx_of_has_jsx nil h = refl
old_jsx_of_has_jsx (cons (element loc name closed attrs kids) ns) h = cc
old_jsx_of_has_jsx (cons (fragment kids) ns) h = cc
old_jsx_of_has_jsx (cons _ ns) h = old_jsx_of_has_jsx ns h

or_true : (b : Bool) → (b || true) ≡ true
or_true true = refl
or_true false = refl

-- Setting the text of an element with several children keeps the fragments and the elements that no
-- patch made, in their order; otherwise it keeps none.
pub old_jsx-update_text_content :
    (s : Text) (kids : Nodes)
    → old_jsx (update_text_content s kids) ≡ (if has_multiple kids then old_jsx kids else [])
unfolding update_text_content
old_jsx-update_text_content s kids = elim (Bool-cases (has_multiple kids)) [
  | inr single ↦ rw (single, or_true (not (has_jsx kids))) (old_jsx-text_nodes s)
  | inl many ↦ elim (Bool-cases (has_jsx kids)) [
    | inr plain ↦ rw (plain, many, old_jsx_of_has_jsx kids plain) (old_jsx-text_nodes s)
    | inl mixed ↦ elim (Option-cases (replace_first_text (text_nodes s) kids)) [
      | inl x ↦
          rw (many, mixed, x)
            (old_jsx-append (text_nodes s) kids
              ∙ ap (λ l. l ++ old_jsx kids) (old_jsx-text_nodes s))
      | inr (ms, x) ↦
          rw (many, mixed, x)
            (old_jsx-replace_first_text (text_nodes s) kids ms (old_jsx-text_nodes s) x)
    ]
  ]
]

-- The children that an index position counts.
unfoldable pub jsx_children : Nodes → List Node
jsx_children nil = []
jsx_children (cons n ns) = if is_jsx n then n ∷ jsx_children ns else jsx_children ns

-- An element or fragment that is inserted at an index has that index among the elements and
-- fragments, or the last one if there are fewer, and the others keep their order.
pub jsx_children-insert_at :
    (k : ℕ) (new : Node) (kids : Nodes)
    → is_jsx new ≡ true
    → jsx_children (insert_at k new kids)
      ≡ take k (jsx_children kids) ++ new ∷ drop k (jsx_children kids)
unfolding jsx_children insert_at
jsx_children-insert_at zero new nil h = rw h
jsx_children-insert_at (suc k) new nil h = rw h
jsx_children-insert_at zero new (cons n ns) h = ground (arith, jsx_children-insert_at zero new ns h)
jsx_children-insert_at (suc k) new (cons n ns) h = elim (Bool-cases (is_jsx n)) [
  | inl y ↦ rw y (ap (λ l. n ∷ l) (jsx_children-insert_at k new ns h))
  | inr x ↦ rw x (jsx_children-insert_at (suc k) new ns h)
]
