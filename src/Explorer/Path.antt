-- ===== src/Explorer/Path.antt =====
-- Toggling and expanding in the explorer store
-- (zenith-extension/webview-ui/src/stores/useExplorerStore.ts).
use zenith_extension.Prelude.{
  ◌≡◌, refl, sym, ap, ◌∙◌, Bool, true, false, not, ◌||◌, Option, none, some, List, [], ◌∷◌, ◌++◌,
  if◌then◌else◌, push, arith, inl, inr, Bool-cases, Option-cases, append-nil,
}
use mathlib.Core.Option.{some-injective, none-ne-some}
use zenith_extension.Prelude.Text.{Text, text_eq, text_eq_iff, text_eq_refl}
use zenith_extension.Explorer.{
  TreeNode, TreeNodes, tree_node, nil, cons, State, has, delete, add, toggle, find_path, found_or,
  add_all, expand_to_id,
}

has-delete :
    (id j : Text) (ids : List Text)
    → has j (delete id ids) ≡ (if text_eq id j then false else has j ids)
unfolding has delete
has-delete id j [] = ground arith
has-delete id j (k ∷ ids) =
    ground (arith, text_eq_iff id k, text_eq_iff id j, text_eq_iff j k, has-delete id j ids)

has-push : (id j : Text) (ids : List Text) → has j (push ids id) ≡ (text_eq j id || has j ids)
unfolding has
has-push id j [] = refl
has-push id j (k ∷ ids) = ground (arith, has-push id j ids)

has_same : (id j : Text) (ids : List Text) → id ≡ j → has id ids ≡ has j ids
has_same id j ids e = rw e

has-add : (id j : Text) (ids : List Text) → has j (add id ids) ≡ (text_eq id j || has j ids)
unfolding add
has-add id j ids =
    ground (arith, has-push id j ids, text_eq_iff id j, text_eq_iff j id, has_same id j ids)

-- Toggling an ID changes whether the set has it, and nothing else.
pub has-toggle :
    (id j : Text) (ids : List Text)
    → has j (toggle id ids) ≡ (if text_eq id j then not (has j ids) else has j ids)
unfolding toggle
has-toggle id j ids =
    ground (arith, has-delete id j ids, has-add id j ids, text_eq_iff id j, has_same id j ids)

-- The IDs of the nodes around a node with a given ID, outermost first.
pub data Leads : TreeNodes → List Text → Text → Type 0 where
  here :
      (id tag_name class_name : Text) (b : Bool) (c : Option Text) (children ns : TreeNodes)
      → Leads (cons (tree_node id tag_name class_name b c children) ns) [] id
  inside :
      (j tag_name class_name : Text) (b : Bool) (c : Option Text) (children ns : TreeNodes)
      → {path : List Text} {id : Text} → Leads children path id
      → Leads (cons (tree_node j tag_name class_name b c children) ns) (j ∷ path) id
  later :
      (n : TreeNode) (ns : TreeNodes) {path : List Text} {id : Text}
      → Leads ns path id
      → Leads (cons n ns) path id

push-append {ℓ} : {A : Type ℓ} (xs : List A) (x : A) (ys : List A) → push xs x ++ ys ≡ xs ++ x ∷ ys
push-append [] x ys = refl
push-append (z ∷ xs) x ys = ap (λ t. z ∷ t) (push-append xs x ys)

module _ (id : Text) where
  abbrev Found : TreeNodes → List Text → List Text → Type 0
  Found ns path result = (rest : List Text) × (result ≡ path ++ rest) × Leads ns rest id

  module _ (j t k : Text) (b : Bool) (c : Option Text) (children ns : TreeNodes)
      (path : List Text) where
    abbrev all : TreeNodes
    all = cons (tree_node j t k b c children) ns

    find_path-cons :
        find_path id all path
        ≡ found_or
            (if text_eq j id then some path else find_path id children (push path j))
            (find_path id ns path)
    unfolding find_path
    find_path-cons = refl

    find_path-here : text_eq j id ≡ true → find_path id all path ≡ some path
    find_path-here h = find_path-cons ∙ rw h refl

    find_path-inside :
        (r : List Text)
        → text_eq j id ≡ false
        → find_path id children (push path j) ≡ some r
        → find_path id all path ≡ some r
    find_path-inside r h e = find_path-cons ∙ rw (h, e) refl

    find_path-later :
        text_eq j id ≡ false
        → find_path id children (push path j) ≡ none
        → find_path id all path ≡ find_path id ns path
    find_path-later h e = find_path-cons ∙ rw (h, e) refl

  find_path-nil : (path : List Text) → find_path id nil path ≡ none
  unfolding find_path
  find_path-nil path = refl

  find_path-Found :
      (ns : TreeNodes) (path result : List Text)
      → find_path id ns path ≡ some result
      → Found ns path result
  find_path-Found nil path result e = absurd (none-ne-some result (sym (find_path-nil path) ∙ e))
  find_path-Found (cons (tree_node j t k b c children) ns) path result e =
      elim (Bool-cases (text_eq j id)) [
        | inl y ↦ (
          [],
          some-injective _ _ (sym e ∙ find_path-here j t k b c children ns path y)
              ∙ sym (append-nil path),
          rw ((text_eq_iff j id).0 y) (here id t k b c children ns),
        )
        | inr n ↦ elim (Option-cases (find_path id children (push path j))) [
          | inl x ↦
              let (rest, same, l) =
                find_path-Found ns path result
                  (sym (find_path-later j t k b c children ns path n x) ∙ e) in
              (rest, same, later (tree_node j t k b c children) ns l)
          | inr (r, x) ↦
              let (rest, same, l) = find_path-Found children (push path j) r x in
              (
                j ∷ rest,
                some-injective _ _ (sym e ∙ find_path-inside j t k b c children ns path r n x)
                    ∙ same
                    ∙ push-append path j rest,
                inside j t k b c children ns l,
              )
        ]
      ]

  -- A node with the ID is found.
  find_path-total :
      (ns : TreeNodes) (path rest : List Text)
      → Leads ns rest id
      → (result : List Text) × (find_path id ns path ≡ some result)
  find_path-total nil path rest l = elim l [ ]
  find_path-total (cons n ns) path rest (here id' t k b c children ns') =
      (path, find_path-here id t k b c children ns path (text_eq_refl id))
  find_path-total (cons n ns) path rest (inside j t k b c children ns' l) =
      elim (Bool-cases (text_eq j id)) [
        | inl y ↦ (path, find_path-here j t k b c children ns path y)
        | inr n ↦
            let (r, x) = find_path-total children (push path j) _ l in
            (r, find_path-inside j t k b c children ns path r n x)
      ]
  find_path-total (cons n ns) path rest (later (tree_node j t k b c children) ns' l) =
      elim (Bool-cases (text_eq j id)) [
        | inl y ↦ (path, find_path-here j t k b c children ns path y)
        | inr n ↦ elim (Option-cases (find_path id children (push path j))) [
          | inr (r, x) ↦ (r, find_path-inside j t k b c children ns path r n x)
          | inl x ↦
              let (r, e) = find_path-total ns path rest l in
              (r, find_path-later j t k b c children ns path n x ∙ e)
        ]
      ]

has-add_all :
    (path : List Text) (j : Text) (ids : List Text)
    → has j (add_all path ids) ≡ (has j path || has j ids)
unfolding add_all has
has-add_all [] j ids = refl
has-add_all (k ∷ path) j ids =
    ground
      (arith, has-add_all path j (add k ids), has-add k j ids, text_eq_iff k j, text_eq_iff j k)

expand_to_id-eq :
    (id : Text) (tree : TreeNodes) (path : List Text) (s : State)
    → find_path id tree [] ≡ some path
    → (expand_to_id id tree s).expanded_ids ≡ add_all path s.expanded_ids
unfolding expand_to_id
expand_to_id-eq id tree path s e = rw (e, expand_to_id)

-- If the tree has a node with the ID, then expanding to it expands the IDs of all nodes around one
-- such node, and besides them nothing but what was expanded before.
pub expand_to_id-Leads :
    (id : Text) (tree : TreeNodes) (some_path : List Text) (s : State)
    → Leads tree some_path id
    → (path : List Text) × Leads tree path id
      × ((j : Text)
          → has j (expand_to_id id tree s).expanded_ids ≡ (has j path || has j s.expanded_ids))
expand_to_id-Leads id tree some_path s l =
    let (result, e) = find_path-total id tree [] some_path l in
    let (path, same, k) = find_path-Found id tree [] result e in
    let expanded = expand_to_id-eq id tree path s (e ∙ ap some same) in
    (path, k, λ j. ap (has j) expanded ∙ has-add_all path j s.expanded_ids)
