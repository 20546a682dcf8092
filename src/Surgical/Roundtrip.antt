-- ===== src/Surgical/Roundtrip.antt =====
-- The IDs that the injector gives lead the patcher back to the same elements.
use native.Mathlib.Nat.{add-zero, zero-add, add_assoc}
use zenith_extension.Prelude.{
  ℕ, ◌+◌, ◌≡◌, refl, sym, ap, ◌∙◌, Bool, true, false, List, [], ◌∷◌, ◌++◌, inl, inr, some, push,
  All, All-append, All-map, append_assoc, if◌then◌else◌,
}
use zenith_extension.Prelude.Text.{Text, AllWithout, join}
use zenith_extension.Jsx.{Name, Node, Nodes, element, fragment, jsx_text, container, nil, cons}
use zenith_extension.Jsx.Inert.{AllInert}
use zenith_extension.Injector.{
  child, free, Entry, element_index, segment, is_skipped, entry, entries, entries_all, flat_count,
  after, inside, is_logic_zone,
}
use zenith_extension.Injector.Plain.{
  IsSimpleTag, IsPlain, AllPlain, Element, At, AtAll, entries_of_IsInert, entries_all_of_AllInert,
}
use zenith_extension.Surgical.Resolve.{Origin, listed, read_selector, match_path}
use zenith_extension.Surgical.Matching.{match_level_at}
use zenith_extension.Surgical.Selectors.{read_selector-segment, segment-Without}

-- The ID of an entry goes on, behind the segments of `base`, with parts that lead `matchPath` from
-- the element with the children `all` to the entry's element.
abbrev pub Resolves : Text → List Text → Nodes → Entry → Type 0
Resolves file base all e =
    (part : Text) × (parts : List Text) × AllWithout b':' (part ∷ parts)
    × (e.id ≡ join b':' (file ∷ (base ++ part ∷ parts)))
    × ((fp : Bool) (loc : ℕ) (locked : Bool) (o : Origin)
        → match_path fp (part ∷ parts) loc all locked o
          ≡ some (record { loc = e.loc; locked = locked; origin = listed }))

-- A step of `matchPath` into the plain element at a flattened index.
match_path-cons :
    (all : Nodes) (k : ℕ) (el : Element) (parts : List Text) (target : ℕ)
    → AllPlain all
    → AtAll all k el
    → IsSimpleTag el.name
    → ((fp locked : Bool)
        → match_path fp parts el.loc el.kids locked listed
          ≡ some (record { loc = target; locked = locked; origin = listed }))
    → (fp : Bool) (loc : ℕ) (locked : Bool) (o : Origin)
    → match_path fp (segment el.name (child k) ∷ parts) loc all locked o
      ≡ some (record { loc = target; locked = locked; origin = listed })
unfolding match_path element_index
match_path-cons all k el parts target p a simple go fp loc locked o =
    let sel = read_selector-segment el.name (child k) simple in
    match_level_at (match_path fp parts) (read_selector (segment el.name (child k))) fp k
      (ap (λ s. s.expected_index) sel) el (sym (ap (λ s. s.expected_tag) sel)) locked _
      (go fp locked) all p a

pub All-unless {ℓ κ} :
    {A : Type ℓ} (P : A → Type κ) (b : Bool) (x : A) → P x → All P (if b then [] else x ∷ [])
All-unless P true x p = tt
All-unless P false x p = (p, tt)

-- An element in plain JSX, with the place where it stands.
module _ (wanted file : Text) (base : List Text) (all : Nodes) (k : ℕ) (q : AllPlain all)
    (el : Element) (simple : IsSimpleTag el.name) (at : AtAll all k el) where
  own-Resolves :
      Resolves file base all
        (entry wanted file (push base (segment el.name (child k))) false el.loc el.name)
  unfolding entry match_path
  own-Resolves = (
    segment el.name (child k),
    [],
    (segment-Without el.name (child k) simple, tt),
    refl,
    match_path-cons all k el [] el.loc q at simple (λ fp locked. refl),
  )

  below-Resolves :
      (e : Entry)
      → Resolves file (push base (segment el.name (child k))) el.kids e
      → Resolves file base all e
  below-Resolves e (part, parts, w, id, m) = (
    segment el.name (child k),
    part ∷ parts,
    (segment-Without el.name (child k) simple, w),
    id ∙ ap (λ segments. join b':' (file ∷ segments)) (append_assoc base _ (part ∷ parts)),
    match_path-cons all k el (part ∷ parts) e.loc q at simple
        (λ fp locked. m fp el.loc locked listed),
  )

module _ (wanted file : Text) where
  entries-element :
      (loc : ℕ) (name : Name) (closed : Bool) (attrs kids : Nodes) (base : List Text) (k : ℕ)
      → AllInert attrs
      → entries wanted file base false (child k) (element loc name closed attrs kids)
        ≡ (if is_skipped wanted name attrs
            then []
            else entry wanted file (push base (segment name (child k))) false loc name ∷ [])
          ++ entries_all wanted file (push base (segment name (child k))) false (child 0) kids
  unfolding entries
  entries-element loc name closed attrs kids base k h =
      rw (
        entries_all_of_AllInert wanted file attrs (push base (segment name (child k))) false free h)

  entries_all-cons :
      (n : Node) (ns : Nodes) (base : List Text) (k : ℕ)
      → entries_all wanted file base false (child k) (cons n ns)
        ≡ entries wanted file base false (child k) n
          ++ entries_all wanted file base false (child (k + flat_count n)) ns
  unfolding entries after
  entries_all-cons n ns base k = refl

  mutual
    unfolding entries inside is_logic_zone

    entries-Resolves :
        (n : Node) (base : List Text) (all : Nodes) (k : ℕ)
        → IsPlain n
        → AllPlain all
        → ((j : ℕ) (e : Element) → At n j e → AtAll all (k + j) e)
        → All (Resolves file base all) (entries wanted file base false (child k) n)
    entries-Resolves (element loc name closed attrs kids) base all k (simple, inert, p) q at =
        let el : Element = record { loc = loc; name = name; kids = kids } in
        let here : AtAll all k el = rw add-zero at (at 0 el (refl, refl)) in
        rw (entries-element loc name closed attrs kids base k inert) (
          All-append (Resolves file base all) _ _
            (All-unless (Resolves file base all) (is_skipped wanted name attrs) _
              (own-Resolves wanted file base all k q el simple here))
            (All-map _ _ _ (below-Resolves wanted file base all k q el simple here) (
              entries_all-Resolves kids (push base (segment name (child k))) kids 0 p p
                (λ j e a. rw zero-add a))))
    entries-Resolves (fragment kids) base all k p q at = entries_all-Resolves kids base all k p q at
    entries-Resolves (jsx_text s) base all k p q at = tt
    entries-Resolves (container e) base all k p q at =
        rw (entries_of_IsInert wanted file e base true free p) tt
    entries-Resolves _ base all k p q at = absurd p

    pub entries_all-Resolves :
        (ns : Nodes) (base : List Text) (all : Nodes) (k : ℕ)
        → AllPlain ns
        → AllPlain all
        → ((j : ℕ) (e : Element) → AtAll ns j e → AtAll all (k + j) e)
        → All (Resolves file base all) (entries_all wanted file base false (child k) ns)
    entries_all-Resolves nil base all k p q at = tt
    entries_all-Resolves (cons n ns) base all k (p, ps) q at = rw entries_all-cons (
        All-append (Resolves file base all) _ _
          (entries-Resolves n base all k p q (λ j e a. at j e (inl a)))
          (entries_all-Resolves ns base all (k + flat_count n) ps q
            (λ j e a. rw add_assoc (at (flat_count n + j) e (inr (j, refl, a))))))
