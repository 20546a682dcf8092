-- ===== src/Surgical/Components.antt =====
-- The whole way from the ghost IDs of a file with one component to the patcher's targets.
use native.Mathlib.Nat.{zero-add}
use zenith_extension.Prelude.{
  ℕ, ◌≡◌, refl, ap, ◌∙◌, Bool, false, List, [], ◌∷◌, ==_refl, Option, some, All, All-append,
  All-map, Member, All-Member,
}
use zenith_extension.Prelude.Text.{Text, Without, AllWithout, split, join, split-join, text_eq_refl}
use zenith_extension.Jsx.{Name, Node, Nodes, element}
use zenith_extension.Jsx.Names.{patcher_tag_name}
use zenith_extension.Jsx.Inert.{AllInert}
use zenith_extension.Injector.{
  Entry, returned, segment, element_index, is_skipped, entry, file_entries,
}
use zenith_extension.Injector.Plain.{IsSimpleTag, AllPlain}
use zenith_extension.Injector.Components.{
  branches, Around, IsQuiet, component_file, file_entries-component_file,
}
use zenith_extension.Surgical.Resolve.{
  Target, Origin, real, listed, is_dynamic, index_is, match_path,
}
use zenith_extension.Surgical.Locate.{
  Visit, returned_at, is_given, visit_root, search_file, locate, ok, target_or_error, resolve,
  resolve_parts,
}
use zenith_extension.Surgical.Selectors.{read_selector-segment, segment-Without}
use zenith_extension.Surgical.Searching.{search_file-component}
use zenith_extension.Surgical.Roundtrip.{All-unless, entries_all-Resolves}

-- The patcher finds the element of an entry by its ID, whatever the fingerprint, and not locked.
abbrev pub IsFound : Node → Option Text → Entry → Type 0
IsFound ast fingerprint e =
    (o : Origin) × (is_dynamic o ≡ false)
    × (resolve e.id fingerprint ast ≡ ok (record { loc = e.loc; locked = false; origin = o }))

resolve_lem :
    (id : Text) (fingerprint : Option Text) (ast : Node)
    → resolve id fingerprint ast ≡ resolve_parts (split b':' id) fingerprint ast
unfolding resolve
resolve_lem id fingerprint ast = refl

locate_lem :
    (part : Text) (parts : List Text) (fingerprint : Option Text) (ast : Node) (x : Target)
    → search_file (visit_root (is_given fingerprint) part parts) ast ≡ some x
    → locate part parts fingerprint ast ≡ some x
unfolding locate
locate_lem part parts fingerprint ast x h = rw (h, locate)

resolve_parts-found :
    (file part : Text) (parts : List Text) (fingerprint : Option Text) (ast : Node) (x : Target)
    → search_file (visit_root (is_given fingerprint) part parts) ast ≡ some x
    → resolve_parts (file ∷ part ∷ parts) fingerprint ast ≡ ok x
unfolding resolve_parts
resolve_parts-found file part parts fingerprint ast x h =
    ap target_or_error (locate_lem part parts fingerprint ast x h)

module _ (file : Text) (around : Around) (before : Nodes) (loc : ℕ) (name : Name) (closed : Bool)
    (attrs kids rest : Nodes) (fingerprint : Option Text) (file_ok : Without b':' file)
    (simple : IsSimpleTag name) (q : IsQuiet around) (i : AllInert before) (j : AllInert rest) where
  abbrev ast : Node
  ast = component_file around before (element loc name closed attrs kids) rest

  abbrev root_segment : Text
  root_segment = segment name (returned (branches before))

  abbrev root_visit : Visit
  root_visit = record {
    loc = loc;
    name = name;
    attrs = attrs;
    kids = kids;
    site = returned_at (branches before);
    is_dynamic = false;
  }

  visit_root_lem :
      (parts : List Text)
      → visit_root (is_given fingerprint) root_segment parts root_visit
        ≡ match_path (is_given fingerprint) parts loc kids false (real false)
  unfolding visit_root index_is element_index
  visit_root_lem parts = rw (
    read_selector-segment name (returned (branches before)) simple,
    visit_root,
    text_eq_refl (patcher_tag_name name),
    ==_refl (branches before),
  )

  resolve-join :
      (parts : List Text) (x : Target)
      → AllWithout b':' parts
      → match_path (is_given fingerprint) parts loc kids false (real false) ≡ some x
      → resolve (join b':' (file ∷ root_segment ∷ parts)) fingerprint ast ≡ ok x
  resolve-join parts x w h =
      let seen = visit_root (is_given fingerprint) root_segment parts in
      resolve_lem (join b':' (file ∷ root_segment ∷ parts)) fingerprint ast
      ∙ ap (λ all. resolve_parts all fingerprint ast)
          (split-join b':' file (root_segment ∷ parts)
            (file_ok, (segment-Without name (returned (branches before)) simple, w)))
      ∙ resolve_parts-found file root_segment parts fingerprint ast x (
          search_file-component seen around before loc name closed attrs kids rest x q i j
            (visit_root_lem parts ∙ h))

  file_entries-All-IsFound :
      (wanted : Text)
      → AllInert attrs
      → AllPlain kids
      → All (IsFound ast fingerprint) (file_entries wanted file ast)
  unfolding entry
  file_entries-All-IsFound wanted h p =
      rw
        (file_entries-component_file wanted file around before loc name closed attrs kids rest q i j
          h)
        (All-append (IsFound ast fingerprint) _ _
          (All-unless (IsFound ast fingerprint) (is_skipped wanted name attrs) _ (
            real false,
            refl,
            resolve-join [] (record { loc = loc; locked = false; origin = real false }) tt
                (unfold match_path in refl),
          ))
          (All-map _ _ _
            (λ e (part, parts, w, id, m).
              (listed, refl, rw id (resolve-join (part ∷ parts) _ w (m _ loc false (real false)))))
            (entries_all-Resolves wanted file kids (root_segment ∷ []) kids 0 p p
              (λ k e a. rw zero-add a))))

  -- Take a file with one component: a function, exported, declared, assigned or passed to a call, that
  -- returns its root element by a statement of its block, where all other code of the function and the file
  -- holds no JSX, the root has a simple tag and no JSX in its attributes, and below it is plain JSX.
  -- Every ID that the injector records for the file leads the patcher to the element that it was
  -- recorded for, without a lock, and whether or not a fingerprint is given, if the path of the file
  -- holds no colon.
  pub file_entries-IsFound :
      (wanted : Text) (e : Entry)
      → AllInert attrs
      → AllPlain kids
      → Member e (file_entries wanted file ast)
      → IsFound ast fingerprint e
  file_entries-IsFound wanted e h p m =
      All-Member (IsFound ast fingerprint) (file_entries wanted file ast) e
        (file_entries-All-IsFound wanted h p) m
