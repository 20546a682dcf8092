-- ===== src/Surgical/Patch/Pipeline.antt =====
-- From an entry of the ghost manifest (zenith-vite-plugin/src/injector.ts) to the patched tree
-- (zenith-vite-plugin/src/surgical.ts).
use zenith_extension.Prelude.{ℕ, ◌≡◌, refl, ◌∙◌, Bool, true, false, ◌&&◌, none, Member}
use zenith_extension.Prelude.Text.{Text, Without}
use zenith_extension.Jsx.{Name, Node, Nodes, element}
use zenith_extension.Jsx.Inert.{AllInert}
use zenith_extension.Injector.{Entry, file_entries}
use zenith_extension.Injector.Plain.{IsSimpleTag, AllPlain}
use zenith_extension.Injector.Components.{Around, IsQuiet, component_file}
use zenith_extension.Surgical.Resolve.{Target, is_dynamic}
use zenith_extension.Surgical.Locate.{ok}
use zenith_extension.Surgical.Components.{file_entries-IsFound}
use zenith_extension.Surgical.Patch.{Instructions, edit, update, is_mismatch, apply, patch}
use zenith_extension.Surgical.Patch.Outcome.{patch-eq-apply}

and-false : (b : Bool) → (b && false) ≡ false
and-false true = refl
and-false false = refl

module _ (remove_path : ℕ → Node → Node) where
  apply-edit :
      (i : Instructions) (t : Target) (ast : Node)
      → t.locked ≡ false
      → is_dynamic t.origin ≡ false
      → i.delete ≡ false
      → i.reparent ≡ none
      → i.expected_tag ≡ none
      → apply remove_path i t ast ≡ ok (update t.loc (edit i) ast)
  unfolding apply is_mismatch
  apply-edit i t ast l d x r g = rw (l, d, x, r, g, and-false)

  -- Take a file with one component: a function, exported, declared, assigned or passed to a call, that
  -- returns its root element by a statement of its block, where all other code of the function and the file
  -- holds no JSX, the root has a simple tag and no JSX in its attributes, and below it is plain JSX;
  -- its path holds no colon. A patch for the ID of any manifest entry of the file, with any
  -- fingerprint, that deletes nothing, reparents nothing and expects no tag, succeeds, and edits
  -- exactly the element that the entry was recorded for.
  pub patch-Member :
      (file : Text) (around : Around) (before : Nodes) (loc : ℕ) (name : Name) (closed : Bool)
      → (attrs kids rest : Nodes) (wanted : Text) (e : Entry) (i : Instructions) → Without b':' file
      → IsSimpleTag name
      → IsQuiet around
      → AllInert before
      → AllInert rest
      → AllInert attrs
      → AllPlain kids
      → Member e (
          file_entries wanted file
            (component_file around before (element loc name closed attrs kids) rest))
      → i.zenith_id ≡ e.id
      → i.delete ≡ false
      → i.reparent ≡ none
      → i.expected_tag ≡ none
      → patch remove_path i (component_file around before (element loc name closed attrs kids) rest)
        ≡ ok (
            update e.loc
              (edit i)
              (component_file around before (element loc name closed attrs kids) rest))
  patch-Member file around before loc name closed attrs kids rest wanted e i w s p q u h k m z x r
        g =
      let ast = component_file around before (element loc name closed attrs kids) rest in
      let (o, d, found) =
        file_entries-IsFound file around before loc name closed attrs kids rest i.fingerprint w s p
          q u wanted e h k m in
      let t : Target = record { loc = e.loc; locked = false; origin = o } in
      patch-eq-apply remove_path i t ast (rw z found) ∙ apply-edit i t ast refl d x r g
