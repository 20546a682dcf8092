-- ===== src/Injector/Components.antt =====
-- A file with one component: a function that returns its root element, anywhere below the program
-- in code without JSX, as `export default function`, `export const App = memo(() => {...})` and a
-- function with statements around it are.
use zenith_extension.Prelude.{
  ℕ, ◌+◌, ◌≡◌, refl, ◌∙◌, Bool, false, List, [], ◌∷◌, ◌++◌, if◌then◌else◌, append-nil,
}
use native.Mathlib.Nat.{add-zero, zero-add, add_assoc}
use zenith_extension.Prelude.Text.{Text}
use zenith_extension.Jsx.{
  Name, Node, Nodes, element, call, function, block, return_value, other, nil, cons,
}
use zenith_extension.Jsx.Inert.{IsInert, AllInert}
use zenith_extension.Injector.{
  Place, child, statement, returned, free, after, branch_count, segment, argument_of, is_skipped,
  entry, entries, entries_all, file_entries,
}
use zenith_extension.Injector.Plain.{entries_of_IsInert, entries_all_of_AllInert}

abbrev pub append : Nodes → Nodes → Nodes
append nil ms = ms
append (cons n ns) ms = cons n (append ns ms)

abbrev pub branches : Nodes → ℕ
branches nil = 0
branches (cons n ns) = branch_count n + branches ns

-- `function` or an arrow with a block, that has one `return` among its statements that returns JSX.
abbrev pub component : Nodes → Node → Nodes → Node
component before root rest = function (block (append before (cons (return_value root) rest)))

-- What is around a component: the nodes from the program down to it, each with what stands before
-- and after, such as the export, the declaration and the name of a constant.
pub data Around : Type 0 where
  direct : Around
  within : (before : Nodes) → Around → (rest : Nodes) → Around
  -- An argument of a call, such as one of `memo`.
  argument : (callee : Node) → (before : Nodes) → Around → (rest : Nodes) → Around

abbrev pub place_in : Around → Node → Node
place_in direct n = n
place_in (within before a rest) n = other (append before (cons (place_in a n) rest))
place_in (argument f before a rest) n = call f (append before (cons (place_in a n) rest))

abbrev pub IsQuiet : Around → Type 0
IsQuiet direct = Unit
IsQuiet (within before a rest) = AllInert before × IsQuiet a × AllInert rest
IsQuiet (argument f before a rest) = IsInert f × AllInert before × IsQuiet a × AllInert rest

abbrev pub component_file : Around → Nodes → Node → Nodes → Node
component_file around before root rest = place_in around (component before root rest)

module _ (wanted file : Text) where
  entries_all-append_free :
      (ns ms : Nodes) (chain : List Text)
      → AllInert ns
      → entries_all wanted file chain false free (append ns ms)
        ≡ entries_all wanted file chain false free ms
  unfolding entries after
  entries_all-append_free nil ms c h = refl
  entries_all-append_free (cons n ns) ms c (i, j) =
      rw (entries_of_IsInert wanted file n c false free i) (entries_all-append_free ns ms c j)

  entries_all-append_statement :
      (ns ms : Nodes) (chain : List Text) (k : ℕ)
      → AllInert ns
      → entries_all wanted file chain false (statement k) (append ns ms)
        ≡ entries_all wanted file chain false (statement (k + branches ns)) ms
  unfolding entries after
  entries_all-append_statement nil ms c k h = rw add-zero
  entries_all-append_statement (cons n ns) ms c k (i, j) =
      rw (entries_of_IsInert wanted file n c false (statement k) i, ← add_assoc)
        (entries_all-append_statement ns ms c (k + branch_count n) j)

  entries_all-one :
      (place : Place) (n : Node) (rest : Nodes) (chain : List Text)
      → AllInert rest
      → entries_all wanted file chain false place (cons n rest)
        ≡ entries wanted file chain false place n
  unfolding entries
  entries_all-one place n rest c h =
      rw (entries_all_of_AllInert wanted file rest c false (after place n) h) (append-nil _)

  entries-other :
      (ns : Nodes) (chain : List Text)
      → entries wanted file chain false free (other ns)
        ≡ entries_all wanted file chain false free ns
  unfolding entries
  entries-other ns c = refl

  entries-call :
      (f : Node) (ns : Nodes) (chain : List Text)
      → IsInert f
      → entries wanted file chain false free (call f ns)
        ≡ entries_all wanted file chain false free ns
  unfolding entries
  entries-call f ns c i = rw (entries_of_IsInert wanted file f c false free i) refl

  entries-place_in :
      (a : Around) (n : Node) (chain : List Text)
      → IsQuiet a
      → entries wanted file chain false free (place_in a n) ≡ entries wanted file chain false free n
  entries-place_in direct n c h = refl
  entries-place_in (within before a rest) n c (i, q, j) =
      entries-other (append before (cons (place_in a n) rest)) c
      ∙ entries_all-append_free before (cons (place_in a n) rest) c i
      ∙ entries_all-one free (place_in a n) rest c j
      ∙ entries-place_in a n c q
  entries-place_in (argument f before a rest) n c (h, i, q, j) =
      entries-call f (append before (cons (place_in a n) rest)) c h
      ∙ entries_all-append_free before (cons (place_in a n) rest) c i
      ∙ entries_all-one free (place_in a n) rest c j
      ∙ entries-place_in a n c q

  entries-component :
      (ss : Nodes)
      → entries wanted file [] false free (function (block ss))
        ≡ entries_all wanted file [] false (statement 0) ss
  unfolding entries
  entries-component ss = refl

  entries-return :
      (k : ℕ) (root : Node)
      → entries wanted file [] false (statement k) (return_value root)
        ≡ entries wanted file [] false (returned k) root
  unfolding entries argument_of
  entries-return k root = refl

  entries-root :
      (place : Place) (loc : ℕ) (name : Name) (closed : Bool) (attrs kids : Nodes)
      → AllInert attrs
      → entries wanted file [] false place (element loc name closed attrs kids)
        ≡ (if is_skipped wanted name attrs
            then []
            else entry wanted file (segment name place ∷ []) false loc name ∷ [])
          ++ entries_all wanted file (segment name place ∷ []) false (child 0) kids
  unfolding entries
  entries-root place loc name closed attrs kids h =
      rw (entries_all_of_AllInert wanted file attrs (segment name place ∷ []) false free h)

  -- The entries of such a file are those of the root.
  pub file_entries-component_file :
      (around : Around) (before : Nodes) (loc : ℕ) (name : Name) (closed : Bool)
      (attrs kids rest : Nodes)
      → IsQuiet around
      → AllInert before
      → AllInert rest
      → AllInert attrs
      → file_entries wanted file
          (component_file around before (element loc name closed attrs kids) rest)
        ≡ (if is_skipped wanted name attrs
            then []
            else entry wanted file (segment name (returned (branches before)) ∷ []) false loc name
              ∷ [])
          ++ entries_all wanted file
              (segment name (returned (branches before)) ∷ [])
              false
              (child 0)
              kids
  unfolding file_entries
  file_entries-component_file around before loc name closed attrs kids rest q i j h =
      let root = element loc name closed attrs kids in
      let last = cons (return_value root) rest in
      entries-place_in around (component before root rest) [] q
      ∙ entries-component (append before last)
      ∙ entries_all-append_statement before last [] 0 i
      ∙ rw zero-add (entries_all-one (statement (branches before)) (return_value root) rest [] j)
      ∙ entries-return (branches before) root
      ∙ entries-root (returned (branches before)) loc name closed attrs kids h
