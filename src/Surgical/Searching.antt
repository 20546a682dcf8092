-- ===== src/Surgical/Searching.antt =====
-- The traversals of the patcher over code without JSX and over a file with one component.
use native.Mathlib.Nat.{add-zero, zero-add, add_assoc}
use zenith_extension.Prelude.{ℕ, ◌+◌, ◌≡◌, refl, ◌∙◌, Bool, false, Option, none, some, ap₂}
use zenith_extension.Jsx.{
  Name, Node, Nodes, element, fragment, jsx_text, container, attribute, bare_attribute, spread,
  object, property, string_literal, numeric_literal, conditional, logical, call, member, function,
  block, return_void, return_value, if_then, if_else, other, nil, cons,
}
use zenith_extension.Jsx.Inert.{IsInert, AllInert}
use zenith_extension.Injector.{branch_count}
use zenith_extension.Injector.Components.{
  append, branches, component, Around, direct, within, argument, place_in, IsQuiet, component_file,
}
use zenith_extension.Surgical.Locate.{
  Site, statement_at, returned_at, elsewhere, Visit, search, search_all, or_else, next_site,
  branch_total, return_site,
}

module _ {A : Type 0} (visit : Visit → Option A) where
  -- Code without JSX is never visited.
  mutual
    unfolding search

    search_of_IsInert :
        (n : Node) (total : ℕ) (dynamic : Bool) (site : Site)
        → IsInert n
        → search visit total dynamic site n ≡ none
    search_of_IsInert (element loc name closed attrs kids) t d s h = absurd h
    search_of_IsInert (fragment kids) t d s h = absurd h
    search_of_IsInert (jsx_text x) t d s h = refl
    search_of_IsInert (container e) t d s h = search_of_IsInert e t _ _ h
    search_of_IsInert (attribute name v) t d s h = search_of_IsInert v t d _ h
    search_of_IsInert (bare_attribute name) t d s h = refl
    search_of_IsInert (spread e) t d s h = search_of_IsInert e t d _ h
    search_of_IsInert (object ps) t d s h = search_all_of_AllInert ps t d _ h
    search_of_IsInert (property name v) t d s h = search_of_IsInert v t d _ h
    search_of_IsInert (string_literal x) t d s h = refl
    search_of_IsInert (numeric_literal x) t d s h = refl
    search_of_IsInert (conditional c a b) t d s (i, j, k) =
        ap₂ or_else (search_of_IsInert c t d _ i)
          (ap₂ or_else (search_of_IsInert a t d _ j) (search_of_IsInert b t d _ k))
    search_of_IsInert (logical a b) t d s (i, j) =
        ap₂ or_else (search_of_IsInert a t d _ i) (search_of_IsInert b t d _ j)
    search_of_IsInert (call f args) t d s (i, j) =
        ap₂ or_else (search_of_IsInert f t _ _ i) (search_all_of_AllInert args t d _ j)
    search_of_IsInert (member e name) t d s h = search_of_IsInert e t d _ h
    search_of_IsInert (function body) t d s h = search_of_IsInert body t d _ h
    search_of_IsInert (block ss) t d s h = search_all_of_AllInert ss _ d _ h
    search_of_IsInert return_void t d s h = refl
    search_of_IsInert (return_value e) t d s h = search_of_IsInert e t d _ h
    search_of_IsInert (if_then c a) t d s (i, j) =
        ap₂ or_else (search_of_IsInert c t d _ i) (search_of_IsInert a t d _ j)
    search_of_IsInert (if_else c a b) t d s (i, j, k) =
        ap₂ or_else (search_of_IsInert c t d _ i)
          (ap₂ or_else (search_of_IsInert a t d _ j) (search_of_IsInert b t d _ k))
    search_of_IsInert (other ns) t d s h = search_all_of_AllInert ns t d _ h

    search_all_of_AllInert :
        (ns : Nodes) (total : ℕ) (dynamic : Bool) (site : Site)
        → AllInert ns
        → search_all visit total dynamic site ns ≡ none
    search_all_of_AllInert nil t d s h = refl
    search_all_of_AllInert (cons n ns) t d s (i, j) =
        ap₂ or_else (search_of_IsInert n t d s i) (search_all_of_AllInert ns t d (next_site s n) j)

  search_all-append_elsewhere :
      (ns ms : Nodes) (total : ℕ) (dynamic : Bool)
      → AllInert ns
      → search_all visit total dynamic elsewhere (append ns ms)
        ≡ search_all visit total dynamic elsewhere ms
  unfolding search next_site
  search_all-append_elsewhere nil ms t d h = refl
  search_all-append_elsewhere (cons n ns) ms t d (i, j) =
      rw (search_of_IsInert n t d elsewhere i) (search_all-append_elsewhere ns ms t d j)

  search_all-append_statement :
      (ns ms : Nodes) (total : ℕ) (dynamic : Bool) (k : ℕ)
      → AllInert ns
      → search_all visit total dynamic (statement_at k) (append ns ms)
        ≡ search_all visit total dynamic (statement_at (k + branches ns)) ms
  unfolding search next_site
  search_all-append_statement nil ms t d k h = rw add-zero
  search_all-append_statement (cons n ns) ms t d k (i, j) =
      rw (search_of_IsInert n t d (statement_at k) i, ← add_assoc)
        (search_all-append_statement ns ms t d (k + branch_count n) j)

  or_else-none : (o : Option A) → or_else o none ≡ o
  or_else-none none = refl
  or_else-none (some a) = refl

  search_all-one :
      (n : Node) (rest : Nodes) (total : ℕ) (dynamic : Bool) (site : Site)
      → AllInert rest
      → search_all visit total dynamic site (cons n rest) ≡ search visit total dynamic site n
  unfolding search
  search_all-one n rest t d s h =
      rw (search_all_of_AllInert rest t d (next_site s n) h) (or_else-none _)

  search-other :
      (ns : Nodes) (total : ℕ) (dynamic : Bool)
      → search visit total dynamic elsewhere (other ns)
        ≡ search_all visit total dynamic elsewhere ns
  unfolding search
  search-other ns t d = refl

  search-call :
      (f : Node) (ns : Nodes) (total : ℕ) (dynamic : Bool)
      → IsInert f
      → search visit total dynamic elsewhere (call f ns)
        ≡ search_all visit total dynamic elsewhere ns
  unfolding search
  search-call f ns t d i = rw (search_of_IsInert f t _ elsewhere i) refl

  search-place_in :
      (a : Around) (n : Node) (total : ℕ) (dynamic : Bool)
      → IsQuiet a
      → search visit total dynamic elsewhere (place_in a n) ≡ search visit total dynamic elsewhere n
  search-place_in direct n t d h = refl
  search-place_in (within before a rest) n t d (i, q, j) =
      search-other (append before (cons (place_in a n) rest)) t d
      ∙ search_all-append_elsewhere before (cons (place_in a n) rest) t d i
      ∙ search_all-one (place_in a n) rest t d elsewhere j
      ∙ search-place_in a n t d q
  search-place_in (argument f before a rest) n t d (h, i, q, j) =
      search-call f (append before (cons (place_in a n) rest)) t d h
      ∙ search_all-append_elsewhere before (cons (place_in a n) rest) t d i
      ∙ search_all-one (place_in a n) rest t d elsewhere j
      ∙ search-place_in a n t d q

  search-component :
      (ss : Nodes)
      → search visit 0 false elsewhere (function (block ss))
        ≡ search_all visit (branch_total ss) false (statement_at 0) ss
  unfolding search
  search-component ss = refl

  search-return :
      (total k : ℕ) (root : Node)
      → search visit total false (statement_at k) (return_value root)
        ≡ search visit total false (returned_at k) root
  unfolding search return_site
  search-return total k root = refl

  search-found :
      (total k loc : ℕ) (name : Name) (closed : Bool) (attrs kids : Nodes) (x : A)
      → visit (record {
        loc = loc;
        name = name;
        attrs = attrs;
        kids = kids;
        site = returned_at k;
        is_dynamic = false;
      })
        ≡ some x
      → search visit total false (returned_at k) (element loc name closed attrs kids) ≡ some x
  unfolding search
  search-found total k loc name closed attrs kids x h = rw h

  -- The first visit of a file with one component is that of its root.
  pub search_file-component :
      (around : Around) (before : Nodes) (loc : ℕ) (name : Name) (closed : Bool)
      (attrs kids rest : Nodes) (x : A)
      → IsQuiet around
      → AllInert before
      → AllInert rest
      → visit (record {
        loc = loc;
        name = name;
        attrs = attrs;
        kids = kids;
        site = returned_at (branches before);
        is_dynamic = false;
      })
        ≡ some x
      → search visit 0 false elsewhere
          (component_file around before (element loc name closed attrs kids) rest)
        ≡ some x
  search_file-component around before loc name closed attrs kids rest x q i j h =
      let root = element loc name closed attrs kids in
      let last = cons (return_value root) rest in
      let total = branch_total (append before last) in
      search-place_in around (component before root rest) 0 false q
      ∙ search-component (append before last)
      ∙ search_all-append_statement before last total false 0 i
      ∙ rw zero-add
          (search_all-one (return_value root) rest total false (statement_at (branches before)) j)
      ∙ search-return total (branches before) root
      ∙ search-found total (branches before) loc name closed attrs kids x h
