-- ===== src/Injector/Plain.antt =====
-- Plain JSX: elements, fragments, text and containers whose expressions hold no JSX.
use zenith_extension.Prelude.{ℕ, ◌+◌, ◌≡◌, refl, Bool, List, [], ◌++◌, ◌⊎◌, ap₂}
use zenith_extension.Prelude.Text.{Text, Without}
use zenith_extension.Jsx.{
  Name, ident, Node, Nodes, element, fragment, jsx_text, container, attribute, bare_attribute,
  spread, object, property, string_literal, numeric_literal, conditional, logical, call, member,
  function, block, return_void, return_value, if_then, if_else, other, nil, cons,
}
use zenith_extension.Jsx.Inert.{IsInert, AllInert}
use zenith_extension.Injector.{Place, after, flat_count, entries, entries_all}

-- A tag that is one identifier, with none of the separators of IDs.
abbrev pub IsSimpleTag : Name → Type 0
IsSimpleTag (ident tag) = Without b'.' tag × Without b':' tag
IsSimpleTag _ = ⊥

abbrev mutual
  pub IsPlain : Node → Type 0
  IsPlain (element loc name closed attrs kids) = IsSimpleTag name × AllInert attrs × AllPlain kids
  IsPlain (fragment kids) = AllPlain kids
  IsPlain (jsx_text s) = Unit
  IsPlain (container e) = IsInert e
  IsPlain _ = ⊥

  pub AllPlain : Nodes → Type 0
  AllPlain nil = Unit
  AllPlain (cons n ns) = IsPlain n × AllPlain ns

-- An element as the patcher goes down through it.
pub record Element : Type 0 where
  pub loc : ℕ
  pub name : Name
  pub kids : Nodes

-- The element that stands at a flattened index.
abbrev mutual
  pub At : Node → ℕ → Element → Type 0
  At (element loc name closed attrs kids) k e =
      (k ≡ 0) × (e ≡ record { loc = loc; name = name; kids = kids })
  At (fragment kids) k e = AtAll kids k e
  At _ k e = ⊥

  pub AtAll : Nodes → ℕ → Element → Type 0
  AtAll nil k e = ⊥
  AtAll (cons n ns) k e = At n k e ⊎ ((j : ℕ) × (k ≡ flat_count n + j) × AtAll ns j e)

module _ (wanted file : Text) where
  -- Code without JSX has no entries.
  mutual
    unfolding entries

    pub entries_of_IsInert :
        (n : Node) (chain : List Text) (locked : Bool) (place : Place)
        → IsInert n
        → entries wanted file chain locked place n ≡ []
    entries_of_IsInert (element loc name closed attrs kids) c l p h = absurd h
    entries_of_IsInert (fragment kids) c l p h = absurd h
    entries_of_IsInert (jsx_text s) c l p h = refl
    entries_of_IsInert (container e) c l p h = entries_of_IsInert e c _ _ h
    entries_of_IsInert (attribute name v) c l p h = entries_of_IsInert v c l _ h
    entries_of_IsInert (bare_attribute name) c l p h = refl
    entries_of_IsInert (spread e) c l p h = entries_of_IsInert e c l _ h
    entries_of_IsInert (object ps) c l p h = entries_all_of_AllInert ps c l _ h
    entries_of_IsInert (property name v) c l p h = entries_of_IsInert v c l _ h
    entries_of_IsInert (string_literal s) c l p h = refl
    entries_of_IsInert (numeric_literal s) c l p h = refl
    entries_of_IsInert (conditional x a b) c l p (i, j, k) =
        ap₂ ◌++◌ (entries_of_IsInert x c l _ i)
          (ap₂ ◌++◌ (entries_of_IsInert a c l _ j) (entries_of_IsInert b c l _ k))
    entries_of_IsInert (logical a b) c l p (i, j) =
        ap₂ ◌++◌ (entries_of_IsInert a c l _ i) (entries_of_IsInert b c l _ j)
    entries_of_IsInert (call f args) c l p (i, j) =
        ap₂ ◌++◌ (entries_of_IsInert f c l _ i) (entries_all_of_AllInert args c l _ j)
    entries_of_IsInert (member e name) c l p h = entries_of_IsInert e c l _ h
    entries_of_IsInert (function body) c l p h = entries_of_IsInert body c l _ h
    entries_of_IsInert (block ss) c l p h = entries_all_of_AllInert ss c l _ h
    entries_of_IsInert return_void c l p h = refl
    entries_of_IsInert (return_value e) c l p h = entries_of_IsInert e c l _ h
    entries_of_IsInert (if_then x a) c l p (i, j) =
        ap₂ ◌++◌ (entries_of_IsInert x c l _ i) (entries_of_IsInert a c l _ j)
    entries_of_IsInert (if_else x a b) c l p (i, j, k) =
        ap₂ ◌++◌ (entries_of_IsInert x c l _ i)
          (ap₂ ◌++◌ (entries_of_IsInert a c l _ j) (entries_of_IsInert b c l _ k))
    entries_of_IsInert (other ns) c l p h = entries_all_of_AllInert ns c l _ h

    pub entries_all_of_AllInert :
        (ns : Nodes) (chain : List Text) (locked : Bool) (place : Place)
        → AllInert ns
        → entries_all wanted file chain locked place ns ≡ []
    entries_all_of_AllInert nil c l p h = refl
    entries_all_of_AllInert (cons n ns) c l p (i, j) =
        ap₂ ◌++◌ (entries_of_IsInert n c l p i) (entries_all_of_AllInert ns c l (after p n) j)
