-- ===== src/Jsx/Inert.antt =====
-- Code without JSX.
use zenith_extension.Jsx.{
  Node, Nodes, element, fragment, jsx_text, container, attribute, bare_attribute, spread, object,
  property, string_literal, numeric_literal, conditional, logical, call, member, function, block,
  return_void, return_value, if_then, if_else, other, nil, cons,
}

abbrev mutual
  pub IsInert : Node → Type 0
  IsInert (element loc name closed attrs kids) = ⊥
  IsInert (fragment kids) = ⊥
  IsInert (jsx_text s) = Unit
  IsInert (container e) = IsInert e
  IsInert (attribute name v) = IsInert v
  IsInert (bare_attribute name) = Unit
  IsInert (spread e) = IsInert e
  IsInert (object ps) = AllInert ps
  IsInert (property name v) = IsInert v
  IsInert (string_literal s) = Unit
  IsInert (numeric_literal s) = Unit
  IsInert (conditional c a b) = IsInert c × IsInert a × IsInert b
  IsInert (logical a b) = IsInert a × IsInert b
  IsInert (call f args) = IsInert f × AllInert args
  IsInert (member e name) = IsInert e
  IsInert (function body) = IsInert body
  IsInert (block ss) = AllInert ss
  IsInert return_void = Unit
  IsInert (return_value e) = IsInert e
  IsInert (if_then c a) = IsInert c × IsInert a
  IsInert (if_else c a b) = IsInert c × IsInert a × IsInert b
  IsInert (other ns) = AllInert ns

  pub AllInert : Nodes → Type 0
  AllInert nil = Unit
  AllInert (cons n ns) = IsInert n × AllInert ns
