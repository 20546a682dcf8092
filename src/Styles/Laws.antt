-- ===== src/Styles/Laws.antt =====
-- Reading a style record after a write and after a merge.
use zenith_extension.Prelude.{
  ◌≡◌, refl, [], ◌∷◌, Option, none, some, arith, if◌then◌else◌, length, ◌≤◌, ◌+◌,
}
use zenith_extension.Prelude.Text.{Text, text_eq, text_eq_iff, text_eq_refl}
use zenith_extension.Styles.{Styles, lookup, insert, merge}

pub lookup-insert :
    (k j v : Text) (m : Styles)
    → lookup j (insert k v m) ≡ (if text_eq k j then some v else lookup j m)
unfolding lookup insert
lookup-insert k j v [] = refl
lookup-insert k j v ((i, w) ∷ m) =
    ground (arith, text_eq_iff k j, text_eq_iff i k, text_eq_iff i j, lookup-insert k j v m)

pub lookup-insert_self : (k v : Text) (m : Styles) → lookup k (insert k v m) ≡ some v
lookup-insert_self k v m = simp (lookup-insert, text_eq_refl)

pub length-insert-le : (k v : Text) (m : Styles) → length (insert k v m) ≤ length m + 1
unfolding insert
length-insert-le k v [] = ground arith
length-insert-le k v ((j, w) ∷ m) = ground (arith, length-insert-le k v m)

-- `a`, or `b` where `a` is undefined
abbrev pub or_else : Option Text → Option Text → Option Text
or_else none b = b
or_else (some a) b = some a

-- The value of a key after a merge: the last one that the new styles give, or the old one.
unfoldable pub last_value : Text → Styles → Option Text
last_value k [] = none
last_value k ((j, v) ∷ m) = or_else (last_value k m) (if text_eq j k then some v else none)

pub lookup-merge :
    (j : Text) (m news : Styles)
    → lookup j (merge m news) ≡ or_else (last_value j news) (lookup j m)
unfolding merge last_value
lookup-merge j m [] = refl
lookup-merge j m ((k, v) ∷ news) =
    ground (arith, lookup-merge j (insert k v m) news, lookup-insert k j v m)
