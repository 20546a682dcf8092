-- ===== src/Prelude/Text.antt =====
-- JavaScript strings as lists of code units, with equality, and literals read from ASCII texts.
use Prim.Native.Nat.{ℕ}
use Prim.Native.Char.{code}
use Prim.Native.String.{String}
use mathlib.Core.Path.{◌≡◌, refl, ap, ◌∙◌}
use mathlib.Core.Logic.{◌↔◌, inl, inr}
use mathlib.Core.Bool.{Bool, true, false, ◌&&◌}
use mathlib.Core.List.{List, [], ◌∷◌, ◌++◌}
use native.Mathlib.Omega.{arith}
use zenith_extension.Prelude.Tests.{◌==◌, ==_refl, ==_iff, if◌then◌else◌, Bool-cases}

abbrev pub Text : Type 0
Text = List ℕ

abbrev pub codes : String → Text
codes String.[] = []
codes (String.◌∷◌ c s) = code c ∷ codes s

-- `===` on strings
unfoldable pub text_eq : Text → Text → Bool
text_eq [] [] = true
text_eq [] (d ∷ t) = false
text_eq (c ∷ s) [] = false
text_eq (c ∷ s) (d ∷ t) = c == d && text_eq s t

pub text_eq_iff : (s t : Text) → (text_eq s t ≡ true) ↔ (s ≡ t)
unfolding text_eq
text_eq_iff [] [] = (λ _. refl, λ _. refl)
text_eq_iff [] (d ∷ t) = ground arith
text_eq_iff (c ∷ s) [] = ground arith
text_eq_iff (c ∷ s) (d ∷ t) = ground (arith, text_eq_iff s t)

pub text_eq_refl : (s : Text) → text_eq s s ≡ true
text_eq_refl s = (text_eq_iff s s).1 refl

-- `s.split(c)` for a one-character separator: one part more than there are separators.
abbrev cons_head : ℕ → List Text → List Text
cons_head c [] = (c ∷ []) ∷ []
cons_head c (part ∷ parts) = (c ∷ part) ∷ parts

unfoldable pub split : ℕ → Text → List Text
split sep [] = [] ∷ []
split sep (c ∷ s) = let parts = split sep s in if c == sep then [] ∷ parts else cons_head c parts

-- `parts.join(sep)` for a one-character separator
unfoldable pub join : ℕ → List Text → Text
join sep [] = []
join sep (part ∷ []) = part
join sep (part ∷ next ∷ parts) = part ++ sep ∷ join sep (next ∷ parts)

abbrev pub Without : ℕ → Text → Type 0
Without sep [] = Unit
Without sep (c ∷ s) = ((c == sep) ≡ false) × Without sep s

pub Without-append : (sep : ℕ) (s t : Text) → Without sep s → Without sep t → Without sep (s ++ t)
Without-append sep [] t h k = k
Without-append sep (c ∷ s) t (p, h) k = (p, Without-append sep s t h k)

abbrev pub AllWithout : ℕ → List Text → Type 0
AllWithout sep [] = Unit
AllWithout sep (s ∷ parts) = Without sep s × AllWithout sep parts

pub split_of_Without : (sep : ℕ) (s : Text) → Without sep s → split sep s ≡ s ∷ []
unfolding split
split_of_Without sep [] h = refl
split_of_Without sep (c ∷ s) (p, h) = rw (p, split_of_Without sep s h)

pub split-append :
    (sep : ℕ) (s t : Text) → Without sep s → split sep (s ++ sep ∷ t) ≡ s ∷ split sep t
unfolding split
split-append sep [] t h = rw (==_refl sep)
split-append sep (c ∷ s) t (p, h) = rw (p, split-append sep s t h)

-- Splitting what was joined gives the parts back, if the separator is in none of them.
pub split-join :
    (sep : ℕ) (part : Text) (parts : List Text)
    → AllWithout sep (part ∷ parts)
    → split sep (join sep (part ∷ parts)) ≡ part ∷ parts
unfolding join
split-join sep part [] (h, _) = split_of_Without sep part h
split-join sep part (next ∷ parts) (h, k) =
    split-append sep part _ h ∙ ap (λ t. part ∷ t) (split-join sep next parts k)

split-cons :
    (sep : ℕ) (s : Text) → (part : Text) × (parts : List Text) × (split sep s ≡ part ∷ parts)
unfolding split
split-cons sep [] = ([], [], refl)
split-cons sep (c ∷ s) =
    let (part, parts, e) = split-cons sep s in
    elim (Bool-cases (c == sep)) [
      | inl y ↦ ([], part ∷ parts, rw (y, e))
      | inr n ↦ (c ∷ part, parts, rw (n, e))
    ]

join-cons_head :
    (sep c : ℕ) (part : Text) (parts : List Text)
    → join sep (cons_head c (part ∷ parts)) ≡ c ∷ join sep (part ∷ parts)
unfolding join
join-cons_head sep c part [] = refl
join-cons_head sep c part (next ∷ parts) = refl

join-sep :
    (sep : ℕ) (part : Text) (parts : List Text)
    → join sep ([] ∷ part ∷ parts) ≡ sep ∷ join sep (part ∷ parts)
unfolding join
join-sep sep part parts = refl

split-sep : (sep c : ℕ) (s : Text) → (c == sep) ≡ true → split sep (c ∷ s) ≡ [] ∷ split sep s
unfolding split
split-sep sep c s h = rw h

split-other :
    (sep c : ℕ) (s : Text) → (c == sep) ≡ false → split sep (c ∷ s) ≡ cons_head c (split sep s)
unfolding split
split-other sep c s h = rw h

-- Joining the parts of a text by their separator gives the text back.
pub join-split : (sep : ℕ) (s : Text) → join sep (split sep s) ≡ s
join-split sep [] = unfold join split in refl
join-split sep (c ∷ s) =
    let (part, parts, e) = split-cons sep s in
    let ih : join sep (part ∷ parts) ≡ s = rw e at (join-split sep s) in
    elim (Bool-cases (c == sep)) [
      | inl y ↦ rw (split-sep sep c s y, e, join-sep, ih, (==_iff c sep).0 y)
      | inr n ↦ rw (split-other sep c s n, e, join-cons_head, ih)
    ]
