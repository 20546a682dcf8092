-- ===== src/Styles/Camel.antt =====
-- The names and values in a record behind `normalizeStyles`.
use zenith_extension.Prelude.{
  ℕ, ◌-◌, ◌≡◌, refl, Bool, true, false, ◌&&◌, [], ◌∷◌, Option, none, some, arith, ◌==◌, Bool-cases,
  inl, inr, ap, map, List, ◌++◌, ◌∙◌, push, if◌then◌else◌,
}
use zenith_extension.Prelude.Text.{Text, text_eq, Without}
use zenith_extension.Styles.{
  Styles, lookup, insert, merge, is_lower, to_camel_case, normalize_into, normalize_styles,
}
use zenith_extension.Styles.Laws.{or_else, last_value, lookup-merge}

and_right : (a b : Bool) → (a && b) ≡ true → b ≡ true
and_right true b h = h
and_right false b h = cc

or_else-none : (o : Option Text) → or_else o none ≡ o
or_else-none none = refl
or_else-none (some a) = refl

-- No dash is followed by a lower-case letter.
abbrev pub IsCamel : Text → Type 0
IsCamel [] = Unit
IsCamel (c ∷ []) = Unit
IsCamel (c ∷ d ∷ s) = ((c == b'-' && is_lower d) ≡ false) × IsCamel (d ∷ s)

to_camel_case_of_IsCamel : (s : Text) → IsCamel s → to_camel_case s ≡ s
unfolding to_camel_case
to_camel_case_of_IsCamel [] h = refl
to_camel_case_of_IsCamel (c ∷ []) h = refl
to_camel_case_of_IsCamel (c ∷ d ∷ s) (e, h) =
    rw (e, to_camel_case) (ap (λ t. c ∷ t) (to_camel_case_of_IsCamel (d ∷ s) h))

abbrev MayFollow : ℕ → Text → Type 0
MayFollow c [] = Unit
MayFollow c (d ∷ s) = (c == b'-' && is_lower d) ≡ false

capital_after : (c e : ℕ) → is_lower e ≡ true → (c == b'-' && is_lower (e - 32)) ≡ false
unfolding is_lower
capital_after c e h = ground arith

MayFollow-capital : (e : ℕ) (s : Text) → is_lower e ≡ true → MayFollow (e - 32) s
unfolding is_lower
MayFollow-capital e [] h = tt
MayFollow-capital e (d ∷ s) h = ground arith

cons-to_camel_case-IsCamel : (c : ℕ) (s : Text) → MayFollow c s → IsCamel (c ∷ to_camel_case s)
unfolding to_camel_case
cons-to_camel_case-IsCamel c [] h = tt
cons-to_camel_case-IsCamel c (d ∷ []) h = (h, tt)
cons-to_camel_case-IsCamel c (d ∷ e ∷ s) h = elim (Bool-cases (d == b'-' && is_lower e)) [
  | inl y ↦
      let low : is_lower e ≡ true = and_right (d == b'-') (is_lower e) y in
      rw (y, to_camel_case)
        (capital_after c e low, cons-to_camel_case-IsCamel (e - 32) s (MayFollow-capital e s low))
  | inr n ↦ rw (n, to_camel_case) (h, cons-to_camel_case-IsCamel d (e ∷ s) n)
]

-- The camel-case form of a key holds no dash before a lower-case letter.
pub to_camel_case-IsCamel : (s : Text) → IsCamel (to_camel_case s)
unfolding to_camel_case
to_camel_case-IsCamel [] = tt
to_camel_case-IsCamel (c ∷ []) = tt
to_camel_case-IsCamel (c ∷ d ∷ s) = elim (Bool-cases (c == b'-' && is_lower d)) [
  | inl y ↦
      rw (y, to_camel_case)
        (cons-to_camel_case-IsCamel (d - 32) s
          (MayFollow-capital d s (and_right (c == b'-') (is_lower d) y)))
  | inr n ↦ rw (n, to_camel_case) (cons-to_camel_case-IsCamel c (d ∷ s) n)
]

-- Whatever the key, its camel-case form holds no dash before a lower-case letter, and converting
-- that form again changes nothing.
pub to_camel_case_idem :
    (s : Text) → IsCamel (to_camel_case s) × (to_camel_case (to_camel_case s) ≡ to_camel_case s)
to_camel_case_idem s =
    (to_camel_case-IsCamel s, to_camel_case_of_IsCamel (to_camel_case s) (to_camel_case-IsCamel s))

abbrev pub camel_entry : Text × Text → Text × Text
camel_entry (k, v) = (to_camel_case k, v)

normalize_into-merge :
    (m styles : Styles) → normalize_into m styles ≡ merge m (map camel_entry styles)
unfolding normalize_into merge
normalize_into-merge m [] = refl
normalize_into-merge m ((k, v) ∷ rest) = normalize_into-merge (insert (to_camel_case k) v m) rest

lookup-normalize_lem :
    (k : Text) (styles : Styles)
    → lookup k (normalize_styles styles) ≡ last_value k (map camel_entry styles)
unfolding normalize_styles lookup
lookup-normalize_lem k styles =
    rw (normalize_into-merge, lookup-merge) (or_else-none (last_value k (map camel_entry styles)))

last_value-push :
    (k j v : Text) (m : Styles)
    → last_value k (push m (j, v)) ≡ or_else (if text_eq j k then some v else none) (last_value k m)
unfolding last_value
last_value-push k j v [] = ground arith
last_value-push k j v ((i, w) ∷ m) = ground (arith, last_value-push k j v m)

map-push :
    (styles : Styles) (e : Text × Text)
    → map camel_entry (push styles e) ≡ push (map camel_entry styles) (camel_entry e)
map-push [] e = refl
map-push (x ∷ styles) e = ap (λ m. camel_entry x ∷ m) (map-push styles e)

-- A word behind a dash: its first letter and the rest.
pub record Word : Type 0 where
  pub letter : ℕ
  pub rest : Text

-- `font-size`, from its words.
unfoldable pub kebab : Text → List Word → Text
kebab s [] = s
kebab s (w ∷ ws) = s ++ b'-' ∷ w.letter ∷ kebab w.rest ws

-- `fontSize`, from its words.
unfoldable pub camel : Text → List Word → Text
camel s [] = s
camel s (w ∷ ws) = s ++ (w.letter - 32) ∷ camel w.rest ws

abbrev pub AllWords : List Word → Type 0
AllWords [] = Unit
AllWords (w ∷ ws) = (is_lower w.letter ≡ true) × Without b'-' w.rest × AllWords ws

to_camel_case-plain :
    (c : ℕ) (s : Text) → (c == b'-') ≡ false → to_camel_case (c ∷ s) ≡ c ∷ to_camel_case s
unfolding to_camel_case
to_camel_case-plain c [] h = refl
to_camel_case-plain c (d ∷ s) h = rw (no_dash h, to_camel_case)
  where
    no_dash : (c == b'-') ≡ false → (c == b'-' && is_lower d) ≡ false
    no_dash h = rw h

to_camel_case-append : (s t : Text) → Without b'-' s → to_camel_case (s ++ t) ≡ s ++ to_camel_case t
to_camel_case-append [] t h = refl
to_camel_case-append (c ∷ s) t (e, h) =
    to_camel_case-plain c (s ++ t) e ∙ ap (λ u. c ∷ u) (to_camel_case-append s t h)

to_camel_case-Without : (s : Text) → Without b'-' s → to_camel_case s ≡ s
to_camel_case-Without [] h = unfold to_camel_case in refl
to_camel_case-Without (c ∷ s) (e, h) =
    to_camel_case-plain c s e ∙ ap (λ u. c ∷ u) (to_camel_case-Without s h)

to_camel_case-dash :
    (d : ℕ) (s : Text)
    → is_lower d ≡ true
    → to_camel_case (b'-' ∷ d ∷ s) ≡ (d - 32) ∷ to_camel_case s
unfolding to_camel_case
to_camel_case-dash d s h = rw (after_dash, to_camel_case)
  where
    after_dash : (b'-' == b'-' && is_lower d) ≡ true
    after_dash = h

to_camel_case-kebab :
    (s : Text) (ws : List Word)
    → Without b'-' s
    → AllWords ws
    → to_camel_case (kebab s ws) ≡ camel s ws
unfolding kebab camel
to_camel_case-kebab s [] h a = to_camel_case-Without s h
to_camel_case-kebab s (w ∷ ws) h (l, r, a) =
    to_camel_case-append s (b'-' ∷ w.letter ∷ kebab w.rest ws) h
    ∙ ap (λ u. s ++ u)
        (to_camel_case-dash w.letter (kebab w.rest ws) l
          ∙ ap (λ u. (w.letter - 32) ∷ u) (to_camel_case-kebab w.rest ws r a))

or_else-if :
    (b : Bool) (v : Text) (o : Option Text)
    → or_else (if b then some v else none) o ≡ (if b then some v else o)
or_else-if true v o = refl
or_else-if false v o = refl

-- A style that is given last, under a name of words with dashes, is in the normalised record under
-- the name that writes each later word with a capital instead of its dash, over what the record had
-- under that name, and all other names have what they have without it.
pub lookup-normalize_styles :
    (k s v : Text) (ws : List Word) (styles : Styles)
    → Without b'-' s
    → AllWords ws
    → lookup k (normalize_styles (push styles (kebab s ws, v)))
      ≡ (if text_eq (camel s ws) k then some v else lookup k (normalize_styles styles))
lookup-normalize_styles k s v ws styles h a =
    rw
      (
        lookup-normalize_lem k (push styles (kebab s ws, v)),
        lookup-normalize_lem k styles,
        map-push styles (kebab s ws, v),
        last_value-push k (to_camel_case (kebab s ws)) v (map camel_entry styles),
        to_camel_case-kebab s ws h a,
      )
      (or_else-if (text_eq (camel s ws) k) v (last_value k (map camel_entry styles)))
