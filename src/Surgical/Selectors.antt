-- ===== src/Surgical/Selectors.antt =====
-- The segments of the IDs that the injector prints, as the patcher reads them.
use zenith_extension.Prelude.{ℕ, ◌≡◌, refl, ap, ◌∙◌, true, false, [], ◌∷◌, ◌++◌, some, arith, ◌==◌}
use zenith_extension.Prelude.Int.{pos}
use zenith_extension.Prelude.Text.{
  Text, Without, Without-append, split, split-append, split_of_Without,
}
use zenith_extension.Prelude.Decimal.{
  decimal, is_digit, AllDigits, decimal-AllDigits, decimal-cons, read_digits, read_digits-decimal,
}
use zenith_extension.Jsx.{Name, ident, dotted, namespaced}
use zenith_extension.Jsx.Names.{tag_name, patcher_tag_name}
use zenith_extension.Injector.{Place, element_index, segment}
use zenith_extension.Injector.Plain.{IsSimpleTag}
use zenith_extension.Surgical.Resolve.{
  parse_int, read_unsigned, read_selector, selector_of, is_space,
}

-- Digits are no separators.
AllDigits-Without_dot : (s : Text) → AllDigits s → Without b'.' s
AllDigits-Without_dot [] h = tt
AllDigits-Without_dot (c ∷ s) (p, h) = (unfold is_digit in ground arith, AllDigits-Without_dot s h)

AllDigits-Without_colon : (s : Text) → AllDigits s → Without b':' s
AllDigits-Without_colon [] h = tt
AllDigits-Without_colon (c ∷ s) (p, h) =
    (unfold is_digit in ground arith, AllDigits-Without_colon s h)

-- `parseInt` reads back what the injector printed.
digit-not_sign :
    (c : ℕ)
    → is_digit c ≡ true
    → (is_space c ≡ false) × ((c == b'-') ≡ false) × ((c == b'+') ≡ false)
unfolding is_digit is_space
digit-not_sign c h = (ground arith, ground arith, ground arith)

parse_int_of_digits :
    (c : ℕ) (s : Text) → AllDigits (c ∷ s) → parse_int (c ∷ s) ≡ some (pos (read_digits 0 (c ∷ s)))
unfolding parse_int
parse_int_of_digits c s (h, _) =
    let (x, y, z) = digit-not_sign c h in rw (x, y, z, h, parse_int, read_unsigned) refl

parse_int-decimal : (n : ℕ) → parse_int (decimal n) ≡ some (pos n)
parse_int-decimal n =
    let (c, s, e) = decimal-cons n in
    rw (← e, read_digits-decimal) at (parse_int_of_digits c s (rw e at (decimal-AllDigits n)))

read_selector_lem : (part : Text) → read_selector part ≡ selector_of (split b'.' part)
unfolding read_selector
read_selector_lem part = refl

selector_of-two :
    (tag index : Text)
    → selector_of (tag ∷ index ∷ [])
      ≡ record { expected_tag = tag; expected_index = parse_int index }
unfolding selector_of
selector_of-two tag index = refl

-- The part of an ID that the injector writes for an element with a simple tag is read by the patcher
-- as the tag and the index of the element.
pub read_selector-segment :
    (name : Name) (place : Place)
    → IsSimpleTag name
    → read_selector (segment name place) ≡ record {
      expected_tag = patcher_tag_name name;
      expected_index = some (pos (element_index place));
    }
unfolding segment tag_name patcher_tag_name
read_selector-segment (ident tag) place (h, _) =
    let n = element_index place in
    read_selector_lem (tag ++ b'.' ∷ decimal n)
    ∙ ap selector_of (split-append b'.' tag (decimal n) h)
    ∙ ap (λ parts. selector_of (tag ∷ parts))
        (split_of_Without b'.' (decimal n) (AllDigits-Without_dot _ (decimal-AllDigits n)))
    ∙ selector_of-two tag (decimal n)
    ∙ ap (λ i. record { expected_tag = tag; expected_index = i }) (parse_int-decimal n)
read_selector-segment (dotted base name) place h = absurd h
read_selector-segment (namespaced space name) place h = absurd h

pub segment-Without :
    (name : Name) (place : Place) → IsSimpleTag name → Without b':' (segment name place)
unfolding segment tag_name
segment-Without (ident tag) place (_, h) =
    Without-append b':' tag _ h
      (refl, AllDigits-Without_colon _ (decimal-AllDigits (element_index place)))
segment-Without (dotted base name) place h = absurd h
segment-Without (namespaced space name) place h = absurd h
