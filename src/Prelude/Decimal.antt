-- ===== src/Prelude/Decimal.antt =====
-- Numbers in decimal: what a template string prints, and the digits that `parseInt(s, 10)` reads.
use zenith_extension.Prelude.{
  ℕ, zero, suc, ◌+◌, ◌-◌, ◌*◌, ◌/◌, ◌%◌, ◌<◌, ◌≡◌, refl, Bool, true, ◌&&◌, [], ◌∷◌, arith, leb, ltb,
  if◌then◌else◌, Bool-cases, inl, inr, push,
}
use zenith_extension.Prelude.Text.{Text}

-- The digits of a number below the fuel, the last digit at the end.
unfoldable pub digits : ℕ → ℕ → Text
digits zero n = []
digits (suc f) n =
    let longer = push (digits f (n / 10)) (b'0' + n % 10) in
    if ltb n 10 then (b'0' + n) ∷ [] else longer

-- `${n}`
unfoldable pub decimal : ℕ → Text
unfolding digits
decimal n = digits (suc n) n

unfoldable pub is_digit : ℕ → Bool
is_digit c = leb b'0' c && leb c b'9'

-- The value of the digits up to the first other character, after those that gave `v`.
unfoldable pub read_digits : ℕ → Text → ℕ
read_digits v [] = v
read_digits v (c ∷ s) = if is_digit c then read_digits (v * 10 + (c - b'0')) s else v

abbrev pub AllDigits : Text → Type 0
AllDigits [] = Unit
AllDigits (c ∷ s) = (is_digit c ≡ true) × AllDigits s

AllDigits-push : (s : Text) (c : ℕ) → AllDigits s → is_digit c ≡ true → AllDigits (push s c)
AllDigits-push [] c h p = (p, tt)
AllDigits-push (d ∷ s) c (q, h) p = (q, AllDigits-push s c h p)

last_digit : (n : ℕ) → is_digit (b'0' + n % 10) ≡ true
unfolding is_digit
last_digit n = ground arith

digits-AllDigits : (f n : ℕ) → AllDigits (digits f n)
unfolding digits
digits-AllDigits zero n = tt
digits-AllDigits (suc f) n = elim (Bool-cases (ltb n 10)) [
  | inl h ↦ rw (h, digits) (small h, tt)
  | inr h ↦
      rw (h, digits)
        (AllDigits-push (digits f (n / 10)) _ (digits-AllDigits f (n / 10)) (last_digit n))
]
  where
    small : ltb n 10 ≡ true → is_digit (b'0' + n) ≡ true
    small h = unfold is_digit in ground arith

pub decimal-AllDigits : (n : ℕ) → AllDigits (decimal n)
unfolding decimal
decimal-AllDigits n = digits-AllDigits (suc n) n

push-cons : (s : Text) (d : ℕ) → (c : ℕ) × (t : Text) × (push s d ≡ c ∷ t)
push-cons [] d = (d, [], refl)
push-cons (c ∷ s) d = (c, push s d, refl)

pub decimal-cons : (n : ℕ) → (c : ℕ) × (s : Text) × (decimal n ≡ c ∷ s)
unfolding decimal
decimal-cons n = elim (Bool-cases (ltb n 10)) [
  | inl h ↦ rw (h, digits) (b'0' + n, [], refl)
  | inr h ↦ rw (h, digits) (push-cons (digits n (n / 10)) (b'0' + n % 10))
]

read_digits-push :
    (v : ℕ) (s : Text) (c : ℕ)
    → AllDigits s
    → is_digit c ≡ true
    → read_digits v (push s c) ≡ read_digits v s * 10 + (c - b'0')
unfolding read_digits
read_digits-push v [] c h p = ground arith
read_digits-push v (d ∷ s) c (q, h) p =
    rw (q, read_digits) (read_digits-push (v * 10 + (d - b'0')) s c h p)

read_digits-digits : (f n : ℕ) → n < f → read_digits 0 (digits f n) ≡ n
unfolding digits
read_digits-digits zero n h = elim h [ ]
read_digits-digits (suc f) n h = elim (Bool-cases (ltb n 10)) [
  | inl small ↦ rw (small, digits) (unfold read_digits is_digit in ground arith)
  | inr large ↦
      rw
        (
          large,
          digits,
          read_digits-push 0 _ _ (digits-AllDigits f (n / 10)) (last_digit n),
          read_digits-digits f (n / 10) (ground arith),
        )
        (omega arith)
]

pub read_digits-decimal : (n : ℕ) → read_digits 0 (decimal n) ≡ n
unfolding decimal
read_digits-decimal n = read_digits-digits (suc n) n (omega arith)
