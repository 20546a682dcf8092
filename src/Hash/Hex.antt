-- ===== src/Hash/Hex.antt =====
-- `toString(16).padStart(8, '0')`, by which zenith-extension/src/extension.ts and
-- zenith-vite-plugin/src/index.ts write a hash, and the names that are made with it.
use zenith_extension.Prelude.{
  ℕ, zero, suc, ◌+◌, ◌-◌, ◌*◌, ◌/◌, ◌%◌, ◌<◌, ◌≤◌, ◌≡◌, refl, ◌∙◌, Bool, true, false, ◌&&◌, [], ◌∷◌,
  ◌++◌, length, length-append, map, arith, ltb, leb, ◌==◌, if◌then◌else◌, push, Bool-cases, inl,
  inr,
}
use zenith_extension.Prelude.Text.{Text}
use zenith_extension.Hash.{word, Words, fnv1a, fnv1a_u32, fnv1a_u32-fnv1a, fnv1a_u32-lt-word}

unfoldable pub hex_digit : ℕ → ℕ
hex_digit d = if ltb d 10 then b'0' + d else b'a' + (d - 10)

-- The digits of a number below the fuel, the last digit at the end.
unfoldable pub hex_digits : ℕ → ℕ → Text
unfolding hex_digit
hex_digits zero n = []
hex_digits (suc f) n =
    let longer = push (hex_digits f (n / 16)) (hex_digit (n % 16)) in
    if ltb n 16 then hex_digit n ∷ [] else longer

-- `n.toString(16)`
unfoldable pub to_hex : ℕ → Text
unfolding hex_digits
to_hex n = hex_digits (suc n) n

unfoldable pub repeat : ℕ → ℕ → Text
repeat zero c = []
repeat (suc n) c = c ∷ repeat n c

-- `s.padStart(n, c)`
unfoldable pub pad_start : ℕ → ℕ → Text → Text
unfolding repeat
pad_start n c s = repeat (n - length s) c ++ s

unfoldable pub print_hash : ℕ → Text
unfolding to_hex pad_start
print_hash h = pad_start 8 b'0' (to_hex h)

-- `toLowerCase`, for roots of ASCII characters.
unfoldable pub lower_char : ℕ → ℕ
lower_char c = if leb b'A' c && leb c b'Z' then c + 32 else c

-- `replace(/\\/g, '/')`
unfoldable pub slash_char : ℕ → ℕ
slash_char c = if c == 92 then 47 else c

-- Windows paths are lowered and their separators replaced.
unfoldable pub normalized : Bool → Text → Text
unfolding lower_char slash_char
normalized windows root = if windows then map slash_char (map lower_char root) else root

-- `workspaceHash`
unfoldable pub workspace_hash : Bool → Text → Text
unfolding print_hash normalized
workspace_hash windows root = print_hash (fnv1a_u32 (normalized windows root))

-- `replace(/\/+$/, '')`
abbrev keep_slash : ℕ → Text → Text
keep_slash c [] = if c == 47 then [] else c ∷ []
keep_slash c (d ∷ s) = c ∷ d ∷ s

unfoldable pub drop_slashes : Text → Text
drop_slashes [] = []
drop_slashes (c ∷ s) = keep_slash c (drop_slashes s)

unfoldable pub workspace_index_key : Text → Text
unfolding print_hash lower_char slash_char drop_slashes
workspace_index_key root =
    print_hash (fnv1a_u32 (map lower_char (drop_slashes (map slash_char root))))

-- What eight digits say.
unfoldable pub hex_value : ℕ → ℕ
hex_value c = if leb c b'9' then c - b'0' else c - b'a' + 10

unfoldable pub read_hex : ℕ → Text → ℕ
read_hex v [] = v
read_hex v (c ∷ s) = read_hex (v * 16 + hex_value c) s

pow16 : ℕ → ℕ
pow16 zero = 1
pow16 (suc k) = 16 * pow16 k

length-hex_digits : (f n k : ℕ) → n < f → n < pow16 (suc k) → length (hex_digits f n) ≤ suc k
unfolding hex_digits pow16
length-hex_digits zero n k h p = elim h [ ]
length-hex_digits (suc f) n k h p = elim (Bool-cases (ltb n 16)) [
  | inl small ↦ rw (small, hex_digits) (omega arith)
  | inr large ↦
      rw (large, hex_digits)
        (omega (
          arith,
          length-append {0} (hex_digits f (n / 16)) (hex_digit (n % 16) ∷ []),
          rest k (length-hex_digits f (n / 16)) p large,
        ))
]
  where
    rest :
        (k : ℕ)
        → ((j : ℕ) → n / 16 < f → n / 16 < pow16 (suc j) → length (hex_digits f (n / 16)) ≤ suc j)
        → n < pow16 (suc k)
        → ltb n 16 ≡ false
        → length (hex_digits f (n / 16)) ≤ k
    rest zero ih p large = absurd (ground arith)
    rest (suc k) ih p large = ih k (ground arith) (ground arith)

hex_value-hex_digit : (d : ℕ) → d < 16 → hex_value (hex_digit d) ≡ d
unfolding hex_value hex_digit
hex_value-hex_digit d h = ground arith

read_hex-push : (v : ℕ) (s : Text) (c : ℕ) → read_hex v (push s c) ≡ read_hex v s * 16 + hex_value c
unfolding read_hex
read_hex-push v [] c = refl
read_hex-push v (d ∷ s) c = read_hex-push (v * 16 + hex_value d) s c

read_hex-hex_digits : (f n : ℕ) → n < f → read_hex 0 (hex_digits f n) ≡ n
unfolding hex_digits
read_hex-hex_digits zero n h = elim h [ ]
read_hex-hex_digits (suc f) n h = elim (Bool-cases (ltb n 16)) [
  | inl small ↦
      rw (small, hex_digits)
        (unfold read_hex in (omega (arith, hex_value-hex_digit n (ground arith))))
  | inr large ↦
      rw (large, hex_digits)
        (omega (
          arith,
          read_hex-push 0 (hex_digits f (n / 16)) (hex_digit (n % 16)),
          read_hex-hex_digits f (n / 16) (ground arith),
          hex_value-hex_digit (n % 16) (omega arith),
        ))
]

read_hex-repeat : (k : ℕ) (s : Text) → read_hex 0 (repeat k b'0' ++ s) ≡ read_hex 0 s
unfolding read_hex repeat hex_value
read_hex-repeat zero s = refl
read_hex-repeat (suc k) s = read_hex-repeat k s

length-repeat : (k c : ℕ) → length (repeat k c) ≡ k
unfolding repeat
length-repeat zero c = refl
length-repeat (suc k) c = omega (arith, length-repeat k c)

length-pad_start : (n c : ℕ) (s : Text) → length s ≤ n → length (pad_start n c s) ≡ n
unfolding pad_start
length-pad_start n c s h =
    omega (arith, length-append {0} (repeat (n - length s) c) s, length-repeat (n - length s) c)

word_digits : (n : ℕ) → n < word → n < pow16 8
unfolding pow16
word_digits n h = omega arith

print_hash_lem : (h : ℕ) → h < word → (length (print_hash h) ≡ 8) × (read_hex 0 (print_hash h) ≡ h)
unfolding print_hash to_hex
print_hash_lem h p = (
  length-pad_start 8 b'0' (hex_digits (suc h) h)
      (length-hex_digits (suc h) h 7 (omega arith) (word_digits h p)),
  unfold pad_start in
      (read_hex-repeat _ (hex_digits (suc h) h) ∙ read_hex-hex_digits (suc h) h (omega arith)),
)

-- The code units of an ASCII text are its octets in UTF-8.
abbrev pub AllAscii : Text → Type 0
AllAscii [] = Unit
AllAscii (c ∷ s) = (c < 128) × AllAscii s

lowered : Text → Text
lowered s = map slash_char (map lower_char s)

AllAscii-lowered : (s : Text) → AllAscii s → AllAscii (lowered s)
unfolding lowered lower_char slash_char
AllAscii-lowered [] a = tt
AllAscii-lowered (c ∷ s) (h, a) = (ground arith, AllAscii-lowered s a)

AllAscii-normalized :
    (windows : Bool) (root : Text) → AllAscii root → AllAscii (normalized windows root)
unfolding normalized lowered
AllAscii-normalized true root a = AllAscii-lowered root a
AllAscii-normalized false root a = a

AllAscii-Words : (s : Text) → AllAscii s → Words s
AllAscii-Words [] a = tt
AllAscii-Words (c ∷ s) (h, a) = (omega arith, AllAscii-Words s a)

-- The name of a workspace with an ASCII root, which the extension and the Vite plugin make from the
-- root, has eight digits, and they say the FNV-1a hash of the octets of the normalized root,
-- although the loop works on signed 32-bit integers.
pub workspace_hash-fnv1a :
    (windows : Bool) (root : Text)
    → AllAscii root
    → (length (workspace_hash windows root) ≡ 8)
      × (read_hex 0 (workspace_hash windows root) ≡ fnv1a 2166136261 (normalized windows root))
unfolding workspace_hash
workspace_hash-fnv1a windows root a =
    let w = AllAscii-Words (normalized windows root) (AllAscii-normalized windows root a) in
    let (n, v) = print_hash_lem (fnv1a_u32 (normalized windows root)) (fnv1a_u32-lt-word _ w) in
    (n, v ∙ fnv1a_u32-fnv1a _ w)
