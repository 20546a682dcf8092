-- ===== src/Hash.antt =====
-- The hashes by which the parts of the program name a workspace: `fnv1aU32`, `workspaceHash` and
-- `workspaceIndexKey` of zenith-extension/src/extension.ts, and `workspaceHash` of
-- zenith-vite-plugin/src/index.ts. The bit operations of JavaScript work on signed 32-bit integers.
pub mod Hex
mod Tests
use Prim.Native.Nat.{bit_xor}
use zenith_extension.Prelude.{
  ℕ, zero, suc, ◌+◌, ◌-◌, ◌*◌, ◌/◌, ◌%◌, ◌<◌, ◌≡◌, refl, ap, ◌∙◌, Bool, true, false, ◌&&◌, List, [],
  ◌∷◌, ◌++◌, map, length, arith, ltb, leb, ◌==◌, if◌then◌else◌, push,
}
use zenith_extension.Prelude.Int.{ℤ, pos, negsuc}
use zenith_extension.Prelude.Text.{Text}

abbrev pub word : ℕ
word = 4294967296

-- `ToInt32` and `ToUint32` of the language
unfoldable pub to_int32 : ℕ → ℤ
to_int32 n = if ltb (n % word) 2147483648 then pos (n % word) else negsuc (word - n % word - 1)

unfoldable pub to_uint32 : ℤ → ℕ
to_uint32 (pos n) = n % word
to_uint32 (negsuc n) = word - n % word - 1

-- `a ^ b`, `Math.imul(a, b)` and `a >>> 0`
unfoldable pub xor : ℤ → ℤ → ℤ
unfolding to_int32 to_uint32
xor a b = to_int32 (bit_xor (to_uint32 a) (to_uint32 b))

unfoldable pub imul : ℤ → ℤ → ℤ
unfolding to_int32 to_uint32
imul a b = to_int32 (to_uint32 a * to_uint32 b)

-- The loop over the code units, from the value so far.
unfoldable pub fnv_loop : ℕ → Text → ℕ
unfolding xor imul to_uint32
fnv_loop h [] = h
fnv_loop h (c ∷ s) = fnv_loop (to_uint32 (imul (xor (pos h) (pos c)) (pos 16777619))) s

unfoldable pub fnv1a_u32 : Text → ℕ
unfolding fnv_loop
fnv1a_u32 s = to_uint32 (pos (fnv_loop 2166136261 s))

-- The definition of FNV-1a, on unsigned words, over the octets of a list.
unfoldable pub fnv1a : ℕ → Text → ℕ
fnv1a h [] = h
fnv1a h (c ∷ s) = fnv1a ((bit_xor h c * 16777619) % word) s

abbrev pub Words : Text → Type 0
Words [] = Unit
Words (c ∷ s) = (c < word) × Words s

to_uint32-to_int32 : (n : ℕ) → to_uint32 (to_int32 n) ≡ n % word
unfolding to_uint32 to_int32
to_uint32-to_int32 n = ground arith

mod_small : (n : ℕ) → n < word → n % word ≡ n
mod_small n h = omega arith

to_uint32-pos : (n : ℕ) → n < word → to_uint32 (pos n) ≡ n
unfolding to_uint32
to_uint32-pos n h = mod_small n h

factor : (x : ℕ) → (x % word * 16777619) % word ≡ (x * 16777619) % word
factor x = omega arith

-- One round on signed integers is one round on words.
fnv_round :
    (h c : ℕ)
    → h < word
    → c < word
    → to_uint32 (imul (xor (pos h) (pos c)) (pos 16777619)) ≡ (bit_xor h c * 16777619) % word
unfolding xor imul
fnv_round h c p q =
    rw
      (
        to_uint32-to_int32 (to_uint32 (xor (pos h) (pos c)) * to_uint32 (pos 16777619)),
        to_uint32-to_int32 (bit_xor (to_uint32 (pos h)) (to_uint32 (pos c))),
        to_uint32-pos h p,
        to_uint32-pos c q,
        to_uint32-pos 16777619 (omega arith),
      )
      (factor (bit_xor h c))

mod_word : (n : ℕ) → n % word < word
mod_word n = omega arith

fnv_loop-fnv1a : (h : ℕ) (s : Text) → h < word → Words s → fnv_loop h s ≡ fnv1a h s
unfolding fnv_loop fnv1a
fnv_loop-fnv1a h [] p w = refl
fnv_loop-fnv1a h (c ∷ s) p (q, w) =
    rw (fnv_round h c p q)
      (fnv_loop-fnv1a ((bit_xor h c * 16777619) % word) s (mod_word (bit_xor h c * 16777619)) w)

fnv1a-lt-word : (h : ℕ) (s : Text) → h < word → fnv1a h s < word
unfolding fnv1a
fnv1a-lt-word h [] p = p
fnv1a-lt-word h (c ∷ s) p =
    fnv1a-lt-word ((bit_xor h c * 16777619) % word) s (mod_word (bit_xor h c * 16777619))

-- The function on signed integers computes the hash on words.
pub fnv1a_u32-fnv1a : (s : Text) → Words s → fnv1a_u32 s ≡ fnv1a 2166136261 s
unfolding fnv1a_u32
fnv1a_u32-fnv1a s w =
    rw (fnv_loop-fnv1a 2166136261 s (omega arith) w)
      (to_uint32-pos _ (fnv1a-lt-word 2166136261 s (omega arith)))

pub fnv1a_u32-lt-word : (s : Text) → Words s → fnv1a_u32 s < word
fnv1a_u32-lt-word s w = rw (fnv1a_u32-fnv1a s w) (fnv1a-lt-word 2166136261 s (omega arith))
