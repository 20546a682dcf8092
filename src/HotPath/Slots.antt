-- ===== src/HotPath/Slots.antt =====
-- Where `writeScrub` of zenith-extension/src/hot_path.ts writes, and how long it can be read.
use zenith_extension.Prelude.{
  ℕ, zero, suc, ◌+◌, ◌*◌, ◌/◌, ◌≤◌, ◌<◌, ◌≡◌, ◌⊎◌, inl, inr, refl, ap₂, ◌∙◌, ==_refl, Bool, true,
  false, not, List, [], ◌∷◌, length, ltb, if◌then◌else◌, arith,
}
use zenith_extension.HotPath.{
  Bytes, write_at, little_endian, slice, slot_base, ring_size, slot_size, Numbers, Producer, Scrub,
  returned, range_error, payload, with_payload, with_sequence, write_scrub, producer_of, run,
}

pub write_at-outside :
    (base : ℕ) (bs : List ℕ) (m : Bytes) (i : ℕ)
    → (i < base) ⊎ (base + length bs ≤ i)
    → write_at base bs m i ≡ m i
unfolding write_at
write_at-outside base [] m i h = refl
write_at-outside base (b ∷ bs) m i h = ground (arith, write_at-outside (base + 1) bs m i (next h))
  where
    next : (i < base) ⊎ (base + suc (length bs) ≤ i) → (i < base + 1) ⊎ (base + 1 + length bs ≤ i)
    next h = ground arith

length-slice : (m : Bytes) (from count : ℕ) → length (slice m from count) ≡ count
unfolding slice
length-slice m from zero = refl
length-slice m from (suc n) = omega (arith, length-slice m (from + 1) n)

length-little_endian : (k n : ℕ) → length (little_endian k n) ≡ k
unfolding little_endian
length-little_endian zero n = refl
length-little_endian (suc k) n = omega (arith, length-little_endian k (n / 256))

-- The offset is in the slot of the sequence number.
abbrev pub InSlot : ℕ → ℕ → Type 0
InSlot sequence i = (slot_base sequence ≤ i) × (i < slot_base sequence + slot_size)

abbrev pub OutsideSlot : ℕ → ℕ → Type 0
OutsideSlot sequence i = (i < slot_base sequence) ⊎ (slot_base sequence + slot_size ≤ i)

-- The four bytes of a sequence number.
unfoldable pub read_u32 : Bytes → ℕ → ℕ
read_u32 m i = m i + 256 * m (i + 1) + 65536 * m (i + 2) + 16777216 * m (i + 3)

pub read_written :
    (m : Bytes) (base n : ℕ)
    → n < 4294967296
    → read_u32 (write_at base (little_endian 4 n) m) base ≡ n
unfolding read_u32 write_at little_endian
read_written m base n h = ground arith

payload_range :
    (base i n : ℕ)
    → n ≡ 124
    → (i < base) ⊎ (base + slot_size ≤ i)
    → (i < base + 4) ⊎ (base + 4 + n ≤ i)
payload_range base i n e h = ground arith

number_range :
    (base i n : ℕ) → n ≡ 4 → (i < base) ⊎ (base + slot_size ≤ i) → (i < base) ⊎ (base + n ≤ i)
number_range base i n e h = ground arith

-- Slots of numbers that are less than 256 apart are disjoint.
apart : (m n i : ℕ) → 0 < m → m < n → n < m + 256 → InSlot m i → OutsideSlot n i
unfolding slot_base
apart m n i h p q r = ground arith

module _ (N : Numbers) where
  payload-outside :
      (p : Producer N) (e : Scrub N) (i : ℕ)
      → OutsideSlot p.sequence i
      → (with_payload N p e).file i ≡ p.file i
  unfolding with_payload payload
  payload-outside p e i h =
      write_at-outside (slot_base p.sequence + 4) (payload N p e) p.file i
        (payload_range (slot_base p.sequence) i (length (payload N p e)) refl h)

  pub sequence-outside :
      (p : Producer N) (i : ℕ) → OutsideSlot p.sequence i → (with_sequence N p).file i ≡ p.file i
  unfolding with_sequence
  sequence-outside p i h =
      write_at-outside (slot_base p.sequence) (little_endian 4 p.sequence) p.file i (
        number_range (slot_base p.sequence) i (length (little_endian 4 p.sequence))
          (length-little_endian 4 p.sequence) h)

  -- What one call does, branch by branch.
  record StepOf (p q : Producer N) : Type 0 where
    kept : (i : ℕ) → OutsideSlot p.sequence i → q.file i ≡ p.file i
    counted : (q.sequence ≡ p.sequence) ⊎ (q.sequence ≡ p.sequence + 1)

  both_written : (p : Producer N) (e : Scrub N) → StepOf p (with_sequence N (with_payload N p e))
  unfolding with_sequence with_payload
  both_written p e = record {
    kept = λ i h. sequence-outside (with_payload N p e) i h ∙ payload-outside p e i h;
    counted = inr refl;
  }

  branches :
      (e : Scrub N) (p : Producer N) (closed wide over : Bool)
      → StepOf p (
          producer_of N (
            if closed
            then returned p
            else if wide
            then range_error p
            else if over
            then range_error (with_payload N p e)
            else returned (with_sequence N (with_payload N p e))))
  unfolding with_payload
  branches e p true wide over = record { kept = λ i h. refl; counted = inl refl }
  branches e p false true over = record { kept = λ i h. refl; counted = inl refl }
  branches e p false false true = record { kept = payload-outside p e; counted = inl refl }
  branches e p false false false = both_written p e

  step_of : (e : Scrub N) (p : Producer N) → StepOf p (producer_of N (write_scrub N e p))
  unfolding write_scrub
  step_of e p = branches e p (not p.is_open) (ltb 65535 e.property_id) (ltb 4294967295 p.sequence)

  -- A call of `writeScrub`, whether it returns or throws, changes no byte outside the slot of the
  -- current sequence number, and that slot lies between the magic number and the end of the file.
  pub write_scrub-outside :
      (e : Scrub N) (p : Producer N)
      → ((i : ℕ) → OutsideSlot p.sequence i → (producer_of N (write_scrub N e p)).file i ≡ p.file i)
        × (4 ≤ slot_base p.sequence)
        × (slot_base p.sequence + slot_size ≤ 4 + ring_size * slot_size)
  unfolding slot_base
  write_scrub-outside e p = ((step_of e p).kept, omega arith, omega arith)

  pub run-keeps :
      (n i : ℕ) (es : List (Scrub N)) (p : Producer N)
      → 0 < n
      → InSlot n i
      → n < p.sequence
      → p.sequence + length es ≤ n + 256
      → (run N es p).file i ≡ p.file i
  unfolding run
  run-keeps n i [] p z h l b = refl
  run-keeps n i (e ∷ es) p z h l b =
      let s = step_of e p in
      run-keeps n i es _ z h (later s.counted) (fewer s.counted)
      ∙ s.kept i (apart n p.sequence i z l (omega (arith, b)) h)
    where
      later : {m : ℕ} → (m ≡ p.sequence) ⊎ (m ≡ p.sequence + 1) → n < m
      later c = ground arith

      fewer : {m : ℕ} → (m ≡ p.sequence) ⊎ (m ≡ p.sequence + 1) → m + length es ≤ n + 256
      fewer c = ground arith

  pub written_sequence :
      (e : Scrub N) (p : Producer N)
      → p.sequence < 4294967296
      → read_u32 (with_sequence N (with_payload N p e)).file (slot_base p.sequence) ≡ p.sequence
  unfolding with_sequence with_payload
  written_sequence e p h = read_written _ (slot_base p.sequence) p.sequence h

  pub sent :
      (e : Scrub N) (p : Producer N)
      → not p.is_open ≡ false
      → ltb 65535 e.property_id ≡ false
      → ltb 4294967295 p.sequence ≡ false
      → write_scrub N e p ≡ returned (with_sequence N (with_payload N p e))
  unfolding write_scrub
  sent e p a b c = simp (a, b, c)

pub slice_ext :
    (m m' : Bytes) (from n : ℕ)
    → ((i : ℕ) → from ≤ i → i < from + n → m i ≡ m' i)
    → slice m from n ≡ slice m' from n
unfolding slice
slice_ext m m' from zero h = refl
slice_ext m m' from (suc n) h =
    ap₂ (λ a s. a ∷ s) (h from (omega arith) (omega arith))
      (slice_ext m m' (from + 1) n (λ i p q. h i (omega arith) (omega arith)))

pub slice-write_at :
    (base : ℕ) (bs : List ℕ) (m : Bytes) → slice (write_at base bs m) base (length bs) ≡ bs
unfolding slice write_at
slice-write_at base [] m = refl
slice-write_at base (b ∷ bs) m =
    ap₂ (λ a s. a ∷ s) (rw (==_refl base) refl)
      (slice_ext _ (write_at (base + 1) bs m) (base + 1) (length bs) (λ i p q. ground arith)
        ∙ slice-write_at (base + 1) bs m)
