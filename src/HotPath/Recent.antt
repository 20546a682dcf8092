-- ===== src/HotPath/Recent.antt =====
-- How long an event of zenith-extension/src/hot_path.ts can be read.
use zenith_extension.Prelude.{
  ℕ, ◌+◌, ◌≤◌, ◌<◌, ◌≡◌, refl, ap, ◌∷◌, ◌∙◌, inr, true, false, not, List, length, ltb, arith,
}
use zenith_extension.HotPath.{
  Bytes, write_at, little_endian, slice, slot_base, slot_size, Numbers, Producer, Scrub, payload,
  with_payload, with_sequence, run,
}
use zenith_extension.HotPath.Slots.{
  InSlot, read_u32, write_at-outside, slice_ext, slice-write_at, sent, run-keeps, written_sequence,
}

read_same :
    (m m' : Bytes) (base : ℕ)
    → ((i : ℕ) → base ≤ i → i < base + slot_size → m i ≡ m' i)
    → read_u32 m base ≡ read_u32 m' base
unfolding read_u32
read_same m m' base h = omega (
  arith,
  h base (omega arith) (omega arith),
  h (base + 1) (omega arith) (omega arith),
  h (base + 2) (omega arith) (omega arith),
  h (base + 3) (omega arith) (omega arith),
)

in_range : (a n : ℕ) → a ≤ n → ltb n a ≡ false
in_range a n h = ground arith

module _ (N : Numbers) where
  -- What the slot holds after the call.
  payload_file : (e : Scrub N) (p : Producer N) → Bytes
  payload_file e p = write_at (slot_base p.sequence + 4) (payload N p e) p.file

  payload_read :
      (e : Scrub N) (p : Producer N)
      → slice (payload_file e p) (slot_base p.sequence + 4) 124 ≡ payload N p e
  unfolding payload_file payload
  payload_read e p = slice-write_at (slot_base p.sequence + 4) (payload N p e) p.file

  past_number :
      (e : Scrub N) (p : Producer N) (i : ℕ)
      → slot_base p.sequence + 4 ≤ i
      → (with_sequence N (with_payload N p e)).file i ≡ payload_file e p i
  unfolding with_sequence with_payload payload_file
  past_number e p i h =
      write_at-outside (slot_base p.sequence) (little_endian 4 p.sequence) (payload_file e p) i
        (inr h)

  number_after :
      (e : Scrub N) (p : Producer N)
      → (with_sequence N (with_payload N p e)).sequence ≡ p.sequence + 1
  unfolding with_sequence with_payload
  number_after e p = refl

  -- An event with a property number in range, written by an open producer whose sequence number is
  -- in range, can be read from its slot after less than 256 more calls, whatever they are: the slot
  -- has its sequence number and its payload.
  pub run-written :
      (e : Scrub N) (es : List (Scrub N)) (p : Producer N)
      → p.is_open ≡ true
      → e.property_id ≤ 65535
      → 0 < p.sequence
      → p.sequence ≤ 4294967295
      → length es < 256
      → (read_u32 (run N (e ∷ es) p).file (slot_base p.sequence) ≡ p.sequence)
        × (slice (run N (e ∷ es) p).file (slot_base p.sequence + 4) 124 ≡ payload N p e)
  unfolding run
  run-written e es p o k z b l =
      let q : Producer N = with_sequence N (with_payload N p e) in
      rw
        (
          run,
          sent N e p (ap not o) (in_range e.property_id 65535 k) (in_range p.sequence 4294967295 b),
        )
        (
          read_same (run N es q).file q.file (slot_base p.sequence) (λ i x y. kept i (x, y))
              ∙ written_sequence N e p (omega arith),
          slice_ext (run N es q).file (payload_file e p) (slot_base p.sequence + 4) 124
                (λ i x y. kept i (omega arith, omega arith) ∙ past_number e p i x)
              ∙ payload_read e p,
        )
    where
      kept :
          (i : ℕ)
          → InSlot p.sequence i
          → (run N es (with_sequence N (with_payload N p e))).file i
            ≡ (with_sequence N (with_payload N p e)).file i
      kept i h =
          run-keeps N p.sequence i es _ z h (omega (arith, number_after e p))
            (omega (arith, number_after e p))
