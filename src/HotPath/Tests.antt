-- ===== src/HotPath/Tests.antt =====
-- Two scrub events in a new file, with whole numbers for the numbers of the language.
use zenith_extension.Prelude.{ℕ, ◌+◌, ◌-◌, ◌*◌, ◌/◌, ◌≤◌, ◌≡◌, refl, true, [], ◌∷◌, ltb, arith}
use zenith_extension.Prelude.Text.{codes}
use zenith_extension.HotPath.{
  little_endian, slice, slot_base, ring_size, slot_size, scrub, Numbers, Producer, Scrub, create,
  payload, producer_of, write_scrub, run,
}
use zenith_extension.HotPath.Slots.{OutsideSlot, read_u32, write_scrub-outside}
use zenith_extension.HotPath.Recent.{run-written}

abbrev whole : Numbers
whole = record {
  Number = ℕ;
  minus = λ a b. a - b;
  over = λ a b. a / b;
  zero_number = 0;
  is_positive = λ a. ltb 0 a;
  is_finite = λ a. true;
  double_bytes = little_endian 8;
  float_bytes = little_endian 4;
  microseconds = λ a. a;
}

abbrev event : Scrub whole
event = record {
  ghost_id = codes "z1";
  id_bytes = codes "z1";
  head_bytes = codes "z1";
  property_id = 3;
  value = 40;
  msg_type = scrub;
  stamp = 7;
  now = 7;
}

abbrev producer : Producer whole
producer = create whole 0 (λ i. 0)

write_scrub-outside_example :
    ((i : ℕ)
      → OutsideSlot producer.sequence i
      → (producer_of whole (write_scrub whole event producer)).file i ≡ producer.file i)
    × (4 ≤ slot_base producer.sequence)
    × (slot_base producer.sequence + slot_size ≤ 4 + ring_size * slot_size)
write_scrub-outside_example = write_scrub-outside whole event producer

run-written_example :
    (read_u32 (run whole (event ∷ event ∷ []) producer).file (slot_base producer.sequence)
      ≡ producer.sequence)
    × (slice (run whole (event ∷ event ∷ []) producer).file (slot_base producer.sequence + 4) 124
        ≡ payload whole producer event)
unfolding create
run-written_example =
    run-written whole event (event ∷ []) producer refl (omega arith) (omega arith) (omega arith)
      (omega arith)
