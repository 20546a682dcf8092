-- ===== src/HotPath.antt =====
-- The producer of the ring buffer through which the editor sends scrub events to the sidecar
-- (zenith-extension/src/hot_path.ts). The file is a function from offsets to bytes; floating-point
-- numbers and the clock, with the encodings of numbers as bytes, are parameters.
pub mod Slots
pub mod Recent
mod Tests
use Prim.Native.Nat.{bit_xor}
use zenith_extension.Prelude.{
  ℕ, zero, suc, ◌+◌, ◌-◌, ◌*◌, ◌/◌, ◌%◌, ◌≡◌, Bool, true, false, ◌&&◌, Option, none, some, List, [],
  ◌∷◌, ◌++◌, not, take, length, ltb, leb, ◌==◌, if◌then◌else◌,
}
use zenith_extension.Prelude.Text.{Text, text_eq}
use zenith_extension.Prelude.Decimal.{decimal}

abbrev pub ring_size : ℕ
ring_size = 256

abbrev pub slot_size : ℕ
slot_size = 128

abbrev pub magic_znth : ℕ
magic_znth = 1515082824

-- A file or a buffer.
abbrev pub Bytes : Type 0
Bytes = ℕ → ℕ

-- The offset and the bytes that are written there.
unfoldable pub write_at : ℕ → List ℕ → Bytes → Bytes
write_at base [] m = m
write_at base (b ∷ bs) m = λ i. if i == base then b else write_at (base + 1) bs m i

-- `writeUInt16LE`, `writeUInt32LE` and `writeBigUInt64LE` of a number in range.
unfoldable pub little_endian : ℕ → ℕ → List ℕ
little_endian zero n = []
little_endian (suc k) n = n % 256 ∷ little_endian k (n / 256)

-- `fnv1aBinary64`, on the bytes of the text.
unfoldable pub fnv_bytes : ℕ → List ℕ → ℕ
fnv_bytes h [] = h
fnv_bytes h (b ∷ bs) = fnv_bytes ((bit_xor h b * 1099511628211) % 18446744073709551616) bs

unfoldable pub fnv1a_binary64 : List ℕ → ℕ
unfolding fnv_bytes
fnv1a_binary64 bs = fnv_bytes 14695981039346656037 bs

pub data ScrubMsgType : Type 0 where
  scrub release ack : ScrubMsgType

unfoldable pub msg_code : ScrubMsgType → ℕ
msg_code scrub = 1
msg_code release = 2
msg_code ack = 3

-- The numbers of the language, with what the code does with them.
pub record Numbers : Type 1 where
  pub Number : Type 0
  pub minus : Number → Number → Number
  pub over : Number → Number → Number
  pub zero_number : Number
  pub is_positive : Number → Bool
  pub is_finite : Number → Bool
  -- `writeDoubleLE` and `writeFloatLE`
  pub double_bytes : Number → List ℕ
  pub float_bytes : Number → List ℕ
  -- `Math.floor(performance.now() * 1000)`
  pub microseconds : Number → ℕ

-- The `count` bytes from an offset on.
unfoldable pub slice : Bytes → ℕ → ℕ → List ℕ
slice m from zero = []
slice m from (suc count) = m from ∷ slice m (from + 1) count

-- The slot of a sequence number: the mask of 255 keeps the remainder by 256.
unfoldable pub slot_base : ℕ → ℕ
slot_base sequence = 4 + (sequence - 1) % ring_size * slot_size

module _ (N : Numbers) where
  open N use {
    Number, minus, over, zero_number, is_positive, is_finite, double_bytes, float_bytes,
    microseconds,
  }

  -- `velocityState`: the last value and its time, by key.
  pub record Producer : Type 0 where
    pub is_open : Bool
    pub sequence : ℕ
    pub velocities : List (Text × (Number × Number))
    pub file : Bytes

  -- A call of `writeScrub`, with the two times that it reads, and the ID and its first twelve
  -- characters in UTF-8.
  pub record Scrub : Type 0 where
    pub ghost_id : Text
    pub id_bytes : List ℕ
    pub head_bytes : List ℕ
    pub property_id : ℕ
    pub value : Number
    pub msg_type : ScrubMsgType
    pub stamp : Number
    pub now : Number

  pub data Written : Type 0 where
    returned : Producer → Written
    range_error : Producer → Written

  unfoldable pub last_of : Text → List (Text × (Number × Number)) → Option (Number × Number)
  last_of key [] = none
  last_of key ((k, v) ∷ m) = if text_eq k key then some v else last_of key m

  unfoldable pub store :
      Text → Number × Number → List (Text × (Number × Number)) → List (Text × (Number × Number))
  store key v [] = (key, v) ∷ []
  store key v ((k, w) ∷ m) = if text_eq k key then (k, v) ∷ m else (k, w) ∷ store key v m

  abbrev pub finite_or_zero : Number → Number
  finite_or_zero v = if is_finite v then v else zero_number

  -- The velocity hint, from the last value and its time.
  unfoldable pub velocity_hint : Option (Number × Number) → Number → Number → Number
  velocity_hint none value now = finite_or_zero zero_number
  velocity_hint (some (last_value, last_ts)) value now = finite_or_zero (
      if is_positive (minus now last_ts)
      then over (minus value last_value) (minus now last_ts)
      else zero_number)

  unfoldable pub state_key : Scrub → Text
  state_key e = e.ghost_id ++ b':' ∷ decimal e.property_id

  -- The buffer of a slot, whose first four bytes are not written with it.
  unfoldable pub slot_buffer : Scrub → Number → Bytes
  unfolding write_at little_endian fnv1a_binary64 msg_code
  slot_buffer e velocity = write_at 64 (float_bytes velocity) (
      write_at 40 (double_bytes e.value) (
        write_at 36 (little_endian 2 e.property_id) (
          write_at 24 e.head_bytes (
            write_at 16 (little_endian 8 (fnv1a_binary64 e.id_bytes)) (
              write_at 8 (little_endian 8 (microseconds e.stamp))
                (write_at 4 (little_endian 4 (msg_code e.msg_type)) (λ i. 0)))))))

  unfoldable pub payload : Producer → Scrub → List ℕ
  unfolding velocity_hint last_of state_key slot_buffer slice
  payload p e =
      slice (slot_buffer e (velocity_hint (last_of (state_key e) p.velocities) e.value e.now)) 4 124

  -- The producer after the payload is written.
  unfoldable pub with_payload : Producer → Scrub → Producer
  unfolding payload store state_key write_at slot_base
  with_payload p e = record p {
    velocities = store (state_key e) (e.value, e.now) p.velocities;
    file = write_at (slot_base p.sequence + 4) (payload p e) p.file;
  }

  -- The producer after the sequence number is written, too.
  unfoldable pub with_sequence : Producer → Producer
  unfolding write_at little_endian slot_base
  with_sequence p = record p {
    sequence = p.sequence + 1;
    file = write_at (slot_base p.sequence) (little_endian 4 p.sequence) p.file;
  }

  -- `writeScrub`: a property number or a sequence number out of range throws.
  unfoldable pub write_scrub : Scrub → Producer → Written
  unfolding with_payload with_sequence
  write_scrub e p =
      if not p.is_open
      then returned p
      else if ltb 65535 e.property_id
      then range_error p
      else if ltb 4294967295 p.sequence
      then range_error (with_payload p e)
      else returned (with_sequence (with_payload p e))

  abbrev pub producer_of : Written → Producer
  producer_of (returned p) = p
  producer_of (range_error p) = p

  unfoldable pub run : List Scrub → Producer → Producer
  unfolding write_scrub
  run [] p = p
  run (e ∷ es) p = run es (producer_of (write_scrub e p))

  -- `new RingBufferProducer(path)`, where the file can be opened: a short file is cleared, and the
  -- magic number is written.
  unfoldable pub create : (size : ℕ) → Bytes → Producer
  unfolding write_at little_endian
  create size file = record {
    is_open = true;
    sequence = 1;
    velocities = [];
    file =
        write_at 0 (little_endian 4 magic_znth)
          (if ltb size (4 + ring_size * slot_size) then (λ i. 0) else file);
  }

  unfoldable pub dispose : Producer → Producer
  dispose p = record p { is_open = false }
