-- ===== src/BitPacking/Values.antt =====
-- `Encode` and `Decode` of source/memhawk/src/impl/compression.cpp on one value.
use mem_hawk.Prelude.{
  ℕ, ◌+◌, ◌*◌, ◌^◌, ◌≤◌, ◌<◌, ◌≡◌, arith, List, some, ltb, ◌==◌, if◌then◌else◌, get_or, length, ◌⊎◌,
  inl, inr, Bool-cases,
}
use native.Mathlib.Nat.{lt_of_lt_of_le, pow-le-pow_right}
use mem_hawk.Prelude.Bits.{bit, bit_ext, bit_above}
use mem_hawk.BitPacking.{BitIterator, encode_bits, decode_bits}
use mem_hawk.BitPacking.Fields.{position, IsIterator, mem_bit, IsWritten, encode_bits-IsWritten}
use mem_hawk.BitPacking.Reads.{IsField, decode_bits-IsField}
use mem_hawk.BitPacking.Compression.{Streams, Decoded, encode, decode, put_value, get_value}

-- The control code of a value, and the number of its digits that are kept.
abbrev pub size_code : ℕ → ℕ
size_code value =
    if value == 0 then 0 else if ltb value (2 ^ 16) then 1 else if ltb value (2 ^ 24) then 2 else 3

abbrev pub width_of : ℕ → ℕ
width_of value =
    if value == 0
    then 0
    else if ltb value (2 ^ 16)
    then 16
    else if ltb value (2 ^ 24)
    then 24
    else 32

-- The `width` digits of the array from `place` on are those of `value`.
abbrev pub HoldsField : List ℕ → ℕ → ℕ → ℕ → Type 0
HoldsField mem place width value = (i : ℕ) → i < width → mem_bit mem (place + i) ≡ bit value i

pub width_of-le : (value : ℕ) → width_of value ≤ 32
width_of-le value = ground arith

-- A field that is held is read back.
pub decode_bits-HoldsField :
    (it : BitIterator) (width : ℕ) (mem : List ℕ) (value : ℕ)
    → IsIterator it
    → width ≤ 32
    → value < 2 ^ width
    → HoldsField mem (position it) width value
    → (decode_bits it width mem).value ≡ value
decode_bits-HoldsField it width mem value v w fits held = bit_ext 32 _ value r.small below (λ i h.
    elim (Bool-cases (ltb i width)) [
      | inl inside ↦ ground (arith, r.digits i h, held i)
      | inr outside ↦ ground (arith, r.digits i h, bit_above width value i fits)
    ])
  where
    r : IsField it width mem (decode_bits it width mem)
    r = decode_bits-IsField it width mem v w

    below : value < 2 ^ 32
    below = lt_of_lt_of_le fits (pow-le-pow_right (omega arith) w)

-- What a branch of `Encode` leaves: both fields, with all other digits as they were.
pub record IsPut (s : Streams) (code width value : ℕ) (out : Streams) : Type 0 where
  pub control_moved : position out.control ≡ position s.control + 2
  pub values_moved : position out.values ≡ position s.values + width
  pub control_iterator : IsIterator out.control
  pub values_iterator : IsIterator out.values
  pub same_length : length out.mem ≡ length s.mem
  pub header : get_or out.mem 0 0 ≡ get_or s.mem 0 0
  pub code_held : HoldsField out.mem (position s.control) 2 code
  pub value_held : HoldsField out.mem (position s.values) width value
  pub others :
      (q : ℕ)
      → (q < position s.control) ⊎ (position s.control + 2 ≤ q)
      → (q < position s.values) ⊎ (position s.values + width ≤ q)
      → mem_bit out.mem q ≡ mem_bit s.mem q

-- The iterators are apart, and the array has room for `width` more digits.
pub record HasRoom (s : Streams) (width : ℕ) : Type 0 where
  pub control_iterator : IsIterator s.control
  pub values_iterator : IsIterator s.values
  pub past_header : 0 < s.control.value
  pub apart : position s.control + 2 ≤ position s.values
  pub room : position s.values + width ≤ 32 * length s.mem

put_value-IsPut :
    (s : Streams) (code width value : ℕ)
    → width ≤ 32
    → HasRoom s width
    → IsPut s code width value (put_value s code width value)
unfolding put_value
put_value-IsPut s code width value w h = elim (Bool-cases (width == 0)) [
  | inl empty ↦ rw empty (record {
    control_moved = c.moved;
    values_moved = ground arith;
    control_iterator = c.iterator;
    values_iterator = h.values_iterator;
    same_length = c.same_length;
    header = c.before 0 h.past_header;
    code_held = λ i k. ground (arith, c.digits (position s.control + i));
    value_held = λ i k. ground arith;
    others = λ q p r. ground (arith, c.digits q);
  })
  | inr full ↦ rw full (record {
    control_moved = c.moved;
    values_moved = d.moved;
    control_iterator = c.iterator;
    values_iterator = d.iterator;
    same_length = omega (arith, c.same_length, d.same_length);
    header = ground (arith, c.before 0 h.past_header, d.before 0);
    code_held =
        λ i k. ground (arith, c.digits (position s.control + i), d.digits (position s.control + i));
    value_held = λ i k. ground (arith, d.digits (position s.values + i));
    others = λ q p r. ground (arith, c.digits q, d.digits q);
  })
]
  where
    c : IsWritten s.control 2 code s.mem (encode_bits s.control 2 code s.mem)
    c = encode_bits-IsWritten s.control 2 code s.mem h.control_iterator (omega arith) (omega arith)

    d :
        IsWritten s.values width value
          (encode_bits s.control 2 code s.mem).mem
          (encode_bits s.values width value (encode_bits s.control 2 code s.mem).mem)
    d =
        encode_bits-IsWritten s.values width value (encode_bits s.control 2 code s.mem).mem
          h.values_iterator w (omega (arith, c.same_length))

abbrev pub IsEncoded : Streams → ℕ → Streams → Type 0
IsEncoded s value out = IsPut s (size_code value) (width_of value) value out

encode-put_value :
    (s : Streams) (value : ℕ)
    → encode s value ≡ put_value s (size_code value) (width_of value) value
unfolding encode
encode-put_value s value = ground arith

-- `Encode` writes the control code and the value's digits at the two iterators and nothing else.
pub encode-IsEncoded :
    (s : Streams) (value : ℕ) → HasRoom s (width_of value) → IsEncoded s value (encode s value)
encode-IsEncoded s value h =
    rw (encode-put_value s value)
      (put_value-IsPut s (size_code value) (width_of value) value (width_of-le value) h)

-- What `Decode` gives back.
pub record IsDecoded (control values : BitIterator) (value : ℕ) (out : Decoded) : Type 0 where
  pub control_moved : position out.control ≡ position control + 2
  pub values_moved : position out.values ≡ position values + width_of value
  pub control_iterator : IsIterator out.control
  pub values_iterator : IsIterator out.values
  pub same_value : out.value ≡ value

width_of-fits : (value : ℕ) → value < 2 ^ 32 → value < 2 ^ width_of value
width_of-fits value h = ground arith

-- `Decode` at an encoded value returns the value.
pub decode-IsDecoded :
    (control values : BitIterator) (mem : List ℕ) (value : ℕ)
    → IsIterator control
    → IsIterator values
    → value < 2 ^ 32
    → HoldsField mem (position control) 2 (size_code value)
    → HoldsField mem (position values) (width_of value) value
    → (out : Decoded) × (decode control values mem ≡ some out) × IsDecoded control values value out
unfolding decode get_value
decode-IsDecoded control values mem value vc vv fits code_held value_held =
    elim (Bool-cases (value == 0)) [
      | inl empty ↦ (
        record { control = (decode_bits control 2 mem).iter; values = values; value = 0 },
        ground (arith, code),
        record {
          control_moved = c.moved;
          values_moved = ground arith;
          control_iterator = c.iterator;
          values_iterator = vv;
          same_value = ground arith;
        },
      )
      | inr full ↦ (
        record {
          control = (decode_bits control 2 mem).iter;
          values = (decode_bits values (width_of value) mem).iter;
          value = (decode_bits values (width_of value) mem).value;
        },
        ground (arith, code),
        record {
          control_moved = c.moved;
          values_moved = d.moved;
          control_iterator = c.iterator;
          values_iterator = d.iterator;
          same_value = same;
        },
      )
    ]
  where
    c : IsField control 2 mem (decode_bits control 2 mem)
    c = decode_bits-IsField control 2 mem vc (omega arith)

    code : (decode_bits control 2 mem).value ≡ size_code value
    code =
        decode_bits-HoldsField control 2 mem (size_code value) vc (omega arith) (ground arith)
          code_held

    d : IsField values (width_of value) mem (decode_bits values (width_of value) mem)
    d = decode_bits-IsField values (width_of value) mem vv (width_of-le value)

    same : (decode_bits values (width_of value) mem).value ≡ value
    same =
        decode_bits-HoldsField values (width_of value) mem value vv (width_of-le value)
          (width_of-fits value fits) value_held
