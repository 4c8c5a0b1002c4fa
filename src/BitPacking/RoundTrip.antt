-- ===== src/BitPacking/RoundTrip.antt =====
-- `Compress` and `Decompress` of source/memhawk/src/impl/compression.cpp on whole arrays.
use mem_hawk.Prelude.{
  ℕ, suc, ◌+◌, ◌-◌, ◌*◌, ◌/◌, ◌^◌, ◌≤◌, ◌<◌, ◌≡◌, refl, sym, subst, arith, List, [], ◌∷◌, some,
  length, u32, u64, add64, sub64, bit_or,
}
use mem_hawk.Prelude.Bits.{bit-bit_or, bit-mul, bit-mod, bit-div, bit_or-lt, bit_ext}
use mem_hawk.BitPacking.{BitIterator}
use mem_hawk.BitPacking.Fields.{position, IsIterator}
use mem_hawk.BitPacking.Compression.{Streams, Decoded, decode, compress_loop, decompress_loop}
use mem_hawk.BitPacking.Values.{width_of-le, decode-IsDecoded}
use mem_hawk.BitPacking.Blocks.{encode_all, total_width, Holds}

-- The `uint32_t` values that `Compress` encodes: both halves of each difference.
abbrev pub halves : ℕ → List ℕ → List ℕ
halves prev [] = []
halves prev (cur ∷ xs) = u32 (sub64 cur prev) ∷ u32 (sub64 cur prev / 2 ^ 32) ∷ halves cur xs

abbrev pub AllBelow : ℕ → List ℕ → Type 0
AllBelow n [] = Unit
AllBelow n (x ∷ xs) = (x < n) × AllBelow n xs

pub compress_loop-encode_all :
    (prev : ℕ) (xs : List ℕ) (s : Streams) → compress_loop prev xs s ≡ encode_all (halves prev xs) s
unfolding compress_loop encode_all
compress_loop-encode_all prev [] s = refl
compress_loop-encode_all prev (cur ∷ xs) s = compress_loop-encode_all cur xs _

pub length-halves : (prev : ℕ) (xs : List ℕ) → length (halves prev xs) ≡ 2 * length xs
length-halves prev [] = refl
length-halves prev (cur ∷ xs) = omega (arith, length-halves cur xs)

pub total_width-halves : (prev : ℕ) (xs : List ℕ) → total_width (halves prev xs) ≤ 64 * length xs
total_width-halves prev [] = omega arith
total_width-halves prev (cur ∷ xs) = omega (
  arith,
  total_width-halves cur xs,
  width_of-le (u32 (sub64 cur prev)),
  width_of-le (u32 (sub64 cur prev / 2 ^ 32)),
)

-- `(static_cast<uint64_t>(high) << 32) | low`
join_halves : (x : ℕ) → x < 2 ^ 64 → bit_or (u64 (u32 (x / 2 ^ 32) * 2 ^ 32)) (u32 x) ≡ x
join_halves x h = bit_ext 64 _ x (bit_or-lt 64 _ _ (omega arith) (omega arith)) h (λ i k. ground (
  arith,
  bit-bit_or (u64 (high * 2 ^ 32)) (u32 x) i,
  bit-mod 64 (high * 2 ^ 32) i,
  bit-mul 32 high i,
  bit-mod 32 x i,
  bit-mod 32 (x / 2 ^ 32) (i - 32),
  bit-div 32 x (i - 32),
))
  where
    high : ℕ
    high = u32 (x / 2 ^ 32)

undo_difference : (cur prev : ℕ) → cur < 2 ^ 64 → prev < 2 ^ 64 → add64 prev (sub64 cur prev) ≡ cur
undo_difference cur prev h k = omega arith

-- One `Decode` takes the first value off a held row.
record IsTaken (control values : BitIterator) (mem : List ℕ) (v : ℕ) (vs : List ℕ) : Type 0 where
  out : Decoded
  decoded : decode control values mem ≡ some out
  same_value : out.value ≡ v
  control_iterator : IsIterator out.control
  values_iterator : IsIterator out.values
  held : Holds mem (position out.control) (position out.values) vs

decode-IsTaken :
    (control values : BitIterator) (mem : List ℕ) (v : ℕ) (vs : List ℕ)
    → v < 2 ^ 32
    → IsIterator control
    → IsIterator values
    → Holds mem (position control) (position values) (v ∷ vs)
    → IsTaken control values mem v vs
decode-IsTaken control values mem v vs fits vc vv (code, digits, rest) =
    let (d, decoded, is) = decode-IsDecoded control values mem v vc vv fits code digits in
    record {
      out = d;
      decoded = decoded;
      same_value = is.same_value;
      control_iterator = is.control_iterator;
      values_iterator = is.values_iterator;
      held =
          subst (λ c. Holds mem c (position d.values) vs) (sym is.control_moved)
            (subst (λ p. Holds mem (position control + 2) p vs) (sym is.values_moved) rest);
    }

-- A round of the loop of `Decompress`.
decompress_loop-round :
    (cur : ℕ) (xs : List ℕ) (prev : ℕ) (control values : BitIterator) (mem : List ℕ)
    (low high : Decoded)
    → prev < 2 ^ 64
    → cur < 2 ^ 64
    → decode control values mem ≡ some low
    → decode low.control low.values mem ≡ some high
    → low.value ≡ u32 (sub64 cur prev)
    → high.value ≡ u32 (sub64 cur prev / 2 ^ 32)
    → decompress_loop (length xs) cur high.control high.values mem ≡ some xs
    → decompress_loop (suc (length xs)) prev control values mem ≡ some (cur ∷ xs)
unfolding decompress_loop
decompress_loop-round cur xs prev control values mem low high p fits a b same_low same_high rest =
    let joined : add64 prev (bit_or (u64 (high.value * 2 ^ 32)) low.value) ≡ cur =
      rw (same_high, same_low, join_halves (sub64 cur prev) (omega arith))
        (undo_difference cur prev fits p) in
    rw (a, decompress_loop, b, joined, rest, joined) refl

-- The loop of `Decompress` reads a held array back.
pub decompress_loop-Holds :
    (xs : List ℕ) (prev : ℕ) (control values : BitIterator) (mem : List ℕ)
    → prev < 2 ^ 64
    → AllBelow (2 ^ 64) xs
    → IsIterator control
    → IsIterator values
    → Holds mem (position control) (position values) (halves prev xs)
    → decompress_loop (length xs) prev control values mem ≡ some xs
decompress_loop-Holds [] prev control values mem p w vc vv h = unfold decompress_loop in refl
decompress_loop-Holds (cur ∷ xs) prev control values mem p (fits, w) vc vv h =
    let low =
      decode-IsTaken control values mem (u32 (sub64 cur prev))
        (u32 (sub64 cur prev / 2 ^ 32) ∷ halves cur xs) (omega arith) vc vv h in
    let high =
      decode-IsTaken low.out.control low.out.values mem (u32 (sub64 cur prev / 2 ^ 32))
        (halves cur xs) (omega arith) low.control_iterator low.values_iterator low.held in
    decompress_loop-round cur xs prev control values mem low.out high.out p fits low.decoded
      high.decoded low.same_value high.same_value
      (decompress_loop-Holds xs cur high.out.control high.out.values mem fits w
        high.control_iterator high.values_iterator high.held)
