-- ===== src/BitPacking/Blocks.antt =====
-- Rows of values: what the loop of `Compress` does, one `uint32_t` at a time.
use mem_hawk.Prelude.{
  ℕ, ◌+◌, ◌*◌, ◌^◌, ◌≤◌, ◌<◌, ◌≡◌, refl, arith, List, [], ◌∷◌, length, get_or, ◌⊎◌, inl, inr, ◌∙◌,
  subst,
}
use mem_hawk.BitPacking.Fields.{position, IsIterator, mem_bit}
use mem_hawk.BitPacking.Compression.{Streams, encode}
use mem_hawk.BitPacking.Values.{HoldsField, size_code, width_of, encode-IsEncoded}

unfoldable pub encode_all : List ℕ → Streams → Streams
encode_all [] s = s
encode_all (v ∷ vs) s = encode_all vs (encode s v)

abbrev pub total_width : List ℕ → ℕ
total_width [] = 0
total_width (v ∷ vs) = width_of v + total_width vs

abbrev pub AllWords : List ℕ → Type 0
AllWords [] = Unit
AllWords (v ∷ vs) = (v < 2 ^ 32) × AllWords vs

-- The array holds the row: codes from `pc` on, digits from `pv` on.
abbrev pub Holds : List ℕ → ℕ → ℕ → List ℕ → Type 0
Holds mem pc pv [] = Unit
Holds mem pc pv (v ∷ vs) =
    HoldsField mem pc 2 (size_code v)
    × HoldsField mem pv (width_of v) v
    × Holds mem (pc + 2) (pv + width_of v) vs

-- A row stays held where the digits of its two ranges are kept.
pub Holds-transfer :
    (vs : List ℕ) (old new : List ℕ) (pc pv : ℕ)
    → ((q : ℕ) → pc ≤ q → q < pc + 2 * length vs → mem_bit new q ≡ mem_bit old q)
    → ((q : ℕ) → pv ≤ q → q < pv + total_width vs → mem_bit new q ≡ mem_bit old q)
    → Holds old pc pv vs
    → Holds new pc pv vs
Holds-transfer [] old new pc pv hc hv h = tt
Holds-transfer (v ∷ vs) old new pc pv hc hv (code, digits, rest) = (
  λ i k. hc (pc + i) (omega arith) (omega arith) ∙ code i k,
  λ i k. hv (pv + i) (omega arith) (omega arith) ∙ digits i k,
  Holds-transfer vs old new (pc + 2) (pv + width_of v) (λ q p r. hc q (omega arith) (omega arith))
      (λ q p r. hv q (omega arith) (omega arith)) rest,
)

-- What the loop of `Compress` leaves.
pub record IsPacked (s : Streams) (vs : List ℕ) (out : Streams) : Type 0 where
  pub control_moved : position out.control ≡ position s.control + 2 * length vs
  pub values_moved : position out.values ≡ position s.values + total_width vs
  pub control_iterator : IsIterator out.control
  pub values_iterator : IsIterator out.values
  pub same_length : length out.mem ≡ length s.mem
  pub header : get_or out.mem 0 0 ≡ get_or s.mem 0 0
  pub held : Holds out.mem (position s.control) (position s.values) vs
  pub others :
      (q : ℕ)
      → (q < position s.control) ⊎ (position s.control + 2 * length vs ≤ q)
      → (q < position s.values) ⊎ (position s.values + total_width vs ≤ q)
      → mem_bit out.mem q ≡ mem_bit s.mem q

pub record HasSpace (s : Streams) (vs : List ℕ) : Type 0 where
  pub control_iterator : IsIterator s.control
  pub values_iterator : IsIterator s.values
  pub past_header : 0 < s.control.value
  pub apart : position s.control + 2 * length vs ≤ position s.values
  pub room : position s.values + total_width vs ≤ 32 * length s.mem

-- The row and the iterators only grow, so an encoded value is never overwritten.
pub encode_all-IsPacked :
    (vs : List ℕ) (s : Streams) → HasSpace s vs → IsPacked s vs (encode_all vs s)
unfolding encode_all
encode_all-IsPacked [] s h = record {
  control_moved = omega arith;
  values_moved = omega arith;
  control_iterator = h.control_iterator;
  values_iterator = h.values_iterator;
  same_length = refl;
  header = refl;
  held = tt;
  others = λ q p r. refl;
}
encode_all-IsPacked (v ∷ vs) s h =
    let e = encode-IsEncoded s v (record {
      control_iterator = h.control_iterator;
      values_iterator = h.values_iterator;
      past_header = h.past_header;
      apart = omega arith;
      room = omega arith;
    }) in
    let r = encode_all-IsPacked vs (encode s v) (record {
      control_iterator = e.control_iterator;
      values_iterator = e.values_iterator;
      past_header =
          ground (arith, e.control_moved, e.control_iterator.in_word, h.control_iterator.in_word);
      apart = omega (arith, e.control_moved, e.values_moved);
      room = omega (arith, e.values_moved, e.same_length);
    }) in
    record {
      control_moved = omega (arith, e.control_moved, r.control_moved);
      values_moved = omega (arith, e.values_moved, r.values_moved);
      control_iterator = r.control_iterator;
      values_iterator = r.values_iterator;
      same_length = omega (arith, e.same_length, r.same_length);
      header = r.header ∙ e.header;
      held = (
        λ i k.
            r.others (position s.control + i) (inl (omega (arith, e.control_moved)))
              (inl (omega (arith, e.values_moved)))
            ∙ e.code_held i k,
        λ i k.
            r.others (position s.values + i) (inr (omega (arith, e.control_moved)))
              (inl (omega (arith, e.values_moved)))
            ∙ e.value_held i k,
        subst (λ c. Holds (encode_all vs (encode s v)).mem c (position s.values + width_of v) vs)
            e.control_moved
            (subst
              (λ d. Holds (encode_all vs (encode s v)).mem (position (encode s v).control) d vs)
              e.values_moved r.held),
      );
      others = λ q p t. ground (arith, e.control_moved, e.values_moved, e.others q, r.others q);
    }
