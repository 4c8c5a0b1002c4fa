-- ===== src/StaticStacktraceTracker/Insertion.antt =====
-- What `InsertStacktraceUnlocked` leaves
-- (source/memhawk/src/impl/trackers/stacktrace_tracker_static.cpp).
use Prim.Native.Nat.{bit_xor}
use native.Mathlib.Decide.{ℕ_discrete}
use mem_hawk.Prelude.{
  ℕ, ◌+◌, ◌*◌, ◌^◌, ◌≤◌, ◌<◌, ◌≡◌, ◌≢◌, ◌⊎◌, refl, sym, ap, subst, ◌∙◌, arith, List, [], ◌∷◌, ◌++◌,
  some, true, false, ◌==◌, ◌&&◌, ltb, length, get_elem?, replicate, length-append, Bool-cases, inl,
  inr, get_elem?-append_left, get_elem?-append_last, get_elem?-lt,
}
use mem_hawk.BitPacking.Compression.{decompress, calculate_control_block_size}
use mem_hawk.BitPacking.RoundTrip.{AllBelow}
use mem_hawk.BitPacking.Packing.{Fits}
use mem_hawk.BitPacking.Inverse.{length-used, decompress-used}
use mem_hawk.StaticStacktraceTracker.{
  TraceElement, Tracker, words, find_element, compressed, add_element, insert_stacktrace_unlocked,
  fixed_tracker_id_flag, unknown_trace_id, new_tracker,
}
use mem_hawk.StaticStacktraceTracker.Entries.{words-append, words_added, find_element_found}

-- An element's words are in the storage, and are a compressed trace of at most 6 frames.
pub record IsEntry (e : TraceElement) (storage : List ℕ) : Type 0 where
  pub inside : e.begin + e.count ≤ length storage
  pub trace : List ℕ
  pub decompresses : decompress (words e storage) ≡ some trace
  pub short : length trace ≤ 6

pub record IsValid (t : Tracker) : Type 0 where
  pub entries : (i : ℕ) (e : TraceElement) → get_elem? t.elements i ≡ some e → IsEntry e t.storage
  pub few : length t.elements < 512

pub new_tracker-IsValid : IsValid new_tracker
new_tracker-IsValid = record { entries = λ i e h. absurd (cc); few = omega arith }

pub compressed-trace :
    (span : List ℕ)
    → AllBelow (2 ^ 64) span
    → length span ≤ 6
    → (decompress (compressed span) ≡ some span) × (length (compressed span) ≤ 14)
unfolding compressed
compressed-trace span w short =
    let fits : Fits span = unfold calculate_control_block_size in omega arith in
    let wide : 1 + length span * 2 + calculate_control_block_size (length span)
        ≤ length (replicate {A = ℕ} 48 0) =
      unfold calculate_control_block_size in omega arith in
    (
      decompress-used span (replicate 48 0) fits wide w,
      unfold calculate_control_block_size in
          omega (arith, (length-used span (replicate 48 0) fits wide).1),
    )

-- No element is lost, and none changes its words.
pub record Extends (t t' : Tracker) : Type 0 where
  pub elements_kept :
      (i : ℕ) (e : TraceElement)
      → get_elem? t.elements i ≡ some e
      → get_elem? t'.elements i ≡ some e
  pub words_kept :
      (i : ℕ) (e : TraceElement)
      → get_elem? t.elements i ≡ some e
      → words e t'.storage ≡ words e t.storage

pub Extends-refl : (t : Tracker) → Extends t t
Extends-refl t = record { elements_kept = λ i e h. h; words_kept = λ i e h. refl }

-- There is room for another trace of at most 14 words.
abbrev pub HasRoom : Tracker → Type 0
HasRoom t = (length t.elements + 1 < 512) × (length t.storage + 14 < 6144)

module _ (xxh3 : List ℕ → ℕ) where
  add_element-Extends :
      (trace : List ℕ) (t : Tracker) → IsValid t → Extends t (add_element xxh3 trace t)
  unfolding add_element
  add_element-Extends trace t v = record {
    elements_kept =
        λ i e h. get_elem?-append_left t.elements _ i (get_elem?-lt t.elements i e h) ∙ h;
    words_kept = λ i e h. words-append e t.storage trace (v.entries i e h).inside;
  }

  abbrev added : List ℕ → Tracker → TraceElement
  added trace t = record { hash = xxh3 trace; begin = length t.storage; count = length trace }

  added-IsEntry :
      (trace fs : List ℕ) (t : Tracker)
      → decompress trace ≡ some fs
      → length fs ≤ 6
      → IsEntry (added trace t) (t.storage ++ trace)
  added-IsEntry trace fs t whole short = record {
    inside = omega (arith, length-append t.storage trace);
    trace = fs;
    decompresses = rw (words_added (xxh3 trace) t.storage trace) whole;
    short = short;
  }

  add_element-IsValid :
      (trace fs : List ℕ) (t : Tracker)
      → IsValid t
      → length t.elements + 1 < 512
      → decompress trace ≡ some fs
      → length fs ≤ 6
      → IsValid (add_element xxh3 trace t)
  unfolding add_element
  add_element-IsValid trace fs t v few whole short = record {
    entries = λ i e h. elim (Bool-cases (ltb i (length t.elements))) [
      | inl old ↦
          let before : i < length t.elements = ground arith in
          let n = v.entries i e (sym (get_elem?-append_left t.elements _ i before) ∙ h) in
          record {
            inside = omega (arith, n.inside, length-append t.storage trace);
            trace = n.trace;
            decompresses = words-append' e n.inside ∙ n.decompresses;
            short = n.short;
          }
      | inr new ↦
          let last : i ≡ length t.elements = ground (
            arith,
            get_elem?-lt (t.elements ++ (added trace t ∷ [])) i e h,
            length-append {A = TraceElement} t.elements (added trace t ∷ []),
          ) in
          let same : added trace t ≡ e = some-injective (
            sym (get_elem?-append_last t.elements (added trace t))
            ∙ (ap (get_elem? (t.elements ++ (added trace t ∷ []))) (sym last) ∙ h)) in
          subst (λ (d : TraceElement). IsEntry d (t.storage ++ trace)) same
            (added-IsEntry trace fs t whole short)
    ];
    few = omega (arith, length-append {A = TraceElement} t.elements (added trace t ∷ []));
  }
    where
      words-append' :
          (e : TraceElement)
          → e.begin + e.count ≤ length t.storage
          → decompress (words e (t.storage ++ trace)) ≡ decompress (words e t.storage)
      words-append' e inside = ap decompress (words-append e t.storage trace inside)

      some-injective : {a b : TraceElement} → some a ≡ some b → a ≡ b
      some-injective e = cc

  -- `InsertStacktraceUnlocked` leaves the trace under the index that it returns.
  pub record IsStored (span : List ℕ) (t : Tracker) : Type 0 where
    pub after : Tracker
    pub index : ℕ
    pub element : TraceElement
    pub returns : insert_stacktrace_unlocked xxh3 span t ≡ (after, index)
    pub valid : IsValid after
    pub extends : Extends t after
    pub here : get_elem? after.elements index ≡ some element
    pub holds : words element after.storage ≡ compressed span

  -- There is no room for it.
  pub record IsRefused (span : List ℕ) (t : Tracker) : Type 0 where
    pub returns :
        insert_stacktrace_unlocked xxh3 span t ≡ (t, bit_xor unknown_trace_id fixed_tracker_id_flag)
    pub full : ¬ HasRoom t

  abbrev find_span : List ℕ → Tracker → ℕ
  find_span span t = find_element (xxh3 (compressed span)) (compressed span) t.storage t.elements

  insert_known :
      (span : List ℕ) (t : Tracker)
      → IsValid t
      → find_span span t ≢ length t.elements
      → IsStored span t
  unfolding insert_stacktrace_unlocked
  insert_known span t v known =
      let (e, here, holds) =
        find_element_found (xxh3 (compressed span)) (compressed span) t.storage t.elements known in
      let test : (find_span span t == length t.elements) ≡ false = ground (arith, known) in
      record {
        after = t;
        index = find_span span t;
        element = e;
        returns = rw test refl;
        valid = v;
        extends = Extends-refl t;
        here = here;
        holds = holds;
      }

  insert_unknown :
      (span : List ℕ) (t : Tracker)
      → IsValid t
      → AllBelow (2 ^ 64) span
      → length span ≤ 6
      → find_span span t ≡ length t.elements
      → IsStored span t ⊎ IsRefused span t
  unfolding insert_stacktrace_unlocked
  insert_unknown span t v w short unknown =
      let (whole, few) = compressed-trace span w short in
      let test : (find_span span t == length t.elements) ≡ true = ground (arith, unknown) in
      elim (Bool-cases (
        ltb (length t.storage + length (compressed span)) 6144
        && ltb (length t.elements + 1) 512)) [
          | inl room ↦ inl (record {
            after = add_element xxh3 (compressed span) t;
            index = find_span span t;
            element = added (compressed span) t;
            returns = rw (test, room) refl;
            valid = add_element-IsValid (compressed span) span t v (ground arith) whole short;
            extends = add_element-Extends (compressed span) t v;
            here =
                unfold add_element in
                rw unknown (get_elem?-append_last t.elements (added (compressed span) t));
            holds =
                unfold add_element in
                words_added (xxh3 (compressed span)) t.storage (compressed span);
          })
          | inr full ↦
              inr (record {
                returns = rw (test, full) refl;
                full = λ h. absurd (ground (arith, few));
              })
        ]

  pub insert_stacktrace_unlocked-IsStored :
      (span : List ℕ) (t : Tracker)
      → IsValid t
      → AllBelow (2 ^ 64) span
      → length span ≤ 6
      → IsStored span t ⊎ IsRefused span t
  insert_stacktrace_unlocked-IsStored span t v w short =
      elim (ℕ_discrete (find_span span t) (length t.elements)) [
        | yes unknown ↦ insert_unknown span t v w short unknown
        | no known ↦ inl (insert_known span t v known)
      ]
