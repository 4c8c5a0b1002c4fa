-- ===== src/StaticStacktraceTracker/Entries.antt =====
-- The spans into the storage of source/memhawk/src/impl/trackers/stacktrace_tracker_static.cpp.
use mem_hawk.Prelude.{
  ℕ, suc, ◌+◌, ◌≤◌, ◌≡◌, ◌≢◌, refl, ap, ◌∙◌, arith, List, [], ◌∷◌, ◌++◌, some, true, ◌==◌, ◌&&◌,
  length, get_elem?, take, drop, take-append, take-ge, drop-append, drop-append_all, length-drop,
  Bool-cases, inl, inr,
}
use mem_hawk.StaticStacktraceTracker.{TraceElement, words, same_words, find_element}

same_words-eq : (xs ys : List ℕ) → same_words xs ys ≡ true → xs ≡ ys
unfolding same_words
same_words-eq [] [] h = refl
same_words-eq [] (y ∷ ys) h = absurd (cc)
same_words-eq (x ∷ xs) [] h = absurd (cc)
same_words-eq (x ∷ xs) (y ∷ ys) h = ground (arith, same_words-eq xs ys)

-- A span keeps its words when words are added behind the storage.
pub words-append :
    (e : TraceElement) (storage more : List ℕ)
    → e.begin + e.count ≤ length storage
    → words e (storage ++ more) ≡ words e storage
words-append e storage more h =
    ap (take e.count) (drop-append e.begin storage more (omega arith))
    ∙ take-append e.count (drop e.begin storage) more
        (omega (arith, length-drop {A = ℕ} e.begin storage))

-- The words behind the storage.
pub words_added :
    (hash : ℕ) (storage trace : List ℕ)
    → words
        (record { hash = hash; begin = length storage; count = length trace })
        (storage ++ trace)
      ≡ trace
words_added hash storage trace =
    ap (take (length trace)) (drop-append_all storage trace)
    ∙ take-ge trace (length trace) (omega arith)

-- What the search finds.
pub find_element_found :
    (hash : ℕ) (trace storage : List ℕ) (es : List TraceElement)
    → find_element hash trace storage es ≢ length es
    → (e : TraceElement) × (get_elem? es (find_element hash trace storage es) ≡ some e)
      × (words e storage ≡ trace)
unfolding find_element
find_element_found hash trace storage [] h = absurd (h refl)
find_element_found hash trace storage (e ∷ es) h =
    elim (Bool-cases (e.hash == hash && same_words (words e storage) trace)) [
      | inl here ↦ rw here (e, refl, same_words-eq _ _ (ground (arith, here)))
      | inr away ↦ rw away (find_element_found hash trace storage es (λ p. h (rw away (ap suc p))))
    ]

pub find_element-le :
    (hash : ℕ) (trace storage : List ℕ) (es : List TraceElement)
    → find_element hash trace storage es ≤ length es
unfolding find_element
find_element-le hash trace storage [] = omega arith
find_element-le hash trace storage (e ∷ es) = ground (arith, find_element-le hash trace storage es)
