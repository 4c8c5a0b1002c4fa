-- ===== src/Flamegraph/Sums.antt =====
-- The sum of the values of a trie's nodes that have a given address: `CompressedTrie` of
-- source/flamegraph/src/graph.h seen as a map from paths to values.
use mem_hawk.Prelude.{
  ℕ, zero, suc, ◌^◌, ◌<◌, ◌≡◌, ◌≢◌, refl, sym, ap, ◌∙◌, Bool, true, false, List, [], ◌∷◌, ◌++◌,
  ◌==◌, ◌&&◌, arith, u64, add64, length, get_or, set, get_or-append, get_or-append_last, length-set,
  length-append, get_or-set_self, get_or-set_ne, if◌then◌else◌,
}
use mem_hawk.Flamegraph.{Node}

-- Equality of two paths.
unfoldable pub same_path : List ℕ → List ℕ → Bool
same_path [] [] = true
same_path [] (y ∷ ys) = false
same_path (x ∷ xs) [] = false
same_path (x ∷ xs) (y ∷ ys) = (x == y) && same_path xs ys

-- What a node at an address adds to the sum of a path.
unfoldable pub share : List ℕ → List ℕ → ℕ → ℕ
share q address value = if same_path address q then u64 value else 0

unfoldable pub value_sum : List ℕ → List (List ℕ) → List Node → ℕ
value_sum q [] nodes = 0
value_sum q (a ∷ addresses) [] = 0
value_sum q (a ∷ addresses) (n ∷ nodes) = add64 (share q a n.value) (value_sum q addresses nodes)

pub share_small : (q a : List ℕ) (v : ℕ) → share q a v < 2 ^ 64
unfolding share
share_small q a v = ground arith

pub share_zero : (q a : List ℕ) → share q a 0 ≡ 0
unfolding share
share_zero q a = ground arith

pub share_add : (q a : List ℕ) (v w : ℕ) → share q a (add64 v w) ≡ add64 (share q a v) (share q a w)
unfolding share
share_add q a v w = ground arith

pub value_sum-small :
    (q : List ℕ) (addresses : List (List ℕ)) (nodes : List Node)
    → value_sum q addresses nodes < 2 ^ 64
unfolding value_sum
value_sum-small q [] nodes = omega arith
value_sum-small q (a ∷ addresses) [] = omega arith
value_sum-small q (a ∷ addresses) (n ∷ nodes) = omega arith

-- A node replaced, with its address.
pub value_sum-set :
    (q : List ℕ) (addresses : List (List ℕ)) (nodes : List Node) (i : ℕ) (a : List ℕ) (n d : Node)
    → length addresses ≡ length nodes
    → i < length nodes
    → add64
        (value_sum q (set addresses i a) (set nodes i n))
        (share q (get_or addresses i []) (get_or nodes i d).value)
      ≡ add64 (value_sum q addresses nodes) (share q a n.value)
unfolding value_sum
value_sum-set q [] [] i a n d e h = elim h [ ]
value_sum-set q [] (m ∷ nodes) i a n d e h = absurd (omega arith)
value_sum-set q (b ∷ addresses) [] i a n d e h = elim h [ ]
value_sum-set q (b ∷ addresses) (m ∷ nodes) zero a n d e h = omega arith
value_sum-set q (b ∷ addresses) (m ∷ nodes) (suc i) a n d e h =
    omega (arith, value_sum-set q addresses nodes i a n d (omega arith) (omega arith))

-- A node more, with its address.
pub value_sum-append :
    (q : List ℕ) (addresses : List (List ℕ)) (nodes : List Node) (a : List ℕ) (n : Node)
    → length addresses ≡ length nodes
    → value_sum q (addresses ++ (a ∷ [])) (nodes ++ (n ∷ []))
      ≡ add64 (value_sum q addresses nodes) (share q a n.value)
unfolding value_sum
value_sum-append q [] [] a n e = omega arith
value_sum-append q [] (m ∷ nodes) a n e = absurd (omega arith)
value_sum-append q (b ∷ addresses) [] a n e = absurd (omega arith)
value_sum-append q (b ∷ addresses) (m ∷ nodes) a n e =
    omega (arith, value_sum-append q addresses nodes a n (omega arith))

-- Lists written at one index and extended by an element.
module _ {ℓ} {A : Type ℓ} where
  pub set_self : (xs : List A) (i : ℕ) (d : A) → set xs i (get_or xs i d) ≡ xs
  set_self [] i d = refl
  set_self (x ∷ xs) zero d = refl
  set_self (x ∷ xs) (suc i) d = rw (set_self xs i d) refl

  module _ (xs : List A) (r : ℕ) (v w d : A) (bound : r < length xs) where
    pub written_here : get_or (set xs r v ++ (w ∷ [])) r d ≡ v
    written_here =
        get_or-append (set xs r v) w r d (omega (arith, length-set xs r v))
        ∙ get_or-set_self xs r v d bound

    pub written_last : get_or (set xs r v ++ (w ∷ [])) (length xs) d ≡ w
    written_last =
        ap (λ i. get_or (set xs r v ++ (w ∷ [])) i d) (sym (length-set xs r v))
        ∙ get_or-append_last (set xs r v) w d

    pub written_other :
        (j : ℕ) → j < length xs → j ≢ r → get_or (set xs r v ++ (w ∷ [])) j d ≡ get_or xs j d
    written_other j h ne =
        get_or-append (set xs r v) w j d (omega (arith, length-set xs r v))
        ∙ get_or-set_ne xs r j v d (λ e. ne (sym e))

    pub length-written : length (set xs r v ++ (w ∷ [])) ≡ suc (length xs)
    length-written = omega (arith, length-append (set xs r v) (w ∷ []), length-set xs r v)
