-- ===== src/Flamegraph/Matching.antt =====
-- A round of `CompressedTrie::Append` in source/flamegraph/src/graph.h up to the match of the node's
-- keys: what `SplitPath` returns.
use mem_hawk.Prelude.{
  ℕ, zero, suc, ◌+◌, ◌^◌, ◌≤◌, ◌<◌, ◌≡◌, refl, sym, ap, ◌∙◌, List, [], ◌∷◌, ◌++◌, Option, some,
  arith, true, false, ◌==◌, ==_iff, Bool-cases, inl, inr, length, take, drop, take-ge,
}
use mem_hawk.Flamegraph.{
  CompressedTrie, node_at, append_loop, next_node, split_path, split_node, match_length, span_size,
}
use mem_hawk.Flamegraph.Spans.{
  IsInside, match_length_self, length-span_elements, match_length-le, take-match_length,
  match_length_first,
}
use mem_hawk.Flamegraph.Splitting.{
  keys_at, address_at, IsTrie, IsKept, split_addresses, split_node-IsTrie, split_node-IsKept,
  split_address, length-split_node,
}

-- The nodes and the elements that a trie may still get.
pub record HasRoom (nodes elements : ℕ) (t : CompressedTrie) : Type 0 where
  pub node_room : length t.nodes + nodes < 2 ^ 32
  pub element_room : length t.paths + elements < 2 ^ 32

-- `SplitPath(root, path)` left the trie `t'` and returned `matched`.
pub record IsMatched (root : ℕ) (before path : List ℕ) (addresses : List (List ℕ))
    (t : CompressedTrie) (addresses' : List (List ℕ)) (t' : CompressedTrie) (matched : ℕ)
    : Type 0 where
  pub result : split_path root path t ≡ (t', matched)
  pub trie : IsTrie addresses' t'
  pub kept : IsKept addresses t addresses' t'
  pub bound : root < length t'.nodes
  pub address : address_at addresses' root ≡ before ++ take matched path
  pub progress : 0 < matched
  pub matched_le : matched ≤ length path
  pub nodes_le : length t'.nodes ≤ suc (length t.nodes)
  pub paths_le : length t'.paths ≤ length t.paths

split_path_whole :
    (r : ℕ) (path : List ℕ) (t : CompressedTrie)
    → (match_length path (keys_at t r) == span_size (node_at t r).path) ≡ true
    → split_path r path t ≡ (t, match_length path (keys_at t r))
unfolding split_path
split_path_whole r path t h = rw h refl

split_path_part :
    (r : ℕ) (path : List ℕ) (t : CompressedTrie)
    → (match_length path (keys_at t r) == span_size (node_at t r).path) ≡ false
    → split_path r path t
      ≡ (split_node r (match_length path (keys_at t r)) t, match_length path (keys_at t r))
unfolding split_path
split_path_part r path t h = rw h refl

split_node_paths : (r m : ℕ) (t : CompressedTrie) → (split_node r m t).paths ≡ t.paths
unfolding split_node
split_node_paths r m t = refl

pub split_path_lem :
    (r x : ℕ) (before xs ks : List ℕ) (addresses : List (List ℕ)) (t : CompressedTrie)
    → IsTrie addresses t
    → r < length t.nodes
    → HasRoom 1 0 t
    → address_at addresses r ≡ before ++ keys_at t r
    → keys_at t r ≡ x ∷ ks
    → (addresses' : List (List ℕ)) × (t' : CompressedTrie) × (matched : ℕ) × IsMatched r before
        (x ∷ xs)
        addresses
        t
        addresses'
        t'
        matched
split_path_lem r x before xs ks addresses t trie bound room address head =
    let m = match_length (x ∷ xs) (keys_at t r) in
    let (le, le') = match_length-le (x ∷ xs) (keys_at t r) in
    let one : m ≡ suc (match_length xs ks) =
      ap (match_length (x ∷ xs)) head ∙ match_length_first x xs ks in
    let size : length (keys_at t r) ≡ span_size (node_at t r).path =
      length-span_elements t.paths (node_at t r).path (trie.inside r bound)
        (omega (arith, room.element_room)) in
    let same = take-match_length (x ∷ xs) (keys_at t r) in
    elim (Bool-cases (m == span_size (node_at t r).path)) [
      | inl whole ↦
          let all : m ≡ span_size (node_at t r).path =
            (==_iff m (span_size (node_at t r).path)).0 whole in
          (
            addresses,
            t,
            m,
            record {
              result = split_path_whole r (x ∷ xs) t whole;
              trie = trie;
              kept = record { sums = λ q. refl; root_total = refl };
              bound = bound;
              address =
                  address
                  ∙ ap (λ z. before ++ z) (sym (same ∙ take-ge (keys_at t r) m (omega arith)));
              progress = omega arith;
              matched_le = le;
              nodes_le = omega arith;
              paths_le = omega arith;
            },
          )
      | inr partial ↦
          let n = match_length xs ks in
          let part : suc n < span_size (node_at t r).path =
            ground (arith, le', one, size, partial) in
          let few : suc (length t.nodes) < 2 ^ 32 = omega (arith, room.node_room) in
          let small : length t.paths < 2 ^ 32 = omega (arith, room.element_room) in
          (
            split_addresses r n before addresses t trie bound few small part address,
            split_node r (suc n) t,
            suc n,
            record {
              result = split_path_part r (x ∷ xs) t partial ∙ ap (λ k. (split_node r k t, k)) one;
              trie = split_node-IsTrie r n before addresses t trie bound few small part address;
              kept = split_node-IsKept r n before addresses t trie bound few small part address;
              bound = omega (
                arith,
                length-split_node r n before addresses t trie bound few small part address,
              );
              address =
                  split_address r n before addresses t trie bound few small part address
                  ∙ ap (λ z. before ++ z)
                      (ap (λ k. take k (keys_at t r)) (sym one)
                        ∙ (sym same ∙ ap (λ k. take k (x ∷ xs)) one));
              progress = omega arith;
              matched_le = omega (arith, le, one);
              nodes_le = omega (
                arith,
                length-split_node r n before addresses t trie bound few small part address,
              );
              paths_le = omega (arith, ap length (split_node_paths r (suc n) t));
            },
          )
    ]

-- What a round does with the elements that are left.
abbrev round_end : ℕ → ℕ → ℕ → CompressedTrie → List ℕ → Option (CompressedTrie × ℕ)
round_end fuel root value t [] = some (t, root)
round_end fuel root value t (key ∷ more) =
    let (t', next) = next_node root key (key ∷ more) value t in
    append_loop fuel next (key ∷ more) value t'

module _ (fuel r x value : ℕ) (xs : List ℕ) (t : CompressedTrie) where
  round_lem :
      (s : CompressedTrie × ℕ)
      → split_path r (x ∷ xs) t ≡ s
      → append_loop (suc fuel) r (x ∷ xs) value t ≡ round_end fuel r value s.0 (drop s.1 (x ∷ xs))
  unfolding append_loop
  round_lem s e =
      ap
        (λ (z : CompressedTrie × ℕ). elim (drop z.1 (x ∷ xs)) [
          | [] ↦ some (z.0, r)
          | key ∷ more ↦
              let (t'', next) = next_node r key (key ∷ more) value z.0 in
              append_loop fuel next (key ∷ more) value t''
        ])
        e
      ∙ last (drop s.1 (x ∷ xs))
    where
      last :
          (ys : List ℕ)
          → elim ys [
            | [] ↦ some (s.0, r)
            | key ∷ more ↦
                let (t'', next) = next_node r key (key ∷ more) value s.0 in
                append_loop fuel next (key ∷ more) value t''
          ]
            ≡ round_end fuel r value s.0 ys
      last [] = refl
      last (key ∷ more) = refl

  pub loop_end :
      (t' : CompressedTrie) (matched : ℕ)
      → split_path r (x ∷ xs) t ≡ (t', matched)
      → drop matched (x ∷ xs) ≡ []
      → append_loop (suc fuel) r (x ∷ xs) value t ≡ some (t', r)
  loop_end t' matched e d = round_lem (t', matched) e ∙ ap (round_end fuel r value t') d

  pub loop_next :
      (t' : CompressedTrie) (matched key : ℕ) (more : List ℕ)
      → split_path r (x ∷ xs) t ≡ (t', matched)
      → drop matched (x ∷ xs) ≡ key ∷ more
      → append_loop (suc fuel) r (x ∷ xs) value t
        ≡ append_loop fuel
            (next_node r key (key ∷ more) value t').1
            (key ∷ more)
            value
            (next_node r key (key ∷ more) value t').0
  loop_next t' matched key more e d = round_lem (t', matched) e ∙ ap (round_end fuel r value t') d

-- A path that the node's keys are.
pub loop_whole :
    (fuel r x value : ℕ) (xs : List ℕ) (t : CompressedTrie)
    → 0 < fuel
    → IsInside (length t.paths) (node_at t r).path
    → length t.paths < 2 ^ 32
    → keys_at t r ≡ x ∷ xs
    → append_loop fuel r (x ∷ xs) value t ≡ some (t, r)
loop_whole zero r x value xs t h inside small e = elim h [ ]
loop_whole (suc fuel) r x value xs t h inside small e =
    let m = match_length (x ∷ xs) (keys_at t r) in
    let all : m ≡ suc (length xs) = ap (match_length (x ∷ xs)) e ∙ match_length_self (x ∷ xs) in
    let size = length-span_elements t.paths (node_at t r).path inside small in
    let whole = (==_iff m (span_size (node_at t r).path)).1 (all ∙ (ap length (sym e) ∙ size)) in
    loop_end fuel r x value xs t t (suc (length xs))
      (split_path_whole r (x ∷ xs) t whole ∙ ap (λ k. (t, k)) all) (drop_all xs)
  where
    drop_all : (ys : List ℕ) → drop (length ys) ys ≡ []
    drop_all [] = refl
    drop_all (y ∷ ys) = drop_all ys

-- A node without keys, such as the root.
pub split_path_root :
    (r : ℕ) (path : List ℕ) (t : CompressedTrie)
    → IsInside (length t.paths) (node_at t r).path
    → length t.paths < 2 ^ 32
    → keys_at t r ≡ []
    → split_path r path t ≡ (t, 0)
split_path_root r path t inside small e =
    let m = match_length path (keys_at t r) in
    let none_matched : m ≡ 0 = omega (arith, (match_length-le path (keys_at t r)).1, ap length e) in
    let size = length-span_elements t.paths (node_at t r).path inside small in
    let whole =
      (==_iff m (span_size (node_at t r).path)).1 (none_matched ∙ (ap length (sym e) ∙ size)) in
    split_path_whole r path t whole ∙ ap (λ k. (t, k)) none_matched
