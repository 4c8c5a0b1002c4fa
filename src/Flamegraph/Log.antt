-- ===== src/Flamegraph/Log.antt =====
-- A trie of source/flamegraph/src/graph.h that was made by appending the lines of a log, against
-- the log itself.
use mem_hawk.Prelude.{
  ℕ, zero, suc, ◌+◌, ◌*◌, ◌^◌, ◌<◌, ◌≡◌, refl, sym, ap, ◌∙◌, List, [], ◌∷◌, none, some, arith,
  add64, u64, length,
}
use mem_hawk.Prelude.Maps.{find?}
use mem_hawk.Flamegraph.{
  CompressedTrie, node_at, new_trie, append, append_all, span_elements, span_size,
}
use mem_hawk.Flamegraph.Spans.{IsInside}
use mem_hawk.Flamegraph.Sums.{value_sum, value_sum-small, share, share_small, share_zero}
use mem_hawk.Flamegraph.Shape.{find?-empty}
use mem_hawk.Flamegraph.Splitting.{edges_at, IsTrie}
use mem_hawk.Flamegraph.Matching.{HasRoom}
use mem_hawk.Flamegraph.Contents.{IsAppended, append_lem}

-- The elements of all paths of a log.
unfoldable pub log_size : List (List ℕ × ℕ) → ℕ
log_size [] = 0
log_size ((path, value) ∷ log) = length path + log_size log

-- The values of a path in a log, summed in 64 bits.
unfoldable pub log_sum : List ℕ → List (List ℕ × ℕ) → ℕ
log_sum q [] = 0
log_sum q ((path, value) ∷ log) = add64 (share q path value) (log_sum q log)

-- The values of all paths.
unfoldable pub log_total : List (List ℕ × ℕ) → ℕ
log_total [] = 0
log_total ((path, value) ∷ log) = add64 value (log_total log)

log_sum-small : (q : List ℕ) (log : List (List ℕ × ℕ)) → log_sum q log < 2 ^ 64
unfolding log_sum
log_sum-small q [] = omega arith
log_sum-small q ((path, value) ∷ log) = omega arith

log_total-small : (log : List (List ℕ × ℕ)) → log_total log < 2 ^ 64
unfolding log_total
log_total-small [] = omega arith
log_total-small ((path, value) ∷ log) = omega arith

-- A new trie has no value.
zero_sum : (q : List ℕ) → value_sum q ([] ∷ []) new_trie.nodes ≡ 0
unfolding value_sum
zero_sum q = omega (arith, share_zero q [])

pub append_next :
    (path : List ℕ) (value : ℕ) (log : List (List ℕ × ℕ)) (t t' : CompressedTrie)
    → append path value t ≡ some t'
    → append_all ((path, value) ∷ log) t ≡ append_all log t'
unfolding append_all
append_next path value log t t' h = rw (append_all, h) refl

pub append-none :
    (path : List ℕ) (value : ℕ) (log : List (List ℕ × ℕ)) (t : CompressedTrie)
    → append path value t ≡ none
    → append_all ((path, value) ∷ log) t ≡ none
unfolding append_all
append-none path value log t h = rw (append_all, h) refl

new_trie-IsTrie : IsTrie ([] ∷ []) new_trie
unfolding span_elements span_size
new_trie-IsTrie = record {
  same_length = refl;
  inside = λ i h. only_root i;
  tree = record {
    root_bound = omega arith;
    root_address = refl;
    root_keys = refl;
    edge = λ i k c h e. absurd (find?-empty k c (ap (find? k) (sym (no_edges i)) ∙ e));
    parent = λ c h ne. absurd (ne (omega arith));
  };
}
  where
    only_root : (i : ℕ) → IsInside 0 (node_at new_trie i).path
    only_root zero = record { ordered = omega arith; bounded = omega arith }
    only_root (suc i) = record { ordered = omega arith; bounded = omega arith }

    no_edges : (i : ℕ) → edges_at new_trie i ≡ []
    no_edges zero = refl
    no_edges (suc i) = refl

append_all_from :
    (log : List (List ℕ × ℕ)) (addresses : List (List ℕ)) (t : CompressedTrie)
    → IsTrie addresses t
    → HasRoom (2 * log_size log) (log_size log) t
    → (addresses' : List (List ℕ)) × (t' : CompressedTrie) × (append_all log t ≡ some t')
      × IsTrie addresses' t'
      × ((q : List ℕ)
          → value_sum q addresses' t'.nodes ≡ add64 (value_sum q addresses t.nodes) (log_sum q log))
      × (u64 (node_at t' 0).total ≡ add64 (node_at t 0).total (log_total log))
unfolding append_all log_size log_sum log_total
append_all_from [] addresses t trie room =
    (addresses, t, refl, trie, λ q. omega (arith, value_sum-small q addresses t.nodes), omega arith)
append_all_from ((path, value) ∷ log) addresses t trie room =
    let p : IsAppended addresses t path value (append path value t) =
      append_lem path value addresses t trie (record {
        node_room = omega (arith, room.node_room);
        element_room = omega (arith, room.element_room);
      }) in
    let (addresses', t', run, trie', sums, total) =
      append_all_from log p.addresses' p.t' p.trie (record {
        node_room = omega (arith, room.node_room, p.nodes_le);
        element_room = omega (arith, room.element_room, p.paths_le);
      }) in
    (
      addresses',
      t',
      append_next path value log t p.t' p.result ∙ run,
      trie',
      λ q.
          omega (
            arith,
            sums q,
            p.sums q,
            value_sum-small q addresses t.nodes,
            share_small q path value,
          ),
      omega (arith, total, p.root_total),
    )

-- A log whose paths have `n` elements together, with 2 n + 1 below 2 ^ 32, can be appended line by
-- line to a new trie. The result is a trie: nodes have addresses such that the root's is empty, a
-- child's is its parent's followed by the keys of the child's own span, every node but the root has
-- an edge to it, an edge's key is the first key of its child, and every span is in range. For every
-- path, the values of the nodes with this address sum up, in 64 bits, to the values that the log has
-- for the path, and the total of the root is the sum of all values of the log.
pub append_all_lem :
    (log : List (List ℕ × ℕ))
    → 1 + 2 * log_size log < 2 ^ 32
    → (addresses : List (List ℕ)) × (t : CompressedTrie) × (append_all log new_trie ≡ some t)
      × IsTrie addresses t
      × ((q : List ℕ) → value_sum q addresses t.nodes ≡ log_sum q log)
      × (u64 (node_at t 0).total ≡ log_total log)
append_all_lem log room =
    let (addresses, t, run, trie, sums, total) =
      append_all_from log ([] ∷ []) new_trie new_trie-IsTrie
        (record { node_room = omega (arith, room); element_room = omega (arith, room) }) in
    (
      addresses,
      t,
      run,
      trie,
      λ q. omega (arith, sums q, zero_sum q, log_sum-small q log),
      omega (arith, total, log_total-small log),
    )
