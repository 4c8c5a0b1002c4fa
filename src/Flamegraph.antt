-- ===== src/Flamegraph.antt =====
-- `CompressedTrie` of source/flamegraph/src/graph.h: the paths of a flame graph, appended one by one.
--
-- The two deques are lists, and a node is its index. The hash map of a node's edges is an association
-- list, since no operation here reads its order. Ids and spans are `uint32_t`; an `int64_t` value is
-- kept by its bit pattern. The loop of `Append` takes fuel: every round but the first consumes an
-- element of the path.
pub mod Spans
pub mod Sums
pub mod Shape
pub mod ShapeSplit
pub mod ShapeGrown
pub mod Splitting
pub mod Descent
pub mod Growth
pub mod Matching
pub mod Appending
pub mod Loop
pub mod Contents
pub mod Log
mod Tests
use mem_hawk.Prelude.{
  ℕ, zero, suc, ◌+◌, ◌-◌, ◌^◌, List, [], ◌∷◌, ◌++◌, Option, none, some, ◌==◌, if◌then◌else◌, u32,
  add64, length, get_or, set, take, drop,
}
use mem_hawk.Prelude.Maps.{find?, insert}

pub record PathSpan : Type 0 where
  pub begin : ℕ
  pub end : ℕ

unfoldable pub span_size : PathSpan → ℕ
span_size s = u32 (s.end + 2 ^ 32 - s.begin)

abbrev pub offset : PathSpan → ℕ → PathSpan
offset s count = record { begin = u32 (s.begin + count); end = s.end }

abbrev pub first : PathSpan → ℕ → PathSpan
first s count = record { begin = s.begin; end = u32 (s.begin + count) }

pub record Node : Type 0 where
  pub path : PathSpan
  pub edges : List (ℕ × ℕ)
  pub total : ℕ
  pub value : ℕ

abbrev pub empty_node : Node
empty_node = record { path = record { begin = 0; end = 0 }; edges = []; total = 0; value = 0 }

pub record CompressedTrie : Type 0 where
  pub nodes : List Node
  pub paths : List ℕ

abbrev pub new_trie : CompressedTrie
new_trie = record { nodes = empty_node ∷ []; paths = [] }

-- `m_nodes[id]`
abbrev pub node_at : CompressedTrie → ℕ → Node
node_at t id = get_or t.nodes id empty_node

-- The elements of a `DequeSpan`.
unfoldable pub span_elements : List ℕ → PathSpan → List ℕ
span_elements paths s = take (span_size s) (drop s.begin paths)

-- The loop of `SplitPath`.
unfoldable pub match_length : List ℕ → List ℕ → ℕ
match_length [] ys = 0
match_length (x ∷ xs) [] = 0
match_length (x ∷ xs) (y ∷ ys) = if x == y then suc (match_length xs ys) else 0

-- The rest of `SplitPath`, where the node's path is not matched whole.
unfoldable pub split_node : ℕ → ℕ → CompressedTrie → CompressedTrie
split_node root matched t =
    let node = node_at t root in
    let key = get_or t.paths (node.path.begin + matched) 0 in
    let leftover_node_id = u32 (length t.nodes) in
    let leftover_node = record node { path = offset node.path matched } in
    let matched_node = record node {
      path = first node.path matched;
      edges = (key, leftover_node_id) ∷ [];
      value = 0;
    } in
    record t { nodes = set t.nodes root matched_node ++ (leftover_node ∷ []) }

unfoldable pub split_path : ℕ → List ℕ → CompressedTrie → CompressedTrie × ℕ
split_path root path t =
    let span = (node_at t root).path in
    let matched = match_length path (span_elements t.paths span) in
    if matched == span_size span then (t, matched) else (split_node root matched t, matched)

unfoldable pub create_path : List ℕ → CompressedTrie → CompressedTrie × PathSpan
create_path path t = (
  record t { paths = t.paths ++ path },
  record { begin = u32 (length t.paths); end = u32 (length t.paths + length path) },
)

-- A node for the rest of the path, and the edge that leads to it.
unfoldable pub create_node : ℕ → ℕ → List ℕ → CompressedTrie → CompressedTrie × ℕ
create_node root key path t =
    let next_node_id = u32 (length t.nodes) in
    let (t', span) = create_path path t in
    let node = node_at t root in
    let parent = record node { edges = insert key next_node_id node.edges } in
    (
      record t' { nodes = set t.nodes root parent ++ (record empty_node { path = span } ∷ []) },
      next_node_id,
    )

unfoldable pub add_total : ℕ → ℕ → CompressedTrie → CompressedTrie
add_total root value t =
    let node = node_at t root in
    record t { nodes = set t.nodes root (record node { total = add64 node.total value }) }

-- The end of a round of `Append`: the child that the round goes on with.
unfoldable pub next_node : ℕ → ℕ → List ℕ → ℕ → CompressedTrie → CompressedTrie × ℕ
next_node root key path value t =
    let t' = add_total root value t in
    elim (find? key (node_at t' root).edges) [
      | some child ↦ (t', child)
      | none ↦ create_node root key path t'
    ]

-- The loop of `Append`: the trie and the node at its end. `none` means that the fuel ran out.
unfoldable pub append_loop : ℕ → ℕ → List ℕ → ℕ → CompressedTrie → Option (CompressedTrie × ℕ)
append_loop zero root path value t = none
append_loop (suc fuel) root [] value t = some (t, root)
append_loop (suc fuel) root (x ∷ xs) value t =
    let (t', matched) = split_path root (x ∷ xs) t in
    elim (drop matched (x ∷ xs)) [
      | [] ↦ some (t', root)
      | key ∷ more ↦
          let (t'', next) = next_node root key (key ∷ more) value t' in
          append_loop fuel next (key ∷ more) value t''
    ]

unfoldable pub append : List ℕ → ℕ → CompressedTrie → Option CompressedTrie
append path value t = elim (append_loop (length path + 2) 0 path value t) [
  | none ↦ none
  | some (t', root) ↦
      let node = node_at t' root in
      some (record t' {
        nodes =
            set t'.nodes root
              (record node { total = add64 node.total value; value = add64 node.value value });
      })
]

unfoldable pub append_all : List (List ℕ × ℕ) → CompressedTrie → Option CompressedTrie
append_all [] t = some t
append_all ((path, value) ∷ lines) t = elim (append path value t) [
  | none ↦ none
  | some t' ↦ append_all lines t'
]
