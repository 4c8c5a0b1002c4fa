-- ===== src/StacktraceTree.antt =====
-- `StacktraceTree` of source/memhawk/src/impl/stacktrace_tree.h.
--
-- Frames, `PtrId`s and `NodeId`s are numbers; both ids are `uint32_t`. The three maps are
-- association lists, since no operation reads their order. `index` passes the callback's own state
-- along as `out`, so that each client models its lambda.
use mem_hawk.Prelude.{
  ℕ, ◌+◌, List, [], ◌∷◌, reverse, Option, none, some, ◌&&◌, ◌==◌, if◌then◌else◌, u32, length,
}
use mem_hawk.Prelude.Maps.{find?, insert}

pub record Edge : Type 0 where
  pub parent : ℕ
  pub ptr : ℕ
  pub child : ℕ

pub record Tree : Type 0 where
  pub nodes_counter : ℕ
  pub edges : List Edge
  pub ptr_map : List (ℕ × ℕ)
  pub rev_ptr_map : List (ℕ × ℕ)

abbrev pub empty : Tree
empty = record { nodes_counter = 1; edges = []; ptr_map = []; rev_ptr_map = [] }

unfoldable pub find_edge : ℕ → ℕ → List Edge → Option ℕ
find_edge node ptr [] = none
find_edge node ptr (e ∷ es) =
    if e.parent == node && e.ptr == ptr then some e.child else find_edge node ptr es

-- The tree after the call, and the id.
unfoldable pub get_ptr_id : ℕ → Tree → Tree × ℕ
get_ptr_id ptr_value t = elim (find? ptr_value t.ptr_map) [
  | some id ↦ (t, id)
  | none ↦ (
    record t {
      ptr_map = insert ptr_value (u32 (length t.ptr_map)) t.ptr_map;
      rev_ptr_map = insert (u32 (length t.ptr_map)) ptr_value t.rev_ptr_map;
    },
    u32 (length t.ptr_map),
  )
]

-- `none` is the exception of `at`.
unfoldable pub get_ptr_value : ℕ → Tree → Option ℕ
get_ptr_value ptr_id t = find? ptr_id t.rev_ptr_map

-- The variables of the loop of `index`.
pub record Walk {ℓ} (S : Type ℓ) : Type ℓ where
  pub tree : Tree
  pub out : S
  pub node : ℕ

module _ {ℓ} {S : Type ℓ} (on_new_node : ℕ → ℕ → ℕ → S → S) where
  -- The part of a round that follows `GetPtrId`.
  unfoldable pub follow : ℕ → ℕ → Tree → Walk S → Walk S
  follow ptr id t w = elim (find_edge w.node id t.edges) [
    | some child ↦ record w { tree = t; node = child }
    | none ↦ record {
      tree = record t {
        nodes_counter = u32 (t.nodes_counter + 1);
        edges = record { parent = w.node; ptr = id; child = t.nodes_counter } ∷ t.edges;
      };
      out = on_new_node ptr id w.node w.out;
      node = t.nodes_counter;
    }
  ]

  -- One round of the loop.
  unfoldable pub visit : ℕ → Walk S → Walk S
  visit ptr w = let (t, id) = get_ptr_id ptr w.tree in if ptr == 0 then w else follow ptr id t w

  unfoldable pub visit_all : List ℕ → Walk S → Walk S
  visit_all [] w = w
  visit_all (ptr ∷ ptrs) w = visit_all ptrs (visit ptr w)

  unfoldable pub index : List ℕ → Tree → S → Walk S
  index frames t out = visit_all (reverse frames) (record { tree = t; out = out; node = 0 })
