-- ===== src/Mcts/Node.antt =====
-- mcts/uct_node.h and mcts/uct_node.cc: nodes, edges, the collector of discarded branches and the
-- tree of a game. A node owns its children, so that the tree is a value; floats are bit patterns.
use jhbr.Base.{
  ℕ, suc, ◌+◌, ◌-◌, ◌*◌, ◌%◌, ◌^◌, Bool, not, Option, none, some, List, [], ◌∷◌, ◌++◌, ◌==◌, ltb,
  if◌then◌else◌, length, u64,
}
use jhbr.Shogi.Move.{Move}

-- child_node_t without its node.
pub record EdgeStats : Type 0 where
  pub move : Move
  pub nnrate : ℕ
  pub move_count : ℕ
  pub win : ℕ
  pub flags : ℕ

-- uct_node_t without its children.
pub record NodeStats : Type 0 where
  pub state : ℕ
  pub move_count : ℕ
  pub win : ℕ
  pub visited_nnrate : ℕ

-- uct_node_t, its array of children and child_node_slot_t. `child_num` is the length of the array.
mutual
  pub data Node : Type 0 where
    node : NodeStats → Edges → Node

  pub data Edges : Type 0 where
    nil : Edges
    edge : EdgeStats → Slot → Edges → Edges

  pub data Slot : Type 0 where
    vacant : Slot
    holds : Node → Slot

-- sizeof(uct_node_t) and sizeof(child_node_t), as the layout of a 64-bit target has them.
abbrev pub node_bytes : ℕ
node_bytes = 32

abbrev pub child_bytes : ℕ
child_bytes = 24

abbrev pub k_fresh : ℕ
k_fresh = 0

abbrev pub k_evaluated : ℕ
k_evaluated = 1

abbrev pub k_expanded : ℕ
k_expanded = 2

unfoldable pub is_evaled : NodeStats → Bool
is_evaled s = not (s.state == k_fresh)

unfoldable pub is_expanded : NodeStats → Bool
is_expanded s = s.state == k_expanded

-- A new uct_node_t and a new child_node_t.
abbrev pub fresh_node : Node
fresh_node = node (record { state = k_fresh; move_count = 0; win = 0; visited_nnrate = 0 }) nil

abbrev pub fresh_edge : Move → EdgeStats
fresh_edge m = record { move = m; nnrate = 0; move_count = 0; win = 0; flags = 0 }

abbrev pub child_num : Edges → ℕ
child_num nil = 0
child_num (edge e s es) = suc (child_num es)

-- TreeMemory::Bytes and the queue of the collector.
pub record Heap : Type 0 where
  pub bytes : ℕ
  pub pending : List Node

unfoldable pub fetch_add : ℕ → Heap → Heap
fetch_add n h = record h { bytes = u64 (h.bytes + n) }

unfoldable pub fetch_sub : ℕ → Heap → Heap
fetch_sub n h = record h { bytes = u64 (h.bytes + 2 ^ 64 - n % 2 ^ 64) }

-- ~uct_node_t, of a node and all below it.
unfoldable mutual
  pub destroy : Node → Heap → Heap
  destroy (node s es) h = destroy_edges es (fetch_sub (node_bytes + child_num es * child_bytes) h)

  pub destroy_edges : Edges → Heap → Heap
  destroy_edges nil h = h
  destroy_edges (edge e s es) h = destroy_edges es (destroy_slot s h)

  pub destroy_slot : Slot → Heap → Heap
  destroy_slot vacant h = h
  destroy_slot (holds n) h = destroy n h

-- NodeGarbageCollector::DeleteLater, and a round of Run.
unfoldable pub delete_later : Node → Heap → Heap
delete_later n h = record h { pending = h.pending ++ (n ∷ []) }

unfoldable pub delete_slot_later : Slot → Heap → Heap
delete_slot_later vacant h = h
delete_slot_later (holds n) h = delete_later n h

abbrev pub collect_from : List Node → Heap → Heap
collect_from [] h = h
collect_from (n ∷ rest) h = destroy n (record h { pending = rest })

unfoldable pub collect : Heap → Heap
collect h = collect_from h.pending h

-- child_node_slot_t::GetOrCreate, with no other thread at work.
unfoldable pub get_or_create : Slot → Heap → Node × Heap
get_or_create vacant h = (fresh_node, fetch_add node_bytes h)
get_or_create (holds n) h = (n, h)

-- uct_node_t::ExpandNode of a list of moves: the new array, and the old one destroyed.
abbrev pub edges_of : List Move → Edges
edges_of [] = nil
edges_of (m ∷ ms) = edge (fresh_edge m) vacant (edges_of ms)

unfoldable pub expand_node : List Move → Node → Heap → Node × Heap
expand_node moves (node s es) h =
    (node s (edges_of moves), fetch_add (length moves * child_bytes) (destroy_edges es h))

-- uct_node_t::CreateSingleChildNode, on the children that the node has.
unfoldable pub create_single_child_node : Edges → Heap → Heap
create_single_child_node es h = destroy_edges es (
    if ltb 1 (child_num es)
    then fetch_sub ((child_num es - 1) * child_bytes) h
    else if child_num es == 0
    then fetch_add child_bytes h
    else h)

-- The first child with a move.
unfoldable pub find_child : Move → Edges → Option (EdgeStats × Slot)
find_child m nil = none
find_child m (edge e s es) = let rest = find_child m es in if e.move == m then some (e, s) else rest

-- The loops of ReleaseChildrenExceptOne that hand slots to the collector: all, or all but the first
-- child with the move.
unfoldable pub release_slots : Edges → Heap → Heap
release_slots nil h = h
release_slots (edge e s es) h = release_slots es (delete_slot_later s h)

unfoldable pub release_siblings : Move → Edges → Heap → Heap
release_siblings m nil h = h
release_siblings m (edge e s es) h =
    let found = release_slots es h in
    let rest = release_siblings m es (delete_slot_later s h) in if e.move == m then found else rest

-- The children after their slots were taken.
abbrev pub emptied : Edges → Edges
emptied nil = nil
emptied (edge e s es) = edge e vacant (emptied es)

-- What ReleaseChildrenExceptOne leaves: one child, of these statistics, that holds this node.
pub record Released : Type 0 where
  pub kept : EdgeStats
  pub selected : Node
  pub heap : Heap

abbrev pub released : EdgeStats → Node × Heap → Released
released e (n, h) = record { kept = e; selected = n; heap = h }

unfoldable pub release_found : Move → Edges → EdgeStats → Slot → Heap → Released
release_found m es e s h =
    let got = get_or_create s h in
    released e (got.0, fetch_sub ((child_num es - 1) * child_bytes) (release_siblings m es got.1))

unfoldable pub release_missing : Move → Edges → Heap → Released
release_missing m es h =
    released (fresh_edge m)
      (get_or_create vacant (create_single_child_node (emptied es) (release_slots es h)))

-- uct_node_t::ReleaseChildrenExceptOne
unfoldable pub release_children_except_one : Move → Edges → Heap → Released
release_children_except_one m nil h =
    released (fresh_edge m) (get_or_create vacant (create_single_child_node nil h))
release_children_except_one m (edge e s nil) h =
    if e.move == m then released e (get_or_create s h) else release_missing m (edge e s nil) h
release_children_except_one m (edge e s (edge e' s' es)) h =
    elim (find_child m (edge e s (edge e' s' es))) [
      | some (f, t) ↦ release_found m (edge e s (edge e' s' es)) f t h
      | none ↦ release_missing m (edge e s (edge e' s' es)) h
    ]
