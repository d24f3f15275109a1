-- ===== src/Mcts/Memory.antt =====
-- What TreeMemory counts: every live node, in the tree or waiting for the collector.
use jhbr.Base.{
  ℕ, zero, suc, ◌+◌, ◌-◌, ◌*◌, ◌%◌, ◌^◌, ◌≤◌, ◌≡◌, refl, ap, Bool, true, false, not, Option, none,
  some, List, [], ◌∷◌, ◌++◌, arith, length, Bool-cases, inl, inr, if◌then◌else◌, ◌==◌, ltb,
}
use jhbr.Shogi.Move.{Move}
use jhbr.Mcts.Node.{
  Node, node, Edges, nil, edge, EdgeStats, NodeStats, Slot, vacant, holds, node_bytes, child_bytes,
  child_num, Heap, fetch_add, fetch_sub, destroy, destroy_edges, destroy_slot, delete_later,
  delete_slot_later, collect, collect_from, get_or_create, edges_of, expand_node,
  create_single_child_node, find_child, release_slots, release_siblings, emptied, Released,
  release_found, release_missing, release_children_except_one,
}
use jhbr.Mcts.Tree.{
  NodeTree, plant, deallocate_tree, play, restart_head, advance, reset_to_position, same_game,
  continues,
}

-- The bytes of a node and all below it.
unfoldable mutual
  pub size_node : Node → ℕ
  size_node (node s es) = node_bytes + size_edges es

  pub size_edges : Edges → ℕ
  size_edges nil = 0
  size_edges (edge e s es) = child_bytes + size_slot s + size_edges es

  pub size_slot : Slot → ℕ
  size_slot vacant = 0
  size_slot (holds n) = size_node n

unfoldable pub size_pending : List Node → ℕ
size_pending [] = 0
size_pending (n ∷ ns) = size_node n + size_pending ns

-- The counter is `live` and what is pending, as 64 bits hold it.
abbrev pub Counts : ℕ → Heap → Type 0
Counts live h = h.bytes ≡ (live + size_pending h.pending) % 2 ^ 64

pub size_pending-append :
    (ns : List Node) (n : Node) → size_pending (ns ++ (n ∷ [])) ≡ size_pending ns + size_node n
unfolding size_pending
size_pending-append [] n = omega arith
size_pending-append (x ∷ ns) n = omega (arith, size_pending-append ns n)

fetch_add-Counts : (live n : ℕ) (h : Heap) → Counts live h → Counts (live + n) (fetch_add n h)
unfolding fetch_add
fetch_add-Counts live n h c = omega arith

fetch_sub-Counts : (live n : ℕ) (h : Heap) → Counts (live + n) h → Counts live (fetch_sub n h)
unfolding fetch_sub
fetch_sub-Counts live n h c = omega arith

delete_slot_later-Counts :
    (live : ℕ) (s : Slot) (h : Heap)
    → Counts (live + size_slot s) h
    → Counts live (delete_slot_later s h)
unfolding delete_slot_later delete_later size_slot
delete_slot_later-Counts live vacant h c = omega arith
delete_slot_later-Counts live (holds n) h c = omega (arith, size_pending-append h.pending n)

child_bytes-le : (es : Edges) → child_num es * child_bytes ≤ size_edges es
unfolding size_edges
child_bytes-le nil = omega arith
child_bytes-le (edge e s es) = omega (arith, child_bytes-le es)

-- What the slots of an array hold.
unfoldable pub size_slots : Edges → ℕ
size_slots nil = 0
size_slots (edge e s es) = size_slot s + size_slots es

size_edges-slots : (es : Edges) → size_edges es ≡ child_num es * child_bytes + size_slots es
unfolding size_edges size_slots
size_edges-slots nil = omega arith
size_edges-slots (edge e s es) = omega (arith, size_edges-slots es)

size_slots-emptied : (es : Edges) → size_slots (emptied es) ≡ 0
unfolding size_slots size_slot
size_slots-emptied nil = refl
size_slots-emptied (edge e s es) = omega (arith, size_slots-emptied es)

child_num-emptied : (es : Edges) → child_num (emptied es) ≡ child_num es
child_num-emptied nil = refl
child_num-emptied (edge e s es) = omega (arith, child_num-emptied es)

mutual
  unfolding destroy size_node size_slots

  destroy-Counts :
      (live : ℕ) (n : Node) (h : Heap) → Counts (live + size_node n) h → Counts live (destroy n h)
  destroy-Counts live (node s es) h c = destroy_edges-Counts live es _ (
      fetch_sub-Counts (live + size_slots es) (node_bytes + child_num es * child_bytes) h
        (omega (arith, size_edges-slots es)))

  destroy_edges-Counts :
      (live : ℕ) (es : Edges) (h : Heap)
      → Counts (live + size_slots es) h
      → Counts live (destroy_edges es h)
  destroy_edges-Counts live nil h c = omega arith
  destroy_edges-Counts live (edge e s es) h c =
      destroy_edges-Counts live es _ (destroy_slot-Counts (live + size_slots es) s h (omega arith))

  destroy_slot-Counts :
      (live : ℕ) (s : Slot) (h : Heap)
      → Counts (live + size_slot s) h
      → Counts live (destroy_slot s h)
  destroy_slot-Counts live vacant h c = omega arith
  destroy_slot-Counts live (holds n) h c = destroy-Counts live n h c

-- Another round of the collector frees what the counter had for its branch.
pub collect-Counts : (live : ℕ) (h : Heap) → Counts live h → Counts live (collect h)
unfolding collect size_pending
collect-Counts live h c = from h.pending refl
  where
    from : (ns : List Node) → h.pending ≡ ns → Counts live (collect_from ns h)
    from [] e = c
    from (n ∷ ns) e = destroy-Counts live n _ (omega (arith, c, ap size_pending e))

-- Expanding a node that has no children counts their array.
pub expand_node-Counts :
    (live : ℕ) (moves : List Move) (s : NodeStats) (h : Heap)
    → Counts (live + size_node (node s nil)) h
    → Counts
        (live + size_node (expand_node moves (node s nil) h).0)
        (expand_node moves (node s nil) h).1
unfolding expand_node size_node destroy
expand_node-Counts live moves s h c = omega (
  arith,
  size_edges_of moves,
  fetch_add-Counts (live + node_bytes) (length moves * child_bytes) h c,
)
  where
    size_edges_of : (ms : List Move) → size_edges (edges_of ms) ≡ length ms * child_bytes
    size_edges_of [] = refl
    size_edges_of (m ∷ ms) = omega (arith, size_edges_of ms)

pub get_or_create-Counts :
    (live : ℕ) (s : Slot) (h : Heap)
    → Counts (live + size_slot s) h
    → Counts (live + size_node (get_or_create s h).0) (get_or_create s h).1
unfolding get_or_create size_node
get_or_create-Counts live vacant h c = fetch_add-Counts live node_bytes h (omega arith)
get_or_create-Counts live (holds n) h c = c

release_slots-Counts :
    (live : ℕ) (es : Edges) (h : Heap)
    → Counts (live + size_slots es) h
    → Counts live (release_slots es h)
unfolding release_slots size_slots
release_slots-Counts live nil h c = omega arith
release_slots-Counts live (edge e s es) h c =
    release_slots-Counts live es _
      (delete_slot_later-Counts (live + size_slots es) s h (omega arith))

-- The slots but that of the first child with the move.
release_siblings-Counts :
    (live : ℕ) (m : Move) (es : Edges) {e : EdgeStats} {s : Slot} (h : Heap)
    → find_child m es ≡ some (e, s)
    → Counts (live + size_slots es) h
    → Counts (live + size_slot s) (release_siblings m es h)
unfolding release_siblings find_child size_slots
release_siblings-Counts live m nil h found c = cc
release_siblings-Counts live m (edge f t es) h found c = elim (Bool-cases (f.move == m)) [
  | inl here ↦ rw here (release_slots-Counts _ es h (ground (arith, found, here)))
  | inr there ↦ rw there (
      release_siblings-Counts live m es _ (rw there at found)
        (delete_slot_later-Counts (live + size_slots es) t h (omega arith)))
]

-- The children of a node, and after the release one of them.
abbrev OneChild : ℕ → Released → Type 0
OneChild live r = Counts (live + child_bytes + size_node r.selected) r.heap

found_slots :
    (m : Move) (es : Edges) {e : EdgeStats} {s : Slot}
    → find_child m es ≡ some (e, s)
    → (size_slot s ≤ size_slots es) × (1 ≤ child_num es)
unfolding find_child size_slots
found_slots m nil found = cc
found_slots m (edge f t es) found = elim (Bool-cases (f.move == m)) [
  | inl here ↦ ground (arith, found, here)
  | inr there ↦ let (a, b) = found_slots m es (rw there at found) in (omega arith, omega arith)
]

create_single-Counts :
    (live : ℕ) (es : Edges) (h : Heap)
    → Counts (live + child_num es * child_bytes + size_slots es) h
    → Counts (live + child_bytes) (create_single_child_node es h)
unfolding create_single_child_node
create_single-Counts live es h c = destroy_edges-Counts (live + child_bytes) es _ array
  where
    array : Counts (live + child_bytes + size_slots es) (
        if ltb 1 (child_num es)
        then fetch_sub ((child_num es - 1) * child_bytes) h
        else if child_num es == 0
        then fetch_add child_bytes h
        else h)
    array = ground (
      arith,
      fetch_sub-Counts (live + child_bytes + size_slots es) ((child_num es - 1) * child_bytes) h,
      fetch_add-Counts (live + size_slots es) child_bytes h,
    )

get_or_create-grows : (s : Slot) (h : Heap) → size_slot s ≤ size_node (get_or_create s h).0
unfolding get_or_create size_slot
get_or_create-grows vacant h = omega arith
get_or_create-grows (holds n) h = omega arith

release_missing-Counts :
    (live : ℕ) (m : Move) (es : Edges) (h : Heap)
    → Counts (live + size_edges es) h
    → OneChild live (release_missing m es h)
unfolding release_missing size_slot
release_missing-Counts live m es h c = get_or_create-Counts (live + child_bytes) vacant _ (
    omega (
      arith,
      size_slots-emptied es,
      create_single-Counts live (emptied es) (release_slots es h) (
          omega (
            arith,
            size_slots-emptied es,
            child_num-emptied es,
            size_edges-slots es,
            release_slots-Counts (live + child_num es * child_bytes) es h
                (omega (arith, size_edges-slots es)),
          )),
    ))

release_found-Counts :
    (live : ℕ) (m : Move) (es : Edges) (e : EdgeStats) (s : Slot) (h : Heap)
    → find_child m es ≡ some (e, s)
    → Counts (live + size_edges es) h
    → OneChild live (release_found m es e s h)
unfolding release_found
release_found-Counts live m es e s h found c =
    let (le, some_child) = found_slots m es found in
    let got = get_or_create s h in
    let grows = get_or_create-grows s h in
    let array = child_num es * child_bytes in
    let taken =
      get_or_create-Counts (live + array + (size_slots es - size_slot s)) s h
        (omega (arith, size_edges-slots es)) in
    let others =
      release_siblings-Counts (live + array + (size_node got.0 - size_slot s)) m es got.1 found
        (omega (arith, taken)) in
    fetch_sub-Counts (live + child_bytes + size_node got.0) ((child_num es - 1) * child_bytes) _
      (omega (arith, others))

pub release-Counts :
    (live : ℕ) (m : Move) (es : Edges) (h : Heap)
    → Counts (live + size_edges es) h
    → OneChild live (release_children_except_one m es h)
unfolding release_children_except_one size_edges size_slots
release-Counts live m nil h c =
    get_or_create-Counts (live + child_bytes) vacant _
      (omega (arith, create_single-Counts live nil h (omega arith)))
release-Counts live m (edge e s nil) h c = elim (Bool-cases (e.move == m)) [
  | inl here ↦ rw here (get_or_create-Counts (live + child_bytes) s h (omega arith))
  | inr there ↦ rw there (release_missing-Counts live m (edge e s nil) h c)
]
release-Counts live m (edge e s (edge e' s' es)) h c =
    chosen (find_child m (edge e s (edge e' s' es))) refl
  where
    chosen :
        (o : Option (EdgeStats × Slot))
        → find_child m (edge e s (edge e' s' es)) ≡ o
        → OneChild live (release_children_except_one m (edge e s (edge e' s' es)) h)
    chosen none f =
        rw (f, release_children_except_one)
          (release_missing-Counts live m (edge e s (edge e' s' es)) h c)
    chosen (some (g, t)) f =
        rw (f, release_children_except_one)
          (release_found-Counts live m (edge e s (edge e' s' es)) g t h f c)

-- Playing moves from a node on.
pub play-Counts :
    (live : ℕ) (ms : List Move) (n : Node) (h : Heap)
    → Counts (live + size_node n) h
    → Counts (live + size_node (play ms n h).0) (play ms n h).1
unfolding play size_node
play-Counts live [] n h c = c
play-Counts live (m ∷ ms) (node s es) h c =
    let r = release_children_except_one m es h in
    let one = release-Counts (live + node_bytes) m es h (omega arith) in
    omega (
      arith,
      play-Counts (live + node_bytes + child_bytes) ms r.selected r.heap (omega (arith, one)),
    )

restart_head-Counts :
    (live k : ℕ) (n : Node) (h : Heap)
    → Counts (live + size_node n) h
    → Counts (live + size_node (restart_head k n h).0) (restart_head k n h).1
unfolding restart_head size_node
restart_head-Counts live k (node s nil) h c = c
restart_head-Counts live zero (node s (edge e t es)) h c =
    let others = live + node_bytes + child_bytes + size_edges es in
    omega (
      arith,
      fetch_add-Counts others node_bytes _ (delete_slot_later-Counts others t h (omega arith)),
    )
restart_head-Counts live (suc k) (node s (edge e vacant es)) h c = c
restart_head-Counts live (suc k) (node s (edge e (holds n) es)) h c = omega (
  arith,
  restart_head-Counts (live + node_bytes + child_bytes + size_edges es) k n h (omega arith),
)

-- The counter of a tree, beside `other` bytes of other trees.
abbrev pub TreeCounts : ℕ → NodeTree → Heap → Type 0
TreeCounts other t h = Counts (other + size_node t.root) h

pub plant-Counts :
    (other : ℕ) (h : Heap) → Counts other h → TreeCounts other (plant h).0 (plant h).1
unfolding plant size_node
plant-Counts other h c = omega (arith, fetch_add-Counts other node_bytes h c)

pub deallocate_tree-Counts :
    (other : ℕ) (t : NodeTree) (h : Heap)
    → TreeCounts other t h
    → TreeCounts other (deallocate_tree t h).0 (deallocate_tree t h).1
unfolding deallocate_tree size_slot size_node delete_later delete_slot_later
deallocate_tree-Counts other t h c =
    plant-Counts other _ (delete_slot_later-Counts other (holds t.root) h c)

advance-Counts :
    (other : ℕ) (restarts : Bool) (moves : List Move) (t : NodeTree) (h : Heap)
    → TreeCounts other t h
    → TreeCounts other (advance restarts moves t h).0 (advance restarts moves t h).1
unfolding advance
advance-Counts other false moves t h c = play-Counts other moves t.root h c
advance-Counts other true moves t h c = elim (Bool-cases (length moves == 0)) [
  | inl empty ↦ rw empty (deallocate_tree-Counts other _ _ (play-Counts other moves t.root h c))
  | inr _moved ↦
      rw _moved
        (restart_head-Counts other (length moves - 1) _ _ (play-Counts other moves t.root h c))
]

-- ResetToPosition keeps the count.
pub reset_to_position-Counts :
    (other key : ℕ) (moves : List Move) (t : NodeTree) (h : Heap)
    → TreeCounts other t h
    → TreeCounts other (reset_to_position key moves t h).1 (reset_to_position key moves t h).2
unfolding reset_to_position
reset_to_position-Counts other key moves t h c = elim (Bool-cases (same_game t key)) [
  | inl same ↦ rw same (advance-Counts other (not (continues t moves)) moves t h c)
  | inr new ↦ rw new (advance-Counts other false moves _ _ (deallocate_tree-Counts other t h c))
]
