-- ===== src/Mcts/Session.antt =====
-- A whole game of resets, searches and collector rounds on one tree.
use jhbr.Base.{ℕ, ◌+◌, ◌≡◌, refl, ◌∙◌, subst, List, [], ◌∷◌, arith}
use jhbr.Shogi.Move.{Move}
use jhbr.Mcts.Node.{
  Node, node, Edges, nil, edge, EdgeStats, NodeStats, Slot, vacant, holds, node_bytes, child_bytes,
  Heap, get_or_create, expand_node, collect,
}
use jhbr.Mcts.Tree.{NodeTree, plant, deallocate_tree, reset_to_position}
use jhbr.Mcts.Memory.{
  Counts, TreeCounts, size_node, size_edges, size_slot, expand_node-Counts, get_or_create-Counts,
  collect-Counts, plant-Counts, deallocate_tree-Counts, reset_to_position-Counts,
}
use jhbr.Mcts.Reuse.{Along, IsPlaced, reset_to_position_lem}

-- What a search does to a node: it marks and counts, expands a node that has no children, and makes
-- the node of an edge, at any depth.
mutual
  pub data Grows : Node → Heap → Node → Heap → Type 0 where
    marks : (s s' : NodeStats) (es : Edges) (h : Heap) → Grows (node s es) h (node s' es) h
    expands :
        (moves : List Move) (s : NodeStats) (h : Heap) {n : Node} {h' : Heap}
        → expand_node moves (node s nil) h ≡ (n, h')
        → Grows (node s nil) h n h'
    within :
        (s : NodeStats) {es es' : Edges} {h h' : Heap}
        → GrowsEdges es h es' h'
        → Grows (node s es) h (node s es') h'

  pub data GrowsEdges : Edges → Heap → Edges → Heap → Type 0 where
    counts :
        (e e' : EdgeStats) (s : Slot) (es : Edges) (h : Heap)
        → e'.move ≡ e.move
        → GrowsEdges (edge e s es) h (edge e' s es) h
    creates :
        (e : EdgeStats) (es : Edges) (h : Heap) {n : Node} {h' : Heap}
        → get_or_create vacant h ≡ (n, h')
        → GrowsEdges (edge e vacant es) h (edge e (holds n) es) h'
    below :
        (e : EdgeStats) (es : Edges) {n n' : Node} {h h' : Heap}
        → Grows n h n' h'
        → GrowsEdges (edge e (holds n) es) h (edge e (holds n') es) h'
    beside :
        (e : EdgeStats) (s : Slot) {es es' : Edges} {h h' : Heap}
        → GrowsEdges es h es' h'
        → GrowsEdges (edge e s es) h (edge e s es') h'

-- The steps of an engine's session.
pub data Step : NodeTree → Heap → NodeTree → Heap → Type 0 where
  resets :
      (key : ℕ) (moves : List Move) (t : NodeTree) (h : Heap)
      → Step t h (reset_to_position key moves t h).1 (reset_to_position key moves t h).2
  deallocates : (t : NodeTree) (h : Heap) → Step t h (deallocate_tree t h).0 (deallocate_tree t h).1
  collects : (t : NodeTree) (h : Heap) → Step t h t (collect h)
  searches :
      (t : NodeTree) {n : Node} {h h' : Heap}
      → Grows t.root h n h'
      → Step t h (record t { root = n }) h'

pub data Session (h : Heap) : NodeTree → Heap → Type 0 where
  starts : Session h (plant h).0 (plant h).1
  goes_on :
      {t : NodeTree} {g : Heap} {t' : NodeTree} {g' : Heap}
      → Session h t g
      → Step t g t' g'
      → Session h t' g'

mutual
  unfolding size_node

  Grows-Counts :
      (live : ℕ) {n n' : Node} {h h' : Heap}
      → Grows n h n' h'
      → Counts (live + size_node n) h
      → Counts (live + size_node n') h'
  Grows-Counts live (marks s s' es h) c = c
  Grows-Counts live (expands moves s h {n} {h'} e) c =
      subst (λ (r : Node × Heap). Counts (live + size_node r.0) r.1) e
        (expand_node-Counts live moves s h c)
  Grows-Counts live (within s g) c =
      omega (arith, GrowsEdges-Counts (live + node_bytes) g (omega arith))

  GrowsEdges-Counts :
      (live : ℕ) {es es' : Edges} {h h' : Heap}
      → GrowsEdges es h es' h'
      → Counts (live + size_edges es) h
      → Counts (live + size_edges es') h'
  GrowsEdges-Counts live (counts e e' s es h m) c = c
  GrowsEdges-Counts live (creates e es h {n} {h'} q) c =
      let made = get_or_create-Counts (live + child_bytes + size_edges es) vacant h (omega arith) in
      omega (
        arith,
        subst (λ (r : Node × Heap). Counts (live + child_bytes + size_edges es + size_node r.0) r.1)
            q made,
      )
  GrowsEdges-Counts live (below e es g) c =
      omega (arith, Grows-Counts (live + child_bytes + size_edges es) g (omega arith))
  GrowsEdges-Counts live (beside e s g) c =
      omega (arith, GrowsEdges-Counts (live + child_bytes + size_slot s) g (omega arith))

Step-TreeCounts :
    (other : ℕ) {t : NodeTree} {g : Heap} {t' : NodeTree} {g' : Heap}
    → Step t g t' g'
    → TreeCounts other t g
    → TreeCounts other t' g'
Step-TreeCounts other (resets key moves t h) c = reset_to_position-Counts other key moves t h c
Step-TreeCounts other (deallocates t h) c = deallocate_tree-Counts other t h c
Step-TreeCounts other (collects t h) c = collect-Counts (other + size_node t.root) h c
Step-TreeCounts other (searches t g) c = Grows-Counts other g c

-- Over any session on a tree, TreeMemory counts what was live elsewhere at the start and every node
-- and edge of the tree and of the branches that wait for the collector, modulo 2^64.
pub Session-TreeCounts :
    (other : ℕ) {h g : Heap} {t : NodeTree} → Counts other h → Session h t g → TreeCounts other t g
Session-TreeCounts other {h} c starts = plant-Counts other h c
Session-TreeCounts other c (goes_on s st) = Step-TreeCounts other st (Session-TreeCounts other c s)

-- A search leaves single children that moves lead down.
mutual
  unfolding expand_node

  Grows-Along :
      (ms : List Move) {n n' : Node} {h h' : Heap} → Grows n h n' h' → Along ms n → Along ms n'
  Grows-Along [] g a = tt
  Grows-Along (m ∷ ms) (marks s s' es h) a = a
  Grows-Along (m ∷ ms) (expands moves s h e) a = absurd a
  Grows-Along (m ∷ ms) (within s g) a = GrowsEdges-Along m ms s g a

  GrowsEdges-Along :
      (m : Move) (ms : List Move) (s : NodeStats) {es es' : Edges} {h h' : Heap}
      → GrowsEdges es h es' h'
      → Along (m ∷ ms) (node s es)
      → Along (m ∷ ms) (node s es')
  GrowsEdges-Along m ms s (counts e e' (holds n) nil h q) a = (q ∙ a.0, a.1)
  GrowsEdges-Along m ms s (counts e e' vacant es h q) a = absurd a
  GrowsEdges-Along m ms s (counts e e' (holds n) (edge f t es) h q) a = absurd a
  GrowsEdges-Along m ms s (creates e es h q) a = absurd a
  GrowsEdges-Along m ms s (below e nil g) a = (a.0, Grows-Along ms g a.1)
  GrowsEdges-Along m ms s (below e (edge f t es) g) a = absurd a
  GrowsEdges-Along m ms s (beside e vacant g) a = absurd a
  GrowsEdges-Along m ms s (beside e (holds n) {es = nil} g) a = elim g [ ]
  GrowsEdges-Along m ms s (beside e (holds n) {es = edge f t es} g) a = absurd a

-- Over any session the moves of the tree lead down single children from its root to its head.
pub Session-IsPlaced : {h g : Heap} {t : NodeTree} → Session h t g → IsPlaced t
unfolding deallocate_tree plant
Session-IsPlaced starts = record { along = tt; depth = refl }
Session-IsPlaced (goes_on s st) = Step-IsPlaced st (Session-IsPlaced s)
  where
    Step-IsPlaced :
        {t : NodeTree} {g : Heap} {t' : NodeTree} {g' : Heap}
        → Step t g t' g'
        → IsPlaced t
        → IsPlaced t'
    Step-IsPlaced (resets key moves t h) p = (reset_to_position_lem key moves t h p).0
    Step-IsPlaced (deallocates t h) p = record { along = tt; depth = refl }
    Step-IsPlaced (collects t h) p = p
    Step-IsPlaced (searches t g) p = record {
      along = Grows-Along t.moves g p.along;
      depth = p.depth;
    }
