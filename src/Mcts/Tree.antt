-- ===== src/Mcts/Tree.antt =====
-- class NodeTree of mcts/uct_node.h: the tree that is kept from one move of a game to the next.
use jhbr.Base.{
  ℕ, zero, suc, ◌-◌, Bool, true, false, not, ◌&&◌, List, [], ◌∷◌, ◌==◌, leb, if◌then◌else◌, length,
}
use jhbr.Shogi.Move.{Move}
use jhbr.Mcts.Node.{
  Node, node, nil, edge, vacant, holds, fresh_node, node_bytes, Heap, fetch_add, delete_later,
  delete_slot_later, release_children_except_one,
}

-- `current_head_` is the node `depth` first children below the root.
pub record NodeTree : Type 0 where
  pub root : Node
  pub depth : ℕ
  pub starting_pos_key : ℕ
  pub moves : List Move
  pub has_position : Bool

-- NodeTree::DeallocateTree, once the old root is handed over.
unfoldable pub plant : Heap → NodeTree × Heap
plant h = (
  record { root = fresh_node; depth = 0; starting_pos_key = 0; moves = []; has_position = false },
  fetch_add node_bytes h,
)

unfoldable pub deallocate_tree : NodeTree → Heap → NodeTree × Heap
unfolding plant
deallocate_tree t h = plant (delete_later t.root h)

-- The comparison of the moves so far with the new moves, std::equal over the first range.
unfoldable pub equal_moves : List Move → List Move → Bool
equal_moves [] ns = true
equal_moves (m ∷ ms) [] = false
equal_moves (m ∷ ms) (n ∷ ns) = (m == n) && equal_moves ms ns

unfoldable pub same_game : NodeTree → ℕ → Bool
same_game t key = t.has_position && (t.starting_pos_key == key)

unfoldable pub continues : NodeTree → List Move → Bool
continues t moves = leb (length t.moves) (length moves) && equal_moves t.moves moves

-- The loop over the moves, from a node on: the node as it becomes.
unfoldable pub play : List Move → Node → Heap → Node × Heap
play [] n h = (n, h)
play (m ∷ ms) (node s es) h =
    let r = release_children_except_one m es h in
    let (below, h') = play ms r.selected r.heap in (node s (edge r.kept (holds below) nil), h')

-- A new head in place of the first child of `prev_head`, which is `k` first children below.
unfoldable pub restart_head : ℕ → Node → Heap → Node × Heap
restart_head k (node s nil) h = (node s nil, h)
restart_head zero (node s (edge e slot es)) h =
    (node s (edge e (holds fresh_node) es), fetch_add node_bytes (delete_slot_later slot h))
restart_head (suc k) (node s (edge e vacant es)) h = (node s (edge e vacant es), h)
restart_head (suc k) (node s (edge e (holds n) es)) h =
    let (below, h') = restart_head k n h in (node s (edge e (holds below) es), h')

abbrev pub moved_to : ℕ → NodeTree → Node × Heap → NodeTree × Heap
moved_to depth t (n, h) = (record t { root = n; depth = depth }, h)

-- The moves are played from the root, and the head is restarted where the game went another way.
unfoldable pub advance : Bool → List Move → NodeTree → Heap → NodeTree × Heap
advance restarts moves t h =
    let played = play moves t.root h in
    let cut = restart_head (length moves - 1) played.0 played.1 in
    let moved = moved_to (length moves) t played in
    if restarts
    then (if length moves == 0
        then deallocate_tree moved.0 moved.1
        else moved_to (length moves) t cut)
    else moved

-- NodeTree::ResetToPosition
unfoldable pub reset_to_position : ℕ → List Move → NodeTree → Heap → Bool × NodeTree × Heap
reset_to_position key moves t h =
    let same = same_game t key in
    let can_reuse = same && continues t moves in
    let start = if same then (t, h) else deallocate_tree t h in
    let (u, h') = advance (same && not can_reuse) moves start.0 start.1 in
    (can_reuse, record u { starting_pos_key = key; moves = moves; has_position = true }, h')

-- `current_head_`
unfoldable pub node_at : ℕ → Node → Node
node_at zero n = n
node_at (suc k) (node s nil) = node s nil
node_at (suc k) (node s (edge e vacant es)) = node s (edge e vacant es)
node_at (suc k) (node s (edge e (holds n) es)) = node_at k n

unfoldable pub get_current_head : NodeTree → Node
get_current_head t = node_at t.depth t.root
