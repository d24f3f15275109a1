-- ===== src/Mcts/Tests.antt =====
-- The search tree at a short game, and two callers of GetOrCreate.
use jhbr.Base.{◌↔◌, if◌then◌else◌, ℕ, ◌≡◌, refl, Bool, true, List, [], ◌∷◌, some, arith}
use jhbr.Mcts.Node.{
  Heap, fresh_node, fetch_add, get_or_create, release_children_except_one, delete_later,
  create_single_child_node, destroy_edges,
}
use jhbr.Mcts.Tree.{
  NodeTree, plant, reset_to_position, get_current_head, equal_moves, play, advance, deallocate_tree,
  same_game, continues,
}
use jhbr.Mcts.Memory.{Counts, TreeCounts, size_pending}
use jhbr.Mcts.Reuse.{Extends, IsPlaced, descend, reset_to_position_lem}
use jhbr.Mcts.Session.{Session, starts, goes_on, resets, Session-TreeCounts, Session-IsPlaced}
use jhbr.Mcts.Slot.{
  returned, schedule, unvisited, Working, schedule-one_node, schedule-no_leak, schedule-returns,
}

abbrev empty_heap : Heap
empty_heap = record { bytes = 0; pending = [] }

abbrev opening : Bool × NodeTree × Heap
opening = reset_to_position 9 (3869 ∷ []) (plant empty_heap).0 (plant empty_heap).1

-- A game of one move, and the collector.
abbrev short_game : Session empty_heap opening.1 opening.2
short_game = goes_on starts (resets 9 (3869 ∷ []) _ _)

Session-TreeCounts_example : TreeCounts 0 opening.1 opening.2
unfolding size_pending
Session-TreeCounts_example = Session-TreeCounts 0 no_bytes short_game
  where
    no_bytes : Counts 0 empty_heap
    no_bytes = refl

opening-IsPlaced : IsPlaced opening.1
opening-IsPlaced = Session-IsPlaced short_game

after_reply : Bool × NodeTree × Heap
unfolding reset_to_position
after_reply = reset_to_position 9 (3869 ∷ 517 ∷ []) opening.1 opening.2

reset_kept : after_reply.0 ≡ true
unfolding after_reply plant advance same_game continues equal_moves
reset_kept = refl

-- Three nodes, two edges, and the first root, which waits for the collector.
bytes_counted : after_reply.2.bytes ≡ 176
unfolding after_reply plant advance play release_children_except_one fetch_add get_or_create
    same_game continues equal_moves deallocate_tree create_single_child_node destroy_edges
    delete_later
bytes_counted = refl

reset_to_position_lem_example :
    IsPlaced after_reply.1
    × (after_reply.1.moves ≡ 3869 ∷ 517 ∷ [])
    × ((after_reply.0 ≡ true) ↔ Extends 9 (3869 ∷ 517 ∷ []) opening.1)
    × (get_current_head after_reply.1
        ≡ (if after_reply.0 then descend (517 ∷ []) (get_current_head opening.1) else fresh_node))
unfolding after_reply reset_to_position
reset_to_position_lem_example =
    reset_to_position_lem 9 (3869 ∷ 517 ∷ []) opening.1 opening.2 opening-IsPlaced

abbrev two_callers : List ℕ
two_callers = 0 ∷ 1 ∷ 0 ∷ 1 ∷ 0 ∷ 1 ∷ 1 ∷ []

schedule-one_node_example :
    (◌≡◌ {A = ℕ} 0 0)
    × ((schedule two_callers unvisited).slot ≡ some 0)
    × ((schedule two_callers unvisited).live 0 ≡ true)
unfolding schedule
schedule-one_node_example = schedule-one_node two_callers 0 1 0 0 refl refl

two_callers_rest : (j : ℕ) → ¬ Working ((schedule two_callers unvisited).caller j)
unfolding schedule
two_callers_rest j w = ground arith

schedule-no_leak_example : (schedule two_callers unvisited).slot ≡ some 0
unfolding schedule
schedule-no_leak_example = schedule-no_leak two_callers two_callers_rest 0 refl

schedule-returns_example : (p : ℕ) × ((schedule two_callers unvisited).caller 1 ≡ returned p)
schedule-returns_example = schedule-returns two_callers 1 (omega arith)
