-- ===== src/Mcts.antt =====
-- mcts/uct_node.cc: the nodes of the search tree, their memory and their reuse.
pub mod Node
pub mod Tree
pub mod Memory
pub mod Reuse
pub mod Session
pub mod Slot
pub mod Butterfly
mod Tests
mod ScoreTests
