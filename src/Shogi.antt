-- ===== src/Shogi.antt =====
-- shogi/types.h, shogi/board.h, shogi/board.cc and shogi/packed_sfen.cc: pieces, squares, moves,
-- hands, the position and its packed form.
pub mod Piece
pub mod Square
pub mod Move
pub mod Hand
pub mod Bitboard
pub mod Zobrist
pub mod Position
pub mod Repetition
pub mod PackedSfen
pub mod Sfen
pub mod Flipped
pub mod Entering
pub mod Attacks
mod Tests
mod RepetitionTests
mod ValueTests
mod PackedTests
mod SfenTests
mod ViewTests
mod AttackTests
