-- ===== src/Shogi/Flipped.antt =====
-- ShogiBoard::Flipped of shogi/board.cc: the position seen from the other side.
pub mod Board
use jhbr.Base.{ℕ, zero, suc, ◌+◌, ◌-◌, if◌then◌else◌}
use jhbr.Shogi.Piece.{Color, opposite, Piece, is_none, get_color, get_type, make}
use jhbr.Shogi.Square.{Square}
use jhbr.Shogi.Position.{Position, empty_position, piece_on, put_piece}

unfoldable pub turned : Piece → Piece
turned pc = make (opposite (get_color pc)) (get_type pc)

-- The loop over the squares from `sq` on, `n` of which are left.
unfoldable pub turn_squares : Position → Square → ℕ → Position → Position
turn_squares p sq zero q = q
turn_squares p sq (suc n) q =
    let pc = piece_on p sq in
    turn_squares p (sq + 1) n (if is_none pc then q else put_piece (80 - sq) (turned pc) q)

-- The side to move, the ply and the hands, on an empty board.
abbrev pub turned_sides : Position → Position
turned_sides p = record empty_position {
  side_to_move = opposite p.side_to_move;
  ply = p.ply;
  hand = record { of_black = p.hand.of_white; of_white = p.hand.of_black };
}

-- The hash, the history and the check counters are left as the constructor makes them.
unfoldable pub flipped_board : Position → Position
unfolding turn_squares
flipped_board p = turn_squares p 0 81 (turned_sides p)
