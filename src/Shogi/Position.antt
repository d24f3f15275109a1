-- ===== src/Shogi/Position.antt =====
-- class ShogiBoard of shogi/board.h and shogi/board.cc: the position and its elementary updates.
pub mod Make
pub mod Keys
pub mod Consistent
pub mod Placement
pub mod Shift
pub mod Undo
pub mod Squares
pub mod Hash
pub mod HashInvariant
pub mod Invariant
pub mod Line
pub mod Empty
pub mod Filled
use jhbr.Base.{
  ℕ, ◌+◌, ◌-◌, ◌%◌, ◌^◌, ◌==◌, bit_xor, Bool, true, false, not, List, [], ◌∷◌, Option, none, some,
  get_or, set, replicate, if◌then◌else◌,
}
use jhbr.Shogi.Piece.{
  Color, black, white, Piece, PieceType, no_piece, is_none, get_color, get_type, king,
}
use jhbr.Shogi.Square.{Square, square_none}
use jhbr.Shogi.Hand.{Hand, empty_hand}
use jhbr.Shogi.Bitboard.{Bitboard, bb_zero, set_square, clear_square}

-- An array indexed by colour.
pub record Sides {ℓ} (A : Type ℓ) : Type ℓ where
  pub of_black : A
  pub of_white : A

module _ {ℓ} {A : Type ℓ} where
  abbrev pub side : Sides A → Color → A
  side s black = s.of_black
  side s white = s.of_white

  abbrev pub set_side : Sides A → Color → A → Sides A
  set_side s black v = record s { of_black = v }
  set_side s white v = record s { of_white = v }

pub record HistoryEntry : Type 0 where
  pub hash : ℕ
  pub hand_black : Hand
  pub hand_white : Hand

-- The back of the vector `history_` is the head of the list.
pub record Position : Type 0 where
  pub board : List Piece
  pub by_type : List Bitboard
  pub by_color : Sides Bitboard
  pub hand : Sides Hand
  pub king_sq : Sides Square
  pub side_to_move : Color
  pub ply : ℕ
  pub hash : ℕ
  pub continuous_check : Sides ℕ
  pub history : List HistoryEntry

abbrev pub both {ℓ} : {A : Type ℓ} → A → Sides A
both a = record { of_black = a; of_white = a }

-- The constructor: an empty board with no kings.
unfoldable pub empty_position : Position
empty_position = record {
  board = replicate 81 no_piece;
  by_type = replicate 16 bb_zero;
  by_color = both bb_zero;
  hand = both empty_hand;
  king_sq = both square_none;
  side_to_move = black;
  ply = 0;
  hash = 0;
  continuous_check = both 0;
  history = [];
}

abbrev pub piece_on : Position → Square → Piece
piece_on p sq = get_or p.board sq no_piece

abbrev pub type_board : Position → PieceType → Bitboard
type_board p pt = get_or p.by_type pt bb_zero

unfoldable pub put_piece : Square → Piece → Position → Position
put_piece sq pc p = record p {
  board = set p.board sq pc;
  by_color = set_side p.by_color (get_color pc) (set_square (side p.by_color (get_color pc)) sq);
  by_type = set p.by_type (get_type pc) (set_square (type_board p (get_type pc)) sq);
  king_sq = if get_type pc == king then set_side p.king_sq (get_color pc) sq else p.king_sq;
}

-- The piece removed is what `piece_on` gave before.
unfoldable pub remove_piece : Square → Position → Position
remove_piece sq p =
    let pc = piece_on p sq in
    record p {
      board = set p.board sq no_piece;
      by_color =
          set_side p.by_color (get_color pc) (clear_square (side p.by_color (get_color pc)) sq);
      by_type = set p.by_type (get_type pc) (clear_square (type_board p (get_type pc)) sq);
    }
