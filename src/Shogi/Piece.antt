-- ===== src/Shogi/Piece.antt =====
-- Colours, piece types and coloured pieces (shogi/types.h and struct Piece of shogi/board.h).
-- A piece type is its index `idx`, a piece its byte `val`.
pub mod Laws
use jhbr.Base.{ℕ, ◌+◌, ◌-◌, ◌*◌, ◌/◌, ◌%◌, ◌^◌, bit_and, bit_or, Bool, true, false, not, ◌&&◌, ◌||◌}
use jhbr.Base.{ltb, leb, ◌==◌, if◌then◌else◌}

pub data Color : Type 0 where
  black white : Color

-- `operator~`
abbrev pub opposite : Color → Color
opposite black = white
opposite white = black

abbrev pub color_idx : Color → ℕ
color_idx black = 0
color_idx white = 1

-- `Color(i)`; a piece byte is below 32, so `i` is 0 or 1.
unfoldable pub color_from_idx : ℕ → Color
color_from_idx i = if i == 0 then black else white

abbrev pub is_white : Color → Bool
is_white black = false
is_white white = true

abbrev pub PieceType : Type 0
PieceType = ℕ

abbrev pub no_piece_type : PieceType
no_piece_type = 0

abbrev pub pawn : PieceType
pawn = 1

abbrev pub lance : PieceType
lance = 2

abbrev pub knight : PieceType
knight = 3

abbrev pub silver : PieceType
silver = 4

abbrev pub bishop : PieceType
bishop = 5

abbrev pub rook : PieceType
rook = 6

abbrev pub gold : PieceType
gold = 7

abbrev pub king : PieceType
king = 8

abbrev pub pro_pawn : PieceType
pro_pawn = 9

abbrev pub pro_lance : PieceType
pro_lance = 10

abbrev pub pro_knight : PieceType
pro_knight = 11

abbrev pub pro_silver : PieceType
pro_silver = 12

abbrev pub horse : PieceType
horse = 13

abbrev pub dragon : PieceType
dragon = 14

unfoldable pub is_hand_piece : PieceType → Bool
is_hand_piece idx = leb 1 idx && leb idx 7

unfoldable pub is_promoted : PieceType → Bool
is_promoted idx = leb 9 idx

unfoldable pub can_promote : PieceType → Bool
can_promote idx = leb 1 idx && leb idx 6

unfoldable pub promote_type : PieceType → PieceType
promote_type idx = bit_or idx 8 % 2 ^ 8

unfoldable pub unpromote_type : PieceType → PieceType
unpromote_type idx = bit_and idx 7

unfoldable pub is_valid_type : PieceType → Bool
is_valid_type idx = leb 1 idx && (leb idx 14 && not (idx == 15))

-- The USI letter of a type, as a character code.
unfoldable pub type_to_char : PieceType → ℕ
type_to_char idx =
    if idx == 0
    then b'.'
    else if idx == 1
    then b'P'
    else if idx == 2
    then b'L'
    else if idx == 3
    then b'N'
    else if idx == 4
    then b'S'
    else if idx == 5
    then b'B'
    else if idx == 6
    then b'R'
    else if idx == 7
    then b'G'
    else if idx == 8
    then b'K'
    else b'+'

unfoldable pub type_parse : ℕ → PieceType
type_parse c =
    if c == b'P' || c == b'p'
    then pawn
    else if c == b'L' || c == b'l'
    then lance
    else if c == b'N' || c == b'n'
    then knight
    else if c == b'S' || c == b's'
    then silver
    else if c == b'B' || c == b'b'
    then bishop
    else if c == b'R' || c == b'r'
    then rook
    else if c == b'G' || c == b'g'
    then gold
    else if c == b'K' || c == b'k'
    then king
    else no_piece_type

abbrev pub Piece : Type 0
Piece = ℕ

abbrev pub no_piece : Piece
no_piece = 0

abbrev pub color_offset : Color → ℕ
color_offset black = 0
color_offset white = 16

unfoldable pub make : Color → PieceType → Piece
make c pt = (color_offset c + pt) % 2 ^ 8

unfoldable pub is_none : Piece → Bool
is_none val = val == 0

unfoldable pub get_color : Piece → Color
unfolding color_from_idx
get_color val = color_from_idx (val / 2 ^ 4)

unfoldable pub get_type : Piece → PieceType
get_type val = bit_and val 0x0f

unfoldable pub promote : Piece → Piece
promote val = bit_or val 8 % 2 ^ 8

-- `val & ~kPromoteBit`, cast to a byte.
unfoldable pub unpromote : Piece → Piece
unpromote val = bit_and val (2 ^ 8 - 1 - 8)
