-- ===== src/Shogi/Move.antt =====
-- class Move of shogi/types.h: a move in 16 bits, its perspective flip and its USI text.
pub mod Fields
pub mod Flip
pub mod Usi
use jhbr.Base.{
  ℕ, ◌+◌, ◌-◌, ◌*◌, ◌/◌, ◌%◌, ◌^◌, bit_and, bit_or, Bool, not, ◌&&◌, List, [], ◌∷◌, ◌++◌, ltb, leb,
  ◌==◌, if◌then◌else◌, length, get_or,
}
use jhbr.Shogi.Piece.{PieceType, type_to_char, type_parse}
use jhbr.Shogi.Square.{Square, u8, square_to_string, square_parse}

-- The 16-bit representation.
abbrev pub Move : Type 0
Move = ℕ

abbrev pub u16 : ℕ → ℕ
u16 n = n % 2 ^ 16

abbrev pub drop_flag : ℕ
drop_flag = 2 ^ 14

abbrev pub promote_flag : ℕ
promote_flag = 2 ^ 15

unfoldable pub normal : Square → Square → Move
normal from to = u16 (bit_or to (from * 2 ^ 7))

unfoldable pub promotion : Square → Square → Move
promotion from to = u16 (bit_or (bit_or to (from * 2 ^ 7)) promote_flag)

unfoldable pub drop : PieceType → Square → Move
drop pt to = u16 (bit_or (bit_or to (pt * 2 ^ 7)) drop_flag)

unfoldable pub to_square : Move → Square
to_square raw = bit_and raw 0x7f

unfoldable pub from_square : Move → Square
from_square raw = bit_and (raw / 2 ^ 7) 0x7f

unfoldable pub is_drop : Move → Bool
is_drop raw = not (bit_and raw drop_flag == 0)

unfoldable pub is_promotion : Move → Bool
is_promotion raw = not (bit_and raw promote_flag == 0)

unfoldable pub is_null : Move → Bool
is_null raw = raw == 0

unfoldable pub drop_piece : Move → PieceType
drop_piece raw = bit_and (raw / 2 ^ 7) 0x7f

-- A board move mirrors both squares and keeps the flags; a drop mirrors its destination only.
unfoldable pub flip : Move → Move
unfolding is_drop
flip raw =
    let t = u8 (80 + 2 ^ 8 - bit_and raw 0x7f) in
    let f = u8 (80 + 2 ^ 8 - bit_and (raw / 2 ^ 7) 0x7f) in
    if not (is_drop raw)
    then u16 (bit_or (bit_or (bit_and raw (drop_flag + promote_flag)) t) (f * 2 ^ 7))
    else u16 (bit_or (bit_and raw (2 ^ 16 - 1 - 0x7f)) t)

-- Texts are lists of character codes.
abbrev pub null_text : List ℕ
null_text = b'0' ∷ b'0' ∷ b'0' ∷ b'0' ∷ []

unfoldable pub to_string : Move → List ℕ
unfolding is_null is_drop drop_piece type_to_char square_to_string to_square from_square
    is_promotion
to_string raw =
    if is_null raw
    then null_text
    else if is_drop raw
    then type_to_char (drop_piece raw) ∷ b'*' ∷ square_to_string (to_square raw)
    else square_to_string (from_square raw)
      ++ (square_to_string (to_square raw) ++ (if is_promotion raw then b'+' ∷ [] else []))

unfoldable pub parse : List ℕ → Move
unfolding type_parse square_parse drop promotion normal
parse usi =
    let char = λ (i : ℕ). get_or usi i 0 in
    if ltb (length usi) 4
    then 0
    else if char 1 == b'*'
    then drop (type_parse (char 0)) (square_parse (char 2) (char 3))
    else if leb 5 (length usi) && char 4 == b'+'
    then promotion (square_parse (char 0) (char 1)) (square_parse (char 2) (char 3))
    else normal (square_parse (char 0) (char 1)) (square_parse (char 2) (char 3))
