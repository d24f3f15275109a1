-- ===== src/Shogi/Square.antt =====
-- File, Rank and Square of shogi/types.h. A square is its index `file * 9 + rank`, a byte.
use jhbr.Base.{ℕ, ◌+◌, ◌-◌, ◌*◌, ◌/◌, ◌%◌, ◌^◌, ◌<◌, ◌≡◌, Bool, List, [], ◌∷◌, arith, ltb, leb}
use jhbr.Shogi.Piece.{Color, black, white}

abbrev pub Square : Type 0
Square = ℕ

abbrev pub square_nb : ℕ
square_nb = 81

abbrev pub square_none : Square
square_none = 81

abbrev pub u8 : ℕ → ℕ
u8 n = n % 2 ^ 8

unfoldable pub square_of : ℕ → ℕ → Square
square_of file rank = u8 (file * 9 + rank)

unfoldable pub file_of : Square → ℕ
file_of sq = sq / 9

unfoldable pub rank_of : Square → ℕ
rank_of sq = sq % 9

-- `c - '1'` and `c - 'a'` wrap in a byte.
unfoldable pub file_parse : ℕ → ℕ
file_parse c = u8 (c + 2 ^ 8 - b'1')

unfoldable pub rank_parse : ℕ → ℕ
rank_parse c = u8 (c + 2 ^ 8 - b'a')

unfoldable pub square_parse : ℕ → ℕ → Square
unfolding square_of file_parse rank_parse
square_parse c d = square_of (file_parse c) (rank_parse d)

unfoldable pub flipped : Square → Square
flipped sq = u8 (80 + 2 ^ 8 - sq)

unfoldable pub rank_in_promotion_zone : Color → ℕ → Bool
rank_in_promotion_zone black rank = leb rank 2
rank_in_promotion_zone white rank = leb 6 rank

unfoldable pub in_promotion_zone : Color → Square → Bool
unfolding rank_in_promotion_zone rank_of
in_promotion_zone c sq = rank_in_promotion_zone c (rank_of sq)

unfoldable pub is_valid_square : Square → Bool
is_valid_square sq = ltb sq 81

unfoldable pub square_to_string : Square → List ℕ
unfolding file_of rank_of
square_to_string sq = (b'1' + file_of sq) ∷ (b'a' + rank_of sq) ∷ []

pub square_parse-to_string :
    (sq : Square) → sq < 81 → square_parse (b'1' + file_of sq) (b'a' + rank_of sq) ≡ sq
unfolding square_parse file_of rank_of
square_parse-to_string sq h = omega arith

pub flipped-flipped : (sq : Square) → sq < 81 → flipped (flipped sq) ≡ sq
unfolding flipped
flipped-flipped sq h = omega arith

pub flipped-lt : (sq : Square) → sq < 81 → flipped sq < 81
unfolding flipped
flipped-lt sq h = omega arith

pub flipped-add : (sq : Square) → sq < 81 → flipped sq + sq ≡ 80
unfolding flipped
flipped-add sq h = omega arith
