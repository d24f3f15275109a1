-- ===== src/Shogi/Sfen.antt =====
-- SFEN text: ShogiBoard::ToSfen of shogi/board.cc, with SetFromSfen in Read. A text is the list of
-- its character codes.
pub mod Read
pub mod Decimal
pub mod Words
pub mod Letters
pub mod Placing
pub mod Plain
pub mod Copy
pub mod Totals
pub mod Hands
pub mod RoundTrip
use jhbr.Base.{
  ℕ, zero, suc, ◌+◌, ◌-◌, ◌*◌, ◌/◌, ◌%◌, Bool, true, false, not, ◌&&◌, ◌||◌, List, [], ◌∷◌, ◌++◌,
  ltb, leb, ◌==◌, if◌then◌else◌,
}
use jhbr.Shogi.Piece.{
  Color, black, white, is_white, Piece, PieceType, is_none, get_color, get_type, make, is_promoted,
  promote_type, unpromote_type, is_valid_type, type_to_char, type_parse, pawn, lance, knight,
  silver, bishop, rook, gold,
}
use jhbr.Shogi.Square.{Square, square_of}
use jhbr.Shogi.Hand.{Hand, count, add}
use jhbr.Shogi.Zobrist.{Zobrist}
use jhbr.Shogi.Position.{Position, Sides, side, set_side, empty_position, piece_on, put_piece}
use jhbr.Shogi.Position.Keys.{compute_hash}
use jhbr.Shogi.Repetition.{clear_history}

-- std::to_string of a number below 10 to the power of the fuel.
unfoldable pub digits_of : ℕ → ℕ → List ℕ
digits_of zero n = []
digits_of (suc fuel) n =
    let rest = digits_of fuel (n / 10) in
    if ltb n 10 then (b'0' + n) ∷ [] else rest ++ (b'0' + n % 10) ∷ []

unfoldable pub to_decimal : ℕ → List ℕ
to_decimal n = digits_of 10 n

-- std::tolower of a letter.
unfoldable pub to_lower : ℕ → ℕ
to_lower c = if leb b'A' c && leb c b'Z' then c + 32 else c

unfoldable pub letter : Color → PieceType → ℕ
letter c pt = if is_white c then to_lower (type_to_char pt) else type_to_char pt

unfoldable pub piece_text : Piece → List ℕ
piece_text pc =
    if is_promoted (get_type pc)
    then b'+' ∷ letter (get_color pc) (unpromote_type (get_type pc)) ∷ []
    else letter (get_color pc) (get_type pc) ∷ []

abbrev pub flush : ℕ → List ℕ
flush zero = []
flush (suc n) = to_decimal (suc n)

-- The loop over the files of a rank, `n` of which are left, after `empties` empty squares.
unfoldable pub rank_text : Position → ℕ → ℕ → ℕ → List ℕ
rank_text p r zero empties = flush empties
rank_text p r (suc f) empties =
    let pc = piece_on p (square_of f r) in
    let skipped = rank_text p r f (empties + 1) in
    let written = rank_text p r f 0 in
    if is_none pc then skipped else flush empties ++ piece_text pc ++ written

-- The ranks from `r` on, `n` of which are left.
unfoldable pub ranks_text : Position → ℕ → ℕ → List ℕ
ranks_text p r zero = []
ranks_text p r (suc n) =
    (if r == 0 then [] else b'/' ∷ []) ++ rank_text p r 9 0 ++ ranks_text p (r + 1) n

abbrev pub k_sfen_hand_order : List PieceType
k_sfen_hand_order = rook ∷ bishop ∷ gold ∷ silver ∷ knight ∷ lance ∷ pawn ∷ []

unfoldable pub hand_item : Color → PieceType → ℕ → List ℕ
hand_item c pt n = if n == 0 then [] else (if leb n 1 then [] else to_decimal n) ++ letter c pt ∷ []

unfoldable pub hand_text : Color → List PieceType → Hand → List ℕ
hand_text c [] h = []
hand_text c (pt ∷ pts) h = hand_item c pt (count h pt) ++ hand_text c pts h

abbrev pub or_dash : List ℕ → List ℕ
or_dash [] = b'-' ∷ []
or_dash (c ∷ cs) = c ∷ cs

unfoldable pub hands_text : Position → List ℕ
hands_text p =
    hand_text black k_sfen_hand_order p.hand.of_black
    ++ hand_text white k_sfen_hand_order p.hand.of_white

abbrev pub side_text : Color → List ℕ
side_text black = b'b' ∷ []
side_text white = b'w' ∷ []

-- ShogiBoard::ToSfen
unfoldable pub to_sfen : Position → List ℕ
to_sfen p =
    ranks_text p 0 9
    ++ b' '
      ∷ (side_text p.side_to_move ++ b' ' ∷ (or_dash (hands_text p) ++ b' ' ∷ to_decimal p.ply))
