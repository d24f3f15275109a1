-- ===== src/Shogi/Move/Usi.antt =====
-- Move::Parse reads back what Move::ToString writes.
use jhbr.Base.{
  ℕ, ◌+◌, ◌<◌, ◌≡◌, ◌≢◌, refl, ap, ap₂, ◌∙◌, true, false, arith, List, [], ◌∷◌, ◌==◌, if◌then◌else◌,
  check_below, check_below_lem, ==→eq,
}
use jhbr.Shogi.Piece.{type_to_char, type_parse}
use jhbr.Shogi.Square.{file_of, rank_of, square_parse-to_string}
use jhbr.Shogi.Move.{drop, to_string, parse}
use jhbr.Shogi.Move.Fields.{Shape, board, dropped, encode, IsOnBoard, encode-Reads}

type_table : check_below (λ pt. type_parse (type_to_char pt) == pt) 9 ≡ true
unfolding check_below type_parse type_to_char
type_table = refl

type_parse-to_char : (pt : ℕ) → pt < 8 → type_parse (type_to_char pt) ≡ pt
type_parse-to_char pt h = ==→eq _ pt (check_below_lem _ pt 9 (omega arith) type_table)

-- The text of a move, by shape.
abbrev pub usi_text : Shape → List ℕ
usi_text (board from to promoted) =
    (b'1' + file_of from)
    ∷ (b'a' + rank_of from)
    ∷ (b'1' + file_of to)
    ∷ (b'a' + rank_of to)
    ∷ (if promoted then b'+' ∷ [] else [])
usi_text (dropped pt to) = type_to_char pt ∷ b'*' ∷ (b'1' + file_of to) ∷ (b'a' + rank_of to) ∷ []

to_string-encode : (s : Shape) → IsOnBoard s → encode s ≢ 0 → to_string (encode s) ≡ usi_text s
unfolding to_string
to_string-encode (board from to false) h nz = ground (arith, encode-Reads (board from to false) h)
to_string-encode (board from to true) h nz = ground (arith, encode-Reads (board from to true) h)
to_string-encode (dropped pt to) h nz = ground (arith, encode-Reads (dropped pt to) h)

parse-usi_text : (s : Shape) → IsOnBoard s → parse (usi_text s) ≡ encode s
unfolding parse
parse-usi_text (board from to false) h =
    ground (arith, square_parse-to_string from, square_parse-to_string to)
parse-usi_text (board from to true) h =
    ground (arith, square_parse-to_string from, square_parse-to_string to)
parse-usi_text (dropped pt to) h =
    ap₂ drop (type_parse-to_char pt (omega arith)) (square_parse-to_string to h.2)

-- Parsing the USI text of a board move or of a drop, whose squares are on the board, gives the move. The
-- null move, which is printed as 0000, is excluded.
pub parse-to_string :
    (s : Shape) → IsOnBoard s → encode s ≢ 0 → parse (to_string (encode s)) ≡ encode s
parse-to_string s h nz = ap parse (to_string-encode s h nz) ∙ parse-usi_text s h
