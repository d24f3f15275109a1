-- ===== src/Shogi/Move/Fields.antt =====
-- The fields of an encoded move are read back, and together they determine it.
use jhbr.Base.{
  ℕ, ◌+◌, ◌*◌, ◌/◌, ◌%◌, ◌^◌, ◌<◌, bit_and, ◌≡◌, sym, ap, ◌∙◌, Bool, true, false, not, arith, ◌==◌,
}
use jhbr.Base.Words.{bit_and-mask, bit_or-fields, bit_and-shifted}
use jhbr.Shogi.Piece.{PieceType}
use jhbr.Shogi.Square.{Square}
use jhbr.Shogi.Move.{
  Move, normal, promotion, drop, to_square, from_square, is_drop, is_promotion, drop_piece,
}

pub to_square-mod : (m : Move) → to_square m ≡ m % 128
unfolding to_square
to_square-mod m = bit_and-mask 7 m

pub from_square-mod : (m : Move) → from_square m ≡ m / 128 % 128
unfolding from_square
from_square-mod m = bit_and-mask 7 (m / 128)

pub drop_piece-mod : (m : Move) → drop_piece m ≡ m / 128 % 128
unfolding drop_piece
drop_piece-mod m = bit_and-mask 7 (m / 128)

-- A mask of one bit.
pub bit_and-flag : (k m : ℕ) → bit_and m (2 ^ k) ≡ m / 2 ^ k % 2 * 2 ^ k
bit_and-flag k m =
    let one : 1 * 2 ^ k ≡ 2 ^ k = omega arith in
    ap (bit_and m) (sym one)
    ∙ bit_and-shifted k m 1
    ∙ ap (λ (t : ℕ). t * 2 ^ k) (bit_and-mask 1 (m / 2 ^ k))

pub is_drop-bit : (m : Move) → is_drop m ≡ not (m / 2 ^ 14 % 2 == 0)
unfolding is_drop
is_drop-bit m = ground (arith, bit_and-flag 14 m)

pub is_promotion-bit : (m : Move) → is_promotion m ≡ not (m / 2 ^ 15 % 2 == 0)
unfolding is_promotion
is_promotion-bit m = ground (arith, bit_and-flag 15 m)

pub normal-sum : (from to : Square) → from < 128 → to < 128 → normal from to ≡ from * 128 + to
unfolding normal
normal-sum from to h k = rw (bit_or-fields 7 from to (omega arith)) (omega arith)

pub promotion-sum :
    (from to : Square) → from < 128 → to < 128 → promotion from to ≡ 32768 + from * 128 + to
unfolding promotion
promotion-sum from to h k =
    rw (bit_or-fields 7 from to (omega arith))
      (ap (λ (t : ℕ). t % 65536) (bit_or-fields 15 1 (from * 128 + to) (omega arith)) ∙ omega arith)

pub drop-sum :
    (pt : PieceType) (to : Square) → pt < 128 → to < 128 → drop pt to ≡ 16384 + pt * 128 + to
unfolding drop
drop-sum pt to h k =
    rw (bit_or-fields 7 pt to (omega arith))
      (ap (λ (t : ℕ). t % 65536) (bit_or-fields 14 1 (pt * 128 + to) (omega arith)) ∙ omega arith)

-- What a move is, apart from its encoding.
pub data Shape : Type 0 where
  board : Square → Square → Bool → Shape
  dropped : PieceType → Square → Shape

-- The constructors of the class, by shape.
abbrev pub encode : Shape → Move
encode (board from to true) = promotion from to
encode (board from to false) = normal from to
encode (dropped pt to) = drop pt to

-- Squares on the board, and a piece type that can be in hand.
abbrev pub IsOnBoard : Shape → Type 0
IsOnBoard (board from to promoted) = (from < 81) × (to < 81)
IsOnBoard (dropped pt to) = (0 < pt) × (pt < 8) × (to < 81)

-- What the accessors read.
abbrev pub Reads : Move → Shape → Type 0
Reads m (board from to promoted) =
    (from_square m ≡ from) × (to_square m ≡ to) × (is_drop m ≡ false) × (is_promotion m ≡ promoted)
Reads m (dropped pt to) =
    (drop_piece m ≡ pt) × (to_square m ≡ to) × (is_drop m ≡ true) × (is_promotion m ≡ false)

-- The accessors read back what a move of squares on the board, or of a hand piece, was made of.
pub encode-Reads : (s : Shape) → IsOnBoard s → Reads (encode s) s
encode-Reads (board from to false) h = ground (
  arith,
  normal-sum from to,
  from_square-mod (normal from to),
  to_square-mod (normal from to),
  is_drop-bit (normal from to),
  is_promotion-bit (normal from to),
)
encode-Reads (board from to true) h = ground (
  arith,
  promotion-sum from to,
  from_square-mod (promotion from to),
  to_square-mod (promotion from to),
  is_drop-bit (promotion from to),
  is_promotion-bit (promotion from to),
)
encode-Reads (dropped pt to) h = ground (
  arith,
  drop-sum pt to,
  drop_piece-mod (drop pt to),
  to_square-mod (drop pt to),
  is_drop-bit (drop pt to),
  is_promotion-bit (drop pt to),
)
