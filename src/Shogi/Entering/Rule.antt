-- ===== src/Shogi/Entering/Rule.antt =====
-- The rule of the declaration, square by square and over the types in hand.
use jhbr.Base.{
  ℕ, zero, suc, ◌+◌, ◌*◌, ◌<◌, ◌≡◌, refl, Bool, not, ◌&&◌, ◌||◌, arith, ◌==◌, if◌then◌else◌,
  Bool-cases, inl, inr,
}
use jhbr.Base.Count.{count_from}
use jhbr.Shogi.Piece.{
  Color, black, white, Piece, PieceType, is_none, get_color, get_type, make, king, bishop, rook,
  horse, dragon,
}
use jhbr.Shogi.Hand.{Hand, count}
use jhbr.Shogi.Square.{Square, in_promotion_zone}
use jhbr.Shogi.Position.{Position, side, piece_on}
use jhbr.Shogi.Position.Consistent.{same_color}
use jhbr.Shogi.Entering.{minor_in_hand, major_in_hand, threshold}

-- A piece of the side in the enemy camp, other than the king.
abbrev pub is_man : Position → Color → Square → Bool
is_man p c s =
    not (is_none (piece_on p s))
    && (same_color (get_color (piece_on p s)) c
        && (in_promotion_zone c s && not (get_type (piece_on p s) == king)))

abbrev pub is_major : Piece → Bool
is_major pc =
    get_type pc == bishop
    || (get_type pc == rook || (get_type pc == horse || get_type pc == dragon))

abbrev pub men_in_camp : Position → Color → ℕ
men_in_camp p c = count_from (is_man p c) 0 81

-- One point for each man on the board and five for a major one.
unfoldable pub board_points : Position → Color → Square → ℕ → ℕ
board_points p c s zero = 0
board_points p c s (suc n) =
    (if is_man p c s then (if is_major (piece_on p s) then 5 else 1) else 0)
    + board_points p c (suc s) n

-- One point for each piece of a hand and five for a bishop or a rook: the `n` types from `pt` on.
unfoldable pub hand_points : Hand → PieceType → ℕ → ℕ
hand_points h pt zero = 0
hand_points h pt (suc n) =
    count h pt * (if pt == bishop || pt == rook then 5 else 1) + hand_points h (suc pt) n

-- The men in the camp and all that is in hand, from pawn to gold.
abbrev pub points_of : Position → Color → ℕ
points_of p c = board_points p c 0 81 + hand_points (side p.hand c) 1 7

-- The points that the rules ask of a side: 28 of the first player, 27 of the second.
abbrev pub needed : Color → ℕ
needed black = 28
needed white = 27

pub threshold_lem : (c : Color) → threshold c ≡ needed c
threshold_lem black = refl
threshold_lem white = refl

pub hand_points_lem : (h : Hand) → hand_points h 1 7 ≡ minor_in_hand h + major_in_hand h * 5
unfolding hand_points minor_in_hand major_in_hand
hand_points_lem h = omega arith

pub board_points_lem :
    (p : Position) (c : Color) (n : ℕ) (s : Square)
    → board_points p c s n
      ≡ count_from (λ t. is_man p c t && is_major (piece_on p t)) s n * 5
        + count_from (λ t. is_man p c t && not (is_major (piece_on p t))) s n
unfolding board_points count_from
board_points_lem p c zero s = refl
board_points_lem p c (suc n) s = elim (Bool-cases (is_man p c s)) [
  | inl e ↦ elim (Bool-cases (is_major (piece_on p s))) [
    | inl f ↦ rw (e, f) (omega (arith, board_points_lem p c n (suc s)))
    | inr f ↦ rw (e, f) (omega (arith, board_points_lem p c n (suc s)))
  ]
  | inr e ↦ rw e (omega (arith, board_points_lem p c n (suc s)))
]

-- The side's king stands where the position says.
pub record HasKing (p : Position) (c : Color) : Type 0 where
  pub on_board : side p.king_sq c < 81
  pub there : piece_on p (side p.king_sq c) ≡ make c king
