-- ===== src/Shogi/Entering.antt =====
-- The declaration of an entering king: ShogiBoard::ComputeEnteringKingInfo and CanDeclareWin of
-- shogi/board.cc, with the promotion zones that Init of shogi/bitboard.cc makes.
pub mod Zones
pub mod Rule
pub mod Info
use jhbr.Base.{
  ℕ, zero, suc, ◌+◌, ◌*◌, Bool, true, false, not, ◌==◌, if◌then◌else◌, ℤ, pos, ◌+ℤ◌, ◌-ℤ◌, ltℤ,
}
use jhbr.Shogi.Piece.{
  Color, black, white, pawn, lance, knight, silver, bishop, rook, gold, horse, dragon,
}
use jhbr.Shogi.Square.{square_of}
use jhbr.Shogi.Bitboard.{Bitboard, bb_zero, test, set_square, bb_and, bb_or, pop_count}
use jhbr.Shogi.Hand.{Hand, count}
use jhbr.Shogi.Position.{Position, side, type_board}

-- The loop over the files of a rank from `f` on, `n` of which are left.
unfoldable pub rank_files : ℕ → ℕ → ℕ → Bitboard → Bitboard
rank_files r f zero b = b
rank_files r f (suc n) b = rank_files r (f + 1) n (set_square b (square_of f r))

-- RankBB
unfoldable pub rank_bb : ℕ → Bitboard
unfolding rank_files
rank_bb r = rank_files r 0 9 bb_zero

-- PromotionZoneBB
unfoldable pub promotion_zone : Color → Bitboard
promotion_zone black = bb_or (bb_or (rank_bb 0) (rank_bb 1)) (rank_bb 2)
promotion_zone white = bb_or (bb_or (rank_bb 6) (rank_bb 7)) (rank_bb 8)

pub record EnteringKingInfo : Type 0 where
  pub points : ℤ
  pub pieces_in_camp : ℤ
  pub king_in_camp : Bool

unfoldable pub our_in_camp : Position → Color → Bitboard
our_in_camp p c = bb_and (side p.by_color c) (promotion_zone c)

unfoldable pub major_in_camp : Position → Color → Bitboard
major_in_camp p c = bb_and (our_in_camp p c) (
    bb_or (bb_or (bb_or (type_board p bishop) (type_board p rook)) (type_board p horse))
      (type_board p dragon))

unfoldable pub minor_in_hand : Hand → ℕ
minor_in_hand h = count h pawn + count h lance + count h knight + count h silver + count h gold

unfoldable pub major_in_hand : Hand → ℕ
major_in_hand h = count h bishop + count h rook

-- ComputeEnteringKingInfo
unfoldable pub compute_entering_king_info : Position → Color → EnteringKingInfo
compute_entering_king_info p c =
    let king_in_camp = test (promotion_zone c) (side p.king_sq c) in
    let total_in_camp = pos (pop_count (our_in_camp p c)) in
    let pieces_in_camp = (if king_in_camp then total_in_camp -ℤ pos 1 else total_in_camp) in
    let major_count = pop_count (major_in_camp p c) in
    let minor_count = pieces_in_camp -ℤ pos major_count in
    let points = pos (major_count * 5) +ℤ minor_count in
    let h = side p.hand c in
    record {
      points = points +ℤ pos (minor_in_hand h) +ℤ pos (major_in_hand h * 5);
      pieces_in_camp = pieces_in_camp;
      king_in_camp = king_in_camp;
    }

abbrev pub threshold : Color → ℕ
threshold black = 28
threshold white = 27

-- CanDeclareWin
unfoldable pub can_declare_win : (Position → Color → Bool) → Position → Bool
can_declare_win in_check p =
    let us = p.side_to_move in
    let info = compute_entering_king_info p us in
    if in_check p us
    then false
    else if not info.king_in_camp
    then false
    else if ltℤ info.pieces_in_camp (pos 10)
    then false
    else if ltℤ info.points (pos (threshold us))
    then false
    else true
