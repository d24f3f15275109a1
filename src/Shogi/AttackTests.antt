-- ===== src/Shogi/AttackTests.antt =====
-- Attacks at concrete squares.
use jhbr.Base.{◌≡◌, refl, true, arith, ◌+ℤ◌}
use jhbr.Base.Count.{popcount}
use jhbr.Shogi.Piece.{black, get_type, get_color}
use jhbr.Shogi.Square.{square_of}
use jhbr.Shogi.Bitboard.{bb_zero, bb_and, bb_or, set_square, any, pop_count}
use jhbr.Shogi.Position.{empty_position, put_piece}
use jhbr.Shogi.Tests.{start_position, start-WellFormed}
use jhbr.Shogi.Attacks.{is_square_attacked, attackers_to, occupied, pieces}
use jhbr.Shogi.Attacks.Tables.{
  lance_mask_bb, set_ranks, make_ray_bb, ray_from, make_step_bb, make_steps, pawn_effect_bb,
}
use jhbr.Shogi.Attacks.Sliding.{
  minus, bswap, bswap64, highest, bb_xor, byte_reverse, unpack, decrement, qugiy, qugiy_mask,
  white_ray, black_ray, rook_rank_effect, rook_file_effect, rook_effect, bishop_effect,
}
use jhbr.Shogi.Attacks.Query.{is_square_attacked_lem}

is_square_attacked_lem_example :
    is_square_attacked start_position 29 (occupied start_position) black
    ≡ any (
        bb_and
          (attackers_to start_position 29 (occupied start_position))
          start_position.by_color.of_black)
is_square_attacked_lem_example =
    is_square_attacked_lem start_position 29 (occupied start_position) black
      start-WellFormed.consistent (omega arith)

-- The pawn on 30 attacks 29.
pawn_attacks : is_square_attacked start_position 29 (occupied start_position) black ≡ true
unfolding is_square_attacked pieces pawn_effect_bb make_step_bb make_steps ◌+ℤ◌ square_of set_square
    any bb_and empty_position put_piece get_type get_color
pawn_attacks = refl

-- A rook and a bishop in the middle reach sixteen squares, and a piece on 42 hides two of the rook's.
open_rook : pop_count (rook_effect 40 bb_zero) ≡ 16
unfolding pop_count popcount rook_effect rook_file_effect rook_rank_effect white_ray black_ray
    highest minus lance_mask_bb set_ranks set_square square_of qugiy qugiy_mask make_ray_bb ray_from
    ◌+ℤ◌ unpack decrement byte_reverse bswap64 bswap bb_and bb_or bb_xor
open_rook = refl

open_bishop : pop_count (bishop_effect 40 bb_zero) ≡ 16
unfolding pop_count popcount bishop_effect minus set_square square_of qugiy qugiy_mask make_ray_bb
    ray_from ◌+ℤ◌ unpack decrement byte_reverse bswap64 bswap bb_and bb_or bb_xor
open_bishop = refl

blocked_rook : pop_count (rook_effect 40 (set_square bb_zero 42)) ≡ 14
unfolding pop_count popcount rook_effect rook_file_effect rook_rank_effect white_ray black_ray
    highest minus lance_mask_bb set_ranks set_square square_of qugiy qugiy_mask make_ray_bb ray_from
    ◌+ℤ◌ unpack decrement byte_reverse bswap64 bswap bb_and bb_or bb_xor
blocked_rook = refl

blocked_rook_right : pop_count (rook_effect 40 (set_square bb_zero 22)) ≡ 14
unfolding pop_count popcount rook_effect rook_file_effect rook_rank_effect white_ray black_ray
    highest minus lance_mask_bb set_ranks set_square square_of qugiy qugiy_mask make_ray_bb ray_from
    ◌+ℤ◌ unpack decrement byte_reverse bswap64 bswap bb_and bb_or bb_xor
blocked_rook_right = refl
