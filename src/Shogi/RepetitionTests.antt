-- ===== src/Shogi/RepetitionTests.antt =====
-- A rook that gives check over and over, until the position comes back.
use jhbr.Base.{◌≡◌, ◌≢◌, refl, true, List, [], ◌∷◌, none, some, arith}
use jhbr.Shogi.Piece.{Color, black, white, king, make, is_none, get_type, promote}
use jhbr.Shogi.Move.{Move, is_drop, is_promotion, to_square, from_square}
use jhbr.Shogi.Position.{Position, empty_position, put_piece, remove_piece, both}
use jhbr.Shogi.Position.Undo.{IsPlayable}
use jhbr.Shogi.Position.Make.{UndoInfo, do_move_internal}
use jhbr.Shogi.Position.Hash.{after}
use jhbr.Shogi.Position.Line.{Line, start, step}
use jhbr.Shogi.Attacks.{
  in_check, attackers_to, add_steppers, is_square_attacked, pieces, occupied, gold_like, rook_like,
  bishop_like,
}
use jhbr.Base.{◌+ℤ◌}
use jhbr.Shogi.Square.{square_of}
use jhbr.Shogi.Piece.{get_color}
use jhbr.Shogi.Bitboard.{bb_and, bb_or, set_square, any, clear_square, bb_not}
use jhbr.Shogi.Attacks.Tables.{
  lance_mask_bb, set_ranks, make_ray_bb, ray_from, make_step_bb, make_steps, pawn_effect_bb,
  knight_effect_bb, silver_effect_bb, gold_effect_bb, king_effect_bb, horse_step_bb, dragon_step_bb,
}
use jhbr.Shogi.Attacks.Sliding.{
  minus, bswap, bswap64, highest, bb_xor, byte_reverse, unpack, decrement, qugiy, qugiy_mask,
  white_ray, black_ray, rook_rank_effect, rook_file_effect, rook_effect, rook_effect_bb,
  lance_effect, file_bb, square_bb, bishop_effect, bishop_effect_bb,
}
use jhbr.Shogi.Entering.{rank_bb}
use jhbr.Shogi.Repetition.{check_repetition, k_loss, scan, matches, same_entry, adjudicate}
use jhbr.Shogi.Position.Keys.{compute_hash}
use jhbr.Shogi.Zobrist.{hash_hand}
use jhbr.Shogi.Hand.{count}
use jhbr.Shogi.Repetition.Scan.{Repetition}
use jhbr.Shogi.Repetition.Streak.{CountersOf, continuous_check-Line}
use jhbr.Shogi.Repetition.Checked.{KingsOnBoard, HintsRight, checks_in_row}
use jhbr.Shogi.Position.Empty.{put_piece-WellFormed}
use jhbr.Shogi.Position.Invariant.{WellFormed}
use jhbr.Shogi.Tests.{z, placed, two_kings, two_kings-WellFormed}

-- The black rook on 32, the kings on 40 and 4.
abbrev before : Position
before = placed 32 6 two_kings

-- The rook to 31 and back, the white king to 5 and back.
abbrev rook_up : Move
rook_up = 4127

abbrev king_off : Move
king_off = 517

abbrev rook_down : Move
rook_down = 4000

abbrev king_back : Move
king_back = 644

abbrev first : Position
first = after z in_check rook_up none before

abbrev second : Position
second = after z in_check king_off none first

abbrev third : Position
third = after z in_check rook_down none second

abbrev fourth : Position
fourth = after z in_check king_back none third

rook_up-IsPlayable : IsPlayable rook_up before
unfolding empty_position put_piece remove_piece is_drop from_square to_square is_promotion is_none
    do_move_internal promote
rook_up-IsPlayable = record {
  from_small = omega arith;
  to_small = omega arith;
  moves = λ e. omega (arith, e);
  there = refl;
  promotes = λ e. absurd cc;
}

king_off-IsPlayable : IsPlayable king_off first
unfolding empty_position put_piece remove_piece is_drop from_square to_square is_promotion is_none
    do_move_internal promote
king_off-IsPlayable = record {
  from_small = omega arith;
  to_small = omega arith;
  moves = λ e. omega (arith, e);
  there = refl;
  promotes = λ e. absurd cc;
}

rook_down-IsPlayable : IsPlayable rook_down second
unfolding empty_position put_piece remove_piece is_drop from_square to_square is_promotion is_none
    do_move_internal promote
rook_down-IsPlayable = record {
  from_small = omega arith;
  to_small = omega arith;
  moves = λ e. omega (arith, e);
  there = refl;
  promotes = λ e. absurd cc;
}

king_back-IsPlayable : IsPlayable king_back third
unfolding empty_position put_piece remove_piece is_drop from_square to_square is_promotion is_none
    do_move_internal promote
king_back-IsPlayable = record {
  from_small = omega arith;
  to_small = omega arith;
  moves = λ e. omega (arith, e);
  there = refl;
  promotes = λ e. absurd cc;
}

abbrev made : List (Move × UndoInfo)
made =
    (king_back, (do_move_internal z in_check king_back true none third).0)
    ∷ (rook_down, (do_move_internal z in_check rook_down true none second).0)
    ∷ (king_off, (do_move_internal z in_check king_off true none first).0)
    ∷ (rook_up, (do_move_internal z in_check rook_up true none before).0)
    ∷ []

abbrev four_moves : Line z in_check before made fourth
four_moves =
    step
      (step (step (step start rook_up none rook_up-IsPlayable) king_off none king_off-IsPlayable)
        rook_down none rook_down-IsPlayable)
      king_back none king_back-IsPlayable

counters_before : before.continuous_check ≡ both 0
unfolding empty_position put_piece
counters_before = refl

no_king : (k : Color) → 6 ≢ make k king
unfolding make
no_king black e = omega (arith, e)
no_king white e = omega (arith, e)

before-WellFormed : WellFormed z before
unfolding empty_position get_type put_piece
before-WellFormed =
    put_piece-WellFormed z two_kings 32 6 two_kings-WellFormed (omega arith) refl (omega arith)
      (omega arith) (omega arith) (λ k s lt e. absurd (no_king k e))

kings_before : KingsOnBoard before
unfolding empty_position put_piece get_type get_color
kings_before black = omega arith
kings_before white = omega arith

no_hints : HintsRight z four_moves
unfolding HintsRight
no_hints = (λ b e. absurd cc, (λ b e. absurd cc, (λ b e. absurd cc, (λ b e. absurd cc, tt))))

continuous_check-Line_example : CountersOf (checks_in_row z four_moves) fourth
continuous_check-Line_example =
    continuous_check-Line z before-WellFormed kings_before counters_before four_moves no_hints

-- The two checks of the rook make a loss of its side.
repeated_after_four : check_repetition 16 fourth ≡ (k_loss, some 4)
unfolding in_check attackers_to add_steppers is_square_attacked pieces occupied gold_like rook_like
    bishop_like pawn_effect_bb knight_effect_bb silver_effect_bb gold_effect_bb king_effect_bb
    horse_step_bb dragon_step_bb make_step_bb make_steps ◌+ℤ◌ square_of set_square any bb_and bb_or
    empty_position put_piece get_type get_color remove_piece do_move_internal is_drop from_square
    to_square is_promotion is_none promote rook_effect rook_effect_bb rook_file_effect
    rook_rank_effect bishop_effect bishop_effect_bb white_ray black_ray highest minus lance_mask_bb
    lance_effect set_ranks qugiy qugiy_mask make_ray_bb ray_from unpack decrement byte_reverse
    bswap64 bswap bb_xor make clear_square file_bb rank_bb bb_not square_bb check_repetition scan
    matches same_entry adjudicate compute_hash hash_hand count
repeated_after_four = refl

two_checks : checks_in_row z four_moves ≡ (0, 2)
unfolding in_check attackers_to add_steppers is_square_attacked pieces occupied gold_like rook_like
    bishop_like pawn_effect_bb knight_effect_bb silver_effect_bb gold_effect_bb king_effect_bb
    horse_step_bb dragon_step_bb make_step_bb make_steps ◌+ℤ◌ square_of set_square any bb_and bb_or
    empty_position put_piece get_type get_color remove_piece do_move_internal is_drop from_square
    to_square is_promotion is_none promote rook_effect rook_effect_bb rook_file_effect
    rook_rank_effect bishop_effect bishop_effect_bb white_ray black_ray highest minus lance_mask_bb
    lance_effect set_ranks qugiy qugiy_mask make_ray_bb ray_from unpack decrement byte_reverse
    bswap64 bswap bb_xor make clear_square file_bb rank_bb bb_not square_bb checks_in_row
two_checks = refl
