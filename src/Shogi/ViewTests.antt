-- ===== src/Shogi/ViewTests.antt =====
-- A position turned round, and the declaration of an entering king, at concrete positions.
use jhbr.Base.{
  ◌+◌, ◌^◌, ◌<◌, ◌≡◌, ◌≢◌, refl, sym, ap, ◌∙◌, Bool, true, not, ◌&&◌, ◌||◌, ◌==◌, ltb, List, [],
  ◌∷◌, arith, ◌+ℤ◌,
}
use jhbr.Shogi.Piece.{Color, Piece, make, king, is_none, get_type, get_color}
use jhbr.Shogi.Piece.Laws.{get_type-make, get_color-make}
use jhbr.Shogi.Square.{Square, square_of, in_promotion_zone, rank_of, rank_in_promotion_zone}
use jhbr.Shogi.Position.{Position, side, piece_on, empty_position, put_piece}
use jhbr.Shogi.Position.Empty.{empty-Consistent, empty-KingsKnown}
use jhbr.Shogi.Position.Consistent.{Consistent, put_piece-Consistent}
use jhbr.Shogi.Position.Placement.{KingsKnown}
use jhbr.Shogi.Position.Invariant.{put_piece-KingsKnown}
use jhbr.Shogi.Hand.{count}
use jhbr.Base.Count.{count_from}
use jhbr.Shogi.Attacks.{
  in_check, is_square_attacked, pieces, occupied, gold_like, rook_like, bishop_like,
}
use jhbr.Shogi.Bitboard.{bb_and, bb_or, set_square, any, clear_square, bb_not}
use jhbr.Shogi.Attacks.Tables.{
  lance_mask_bb, set_ranks, make_ray_bb, ray_from, make_step_bb, make_steps, pawn_effect_bb,
  knight_effect_bb, silver_effect_bb, gold_effect_bb, king_effect_bb, horse_step_bb, dragon_step_bb,
}
use jhbr.Shogi.Attacks.Sliding.{
  minus, bswap, bswap64, highest, bb_xor, byte_reverse, unpack, decrement, qugiy, qugiy_mask,
  white_ray, black_ray, rook_rank_effect, rook_file_effect, rook_effect, rook_effect_bb,
  lance_effect, file_bb, square_bb, bishop_effect, bishop_effect_bb,
}
use jhbr.Shogi.Entering.{rank_bb}
use jhbr.Shogi.Tests.{start_position, start-WellFormed}
use jhbr.Shogi.Flipped.{flipped_board}
use jhbr.Shogi.Flipped.Board.{IsFlipOf, SameView, flipped_board_lem}
use jhbr.Shogi.Entering.{can_declare_win}
use jhbr.Shogi.Entering.Rule.{HasKing, board_points, hand_points}
use jhbr.Shogi.Entering.Info.{can_declare_win_lem}

flipped_board_lem_example :
    IsFlipOf start_position (flipped_board start_position)
    × SameView start_position (flipped_board (flipped_board start_position))
flipped_board_lem_example =
    flipped_board_lem start_position start-WellFormed.consistent start-WellFormed.known

-- Pieces put one after the other on an empty board, the last of the list first.
unfoldable lay : List (Square × Piece) → Position
lay [] = empty_position
lay ((sq, pc) ∷ rest) = put_piece sq pc (lay rest)

-- Each on an empty square of the board, and no second king of a side.
unfoldable fit : List (Square × Piece) → Bool
fit [] = true
fit ((sq, pc) ∷ rest) =
    let p = lay rest in
    let others = fit rest in
    ltb sq 81
    && (piece_on p sq == 0)
    && ltb 0 (get_type pc)
    && ltb (get_type pc) 15
    && ltb pc 32
    && (not (get_type pc == king) || side p.king_sq (get_color pc) == 81)
    && others

module _ (p : Position) (sq : Square) (pc : Piece) (known : KingsKnown p) where
  no_second_king :
      (not (get_type pc == king) || side p.king_sq (get_color pc) == 81) ≡ true
      → (k : Color) (s : Square) → s < 81
      → pc ≡ make k king
      → piece_on p s ≢ make k king
  no_second_king h k s lt e there =
      let t : get_type pc ≡ king = ap get_type e ∙ get_type-make k king (omega arith) in
      let c : get_color pc ≡ k = ap get_color e ∙ get_color-make k king (omega arith) in
      let free : side p.king_sq k ≡ 81 = ap (side p.king_sq) (sym c) ∙ ground (arith, h, t) in
      omega (arith, free, known k s lt there)

laid : (ps : List (Square × Piece)) → fit ps ≡ true → Consistent (lay ps) × KingsKnown (lay ps)
unfolding lay fit
laid [] h = (empty-Consistent, empty-KingsKnown)
laid ((sq, pc) ∷ rest) h =
    let below = laid rest (ground (arith, h)) in
    let small : sq < 81 = ground (arith, h) in
    (
      put_piece-Consistent (lay rest) below.0 sq small pc (ground (arith, h)) (ground (arith, h))
          (ground (arith, h)) (ground (arith, h)),
      put_piece-KingsKnown (lay rest) below.0 below.1 sq small pc
          (no_second_king (lay rest) sq pc below.1 (ground (arith, h))) (λ e. ground (arith, h)),
    )

-- The black king on 28 with ten men around it in the camp, four of them major, and the white king
-- far away on 80.
abbrev camp : List (Square × Piece)
camp =
    (28, 8)
    ∷ (80, 24)
    ∷ (0, 6)
    ∷ (1, 14)
    ∷ (2, 5)
    ∷ (9, 13)
    ∷ (10, 7)
    ∷ (11, 4)
    ∷ (18, 7)
    ∷ (19, 2)
    ∷ (20, 1)
    ∷ (27, 7)
    ∷ []

-- With a pawn and a gold in hand that makes 28 points.
abbrev entered : Position
entered = record (lay camp) { hand = record { of_black = 2 ^ 28 + 1; of_white = 0 } }

camp-laid : Consistent (lay camp) × KingsKnown (lay camp)
unfolding lay fit empty_position put_piece get_type get_color
camp-laid = laid camp refl

entered-Consistent : Consistent entered
entered-Consistent =
    let c = camp-laid.0 in
    record {
      squares = c.squares;
      types = c.types;
      valid = c.valid;
      color_agrees = c.color_agrees;
      type_agrees = c.type_agrees;
      color_canonical = c.color_canonical;
      type_canonical = c.type_canonical;
    }

king_on_28 : HasKing entered entered.side_to_move
unfolding lay empty_position put_piece make get_type get_color
king_on_28 = record { on_board = omega arith; there = refl }

can_declare_win_lem_example : can_declare_win in_check entered ≡ true
unfolding lay in_check is_square_attacked pieces occupied gold_like rook_like bishop_like
    pawn_effect_bb knight_effect_bb silver_effect_bb gold_effect_bb king_effect_bb horse_step_bb
    dragon_step_bb make_step_bb make_steps ◌+ℤ◌ square_of set_square any bb_and bb_or empty_position
    put_piece get_type get_color rook_effect rook_effect_bb rook_file_effect rook_rank_effect
    bishop_effect bishop_effect_bb white_ray black_ray highest minus lance_mask_bb lance_effect
    set_ranks qugiy qugiy_mask make_ray_bb ray_from unpack decrement byte_reverse bswap64 bswap
    bb_xor make clear_square file_bb rank_bb bb_not square_bb in_promotion_zone rank_of
    rank_in_promotion_zone count_from board_points hand_points count is_none
can_declare_win_lem_example =
    can_declare_win_lem in_check entered entered-Consistent camp-laid.1 king_on_28
