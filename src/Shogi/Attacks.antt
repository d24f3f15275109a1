-- ===== src/Shogi/Attacks.antt =====
-- Attack queries of shogi/board.cc, on the tables and sliding effects of shogi/bitboard.h.
pub mod Tables
pub mod Sliding
pub mod Union
pub mod Within
pub mod Reversed
pub mod Query
use jhbr.Base.{Bool, true, false, ◌==◌, ◌||◌, if◌then◌else◌}
use jhbr.Shogi.Piece.{
  Color, black, white, opposite, PieceType, pawn, lance, knight, silver, bishop, rook, gold, king,
  pro_pawn, pro_lance, pro_knight, pro_silver, horse, dragon,
}
use jhbr.Shogi.Square.{Square}
use jhbr.Shogi.Bitboard.{Bitboard, bb_zero, bb_and, bb_or, any}
use jhbr.Shogi.Position.{Position, side, type_board}
use jhbr.Shogi.Attacks.Tables.{
  pawn_effect_bb, knight_effect_bb, silver_effect_bb, gold_effect_bb, king_effect_bb, horse_step_bb,
  dragon_step_bb, lance_mask_bb,
}
use jhbr.Shogi.Attacks.Sliding.{
  lance_effect, rook_effect, bishop_effect, rook_effect_bb, bishop_effect_bb,
}

abbrev pub is_gold_like : PieceType → Bool
is_gold_like pt =
    pt == gold || (pt == pro_pawn || (pt == pro_lance || (pt == pro_knight || pt == pro_silver)))

-- ShogiBoard::StepAttacks
unfoldable pub step_attacks : PieceType → Color → Square → Bitboard
step_attacks pt c sq =
    if pt == pawn
    then pawn_effect_bb sq c
    else if pt == knight
    then knight_effect_bb sq c
    else if pt == silver
    then silver_effect_bb sq c
    else if is_gold_like pt
    then gold_effect_bb sq c
    else if pt == king
    then king_effect_bb sq
    else if pt == horse
    then horse_step_bb sq
    else if pt == dragon
    then dragon_step_bb sq
    else bb_zero

-- ShogiBoard::SlidingAttacks
unfoldable pub sliding_attacks : PieceType → Color → Square → Bitboard → Bitboard
sliding_attacks pt c sq occ =
    if pt == lance
    then lance_effect c sq occ
    else if pt == bishop || pt == horse
    then bishop_effect sq occ
    else if pt == rook || pt == dragon
    then rook_effect sq occ
    else bb_zero

-- ShogiBoard::PieceAttacks
unfoldable pub piece_attacks : PieceType → Color → Square → Bitboard → Bitboard
piece_attacks pt c sq occ =
    if pt == pawn
    then pawn_effect_bb sq c
    else if pt == lance
    then lance_effect c sq occ
    else if pt == knight
    then knight_effect_bb sq c
    else if pt == silver
    then silver_effect_bb sq c
    else if pt == bishop
    then bishop_effect sq occ
    else if pt == rook
    then rook_effect sq occ
    else if is_gold_like pt
    then gold_effect_bb sq c
    else if pt == king
    then king_effect_bb sq
    else if pt == horse
    then bb_or (bishop_effect sq occ) (horse_step_bb sq)
    else if pt == dragon
    then bb_or (rook_effect sq occ) (dragon_step_bb sq)
    else bb_zero

-- pieces(c, pt) and pieces()
unfoldable pub pieces : Position → Color → PieceType → Bitboard
pieces p c pt = bb_and (side p.by_color c) (type_board p pt)

unfoldable pub occupied : Position → Bitboard
occupied p = bb_or p.by_color.of_black p.by_color.of_white

unfoldable pub gold_like : Position → Color → Bitboard
gold_like p c =
    bb_or
      (bb_or (bb_or (bb_or (pieces p c gold) (pieces p c pro_pawn)) (pieces p c pro_lance))
        (pieces p c pro_knight))
      (pieces p c pro_silver)

-- A round of the loop over the colours of AttackersTo.
unfoldable pub add_steppers : Position → Square → Bitboard → Color → Bitboard → Bitboard
add_steppers p sq occ c attackers =
    let a1 = bb_or attackers (bb_and (pawn_effect_bb sq (opposite c)) (pieces p c pawn)) in
    let a2 = bb_or a1 (bb_and (knight_effect_bb sq (opposite c)) (pieces p c knight)) in
    let a3 = bb_or a2 (bb_and (silver_effect_bb sq (opposite c)) (pieces p c silver)) in
    let a4 = bb_or a3 (bb_and (gold_effect_bb sq (opposite c)) (gold_like p c)) in
    bb_or a4 (bb_and (lance_effect (opposite c) sq occ) (pieces p c lance))

-- AttackersTo(sq, occ)
unfoldable pub attackers_to : Position → Square → Bitboard → Bitboard
attackers_to p sq occ =
    let a0 = add_steppers p sq occ white (add_steppers p sq occ black bb_zero) in
    let a1 = bb_or a0 (bb_and (king_effect_bb sq) (type_board p king)) in
    let straight = rook_effect sq occ in
    let a2 = bb_or a1 (bb_and straight (bb_or (type_board p rook) (type_board p dragon))) in
    let diag = bishop_effect sq occ in
    let a3 = bb_or a2 (bb_and diag (bb_or (type_board p bishop) (type_board p horse))) in
    let a4 = bb_or a3 (bb_and (horse_step_bb sq) (type_board p horse)) in
    bb_or a4 (bb_and (dragon_step_bb sq) (type_board p dragon))

unfoldable pub rook_like : Position → Color → Bitboard
rook_like p c = bb_or (pieces p c rook) (pieces p c dragon)

unfoldable pub bishop_like : Position → Color → Bitboard
bishop_like p c = bb_or (pieces p c bishop) (pieces p c horse)

-- AttackersTo(sq, occ, attacker)
unfoldable pub attackers_of : Position → Square → Bitboard → Color → Bitboard
attackers_of p sq occ c =
    let a1 = bb_and (pawn_effect_bb sq (opposite c)) (pieces p c pawn) in
    let a2 = bb_or a1 (bb_and (knight_effect_bb sq (opposite c)) (pieces p c knight)) in
    let a3 = bb_or a2 (bb_and (silver_effect_bb sq (opposite c)) (pieces p c silver)) in
    let a4 = bb_or a3 (bb_and (gold_effect_bb sq (opposite c)) (gold_like p c)) in
    let a5 = bb_or a4 (bb_and (lance_effect (opposite c) sq occ) (pieces p c lance)) in
    let a6 = bb_or a5 (bb_and (king_effect_bb sq) (pieces p c king)) in
    let a7 = bb_or a6 (bb_and (rook_effect sq occ) (rook_like p c)) in
    let a8 = bb_or a7 (bb_and (bishop_effect sq occ) (bishop_like p c)) in
    let a9 = bb_or a8 (bb_and (horse_step_bb sq) (pieces p c horse)) in
    bb_or a9 (bb_and (dragon_step_bb sq) (pieces p c dragon))

-- A slider that the empty board lets through and the occupied one too.
abbrev pub slides : Bitboard → Bitboard → Bitboard → Bool
slides mask effect sliders =
    if any (bb_and mask sliders) then any (bb_and effect sliders) else false

-- IsSquareAttacked
unfoldable pub is_square_attacked : Position → Square → Bitboard → Color → Bool
is_square_attacked p sq occ c =
    if any (bb_and (pawn_effect_bb sq (opposite c)) (pieces p c pawn))
    then true
    else if any (bb_and (knight_effect_bb sq (opposite c)) (pieces p c knight))
    then true
    else if any (bb_and (silver_effect_bb sq (opposite c)) (pieces p c silver))
    then true
    else if any (bb_and (gold_effect_bb sq (opposite c)) (gold_like p c))
    then true
    else if any (bb_and (king_effect_bb sq) (pieces p c king))
    then true
    else if any (bb_and (horse_step_bb sq) (pieces p c horse))
    then true
    else if any (bb_and (dragon_step_bb sq) (pieces p c dragon))
    then true
    else if slides (lance_mask_bb sq (opposite c)) (lance_effect (opposite c) sq occ)
        (pieces p c lance)
    then true
    else if slides (rook_effect_bb sq) (rook_effect sq occ) (rook_like p c)
    then true
    else if slides (bishop_effect_bb sq) (bishop_effect sq occ) (bishop_like p c)
    then true
    else false

-- InCheck
unfoldable pub in_check : Position → Color → Bool
in_check p c = is_square_attacked p (side p.king_sq c) (occupied p) (opposite c)
