-- ===== src/Shogi/Attacks/Tables.antt =====
-- The step and ray tables that Init of shogi/bitboard.cc makes.
use jhbr.Base.{
  ℕ, zero, suc, ◌+◌, ◌-◌, ◌/◌, ◌%◌, Bool, not, ◌&&◌, List, [], ◌∷◌, if◌then◌else◌, ℤ, pos, negsuc,
  ◌+ℤ◌, ltℤ, pos_part,
}
use jhbr.Shogi.Piece.{Color, black, white}
use jhbr.Shogi.Square.{Square, square_of}
use jhbr.Shogi.Bitboard.{Bitboard, bb_zero, set_square}

abbrev pub on_board : ℤ → ℤ → Bool
on_board nf nr =
    not (ltℤ nf (pos 0)) && (ltℤ nf (pos 9) && (not (ltℤ nr (pos 0)) && ltℤ nr (pos 9)))

-- The loop of MakeStepBB over the deltas, files first.
unfoldable pub make_steps : ℕ → ℕ → List (ℤ × ℤ) → Bitboard → Bitboard
make_steps f r [] b = b
make_steps f r ((df, dr) ∷ deltas) b =
    let nf = pos f +ℤ df in
    let nr = pos r +ℤ dr in
    make_steps f r deltas
      (if on_board nf nr then set_square b (square_of (pos_part nf) (pos_part nr)) else b)

-- MakeStepBB
unfoldable pub make_step_bb : Square → List (ℤ × ℤ) → Bitboard
make_step_bb sq deltas = make_steps (sq / 9) (sq % 9) deltas bb_zero

-- One less and one more, of a file or a rank.
abbrev pub up : ℤ
up = negsuc 0

abbrev pub down : ℤ
down = pos 1

-- The rank step forwards and back.
abbrev pub ahead : Color → ℤ
ahead black = up
ahead white = down

abbrev pub behind : Color → ℤ
behind black = down
behind white = up

abbrev pub jump : Color → ℤ
jump black = negsuc 1
jump white = pos 2

unfoldable pub pawn_effect_bb : Square → Color → Bitboard
pawn_effect_bb sq c = make_step_bb sq ((pos 0, ahead c) ∷ [])

unfoldable pub knight_effect_bb : Square → Color → Bitboard
knight_effect_bb sq c = make_step_bb sq ((up, jump c) ∷ (down, jump c) ∷ [])

unfoldable pub silver_effect_bb : Square → Color → Bitboard
silver_effect_bb sq c =
    make_step_bb sq
      ((pos 0, ahead c) ∷ (up, ahead c) ∷ (down, ahead c) ∷ (up, behind c) ∷ (down, behind c) ∷ [])

unfoldable pub gold_effect_bb : Square → Color → Bitboard
gold_effect_bb sq c = make_step_bb sq (
    (pos 0, ahead c)
    ∷ (up, ahead c)
    ∷ (down, ahead c)
    ∷ (up, pos 0)
    ∷ (down, pos 0)
    ∷ (pos 0, behind c)
    ∷ [])

unfoldable pub king_effect_bb : Square → Bitboard
king_effect_bb sq = make_step_bb sq (
    (up, up)
    ∷ (up, pos 0)
    ∷ (up, down)
    ∷ (pos 0, up)
    ∷ (pos 0, down)
    ∷ (down, up)
    ∷ (down, pos 0)
    ∷ (down, down)
    ∷ [])

unfoldable pub horse_step_bb : Square → Bitboard
horse_step_bb sq = make_step_bb sq ((pos 0, up) ∷ (pos 0, down) ∷ (up, pos 0) ∷ (down, pos 0) ∷ [])

unfoldable pub dragon_step_bb : Square → Bitboard
dragon_step_bb sq = make_step_bb sq ((up, up) ∷ (up, down) ∷ (down, up) ∷ (down, down) ∷ [])

-- The ranks from `rr` on of a file, `n` of which are left.
unfoldable pub set_ranks : ℕ → ℕ → ℕ → Bitboard → Bitboard
set_ranks f rr zero b = b
set_ranks f rr (suc n) b = set_ranks f (rr + 1) n (set_square b (square_of f rr))

unfoldable pub lance_mask_bb : Square → Color → Bitboard
lance_mask_bb sq black = set_ranks (sq / 9) 0 (sq % 9) bb_zero
lance_mask_bb sq white = set_ranks (sq / 9) (sq % 9 + 1) (8 - sq % 9) bb_zero

-- The loop of MakeRayBB; a ray has at most eight squares.
unfoldable pub ray_from : ℕ → ℤ → ℤ → ℤ → ℤ → Bitboard → Bitboard
ray_from zero nf nr df dr b = b
ray_from (suc fuel) nf nr df dr b =
    let rest =
      ray_from fuel (nf +ℤ df) (nr +ℤ dr) df dr
        (set_square b (square_of (pos_part nf) (pos_part nr))) in
    if on_board nf nr then rest else b

-- MakeRayBB
unfoldable pub make_ray_bb : Square → ℤ → ℤ → Bitboard
make_ray_bb sq df dr = ray_from 9 (pos (sq / 9) +ℤ df) (pos (sq % 9) +ℤ dr) df dr bb_zero
