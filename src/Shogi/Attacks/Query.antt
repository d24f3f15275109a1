-- ===== src/Shogi/Attacks/Query.antt =====
-- IsSquareAttacked asks whether AttackersTo finds any attacker.
use jhbr.Base.{
  ℕ, ◌<◌, ◌≡◌, refl, ap, ◌∙◌, Bool, true, false, ◌&&◌, ◌||◌, arith, bit_and, bit_or, ◌==◌, ==→eq,
  if◌then◌else◌, check_below, check_below_lem, ltb, Bool-cases, inl, inr, pos, ◌+ℤ◌,
}
use jhbr.Shogi.Piece.{Color, black, white, opposite, lance}
use jhbr.Shogi.Square.{Square, square_of}
use jhbr.Shogi.Bitboard.{Bitboard, bb_split, bb_and, bb_or, bb_not, set_square, any}
use jhbr.Shogi.Position.{Position, side}
use jhbr.Shogi.Position.Consistent.{Consistent}
use jhbr.Shogi.Attacks.Union.{attackers_of_restricted}
use jhbr.Shogi.Entering.{rank_bb, rank_files}
use jhbr.Shogi.Attacks.Tables.{lance_mask_bb, set_ranks, make_ray_bb, ray_from, up, down}
use jhbr.Shogi.Attacks.Sliding.{
  minus, bswap, bswap64, bb_xor, byte_reverse, unpack, decrement, qugiy, qugiy_mask, white_ray,
  black_ray, ray_word, lance_effect, rook_file_effect, rook_rank_effect, rook_effect, bishop_effect,
  file_bb, square_bb, rook_effect_bb, bishop_effect_bb,
}
use jhbr.Shogi.Attacks.Within.{
  IsWithin, and_within, zero_within, or_within, within_trans, bb_or-IsWithin, IsWithin-trans,
  any-bb_or, slides_lem,
}
use jhbr.Shogi.Attacks.Reversed.{rays, qugiy-IsWithin}
use jhbr.Shogi.Attacks.{
  attackers_of, attackers_to, is_square_attacked, pieces, rook_like, bishop_like,
}

-- The masks of all squares, word by word.
abbrev covers : Bitboard → Bitboard → Bool
covers a m = (bit_and a.lo m.lo == a.lo) && (bit_and a.hi m.hi == a.hi)

covers-IsWithin : (a m : Bitboard) → covers a m ≡ true → IsWithin a m
covers-IsWithin a m h = record {
  lo_within = ==→eq _ _ (ground (arith, h));
  hi_within = ==→eq _ _ (ground (arith, h));
}

abbrev rank_rays : Square → Bitboard
rank_rays sq = rays (qugiy_mask (make_ray_bb sq down (pos 0)) (make_ray_bb sq up (pos 0)))

abbrev upper_rays : Square → Bitboard
upper_rays sq = rays (qugiy_mask (make_ray_bb sq down up) (make_ray_bb sq up up))

abbrev lower_rays : Square → Bitboard
lower_rays sq = rays (qugiy_mask (make_ray_bb sq down down) (make_ray_bb sq up down))

abbrev masks_fit : Square → Bool
masks_fit sq =
    covers (lance_mask_bb sq white) (rook_effect_bb sq)
    && (covers (lance_mask_bb sq black) (rook_effect_bb sq)
        && (covers (rank_rays sq) (rook_effect_bb sq)
            && (covers (upper_rays sq) (bishop_effect_bb sq)
                && covers (lower_rays sq) (bishop_effect_bb sq))))

masks_checked : check_below masks_fit 81 ≡ true
unfolding check_below lance_mask_bb rook_effect_bb bishop_effect_bb set_ranks set_square square_of
    bb_and bb_or bb_not file_bb square_bb rank_bb rank_files rays qugiy_mask make_ray_bb ray_from
    unpack byte_reverse bswap64 bswap bishop_effect qugiy decrement minus bb_xor ◌+ℤ◌
masks_checked = refl

module _ (sq : Square) (small : sq < 81) where
  fits : masks_fit sq ≡ true
  fits = check_below_lem masks_fit sq 81 small masks_checked

  white_fits : IsWithin (lance_mask_bb sq white) (rook_effect_bb sq)
  white_fits = covers-IsWithin _ _ (ground (arith, fits))

  black_fits : IsWithin (lance_mask_bb sq black) (rook_effect_bb sq)
  black_fits = covers-IsWithin _ _ (ground (arith, fits))

  rank_fits : IsWithin (rank_rays sq) (rook_effect_bb sq)
  rank_fits = covers-IsWithin _ _ (ground (arith, fits))

  upper_fits : IsWithin (upper_rays sq) (bishop_effect_bb sq)
  upper_fits = covers-IsWithin _ _ (ground (arith, fits))

  lower_fits : IsWithin (lower_rays sq) (bishop_effect_bb sq)
  lower_fits = covers-IsWithin _ _ (ground (arith, fits))

  module _ (occ : Bitboard) where
    ray_within : (c : Color) (m o : ℕ) → bit_and (ray_word c m o) m ≡ ray_word c m o
    unfolding white_ray black_ray
    ray_within black m o = and_within _ m
    ray_within white m o = and_within _ m

    -- Both rays of a file, in the word that has the square.
    both_within :
        (w b m o : ℕ)
        → bit_and w m ≡ w
        → bit_and b m ≡ b
        → bit_and (bit_or (white_ray w o) (black_ray b o)) m
          ≡ bit_or (white_ray w o) (black_ray b o)
    both_within w b m o h k =
        or_within (white_ray w o) (black_ray b o) m
          (within_trans (white_ray w o) w m (ray_within white w o) h)
          (within_trans (black_ray b o) b m (ray_within black b o) k)

    lance-IsWithin : (c : Color) → IsWithin (lance_effect c sq occ) (lance_mask_bb sq c)
    unfolding lance_effect
    lance-IsWithin c =
        let mask = lance_mask_bb sq c in
        elim (Bool-cases (ltb sq bb_split)) [
          | inl e ↦
              rw e (record {
                lo_within = ray_within c mask.lo occ.lo;
                hi_within = zero_within mask.hi;
              })
          | inr e ↦
              rw e (record {
                lo_within = zero_within mask.lo;
                hi_within = ray_within c mask.hi occ.hi;
              })
        ]

    file-IsWithin : IsWithin (rook_file_effect sq occ) (rook_effect_bb sq)
    unfolding rook_file_effect
    file-IsWithin =
        let w = lance_mask_bb sq white in
        let b = lance_mask_bb sq black in
        let m = rook_effect_bb sq in
        elim (Bool-cases (ltb sq bb_split)) [
          | inl e ↦ rw e (record {
            lo_within = both_within w.lo b.lo m.lo occ.lo white_fits.lo_within black_fits.lo_within;
            hi_within = zero_within m.hi;
          })
          | inr e ↦ rw e (record {
            lo_within = zero_within m.lo;
            hi_within = both_within w.hi b.hi m.hi occ.hi white_fits.hi_within black_fits.hi_within;
          })
        ]

    rook-IsWithin : IsWithin (rook_effect sq occ) (rook_effect_bb sq)
    unfolding rook_effect rook_rank_effect
    rook-IsWithin = bb_or-IsWithin _ _ _ file-IsWithin (
        IsWithin-trans _ (rank_rays sq) _
          (qugiy-IsWithin (qugiy_mask (make_ray_bb sq down (pos 0)) (make_ray_bb sq up (pos 0)))
            occ)
          rank_fits)

    bishop-IsWithin : IsWithin (bishop_effect sq occ) (bishop_effect_bb sq)
    unfolding bishop_effect
    bishop-IsWithin =
        bb_or-IsWithin _ _ _
          (IsWithin-trans _ (upper_rays sq) _
            (qugiy-IsWithin (qugiy_mask (make_ray_bb sq down up) (make_ray_bb sq up up)) occ)
            upper_fits)
          (IsWithin-trans _ (lower_rays sq) _
            (qugiy-IsWithin (qugiy_mask (make_ray_bb sq down down) (make_ray_bb sq up down)) occ)
            lower_fits)

-- The early returns in their order against the union in its own.
in_order :
    (pawns knights silvers golds kings horses dragons lances rooks bishops : Bool)
    → (if pawns
        then true
        else if knights
        then true
        else if silvers
        then true
        else if golds
        then true
        else if kings
        then true
        else if horses
        then true
        else if dragons
        then true
        else if lances
        then true
        else if rooks
        then true
        else if bishops
        then true
        else false)
      ≡ (pawns || knights || silvers || golds || lances || kings || rooks || bishops || horses
          || dragons)
in_order a b c d e f g h i j = ground arith

-- Against AttackersTo of one side.
is_square_attacked-any :
    (p : Position) (sq : Square) (occ : Bitboard) (c : Color)
    → sq < 81
    → is_square_attacked p sq occ c ≡ any (attackers_of p sq occ c)
unfolding is_square_attacked attackers_of
is_square_attacked-any p sq occ c small =
    simp
      (
        slides_lem (lance_mask_bb sq (opposite c)) (lance_effect (opposite c) sq occ)
            (pieces p c lance) (lance-IsWithin sq small occ (opposite c)),
        slides_lem (rook_effect_bb sq) (rook_effect sq occ) (rook_like p c)
            (rook-IsWithin sq small occ),
        slides_lem (bishop_effect_bb sq) (bishop_effect sq occ) (bishop_like p c)
            (bishop-IsWithin sq small occ),
        any-bb_or,
      )
      (search in_order)

-- In a position whose bitboards agree with its board, IsSquareAttacked answers for any square of the board
-- and any occupation whether AttackersTo of both sides, restricted to the pieces of the attacker, holds a
-- square.
pub is_square_attacked_lem :
    (p : Position) (sq : Square) (occ : Bitboard) (c : Color)
    → Consistent p
    → sq < 81
    → is_square_attacked p sq occ c ≡ any (bb_and (attackers_to p sq occ) (side p.by_color c))
is_square_attacked_lem p sq occ c k small =
    is_square_attacked-any p sq occ c small ∙ ap any (attackers_of_restricted p k sq occ c)
