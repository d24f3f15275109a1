-- ===== src/Shogi/Entering/Zones.antt =====
-- The promotion zones as sets of squares.
use jhbr.Base.{◌<◌, ◌≡◌, refl, Bool, true, not, ◌&&◌, ◌||◌, arith, check_below, check_below_lem}
use jhbr.Shogi.Piece.{Color, black, white}
use jhbr.Shogi.Square.{Square, in_promotion_zone, rank_of, rank_in_promotion_zone, square_of}
use jhbr.Shogi.Bitboard.{test, set_square, bb_or}
use jhbr.Shogi.Entering.{rank_files, rank_bb, promotion_zone}

abbrev alike : Bool → Bool → Bool
alike a b = (a && b) || (not a && not b)

zone_table :
    (c : Color)
    → check_below (λ s. alike (test (promotion_zone c) s) (in_promotion_zone c s)) 81 ≡ true
unfolding check_below promotion_zone rank_bb rank_files test set_square bb_or in_promotion_zone
    rank_of rank_in_promotion_zone square_of
zone_table black = refl
zone_table white = refl

-- The table holds the squares of the zone.
pub test-promotion_zone :
    (c : Color) (s : Square) → s < 81 → test (promotion_zone c) s ≡ in_promotion_zone c s
test-promotion_zone c s h = ground (
  arith,
  check_below_lem (λ t. alike (test (promotion_zone c) t) (in_promotion_zone c t)) s 81 h
      (zone_table c),
)
