-- ===== src/Shogi/Attacks/Sliding.antt =====
-- The sliding effects of shogi/bitboard.h: rays by subtraction, the other direction by byte reversal.
-- The SIMD paths compute the same words as the portable ones.
use jhbr.Base.{
  ℕ, zero, suc, ◌+◌, ◌-◌, ◌*◌, ◌/◌, ◌%◌, ◌^◌, bit_and, bit_or, bit_xor, ltb, ◌==◌, if◌then◌else◌,
  pos,
}
use jhbr.Shogi.Piece.{Color, black, white}
use jhbr.Shogi.Square.{Square}
use jhbr.Shogi.Bitboard.{Bitboard, bb_split, bb_zero, bb_and, bb_or, bb_not, set_square}
use jhbr.Shogi.Entering.{rank_bb}
use jhbr.Shogi.Attacks.Tables.{lance_mask_bb, make_ray_bb, set_ranks, up, down}

-- `x - b` in 64 bits, for b of 0 or 1.
unfoldable pub minus : ℕ → ℕ → ℕ
minus x b = (x + 2 ^ 64 - b) % 2 ^ 64

-- __builtin_bswap64: `n` bytes are left.
unfoldable pub bswap : ℕ → ℕ → ℕ → ℕ
bswap zero x acc = acc
bswap (suc n) x acc = bswap n (x / 256) (acc * 256 + x % 256)

unfoldable pub bswap64 : ℕ → ℕ
bswap64 x = bswap 8 x 0

-- The highest digit of a word of `n` digits, 63 - __builtin_clzll.
unfoldable pub highest : ℕ → ℕ → ℕ
highest zero x = 0
highest (suc n) x = let rest = highest n (x / 2) in if ltb x 2 then 0 else suc rest

unfoldable pub bb_xor : Bitboard → Bitboard → Bitboard
bb_xor a b = record { lo = bit_xor a.lo b.lo; hi = bit_xor a.hi b.hi }

-- byte_reverse
unfoldable pub byte_reverse : Bitboard → Bitboard
byte_reverse b = record { lo = bswap64 b.hi; hi = bswap64 b.lo }

-- The two results of Unpack and Decrement, hi_out and lo_out.
pub record HiLo : Type 0 where
  pub hi_out : Bitboard
  pub lo_out : Bitboard

unfoldable pub unpack : Bitboard → Bitboard → HiLo
unpack hi_in lo_in = record {
  hi_out = record { lo = lo_in.hi; hi = hi_in.hi };
  lo_out = record { lo = lo_in.lo; hi = hi_in.lo };
}

unfoldable pub decrement : Bitboard → Bitboard → HiLo
decrement hi_in lo_in = record {
  hi_out = record {
    lo = minus hi_in.lo (if lo_in.lo == 0 then 1 else 0);
    hi = minus hi_in.hi (if lo_in.hi == 0 then 1 else 0);
  };
  lo_out = record { lo = minus lo_in.lo 1; hi = minus lo_in.hi 1 };
}

-- The steps that RookRankEffect takes on one bitboard and BishopEffect on each of the two halves of a
-- Bitboard256.
unfoldable pub qugiy : HiLo → Bitboard → Bitboard
qugiy mask occ =
    let u = unpack (byte_reverse occ) occ in
    let hi = bb_and u.hi_out mask.hi_out in
    let lo = bb_and u.lo_out mask.lo_out in
    let t = decrement hi lo in
    let t1 = bb_and (bb_xor t.hi_out hi) mask.hi_out in
    let t0 = bb_and (bb_xor t.lo_out lo) mask.lo_out in
    let v = unpack t1 t0 in bb_or (byte_reverse v.hi_out) v.lo_out

-- InitQugiyMasks: the mask of a ray to the left with a ray to the right.
unfoldable pub qugiy_mask : Bitboard → Bitboard → HiLo
qugiy_mask left right = unpack (byte_reverse right) left

unfoldable pub rook_rank_effect : Square → Bitboard → Bitboard
rook_rank_effect sq occ =
    qugiy (qugiy_mask (make_ray_bb sq down (pos 0)) (make_ray_bb sq up (pos 0))) occ

unfoldable pub bishop_effect : Square → Bitboard → Bitboard
bishop_effect sq occ =
    bb_or (qugiy (qugiy_mask (make_ray_bb sq down up) (make_ray_bb sq up up)) occ)
      (qugiy (qugiy_mask (make_ray_bb sq down down) (make_ray_bb sq up down)) occ)

-- The words of the lance rays: towards higher and towards lower digits.
unfoldable pub white_ray : ℕ → ℕ → ℕ
white_ray mask occ = let mocc = bit_and occ mask in bit_and (bit_xor mocc (minus mocc 1)) mask

unfoldable pub black_ray : ℕ → ℕ → ℕ
black_ray mask occ =
    let mocc = bit_and occ mask in
    bit_and ((2 ^ 64 - 1) * 2 ^ highest 64 (bit_or mocc 1) % 2 ^ 64) mask

abbrev pub ray_word : Color → ℕ → ℕ → ℕ
ray_word black = black_ray
ray_word white = white_ray

unfoldable pub lance_effect : Color → Square → Bitboard → Bitboard
lance_effect c sq occ =
    let mask = lance_mask_bb sq c in
    if ltb sq bb_split
    then record { lo = ray_word c mask.lo occ.lo; hi = 0 }
    else record { lo = 0; hi = ray_word c mask.hi occ.hi }

unfoldable pub rook_file_effect : Square → Bitboard → Bitboard
rook_file_effect sq occ =
    let white_mask = lance_mask_bb sq white in
    let black_mask = lance_mask_bb sq black in
    if ltb sq bb_split
    then record {
      lo = bit_or (white_ray white_mask.lo occ.lo) (black_ray black_mask.lo occ.lo);
      hi = 0;
    }
    else record {
      lo = 0;
      hi = bit_or (white_ray white_mask.hi occ.hi) (black_ray black_mask.hi occ.hi);
    }

unfoldable pub rook_effect : Square → Bitboard → Bitboard
rook_effect sq occ = bb_or (rook_file_effect sq occ) (rook_rank_effect sq occ)

-- FileBB and SquareBB.
unfoldable pub file_bb : ℕ → Bitboard
file_bb f = set_ranks f 0 9 bb_zero

unfoldable pub square_bb : Square → Bitboard
square_bb sq = set_square bb_zero sq

-- InitEmptySliderEffects
unfoldable pub rook_effect_bb : Square → Bitboard
rook_effect_bb sq = bb_and (bb_or (file_bb (sq / 9)) (rank_bb (sq % 9))) (bb_not (square_bb sq))

unfoldable pub bishop_effect_bb : Square → Bitboard
bishop_effect_bb sq = bishop_effect sq bb_zero
