-- ===== src/Shogi/Bitboard.antt =====
-- class Bitboard of shogi/bitboard.h: a set of squares in two 64-bit words, squares 0 to 62 in the
-- first and 63 to 80 in the second. The SSE2 paths compute the same words.
pub mod Laws
pub mod Count
use jhbr.Base.{
  ℕ, ◌+◌, ◌-◌, ◌%◌, ◌^◌, bit_and, bit_or, bit_xor, Bool, not, ◌||◌, ◌==◌, ltb, if◌then◌else◌,
}
use jhbr.Base.Count.{popcount}
use jhbr.Shogi.Square.{Square}

pub record Bitboard : Type 0 where
  pub lo : ℕ
  pub hi : ℕ

abbrev pub bb_split : ℕ
bb_split = 63

abbrev pub bb_zero : Bitboard
bb_zero = record { lo = 0; hi = 0 }

abbrev pub bb_mask0 : ℕ
bb_mask0 = 0x7FFF_FFFF_FFFF_FFFF

abbrev pub bb_mask1 : ℕ
bb_mask1 = 0x0000_0000_0003_FFFF

abbrev pub bb_all : Bitboard
bb_all = record { lo = bb_mask0; hi = bb_mask1 }

unfoldable pub test : Bitboard → Square → Bool
test b sq =
    if ltb sq bb_split
    then not (bit_and b.lo (2 ^ sq) == 0)
    else not (bit_and b.hi (2 ^ (sq - bb_split)) == 0)

unfoldable pub set_square : Bitboard → Square → Bitboard
set_square b sq =
    if ltb sq bb_split
    then record b { lo = bit_or b.lo (2 ^ sq) }
    else record b { hi = bit_or b.hi (2 ^ (sq - bb_split)) }

-- `~` within 64 bits.
unfoldable pub clear_square : Bitboard → Square → Bitboard
clear_square b sq =
    if ltb sq bb_split
    then record b { lo = bit_and b.lo (2 ^ 64 - 1 - 2 ^ sq) }
    else record b { hi = bit_and b.hi (2 ^ 64 - 1 - 2 ^ (sq - bb_split)) }

unfoldable pub bb_or : Bitboard → Bitboard → Bitboard
bb_or a b = record { lo = bit_or a.lo b.lo; hi = bit_or a.hi b.hi }

unfoldable pub bb_and : Bitboard → Bitboard → Bitboard
bb_and a b = record { lo = bit_and a.lo b.lo; hi = bit_and a.hi b.hi }

-- `(~this) & ALL`
unfoldable pub bb_not : Bitboard → Bitboard
bb_not a = record {
  lo = bit_and (2 ^ 64 - 1 - a.lo) bb_mask0;
  hi = bit_and (2 ^ 64 - 1 - a.hi) bb_mask1;
}

unfoldable pub any : Bitboard → Bool
any b = not (bit_or b.lo b.hi == 0)

-- PopCount
unfoldable pub pop_count : Bitboard → ℕ
pop_count b = popcount 64 b.lo + popcount 64 b.hi
