-- ===== src/Shogi/Hand/Count.antt =====
-- The counts in a hand, and how adding and removing a piece moves them.
use jhbr.Base.{
  ℕ, zero, suc, ◌+◌, ◌*◌, ◌/◌, ◌%◌, ◌^◌, ◌<◌, ◌≡◌, ◌∙◌, not, arith, ◌==◌, if◌then◌else◌,
}
use jhbr.Base.Words.{bit_and-mask, bit_and-zero, bit_and-shifted}
use native.Mathlib.Nat.{one-le-pow}
use jhbr.Shogi.Piece.{PieceType}
use jhbr.Shogi.Hand.{Hand, count, has, add, sub, shift_of, mask_of, one_of}

-- The seven counts of a hand.
pub record Counts : Type 0 where
  pub pawns : ℕ
  pub lances : ℕ
  pub knights : ℕ
  pub silvers : ℕ
  pub bishops : ℕ
  pub rooks : ℕ
  pub golds : ℕ

-- Each count within its field.
pub record Fits (c : Counts) : Type 0 where
  pub pawns_fit : c.pawns < 32
  pub lances_fit : c.lances < 8
  pub knights_fit : c.knights < 8
  pub silvers_fit : c.silvers < 8
  pub bishops_fit : c.bishops < 4
  pub rooks_fit : c.rooks < 4
  pub golds_fit : c.golds < 8

-- The word with these counts and zeros in the gaps.
abbrev pub pack : Counts → Hand
pack c =
    c.pawns
    + c.lances * 256
    + c.knights * 4096
    + c.silvers * 65536
    + c.bishops * 1048576
    + c.rooks * 16777216
    + c.golds * 268435456

abbrev pub tally : Counts → PieceType → ℕ
tally c pt =
    if pt == 1
    then c.pawns
    else if pt == 2
    then c.lances
    else if pt == 3
    then c.knights
    else if pt == 4
    then c.silvers
    else if pt == 5
    then c.bishops
    else if pt == 6
    then c.rooks
    else if pt == 7
    then c.golds
    else 0

module _ (c : Counts) (f : Fits c) where
  count_pawns : pack c / 2 ^ 0 % 2 ^ 5 ≡ c.pawns
  count_pawns = omega arith

  count_lances : pack c / 2 ^ 8 % 2 ^ 3 ≡ c.lances
  count_lances = omega arith

  count_knights : pack c / 2 ^ 12 % 2 ^ 3 ≡ c.knights
  count_knights = omega arith

  count_silvers : pack c / 2 ^ 16 % 2 ^ 3 ≡ c.silvers
  count_silvers = omega arith

  count_bishops : pack c / 2 ^ 20 % 2 ^ 2 ≡ c.bishops
  count_bishops = omega arith

  count_rooks : pack c / 2 ^ 24 % 2 ^ 2 ≡ c.rooks
  count_rooks = omega arith

  count_golds : pack c / 2 ^ 28 % 2 ^ 3 ≡ c.golds
  count_golds = omega arith

  -- `Count` reads the count of each type from a hand without stray bits.
  pub count-pack : (pt : PieceType) → count (pack c) pt ≡ tally c pt
  unfolding count
  count-pack zero = bit_and-zero _
  count-pack (suc zero) = bit_and-mask 5 _ ∙ count_pawns
  count-pack (suc (suc zero)) = bit_and-mask 3 _ ∙ count_lances
  count-pack (suc (suc (suc zero))) = bit_and-mask 3 _ ∙ count_knights
  count-pack (suc (suc (suc (suc zero)))) = bit_and-mask 3 _ ∙ count_silvers
  count-pack (suc (suc (suc (suc (suc zero))))) = bit_and-mask 2 _ ∙ count_bishops
  count-pack (suc (suc (suc (suc (suc (suc zero)))))) = bit_and-mask 2 _ ∙ count_rooks
  count-pack (suc (suc (suc (suc (suc (suc (suc zero))))))) = bit_and-mask 3 _ ∙ count_golds
  count-pack (suc (suc (suc (suc (suc (suc (suc (suc n)))))))) = bit_and-zero _ ∙ ground arith

-- One more piece of a type.
abbrev pub bump : Counts → PieceType → Counts
bump c pt = record {
  pawns = if pt == 1 then c.pawns + 1 else c.pawns;
  lances = if pt == 2 then c.lances + 1 else c.lances;
  knights = if pt == 3 then c.knights + 1 else c.knights;
  silvers = if pt == 4 then c.silvers + 1 else c.silvers;
  bishops = if pt == 5 then c.bishops + 1 else c.bishops;
  rooks = if pt == 6 then c.rooks + 1 else c.rooks;
  golds = if pt == 7 then c.golds + 1 else c.golds;
}

pub pack-lt : (c : Counts) → Fits c → pack c < 2 ^ 32
pack-lt c f = omega arith

pub pack-bump : (c : Counts) (pt : PieceType) → pack (bump c pt) ≡ pack c + one_of pt
pack-bump c zero = omega arith
pack-bump c (suc zero) = omega arith
pack-bump c (suc (suc zero)) = omega arith
pack-bump c (suc (suc (suc zero))) = omega arith
pack-bump c (suc (suc (suc (suc zero)))) = omega arith
pack-bump c (suc (suc (suc (suc (suc zero))))) = omega arith
pack-bump c (suc (suc (suc (suc (suc (suc zero)))))) = omega arith
pack-bump c (suc (suc (suc (suc (suc (suc (suc zero))))))) = omega arith
pack-bump c (suc (suc (suc (suc (suc (suc (suc (suc n)))))))) = ground arith

-- `Add` counts one more piece of the type and of no other, while the count fits its field.
pub add-pack : (c : Counts) (pt : PieceType) → Fits (bump c pt) → add (pack c) pt ≡ pack (bump c pt)
unfolding add
add-pack c pt f = omega (arith, pack-bump c pt, pack-lt (bump c pt) f)

-- `Sub` takes back what `Add` put in.
pub sub-pack : (c : Counts) (pt : PieceType) → Fits (bump c pt) → sub (pack (bump c pt)) pt ≡ pack c
unfolding sub
sub-pack c pt f = omega (arith, pack-bump c pt, pack-lt (bump c pt) f)

-- `Has` tells whether the count is positive.
pub has_iff : (h : Hand) (pt : PieceType) → has h pt ≡ not (count h pt == 0)
unfolding has count
has_iff h pt =
    ground (arith, bit_and-shifted (shift_of pt) h (mask_of pt), one-le-pow (shift_of pt) 2)
