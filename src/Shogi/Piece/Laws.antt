-- ===== src/Shogi/Piece/Laws.antt =====
-- How the parts of a piece byte are read back, and how promotion is undone.
use jhbr.Base.{
  ℕ, ◌+◌, ◌-◌, ◌%◌, ◌≤◌, ◌<◌, ◌≡◌, refl, ◌∙◌, true, false, ◌||◌, arith, ltb, leb, ◌==◌, check_below,
  check_below_lem,
}
use jhbr.Base.Words.{bit_and-mask}
use jhbr.Shogi.Piece.{
  Color, black, white, PieceType, Piece, make, get_color, get_type, is_none, promote, unpromote,
  unpromote_type,
}

pub get_type-mod : (val : ℕ) → get_type val ≡ val % 16
unfolding get_type
get_type-mod val = bit_and-mask 4 val

pub get_type-make : (c : Color) (pt : PieceType) → pt < 16 → get_type (make c pt) ≡ pt
unfolding make
get_type-make black pt h = get_type-mod _ ∙ omega arith
get_type-make white pt h = get_type-mod _ ∙ omega arith

pub get_color-make : (c : Color) (pt : PieceType) → pt < 16 → get_color (make c pt) ≡ c
unfolding make get_color
get_color-make black pt h = ground arith
get_color-make white pt h = ground arith

pub make-lt : (c : Color) (pt : PieceType) → pt < 16 → make c pt < 32
unfolding make
make-lt black pt h = omega arith
make-lt white pt h = omega arith

pub make-ne-zero : (c : Color) (pt : PieceType) → 0 < pt → pt < 16 → is_none (make c pt) ≡ false
unfolding make is_none
make-ne-zero black pt p h = ground arith
make-ne-zero white pt p h = ground arith

-- Every byte below 32 is the piece of its colour and type.
pub make_lem : (val : ℕ) → val < 32 → make (get_color val) (get_type val) ≡ val
unfolding make get_color
make_lem val h = rw (get_type-mod val) (ground arith)

pub unpromote_type-mod : (pt : ℕ) → unpromote_type pt ≡ pt % 8
unfolding unpromote_type
unpromote_type-mod pt = bit_and-mask 3 pt

promote_table : check_below (λ v. leb 8 (v % 16) || (promote v == v + 8)) 32 ≡ true
unfolding check_below promote
promote_table = refl

unpromote_table : check_below (λ v. ltb (v % 16) 8 || (unpromote v == v - 8)) 32 ≡ true
unfolding check_below unpromote
unpromote_table = refl

pub promote-add : (val : Piece) → val < 32 → get_type val < 8 → promote val ≡ val + 8
promote-add val h k = ground (arith, get_type-mod val, check_below_lem _ val 32 h promote_table)

pub unpromote-sub : (val : Piece) → val < 32 → 8 ≤ get_type val → unpromote val ≡ val - 8
unpromote-sub val h k = ground (arith, get_type-mod val, check_below_lem _ val 32 h unpromote_table)

-- A piece and its promotion.
pub record IsPromotionOf (val up : Piece) : Type 0 where
  pub range : up < 32
  pub type : get_type up ≡ get_type val + 8
  pub color : get_color up ≡ get_color val
  pub back : unpromote up ≡ val

-- Promoting a piece of a type below eight adds eight to the type, keeps the colour, and is undone by
-- `Unpromote`.
pub promote-IsPromotionOf :
    (val : Piece) → val < 32 → get_type val < 8 → IsPromotionOf val (promote val)
promote-IsPromotionOf val h k = record {
  range = omega (arith, promote-add val h k, get_type-mod val);
  type = omega (arith, promote-add val h k, get_type-mod val, get_type-mod (promote val));
  color = unfold get_color in ground (arith, promote-add val h k, get_type-mod val);
  back = omega (
    arith,
    promote-add val h k,
    get_type-mod val,
    get_type-mod (promote val),
    unpromote-sub (promote val),
  );
}
