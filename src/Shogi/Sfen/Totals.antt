-- ===== src/Shogi/Sfen/Totals.antt =====
-- The counts of a hand, read one type after the other, make the hand up.
use jhbr.Base.{ℕ, zero, suc, ◌+◌, ◌*◌, ◌%◌, ◌^◌, ◌<◌, ◌≡◌, refl, ap, ◌∙◌, List, [], ◌∷◌, arith}
use native.Mathlib.Nat.{suc-mul}
use jhbr.Shogi.Piece.{PieceType}
use jhbr.Shogi.Hand.{Hand, count, add, one_of}
use jhbr.Shogi.Hand.Count.{Counts, Fits, pack, tally, count-pack}
use jhbr.Shogi.Sfen.{k_sfen_hand_order}
use jhbr.Shogi.Sfen.Read.{add_times}

-- The pieces of a hand added one type after the other.
unfoldable pub add_all : List PieceType → Hand → Hand → Hand
add_all [] h x = x
add_all (pt ∷ pts) h x = add_all pts h (add_times (count h pt) pt x)

add_times_lem :
    (n : ℕ) (pt : PieceType) (x : ℕ) → x < 2 ^ 32 → add_times n pt x ≡ (x + n * one_of pt) % 2 ^ 32
unfolding add_times add
add_times_lem zero pt x h = omega arith
add_times_lem (suc n) pt x h =
    add_times_lem n pt ((x + one_of pt) % 2 ^ 32) (omega arith)
    ∙ omega (arith, suc-mul n (one_of pt))

-- Without overflow.
added :
    (k : ℕ) (pt : PieceType) (x y : ℕ)
    → x ≡ y
    → y + k * one_of pt < 2 ^ 32
    → add_times k pt x ≡ y + k * one_of pt
added k pt x y e h =
    ap (add_times k pt) e ∙ add_times_lem k pt y (omega (arith, h)) ∙ omega (arith, h)

-- The counts of a hand make the hand up.
pub add_all-pack : (n : Counts) → Fits n → add_all k_sfen_hand_order (pack n) 0 ≡ pack n
unfolding add_all
add_all-pack n f =
    rw
      (
        count-pack n f 6,
        count-pack n f 5,
        count-pack n f 7,
        count-pack n f 4,
        count-pack n f 3,
        count-pack n f 2,
        count-pack n f 1,
      )
      (added n.pawns 1 _ _
          (added n.lances 2 _ _
            (added n.knights 3 _ _
              (added n.silvers 4 _ _
                (added n.golds 7 _ _
                  (added n.bishops 5 _ _ (added n.rooks 6 0 0 refl (omega arith)) (omega arith))
                  (omega arith))
                (omega arith))
              (omega arith))
            (omega arith))
          (omega arith)
        ∙ omega arith)

-- A word with a count for each type, each within its field.
pub record IsHand (h : Hand) : Type 0 where
  pub counts : Counts
  pub fits : Fits counts
  pub packed : h ≡ pack counts

pub tally_small : (n : Counts) → Fits n → (pt : PieceType) → tally n pt < 10 ^ 10
tally_small n f pt = ground (
  arith, f.pawns_fit, f.lances_fit, f.knights_fit, f.silvers_fit, f.bishops_fit, f.rooks_fit,
  f.golds_fit,
)
