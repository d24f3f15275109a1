-- ===== src/Shogi/Attacks/Union.antt =====
-- The attackers of one side are those of both that are its pieces.
use jhbr.Base.{
  ℕ, ap, sym, ◌≡◌, ◌<◌, ◌∙◌, refl, ◌&&◌, ◌||◌, false, arith, Bool, Bool-cases, inl, inr,
}
use jhbr.Shogi.Piece.{
  Color, black, white, opposite, pawn, lance, knight, silver, bishop, rook, gold, king, pro_pawn,
  pro_lance, pro_knight, pro_silver, horse, dragon, get_color,
}
use jhbr.Shogi.Square.{Square}
use jhbr.Shogi.Bitboard.{Bitboard, bb_and, bb_or, test}
use jhbr.Shogi.Bitboard.Laws.{test-bb_zero, IsCanonical, bitboard_ext}
use jhbr.Shogi.Bitboard.Count.{
  test-bb_and, test-bb_or, bb_and-IsCanonical, bb_and-IsCanonical_right, bb_or-IsCanonical,
}
use jhbr.Shogi.Position.{Position, side, type_board, piece_on}
use jhbr.Shogi.Position.Consistent.{Consistent, same_color}
use jhbr.Shogi.Attacks.Tables.{
  pawn_effect_bb, knight_effect_bb, silver_effect_bb, gold_effect_bb, king_effect_bb, horse_step_bb,
  dragon_step_bb,
}
use jhbr.Shogi.Attacks.Sliding.{lance_effect, rook_effect, bishop_effect}
use jhbr.Shogi.Attacks.{
  pieces, gold_like, add_steppers, attackers_to, attackers_of, rook_like, bishop_like,
}

or_right : (a b c : Bool) → ((a || b) || c) ≡ (a || (b || c))
or_right a b c = ground arith

no_and : (a : Bool) → (a && false) ≡ false
no_and a = ground arith

module _ (p : Position) (sq : Square) (occ : Bitboard) (s : Square) where
  abbrev has : Bitboard → Bool
  has b = test b s

  -- What the loop over the colours adds, but for the colour.
  abbrev stepper : Color → Bool
  stepper c =
      (has (pawn_effect_bb sq (opposite c)) && has (type_board p pawn))
      || ((has (knight_effect_bb sq (opposite c)) && has (type_board p knight))
          || ((has (silver_effect_bb sq (opposite c)) && has (type_board p silver))
              || ((has (gold_effect_bb sq (opposite c))
                    && (has (type_board p gold)
                        || (has (type_board p pro_pawn)
                            || (has (type_board p pro_lance)
                                || (has (type_board p pro_knight)
                                    || has (type_board p pro_silver))))))
                  || (has (lance_effect (opposite c) sq occ) && has (type_board p lance)))))

  -- The attackers that the two sides share a table for.
  abbrev both_ways : Bool
  both_ways =
      (has (king_effect_bb sq) && has (type_board p king))
      || ((has (rook_effect sq occ) && (has (type_board p rook) || has (type_board p dragon)))
          || ((has (bishop_effect sq occ)
                && (has (type_board p bishop) || has (type_board p horse)))
              || ((has (horse_step_bb sq) && has (type_board p horse))
                  || (has (dragon_step_bb sq) && has (type_board p dragon)))))

  add_steppers_lem :
      (c : Color) (a : Bitboard)
      → has (add_steppers p sq occ c a) ≡ has a || (has (side p.by_color c) && stepper c)
  unfolding add_steppers pieces gold_like
  add_steppers_lem c a =
      simp (λ (x y : Bitboard). test-bb_or x y s, λ (x y : Bitboard). test-bb_and x y s)
        (ground arith)

  attackers_of_lem :
      (c : Color)
      → has (attackers_of p sq occ c) ≡ has (side p.by_color c) && (stepper c || both_ways)
  unfolding attackers_of pieces gold_like rook_like bishop_like
  attackers_of_lem c = elim (Bool-cases (has (side p.by_color c))) [
    | inl e ↦
        simp
          (λ (x y : Bitboard). test-bb_or x y s, λ (x y : Bitboard). test-bb_and x y s, e, or_right)
          refl
    | inr e ↦
        simp
          (λ (x y : Bitboard). test-bb_or x y s, λ (x y : Bitboard). test-bb_and x y s, e, no_and)
          refl
  ]

  attackers_to_lem :
      has (attackers_to p sq occ)
      ≡ (has (side p.by_color black) && stepper black)
        || ((has (side p.by_color white) && stepper white) || both_ways)
  unfolding attackers_to
  attackers_to_lem =
      simp
        (
          λ (x y : Bitboard). test-bb_or x y s,
          λ (x y : Bitboard). test-bb_and x y s,
          add_steppers_lem,
          test-bb_zero,
          or_right,
        )
        refl

module _ (p : Position) (k : Consistent p) (sq : Square) (occ : Bitboard) where
  -- No square belongs to both sides.
  one_side :
      (s : Square) → s < 81 → (test p.by_color.of_black s && test p.by_color.of_white s) ≡ false
  one_side s h =
      ground (
        arith,
        k.color_agrees black s h,
        k.color_agrees white s h,
        sides (get_color (piece_on p s)),
      )
    where
      sides : (c : Color) → (same_color c black && same_color c white) ≡ false
      sides black = refl
      sides white = refl

  of_to :
      (c : Color) (s : Square)
      → s < 81
      → test (attackers_of p sq occ c) s
        ≡ test (attackers_to p sq occ) s && test (side p.by_color c) s
  of_to black s h =
      attackers_of_lem p sq occ s black
      ∙ split (test p.by_color.of_black s) (test p.by_color.of_white s) _ _ _ (one_side s h)
      ∙ ap (λ (b : Bool). b && test p.by_color.of_black s) (sym (attackers_to_lem p sq occ s))
    where
      split :
          (b w x y r : Bool)
          → (b && w) ≡ false
          → (b && (x || r)) ≡ (((b && x) || ((w && y) || r)) && b)
      split b w x y r e = ground (arith, e)
  of_to white s h =
      attackers_of_lem p sq occ s white
      ∙ split (test p.by_color.of_black s) (test p.by_color.of_white s) _ _ _ (one_side s h)
      ∙ ap (λ (b : Bool). b && test p.by_color.of_white s) (sym (attackers_to_lem p sq occ s))
    where
      split :
          (b w x y r : Bool)
          → (b && w) ≡ false
          → (w && (y || r)) ≡ (((b && x) || ((w && y) || r)) && w)
      split b w x y r e = ground (arith, e)

  module _ (c : Color) where
    ours : (pt : ℕ) → IsCanonical (pieces p c pt)
    unfolding pieces
    ours pt = bb_and-IsCanonical (side p.by_color c) (type_board p pt) (k.color_canonical c)

    attackers_of-IsCanonical : IsCanonical (attackers_of p sq occ c)
    unfolding attackers_of gold_like rook_like bishop_like
    attackers_of-IsCanonical =
        or _ _
          (or _ _
            (or _ _
              (or _ _
                (or _ _
                  (or _ _
                    (or _ _
                      (or _ _ (or _ _ (ours_and _ pawn) (ours_and _ knight)) (ours_and _ silver))
                      (both_and _ _ (
                        or _ _
                          (or _ _ (or _ _ (or _ _ (ours gold) (ours pro_pawn)) (ours pro_lance))
                            (ours pro_knight))
                          (ours pro_silver))))
                    (ours_and _ lance))
                  (ours_and _ king))
                (both_and _ _ (or _ _ (ours rook) (ours dragon))))
              (both_and _ _ (or _ _ (ours bishop) (ours horse))))
            (ours_and _ horse))
          (ours_and _ dragon)
      where
        or : (a b : Bitboard) → IsCanonical a → IsCanonical b → IsCanonical (bb_or a b)
        or a b x y = bb_or-IsCanonical a b x y

        both_and : (a b : Bitboard) → IsCanonical b → IsCanonical (bb_and a b)
        both_and a b x = bb_and-IsCanonical_right a b x

        ours_and : (a : Bitboard) (pt : ℕ) → IsCanonical (bb_and a (pieces p c pt))
        ours_and a pt = bb_and-IsCanonical_right a (pieces p c pt) (ours pt)

  -- Where the bitboards agree with the board, AttackersTo of one side is AttackersTo of both, restricted
  -- to the pieces of that side.
  pub attackers_of_restricted :
      (c : Color) → attackers_of p sq occ c ≡ bb_and (attackers_to p sq occ) (side p.by_color c)
  attackers_of_restricted c =
      bitboard_ext _ _ (attackers_of-IsCanonical c)
        (bb_and-IsCanonical_right (attackers_to p sq occ) (side p.by_color c) (k.color_canonical c))
        λ s h. of_to c s h ∙ sym (test-bb_and (attackers_to p sq occ) (side p.by_color c) s)
