-- ===== src/Shogi/Entering/Info.antt =====
-- What is counted for the declaration, square by square.
use jhbr.Base.{
  ◌+◌, ◌-◌, ◌*◌, ◌<◌, ◌≡◌, refl, sym, ap, ap₂, ◌∙◌, Bool, true, false, not, ◌&&◌, arith, leb, ◌==◌,
  ==→eq, if◌then◌else◌, Bool-cases, inl, inr, pos, ◌-ℤ◌, +ℤ-pos, -ℤ-pos,
}
use jhbr.Base.Count.{count_from, count_from-ext, count_from-split, count_from-at}
use jhbr.Shogi.Piece.{Color, is_none, get_color, get_type, make, king, bishop, rook, horse, dragon}
use jhbr.Shogi.Piece.Laws.{make_lem, get_type-make, get_color-make, make-ne-zero}
use jhbr.Shogi.Square.{Square, in_promotion_zone}
use jhbr.Shogi.Bitboard.{test, pop_count, bb_or}
use jhbr.Shogi.Bitboard.Count.{test-bb_and, test-bb_or, bb_and-IsCanonical, pop_count_lem}
use jhbr.Shogi.Position.{Position, side, piece_on, type_board}
use jhbr.Shogi.Position.Consistent.{
  Consistent, IsPiece, same_color, same_color_lem, same_color_refl,
}
use jhbr.Shogi.Position.Placement.{KingsKnown}
use jhbr.Shogi.Entering.{
  EnteringKingInfo, our_in_camp, major_in_camp, minor_in_hand, major_in_hand,
  compute_entering_king_info, can_declare_win, promotion_zone,
}
use jhbr.Shogi.Entering.Zones.{test-promotion_zone}
use jhbr.Shogi.Entering.Rule.{
  is_man, is_major, men_in_camp, board_points_lem, points_of, hand_points_lem, needed,
  threshold_lem, HasKing,
}

module _ (p : Position) (c : Consistent p) (known : KingsKnown p) (us : Color)
    (h : HasKing p us) where
  abbrev k : Square
  k = side p.king_sq us

  test-our :
      (s : Square)
      → s < 81
      → test (our_in_camp p us) s
        ≡ not (is_none (piece_on p s))
          && same_color (get_color (piece_on p s)) us
          && in_promotion_zone us s
  unfolding our_in_camp
  test-our s lt =
      test-bb_and (side p.by_color us) (promotion_zone us) s
      ∙ ap₂ (λ a b. a && b) (c.color_agrees us s lt) (test-promotion_zone us s lt)

  -- The king is where a king of the side stands, and nowhere else.
  is_king :
      (s : Square)
      → s < 81
      → is_none (piece_on p s) ≡ false
      → same_color (get_color (piece_on p s)) us ≡ true
      → (get_type (piece_on p s) == king) ≡ true
      → k ≡ s
  unfolding is_none
  is_king s lt some own crowned = known us s lt (typed (c.valid s lt))
    where
      typed : IsPiece (piece_on p s) → piece_on p s ≡ make us king
      typed (inl z) = absurd ground (arith, z, some)
      typed (inr (lo, hi, range)) =
          sym (make_lem (piece_on p s) range)
          ∙ ap₂ make (same_color_lem _ us own) (==→eq _ king crowned)

  at_king : (s : Square) → (s == k) ≡ true → get_type (piece_on p s) ≡ king
  at_king s e =
      ap (λ t. get_type (piece_on p t)) (==→eq s k e)
      ∙ ap get_type h.there
      ∙ get_type-make us king (omega arith)

  man_lem : (s : Square) → s < 81 → (test (our_in_camp p us) s && not (s == k)) ≡ is_man p us s
  man_lem s lt = ground (arith, test-our s lt, is_king s lt, at_king s)

  king_counted : test (our_in_camp p us) k ≡ in_promotion_zone us k
  king_counted =
      test-our k h.on_board
      ∙ rw
          (
            h.there,
            get_color-make us king (omega arith),
            make-ne-zero us king (omega arith) (omega arith),
            same_color_refl us,
          )
          refl

  total_lem :
      pop_count (our_in_camp p us) ≡ (if in_promotion_zone us k then 1 else 0) + men_in_camp p us
  unfolding our_in_camp
  total_lem =
      pop_count_lem (our_in_camp p us)
        (bb_and-IsCanonical (side p.by_color us) (promotion_zone us) (c.color_canonical us))
      ∙ count_from-split (test (our_in_camp p us)) (λ s. s == k) 81 0
      ∙ ap₂ (λ a b. a + b)
          (count_from-at (test (our_in_camp p us)) k 81 h.on_board
            ∙ ap (λ (b : Bool). if b then 1 else 0) king_counted)
          (count_from-ext _ (is_man p us) 81 0 (λ s lo hi. man_lem s hi))

  test-major :
      (s : Square) → s < 81 → test (major_in_camp p us) s ≡ is_man p us s && is_major (piece_on p s)
  unfolding major_in_camp
  test-major s lt = ground (
    arith,
    test-our s lt,
    test-bb_and (our_in_camp p us)
        (bb_or (bb_or (bb_or (type_board p bishop) (type_board p rook)) (type_board p horse))
          (type_board p dragon))
        s,
    test-bb_or (bb_or (bb_or (type_board p bishop) (type_board p rook)) (type_board p horse))
        (type_board p dragon) s,
    test-bb_or (bb_or (type_board p bishop) (type_board p rook)) (type_board p horse) s,
    test-bb_or (type_board p bishop) (type_board p rook) s,
    c.type_agrees bishop s (omega arith) lt,
    c.type_agrees rook s (omega arith) lt,
    c.type_agrees horse s (omega arith) lt,
    c.type_agrees dragon s (omega arith) lt,
  )

  major_lem :
      pop_count (major_in_camp p us)
      ≡ count_from (λ t. is_man p us t && is_major (piece_on p t)) 0 81
  unfolding major_in_camp our_in_camp
  major_lem =
      pop_count_lem (major_in_camp p us) (
        bb_and-IsCanonical (our_in_camp p us) _
          (bb_and-IsCanonical (side p.by_color us) (promotion_zone us) (c.color_canonical us)))
      ∙ count_from-ext _ _ 81 0 (λ s lo hi. test-major s hi)

  minor_lem :
      men_in_camp p us
      ≡ pop_count (major_in_camp p us)
        + count_from (λ t. is_man p us t && not (is_major (piece_on p t))) 0 81
  minor_lem =
      count_from-split (is_man p us) (λ t. is_major (piece_on p t)) 81 0
      ∙ ap (λ n. n + count_from (λ t. is_man p us t && not (is_major (piece_on p t))) 0 81)
          (sym major_lem)

  in_camp_lem : test (promotion_zone us) k ≡ in_promotion_zone us k
  in_camp_lem = test-promotion_zone us k h.on_board

  abbrev info : EnteringKingInfo
  info = compute_entering_king_info p us

  pieces_lem : info.pieces_in_camp ≡ pos (men_in_camp p us)
  unfolding compute_entering_king_info
  pieces_lem = rw in_camp_lem (elim (Bool-cases (in_promotion_zone us k)) [
    | inl e ↦
        let total : pop_count (our_in_camp p us) ≡ 1 + men_in_camp p us = total_lem ∙ rw e refl in
        rw e (-ℤ-pos (pop_count (our_in_camp p us)) 1 (omega arith) ∙ ap pos (omega arith))
    | inr e ↦ rw e (ap pos (total_lem ∙ rw e (omega arith)))
  ])

  king_lem : info.king_in_camp ≡ in_promotion_zone us k
  unfolding compute_entering_king_info
  king_lem = in_camp_lem

  points_lem : info.points ≡ pos (points_of p us)
  unfolding compute_entering_king_info
  points_lem =
      let men = men_in_camp p us in
      let majors = pop_count (major_in_camp p us) in
      let rest : pos men -ℤ pos majors ≡ pos (men - majors) =
        -ℤ-pos men majors (omega (arith, minor_lem)) in
      rw pieces_lem (
        rw (rest, +ℤ-pos (majors * 5) (men - majors))
          (rw (+ℤ-pos (majors * 5 + (men - majors)) (minor_in_hand (side p.hand us))) (
            +ℤ-pos (majors * 5 + (men - majors) + minor_in_hand (side p.hand us))
              (major_in_hand (side p.hand us) * 5)
            ∙ ap pos (
                omega (
                  arith,
                  minor_lem,
                  major_lem,
                  board_points_lem p us 81 0,
                  hand_points_lem (side p.hand us),
                )))))

-- In a position whose bitboards agree with its board and whose king squares are right, with the king of
-- the side to move on the board, CanDeclareWin answers whether that side is not in check, has its king in
-- the enemy camp and ten or more other pieces there, and makes at least 28 points as Black or 27 as White.
-- Each of those other pieces and each piece in hand makes one point, but five if it is a bishop, a rook,
-- a horse or a dragon.
pub can_declare_win_lem :
    (in_check : Position → Color → Bool) (p : Position)
    → Consistent p
    → KingsKnown p
    → HasKing p p.side_to_move
    → can_declare_win in_check p
      ≡ not (in_check p p.side_to_move)
        && (in_promotion_zone p.side_to_move (side p.king_sq p.side_to_move)
            && (leb 10 (men_in_camp p p.side_to_move)
                && leb (needed p.side_to_move) (points_of p p.side_to_move)))
unfolding can_declare_win
can_declare_win_lem in_check p c known h =
    let us = p.side_to_move in
    rw
      (
        king_lem p c known us h,
        pieces_lem p c known us h,
        points_lem p c known us h,
        threshold_lem us,
      )
      (ground arith)
