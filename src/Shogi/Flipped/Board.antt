-- ===== src/Shogi/Flipped/Board.antt =====
-- What stands on a flipped board, and that flipping twice gives the board back.
use jhbr.Base.{
  ℕ, zero, suc, ◌+◌, ◌-◌, ◌<◌, ◌≡◌, refl, sym, ap, ◌∙◌, Bool, true, false, not, ◌&&◌, ◌||◌,
  check_below, check_below_lem, ==→eq, arith, ltb, ◌==◌, if◌then◌else◌, Bool-cases, inl, inr,
  get_or_ext,
}
use jhbr.Shogi.Piece.{
  Color, black, white, opposite, Piece, is_none, get_color, get_type, color_from_idx, make, king,
}
use jhbr.Shogi.Square.{Square}
use jhbr.Shogi.Position.{Position, Sides, piece_on, put_piece, empty_position}
use jhbr.Shogi.Position.Consistent.{Consistent, IsPiece, by_color_determined, by_type_determined}
use jhbr.Shogi.Position.Placement.{KingsKnown}
use jhbr.Shogi.Position.Filled.{
  IsLayout, Filled, position-IsLayout, recast, put_piece-Filled, skip-Filled, empty-Filled,
}
use jhbr.Shogi.Flipped.{turned, turn_squares, turned_sides, flipped_board}

-- The same type for the other side, and nothing for nothing.
abbrev pub other_side : Piece → Piece
other_side pc = if is_none pc then 0 else turned pc

opposite-opposite : (c : Color) → opposite (opposite c) ≡ c
opposite-opposite black = refl
opposite-opposite white = refl

-- What is checked of each piece byte.
abbrev is_coded : Piece → Bool
is_coded pc = pc == 0 || (ltb 0 (get_type pc) && ltb (get_type pc) 15)

abbrev turns_back : Piece → Bool
turns_back pc =
    is_coded (other_side pc) && (ltb (other_side pc) 32 && (other_side (other_side pc) == pc))

abbrev keeps_king : Color → Piece → Bool
keeps_king k pc = not (other_side pc == make k king) || (pc == make (opposite k) king)

pieces_checked :
    (k : Color)
    → check_below (λ pc. not (is_coded pc) || (turns_back pc && keeps_king k pc)) 32 ≡ true
unfolding check_below is_none turned get_type get_color color_from_idx make
pieces_checked black = refl
pieces_checked white = refl

module _ (pc : Piece) (h : IsPiece pc) where
  coded : is_coded pc ≡ true
  coded = typed h
    where
      typed : IsPiece pc → is_coded pc ≡ true
      typed (inl z) = rw z refl
      typed (inr (lo, hi, range)) = ground arith

  small_piece : pc < 32
  small_piece = typed h
    where
      typed : IsPiece pc → pc < 32
      typed (inl z) = omega arith
      typed (inr (lo, hi, range)) = range

  checked : (k : Color) → turns_back pc && keeps_king k pc ≡ true
  checked k =
      let t =
        check_below_lem (λ q. not (is_coded q) || (turns_back q && keeps_king k q)) pc 32
          small_piece (pieces_checked k) in
      ground (arith, t, coded)

  other_side-IsPiece : IsPiece (other_side pc)
  other_side-IsPiece = elim (Bool-cases (other_side pc == 0)) [
    | inl e ↦ inl (==→eq _ 0 e)
    | inr e ↦ inr (
      ground (arith, checked black, e),
      ground (arith, checked black, e),
      ground (arith, checked black, e),
    )
  ]

  other_side-other_side : other_side (other_side pc) ≡ pc
  other_side-other_side = ==→eq _ pc (ground (arith, checked black))

  other_side-some : is_none pc ≡ false → is_none (other_side pc) ≡ false
  unfolding is_none
  other_side-some some = elim (Bool-cases (other_side pc == 0)) [
    | inl e ↦
        let twice : other_side 0 ≡ pc = rw (==→eq _ 0 e) at other_side-other_side in
        absurd ground (arith, twice, some)
    | inr e ↦ e
  ]

  -- The other side's king is the king.
  other_side-king : (k : Color) → other_side pc ≡ make k king → pc ≡ make (opposite k) king
  other_side-king k e = ==→eq pc _ (ground (arith, checked k, e))

-- The layout that the loop puts down.
abbrev turned_layout : Position → Square → Piece
turned_layout p s = other_side (piece_on p (80 - s))

module _ (p : Position) (c : Consistent p) (known : KingsKnown p) where
  turned-IsLayout : IsLayout (turned_layout p)
  turned-IsLayout = record {
    valid = λ s h. other_side-IsPiece _ (c.valid (80 - s) (omega arith));
    one_king = λ k s t hs ht es et.
        let l = position-IsLayout p c known in
        let same : 80 - s ≡ 80 - t =
          l.one_king (opposite k) (80 - s) (80 - t) (omega arith) (omega arith)
            (other_side-king _ (c.valid (80 - s) (omega arith)) k es)
            (other_side-king _ (c.valid (80 - t) (omega arith)) k et) in
        omega arith;
  }

  abbrev past : Square → Square → Bool
  past sq s = ltb (80 - s) sq

  -- The square that a round fills.
  past_next : (sq s : Square) → sq < 81 → s < 81 → (s == 80 - sq || past sq s) ≡ past (sq + 1) s
  past_next sq s hq hs = ground arith

  on_layout : (sq : Square) → sq < 81 → turned_layout p (80 - sq) ≡ other_side (piece_on p sq)
  on_layout sq h = ap (λ t. other_side (piece_on p t)) (omega arith)

  turn_square :
      (sq : Square) (q : Position)
      → sq < 81
      → Filled (turned_layout p) q (past sq)
      → Filled
          (turned_layout p)
          (if is_none (piece_on p sq) then q else put_piece (80 - sq) (turned (piece_on p sq)) q)
          (past (sq + 1))
  turn_square sq q h f =
      let new : past sq (80 - sq) ≡ false = ground arith in
      elim (Bool-cases (is_none (piece_on p sq))) [
        | inl e ↦
            let nothing : turned_layout p (80 - sq) ≡ 0 = on_layout sq h ∙ rw e refl in
            rw e (
              recast (turned_layout p) q _ _ (λ s lt. past_next sq s h lt)
                (skip-Filled (turned_layout p) turned-IsLayout (80 - sq) (omega arith) q (past sq)
                  new f (unfold is_none in rw nothing refl)))
        | inr e ↦
            let piece : turned_layout p (80 - sq) ≡ turned (piece_on p sq) =
              on_layout sq h ∙ rw e refl in
            rw e (
              recast (turned_layout p) _ _ _ (λ s lt. past_next sq s h lt)
                (rw piece at (
                  put_piece-Filled (turned_layout p) turned-IsLayout (80 - sq) (omega arith) q
                    (past sq) new f
                    (ap is_none (on_layout sq h)
                      ∙ other_side-some (piece_on p sq) (c.valid sq h) e))))
      ]

  turn_squares-Filled :
      (n : ℕ) (sq : Square) (q : Position)
      → sq + n ≡ 81
      → Filled (turned_layout p) q (past sq)
      → Filled (turned_layout p) (turn_squares p sq n q) (past 81)
  unfolding turn_squares
  turn_squares-Filled zero sq q h f = let last : sq ≡ 81 = omega arith in rw last at f
  turn_squares-Filled (suc n) sq q h f =
      turn_squares-Filled n (sq + 1) _ (omega arith) (turn_square sq q (omega arith) f)

  pub flipped-Filled : Filled (turned_layout p) (flipped_board p) (past 81)
  unfolding flipped_board
  flipped-Filled =
      let none : Filled (turned_layout p) empty_position (past 0) =
        empty-Filled (turned_layout p) (past 0) (λ s h. ground arith) in
      turn_squares-Filled 81 0 _ refl
        (record { consistent = none.consistent; known = none.known; filled = none.filled })

-- The loop writes the board, the bitboards and the king squares only.
record Beside (p q : Position) : Type 0 where
  pub hand : q.hand ≡ p.hand
  pub side_to_move : q.side_to_move ≡ p.side_to_move
  pub ply : q.ply ≡ p.ply

turn_squares-Beside :
    (p : Position) (n : ℕ) (sq : Square) (q : Position) → Beside q (turn_squares p sq n q)
unfolding turn_squares put_piece
turn_squares-Beside p zero sq q = record { hand = refl; side_to_move = refl; ply = refl }
turn_squares-Beside p (suc n) sq q = elim (Bool-cases (is_none (piece_on p sq))) [
  | inl e ↦ rw e (turn_squares-Beside p n (sq + 1) q)
  | inr e ↦ rw e (
      let b = turn_squares-Beside p n (sq + 1) (put_piece (80 - sq) (turned (piece_on p sq)) q) in
      record { hand = b.hand; side_to_move = b.side_to_move; ply = b.ply })
]

-- The position as the other side sees it.
pub record IsFlipOf (p q : Position) : Type 0 where
  pub consistent : Consistent q
  pub known : KingsKnown q
  pub squares : (s : Square) → s < 81 → piece_on q s ≡ other_side (piece_on p (80 - s))
  pub black_hand : q.hand.of_black ≡ p.hand.of_white
  pub white_hand : q.hand.of_white ≡ p.hand.of_black
  pub turn : q.side_to_move ≡ opposite p.side_to_move
  pub ply : q.ply ≡ p.ply

pub flipped_board-IsFlipOf :
    (p : Position) → Consistent p → KingsKnown p → IsFlipOf p (flipped_board p)
unfolding flipped_board
flipped_board-IsFlipOf p c known =
    let f = flipped-Filled p c known in
    let b = turn_squares-Beside p 81 0 (turned_sides p) in
    record {
      consistent = f.consistent;
      known = f.known;
      squares = λ s h.
          let done : past p c known 81 s ≡ true = ground arith in f.filled s h ∙ rw done refl;
      black_hand = ap (λ (h : Sides ℕ). h.of_black) b.hand;
      white_hand = ap (λ (h : Sides ℕ). h.of_white) b.hand;
      turn = b.side_to_move;
      ply = b.ply;
    }

-- Equal in what Flipped reads.
pub record SameView (p q : Position) : Type 0 where
  pub board : q.board ≡ p.board
  pub by_type : q.by_type ≡ p.by_type
  pub by_color : q.by_color ≡ p.by_color
  pub hand : q.hand ≡ p.hand
  pub side_to_move : q.side_to_move ≡ p.side_to_move
  pub ply : q.ply ≡ p.ply

twice-SameView : (p q r : Position) → Consistent p → IsFlipOf p q → IsFlipOf q r → SameView p r
twice-SameView p q r c f g = record {
  board = same;
  by_type = by_type_determined r p g.consistent c same;
  by_color = by_color_determined r p g.consistent c same;
  hand = λ i. record {
    of_black = (g.black_hand ∙ f.white_hand) i;
    of_white = (g.white_hand ∙ f.black_hand) i;
  };
  side_to_move = g.turn ∙ ap opposite f.turn ∙ opposite-opposite p.side_to_move;
  ply = g.ply ∙ f.ply;
}
  where
    same : r.board ≡ p.board
    same = get_or_ext 0 _ _ (g.consistent.squares ∙ sym c.squares) λ s lt.
        let small : s < 81 = omega (arith, g.consistent.squares) in
        let back : 80 - (80 - s) ≡ s = omega arith in
        g.squares s small
        ∙ ap other_side (f.squares (80 - s) (omega arith))
        ∙ ap (λ t. other_side (other_side (piece_on p t))) back
        ∙ other_side-other_side (piece_on p s) (c.valid s small)

-- Where the bitboards agree with the board and the king squares are right, Flipped puts on each square
-- the piece of the opposite square turned to the other side, exchanges the hands and the side to move,
-- keeps the ply and leaves bitboards and king squares right; flipping once more gives the board, the
-- bitboards, the hands, the side to move and the ply back.
pub flipped_board_lem :
    (p : Position)
    → Consistent p
    → KingsKnown p
    → IsFlipOf p (flipped_board p) × SameView p (flipped_board (flipped_board p))
flipped_board_lem p c known =
    let f = flipped_board-IsFlipOf p c known in
    let g = flipped_board-IsFlipOf (flipped_board p) f.consistent f.known in
    (f, twice-SameView p (flipped_board p) (flipped_board (flipped_board p)) c f g)
