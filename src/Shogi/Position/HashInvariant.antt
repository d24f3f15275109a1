-- ===== src/Shogi/Position/HashInvariant.antt =====
-- The incremental hash of DoMove is ComputeHash of the position it arrives at.
use jhbr.Base.{
  ℕ, ◌+◌, ◌%◌, ◌<◌, ◌≡◌, refl, sym, ap, ◌∙◌, inl, inr, Bool, true, false, List, Option, arith,
  if◌then◌else◌, length, length-set, get_or, set, get_or-set_self, get_or-set_ne, Bool-cases,
}
use jhbr.Base.Words.{digit, digit-zero, digit_ext, xor_laws}
use jhbr.Shogi.Piece.{
  Color, black, white, opposite, is_white, Piece, is_none, get_type, make, unpromote_type,
}
use jhbr.Shogi.Piece.Laws.{make-ne-zero}
use jhbr.Shogi.Square.{Square}
use jhbr.Shogi.Hand.{Hand, add, sub}
use jhbr.Shogi.Move.{Move, is_drop, drop_piece, to_square, from_square}
use jhbr.Shogi.Zobrist.{Zobrist, hash_hand}
use jhbr.Shogi.Position.{Position, Sides, side, set_side, piece_on, put_piece, remove_piece}
use jhbr.Shogi.Position.Make.{landing, do_move_internal}
use jhbr.Shogi.Position.Keys.{
  square_key, hash_squares, compute_hash, hash_after, drop_key, shift_key, capture_key,
}
use jhbr.Shogi.Position.Consistent.{Consistent}
use jhbr.Shogi.Position.Placement.{KingsKnown, piece_valid, is_none-of-type}
use jhbr.Shogi.Position.Squares.{hash_squares-set}
use jhbr.Shogi.Position.Shift.{IsShift, landing-Lands}
use jhbr.Shogi.Position.Undo.{IsPlayable, IsDropOf}
use jhbr.Shogi.Position.Hash.{after, hash_after_lem, hands_at, hands_changed, mover}

-- The key of the side to move.
abbrev side_key : Zobrist → Color → ℕ
side_key z c = if is_white c then z.side else 0

zero_none : is_none 0 ≡ true
unfolding is_none
zero_none = refl

module _ (z : Zobrist) where
  turned :
      (c : Color) (j : ℕ)
      → digit (side_key z (opposite c)) j ≡ (digit (side_key z c) j + digit z.side j) % 2
  turned black j = omega xor_laws
  turned white j = omega xor_laws

  -- The key of a board after a write, digit by digit.
  written :
      (pcs : List Piece) (i : ℕ) (pc : Piece) (j : ℕ)
      → i < length pcs
      → digit (hash_squares z (set pcs i pc) 0 0) j
        ≡ (digit (hash_squares z pcs 0 0) j
            + digit (square_key z (get_or pcs i 0) i) j
            + digit (square_key z pc i) j)
          % 2
  written pcs i pc j h =
      let e : 0 + i ≡ i = omega arith in
      let w = ap (λ t. digit t j) (hash_squares-set z pcs i pc 0 0 h) in omega (xor_laws, rw e at w)

  hash_digit :
      (p : Position) (j : ℕ)
      → digit (compute_hash z p) j
        ≡ (digit (hash_squares z p.board 0 0) j
            + digit (hash_hand z black p.hand.of_black) j
            + digit (hash_hand z white p.hand.of_white) j
            + digit (side_key z p.side_to_move) j)
          % 2
  unfolding compute_hash
  hash_digit p j = elim (Bool-cases (is_white p.side_to_move)) [
    | inl e ↦ rw e (omega xor_laws)
    | inr e ↦ rw e (omega xor_laws)
  ]

  some_digit :
      (pc : Piece) (sq : Square) (j : ℕ)
      → is_none pc ≡ false
      → digit (square_key z pc sq) j ≡ digit (z.psq pc sq) j
  unfolding square_key
  some_digit pc sq j e = rw e

  none_digit :
      (pc : Piece) (sq : Square) (j : ℕ) → is_none pc ≡ true → digit (square_key z pc sq) j ≡ 0
  unfolding square_key
  none_digit pc sq j e = rw e (digit-zero j)

module _ (z : Zobrist) (in_check : Position → Color → Bool) (m : Move) (gives_check : Option Bool)
    (p : Position) (c : Consistent p) (known : KingsKnown p) (k : p.hash ≡ compute_hash z p) where
  abbrev next : Position
  next = after z in_check m gives_check p

  abbrev us : Color
  us = p.side_to_move

  abbrev to : Square
  to = to_square m

  old_digit :
      (j : ℕ)
      → digit p.hash j
        ≡ (digit (hash_squares z p.board 0 0) j + hands_at z p.hand j + digit (side_key z us) j) % 2
  old_digit j = omega (arith, ap (λ t. digit t j) k, hash_digit z p j)

  new_digit :
      (b : List Piece) (s : Sides Hand) (j : ℕ)
      → next.board ≡ b
      → next.hand ≡ s
      → digit (compute_hash z next) j
        ≡ (digit (hash_squares z b 0 0) j
            + hands_at z s j
            + digit (side_key z us) j
            + digit z.side j)
          % 2
  unfolding do_move_internal
  new_digit b s j eb es = omega (
    xor_laws,
    hash_digit z next j,
    ap (λ t. digit (hash_squares z t 0 0) j) eb,
    ap (λ t. hands_at z t j) es,
    turned z us j,
  )

  module _ (d : is_drop m ≡ true) (h : IsDropOf m p) where
    abbrev pc : Piece
    pc = make us (drop_piece m)

    drop_board : next.board ≡ set p.board to pc
    unfolding do_move_internal put_piece
    drop_board = rw (d, do_move_internal)

    drop_hand : next.hand ≡ set_side p.hand us (sub (side p.hand us) (drop_piece m))
    unfolding do_move_internal put_piece
    drop_hand = rw (d, do_move_internal)

    drop_keeps : hash_after z m p ≡ compute_hash z next
    unfolding hash_after drop_key
    drop_keeps =
        rw (d, hash_after, drop_key)
          (digit_ext _ _ λ j. omega (
            xor_laws,
            old_digit j,
            new_digit (set p.board to pc) (set_side p.hand us (sub (side p.hand us) (drop_piece m)))
                j drop_board drop_hand,
            hands_changed z p.hand us (sub (side p.hand us) (drop_piece m)) j,
            written z p.board to pc j (omega (arith, c.squares, h.to_small)),
            some_digit z pc to j (make-ne-zero us (drop_piece m) h.lo (omega (arith, h.hi))),
            none_digit z (piece_on p to) to j (ap is_none h.free ∙ zero_none),
          ))

  module _ (d : is_drop m ≡ false) (h : IsShift m p) where
    abbrev from : Square
    from = from_square m

    abbrev x : Piece
    x = piece_on p from

    abbrev l : Piece
    l = landing m x

    abbrev lifted : List Piece
    lifted = set p.board from 0

    landed : is_none l ≡ false
    landed =
        let v = piece_valid p c known from h.from_small h.there in
        is_none-of-type l (landing-Lands m x v.0 v.1 v.2 h.promotes).lo

    quiet_keeps : is_none (piece_on p to) ≡ true → hash_after z m p ≡ compute_hash z next
    unfolding hash_after shift_key
    quiet_keeps n =
        rw (d, n, hash_after, shift_key)
          (digit_ext _ _ λ j. omega (
            xor_laws,
            old_digit j,
            new_digit (set lifted to l) p.hand j board' hand',
            written z p.board from 0 j (omega (arith, c.squares, h.from_small)),
            written z lifted to l j
                (omega (arith, length-set p.board from 0, c.squares, h.to_small)),
            some_digit z x from j h.there,
            some_digit z l to j landed,
            none_digit z 0 from j zero_none,
            none_digit z (get_or lifted to 0) to j
                (ap is_none (get_or-set_ne p.board from to 0 0 h.moves) ∙ n),
          ))
      where
        board' : next.board ≡ set lifted to l
        board' = unfold do_move_internal put_piece remove_piece in rw (d, n, do_move_internal)

        hand' : next.hand ≡ p.hand
        hand' = unfold do_move_internal put_piece remove_piece in rw (d, n, do_move_internal)

    abbrev y : Piece
    y = piece_on p to

    abbrev cut : List Piece
    cut = set p.board to 0

    abbrev gained : Hand
    gained = add (side p.hand us) (unpromote_type (get_type y))

    capture_board : is_none y ≡ false → next.board ≡ set (set cut from 0) to l
    unfolding do_move_internal put_piece remove_piece
    capture_board n = rw (d, n, do_move_internal, mover z in_check m gives_check p playable d)
      where
        playable : IsPlayable m p
        playable = rw d h

    capture_hand : is_none y ≡ false → next.hand ≡ set_side p.hand us gained
    unfolding do_move_internal put_piece remove_piece
    capture_hand n = rw (d, n, do_move_internal)

    capture_keeps : is_none y ≡ false → hash_after z m p ≡ compute_hash z next
    unfolding hash_after shift_key capture_key
    capture_keeps n =
        rw (d, n, hash_after, shift_key, capture_key)
          (digit_ext _ _ λ j. omega (
            xor_laws,
            old_digit j,
            new_digit (set (set cut from 0) to l) (set_side p.hand us gained) j (capture_board n)
                (capture_hand n),
            hands_changed z p.hand us gained j,
            written z p.board to 0 j (omega (arith, c.squares, h.to_small)),
            written z cut from 0 j
                (omega (arith, length-set p.board to 0, c.squares, h.from_small)),
            written z (set cut from 0) to l j (
                omega
                  (arith, length-set cut from 0, length-set p.board to 0, c.squares, h.to_small)),
            some_digit z y to j n,
            some_digit z l to j landed,
            none_digit z 0 from j zero_none,
            none_digit z 0 to j zero_none,
            some_digit z (get_or cut from 0) from j (ap is_none kept ∙ h.there),
            ap (λ t. digit (z.psq t from) j) kept,
            none_digit z (get_or (set cut from 0) to 0) to j (
                ap is_none (
                  get_or-set_ne cut from to 0 0 h.moves
                  ∙ get_or-set_self p.board to 0 0 (omega (arith, c.squares, h.to_small)))
                ∙ zero_none),
          ))
      where
        kept : get_or cut from 0 ≡ x
        kept = get_or-set_ne p.board to from 0 0 (λ e. h.moves (sym e))

  -- A hash that is ComputeHash of the position stays so over a playable move, where the bitboards
  -- agree with the board and the king squares are known.
  pub hash-do_move : IsPlayable m p → next.hash ≡ compute_hash z next
  hash-do_move h =
      sym (hash_after_lem z in_check m gives_check p h) ∙ elim (Bool-cases (is_drop m)) [
        | inl d ↦ drop_keeps d (rw d at h)
        | inr d ↦ elim (Bool-cases (is_none (piece_on p to))) [
          | inl n ↦ quiet_keeps d (rw d at h) n
          | inr n ↦ capture_keeps d (rw d at h) n
        ]
      ]
