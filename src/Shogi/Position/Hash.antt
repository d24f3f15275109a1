-- ===== src/Shogi/Position/Hash.antt =====
-- The incremental position hash of DoMove against HashAfter, BoardKeyAfter and ComputeHash.
use jhbr.Base.{
  ℕ, ◌+◌, ◌≡◌, sym, inl, inr, Bool, true, false, Option, arith, get_or, set, get_or-set_ne,
  Bool-cases,
}
use jhbr.Base.Words.{digit, digit_ext, xor_laws}
use jhbr.Shogi.Piece.{Color, black, white, is_none, get_type, unpromote_type}
use jhbr.Shogi.Hand.{Hand, add, sub}
use jhbr.Shogi.Move.{Move, is_drop, drop_piece, to_square, from_square}
use jhbr.Shogi.Zobrist.{Zobrist, hash_hand}
use jhbr.Shogi.Position.{Position, Sides, side, set_side, piece_on, put_piece, remove_piece}
use jhbr.Shogi.Position.Make.{do_move_internal}
use jhbr.Shogi.Position.Keys.{hash_after, board_key, board_key_after}
use jhbr.Shogi.Position.Shift.{IsShift}
use jhbr.Shogi.Position.Undo.{IsPlayable}

module _ (z : Zobrist) (in_check : Position → Color → Bool) (m : Move) (gives_check : Option Bool)
    (p : Position) where
  -- The position after the move, with the auxiliary updates.
  abbrev pub after : Position
  after = (do_move_internal z in_check m true gives_check p).1

  module _ (h : IsPlayable m p) where
    -- The moving piece is not what a capture takes off.
    pub mover :
        is_drop m ≡ false
        → get_or (set p.board (to_square m) 0) (from_square m) 0 ≡ piece_on p (from_square m)
    mover d =
        let s : IsShift m p = rw d at h in
        get_or-set_ne p.board (to_square m) (from_square m) 0 0 (λ e. s.moves (sym e))

    -- HashAfter is the hash that DoMove arrives at, for a playable move.
    pub hash_after_lem : hash_after z m p ≡ after.hash
    unfolding hash_after do_move_internal put_piece remove_piece
    hash_after_lem = elim (Bool-cases (is_drop m)) [
      | inl d ↦ rw (d, hash_after, do_move_internal)
      | inr d ↦ elim (Bool-cases (is_none (piece_on p (to_square m)))) [
        | inl n ↦ rw (d, n, hash_after, do_move_internal)
        | inr n ↦ rw (d, n, hash_after, do_move_internal, mover d)
      ]
    ]

-- What both hands add to a key, when one of them changes.
module _ (z : Zobrist) where
  abbrev pub hands_at : Sides Hand → ℕ → ℕ
  hands_at s j = digit (hash_hand z black s.of_black) j + digit (hash_hand z white s.of_white) j

  pub hands_changed :
      (s : Sides Hand) (us : Color) (v : Hand) (j : ℕ)
      → hands_at (set_side s us v) j + digit (hash_hand z us (side s us)) j
        ≡ hands_at s j + digit (hash_hand z us v) j
  hands_changed s black v j = omega arith
  hands_changed s white v j = omega arith

module _ (z : Zobrist) (in_check : Position → Color → Bool) (m : Move) (gives_check : Option Bool)
    (p : Position) (h : IsPlayable m p) where
  -- BoardKeyAfter is the board key of the position that DoMove arrives at, for a playable move.
  pub board_key_after_lem : board_key_after z m p ≡ board_key z (after z in_check m gives_check p)
  unfolding board_key_after do_move_internal put_piece remove_piece
  board_key_after_lem = elim (Bool-cases (is_drop m)) [
    | inl d ↦
        rw (d, board_key_after, do_move_internal)
          (digit_ext _ _ λ j. omega (
            xor_laws,
            hands_changed z p.hand p.side_to_move (sub (side p.hand p.side_to_move) (drop_piece m))
                j,
          ))
    | inr d ↦ elim (Bool-cases (is_none (piece_on p (to_square m)))) [
      | inl n ↦ rw (d, n, board_key_after, do_move_internal) (digit_ext _ _ λ j. omega xor_laws)
      | inr n ↦
          rw (d, n, board_key_after, do_move_internal, mover z in_check m gives_check p h d)
            (digit_ext _ _ λ j. omega (
              xor_laws,
              hands_changed z p.hand p.side_to_move
                  (add (side p.hand p.side_to_move)
                    (unpromote_type (get_type (piece_on p (to_square m)))))
                  j,
            ))
    ]
  ]
