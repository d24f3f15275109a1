-- ===== src/Shogi/Position/Undo.antt =====
-- UndoMove takes back what DoMoveInternal did.
use jhbr.Base.{
  ◌<◌, ◌≡◌, refl, ◌∙◌, inl, inr, Bool, true, false, Option, arith, ==→eq, if◌then◌else◌, Bool-cases,
}
use jhbr.Shogi.Piece.{Color, black, white, opposite, Piece, is_none, get_type, make}
use jhbr.Shogi.Piece.Laws.{get_type-make, make-lt}
use jhbr.Shogi.Move.{Move, is_drop, drop_piece, to_square, from_square}
use jhbr.Shogi.Zobrist.{Zobrist}
use jhbr.Shogi.Position.{Position, Sides, side, set_side, piece_on, put_piece, remove_piece}
use jhbr.Shogi.Position.Make.{do_move_internal, undo_move}
use jhbr.Shogi.Position.Consistent.{Consistent}
use jhbr.Shogi.Position.Shift.{IsShift, moved, returning, move_back, capture_move_back}
use jhbr.Shogi.Position.Placement.{
  KingsKnown, SamePlacement, drop_back, set_side_self, set_side_twice,
}

opposite-opposite : (c : Color) → opposite (opposite c) ≡ c
opposite-opposite black = refl
opposite-opposite white = refl

position_ext :
    (p q : Position)
    → SamePlacement p q
    → p.hand ≡ q.hand
    → p.side_to_move ≡ q.side_to_move
    → p.ply ≡ q.ply
    → p.hash ≡ q.hash
    → p.continuous_check ≡ q.continuous_check
    → p.history ≡ q.history
    → p ≡ q
position_ext p q s hand turn ply hash check history = λ i. record {
  board = s.same_board i;
  by_type = s.same_type i;
  by_color = s.same_color i;
  hand = hand i;
  king_sq = s.same_king i;
  side_to_move = turn i;
  ply = ply i;
  hash = hash i;
  continuous_check = check i;
  history = history i;
}

side_back {ℓ} :
    {A : Type ℓ} (s : Sides A) (c : Color) (v : A) → set_side (set_side s c v) c (side s c) ≡ s
side_back s c v = set_side_twice s c v (side s c) ∙ set_side_self s c

-- A drop of a hand piece on an empty square.
pub record IsDropOf (m : Move) (p : Position) : Type 0 where
  pub to_small : to_square m < 81
  pub free : piece_on p (to_square m) ≡ 0
  pub lo : 0 < drop_piece m
  pub hi : drop_piece m < 8

-- What the move generators guarantee of a move and taking it back relies on: a drop of a hand piece
-- on an empty square, or a piece that goes to another square and is promoted only if it can be.
abbrev pub IsPlayable : Move → Position → Type 0
IsPlayable m p = if is_drop m then IsDropOf m p else IsShift m p

module _ (z : Zobrist) (in_check : Position → Color → Bool) (m : Move) (gives_check : Option Bool)
    (p : Position) where
  abbrev pub undone : Bool → Position
  undone aux =
      undo_move m (do_move_internal z in_check m aux gives_check p).0
        (do_move_internal z in_check m aux gives_check p).1

  abbrev dropped : Position
  dropped =
      remove_piece (to_square m) (put_piece (to_square m) (make p.side_to_move (drop_piece m)) p)

  drop_move_undone : (aux : Bool) → is_drop m ≡ true → SamePlacement dropped p → undone aux ≡ p
  unfolding do_move_internal undo_move put_piece remove_piece
  drop_move_undone true d s =
      rw (d, undo_move, do_move_internal, opposite-opposite)
        (position_ext _ p
          (record {
            same_board = s.same_board;
            same_type = s.same_type;
            same_color = s.same_color;
            same_king = s.same_king;
          })
          (side_back p.hand p.side_to_move _) refl (omega arith) refl
          (side_back p.continuous_check p.side_to_move _) refl)
  drop_move_undone false d s =
      rw (d, undo_move, do_move_internal, opposite-opposite)
        (position_ext _ p
          (record {
            same_board = s.same_board;
            same_type = s.same_type;
            same_color = s.same_color;
            same_king = s.same_king;
          })
          (side_back p.hand p.side_to_move _) refl (omega arith) refl refl refl)

  abbrev quiet : Position
  quiet =
      put_piece (from_square m) (returning m (piece_on (moved m p) (to_square m)))
        (remove_piece (to_square m) (moved m p))

  quiet_move_undone :
      (aux : Bool)
      → is_drop m ≡ false
      → is_none (piece_on p (to_square m)) ≡ true
      → SamePlacement quiet p
      → undone aux ≡ p
  unfolding do_move_internal undo_move put_piece remove_piece
  quiet_move_undone true d n s =
      rw (d, n, undo_move, do_move_internal, opposite-opposite)
        (position_ext _ p
          (record {
            same_board = s.same_board;
            same_type = s.same_type;
            same_color = s.same_color;
            same_king = s.same_king;
          })
          refl refl (omega arith) refl (side_back p.continuous_check p.side_to_move _) refl)
  quiet_move_undone false d n s =
      rw (d, n, undo_move, do_move_internal, opposite-opposite)
        (position_ext _ p
          (record {
            same_board = s.same_board;
            same_type = s.same_type;
            same_color = s.same_color;
            same_king = s.same_king;
          })
          refl refl (omega arith) refl refl refl)

  abbrev capturing : Position
  capturing =
      let u = remove_piece (to_square m) p in
      put_piece (to_square m) (piece_on p (to_square m)) (
        put_piece (from_square m) (returning m (piece_on (moved m u) (to_square m)))
          (remove_piece (to_square m) (moved m u)))

  capture_move_undone :
      (aux : Bool)
      → is_drop m ≡ false
      → is_none (piece_on p (to_square m)) ≡ false
      → SamePlacement capturing p
      → undone aux ≡ p
  unfolding do_move_internal undo_move put_piece remove_piece
  capture_move_undone true d n s =
      rw (d, n, undo_move, do_move_internal, opposite-opposite)
        (position_ext _ p
          (record {
            same_board = s.same_board;
            same_type = s.same_type;
            same_color = s.same_color;
            same_king = s.same_king;
          })
          (side_back p.hand p.side_to_move _) refl (omega arith) refl
          (side_back p.continuous_check p.side_to_move _) refl)
  capture_move_undone false d n s =
      rw (d, n, undo_move, do_move_internal, opposite-opposite)
        (position_ext _ p
          (record {
            same_board = s.same_board;
            same_type = s.same_type;
            same_color = s.same_color;
            same_king = s.same_king;
          })
          (side_back p.hand p.side_to_move _) refl (omega arith) refl refl refl)

  module _ (c : Consistent p) (known : KingsKnown p) where
    undo_drop_lem : (aux : Bool) → (d : is_drop m ≡ true) → IsDropOf m p → undone aux ≡ p
    undo_drop_lem aux d h = drop_move_undone aux d (
        drop_back p c known (to_square m) pc h.to_small h.free (omega (arith, t, h.lo))
          (omega (arith, t, h.hi)) (make-lt p.side_to_move (drop_piece m) (omega (arith, h.hi))))
      where
        pc : Piece
        pc = make p.side_to_move (drop_piece m)

        t : get_type pc ≡ drop_piece m
        t = get_type-make p.side_to_move (drop_piece m) (omega (arith, h.hi))

    undo_shift_lem : (aux : Bool) → (d : is_drop m ≡ false) → IsShift m p → undone aux ≡ p
    undo_shift_lem aux d h = elim (Bool-cases (is_none (piece_on p (to_square m)))) [
      | inl n ↦ quiet_move_undone aux d n (move_back m p c known h (none-zero n))
      | inr n ↦ capture_move_undone aux d n (capture_move_back m p c known h n)
    ]
      where
        none-zero : is_none (piece_on p (to_square m)) ≡ true → piece_on p (to_square m) ≡ 0
        none-zero n = unfold is_none in ==→eq _ 0 n

    -- Taking back a playable move restores the whole position, where the bitboards agree with the
    -- board and the king squares are known: with or without the auxiliary updates, and whether the
    -- caller says that the move gives check or leaves it to be computed.
    pub undo_move-do_move : (aux : Bool) → IsPlayable m p → undone aux ≡ p
    undo_move-do_move aux h = elim (Bool-cases (is_drop m)) [
      | inl d ↦ undo_drop_lem aux d (rw d at h)
      | inr d ↦ undo_shift_lem aux d (rw d at h)
    ]
