-- ===== src/Shogi/Position/Make.antt =====
-- Making and taking back moves: DoMoveInternal, UndoMove and the keys after a move.
use jhbr.Base.{
  ℕ, ◌+◌, ◌-◌, bit_xor, Bool, true, false, not, List, [], ◌∷◌, Option, none, some, if◌then◌else◌,
}
use jhbr.Shogi.Piece.{
  Color, opposite, Piece, no_piece, is_none, get_type, make, promote, unpromote, unpromote_type,
}
use jhbr.Shogi.Hand.{Hand, add, sub}
use jhbr.Shogi.Move.{Move, is_drop, is_promotion, drop_piece, to_square, from_square}
use jhbr.Shogi.Zobrist.{Zobrist, hash_hand}
use jhbr.Shogi.Position.{Position, side, set_side, HistoryEntry, piece_on, put_piece, remove_piece}

pub record UndoInfo : Type 0 where
  pub captured : Piece
  pub prev_hand : Hand
  pub prev_hash : ℕ
  pub prev_continuous_check : ℕ
  pub gave_check : Bool
  pub updated_auxiliary : Bool

-- `if (update_auxiliary) hash_ ^= key`
abbrev pub xor_if : Bool → ℕ → ℕ → ℕ
xor_if update_auxiliary key hash = if update_auxiliary then bit_xor hash key else hash

abbrev pub with_hash : Position → ℕ → Position
with_hash p h = record p { hash = h }

abbrev pub with_hand : Position → Color → Hand → Position
with_hand p c h = record p { hand = set_side p.hand c h }

-- The piece as it stands after the move.
abbrev pub landing : Move → Piece → Piece
landing m moved = if is_promotion m then promote moved else moved

-- Taking a drop off the board, with the hand as it was.
unfoldable pub undo_drop : Move → UndoInfo → Color → Position → Position
undo_drop m undo us p = with_hand (remove_piece (to_square m) p) us undo.prev_hand

-- Moving a piece back and putting a captured one back.
unfoldable pub undo_board : Move → UndoInfo → Color → Position → Position
undo_board m undo us p =
    let to = to_square m in
    let moved = piece_on p to in
    let back = if is_promotion m then unpromote moved else moved in
    let p1 = put_piece (from_square m) back (remove_piece to p) in
    if not (is_none undo.captured)
    then with_hand (put_piece to undo.captured p1) us undo.prev_hand
    else p1

abbrev pub pop : List HistoryEntry → List HistoryEntry
pop [] = []
pop (e ∷ es) = es

-- Hash, check counter and history, if the move updated them.
unfoldable pub undo_auxiliary : UndoInfo → Color → Position → Position
undo_auxiliary undo us p =
    if undo.updated_auxiliary
    then record p {
      hash = undo.prev_hash;
      continuous_check = set_side p.continuous_check us undo.prev_continuous_check;
      history = pop p.history;
    }
    else p

unfoldable pub undo_move : Move → UndoInfo → Position → Position
unfolding undo_drop undo_board undo_auxiliary
undo_move m undo p =
    let us = opposite p.side_to_move in
    let p1 = record p { side_to_move = us; ply = p.ply - 1 } in
    undo_auxiliary undo us (if is_drop m then undo_drop m undo us p1 else undo_board m undo us p1)

-- `in_check` is InCheck, which reads the attack tables.
module _ (z : Zobrist) (in_check : Position → Color → Bool) where
  -- The drop branch.
  unfoldable pub place_drop : Bool → Move → Color → Position → Position
  place_drop aux m us p =
      let pt = drop_piece m in
      let old = side p.hand us in
      let new = sub old pt in
      let pc = make us pt in
      let h1 = xor_if aux (hash_hand z us new) (xor_if aux (hash_hand z us old) p.hash) in
      let p1 = put_piece (to_square m) pc (with_hand (with_hash p h1) us new) in
      with_hash p1 (xor_if aux (z.psq pc (to_square m)) p1.hash)

  -- A capture takes the piece off the board and into the hand, unpromoted.
  unfoldable pub take_captured : Bool → Move → Color → Position → Position
  take_captured aux m us p =
      let to = to_square m in
      let captured = piece_on p to in
      let p1 = remove_piece to (with_hash p (xor_if aux (z.psq captured to) p.hash)) in
      let old = side p1.hand us in
      let new = add old (unpromote_type (get_type captured)) in
      with_hand
        (with_hash p1 (xor_if aux (hash_hand z us new) (xor_if aux (hash_hand z us old) p1.hash)))
        us new

  -- The moving piece leaves its square, is promoted if so flagged, and lands.
  unfoldable pub shift_piece : Bool → Move → Position → Position
  shift_piece aux m p =
      let to = to_square m in
      let from = from_square m in
      let moved = piece_on p from in
      let p1 = remove_piece from (with_hash p (xor_if aux (z.psq moved from) p.hash)) in
      let p2 = put_piece to (landing m moved) p1 in
      with_hash p2 (xor_if aux (z.psq (landing m moved) to) p2.hash)

  -- The board branch.
  unfoldable pub move_on_board : Bool → Move → Color → Position → Position
  unfolding take_captured shift_piece
  move_on_board aux m us p =
      shift_piece aux m (if is_none (piece_on p (to_square m)) then p else take_captured aux m us p)

  unfoldable pub push_history : Bool → Position → Position
  push_history aux p =
      let entry : HistoryEntry = record {
        hash = p.hash;
        hand_black = p.hand.of_black;
        hand_white = p.hand.of_white;
      } in
      if aux then record p { history = entry ∷ p.history } else p

  -- Side, ply and hash, once the pieces are placed.
  unfoldable pub pass_turn : Bool → Color → Position → Position
  pass_turn aux us p = record p {
    hash = xor_if aux z.side p.hash;
    side_to_move = opposite us;
    ply = p.ply + 1;
  }

  unfoldable pub gave : Bool → Option Bool → Color → Position → Bool
  gave false gives_check us p = false
  gave true none us p = in_check p (opposite us)
  gave true (some g) us p = g

  unfoldable pub count_checks : Bool → Bool → Color → Position → Position
  count_checks aux gave_check us p =
      if aux
      then record p {
        continuous_check =
            set_side p.continuous_check us
              (if gave_check then side p.continuous_check us + 2 else 0);
      }
      else p

  -- The pieces placed and the turn passed.
  unfoldable pub played : Bool → Move → Position → Position
  unfolding place_drop move_on_board push_history pass_turn
  played aux m p =
      let us = p.side_to_move in
      let p0 = push_history aux p in
      pass_turn aux us (if is_drop m then place_drop aux m us p0 else move_on_board aux m us p0)

  -- DoMoveInternal; `gives_check` is `none` for -1.
  unfoldable pub do_move_internal : Move → Bool → Option Bool → Position → UndoInfo × Position
  unfolding played gave count_checks
  do_move_internal m aux gives_check p =
      let us = p.side_to_move in
      let q = played aux m p in
      let g = gave aux gives_check us q in
      let undo : UndoInfo = record {
        captured = if is_drop m then no_piece else piece_on p (to_square m);
        prev_hand = side p.hand us;
        prev_hash = p.hash;
        prev_continuous_check = side p.continuous_check us;
        gave_check = g;
        updated_auxiliary = aux;
      } in
      (undo, count_checks aux g us q)

  unfoldable pub do_move : Move → Position → UndoInfo × Position
  unfolding do_move_internal
  do_move m p = do_move_internal m true none p
