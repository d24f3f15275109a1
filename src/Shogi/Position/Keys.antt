-- ===== src/Shogi/Position/Keys.antt =====
-- Position keys: ComputeHash from scratch, and the keys that a move will lead to.
use jhbr.Base.{ℕ, ◌+◌, bit_xor, List, [], ◌∷◌, if◌then◌else◌}
use jhbr.Shogi.Piece.{black, white, is_white, Piece, is_none, get_type, make, unpromote_type}
use jhbr.Shogi.Square.{Square}
use jhbr.Shogi.Hand.{add, sub}
use jhbr.Shogi.Move.{Move, is_drop, drop_piece, to_square, from_square}
use jhbr.Shogi.Zobrist.{Zobrist, hash_hand}
use jhbr.Shogi.Position.{Position, side, piece_on}
use jhbr.Shogi.Position.Make.{landing}

module _ (z : Zobrist) where
  -- The key of what stands on a square.
  unfoldable pub square_key : Piece → Square → ℕ
  square_key pc sq = if is_none pc then 0 else z.psq pc sq

  -- The loop over the squares from `sq` on.
  unfoldable pub hash_squares : List Piece → Square → ℕ → ℕ
  hash_squares [] sq h = h
  hash_squares (pc ∷ pcs) sq h =
      hash_squares pcs (sq + 1) (if is_none pc then h else bit_xor h (z.psq pc sq))

  -- ComputeHash
  unfoldable pub compute_hash : Position → ℕ
  unfolding hash_squares
  compute_hash p =
      let h1 = hash_squares p.board 0 0 in
      let h2 = bit_xor h1 (hash_hand z black p.hand.of_black) in
      let h3 = bit_xor h2 (hash_hand z white p.hand.of_white) in
      if is_white p.side_to_move then bit_xor h3 z.side else h3

  -- The part of HashAfter and BoardKeyAfter that moves the piece.
  unfoldable pub shift_key : Move → Position → ℕ → ℕ
  shift_key m p h =
      let moved = piece_on p (from_square m) in
      bit_xor (bit_xor h (z.psq moved (from_square m))) (z.psq (landing m moved) (to_square m))

  -- The drop branch of HashAfter, and the capture that its board branch may begin with.
  unfoldable pub drop_key : Move → Position → ℕ
  drop_key m p =
      let us = p.side_to_move in
      let hd = side p.hand us in
      let h1 = bit_xor p.hash (hash_hand z us hd) in
      let h2 = bit_xor h1 (hash_hand z us (sub hd (drop_piece m))) in
      bit_xor h2 (z.psq (make us (drop_piece m)) (to_square m))

  unfoldable pub capture_key : Move → Position → ℕ
  capture_key m p =
      let us = p.side_to_move in
      let hd = side p.hand us in
      let captured = piece_on p (to_square m) in
      let h1 = bit_xor p.hash (z.psq captured (to_square m)) in
      let h2 = bit_xor h1 (hash_hand z us hd) in
      bit_xor h2 (hash_hand z us (add hd (unpromote_type (get_type captured))))

  unfoldable pub hash_after : Move → Position → ℕ
  unfolding shift_key drop_key capture_key
  hash_after m p =
      let start = if is_none (piece_on p (to_square m)) then p.hash else capture_key m p in
      bit_xor (if is_drop m then drop_key m p else shift_key m p start) z.side

  unfoldable pub board_key : Position → ℕ
  board_key p =
      bit_xor (bit_xor p.hash (hash_hand z black p.hand.of_black))
        (hash_hand z white p.hand.of_white)

  unfoldable pub board_key_after : Move → Position → ℕ
  unfolding board_key shift_key
  board_key_after m p =
      let us = p.side_to_move in
      let to = to_square m in
      let h = board_key p in
      let captured = piece_on p to in
      let start = if is_none captured then h else bit_xor h (z.psq captured to) in
      let dropped = bit_xor h (z.psq (make us (drop_piece m)) to) in
      bit_xor (if is_drop m then dropped else shift_key m p start) z.side
