-- ===== src/Shogi/PackedSfen/Codec.antt =====
-- ToPackedSfen and SetFromPackedSfen of shogi/packed_sfen.cc.
use jhbr.Base.{
  ℕ, zero, suc, ◌+◌, ◌-◌, Bool, true, false, not, ◌&&◌, ◌||◌, ◌==◌, ltb, max, List, [], ◌∷◌, Option,
  none, some, if◌then◌else◌, get_or, set, ◌>>=◌,
}
use jhbr.Shogi.Piece.{
  Color, black, white, is_white, Piece, PieceType, king, make, is_none, get_type, is_promoted,
  unpromote_type,
}
use jhbr.Shogi.Hand.{count, add}
use jhbr.Shogi.Zobrist.{Zobrist}
use jhbr.Shogi.Position.{Position, side, set_side, empty_position, put_piece}
use jhbr.Shogi.Position.Keys.{compute_hash}
use jhbr.Shogi.Repetition.{clear_history}
use jhbr.Shogi.PackedSfen.{
  BitWriter, new_writer, write, bit_of, write_board_piece, write_hand_piece, write_piece_box_piece,
  read, read_board_piece, read_hand_piece, HandPiece,
}

abbrev pub k_physical_piece_counts : List ℕ
k_physical_piece_counts = 0 ∷ 18 ∷ 4 ∷ 4 ∷ 4 ∷ 2 ∷ 2 ∷ 4 ∷ []

abbrev pub k_hand_order : List PieceType
k_hand_order = 1 ∷ 2 ∷ 3 ∷ 4 ∷ 7 ∷ 5 ∷ 6 ∷ []

-- The writer and the physical pieces that remain.
pub record Packing : Type 0 where
  pub writer : BitWriter
  pub remaining : List ℕ

-- `n` pieces of a type off what remains, unless that would be negative.
unfoldable pub spend : PieceType → ℕ → Packing → Option Packing
spend raw n s =
    if ltb (get_or s.remaining raw 0) n
    then none
    else some (record s { remaining = set s.remaining raw (get_or s.remaining raw 0 - n) })

-- One round of the loop over the squares.
unfoldable pub pack_square : Piece → Packing → Option Packing
pack_square piece s =
    let raw =
      if is_promoted (get_type piece) then unpromote_type (get_type piece) else get_type piece in
    if not (is_none piece) && (get_type piece == king)
    then some s
    else write_board_piece piece s.writer >>= λ w.
        if is_none piece
        then some (record s { writer = w })
        else if ltb raw 1 || ltb 7 raw
        then none
        else spend raw 1 (record s { writer = w })

unfoldable pub pack_squares : List Piece → Packing → Option Packing
pack_squares [] s = some s
pack_squares (piece ∷ pieces) s = pack_square piece s >>= λ t. pack_squares pieces t

unfoldable pub repeat_write : ℕ → (BitWriter → Option BitWriter) → Packing → Option Packing
repeat_write zero f s = some s
repeat_write (suc n) f s = f s.writer >>= λ w. repeat_write n f (record s { writer = w })

-- The hands of one colour, in the order given.
unfoldable pub pack_hand : Color → ℕ → List PieceType → Packing → Option Packing
pack_hand color hand [] s = some s
pack_hand color hand (raw ∷ raws) s = spend raw (count hand raw) s >>= λ t.
    repeat_write (count hand raw) (write_hand_piece color raw) t >>= λ u.
    pack_hand color hand raws u

-- What remains goes to the piece box.
unfoldable pub pack_box : List PieceType → Packing → Option Packing
pack_box [] s = some s
pack_box (raw ∷ raws) s =
    repeat_write (get_or s.remaining raw 0) (write_piece_box_piece raw) s >>= λ t. pack_box raws t

-- ToPackedSfen: the 32 bytes, if the position can be packed.
unfoldable pub to_packed_sfen : Position → Option (List ℕ)
to_packed_sfen p = write (bit_of (is_white p.side_to_move)) 1 new_writer >>= λ w1.
    write p.king_sq.of_black 7 w1 >>= λ w2. write p.king_sq.of_white 7 w2 >>= λ w3.
    pack_squares p.board (record { writer = w3; remaining = k_physical_piece_counts }) >>= λ s1.
    pack_hand black p.hand.of_black k_hand_order s1 >>= λ s2.
    pack_hand white p.hand.of_white k_hand_order s2 >>= λ s3. pack_box k_hand_order s3 >>= λ s4.
    if s4.writer.cursor == 256 then some s4.writer.bytes else none

abbrev pub put_king : Color → ℕ → Position → Position
put_king c sq p = if ltb sq 81 then put_piece sq (make c king) p else p

-- One round of the loop over the squares. The kings stand already.
unfoldable pub unpack_square : List ℕ → ℕ → ℕ → ℕ → ℕ → Position → Option (Position × ℕ)
unpack_square bytes black_king white_king square cursor p =
    if square == black_king || square == white_king
    then some (p, cursor)
    else read_board_piece bytes cursor >>= λ r.
        some (if is_none r.0 then p else put_piece square r.0 p, r.1)

-- The loop over the squares from `square` on, `n` of which are left.
unfoldable pub unpack_squares : List ℕ → ℕ → ℕ → ℕ → ℕ → ℕ → Position → Option (Position × ℕ)
unpack_squares bytes black_king white_king zero square cursor p = some (p, cursor)
unpack_squares bytes black_king white_king (suc n) square cursor p =
    unpack_square bytes black_king white_king square cursor p >>= λ r.
    unpack_squares bytes black_king white_king n (square + 1) r.1 r.0

abbrev pub receive : HandPiece → Position → Position
receive piece p =
    if piece.piece_box
    then p
    else record p { hand = set_side p.hand piece.color (add (side p.hand piece.color) piece.raw) }

-- The loop over the rest of the stream. Each piece has at least one bit, so that one unit of fuel for
-- each bit is enough.
unfoldable pub unpack_hands : List ℕ → ℕ → ℕ → Position → Option (Position × ℕ)
unpack_hands bytes zero cursor p = none
unpack_hands bytes (suc fuel) cursor p = elim (ltb cursor 256) [
  | false ↦ some (p, cursor)
  | true ↦ read_hand_piece bytes cursor >>= λ r. unpack_hands bytes fuel r.1 (receive r.0 p)
]

abbrev pub kings_ok : ℕ → ℕ → ℕ → Bool
kings_ok turn black_king white_king = not (
    ltb 1 turn
    || ltb 81 black_king
    || ltb 81 white_king
    || (ltb black_king 81 && (black_king == white_king)))

abbrev pub with_turn : ℕ → ℕ → Position
with_turn turn game_ply = record empty_position {
  side_to_move = if turn == 0 then black else white;
  ply = max 1 game_ply;
}

-- The hash and the history of a position that was set up.
abbrev pub set_up : Zobrist → Position → Position
set_up z p = clear_history (record p { hash = compute_hash z p })

-- SetFromPackedSfen: the position, if the bytes hold one.
unfoldable pub set_from_packed_sfen : Zobrist → List ℕ → ℕ → Option Position
set_from_packed_sfen z bytes game_ply = read bytes 1 0 >>= λ turn. read bytes 7 turn.1 >>= λ bk.
    read bytes 7 bk.1 >>= λ wk.
    if not (kings_ok turn.0 bk.0 wk.0)
    then none
    else unpack_squares bytes bk.0 wk.0 81 0 wk.1
        (put_king white wk.0 (put_king black bk.0 (with_turn turn.0 game_ply)))
      >>= λ s.
          unpack_hands bytes 257 s.1 s.0 >>= λ r. if r.1 == 256 then some (set_up z r.0) else none
