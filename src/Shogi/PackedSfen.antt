-- ===== src/Shogi/PackedSfen.antt =====
-- The bit streams and piece codes of shogi/packed_sfen.cc.
pub mod Codec
pub mod Stream
pub mod Pieces
pub mod Board
use jhbr.Base.{
  ℕ, zero, suc, ◌+◌, ◌-◌, ◌*◌, ◌/◌, ◌%◌, ◌^◌, bit_or, Bool, true, false, not, ◌&&◌, ◌||◌, ◌==◌, ltb,
  leb, List, [], ◌∷◌, Option, none, some, if◌then◌else◌, get_or, set, replicate, ◌>>=◌, guard, ◌>>◌,
}
use jhbr.Base.Bits.{bit}
use jhbr.Shogi.Piece.{
  Color, black, white, is_white, Piece, PieceType, no_piece, no_piece_type, gold, make, is_none,
  get_color, get_type, is_hand_piece, is_promoted, promote_type, unpromote_type,
}

pub record HuffmanCode : Type 0 where
  pub code : ℕ
  pub bits : ℕ

abbrev pub code_of : ℕ → ℕ → HuffmanCode
code_of code bits = record { code = code; bits = bits }

abbrev pub k_board_codes : List HuffmanCode
k_board_codes =
    code_of 0x00 1
    ∷ code_of 0x01 2
    ∷ code_of 0x03 4
    ∷ code_of 0x0b 4
    ∷ code_of 0x07 4
    ∷ code_of 0x1f 6
    ∷ code_of 0x3f 6
    ∷ code_of 0x0f 5
    ∷ []

abbrev pub k_piece_box_codes : List HuffmanCode
k_piece_box_codes =
    code_of 0x00 1
    ∷ code_of 0x02 2
    ∷ code_of 0x09 4
    ∷ code_of 0x0d 4
    ∷ code_of 0x0b 4
    ∷ code_of 0x2f 6
    ∷ code_of 0x3f 6
    ∷ code_of 0x1b 5
    ∷ []

abbrev pub board_code : PieceType → HuffmanCode
board_code raw = get_or k_board_codes raw (code_of 0 0)

abbrev pub piece_box_code : PieceType → HuffmanCode
piece_box_code raw = get_or k_piece_box_codes raw (code_of 0 0)

-- class BitWriter: the bytes written so far and the position of the next bit.
pub record BitWriter : Type 0 where
  pub bytes : List ℕ
  pub cursor : ℕ

abbrev pub new_writer : BitWriter
new_writer = record { bytes = replicate 32 0; cursor = 0 }

-- One round of the loop of Write: the bit goes to its byte if it is set.
unfoldable pub put_bit : ℕ → BitWriter → BitWriter
put_bit b w = record {
  bytes =
      if b == 0
      then w.bytes
      else set w.bytes (w.cursor / 8)
          (bit_or (get_or w.bytes (w.cursor / 8) 0) (2 ^ (w.cursor % 8) % 2 ^ 8));
  cursor = w.cursor + 1;
}

-- The loop from bit `i` of the value on, `n` bits of which are left.
unfoldable pub put_bits : ℕ → ℕ → ℕ → BitWriter → BitWriter
put_bits value i zero w = w
put_bits value i (suc n) w = put_bits value (i + 1) n (put_bit (value / 2 ^ i % 2) w)

unfoldable pub write : ℕ → ℕ → BitWriter → Option BitWriter
write value bits w = if ltb 256 (w.cursor + bits) then none else some (put_bits value 0 bits w)

-- The bit of an array of bytes at a position of the stream.
unfoldable pub bit_at : List ℕ → ℕ → ℕ
bit_at bytes at = get_or bytes (at / 8) 0 / 2 ^ (at % 8) % 2

-- class BitReader: the loop of Read from bit `i` on, `n` bits of which are left.
unfoldable pub take_bits : List ℕ → ℕ → ℕ → ℕ → ℕ → ℕ
take_bits bytes cursor i zero value = value
take_bits bytes cursor i (suc n) value =
    take_bits bytes (cursor + 1) (i + 1) n (bit_or value (bit_at bytes cursor * 2 ^ i))

-- Read: the value and the cursor after it.
unfoldable pub read : List ℕ → ℕ → ℕ → Option (ℕ × ℕ)
read bytes bits cursor =
    if ltb 256 (cursor + bits) then none else some (take_bits bytes cursor 0 bits 0, cursor + bits)

abbrev pub bit_of : Bool → ℕ
bit_of b = if b then 1 else 0

unfoldable pub write_board_piece : Piece → BitWriter → Option BitWriter
write_board_piece piece w =
    let type = get_type piece in
    let promoted = is_promoted type in
    let raw = if promoted then unpromote_type type else type in
    let code = board_code raw in
    if is_none piece
    then write (board_code 0).code (board_code 0).bits w
    else if ltb raw 1 || ltb 7 raw
    then none
    else write code.code code.bits w >>= λ w1.
        (if not (raw == gold) then write (bit_of promoted) 1 w1 else some w1) >>= λ w2.
        write (bit_of (is_white (get_color piece))) 1 w2

unfoldable pub write_hand_piece : Color → PieceType → BitWriter → Option BitWriter
write_hand_piece color raw w =
    let code = board_code raw in
    if not (is_hand_piece raw)
    then none
    else write (code.code / 2) (code.bits - 1) w >>= λ w1.
        (if not (raw == gold) then write 0 1 w1 else some w1) >>= λ w2.
        write (bit_of (is_white color)) 1 w2

unfoldable pub write_piece_box_piece : PieceType → BitWriter → Option BitWriter
write_piece_box_piece raw w =
    let code = piece_box_code raw in
    if not (is_hand_piece raw)
    then none
    else write code.code code.bits w >>= λ w1. if raw == gold then some w1 else write 0 1 w1

-- The first type from `raw` on with this code of this many bits, `n` types being left.
unfoldable pub board_type_of : ℕ → ℕ → ℕ → ℕ → Option PieceType
board_type_of bits code zero raw = none
board_type_of bits code (suc n) raw =
    let rest = board_type_of bits code n (raw + 1) in
    if (board_code raw).bits == bits && (board_code raw).code == code then some raw else rest

-- A type that was found ends a loop over the lengths of codes.
abbrev pub or_longer : Option PieceType → ℕ → Option (PieceType × ℕ) → Option (PieceType × ℕ)
or_longer none cursor rest = rest
or_longer (some raw) cursor rest = some (raw, cursor)

-- The loop of ReadBoardType from `bits` bits on, `n` lengths of which are left.
unfoldable pub read_board_type : List ℕ → ℕ → ℕ → ℕ → ℕ → Option (PieceType × ℕ)
read_board_type bytes zero bits code cursor = none
read_board_type bytes (suc n) bits code cursor = read bytes 1 cursor >>= λ r.
    let longer = bit_or code (r.0 * 2 ^ (bits - 1)) in
    or_longer (board_type_of bits longer 8 0) r.1 (read_board_type bytes n (bits + 1) longer r.1)

abbrev pub read_flag : List ℕ → Bool → ℕ → Option (Bool × ℕ)
read_flag bytes present cursor =
    if present
    then (read bytes 1 cursor >>= λ r. some (not (r.0 == 0), r.1))
    else some (false, cursor)

unfoldable pub read_board_piece : List ℕ → ℕ → Option (Piece × ℕ)
read_board_piece bytes cursor = read_board_type bytes 6 1 0 cursor >>= λ t.
    if t.0 == no_piece_type
    then some (no_piece, t.1)
    else read_flag bytes (not (t.0 == gold)) t.1 >>= λ promoted.
        read_flag bytes true promoted.1 >>= λ side. some (
          make (if side.0 then white else black) (if promoted.0 then promote_type t.0 else t.0),
          side.1,
        )

-- The search of ReadHandPiece, over the candidates 1 to 7.
unfoldable pub hand_type_of : ℕ → ℕ → ℕ → ℕ → Option PieceType
hand_type_of bits code zero raw = none
hand_type_of bits code (suc n) raw =
    let rest = hand_type_of bits code n (raw + 1) in
    if (board_code raw).bits - 1 == bits && (board_code raw).code / 2 == code
    then some raw
    else rest

unfoldable pub read_hand_type : List ℕ → ℕ → ℕ → ℕ → ℕ → Option (PieceType × ℕ)
read_hand_type bytes zero bits code cursor = none
read_hand_type bytes (suc n) bits code cursor = read bytes 1 cursor >>= λ r.
    let longer = bit_or code (r.0 * 2 ^ (bits - 1)) in
    or_longer (hand_type_of bits longer 7 1) r.1 (read_hand_type bytes n (bits + 1) longer r.1)

pub record HandPiece : Type 0 where
  pub raw : PieceType
  pub color : Color
  pub piece_box : Bool

unfoldable pub read_hand_piece : List ℕ → ℕ → Option (HandPiece × ℕ)
read_hand_piece bytes cursor = read_hand_type bytes 5 1 0 cursor >>= λ t.
    read_flag bytes (not (t.0 == gold)) t.1 >>= λ promoted.
    read_flag bytes true promoted.1 >>= λ side.
    let piece : HandPiece = record {
      raw = t.0;
      color = if side.0 then white else black;
      piece_box = promoted.0;
    } in
    some (piece, side.1)
