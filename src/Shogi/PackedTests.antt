-- ===== src/Shogi/PackedTests.antt =====
-- Packing and unpacking a concrete position.
use jhbr.Base.{◌≡◌, refl, some, arith}
use jhbr.Shogi.PackedSfen.{
  BitWriter, new_writer, put_bit, put_bits, write, read, read_board_type, write_board_piece,
  read_board_piece,
}
use jhbr.Shogi.PackedSfen.Board.{IsCoded, read_board_piece-write_board_piece}
use jhbr.Shogi.Piece.{get_type, is_promoted, unpromote_type, get_color, is_none}
use jhbr.Shogi.PackedSfen.Pieces.{read_board_type-write}
use jhbr.Shogi.PackedSfen.Stream.{read-write, new_writer-IsWriter}

abbrev written : BitWriter
written = put_bits 40 0 7 new_writer

written_by : write 40 7 new_writer ≡ some written
unfolding write
written_by = refl

read-write_example : read written.bytes 7 0 ≡ some (40, written.cursor)
read-write_example =
    read-write 40 7 new_writer written written.bytes new_writer-IsWriter (omega arith) written_by
      (λ j lt. refl)

abbrev bishop_written : BitWriter
bishop_written = put_bits 0x1f 0 6 new_writer

bishop_written_by : write 0x1f 6 new_writer ≡ some bishop_written
unfolding write
bishop_written_by = refl

read_board_type-write_example :
    read_board_type bishop_written.bytes 6 1 0 0 ≡ some (5, bishop_written.cursor)
read_board_type-write_example =
    read_board_type-write 5 new_writer bishop_written bishop_written.bytes (omega arith)
      new_writer-IsWriter bishop_written_by (λ j lt. refl)

abbrev horse_written : BitWriter
horse_written = put_bits 1 0 1 (put_bits 1 0 1 (put_bits 0x1f 0 6 new_writer))

horse_written_by : write_board_piece 29 new_writer ≡ some horse_written
unfolding write_board_piece write get_type is_promoted unpromote_type get_color is_none put_bits
    put_bit
horse_written_by = refl

horse-IsCoded : IsCoded 29
unfolding get_type
horse-IsCoded = (omega arith, λ e. omega (arith, e), λ e. omega (arith, e), λ e. omega (arith, e))

read_board_piece-write_board_piece_example :
    read_board_piece horse_written.bytes 0 ≡ some (29, horse_written.cursor)
read_board_piece-write_board_piece_example =
    read_board_piece-write_board_piece 29 new_writer horse_written horse_written.bytes horse-IsCoded
      new_writer-IsWriter horse_written_by (λ j lt. refl)
