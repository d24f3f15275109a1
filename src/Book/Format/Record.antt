-- ===== src/Book/Format/Record.antt =====
-- Move records of a YBB file are read back as they were written.
use jhbr.Base.{
  ℕ, ◌<◌, ◌≡◌, refl, ap, ◌∙◌, bit_and, ◌==◌, if◌then◌else◌, List, arith, length, IsInt16, int16_of,
  uint16_of, int16_of-uint16_of, uint16_of-lt,
}
use jhbr.Book.Format.{
  YbbMoveRecord, read_le16, store_up, store_le16, decode_ybb_move_record, encode_ybb_move_record,
}
use jhbr.Book.Format.Bytes.{
  IsBytes, scale, read_le16-little, store_up-IsBytes, length-store_up, little-store_up, little-kept,
}

-- The values that the fields of a record can hold.
pub record IsMoveRecord (move : YbbMoveRecord) : Type 0 where
  pub move_range : move.move < 65536
  pub eval_range : IsInt16 move.eval
  pub depth_range : move.depth < 65536

-- A record as a book without depths keeps it.
abbrev pub stored : ℕ → YbbMoveRecord → YbbMoveRecord
stored flags move = record move { depth = if bit_and flags 1 == 0 then 0 else move.depth }

module _ (move : YbbMoveRecord) (bytes : List ℕ) (flags : ℕ) (r : IsMoveRecord move)
    (size : length bytes ≡ 6) (h : IsBytes bytes) where
  abbrev b1 : List ℕ
  b1 = store_up bytes 0 2 move.move

  abbrev b2 : List ℕ
  b2 = store_up b1 2 2 (uint16_of move.eval)

  abbrev b3 : List ℕ
  b3 = store_up b2 4 2 move.depth

  encoded : encode_ybb_move_record move bytes ≡ b3
  unfolding encode_ybb_move_record store_le16 store_up
  encoded = refl

  size2 : length b2 ≡ 6
  size2 = length-store_up b1 2 2 _ ∙ length-store_up bytes 0 2 _ ∙ size

  bytes3 : IsBytes b3
  bytes3 = store_up-IsBytes b2 4 2 _ (store_up-IsBytes b1 2 2 _ (store_up-IsBytes bytes 0 2 _ h))

  move_back : read_le16 b3 0 ≡ move.move
  move_back =
      read_le16-little b3 0 bytes3
      ∙ little-kept b2 0 2 4 2 _ (omega arith)
      ∙ little-kept b1 0 2 2 2 _ (omega arith)
      ∙ little-store_up bytes 0 2 _ (omega (arith, size)) (unfold scale in r.move_range)

  eval_back : int16_of (read_le16 b3 2) ≡ move.eval
  eval_back =
      ap int16_of (
        read_le16-little b3 2 bytes3
        ∙ little-kept b2 2 2 4 2 _ (omega arith)
        ∙ little-store_up b1 2 2 _ (omega (arith, length-store_up bytes 0 2 move.move, size))
            (unfold scale in uint16_of-lt move.eval))
      ∙ int16_of-uint16_of move.eval r.eval_range

  depth_back : read_le16 b3 4 ≡ move.depth
  depth_back =
      read_le16-little b3 4 bytes3
      ∙ little-store_up b2 4 2 _ (omega (arith, size2)) (unfold scale in r.depth_range)

  -- A move record whose fields are in range is decoded from its encoding, with its evaluation signed,
  -- and with the depth where the flags say that the book keeps depths, else with depth 0.
  pub decode-encode_ybb_move_record :
      decode_ybb_move_record (encode_ybb_move_record move bytes) flags ≡ stored flags move
  unfolding decode_ybb_move_record
  decode-encode_ybb_move_record = rw encoded (λ i. record {
    move = move_back i;
    eval = eval_back i;
    depth = if bit_and flags 1 == 0 then 0 else depth_back i;
  })
