-- ===== src/Book/Format.antt =====
-- book/ybb_format.h: the byte layout of a YBB file.
pub mod Bytes
pub mod Index
pub mod Record
use jhbr.Base.{
  ℕ, zero, suc, ◌+◌, ◌-◌, ◌*◌, ◌/◌, ◌%◌, ◌^◌, bit_and, bit_or, Bool, ◌==◌, List, [], ◌∷◌, ◌++◌,
  Option, none, some, if◌then◌else◌, ltb, length, get_or, set, take, drop, ℤ, int16_of, uint16_of,
  u64,
}

abbrev pub k_ybb_magic : List ℕ
k_ybb_magic = 89 ∷ 65 ∷ 78 ∷ 69 ∷ 45 ∷ 66 ∷ 73 ∷ 78 ∷ 66 ∷ 79 ∷ 79 ∷ 75 ∷ 45 ∷ 86 ∷ 49 ∷ 0 ∷ []

abbrev pub k_ybb_header_size : ℕ
k_ybb_header_size = 32

abbrev pub k_ybb_index_record_size : ℕ
k_ybb_index_record_size = 44

abbrev pub k_ybb_flag_move_depth : ℕ
k_ybb_flag_move_depth = 1

abbrev pub k_ybb_known_flags : ℕ
k_ybb_known_flags = k_ybb_flag_move_depth

-- The 32 bytes of a packed position are its key.
abbrev pub PackedSfen : Type 0
PackedSfen = List ℕ

pub record YbbIndexEntry : Type 0 where
  pub packed_sfen : PackedSfen
  pub moves_offset : ℕ
  pub ply : ℕ
  pub move_count : ℕ

pub record YbbMoveRecord : Type 0 where
  pub move : ℕ
  pub eval : ℤ
  pub depth : ℕ

-- The byte at an offset of an array.
abbrev pub byte : List ℕ → ℕ → ℕ
byte bytes i = get_or bytes i 0

unfoldable pub read_le16 : List ℕ → ℕ → ℕ
read_le16 bytes off = bit_or (byte bytes off) (byte bytes (off + 1) * 2 ^ 8)

-- The loop from the last byte down, `i` rounds of which are left.
unfoldable pub read_down : List ℕ → ℕ → ℕ → ℕ → ℕ
read_down bytes off zero value = value
read_down bytes off (suc i) value =
    read_down bytes off i (bit_or (u64 (value * 2 ^ 8)) (byte bytes (off + i)))

unfoldable pub read_le64 : List ℕ → ℕ → ℕ
unfolding read_down
read_le64 bytes off = read_down bytes off 8 0

unfoldable pub store_le16 : List ℕ → ℕ → ℕ → List ℕ
store_le16 bytes off value = set (set bytes off (value % 2 ^ 8)) (off + 1) (value / 2 ^ 8 % 2 ^ 8)

-- The loop from the first byte up, with `n` rounds left.
unfoldable pub store_up : List ℕ → ℕ → ℕ → ℕ → List ℕ
store_up bytes off zero value = bytes
store_up bytes off (suc n) value =
    store_up (set bytes off (value % 2 ^ 8)) (off + 1) n (value / 2 ^ 8)

unfoldable pub store_le64 : List ℕ → ℕ → ℕ → List ℕ
unfolding store_up
store_le64 bytes off value = store_up bytes off 8 value

unfoldable pub ybb_move_record_size : ℕ → ℕ
ybb_move_record_size flags = if bit_and flags k_ybb_flag_move_depth == 0 then 4 else 6

unfoldable pub ybb_index_size : ℕ → Option ℕ
ybb_index_size record_count =
    if ltb ((2 ^ 64 - 1 - k_ybb_header_size) / k_ybb_index_record_size) record_count
    then none
    else some (u64 (k_ybb_header_size + u64 (record_count * k_ybb_index_record_size)))

-- memcpy over the start of an array.
abbrev pub copy : List ℕ → List ℕ → List ℕ
copy [] bytes = bytes
copy (d ∷ ds) [] = []
copy (d ∷ ds) (b ∷ bytes) = d ∷ copy ds bytes

unfoldable pub decode_ybb_index_entry : List ℕ → YbbIndexEntry
decode_ybb_index_entry bytes = record {
  packed_sfen = take 32 bytes;
  moves_offset = read_le64 bytes 32;
  ply = read_le16 bytes 40;
  move_count = read_le16 bytes 42;
}

unfoldable pub encode_ybb_index_entry : YbbIndexEntry → List ℕ → List ℕ
encode_ybb_index_entry entry bytes =
    store_le16
      (store_le16 (store_le64 (copy entry.packed_sfen bytes) 32 entry.moves_offset) 40 entry.ply) 42
      entry.move_count

unfoldable pub decode_ybb_move_record : List ℕ → ℕ → YbbMoveRecord
decode_ybb_move_record bytes flags = record {
  move = read_le16 bytes 0;
  eval = int16_of (read_le16 bytes 2);
  depth = if bit_and flags k_ybb_flag_move_depth == 0 then 0 else read_le16 bytes 4;
}

unfoldable pub encode_ybb_move_record : YbbMoveRecord → List ℕ → List ℕ
encode_ybb_move_record move bytes =
    store_le16 (store_le16 (store_le16 bytes 0 move.move) 2 (uint16_of move.eval)) 4 move.depth

-- WriteYbbHeader, the bytes that it writes.
unfoldable pub ybb_header : ℕ → ℕ → List ℕ
ybb_header record_count flags =
    let tail = 0 ∷ 0 ∷ 0 ∷ 0 ∷ 0 ∷ 0 ∷ 0 ∷ 0 ∷ 0 ∷ 0 ∷ 0 ∷ 0 ∷ 0 ∷ 0 ∷ 0 ∷ 0 ∷ [] in
    k_ybb_magic ++ store_le64 (store_le64 tail 0 record_count) 8 flags
