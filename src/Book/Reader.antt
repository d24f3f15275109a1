-- ===== src/Book/Reader.antt =====
-- class OpeningBook of book/opening_book.cc: opening, validating and probing a YBB file.
pub mod Loaded
use jhbr.Base.{
  ℕ, zero, suc, ◌+◌, ◌-◌, ◌*◌, ◌/◌, ◌^◌, bit_and, Bool, true, false, not, ◌&&◌, ◌||◌, ◌==◌, ltb,
  leb, List, [], ◌∷◌, Option, none, some, if◌then◌else◌, length, take, drop, u64, ℤ, ltℤ, ◌>>=◌,
  guard, ◌>>◌,
}
use jhbr.Book.Format.{
  PackedSfen, YbbIndexEntry, YbbMoveRecord, k_ybb_magic, k_ybb_header_size, k_ybb_index_record_size,
  k_ybb_known_flags, read_le64, ybb_move_record_size, ybb_index_size, decode_ybb_index_entry,
  decode_ybb_move_record,
}

pub data BookError : Type 0 where
  cannot_open invalid_header unsupported_flags invalid_index_size : BookError
  trailing_data cannot_read_index invalid_moves_area : BookError

-- An open book. Both streams read the same file.
pub record OpeningBook : Type 0 where
  pub file : List ℕ
  pub record_count : ℕ
  pub flags : ℕ
  pub moves_base : ℕ
  pub file_size : ℕ

-- seekg and read: `n` bytes from `off` on, or a failed stream when the file ends before.
unfoldable pub read_at : List ℕ → ℕ → ℕ → Option (List ℕ)
read_at file off n = if leb (off + n) (length file) then some (take n (drop off file)) else none

-- ReadIndexEntry
unfoldable pub read_index_entry : OpeningBook → ℕ → Option YbbIndexEntry
read_index_entry book index =
    if leb book.record_count index
    then none
    else read_at book.file (u64 (k_ybb_header_size + u64 (index * k_ybb_index_record_size)))
        k_ybb_index_record_size
      >>= λ bytes. some (decode_ybb_index_entry bytes)

-- ReadMove. The sums and products are 64-bit; the differences are those of a validated file.
unfoldable pub read_move : OpeningBook → YbbIndexEntry → ℕ → Option YbbMoveRecord
read_move book entry move_index =
    let record_size = ybb_move_record_size book.flags in
    let relative = u64 (entry.moves_offset + move_index * record_size) in
    let area = u64 (book.file_size + 2 ^ 64 - book.moves_base) in
    if leb entry.move_count move_index
    then none
    else if ltb area relative || ltb (u64 (area + 2 ^ 64 - relative)) record_size
    then none
    else read_at book.file (u64 (book.moves_base + relative)) record_size >>= λ bytes.
        some (decode_ybb_move_record bytes book.flags)

-- The checks of ValidateFile on the first and the last entry.
abbrev pub moves_area_ok : OpeningBook → YbbIndexEntry → YbbIndexEntry → Bool
moves_area_ok book first last =
    let area = u64 (book.file_size + 2 ^ 64 - book.moves_base) in
    first.moves_offset == 0
    && leb last.moves_offset area
    && leb last.move_count
        (u64 (area + 2 ^ 64 - last.moves_offset) / ybb_move_record_size book.flags)

abbrev pub both_entries :
    Option YbbIndexEntry → Option YbbIndexEntry → Option (YbbIndexEntry × YbbIndexEntry)
both_entries a b = a >>= λ first. b >>= λ last. some (first, last)

abbrev pub check_area : OpeningBook → Option (YbbIndexEntry × YbbIndexEntry) → Option BookError
check_area book none = some cannot_read_index
check_area book (some (first, last)) =
    if moves_area_ok book first last then none else some invalid_moves_area

-- ValidateFile: the error, if there is one.
unfoldable pub validate_file : OpeningBook → Option BookError
validate_file book =
    if book.record_count == 0
    then (if book.moves_base == book.file_size then none else some trailing_data)
    else check_area book
        (both_entries (read_index_entry book 0) (read_index_entry book (book.record_count - 1)))

pub data LoadResult : Type 0 where
  loaded : OpeningBook → LoadResult
  failed : BookError → LoadResult

abbrev pub same_bytes : List ℕ → List ℕ → Bool
same_bytes [] [] = true
same_bytes [] (y ∷ ys) = false
same_bytes (x ∷ xs) [] = false
same_bytes (x ∷ xs) (y ∷ ys) = x == y && same_bytes xs ys

abbrev pub finish : OpeningBook → Option BookError → LoadResult
finish book none = loaded book
finish book (some e) = failed e

abbrev pub load_index : List ℕ → ℕ → ℕ → Option ℕ → LoadResult
load_index file record_count flags none = failed invalid_index_size
load_index file record_count flags (some moves_base) =
    let book : OpeningBook = record {
      file = file;
      record_count = record_count;
      flags = flags;
      moves_base = moves_base;
      file_size = length file;
    } in
    if ltb (length file) moves_base
    then failed invalid_index_size
    else finish book (validate_file book)

abbrev pub load_header : List ℕ → Option (List ℕ) → LoadResult
load_header file none = failed invalid_header
load_header file (some header) =
    let record_count = read_le64 header 16 in
    let flags = read_le64 header 24 in
    if not (same_bytes (take 16 header) k_ybb_magic)
    then failed invalid_header
    else if not (bit_and flags (2 ^ 64 - 1 - k_ybb_known_flags) == 0)
    then failed unsupported_flags
    else load_index file record_count flags (ybb_index_size record_count)

-- Load, of the bytes of the file if it opens.
unfoldable pub load : Option (List ℕ) → LoadResult
load none = failed cannot_open
load (some file) = load_header file (read_at file 0 k_ybb_header_size)
