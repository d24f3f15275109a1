-- ===== src/Nnue/Record.antt =====
-- nnue/record.h and nnue/record.cc: the file of training records, as bytes. The structs are packed and
-- little-endian. A file that is open is the list of its bytes, written so far or still to be read;
-- writes succeed.
pub mod RoundTrip
use jhbr.Base.{
  ℕ, zero, suc, ◌+◌, ◌-◌, ◌*◌, ◌/◌, ◌%◌, ◌^◌, bit_or, Bool, true, false, not, ◌&&◌, ◌||◌, ◌==◌, ltb,
  List, [], ◌∷◌, ◌++◌, Option, none, some, if◌then◌else◌, length, take, drop, get_or, ℤ, int16_of,
  uint16_of, u64, replicate,
}
use jhbr.Book.Format.{byte, read_le16}
use jhbr.Book.Reader.{same_bytes}

abbrev pub k_record_magic : List ℕ
k_record_magic = 74 ∷ 72 ∷ 66 ∷ 82 ∷ 53 ∷ 82 ∷ 67 ∷ 0 ∷ []

-- `result` is the byte of an int8_t.
pub record RecordHead : Type 0 where
  pub sfen : List ℕ
  pub score : ℤ
  pub move : ℕ
  pub game_ply : ℕ
  pub result : ℕ
  pub flags : ℕ
  pub n_dist : ℕ
  pub reserved : ℕ

pub record DistEntry : Type 0 where
  pub move : ℕ
  pub visits : ℕ

pub record Record : Type 0 where
  pub head : RecordHead
  pub dist : List DistEntry

-- The two bytes of a 16-bit field, before what follows them.
abbrev pub le16 : ℕ → List ℕ → List ℕ
le16 v rest = v % 2 ^ 8 ∷ v / 2 ^ 8 % 2 ^ 8 ∷ rest

-- The fields of a head after the packed position.
unfoldable pub tail_bytes : RecordHead → List ℕ → List ℕ
tail_bytes h rest =
    le16 (uint16_of h.score)
      (le16 h.move (le16 h.game_ply (h.result ∷ h.flags ∷ le16 h.n_dist (le16 h.reserved rest))))

unfoldable pub entry_bytes : List DistEntry → List ℕ → List ℕ
entry_bytes [] rest = rest
entry_bytes (e ∷ es) rest = le16 e.move (le16 e.visits (entry_bytes es rest))

abbrev pub some_dist : List DistEntry → Bool
some_dist [] = false
some_dist (e ∷ es) = true

-- The head that Write writes of a record.
unfoldable pub written_head : Record → RecordHead
written_head r = record r.head {
  n_dist = length r.dist % 2 ^ 16;
  flags = if some_dist r.dist then bit_or r.head.flags 1 else r.head.flags;
}

-- The bytes that Write appends.
unfoldable pub record_bytes : Record → List ℕ → List ℕ
record_bytes r rest = (written_head r).sfen ++ tail_bytes (written_head r) (entry_bytes r.dist rest)

pub record RecordWriter : Type 0 where
  pub file : Option (List ℕ)
  pub written : ℕ

-- RecordWriter::Open, once the file is created.
unfoldable pub open_writer : RecordWriter
open_writer = record {
  file = some (k_record_magic ++ (1 ∷ 0 ∷ 0 ∷ 0 ∷ 0 ∷ 0 ∷ 0 ∷ 0 ∷ []));
  written = 0;
}

-- RecordWriter::Write
unfoldable pub write_record : Record → RecordWriter → Bool × RecordWriter
write_record r w = elim w.file [
  | none ↦ (false, w)
  | some bytes ↦
      (true, record { file = some (bytes ++ record_bytes r []); written = u64 (w.written + 1) })
]

pub record RecordReader : Type 0 where
  pub file : Option (List ℕ)
  pub read : ℕ

pub data OpenError : Type 0 where
  not_record_file unsupported_version : OpenError

pub data OpenResult : Type 0 where
  opened : RecordReader → OpenResult
  refused : OpenError → OpenResult

-- RecordReader::Open, of the bytes of a file that opens.
unfoldable pub open_reader : List ℕ → OpenResult
open_reader bytes =
    if ltb (length bytes) 16 || not (same_bytes (take 8 bytes) k_record_magic)
    then refused not_record_file
    else if not (read_le16 bytes 8 == 1 && (read_le16 bytes 10 == 0))
    then refused unsupported_version
    else opened (record { file = some (drop 16 bytes); read = 0 })

-- The head in the first 44 bytes.
unfoldable pub parse_head : List ℕ → RecordHead
parse_head bytes = record {
  sfen = take 32 bytes;
  score = int16_of (read_le16 bytes 32);
  move = read_le16 bytes 34;
  game_ply = read_le16 bytes 36;
  result = byte bytes 38;
  flags = byte bytes 39;
  n_dist = read_le16 bytes 40;
  reserved = read_le16 bytes 42;
}

unfoldable pub parse_dist : ℕ → List ℕ → List DistEntry
parse_dist zero bytes = []
parse_dist (suc n) bytes =
    record { move = read_le16 bytes 0; visits = read_le16 bytes 2 } ∷ parse_dist n (drop 4 bytes)

-- A record at the start of the bytes, and what follows it; none at the end or in a truncated record.
unfoldable pub parse_record : List ℕ → Option (Record × List ℕ)
parse_record bytes =
    let head = parse_head bytes in
    let rest = drop 44 bytes in
    if ltb (length bytes) 44
    then none
    else if ltb (length rest) (4 * head.n_dist)
    then none
    else some
        (record { head = head; dist = parse_dist head.n_dist rest }, drop (4 * head.n_dist) rest)

-- RecordReader::Next, with the record that it reads.
unfoldable pub next_record : RecordReader → Option Record × RecordReader
next_record r = elim r.file [
  | none ↦ (none, r)
  | some bytes ↦ elim (parse_record bytes) [
    | none ↦ (none, record r { file = some [] })
    | some (rec, rest) ↦ (some rec, record { file = some rest; read = u64 (r.read + 1) })
  ]
]
