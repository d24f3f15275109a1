-- ===== src/Book/Format/Index.antt =====
-- Index entries and move records of a YBB file are read back as they were written.
use jhbr.Base.{
  ℕ, zero, suc, ◌^◌, ◌<◌, ◌≤◌, ◌≡◌, refl, sym, ap, ◌∙◌, List, [], ◌∷◌, arith, length, get_or, take,
  get_or_ext,
}
use jhbr.Book.Format.{
  YbbIndexEntry, copy, read_le16, read_le64, store_up, store_le16, store_le64,
  decode_ybb_index_entry, encode_ybb_index_entry,
}
use jhbr.Book.Format.Bytes.{
  IsBytes, scale, read_le16-little, read_le64-little, store_up-IsBytes, store_up-below,
  length-store_up, little-store_up, little-kept,
}

get_or-take : (n j : ℕ) (xs : List ℕ) → j < n → get_or (take n xs) j 0 ≡ get_or xs j 0
get_or-take zero j xs h = absurd (omega arith)
get_or-take (suc n) j [] h = refl
get_or-take (suc n) zero (x ∷ xs) h = refl
get_or-take (suc n) (suc j) (x ∷ xs) h = get_or-take n j xs (omega arith)

length-take : (n : ℕ) (xs : List ℕ) → n ≤ length xs → length (take n xs) ≡ n
length-take zero xs h = refl
length-take (suc n) [] h = absurd (omega arith)
length-take (suc n) (x ∷ xs) h = ap suc (length-take n xs (omega arith))

length-copy : (ds bytes : List ℕ) → length (copy ds bytes) ≡ length bytes
length-copy [] bytes = refl
length-copy (d ∷ ds) [] = refl
length-copy (d ∷ ds) (b ∷ bytes) = ap suc (length-copy ds bytes)

get_or-copy :
    (ds bytes : List ℕ) (j : ℕ)
    → j < length ds
    → length ds ≤ length bytes
    → get_or (copy ds bytes) j 0 ≡ get_or ds j 0
get_or-copy [] bytes j h le = absurd (omega arith)
get_or-copy (d ∷ ds) [] j h le = absurd (omega arith)
get_or-copy (d ∷ ds) (b ∷ bytes) zero h le = refl
get_or-copy (d ∷ ds) (b ∷ bytes) (suc j) h le = get_or-copy ds bytes j (omega arith) (omega arith)

copy-IsBytes : (ds bytes : List ℕ) → IsBytes ds → IsBytes bytes → IsBytes (copy ds bytes)
copy-IsBytes [] bytes hd hb j = hb j
copy-IsBytes (d ∷ ds) [] hd hb j = hb j
copy-IsBytes (d ∷ ds) (b ∷ bytes) hd hb zero = hd 0
copy-IsBytes (d ∷ ds) (b ∷ bytes) hd hb (suc j) =
    copy-IsBytes ds bytes (λ i. hd (suc i)) (λ i. hb (suc i)) j

-- The values that the fields of an entry can hold.
pub record IsEntry (entry : YbbIndexEntry) : Type 0 where
  pub packed_length : length entry.packed_sfen ≡ 32
  pub packed_bytes : IsBytes entry.packed_sfen
  pub offset_range : entry.moves_offset < 2 ^ 64
  pub ply_range : entry.ply < 65536
  pub count_range : entry.move_count < 65536

module _ (entry : YbbIndexEntry) (bytes : List ℕ) (e : IsEntry entry) (size : length bytes ≡ 44)
    (h : IsBytes bytes) where
  abbrev b0 : List ℕ
  b0 = copy entry.packed_sfen bytes

  abbrev b1 : List ℕ
  b1 = store_up b0 32 8 entry.moves_offset

  abbrev b2 : List ℕ
  b2 = store_up b1 40 2 entry.ply

  abbrev b3 : List ℕ
  b3 = store_up b2 42 2 entry.move_count

  encoded : encode_ybb_index_entry entry bytes ≡ b3
  unfolding encode_ybb_index_entry store_le16 store_le64 store_up
  encoded = refl

  size0 : length b0 ≡ 44
  size0 = length-copy entry.packed_sfen bytes ∙ size

  size1 : length b1 ≡ 44
  size1 = length-store_up b0 32 8 _ ∙ size0

  size2 : length b2 ≡ 44
  size2 = length-store_up b1 40 2 _ ∙ size1

  bytes1 : IsBytes b1
  bytes1 = store_up-IsBytes b0 32 8 _ (copy-IsBytes entry.packed_sfen bytes e.packed_bytes h)

  bytes3 : IsBytes b3
  bytes3 = store_up-IsBytes b2 42 2 _ (store_up-IsBytes b1 40 2 _ bytes1)

  packed_back : take 32 b3 ≡ entry.packed_sfen
  packed_back = get_or_ext 0 _ _ (long ∙ sym e.packed_length) λ j lt.
      get_or-take 32 j b3 (omega (arith, long))
      ∙ store_up-below b2 42 2 _ j (omega (arith, long))
      ∙ store_up-below b1 40 2 _ j (omega (arith, long))
      ∙ store_up-below b0 32 8 _ j (omega (arith, long))
      ∙ get_or-copy entry.packed_sfen bytes j (omega (arith, long, e.packed_length))
          (omega (arith, size, e.packed_length))
    where
      long : length (take 32 b3) ≡ 32
      long = length-take 32 b3 (omega (arith, length-store_up b2 42 2 entry.move_count, size2))

  offset_back : read_le64 b3 32 ≡ entry.moves_offset
  offset_back =
      read_le64-little b3 32 bytes3
      ∙ little-kept b2 32 8 42 2 _ (omega arith)
      ∙ little-kept b1 32 8 40 2 _ (omega arith)
      ∙ little-store_up b0 32 8 _ (omega (arith, size0)) (unfold scale in e.offset_range)

  ply_back : read_le16 b3 40 ≡ entry.ply
  ply_back =
      read_le16-little b3 40 bytes3
      ∙ little-kept b2 40 2 42 2 _ (omega arith)
      ∙ little-store_up b1 40 2 _ (omega (arith, size1)) (unfold scale in e.ply_range)

  count_back : read_le16 b3 42 ≡ entry.move_count
  count_back =
      read_le16-little b3 42 bytes3
      ∙ little-store_up b2 42 2 _ (omega (arith, size2)) (unfold scale in e.count_range)

  -- An index entry whose fields are in range is decoded from its encoding, whatever the 44 bytes of
  -- the buffer held before.
  pub decode-encode_ybb_index_entry :
      decode_ybb_index_entry (encode_ybb_index_entry entry bytes) ≡ entry
  unfolding decode_ybb_index_entry
  decode-encode_ybb_index_entry = rw encoded (λ i. record {
    packed_sfen = packed_back i;
    moves_offset = offset_back i;
    ply = ply_back i;
    move_count = count_back i;
  })
