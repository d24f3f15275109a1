-- ===== src/Book/Reader/Loaded.antt =====
-- What Load guarantees of an open book: the index lies within the file and can be read.
use jhbr.Base.{
  bit_and, ℕ, ◌+◌, ◌-◌, ◌*◌, ◌/◌, ◌^◌, ◌<◌, ◌≤◌, ◌≡◌, refl, ap, subst, inl, inr, true, false, not,
  ◌==◌, List, Option, none, some, Bool-cases, Option-cases, arith, length, take, drop, leb, ltb,
  u64,
}
use jhbr.Book.Format.{ybb_index_size, decode_ybb_index_entry, read_le64, k_ybb_magic}
use jhbr.Book.Reader.{
  OpeningBook, LoadResult, loaded, failed, read_at, read_index_entry, validate_file, load_index,
  load_header, load, same_bytes,
}

pub record IsLoaded (file : List ℕ) (book : OpeningBook) : Type 0 where
  pub whole : book.file ≡ file
  pub size : book.file_size ≡ length file
  pub base : book.moves_base ≡ 32 + book.record_count * 44
  pub no_wrap : book.moves_base < 2 ^ 64
  pub fits : book.moves_base ≤ book.file_size
  pub valid : validate_file book ≡ none

-- The size of the index is exact: a count for which it would wrap is refused.
ybb_index_size_lem :
    (record_count base : ℕ)
    → ybb_index_size record_count ≡ some base
    → (base ≡ 32 + record_count * 44) × (base < 2 ^ 64)
unfolding ybb_index_size
ybb_index_size_lem record_count base e =
    elim (Bool-cases (ltb ((2 ^ 64 - 1 - 32) / 44) record_count)) [
      | inl h ↦ absurd cc (rw h at e)
      | inr h ↦
          let small : record_count ≤ (2 ^ 64 - 1 - 32) / 44 = ground (arith, h) in
          let q : base ≡ u64 (32 + u64 (record_count * 44)) = cc (rw h at e) in
          (omega (arith, q, small), omega (arith, q, small))
    ]

abbrev unload : OpeningBook → LoadResult → OpeningBook
unload b (loaded book) = book
unload b (failed e) = b

module _ (file : List ℕ) (book : OpeningBook) where
  load_index-IsLoaded :
      (record_count flags : ℕ) (o : Option ℕ)
      → ybb_index_size record_count ≡ o
      → load_index file record_count flags o ≡ loaded book
      → IsLoaded file book
  load_index-IsLoaded record_count flags none q e = absurd cc
  load_index-IsLoaded record_count flags (some base) q e =
      elim (Bool-cases (ltb (length file) base)) [
        | inl h ↦ absurd cc (rw h at e)
        | inr h ↦ elim (Option-cases (validate_file opened)) [
          | inr (x, v) ↦ absurd cc (rw (h, v) at e)
          | inl v ↦
              let same : opened ≡ book = ap (unload book) (rw (h, v) at e) in
              subst (IsLoaded file) same (record {
                whole = refl;
                size = refl;
                base = (ybb_index_size_lem record_count base q).0;
                no_wrap = (ybb_index_size_lem record_count base q).1;
                fits = ground (arith, h);
                valid = v;
              })
        ]
      ]
    where
      opened : OpeningBook
      opened = record {
        file = file;
        record_count = record_count;
        flags = flags;
        moves_base = base;
        file_size = length file;
      }

  load_header-IsLoaded :
      (o : Option (List ℕ)) → load_header file o ≡ loaded book → IsLoaded file book
  load_header-IsLoaded none e = absurd cc
  load_header-IsLoaded (some header) e =
      elim (Bool-cases (not (same_bytes (take 16 header) k_ybb_magic))) [
        | inl h ↦ absurd cc (rw h at e)
        | inr h ↦ elim (Bool-cases (not (bit_and (read_le64 header 24) (2 ^ 64 - 1 - 1) == 0))) [
          | inl g ↦ absurd cc (rw (h, g) at e)
          | inr g ↦
              load_index-IsLoaded (read_le64 header 16) (read_le64 header 24) _ refl
                (rw (h, g) at e)
        ]
      ]

  load-IsLoaded : load (some file) ≡ loaded book → IsLoaded file book
  unfolding load
  load-IsLoaded e = load_header-IsLoaded (read_at file 0 32) e

-- In a book that Load accepts every entry of the index lies within the file, at an offset that no
-- 64-bit computation wraps, so that reading it succeeds.
pub load-read_index_entry :
    (file : List ℕ) (book : OpeningBook) (index : ℕ)
    → load (some file) ≡ loaded book
    → index < book.record_count
    → read_index_entry book index
      ≡ some (decode_ybb_index_entry (take 44 (drop (32 + index * 44) file)))
unfolding read_index_entry read_at
load-read_index_entry file book index e lt =
    let v = load-IsLoaded file book e in
    let off : u64 (32 + u64 (index * 44)) ≡ 32 + index * 44 = omega (arith, v.base, v.no_wrap) in
    let inside : leb (32 + index * 44 + 44) (length file) ≡ true =
      ground (arith, v.base, v.fits, v.size) in
    let more : leb book.record_count index ≡ false = ground arith in
    rw (more, off, v.whole, inside, read_index_entry)
