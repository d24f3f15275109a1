-- ===== src/Nnue/Record/RoundTrip.antt =====
-- A record is read back as it was written, and the reader stands at what follows it.
use jhbr.Base.{
  ℕ, zero, suc, ◌+◌, ◌*◌, ◌/◌, ◌%◌, ◌^◌, ◌<◌, ◌≡◌, refl, sym, ap, ap₂, ◌∙◌, bit_or, false, List, [],
  ◌∷◌, ◌++◌, some, arith, length, length-append, take, drop, get_or, IsInt16, int16_of, uint16_of,
  int16_of-uint16_of, uint16_of-lt, ltb,
}
use jhbr.Base.Words.{bit_or-fields}
use jhbr.Book.Format.{read_le16}
use jhbr.Nnue.Record.{
  RecordHead, DistEntry, Record, le16, tail_bytes, entry_bytes, written_head, record_bytes,
  parse_head, parse_dist, parse_record,
}

read_le16-le16 : (v : ℕ) (rest : List ℕ) → v < 65536 → read_le16 (le16 v rest) 0 ≡ v
unfolding read_le16
read_le16-le16 v rest h =
    bit_or-fields 8 (v / 2 ^ 8 % 2 ^ 8) (v % 2 ^ 8) (omega arith) ∙ omega arith

get_or-append :
    (xs ys : List ℕ) (i j : ℕ) → i ≡ length xs + j → get_or (xs ++ ys) i 0 ≡ get_or ys j 0
get_or-append [] ys i j e = ap (λ t. get_or ys t 0) (omega (arith, e))
get_or-append (x ∷ xs) ys zero j e = absurd (omega arith)
get_or-append (x ∷ xs) ys (suc i) j e = get_or-append xs ys i j (omega arith)

drop-append : (xs ys : List ℕ) (i j : ℕ) → i ≡ length xs + j → drop i (xs ++ ys) ≡ drop j ys
drop-append [] ys i j e = ap (λ t. drop t ys) (omega (arith, e))
drop-append (x ∷ xs) ys zero j e = absurd (omega arith)
drop-append (x ∷ xs) ys (suc i) j e = drop-append xs ys i j (omega arith)

take-append : (xs ys : List ℕ) (i : ℕ) → i ≡ length xs → take i (xs ++ ys) ≡ xs
take-append [] ys zero e = refl
take-append [] ys (suc i) e = absurd (omega arith)
take-append (x ∷ xs) ys zero e = absurd (omega arith)
take-append (x ∷ xs) ys (suc i) e = ap (λ t. x ∷ t) (take-append xs ys i (omega arith))

read_le16-append :
    (xs ys : List ℕ) (i j : ℕ) → i ≡ length xs + j → read_le16 (xs ++ ys) i ≡ read_le16 ys j
unfolding read_le16
read_le16-append xs ys i j e =
    ap₂ (λ (a b : ℕ). bit_or a (b * 2 ^ 8)) (get_or-append xs ys i j e)
      (get_or-append xs ys (i + 1) (j + 1) (omega (arith, e)))

unfoldable pub IsDist : List DistEntry → Type 0
IsDist [] = Unit {0}
IsDist (e ∷ es) = (e.move < 65536) × (e.visits < 65536) × IsDist es

-- The values that the fields of a record can hold.
pub record IsRecord (r : Record) : Type 0 where
  pub sfen_size : length r.head.sfen ≡ 32
  pub score_range : IsInt16 r.head.score
  pub move_range : r.head.move < 65536
  pub ply_range : r.head.game_ply < 65536
  pub reserved_range : r.head.reserved < 65536
  pub dist_size : length r.dist < 65536
  pub dist_range : IsDist r.dist

parse_dist-entry_bytes :
    (es : List DistEntry) (rest : List ℕ)
    → IsDist es
    → parse_dist (length es) (entry_bytes es rest) ≡ es
unfolding IsDist parse_dist entry_bytes read_le16
parse_dist-entry_bytes [] rest h = refl
parse_dist-entry_bytes (e ∷ es) rest (hm, hv, h) =
    ap₂ (λ (d : DistEntry) ds. d ∷ ds)
      (λ i. record {
        move = read_le16-le16 e.move [] hm i;
        visits = read_le16-le16 e.visits [] hv i;
      })
      (parse_dist-entry_bytes es rest h)

drop-entry_bytes :
    (es : List DistEntry) (rest : List ℕ) (n : ℕ)
    → n ≡ 4 * length es
    → drop n (entry_bytes es rest) ≡ rest
unfolding entry_bytes
drop-entry_bytes [] rest zero e = refl
drop-entry_bytes [] rest (suc n) e = absurd (omega arith)
drop-entry_bytes (d ∷ es) rest (suc (suc (suc (suc n)))) e =
    drop-entry_bytes es rest n (omega arith)
drop-entry_bytes (d ∷ es) rest zero e = absurd (omega arith)
drop-entry_bytes (d ∷ es) rest (suc zero) e = absurd (omega arith)
drop-entry_bytes (d ∷ es) rest (suc (suc zero)) e = absurd (omega arith)
drop-entry_bytes (d ∷ es) rest (suc (suc (suc zero))) e = absurd (omega arith)

length-entry_bytes :
    (es : List DistEntry) (rest : List ℕ)
    → length (entry_bytes es rest) ≡ 4 * length es + length rest
unfolding entry_bytes
length-entry_bytes [] rest = omega arith
length-entry_bytes (d ∷ es) rest = omega (arith, length-entry_bytes es rest)

module _ (r : Record) (h : IsRecord r) (rest : List ℕ) where
  abbrev hd : RecordHead
  hd = written_head r

  abbrev ys : List ℕ
  ys = tail_bytes hd (entry_bytes r.dist rest)

  at : (j : ℕ) → read_le16 (record_bytes r rest) (32 + j) ≡ read_le16 ys j
  unfolding record_bytes written_head
  at j = read_le16-append r.head.sfen ys (32 + j) j (omega (arith, h.sfen_size))

  head_back : parse_head (record_bytes r rest) ≡ hd
  unfolding parse_head record_bytes tail_bytes written_head read_le16
  head_back = λ i. record {
    sfen = take-append r.head.sfen ys 32 (sym h.sfen_size) i;
    score =
        (ap int16_of (at 0 ∙ read_le16-le16 (uint16_of r.head.score) [] (uint16_of-lt r.head.score))
            ∙ int16_of-uint16_of r.head.score h.score_range)
          i;
    move = (at 2 ∙ read_le16-le16 r.head.move [] h.move_range) i;
    game_ply = (at 4 ∙ read_le16-le16 r.head.game_ply [] h.ply_range) i;
    result = get_or-append r.head.sfen ys 38 6 (omega (arith, h.sfen_size)) i;
    flags = get_or-append r.head.sfen ys 39 7 (omega (arith, h.sfen_size)) i;
    n_dist = (at 8 ∙ read_le16-le16 (length r.dist % 2 ^ 16) [] (omega arith)) i;
    reserved = (at 10 ∙ read_le16-le16 r.head.reserved [] h.reserved_range) i;
  }

  after_head : drop 44 (record_bytes r rest) ≡ entry_bytes r.dist rest
  unfolding record_bytes tail_bytes written_head
  after_head = drop-append r.head.sfen ys 44 12 (omega (arith, h.sfen_size))

  long_enough : ltb (length (record_bytes r rest)) 44 ≡ false
  unfolding record_bytes tail_bytes written_head
  long_enough = ground (arith, length-append r.head.sfen ys, h.sfen_size)

  -- A record that RecordWriter wrote is what RecordReader reads, its count of entries and its flag for
  -- them set by the writer, and the rest of the file is what follows it, where every field of the
  -- record is in its range and it has fewer than 65536 entries.
  pub parse_record-record_bytes :
      parse_record (record_bytes r rest)
      ≡ some (record { head = written_head r; dist = r.dist }, rest)
  unfolding parse_record written_head
  parse_record-record_bytes =
      let n : length r.dist % 2 ^ 16 ≡ length r.dist = omega (arith, h.dist_size) in
      let fits : ltb (length (entry_bytes r.dist rest)) (4 * length r.dist) ≡ false =
        ground (arith, length-entry_bytes r.dist rest) in
      rw (long_enough, after_head, head_back, n, fits)
        (ap₂
          (λ ds (bs : List ℕ).
            some (record { head = record hd { n_dist = length r.dist }; dist = ds }, bs))
          (parse_dist-entry_bytes r.dist rest h.dist_range)
          (drop-entry_bytes r.dist rest (4 * length r.dist) refl))
