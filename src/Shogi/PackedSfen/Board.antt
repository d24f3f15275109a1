-- ===== src/Shogi/PackedSfen/Board.antt =====
-- ReadBoardPiece reads back what WriteBoardPiece wrote, for every piece that a square can hold but a king.
use jhbr.Base.{
  ℕ, ◌<◌, ◌≡◌, ◌≢◌, refl, sym, ap, ◌∙◌, subst, inl, inr, Bool, true, false, not, ◌==◌, ◌&&◌, ◌||◌,
  List, Option, none, some, arith, Bool-cases, ltb, if◌then◌else◌, ◌>>=◌, check_below,
  check_below_lem,
}
use jhbr.Shogi.Piece.{
  black, white, is_white, Piece, PieceType, gold, make, is_none, get_color, get_type, is_promoted,
  promote_type, unpromote_type,
}
use jhbr.Shogi.PackedSfen.{
  BitWriter, write, bit_of, board_code, read_flag, write_board_piece, read_board_piece,
}
use jhbr.Shogi.PackedSfen.Stream.{IsWriter, AgreesWith, write-AgreesWith, read-write}
use jhbr.Shogi.PackedSfen.Pieces.{read_board_type-write}

bind_some {ℓ κ} :
    {A : Type ℓ} {B : Type κ} (o : Option A) (f : A → Option B) (b : B)
    → (o >>= f) ≡ some b
    → (a : A) × (o ≡ some a) × (f a ≡ some b)
bind_some none f b e = absurd cc
bind_some (some a) f b e = (a, refl, e)

flag_back :
    (b : Bool) (w v : BitWriter) (bytes : List ℕ)
    → IsWriter w
    → write (bit_of b) 1 w ≡ some v
    → AgreesWith v bytes
    → read_flag bytes true w.cursor ≡ some (b, v.cursor)
flag_back true w v bytes k e agree = rw (read-write 1 1 w v bytes k (omega arith) e agree)
flag_back false w v bytes k e agree = rw (read-write 0 1 w v bytes k (omega arith) e agree)

abbrev base : Piece → PieceType
base pc = if is_promoted (get_type pc) then unpromote_type (get_type pc) else get_type pc

abbrev rebuilt : Piece → Piece
rebuilt pc =
    make (if is_white (get_color pc) then white else black)
      (if is_promoted (get_type pc) then promote_type (base pc) else base pc)

-- What a square can hold but a king.
abbrev pub IsCoded : Piece → Type 0
IsCoded pc = (pc < 31) × (get_type pc ≢ 8) × (get_type pc ≢ 0) × (get_type pc ≢ 15)

abbrev sound : Piece → Bool
sound pc =
    get_type pc == 8
    || get_type pc == 0
    || get_type pc == 15
    || ((rebuilt pc == pc)
        && not (is_none pc)
        && ltb 0 (base pc)
        && ltb (base pc) 8
        && (not (base pc == gold) || not (is_promoted (get_type pc))))

sound_table : check_below sound 31 ≡ true
unfolding check_below get_type is_promoted unpromote_type promote_type make get_color is_none
sound_table = refl

-- What the codec relies on of such a piece.
record Coded (pc : Piece) : Type 0 where
  back : rebuilt pc ≡ pc
  present : is_none pc ≡ false
  lo : 0 < base pc
  hi : base pc < 8
  plain : (base pc == gold) ≡ true → is_promoted (get_type pc) ≡ false

IsCoded-Coded : (pc : Piece) → IsCoded pc → Coded pc
IsCoded-Coded pc (small, h8, h0, h15) =
    let s = check_below_lem sound pc 31 small sound_table in
    record {
      back = ground (arith, s, h8, h0, h15);
      present = ground (arith, s, h8, h0, h15);
      lo = ground (arith, s, h8, h0, h15);
      hi = ground (arith, s, h8, h0, h15);
      plain = λ e. ground (arith, s, h8, h0, h15, e);
    }

module _ (pc : Piece) (c : Coded pc) (w v : BitWriter) (bytes : List ℕ) (k : IsWriter w)
    (agree : AgreesWith v bytes) where
  abbrev p : Bool
  p = is_promoted (get_type pc)

  abbrev s : Bool
  s = is_white (get_color pc)

  in_range : ltb (base pc) 1 || ltb 7 (base pc) ≡ false
  in_range = ground (arith, c.lo, c.hi)

  steps : write_board_piece pc w ≡ (
      write (board_code (base pc)).code (board_code (base pc)).bits w >>= λ w1.
      (if not (base pc == gold) then write (bit_of p) 1 w1 else some w1) >>= λ w2.
      write (bit_of s) 1 w2)
  unfolding write_board_piece
  steps = rw (c.present, in_range, write_board_piece)

  -- The flags that follow a code of a type other than gold.
  promotes_back :
      (w1 w2 : BitWriter)
      → IsWriter w1
      → (if not (base pc == gold) then write (bit_of p) 1 w1 else some w1) ≡ some w2
      → IsWriter w2
        × (AgreesWith w2 bytes
            → AgreesWith w1 bytes
              × (read_flag bytes (not (base pc == gold)) w1.cursor ≡ some (p, w2.cursor)))
  promotes_back w1 w2 k1 e = elim (Bool-cases (base pc == gold)) [
    | inr n ↦
        let wrote : write (bit_of p) 1 w1 ≡ some w2 = rw n at e in
        (
          (write-AgreesWith (bit_of p) 1 w1 w2 w2.bytes k1 wrote (λ j lt. refl)).0,
          λ a. (
            (write-AgreesWith (bit_of p) 1 w1 w2 bytes k1 wrote a).1,
            rw n (flag_back p w1 w2 bytes k1 wrote a),
          ),
        )
    | inl g ↦
        let same : w1 ≡ w2 = cc (rw g at e) in
        (
          subst IsWriter same k1,
          λ a. (
            subst (λ u. AgreesWith u bytes) (sym same) a,
            rw (g, c.plain g) (ap (λ (u : BitWriter). some (false, u.cursor)) same),
          ),
        )
  ]

  piece_back :
      write_board_piece pc w ≡ some v → read_board_piece bytes w.cursor ≡ some (pc, v.cursor)
  unfolding read_board_piece
  piece_back e =
      let (w1, e1, f1) =
        bind_some (write (board_code (base pc)).code (board_code (base pc)).bits w) _ v
          (sym steps ∙ e) in
      let (w2, e2, e3) =
        bind_some (if not (base pc == gold) then write (bit_of p) 1 w1 else some w1) _ v f1 in
      let k1 = (write-AgreesWith _ _ w w1 w1.bytes k e1 (λ j lt. refl)).0 in
      let flags = promotes_back w1 w2 k1 e2 in
      let a2 = (write-AgreesWith (bit_of s) 1 w2 v bytes flags.0 e3 agree).1 in
      let a1 = flags.1 a2 in
      let t = read_board_type-write (base pc) w w1 bytes c.hi k e1 a1.0 in
      let nz : (base pc == 0) ≡ false = ground (arith, c.lo) in
      rw (t, nz, a1.1, flag_back s w2 v bytes flags.0 e3 agree)
        (ap (λ (q : Piece). some (q, v.cursor)) c.back)

-- Reading a board piece gives back the piece that WriteBoardPiece wrote, for a piece of any type but a
-- king, and ends where the writer did, in any bytes that agree with the writer on what was written so
-- far.
pub read_board_piece-write_board_piece :
    (pc : Piece) (w v : BitWriter) (bytes : List ℕ)
    → IsCoded pc
    → IsWriter w
    → write_board_piece pc w ≡ some v
    → AgreesWith v bytes
    → read_board_piece bytes w.cursor ≡ some (pc, v.cursor)
read_board_piece-write_board_piece pc w v bytes h k e agree =
    piece_back pc (IsCoded-Coded pc h) w v bytes k agree e
