-- ===== src/Shogi/PackedSfen/Pieces.antt =====
-- The codes of board pieces are read back: no code is the beginning of another.
use jhbr.Base.{
  ℕ, zero, suc, ◌+◌, ◌-◌, ◌*◌, ◌/◌, ◌%◌, ◌^◌, ◌<◌, ◌≤◌, ◌≡◌, refl, sym, ap, ◌∙◌, inl, inr, false,
  List, [], ◌∷◌, Option, none, some, arith, Bool-cases, Option-cases, bit_or, length, ltb,
}
use jhbr.Base.Words.{zero-bit_or}
use jhbr.Shogi.Piece.{PieceType}
use jhbr.Shogi.PackedSfen.{
  BitWriter, write, put_bits, bit_at, take_bits, read, board_code, board_type_of, read_board_type,
}
use jhbr.Shogi.PackedSfen.Stream.{IsWriter, AgreesWith, put_bits-written, put_bits-IsWriter}

-- The bits of a stream from a position on.
pub Shows : List ℕ → ℕ → List ℕ → Type 0
Shows bytes c [] = Unit {0}
Shows bytes c (b ∷ bs) = (bit_at bytes c ≡ b) × Shows bytes (c + 1) bs

-- The `n` bits of a value from bit `i` on.
abbrev pub bits_of : ℕ → ℕ → ℕ → List ℕ
bits_of value i zero = []
bits_of value i (suc n) = value / 2 ^ i % 2 ∷ bits_of value (i + 1) n

-- A type that was found is the result where no bit is left.
abbrev pub last_or : Option PieceType → List ℕ → Option PieceType → Option PieceType
last_or none bs rest = rest
last_or (some raw) [] rest = some raw
last_or (some raw) (b ∷ bs) rest = none

-- ReadBoardType on a list of bits that it is to use up.
unfoldable pub decode : ℕ → ℕ → ℕ → List ℕ → Option PieceType
decode zero bits code bs = none
decode (suc n) bits code [] = none
decode (suc n) bits code (b ∷ bs) =
    let longer = bit_or code (b * 2 ^ (bits - 1)) in
    last_or (board_type_of bits longer 8 0) bs (decode n (bits + 1) longer bs)

read_one : (bytes : List ℕ) (c : ℕ) → c + 1 ≤ 256 → read bytes 1 c ≡ some (bit_at bytes c, c + 1)
unfolding read take_bits bit_at
read_one bytes c room =
    let fits : ltb 256 (c + 1) ≡ false = ground arith in
    rw fits (ap (λ t. some (t, c + 1)) (zero-bit_or (bit_at bytes c * 1) ∙ omega arith))

abbrev result : PieceType → ℕ → Option (PieceType × ℕ)
result raw c = some (raw, c)

-- A code that ends is at the end of the bits.
used_up :
    (bs : List ℕ) (x raw c : ℕ) (rest : Option PieceType)
    → last_or (some x) bs rest ≡ some raw
    → result x (c + 1) ≡ result raw (c + suc (length bs))
used_up [] x raw c rest e = let q : x ≡ raw = cc in ap (λ t. result t (c + 1)) q
used_up (y ∷ ys) x raw c rest e = absurd cc

read_board_type-decode :
    (bytes : List ℕ) (n bits code c : ℕ) (bs : List ℕ) (raw : PieceType)
    → Shows bytes c bs
    → c + length bs ≤ 256
    → decode n bits code bs ≡ some raw
    → read_board_type bytes n bits code c ≡ some (raw, c + length bs)
unfolding decode read_board_type Shows
read_board_type-decode bytes zero bits code c bs raw s room e = absurd cc
read_board_type-decode bytes (suc n) bits code c [] raw s room e = absurd cc
read_board_type-decode bytes (suc n) bits code c (b ∷ bs) raw s room e =
    let again = read_board_type-decode bytes n (bits + 1) longer (c + 1) bs raw s.1 (omega arith) in
    elim (Option-cases (board_type_of bits longer 8 0)) [
      | inr (x, q) ↦ rw (first, q, read_board_type) (used_up bs x raw c _ (rw (q, decode) at e))
      | inl q ↦
          rw (first, q, read_board_type)
            (again (rw (q, decode) at e) ∙ ap (λ t. some (raw, t)) (omega arith))
    ]
  where
    longer : ℕ
    longer = bit_or code (b * 2 ^ (bits - 1))

    first : read bytes 1 c ≡ some (b, c + 1)
    first = read_one bytes c (omega arith) ∙ ap (λ t. some (t, c + 1)) s.0

all_codes :
    (raw : ℕ)
    → raw < 8
    → decode 6 1 0 (bits_of (board_code raw).code 0 (board_code raw).bits) ≡ some raw
unfolding decode board_type_of
all_codes zero h = refl
all_codes (suc zero) h = refl
all_codes (suc (suc zero)) h = refl
all_codes (suc (suc (suc zero))) h = refl
all_codes (suc (suc (suc (suc zero)))) h = refl
all_codes (suc (suc (suc (suc (suc zero))))) h = refl
all_codes (suc (suc (suc (suc (suc (suc zero)))))) h = refl
all_codes (suc (suc (suc (suc (suc (suc (suc zero))))))) h = refl
all_codes (suc (suc (suc (suc (suc (suc (suc (suc raw)))))))) h = absurd (omega arith)

Shows-bits :
    (bytes : List ℕ) (value i c n : ℕ)
    → ((t : ℕ) → t < n → bit_at bytes (c + t) ≡ value / 2 ^ (i + t) % 2)
    → Shows bytes c (bits_of value i n)
unfolding Shows
Shows-bits bytes value i c zero h = tt
Shows-bits bytes value i c (suc n) h = (
  ap (bit_at bytes) (omega arith) ∙ h 0 (omega arith) ∙ ap (λ u. value / 2 ^ u % 2) (omega arith),
  Shows-bits bytes value (i + 1) (c + 1) n (λ t lt.
      ap (bit_at bytes) (omega arith)
      ∙ h (suc t) (omega arith)
      ∙ ap (λ u. value / 2 ^ u % 2) (omega arith)),
)

length-bits_of : (value i n : ℕ) → length (bits_of value i n) ≡ n
length-bits_of value i zero = refl
length-bits_of value i (suc n) = ap suc (length-bits_of value (i + 1) n)

-- The code that WriteBoardPiece writes of an unpromoted type, or of an empty square, is read back by
-- ReadBoardType as that type, with as many bits, in any bytes that agree with the writer on what was
-- written so far.
pub read_board_type-write :
    (raw : PieceType) (w v : BitWriter) (bytes : List ℕ)
    → raw < 8
    → IsWriter w
    → write (board_code raw).code (board_code raw).bits w ≡ some v
    → AgreesWith v bytes
    → read_board_type bytes 6 1 0 w.cursor ≡ some (raw, v.cursor)
unfolding write
read_board_type-write raw w v bytes small k e agree = elim (Bool-cases (ltb 256 (w.cursor + n))) [
  | inl h ↦ absurd cc (rw h at e)
  | inr h ↦ done (ground (arith, h)) (cc (rw h at e))
]
  where
    value : ℕ
    value = (board_code raw).code

    n : ℕ
    n = (board_code raw).bits

    done :
        w.cursor + n ≤ 256
        → put_bits value 0 n w ≡ v
        → read_board_type bytes 6 1 0 w.cursor ≡ some (raw, v.cursor)
    done room same =
        let r = put_bits-IsWriter value 0 n w k room in
        let ends : w.cursor + n ≡ v.cursor = sym r.1 ∙ ap (λ u. u.cursor) same in
        let shown = Shows-bits bytes value 0 w.cursor n (λ t lt.
          agree (w.cursor + t) (omega (arith, ends, lt))
          ∙ ap (λ u. bit_at u.bytes (w.cursor + t)) (sym same)
          ∙ put_bits-written value 0 n w t k room lt) in
        read_board_type-decode bytes 6 1 0 w.cursor (bits_of value 0 n) raw shown
          (omega (arith, length-bits_of value 0 n, room)) (all_codes raw small)
        ∙ ap (λ t. some (raw, t)) (omega (arith, length-bits_of value 0 n, ends))
