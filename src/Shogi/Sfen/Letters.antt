-- ===== src/Shogi/Sfen/Letters.antt =====
-- The letters of the pieces in SFEN text are read back.
use jhbr.Shogi.Sfen.Words.{is_plain}
use jhbr.Base.{
  ℕ, ◌<◌, ◌≡◌, refl, Bool, true, false, not, ◌&&◌, ◌||◌, arith, ltb, leb, ◌==◌, ==→eq,
  if◌then◌else◌, check_below, check_below_lem,
}
use jhbr.Shogi.Piece.{
  Piece, PieceType, get_color, get_type, color_from_idx, make, is_promoted, promote_type,
  unpromote_type, is_valid_type, type_to_char, type_parse,
}
use jhbr.Shogi.Sfen.{to_lower, letter}
use jhbr.Shogi.Sfen.Read.{is_space, color_of_letter}

-- What is checked of each piece: its letter is no other mark of the placement, and reads as its type
-- and colour.
abbrev pub base_type : Piece → PieceType
base_type pc = if is_promoted (get_type pc) then unpromote_type (get_type pc) else get_type pc

abbrev pub letter_of : Piece → ℕ
letter_of pc = letter (get_color pc) (base_type pc)

abbrev pub as_read : Piece → Piece
as_read pc = make (color_of_letter (letter_of pc)) (
    if is_promoted (get_type pc)
    then promote_type (type_parse (letter_of pc))
    else type_parse (letter_of pc))

abbrev is_mark : ℕ → Bool
is_mark c = c == b'/' || (c == b'+' || ((leb b'1' c && leb c b'9') || not (is_plain c)))

abbrev reads_back : Piece → Bool
reads_back pc =
    not (is_mark (letter_of pc))
    && (is_valid_type (type_parse (letter_of pc)) && (as_read pc == pc))

abbrev has_type : Piece → Bool
has_type pc = ltb 0 (get_type pc) && ltb (get_type pc) 15

pieces_checked : check_below (λ pc. not (has_type pc) || reads_back pc) 32 ≡ true
unfolding check_below get_type get_color color_from_idx letter to_lower type_to_char type_parse
    is_promoted unpromote_type promote_type make is_valid_type is_space is_plain
pieces_checked = refl

pub record Letter (pc : Piece) : Type 0 where
  pub slash : (letter_of pc == b'/') ≡ false
  pub plus : (letter_of pc == b'+') ≡ false
  pub digit : (leb b'1' (letter_of pc) && leb (letter_of pc) b'9') ≡ false
  pub plain : is_plain (letter_of pc) ≡ true
  pub valid : is_valid_type (type_parse (letter_of pc)) ≡ true
  pub back : as_read pc ≡ pc

pub letter_lem : (pc : Piece) → 0 < get_type pc → get_type pc < 15 → pc < 32 → Letter pc
letter_lem pc lo hi range =
    let t = check_below_lem (λ q. not (has_type q) || reads_back q) pc 32 range pieces_checked in
    let typed : has_type pc ≡ true = ground arith in
    let r : reads_back pc ≡ true = ground (arith, t, typed) in
    record {
      slash = ground (arith, r);
      plus = ground (arith, r);
      digit = ground (arith, r);
      plain = ground (arith, r);
      valid = ground (arith, r);
      back = ==→eq (as_read pc) pc (ground (arith, r));
    }
