-- ===== src/Shogi/SfenTests.antt =====
-- SFEN text printed and read at concrete positions.
use jhbr.Base.{◌≡◌, refl, [], ◌∷◌, arith}
use jhbr.Shogi.Hand.{count}
use jhbr.Shogi.Piece.{type_to_char, type_parse, is_valid_type}
use jhbr.Shogi.Hand.Count.{Counts, Fits, pack}
use jhbr.Shogi.Position.{Position}
use jhbr.Shogi.Position.Keys.{compute_hash}
use jhbr.Shogi.Position.Invariant.{WellFormed}
use jhbr.Shogi.Tests.{z, start_position, start-WellFormed}
use jhbr.Shogi.Sfen.{
  to_sfen, hands_text, hand_text, hand_item, letter, to_lower, to_decimal, digits_of,
}
use jhbr.Shogi.Sfen.Read.{
  accepted, rejected, set_from_sfen, read_ply, unsigned_ply, is_digit, leading_number, place_all,
  place_char, place_letter, sfen_start,
}
use jhbr.Shogi.Sfen.Totals.{IsHand}
use jhbr.Shogi.Sfen.RoundTrip.{SamePosition, set_from_sfen-to_sfen}

abbrev nothing_held : Counts
nothing_held = record {
  pawns = 0;
  lances = 0;
  knights = 0;
  silvers = 0;
  bishops = 0;
  rooks = 0;
  golds = 0;
}

abbrev some_held : Counts
some_held = record nothing_held { pawns = 2; rooks = 1 }

nothing_held-IsHand : IsHand 0
nothing_held-IsHand = record { counts = nothing_held; fits = fits_nothing; packed = refl }
  where
    fits_nothing : Fits nothing_held
    fits_nothing = record {
      pawns_fit = omega arith;
      lances_fit = omega arith;
      knights_fit = omega arith;
      silvers_fit = omega arith;
      bishops_fit = omega arith;
      rooks_fit = omega arith;
      golds_fit = omega arith;
    }

some_held-IsHand : IsHand (pack some_held)
some_held-IsHand = record { counts = some_held; fits = fits_some; packed = refl }
  where
    fits_some : Fits some_held
    fits_some = record {
      pawns_fit = omega arith;
      lances_fit = omega arith;
      knights_fit = omega arith;
      silvers_fit = omega arith;
      bishops_fit = omega arith;
      rooks_fit = omega arith;
      golds_fit = omega arith;
    }

-- The start position with two pawns and a rook in the black hand.
abbrev unhashed : Position
unhashed = record start_position {
  hand = record { of_black = pack some_held; of_white = 0 };
  ply = 12;
}

abbrev holding : Position
holding = record unhashed { hash = compute_hash z unhashed }

holding-WellFormed : WellFormed z holding
unfolding compute_hash
holding-WellFormed = record {
  consistent = start-WellFormed.consistent;
  known = start-WellFormed.known;
  hashed = refl;
}

set_from_sfen-to_sfen_example :
    (q : Position) × (set_from_sfen z (to_sfen holding) ≡ accepted q)
    × SamePosition holding q
    × WellFormed z q
set_from_sfen-to_sfen_example =
    set_from_sfen-to_sfen z holding holding-WellFormed some_held-IsHand nothing_held-IsHand
      (omega arith)

-- "R2P" is printed of the hands.
printed_hands : hands_text holding ≡ b'R' ∷ b'2' ∷ b'P' ∷ []
unfolding hands_text hand_text hand_item count letter to_lower type_to_char to_decimal digits_of
printed_hands = refl

-- "x" is no ply, and 2147483648 is none that an `int` holds.
no_number : read_ply (b'x' ∷ []) ≡ accepted 1
unfolding read_ply unsigned_ply is_digit leading_number
no_number = refl

too_large :
    read_ply (b'2' ∷ b'1' ∷ b'4' ∷ b'7' ∷ b'4' ∷ b'8' ∷ b'3' ∷ b'6' ∷ b'4' ∷ b'8' ∷ []) ≡ accepted 1
unfolding read_ply unsigned_ply is_digit leading_number
too_large = refl

-- A letter that is no piece is refused.
no_piece_letter : place_all (b'X' ∷ []) sfen_start ≡ rejected
unfolding place_all place_char place_letter type_parse is_valid_type
no_piece_letter = refl
