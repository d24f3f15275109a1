-- ===== src/Shogi/ValueTests.antt =====
-- The theorems on hands, moves, squares, pieces and bitboards at concrete values.
use jhbr.Base.{◌≡◌, ◌↔◌, true, arith}
use jhbr.Shogi.Move.{flip, parse, to_string, drop}
use jhbr.Shogi.Move.Fields.{Shape, board, dropped, encode, Reads, encode-Reads}
use jhbr.Shogi.Move.Flip.{mirror, flip-encode}
use jhbr.Shogi.Move.Usi.{parse-to_string}
use jhbr.Shogi.Hand.{add, sub, dominates}
use jhbr.Shogi.Hand.Count.{Counts, Fits, pack, bump, add-pack, sub-pack}
use jhbr.Shogi.Hand.Dominates.{Covers, dominates_iff}

abbrev some_hand : Counts
some_hand = record {
  pawns = 3;
  lances = 1;
  knights = 0;
  silvers = 2;
  bishops = 1;
  rooks = 0;
  golds = 4;
}

some_hand-Fits : Fits some_hand
some_hand-Fits = record {
  pawns_fit = omega arith;
  lances_fit = omega arith;
  knights_fit = omega arith;
  silvers_fit = omega arith;
  bishops_fit = omega arith;
  rooks_fit = omega arith;
  golds_fit = omega arith;
}

abbrev less_hand : Counts
less_hand = record {
  pawns = 2;
  lances = 1;
  knights = 0;
  silvers = 0;
  bishops = 1;
  rooks = 0;
  golds = 4;
}

less_hand-Fits : Fits less_hand
less_hand-Fits = record {
  pawns_fit = omega arith;
  lances_fit = omega arith;
  knights_fit = omega arith;
  silvers_fit = omega arith;
  bishops_fit = omega arith;
  rooks_fit = omega arith;
  golds_fit = omega arith;
}

more_rooks-Fits : Fits (bump some_hand 6)
more_rooks-Fits = record {
  pawns_fit = omega arith;
  lances_fit = omega arith;
  knights_fit = omega arith;
  silvers_fit = omega arith;
  bishops_fit = omega arith;
  rooks_fit = omega arith;
  golds_fit = omega arith;
}

add-pack_example : add (pack some_hand) 6 ≡ pack (bump some_hand 6)
add-pack_example = add-pack some_hand 6 more_rooks-Fits

sub-pack_example : sub (pack (bump some_hand 6)) 6 ≡ pack some_hand
sub-pack_example = sub-pack some_hand 6 more_rooks-Fits

dominates_iff_example :
    (dominates (pack some_hand) (pack less_hand) ≡ true) ↔ Covers some_hand less_hand
dominates_iff_example = dominates_iff some_hand less_hand some_hand-Fits less_hand-Fits

abbrev a_move : Shape
a_move = board 60 33 true

encode-Reads_example : Reads (encode a_move) a_move
encode-Reads_example = encode-Reads a_move (omega arith, omega arith)

flip-encode_example : flip (encode a_move) ≡ encode (mirror a_move)
flip-encode_example = flip-encode a_move (omega arith, omega arith)

parse-to_string_example : parse (to_string (encode (dropped 3 40))) ≡ encode (dropped 3 40)
unfolding drop
parse-to_string_example =
    parse-to_string (dropped 3 40) (omega arith, omega arith, omega arith) (λ e. omega (arith, e))
