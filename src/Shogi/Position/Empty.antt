-- ===== src/Shogi/Position/Empty.antt =====
-- The position that the constructor makes, and placing pieces on it.
use jhbr.Base.{
  ◌<◌, ◌≡◌, ◌≢◌, refl, sym, ap, ◌∙◌, subst, inl, true, get_or, get_or-replicate, ◌&&◌, not,
}
use jhbr.Shogi.Piece.{Color, black, white, Piece, is_none, get_color, get_type, make, king}
use jhbr.Shogi.Square.{Square}
use jhbr.Shogi.Bitboard.{bb_zero, test}
use jhbr.Shogi.Bitboard.Laws.{IsCanonical, bb_zero-IsCanonical, test-bb_zero}
use jhbr.Shogi.Zobrist.{Zobrist, hash_hand}
use jhbr.Shogi.Hand.{count}
use jhbr.Shogi.Position.{Position, side, empty_position, piece_on, put_piece}
use jhbr.Shogi.Position.Keys.{compute_hash}
use jhbr.Shogi.Position.Consistent.{Consistent, same_color, put_piece-Consistent}
use jhbr.Shogi.Position.Placement.{KingsKnown, king-ne-zero}
use jhbr.Shogi.Position.Invariant.{WellFormed, put_piece-KingsKnown}

nothing : (sq : Square) → is_none (get_or empty_position.board sq 0) ≡ true
unfolding empty_position is_none
nothing sq = ap is_none (get_or-replicate 81 sq 0)

pub empty-Consistent : Consistent empty_position
unfolding empty_position
empty-Consistent = record {
  squares = refl;
  types = refl;
  valid = λ sq h. inl (get_or-replicate 81 sq 0);
  color_agrees = colors;
  type_agrees = λ pt sq hp h.
      rw (nothing sq) (ap (λ b. test b sq) (get_or-replicate 16 pt bb_zero) ∙ test-bb_zero sq);
  color_canonical = canonical;
  type_canonical =
      λ pt h. subst IsCanonical (sym (get_or-replicate 16 pt bb_zero)) bb_zero-IsCanonical;
}
  where
    colors :
        (c : Color) (sq : Square)
        → sq < 81
        → test (side empty_position.by_color c) sq
          ≡ not (is_none (piece_on empty_position sq))
            && same_color (get_color (piece_on empty_position sq)) c
    colors black sq h = rw (nothing sq) (test-bb_zero sq)
    colors white sq h = rw (nothing sq) (test-bb_zero sq)

    canonical : (c : Color) → IsCanonical (side empty_position.by_color c)
    canonical black = bb_zero-IsCanonical
    canonical white = bb_zero-IsCanonical

pub empty-KingsKnown : KingsKnown empty_position
unfolding empty_position
empty-KingsKnown k sq h e = absurd (king-ne-zero k (sym e ∙ get_or-replicate 81 sq 0))

-- The constructor makes a well-formed position.
pub empty-WellFormed : (z : Zobrist) → WellFormed z empty_position
unfolding empty_position compute_hash is_none hash_hand count
empty-WellFormed z = record {
  consistent = empty-Consistent;
  known = empty-KingsKnown;
  hashed = refl;
}

-- A well-formed position with one more piece on an empty square, no second king of a side among them,
-- and the hash computed anew.
pub put_piece-WellFormed :
    (z : Zobrist) (p : Position) (sq : Square) (pc : Piece)
    → WellFormed z p
    → sq < 81
    → piece_on p sq ≡ 0
    → 0 < get_type pc
    → get_type pc < 15
    → pc < 32
    → ((k : Color) (s : Square) → s < 81 → pc ≡ make k king → piece_on p s ≢ make k king)
    → WellFormed z (record (put_piece sq pc p) { hash = compute_hash z (put_piece sq pc p) })
unfolding compute_hash
put_piece-WellFormed z p sq pc w small free lo hi range single = record {
  consistent = put_piece-Consistent p w.consistent sq small pc free lo hi range;
  known = put_piece-KingsKnown p w.consistent w.known sq small pc single (λ e. range);
  hashed = refl;
}
