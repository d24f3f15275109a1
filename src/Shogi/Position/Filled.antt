-- ===== src/Shogi/Position/Filled.antt =====
-- The positions that arise when pieces are put one by one on an empty board.
use jhbr.Base.{
  ◌<◌, ◌≡◌, ◌≢◌, refl, sym, ap, ◌∙◌, Bool, true, false, ◌||◌, arith, ◌==◌, if◌then◌else◌,
  Bool-cases, inl, inr, get_or-replicate, get_or-set_self, get_or-set_ne,
}
use jhbr.Shogi.Piece.{Color, Piece, is_none, make, king}
use jhbr.Shogi.Square.{Square}
use jhbr.Shogi.Position.{Position, piece_on, put_piece, empty_position}
use jhbr.Shogi.Position.Consistent.{Consistent, IsPiece, put_piece-Consistent}
use jhbr.Shogi.Position.Placement.{KingsKnown, king-ne-zero}
use jhbr.Shogi.Position.Invariant.{put_piece-KingsKnown}
use jhbr.Shogi.Position.Empty.{empty-Consistent, empty-KingsKnown}

-- A layout of pieces with no second king of a side.
pub record IsLayout (on : Square → Piece) : Type 0 where
  pub valid : (s : Square) → s < 81 → IsPiece (on s)
  pub one_king :
      (k : Color) (s t : Square) → s < 81 → t < 81 → on s ≡ make k king → on t ≡ make k king → s ≡ t

-- The layout of a position.
pub position-IsLayout : (p : Position) → Consistent p → KingsKnown p → IsLayout (piece_on p)
position-IsLayout p c k = record {
  valid = c.valid;
  one_king = λ d s t hs ht es et. sym (k d s hs es) ∙ k d t ht et;
}

-- The squares that pass a test hold what they hold in the layout, and the others nothing.
pub record Filled (on : Square → Piece) (q : Position) (done : Square → Bool) : Type 0 where
  pub consistent : Consistent q
  pub known : KingsKnown q
  pub filled : (s : Square) → s < 81 → piece_on q s ≡ (if done s then on s else 0)

pub recast :
    (on : Square → Piece) (q : Position) (d e : Square → Bool)
    → ((s : Square) → s < 81 → d s ≡ e s)
    → Filled on q d
    → Filled on q e
recast on q d e h c = record {
  consistent = c.consistent;
  known = c.known;
  filled = λ s lt. c.filled s lt ∙ ap (λ (b : Bool). if b then on s else 0) (h s lt);
}

module _ (on : Square → Piece) (l : IsLayout on) (sq : Square) (small : sq < 81) (q : Position)
    (d : Square → Bool) (new : d sq ≡ false) (c : Filled on q d) where
  free : piece_on q sq ≡ 0
  free = c.filled sq small ∙ rw new refl

  -- No king is put a second time.
  single : (k : Color) (s : Square) → s < 81 → on sq ≡ make k king → piece_on q s ≢ make k king
  single k s h e e2 = elim (Bool-cases (d s)) [
    | inl t ↦
        let on_s : on s ≡ make k king = sym (c.filled s h ∙ rw t refl) ∙ e2 in
        let same : sq ≡ s = l.one_king k sq s small h e on_s in absurd ground (arith, t, new, same)
    | inr t ↦ absurd (king-ne-zero k (sym e2 ∙ c.filled s h ∙ rw t refl))
  ]

  pub put_piece-Filled :
      is_none (on sq) ≡ false → Filled on (put_piece sq (on sq) q) (λ s. s == sq || d s)
  unfolding is_none
  put_piece-Filled some = typed (l.valid sq small)
    where
      typed : IsPiece (on sq) → Filled on (put_piece sq (on sq) q) (λ s. s == sq || d s)
      typed (inl z) = absurd ground (arith, z, some)
      typed (inr (lo, hi, range)) = record {
        consistent = put_piece-Consistent q c.consistent sq small (on sq) free lo hi range;
        known = put_piece-KingsKnown q c.consistent c.known sq small (on sq) single (λ e. range);
        filled = λ s h.
            unfold put_piece in
            ground (
              arith,
              c.filled s h,
              c.consistent.squares,
              get_or-set_self q.board sq (on sq) 0,
              get_or-set_ne q.board sq s (on sq) 0,
            );
      }

  pub skip-Filled : is_none (on sq) ≡ true → Filled on q (λ s. s == sq || d s)
  unfolding is_none
  skip-Filled none = record {
    consistent = c.consistent;
    known = c.known;
    filled = λ s h. ground (arith, c.filled s h, c.filled sq small, none, new);
  }

pub empty-Filled :
    (on : Square → Piece) (d : Square → Bool)
    → ((s : Square) → s < 81 → d s ≡ false)
    → Filled on empty_position d
unfolding empty_position
empty-Filled on d h = record {
  consistent = empty-Consistent;
  known = empty-KingsKnown;
  filled = λ s lt. rw (h s lt) (get_or-replicate 81 s 0);
}
