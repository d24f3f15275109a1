-- ===== src/Shogi/Sfen/Copy.antt =====
-- The pieces of a position put one by one on an empty board, in the order of SFEN text.
use jhbr.Base.{
  ℕ, zero, suc, ◌+◌, ◌*◌, ◌/◌, ◌%◌, ◌^◌, ◌<◌, ◌≡◌, refl, sym, ◌∙◌, Bool, true, false, ◌&&◌, ◌||◌,
  arith, ltb, leb, ◌==◌, if◌then◌else◌, Bool-cases, inl, inr, get_or_ext,
}
use jhbr.Shogi.Piece.{is_none}
use jhbr.Shogi.Square.{Square, square_of}
use jhbr.Shogi.Position.{Position, piece_on, put_piece, empty_position}
use jhbr.Shogi.Position.Consistent.{Consistent}
use jhbr.Shogi.Position.Placement.{KingsKnown}
use jhbr.Shogi.Position.Filled.{
  Filled, position-IsLayout, recast, put_piece-Filled, skip-Filled, empty-Filled,
}
use jhbr.Shogi.Sfen.Placing.{copy_rank, copy_ranks}

-- The squares before file `n` of rank `r` (files run down) in the order of the text.
abbrev before : ℕ → ℕ → Square → Bool
before r n s = ltb (s % 9) r || (s % 9 == r && leb n (s / 9))

module _ (p : Position) (cp : Consistent p) (kp : KingsKnown p) where
  before_file :
      (f r : ℕ) (s : Square) → f < 9 → r < 9 → (s == f * 9 + r || before r (suc f) s) ≡ before r f s
  before_file f r s hf hr = ground arith

  copy_file :
      (f r : ℕ) (q : Position)
      → f < 9
      → r < 9
      → Filled (piece_on p) q (before r (suc f))
      → Filled
          (piece_on p)
          (if is_none (piece_on p (square_of f r))
            then q
            else put_piece (square_of f r) (piece_on p (square_of f r)) q)
          (before r f)
  unfolding square_of
  copy_file f r q hf hr c =
      let at_sq : (f * 9 + r) % 2 ^ 8 ≡ f * 9 + r = omega arith in
      let new : before r (suc f) (f * 9 + r) ≡ false = ground arith in
      rw at_sq (elim (Bool-cases (is_none (piece_on p (f * 9 + r)))) [
        | inl e ↦ rw e (
            recast (piece_on p) _ _ _ (λ s h. before_file f r s hf hr)
              (skip-Filled (piece_on p) (position-IsLayout p cp kp) (f * 9 + r) (omega arith) q
                (before r (suc f)) new c e))
        | inr e ↦ rw e (
            recast (piece_on p) _ _ _ (λ s h. before_file f r s hf hr)
              (put_piece-Filled (piece_on p) (position-IsLayout p cp kp) (f * 9 + r) (omega arith) q
                (before r (suc f)) new c e))
      ])

  copy_rank-Filled :
      (r n : ℕ) (q : Position)
      → r < 9
      → n < 10
      → Filled (piece_on p) q (before r n)
      → Filled (piece_on p) (copy_rank p r n q) (before r 0)
  unfolding copy_rank
  copy_rank-Filled r zero q hr hn c = c
  copy_rank-Filled r (suc f) q hr hn c =
      copy_rank-Filled r f _ hr (omega arith) (copy_file f r q (omega arith) hr c)

  before_rank : (r : ℕ) (s : Square) → s < 81 → before r 0 s ≡ before (r + 1) 9 s
  before_rank r s h = ground arith

  copy_ranks-Filled :
      (r n : ℕ) (q : Position)
      → r + n ≡ 9
      → Filled (piece_on p) q (before r 9)
      → Filled (piece_on p) (copy_ranks p r n q) (before 9 9)
  unfolding copy_ranks
  copy_ranks-Filled r zero q h c = let last : r ≡ 9 = omega arith in rw last at c
  copy_ranks-Filled r (suc n) q h c =
      copy_ranks-Filled (r + 1) n (copy_rank p r 9 q) (omega arith) (
        recast (piece_on p) _ _ _ (before_rank r)
          (copy_rank-Filled r 9 q (omega arith) (omega arith) c))

  all-Filled : Filled (piece_on p) (copy_ranks p 0 9 empty_position) (before 9 9)
  all-Filled =
      copy_ranks-Filled 0 9 empty_position refl
        (empty-Filled (piece_on p) (before 0 9) (λ s h. ground arith))

  -- Copying every square gives the board.
  pub copied_board : (copy_ranks p 0 9 empty_position).board ≡ p.board
  copied_board = get_or_ext 0 _ _ (all-Filled.consistent.squares ∙ sym cp.squares) λ s lt.
      let small : s < 81 = omega (arith, all-Filled.consistent.squares) in
      let done : before 9 9 s ≡ true = ground arith in all-Filled.filled s small ∙ rw done refl

  pub copied-Consistent : Consistent (copy_ranks p 0 9 empty_position)
  copied-Consistent = all-Filled.consistent

  pub copied-KingsKnown : KingsKnown (copy_ranks p 0 9 empty_position)
  copied-KingsKnown = all-Filled.known
