-- ===== src/Shogi/Position/Squares.antt =====
-- The part of a position hash that comes from the squares, and how a write to a square changes it.
use jhbr.Base.{
  ℕ, zero, suc, ◌+◌, ◌<◌, ◌≡◌, refl, sym, ap, ◌∙◌, List, [], ◌∷◌, arith, if◌then◌else◌, length,
  get_or, set, Bool-cases, bit_xor, inl, inr,
}
use jhbr.Base.Words.{xor_right_comm, xor-zero, digit_ext, xor_laws}
use jhbr.Shogi.Piece.{Piece, is_none}
use jhbr.Shogi.Square.{Square}
use jhbr.Shogi.Zobrist.{Zobrist}
use jhbr.Shogi.Position.Keys.{square_key, hash_squares}

module _ (z : Zobrist) where
  round :
      (pc : Piece) (sq : Square) (h : ℕ)
      → (if is_none pc then h else bit_xor h (z.psq pc sq)) ≡ bit_xor h (square_key z pc sq)
  unfolding square_key
  round pc sq h = elim (Bool-cases (is_none pc)) [ inl e ↦ rw e (sym (xor-zero h)) | inr e ↦ rw e ]

  pub hash_squares-cons :
      (pc : Piece) (pcs : List Piece) (sq : Square) (h : ℕ)
      → hash_squares z (pc ∷ pcs) sq h
        ≡ hash_squares z pcs (sq + 1) (bit_xor h (square_key z pc sq))
  unfolding hash_squares
  hash_squares-cons pc pcs sq h = ap (hash_squares z pcs (sq + 1)) (round pc sq h)

  hash_squares-xor :
      (pcs : List Piece) (sq : Square) (h k : ℕ)
      → hash_squares z pcs sq (bit_xor h k) ≡ bit_xor (hash_squares z pcs sq h) k
  hash_squares-xor [] sq h k = unfold hash_squares in refl
  hash_squares-xor (pc ∷ pcs) sq h k =
      hash_squares-cons pc pcs sq (bit_xor h k)
      ∙ ap (hash_squares z pcs (sq + 1)) (xor_right_comm h k (square_key z pc sq))
      ∙ hash_squares-xor pcs (sq + 1) (bit_xor h (square_key z pc sq)) k
      ∙ ap (λ t. bit_xor t k) (sym (hash_squares-cons pc pcs sq h))

  -- A write exchanges the key of what stood on the square for that of what stands there now.
  pub hash_squares-set :
      (pcs : List Piece) (i : ℕ) (pc : Piece) (sq : Square) (h : ℕ)
      → i < length pcs
      → hash_squares z (set pcs i pc) sq h
        ≡ bit_xor
            (bit_xor (hash_squares z pcs sq h) (square_key z (get_or pcs i 0) (sq + i)))
            (square_key z pc (sq + i))
  hash_squares-set [] i pc sq h lt = absurd (omega arith)
  hash_squares-set (x ∷ pcs) zero pc sq h lt =
      let e : sq + 0 ≡ sq = omega arith in
      rw
        (
          e,
          hash_squares-cons pc pcs sq h,
          hash_squares-cons x pcs sq h,
          hash_squares-xor pcs (sq + 1) h (square_key z pc sq),
          hash_squares-xor pcs (sq + 1) h (square_key z x sq),
        )
        (digit_ext _ _ (λ j. omega xor_laws))
  hash_squares-set (x ∷ pcs) (suc i) pc sq h lt =
      let e : sq + suc i ≡ sq + 1 + i = omega arith in
      rw (e, hash_squares-cons x (set pcs i pc) sq h, hash_squares-cons x pcs sq h)
        (hash_squares-set pcs i pc (sq + 1) (bit_xor h (square_key z x sq)) (omega arith))
