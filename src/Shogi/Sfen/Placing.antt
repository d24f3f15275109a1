-- ===== src/Shogi/Sfen/Placing.antt =====
-- The placement part of SFEN text: what is read of what ToSfen prints.
use jhbr.Shogi.Sfen.Letters.{Letter, letter_of, letter_lem}
use jhbr.Base.{
  ℕ, zero, suc, ◌+◌, ◌-◌, ◌<◌, ◌≡◌, refl, ap, ◌∙◌, true, false, List, [], ◌∷◌, ◌++◌, arith, ltb,
  leb, ◌==◌, if◌then◌else◌, Bool-cases, inl, inr,
}
use mathlib.Core.Path.{fun_ext}
use jhbr.Shogi.Piece.{Piece, is_none, get_type, is_promoted}
use jhbr.Shogi.Square.{square_of}
use jhbr.Shogi.Position.{Position, piece_on, put_piece, empty_position}
use jhbr.Shogi.Position.Consistent.{Consistent, IsPiece}
use jhbr.Shogi.Sfen.{to_decimal, digits_of, piece_text, flush, rank_text, ranks_text}
use jhbr.Shogi.Sfen.Read.{
  SfenResult, accepted, rejected, outside, ◌>>=◌, Cursor, place_letter, place_char, place_all,
  sfen_start,
}

>>=_assoc :
    {A B C : Type 0} (r : SfenResult A) (f : A → SfenResult B) (g : B → SfenResult C)
    → (r >>= (λ a. f a >>= g)) ≡ ((r >>= f) >>= g)
>>=_assoc (accepted a) f g = refl
>>=_assoc rejected f g = refl
>>=_assoc outside f g = refl

place_all-append :
    (cs ds : List ℕ) (k : Cursor) → place_all (cs ++ ds) k ≡ (place_all cs k >>= place_all ds)
unfolding place_all
place_all-append [] ds k = refl
place_all-append (c ∷ cs) ds k =
    ap (λ (f : Cursor → SfenResult Cursor). place_char c k >>= f) (fun_ext (place_all-append cs ds))
    ∙ >>=_assoc (place_char c k) (place_all cs) (place_all ds)

abbrev pub at : ℕ → ℕ → Position → Cursor
at left r q = record { left = left; rank = r; promoted = false; placed = q }

module _ (f r : ℕ) (low : r < 9) (q : Position) where
  place_letter_lem :
      (pc : Piece)
      → Letter pc
      → place_char
          (letter_of pc)
          (record { left = suc f; rank = r; promoted = is_promoted (get_type pc); placed = q })
        ≡ accepted (at f r (put_piece (square_of f r) pc q))
  unfolding place_char place_letter
  place_letter_lem pc l =
      let some : (suc f == 0) ≡ false = ground arith in
      let inside : leb 9 r ≡ false = ground arith in
      let one : suc f - 1 ≡ f = omega arith in
      simp (l.slash, l.plus, l.digit, l.valid, some, inside, one)
        (ap (λ x. accepted (at f r (put_piece (square_of f r) x q))) l.back)

  place_piece_lem :
      (pc : Piece)
      → Letter pc
      → place_all (piece_text pc) (at (suc f) r q)
        ≡ accepted (at f r (put_piece (square_of f r) pc q))
  unfolding place_all piece_text place_char
  place_piece_lem pc l = elim (Bool-cases (is_promoted (get_type pc))) [
    | inl e ↦
        rw e (ap (λ (t : SfenResult Cursor). t >>= place_all []) (rw e at (place_letter_lem pc l)))
    | inr e ↦
        rw e (ap (λ (t : SfenResult Cursor). t >>= place_all []) (rw e at (place_letter_lem pc l)))
  ]

flush_lem :
    (e left r : ℕ) (q : Position)
    → e < 10
    → place_all (flush e) (at left r q) ≡ accepted (at (left - e) r q)
unfolding place_all place_char to_decimal digits_of
flush_lem zero left r q h = ap (λ k. accepted (at k r q)) (omega arith)
flush_lem (suc e) left r q h =
    let one_digit : ltb (suc e) 10 ≡ true = ground arith in
    rw one_digit (
      let slash : (b'0' + suc e == b'/') ≡ false = ground arith in
      let plus : (b'0' + suc e == b'+') ≡ false = ground arith in
      let low : leb b'1' (b'0' + suc e) ≡ true = ground arith in
      let high : leb (b'0' + suc e) b'9' ≡ true = ground arith in
      rw (slash, plus, low, high) (ap (λ k. accepted (at k r q)) (omega arith)))

-- The pieces of a rank put on their squares, file by file.
unfoldable pub copy_rank : Position → ℕ → ℕ → Position → Position
copy_rank p r zero q = q
copy_rank p r (suc f) q = copy_rank p r f (
    if is_none (piece_on p (square_of f r))
    then q
    else put_piece (square_of f r) (piece_on p (square_of f r)) q)

unfoldable pub copy_ranks : Position → ℕ → ℕ → Position → Position
copy_ranks p r zero q = q
copy_ranks p r (suc n) q = copy_ranks p (r + 1) n (copy_rank p r 9 q)

module _ (p : Position) (c : Consistent p) where
  pub Letter-piece_on :
      (f r : ℕ)
      → f < 9
      → r < 9
      → is_none (piece_on p (square_of f r)) ≡ false
      → Letter (piece_on p (square_of f r))
  unfolding is_none square_of
  Letter-piece_on f r hf hr e = typed (c.valid (square_of f r) (omega arith))
    where
      typed : IsPiece (piece_on p (square_of f r)) → Letter (piece_on p (square_of f r))
      typed (inl z) = absurd ground (arith, z, e)
      typed (inr (lo, hi, range)) = letter_lem (piece_on p (square_of f r)) lo hi range

  rank_text_lem :
      (r n e : ℕ) (q : Position)
      → r < 9
      → n + e < 10
      → place_all (rank_text p r n e) (at (n + e) r q) ≡ accepted (at 0 r (copy_rank p r n q))
  unfolding rank_text copy_rank
  rank_text_lem r zero e q hr h =
      flush_lem e (0 + e) r q (omega arith) ∙ ap (λ k. accepted (at k r q)) (omega arith)
  rank_text_lem r (suc f) e q hr h = elim (Bool-cases (is_none (piece_on p (square_of f r)))) [
    | inl b ↦ rw b (
        ap (λ k. place_all (rank_text p r f (e + 1)) (at k r q)) (omega arith)
        ∙ rank_text_lem r f (e + 1) q hr (omega arith))
    | inr b ↦ rw b (
        place_all-append (flush e ++ piece_text (piece_on p (square_of f r))) (rank_text p r f 0)
          (at (suc f + e) r q)
        ∙ ap (λ (t : SfenResult Cursor). t >>= place_all (rank_text p r f 0))
            (place_all-append (flush e) (piece_text (piece_on p (square_of f r)))
                (at (suc f + e) r q)
              ∙ ap
                  (λ (t : SfenResult Cursor).
                    t >>= place_all (piece_text (piece_on p (square_of f r))))
                  (flush_lem e (suc f + e) r q (omega arith)
                    ∙ ap (λ k. accepted (at k r q)) (omega arith))
              ∙ place_piece_lem f r hr q (piece_on p (square_of f r))
                  (Letter-piece_on f r (omega arith) hr b))
        ∙ ap
            (λ k.
              place_all (rank_text p r f 0)
                (at k r (put_piece (square_of f r) (piece_on p (square_of f r)) q)))
            (omega arith)
        ∙ rank_text_lem r f 0 (put_piece (square_of f r) (piece_on p (square_of f r)) q) hr
            (omega arith))
  ]

  -- A rank and the slash after it.
  row :
      (r : ℕ) (q : Position) (rest : List ℕ)
      → r < 9
      → place_all (rank_text p r 9 0 ++ rest) (at 9 r q)
        ≡ place_all rest (at 0 r (copy_rank p r 9 q))
  row r q rest h =
      place_all-append (rank_text p r 9 0) rest (at 9 r q)
      ∙ ap (λ (t : SfenResult Cursor). t >>= place_all rest) (rank_text_lem r 9 0 q h (omega arith))

  slash :
      (r : ℕ) (q : Position) (rest : List ℕ)
      → place_all (b'/' ∷ rest) (at 0 r q) ≡ place_all rest (at 9 (r + 1) q)
  unfolding place_all place_char
  slash r q rest = refl

  ranks_text_lem :
      (n r : ℕ) (q : Position)
      → suc r + n ≡ 9
      → place_all (ranks_text p (suc r) n) (at 0 r q)
        ≡ accepted (at 0 (r + n) (copy_ranks p (suc r) n q))
  unfolding ranks_text copy_ranks place_all
  ranks_text_lem zero r q h = ap (λ k. accepted (at 0 k q)) (omega arith)
  ranks_text_lem (suc n) r q h =
      let some : (suc r == 0) ≡ false = ground arith in
      let next : suc (suc r) ≡ suc r + 1 = omega arith in
      rw some (
        slash r q (rank_text p (suc r) 9 0 ++ ranks_text p (suc r + 1) n)
        ∙ ap (λ k. place_all (rank_text p (suc r) 9 0 ++ ranks_text p (suc r + 1) n) (at 9 k q))
            (omega arith)
        ∙ row (suc r) q (ranks_text p (suc r + 1) n) (omega arith)
        ∙ rw next at (ranks_text_lem n (suc r) (copy_rank p (suc r) 9 q) (omega arith))
        ∙ ap (λ k. accepted (at 0 k (copy_ranks p (suc r + 1) n (copy_rank p (suc r) 9 q))))
            (omega arith))

  -- The placement that ToSfen prints reads as the pieces of the board, put on an empty one.
  pub placement_lem :
      place_all (ranks_text p 0 9) sfen_start ≡ accepted (at 0 8 (copy_ranks p 0 9 empty_position))
  unfolding ranks_text copy_ranks
  placement_lem =
      row 0 empty_position (ranks_text p 1 8) (omega arith)
      ∙ ranks_text_lem 8 0 (copy_rank p 0 9 empty_position) refl
