-- ===== src/Shogi/Sfen/RoundTrip.antt =====
-- A position is read back from its SFEN text.
use jhbr.Base.{
  ℕ, ◌≤◌, ◌≡◌, refl, sym, ap, ◌∙◌, false, List, [], ◌∷◌, ◌++◌, arith, ltb, ◌==◌, if◌then◌else◌,
}
use mathlib.Core.List.{append-nil}
use jhbr.Shogi.Piece.{Color, black, white}
use jhbr.Shogi.Zobrist.{Zobrist}
use jhbr.Shogi.Position.{Position, both, empty_position}
use jhbr.Shogi.Position.Keys.{compute_hash}
use jhbr.Shogi.Position.Consistent.{by_color_determined, by_type_determined}
use jhbr.Shogi.Position.Invariant.{WellFormed}
use jhbr.Shogi.Repetition.{clear_history}
use jhbr.Shogi.Sfen.{to_sfen, to_decimal, ranks_text, side_text, or_dash, hands_text}
use jhbr.Shogi.Sfen.Read.{
  accepted, is_space, is_digit, is_dash, is_w, read_hands, leading_number, unsigned_ply, read_ply,
  set_up_sfen, set_from_words, set_from_sfen,
}
use jhbr.Shogi.Sfen.Decimal.{Every, Begins, read-to_decimal, to_decimal-Begins}
use jhbr.Shogi.Sfen.Words.{
  is_plain, visible, IsWord, next_word-spaced, next_word-space, next_word-last,
}
use jhbr.Shogi.Sfen.Placing.{copy_ranks, placement_lem}
use jhbr.Shogi.Sfen.Plain.{IsPlain-IsWord, to_decimal-IsPlain, placement-IsWord, plain-visible}
use jhbr.Shogi.Sfen.Words.{Every-impl}
use jhbr.Shogi.Sfen.Copy.{copied_board, copied-Consistent, copied-KingsKnown}
use jhbr.Shogi.Sfen.Totals.{IsHand}
use jhbr.Shogi.Sfen.Hands.{hands_text-Every, read-hands_text, dash_lem}

-- A number that an `int` holds is read as it is printed.
unsigned_digits :
    (t : List ℕ) (n : ℕ)
    → Begins is_digit t
    → leading_number t 0 ≡ n
    → n ≤ 2147483647
    → read_ply t ≡ accepted n
unfolding read_ply unsigned_ply is_digit
unsigned_digits [] n b e h = absurd b
unsigned_digits (c ∷ cs) n b e h =
    let minus : (c == b'-') ≡ false = ground (arith, b) in
    let plus : (c == b'+') ≡ false = ground (arith, b) in
    let fits : ltb 2147483647 n ≡ false = ground (arith, h) in rw (minus, plus, b, e, fits) refl

read-ply : (n : ℕ) → n ≤ 2147483647 → read_ply (to_decimal n) ≡ accepted n
read-ply n h = unsigned_digits (to_decimal n) n (to_decimal-Begins n) number h
  where
    number : leading_number (to_decimal n) 0 ≡ n
    number =
        ap (λ t. leading_number t 0) (sym (append-nil (to_decimal n)))
        ∙ read-to_decimal leading_number (λ c cs k e. unfold leading_number in rw e refl) n []
            (omega (arith, h))
        ∙ unfold leading_number in refl

side_text-IsWord : (c : Color) → IsWord (side_text c)
unfolding is_space
side_text-IsWord black = ((refl, tt), refl)
side_text-IsWord white = ((refl, tt), refl)

side_text_lem : (c : Color) → (if is_w (side_text c) then white else black) ≡ c
side_text_lem black = refl
side_text_lem white = refl

or_dash-IsWord : (t : List ℕ) → Every is_plain t → IsWord (or_dash t)
unfolding is_space
or_dash-IsWord [] h = ((refl, tt), refl)
or_dash-IsWord (c ∷ cs) h =
    (Every-impl is_plain visible (c ∷ cs) plain-visible h, plain-visible c h.0)

-- The four words are found.
words_lem :
    (z : Zobrist) (b s h n : List ℕ)
    → IsWord b
    → IsWord s
    → IsWord h
    → IsWord n
    → set_from_sfen z (b ++ b' ' ∷ (s ++ b' ' ∷ (h ++ b' ' ∷ n))) ≡ set_from_words z b s h n
unfolding set_from_sfen
words_lem z b s h n wb ws wh wn =
    rw
      (
        next_word-spaced b (s ++ b' ' ∷ (h ++ b' ' ∷ n)) wb,
        next_word-space (s ++ b' ' ∷ (h ++ b' ' ∷ n)),
        next_word-spaced s (h ++ b' ' ∷ n) ws,
        next_word-space (h ++ b' ' ∷ n),
        next_word-spaced h n wh,
        next_word-space n,
        next_word-last n wn,
      )
      refl

-- What is read of a position's text.
abbrev pub reread : Zobrist → Position → Position
reread z p = set_up_sfen z p.side_to_move p.hand p.ply (copy_ranks p 0 9 empty_position)

module _ (z : Zobrist) (p : Position) (w : WellFormed z p) (b : IsHand p.hand.of_black)
    (v : IsHand p.hand.of_white) (small : p.ply ≤ 2147483647) where
  hands_back :
      (if is_dash (or_dash (hands_text p))
        then empty_position.hand
        else read_hands (or_dash (hands_text p)) 0 empty_position.hand)
      ≡ p.hand
  unfolding empty_position
  hands_back = dash_lem (hands_text p) (both 0) (hands_text-Every p b v) ∙ read-hands_text p b v

  reread_lem : set_from_sfen z (to_sfen p) ≡ accepted (reread z p)
  unfolding to_sfen set_from_words
  reread_lem =
      words_lem z (ranks_text p 0 9) (side_text p.side_to_move) (or_dash (hands_text p))
        (to_decimal p.ply) (placement-IsWord p w.consistent) (side_text-IsWord p.side_to_move)
        (or_dash-IsWord (hands_text p) (hands_text-Every p b v))
        (IsPlain-IsWord _ (to_decimal-IsPlain p.ply))
      ∙ rw (placement_lem p w.consistent, read-ply p.ply small, side_text_lem p.side_to_move)
          (ap
            (λ h. accepted (set_up_sfen z p.side_to_move h p.ply (copy_ranks p 0 9 empty_position)))
            hands_back)

-- Equal but for the history.
pub record SamePosition (p q : Position) : Type 0 where
  pub board : q.board ≡ p.board
  pub by_type : q.by_type ≡ p.by_type
  pub by_color : q.by_color ≡ p.by_color
  pub hand : q.hand ≡ p.hand
  pub side_to_move : q.side_to_move ≡ p.side_to_move
  pub ply : q.ply ≡ p.ply
  pub hash : q.hash ≡ p.hash
  pub no_history : q.history ≡ []
  pub no_checks : q.continuous_check ≡ both 0

module _ (z : Zobrist) (p : Position) (w : WellFormed z p) where
  reread-SamePosition : SamePosition p (reread z p)
  unfolding clear_history compute_hash
  reread-SamePosition = record {
    board = copied_board p w.consistent w.known;
    by_type =
        by_type_determined (copy_ranks p 0 9 empty_position) p
          (copied-Consistent p w.consistent w.known) w.consistent
          (copied_board p w.consistent w.known);
    by_color =
        by_color_determined (copy_ranks p 0 9 empty_position) p
          (copied-Consistent p w.consistent w.known) w.consistent
          (copied_board p w.consistent w.known);
    hand = refl;
    side_to_move = refl;
    ply = refl;
    hash = rw (copied_board p w.consistent w.known) (sym w.hashed);
    no_history = refl;
    no_checks = refl;
  }

  reread-WellFormed : WellFormed z (reread z p)
  unfolding clear_history compute_hash
  reread-WellFormed = record {
    consistent = copied-Consistent p w.consistent w.known;
    known = copied-KingsKnown p w.consistent w.known;
    hashed = refl;
  }

-- What ToSfen prints of a well-formed position with hands within their fields and a ply that an `int`
-- holds, SetFromSfen reads back: the same board, bitboards, hands, side to move, ply and hash, in a
-- well-formed position without history.
pub set_from_sfen-to_sfen :
    (z : Zobrist) (p : Position)
    → WellFormed z p
    → IsHand p.hand.of_black
    → IsHand p.hand.of_white
    → p.ply ≤ 2147483647
    → (q : Position) × (set_from_sfen z (to_sfen p) ≡ accepted q)
      × SamePosition p q
      × WellFormed z q
set_from_sfen-to_sfen z p w b v small =
    (reread z p, reread_lem z p w b v small, reread-SamePosition z p w, reread-WellFormed z p w)
