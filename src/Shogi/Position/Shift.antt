-- ===== src/Shogi/Position/Shift.antt =====
-- A board move taken back: the moving piece returns as it was, then what it captured.
use jhbr.Base.{
  ◌<◌, ◌≡◌, ◌≢◌, refl, sym, ap, ◌∙◌, subst, inl, inr, true, false, arith, ◌==◌, if◌then◌else◌,
  length, length-set, get_or, set, get_or-set_self, get_or-set_ne, Bool-cases,
}
use jhbr.Shogi.Piece.{Piece, is_none, get_color, get_type, king, promote, unpromote}
use jhbr.Shogi.Piece.Laws.{promote-IsPromotionOf}
use jhbr.Shogi.Square.{Square}
use jhbr.Shogi.Move.{Move, is_promotion, to_square, from_square}
use jhbr.Shogi.Position.{Position, side, set_side, piece_on, put_piece, remove_piece}
use jhbr.Shogi.Position.Make.{landing}
use jhbr.Shogi.Position.Consistent.{Consistent, remove_piece-Consistent}
use jhbr.Shogi.Bitboard.{bb_zero, set_square}
use jhbr.Shogi.Position.Placement.{
  KingsKnown, remove_piece-KingsKnown, SamePlacement, piece_valid, capture_back, shift_back,
}

SamePlacement-trans : {p q r : Position} → SamePlacement p q → SamePlacement q r → SamePlacement p r
SamePlacement-trans s t = record {
  same_board = s.same_board ∙ t.same_board;
  same_type = s.same_type ∙ t.same_type;
  same_color = s.same_color ∙ t.same_color;
  same_king = s.same_king ∙ t.same_king;
}

-- The same piece put on the same square of two positions with the same placement.
put_piece-SamePlacement :
    (sq : Square) (pc : Piece) {p q : Position}
    → SamePlacement p q
    → SamePlacement (put_piece sq pc p) (put_piece sq pc q)
unfolding put_piece
put_piece-SamePlacement sq pc s = record {
  same_board = ap (λ b. set b sq pc) s.same_board;
  same_type =
      ap (λ l. set l (get_type pc) (set_square (get_or l (get_type pc) bb_zero) sq)) s.same_type;
  same_color =
      ap (λ l. set_side l (get_color pc) (set_square (side l (get_color pc)) sq)) s.same_color;
  same_king = ap (λ k. if get_type pc == king then set_side k (get_color pc) sq else k) s.same_king;
}

-- What stands after the move, unpromoted again if the move promoted.
abbrev pub returning : Move → Piece → Piece
returning m l = if is_promotion m then unpromote l else l

-- A move of the piece on `from` that can be promoted where the move says so.
pub record IsShift (m : Move) (p : Position) : Type 0 where
  pub from_small : from_square m < 81
  pub to_small : to_square m < 81
  pub moves : from_square m ≢ to_square m
  pub there : is_none (piece_on p (from_square m)) ≡ false
  pub promotes : is_promotion m ≡ true → get_type (piece_on p (from_square m)) < 7

-- The piece as it lands.
pub record Lands (x l : Piece) (m : Move) : Type 0 where
  pub lo : 0 < get_type l
  pub hi : get_type l < 15
  pub range : l < 32
  pub colored : get_color l ≡ get_color x
  pub crowned : (get_type l == king) ≡ (get_type x == king)
  pub returns : returning m l ≡ x

pub landing-Lands :
    (m : Move) (x : Piece)
    → 0 < get_type x
    → get_type x < 15
    → x < 32
    → (is_promotion m ≡ true → get_type x < 7)
    → Lands x (landing m x) m
landing-Lands m x lo hi range h = elim (Bool-cases (is_promotion m)) [
  | inl e ↦ rw e (promoted e)
  | inr e ↦
      rw e
        (record { lo = lo; hi = hi; range = range; colored = refl; crowned = refl; returns = rw e })
]
  where
    promoted : is_promotion m ≡ true → Lands x (promote x) m
    promoted e =
        let u = promote-IsPromotionOf x range (omega (arith, h e)) in
        record {
          lo = omega (arith, u.type);
          hi = omega (arith, u.type, h e);
          range = u.range;
          colored = u.color;
          crowned = ground (arith, u.type, h e);
          returns = rw e u.back;
        }

-- The placement after a move to an empty square.
abbrev pub moved : Move → Position → Position
moved m p =
    put_piece (to_square m) (landing m (piece_on p (from_square m)))
      (remove_piece (from_square m) p)

module _ (m : Move) (p : Position) (c : Consistent p) (known : KingsKnown p) (h : IsShift m p)
    (free : piece_on p (to_square m) ≡ 0) where
  -- A move to an empty square is taken back.
  pub move_back :
      SamePlacement
        (put_piece
          (from_square m)
          (returning m (piece_on (moved m p) (to_square m)))
          (remove_piece (to_square m) (moved m p)))
        p
  move_back =
      subst
        (λ t.
          SamePlacement (put_piece (from_square m) t (remove_piece (to_square m) (moved m p))) p)
        (sym back)
        (shift_back p c known (from_square m) (to_square m) (landing m x) h.from_small h.to_small
          h.moves h.there free l.lo l.hi l.range l.colored l.crowned)
    where
      x : Piece
      x = piece_on p (from_square m)

      v : (0 < get_type x) × (get_type x < 15) × (x < 32)
      v = piece_valid p c known (from_square m) h.from_small h.there

      l : Lands x (landing m x) m
      l = landing-Lands m x v.0 v.1 v.2 h.promotes

      fits : to_square m < length (set p.board (from_square m) 0)
      fits = omega (arith, length-set p.board (from_square m) 0, c.squares, h.to_small)

      landed : piece_on (moved m p) (to_square m) ≡ landing m x
      landed =
          unfold put_piece remove_piece in
          get_or-set_self (set p.board (from_square m) 0) (to_square m) (landing m x) 0 fits

      back : returning m (piece_on (moved m p) (to_square m)) ≡ x
      back = ap (returning m) landed ∙ l.returns

module _ (m : Move) (p : Position) (c : Consistent p) (known : KingsKnown p) (h : IsShift m p)
    (taken : is_none (piece_on p (to_square m)) ≡ false) where
  abbrev pub uncovered : Position
  uncovered = remove_piece (to_square m) p

  fits : to_square m < length p.board
  fits = omega (arith, c.squares, h.to_small)

  pub uncovered_free : piece_on uncovered (to_square m) ≡ 0
  uncovered_free = unfold remove_piece in get_or-set_self p.board (to_square m) 0 0 fits

  elsewhere : (sq : Square) → to_square m ≢ sq → piece_on uncovered sq ≡ piece_on p sq
  elsewhere sq ne = unfold remove_piece in get_or-set_ne p.board (to_square m) sq 0 0 ne

  pub uncovered-KingsKnown : KingsKnown uncovered
  uncovered-KingsKnown = remove_piece-KingsKnown p c known (to_square m) h.to_small

  pub uncovered-IsShift : IsShift m uncovered
  uncovered-IsShift = record {
    from_small = h.from_small;
    to_small = h.to_small;
    moves = h.moves;
    there = rw (elsewhere (from_square m) (λ e. h.moves (sym e))) h.there;
    promotes = λ e. rw (elsewhere (from_square m) (λ e. h.moves (sym e))) (h.promotes e);
  }

  -- A capture is taken back.
  pub capture_move_back :
      SamePlacement
        (put_piece (to_square m) (piece_on p (to_square m)) (
          put_piece
            (from_square m)
            (returning m (piece_on (moved m uncovered) (to_square m)))
            (remove_piece (to_square m) (moved m uncovered))))
        p
  capture_move_back =
      SamePlacement-trans
        (put_piece-SamePlacement (to_square m) (piece_on p (to_square m)) (
          move_back m uncovered (remove_piece-Consistent p c (to_square m) h.to_small taken)
            uncovered-KingsKnown uncovered-IsShift uncovered_free))
        (capture_back p c known (to_square m) h.to_small taken)
