-- ===== src/Shogi/Position/Consistent.antt =====
-- The bitboards of a position agree with its board array, and every update keeps it so.
use jhbr.Base.{
  ◌<◌, ◌≡◌, refl, sym, ◌∙◌, ◌⊎◌, Bool, true, false, not, ◌&&◌, List, arith, ◌==◌, length,
  length-set, get_or, get_or-set_self, get_or-set_ne, get_or-set_keeps, get_or_ext,
}
use jhbr.Shogi.Piece.{Color, black, white, Piece, PieceType, no_piece, is_none, get_color, get_type}
use jhbr.Shogi.Piece.Laws.{get_type-mod}
use jhbr.Shogi.Square.{Square}
use jhbr.Shogi.Bitboard.{Bitboard, bb_zero, test, set_square, clear_square}
use jhbr.Shogi.Bitboard.Laws.{
  IsCanonical, test-set_square, test-clear_square, set_square-IsCanonical, clear_square-IsCanonical,
  bitboard_ext,
}
use jhbr.Shogi.Position.{
  Position, Sides, side, set_side, piece_on, type_board, put_piece, remove_piece,
}

abbrev pub same_color : Color → Color → Bool
same_color black black = true
same_color black white = false
same_color white black = false
same_color white white = true

pub same_color_lem : (c d : Color) → same_color c d ≡ true → c ≡ d
same_color_lem black black h = refl
same_color_lem black white h = ground (arith, h)
same_color_lem white black h = ground (arith, h)
same_color_lem white white h = refl

pub same_color_refl : (c : Color) → same_color c c ≡ true
same_color_refl black = refl
same_color_refl white = refl

-- Nothing, or a coloured piece of one of the fourteen types.
abbrev pub IsPiece : Piece → Type 0
IsPiece pc = (pc ≡ 0) ⊎ ((0 < get_type pc) × (get_type pc < 15) × (pc < 32))

-- What the colour and type bitboards hold of a square is what stands on it.
pub record Agrees (board : List Piece) (by_type : List Bitboard) (by_color : Sides Bitboard)
    : Type 0 where
  pub squares : length board ≡ 81
  pub types : length by_type ≡ 16
  pub valid : (sq : Square) → sq < 81 → IsPiece (get_or board sq no_piece)
  pub color_agrees :
      (c : Color) (sq : Square)
      → sq < 81
      → test (side by_color c) sq
        ≡ not (is_none (get_or board sq no_piece))
          && same_color (get_color (get_or board sq no_piece)) c
  pub type_agrees :
      (pt : PieceType) (sq : Square)
      → pt < 16
      → sq < 81
      → test (get_or by_type pt bb_zero) sq
        ≡ not (is_none (get_or board sq no_piece)) && (get_type (get_or board sq no_piece) == pt)
  pub color_canonical : (c : Color) → IsCanonical (side by_color c)
  pub type_canonical : (pt : PieceType) → pt < 16 → IsCanonical (get_or by_type pt bb_zero)

abbrev pub Consistent : Position → Type 0
Consistent p = Agrees p.board p.by_type p.by_color

get_type-lt : (pc : Piece) → get_type pc < 16
get_type-lt pc = omega (arith, get_type-mod pc)

set_side-IsCanonical :
    (s : Sides Bitboard) (d : Color) (b : Bitboard)
    → IsCanonical b
    → ((k : Color) → IsCanonical (side s k))
    → (k : Color) → IsCanonical (side (set_side s d b) k)
set_side-IsCanonical s black b new old black = new
set_side-IsCanonical s black b new old white = old white
set_side-IsCanonical s white b new old black = old black
set_side-IsCanonical s white b new old white = new

module _ (p : Position) (c : Consistent p) (sq : Square) (small : sq < 81) where
  in_board : sq < length p.board
  in_board = omega (arith, c.squares)

  -- A piece put on an empty square.
  module _ (pc : Piece) (free : piece_on p sq ≡ 0) (lo : 0 < get_type pc) (hi : get_type pc < 15)
      (range : pc < 32) where
    put_color :
        (k : Color) (s : Square)
        → s < 81
        → test (side (put_piece sq pc p).by_color k) s
          ≡ not (is_none (piece_on (put_piece sq pc p) s))
            && same_color (get_color (piece_on (put_piece sq pc p) s)) k
    unfolding put_piece is_none
    put_color black s h = ground (
      arith,
      get_type-mod pc,
      get_or-set_self p.board sq pc 0 in_board,
      get_or-set_ne p.board sq s pc 0,
      c.color_agrees black s h,
      test-set_square p.by_color.of_black sq s,
    )
    put_color white s h = ground (
      arith,
      get_type-mod pc,
      get_or-set_self p.board sq pc 0 in_board,
      get_or-set_ne p.board sq s pc 0,
      c.color_agrees white s h,
      test-set_square p.by_color.of_white sq s,
    )

    put_type :
        (pt : PieceType) (s : Square)
        → pt < 16
        → s < 81
        → test (type_board (put_piece sq pc p) pt) s
          ≡ not (is_none (piece_on (put_piece sq pc p) s))
            && (get_type (piece_on (put_piece sq pc p) s) == pt)
    unfolding put_piece is_none
    put_type pt s hp h = ground (
      arith,
      get_type-mod pc,
      get_or-set_self p.board sq pc 0 in_board,
      get_or-set_ne p.board sq s pc 0,
      get_or-set_self p.by_type (get_type pc) (set_square (type_board p (get_type pc)) sq) bb_zero,
      get_or-set_ne p.by_type (get_type pc) pt (set_square (type_board p (get_type pc)) sq) bb_zero,
      c.types,
      c.type_agrees pt s hp h,
      test-set_square (type_board p pt) sq s,
    )

    -- Putting a piece of one of the fourteen types on an empty square of a position whose bitboards
    -- agree with its board keeps them in agreement.
    pub put_piece-Consistent : Consistent (put_piece sq pc p)
    unfolding put_piece
    put_piece-Consistent = record {
      squares = length-set p.board sq pc ∙ c.squares;
      types = length-set p.by_type (get_type pc) _ ∙ c.types;
      valid = λ s h. ground (
        arith,
        get_or-set_self p.board sq pc 0 in_board,
        get_or-set_ne p.board sq s pc 0,
        c.valid s h,
      );
      color_agrees = put_color;
      type_agrees = put_type;
      color_canonical =
          set_side-IsCanonical p.by_color (get_color pc) _
            (set_square-IsCanonical _ sq small (c.color_canonical (get_color pc)))
            c.color_canonical;
      type_canonical = λ pt h.
          get_or-set_keeps IsCanonical p.by_type (get_type pc) pt _ bb_zero
            (set_square-IsCanonical _ sq small (c.type_canonical (get_type pc) (omega arith)))
            (c.type_canonical pt h);
    }

  -- A piece taken off its square.
  module _ (taken : is_none (piece_on p sq) ≡ false) where
    removed_color :
        (k : Color) (s : Square)
        → s < 81
        → test (side (remove_piece sq p).by_color k) s
          ≡ not (is_none (piece_on (remove_piece sq p) s))
            && same_color (get_color (piece_on (remove_piece sq p) s)) k
    unfolding remove_piece is_none
    removed_color black s h = ground (
      arith,
      get_or-set_self p.board sq 0 0 in_board,
      get_or-set_ne p.board sq s 0 0,
      c.color_agrees black s h,
      test-clear_square p.by_color.of_black sq s small h,
    )
    removed_color white s h = ground (
      arith,
      get_or-set_self p.board sq 0 0 in_board,
      get_or-set_ne p.board sq s 0 0,
      c.color_agrees white s h,
      test-clear_square p.by_color.of_white sq s small h,
    )

    abbrev taken_type : PieceType
    taken_type = get_type (piece_on p sq)

    abbrev cleared : Bitboard
    cleared = clear_square (type_board p taken_type) sq

    removed_type :
        (pt : PieceType) (s : Square)
        → pt < 16
        → s < 81
        → test (type_board (remove_piece sq p) pt) s
          ≡ not (is_none (piece_on (remove_piece sq p) s))
            && (get_type (piece_on (remove_piece sq p) s) == pt)
    unfolding remove_piece is_none
    removed_type pt s hp h = ground (
      arith,
      get_type-mod (piece_on p sq),
      get_or-set_self p.board sq 0 0 in_board,
      get_or-set_ne p.board sq s 0 0,
      get_or-set_self p.by_type taken_type cleared bb_zero,
      get_or-set_ne p.by_type taken_type pt cleared bb_zero,
      c.types,
      c.type_agrees pt s hp h,
      test-clear_square (type_board p pt) sq s small h,
    )

    -- Taking the piece off an occupied square of a position whose bitboards agree with its board keeps
    -- them in agreement.
    pub remove_piece-Consistent : Consistent (remove_piece sq p)
    unfolding remove_piece
    remove_piece-Consistent = record {
      squares = length-set p.board sq 0 ∙ c.squares;
      types = length-set p.by_type taken_type cleared ∙ c.types;
      valid = λ s h. ground (
        arith,
        get_or-set_self p.board sq 0 0 in_board,
        get_or-set_ne p.board sq s 0 0,
        c.valid s h,
      );
      color_agrees = removed_color;
      type_agrees = removed_type;
      color_canonical =
          set_side-IsCanonical p.by_color (get_color (piece_on p sq)) _
            (clear_square-IsCanonical _ sq small (c.color_canonical (get_color (piece_on p sq))))
            c.color_canonical;
      type_canonical = λ pt h.
          get_or-set_keeps IsCanonical p.by_type taken_type pt cleared bb_zero
            (clear_square-IsCanonical _ sq small (c.type_canonical taken_type (get_type-lt _)))
            (c.type_canonical pt h);
    }

-- The board array determines the bitboards.
module _ (p q : Position) (cp : Consistent p) (cq : Consistent q) (e : p.board ≡ q.board) where
  pub by_color_determined : p.by_color ≡ q.by_color
  by_color_determined = λ i. record { of_black = same black i; of_white = same white i }
    where
      same : (k : Color) → side p.by_color k ≡ side q.by_color k
      same k =
          bitboard_ext _ _ (cp.color_canonical k) (cq.color_canonical k)
            λ t h. cp.color_agrees k t h ∙ rw e (sym (cq.color_agrees k t h))

  pub by_type_determined : p.by_type ≡ q.by_type
  by_type_determined = get_or_ext bb_zero _ _ (cp.types ∙ sym cq.types) λ pt h.
      bitboard_ext _ _ (cp.type_canonical pt (omega (arith, cp.types)))
        (cq.type_canonical pt (omega (arith, cp.types)))
        λ t ht.
          cp.type_agrees pt t (omega (arith, cp.types)) ht
          ∙ rw e (sym (cq.type_agrees pt t (omega (arith, cp.types)) ht))
