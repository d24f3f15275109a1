-- ===== src/Shogi/Repetition/Checked.antt =====
-- When a move of a line gives check, by the attackers of the king in the position it leads to.
use jhbr.Base.{
  ℕ, ◌+◌, ◌<◌, ◌≡◌, refl, sym, ◌∙◌, inl, inr, Bool, true, false, List, Option, none, some,
  if◌then◌else◌, Bool-cases,
}
use jhbr.Shogi.Piece.{Color, black, white, opposite, is_none}
use jhbr.Shogi.Move.{Move, is_drop, to_square}
use jhbr.Shogi.Zobrist.{Zobrist}
use jhbr.Shogi.Attacks.{
  attackers_to, in_check, occupied, is_square_attacked, pieces, gold_like, rook_like, bishop_like,
}
use jhbr.Shogi.Position.{Position, Sides, side, set_side, piece_on, put_piece, remove_piece}
use jhbr.Shogi.Position.Make.{UndoInfo, do_move_internal, played}
use jhbr.Shogi.Position.Undo.{IsDropOf, IsPlayable}
use jhbr.Shogi.Position.Hash.{after}
use jhbr.Shogi.Position.Consistent.{Consistent}
use jhbr.Shogi.Position.Shift.{IsShift}
use jhbr.Shogi.Position.Invariant.{WellFormed, do_move-WellFormed}
use jhbr.Shogi.Attacks.Query.{is_square_attacked_lem}
use jhbr.Shogi.Bitboard.{bb_and, any}
use jhbr.Shogi.Square.{Square}
use jhbr.Shogi.Position.Line.{Line, start, step}

module _ (z : Zobrist) (in_check : Position → Color → Bool) (m : Move) (gives_check : Option Bool)
    (p : Position) where
  abbrev pub gave_check : Bool
  gave_check = (do_move_internal z in_check m true gives_check p).0.gave_check

in_check-counters :
    (p : Position) (counters : Sides ℕ) (c : Color)
    → in_check (record p { continuous_check = counters }) c ≡ in_check p c
unfolding in_check occupied is_square_attacked pieces gold_like rook_like bishop_like
in_check-counters p counters c = refl

-- The king squares of both sides are squares of the board.
abbrev pub KingsOnBoard : Position → Type 0
KingsOnBoard p = (c : Color) → side p.king_sq c < 81

-- The side to move is in check: of the squares that hold its opponent's men, AttackersTo gives one for
-- the square of its king.
abbrev pub in_check_now : Position → Bool
in_check_now p = any (
    bb_and (attackers_to p (side p.king_sq p.side_to_move) (occupied p))
      (side p.by_color (opposite p.side_to_move)))

in_check_now_lem :
    (p : Position) → Consistent p → KingsOnBoard p → in_check p p.side_to_move ≡ in_check_now p
unfolding in_check
in_check_now_lem p c kings =
    is_square_attacked_lem p (side p.king_sq p.side_to_move) (occupied p) (opposite p.side_to_move)
      c (kings p.side_to_move)

crowned_square :
    (b : Bool) (k : Sides Square) (us c : Color) (to : Square)
    → to < 81
    → ((d : Color) → side k d < 81)
    → side (if b then set_side k us to else k) c < 81
crowned_square false k us c to lt kings = kings c
crowned_square true k black black to lt kings = lt
crowned_square true k black white to lt kings = kings white
crowned_square true k white black to lt kings = kings black
crowned_square true k white white to lt kings = lt

after-KingsOnBoard :
    (z : Zobrist) (m : Move) (gives_check : Option Bool) (p : Position)
    → IsPlayable m p
    → KingsOnBoard p
    → KingsOnBoard (after z in_check m gives_check p)
unfolding do_move_internal put_piece remove_piece
after-KingsOnBoard z m gives_check p h kings c = elim (Bool-cases (is_drop m)) [
  | inl d ↦
      let s : IsDropOf m p = rw d at h in
      rw (d, do_move_internal) (crowned_square _ p.king_sq _ c (to_square m) s.to_small kings)
  | inr d ↦
      let s : IsShift m p = rw d at h in
      elim (Bool-cases (is_none (piece_on p (to_square m)))) [
        | inl n ↦
            rw (d, n, do_move_internal)
              (crowned_square _ p.king_sq _ c (to_square m) s.to_small kings)
        | inr n ↦
            rw (d, n, do_move_internal)
              (crowned_square _ p.king_sq _ c (to_square m) s.to_small kings)
      ]
]

module _ (z : Zobrist) where
  -- Whether the side to move is in check once a move is made.
  abbrev pub checked_after : Move → Option Bool → Position → Bool
  checked_after m gives_check p = in_check_now (after z in_check m gives_check p)

  -- What the caller says of a check is right.
  abbrev pub IsRightHint : Move → Option Bool → Position → Type 0
  IsRightHint m gives_check p =
      (b : Bool) → gives_check ≡ some b → b ≡ checked_after m gives_check p

  unfoldable pub HintsRight :
      {p q : Position} {moves : List (Move × UndoInfo)} → Line z in_check p moves q → Type 0
  HintsRight start = Unit
  HintsRight (step {moves} {q} l m g h) = IsRightHint m g q × HintsRight l

  -- How many moves of a line in a row left the other side in check, of the side that moved last and
  -- of the other side, up to the last move of each.
  unfoldable pub checks_in_row :
      {p q : Position} {moves : List (Move × UndoInfo)} → Line z in_check p moves q → ℕ × ℕ
  checks_in_row start = (0, 0)
  checks_in_row (step {moves} {q} l m g h) =
      let r = checks_in_row l in (if checked_after m g q then r.1 + 1 else 0, r.0)

  pub gave_check_lem :
      (m : Move) (gives_check : Option Bool) (p : Position)
      → WellFormed z p
      → IsPlayable m p
      → KingsOnBoard p
      → IsRightHint m gives_check p
      → gave_check z in_check m gives_check p ≡ checked_after m gives_check p
  unfolding do_move_internal
  gave_check_lem m none p w h kings hint =
      let v = do_move-WellFormed z in_check m none p w h in
      sym (in_check-counters (played z in_check true m p) _ (opposite p.side_to_move))
      ∙ in_check_now_lem (after z in_check m none p) v.consistent
          (after-KingsOnBoard z m none p h kings)
  gave_check_lem m (some b) p w h kings hint = hint b refl

  pub Line-KingsOnBoard :
      {p q : Position} {moves : List (Move × UndoInfo)}
      → KingsOnBoard p
      → Line z in_check p moves q
      → KingsOnBoard q
  Line-KingsOnBoard kings start = kings
  Line-KingsOnBoard kings (step {moves} {q} l m g h) =
      after-KingsOnBoard z m g q h (Line-KingsOnBoard kings l)
