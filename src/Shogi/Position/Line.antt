-- ===== src/Shogi/Position/Line.antt =====
-- Lines of play: what holds of every position that DoMove reaches, and UndoMove back along the line.
use jhbr.Base.{◌≡◌, refl, ap, ◌∙◌, Bool, true, List, [], ◌∷◌, Option}
use jhbr.Shogi.Piece.{Color}
use jhbr.Shogi.Move.{Move}
use jhbr.Shogi.Zobrist.{Zobrist}
use jhbr.Shogi.Position.{Position}
use jhbr.Shogi.Position.Make.{UndoInfo, do_move_internal, undo_move}
use jhbr.Shogi.Position.Undo.{IsPlayable, undo_move-do_move}
use jhbr.Shogi.Position.Hash.{after}
use jhbr.Shogi.Position.Invariant.{WellFormed, do_move-WellFormed}

-- The moves of a line with what taking them back needs, the last first.
unfoldable pub undo_line : List (Move × UndoInfo) → Position → Position
undo_line [] p = p
undo_line ((m, undo) ∷ rest) p = undo_line rest (undo_move m undo p)

module _ (z : Zobrist) (in_check : Position → Color → Bool) where
  -- Playable moves made one after the other from `p`, the UndoInfo of each kept.
  pub data Line (p : Position) : List (Move × UndoInfo) → Position → Type 0 where
    start : Line p [] p
    step :
        {moves : List (Move × UndoInfo)} {q : Position}
        → Line p moves q
        → (m : Move) (gives_check : Option Bool) → IsPlayable m q
        → Line p
            ((m, (do_move_internal z in_check m true gives_check q).0) ∷ moves)
            (after z in_check m gives_check q)

  -- Every position that a line of playable moves reaches from a well-formed one is well formed.
  pub Line-WellFormed :
      {p q : Position} {moves : List (Move × UndoInfo)}
      → WellFormed z p
      → Line p moves q
      → WellFormed z q
  Line-WellFormed w start = w
  Line-WellFormed w (step l m g h) = do_move-WellFormed z in_check m g _ (Line-WellFormed w l) h

  -- Taking back a whole line of playable moves from a well-formed position, last move first, restores
  -- that position.
  pub undo_line-Line :
      {p q : Position} {moves : List (Move × UndoInfo)}
      → WellFormed z p
      → Line p moves q
      → undo_line moves q ≡ p
  unfolding undo_line
  undo_line-Line w start = refl
  undo_line-Line w (step {moves} l m g h) =
      let v = Line-WellFormed w l in
      ap (undo_line moves) (undo_move-do_move z in_check m g _ v.consistent v.known true h)
      ∙ undo_line-Line w l
