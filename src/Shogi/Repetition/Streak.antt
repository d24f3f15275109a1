-- ===== src/Shogi/Repetition/Streak.antt =====
-- What the check counters and the history say of the line of moves that led to a position.
use jhbr.Base.{
  ℕ, zero, suc, ◌+◌, ◌*◌, ◌-◌, ◌≤◌, ◌<◌, ◌≡◌, refl, sym, ap, ◌∙◌, inl, inr, Bool, true, false, List,
  ◌∷◌, Option, some, arith, if◌then◌else◌, length, get_elem?, take, Bool-cases,
}
use jhbr.Shogi.Piece.{Color, black, white, opposite, is_none}
use jhbr.Shogi.Move.{Move, is_drop, to_square}
use jhbr.Shogi.Zobrist.{Zobrist}
use jhbr.Shogi.Attacks.{in_check}
use jhbr.Shogi.Position.{
  Position, HistoryEntry, side, set_side, both, piece_on, put_piece, remove_piece,
}
use jhbr.Shogi.Position.Make.{UndoInfo, do_move_internal}
use jhbr.Shogi.Position.Undo.{undo_move-do_move}
use jhbr.Shogi.Position.Hash.{after}
use jhbr.Shogi.Position.Invariant.{WellFormed}
use jhbr.Shogi.Position.Line.{Line, start, step, undo_line, Line-WellFormed}
use jhbr.Shogi.Repetition.{entry_at}
use jhbr.Shogi.Repetition.Checked.{
  gave_check, KingsOnBoard, checked_after, HintsRight, checks_in_row, gave_check_lem,
  Line-KingsOnBoard,
}

-- What the history records of a position.
abbrev pub entry_of : Position → HistoryEntry
entry_of p = record { hash = p.hash; hand_black = p.hand.of_black; hand_white = p.hand.of_white }

module _ (z : Zobrist) (in_check : Position → Color → Bool) (m : Move) (gives_check : Option Bool)
    (p : Position) where
  counted :
      (after z in_check m gives_check p).continuous_check
      ≡ set_side p.continuous_check p.side_to_move (
          if gave_check z in_check m gives_check p
          then side p.continuous_check p.side_to_move + 2
          else 0)
  unfolding do_move_internal put_piece remove_piece
  counted = elim (Bool-cases (is_drop m)) [
    | inl d ↦ rw (d, do_move_internal)
    | inr d ↦ elim (Bool-cases (is_none (piece_on p (to_square m)))) [
      | inl n ↦ rw (d, n, do_move_internal)
      | inr n ↦ rw (d, n, do_move_internal)
    ]
  ]

  recorded : (after z in_check m gives_check p).history ≡ entry_of p ∷ p.history
  unfolding do_move_internal put_piece remove_piece
  recorded = elim (Bool-cases (is_drop m)) [
    | inl d ↦ rw (d, do_move_internal)
    | inr d ↦ elim (Bool-cases (is_none (piece_on p (to_square m)))) [
      | inl n ↦ rw (d, n, do_move_internal)
      | inr n ↦ rw (d, n, do_move_internal)
    ]
  ]

  passed : (after z in_check m gives_check p).side_to_move ≡ opposite p.side_to_move
  unfolding do_move_internal
  passed = refl

-- The counters agree with what a line says of the checks.
abbrev pub CountersOf : ℕ × ℕ → Position → Type 0
CountersOf r p =
    (side p.continuous_check (opposite p.side_to_move) ≡ r.0 * 2)
    × (side p.continuous_check p.side_to_move ≡ r.1 * 2)

counters_step :
    (p q : Position) (g : Bool) (r : ℕ × ℕ)
    → CountersOf r p
    → q.side_to_move ≡ opposite p.side_to_move
    → q.continuous_check
      ≡ set_side p.continuous_check p.side_to_move
          (if g then side p.continuous_check p.side_to_move + 2 else 0)
    → CountersOf (if g then r.1 + 1 else 0, r.0) q
counters_step p q g r c turn e = rw (turn, e) (flip p.side_to_move g c)
  where
    flip :
        (us : Color) (g : Bool)
        → (side p.continuous_check (opposite us) ≡ r.0 * 2) × (side p.continuous_check us ≡ r.1 * 2)
        → (side
              (set_side p.continuous_check us (if g then side p.continuous_check us + 2 else 0))
              (opposite (opposite us))
            ≡ (if g then r.1 + 1 else 0) * 2)
          × (side
                (set_side p.continuous_check us (if g then side p.continuous_check us + 2 else 0))
                (opposite us)
              ≡ r.0 * 2)
    flip black true c = (omega (arith, c.0, c.1), c.0)
    flip black false c = (omega arith, c.0)
    flip white true c = (omega (arith, c.0, c.1), c.0)
    flip white false c = (omega arith, c.0)

module _ (z : Zobrist) where
  -- Over a line of playable moves from a well-formed position with both kings on the board and counters
  -- of 0, where what is given of the checks is right, each counter of a side is twice the number of moves
  -- in a row, up to its last one, after which AttackersTo gives one of its men for the square of the
  -- other side's king.
  pub continuous_check-Line :
      {p q : Position} {moves : List (Move × UndoInfo)}
      → WellFormed z p
      → KingsOnBoard p
      → p.continuous_check ≡ both 0
      → (l : Line z in_check p moves q) → HintsRight z l
      → CountersOf (checks_in_row z l) q
  unfolding checks_in_row HintsRight
  continuous_check-Line {p} w kings e start right = rw e (zeros p.side_to_move)
    where
      zeros : (c : Color) → (side (both 0) (opposite c) ≡ 0 * 2) × (side (both 0) c ≡ 0 * 2)
      zeros black = (omega arith, omega arith)
      zeros white = (omega arith, omega arith)
  continuous_check-Line w kings e (step {moves} {q} l m g h) right =
      counters_step q (after z in_check m g q) (checked_after z m g q) (checks_in_row z l)
        (continuous_check-Line w kings e l right.1) (passed z in_check m g q)
        (counted z in_check m g q
          ∙ ap
              (λ (b : Bool).
                set_side q.continuous_check q.side_to_move
                  (if b then side q.continuous_check q.side_to_move + 2 else 0))
              (gave_check_lem z m g q (Line-WellFormed z in_check w l) h
                (Line-KingsOnBoard z kings l) right.0))

module _ (z : Zobrist) (in_check : Position → Color → Bool) where
  entries :
      {p q : Position} {moves : List (Move × UndoInfo)} (dist : ℕ)
      → WellFormed z p
      → Line z in_check p moves q
      → dist < length moves
      → get_elem? q.history dist ≡ some (entry_of (undo_line (take (suc dist) moves) q))
  unfolding undo_line
  entries dist w start lt = absurd (omega arith)
  entries zero w (step {moves} {q} l m g h) lt =
      let v = Line-WellFormed z in_check w l in
      ap (λ es. get_elem? es 0) (recorded z in_check m g q)
      ∙ ap (λ t. some (entry_of t))
          (sym (undo_move-do_move z in_check m g q v.consistent v.known true h))
  entries (suc dist) w (step {moves} {q} l m g h) lt =
      let v = Line-WellFormed z in_check w l in
      ap (λ es. get_elem? es (suc dist)) (recorded z in_check m g q)
      ∙ entries dist w l (omega arith)
      ∙ ap (λ t. some (entry_of (undo_line (take (suc dist) moves) t)))
          (sym (undo_move-do_move z in_check m g q v.consistent v.known true h))

  -- Over a line of playable moves from a well-formed position, the entry of the history at a distance
  -- within the line is the hash and the hands of the position that many plies back.
  pub entry_at-Line :
      {p q : Position} {moves : List (Move × UndoInfo)} (dist : ℕ)
      → WellFormed z p
      → Line z in_check p moves q
      → 0 < dist
      → dist ≤ length moves
      → entry_at q dist ≡ some (entry_of (undo_line (take dist moves) q))
  entry_at-Line zero w l pos le = absurd (omega arith)
  entry_at-Line (suc dist) w l pos le =
      let e : suc dist - 1 ≡ dist = omega arith in rw e (entries dist w l (omega arith))
