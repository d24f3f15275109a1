-- ===== src/Shogi/Tests.antt =====
-- The theorems on positions at a concrete position and concrete moves.
use jhbr.Base.{
  ℕ, ◌+◌, ◌*◌, ◌≡◌, ◌≢◌, refl, Bool, true, false, List, [], ◌∷◌, none, some, arith, get_or, set,
  replicate, get_or-replicate, get_or-set_keeps, take,
}
use jhbr.Shogi.Piece.{Color, black, white, Piece, make, is_none, king, get_type, promote}
use jhbr.Shogi.Square.{Square}
use jhbr.Shogi.Move.{Move, is_drop, is_promotion, to_square, from_square}
use jhbr.Shogi.Zobrist.{Zobrist}
use jhbr.Shogi.Position.{Position, empty_position, put_piece, remove_piece}
use jhbr.Shogi.Position.Keys.{compute_hash, hash_after, board_key, board_key_after}
use jhbr.Shogi.Position.Empty.{empty-WellFormed, put_piece-WellFormed}
use jhbr.Shogi.Position.Invariant.{WellFormed}
use jhbr.Shogi.Position.Undo.{IsPlayable, undone, undo_move-do_move}
use jhbr.Shogi.Position.Make.{UndoInfo, do_move_internal}
use jhbr.Shogi.Position.Hash.{after, hash_after_lem, board_key_after_lem}
use jhbr.Shogi.Position.HashInvariant.{hash-do_move}
use jhbr.Shogi.Position.Line.{Line, start, step, undo_line, undo_line-Line, Line-WellFormed}
use jhbr.Shogi.Position.Consistent.{Consistent, put_piece-Consistent, remove_piece-Consistent}
use jhbr.Shogi.Repetition.{entry_at}
use jhbr.Shogi.Repetition.Streak.{entry_of, entry_at-Line}

-- Tables that stand for the generated ones.
abbrev pub z : Zobrist
z = record { psq = λ pc sq. pc * 81 + sq; hand_piece = λ c pt n. pt * 20 + n; side = 77 }

abbrev no_check : Position → Color → Bool
no_check p c = false

abbrev pub placed : Square → Piece → Position → Position
placed sq pc p = record (put_piece sq pc p) { hash = compute_hash z (put_piece sq pc p) }

-- The black king on 40, the white king on 4, a black pawn on 30 and a white pawn on 29.
abbrev one_king : Position
one_king = placed 40 8 empty_position

abbrev pub two_kings : Position
two_kings = placed 4 24 one_king

abbrev one_pawn : Position
one_pawn = placed 30 1 two_kings

abbrev pub start_position : Position
start_position = placed 29 17 one_pawn

abbrev blank : List ℕ
blank = replicate 81 0

none_there : (s : Square) → get_or blank s 0 ≡ 0
none_there s = get_or-replicate {A = ℕ} 81 s 0

one_king-WellFormed : WellFormed z one_king
unfolding empty_position make get_type
one_king-WellFormed =
    put_piece-WellFormed z empty_position 40 8 (empty-WellFormed z) (omega arith) refl (omega arith)
      (omega arith) (omega arith) (λ k s lt e there. alone s k there)
  where
    alone : (s : Square) (k : Color) → get_or blank s 0 ≢ make k king
    alone s black e = omega (arith, e, none_there s)
    alone s white e = omega (arith, e, none_there s)

pub two_kings-WellFormed : WellFormed z two_kings
unfolding empty_position make get_type put_piece
two_kings-WellFormed =
    put_piece-WellFormed z one_king 4 24 one_king-WellFormed (omega arith) refl (omega arith)
      (omega arith) (omega arith) (λ k s lt e. alone k s e)
  where
    alone : (k : Color) (s : Square) → 24 ≡ make k king → get_or (set blank 40 8) s 0 ≢ make k king
    alone black s e = absurd (omega (arith, e))
    alone white s e =
        get_or-set_keeps (λ x. x ≢ 24) blank 40 s 8 0 (λ q. omega (arith, q))
          (λ q. omega (arith, q, none_there s))

not_king : (pc : ℕ) (k : Color) → pc ≡ 1 → pc ≢ make k king
unfolding make
not_king pc black e q = omega arith
not_king pc white e q = omega arith

one_pawn-WellFormed : WellFormed z one_pawn
unfolding empty_position get_type put_piece
one_pawn-WellFormed =
    put_piece-WellFormed z two_kings 30 1 two_kings-WellFormed (omega arith) refl (omega arith)
      (omega arith) (omega arith) (λ k s lt e. absurd (not_king 1 k refl e))

pub start-WellFormed : WellFormed z start_position
unfolding empty_position get_type put_piece make
start-WellFormed =
    put_piece-WellFormed z one_pawn 29 17 one_pawn-WellFormed (omega arith) refl (omega arith)
      (omega arith) (omega arith) (λ k s lt e. absurd (other k e))
  where
    other : (k : Color) → 17 ≢ make k king
    other black e = omega (arith, e)
    other white e = omega (arith, e)

-- The pawn takes the pawn.
abbrev takes : Move
takes = 3869

takes-IsPlayable : IsPlayable takes start_position
unfolding empty_position put_piece is_drop from_square to_square is_promotion is_none
takes-IsPlayable = record {
  from_small = omega arith;
  to_small = omega arith;
  moves = λ e. omega (arith, e);
  there = refl;
  promotes = λ e. absurd cc;
}

-- Then the white king steps aside.
abbrev taken : Position
taken = after z no_check takes none start_position

abbrev steps : Move
steps = 517

steps-IsPlayable : IsPlayable steps taken
unfolding empty_position put_piece remove_piece is_drop from_square to_square is_promotion is_none
    do_move_internal promote
steps-IsPlayable = record {
  from_small = omega arith;
  to_small = omega arith;
  moves = λ e. omega (arith, e);
  there = refl;
  promotes = λ e. absurd cc;
}

abbrev made : List (Move × UndoInfo)
made =
    (steps, (do_move_internal z no_check steps true none taken).0)
    ∷ (takes, (do_move_internal z no_check takes true none start_position).0)
    ∷ []

abbrev end_position : Position
end_position = after z no_check steps none taken

two_moves : Line z no_check start_position made end_position
two_moves = step (step start takes none takes-IsPlayable) steps none steps-IsPlayable

undo_line-Line_example : undo_line made end_position ≡ start_position
undo_line-Line_example = undo_line-Line z no_check start-WellFormed two_moves

Line-WellFormed_example : WellFormed z end_position
Line-WellFormed_example = Line-WellFormed z no_check start-WellFormed two_moves

undo_move-do_move_example : undone z no_check takes none start_position true ≡ start_position
undo_move-do_move_example =
    undo_move-do_move z no_check takes none start_position start-WellFormed.consistent
      start-WellFormed.known true takes-IsPlayable

hash-do_move_example : taken.hash ≡ compute_hash z taken
hash-do_move_example =
    hash-do_move z no_check takes none start_position start-WellFormed.consistent
      start-WellFormed.known start-WellFormed.hashed takes-IsPlayable

hash_after_lem_example : hash_after z takes start_position ≡ taken.hash
hash_after_lem_example = hash_after_lem z no_check takes none start_position takes-IsPlayable

board_key_after_lem_example : board_key_after z takes start_position ≡ board_key z taken
board_key_after_lem_example =
    board_key_after_lem z no_check takes none start_position takes-IsPlayable

entry_at-Line_example :
    entry_at end_position 2 ≡ some (entry_of (undo_line (take 2 made) end_position))
entry_at-Line_example =
    entry_at-Line z no_check 2 start-WellFormed two_moves (omega arith) (omega arith)

put_piece-Consistent_example : Consistent (put_piece 60 5 start_position)
unfolding empty_position put_piece get_type
put_piece-Consistent_example =
    put_piece-Consistent start_position start-WellFormed.consistent 60 (omega arith) 5 refl
      (omega arith) (omega arith) (omega arith)

remove_piece-Consistent_example : Consistent (remove_piece 29 start_position)
unfolding empty_position put_piece is_none
remove_piece-Consistent_example =
    remove_piece-Consistent start_position start-WellFormed.consistent 29 (omega arith) refl
