-- ===== src/Mcts/ScoreTests.antt =====
-- The butterfly table after one update.
use jhbr.Base.{◌≡◌, ◌<◌, refl, pos, negsuc, some, arith, get_or, clamp, quot, ◌+ℤ◌, ◌-ℤ◌, ◌*ℤ◌}
use jhbr.Shogi.Piece.{Color, white}
use jhbr.Shogi.Move.{Move, is_drop, to_square, from_square}
use jhbr.Mcts.Butterfly.{
  index, table_size, new_score, update_score, IsOnBoard, IsTable, SameKey, update_score_lem,
  new_cells, new_cells-IsTable,
}

-- From 30 to 29.
a_move-IsOnBoard : IsOnBoard 3869
unfolding is_drop to_square from_square
a_move-IsOnBoard = record {
  to_on = omega arith;
  origin_on = λ e. omega arith;
  held = λ e. absurd ground (arith, e);
}

update_score_lem_example :
    (index white 3869 < table_size)
    × IsTable (update_score white 3869 (some (pos 120)) (pos 8) new_cells)
    × ((d : Color) (n : Move)
        → IsOnBoard n
        → ¬ SameKey white 3869 d n
        → get_or (update_score white 3869 (some (pos 120)) (pos 8) new_cells) (index d n) (pos 0)
          ≡ get_or new_cells (index d n) (pos 0))
update_score_lem_example =
    update_score_lem white 3869 (some (pos 120)) (pos 8) new_cells a_move-IsOnBoard
      new_cells-IsTable

-- From nothing to 120, and back again by gravity: 120 - 120 * 120 / 8 is added to 120.
first_score : new_score (pos 120) (pos 8) (pos 0) ≡ pos 120
unfolding new_score clamp quot ◌+ℤ◌ ◌-ℤ◌ ◌*ℤ◌
first_score = refl

second_score : new_score (pos 120) (pos 8) (pos 120) ≡ negsuc 1559
unfolding new_score clamp quot ◌+ℤ◌ ◌-ℤ◌ ◌*ℤ◌
second_score = refl
