-- ===== src/Shogi/Repetition.antt =====
-- Repetition of positions: RepetitionCount, CheckRepetition and ClearHistory of shogi/board.cc, and
-- mcts/search_repetition.h.
pub mod Scan
pub mod Checked
pub mod Streak
use jhbr.Base.{
  ℕ, zero, suc, ◌+◌, ◌-◌, min, Bool, true, false, ◌&&◌, ◌==◌, ltb, leb, List, [], ◌∷◌, Option, none,
  some, if◌then◌else◌, length, get_elem?,
}
use jhbr.Shogi.Piece.{Color, opposite}
use jhbr.Shogi.Position.{Position, HistoryEntry, side, both}

pub data RepetitionResult : Type 0 where
  k_none k_draw k_win k_loss : RepetitionResult

-- ClearHistory
unfoldable pub clear_history : Position → Position
clear_history p = record p { history = []; continuous_check = both 0 }

-- An entry of the history against the position now.
unfoldable pub same_entry : Position → HistoryEntry → Bool
same_entry p e =
    e.hash == p.hash && e.hand_black == p.hand.of_black && e.hand_white == p.hand.of_white

unfoldable pub count_entries : Position → List HistoryEntry → ℕ
count_entries p [] = 0
count_entries p (e ∷ es) =
    let rest = count_entries p es in if same_entry p e then rest + 1 else rest

-- RepetitionCount
unfoldable pub repetition_count : Position → ℕ
repetition_count p = count_entries p p.history

-- The entry that was pushed `dist` plies ago: `history_[history_size - dist]`.
abbrev pub entry_at : Position → ℕ → Option HistoryEntry
entry_at p dist = get_elem? p.history (dist - 1)

unfoldable pub matches : Position → Option HistoryEntry → Bool
matches p none = false
matches p (some e) = same_entry p e

-- The loop over the distances from `dist` on. Each round uses one unit of fuel.
unfoldable pub scan : Position → ℕ → ℕ → ℕ → Option ℕ
scan p max_distance zero dist = none
scan p max_distance (suc fuel) dist =
    let rest = scan p max_distance fuel (dist + 2) in
    if leb dist max_distance then if matches p (entry_at p dist) then some dist else rest else none

abbrev pub max_distance : ℕ → Position → ℕ
max_distance max_back_plies p =
    if ltb 0 max_back_plies then min (length p.history) max_back_plies else length p.history

-- Who has been checking all along the cycle.
unfoldable pub adjudicate : Position → ℕ → RepetitionResult
adjudicate p dist =
    let us = p.side_to_move in
    if leb dist (side p.continuous_check us)
    then k_loss
    else if leb dist (side p.continuous_check (opposite us))
    then k_win
    else k_draw

-- What is returned, and the distance reported, once the loop ends.
abbrev pub report : Position → Option ℕ → RepetitionResult × Option ℕ
report p none = (k_none, none)
report p (some dist) = (adjudicate p dist, some dist)

-- CheckRepetition
unfoldable pub check_repetition : ℕ → Position → RepetitionResult × Option ℕ
check_repetition max_back_plies p =
    let limit = max_distance max_back_plies p in report p (scan p limit limit 4)

-- GetSearchRepetitionResult
unfoldable pub get_search_repetition_result : Position → Bool → RepetitionResult
get_search_repetition_result p at_root = if at_root then k_none else (check_repetition 0 p).0
