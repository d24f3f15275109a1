-- ===== src/Shogi/Repetition/Scan.antt =====
-- The loop of CheckRepetition finds the nearest repetition.
use jhbr.Base.{
  ℕ, ◌+◌, ◌-◌, ◌*◌, ◌≤◌, ◌<◌, ◌≡◌, Bool, true, false, Option, none, some, length, get_elem?,
}
use jhbr.Shogi.Piece.{opposite}
use jhbr.Shogi.Position.{Position, HistoryEntry, side}
use jhbr.Shogi.Repetition.{matches, entry_at, RepetitionResult, k_none, k_draw, k_win, k_loss}

-- Whether the position `k` rounds from distance `dist` is the position now.
abbrev pub MatchAt : Position → ℕ → ℕ → Bool → Type 0
MatchAt p dist k b = matches p (entry_at p (dist + k * 2)) ≡ b

-- What the loop from `dist` on returns: the nearest match, or that there is none within the limit.
pub data Nearest (p : Position) (limit dist : ℕ) (o : Option ℕ) : Type 0 where
  missing :
      o ≡ none → ((k : ℕ) → dist + k * 2 ≤ limit → MatchAt p dist k false) → Nearest p limit dist o
  found :
      (k : ℕ)
      → o ≡ some (dist + k * 2)
      → dist + k * 2 ≤ limit
      → MatchAt p dist k true
      → ((j : ℕ) → j < k → MatchAt p dist j false)
      → Nearest p limit dist o

-- The hash and both hands are those of the entry pushed `dist` plies ago.
pub record Repeats (p : Position) (dist : ℕ) : Type 0 where
  pub entry : HistoryEntry
  pub there : get_elem? p.history (dist - 1) ≡ some entry
  pub same_hash : entry.hash ≡ p.hash
  pub same_black : entry.hand_black ≡ p.hand.of_black
  pub same_white : entry.hand_white ≡ p.hand.of_white

-- As far back as the history goes, and no farther than a positive `max_back_plies`.
abbrev pub Within : ℕ → Position → ℕ → Type 0
Within max_back_plies p dist =
    (dist ≤ length p.history) × (0 < max_back_plies → dist ≤ max_back_plies)

-- Who loses a repetition at a distance: a side that has checked all along, the side to move first.
pub data Verdict (p : Position) (dist : ℕ) (v : RepetitionResult) : Type 0 where
  we_checked : dist ≤ side p.continuous_check p.side_to_move → v ≡ k_loss → Verdict p dist v
  they_checked :
      side p.continuous_check p.side_to_move < dist
      → dist ≤ side p.continuous_check (opposite p.side_to_move)
      → v ≡ k_win
      → Verdict p dist v
  no_side_checked :
      side p.continuous_check p.side_to_move < dist
      → side p.continuous_check (opposite p.side_to_move) < dist
      → v ≡ k_draw
      → Verdict p dist v

-- What CheckRepetition returns.
pub data Repetition (max_back_plies : ℕ) (p : Position) (r : RepetitionResult × Option ℕ)
    : Type 0 where
  no_repetition :
      r ≡ (k_none, none)
      → ((k : ℕ) → Within max_back_plies p (4 + k * 2) → ¬ Repeats p (4 + k * 2))
      → Repetition max_back_plies p r
  repeated :
      (k : ℕ) (v : RepetitionResult)
      → r ≡ (v, some (4 + k * 2))
      → Within max_back_plies p (4 + k * 2)
      → Repeats p (4 + k * 2)
      → ((j : ℕ) → j < k → ¬ Repeats p (4 + j * 2))
      → Verdict p (4 + k * 2) v
      → Repetition max_back_plies p r
