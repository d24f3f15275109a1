-- ===== src/Mcts/Butterfly.antt =====
-- class ButterflyTable of mcts/butterfly.h: a score for each side, origin and destination of a move. On
-- one thread the compare_exchange succeeds at once.
use jhbr.Base.{
  ℕ, ◌+◌, ◌-◌, ◌*◌, ◌/◌, ◌<◌, ◌≡◌, refl, ◌∙◌, true, false, List, Option, none, some, arith,
  if◌then◌else◌, Bool-cases, inl, inr, length, length-set, get_or, set, get_or-set_ne, ℤ, pos,
  negsuc, ◌+ℤ◌, ◌-ℤ◌, ◌*ℤ◌, ◌≤ℤ◌, ltℤ, quot, clamp, clamp_bounds, get_or-set_keeps, replicate,
  length-replicate, get_or-replicate, pos_part, neg_part,
}
use jhbr.Shogi.Piece.{Color, black, white, color_idx}
use jhbr.Shogi.Move.{Move, is_drop, drop_piece, to_square, from_square}

abbrev pub k_from_ids : ℕ
k_from_ids = 88

abbrev pub table_size : ℕ
table_size = 14256

unfoldable pub origin : Move → ℕ
origin m = if is_drop m then 81 + (drop_piece m - 1) else from_square m

-- Index
unfoldable pub index : Color → Move → ℕ
index side m = (color_idx side * k_from_ids + origin m) * 81 + to_square m

-- What the loop of Update writes over `cur`.
unfoldable pub new_score : ℤ → ℤ → ℤ → ℤ
new_score cp reduction_factor cur =
    let rf = (if ltℤ reduction_factor (pos 1) then pos 1 else reduction_factor) in
    let size = pos (pos_part cp + neg_part cp) in
    let adjusted = cp -ℤ quot (cur *ℤ size) (pos_part rf) in
    clamp (cur +ℤ clamp adjusted (negsuc 32766) (pos 32767)) (negsuc 32766) (pos 32767)

-- Update, of the centipawns that the float score comes to, and of nothing for a score that is not finite.
unfoldable pub update_score : Color → Move → Option ℤ → ℤ → List ℤ → List ℤ
update_score side m none rf cells = cells
update_score side m (some cp) rf cells =
    set cells (index side m)
      (new_score (clamp cp (negsuc 32766) (pos 32767)) rf (get_or cells (index side m) (pos 0)))

-- A move with squares of the board, or a piece that a hand holds.
pub record IsOnBoard (m : Move) : Type 0 where
  pub to_on : to_square m < 81
  pub origin_on : is_drop m ≡ false → from_square m < 81
  pub held : is_drop m ≡ true → (0 < drop_piece m) × (drop_piece m < 8)

origin-lt : (m : Move) → IsOnBoard m → origin m < 88
unfolding origin
origin-lt m h = elim (Bool-cases (is_drop m)) [
  | inl e ↦ rw e (omega (arith, h.held e))
  | inr e ↦ rw e (omega (arith, h.origin_on e))
]

index-lt : (c : Color) (m : Move) → IsOnBoard m → index c m < table_size
unfolding index
index-lt black m h = omega (arith, origin-lt m h, h.to_on)
index-lt white m h = omega (arith, origin-lt m h, h.to_on)

-- The side, the origin and the destination are read back from the index.
index_parts :
    (c : Color) (m : Move)
    → IsOnBoard m
    → (index c m / 81 / 88 ≡ color_idx c)
      × (index c m / 81 - color_idx c * 88 ≡ origin m)
      × (index c m - (color_idx c * 88 + origin m) * 81 ≡ to_square m)
unfolding index
index_parts black m h =
    (omega (arith, origin-lt m h, h.to_on), omega (arith, origin-lt m h, h.to_on), omega arith)
index_parts white m h =
    (omega (arith, origin-lt m h, h.to_on), omega (arith, origin-lt m h, h.to_on), omega arith)

abbrev pub IsScore : ℤ → Type 0
IsScore v = (negsuc 32766 ≤ℤ v) × (v ≤ℤ pos 32767)

new_score-IsScore : (cp rf cur : ℤ) → IsScore (new_score cp rf cur)
unfolding new_score
new_score-IsScore cp rf cur = clamp_bounds _ (negsuc 32766) (pos 32767) (omega arith)

-- Every cell is a score.
pub record IsTable (cells : List ℤ) : Type 0 where
  pub size : length cells ≡ table_size
  pub scores : (i : ℕ) → i < table_size → IsScore (get_or cells i (pos 0))

-- Two moves that the table tells apart.
abbrev pub SameKey : Color → Move → Color → Move → Type 0
SameKey c m d n = (color_idx c ≡ color_idx d) × (origin m ≡ origin n) × (to_square m ≡ to_square n)

index-SameKey :
    (c d : Color) (m n : Move) → IsOnBoard m → IsOnBoard n → index c m ≡ index d n → SameKey c m d n
index-SameKey c d m n h k e =
    let p = index_parts c m h in
    let q = index_parts d n k in
    let sides : color_idx c ≡ color_idx d = omega (arith, p.0, q.0, e) in
    let origins : origin m ≡ origin n = omega (arith, p.1, q.1, e, sides) in
    (sides, origins, omega (arith, p.2, q.2, e, sides, origins))

-- Update keeps every cell within 32767 of zero, whatever the score and the reduction factor, and changes
-- no cell but that of the side, the origin and the destination of the move, which lies in the table.
pub update_score_lem :
    (c : Color) (m : Move) (score : Option ℤ) (rf : ℤ) (cells : List ℤ)
    → IsOnBoard m
    → IsTable cells
    → (index c m < table_size)
      × IsTable (update_score c m score rf cells)
      × ((d : Color) (n : Move)
          → IsOnBoard n
          → ¬ SameKey c m d n
          → get_or (update_score c m score rf cells) (index d n) (pos 0)
            ≡ get_or cells (index d n) (pos 0))
unfolding update_score
update_score_lem c m none rf cells h t = (index-lt c m h, t, λ d n k other. refl)
update_score_lem c m (some cp) rf cells h t = (index-lt c m h, kept, others)
  where
    v : ℤ
    v = new_score (clamp cp (negsuc 32766) (pos 32767)) rf (get_or cells (index c m) (pos 0))

    kept : IsTable (set cells (index c m) v)
    kept = record {
      size = length-set cells (index c m) v ∙ t.size;
      scores = λ i lt.
          get_or-set_keeps IsScore cells (index c m) i v (pos 0) (new_score-IsScore _ rf _)
            (t.scores i lt);
    }

    others :
        (d : Color) (n : Move)
        → IsOnBoard n
        → ¬ SameKey c m d n
        → get_or (set cells (index c m) v) (index d n) (pos 0) ≡ get_or cells (index d n) (pos 0)
    others d n k other =
        get_or-set_ne cells (index c m) (index d n) v (pos 0)
          (λ e. other (index-SameKey c d m n h k e))

-- The constructor's table.
abbrev pub new_cells : List ℤ
new_cells = replicate table_size (pos 0)

pub new_cells-IsTable : IsTable new_cells
new_cells-IsTable = record {
  size = length-replicate table_size (pos 0);
  scores = λ i lt. rw (get_or-replicate table_size i (pos 0)) (omega arith, omega arith);
}
