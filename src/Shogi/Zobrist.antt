-- ===== src/Shogi/Zobrist.antt =====
-- The Zobrist keys of shogi/board.cc: tables of 64-bit keys filled by a splitmix64 generator.
use jhbr.Base.{ℕ, ◌+◌, ◌*◌, ◌/◌, ◌^◌, bit_xor, u64, List, [], ◌∷◌, ltb, if◌then◌else◌}
use jhbr.Shogi.Piece.{Color, color_idx, PieceType, Piece}
use jhbr.Shogi.Square.{Square}
use jhbr.Shogi.Hand.{Hand, count}

-- The tables `Psq`, `HandPiece` and `Side`. What follows about hashes holds for any such tables.
pub record Zobrist : Type 0 where
  pub psq : Piece → Square → ℕ
  pub hand_piece : Color → PieceType → ℕ → ℕ
  pub side : ℕ

-- `Rand64` on the seed that it has after its increment.
unfoldable pub mix64 : ℕ → ℕ
mix64 s =
    let a = u64 (bit_xor s (s / 2 ^ 30) * 0xBF58476D1CE4E5B9) in
    let b = u64 (bit_xor a (a / 2 ^ 27) * 0x94D049BB133111EB) in bit_xor b (b / 2 ^ 31)

-- The result of call number `k` of `Rand64`, counted from 0.
unfoldable pub rand64 : ℕ → ℕ
unfolding mix64
rand64 k = mix64 (u64 (0x70736575646F7267 + (k + 1) * 0x9E3779B97F4A7C15))

-- `Init` fills the tables in this order.
unfoldable pub init_tables : Zobrist
unfolding rand64
init_tables = record {
  psq = λ pc sq. rand64 (pc * 81 + sq);
  hand_piece = λ c pt n. rand64 (32 * 81 + (color_idx c * 8 + pt) * 20 + n);
  side = rand64 (32 * 81 + 2 * 8 * 20);
}

module _ (z : Zobrist) where
  -- One round of the loop over the hand types.
  unfoldable pub hash_count : Color → Hand → PieceType → ℕ → ℕ
  hash_count c h pt acc =
      let n = count h pt in if ltb 0 n then bit_xor acc (z.hand_piece c pt n) else acc

  unfoldable pub hash_types : Color → Hand → List PieceType → ℕ → ℕ
  hash_types c h [] acc = acc
  hash_types c h (pt ∷ pts) acc = hash_types c h pts (hash_count c h pt acc)

  -- HashHand: pawn to gold.
  unfoldable pub hash_hand : Color → Hand → ℕ
  unfolding hash_types hash_count
  hash_hand c h = hash_types c h (1 ∷ 2 ∷ 3 ∷ 4 ∷ 5 ∷ 6 ∷ 7 ∷ []) 0
