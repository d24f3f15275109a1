-- ===== src/Shogi/Move/Flip.antt =====
-- Move::Flip mirrors a move by half a turn of the board.
use jhbr.Base.{
  ℕ, ◌+◌, ◌-◌, ◌*◌, ◌/◌, ◌%◌, ◌^◌, ◌<◌, bit_and, bit_or, ◌≡◌, ap, ◌∙◌, true, false, arith,
}
use jhbr.Base.Words.{bit_and-mask, bit_or-fields, bit_and-shifted, bit_or_comm, bit_or_assoc}
use jhbr.Shogi.Square.{flipped, u8, flipped-add}
use jhbr.Shogi.Move.{u16, drop_flag, promote_flag, flip, normal, promotion, drop, is_drop}
use jhbr.Shogi.Move.Fields.{
  Shape, board, dropped, encode, IsOnBoard, normal-sum, promotion-sum, drop-sum, encode-Reads,
}

-- The same move seen from the other side.
abbrev pub mirror : Shape → Shape
mirror (board from to promoted) = board (flipped from) (flipped to) promoted
mirror (dropped pt to) = dropped pt (flipped to)

-- The two flags are kept apart from the fourteen bits below them.
flags_kept : (m : ℕ) → m < 65536 → bit_and m (drop_flag + promote_flag) ≡ m / 16384 * 16384
flags_kept m h =
    bit_and-shifted 14 m 3 ∙ ap (λ (t : ℕ). t * 2 ^ 14) (bit_and-mask 2 (m / 2 ^ 14)) ∙ omega arith

high_kept : (m : ℕ) → m < 65536 → bit_and m (2 ^ 16 - 1 - 0x7f) ≡ m / 128 * 128
high_kept m h =
    bit_and-shifted 7 m 511 ∙ ap (λ (t : ℕ). t * 2 ^ 7) (bit_and-mask 9 (m / 2 ^ 7)) ∙ omega arith

flip_board :
    (m f t : ℕ)
    → m < 65536
    → m / 128 % 128 + f ≡ 80
    → m % 128 + t ≡ 80
    → is_drop m ≡ false
    → flip m ≡ m / 16384 * 16384 + f * 128 + t
unfolding flip
flip_board m f t small hf ht nd =
    rw (nd, bit_and-mask 7 m, bit_and-mask 7 (m / 128), et, ef, flags_kept m small)
      (ap u16 joined ∙ omega arith)
  where
    et : u8 (80 + 2 ^ 8 - m % 128) ≡ t
    et = omega arith

    ef : u8 (80 + 2 ^ 8 - m / 128 % 128) ≡ f
    ef = omega arith

    joined : bit_or (bit_or (m / 16384 * 16384) t) (f * 2 ^ 7) ≡ m / 16384 * 2 ^ 14 + (f * 128 + t)
    joined =
        bit_or_assoc (m / 16384 * 16384) t (f * 2 ^ 7)
        ∙ ap (bit_or (m / 16384 * 16384)) (bit_or-fields 7 f t (omega arith))
        ∙ bit_or_comm _ _
        ∙ bit_or-fields 14 (m / 16384) (f * 2 ^ 7 + t) (omega arith)

flip_drop : (m t : ℕ) → m < 65536 → m % 128 + t ≡ 80 → is_drop m ≡ true → flip m ≡ m / 128 * 128 + t
unfolding flip
flip_drop m t small ht d =
    rw (d, bit_and-mask 7 m, et, high_kept m small) (ap u16 joined ∙ omega arith)
  where
    et : u8 (80 + 2 ^ 8 - m % 128) ≡ t
    et = omega arith

    joined : bit_or (m / 128 * 128) t ≡ m / 128 * 128 + t
    joined = bit_or_comm _ _ ∙ bit_or-fields 7 (m / 128) t (omega arith)

-- Flipping an encoded move gives the encoding of the mirrored move.
pub flip-encode : (s : Shape) → IsOnBoard s → flip (encode s) ≡ encode (mirror s)
flip-encode (board from to true) h = ground (
  arith,
  flipped-add from,
  flipped-add to,
  promotion-sum from to,
  promotion-sum (flipped from) (flipped to),
  (encode-Reads (board from to true) h).2,
  flip_board (promotion from to) (flipped from) (flipped to),
)
flip-encode (board from to false) h = ground (
  arith,
  flipped-add from,
  flipped-add to,
  normal-sum from to,
  normal-sum (flipped from) (flipped to),
  (encode-Reads (board from to false) h).2,
  flip_board (normal from to) (flipped from) (flipped to),
)
flip-encode (dropped pt to) h = ground (
  arith,
  flipped-add to,
  drop-sum pt to,
  drop-sum pt (flipped to),
  (encode-Reads (dropped pt to) h).2,
  flip_drop (drop pt to) (flipped to),
)
