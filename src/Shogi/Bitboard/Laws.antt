-- ===== src/Shogi/Bitboard/Laws.antt =====
-- A bitboard is the set of the squares that it tests true for, and has no other content.
use jhbr.Base.{
  ℕ, ◌+◌, ◌-◌, ◌/◌, ◌^◌, ◌<◌, ◌≤◌, ◌≡◌, ap, subst, bit_and, bit_or, false, not, ◌||◌, ◌&&◌, arith,
  ◌==◌, ltb, if◌then◌else◌,
}
use jhbr.Base.Bits.{
  bit, bit-lt, bit-zero, bit-eq, bit-bit_and, bit-bit_or, bit_ext, bit-pow_self, bit-pow_ne,
  bit-complement, pow-lt,
}
use jhbr.Base.Words.{bit_and-mask, bit_and-shifted}
use native.Mathlib.Nat.{one-le-pow}
use jhbr.Shogi.Square.{Square}
use jhbr.Shogi.Bitboard.{Bitboard, bb_split, bb_zero, test, set_square, clear_square}

-- `x & (1 << k)` is a test of one digit.
masked : (k x : ℕ) → not (bit_and x (2 ^ k) == 0) ≡ (bit x k == 1)
masked k x =
    ground (arith, bit_and-shifted k x 1, bit_and-mask 1 (x / 2 ^ k), bit-eq x k, pow-pos k)
  where
    pow-pos : (k : ℕ) → 0 < 2 ^ k
    pow-pos k = one-le-pow k 2 (omega arith)

word_set : (x k j : ℕ) → bit (bit_or x (2 ^ k)) j ≡ (if k == j then 1 else bit x j)
word_set x k j = ground (arith, bit-bit_or x (2 ^ k) j, bit-pow_self k, bit-pow_ne k j, bit-lt x j)

word_clear :
    (x k j : ℕ)
    → k < 64
    → j < 64
    → bit (bit_and x (2 ^ 64 - 1 - 2 ^ k)) j ≡ (if k == j then 0 else bit x j)
word_clear x k j hk hj = ground (
  arith,
  bit-bit_and x (2 ^ 64 - 1 - 2 ^ k) j,
  bit-complement 64 (2 ^ k) j (pow-lt k 64 hk) hj,
  bit-pow_self k,
  bit-pow_ne k j,
  bit-lt x j,
)

-- A test reads one digit of one word.
pub test-digit :
    (b : Bitboard) (sq : Square)
    → test b sq ≡ (if ltb sq bb_split then bit b.lo sq == 1 else bit b.hi (sq - bb_split) == 1)
unfolding test
test-digit b sq = ground (arith, masked sq b.lo, masked (sq - bb_split) b.hi)

-- Setting a square adds it to the set and changes no other.
pub test-set_square : (b : Bitboard) (s t : Square) → test (set_square b s) t ≡ (s == t) || test b t
unfolding set_square
test-set_square b s t = ground (
  arith,
  test-digit (set_square b s) t,
  test-digit b t,
  word_set b.lo s t,
  word_set b.hi (s - bb_split) (t - bb_split),
)

-- Clearing a square takes it out of the set and changes no other.
pub test-clear_square :
    (b : Bitboard) (s t : Square)
    → s < 81
    → t < 81
    → test (clear_square b s) t ≡ not (s == t) && test b t
unfolding clear_square
test-clear_square b s t hs ht = ground (
  arith,
  test-digit (clear_square b s) t,
  test-digit b t,
  word_clear b.lo s t,
  word_clear b.hi (s - bb_split) (t - bb_split),
)

pub test-bb_zero : (t : Square) → test bb_zero t ≡ false
test-bb_zero t = ground (arith, test-digit bb_zero t, bit-zero t, bit-zero (t - bb_split))

-- No digit outside the 81 squares.
pub record IsCanonical (b : Bitboard) : Type 0 where
  pub lo_past : (j : ℕ) → bit b.lo (63 + j) ≡ 0
  pub hi_past : (j : ℕ) → bit b.hi (18 + j) ≡ 0

pub bb_zero-IsCanonical : IsCanonical bb_zero
bb_zero-IsCanonical = record { lo_past = λ j. bit-zero (63 + j); hi_past = λ j. bit-zero (18 + j) }

pub set_square-IsCanonical :
    (b : Bitboard) (s : Square) → s < 81 → IsCanonical b → IsCanonical (set_square b s)
unfolding set_square
set_square-IsCanonical b s h c = record {
  lo_past = λ j. ground (arith, word_set b.lo s (63 + j), c.lo_past j);
  hi_past = λ j. ground (arith, word_set b.hi (s - bb_split) (18 + j), c.hi_past j);
}

pub clear_square-IsCanonical :
    (b : Bitboard) (s : Square) → s < 81 → IsCanonical b → IsCanonical (clear_square b s)
unfolding clear_square
clear_square-IsCanonical b s h c = record {
  lo_past = λ j. ground (arith, bit-bit_and b.lo (2 ^ 64 - 1 - 2 ^ s) (63 + j), c.lo_past j);
  hi_past =
      λ j. ground (arith, bit-bit_and b.hi (2 ^ 64 - 1 - 2 ^ (s - bb_split)) (18 + j), c.hi_past j);
}

digit_of_test : (x y j : ℕ) → (bit x j == 1) ≡ (bit y j == 1) → bit x j ≡ bit y j
digit_of_test x y j e = ground (arith, bit-lt x j, bit-lt y j)

pub past_digit : (w x : ℕ) → ((j : ℕ) → bit x (w + j) ≡ 0) → (j : ℕ) → w ≤ j → bit x j ≡ 0
past_digit w x p j h =
    let e : w + (j - w) ≡ j = omega arith in subst (λ t. bit x t ≡ 0) e (p (j - w))

-- Two bitboards without stray digits that test alike on the board are equal.
pub bitboard_ext :
    (a b : Bitboard)
    → IsCanonical a
    → IsCanonical b
    → ((t : Square) → t < 81 → test a t ≡ test b t)
    → a ≡ b
bitboard_ext a b ca cb h = λ i. record { lo = los i; hi = his i }
  where
    lo_digit : (j : ℕ) → bit a.lo j ≡ bit b.lo j
    lo_digit j = ground (
      arith,
      h j,
      test-digit a j,
      test-digit b j,
      digit_of_test a.lo b.lo j,
      past_digit 63 a.lo ca.lo_past j,
      past_digit 63 b.lo cb.lo_past j,
    )

    hi_digit : (j : ℕ) → bit a.hi j ≡ bit b.hi j
    hi_digit j = ground (
      arith,
      h (j + 63),
      test-digit a (j + 63),
      test-digit b (j + 63),
      ap (bit a.hi) back,
      ap (bit b.hi) back,
      digit_of_test a.hi b.hi j,
      past_digit 18 a.hi ca.hi_past j,
      past_digit 18 b.hi cb.hi_past j,
    )
      where
        back : j + 63 - 63 ≡ j
        back = omega arith

    los : a.lo ≡ b.lo
    los = bit_ext _ _ lo_digit

    his : a.hi ≡ b.hi
    his = bit_ext _ _ hi_digit
