-- ===== src/Shogi/Bitboard/Count.antt =====
-- The squares of an intersection and of a union, and that PopCount counts squares.
use jhbr.Base.{ℕ, ◌+◌, ◌-◌, ◌≡◌, sym, ap, ap₂, ◌∙◌, ◌&&◌, ◌||◌, arith, ◌==◌}
use jhbr.Base.Bits.{bit, bit-lt, bit-bit_and, bit-bit_or}
use jhbr.Base.Count.{
  count_from, count_from-ext, count_from-none, count_from-append, count_from-shift, popcount_lem,
}
use jhbr.Shogi.Square.{Square}
use jhbr.Shogi.Bitboard.{Bitboard, bb_split, test, bb_and, bb_or, pop_count}
use jhbr.Shogi.Bitboard.Laws.{IsCanonical, test-digit, past_digit}

pub test-bb_and : (a b : Bitboard) (s : Square) → test (bb_and a b) s ≡ test a s && test b s
unfolding bb_and
test-bb_and a b s = ground (
  arith,
  test-digit (bb_and a b) s,
  test-digit a s,
  test-digit b s,
  bit-bit_and a.lo b.lo s,
  bit-bit_and a.hi b.hi (s - bb_split),
  bit-lt a.lo s,
  bit-lt b.lo s,
  bit-lt a.hi (s - bb_split),
  bit-lt b.hi (s - bb_split),
)

pub test-bb_or : (a b : Bitboard) (s : Square) → test (bb_or a b) s ≡ test a s || test b s
unfolding bb_or
test-bb_or a b s = ground (
  arith,
  test-digit (bb_or a b) s,
  test-digit a s,
  test-digit b s,
  bit-bit_or a.lo b.lo s,
  bit-bit_or a.hi b.hi (s - bb_split),
  bit-lt a.lo s,
  bit-lt b.lo s,
  bit-lt a.hi (s - bb_split),
  bit-lt b.hi (s - bb_split),
)

pub bb_and-IsCanonical : (a b : Bitboard) → IsCanonical a → IsCanonical (bb_and a b)
unfolding bb_and
bb_and-IsCanonical a b c = record {
  lo_past = λ j. ground (arith, bit-bit_and a.lo b.lo (63 + j), c.lo_past j);
  hi_past = λ j. ground (arith, bit-bit_and a.hi b.hi (18 + j), c.hi_past j);
}

pub bb_and-IsCanonical_right : (a b : Bitboard) → IsCanonical b → IsCanonical (bb_and a b)
unfolding bb_and
bb_and-IsCanonical_right a b c = record {
  lo_past = λ j. ground (arith, bit-bit_and a.lo b.lo (63 + j), c.lo_past j);
  hi_past = λ j. ground (arith, bit-bit_and a.hi b.hi (18 + j), c.hi_past j);
}

pub bb_or-IsCanonical : (a b : Bitboard) → IsCanonical a → IsCanonical b → IsCanonical (bb_or a b)
unfolding bb_or
bb_or-IsCanonical a b c d = record {
  lo_past = λ j. ground (arith, bit-bit_or a.lo b.lo (63 + j), c.lo_past j, d.lo_past j);
  hi_past = λ j. ground (arith, bit-bit_or a.hi b.hi (18 + j), c.hi_past j, d.hi_past j);
}

-- A word with no digit from `n` on.
word_count :
    (x n m : ℕ)
    → ((j : ℕ) → bit x (n + j) ≡ 0)
    → count_from (λ j. bit x j == 1) 0 (n + m) ≡ count_from (λ j. bit x j == 1) 0 n
word_count x n m h =
    count_from-append (λ j. bit x j == 1) n m 0
    ∙ omega (
      arith,
      count_from-none (λ j. bit x j == 1) m (0 + n) (λ j lo hi. ground (arith, past_digit n x h j)),
    )

-- PopCount counts the squares of a bitboard without stray digits.
pub pop_count_lem : (b : Bitboard) → IsCanonical b → pop_count b ≡ count_from (test b) 0 81
unfolding pop_count
pop_count_lem b c =
    ap₂ (λ x y. x + y) (popcount_lem 64 b.lo ∙ word_count b.lo 63 1 c.lo_past ∙ low)
      (popcount_lem 64 b.hi ∙ word_count b.hi 18 46 c.hi_past ∙ high)
    ∙ sym (count_from-append (test b) 63 18 0)
  where
    low : count_from (λ j. bit b.lo j == 1) 0 63 ≡ count_from (test b) 0 63
    low = count_from-ext _ _ 63 0 (λ j lo hi. ground (arith, test-digit b j))

    high : count_from (λ j. bit b.hi j == 1) 0 18 ≡ count_from (test b) (0 + 63) 18
    high =
        count_from-ext (λ j. bit b.hi j == 1) (λ j. test b (j + 63)) 18 0
          (λ j lo hi.
            let e : j + 63 - 63 ≡ j = omega arith in
            ground (arith, test-digit b (j + 63), ap (bit b.hi) e))
        ∙ count_from-shift (test b) 63 18 0
