-- ===== src/Shogi/Hand/Dominates.antt =====
-- Hand::Dominates compares all seven counts by one subtraction: a count that is too small borrows
-- from the gap above its field.
use jhbr.Base.{
  ℕ, suc, ◌+◌, ◌-◌, ◌*◌, ◌/◌, ◌%◌, ◌^◌, ◌<◌, ◌≤◌, ◌≡◌, ap, true, arith, ◌↔◌, ◌⊎◌, inl, inr, bit_and,
  eq→==, ==→eq,
}
use native.Mathlib.Nat.{pow-succ'}
use jhbr.Base.Bits.{div-pow-suc}
use jhbr.Base.Words.{bit_and-mask, bit_and-shifted, bit_and_step}
use jhbr.Shogi.Hand.{u32, dominates, borrow_mask}
use jhbr.Shogi.Hand.Count.{Counts, Fits, pack}

-- `d` is `x - y` in a word of modulus `n`.
abbrev Wraps : ℕ → ℕ → ℕ → ℕ → Type 0
Wraps n x y d = (d < n) × ((x ≡ y + d) ⊎ (x + n ≡ y + d))

-- A field of eight bits with its gap bit at 5, and fields of four bits with theirs at 3 or 2.
wide_field :
    (n a b x y d : ℕ)
    → a < 32
    → b < 32
    → Wraps (256 * n) (a + 256 * x) (b + 256 * y) d
    → ((d / 32 % 2 ≡ 0) ↔ (b ≤ a)) × (b ≤ a → Wraps n x y (d / 256))
wide_field n a b x y d ha hb (lt, inl e) =
    ((λ z. omega arith, λ z. omega arith), λ z. (omega arith, inl (omega arith)))
wide_field n a b x y d ha hb (lt, inr e) = ((λ z. omega arith, λ z. omega arith), λ z. omega arith)

three_field :
    (n a b x y d : ℕ)
    → a < 8
    → b < 8
    → Wraps (16 * n) (a + 16 * x) (b + 16 * y) d
    → ((d / 8 % 2 ≡ 0) ↔ (b ≤ a)) × (b ≤ a → Wraps n x y (d / 16))
three_field n a b x y d ha hb (lt, inl e) =
    ((λ z. omega arith, λ z. omega arith), λ z. (omega arith, inl (omega arith)))
three_field n a b x y d ha hb (lt, inr e) = ((λ z. omega arith, λ z. omega arith), λ z. omega arith)

two_field :
    (n a b x y d : ℕ)
    → a < 4
    → b < 4
    → Wraps (16 * n) (a + 16 * x) (b + 16 * y) d
    → ((d / 4 % 2 ≡ 0) ↔ (b ≤ a)) × (b ≤ a → Wraps n x y (d / 16))
two_field n a b x y d ha hb (lt, inl e) =
    ((λ z. omega arith, λ z. omega arith), λ z. (omega arith, inl (omega arith)))
two_field n a b x y d ha hb (lt, inr e) = ((λ z. omega arith, λ z. omega arith), λ z. omega arith)

-- A mask bit at 0 and the rest of the mask above it.
low_then :
    (k x m : ℕ) → bit_and x (1 + m * 2 ^ suc k) ≡ bit_and (x / 2 ^ suc k) m * 2 ^ suc k + x % 2
low_then k x m =
    let half : (1 + m * 2 ^ suc k) / 2 ≡ m * 2 ^ k = omega (arith, twice) in
    let low : (1 + m * 2 ^ suc k) % 2 ≡ 1 = omega (arith, twice) in
    omega (
      arith,
      bit_and_step x (1 + m * 2 ^ suc k),
      ap (λ (t : ℕ). bit_and (x / 2) t) half,
      bit_and-shifted k (x / 2) m,
      ap (λ (t : ℕ). bit_and t m * 2 ^ suc k) (div-pow-suc x k),
      ap (λ (t : ℕ). bit_and (x / 2 / 2 ^ k) m * t) (pow-succ' 2 k),
    )
  where
    twice : m * 2 ^ suc k ≡ m * 2 ^ k * 2
    twice = omega (arith, ap (λ (t : ℕ). m * t) (pow-succ' 2 k))

-- The masked difference, gap by gap.
mask_gaps :
    (d : ℕ)
    → bit_and d borrow_mask
      ≡ (d / 2 ^ 5 % 2) * 2 ^ 5
        + (d / 2 ^ 11 % 2) * 2 ^ 11
        + (d / 2 ^ 15 % 2) * 2 ^ 15
        + (d / 2 ^ 19 % 2) * 2 ^ 19
        + (d / 2 ^ 22 % 2) * 2 ^ 22
        + (d / 2 ^ 26 % 2) * 2 ^ 26
        + (d / 2 ^ 31 % 2) * 2 ^ 31
mask_gaps d = omega (
  arith,
  bit_and-shifted 5 d (borrow_mask / 2 ^ 5),
  low_then 5 (d / 2 ^ 5) (borrow_mask / 2 ^ 11),
  low_then 3 (d / 2 ^ 5 / 2 ^ 6) (borrow_mask / 2 ^ 15),
  low_then 3 (d / 2 ^ 5 / 2 ^ 6 / 2 ^ 4) (borrow_mask / 2 ^ 19),
  low_then 2 (d / 2 ^ 5 / 2 ^ 6 / 2 ^ 4 / 2 ^ 4) (borrow_mask / 2 ^ 22),
  low_then 3 (d / 2 ^ 5 / 2 ^ 6 / 2 ^ 4 / 2 ^ 4 / 2 ^ 3) (borrow_mask / 2 ^ 26),
  low_then 4 (d / 2 ^ 5 / 2 ^ 6 / 2 ^ 4 / 2 ^ 4 / 2 ^ 3 / 2 ^ 4) (borrow_mask / 2 ^ 31),
  bit_and-mask 1 (d / 2 ^ 5 / 2 ^ 6 / 2 ^ 4 / 2 ^ 4 / 2 ^ 3 / 2 ^ 4 / 2 ^ 5),
)

-- At least as many of every type.
abbrev pub Covers : Counts → Counts → Type 0
Covers a b =
    (b.pawns ≤ a.pawns)
    × (b.lances ≤ a.lances)
    × (b.knights ≤ a.knights)
    × (b.silvers ≤ a.silvers)
    × (b.bishops ≤ a.bishops)
    × (b.rooks ≤ a.rooks)
    × (b.golds ≤ a.golds)

-- What stands above the pawns, the lances, and so on.
abbrev from_golds : Counts → ℕ
from_golds c = c.golds + 16 * 0

abbrev from_rooks : Counts → ℕ
from_rooks c = c.rooks + 16 * from_golds c

abbrev from_bishops : Counts → ℕ
from_bishops c = c.bishops + 16 * from_rooks c

abbrev from_silvers : Counts → ℕ
from_silvers c = c.silvers + 16 * from_bishops c

abbrev from_knights : Counts → ℕ
from_knights c = c.knights + 16 * from_silvers c

abbrev from_lances : Counts → ℕ
from_lances c = c.lances + 16 * from_knights c

module _ (a b : Counts) (fa : Fits a) (fb : Fits b) (d : ℕ)
    (w : Wraps (2 ^ 32) (a.pawns + 256 * from_lances a) (b.pawns + 256 * from_lances b) d) where
  pawns_gap :
      ((d / 32 % 2 ≡ 0) ↔ (b.pawns ≤ a.pawns))
      × (b.pawns ≤ a.pawns → Wraps (2 ^ 24) (from_lances a) (from_lances b) (d / 256))
  pawns_gap =
      wide_field (2 ^ 24) a.pawns b.pawns (from_lances a) (from_lances b) (d) (omega arith)
        (omega arith) w

  lances_gap :
      b.pawns ≤ a.pawns
      → ((d / 256 / 8 % 2 ≡ 0) ↔ (b.lances ≤ a.lances))
        × (b.lances ≤ a.lances → Wraps (2 ^ 20) (from_knights a) (from_knights b) (d / 256 / 16))
  lances_gap p0 =
      three_field (2 ^ 20) a.lances b.lances (from_knights a) (from_knights b) (d / 256)
        (omega arith) (omega arith) (pawns_gap.1 p0)

  knights_gap :
      b.pawns ≤ a.pawns
      → b.lances ≤ a.lances
      → ((d / 256 / 16 / 8 % 2 ≡ 0) ↔ (b.knights ≤ a.knights))
        × (b.knights ≤ a.knights
            → Wraps (2 ^ 16) (from_silvers a) (from_silvers b) (d / 256 / 16 / 16))
  knights_gap p0 p1 =
      three_field (2 ^ 16) a.knights b.knights (from_silvers a) (from_silvers b) (d / 256 / 16)
        (omega arith) (omega arith) ((lances_gap p0).1 p1)

  silvers_gap :
      b.pawns ≤ a.pawns
      → b.lances ≤ a.lances
      → b.knights ≤ a.knights
      → ((d / 256 / 16 / 16 / 8 % 2 ≡ 0) ↔ (b.silvers ≤ a.silvers))
        × (b.silvers ≤ a.silvers
            → Wraps (2 ^ 12) (from_bishops a) (from_bishops b) (d / 256 / 16 / 16 / 16))
  silvers_gap p0 p1 p2 =
      three_field (2 ^ 12) a.silvers b.silvers (from_bishops a) (from_bishops b) (d / 256 / 16 / 16)
        (omega arith) (omega arith) ((knights_gap p0 p1).1 p2)

  bishops_gap :
      b.pawns ≤ a.pawns
      → b.lances ≤ a.lances
      → b.knights ≤ a.knights
      → b.silvers ≤ a.silvers
      → ((d / 256 / 16 / 16 / 16 / 4 % 2 ≡ 0) ↔ (b.bishops ≤ a.bishops))
        × (b.bishops ≤ a.bishops
            → Wraps (2 ^ 8) (from_rooks a) (from_rooks b) (d / 256 / 16 / 16 / 16 / 16))
  bishops_gap p0 p1 p2 p3 =
      two_field (2 ^ 8) a.bishops b.bishops (from_rooks a) (from_rooks b) (d / 256 / 16 / 16 / 16)
        (omega arith) (omega arith) ((silvers_gap p0 p1 p2).1 p3)

  rooks_gap :
      b.pawns ≤ a.pawns
      → b.lances ≤ a.lances
      → b.knights ≤ a.knights
      → b.silvers ≤ a.silvers
      → b.bishops ≤ a.bishops
      → ((d / 256 / 16 / 16 / 16 / 16 / 4 % 2 ≡ 0) ↔ (b.rooks ≤ a.rooks))
        × (b.rooks ≤ a.rooks
            → Wraps (2 ^ 4) (from_golds a) (from_golds b) (d / 256 / 16 / 16 / 16 / 16 / 16))
  rooks_gap p0 p1 p2 p3 p4 =
      two_field (2 ^ 4) a.rooks b.rooks (from_golds a) (from_golds b) (d / 256 / 16 / 16 / 16 / 16)
        (omega arith) (omega arith) ((bishops_gap p0 p1 p2 p3).1 p4)

  golds_gap :
      b.pawns ≤ a.pawns
      → b.lances ≤ a.lances
      → b.knights ≤ a.knights
      → b.silvers ≤ a.silvers
      → b.bishops ≤ a.bishops
      → b.rooks ≤ a.rooks
      → ((d / 256 / 16 / 16 / 16 / 16 / 16 / 8 % 2 ≡ 0) ↔ (b.golds ≤ a.golds))
        × (b.golds ≤ a.golds → Wraps (2 ^ 0) 0 0 (d / 256 / 16 / 16 / 16 / 16 / 16 / 16))
  golds_gap p0 p1 p2 p3 p4 p5 =
      three_field (2 ^ 0) a.golds b.golds 0 0 (d / 256 / 16 / 16 / 16 / 16 / 16) (omega arith)
        (omega arith) ((rooks_gap p0 p1 p2 p3 p4).1 p5)

  all_gaps_closed : bit_and d borrow_mask ≡ 0 → Covers a b
  all_gaps_closed z = (p0, p1, p2, p3, p4, p5, p6)
    where
      p0 : b.pawns ≤ a.pawns
      p0 = pawns_gap.0.0 (omega (arith, mask_gaps d))

      p1 : b.lances ≤ a.lances
      p1 = (lances_gap p0).0.0 (omega (arith, mask_gaps d))

      p2 : b.knights ≤ a.knights
      p2 = (knights_gap p0 p1).0.0 (omega (arith, mask_gaps d))

      p3 : b.silvers ≤ a.silvers
      p3 = (silvers_gap p0 p1 p2).0.0 (omega (arith, mask_gaps d))

      p4 : b.bishops ≤ a.bishops
      p4 = (bishops_gap p0 p1 p2 p3).0.0 (omega (arith, mask_gaps d))

      p5 : b.rooks ≤ a.rooks
      p5 = (rooks_gap p0 p1 p2 p3 p4).0.0 (omega (arith, mask_gaps d))

      p6 : b.golds ≤ a.golds
      p6 = (golds_gap p0 p1 p2 p3 p4 p5).0.0 (omega (arith, mask_gaps d))

  all_gaps_opened : Covers a b → bit_and d borrow_mask ≡ 0
  all_gaps_opened (p0, p1, p2, p3, p4, p5, p6) = omega (
    arith,
    mask_gaps d,
    pawns_gap.0.1 p0,
    (lances_gap p0).0.1 p1,
    (knights_gap p0 p1).0.1 p2,
    (silvers_gap p0 p1 p2).0.1 p3,
    (bishops_gap p0 p1 p2 p3).0.1 p4,
    (rooks_gap p0 p1 p2 p3 p4).0.1 p5,
    (golds_gap p0 p1 p2 p3 p4 p5).0.1 p6,
  )

module _ (a b : Counts) (fa : Fits a) (fb : Fits b) where
  difference : ℕ
  difference = u32 (pack a + 2 ^ 32 - pack b)

  difference-Wraps :
      Wraps (2 ^ 32) (a.pawns + 256 * from_lances a) (b.pawns + 256 * from_lances b) difference
  unfolding difference
  difference-Wraps = omega arith

  -- `Dominates` holds exactly when every one of the seven counts is at least the other's, for hands
  -- whose counts fit their fields.
  pub dominates_iff : (dominates (pack a) (pack b) ≡ true) ↔ Covers a b
  unfolding dominates difference
  dominates_iff = (
    λ e. all_gaps_closed a b fa fb difference difference-Wraps (==→eq _ 0 e),
    λ c. eq→== _ 0 (all_gaps_opened a b fa fb difference difference-Wraps c),
  )
