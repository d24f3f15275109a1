-- ===== src/Base/Words.antt =====
-- Arithmetic forms of the bit operations: a mask is a remainder, disjoint fields add up, and
-- exclusive or is a group of exponent two.
use Prim.Native.Nat.{differ, ◌+◌, ◌*◌, ◌/◌, ◌%◌, ◌^◌, ◌-◌, ◌<◌, ℕ, zero, suc, min, max}
use Prim.Native.Nat.{bit_and, bit_or, bit_xor}
use mathlib.Core.Path.{◌≡◌, refl, sym, ap, ◌∙◌}
use native.Mathlib.Nat.{pow-succ', pow-zero, one-le-pow, div-one, mul-one, div-add-mod', mod-lt}
use native.Mathlib.Nat.{mul-add-mod_self_right, mod-eq_of_lt}
use native.Mathlib.Omega.{arith}
use jhbr.Base.Bits.{
  div-pow-suc, bit, bit-lt, bit-zero, bit-bit_and, bit-bit_or, bit-bit_xor, bit_ext,
}

-- A number with its lowest digit split off.
halves : (h d : ℕ) → d < 2 → (j : ℕ) → bit (h * 2 + d) (suc j) ≡ bit h j
halves h d lt j = let e : (h * 2 + d) / 2 ≡ h = omega arith in rw e

pub bit_or_step : (a b : ℕ) → bit_or a b ≡ bit_or (a / 2) (b / 2) * 2 + max (a % 2) (b % 2)
bit_or_step a b = bit_ext _ _ digit
  where
    digit : (j : ℕ) → bit (bit_or a b) j ≡ bit (bit_or (a / 2) (b / 2) * 2 + max (a % 2) (b % 2)) j
    digit zero = omega (arith, bit-bit_or a b 0)
    digit (suc j) =
        bit-bit_or a b (suc j)
        ∙ sym (bit-bit_or (a / 2) (b / 2) j)
        ∙ sym (halves (bit_or (a / 2) (b / 2)) (max (a % 2) (b % 2)) (omega arith) j)

pub bit_and_step : (a b : ℕ) → bit_and a b ≡ bit_and (a / 2) (b / 2) * 2 + min (a % 2) (b % 2)
bit_and_step a b = bit_ext _ _ digit
  where
    digit :
        (j : ℕ) → bit (bit_and a b) j ≡ bit (bit_and (a / 2) (b / 2) * 2 + min (a % 2) (b % 2)) j
    digit zero = omega (arith, bit-bit_and a b 0)
    digit (suc j) =
        bit-bit_and a b (suc j)
        ∙ sym (bit-bit_and (a / 2) (b / 2) j)
        ∙ sym (halves (bit_and (a / 2) (b / 2)) (min (a % 2) (b % 2)) (omega arith) j)

pub bit_or-zero : (a : ℕ) → bit_or a 0 ≡ a
bit_or-zero a = bit_ext _ _ (λ j. bit-bit_or a 0 j ∙ omega (arith, bit-zero j))

pub zero-bit_or : (a : ℕ) → bit_or 0 a ≡ a
zero-bit_or a = bit_ext _ _ (λ j. bit-bit_or 0 a j ∙ omega (arith, bit-zero j))

pub bit_and-zero : (a : ℕ) → bit_and a 0 ≡ 0
bit_and-zero a = bit_ext _ _ (λ j. bit-bit_and a 0 j ∙ omega (arith, bit-zero j))

pub bit_or_comm : (a b : ℕ) → bit_or a b ≡ bit_or b a
bit_or_comm a b = bit_ext _ _ (λ j. omega (arith, bit-bit_or a b j, bit-bit_or b a j))

pub bit_or_assoc : (a b c : ℕ) → bit_or (bit_or a b) c ≡ bit_or a (bit_or b c)
bit_or_assoc a b c = bit_ext _ _ λ j. omega (
  arith,
  bit-bit_or (bit_or a b) c j,
  bit-bit_or a b j,
  bit-bit_or a (bit_or b c) j,
  bit-bit_or b c j,
)

pub mul-pow-suc : (q k : ℕ) → q * 2 ^ suc k ≡ q * 2 ^ k * 2
mul-pow-suc q k = omega (arith, ap (λ (t : ℕ). q * t) (pow-succ' 2 k))

-- `r | (q << k)` where `r` fits in `k` bits.
pub bit_or-fields : (k q r : ℕ) → r < 2 ^ k → bit_or r (q * 2 ^ k) ≡ q * 2 ^ k + r
bit_or-fields zero q r h =
    let e : r ≡ 0 = omega (arith, pow-zero 2) in rw e (zero-bit_or (q * 2 ^ 0) ∙ omega arith)
bit_or-fields (suc k) q r h =
    let top : q * 2 ^ suc k / 2 ≡ q * 2 ^ k = omega (arith, mul-pow-suc q k) in
    let rest = bit_or-fields k q (r / 2) (omega (arith, pow-succ' 2 k)) in
    omega (
      arith,
      bit_or_step r (q * 2 ^ suc k),
      ap (λ (t : ℕ). bit_or (r / 2) t) top,
      rest,
      mul-pow-suc q k,
    )

mod-pow-suc : (k a : ℕ) → a % 2 ^ suc k ≡ a / 2 % 2 ^ k * 2 + a % 2
mod-pow-suc k a =
    ap (λ (t : ℕ). t % 2 ^ suc k) split
    ∙ mul-add-mod_self_right (a / 2 / 2 ^ k) (2 ^ suc k) low
    ∙ mod-eq_of_lt
        (omega (arith, mod-lt (a / 2) {m = 2 ^ k} (one-le-pow k 2 (omega arith)), pow-succ' 2 k))
  where
    low : ℕ
    low = a / 2 % 2 ^ k * 2 + a % 2

    split : a ≡ a / 2 / 2 ^ k * 2 ^ suc k + low
    split = omega (arith, div-add-mod' (a / 2) (2 ^ k), mul-pow-suc (a / 2 / 2 ^ k) k)

-- `a & ((1 << k) - 1)`.
pub bit_and-mask : (k a : ℕ) → bit_and a (2 ^ k - 1) ≡ a % 2 ^ k
bit_and-mask zero a = bit_and-zero a ∙ omega (arith, pow-zero 2)
bit_and-mask (suc k) a =
    let half : (2 ^ suc k - 1) / 2 ≡ 2 ^ k - 1 = omega (arith, pow-succ' 2 k, one-le-pow k 2) in
    omega (
      arith,
      bit_and_step a (2 ^ suc k - 1),
      ap (λ (t : ℕ). bit_and (a / 2) t) half,
      bit_and-mask k (a / 2),
      pow-succ' 2 k,
      one-le-pow k 2,
      mod-pow-suc k a,
    )

-- `a & (m << k)`.
pub bit_and-shifted : (k a m : ℕ) → bit_and a (m * 2 ^ k) ≡ bit_and (a / 2 ^ k) m * 2 ^ k
bit_and-shifted zero a m =
    rw (pow-zero 2, div-one a) (ground (arith, mul-one m, mul-one (bit_and a m)))
bit_and-shifted (suc k) a m =
    let top : m * 2 ^ suc k / 2 ≡ m * 2 ^ k = omega (arith, mul-pow-suc m k) in
    omega (
      arith,
      bit_and_step a (m * 2 ^ suc k),
      ap (λ (t : ℕ). bit_and (a / 2) t) top,
      bit_and-shifted k (a / 2) m,
      ap (λ (t : ℕ). bit_and t m * 2 ^ suc k) (div-pow-suc a k),
      mul-pow-suc m k,
      mul-pow-suc (bit_and (a / 2 / 2 ^ k) m) k,
    )

differ_assoc : (x y z : ℕ) → x < 2 → y < 2 → z < 2 → differ (differ x y) z ≡ differ x (differ y z)
differ_assoc zero y z h k l = refl
differ_assoc (suc zero) zero z h k l = refl
differ_assoc (suc zero) (suc zero) zero h k l = refl
differ_assoc (suc zero) (suc zero) (suc zero) h k l = refl
differ_assoc (suc zero) (suc zero) (suc (suc z)) h k l = absurd (omega arith)
differ_assoc (suc zero) (suc (suc y)) z h k l = absurd (omega arith)
differ_assoc (suc (suc x)) y z h k l = absurd (omega arith)

differ_comm : (x y : ℕ) → differ x y ≡ differ y x
differ_comm zero zero = refl
differ_comm zero (suc y) = refl
differ_comm (suc x) zero = refl
differ_comm (suc x) (suc y) = differ_comm x y

differ_self : (x : ℕ) → differ x x ≡ 0
differ_self zero = refl
differ_self (suc x) = differ_self x

pub xor_comm : (a b : ℕ) → bit_xor a b ≡ bit_xor b a
xor_comm a b =
    bit_ext _ _ (λ j. bit-bit_xor a b j ∙ differ_comm (bit a j) (bit b j) ∙ sym (bit-bit_xor b a j))

pub xor_assoc : (a b c : ℕ) → bit_xor (bit_xor a b) c ≡ bit_xor a (bit_xor b c)
xor_assoc a b c = bit_ext _ _ λ j.
    rw
      (
        bit-bit_xor (bit_xor a b) c j,
        bit-bit_xor a b j,
        bit-bit_xor a (bit_xor b c) j,
        bit-bit_xor b c j,
      )
      (differ_assoc _ _ _ (bit-lt a j) (bit-lt b j) (bit-lt c j))

pub xor_self : (a : ℕ) → bit_xor a a ≡ 0
xor_self a = bit_ext _ _ (λ j. bit-bit_xor a a j ∙ differ_self (bit a j) ∙ sym (bit-zero j))

pub zero-xor : (a : ℕ) → bit_xor 0 a ≡ a
zero-xor a = bit_ext _ _ (λ j. bit-bit_xor 0 a j ∙ ap (λ t. differ t (bit a j)) (bit-zero j))

pub xor-zero : (a : ℕ) → bit_xor a 0 ≡ a
xor-zero a = xor_comm a 0 ∙ zero-xor a

-- Undoing an exclusive or.
pub xor_cancel : (a b : ℕ) → bit_xor (bit_xor a b) b ≡ a
xor_cancel a b = xor_assoc a b b ∙ ap (bit_xor a) (xor_self b) ∙ xor-zero a

pub xor_right_comm : (a b c : ℕ) → bit_xor (bit_xor a b) c ≡ bit_xor (bit_xor a c) b
xor_right_comm a b c = xor_assoc a b c ∙ ap (bit_xor a) (xor_comm b c) ∙ sym (xor_assoc a c b)

differ-mod : (x y : ℕ) → x < 2 → y < 2 → differ x y ≡ (x + y) % 2
differ-mod zero zero h k = refl
differ-mod zero (suc zero) h k = refl
differ-mod zero (suc (suc y)) h k = absurd (omega arith)
differ-mod (suc zero) zero h k = refl
differ-mod (suc zero) (suc zero) h k = refl
differ-mod (suc zero) (suc (suc y)) h k = absurd (omega arith)
differ-mod (suc (suc x)) y h k = absurd (omega arith)

-- A digit as a number that no definition computes further.
pub digit : ℕ → ℕ → ℕ
digit x j = bit x j

-- Exclusive or adds digits modulo two: with this an identity of exclusive ors is `omega`'s.
pub digit-xor : (a b j : ℕ) → digit (bit_xor a b) j ≡ (digit a j + digit b j) % 2
unfolding digit
digit-xor a b j = bit-bit_xor a b j ∙ differ-mod (bit a j) (bit b j) (bit-lt a j) (bit-lt b j)

pub digit-lt : (a j : ℕ) → digit a j < 2
unfolding digit
digit-lt a j = bit-lt a j

pub digit-zero : (j : ℕ) → digit 0 j ≡ 0
unfolding digit
digit-zero j = bit-zero j

pub digit_ext : (x y : ℕ) → ((j : ℕ) → digit x j ≡ digit y j) → x ≡ y
unfolding digit
digit_ext x y h = bit_ext x y h

pub ruleset xor_laws = (arith, digit-xor, digit-lt, digit-zero)
