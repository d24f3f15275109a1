-- ===== src/Base/Bits.antt =====
-- The binary digits of a number, and what the bit operations do to each of them.
use Prim.Native.Nat.{digits, differ, bit_and-bitwise, bit_or-bitwise, bit_xor-bitwise}
use Prim.Native.Nat.{ℕ, zero, suc, ◌+◌, ◌-◌, ◌*◌, ◌/◌, ◌%◌, ◌^◌, ◌≤◌, ◌<◌, min, max}
use Prim.Native.Nat.{bit_and, bit_or, bit_xor}
use mathlib.Core.Path.{◌≡◌, refl, sym, ap, ◌∙◌}
use mathlib.Core.Logic.{◌≢◌}
use native.Mathlib.Nat.{pow-succ', pow-zero, div-div-eq-div-mul, div-one, one-le-pow}
use native.Mathlib.Omega.{arith}

-- Digit `j` of `x`, that is `(x >> j) & 1`.
abbrev pub bit : ℕ → ℕ → ℕ
bit x zero = x % 2
bit x (suc j) = bit (x / 2) j

pub bit-lt : (x j : ℕ) → bit x j < 2
bit-lt x zero = omega arith
bit-lt x (suc j) = bit-lt (x / 2) j

pub bit-zero : (j : ℕ) → bit 0 j ≡ 0
bit-zero zero = refl
bit-zero (suc j) = bit-zero j

pub div-pow-suc : (x j : ℕ) → x / 2 ^ suc j ≡ x / 2 / 2 ^ j
div-pow-suc x j = rw (pow-succ' 2 j) (sym (div-div-eq-div-mul x 2 (2 ^ j)))

-- The shift-and-mask form.
pub bit-eq : (x j : ℕ) → x / 2 ^ j % 2 ≡ bit x j
bit-eq x zero = rw (pow-zero 2, div-one x)
bit-eq x (suc j) = rw (div-pow-suc x j) (bit-eq (x / 2) j)

module _ (z : ℕ → ℕ) (f : ℕ → ℕ → ℕ) (small : (x y : ℕ) → x < 2 → y < 2 → f x y < 2)
    (exhausted : (b j : ℕ) → bit (z b) j ≡ f 0 (bit b j)) where
  -- A digitwise operation acts on each digit; `k` is its fuel.
  bit-digits : (k a b j : ℕ) → a ≤ k → bit (digits z f k a b) j ≡ f (bit a j) (bit b j)
  bit-digits zero zero b j h = exhausted b j ∙ ap (λ t. f t (bit b j)) (sym (bit-zero j))
  bit-digits zero (suc a) b j h = absurd (omega arith)
  bit-digits (suc k) zero b j h = exhausted b j ∙ ap (λ t. f t (bit b j)) (sym (bit-zero j))
  bit-digits (suc k) (suc a) b zero h =
      omega (arith, small (suc a % 2) (b % 2) (omega arith) (omega arith))
  bit-digits (suc k) (suc a) b (suc j) h =
      rw halved (bit-digits k (suc a / 2) (b / 2) j (omega arith))
    where
      low : ℕ
      low = f (suc a % 2) (b % 2)

      halved : (digits z f k (suc a / 2) (b / 2) * 2 + low) / 2 ≡ digits z f k (suc a / 2) (b / 2)
      halved = omega (arith, small (suc a % 2) (b % 2) (omega arith) (omega arith))

differ-lt : (x y : ℕ) → x < 2 → y < 2 → differ x y < 2
differ-lt zero y h k = k
differ-lt (suc zero) zero h k = omega arith
differ-lt (suc zero) (suc y) h k = omega arith
differ-lt (suc (suc x)) y h k = absurd (omega arith)

pub bit-bit_and : (a b j : ℕ) → bit (bit_and a b) j ≡ min (bit a j) (bit b j)
bit-bit_and a b j = rw (bit_and-bitwise a b) (
    bit-digits (λ b. 0) min (λ x y h k. omega arith) (λ b j. rw (bit-zero j) (omega arith)) a a b j
      (omega arith))

pub bit-bit_or : (a b j : ℕ) → bit (bit_or a b) j ≡ max (bit a j) (bit b j)
bit-bit_or a b j =
    rw (bit_or-bitwise a b)
      (bit-digits (λ b. b) max (λ x y h k. omega arith) (λ b j. omega arith) a a b j (omega arith))

pub bit-bit_xor : (a b j : ℕ) → bit (bit_xor a b) j ≡ differ (bit a j) (bit b j)
bit-bit_xor a b j =
    rw (bit_xor-bitwise a b)
      (bit-digits (λ b. b) differ differ-lt (λ b j. refl) a a b j (omega arith))

bit_ext_below : (n x y : ℕ) → x ≤ n → y ≤ n → ((j : ℕ) → bit x j ≡ bit y j) → x ≡ y
bit_ext_below zero x y h k e = omega arith
bit_ext_below (suc n) x y h k e =
    omega (arith, e 0, bit_ext_below n (x / 2) (y / 2) (omega arith) (omega arith) (λ j. e (suc j)))

-- A number is determined by its digits.
pub bit_ext : (x y : ℕ) → ((j : ℕ) → bit x j ≡ bit y j) → x ≡ y
bit_ext x y e = bit_ext_below (x + y) x y (omega arith) (omega arith) e

pub bit-pow_self : (j : ℕ) → bit (2 ^ j) j ≡ 1
bit-pow_self zero = refl
bit-pow_self (suc j) = rw (← div2) (bit-pow_self j)
  where
    div2 : 2 ^ j ≡ 2 ^ suc j / 2
    div2 = omega (arith, pow-succ' 2 j)

pub bit-pow_ne : (i j : ℕ) → i ≢ j → bit (2 ^ i) j ≡ 0
bit-pow_ne zero zero h = absurd (h refl)
bit-pow_ne zero (suc j) h = bit-zero j
bit-pow_ne (suc i) zero h = omega (arith, pow-succ' 2 i)
bit-pow_ne (suc i) (suc j) h = rw (← div2) (bit-pow_ne i j (λ e. h (ap suc e)))
  where
    div2 : 2 ^ i ≡ 2 ^ suc i / 2
    div2 = omega (arith, pow-succ' 2 i)

-- The complement within `w` digits.
pub bit-complement : (w x j : ℕ) → x < 2 ^ w → j < w → bit (2 ^ w - 1 - x) j + bit x j ≡ 1
bit-complement zero x j h k = absurd (omega arith)
bit-complement (suc w) x zero h k = omega (arith, pow-succ' 2 w)
bit-complement (suc w) x (suc j) h k =
    rw halved (bit-complement w (x / 2) j (omega (arith, pow-succ' 2 w)) (omega arith))
  where
    halved : (2 ^ suc w - 1 - x) / 2 ≡ 2 ^ w - 1 - x / 2
    halved = omega (arith, pow-succ' 2 w)

pub pow-lt : (i w : ℕ) → i < w → 2 ^ i < 2 ^ w
pow-lt i zero h = absurd (omega arith)
pow-lt zero (suc w) h = omega (arith, pow-succ' 2 w, one-le-pow w 2)
pow-lt (suc i) (suc w) h = omega (arith, pow-succ' 2 w, pow-succ' 2 i, pow-lt i w (omega arith))

-- Digits past the width.
pub bit-past : (w x j : ℕ) → x < 2 ^ w → bit x (w + j) ≡ 0
bit-past zero x j h =
    let e : x ≡ 0 = omega (arith, pow-zero 2) in
    let z : 0 + j ≡ j = omega arith in rw (e, z) (bit-zero j)
bit-past (suc w) x j h =
    let e : suc w + j ≡ suc (w + j) = omega arith in
    rw e (bit-past w (x / 2) j (omega (arith, pow-succ' 2 w)))
