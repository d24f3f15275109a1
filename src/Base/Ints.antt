-- ===== src/Base/Ints.antt =====
-- Machine integers: 64-bit wrap-around and signed 16-bit values.
use Prim.Native.Nat.{ℕ, suc, ◌+◌, ◌-◌, ◌*◌, ◌/◌, ◌%◌, ◌<◌, ◌≤◌, ◌^◌}
use mathlib.Core.Path.{◌≡◌}
use mathlib.Core.Bool.{Bool, true, false}
use native.Mathlib.Omega.{arith}
use jhbr.Base.Tests.{ltb, if◌then◌else◌, Bool-cases}
use mathlib.Core.Logic.{◌⊎◌, inl, inr}
use mathlib.Core.Path.{ap}

pub data ℤ : Type 0 where
  pos negsuc : ℕ → ℤ

abbrev pub ltℤ : ℤ → ℤ → Bool
ltℤ (pos a) (pos b) = ltb a b
ltℤ (pos a) (negsuc b) = false
ltℤ (negsuc a) (pos b) = true
ltℤ (negsuc a) (negsuc b) = ltb b a

abbrev pub u64 : ℕ → ℕ
u64 n = n % 2 ^ 64

-- `static_cast<int16_t>` and back.
unfoldable pub int16_of : ℕ → ℤ
int16_of raw = if ltb raw 32768 then pos raw else negsuc (65535 - raw)

unfoldable pub uint16_of : ℤ → ℕ
uint16_of (pos n) = n % 65536
uint16_of (negsuc n) = 65535 - n % 65536

-- The values of an int16_t.
abbrev pub IsInt16 : ℤ → Type 0
IsInt16 (pos n) = n < 32768
IsInt16 (negsuc n) = n < 32768

pub int16_of-uint16_of : (v : ℤ) → IsInt16 v → int16_of (uint16_of v) ≡ v
unfolding int16_of uint16_of
int16_of-uint16_of (pos n) h = elim (Bool-cases (ltb (n % 65536) 32768)) [
  | inl e ↦ rw e (ap pos (omega arith))
  | inr e ↦ absurd ground (arith, e)
]
int16_of-uint16_of (negsuc n) h = elim (Bool-cases (ltb (65535 - n % 65536) 32768)) [
  | inl e ↦ absurd ground (arith, e)
  | inr e ↦ rw e (ap negsuc (omega arith))
]

pub uint16_of-lt : (v : ℤ) → uint16_of v < 65536
unfolding uint16_of
uint16_of-lt (pos n) = omega arith
uint16_of-lt (negsuc n) = omega arith

-- The operations of `int` and `int64_t`, of values that do not overflow.
abbrev pub pos_part : ℤ → ℕ
pos_part (pos n) = n
pos_part (negsuc n) = 0

abbrev pub neg_part : ℤ → ℕ
neg_part (pos n) = 0
neg_part (negsuc n) = suc n

-- a - b, as an integer.
abbrev pub sub_ℕ : ℕ → ℕ → ℤ
sub_ℕ a b = if ltb a b then negsuc (b - a - 1) else pos (a - b)

infixl 65 ◌+ℤ◌ ◌-ℤ◌
infixl 70 ◌*ℤ◌
infix 50 ◌≤ℤ◌ ◌<ℤ◌
unfoldable pub ◌+ℤ◌ : ℤ → ℤ → ℤ
a +ℤ b = sub_ℕ (pos_part a + pos_part b) (neg_part a + neg_part b)

unfoldable pub ◌-ℤ◌ : ℤ → ℤ → ℤ
a -ℤ b = sub_ℕ (pos_part a + neg_part b) (neg_part a + pos_part b)

unfoldable pub ◌*ℤ◌ : ℤ → ℤ → ℤ
a *ℤ b =
    sub_ℕ (pos_part a * pos_part b + neg_part a * neg_part b)
      (pos_part a * neg_part b + neg_part a * pos_part b)

-- a / k for k > 0, rounded towards zero.
unfoldable pub quot : ℤ → ℕ → ℤ
quot a k = sub_ℕ (pos_part a / k) (neg_part a / k)

abbrev pub ◌≤ℤ◌ : ℤ → ℤ → Type 0
a ≤ℤ b = pos_part a + neg_part b ≤ pos_part b + neg_part a

abbrev pub ◌<ℤ◌ : ℤ → ℤ → Type 0
a <ℤ b = pos_part a + neg_part b < pos_part b + neg_part a

-- std::max, std::min and std::clamp.
unfoldable pub max_ℤ : ℤ → ℤ → ℤ
max_ℤ a b = if ltℤ a b then b else a

unfoldable pub min_ℤ : ℤ → ℤ → ℤ
min_ℤ a b = if ltℤ b a then b else a

unfoldable pub clamp : ℤ → ℤ → ℤ → ℤ
clamp v lo hi = if ltℤ v lo then lo else if ltℤ hi v then hi else v

-- One lemma for each operation lets `omega` work with the operations shut.
pub +ℤ_parts :
    (a b : ℤ)
    → pos_part (a +ℤ b) + neg_part a + neg_part b ≡ neg_part (a +ℤ b) + pos_part a + pos_part b
unfolding ◌+ℤ◌
+ℤ_parts a b = ground arith

pub -ℤ_parts :
    (a b : ℤ)
    → pos_part (a -ℤ b) + neg_part a + pos_part b ≡ neg_part (a -ℤ b) + pos_part a + neg_part b
unfolding ◌-ℤ◌
-ℤ_parts a b = ground arith

pub ltℤ→lt : (a b : ℤ) → ltℤ a b ≡ true → a <ℤ b
ltℤ→lt (pos a) (pos b) h = ground arith
ltℤ→lt (pos a) (negsuc b) h = ground arith
ltℤ→lt (negsuc a) (pos b) h = ground arith
ltℤ→lt (negsuc a) (negsuc b) h = ground arith

pub not_ltℤ→le : (a b : ℤ) → ltℤ a b ≡ false → b ≤ℤ a
not_ltℤ→le (pos a) (pos b) h = ground arith
not_ltℤ→le (pos a) (negsuc b) h = ground arith
not_ltℤ→le (negsuc a) (pos b) h = ground arith
not_ltℤ→le (negsuc a) (negsuc b) h = ground arith

pub ltℤ-cases : (a b : ℤ) → ((ltℤ a b ≡ true) × (a <ℤ b)) ⊎ ((ltℤ a b ≡ false) × (b ≤ℤ a))
ltℤ-cases a b = elim (Bool-cases (ltℤ a b)) [
  | inl e ↦ inl (e, ltℤ→lt a b e)
  | inr e ↦ inr (e, not_ltℤ→le a b e)
]

pub le→not_ltℤ : (a b : ℤ) → b ≤ℤ a → ltℤ a b ≡ false
le→not_ltℤ a b h = elim (ltℤ-cases a b) [ inl (e, l) ↦ absurd (omega arith) | inr (e, l) ↦ e ]

pub lt→ltℤ : (a b : ℤ) → a <ℤ b → ltℤ a b ≡ true
lt→ltℤ a b h = elim (ltℤ-cases a b) [ inl (e, l) ↦ e | inr (e, l) ↦ absurd (omega arith) ]

-- The larger of two, the smaller, and what lies between bounds.
pub max_ℤ_bounds : (a b : ℤ) → (a ≤ℤ max_ℤ a b) × (b ≤ℤ max_ℤ a b)
unfolding max_ℤ
max_ℤ_bounds a b = elim (ltℤ-cases a b) [
  | inl (e, l) ↦ rw e (omega arith, omega arith)
  | inr (e, l) ↦ rw e (omega arith, omega arith)
]

pub max_ℤ_least : (a b c : ℤ) → a ≤ℤ c → b ≤ℤ c → max_ℤ a b ≤ℤ c
unfolding max_ℤ
max_ℤ_least a b c p q = elim (ltℤ-cases a b) [
  | inl (e, l) ↦ rw e (omega arith)
  | inr (e, l) ↦ rw e (omega arith)
]

pub min_ℤ_bounds : (a b : ℤ) → (min_ℤ a b ≤ℤ a) × (min_ℤ a b ≤ℤ b)
unfolding min_ℤ
min_ℤ_bounds a b = elim (ltℤ-cases b a) [
  | inl (e, l) ↦ rw e (omega arith, omega arith)
  | inr (e, l) ↦ rw e (omega arith, omega arith)
]

pub min_ℤ_greatest : (a b c : ℤ) → c ≤ℤ a → c ≤ℤ b → c ≤ℤ min_ℤ a b
unfolding min_ℤ
min_ℤ_greatest a b c p q = elim (ltℤ-cases b a) [
  | inl (e, l) ↦ rw e (omega arith)
  | inr (e, l) ↦ rw e (omega arith)
]

pub clamp_bounds : (v lo hi : ℤ) → lo ≤ℤ hi → (lo ≤ℤ clamp v lo hi) × (clamp v lo hi ≤ℤ hi)
unfolding clamp
clamp_bounds v lo hi h = elim (ltℤ-cases v lo) [
  | inl (e, l) ↦ rw e (omega arith, omega arith)
  | inr (e, l) ↦ rw e (elim (ltℤ-cases hi v) [
    | inl (f, m) ↦ rw f (omega arith, omega arith)
    | inr (f, m) ↦ rw f (omega arith, omega arith)
  ])
]

-- On naturals the operations are the naturals', where a difference is not negative.
pub +ℤ-pos : (a b : ℕ) → pos a +ℤ pos b ≡ pos (a + b)
unfolding ◌+ℤ◌
+ℤ-pos a b = ground arith

pub -ℤ-pos : (a b : ℕ) → b ≤ a → pos a -ℤ pos b ≡ pos (a - b)
unfolding ◌-ℤ◌
-ℤ-pos a b h = ground arith
