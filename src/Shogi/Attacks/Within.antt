-- ===== src/Shogi/Attacks/Within.antt =====
-- Bitboards within others, and whether anything is in a union.
use jhbr.Base.{
  ℕ, ◌≡◌, refl, sym, ap, Bool, true, false, not, ◌&&◌, ◌||◌, arith, bit_and, bit_or, ◌==◌, ==→eq,
  Bool-cases, inl, inr,
}
use jhbr.Base.Bits.{bit, bit-zero, bit_ext, bit-bit_and, bit-bit_or}
use jhbr.Base.Words.{zero-bit_or}
use jhbr.Shogi.Bitboard.{Bitboard, bb_and, bb_or, any}
use jhbr.Shogi.Attacks.{slides}

-- Words first.
pub and_within : (x m : ℕ) → bit_and (bit_and x m) m ≡ bit_and x m
and_within x m = bit_ext _ _ λ j. omega (arith, bit-bit_and (bit_and x m) m j, bit-bit_and x m j)

pub zero_within : (m : ℕ) → bit_and 0 m ≡ 0
zero_within m = bit_ext _ _ λ j. omega (arith, bit-bit_and 0 m j, bit-zero j)

pub or_within :
    (x y m : ℕ) → bit_and x m ≡ x → bit_and y m ≡ y → bit_and (bit_or x y) m ≡ bit_or x y
or_within x y m h k = bit_ext _ _ λ j. omega (
  arith,
  bit-bit_and (bit_or x y) m j,
  bit-bit_or x y j,
  bit-bit_and x m j,
  bit-bit_and y m j,
  ap (λ t. bit t j) h,
  ap (λ t. bit t j) k,
)

pub within_trans : (x m n : ℕ) → bit_and x m ≡ x → bit_and m n ≡ m → bit_and x n ≡ x
within_trans x m n h k = bit_ext _ _ λ j. omega (
  arith,
  bit-bit_and x n j,
  bit-bit_and x m j,
  bit-bit_and m n j,
  ap (λ t. bit t j) h,
  ap (λ t. bit t j) k,
)

and_narrow : (x m s : ℕ) → bit_and x m ≡ x → bit_and m s ≡ 0 → bit_and x s ≡ 0
and_narrow x m s h k = bit_ext _ _ λ j. omega (
  arith,
  bit-bit_and x s j,
  bit-bit_and x m j,
  bit-bit_and m s j,
  bit-zero j,
  ap (λ t. bit t j) h,
  ap (λ t. bit t j) k,
)

or_zero_left : (x y : ℕ) → bit_or x y ≡ 0 → x ≡ 0
or_zero_left x y h =
    bit_ext _ _ λ j. omega (arith, bit-bit_or x y j, bit-zero j, ap (λ t. bit t j) h)

or_zero_right : (x y : ℕ) → bit_or x y ≡ 0 → y ≡ 0
or_zero_right x y h =
    bit_ext _ _ λ j. omega (arith, bit-bit_or x y j, bit-zero j, ap (λ t. bit t j) h)

or_zero : (x y : ℕ) → (bit_or x y == 0) ≡ ((x == 0) && (y == 0))
or_zero x y = elim (Bool-cases (bit_or x y == 0)) [
  | inl e ↦
      let l = or_zero_left x y (==→eq _ 0 e) in
      let r = or_zero_right x y (==→eq _ 0 e) in ground (arith, e, l, r)
  | inr e ↦ elim (Bool-cases (x == 0)) [
    | inl l ↦ elim (Bool-cases (y == 0)) [
      | inl r ↦
          let z : bit_or x y ≡ 0 = rw (==→eq x 0 l, ==→eq y 0 r) (zero-bit_or 0) in
          absurd ground (arith, e, z)
      | inr r ↦ rw (e, l, r) refl
    ]
    | inr l ↦ rw (e, l) refl
  ]
]

-- Every square of the one is a square of the other.
pub record IsWithin (a m : Bitboard) : Type 0 where
  pub lo_within : bit_and a.lo m.lo ≡ a.lo
  pub hi_within : bit_and a.hi m.hi ≡ a.hi

pub bb_and-IsWithin : (a m : Bitboard) → IsWithin (bb_and a m) m
unfolding bb_and
bb_and-IsWithin a m = record { lo_within = and_within a.lo m.lo; hi_within = and_within a.hi m.hi }

pub bb_or-IsWithin : (a b m : Bitboard) → IsWithin a m → IsWithin b m → IsWithin (bb_or a b) m
unfolding bb_or
bb_or-IsWithin a b m h k = record {
  lo_within = or_within a.lo b.lo m.lo h.lo_within k.lo_within;
  hi_within = or_within a.hi b.hi m.hi h.hi_within k.hi_within;
}

or_holds_left : (x y : ℕ) → bit_and x (bit_or x y) ≡ x
or_holds_left x y = bit_ext _ _ λ j. omega (arith, bit-bit_and x (bit_or x y) j, bit-bit_or x y j)

or_holds_right : (x y : ℕ) → bit_and y (bit_or x y) ≡ y
or_holds_right x y = bit_ext _ _ λ j. omega (arith, bit-bit_and y (bit_or x y) j, bit-bit_or x y j)

pub bb_or-IsWithin_left : (a b : Bitboard) → IsWithin a (bb_or a b)
unfolding bb_or
bb_or-IsWithin_left a b = record {
  lo_within = or_holds_left a.lo b.lo;
  hi_within = or_holds_left a.hi b.hi;
}

pub bb_or-IsWithin_right : (a b : Bitboard) → IsWithin b (bb_or a b)
unfolding bb_or
bb_or-IsWithin_right a b = record {
  lo_within = or_holds_right a.lo b.lo;
  hi_within = or_holds_right a.hi b.hi;
}

pub IsWithin-trans : (a m n : Bitboard) → IsWithin a m → IsWithin m n → IsWithin a n
IsWithin-trans a m n h k = record {
  lo_within = within_trans a.lo m.lo n.lo h.lo_within k.lo_within;
  hi_within = within_trans a.hi m.hi n.hi h.hi_within k.hi_within;
}

-- A union is empty where both parts are.
pub any-bb_or : (a b : Bitboard) → any (bb_or a b) ≡ any a || any b
unfolding any bb_or
any-bb_or a b = simp or_zero (parts (a.lo == 0) (b.lo == 0) (a.hi == 0) (b.hi == 0))
  where
    parts : (w x y z : Bool) → not ((w && x) && (y && z)) ≡ (not (w && y) || not (x && z))
    parts w x y z = ground arith

not_lem : (b : Bool) → not b ≡ false → b ≡ true
not_lem b h = ground (arith, h)

nothing_in : (b : Bitboard) → any b ≡ false → bit_or b.lo b.hi ≡ 0
unfolding any
nothing_in b h = ==→eq _ 0 (not_lem (bit_or b.lo b.hi == 0) h)

-- What is within a mask is found in the mask first.
pub slides_lem :
    (mask effect sliders : Bitboard)
    → IsWithin effect mask
    → slides mask effect sliders ≡ any (bb_and effect sliders)
slides_lem mask effect sliders h = elim (Bool-cases (any (bb_and mask sliders))) [
  | inl e ↦ rw e refl
  | inr e ↦ rw e (sym (none e))
]
  where
    none : any (bb_and mask sliders) ≡ false → any (bb_and effect sliders) ≡ false
    none e =
        unfold any in
        unfold bb_and in
        let z : bit_or (bit_and mask.lo sliders.lo) (bit_and mask.hi sliders.hi) ≡ 0 =
          nothing_in (bb_and mask sliders) e in
        let l = and_narrow effect.lo mask.lo sliders.lo h.lo_within (or_zero_left _ _ z) in
        let r = and_narrow effect.hi mask.hi sliders.hi h.hi_within (or_zero_right _ _ z) in
        rw (l, r) refl
