-- ===== src/Shogi/Attacks/Reversed.antt =====
-- Byte reversal of a word keeps what is within a mask within the reversed mask.
use jhbr.Base.{
  ℕ, zero, suc, ◌+◌, ◌*◌, ◌/◌, ◌%◌, ◌^◌, ◌<◌, ◌≡◌, refl, sym, ap, ◌∙◌, arith, bit_and, min,
}
use jhbr.Base.Bits.{bit, bit_ext, bit-bit_and}
use jhbr.Base.Words.{bit_and_step, bit_and-zero, bit_and-mask, mul-pow-suc}
use native.Mathlib.Nat.{pow-suc}
use jhbr.Shogi.Bitboard.{Bitboard, bb_or}
use jhbr.Shogi.Attacks.Sliding.{bswap, bswap64, byte_reverse, qugiy, HiLo, unpack}
use jhbr.Shogi.Attacks.Within.{
  IsWithin, bb_and-IsWithin, bb_or-IsWithin, bb_or-IsWithin_left, bb_or-IsWithin_right,
  IsWithin-trans,
}

-- One digit put below two words.
and_below :
    (a b r s : ℕ) → r < 2 → s < 2 → bit_and (a * 2 + r) (b * 2 + s) ≡ bit_and a b * 2 + min r s
and_below a b r s hr hs =
    let ra : (a * 2 + r) / 2 ≡ a = omega arith in
    let rb : (b * 2 + s) / 2 ≡ b = omega arith in
    let ma : (a * 2 + r) % 2 ≡ r = omega arith in
    let mb : (b * 2 + s) % 2 ≡ s = omega arith in
    bit_and_step (a * 2 + r) (b * 2 + s) ∙ rw (ra, rb, ma, mb) refl

-- `n` digits.
and_fields :
    (n a b r s : ℕ)
    → r < 2 ^ n
    → s < 2 ^ n
    → bit_and (a * 2 ^ n + r) (b * 2 ^ n + s) ≡ bit_and a b * 2 ^ n + bit_and r s
and_fields zero a b r s hr hs =
    let r0 : r ≡ 0 = omega arith in
    let s0 : s ≡ 0 = omega arith in
    let ea : a * 1 + 0 ≡ a = omega arith in
    let eb : b * 1 + 0 ≡ b = omega arith in rw (r0, s0, ea, eb, bit_and-zero 0) (omega arith)
and_fields (suc n) a b r s hr hs =
    let ea : a * 2 ^ suc n + r ≡ (a * 2 ^ n + r / 2) * 2 + r % 2 = omega (arith, mul-pow-suc a n) in
    let eb : b * 2 ^ suc n + s ≡ (b * 2 ^ n + s / 2) * 2 + s % 2 = omega (arith, mul-pow-suc b n) in
    rw (ea, eb)
      (and_below (a * 2 ^ n + r / 2) (b * 2 ^ n + s / 2) (r % 2) (s % 2) (omega arith) (omega arith)
        ∙ omega (
          arith,
          and_fields n a b (r / 2) (s / 2) (omega (arith, pow-suc 2 n))
              (omega (arith, pow-suc 2 n)),
          mul-pow-suc (bit_and a b) n,
          bit_and_step r s,
        ))

-- The bytes of an intersection.
and_bytes :
    (x m : ℕ) → bit_and x m ≡ bit_and (x / 256) (m / 256) * 256 + bit_and (x % 256) (m % 256)
and_bytes x m =
    let ex : x / 256 * 2 ^ 8 + x % 256 ≡ x = omega arith in
    let em : m / 256 * 2 ^ 8 + m % 256 ≡ m = omega arith in
    rw (ex, em) at
      (and_fields 8 (x / 256) (m / 256) (x % 256) (m % 256) (omega arith) (omega arith))

low_byte : (r s : ℕ) → r < 256 → bit_and r s < 256
low_byte r s h =
    let whole : bit_and r 255 ≡ r = bit_and-mask 8 r ∙ omega arith in
    let kept : bit_and (bit_and r s) 255 ≡ bit_and r s = bit_ext _ _ λ j. omega (
      arith,
      bit-bit_and (bit_and r s) 255 j,
      bit-bit_and r s j,
      bit-bit_and r 255 j,
      ap (λ t. bit t j) whole,
    ) in
    omega (arith, kept, bit_and-mask 8 (bit_and r s))

bswap-bit_and :
    (n x m a b : ℕ) → bswap n (bit_and x m) (bit_and a b) ≡ bit_and (bswap n x a) (bswap n m b)
unfolding bswap
bswap-bit_and zero x m a b = refl
bswap-bit_and (suc n) x m a b =
    let small = low_byte (x % 256) (m % 256) (omega arith) in
    let quotient : bit_and x m / 256 ≡ bit_and (x / 256) (m / 256) = omega (arith, and_bytes x m) in
    let rest : bit_and x m % 256 ≡ bit_and (x % 256) (m % 256) = omega (arith, and_bytes x m) in
    let joined : bit_and a b * 256 + bit_and (x % 256) (m % 256)
        ≡ bit_and (a * 256 + x % 256) (b * 256 + m % 256) =
      sym (and_fields 8 a b (x % 256) (m % 256) (omega arith) (omega arith)) in
    rw (quotient, rest, joined)
      (bswap-bit_and n (x / 256) (m / 256) (a * 256 + x % 256) (b * 256 + m % 256))

bswap64_within : (x m : ℕ) → bit_and x m ≡ x → bit_and (bswap64 x) (bswap64 m) ≡ bswap64 x
unfolding bswap64
bswap64_within x m h =
    sym (bswap-bit_and 8 x m 0 0)
    ∙ ap (λ t. bswap 8 t (bit_and 0 0)) h
    ∙ ap (bswap 8 x) (bit_and-zero 0)

pub byte_reverse-IsWithin :
    (a m : Bitboard) → IsWithin a m → IsWithin (byte_reverse a) (byte_reverse m)
unfolding byte_reverse
byte_reverse-IsWithin a m h = record {
  lo_within = bswap64_within a.hi m.hi h.hi_within;
  hi_within = bswap64_within a.lo m.lo h.lo_within;
}

-- The squares of both rays.
unfoldable pub rays : HiLo → Bitboard
rays mask = let v = unpack mask.hi_out mask.lo_out in bb_or (byte_reverse v.hi_out) v.lo_out

unpack-IsWithin :
    (h l mh ml : Bitboard)
    → IsWithin h mh
    → IsWithin l ml
    → IsWithin (unpack h l).hi_out (unpack mh ml).hi_out
      × IsWithin (unpack h l).lo_out (unpack mh ml).lo_out
unfolding unpack
unpack-IsWithin h l mh ml x y = (
  record { lo_within = y.hi_within; hi_within = x.hi_within },
  record { lo_within = y.lo_within; hi_within = x.lo_within },
)

rays-IsWithin :
    (t1 t0 : Bitboard) (mask : HiLo)
    → IsWithin t1 mask.hi_out
    → IsWithin t0 mask.lo_out
    → IsWithin (bb_or (byte_reverse (unpack t1 t0).hi_out) (unpack t1 t0).lo_out) (rays mask)
unfolding rays
rays-IsWithin t1 t0 mask x y =
    let u = unpack-IsWithin t1 t0 mask.hi_out mask.lo_out x y in
    let v = unpack mask.hi_out mask.lo_out in
    bb_or-IsWithin _ _ _
      (IsWithin-trans _ (byte_reverse v.hi_out) _ (byte_reverse-IsWithin _ v.hi_out u.0)
        (bb_or-IsWithin_left (byte_reverse v.hi_out) v.lo_out))
      (IsWithin-trans _ v.lo_out _ u.1 (bb_or-IsWithin_right (byte_reverse v.hi_out) v.lo_out))

-- The effect stays on its rays.
pub qugiy-IsWithin : (mask : HiLo) (occ : Bitboard) → IsWithin (qugiy mask occ) (rays mask)
unfolding qugiy
qugiy-IsWithin mask occ =
    rays-IsWithin _ _ mask (bb_and-IsWithin _ mask.hi_out) (bb_and-IsWithin _ mask.lo_out)
