-- ===== src/Shogi/PackedSfen/Stream.antt =====
-- BitReader reads back what BitWriter wrote.
use jhbr.Base.{
  ℕ, zero, suc, ◌+◌, ◌*◌, ◌/◌, ◌%◌, ◌^◌, max, ◌<◌, ◌≤◌, ◌≡◌, ◌≢◌, refl, sym, ap, ap₂, ◌∙◌, subst,
  inl, inr, false, ◌==◌, ==→eq, List, some, arith, Bool-cases, bit_or, length, length-set, get_or,
  set, replicate, get_or-replicate, get_or-set_self, get_or-set_ne, ltb,
}
use jhbr.Base.Bits.{bit, bit-eq, bit-lt, bit-bit_or, bit-zero, bit-pow_self, bit-pow_ne, pow-lt}
use jhbr.Base.Words.{bit_or-fields, mul-pow-suc}
use native.Mathlib.Nat.{
  pow-succ', pow-zero, mod-eq_of_lt, mod-lt, one-le-pow, mul-add-mod_self_right, div-add-mod',
}
use jhbr.Shogi.PackedSfen.{BitWriter, new_writer, put_bit, put_bits, write, bit_at, take_bits, read}

bit_at-bit : (bytes : List ℕ) (j : ℕ) → bit_at bytes j ≡ bit (get_or bytes (j / 8) 0) (j % 8)
unfolding bit_at
bit_at-bit bytes j = bit-eq (get_or bytes (j / 8) 0) (j % 8)

pub bit_at-lt : (bytes : List ℕ) (j : ℕ) → bit_at bytes j < 2
unfolding bit_at
bit_at-lt bytes j = omega arith

-- What a writer keeps: 32 bytes, and no bit set from the cursor on.
pub record IsWriter (w : BitWriter) : Type 0 where
  pub size : length w.bytes ≡ 32
  pub clean : (j : ℕ) → w.cursor ≤ j → j < 256 → bit_at w.bytes j ≡ 0

module _ (w : BitWriter) (k : IsWriter w) (room : w.cursor < 256) where
  abbrev c : ℕ
  c = w.cursor

  abbrev old : ℕ
  old = get_or w.bytes (c / 8) 0

  abbrev marked : ℕ
  marked = bit_or old (2 ^ (c % 8) % 2 ^ 8)

  one_bit : 2 ^ (c % 8) % 2 ^ 8 ≡ 2 ^ (c % 8)
  one_bit = mod-eq_of_lt (pow-lt (c % 8) 8 (omega arith))

  marking : (j : ℕ) → bit marked j ≡ max (bit old j) (bit (2 ^ (c % 8)) j)
  marking j = bit-bit_or old _ j ∙ ap (λ t. max (bit old j) (bit t j)) one_bit

  abbrev next_bytes : List ℕ
  next_bytes = set w.bytes (c / 8) marked

  set_bit_self : bit_at next_bytes c ≡ 1
  set_bit_self =
      bit_at-bit next_bytes c
      ∙ ap (λ t. bit t (c % 8)) (get_or-set_self w.bytes (c / 8) marked 0 (omega (arith, k.size)))
      ∙ omega (arith, marking (c % 8), bit-pow_self (c % 8), bit-lt old (c % 8))

  set_bit_other : (j : ℕ) → c ≢ j → bit_at next_bytes j ≡ bit_at w.bytes j
  set_bit_other j ne = elim (Bool-cases (c / 8 == j / 8)) [
    | inr e ↦
        unfold bit_at in
        ap (λ t. t / 2 ^ (j % 8) % 2)
          (get_or-set_ne w.bytes (c / 8) (j / 8) marked 0 (λ q. absurd ground (arith, e, q)))
    | inl e ↦
        let q : c / 8 ≡ j / 8 = ==→eq _ _ e in
        bit_at-bit next_bytes j
        ∙ ap (λ t. bit t (j % 8))
            (subst (λ t. get_or next_bytes t 0 ≡ marked) q
              (get_or-set_self w.bytes (c / 8) marked 0 (omega (arith, k.size))))
        ∙ omega (arith, marking (j % 8), bit-pow_ne (c % 8) (j % 8) (λ r. ne (omega (arith, q, r))))
        ∙ ap (λ t. bit (get_or w.bytes t 0) (j % 8)) q
        ∙ sym (bit_at-bit w.bytes j)
  ]

  pub put_bit-here : (b : ℕ) → b < 2 → bit_at (put_bit b w).bytes c ≡ b
  unfolding put_bit
  put_bit-here b h = elim (Bool-cases (b == 0)) [
    | inl e ↦ rw e (k.clean c (omega arith) room ∙ sym (==→eq b 0 e))
    | inr e ↦ rw e (set_bit_self ∙ ground (arith, e, h))
  ]

  pub put_bit-elsewhere : (b j : ℕ) → c ≢ j → bit_at (put_bit b w).bytes j ≡ bit_at w.bytes j
  unfolding put_bit
  put_bit-elsewhere b j ne = elim (Bool-cases (b == 0)) [
    | inl e ↦ rw e
    | inr e ↦ rw e (set_bit_other j ne)
  ]

  pub put_bit-IsWriter : (b : ℕ) → IsWriter (put_bit b w)
  unfolding put_bit
  put_bit-IsWriter b = record {
    size = elim (Bool-cases (b == 0)) [
      | inl e ↦ rw e k.size
      | inr e ↦ rw e (length-set w.bytes (c / 8) marked ∙ k.size)
    ];
    clean = λ j le lt.
        put_bit-elsewhere b j (λ q. omega (arith, q, le)) ∙ k.clean j (omega (arith, le)) lt;
  }

pub put_bits-IsWriter :
    (value i n : ℕ) (w : BitWriter)
    → IsWriter w
    → w.cursor + n ≤ 256
    → IsWriter (put_bits value i n w) × ((put_bits value i n w).cursor ≡ w.cursor + n)
unfolding put_bits put_bit
put_bits-IsWriter value i zero w k room = (k, omega arith)
put_bits-IsWriter value i (suc n) w k room =
    let r =
      put_bits-IsWriter value (i + 1) n (put_bit (value / 2 ^ i % 2) w)
        (put_bit-IsWriter w k (omega arith) (value / 2 ^ i % 2)) (omega arith) in
    (r.0, r.1 ∙ omega arith)

-- Bits before the cursor are kept.
put_bits-before :
    (value i n : ℕ) (w : BitWriter) (j : ℕ)
    → IsWriter w
    → w.cursor + n ≤ 256
    → j < w.cursor
    → bit_at (put_bits value i n w).bytes j ≡ bit_at w.bytes j
unfolding put_bits put_bit
put_bits-before value i zero w j k room lt = refl
put_bits-before value i (suc n) w j k room lt =
    put_bits-before value (i + 1) n (put_bit (value / 2 ^ i % 2) w) j
      (put_bit-IsWriter w k (omega arith) (value / 2 ^ i % 2)) (omega arith) (omega arith)
    ∙ put_bit-elsewhere w k (omega arith) (value / 2 ^ i % 2) j (λ q. omega (arith, q, lt))

-- The bits of the value follow from the cursor on.
pub put_bits-written :
    (value i n : ℕ) (w : BitWriter) (t : ℕ)
    → IsWriter w
    → w.cursor + n ≤ 256
    → t < n
    → bit_at (put_bits value i n w).bytes (w.cursor + t) ≡ value / 2 ^ (i + t) % 2
unfolding put_bits put_bit
put_bits-written value i zero w t k room lt = absurd (omega arith)
put_bits-written value i (suc n) w zero k room lt =
    let e : w.cursor + 0 ≡ w.cursor = omega arith in
    let f : i + 0 ≡ i = omega arith in
    rw (e, f)
      (put_bits-before value (i + 1) n (put_bit (value / 2 ^ i % 2) w) w.cursor
          (put_bit-IsWriter w k (omega arith) (value / 2 ^ i % 2)) (omega arith) (omega arith)
        ∙ put_bit-here w k (omega arith) (value / 2 ^ i % 2) (omega arith))
put_bits-written value i (suc n) w (suc t) k room lt =
    let e : w.cursor + suc t ≡ w.cursor + 1 + t = omega arith in
    let f : i + suc t ≡ i + 1 + t = omega arith in
    rw (e, f)
      (put_bits-written value (i + 1) n (put_bit (value / 2 ^ i % 2) w) t
        (put_bit-IsWriter w k (omega arith) (value / 2 ^ i % 2)) (omega arith) (omega arith))

-- The lowest `i + 1` bits are the lowest `i` and the next.
low_bits : (value i : ℕ) → bit_or (value % 2 ^ i) (value / 2 ^ i % 2 * 2 ^ i) ≡ value % 2 ^ (i + 1)
low_bits value i =
    bit_or-fields i (value / 2 ^ i % 2) (value % 2 ^ i) below
    ∙ sym (
        ap (λ t. value % 2 ^ t) (omega arith)
        ∙ ap (λ t. t % 2 ^ suc i) split
        ∙ mul-add-mod_self_right (value / 2 ^ i / 2) (2 ^ suc i) low
        ∙ mod-eq_of_lt (small (value / 2 ^ i % 2) (omega arith)))
  where
    below : value % 2 ^ i < 2 ^ i
    below = mod-lt value {m = 2 ^ i} (one-le-pow i 2 (omega arith))

    low : ℕ
    low = value / 2 ^ i % 2 * 2 ^ i + value % 2 ^ i

    small : (b : ℕ) → b < 2 → b * 2 ^ i + value % 2 ^ i < 2 ^ suc i
    small zero h = omega (arith, below, pow-succ' 2 i)
    small (suc zero) h = omega (arith, below, pow-succ' 2 i)
    small (suc (suc b)) h = absurd (omega arith)

    doubled : (q b : ℕ) → b < 2 → (q * 2 + b) * 2 ^ i ≡ q * 2 ^ suc i + b * 2 ^ i
    doubled q zero h = omega (arith, mul-pow-suc q i)
    doubled q (suc zero) h = omega (arith, mul-pow-suc q i)
    doubled q (suc (suc b)) h = absurd (omega arith)

    split : value ≡ value / 2 ^ i / 2 * 2 ^ suc i + low
    split =
        let q : ℕ = value / 2 ^ i in
        let e : q ≡ q / 2 * 2 + q % 2 = omega arith in
        omega (
          arith,
          div-add-mod' value (2 ^ i),
          ap (λ (t : ℕ). t * 2 ^ i) e,
          doubled (q / 2) (q % 2) (omega arith),
        )

take_bits_lem :
    (bytes : List ℕ) (value cursor i n acc : ℕ)
    → ((t : ℕ) → t < n → bit_at bytes (cursor + t) ≡ value / 2 ^ (i + t) % 2)
    → acc ≡ value % 2 ^ i
    → take_bits bytes cursor i n acc ≡ value % 2 ^ (i + n)
unfolding take_bits
take_bits_lem bytes value cursor i zero acc h e = e ∙ ap (λ t. value % 2 ^ t) (omega arith)
take_bits_lem bytes value cursor i (suc n) acc h e =
    take_bits_lem bytes value (cursor + 1) (i + 1) n _
      (λ t lt.
        ap (bit_at bytes) (omega arith)
        ∙ h (suc t) (omega arith)
        ∙ ap (λ u. value / 2 ^ u % 2) (omega arith))
      (ap₂ (λ (a b : ℕ). bit_or a (b * 2 ^ i)) e first ∙ low_bits value i)
    ∙ ap (λ t. value % 2 ^ t) (omega arith)
  where
    first : bit_at bytes cursor ≡ value / 2 ^ i % 2
    first =
        ap (bit_at bytes) (omega arith)
        ∙ h 0 (omega arith)
        ∙ ap (λ u. value / 2 ^ u % 2) (omega arith)

-- A stream agrees with a writer on the bits before the writer's cursor: the finished bytes agree with
-- every writer that led to them.
abbrev pub AgreesWith : BitWriter → List ℕ → Type 0
AgreesWith w bytes = (j : ℕ) → j < w.cursor → bit_at bytes j ≡ bit_at w.bytes j

-- What a writer wrote before stays as it was under later writes.
pub write-AgreesWith :
    (value n : ℕ) (w v : BitWriter) (bytes : List ℕ)
    → IsWriter w
    → write value n w ≡ some v
    → AgreesWith v bytes
    → IsWriter v × AgreesWith w bytes
unfolding write
write-AgreesWith value n w v bytes k e agree = elim (Bool-cases (ltb 256 (w.cursor + n))) [
  | inl h ↦ absurd cc (rw h at e)
  | inr h ↦
      let room : w.cursor + n ≤ 256 = ground (arith, h) in
      let same : put_bits value 0 n w ≡ v = cc (rw h at e) in
      let r = put_bits-IsWriter value 0 n w k room in
      (
        subst IsWriter same r.0,
        λ j lt.
            agree j (omega (arith, ap (λ u. u.cursor) same, r.1, lt))
            ∙ ap (λ u. bit_at u.bytes j) (sym same)
            ∙ put_bits-before value 0 n w j k room lt,
      )
]

-- A value that BitWriter wrote in `n` bits, and that fits in them, is what BitReader reads in `n` bits
-- from there, in any bytes that agree with the writer on what was written so far, and both end at the
-- same place.
pub read-write :
    (value n : ℕ) (w v : BitWriter) (bytes : List ℕ)
    → IsWriter w
    → value < 2 ^ n
    → write value n w ≡ some v
    → AgreesWith v bytes
    → read bytes n w.cursor ≡ some (value, v.cursor)
unfolding write read
read-write value n w v bytes k small e agree = elim (Bool-cases (ltb 256 (w.cursor + n))) [
  | inl h ↦ absurd cc (rw h at e)
  | inr h ↦ rw h (ap some (λ i. (got h i, ends h i)))
]
  where
    room : ltb 256 (w.cursor + n) ≡ false → w.cursor + n ≤ 256
    room h = ground (arith, h)

    same : ltb 256 (w.cursor + n) ≡ false → put_bits value 0 n w ≡ v
    same h = cc (rw h at e)

    ends : ltb 256 (w.cursor + n) ≡ false → w.cursor + n ≡ v.cursor
    ends h = sym (put_bits-IsWriter value 0 n w k (room h)).1 ∙ ap (λ u. u.cursor) (same h)

    got : ltb 256 (w.cursor + n) ≡ false → take_bits bytes w.cursor 0 n 0 ≡ value
    got h =
        take_bits_lem bytes value w.cursor 0 n 0
          (λ t lt.
            agree (w.cursor + t) (omega (arith, ends h, lt))
            ∙ ap (λ u. bit_at u.bytes (w.cursor + t)) (sym (same h))
            ∙ put_bits-written value 0 n w t k (room h) lt)
          (omega (arith, pow-zero 2))
        ∙ ap (λ t. value % 2 ^ t) (omega arith)
        ∙ mod-eq_of_lt small

pub new_writer-IsWriter : IsWriter new_writer
new_writer-IsWriter = record {
  size = refl;
  clean = λ j le lt.
      bit_at-bit (replicate 32 0) j
      ∙ ap (λ t. bit t (j % 8)) (get_or-replicate 32 (j / 8) 0)
      ∙ bit-zero (j % 8);
}
