-- ===== src/Book/Format/Bytes.antt =====
-- The little-endian fields of a YBB file read back what was stored.
use jhbr.Base.{
  ℕ, zero, suc, ◌+◌, ◌*◌, ◌/◌, ◌%◌, ◌^◌, ◌<◌, ◌≤◌, ◌≡◌, refl, ap₂, ◌∙◌, bit_or, List, arith, length,
  length-set, set, get_or-set_self, get_or-set_ne, get_or-set_keeps, u64,
}
use jhbr.Base.Words.{bit_or-fields, bit_or_comm}
use jhbr.Book.Format.{byte, read_le16, read_le64, read_down, store_le64, store_up}

-- An array of uint8_t.
abbrev pub IsBytes : List ℕ → Type 0
IsBytes bytes = (i : ℕ) → byte bytes i < 256

-- The number that `n` bytes from `off` on spell, the lowest first.
unfoldable pub little : List ℕ → ℕ → ℕ → ℕ
little bytes off zero = 0
little bytes off (suc n) = byte bytes off + little bytes (off + 1) n * 256

shift_in : (v b t : ℕ) → v ≡ t → t < 2 ^ 56 → b < 256 → bit_or (u64 (v * 2 ^ 8)) b ≡ t * 256 + b
shift_in v b t e h lt =
    let w : u64 (v * 2 ^ 8) ≡ t * 2 ^ 8 = omega arith in
    rw w (bit_or_comm (t * 2 ^ 8) b ∙ bit_or-fields 8 t b lt)

pub read_le64-little :
    (bytes : List ℕ) (off : ℕ) → IsBytes bytes → read_le64 bytes off ≡ little bytes off 8
unfolding read_le64 read_down little
read_le64-little bytes off h =
    let b = λ (i : ℕ). byte bytes (off + i) in
    let s7 = shift_in 0 (b 7) 0 refl (omega arith) (h _) in
    let s6 = shift_in _ (b 6) _ s7 (omega (arith, h (off + 7))) (h _) in
    let s5 = shift_in _ (b 5) _ s6 (omega (arith, h (off + 7), h (off + 6))) (h _) in
    let s4 = shift_in _ (b 4) _ s5 (omega (arith, h (off + 7), h (off + 6), h (off + 5))) (h _) in
    let s3 =
      shift_in _ (b 3) _ s4 (omega (arith, h (off + 7), h (off + 6), h (off + 5), h (off + 4)))
        (h _) in
    let s2 =
      shift_in _ (b 2) _ s3
        (omega (arith, h (off + 7), h (off + 6), h (off + 5), h (off + 4), h (off + 3))) (h _) in
    let s1 =
      shift_in _ (b 1) _ s2
        (omega
          (arith, h (off + 7), h (off + 6), h (off + 5), h (off + 4), h (off + 3), h (off + 2)))
        (h _) in
    let s0 =
      shift_in _ (b 0) _ s1
        (omega (
          arith,
          h (off + 7),
          h (off + 6),
          h (off + 5),
          h (off + 4),
          h (off + 3),
          h (off + 2),
          h (off + 1),
        ))
        (h _) in
    s0 ∙ rw (e0, plus 1 1, plus 2 1, plus 3 1, plus 4 1, plus 5 1, plus 6 1) (omega arith)
  where
    plus : (a b : ℕ) → off + a + b ≡ off + (a + b)
    plus a b = omega arith

    e0 : off + 0 ≡ off
    e0 = omega arith

pub read_le16-little :
    (bytes : List ℕ) (off : ℕ) → IsBytes bytes → read_le16 bytes off ≡ little bytes off 2
unfolding read_le16 little
read_le16-little bytes off h =
    bit_or-fields 8 (byte bytes (off + 1)) (byte bytes off) (h off) ∙ omega arith

pub set-IsBytes : (bytes : List ℕ) (i v : ℕ) → v < 256 → IsBytes bytes → IsBytes (set bytes i v)
set-IsBytes bytes i v lt h j = get_or-set_keeps (λ t. t < 256) bytes i j v 0 lt (h j)

pub store_up-IsBytes :
    (bytes : List ℕ) (off n v : ℕ) → IsBytes bytes → IsBytes (store_up bytes off n v)
unfolding store_up
store_up-IsBytes bytes off zero v h = h
store_up-IsBytes bytes off (suc n) v h =
    store_up-IsBytes (set bytes off (v % 2 ^ 8)) (off + 1) n (v / 2 ^ 8)
      (set-IsBytes bytes off (v % 2 ^ 8) (omega arith) h)

-- Bytes outside the field are kept.
pub store_up-below :
    (bytes : List ℕ) (off n v j : ℕ) → j < off → byte (store_up bytes off n v) j ≡ byte bytes j
unfolding store_up
store_up-below bytes off zero v j h = refl
store_up-below bytes off (suc n) v j h =
    store_up-below (set bytes off (v % 2 ^ 8)) (off + 1) n (v / 2 ^ 8) j (omega arith)
    ∙ get_or-set_ne bytes off j (v % 2 ^ 8) 0 (λ e. omega arith)

pub store_up-above :
    (bytes : List ℕ) (off n v j : ℕ) → off + n ≤ j → byte (store_up bytes off n v) j ≡ byte bytes j
unfolding store_up
store_up-above bytes off zero v j h = refl
store_up-above bytes off (suc n) v j h =
    store_up-above (set bytes off (v % 2 ^ 8)) (off + 1) n (v / 2 ^ 8) j (omega arith)
    ∙ get_or-set_ne bytes off j (v % 2 ^ 8) 0 (λ e. omega arith)

pub length-store_up :
    (bytes : List ℕ) (off n v : ℕ) → length (store_up bytes off n v) ≡ length bytes
unfolding store_up
length-store_up bytes off zero v = refl
length-store_up bytes off (suc n) v =
    length-store_up (set bytes off (v % 2 ^ 8)) (off + 1) n (v / 2 ^ 8) ∙ length-set bytes off _

unfoldable pub scale : ℕ → ℕ
scale zero = 1
scale (suc n) = scale n * 256

pub little-store_up :
    (bytes : List ℕ) (off n v : ℕ)
    → off + n ≤ length bytes
    → v < scale n
    → little (store_up bytes off n v) off n ≡ v
unfolding store_up little scale
little-store_up bytes off zero v h lt = omega arith
little-store_up bytes off (suc n) v h lt =
    let bs = set bytes off (v % 2 ^ 8) in
    let first =
      store_up-below bs (off + 1) n (v / 2 ^ 8) off (omega arith)
      ∙ get_or-set_self bytes off (v % 2 ^ 8) 0 (omega arith) in
    let rest =
      little-store_up bs (off + 1) n (v / 2 ^ 8) (omega (arith, length-set bytes off (v % 2 ^ 8)))
        (omega arith) in
    omega (arith, first, rest)

-- A 64-bit value that is stored in an array of bytes is read back from there.
pub read_le64-store_le64 :
    (bytes : List ℕ) (off v : ℕ)
    → IsBytes bytes
    → off + 8 ≤ length bytes
    → v < 2 ^ 64
    → read_le64 (store_le64 bytes off v) off ≡ v
unfolding store_le64 scale
read_le64-store_le64 bytes off v h fits lt =
    read_le64-little (store_up bytes off 8 v) off (store_up-IsBytes bytes off 8 v h)
    ∙ little-store_up bytes off 8 v fits lt

-- A field is kept by a write to what follows it.
pub little-kept :
    (bytes : List ℕ) (off n start k v : ℕ)
    → off + n ≤ start
    → little (store_up bytes start k v) off n ≡ little bytes off n
unfolding little
little-kept bytes off zero start k v h = refl
little-kept bytes off (suc n) start k v h =
    ap₂ (λ (a b : ℕ). a + b * 256) (store_up-below bytes start k v off (omega arith))
      (little-kept bytes (off + 1) n start k v (omega arith))
