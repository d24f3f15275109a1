-- ===== src/Nnue/EvalCache/Entries.antt =====
-- The fields of an entry: its tag and the levels of its two values.
use jhbr.Base.{
  ℕ, ◌+◌, ◌*◌, ◌/◌, ◌%◌, ◌^◌, ◌<◌, ◌≡◌, ◌≢◌, ◌≤◌, ◌⊎◌, refl, ap, ◌∙◌, inl, inr, bit_or, true, false,
  arith, Bool-cases,
}
use jhbr.Base.Words.{bit_or-fields, bit_or_comm}
use jhbr.Nnue.Floats.{Floats, IsNumber, IsRounding, nearest_level}
use jhbr.Nnue.EvalCache.{tag, entry, quantise}

pub tag-lt : (key : ℕ) → tag key < 2 ^ 32
unfolding tag
tag-lt key = ground arith

entry-sum :
    (t win draw : ℕ)
    → win < 65536
    → draw < 65536
    → entry t win draw ≡ t * 4294967296 + win * 65536 + draw
unfolding entry
entry-sum t win draw hw hd =
    bit_or_comm (bit_or (t * 2 ^ 32) (win * 2 ^ 16)) draw
    ∙ ap (bit_or draw) (
        bit_or_comm (t * 2 ^ 32) (win * 2 ^ 16)
        ∙ bit_or-fields 32 t (win * 2 ^ 16) (omega arith)
        ∙ multiple)
    ∙ bit_or-fields 16 (t * 65536 + win) draw (omega arith)
    ∙ omega arith
  where
    multiple : t * 2 ^ 32 + win * 2 ^ 16 ≡ (t * 65536 + win) * 2 ^ 16
    multiple = omega arith

-- The entry of a key that probes, cut into its fields again.
pub entry-fields :
    (t win draw : ℕ)
    → t < 2 ^ 32
    → win < 65536
    → draw < 65536
    → (entry t win draw / 2 ^ 32 % 2 ^ 32 ≡ t)
      × (entry t win draw / 2 ^ 16 % 65536 ≡ win)
      × (entry t win draw % 65536 ≡ draw)
entry-fields t win draw ht hw hd =
    let e = entry-sum t win draw hw hd in
    (omega (arith, e, ht), omega (arith, e, ht), omega (arith, e, ht))

-- The upper words of two keys are equal, or stand for the same word: 0 is replaced by 1.
abbrev pub SameUpper : ℕ → ℕ → Type 0
SameUpper key other = (key / 2 ^ 32 ≡ other / 2 ^ 32) ⊎ ((key / 2 ^ 32 ≤ 1) × (other / 2 ^ 32 ≤ 1))

pub tag-SameUpper :
    (key other : ℕ) → key < 2 ^ 64 → other < 2 ^ 64 → SameUpper key other → tag key ≡ tag other
unfolding tag
tag-SameUpper key other hk ho (inl e) = ground (arith, e)
tag-SameUpper key other hk ho (inr b) = ground (arith, b.0, b.1)

pub SameUpper-tag :
    (key other : ℕ) → key < 2 ^ 64 → other < 2 ^ 64 → tag key ≡ tag other → SameUpper key other
unfolding tag
SameUpper-tag key other hk ho e = ground (arith, e)

pub tag-ne-zero : (key : ℕ) → tag key ≢ 0
unfolding tag
tag-ne-zero key e = ground (arith, e)

module _ (f : Floats) where
  -- A level over 65535.
  abbrev pub share : ℕ → f.Value
  share n = f.over (f.of_uint n) (f.of_uint 65535)

  -- The level that a value is stored as: 0 below 0, 65535 above 1, and between them the nearest.
  pub data Level (x : f.Value) (n : ℕ) : Type 0 where
    below : f.less x (f.of_uint 0) ≡ true → n ≡ 0 → Level x n
    above : f.less x (f.of_uint 0) ≡ false → f.less (f.of_uint 1) x ≡ true → n ≡ 65535 → Level x n
    between :
        f.less x (f.of_uint 0) ≡ false
        → f.less (f.of_uint 1) x ≡ false
        → n ≡ nearest_level f x
        → n ≤ 65535
        → Level x n

  pub quantise-Level : IsRounding f → (x : f.Value) → IsNumber f x → Level x (quantise f x)
  unfolding quantise
  quantise-Level r x num = elim (Bool-cases (f.less x (f.of_uint 0))) [
    | inl b ↦ rw (b, quantise) (below b r.zero_level)
    | inr b ↦ elim (Bool-cases (f.less (f.of_uint 1) x)) [
      | inl a ↦ rw (b, a, quantise) (above b a r.one_level)
      | inr a ↦ rw (b, a, quantise) (between b a refl (r.between x num b a))
    ]
  ]

  pub Level-bound : (x : f.Value) (n : ℕ) → Level x n → n < 65536
  Level-bound x n (below b e) = omega (arith, e)
  Level-bound x n (above b a e) = omega (arith, e)
  Level-bound x n (between b a e le) = omega (arith, le)
