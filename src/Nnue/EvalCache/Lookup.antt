-- ===== src/Nnue/EvalCache/Lookup.antt =====
-- What Store writes and what Probe then answers for every key.
use jhbr.Base.{
  ℕ, ◌+◌, ◌-◌, ◌/◌, ◌%◌, ◌^◌, ◌<◌, ◌≡◌, ◌≢◌, refl, sym, ap, ap₂, ◌∙◌, inl, inr, bit_and, false,
  ◌==◌, eq→==, ==→eq, Option, none, some, arith, Bool-cases, length, length-set, u64, get_or, set,
  get_or-set_self, get_or-set_ne, if◌then◌else◌,
}
use jhbr.Base.Words.{bit_and-mask}
use native.Mathlib.Nat.{mod-lt, one-le-pow}
use jhbr.Nnue.Floats.{Floats, IsNumber, IsRounding}
use jhbr.Nnue.EvalCache.{EvalCache, slot, tag, entry, quantise, probe_cache, store}
use jhbr.Nnue.EvalCache.Entries.{
  tag-lt, entry-fields, SameUpper, tag-SameUpper, SameUpper-tag, tag-ne-zero, share, Level,
  quantise-Level, Level-bound,
}

-- A table of as many slots as the capacity says, a power of two.
pub record IsCache (c : EvalCache) (k : ℕ) : Type 0 where
  pub power : c.capacity ≡ 2 ^ k
  pub size : length c.table ≡ c.capacity

slot_lem : (c : EvalCache) (k key : ℕ) → IsCache c k → slot c key ≡ key % 2 ^ k
slot_lem c k key h = ap (λ t. bit_and key (t - 1)) h.power ∙ bit_and-mask k key

nonzero : (c : EvalCache) (k : ℕ) → IsCache c k → (c.capacity == 0) ≡ false
nonzero c k h = ground (arith, h.power, one-le-pow k 2)

module _ (f : Floats) where
  -- What a tag finds in a value of a table.
  abbrev pub found_in : ℕ → ℕ → Option (f.Value × f.Value)
  found_in v t =
      if v / 2 ^ 32 % 2 ^ 32 == t
      then some (share f (v / 2 ^ 16 % 65536), share f (v % 65536))
      else none

  -- The entry of a tag shows its levels to that tag, and nothing to another one.
  found_in-entry :
      (t win draw : ℕ)
      → t < 2 ^ 32
      → win < 65536
      → draw < 65536
      → (found_in (entry t win draw) t ≡ some (share f win, share f draw))
        × ((other : ℕ) → t ≢ other → found_in (entry t win draw) other ≡ none)
  found_in-entry t win draw ht hw hd =
      let e = entry-fields t win draw ht hw hd in
      (
        rw (e.0, e.1, e.2) (rw (eq→== t t refl) refl),
        λ other ne. rw e.0 (elim (Bool-cases (t == other)) [
          | inl q ↦ absurd (ne (==→eq t other q))
          | inr q ↦ rw q refl
        ]),
      )

  probe_cache-found :
      (c : EvalCache) (k key : ℕ)
      → IsCache c k
      → (probe_cache f key c).0 ≡ found_in (get_or c.table (key % 2 ^ k) 0) (tag key)
  unfolding probe_cache
  probe_cache-found c k key h =
      rw (slot_lem c k key h) (elim (Bool-cases (v / 2 ^ 32 % 2 ^ 32 == tag key)) [
        | inl m ↦
            rw (nonzero c k h, m, probe_cache)
              (ap₂ (λ (a b : ℕ). some (share f a, share f b)) (bit_and-mask 16 (v / 2 ^ 16))
                (bit_and-mask 16 v))
        | inr m ↦ rw (nonzero c k h, m, probe_cache)
      ])
    where
      v : ℕ
      v = get_or c.table (key % 2 ^ k) 0

  -- What is found once `win` and `draw` are stored for `key`, as two levels. Keys with the same
  -- lower `k` bits share f a slot.
  pub record IsStored (k key : ℕ) (win draw : f.Value) (c next : EvalCache) : Type 0 where
    pub w : ℕ
    pub d : ℕ
    pub w_level : Level f win w
    pub d_level : Level f draw d
    pub hit :
        (other : ℕ)
        → other < 2 ^ 64
        → key % 2 ^ k ≡ other % 2 ^ k
        → SameUpper key other
        → (probe_cache f other next).0 ≡ some (share f w, share f d)
    pub miss :
        (other : ℕ)
        → other < 2 ^ 64
        → key % 2 ^ k ≡ other % 2 ^ k
        → ¬ SameUpper key other
        → (probe_cache f other next).0 ≡ none
    pub elsewhere :
        (other : ℕ)
        → key % 2 ^ k ≢ other % 2 ^ k
        → (probe_cache f other next).0 ≡ (probe_cache f other c).0
    pub empty :
        (other : ℕ) → get_or c.table (other % 2 ^ k) 0 ≡ 0 → (probe_cache f other c).0 ≡ none

-- In a cache whose table has as many slots as its capacity, 2^k, let Store be called with a 64-bit key
-- and two floats that are not NaN. Each is kept as a level: 0 for a value below 0, 65535 for one above
-- 1, and else the value in units of 1/65535, rounded. After that Probe answers the two levels over 65535
-- for any 64-bit key that has the same lower k bits and the same upper word, where the upper words 0
-- and 1 count as the same, and misses for any other key of that slot. Every key of another slot is
-- answered as before, and no key is found in a slot that holds 0. Of the floats it assumes that 0 and 1
-- round to the levels 0 and 65535 and that no number between them rounds to a higher level.
pub probe_cache-store :
    (f : Floats) (c : EvalCache) (k key : ℕ) (win draw : f.Value)
    → IsRounding f
    → IsCache c k
    → key < 2 ^ 64
    → IsNumber f win
    → IsNumber f draw
    → IsStored f k key win draw c (store f key win draw c)
unfolding store
probe_cache-store f c k key win draw r h small win_number draw_number =
    rw (nonzero c k h, slot_lem c k key h, store)
      record {
        w = w;
        d = d;
        w_level = w_level;
        d_level = d_level;
        hit = λ other lt same upper.
            in_slot other same
            ∙ ap (found_in f value) (sym (tag-SameUpper key other small lt upper))
            ∙ shown.0;
        miss = λ other lt same differ.
            in_slot other same
            ∙ shown.1 (tag other) (λ e. differ (SameUpper-tag key other small lt e));
        elsewhere = λ other ne.
            probe_cache-found f after k other after-IsCache
            ∙ ap (λ v. found_in f v (tag other))
                (get_or-set_ne c.table (key % 2 ^ k) (other % 2 ^ k) value 0 ne)
            ∙ sym (probe_cache-found f c k other h);
        empty =
            λ other e. probe_cache-found f c k other h ∙ rw e (ground (arith, tag-ne-zero other));
      }
  where
    w : ℕ
    w = quantise f win

    d : ℕ
    d = quantise f draw

    w_level : Level f win w
    w_level = quantise-Level f r win win_number

    d_level : Level f draw d
    d_level = quantise-Level f r draw draw_number

    value : ℕ
    value = entry (tag key) w d

    shown :
        (found_in f value (tag key) ≡ some (share f w, share f d))
        × ((other : ℕ) → tag key ≢ other → found_in f value other ≡ none)
    shown =
        found_in-entry f (tag key) w d (tag-lt key) (Level-bound f win w w_level)
          (Level-bound f draw d d_level)

    after : EvalCache
    after = record c {
      occupied = if get_or c.table (key % 2 ^ k) 0 == 0 then u64 (c.occupied + 1) else c.occupied;
      table = set c.table (key % 2 ^ k) value;
    }

    after-IsCache : IsCache after k
    after-IsCache = record {
      power = h.power;
      size = length-set c.table (key % 2 ^ k) value ∙ h.size;
    }

    in_slot :
        (other : ℕ)
        → key % 2 ^ k ≡ other % 2 ^ k
        → (probe_cache f other after).0 ≡ found_in f value (tag other)
    in_slot other same =
        probe_cache-found f after k other after-IsCache
        ∙ rw (sym same) (
            ap (λ v. found_in f v (tag other))
              (get_or-set_self c.table (key % 2 ^ k) value 0 (
                omega
                  (arith, mod-lt key {m = 2 ^ k} (one-le-pow k 2 (omega arith)), h.power, h.size))))
