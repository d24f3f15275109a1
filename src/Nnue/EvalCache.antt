-- ===== src/Nnue/EvalCache.antt =====
-- nnue/eval_cache.h: the value cache, one 64-bit entry for each slot. The atomics are plain fields,
-- read and written by one thread.
pub mod Entries
pub mod Lookup
use jhbr.Base.{
  ℕ, zero, suc, ◌+◌, ◌-◌, ◌*◌, ◌/◌, ◌%◌, ◌^◌, bit_and, bit_or, Bool, true, false, not, ◌==◌, leb,
  List, Option, none, some, if◌then◌else◌, get_or, set, replicate, u64,
}
use jhbr.Nnue.Floats.{Floats}

pub record EvalCache : Type 0 where
  pub table : List ℕ
  pub capacity : ℕ
  pub lookups : ℕ
  pub hits : ℕ
  pub occupied : ℕ

-- Clear
unfoldable pub clear : EvalCache → EvalCache
clear c = record c { table = replicate c.capacity 0; lookups = 0; hits = 0; occupied = 0 }

-- The doubling loop of Resize; a capacity of 64 bits doubles at most 64 times.
unfoldable pub double_up : ℕ → ℕ → ℕ → ℕ
double_up n zero cap = cap
double_up n (suc fuel) cap =
    let more = double_up n fuel (cap * 2) in if leb (cap * 2) n then more else cap

unfoldable pub resize : ℕ → EvalCache → EvalCache
unfolding clear
resize mb c =
    let n = mb * 1024 * 1024 / 8 in
    let cap = if n == 0 then 0 else double_up n 64 1 in
    clear (record c { capacity = cap; table = replicate cap 0 })

-- Tag: 0 marks an empty slot.
unfoldable pub tag : ℕ → ℕ
tag key = let t = key / 2 ^ 32 % 2 ^ 32 in if t == 0 then 1 else t

abbrev pub slot : EvalCache → ℕ → ℕ
slot c key = bit_and key (c.capacity - 1)

-- The entry of a key with its two quantised values.
unfoldable pub entry : ℕ → ℕ → ℕ → ℕ
entry t win draw = bit_or (bit_or (t * 2 ^ 32) (win * 2 ^ 16)) draw

module _ (f : Floats) where
  -- `q` of Store: clamped to 0 … 1, in units of 1/65535.
  unfoldable pub quantise : f.Value → ℕ
  quantise x =
      let y =
        (if f.less x (f.of_uint 0)
          then f.of_uint 0
          else if f.less (f.of_uint 1) x
          then f.of_uint 1
          else x) in
      f.to_uint (f.plus (f.times y (f.of_uint 65535)) f.half)

  -- Probe: `win` and `draw` on a hit.
  unfoldable pub probe_cache : ℕ → EvalCache → Option (f.Value × f.Value) × EvalCache
  probe_cache key c =
      let v = get_or c.table (slot c key) 0 in
      let looked = record c { lookups = u64 (c.lookups + 1) } in
      if c.capacity == 0
      then (none, c)
      else if not (v / 2 ^ 32 % 2 ^ 32 == tag key)
      then (none, looked)
      else (
        some (
          f.over (f.of_uint (bit_and (v / 2 ^ 16) 0xffff)) (f.of_uint 65535),
          f.over (f.of_uint (bit_and v 0xffff)) (f.of_uint 65535),
        ),
        record looked { hits = u64 (looked.hits + 1) },
      )

  -- Store
  unfoldable pub store : ℕ → f.Value → f.Value → EvalCache → EvalCache
  unfolding quantise
  store key win draw c =
      let v = entry (tag key) (quantise win) (quantise draw) in
      if c.capacity == 0 then c else record c {
        occupied = if get_or c.table (slot c key) 0 == 0 then u64 (c.occupied + 1) else c.occupied;
        table = set c.table (slot c key) v;
      }

-- Stats::hashfull
unfoldable pub hashfull : EvalCache → ℕ
hashfull c = if c.capacity == 0 then 0 else u64 (c.occupied * 1000) / c.capacity
