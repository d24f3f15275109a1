-- ===== src/Nnue/Tests.antt =====
-- The value cache at a concrete table and a concrete record.
use jhbr.Base.{
  ◌+◌, ◌*◌, ◌/◌, ◌^◌, ◌≤◌, ◌≡◌, refl, false, none, some, [], ◌∷◌, arith, replicate, ℤ, pos, negsuc,
  pos_part, quot, ltℤ, ◌+ℤ◌, ◌*ℤ◌,
}
use jhbr.Nnue.Floats.{Floats, IsNumber, IsRounding, nearest_level}
use jhbr.Nnue.Record.{Record, written_head, record_bytes, parse_record}
use jhbr.Nnue.Record.RoundTrip.{IsDist, IsRecord, parse_record-record_bytes}
use jhbr.Nnue.EvalCache.{EvalCache, probe_cache, store, quantise, tag, entry}
use jhbr.Nnue.EvalCache.Lookup.{IsCache, IsStored, probe_cache-store}

abbrev small_cache : EvalCache
small_cache = record { table = replicate 4 0; capacity = 4; lookups = 0; hits = 0; occupied = 0 }

small_cache-IsCache : IsCache small_cache 2
small_cache-IsCache = record { power = refl; size = refl }

-- Numbers in thousandths.
abbrev three_places : Floats
three_places = record {
  Value = ℤ;
  of_uint = λ n. pos (n * 1000);
  half = pos 500;
  plus = λ a b. a +ℤ b;
  times = λ a b. quot (a *ℤ b) 1000;
  over = λ a b. quot (a *ℤ pos 1000) (pos_part b);
  less = ltℤ;
  to_uint = λ a. pos_part a / 1000;
}

three_places-IsRounding : IsRounding three_places
unfolding quot ◌*ℤ◌ ◌+ℤ◌
three_places-IsRounding = record { zero_level = refl; one_level = refl; between = levels }
  where
    levels :
        (x : ℤ)
        → IsNumber three_places x
        → ltℤ x (pos 0) ≡ false
        → ltℤ (pos 1000) x ≡ false
        → nearest_level three_places x ≤ 65535
    levels (pos n) num low high = ground (arith, high)
    levels (negsuc n) num low high = ground (arith, low)

-- 0.61 and a value below 0 under the key 5.
abbrev filled : EvalCache
filled = store three_places 5 (pos 610) (negsuc 29) small_cache

probe_cache-store_example : IsStored three_places 2 5 (pos 610) (negsuc 29) small_cache filled
probe_cache-store_example =
    probe_cache-store three_places small_cache 2 5 (pos 610) (negsuc 29) three_places-IsRounding
      small_cache-IsCache (omega arith) refl refl

-- The upper word 1 counts as 0, another one does not, and another slot is still empty.
probed :
    ((probe_cache three_places (2 ^ 32 + 5) filled).0 ≡ some (pos 609, pos 0))
    × ((probe_cache three_places (2 ^ 33 + 5) filled).0 ≡ none)
    × ((probe_cache three_places 6 filled).0 ≡ none)
unfolding probe_cache store quantise tag entry quot ◌*ℤ◌ ◌+ℤ◌
probed = (refl, refl, refl)

abbrev a_training_record : Record
a_training_record = record {
  head = record {
    sfen = replicate 32 7;
    score = negsuc 120;
    move = 3869;
    game_ply = 31;
    result = 255;
    flags = 4;
    n_dist = 0;
    reserved = 0;
  };
  dist = record { move = 3869; visits = 65535 } ∷ record { move = 517; visits = 900 } ∷ [];
}

a_training_record-IsRecord : IsRecord a_training_record
unfolding IsDist
a_training_record-IsRecord = record {
  sfen_size = refl;
  score_range = omega arith;
  move_range = omega arith;
  ply_range = omega arith;
  reserved_range = omega arith;
  dist_size = omega arith;
  dist_range = (omega arith, omega arith, (omega arith, omega arith, tt));
}

parse_record-record_bytes_example :
    parse_record (record_bytes a_training_record (9 ∷ []))
    ≡ some (record { head = written_head a_training_record; dist = a_training_record.dist }, 9 ∷ [])
parse_record-record_bytes_example =
    parse_record-record_bytes a_training_record a_training_record-IsRecord (9 ∷ [])
