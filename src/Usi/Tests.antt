-- ===== src/Usi/Tests.antt =====
-- The clock at a game with main time and byoyomi, with floats of three decimal places.
use jhbr.Base.{
  ℕ, ◌*◌, ◌^◌, ◌≡◌, ◌⊎◌, inl, inr, refl, true, false, false≢true, not, List, [], ◌∷◌, ◌++◌, arith,
  ℤ, pos, pos_part, ltℤ, ◌+ℤ◌, ◌-ℤ◌, ◌*ℤ◌, ◌≤ℤ◌, quot, max_ℤ, min_ℤ, clamp,
}
use jhbr.Usi.Floats.{Floats}
use jhbr.Usi.TimeManager.{
  TimeControl, TimeOptions, TimeBudget, on, compute, response_ms, active_move_cap, capped_response,
  clock_response, overhead, adapt, target_ms, pure_byoyomi, cap_only, phase_divisor, byoyomi_floor,
  earliest_ms, extends_search, extension_percent, latest_ms, compute_legacy,
}
use jhbr.Usi.TimeManager.Bounds.{IsScheduled, IsUnscheduled, compute_bounds}
use jhbr.Usi.TimeController.{proven, RootSearchSnapshot, reset, updates}
use jhbr.Usi.TimeController.Search.{Reaches, updates_by_latest, updates_from_earliest}

abbrev three_places : Floats
three_places = record {
  Value = ℤ;
  of_int = λ n. n *ℤ pos 1000;
  literal = λ n k. quot (pos (n * 1000)) (10 ^ k);
  plus = λ a b. a +ℤ b;
  minus = λ a b. a -ℤ b;
  times = λ a b. quot (a *ℤ b) 1000;
  over = λ a b. quot (a *ℤ pos 1000) (pos_part b);
  less = ltℤ;
  less_eq = λ a b. not (ltℤ b a);
  truncate = λ a. quot a 1000;
  lround = λ a. quot (a +ℤ pos 500) 1000;
  ceil = λ a. quot (a +ℤ pos 999) 1000;
}

abbrev ten_minutes : TimeControl
ten_minutes = record {
  main_time_ms = pos 600000;
  increment_ms = pos 0;
  byoyomi_ms = pos 10000;
  move_time_ms = pos 0;
  game_ply = pos 40;
  has_main_time = true;
  has_explicit_nodes = false;
  infinite = false;
  ponder = false;
}

abbrev managed : TimeOptions
managed = record {
  max_move_time_ms = pos 0;
  max_move_time_1m_ms = pos 0;
  move_overhead_ms = pos 100;
  max_extension_percent = pos 175;
  mode = on;
}

abbrev plan : TimeBudget ℤ
plan = compute three_places three_places ten_minutes managed

plan_numbers :
    (plan.target_stop_ms ≡ pos 42857)
    × (plan.latest_search_ms ≡ pos 74999)
    × (plan.response_deadline_ms ≡ pos 609900)
    × (plan.earliest_stop_ms ≡ pos 9900)
unfolding compute response_ms max_ℤ ◌-ℤ◌ ◌+ℤ◌ ◌*ℤ◌ clamp min_ℤ quot active_move_cap capped_response
    clock_response overhead adapt target_ms pure_byoyomi cap_only phase_divisor byoyomi_floor
    earliest_ms extends_search extension_percent latest_ms compute_legacy
plan_numbers = (refl, refl, refl, refl)

compute_bounds_example :
    IsUnscheduled ten_minutes managed plan ⊎ IsScheduled ten_minutes managed plan
compute_bounds_example = compute_bounds three_places three_places ten_minutes managed

plan-IsScheduled : IsScheduled ten_minutes managed plan
unfolding response_ms capped_response active_move_cap clock_response max_ℤ ◌-ℤ◌ ◌+ℤ◌ overhead clamp
plan-IsScheduled = elim compute_bounds_example [ inl u ↦ absurd (false≢true u.cause) | inr s ↦ s ]

abbrev snapshot_at : ℕ → RootSearchSnapshot ℤ
snapshot_at ms = record {
  elapsed_ms = pos ms;
  new_playouts = pos ms;
  best_index = pos 3;
  second_index = pos 1;
  best_visits = pos 500;
  second_visits = pos 400;
  best_q = pos 510;
  second_q = pos 505;
  best_proven = false;
}

late : plan.latest_search_ms ≤ℤ pos 80000
late = rw plan_numbers.1 (omega arith)

updates_by_latest_example :
    (updates three_places three_places
      ((snapshot_at 20000 ∷ []) ++ (snapshot_at 80000 ∷ snapshot_at 90000 ∷ []))
      (reset three_places three_places plan (pos 8))).decision.should_stop
    ≡ true
updates_by_latest_example =
    updates_by_latest three_places three_places ten_minutes managed plan-IsScheduled (pos 8)
      (snapshot_at 20000 ∷ []) (snapshot_at 80000) (snapshot_at 90000 ∷ []) late

abbrev stopping : List (RootSearchSnapshot ℤ)
stopping = snapshot_at 20000 ∷ snapshot_at 80000 ∷ []

stopping_stops :
    (updates three_places three_places stopping
      (reset three_places three_places plan (pos 8))).decision.should_stop
    ≡ true
stopping_stops =
    updates_by_latest three_places three_places ten_minutes managed plan-IsScheduled (pos 8)
      (snapshot_at 20000 ∷ []) (snapshot_at 80000) [] late

updates_from_earliest_example :
    ((updates three_places three_places stopping
        (reset three_places three_places plan (pos 8))).decision.reason
      ≡ proven)
    ⊎ Reaches three_places three_places ten_minutes managed plan-IsScheduled stopping
updates_from_earliest_example =
    updates_from_earliest three_places three_places ten_minutes managed plan-IsScheduled (pos 8)
      stopping stopping_stops
