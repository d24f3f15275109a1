-- ===== src/Usi/TimeManager.antt =====
-- TimeManager::Compute of usi/time_manager.cc: the time budget of one move. `float` and `double` are
-- parameters; an `int` is an integer that does not overflow.
pub mod Bounds
use jhbr.Base.{
  ℕ, ◌+◌, Bool, true, false, not, ◌&&◌, ◌||◌, if◌then◌else◌, ℤ, pos, negsuc, ltℤ, ◌+ℤ◌, ◌-ℤ◌, ◌*ℤ◌,
  quot, max_ℤ, min_ℤ, clamp,
}
use jhbr.Usi.Floats.{Floats, max_of, clamp_of}

pub data TimeManagementMode : Type 0 where
  off shadow on : TimeManagementMode

abbrev pub is_off : TimeManagementMode → Bool
is_off off = true
is_off shadow = false
is_off on = false

pub record TimeControl : Type 0 where
  pub main_time_ms : ℤ
  pub increment_ms : ℤ
  pub byoyomi_ms : ℤ
  pub move_time_ms : ℤ
  pub game_ply : ℤ
  pub has_main_time : Bool
  pub has_explicit_nodes : Bool
  pub infinite : Bool
  pub ponder : Bool

pub record TimeOptions : Type 0 where
  pub max_move_time_ms : ℤ
  pub max_move_time_1m_ms : ℤ
  pub move_overhead_ms : ℤ
  pub max_extension_percent : ℤ
  pub mode : TimeManagementMode

pub record TimeBudget (F : Type 0) : Type 0 where
  pub mode : TimeManagementMode
  pub mcts_time_seconds : F
  pub active_move_cap_ms : ℤ
  pub hard_deadline_ms : ℤ
  pub earliest_stop_ms : ℤ
  pub target_stop_ms : ℤ
  pub latest_search_ms : ℤ
  pub root_guard_deadline_ms : ℤ
  pub response_deadline_ms : ℤ
  pub allow_early_stop : Bool
  pub allow_extension : Bool

abbrev pub positive : ℤ → Bool
positive a = ltℤ (pos 0) a

-- ActiveMoveCap
unfoldable pub active_move_cap : TimeControl → TimeOptions → ℤ
active_move_cap c o =
    if positive o.max_move_time_1m_ms && (positive c.main_time_ms && ltℤ c.main_time_ms (pos 60000))
    then o.max_move_time_1m_ms
    else o.max_move_time_ms

unfoldable pub pure_byoyomi : TimeControl → Bool
pure_byoyomi c = positive c.byoyomi_ms && (not c.has_main_time && not (positive c.increment_ms))

unfoldable pub cap_only : TimeControl → ℤ → Bool
cap_only c cap =
    positive cap
    && (not (positive c.move_time_ms)
        && (not c.has_main_time && (not (positive c.main_time_ms) && not (positive c.byoyomi_ms))))

-- The clamped overhead and the deadline that the clock leaves, 0 where there is none.
unfoldable pub overhead : TimeOptions → ℤ
overhead o = clamp o.move_overhead_ms (pos 0) (pos 5000)

unfoldable pub clock_response : TimeControl → ℤ → ℤ
clock_response c over =
    if positive c.move_time_ms
    then max_ℤ (c.move_time_ms -ℤ over) (pos 1)
    else if positive c.main_time_ms || positive c.byoyomi_ms
    then max_ℤ (c.main_time_ms +ℤ c.byoyomi_ms -ℤ over) (pos 1)
    else if c.has_main_time
    then pos 1
    else pos 0

unfoldable pub capped_response : ℤ → ℤ → ℤ → ℤ
capped_response cap over response =
    let capped = max_ℤ (cap -ℤ over) (pos 1) in
    if positive cap then (if positive response then min_ℤ response capped else capped) else response

unfoldable pub response_ms : TimeControl → TimeOptions → ℤ
response_ms c o = capped_response (active_move_cap c o) (overhead o) (clock_response c (overhead o))

unfoldable pub byoyomi_floor : TimeControl → TimeOptions → ℤ
byoyomi_floor c o = max_ℤ (c.byoyomi_ms -ℤ overhead o) (pos 0)

unfoldable pub earliest_ms : TimeControl → TimeOptions → ℤ → ℤ
earliest_ms c o target = min_ℤ (max_ℤ (max_ℤ (pos 100) (quot target 10)) (byoyomi_floor c o)) target

unfoldable pub extends_search : TimeControl → Bool
extends_search c =
    not (positive c.move_time_ms)
    && (not (pure_byoyomi c)
        && (c.has_main_time && (not (ltℤ c.main_time_ms (pos 10000)) && not c.has_explicit_nodes)))

unfoldable pub extension_percent : TimeControl → TimeOptions → ℤ
extension_percent c o =
    let percent = clamp o.max_extension_percent (pos 100) (pos 300) in
    let short = if ltℤ c.main_time_ms (pos 60000) then min_ℤ percent (pos 125) else percent in
    if extends_search c then short else pos 100

unfoldable pub latest_ms : TimeControl → TimeOptions → ℤ → ℤ → ℤ
latest_ms c o target response = clamp (quot (target *ℤ extension_percent c o) 100) target response

module _ (f d : Floats) where
  abbrev pub thousand : f.Value
  thousand = f.literal 1000 0

  -- ComputeLegacy: the nominal search time, before and after the cap.
  unfoldable pub nominal_seconds : TimeControl → TimeOptions → f.Value
  nominal_seconds c o =
      let main =
        f.over
          (f.plus (f.times (f.of_int c.main_time_ms) (f.literal 5 2))
            (f.times (f.of_int c.increment_ms) (f.literal 8 1)))
          thousand in
      if positive c.move_time_ms
      then f.over (f.of_int (max_ℤ (c.move_time_ms -ℤ o.move_overhead_ms) (pos 1))) thousand
      else if positive c.byoyomi_ms
      then f.times (f.over (f.of_int c.byoyomi_ms) thousand) (f.literal 9 1)
      else if c.has_main_time
      then max_of f main (f.literal 1 1)
      else f.literal 0 0

  unfoldable pub legacy_seconds : TimeControl → TimeOptions → f.Value
  legacy_seconds c o =
      let nominal = nominal_seconds c o in
      let cap = active_move_cap c o in
      let cap_seconds =
        max_of f (f.minus (f.over (f.of_int cap) thousand) (f.literal 5 1)) (f.literal 5 1) in
      if not (positive c.move_time_ms) && positive cap
      then (if f.less_eq nominal (f.literal 0 0) || f.less cap_seconds nominal
          then cap_seconds
          else nominal)
      else nominal

  unfoldable pub legacy_deadline : TimeControl → TimeOptions → ℤ
  legacy_deadline c o =
      let cap = active_move_cap c o in
      let seconds = legacy_seconds c o in
      if positive c.move_time_ms
      then c.move_time_ms
      else if positive cap
      then cap
      else if f.less (f.literal 0 0) seconds
      then f.truncate (f.times seconds thousand) +ℤ pos 2000
      else pos 0

  unfoldable pub compute_legacy : TimeControl → TimeOptions → TimeBudget f.Value
  compute_legacy c o = record {
    mode = off;
    mcts_time_seconds = legacy_seconds c o;
    active_move_cap_ms = active_move_cap c o;
    hard_deadline_ms = legacy_deadline c o;
    earliest_stop_ms = pos 0;
    target_stop_ms = pos 0;
    latest_search_ms = pos 0;
    root_guard_deadline_ms = pos 0;
    response_deadline_ms = pos 0;
    allow_early_stop = false;
    allow_extension = false;
  }

  unfoldable pub phase_divisor : ℤ → d.Value
  phase_divisor game_ply =
      let opening =
        clamp_of d
          (d.over (d.minus (d.literal 400 1) (d.of_int (max_ℤ game_ply (pos 0)))) (d.literal 400 1))
          (d.literal 0 1) (d.literal 10 1) in
      d.plus (d.literal 140 1) (d.times (d.literal 260 1) opening)

  unfoldable pub target_ms : TimeControl → TimeOptions → ℤ → ℤ
  target_ms c o response =
      let main_budget =
        d.plus (d.over (d.of_int c.main_time_ms) (phase_divisor c.game_ply))
          (d.times (d.literal 8 1) (d.of_int c.increment_ms)) in
      let rounded = d.lround (max_of d main_budget (d.of_int (byoyomi_floor c o))) in
      if positive c.move_time_ms || (pure_byoyomi c || cap_only c (active_move_cap c o))
      then response
      else min_ℤ (max_ℤ rounded (pos 100)) response

  -- In mode `on` the adaptive time points control the search.
  abbrev pub under_mode : TimeManagementMode → TimeBudget f.Value → TimeBudget f.Value
  under_mode off b = b
  under_mode shadow b = b
  under_mode on b = record b {
    mcts_time_seconds = f.over (f.of_int b.latest_search_ms) thousand;
    hard_deadline_ms = b.response_deadline_ms;
  }

  -- The adaptive part of Compute, from a deadline on.
  unfoldable pub adapt : TimeControl → TimeOptions → ℤ → TimeBudget f.Value → TimeBudget f.Value
  adapt c o response b =
      let target = target_ms c o response in
      let latest = latest_ms c o target response in
      let adaptive = record b {
        earliest_stop_ms = if pure_byoyomi c then target else earliest_ms c o target;
        target_stop_ms = target;
        latest_search_ms = latest;
        response_deadline_ms = response;
        root_guard_deadline_ms = response;
        allow_early_stop =
            not (pure_byoyomi c)
            && (not (cap_only c (active_move_cap c o))
                && (not (positive c.move_time_ms)
                    && (positive c.main_time_ms && not c.has_explicit_nodes)));
        allow_extension = extends_search c && ltℤ target latest;
      } in
      under_mode o.mode adaptive

  -- TimeManager::Compute
  unfoldable pub compute : TimeControl → TimeOptions → TimeBudget f.Value
  compute c o =
      let b = record (compute_legacy c o) { mode = o.mode } in
      let response = response_ms c o in
      if c.infinite
      then record b { mcts_time_seconds = f.literal 0 0; hard_deadline_ms = pos 0 }
      else if is_off o.mode || c.ponder
      then b
      else if positive response
      then adapt c o response b
      else b
