-- ===== src/Usi/TimeController.antt =====
-- AdaptiveTimeController of usi/time_manager.cc: when a search stops.
pub mod Stops
pub mod Search
use jhbr.Base.{
  ℕ, ◌+◌, Bool, true, false, not, ◌&&◌, ◌||◌, if◌then◌else◌, ℤ, pos, negsuc, ltℤ, ◌+ℤ◌, ◌-ℤ◌, ◌*ℤ◌,
  quot, max_ℤ, List, [], ◌∷◌,
}
use jhbr.Usi.Floats.{Floats, max_of}
use jhbr.Usi.TimeManager.{TimeBudget, positive}

pub data TimeStopReason : Type 0 where
  kept_on proven early_dominant target_stable extension_stable latest : TimeStopReason
  legacy_limit node_limit external tree_full : TimeStopReason

pub record RootSearchSnapshot (F : Type 0) : Type 0 where
  pub elapsed_ms : ℤ
  pub new_playouts : ℤ
  pub best_index : ℤ
  pub second_index : ℤ
  pub best_visits : ℤ
  pub second_visits : ℤ
  pub best_q : F
  pub second_q : F
  pub best_proven : Bool

-- AdaptiveTimeDecision without its copy of the snapshot.
pub record AdaptiveTimeDecision : Type 0 where
  pub should_stop : Bool
  pub extension_active : Bool
  pub reason : TimeStopReason
  pub effective_deadline_ms : ℤ
  pub best_changes : ℤ
  pub stable_ms : ℤ
  pub projected_remaining : ℤ

pub record Controller (F D : Type 0) : Type 0 where
  pub budget : TimeBudget F
  pub in_flight_playouts : ℤ
  pub last_best_index : ℤ
  pub last_best_change_ms : ℤ
  pub last_sample_ms : ℤ
  pub last_sample_playouts : ℤ
  pub ema_nps : D
  pub extension_deadline_ms : ℤ
  pub decision : AdaptiveTimeDecision

abbrev pub negative : ℤ → Bool
negative a = ltℤ a (pos 0)

abbrev pub same_ℤ : ℤ → ℤ → Bool
same_ℤ a b = not (ltℤ a b) && not (ltℤ b a)

unfoldable pub has_adaptive_deadline : {F : Type 0} → TimeBudget F → Bool
has_adaptive_deadline b = positive b.target_stop_ms && positive b.latest_search_ms

module _ (f d : Floats) where
  abbrev pub TimeController : Type 0
  TimeController = Controller f.Value d.Value

  abbrev pub Snapshot : Type 0
  Snapshot = RootSearchSnapshot f.Value

  abbrev pub zero_d : d.Value
  zero_d = d.literal 0 1

  -- AdaptiveTimeController::Reset
  unfoldable pub reset : TimeBudget f.Value → ℤ → TimeController
  reset b in_flight = record {
    budget = b;
    in_flight_playouts = max_ℤ in_flight (pos 0);
    last_best_index = negsuc 0;
    last_best_change_ms = pos 0;
    last_sample_ms = pos 0;
    last_sample_playouts = pos 0;
    ema_nps = zero_d;
    extension_deadline_ms = pos 0;
    decision = record {
      should_stop = false;
      extension_active = false;
      reason = kept_on;
      effective_deadline_ms = b.target_stop_ms;
      best_changes = pos 0;
      stable_ms = pos 0;
      projected_remaining = pos 0;
    };
  }

  -- ProjectRemaining: the rates, and the playouts that they leave up to a deadline.
  unfoldable pub whole_nps : Snapshot → d.Value
  whole_nps s =
      d.over (d.times (d.of_int s.new_playouts) (d.literal 10000 1))
        (d.of_int (max_ℤ s.elapsed_ms (pos 1)))

  unfoldable pub recent_nps : Snapshot → TimeController → d.Value
  recent_nps s c =
      if positive c.last_sample_ms
        && (ltℤ c.last_sample_ms s.elapsed_ms && not (ltℤ s.new_playouts c.last_sample_playouts))
      then d.over
          (d.times (d.of_int (s.new_playouts -ℤ c.last_sample_playouts)) (d.literal 10000 1))
          (d.of_int (s.elapsed_ms -ℤ c.last_sample_ms))
      else whole_nps s

  unfoldable pub mean_nps : d.Value → d.Value → d.Value
  mean_nps ema recent =
      if d.less_eq ema zero_d
      then recent
      else d.plus (d.times (d.literal 75 2) ema) (d.times (d.literal 25 2) recent)

  unfoldable pub project_remaining : Snapshot → ℤ → TimeController → ℤ × TimeController
  project_remaining s deadline c =
      let whole = whole_nps s in
      let recent = recent_nps s c in
      let ema = mean_nps c.ema_nps recent in
      let upper = max_of d (max_of d (max_of d whole recent) ema) zero_d in
      let remaining = max_ℤ (deadline -ℤ s.elapsed_ms) (pos 0) in
      (
        d.ceil (
              d.over (d.times (d.times (d.literal 120 2) upper) (d.of_int remaining))
                (d.literal 10000 1))
            +ℤ c.in_flight_playouts,
        record c {
          ema_nps = ema;
          last_sample_ms = s.elapsed_ms;
          last_sample_playouts = s.new_playouts;
        },
      )

  abbrev pub stable_for : Snapshot → TimeController → ℤ
  stable_for s c = max_ℤ (s.elapsed_ms -ℤ c.last_best_change_ms) (pos 0)

  -- StableAndDominant, with the tolerance 0.02f of its calls.
  unfoldable pub stable_and_dominant : Snapshot → ℤ → ℤ → TimeController → Bool × TimeController
  stable_and_dominant s deadline required c =
      let (projected, c') = project_remaining s deadline c in
      let stable = stable_for s c' in
      (
        not (negative s.best_index)
            && (not (ltℤ stable required)
                && (ltℤ projected (s.best_visits -ℤ s.second_visits)
                    && f.less_eq (f.minus s.second_q (f.literal 2 2)) s.best_q)),
        record c' {
          decision = record c'.decision { projected_remaining = projected; stable_ms = stable };
        },
      )

  -- A decision to stop, with its deadline.
  abbrev pub stopped : TimeStopReason → ℤ → TimeController → TimeController
  stopped reason deadline c = record c {
    decision = record c.decision {
      should_stop = true;
      reason = reason;
      effective_deadline_ms = deadline;
    };
  }

  unfoldable pub track_best : Snapshot → TimeController → TimeController
  track_best s c =
      let moved = record c {
        last_best_index = s.best_index;
        last_best_change_ms = s.elapsed_ms;
        decision = record c.decision {
          best_changes =
              if negative c.last_best_index
              then c.decision.best_changes
              else c.decision.best_changes +ℤ pos 1;
        };
      } in
      let c' = if same_ℤ s.best_index c.last_best_index then c else moved in
      record c' { decision = record c'.decision { stable_ms = stable_for s c' } }

  abbrev pub stable_required : TimeController → ℤ
  stable_required c = max_ℤ (pos 200) (quot c.budget.target_stop_ms 10)

  -- The end of Update, with an extension deadline.
  unfoldable pub extending : Snapshot → TimeController → TimeController
  extending s c =
      let dominant = stable_and_dominant s c.extension_deadline_ms (stable_required c) c in
      if not (ltℤ s.elapsed_ms c.extension_deadline_ms)
      then stopped latest c.decision.effective_deadline_ms c
      else if dominant.0
      then stopped extension_stable s.elapsed_ms dominant.1
      else dominant.1

  unfoldable pub extend_to : ℤ → TimeController → TimeController
  extend_to deadline c = record c {
    extension_deadline_ms = deadline;
    decision = record c.decision { extension_active = true; effective_deadline_ms = deadline };
  }

  abbrev pub q_inversion : Snapshot → Bool
  q_inversion s = f.less (f.plus s.best_q (f.literal 2 2)) s.second_q

  abbrev pub recent_change : TimeController → Bool
  recent_change c = ltℤ c.decision.stable_ms (stable_required c)

  -- Whether the second move may still catch up, by these playouts that are to come.
  unfoldable pub visit_pressure : Snapshot → ℤ → Bool
  visit_pressure s projected =
      let ratio = d.over (d.of_int s.best_visits) (d.of_int (max_ℤ s.second_visits (pos 1))) in
      d.less ratio (d.literal 15 1) || not (ltℤ projected (s.best_visits -ℤ s.second_visits))

  unfoldable pub extension_goal : Snapshot → TimeController → ℤ
  extension_goal s c =
      let target = c.budget.target_stop_ms in
      if q_inversion s || recent_change c
      then c.budget.latest_search_ms
      else target +ℤ quot (c.budget.latest_search_ms -ℤ target) 2

  -- The first time past the target: whether to extend, and how far.
  unfoldable pub open_extension : Snapshot → TimeController → TimeController
  open_extension s c =
      let (projected, c') = project_remaining s c.budget.latest_search_ms c in
      if not (q_inversion s) && (not (recent_change c') && not (visit_pressure s projected))
      then stopped target_stable c'.budget.target_stop_ms c'
      else extending s (extend_to (extension_goal s c') c')

  unfoldable pub at_target : Snapshot → TimeController → TimeController
  at_target s c =
      if not c.budget.allow_extension || not (ltℤ c.budget.target_stop_ms c.budget.latest_search_ms)
      then stopped target_stable c.budget.target_stop_ms c
      else if same_ℤ c.extension_deadline_ms (pos 0)
      then open_extension s c
      else extending s c

  unfoldable pub past_early : Snapshot → TimeController → TimeController
  past_early s c = if ltℤ s.elapsed_ms c.budget.target_stop_ms then c else at_target s c

  unfoldable pub unproven : Snapshot → TimeController → TimeController
  unproven s c =
      let dominant = stable_and_dominant s c.budget.target_stop_ms (stable_required c) c in
      if c.budget.allow_early_stop
        && (not (ltℤ s.elapsed_ms c.budget.earliest_stop_ms)
            && ltℤ s.elapsed_ms c.budget.target_stop_ms)
      then (if dominant.0
          then stopped early_dominant s.elapsed_ms dominant.1
          else past_early s dominant.1)
      else past_early s c

  unfoldable pub judge : Snapshot → TimeController → TimeController
  judge s c = if s.best_proven then stopped proven s.elapsed_ms c else unproven s c

  -- AdaptiveTimeController::Update
  unfoldable pub update : Snapshot → TimeController → TimeController
  update s c =
      if not (has_adaptive_deadline c.budget) || c.decision.should_stop
      then c
      else judge s (track_best s c)

  -- The updates of a search.
  unfoldable pub updates : List Snapshot → TimeController → TimeController
  updates [] c = c
  updates (s ∷ ss) c = updates ss (update s c)
