-- ===== src/Usi/TimeManager/Bounds.antt =====
-- The order of the deadlines that TimeManager::Compute sets, and what they leave of the clock.
use jhbr.Base.{
  ◌≡◌, refl, ◌⊎◌, inl, inr, true, false, not, ◌||◌, Bool-cases, arith, ℤ, pos, ◌+ℤ◌, ◌-ℤ◌, ◌*ℤ◌,
  ◌≤ℤ◌, quot, max_ℤ, min_ℤ, ltℤ-cases, max_ℤ_bounds, min_ℤ_bounds, min_ℤ_greatest, clamp_bounds,
}
use jhbr.Usi.Floats.{Floats}
use jhbr.Usi.TimeManager.{
  TimeControl, TimeOptions, TimeBudget, TimeManagementMode, under_mode, off, shadow, on, is_off,
  positive, active_move_cap, overhead, clock_response, capped_response, response_ms, byoyomi_floor,
  earliest_ms, latest_ms, extension_percent, pure_byoyomi, cap_only, target_ms, adapt, compute,
  compute_legacy,
}

-- The deadline leaves the overhead, on the clock that the command gave and under the cap.
pub record InTime (c : TimeControl) (o : TimeOptions) (response : ℤ) : Type 0 where
  pub by_move_time :
      positive c.move_time_ms ≡ true → response ≤ℤ max_ℤ (c.move_time_ms -ℤ overhead o) (pos 1)
  pub by_clock :
      positive c.move_time_ms ≡ false
      → (positive c.main_time_ms || positive c.byoyomi_ms) ≡ true
      → response ≤ℤ max_ℤ (c.main_time_ms +ℤ c.byoyomi_ms -ℤ overhead o) (pos 1)
  pub by_cap :
      positive (active_move_cap c o) ≡ true
      → response ≤ℤ max_ℤ (active_move_cap c o -ℤ overhead o) (pos 1)

pub record IsScheduled {F : Type 0} (c : TimeControl) (o : TimeOptions) (b : TimeBudget F)
    : Type 0 where
  pub begins : pos 1 ≤ℤ b.earliest_stop_ms
  pub earliest : b.earliest_stop_ms ≤ℤ b.target_stop_ms
  pub target : b.target_stop_ms ≤ℤ b.latest_search_ms
  pub latest : b.latest_search_ms ≤ℤ b.response_deadline_ms
  pub guard : b.root_guard_deadline_ms ≡ b.response_deadline_ms
  pub in_force : o.mode ≡ on → b.hard_deadline_ms ≡ b.response_deadline_ms
  pub in_time : InTime c o b.response_deadline_ms

capped-le : (cap over r : ℤ) → positive r ≡ true → capped_response cap over r ≤ℤ r
unfolding capped_response
capped-le cap over r h = elim (Bool-cases (positive cap)) [
  | inl e ↦ rw (e, h) (min_ℤ_bounds r (max_ℤ (cap -ℤ over) (pos 1))).0
  | inr e ↦ rw e (omega arith)
]

capped-le_cap :
    (cap over r : ℤ)
    → positive cap ≡ true
    → capped_response cap over r ≤ℤ max_ℤ (cap -ℤ over) (pos 1)
unfolding capped_response
capped-le_cap cap over r e = elim (Bool-cases (positive r)) [
  | inl h ↦ rw (e, h) (min_ℤ_bounds r (max_ℤ (cap -ℤ over) (pos 1))).1
  | inr h ↦ rw (e, h) (omega arith)
]

positive_max : (a : ℤ) → positive (max_ℤ a (pos 1)) ≡ true
positive_max a = elim (ltℤ-cases (pos 0) (max_ℤ a (pos 1))) [
  | inl (e, l) ↦ e
  | inr (e, l) ↦ absurd (omega (arith, max_ℤ_bounds a (pos 1)))
]

response-InTime : (c : TimeControl) (o : TimeOptions) → InTime c o (response_ms c o)
unfolding response_ms clock_response
response-InTime c o = record {
  by_move_time = λ m. rw m (capped-le (active_move_cap c o) (overhead o) _ (positive_max _));
  by_clock = λ m t. rw (m, t) (capped-le (active_move_cap c o) (overhead o) _ (positive_max _));
  by_cap = λ e. capped-le_cap (active_move_cap c o) (overhead o) _ e;
}

target_bounds :
    (f d : Floats) (c : TimeControl) (o : TimeOptions) (r : ℤ)
    → pos 1 ≤ℤ r
    → (pos 1 ≤ℤ target_ms f d c o r) × (target_ms f d c o r ≤ℤ r)
unfolding target_ms
target_bounds f d c o r h =
    elim (Bool-cases
      (positive c.move_time_ms || (pure_byoyomi c || cap_only c (active_move_cap c o)))) [
        | inl e ↦ rw e (h, omega arith)
        | inr e ↦ rw e (bounded _)
      ]
  where
    bounded : (v : ℤ) → (pos 1 ≤ℤ min_ℤ (max_ℤ v (pos 100)) r) × (min_ℤ (max_ℤ v (pos 100)) r ≤ℤ r)
    bounded v = (
      min_ℤ_greatest (max_ℤ v (pos 100)) r (pos 1) (omega (arith, max_ℤ_bounds v (pos 100))) h,
      (min_ℤ_bounds (max_ℤ v (pos 100)) r).1,
    )

earliest_bounds :
    (c : TimeControl) (o : TimeOptions) (t : ℤ)
    → pos 1 ≤ℤ t
    → (pos 1 ≤ℤ earliest_ms c o t) × (earliest_ms c o t ≤ℤ t)
unfolding earliest_ms
earliest_bounds c o t h =
    let a = max_ℤ (pos 100) (quot t 10) in
    let b = max_ℤ a (byoyomi_floor c o) in
    (
      min_ℤ_greatest b t (pos 1)
          (omega (arith, max_ℤ_bounds (pos 100) (quot t 10), max_ℤ_bounds a (byoyomi_floor c o))) h,
      (min_ℤ_bounds b t).1,
    )

under_mode-IsScheduled :
    (f d : Floats) (c : TimeControl) (o : TimeOptions) (b : TimeBudget f.Value)
    (m : TimeManagementMode)
    → o.mode ≡ m
    → pos 1 ≤ℤ b.earliest_stop_ms
    → b.earliest_stop_ms ≤ℤ b.target_stop_ms
    → b.target_stop_ms ≤ℤ b.latest_search_ms
    → b.latest_search_ms ≤ℤ b.response_deadline_ms
    → b.root_guard_deadline_ms ≡ b.response_deadline_ms
    → InTime c o b.response_deadline_ms
    → IsScheduled c o (under_mode f d m b)
under_mode-IsScheduled f d c o b off e p q r s g t = record {
  begins = p;
  earliest = q;
  target = r;
  latest = s;
  guard = g;
  in_force = λ h. cc;
  in_time = t;
}
under_mode-IsScheduled f d c o b shadow e p q r s g t = record {
  begins = p;
  earliest = q;
  target = r;
  latest = s;
  guard = g;
  in_force = λ h. cc;
  in_time = t;
}
under_mode-IsScheduled f d c o b on e p q r s g t = record {
  begins = p;
  earliest = q;
  target = r;
  latest = s;
  guard = g;
  in_force = λ h. refl;
  in_time = t;
}

adapt-IsScheduled :
    (f d : Floats) (c : TimeControl) (o : TimeOptions) (b : TimeBudget f.Value)
    → pos 1 ≤ℤ response_ms c o
    → IsScheduled c o (adapt f d c o (response_ms c o) b)
unfolding adapt latest_ms
adapt-IsScheduled f d c o b h =
    let target = target_ms f d c o (response_ms c o) in
    let (least, most) = target_bounds f d c o (response_ms c o) h in
    let (later, in_limit) =
      clamp_bounds (quot (target *ℤ extension_percent c o) 100) target (response_ms c o) most in
    let (first, before) = earliest_bounds c o target least in
    elim (Bool-cases (pure_byoyomi c)) [
      | inl e ↦ rw e (
          under_mode-IsScheduled f d c o _ o.mode refl least (omega arith) later in_limit refl
            (response-InTime c o))
      | inr e ↦ rw e (
          under_mode-IsScheduled f d c o _ o.mode refl first before later in_limit refl
            (response-InTime c o))
    ]

-- A budget with no adaptive deadline, and why it has none.
pub record IsUnscheduled {F : Type 0} (c : TimeControl) (o : TimeOptions) (b : TimeBudget F)
    : Type 0 where
  pub cause :
      (c.infinite || (is_off o.mode || (c.ponder || not (positive (response_ms c o))))) ≡ true
  pub no_target : b.target_stop_ms ≡ pos 0
  pub no_latest : b.latest_search_ms ≡ pos 0
  pub no_early_stop : b.allow_early_stop ≡ false
  pub no_extension : b.allow_extension ≡ false

legacy-IsUnscheduled :
    (f d : Floats) (c : TimeControl) (o : TimeOptions) (seconds : f.Value) (deadline : ℤ)
    → (c.infinite || (is_off o.mode || (c.ponder || not (positive (response_ms c o))))) ≡ true
    → IsUnscheduled c o (record (compute_legacy f d c o) {
      mode = o.mode;
      mcts_time_seconds = seconds;
      hard_deadline_ms = deadline;
    })
unfolding compute_legacy
legacy-IsUnscheduled f d c o seconds deadline e = record {
  cause = e;
  no_target = refl;
  no_latest = refl;
  no_early_stop = refl;
  no_extension = refl;
}

-- Compute sets no adaptive deadline where the search is infinite, pondering or not managed, or the
-- command and the cap leave no deadline. Otherwise the earliest stop, the target, the latest search
-- time and the response deadline stand in this order, from 1 ms on. The deadline leaves the clamped
-- overhead on the move time, on the main time with byoyomi, and under the active cap, or is 1 ms, and
-- in mode `on` it is the hard deadline.
pub compute_bounds :
    (f d : Floats) (c : TimeControl) (o : TimeOptions)
    → IsUnscheduled c o (compute f d c o) ⊎ IsScheduled c o (compute f d c o)
unfolding compute compute_legacy
compute_bounds f d c o = elim (Bool-cases c.infinite) [
  | inl i ↦ simp i (inl (legacy-IsUnscheduled f d c o _ _ (simp i)))
  | inr i ↦ elim (Bool-cases (is_off o.mode)) [
    | inl m ↦ simp (i, m) (inl (legacy-IsUnscheduled f d c o _ _ (simp (i, m))))
    | inr m ↦ elim (Bool-cases c.ponder) [
      | inl p ↦ simp (i, m, p) (inl (legacy-IsUnscheduled f d c o _ _ (simp (i, m, p))))
      | inr p ↦ elim (ltℤ-cases (pos 0) (response_ms c o)) [
        | inl (e, l) ↦ simp (i, m, p, e) (inr (adapt-IsScheduled f d c o _ (omega arith)))
        | inr (e, l) ↦
            simp (i, m, p, e) (inl (legacy-IsUnscheduled f d c o _ _ (simp (i, m, p, e))))
      ]
    ]
  ]
]
