-- ===== src/Usi/TimeController/Search.antt =====
-- A whole search under the budget of TimeManager::Compute and the updates of its controller.
use jhbr.Base.{
  ◌≡◌, refl, ap, sym, ◌∙◌, ◌⊎◌, inl, inr, true, false, false≢true, Bool-cases, arith, ℤ, pos,
  lt→ltℤ, ◌≤ℤ◌, List, [], ◌∷◌, ◌++◌,
}
use jhbr.Usi.Floats.{Floats}
use jhbr.Usi.TimeManager.{TimeBudget, TimeControl, TimeOptions, compute}
use jhbr.Usi.TimeManager.Bounds.{IsScheduled}
use jhbr.Usi.TimeController.{
  proven, has_adaptive_deadline, TimeController, Snapshot, reset, track_best, update, updates,
}
use jhbr.Usi.TimeController.Stops.{Fits, Judged, judge-Judged, track_best-Fits, track_best-runs}

module _ (f d : Floats) where
  -- A stopped controller stays as it is.
  update_stopped :
      (s : Snapshot f d) (k : TimeController f d)
      → k.decision.should_stop ≡ true
      → update f d s k ≡ k
  unfolding update
  update_stopped s k e = elim (Bool-cases (has_adaptive_deadline k.budget)) [
    | inl a ↦ simp (a, e)
    | inr a ↦ simp (a, e)
  ]

  updates_stopped :
      (ss : List (Snapshot f d)) (k : TimeController f d)
      → k.decision.should_stop ≡ true
      → updates f d ss k ≡ k
  unfolding updates
  updates_stopped [] k e = refl
  updates_stopped (s ∷ ss) k e = ap (updates f d ss) (update_stopped s k e) ∙ updates_stopped ss k e

  updates-append :
      (ss ts : List (Snapshot f d)) (k : TimeController f d)
      → updates f d (ss ++ ts) k ≡ updates f d ts (updates f d ss k)
  unfolding updates
  updates-append [] ts k = refl
  updates-append (s ∷ ss) ts k = updates-append ss ts (update f d s k)

  module _ (c : TimeControl) (o : TimeOptions) (h : IsScheduled c o (compute f d c o)) where
    abbrev budget : TimeBudget f.Value
    budget = compute f d c o

    adaptive : has_adaptive_deadline budget ≡ true
    unfolding has_adaptive_deadline
    adaptive =
        let target = lt→ltℤ (pos 0) budget.target_stop_ms (omega arith) in
        let latest = lt→ltℤ (pos 0) budget.latest_search_ms (omega arith) in
        ground (arith, target, latest)

    update-Judged :
        (s : Snapshot f d) (k : TimeController f d)
        → Fits f d budget k
        → k.decision.should_stop ≡ false
        → Judged f d budget s (update f d s k)
    unfolding update
    update-Judged s k fits runs =
        let a = ap has_adaptive_deadline fits.budget ∙ adaptive in
        simp (a, runs)
          (judge-Judged f d budget s h.earliest h.target (track_best f d s k)
            (track_best-Fits f d budget s h.earliest h.target k fits)
            (track_best-runs f d budget s h.earliest h.target k ∙ runs))

    update-Fits :
        (s : Snapshot f d) (k : TimeController f d)
        → Fits f d budget k
        → Fits f d budget (update f d s k)
    update-Fits s k fits = elim (Bool-cases k.decision.should_stop) [
      | inl e ↦ rw (update_stopped s k e) fits
      | inr e ↦ (update-Judged s k fits e).fits
    ]

    updates-Fits :
        (ss : List (Snapshot f d)) (k : TimeController f d)
        → Fits f d budget k
        → Fits f d budget (updates f d ss k)
    unfolding updates
    updates-Fits [] k fits = fits
    updates-Fits (s ∷ ss) k fits = updates-Fits ss _ (update-Fits s k fits)

    reset-Fits : (in_flight : ℤ) → Fits f d budget (reset f d budget in_flight)
    unfolding reset
    reset-Fits in_flight = record { budget = refl; extension = omega arith }

    -- A search with an adaptive deadline stops by the latest search time of its budget: whatever the
    -- snapshots are, once one is taken at that time or later the controller has decided to stop, and
    -- it keeps the decision through all further snapshots.
    pub updates_by_latest :
        (in_flight : ℤ) (ss : List (Snapshot f d)) (s : Snapshot f d) (rest : List (Snapshot f d))
        → budget.latest_search_ms ≤ℤ s.elapsed_ms
        → (updates f d (ss ++ (s ∷ rest)) (reset f d budget in_flight)).decision.should_stop ≡ true
    unfolding updates
    updates_by_latest in_flight ss s rest late =
        let k = updates f d ss (reset f d budget in_flight) in
        let fits = updates-Fits ss _ (reset-Fits in_flight) in
        let now : (update f d s k).decision.should_stop ≡ true =
          elim (Bool-cases k.decision.should_stop) [
            | inl e ↦ rw (update_stopped s k e) e
            | inr e ↦ (update-Judged s k fits e).by_latest late
          ] in
        ap (λ (r : TimeController f d). r.decision.should_stop)
          (updates-append ss (s ∷ rest) (reset f d budget in_flight)
            ∙ updates_stopped rest (update f d s k) now)
        ∙ now

    -- Whether a snapshot was taken at the earliest stop or later.
    abbrev pub Reaches : List (Snapshot f d) → Type 0
    Reaches [] = ⊥
    Reaches (s ∷ ss) = (budget.earliest_stop_ms ≤ℤ s.elapsed_ms) ⊎ Reaches ss

    later_snapshots :
        (ss : List (Snapshot f d)) (k : TimeController f d)
        → Fits f d budget k
        → k.decision.should_stop ≡ false
        → (updates f d ss k).decision.should_stop ≡ true
        → ((updates f d ss k).decision.reason ≡ proven) ⊎ Reaches ss
    unfolding updates
    later_snapshots [] k fits runs e = absurd (false≢true (sym runs ∙ e))
    later_snapshots (s ∷ ss) k fits runs e =
        elim (Bool-cases (update f d s k).decision.should_stop) [
          | inl now ↦ elim ((update-Judged s k fits runs).from_earliest now) [
            | inl p ↦ inl (
                ap (λ (r : TimeController f d). r.decision.reason)
                  (updates_stopped ss (update f d s k) now)
                ∙ p)
            | inr q ↦ inr (inl q)
          ]
          | inr on ↦ elim (later_snapshots ss (update f d s k) (update-Fits s k fits) on e) [
            | inl p ↦ inl p
            | inr q ↦ inr (inr q)
          ]
        ]

    -- A search with an adaptive deadline never stops before the earliest stop of its budget, unless its
    -- best move is proven: a decision to stop has that reason, or was preceded by a snapshot at that
    -- time or later.
    pub updates_from_earliest :
        (in_flight : ℤ) (ss : List (Snapshot f d))
        → (updates f d ss (reset f d budget in_flight)).decision.should_stop ≡ true
        → ((updates f d ss (reset f d budget in_flight)).decision.reason ≡ proven) ⊎ Reaches ss
    unfolding reset
    updates_from_earliest in_flight ss e =
        later_snapshots ss (reset f d budget in_flight) (reset-Fits in_flight) refl e
