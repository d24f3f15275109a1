-- ===== src/Usi/TimeController/Stops.antt =====
-- When AdaptiveTimeController::Update stops a search: not before its time, by its time, for good.
use jhbr.Base.{
  ◌≡◌, refl, sym, ◌∙◌, ◌⊎◌, inl, inr, Bool, true, false, not, ◌&&◌, ◌||◌, false≢true, Bool-cases,
  arith, ℤ, pos, negsuc, ltℤ, ◌+ℤ◌, ◌-ℤ◌, ◌≤ℤ◌, quot, ltℤ-cases, not_ltℤ→le, +ℤ_parts, -ℤ_parts,
}
use jhbr.Usi.Floats.{Floats}
use jhbr.Usi.TimeManager.{TimeBudget}
use jhbr.Usi.TimeController.{
  TimeStopReason, proven, same_ℤ, TimeController, Snapshot, project_remaining, stable_and_dominant,
  stable_required, stopped, track_best, extending, extend_to, open_extension, extension_goal,
  q_inversion, recent_change, visit_pressure, at_target, past_early, unproven, judge,
}

middle_false : (x y z : Bool) → (x && (not y && z)) ≡ true → y ≡ false
middle_false x y z h = ground (arith, h)

half-le : (t l : ℤ) → t ≤ℤ l → t +ℤ quot (l -ℤ t) 2 ≤ℤ l
unfolding quot
half-le t l h =
    omega (
      arith,
      half (l -ℤ t) (omega (arith, -ℤ_parts l t)),
      -ℤ_parts l t,
      +ℤ_parts t (quot (l -ℤ t) 2),
    )
  where
    half : (a : ℤ) → pos 0 ≤ℤ a → quot a 2 ≤ℤ a
    half (pos n) p = ground arith
    half (negsuc n) p = absurd (omega arith)

module _ (f d : Floats) (b : TimeBudget f.Value) where
  -- A controller of the budget, whose extension ends by the latest search time.
  pub record Fits (c : TimeController f d) : Type 0 where
    pub budget : c.budget ≡ b
    pub extension : c.extension_deadline_ms ≤ℤ b.latest_search_ms

  -- What one judgement of a snapshot decides.
  pub record Judged (s : Snapshot f d) (c : TimeController f d) : Type 0 where
    pub fits : Fits c
    pub by_latest : b.latest_search_ms ≤ℤ s.elapsed_ms → c.decision.should_stop ≡ true
    pub from_earliest :
        c.decision.should_stop ≡ true
        → (c.decision.reason ≡ proven) ⊎ (b.earliest_stop_ms ≤ℤ s.elapsed_ms)

  module _ (s : Snapshot f d) where
    stopped-Judged :
        (reason : TimeStopReason) (at : ℤ) (c : TimeController f d)
        → Fits c
        → (reason ≡ proven) ⊎ (b.earliest_stop_ms ≤ℤ s.elapsed_ms)
        → Judged s (stopped f d reason at c)
    stopped-Judged reason at c k why = record {
      fits = record { budget = k.budget; extension = k.extension };
      by_latest = λ l. refl;
      from_earliest = λ e. why;
    }

    running-Judged :
        (c : TimeController f d)
        → Fits c
        → c.decision.should_stop ≡ false
        → ¬ (b.latest_search_ms ≤ℤ s.elapsed_ms)
        → Judged s c
    running-Judged c k runs early = record {
      fits = k;
      by_latest = λ l. absurd (early l);
      from_earliest = λ e. absurd (false≢true (sym runs ∙ e));
    }

    dominant-Fits :
        (at required : ℤ) (c : TimeController f d)
        → Fits c
        → Fits (stable_and_dominant f d s at required c).1
    unfolding stable_and_dominant project_remaining
    dominant-Fits at required c k = record { budget = k.budget; extension = k.extension }

    reached :
        (c : TimeController f d)
        → Fits c
        → ltℤ s.elapsed_ms c.budget.earliest_stop_ms ≡ false
        → b.earliest_stop_ms ≤ℤ s.elapsed_ms
    reached c k e = not_ltℤ→le s.elapsed_ms b.earliest_stop_ms (simp k.budget at e)

    dominant-runs :
        (at required : ℤ) (c : TimeController f d)
        → (stable_and_dominant f d s at required c).1.decision.should_stop ≡ c.decision.should_stop
    unfolding stable_and_dominant project_remaining
    dominant-runs at required c = refl

    extending-Judged :
        (c : TimeController f d)
        → Fits c
        → c.decision.should_stop ≡ false
        → b.earliest_stop_ms ≤ℤ s.elapsed_ms
        → Judged s (extending f d s c)
    unfolding extending
    extending-Judged c k runs from =
        let dominant =
          stable_and_dominant f d s c.extension_deadline_ms (stable_required f d c) c in
        let fits = dominant-Fits c.extension_deadline_ms (stable_required f d c) c k in
        let still = dominant-runs c.extension_deadline_ms (stable_required f d c) c ∙ runs in
        elim (ltℤ-cases s.elapsed_ms c.extension_deadline_ms) [
          | inl (e, l) ↦ simp e (elim (Bool-cases dominant.0) [
            | inl g ↦ simp g (stopped-Judged _ _ dominant.1 fits (inr from))
            | inr g ↦
                simp g (running-Judged dominant.1 fits still (λ h. omega (arith, k.extension)))
          ])
          | inr (e, l) ↦ simp e (stopped-Judged _ _ c k (inr from))
        ]

    module _ (order : b.earliest_stop_ms ≤ℤ b.target_stop_ms)
        (later : b.target_stop_ms ≤ℤ b.latest_search_ms) where
      extension_goal-le :
          (c : TimeController f d) → Fits c → extension_goal f d s c ≤ℤ b.latest_search_ms
      unfolding extension_goal
      extension_goal-le c k = elim (Bool-cases (q_inversion f d s || recent_change f d c)) [
        | inl e ↦ simp e (simp k.budget (omega arith))
        | inr e ↦ simp e (simp k.budget (half-le b.target_stop_ms b.latest_search_ms later))
      ]

      open_extension-Judged :
          (c : TimeController f d)
          → Fits c
          → c.decision.should_stop ≡ false
          → b.earliest_stop_ms ≤ℤ s.elapsed_ms
          → Judged s (open_extension f d s c)
      unfolding open_extension project_remaining extend_to
      open_extension-Judged c k runs from =
          let (projected, c') = project_remaining f d s c.budget.latest_search_ms c in
          let fits : Fits c' = record { budget = k.budget; extension = k.extension } in
          let opened : Fits (extend_to f d (extension_goal f d s c') c') = record {
            budget = k.budget;
            extension = extension_goal-le c' fits;
          } in
          elim (Bool-cases (
            not (q_inversion f d s)
            && (not (recent_change f d c') && not (visit_pressure f d s projected)))) [
              | inl e ↦ simp e (stopped-Judged _ _ c' fits (inr from))
              | inr e ↦
                  simp e
                    (extending-Judged (extend_to f d (extension_goal f d s c') c') opened runs from)
            ]

      at_target-Judged :
          (c : TimeController f d)
          → Fits c
          → c.decision.should_stop ≡ false
          → b.target_stop_ms ≤ℤ s.elapsed_ms
          → Judged s (at_target f d s c)
      unfolding at_target
      at_target-Judged c k runs from =
          let start : b.earliest_stop_ms ≤ℤ s.elapsed_ms = omega arith in
          elim (Bool-cases (
            not c.budget.allow_extension
            || not (ltℤ c.budget.target_stop_ms c.budget.latest_search_ms))) [
              | inl e ↦ simp e (stopped-Judged _ _ c k (inr start))
              | inr e ↦ simp e (elim (Bool-cases (same_ℤ c.extension_deadline_ms (pos 0))) [
                | inl g ↦ simp g (open_extension-Judged c k runs start)
                | inr g ↦ simp g (extending-Judged c k runs start)
              ])
            ]

      past_early-Judged :
          (c : TimeController f d)
          → Fits c
          → c.decision.should_stop ≡ false
          → Judged s (past_early f d s c)
      unfolding past_early
      past_early-Judged c k runs = simp k.budget (elim (ltℤ-cases s.elapsed_ms b.target_stop_ms) [
        | inl (e, l) ↦ simp e (running-Judged c k runs (λ h. omega arith))
        | inr (e, l) ↦ simp e (at_target-Judged c k runs l)
      ])

      unproven-Judged :
          (c : TimeController f d)
          → Fits c
          → c.decision.should_stop ≡ false
          → Judged s (unproven f d s c)
      unfolding unproven
      unproven-Judged c k runs =
          let dominant =
            stable_and_dominant f d s c.budget.target_stop_ms (stable_required f d c) c in
          let fits = dominant-Fits c.budget.target_stop_ms (stable_required f d c) c k in
          let still = dominant-runs c.budget.target_stop_ms (stable_required f d c) c ∙ runs in
          let early =
            c.budget.allow_early_stop
            && (not (ltℤ s.elapsed_ms c.budget.earliest_stop_ms)
                && ltℤ s.elapsed_ms c.budget.target_stop_ms) in
          elim (Bool-cases early) [
            | inl e ↦ simp e (elim (Bool-cases dominant.0) [
              | inl g ↦
                  simp g
                    (stopped-Judged _ _ dominant.1 fits (inr (reached c k (middle_false _ _ _ e))))
              | inr g ↦ simp g (past_early-Judged dominant.1 fits still)
            ])
            | inr e ↦ simp e (past_early-Judged c k runs)
          ]

      pub judge-Judged :
          (c : TimeController f d)
          → Fits c
          → c.decision.should_stop ≡ false
          → Judged s (judge f d s c)
      unfolding judge
      judge-Judged c k runs = elim (Bool-cases s.best_proven) [
        | inl e ↦ simp e (stopped-Judged proven s.elapsed_ms c k (inl refl))
        | inr e ↦ simp e (unproven-Judged c k runs)
      ]

      pub track_best-Fits : (c : TimeController f d) → Fits c → Fits (track_best f d s c)
      unfolding track_best
      track_best-Fits c k = elim (Bool-cases (same_ℤ s.best_index c.last_best_index)) [
        | inl e ↦ simp e (record { budget = k.budget; extension = k.extension })
        | inr e ↦ simp e (record { budget = k.budget; extension = k.extension })
      ]

      pub track_best-runs :
          (c : TimeController f d)
          → (track_best f d s c).decision.should_stop ≡ c.decision.should_stop
      unfolding track_best
      track_best-runs c = elim (Bool-cases (same_ℤ s.best_index c.last_best_index)) [
        | inl e ↦ simp e
        | inr e ↦ simp e
      ]
