-- ===== src/Mcts/Slot.antt =====
-- child_node_slot_t::GetOrCreate of mcts/uct_node.cc under several threads: any schedule of its
-- atomic actions. Each caller makes at most one node, which has the number of its thread.
use jhbr.Base.{
  ℕ, ◌+◌, ◌-◌, ◌≤◌, ap, ◌≡◌, ◌⊎◌, inl, inr, refl, subst, sym, Bool, true, false, Option, none, some,
  List, [], ◌∷◌, ◌==◌, if◌then◌else◌, arith,
}

-- Where a caller stands: at the first load, past a load of null, with its own node, with another's
-- node and its own to free, and at the return.
pub data Caller : Type 0 where
  entered missed allocated : Caller
  lost returned : ℕ → Caller

pub record Shared : Type 0 where
  pub slot : Option ℕ
  pub caller : ℕ → Caller
  pub live : ℕ → Bool

abbrev pub put_at {ℓ} : {A : Type ℓ} → (ℕ → A) → ℕ → A → ℕ → A
put_at f i a j = if i == j then a else f j

abbrev pub moves_on : ℕ → Caller → Shared → Shared
moves_on i c s = record s { caller = put_at s.caller i c }

-- The next action of a caller, by where it stands and what the slot holds.
unfoldable pub turn : ℕ → Caller → Option ℕ → Shared → Shared
turn i entered none s = moves_on i missed s
turn i entered (some p) s = moves_on i (returned p) s
turn i missed held s = moves_on i allocated (record s { live = put_at s.live i true })
turn i allocated none s = moves_on i (returned i) (record s { slot = some i })
turn i allocated (some p) s = moves_on i (lost p) s
turn i (lost p) held s = moves_on i (returned p) (record s { live = put_at s.live i false })
turn i (returned p) held s = s

unfoldable pub act : ℕ → Shared → Shared
unfolding turn
act i s = turn i (s.caller i) s.slot s

unfoldable pub schedule : List ℕ → Shared → Shared
unfolding act
schedule [] s = s
schedule (i ∷ is) s = schedule is (act i s)

-- All callers before the first load, and nothing made.
abbrev pub unvisited : Shared
unvisited = record { slot = none; caller = λ i. entered; live = λ i. false }

-- A caller that has a node of its own which the slot may not hold.
abbrev pub Working : Caller → Type 0
Working entered = ⊥
Working missed = ⊥
Working allocated = Unit {0}
Working (lost p) = Unit {0}
Working (returned p) = ⊥

record Inv (s : Shared) : Type 0 where
  agrees : (i p : ℕ) → s.caller i ≡ returned p → s.slot ≡ some p
  beaten : (i p : ℕ) → s.caller i ≡ lost p → s.slot ≡ some p
  published : (p : ℕ) → s.slot ≡ some p → (s.caller p ≡ returned p) × (s.live p ≡ true)
  kept : (j : ℕ) → Working (s.caller j) → s.live j ≡ true
  owned : (j : ℕ) → s.live j ≡ true → (s.slot ≡ some j) ⊎ Working (s.caller j)

turn-Inv :
    (i : ℕ) (c : Caller) (o : Option ℕ) (s : Shared)
    → s.caller i ≡ c
    → s.slot ≡ o
    → Inv s
    → Inv (turn i c o s)
unfolding turn
turn-Inv i entered none s e q v = record {
  agrees = λ j p h. ground (arith, v.agrees j p, h, e, q);
  beaten = λ j p h. ground (arith, v.beaten j p, h, e, q);
  published = λ p h. ground (arith, v.published p, h, e, q);
  kept = λ j h. ground (arith, v.kept j, h, e, q);
  owned = λ j h. ground (arith, v.owned j, h, e, q);
}
turn-Inv i entered (some p) s e q v = record {
  agrees = λ j k h. ground (arith, v.agrees j k, h, e, q);
  beaten = λ j k h. ground (arith, v.beaten j k, h, e, q);
  published = λ k h. ground (arith, v.published k, h, e, q);
  kept = λ j h. ground (arith, v.kept j, h, e, q);
  owned = λ j h. ground (arith, v.owned j, h, e, q);
}
turn-Inv i missed held s e q v = record {
  agrees = λ j k h. ground (arith, v.agrees j k, h, e, q);
  beaten = λ j k h. ground (arith, v.beaten j k, h, e, q);
  published = λ k h. ground (arith, v.published k, h, e, q);
  kept = λ j h. ground (arith, v.kept j, h, e, q);
  owned = λ j h. ground (arith, v.owned j, h, e, q);
}
turn-Inv i allocated none s e q v = record {
  agrees = λ j k h. ground (arith, v.agrees j k, h, e, q);
  beaten = λ j k h. ground (arith, v.beaten j k, h, e, q);
  published = λ k h. ground (arith, v.published k, h, e, q, v.kept i (subst Working (sym e) tt));
  kept = λ j h. ground (arith, v.kept j, h, e, q);
  owned = λ j h. ground (arith, v.owned j, h, e, q);
}
turn-Inv i allocated (some p) s e q v = record {
  agrees = λ j k h. ground (arith, v.agrees j k, h, e, q);
  beaten = λ j k h. ground (arith, v.beaten j k, h, e, q);
  published = λ k h. ground (arith, v.published k, h, e, q);
  kept = λ j h. ground (arith, v.kept j, h, e, q);
  owned = λ j h. ground (arith, v.owned j, h, e, q);
}
turn-Inv i (lost p) held s e q v = record {
  agrees = λ j k h. ground (arith, v.agrees j k, h, e, q, v.beaten i p e, v.published p);
  beaten = λ j k h. ground (arith, v.beaten j k, h, e, q, v.beaten i p e, v.published p);
  published = λ k h. ground (arith, v.published k, h, e, q, v.beaten i p e, v.published p);
  kept = λ j h. ground (arith, v.kept j, h, e, q);
  owned = λ j h. ground (arith, v.owned j, h, e, q, v.beaten i p e, v.published p);
}
turn-Inv i (returned p) held s e q v = v

unvisited-Inv : Inv unvisited
unvisited-Inv = record {
  agrees = λ i p h. cc;
  beaten = λ i p h. cc;
  published = λ p h. cc;
  kept = λ j h. absurd h;
  owned = λ j h. cc;
}

schedule-Inv : (is : List ℕ) (s : Shared) → Inv s → Inv (schedule is s)
unfolding schedule act
schedule-Inv [] s v = v
schedule-Inv (i ∷ is) s v = schedule-Inv is _ (turn-Inv i (s.caller i) s.slot s refl refl v)

-- Under any schedule the callers that have returned from GetOrCreate have the same node, which the
-- slot holds and which is live.
pub schedule-one_node :
    (is : List ℕ) (i j p q : ℕ)
    → (schedule is unvisited).caller i ≡ returned p
    → (schedule is unvisited).caller j ≡ returned q
    → (p ≡ q) × ((schedule is unvisited).slot ≡ some p) × ((schedule is unvisited).live p ≡ true)
schedule-one_node is i j p q a b =
    let v = schedule-Inv is unvisited unvisited-Inv in
    let held = v.agrees i p a in (cc (held, v.agrees j q b), held, (v.published p held).1)

-- Under any schedule that ends with every caller at rest, before its first action or returned, no node
-- is left live but the one in the slot.
pub schedule-no_leak :
    (is : List ℕ)
    → ((j : ℕ) → ¬ Working ((schedule is unvisited).caller j))
    → (k : ℕ) → (schedule is unvisited).live k ≡ true
    → (schedule is unvisited).slot ≡ some k
schedule-no_leak is rest k alive =
    kept_or_not ((schedule-Inv is unvisited unvisited-Inv).owned k alive)
  where
    kept_or_not :
        ((schedule is unvisited).slot ≡ some k) ⊎ Working ((schedule is unvisited).caller k)
        → (schedule is unvisited).slot ≡ some k
    kept_or_not (inl held) = held
    kept_or_not (inr works) = absurd (rest k works)

abbrev pub occurrences : ℕ → List ℕ → ℕ
occurrences i [] = 0
occurrences i (j ∷ js) = (if j == i then 1 else 0) + occurrences i js

-- The most actions that a caller has left.
abbrev actions_left : Caller → ℕ
actions_left entered = 4
actions_left missed = 3
actions_left allocated = 2
actions_left (lost p) = 1
actions_left (returned p) = 0

turn-actions_left :
    (i j : ℕ) (c : Caller) (o : Option ℕ) (s : Shared)
    → s.caller j ≡ c
    → actions_left ((turn j c o s).caller i) ≤ actions_left (s.caller i) - (if j == i then 1 else 0)
unfolding turn
turn-actions_left i j entered none s e = ground (arith, e, ap actions_left e)
turn-actions_left i j entered (some p) s e = ground (arith, e, ap actions_left e)
turn-actions_left i j missed o s e = ground (arith, e, ap actions_left e)
turn-actions_left i j allocated none s e = ground (arith, e, ap actions_left e)
turn-actions_left i j allocated (some p) s e = ground (arith, e, ap actions_left e)
turn-actions_left i j (lost p) o s e = ground (arith, e, ap actions_left e)
turn-actions_left i j (returned p) o s e = ground (arith, e, ap actions_left e)

schedule-actions_left :
    (is : List ℕ) (i : ℕ) (s : Shared)
    → actions_left ((schedule is s).caller i) ≤ actions_left (s.caller i) - occurrences i is
unfolding schedule act
schedule-actions_left [] i s = omega arith
schedule-actions_left (j ∷ js) i s = omega (
  arith,
  turn-actions_left i j (s.caller j) s.slot s refl,
  schedule-actions_left js i (turn j (s.caller j) s.slot s),
)

at_rest : (c : Caller) → actions_left c ≤ 0 → (p : ℕ) × (c ≡ returned p)
at_rest entered h = absurd (omega arith)
at_rest missed h = absurd (omega arith)
at_rest allocated h = absurd (omega arith)
at_rest (lost p) h = absurd (omega arith)
at_rest (returned p) h = (p, refl)

-- GetOrCreate is wait-free: under any schedule a caller has returned after four actions of its own.
pub schedule-returns :
    (is : List ℕ) (i : ℕ)
    → 4 ≤ occurrences i is
    → (p : ℕ) × ((schedule is unvisited).caller i ≡ returned p)
schedule-returns is i h = at_rest _ (omega (arith, schedule-actions_left is i unvisited))
