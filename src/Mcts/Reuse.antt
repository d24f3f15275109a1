-- ===== src/Mcts/Reuse.antt =====
-- What NodeTree keeps of the tree when the game goes on.
use jhbr.Base.{
  ℕ, suc, ◌-◌, ◌≡◌, refl, ap, ap₂, subst, sym, ◌∙◌, Bool, true, false, false≢true, Option, none,
  some, List, [], ◌∷◌, ◌++◌, arith, length, length-append, drop, ◌↔◌, Bool-cases, inl, inr,
  if◌then◌else◌, ◌==◌, leb, ==→eq, eq→==,
}
use jhbr.Shogi.Move.{Move}
use jhbr.Mcts.Node.{
  Node, node, Edges, nil, edge, EdgeStats, Slot, vacant, holds, fresh_node, Heap, get_or_create,
  find_child, Released, release_found, release_missing, release_children_except_one,
}
use jhbr.Mcts.Tree.{
  NodeTree, plant, deallocate_tree, equal_moves, play, restart_head, advance, reset_to_position,
  same_game, continues, node_at, get_current_head,
}

-- From the node, the moves lead down single children.
abbrev pub Along : List Move → Node → Type 0
Along [] n = Unit
Along (m ∷ ms) (node s nil) = ⊥
Along (m ∷ ms) (node s (edge e vacant es)) = ⊥
Along (m ∷ ms) (node s (edge e (holds n) nil)) = (e.move ≡ m) × Along ms n
Along (m ∷ ms) (node s (edge e (holds n) (edge e' s' es))) = ⊥

-- The node that a move leads to: a new one where there is none.
abbrev pub occupant : Slot → Node
occupant vacant = fresh_node
occupant (holds n) = n

abbrev pub occupant? : Option (EdgeStats × Slot) → Node
occupant? none = fresh_node
occupant? (some (e, s)) = occupant s

unfoldable pub descend : List Move → Node → Node
descend [] n = n
descend (m ∷ ms) (node s es) = descend ms (occupant? (find_child m es))

selected-occupant : (s : Slot) (h : Heap) → (get_or_create s h).0 ≡ occupant s
unfolding get_or_create
selected-occupant vacant h = refl
selected-occupant (holds n) h = refl

abbrev IsChild : Move → Edges → Released → Type 0
IsChild m es r = (r.selected ≡ occupant? (find_child m es)) × (r.kept.move ≡ m)

found_move :
    (m : Move) (es : Edges) {e : EdgeStats} {s : Slot} → find_child m es ≡ some (e, s) → e.move ≡ m
unfolding find_child
found_move m nil f = cc
found_move m (edge g t es) f = elim (Bool-cases (g.move == m)) [
  | inl here ↦ ground (arith, f, here)
  | inr there ↦ found_move m es (rw there at f)
]

release-IsChild :
    (m : Move) (es : Edges) (h : Heap) → IsChild m es (release_children_except_one m es h)
unfolding release_children_except_one release_found release_missing find_child get_or_create
release-IsChild m nil h = (refl, refl)
release-IsChild m (edge e s nil) h = elim (Bool-cases (e.move == m)) [
  | inl here ↦ rw here (selected-occupant s h, ==→eq e.move m here)
  | inr there ↦ rw there (refl, refl)
]
release-IsChild m (edge e s (edge e' s' es)) h =
    chosen (find_child m (edge e s (edge e' s' es))) refl
  where
    chosen :
        (o : Option (EdgeStats × Slot))
        → find_child m (edge e s (edge e' s' es)) ≡ o
        → IsChild m
            (edge e s (edge e' s' es))
            (release_children_except_one m (edge e s (edge e' s' es)) h)
    chosen none f = rw (f, release_children_except_one) (refl, refl)
    chosen (some (g, t)) f =
        rw (f, release_children_except_one)
          (selected-occupant t h, found_move m (edge e s (edge e' s' es)) f)

-- Playing moves lays them along the tree, and leads to the node that they lead to before.
pub play-Along : (ms : List Move) (n : Node) (h : Heap) → Along ms (play ms n h).0
unfolding play
play-Along [] n h = tt
play-Along (m ∷ ms) (node s es) h = ((release-IsChild m es h).1, play-Along ms _ _)

pub node_at-play :
    (ms : List Move) (n : Node) (h : Heap) → node_at (length ms) (play ms n h).0 ≡ descend ms n
unfolding play node_at descend
node_at-play [] n h = refl
node_at-play (m ∷ ms) (node s es) h =
    node_at-play ms _ _ ∙ ap (descend ms) (release-IsChild m es h).0

descend_fresh : (ms : List Move) → descend ms fresh_node ≡ fresh_node
unfolding descend find_child
descend_fresh [] = refl
descend_fresh (m ∷ ms) = descend_fresh ms

descend-append : (ms ns : List Move) (n : Node) → descend (ms ++ ns) n ≡ descend ns (descend ms n)
unfolding descend
descend-append [] ns n = refl
descend-append (m ∷ ms) ns (node s es) = descend-append ms ns _

descend-node_at : (ms : List Move) (n : Node) → Along ms n → descend ms n ≡ node_at (length ms) n
unfolding descend node_at find_child
descend-node_at [] n a = refl
descend-node_at (m ∷ ms) (node s nil) a = absurd a
descend-node_at (m ∷ ms) (node s (edge e vacant es)) a = absurd a
descend-node_at (m ∷ ms) (node s (edge e (holds n) nil)) a =
    rw (eq→== e.move m a.0) (descend-node_at ms n a.1)
descend-node_at (m ∷ ms) (node s (edge e (holds n) (edge e' s' es))) a = absurd a

-- A restarted head is new, and still where the moves lead.
abbrev Restarted : List Move → Node → Type 0
Restarted ms n = (node_at (length ms) n ≡ fresh_node) × Along ms n

restart_head-Restarted :
    (m : Move) (ms : List Move) (n : Node) (h : Heap)
    → Along (m ∷ ms) n
    → Restarted (m ∷ ms) (restart_head (length ms) n h).0
unfolding restart_head node_at
restart_head-Restarted m ms (node s nil) h a = absurd a
restart_head-Restarted m ms (node s (edge e vacant es)) h a = absurd a
restart_head-Restarted m ms (node s (edge e (holds n) (edge e' s' es))) h a = absurd a
restart_head-Restarted m [] (node s (edge e (holds n) nil)) h a = (refl, (a.0, tt))
restart_head-Restarted m (m' ∷ ms) (node s (edge e (holds n) nil)) h a =
    let (new, along) = restart_head-Restarted m' ms n h a.1 in (new, (a.0, along))

equal_moves-append : (ms ns : List Move) → equal_moves ms ns ≡ true → ms ++ drop (length ms) ns ≡ ns
unfolding equal_moves
equal_moves-append [] ns e = refl
equal_moves-append (m ∷ ms) [] e = cc
equal_moves-append (m ∷ ms) (n ∷ ns) e = elim (Bool-cases (m == n)) [
  | inl same ↦ ap₂ ◌∷◌ (==→eq m n same) (equal_moves-append ms ns (rw same at e))
  | inr other ↦ absurd (false≢true (rw other at e))
]

-- The head of a tree is where its moves lead.
pub record IsPlaced (t : NodeTree) : Type 0 where
  pub along : Along t.moves t.root
  pub depth : t.depth ≡ length t.moves

-- What the game before leaves at the head once the moves are played.
abbrev Advanced : Bool → List Move → NodeTree → NodeTree → Type 0
Advanced restarts moves t u =
    Along moves u.root
    × (u.depth ≡ length moves)
    × (get_current_head u ≡ (if restarts then fresh_node else descend moves t.root))

advance-Advanced :
    (restarts : Bool) (moves : List Move) (t : NodeTree) (h : Heap)
    → Advanced restarts moves t (advance restarts moves t h).0
unfolding advance deallocate_tree plant get_current_head node_at
advance-Advanced false moves t h = (play-Along moves t.root h, refl, node_at-play moves t.root h)
advance-Advanced true [] t h = (tt, refl, refl)
advance-Advanced true (m ∷ ms) t h =
    let some : (suc (length ms) == 0) ≡ false = ground arith in
    let above : suc (length ms) - 1 ≡ length ms = omega arith in
    let (new, along) = restart_head-Restarted m ms _ _ (play-Along (m ∷ ms) t.root h) in
    rw (some, above) (along, refl, new)

continues-append :
    (t : NodeTree) (moves : List Move)
    → continues t moves ≡ true
    → t.moves ++ drop (length t.moves) moves ≡ moves
unfolding continues
continues-append t moves e = equal_moves-append t.moves moves (ground (arith, e))

descend_further :
    (t : NodeTree) (moves : List Move)
    → IsPlaced t
    → continues t moves ≡ true
    → descend moves t.root ≡ descend (drop (length t.moves) moves) (get_current_head t)
unfolding get_current_head
descend_further t moves p e =
    let extra = drop (length t.moves) moves in
    ap (λ ms. descend ms t.root) (sym (continues-append t moves e))
    ∙ descend-append t.moves extra t.root
    ∙ ap (descend extra)
        (descend-node_at t.moves t.root p.along ∙ ap (λ k. node_at k t.root) (sym p.depth))

equal_moves-of_append : (ms extra : List Move) → equal_moves ms (ms ++ extra) ≡ true
unfolding equal_moves
equal_moves-of_append [] extra = refl
equal_moves-of_append (m ∷ ms) extra = rw (eq→== m m refl, equal_moves-of_append ms extra)

continues-of_append : (t : NodeTree) (extra : List Move) → continues t (t.moves ++ extra) ≡ true
unfolding continues
continues-of_append t extra =
    let fits : leb (length t.moves) (length (t.moves ++ extra)) ≡ true =
      ground (arith, length-append t.moves extra) in
    rw (fits, equal_moves-of_append t.moves extra)

-- The new moves go on from the position of the tree, in the same game.
abbrev pub Extends : ℕ → List Move → NodeTree → Type 0
Extends key moves t =
    (t.has_position ≡ true)
    × (t.starting_pos_key ≡ key)
    × ((extra : List Move) × (t.moves ++ extra ≡ moves))

same_game-cases :
    (t : NodeTree) (key : ℕ)
    → same_game t key ≡ true
    → (t.has_position ≡ true) × (t.starting_pos_key ≡ key)
unfolding same_game
same_game-cases t key e = ground (arith, e)

Extends-same_game :
    (key : ℕ) (moves : List Move) (t : NodeTree)
    → Extends key moves t
    → (same_game t key ≡ true) × (continues t moves ≡ true)
unfolding same_game
Extends-same_game key moves t (has, at, (extra, e)) = (
  rw (has, eq→== t.starting_pos_key key at),
  subst (λ ms. continues t ms ≡ true) e (continues-of_append t extra),
)

-- What a reset leaves: where the moves lead, and whether and what of the tree is kept.
abbrev pub Reset : ℕ → List Move → NodeTree → Bool × NodeTree × Heap → Type 0
Reset key moves t r =
    IsPlaced r.1
    × (r.1.moves ≡ moves)
    × ((r.0 ≡ true) ↔ Extends key moves t)
    × (get_current_head r.1
        ≡ (if r.0 then descend (drop (length t.moves) moves) (get_current_head t) else fresh_node))

-- ResetToPosition lays the moves down single children from the root of the tree and puts the head at
-- their end. It answers true exactly where the tree has a position of the same start whose moves the
-- new moves extend. The head is then the node that the further moves led to from the head before, or
-- a new one where they left the tree, and it is a new node where the answer is false.
pub reset_to_position_lem :
    (key : ℕ) (moves : List Move) (t : NodeTree) (h : Heap)
    → IsPlaced t
    → Reset key moves t (reset_to_position key moves t h)
unfolding reset_to_position deallocate_tree plant get_current_head
reset_to_position_lem key moves t h p = elim (Bool-cases (same_game t key)) [
  | inl same ↦ elim (Bool-cases (continues t moves)) [
    | inl on ↦
        let (along, depth, head) = advance-Advanced false moves t h in
        let (has, at) = same_game-cases t key same in
        let extends : Extends key moves t =
          (has, at, (drop (length t.moves) moves, continues-append t moves on)) in
        rw (same, on)
          (
            record { along = along; depth = depth },
            refl,
            (λ _. extends, λ _. refl),
            head ∙ descend_further t moves p on,
          )
    | inr away ↦
        let (along, depth, head) = advance-Advanced true moves t h in
        let other = λ (e : Extends key moves t). sym away ∙ (Extends-same_game key moves t e).1 in
        rw (same, away)
          (record { along = along; depth = depth }, refl, (λ e. absurd (false≢true e), other), head)
  ]
  | inr new ↦
      let start = deallocate_tree t h in
      let (along, depth, head) = advance-Advanced false moves start.0 start.1 in
      let other = λ (e : Extends key moves t). sym new ∙ (Extends-same_game key moves t e).0 in
      rw new (
        record { along = along; depth = depth },
        refl,
        (λ e. absurd (false≢true e), other),
        head ∙ descend_fresh moves,
      )
]
