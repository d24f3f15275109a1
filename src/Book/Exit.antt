-- ===== src/Book/Exit.antt =====
-- book/gote_exit_solver.h: the retrograde solver for the shortest forced exit from a book.
use jhbr.Base.{
  ℕ, zero, suc, ◌+◌, ◌-◌, ◌%◌, ◌^◌, max, Bool, true, false, not, ◌&&◌, ◌==◌, ltb, leb, List, [],
  ◌∷◌, ◌++◌, if◌then◌else◌, length, get_or, set, replicate, u64,
}

-- The Graph of the template, as an interface.
pub record Graph : Type 0 where
  pub node_count : ℕ
  pub is_gote : ℕ → Bool
  pub edge_count : ℕ → ℕ
  pub edge_child : ℕ → ℕ → ℕ

abbrev pub u32_max : ℕ
u32_max = 2 ^ 32 - 1

abbrev pub k_exit_leaf : ℕ
k_exit_leaf = u32_max

abbrev pub k_exit_disallowed : ℕ
k_exit_disallowed = u32_max - 1

abbrev pub k_exit_distance_infinite : ℕ
k_exit_distance_infinite = u32_max

-- What the solver throws.
pub data ExitError : Type 0 where
  too_many_nodes child_out_of_range reverse_degree_overflow out_degree_overflow : ExitError
  reverse_size_overflow unresolved_underflow : ExitError

pub data ExitResult {ℓ} (A : Type ℓ) : Type ℓ where
  solved : A → ExitResult A
  thrown : ExitError → ExitResult A

abbrev pub and_then {ℓ κ} :
    {A : Type ℓ} {B : Type κ} → ExitResult A → (A → ExitResult B) → ExitResult B
and_then (solved a) f = f a
and_then (thrown e) f = thrown e

-- What the first pass counts.
pub record Degrees : Type 0 where
  pub reverse_counts : List ℕ
  pub unresolved : List ℕ
  pub has_allowed_edge : List Bool
  pub has_exit_edge : List Bool
  pub internal_edges : ℕ

-- The state of the propagation; `queue` grows at its end.
pub record Wave : Type 0 where
  pub distance : List ℕ
  pub max_child_distance : List ℕ
  pub unresolved : List ℕ
  pub queue : List ℕ

pub record GoteExitSolution : Type 0 where
  pub distance : List ℕ
  pub allowed_internal_edges : ℕ
  pub finite_nodes : ℕ
  pub infinite_nodes : ℕ

module _ (g : Graph) where
  abbrev nodes : ℕ
  nodes = g.node_count

  -- An edge to another node of the book.
  unfoldable pub count_internal : ℕ → ℕ → Degrees → ExitResult Degrees
  count_internal node child d =
      let c = get_or d.reverse_counts child 0 in
      let u = get_or d.unresolved node 0 in
      let e = record d {
        reverse_counts = set d.reverse_counts child (c + 1);
        internal_edges = u64 (d.internal_edges + 1);
      } in
      if leb nodes child
      then thrown child_out_of_range
      else if c == u32_max
      then thrown reverse_degree_overflow
      else if g.is_gote node
      then solved e
      else if u == u32_max
      then thrown out_degree_overflow
      else solved (record e { unresolved = set d.unresolved node (u + 1) })

  unfoldable pub count_edge : ℕ → ℕ → Degrees → ExitResult Degrees
  count_edge node child d =
      let e = record d { has_allowed_edge = set d.has_allowed_edge node true } in
      if child == k_exit_disallowed
      then solved d
      else if child == k_exit_leaf
      then solved (record e { has_exit_edge = set e.has_exit_edge node true })
      else count_internal node child e

  -- The loops of the first pass, over the edges of a node and over the nodes.
  unfoldable pub count_edges : ℕ → ℕ → ℕ → Degrees → ExitResult Degrees
  count_edges node zero edge d = solved d
  count_edges node (suc n) edge d =
      and_then (count_edge node (g.edge_child node edge) d) (count_edges node n (edge + 1))

  unfoldable pub count_nodes : ℕ → ℕ → Degrees → ExitResult Degrees
  count_nodes zero node d = solved d
  count_nodes (suc n) node d =
      and_then (count_edges node (g.edge_count node) 0 d) (count_nodes n (node + 1))

  unfoldable pub degrees : ExitResult Degrees
  degrees = count_nodes nodes 0 (record {
    reverse_counts = replicate nodes 0;
    unresolved = replicate nodes 0;
    has_allowed_edge = replicate nodes false;
    has_exit_edge = replicate nodes false;
    internal_edges = 0;
  })

  -- `reverse_offsets`: where the parents of each node begin, and the end.
  unfoldable pub offsets_from : List ℕ → ℕ → List ℕ
  offsets_from [] start = start ∷ []
  offsets_from (c ∷ cs) start = start ∷ offsets_from cs (u64 (start + c))

  -- The second pass puts each parent in the slots of its children.
  unfoldable pub place_edge : List ℕ → ℕ → ℕ → List ℕ × List ℕ → List ℕ × List ℕ
  place_edge offsets parent child (counts, parents) =
      let c = get_or counts child 0 in
      if leb k_exit_disallowed child
      then (counts, parents)
      else (set counts child (c + 1), set parents (get_or offsets child 0 + c) parent)

  unfoldable pub place_edges : List ℕ → ℕ → ℕ → ℕ → List ℕ × List ℕ → List ℕ × List ℕ
  place_edges offsets parent zero edge s = s
  place_edges offsets parent (suc n) edge s =
      place_edges offsets parent n (edge + 1)
        (place_edge offsets parent (g.edge_child parent edge) s)

  unfoldable pub place_nodes : List ℕ → ℕ → ℕ → List ℕ × List ℕ → List ℕ × List ℕ
  place_nodes offsets zero parent s = s
  place_nodes offsets (suc n) parent s =
      place_nodes offsets n (parent + 1) (place_edges offsets parent (g.edge_count parent) 0 s)

  unfoldable pub immediately_finite : Degrees → ℕ → Bool
  immediately_finite d node =
      if g.is_gote node
      then get_or d.has_exit_edge node false
      else get_or d.has_allowed_edge node false && (get_or d.unresolved node 0 == 0)

  -- A node that is solved gets its distance and joins the queue.
  abbrev pub settle : ℕ → ℕ → Wave → Wave
  settle node value w = record w {
    distance = set w.distance node value;
    queue = w.queue ++ (node ∷ []);
  }

  unfoldable pub seed : Degrees → ℕ → ℕ → Wave → Wave
  seed d zero node w = w
  seed d (suc n) node w =
      seed d n (node + 1) (if immediately_finite d node then settle node 1 w else w)

  -- One parent of a solved child.
  unfoldable pub relax : ℕ → ℕ → Wave → ExitResult Wave
  relax child_distance parent w =
      let farthest = max (get_or w.max_child_distance parent 0) child_distance in
      let left = get_or w.unresolved parent 0 in
      let v = record w {
        max_child_distance = set w.max_child_distance parent farthest;
        unresolved = set w.unresolved parent (left - 1);
      } in
      if not (get_or w.distance parent 0 == k_exit_distance_infinite)
      then solved w
      else if g.is_gote parent
      then solved (
          settle parent
            (if child_distance == k_exit_distance_infinite
              then k_exit_distance_infinite
              else (child_distance + 1) % 2 ^ 32)
            w)
      else if left == 0
      then thrown unresolved_underflow
      else solved (if left - 1 == 0 then settle parent ((farthest + 1) % 2 ^ 32) v else v)

  -- The parents from slot `i` on, `n` of which are left.
  unfoldable pub relax_all : List ℕ → ℕ → ℕ → ℕ → Wave → ExitResult Wave
  relax_all parents child_distance zero i w = solved w
  relax_all parents child_distance (suc n) i w =
      and_then (relax child_distance (get_or parents i 0) w)
        (relax_all parents child_distance n (i + 1))

  -- The loop over the queue from `head` on. A node joins it at most once, so that one unit of fuel for
  -- each node and one more are enough.
  unfoldable pub propagate : List ℕ → List ℕ → ℕ → ℕ → Wave → ExitResult Wave
  propagate offsets parents zero head w = solved w
  propagate offsets parents (suc fuel) head w = elim (ltb head (length w.queue)) [
    | false ↦ solved w
    | true ↦
        let child = get_or w.queue head 0 in
        let start = get_or offsets child 0 in
        and_then
          (relax_all parents (get_or w.distance child 0) (get_or offsets (child + 1) 0 - start)
            start w)
          (propagate offsets parents fuel (head + 1))
  ]

  unfoldable pub solve_degrees : Degrees → ExitResult GoteExitSolution
  solve_degrees d =
      let offsets = offsets_from d.reverse_counts 0 in
      let placed = place_nodes offsets nodes 0 (replicate nodes 0, replicate d.internal_edges 0) in
      let start : Wave = record {
        distance = replicate nodes k_exit_distance_infinite;
        max_child_distance = replicate nodes 0;
        unresolved = d.unresolved;
        queue = [];
      } in
      if not (get_or offsets nodes 0 == d.internal_edges)
      then thrown reverse_size_overflow
      else and_then (propagate offsets placed.1 (nodes + 1) 0 (seed d nodes 0 start)) λ w.
        solved (record {
          distance = w.distance;
          allowed_internal_edges = d.internal_edges;
          finite_nodes = length w.queue;
          infinite_nodes = nodes - length w.queue;
        })

  -- SolveGoteExitGraph
  unfoldable pub solve_gote_exit_graph : ExitResult GoteExitSolution
  solve_gote_exit_graph =
      if leb k_exit_disallowed nodes then thrown too_many_nodes else and_then degrees solve_degrees
