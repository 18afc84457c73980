-- ===== src/Graph/Cycle/Acyclic.antt =====
-- A graph without `cycle_nodes` has no cycle: its nodes have a rank that every edge raises.
use relayvia.Prelude.{
  ℕ, zero, suc, ◌+◌, ◌≤◌, ◌<◌, Bool, true, false, some, List, [], ◌∷◌, ◌==◌, ◌≡◌, refl, ap, ◌∙◌,
  map, any, all, length, filter, is_some, if◌then◌else◌, ltb, arith, inl, inr, Bool-cases,
  Option-cases,
}
use relayvia.Table.{Table, get, keys_where, no_keys, no_keys-get, keys_where_complete}
use relayvia.Graph.{WorkflowNode, WorkflowEdge, WorkflowGraph}
use relayvia.Graph.Index.{incoming_edges}
use relayvia.Graph.Reach.{mem}
use relayvia.Graph.Cycle.{in_degrees, take_off, cycle_nodes}
use relayvia.Graph.Cycle.Relax.{edges_to, positives, length-relax, distinct}
use relayvia.Graph.Cycle.Order.{from_done, ordered, IsOrder, take_one}

module _ (g : WorkflowGraph) where
  key_listed :
      (p : ℕ → Bool) (x : ℕ) (ns : List WorkflowNode)
      → mem x (keys_where p (in_degrees g ns)) ≡ true
      → mem x (map (λ n. n.id) ns) ≡ true
  unfolding keys_where
  key_listed p x [] m = m
  key_listed p x (n ∷ ns) m = ground (arith, key_listed p x ns)

  distinct-keys :
      (p : ℕ → Bool) (ns : List WorkflowNode)
      → distinct (map (λ n. n.id) ns) ≡ true
      → distinct (keys_where p (in_degrees g ns)) ≡ true
  unfolding keys_where
  distinct-keys p [] d = refl
  distinct-keys p (n ∷ ns) d = ground (arith, distinct-keys p ns, key_listed p n.id ns)

  key_row :
      (p : ℕ → Bool) (x : ℕ) (ns : List WorkflowNode)
      → distinct (map (λ n. n.id) ns) ≡ true
      → mem x (keys_where p (in_degrees g ns)) ≡ true
      → (v : ℕ) × (get x (in_degrees g ns) ≡ some v) × (p v ≡ true)
  unfolding keys_where get
  key_row p x [] d m = cc
  key_row p x (n ∷ ns) d m = elim (Bool-cases (n.id == x)) [
    | inl s ↦
        let at : n.id ≡ x = ground arith in
        let alone : mem n.id (map (λ n. n.id) ns) ≡ false = ground arith in
        elim (Bool-cases (p (length (incoming_edges g n.id)))) [
          | inl y ↦ (length (incoming_edges g n.id), rw s refl, y)
          | inr f ↦ absurd (cc (at, alone, key_listed p x ns (rw f at m)))
        ]
    | inr s ↦ let (v, e, pv) = key_row p x ns (ground arith) (ground arith) in (v, rw s e, pv)
  ]

  degree_row :
      (t d : ℕ) (ns : List WorkflowNode) → get t (in_degrees g ns) ≡ some d → d ≡ edges_to t g.edges
  unfolding get
  degree_row t d [] h = cc
  degree_row t d (n ∷ ns) h = elim (Bool-cases (n.id == t)) [
    | inl s ↦
        let at : n.id ≡ t = ground arith in
        let here : some (length (incoming_edges g n.id)) ≡ some d = rw s at h in
        rw (← at) (ground arith)
    | inr s ↦ degree_row t d ns (rw s at h)
  ]

  has_row :
      (x : ℕ) (ns : List WorkflowNode)
      → any (λ n. n.id == x) ns ≡ true
      → is_some (get x (in_degrees g ns)) ≡ true
  unfolding get
  has_row x [] m = cc
  has_row x (n ∷ ns) m = ground (arith, has_row x ns)

  pub work_at_first :
      (ns : List WorkflowNode)
      → length (keys_where (λ d. d == 0) (in_degrees g ns)) + positives (in_degrees g ns)
        ≡ length ns
  unfolding keys_where
  work_at_first [] = omega arith
  work_at_first (n ∷ ns) = ground (arith, work_at_first ns)

  abbrev pub first_queue : List ℕ
  first_queue = keys_where (λ d. d == 0) (in_degrees g g.nodes)

  from_none : (t : ℕ) (es : List WorkflowEdge) → from_done [] t es ≡ 0
  from_none t [] = refl
  from_none t (e ∷ es) = ground (arith, from_none t es)

  pub first-IsOrder :
      distinct (map (λ n. n.id) g.nodes) ≡ true → IsOrder g (in_degrees g g.nodes) first_queue []
  first-IsOrder d = record {
    fresh = record {
      once = distinct-keys (λ d. d == 0) g.nodes d;
      zero_degree =
          λ x m. let (v, e, z) = key_row (λ d. d == 0) x g.nodes d m in e ∙ ap some (ground arith);
    };
    rows = λ x m. has_row x g.nodes m;
    counted = λ t v h. omega (arith, degree_row t v g.nodes h, from_none t g.edges);
    done_zero = λ x m. cc;
    apart = λ x m. refl;
    placed = λ x h.
        let found = keys_where_complete (λ d. d == 0) x 0 (in_degrees g g.nodes) h refl in
        ground arith;
    in_order = refl;
  }

  pub take_off-IsOrder :
      (fuel : ℕ) (degrees : Table ℕ) (queue done : List ℕ)
      → length queue + positives degrees < fuel
      → IsOrder g degrees queue done
      → (last : List ℕ) × IsOrder g (take_off fuel g degrees queue) [] last
  unfolding take_off
  take_off-IsOrder zero degrees queue done b inv = absurd (omega arith)
  take_off-IsOrder (suc fuel) degrees [] done b inv = (done, inv)
  take_off-IsOrder (suc fuel) degrees (c ∷ queue) done b inv =
      take_off-IsOrder fuel _ _ (c ∷ done)
        (omega (arith, length-relax (filter (λ e. e.source == c) g.edges) degrees queue))
        (take_one g c degrees queue done inv)

-- the place of a node in the order
abbrev pub rank_in : List ℕ → ℕ → ℕ
rank_in [] x = 0
rank_in (c ∷ done) x = let rest = rank_in done x in if c == x then suc (length done) else rest

rank_in_le : (done : List ℕ) (x : ℕ) → rank_in done x ≤ length done
rank_in_le [] x = omega arith
rank_in_le (c ∷ done) x = ground (arith, rank_in_le done x)

ordered_head :
    (e : WorkflowEdge) (es : List WorkflowEdge) (done : List ℕ)
    → ordered (e ∷ es) done ≡ true
    → (ordered (e ∷ []) done ≡ true) × (ordered es done ≡ true)
ordered_head e es [] h = (refl, refl)
ordered_head e es (c ∷ done) h =
    let (a, b) = ordered_head e es done (ground arith) in (ground arith, ground arith)

edge_up :
    (e : WorkflowEdge) (done : List ℕ)
    → ordered (e ∷ []) done ≡ true
    → mem e.target done ≡ true
    → (mem e.source done ≡ true) × (rank_in done e.source < rank_in done e.target)
edge_up e [] h m = absurd (ground arith)
edge_up e (c ∷ done) h m = elim (Bool-cases (c == e.target)) [
  | inl t ↦
      let s : mem e.source done ≡ true = ground arith in
      let apart = differs s (ground arith) in
      let le = rank_in_le done e.source in (ground arith, ground arith)
  | inr t ↦
      let (s, lt) = edge_up e done (ground arith) (ground arith) in
      let apart = differs s (ground arith) in (ground arith, ground arith)
]
  where
    differs : mem e.source done ≡ true → mem c done ≡ false → (c == e.source) ≡ false
    differs s f = elim (Bool-cases (c == e.source)) [
      | inr o ↦ o
      | inl o ↦ let at : c ≡ e.source = ground arith in absurd (cc (at, s, f))
    ]

edges_up :
    (done : List ℕ) (es : List WorkflowEdge)
    → ordered es done ≡ true
    → all (λ e. mem e.target done) es ≡ true
    → all (λ e. ltb (rank_in done e.source) (rank_in done e.target)) es ≡ true
edges_up done [] h m = refl
edges_up done (e ∷ es) h m =
    let (one, more) = ordered_head e es done h in
    let (s, up) = edge_up e done one (ground arith) in ground (arith, edges_up done es)

-- If the nodes have distinct identifiers, every edge ends at one of them and `cycle_nodes` finds
-- nothing, then the nodes have a rank that every edge raises.
pub cycle_nodes_none :
    (g : WorkflowGraph)
    → distinct (map (λ n. n.id) g.nodes) ≡ true
    → all (λ e. any (λ n. n.id == e.target) g.nodes) g.edges ≡ true
    → no_keys (cycle_nodes g) ≡ true
    → (rank : ℕ → ℕ) × (all (λ e. ltb (rank e.source) (rank e.target)) g.edges ≡ true)
unfolding cycle_nodes
cycle_nodes_none g d ends nothing =
    let (last, inv) =
      take_off-IsOrder g (suc (length g.nodes)) (in_degrees g g.nodes)
        (keys_where (λ d. d == 0) (in_degrees g g.nodes)) []
        (omega (arith, work_at_first g g.nodes)) (first-IsOrder g d) in
    (rank_in last, edges_up last g.edges inv.in_order (all_taken last inv g.edges ends))
  where
    degrees : Table ℕ
    degrees =
        take_off (suc (length g.nodes)) g (in_degrees g g.nodes)
          (keys_where (λ d. d == 0) (in_degrees g g.nodes))

    taken :
        (last : List ℕ)
        → IsOrder g degrees [] last
        → (x : ℕ) → any (λ n. n.id == x) g.nodes ≡ true
        → mem x last ≡ true
    taken last inv x l = elim (Option-cases (get x degrees)) [
      | inl e ↦ let row = inv.rows x l in absurd (ground arith)
      | inr (v, e) ↦
          let z = no_keys-get (ltb 0) x v degrees nothing e in
          let at : v ≡ 0 = ground arith in inv.placed x (e ∙ ap some at)
    ]

    all_taken :
        (last : List ℕ)
        → IsOrder g degrees [] last
        → (es : List WorkflowEdge) → all (λ e. any (λ n. n.id == e.target) g.nodes) es ≡ true
        → all (λ e. mem e.target last) es ≡ true
    all_taken last inv [] h = refl
    all_taken last inv (e ∷ es) h =
        let here = taken last inv e.target (ground arith) in
        let rest = all_taken last inv es (ground arith) in ground arith
