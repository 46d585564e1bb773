-- ===== src/Work/Store/RoundTrip.antt =====
-- A graph that is created and read back.
use mathlib.Core.List.{append-nil, append_assoc, Memᴰ}
use mathlib.Core.List.Memᴰ
use shiroe.Prelude.{
  String, Bool, true, false, some, List, [], ◌∷◌, ◌++◌, map, ◌≡◌, refl, ◌==◌, string_eq, Bool-cases,
  inl, inr, arith, ==_refl, ap, sym, ◌∙◌, ◌≢◌, ⊎_elim, ◌⊎◌,
}
use shiroe.Prelude.Sort.{sort_by}
use shiroe.Prelude.Json.{end}
use shiroe.Work.Schema.{WorkNode, WorkEdge, WorkGraph}
use shiroe.Work.Compiler.{node_leb, edge_leb}
use shiroe.Work.Tables.{
  GraphRow, NodeRow, WorkEvent, run_created, put, put_all, same_graph, same_node, same_edge,
  graph_row, new_row, new_rows, new_edges, apply_run_created, apply_work, refers, refused,
  apply_checked,
}
use shiroe.Work.Store.{WorkState, find_graph, select, get_graph, emit_work, emit_checked, create}

module _ {ℓ} {A : Type ℓ} (same : A → A → Bool) where
  -- no row has the key
  abbrev pub IsApart : A → List A → Type 0
  IsApart a [] = Unit
  IsApart a (x ∷ xs) = (same x a ≡ false) × IsApart a xs

  -- each row's key is new beside `seen` and the rows before it
  abbrev pub AreApart : List A → List A → Type 0
  AreApart seen [] = Unit
  AreApart seen (a ∷ more) = IsApart a seen × AreApart (seen ++ a ∷ []) more

  abbrev pub AllPass : (A → Bool) → List A → Type 0
  AllPass test [] = Unit
  AllPass test (a ∷ more) = (test a ≡ true) × AllPass test more

  select-put :
      (test : A → Bool) (a : A) (xs : List A)
      → test a ≡ true
      → IsApart a (select test xs)
      → select test (put same a xs) ≡ select test xs ++ a ∷ []
  unfolding select put
  select-put test a [] t h = ground arith
  select-put test a (x ∷ xs) t h = elim (Bool-cases (test x)) [
    | inl p ↦
        let h' : (same x a ≡ false) × IsApart a (select test xs) = rw (p, select) at h in
        ground (arith, h'.0, select-put test a xs t h'.1)
    | inr p ↦
        let h' : IsApart a (select test xs) = rw (p, select) at h in
        ground (arith, select-put test a xs t h')
  ]

  select-put_all :
      (test : A → Bool) (more seen xs : List A)
      → AllPass test more
      → AreApart seen more
      → select test xs ≡ seen
      → select test (put_all same more xs) ≡ seen ++ more
  unfolding put_all
  select-put_all test [] seen xs p h e = rw append-nil e
  select-put_all test (a ∷ more) seen xs p h e =
      let one : select test (put same a xs) ≡ seen ++ a ∷ [] =
        select-put test a xs p.0 (rw e h.0) ∙ ap (λ ys. ys ++ a ∷ []) e in
      select-put_all test more (seen ++ a ∷ []) (put same a xs) p.1 h.1 one
      ∙ append_assoc seen (a ∷ []) more

find_graph-put :
    (row : GraphRow) (graphs : List GraphRow)
    → find_graph row.id (put same_graph row graphs) ≡ some row
unfolding find_graph put
find_graph-put row [] = ground (arith, ==_refl row.id)
find_graph-put row (g ∷ graphs) = elim (Bool-cases (g.id == row.id)) [
  | inl t ↦ rw (t, put) (find_graph-put row graphs)
  | inr t ↦ ground (arith, find_graph-put row graphs)
]

-- the nodes and the edges name the graph that they stand in
abbrev pub NodesIn : String → List WorkNode → Type 0
NodesIn id [] = Unit
NodesIn id (n ∷ nodes) = (n.graph_id ≡ id) × NodesIn id nodes

abbrev pub EdgesIn : String → List WorkEdge → Type 0
EdgesIn id [] = Unit
EdgesIn id (e ∷ edges) = (e.graph_id ≡ id) × EdgesIn id edges

map-new_rows :
    (id : String) (nodes : List WorkNode)
    → NodesIn id nodes
    → map (λ n. n.node) (new_rows id nodes) ≡ nodes
unfolding new_rows
map-new_rows id [] h = refl
map-new_rows id (n ∷ nodes) h = ground (arith, map-new_rows id nodes)

new_edges_lem :
    (id : String) (edges : List WorkEdge) → EdgesIn id edges → new_edges id edges ≡ edges
unfolding new_edges
new_edges_lem id [] h = refl
new_edges_lem id (e ∷ edges) h = ground (arith, new_edges_lem id edges)

AllPass-new_rows :
    (id : String) (nodes : List WorkNode)
    → AllPass same_node (λ n. n.node.graph_id == id) (new_rows id nodes)
unfolding new_rows
AllPass-new_rows id [] = tt
AllPass-new_rows id (n ∷ nodes) = (==_refl id, AllPass-new_rows id nodes)

AllPass-new_edges :
    (id : String) (edges : List WorkEdge)
    → AllPass same_edge (λ e. e.graph_id == id) (new_edges id edges)
unfolding new_edges
AllPass-new_edges id [] = tt
AllPass-new_edges id (n ∷ edges) = (==_refl id, AllPass-new_edges id edges)

mem-put :
    (row a : NodeRow) (rows : List NodeRow)
    → Memᴰ row (put same_node a rows)
    → (row ≡ a) ⊎ (Memᴰ row rows × (same_node row a ≡ false))
unfolding put
mem-put row a [] m = ⊎_elim inl (λ n. absurd (Memᴰ.not-nil n)) (Memᴰ.cases_cons m)
mem-put row a (x ∷ rows) m = elim (Bool-cases (same_node x a)) [
  | inl t ↦ ⊎_elim inl (λ (k, h). inr (Memᴰ.tail k, h)) (mem-put row a rows (rw (t, put) at m))
  | inr t ↦
      ⊎_elim (λ p. inr (Memᴰ.head p, rw p t))
        (λ n. ⊎_elim inl (λ (k, h). inr (Memᴰ.tail k, h)) (mem-put row a rows n))
        (Memᴰ.cases_cons (rw (t, put) at m))
]

-- A row after the nodes of a graph are put is one of theirs, or an old one with none of their ids.
mem-put_all :
    (id : String) (nodes : List WorkNode) (row : NodeRow) (rows : List NodeRow)
    → Memᴰ row (put_all same_node (new_rows id nodes) rows)
    → (row.node.graph_id ≡ id)
      ⊎ (Memᴰ row rows × ((n : WorkNode) → Memᴰ n nodes → row.node.id ≢ n.id))
unfolding put_all new_rows
mem-put_all id [] row rows m = inr (m, λ n k. absurd (Memᴰ.not-nil k))
mem-put_all id (n ∷ nodes) row rows m =
    ⊎_elim inl
      (λ (k, free).
        ⊎_elim (λ p. inl (ap (λ r. r.node.graph_id) p))
          (λ (j, apart). inr (
            j,
            λ o k'.
                ⊎_elim
                  (λ p e. ground (arith, string_eq.test_iff row.node.id n.id, ap (λ x. x.id) p))
                  (free o) (Memᴰ.cases_cons k'),
          ))
          (mem-put row (new_row id n) rows k))
      (mem-put_all id nodes row (put same_node (new_row id n) rows) m)

module _ (sealed : WorkEvent → WorkEvent) where
  -- A creation that a foreign key does not refuse is one event that is folded.
  create-emit :
      (s : WorkState) (g : WorkGraph)
      → (create sealed s g).1 ≡ true
      → (create sealed s g).0 ≡ emit_work sealed s (run_created g)
  unfolding create emit_checked apply_checked emit_work
  create-emit s g h = elim (Bool-cases (refers (sealed (run_created g)) s.tables)) [
    | inl b ↦ rw b refl
    | inr b ↦ ground (arith, b)
  ]

  -- The nodes are put also where an edge is refused.
  create-nodes :
      (s : WorkState) (g : WorkGraph)
      → sealed (run_created g) ≡ run_created g
      → (create sealed s g).0.tables.nodes
        ≡ put_all same_node (new_rows g.id g.nodes) s.tables.nodes
  unfolding create emit_checked apply_checked apply_work apply_run_created refused
  create-nodes s g kept = rw kept (elim (Bool-cases (refers (run_created g) s.tables)) [
    | inl b ↦ rw b refl
    | inr b ↦ rw b refl
  ])

  -- A graph whose creation is not refused, where no row has its id, reads back as it was, with its nodes and edges in
  -- the order of their ids and without its metadata; its nodes and edges name it, no two of them have
  -- the same key, and the log keeps the texts of the event.
  pub get_graph-create :
      (s : WorkState) (g : WorkGraph)
      → sealed (run_created g) ≡ run_created g
      → NodesIn g.id g.nodes
      → EdgesIn g.id g.edges
      → AreApart same_node [] (new_rows g.id g.nodes)
      → AreApart same_edge [] (new_edges g.id g.edges)
      → select (λ n. n.node.graph_id == g.id) s.tables.nodes ≡ []
      → select (λ e. e.graph_id == g.id) s.tables.edges ≡ []
      → (create sealed s g).1 ≡ true
      → get_graph (create sealed s g).0 g.id
        ≡ some (record g {
          nodes = sort_by node_leb g.nodes;
          edges = sort_by edge_leb g.edges;
          metadata = end;
        })
  unfolding get_graph emit_work apply_work apply_run_created
  get_graph-create s g kept ng eg na ea nn en all =
      let rows =
        select-put_all same_node (λ n. n.node.graph_id == g.id) (new_rows g.id g.nodes) []
          s.tables.nodes (AllPass-new_rows g.id g.nodes) na nn in
      let edges =
        select-put_all same_edge (λ e. e.graph_id == g.id) (new_edges g.id g.edges) []
          s.tables.edges (AllPass-new_edges g.id g.edges) ea en in
      rw (create-emit s g all) (
        rw kept (
          rw (find_graph-put (graph_row g) s.tables.graphs, get_graph)
            (rw rows (
              rw edges
                (rw (map-new_rows g.id g.nodes ng) (rw (new_edges_lem g.id g.edges eg) refl))))))

  -- A graph that is created with a node id that a node of another graph has takes that node away from
  -- the other graph: no row with the id is left to it, also where the creation raises at a foreign key of an edge.
  -- The log keeps the texts of the event.
  pub create_takes :
      (s : WorkState) (g : WorkGraph) (n : WorkNode) (other : String) (row : NodeRow)
      → sealed (run_created g) ≡ run_created g
      → Memᴰ n g.nodes
      → g.id ≢ other
      → Memᴰ row (create sealed s g).0.tables.nodes
      → row.node.id ≡ n.id
      → row.node.graph_id ≢ other
  create_takes s g n other row kept m ne r i =
      let r' : Memᴰ row (put_all same_node (new_rows g.id g.nodes) s.tables.nodes) =
        rw (create-nodes s g kept) at r in
      ⊎_elim (λ p q. ne (sym p ∙ q)) (λ (k, free). absurd (free n m i))
        (mem-put_all g.id g.nodes row s.tables.nodes r')
