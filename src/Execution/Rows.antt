-- ===== src/Execution/Rows.antt =====
-- The rows of the nodes of a graph: each id names one row.
use mathlib.Core.List.{Memᴰ}
use mathlib.Core.List.Memᴰ
use shiroe.Prelude.{
  String, Bool, true, false, some, List, [], ◌∷◌, map, ◌≡◌, refl, sym, subst, Bool-cases,
  Option-cases, ⊎_elim, inl, inr, arith, ◌==◌, string_eq, ==_refl,
}
use shiroe.Prelude.Sort.{sort_by, mem-sort_by}
use shiroe.Work.Schema.{NodeKind, node_kind_eq, node_status_eq, WorkNode, WorkGraph}
use shiroe.Work.Compiler.{node_leb}
use shiroe.Work.Readiness.{status_of}
use shiroe.Work.Tables.{NodeRow, same_node}
use shiroe.Work.Store.{WorkState, find_graph, find_node, select, get_graph, statuses_of}
use shiroe.Work.Store.RoundTrip.{IsApart}
use shiroe.Execution.Shrinks.{Shrinks, AllWhere}

abbrev pub UniqueIds : List NodeRow → Type 0
UniqueIds [] = Unit
UniqueIds (a ∷ rows) = IsApart same_node a rows × UniqueIds rows

IsApart-Shrinks :
    (a b : NodeRow) (xs ys : List NodeRow)
    → b.node ≡ a.node
    → Shrinks xs ys
    → IsApart same_node a xs
    → IsApart same_node b ys
IsApart-Shrinks a b [] [] p s h = tt
IsApart-Shrinks a b [] (y ∷ ys) p s h = elim s [ ]
IsApart-Shrinks a b (x ∷ xs) [] p s h = elim s [ ]
IsApart-Shrinks a b (x ∷ xs) (y ∷ ys) p (q, r, s) (h, k) =
    (rw p (rw q h), IsApart-Shrinks a b xs ys p s k)

pub UniqueIds-Shrinks : (xs ys : List NodeRow) → Shrinks xs ys → UniqueIds xs → UniqueIds ys
UniqueIds-Shrinks [] [] s h = tt
UniqueIds-Shrinks [] (y ∷ ys) s h = elim s [ ]
UniqueIds-Shrinks (x ∷ xs) [] s h = elim s [ ]
UniqueIds-Shrinks (x ∷ xs) (y ∷ ys) (q, r, s) (h, k) =
    (IsApart-Shrinks x y xs ys q s h, UniqueIds-Shrinks xs ys s k)

IsApart-mem :
    (a r : NodeRow) (rows : List NodeRow)
    → IsApart same_node a rows
    → Memᴰ r rows
    → (r.node.id == a.node.id) ≡ false
IsApart-mem a r [] h m = absurd (Memᴰ.not-nil m)
IsApart-mem a r (x ∷ rows) (h, k) m =
    ⊎_elim (λ p. rw p h) (λ n. IsApart-mem a r rows k n) (Memᴰ.cases_cons m)

apart_flip : (x y : String) → (x == y) ≡ false → (y == x) ≡ false
apart_flip x y h = ground (arith, string_eq.test_iff x y, string_eq.test_iff y x)

pub find_node-id :
    (rows : List NodeRow) (id : String) (row : NodeRow)
    → find_node id rows ≡ some row
    → row.node.id ≡ id
unfolding find_node
find_node-id [] id row h = cc
find_node-id (a ∷ rows) id row h =
    ground (arith, find_node-id rows id row, string_eq.test_iff a.node.id id)

pub find_node-mem :
    (rows : List NodeRow) (r : NodeRow)
    → UniqueIds rows
    → Memᴰ r rows
    → find_node r.node.id rows ≡ some r
unfolding find_node
find_node-mem [] r u m = absurd (Memᴰ.not-nil m)
find_node-mem (a ∷ rows) r (h, u) m =
    ⊎_elim (λ p. rw p (rw (==_refl a.node.id) refl))
      (λ n.
        let f = apart_flip r.node.id a.node.id (IsApart-mem a r rows h n) in
        rw f (find_node-mem rows r u n))
      (Memᴰ.cases_cons m)

pub status_of-mem :
    (graph_id : String) (rows : List NodeRow) (r : NodeRow)
    → UniqueIds rows
    → Memᴰ r rows
    → (r.node.graph_id == graph_id) ≡ true
    → status_of (statuses_of graph_id rows) r.node.id ≡ some r.status
unfolding status_of statuses_of
status_of-mem graph_id [] r u m g = absurd (Memᴰ.not-nil m)
status_of-mem graph_id (a ∷ rows) r (h, u) m g =
    ⊎_elim
      (λ p. rw p (
        let g' : (a.node.graph_id == graph_id) ≡ true = rw p at g in
        rw g' (rw (==_refl a.node.id) refl)))
      (λ n.
        let f = apart_flip r.node.id a.node.id (IsApart-mem a r rows h n) in
        let rest = status_of-mem graph_id rows r u n g in
        elim (Bool-cases (a.node.graph_id == graph_id)) [
          | inl b ↦ rw b (rw f rest)
          | inr b ↦ rw b rest
        ])
      (Memᴰ.cases_cons m)

-- the rows that have the id of an approval node are approval nodes
pub AllWhere-approval :
    (rows : List NodeRow) (r : NodeRow)
    → UniqueIds rows
    → Memᴰ r rows
    → (r.node.kind == NodeKind.approval) ≡ true
    → AllWhere (λ n. n.node.id == r.node.id) (λ n. (n.node.kind == NodeKind.approval) ≡ true) rows
AllWhere-approval [] r u m k = tt
AllWhere-approval (a ∷ rows) r (h, u) m k =
    ⊎_elim (λ p. (λ _. rw p at k, none_of rows (subst (λ x. IsApart same_node x rows) (sym p) h)))
      (λ n.
        let f = apart_flip r.node.id a.node.id (IsApart-mem a r rows h n) in
        (λ t. absurd (cc (t, f)), AllWhere-approval rows r u n k))
      (Memᴰ.cases_cons m)
  where
    none_of :
        (xs : List NodeRow)
        → IsApart same_node r xs
        → AllWhere (λ n. n.node.id == r.node.id) (λ n. (n.node.kind == NodeKind.approval) ≡ true) xs
    none_of [] h = tt
    none_of (x ∷ xs) (h, k) = (λ t. absurd (cc (t, h)), none_of xs k)

mem-select :
    (test : NodeRow → Bool) (rows : List NodeRow) (n : WorkNode)
    → Memᴰ n (map (λ r. r.node) (select test rows))
    → (r : NodeRow) × Memᴰ r rows × (r.node ≡ n) × (test r ≡ true)
unfolding select
mem-select test [] n m = absurd (Memᴰ.not-nil m)
mem-select test (a ∷ rows) n m = elim (Bool-cases (test a)) [
  | inl t ↦
      ⊎_elim (λ p. (a, Memᴰ.head refl, sym p, t))
        (λ k. let (r, i, q, g) = mem-select test rows n k in (r, Memᴰ.tail i, q, g))
        (Memᴰ.cases_cons (rw (t, select) at m))
  | inr t ↦
      let (r, i, q, g) = mem-select test rows n (rw (t, select) at m) in (r, Memᴰ.tail i, q, g)
]

pub get_graph-mem :
    (s : WorkState) (graph_id : String) (graph : WorkGraph) (n : WorkNode)
    → get_graph s graph_id ≡ some graph
    → Memᴰ n graph.nodes
    → (r : NodeRow) × Memᴰ r s.tables.nodes × (r.node ≡ n) × ((r.node.graph_id == graph_id) ≡ true)
unfolding get_graph
get_graph-mem s graph_id graph n h m = elim (Option-cases (find_graph graph_id s.tables.graphs)) [
  | inl e ↦ ground (arith, e)
  | inr (row, e) ↦
      let rows = select (λ r. r.node.graph_id == graph_id) s.tables.nodes in
      let p : graph.nodes ≡ sort_by node_leb (map (λ r. r.node) rows) = ground (arith, e) in
      mem-select (λ r. r.node.graph_id == graph_id) s.tables.nodes n
        ((mem-sort_by node_leb n (map (λ r. r.node) rows)).0 (subst (λ ns. Memᴰ n ns) p m))
]
