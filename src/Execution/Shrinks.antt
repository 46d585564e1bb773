-- ===== src/Execution/Shrinks.antt =====
-- The tasks that wait do not become more, where the rows change and each node stays as it is.
use shiroe.Prelude.{
  ◌≤◌, ◌<◌, String, Bool, true, false, some, List, [], ◌∷◌, ◌≡◌, refl, ◌∙◌, Bool-cases, inl, inr,
  arith, ◌==◌, string_eq,
}
use shiroe.Work.Schema.{node_kind_eq, node_status_eq}
use shiroe.Work.Tables.{NodeRow, change_where}
use shiroe.Work.Store.{find_node}
use shiroe.Execution.Supervisor.{is_waiting, waiting}

-- row by row: the same node, and it waits only where it waited before
abbrev pub Shrinks : List NodeRow → List NodeRow → Type 0
Shrinks [] [] = Unit
Shrinks (a ∷ xs) (b ∷ ys) =
    (b.node ≡ a.node) × (is_waiting b ≡ true → is_waiting a ≡ true) × Shrinks xs ys
Shrinks _ _ = ⊥

pub Shrinks-refl : (rows : List NodeRow) → Shrinks rows rows
Shrinks-refl [] = tt
Shrinks-refl (a ∷ rows) = (refl, λ h. h, Shrinks-refl rows)

pub Shrinks-trans : (xs ys zs : List NodeRow) → Shrinks xs ys → Shrinks ys zs → Shrinks xs zs
Shrinks-trans [] [] zs h k = k
Shrinks-trans [] (b ∷ ys) zs h k = elim h [ ]
Shrinks-trans (a ∷ xs) [] zs h k = elim h [ ]
Shrinks-trans (a ∷ xs) (b ∷ ys) [] h k = elim k [ ]
Shrinks-trans (a ∷ xs) (b ∷ ys) (c ∷ zs) (p, q, h) (r, t, k) =
    (r ∙ p, λ w. q (t w), Shrinks-trans xs ys zs h k)

-- rows that a change may touch
abbrev pub AllWhere : (NodeRow → Bool) → (NodeRow → Type 0) → List NodeRow → Type 0
AllWhere test P [] = Unit
AllWhere test P (a ∷ rows) = (test a ≡ true → P a) × AllWhere test P rows

pub Shrinks-change_where :
    (test : NodeRow → Bool) (f : NodeRow → NodeRow) (rows : List NodeRow)
    → AllWhere test
        (λ a. ((f a).node ≡ a.node) × (is_waiting (f a) ≡ true → is_waiting a ≡ true))
        rows
    → Shrinks rows (change_where test f rows)
unfolding change_where
Shrinks-change_where test f [] h = tt
Shrinks-change_where test f (a ∷ rows) (h, hs) = elim (Bool-cases (test a)) [
  | inl t ↦ rw t ((h t).0, (h t).1, Shrinks-change_where test f rows hs)
  | inr t ↦ rw t (refl, λ w. w, Shrinks-change_where test f rows hs)
]

pub waiting-Shrinks : (xs ys : List NodeRow) → Shrinks xs ys → waiting ys ≤ waiting xs
unfolding waiting
waiting-Shrinks [] [] h = ground arith
waiting-Shrinks [] (b ∷ ys) h = elim h [ ]
waiting-Shrinks (a ∷ xs) [] h = elim h [ ]
waiting-Shrinks (a ∷ xs) (b ∷ ys) (p, q, h) =
    let rest = waiting-Shrinks xs ys h in
    elim (Bool-cases (is_waiting b)) [
      | inl t ↦ let u = q t in rw (t, waiting) (rw (u, waiting) (ground arith))
      | inr t ↦ elim (Bool-cases (is_waiting a)) [
        | inl u ↦ rw (t, waiting) (rw (u, waiting) (ground arith))
        | inr u ↦ rw (t, waiting) (rw (u, waiting) (ground arith))
      ]
    ]

-- a node that waited and waits no more
pub waiting_drops :
    (xs ys : List NodeRow) (id : String) (a b : NodeRow)
    → Shrinks xs ys
    → find_node id xs ≡ some a
    → find_node id ys ≡ some b
    → is_waiting a ≡ true
    → is_waiting b ≡ false
    → waiting ys < waiting xs
unfolding waiting find_node
waiting_drops [] [] id a b s f g w v = cc
waiting_drops [] (y ∷ ys) id a b s f g w v = elim s [ ]
waiting_drops (x ∷ xs) [] id a b s f g w v = elim s [ ]
waiting_drops (x ∷ xs) (y ∷ ys) id a b (p, q, s) f g w v = elim (Bool-cases (x.node.id == id)) [
  | inl t ↦
      let rest = waiting-Shrinks xs ys s in
      let t' : (y.node.id == id) ≡ true = rw p t in
      let u : is_waiting x ≡ true = ground arith in
      let u' : is_waiting y ≡ false = ground arith in
      rw (u, waiting) (rw (u', waiting) (ground arith))
  | inr t ↦
      let t' : (y.node.id == id) ≡ false = rw p t in
      let rest =
        waiting_drops xs ys id a b s (rw (t, find_node) at f) (rw (t', find_node) at g) w v in
      elim (Bool-cases (is_waiting y)) [
        | inl z ↦ let u = q z in rw (z, waiting) (rw (u, waiting) (ground arith))
        | inr z ↦ elim (Bool-cases (is_waiting x)) [
          | inl u ↦ rw (z, waiting) (rw (u, waiting) (ground arith))
          | inr u ↦ rw (z, waiting) (rw (u, waiting) (ground arith))
        ]
      ]
]
