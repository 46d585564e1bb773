-- ===== src/Policy/Approvals/Events.antt =====
-- How each kind of event changes the rows.
use mathlib.Core.List.{Memᴰ}
use mathlib.Core.List.Memᴰ
use shiroe.Prelude.{
  String, none, List, [], ◌∷◌, ◌≡◌, refl, ◌⊎◌, inl, inr, ⊎_elim, ◌==◌, string_eq, Bool-cases, arith,
}
use shiroe.Policy.Approvals.{
  approved, ApprovalRequest, ApprovalEvent, requested, decided, staled, insert_or_replace,
  update_where, apply_approval,
}

mem-insert_or_replace :
    (rows : List ApprovalRequest) (r row : ApprovalRequest)
    → Memᴰ row (insert_or_replace rows r)
    → Memᴰ row rows
      ⊎ (row ≡ record r { decided_at = none; decided_by = none; decision_reason = none })
unfolding insert_or_replace
mem-insert_or_replace [] r row m = ⊎_elim inr (λ n. absurd (Memᴰ.not-nil n)) (Memᴰ.cases_cons m)
mem-insert_or_replace (first ∷ rows) r row m = elim (Bool-cases (first.id == r.id)) [
  | inl t ↦
      ⊎_elim (λ k. inl (Memᴰ.tail k)) inr
        (mem-insert_or_replace rows r row (rw (t, insert_or_replace) at m))
  | inr t ↦
      ⊎_elim (λ p. inl (Memᴰ.head p))
        (λ n. ⊎_elim (λ k. inl (Memᴰ.tail k)) inr (mem-insert_or_replace rows r row n))
        (Memᴰ.cases_cons (rw (t, insert_or_replace) at m))
]

-- A row after an update is a row before it, or the change of one that has the id.
mem-update_where :
    (id : String) (change : ApprovalRequest → ApprovalRequest) (rows : List ApprovalRequest)
    (row : ApprovalRequest)
    → Memᴰ row (update_where id change rows)
    → Memᴰ row rows ⊎ ((old : ApprovalRequest) × (old.id ≡ id) × (row ≡ change old))
unfolding update_where
mem-update_where id change [] row m = absurd (Memᴰ.not-nil m)
mem-update_where id change (first ∷ rows) row m = elim (Bool-cases (first.id == id)) [
  | inl t ↦
      ⊎_elim (λ p. inr (first, (string_eq.test_iff first.id id).0 t, p))
        (λ n. ⊎_elim (λ k. inl (Memᴰ.tail k)) inr (mem-update_where id change rows row n))
        (Memᴰ.cases_cons (rw (t, update_where) at m))
  | inr t ↦
      ⊎_elim (λ p. inl (Memᴰ.head p))
        (λ n. ⊎_elim (λ k. inl (Memᴰ.tail k)) inr (mem-update_where id change rows row n))
        (Memᴰ.cases_cons (rw (t, update_where) at m))
]

-- A row is approved only where it was before, where it came in so, or by a decision on its id.
pub mem-apply_approval :
    (event : ApprovalEvent) (rows : List ApprovalRequest) (row : ApprovalRequest)
    → Memᴰ row (apply_approval event rows)
    → row.status ≡ approved
    → Memᴰ row rows
      ⊎ (((r : ApprovalRequest) × (event ≡ requested r) × (r.status ≡ approved))
          ⊎ ((actor reason decided_at : String) × (event
                ≡ decided row.id approved actor reason decided_at)))
unfolding apply_approval
mem-apply_approval (requested r) rows row m h =
    ⊎_elim inl (λ p. inr (inl (r, refl, ground arith))) (mem-insert_or_replace rows r row m)
mem-apply_approval (decided id decision actor reason at) rows row m h =
    ⊎_elim inl (λ (old, i, p). inr (inr (actor, reason, at, ground arith)))
      (mem-update_where id _ rows row m)
mem-apply_approval (staled id) rows row m h =
    ⊎_elim inl (λ (old, i, p). ground arith) (mem-update_where id _ rows row m)
