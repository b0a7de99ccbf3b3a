-- ===== src/Batch/Collects.antt =====
-- What the operations leave at a place does not depend on their order.
use octofs.Prelude.{
  ◌≡◌, refl, ap, ◌∙◌, Bool, false, ◌||◌, ◌⊎◌, inl, inr, List, [], ◌∷◌, ◌++◌, arith, Bool-cases, All,
  filter,
}
use octofs.Prelude.Pairs.{Pairwise}
use octofs.Prelude.Sort.{insert_sorted, sort_by, All-sort_by}
use octofs.Editable.{EditableLine}
use octofs.Batch.{BatchOperation}
use octofs.Batch.Simultaneous.{collect, any}

-- At most one of the two leaves anything.
abbrev pub Alone : (BatchOperation → List EditableLine) → BatchOperation → BatchOperation → Type 0
Alone f a b = (f a ≡ []) ⊎ (f b ≡ [])

module _ (f : BatchOperation → List EditableLine) where
  pub collect-filter :
      (p : BatchOperation → Bool) (ops : List BatchOperation)
      → ((op : BatchOperation) → p op ≡ false → f op ≡ [])
      → collect f (filter p ops) ≡ collect f ops
  unfolding collect filter
  collect-filter p [] h = refl
  collect-filter p (op ∷ ops) h = elim (Bool-cases (p op)) [
    | inl e ↦ rw e (ap (f op ++◌) (collect-filter p ops h))
    | inr e ↦ rw e (rw (h op e) (collect-filter p ops h))
  ]

  swap-Alone :
      (a b : BatchOperation) (r : List EditableLine)
      → Alone f a b
      → f b ++ (f a ++ r) ≡ f a ++ (f b ++ r)
  swap-Alone a b r (inl e) = rw e refl
  swap-Alone a b r (inr e) = rw e refl

  module _ (le : BatchOperation → BatchOperation → Bool) where
    collect-insert_sorted :
        (op : BatchOperation) (ops : List BatchOperation)
        → All (Alone f op) ops
        → collect f (insert_sorted le op ops) ≡ f op ++ collect f ops
    unfolding collect insert_sorted
    collect-insert_sorted op [] h = refl
    collect-insert_sorted op (o ∷ ops) h = elim (Bool-cases (le op o)) [
      | inl e ↦ rw e refl
      | inr e ↦
          rw e
            (ap (f o ++◌) (collect-insert_sorted op ops h.1) ∙ swap-Alone op o (collect f ops) h.0)
    ]

    pub collect-sort_by :
        (ops : List BatchOperation)
        → Pairwise (Alone f) ops
        → collect f (sort_by le ops) ≡ collect f ops
    unfolding collect sort_by
    collect-sort_by [] h = refl
    collect-sort_by (op ∷ ops) h =
        collect-insert_sorted op (sort_by le ops) (All-sort_by le (Alone f op) ops h.0)
        ∙ ap (f op ++◌) (collect-sort_by ops h.1)

module _ (p : BatchOperation → Bool) where
  pub any-filter :
      (q : BatchOperation → Bool) (ops : List BatchOperation)
      → ((op : BatchOperation) → q op ≡ false → p op ≡ false)
      → any p (filter q ops) ≡ any p ops
  unfolding any filter
  any-filter q [] h = refl
  any-filter q (op ∷ ops) h = elim (Bool-cases (q op)) [
    | inl e ↦ rw e (ap (p op ||◌) (any-filter q ops h))
    | inr e ↦ rw e (rw (h op e) (any-filter q ops h))
  ]

  module _ (le : BatchOperation → BatchOperation → Bool) where
    any-insert_sorted :
        (op : BatchOperation) (ops : List BatchOperation)
        → any p (insert_sorted le op ops) ≡ (p op || any p ops)
    unfolding any insert_sorted
    any-insert_sorted op [] = refl
    any-insert_sorted op (o ∷ ops) = ground (arith, any-insert_sorted op ops)

    pub any-sort_by : (ops : List BatchOperation) → any p (sort_by le ops) ≡ any p ops
    unfolding any sort_by
    any-sort_by [] = refl
    any-sort_by (op ∷ ops) = any-insert_sorted op (sort_by le ops) ∙ ap (p op ||◌) (any-sort_by ops)
