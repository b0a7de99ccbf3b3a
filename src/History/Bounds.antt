-- ===== src/History/Bounds.antt =====
-- The eviction keeps the store within its budget, and an undo keeps the account.
use octofs.Prelude.{
  ℕ, ◌≤◌, ◌≡◌, refl, ap, ◌∙◌, true, ◌⊎◌, inl, inr, none, some, List, [], ◌∷◌, ◌++◌, arith, ltb,
  Bool-cases, Option-cases, length, length-append,
}
use octofs.Text.{Bytes, bytes_eq}
use octofs.Text.Equality.{eq_of_bytes_eq, bytes_eq_refl}
use octofs.Maps.{
  Map, lookup, lookup-insert, lookup-remove, Unique, Unique-insert, Unique-remove, total,
  total-insert, total-remove, AllValues, AllValues-insert, AllValues-remove, AllValues-lookup,
  lookup_hit, lookup_miss,
}
use octofs.History.{
  pop_history, Snapshot, HistoryStore, Holdings, evict, history_of, push, pop_last, pop,
}
use octofs.History.Budget.{
  sizes-append, sizes, count, kept, IsHistory, IsConsistent, push-IsConsistent, lookup-same,
}

-- The snapshots held over all files.
abbrev pub snapshots : Map (List Snapshot) → ℕ
snapshots files = total length files

none_kept :
    (files : Map (List Snapshot))
    → AllValues IsHistory files
    → ((k : Bytes) → kept k files ≤ 0)
    → snapshots files ≤ 0
none_kept [] a h = unfold total in omega arith
none_kept ((j, hist) ∷ m) a h = absurd (
    omega (
      arith,
      a.0.0,
      h j,
      ap (λ o. length (history_of o)) (lookup_hit j j hist m (bytes_eq_refl j)),
    ))

-- A key that one entry of the map has is no key of the rest.
kept-rest :
    (j k : Bytes) (hist : List Snapshot) (m : Map (List Snapshot))
    → lookup j m ≡ none
    → (kept k m ≤ kept k ((j, hist) ∷ m)) × (bytes_eq j k ≡ true → kept k m ≡ 0)
kept-rest j k hist m u = elim (Bool-cases (bytes_eq j k)) [
  | inl e ↦ (
    zero-le-of (lookup-same j k m e ∙ u),
    λ _. ap (λ o. length (history_of o)) (lookup-same j k m e ∙ u),
  )
  | inr e ↦ (omega (arith, ap (λ o. length (history_of o)) (lookup_miss k j hist m e)), λ h. cc)
]
  where
    zero-le-of : lookup k m ≡ none → kept k m ≤ kept k ((j, hist) ∷ m)
    zero-le-of e = omega (arith, ap (λ o. length (history_of o)) e)

one_kept :
    (key : Bytes) (files : Map (List Snapshot))
    → Unique files
    → AllValues IsHistory files
    → ((k : Bytes) → kept k files ≤ count k (key ∷ []))
    → snapshots files ≤ 1
one_kept key [] u a h = unfold total in omega arith
one_kept key ((j, hist) ∷ m) u a h =
    unfold total in omega (arith, one_hist, none_kept m a.1 none_left)
  where
    len_is : kept j ((j, hist) ∷ m) ≡ length hist
    len_is = ap (λ o. length (history_of o)) (lookup_hit j j hist m (bytes_eq_refl j))

    one_hist : length hist ≤ 1
    one_hist = ground (arith, h j, len_is)

    named : bytes_eq key j ≡ true
    named = ground (arith, h j, len_is, a.0.0)

    none_left : (k : Bytes) → kept k m ≤ 0
    none_left k =
        ground (
          arith,
          h k,
          kept-rest j k hist m u.0,
          ap (λ x. bytes_eq x k) (eq_of_bytes_eq key j named),
        )

evict-bound :
    (cap : ℕ) (order : List Bytes) (h : Holdings)
    → ((evict cap order h).total_bytes ≤ cap) ⊎ (length (evict cap order h).order ≤ 1)
unfolding evict
evict-bound cap [] h = inr (omega arith)
evict-bound cap (k ∷ []) h = inr (omega arith)
evict-bound cap (k ∷ j ∷ order) h = elim (Bool-cases (ltb cap h.total_bytes)) [
  | inl e ↦ rw e (evict-bound cap (j ∷ order) _)
  | inr e ↦ rw e (inl (ground arith))
]

few_kept :
    (s : HistoryStore) (order : List Bytes)
    → s.order ≡ order
    → length order ≤ 1
    → IsConsistent s
    → snapshots s.files ≤ 1
few_kept s [] e le c =
    omega (arith, none_kept s.files c.histories (λ k. omega (arith, c.recorded k, ap (count k) e)))
few_kept s (key ∷ []) e le c =
    one_kept key s.files c.unique c.histories (λ k. omega (arith, c.recorded k, ap (count k) e))
few_kept s (k ∷ j ∷ order) e le c = absurd (omega arith)

pushed_cases :
    (s : HistoryStore) (key : Bytes) (content : Snapshot) (cap : ℕ)
    → ((push s key content cap).total_bytes ≤ cap) ⊎ (length (push s key content cap).order ≤ 1)
unfolding push
pushed_cases s key content cap = evict-bound cap _ _

-- After a snapshot is saved the store is within the budget, or all that it holds is one snapshot.
pub push_bound :
    (s : HistoryStore) (key : Bytes) (content : Snapshot) (cap : ℕ)
    → IsConsistent s
    → ((push s key content cap).total_bytes ≤ cap) ⊎ (snapshots (push s key content cap).files ≤ 1)
push_bound s key content cap c = elim (pushed_cases s key content cap) [
  | inl le ↦ inl le
  | inr le ↦
      inr (few_kept (push s key content cap) _ refl le (push-IsConsistent s c key content cap))
]

pop_last-none : (h : List Snapshot) → pop_last h ≡ none → h ≡ []
pop_last-none [] e = refl
pop_last-none (x ∷ h) e = elim (Option-cases (pop_last h)) [
  | inl p ↦ ground arith
  | inr ((r, z), p) ↦ ground arith
]

pop_last-splits :
    (h rest : List Snapshot) (x : Snapshot) → pop_last h ≡ some (rest, x) → h ≡ rest ++ x ∷ []
pop_last-splits [] rest x e = cc
pop_last-splits (y ∷ h) rest x e = elim (Option-cases (pop_last h)) [
  | inl p ↦ ground (arith, pop_last-none h)
  | inr ((r, z), p) ↦ ground (arith, pop_last-splits h r z p)
]

module _ (s : HistoryStore) (key : Bytes) (c : IsConsistent s) where
  popped-Consistent :
      (rest : List Snapshot) (x : Snapshot)
      → lookup key s.files ≡ some (rest ++ x ∷ [])
      → IsConsistent (pop_history s key (some (rest, x))).0
  popped-Consistent [] x e = record {
    unique = Unique-remove key s.files c.unique;
    counted = omega (arith, c.counted, rw e at (total-remove sizes key s.files c.unique));
    histories = AllValues-remove IsHistory key s.files c.histories;
    recorded = λ j. rw (lookup-remove key j s.files) (ground (arith, c.recorded j));
  }
  popped-Consistent (y ∷ r) x e =
      let is = AllValues-lookup IsHistory key s.files c.histories e in
      let len = length-append r (x ∷ []) in
      record {
        unique = Unique-insert key (y ∷ r) s.files c.unique;
        counted =
            omega (
              arith,
              c.counted,
              sizes-append r x,
              rw e at (total-insert sizes key (y ∷ r) s.files),
            );
        histories = AllValues-insert IsHistory key (y ∷ r) s.files (omega arith) c.histories;
        recorded = λ j.
            rw (lookup-insert key j (y ∷ r) s.files)
              (ground (arith, c.recorded j, lookup-same key j s.files));
      }

  -- An undo keeps the account.
  pub pop-IsConsistent : IsConsistent (pop s key).0
  unfolding pop
  pop-IsConsistent = elim (Option-cases (lookup key s.files)) [
    | inl e ↦ rw (e, pop) c
    | inr (h, e) ↦ elim (Option-cases (pop_last h)) [
      | inl p ↦ rw (e, pop) (rw (p, pop_history) c)
      | inr ((rest, x), p) ↦
          rw (e, pop)
            (rw (p, pop_history)
              (popped-Consistent rest x (e ∙ ap some (pop_last-splits h rest x p))))
    ]
  ]
