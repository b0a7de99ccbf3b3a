-- ===== src/Batch/Applies.antt =====
-- `apply_batch_operations` does what the operations mean together.
use octofs.Prelude.{
  ℕ, ◌≤◌, ◌≡◌, refl, sym, ap, ap₂, ◌∙◌, true, List, [], ◌∷◌, ◌++◌, append-nil, arith, if◌then◌else◌,
  length, All, All-imp, map, ok, filter,
}
use octofs.Prelude.Pairs.{
  Pairwise, All-zip, Pairwise-All, All-filter, Pairwise-filter, Pairwise-Cross, Pairwise-sort_by,
  sort_by-Pairwise,
}
use octofs.Prelude.Sort.{sort_by, All-sort_by}
use octofs.Editable.{EditableContent, EditableLine, Ending, preserve_trailing_newline}
use octofs.Batch.{
  BatchOperation, is_replace, is_insert, end_of, anchor_of, by_start, by_anchor,
  apply_batch_operations, detect_conflicts, apply_replaces, apply_inserts,
}
use octofs.Batch.Flow.{flow, flow-same}
use octofs.Batch.Simultaneous.{starting, touches, anchored, gap_of, body_of, simultaneous}
use octofs.Batch.Replaces.{Ready, delta_of, apply_replaces_lem}
use octofs.Batch.Positions.{Outside}
use octofs.Batch.Inserts.{ReadyInserts, apply_inserts_lem, walk}
use octofs.Batch.Conflicts.{Apart, Apart-flip, detect_conflicts_iff}
use octofs.Batch.Collects.{Alone, collect-filter, collect-sort_by, any-filter, any-sort_by}
use octofs.Prelude.Pairs.{Pairwise-imp}
use octofs.Batch.Placed.{
  Alone-anchored, Alone-starting, Outside-Apart, Pair-flip, ReadyInserts-of, Ready-of,
  by_anchor_total, by_anchor_trans, by_start_total, by_start_trans, placed_insert, placed_replace,
  IsPlaced, Pair,
}

module _ (e : Ending) (n : ℕ) (ops : List BatchOperation) (placed : All (IsPlaced n) ops)
    (apart : Pairwise Apart ops) where
  abbrev replaces : List BatchOperation
  replaces = sort_by by_start (filter is_replace ops)

  abbrev inserts : List BatchOperation
  inserts = sort_by by_anchor (filter is_insert ops)

  pairs : Pairwise (Pair n) ops
  pairs = Pairwise-All (IsPlaced n) Apart ops placed apart

  replaces-IsPlaced : All (λ op. IsPlaced n op × (is_replace op ≡ true)) replaces
  replaces-IsPlaced =
      All-sort_by by_start _ (filter is_replace ops) (All-filter is_replace (IsPlaced n) ops placed)

  inserts-IsPlaced : All (λ op. IsPlaced n op × (is_insert op ≡ true)) inserts
  inserts-IsPlaced =
      All-sort_by by_anchor _ (filter is_insert ops) (All-filter is_insert (IsPlaced n) ops placed)

  replaces-Ready : Ready replaces
  replaces-Ready =
      Ready-of n replaces replaces-IsPlaced
        (Pairwise-sort_by (Pair n) (Pair-flip n) by_start (filter is_replace ops)
          (Pairwise-filter is_replace (Pair n) ops pairs))
        (sort_by-Pairwise by_start by_start_total by_start_trans (filter is_replace ops))

  inserts-ReadyInserts : ReadyInserts inserts
  inserts-ReadyInserts =
      ReadyInserts-of n inserts inserts-IsPlaced
        (Pairwise-sort_by (Pair n) (Pair-flip n) by_anchor (filter is_insert ops)
          (Pairwise-filter is_insert (Pair n) ops pairs))
        (sort_by-Pairwise by_anchor by_anchor_total by_anchor_trans (filter is_insert ops))

  inserts-Outside : All (λ i. All (Outside (anchor_of i)) replaces) inserts
  inserts-Outside =
      All-sort_by by_anchor (λ i. All (Outside (anchor_of i)) replaces) (filter is_insert ops)
        (All-imp (filter is_insert ops) (λ i h. outside i h.1.1 h.0)
          (All-zip _ _ (filter is_insert ops)
            (Pairwise-Cross Apart Apart-flip is_insert is_replace ops (λ op h. ground arith) apart)
            (All-filter is_insert (IsPlaced n) ops placed)))
    where
      outside :
          (i : BatchOperation)
          → is_insert i ≡ true
          → All (Apart i) (filter is_replace ops)
          → All (Outside (anchor_of i)) replaces
      outside i h a = All-sort_by by_start (Outside (anchor_of i)) (filter is_replace ops) (
          All-imp (filter is_replace ops) (λ r g. Outside-Apart i r g.0 h g.1.1)
            (All-zip _ _ (filter is_replace ops) a (All-filter is_replace (IsPlaced n) ops placed)))

  gap_of-inserts : (j : ℕ) → gap_of e inserts j ≡ gap_of e ops j
  gap_of-inserts j =
      collect-sort_by (anchored e j) by_anchor (filter is_insert ops) (
        Pairwise-imp (Pair n) (Alone (anchored e j)) (filter is_insert ops) (Alone-anchored e n j)
          (Pairwise-filter is_insert (Pair n) ops pairs))
      ∙ collect-filter (anchored e j) is_insert ops (λ op h. ground arith)

  body_of-replaces : (j : ℕ) (l : EditableLine) → body_of e replaces j l ≡ body_of e ops j l
  body_of-replaces j l =
      ap₂ (λ t b. t ++ (if b then [] else l ∷ []))
        (collect-sort_by (starting e j) by_start (filter is_replace ops) (
            Pairwise-imp (Pair n) (Alone (starting e j)) (filter is_replace ops)
              (Alone-starting e n j) (Pairwise-filter is_replace (Pair n) ops pairs))
          ∙ collect-filter (starting e j) is_replace ops (λ op h. ground arith))
        (any-sort_by (touches j) by_start (filter is_replace ops)
          ∙ any-filter (touches j) is_replace ops (λ op h. ground arith))

  walk-simultaneous :
      (lines : List EditableLine)
      → walk e n replaces replaces-Ready inserts lines ≡ simultaneous e ops lines
  walk-simultaneous lines =
      ap₂ ◌++◌
        (flow-same (gap_of e inserts) (gap_of e ops) (body_of e replaces) (body_of e ops) 0 lines
          (λ j p q. gap_of-inserts j) (λ j l p q. body_of-replaces j l))
        (gap_of-inserts (length lines))

  replaced_all :
      (lines : List EditableLine)
      → length lines ≡ n
      → apply_replaces n e replaces (lines, [])
        ≡ ok (flow (λ _. []) (body_of e replaces) 0 lines ++ [], map (delta_of e) replaces)
  replaced_all lines h =
      ap (λ x. apply_replaces n e replaces (x, [])) (sym (append-nil lines))
      ∙ apply_replaces_lem e n replaces lines [] [] replaces-Ready
          (All-imp replaces (λ r g. ends r g.0 g.1) replaces-IsPlaced) (omega arith)
    where
      ends : (r : BatchOperation) → IsPlaced n r → is_replace r ≡ true → end_of r ≤ length lines
      ends r p k = let (x, y, z) = placed_replace n r p k in omega arith

  inserted_all :
      (lines : List EditableLine)
      → length lines ≡ n
      → apply_inserts n e
          (map (delta_of e) replaces)
          inserts
          (flow (λ _. []) (body_of e replaces) 0 lines ++ [])
        ≡ ok (simultaneous e ops lines)
  inserted_all lines h =
      apply_inserts_lem e n replaces replaces-Ready inserts lines [] inserts-ReadyInserts
        (All-imp inserts (λ r g. anchors r g.0 g.1) inserts-IsPlaced) inserts-Outside (omega arith)
      ∙ ap ok (append-nil _ ∙ walk-simultaneous lines)
    where
      anchors :
          (r : BatchOperation) → IsPlaced n r → is_insert r ≡ true → anchor_of r ≤ length lines
      anchors r p k = let (x, y) = placed_insert n r p k in omega arith

-- Operations that stand in the file and that `detect_conflicts` accepts are applied, without an
-- error, as they all mean on the lines of the original, whatever their order: each line that no
-- replaced range covers is kept in its place, the content of a replacement stands where its range
-- began, and that of an insertion in the gap behind its anchor.
pub apply_batch_operations-simultaneous :
    (c : EditableContent) (ops : List BatchOperation)
    → All (IsPlaced (length c.lines)) ops
    → detect_conflicts ops ≡ ok tt
    → apply_batch_operations c ops
      ≡ ok (
          preserve_trailing_newline
            (record c { lines = simultaneous c.dominant_ending ops c.lines }))
unfolding apply_batch_operations
apply_batch_operations-simultaneous c ops placed h =
    let apart = (detect_conflicts_iff ops).0 h in
    rw (replaced_all c.dominant_ending (length c.lines) ops placed apart c.lines refl)
      (rw (inserted_all c.dominant_ending (length c.lines) ops placed apart c.lines refl) refl)
