-- ===== src/Batch/Inserts.antt =====
-- The second phase of `apply_batch_operations`: insertions from the highest gap down.
use octofs.Prelude.{
  ℕ, suc, ◌+◌, ◌-◌, min, ◌≤◌, ◌<◌, ◌≡◌, refl, sym, ap, ap₂, ◌∙◌, subst, true, false, List, [], ◌∷◌,
  ◌++◌, append_assoc, append-nil, arith, ◌==◌, ltb, length, length-append, take, drop, All, All-imp,
  map, ok, err, take-length-append, take-append-drop, length-take, drop-length-append,
}
use octofs.Editable.{Ending, EditableLine}
use octofs.Batch.{
  BatchOperation, is_insert, anchor_of, content_lines_of, insert_one, apply_inserts, insert_at,
  single, gained, lost,
}
use octofs.Batch.Flow.{flow, flow-append, flow-same}
use octofs.Batch.Simultaneous.{collect, body_of, gap_of}
use octofs.Batch.Replaces.{Ready, delta_of}
use octofs.Batch.Positions.{Outside, length-flow}

-- Insertions from the highest gap down.
abbrev pub ReadyInserts : List BatchOperation → Type 0
ReadyInserts [] = Unit
ReadyInserts (op ∷ ops) =
    (is_insert op ≡ true)
    × (op.line_range ≡ single (anchor_of op))
    × All (λ i. anchor_of i < anchor_of op) ops
    × ReadyInserts ops

insert_at_lem :
    (xs new ys : List EditableLine) → insert_at (length xs) new (xs ++ ys) ≡ xs ++ (new ++ ys)
insert_at_lem [] new ys = refl
insert_at_lem (x ∷ xs) new ys =
    rw (nonzero, within)
      (ap₂ (λ p q. p ++ (new ++ q)) (take-length-append (x ∷ xs) ys)
        (drop-length-append (x ∷ xs) ys))
  where
    nonzero : (suc (length xs) == 0) ≡ false
    nonzero = ground arith

    within : min (suc (length xs)) (suc (length (xs ++ ys))) ≡ suc (length xs)
    within = omega (arith, length-append xs ys)

module _ (e : Ending) where
  gap_empty :
      (j : ℕ) (ops : List BatchOperation) → All (λ i. anchor_of i < j) ops → gap_of e ops j ≡ []
  unfolding collect
  gap_empty j [] a = refl
  gap_empty j (op ∷ ops) (x, a) = ground (arith, gap_empty j ops a)

  module _ (op : BatchOperation) (ops : List BatchOperation) (ready : ReadyInserts (op ∷ ops)) where
    gap_at : gap_of e (op ∷ ops) (anchor_of op) ≡ content_lines_of e op
    unfolding collect
    gap_at =
        let (k, s, b, r) = ready in
        ground (arith, gap_empty (anchor_of op) ops b, append-nil (content_lines_of e op))

    gap_above : (j : ℕ) → anchor_of op < j → gap_of e (op ∷ ops) j ≡ []
    gap_above j h =
        let (k, s, b, r) = ready in gap_empty j (op ∷ ops) (h, All-imp ops (λ i g. omega arith) b)

    gap_below : (j : ℕ) → j < anchor_of op → gap_of e (op ∷ ops) j ≡ gap_of e ops j
    unfolding collect
    gap_below j h = ground arith

    -- The lines behind the highest gap, with it.
    flow_behind :
        (body : ℕ → EditableLine → List EditableLine) (q : List EditableLine)
        → flow (gap_of e (op ∷ ops)) body (anchor_of op) q
            ++ gap_of e (op ∷ ops) (anchor_of op + length q)
          ≡ content_lines_of e op ++ flow (λ _. []) body (anchor_of op) q
    unfolding flow
    flow_behind body [] =
        let n : anchor_of op + 0 ≡ anchor_of op = omega arith in
        ap (gap_of e (op ∷ ops)) n ∙ gap_at ∙ sym (append-nil (content_lines_of e op))
    flow_behind body (x ∷ q) =
        rw (gap_at, gap_above (anchor_of op + suc (length q)) (omega arith), quiet_behind)
          (append-nil _)
      where
        quiet_behind :
            flow (gap_of e (op ∷ ops)) body (anchor_of op + 1) q
            ≡ flow (λ _. []) body (anchor_of op + 1) q
        quiet_behind =
            flow-same (gap_of e (op ∷ ops)) (λ _. []) body body (anchor_of op + 1) q
              (λ j p r. gap_above j (omega arith)) (λ j l p r. refl)

    flow_before :
        (body : ℕ → EditableLine → List EditableLine) (p : List EditableLine)
        → length p ≡ anchor_of op
        → flow (gap_of e (op ∷ ops)) body 0 p
          ≡ flow (gap_of e ops) body 0 p ++ gap_of e ops (length p)
    flow_before body p h =
        let (k, s, b, r) = ready in
        flow-same (gap_of e (op ∷ ops)) (gap_of e ops) body body 0 p
          (λ j u v. gap_below j (omega arith)) (λ j l u v. refl)
        ∙ sym (append-nil (flow (gap_of e ops) body 0 p))
        ∙ ap (flow (gap_of e ops) body 0 p ++◌)
            (sym (gap_empty (length p) ops (All-imp ops (λ i g. omega arith) b)))

module _ (e : Ending) (n : ℕ) (reps : List BatchOperation) (ready_reps : Ready reps) where
  abbrev pub walk : List BatchOperation → List EditableLine → List EditableLine
  walk ops pre = flow (gap_of e ops) (body_of e reps) 0 pre ++ gap_of e ops (length pre)

  abbrev pub replaced : ℕ → List EditableLine → List EditableLine
  replaced i pre = flow (λ _. []) (body_of e reps) i pre

  insert_one_lem :
      (op : BatchOperation) (p rest : List EditableLine)
      → op.line_range ≡ single (anchor_of op)
      → length p ≡ anchor_of op
      → anchor_of op ≤ n
      → All (Outside (anchor_of op)) reps
      → insert_one n e (map (delta_of e) reps) op (replaced 0 p ++ rest)
        ≡ ok (replaced 0 p ++ (content_lines_of e op ++ rest))
  unfolding insert_one
  insert_one_lem op p rest s h le o =
      rw (s, insert_one)
        (rw (within, insert_one)
          (rw place (ap ok (insert_at_lem (replaced 0 p) (content_lines_of e op) rest))))
    where
      within : ltb n (anchor_of op) ≡ false
      within = ground arith

      place :
          anchor_of op
            + gained (anchor_of op) (map (delta_of e) reps)
            - lost (anchor_of op) (map (delta_of e) reps)
          ≡ length (replaced 0 p)
      place =
          subst
            (λ a.
              (All (Outside a) reps)
              → a + gained a (map (delta_of e) reps) - lost a (map (delta_of e) reps)
                ≡ length (replaced 0 p))
            h (λ u. omega (arith, length-flow e reps p ready_reps u)) o

  apply_inserts-ok :
      (op : BatchOperation) (ops : List BatchOperation) (ls ls' : List EditableLine)
      → insert_one n e (map (delta_of e) reps) op ls ≡ ok ls'
      → apply_inserts n e (map (delta_of e) reps) (op ∷ ops) ls
        ≡ apply_inserts n e (map (delta_of e) reps) ops ls'
  unfolding apply_inserts
  apply_inserts-ok op ops ls ls' h =
      ap (λ t. elim t [ ok l ↦ apply_inserts n e (map (delta_of e) reps) ops l | err x ↦ err x ]) h

  walk_nil : (pre : List EditableLine) → replaced 0 pre ≡ walk [] pre
  walk_nil pre =
      sym (append-nil (replaced 0 pre)) ∙ ap₂ ◌++◌ same (sym (gap_empty e (length pre) [] tt))
    where
      same : replaced 0 pre ≡ flow (gap_of e []) (body_of e reps) 0 pre
      same =
          flow-same (λ _. []) (gap_of e []) (body_of e reps) (body_of e reps) 0 pre
            (λ j u v. sym (gap_empty e j [] tt)) (λ j l u v. refl)

  module _ (op : BatchOperation) (ops : List BatchOperation) (r : ReadyInserts (op ∷ ops))
      (p q : List EditableLine) (h : length p ≡ anchor_of op) where
    flow_split :
        flow (gap_of e (op ∷ ops)) (body_of e reps) 0 (p ++ q)
        ≡ flow (gap_of e (op ∷ ops)) (body_of e reps) 0 p
          ++ flow (gap_of e (op ∷ ops)) (body_of e reps) (length p) q
    flow_split =
        let z : 0 + length p ≡ length p = omega arith in
        flow-append (gap_of e (op ∷ ops)) (body_of e reps) 0 p q
        ∙ ap
            (λ i.
              flow (gap_of e (op ∷ ops)) (body_of e reps) 0 p
              ++ flow (gap_of e (op ∷ ops)) (body_of e reps) i q)
            z

    behind :
        flow (gap_of e (op ∷ ops)) (body_of e reps) (length p) q
          ++ gap_of e (op ∷ ops) (length p + length q)
        ≡ content_lines_of e op ++ replaced (length p) q
    behind =
        subst
          (λ i.
            flow (gap_of e (op ∷ ops)) (body_of e reps) i q ++ gap_of e (op ∷ ops) (i + length q)
            ≡ content_lines_of e op ++ replaced i q)
          (sym h) (flow_behind e op ops r (body_of e reps) q)

    walk_parts :
        walk (op ∷ ops) (p ++ q) ≡ walk ops p ++ (content_lines_of e op ++ replaced (length p) q)
    walk_parts =
        ap₂ ◌++◌ flow_split (ap (gap_of e (op ∷ ops)) (length-append p q))
        ∙ append_assoc (flow (gap_of e (op ∷ ops)) (body_of e reps) 0 p) _ _
        ∙ ap₂ ◌++◌ (flow_before e op ops r (body_of e reps) p h) behind

    walk-append :
        (tail : List EditableLine)
        → walk ops p ++ (content_lines_of e op ++ (replaced (length p) q ++ tail))
          ≡ walk (op ∷ ops) (p ++ q) ++ tail
    walk-append tail =
        ap (walk ops p ++◌)
          (sym (append_assoc (content_lines_of e op) (replaced (length p) q) tail))
        ∙ sym (append_assoc (walk ops p) (content_lines_of e op ++ replaced (length p) q) tail)
        ∙ ap (◌++ tail) (sym walk_parts)

  replaced-append :
      (p q tail : List EditableLine)
      → replaced 0 (p ++ q) ++ tail ≡ replaced 0 p ++ (replaced (length p) q ++ tail)
  replaced-append p q tail =
      let z : 0 + length p ≡ length p = omega arith in
      ap (◌++ tail)
        (flow-append (λ _. []) (body_of e reps) 0 p q ∙ ap (λ i. replaced 0 p ++ replaced i q) z)
      ∙ append_assoc (replaced 0 p) (replaced (length p) q) tail

  stepped :
      (op : BatchOperation) (ops : List BatchOperation) (p q tail : List EditableLine)
      → ReadyInserts (op ∷ ops)
      → length p ≡ anchor_of op
      → anchor_of op ≤ n
      → All (Outside (anchor_of op)) reps
      → apply_inserts n e
          (map (delta_of e) reps)
          ops
          (replaced 0 p ++ (content_lines_of e op ++ (replaced (length p) q ++ tail)))
        ≡ ok (walk ops p ++ (content_lines_of e op ++ (replaced (length p) q ++ tail)))
      → apply_inserts n e (map (delta_of e) reps) (op ∷ ops) (replaced 0 (p ++ q) ++ tail)
        ≡ ok (walk (op ∷ ops) (p ++ q) ++ tail)
  stepped op ops p q tail (k, s, b, r) h le y ih =
      ap (apply_inserts n e (map (delta_of e) reps) (op ∷ ops)) (replaced-append p q tail)
      ∙ apply_inserts-ok op ops _ _ (insert_one_lem op p (replaced (length p) q ++ tail) s h le y)
      ∙ ih
      ∙ ap ok (walk-append op ops (k, s, b, r) p q h tail)

  pub apply_inserts_lem :
      (ops : List BatchOperation) (pre tail : List EditableLine)
      → ReadyInserts ops
      → All (λ i. anchor_of i ≤ length pre) ops
      → All (λ i. All (Outside (anchor_of i)) reps) ops
      → length pre ≤ n
      → apply_inserts n e (map (delta_of e) reps) ops (replaced 0 pre ++ tail)
        ≡ ok (walk ops pre ++ tail)
  apply_inserts_lem [] pre tail r a o le =
      unfold apply_inserts in ap (λ x. ok (x ++ tail)) (walk_nil pre)
  apply_inserts_lem (op ∷ ops) pre tail (k, s, b, r) (x, a) (y, o) le =
      subst
        (λ z.
          apply_inserts n e (map (delta_of e) reps) (op ∷ ops) (replaced 0 z ++ tail)
          ≡ ok (walk (op ∷ ops) z ++ tail))
        (take-append-drop (anchor_of op) pre)
        (stepped op ops (take (anchor_of op) pre) (drop (anchor_of op) pre) tail (k, s, b, r)
          (omega (arith, length-take (anchor_of op) pre)) (omega arith) y
          (apply_inserts_lem ops (take (anchor_of op) pre) _ r
            (All-imp ops (λ i g. omega (arith, length-take (anchor_of op) pre)) b) o
            (omega (arith, length-take (anchor_of op) pre))))
