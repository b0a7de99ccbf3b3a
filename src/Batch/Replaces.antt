-- ===== src/Batch/Replaces.antt =====
-- The first phase of `apply_batch_operations`: replacements from the highest line down.
use octofs.Prelude.{
  All-imp, ℕ, ◌+◌, ◌-◌, ◌≤◌, ◌<◌, ◌≡◌, refl, sym, ap, ap₂, ◌∙◌, subst, true, false, List, [], ◌∷◌,
  ◌++◌, append_assoc, append-nil, arith, ltb, length, length-append, take, drop, All, map, ok, err,
  none, parts_of,
}
use octofs.Editable.{Ending, EditableLine}
use octofs.Batch.{
  BatchOperation, is_replace, start_of, end_of, content_lines_of, Delta, Replaced, replace_one,
  apply_replaces, check_replace, replace_lines,
}
use octofs.Editable.Parts.{take_first, drop_two}
use octofs.Batch.Flow.{flow, flow-append, flow-same, flow_id, flow_none}
use octofs.Batch.Simultaneous.{collect, any, starting, touches, body_of}

-- Replacements from the highest down that do not meet.
abbrev pub Ready : List BatchOperation → Type 0
Ready [] = Unit
Ready (op ∷ ops) =
    (is_replace op ≡ true)
    × (1 ≤ start_of op)
    × (start_of op ≤ end_of op)
    × All (λ r. end_of r < start_of op) ops
    × Ready ops

module _ (e : Ending) where
  quiet :
      (i : ℕ) (ops : List BatchOperation)
      → Ready ops
      → All (λ r. end_of r < i) ops
      → (collect (starting e i) ops ≡ []) × (any (touches i) ops ≡ false)
  unfolding collect any
  quiet i [] r a = (refl, refl)
  quiet i (op ∷ ops) (k, p, q, b, r) (x, a) = ground (arith, quiet i ops r a)

  body-quiet :
      (i : ℕ) (l : EditableLine) (ops : List BatchOperation)
      → Ready ops
      → All (λ r. end_of r < i) ops
      → body_of e ops i l ≡ l ∷ []
  body-quiet i l ops r a = rw ((quiet i ops r a).0, (quiet i ops r a).1) refl

  pub flow_quiet :
      (ops : List BatchOperation) (i : ℕ) (ls : List EditableLine)
      → Ready ops
      → All (λ r. end_of r ≤ i) ops
      → flow (λ _. []) (body_of e ops) i ls ≡ ls
  flow_quiet ops i ls r a =
      flow-same (λ _. []) (λ _. []) (body_of e ops) (λ _ l. l ∷ []) i ls (λ j p q. refl)
        (λ j l p q. body-quiet j l ops r (All-imp ops (λ o h. omega arith) a))
      ∙ flow_id i ls

  module _ (op : BatchOperation) (ops : List BatchOperation) (ready : Ready (op ∷ ops)) where
    body_below :
        (i : ℕ) (l : EditableLine) → i < start_of op → body_of e (op ∷ ops) i l ≡ body_of e ops i l
    unfolding collect any
    body_below i l h = ground arith

    body_begins : (l : EditableLine) → body_of e (op ∷ ops) (start_of op) l ≡ content_lines_of e op
    unfolding collect any
    body_begins l =
        let (k, p, q, b, r) = ready in
        ground (arith, quiet (start_of op) ops r b, append-nil (content_lines_of e op))

    body_within :
        (i : ℕ) (l : EditableLine) → start_of op < i → i ≤ end_of op → body_of e (op ∷ ops) i l ≡ []
    unfolding collect any
    body_within i l h k =
        let (c, p, q, b, r) = ready in
        ground (arith, quiet i ops r (All-imp ops (λ o g. omega arith) b))

    flow_within :
        (i : ℕ) (mid : List EditableLine)
        → start_of op ≤ i
        → i + length mid ≤ end_of op
        → flow (λ _. []) (body_of e (op ∷ ops)) i mid ≡ []
    flow_within i mid h k =
        flow-same (λ _. []) (λ _. []) (body_of e (op ∷ ops)) (λ _ l. []) i mid (λ j p q. refl)
          (λ j l p q. body_within j l (omega arith) (omega arith))
        ∙ flow_none i mid

    pub flow_below :
        (pre : List EditableLine)
        → length pre < start_of op
        → flow (λ _. []) (body_of e (op ∷ ops)) 0 pre ≡ flow (λ _. []) (body_of e ops) 0 pre
    flow_below pre h =
        flow-same (λ _. []) (λ _. []) (body_of e (op ∷ ops)) (body_of e ops) 0 pre (λ j p q. refl)
          (λ j l p q. body_below j l (omega arith))

    -- The lines up to the end of the highest range.
    flow_begins :
        (i : ℕ) (mid : List EditableLine)
        → i + 1 ≡ start_of op
        → i + length mid ≡ end_of op
        → flow (λ _. []) (body_of e (op ∷ ops)) i mid ≡ content_lines_of e op
    unfolding flow
    flow_begins i [] p q = let (k, s, t, b, r) = ready in absurd (omega arith)
    flow_begins i (m ∷ mid) p q =
        ap₂ ◌++◌
          (subst (λ n. body_of e (op ∷ ops) n m ≡ content_lines_of e op) (sym p) (body_begins m))
          (flow_within (i + 1) mid (omega arith) (omega arith))
        ∙ append-nil (content_lines_of e op)

    flow_replaced :
        (pre mid : List EditableLine)
        → length pre + 1 ≡ start_of op
        → length pre + length mid ≡ end_of op
        → flow (λ _. []) (body_of e (op ∷ ops)) 0 (pre ++ mid)
          ≡ flow (λ _. []) (body_of e ops) 0 pre ++ content_lines_of e op
    flow_replaced pre mid p q =
        flow-append (λ _. []) (body_of e (op ∷ ops)) 0 pre mid
        ∙ ap₂ ◌++◌ (flow_below pre (omega arith))
            (flow_begins (0 + length pre) mid (omega arith) (omega arith))

  abbrev pub delta_of : BatchOperation → Delta
  delta_of op = record {
    start = start_of op;
    end = end_of op;
    added = length (content_lines_of e op);
    removed = end_of op - start_of op + 1;
  }

  check_replace_lem :
      (n : ℕ) (op : BatchOperation)
      → 1 ≤ start_of op
      → start_of op ≤ end_of op
      → end_of op ≤ n
      → check_replace n op ≡ none
  check_replace_lem n op h k le = ground arith

  replace_lines_lem :
      (op : BatchOperation) (pre mid post : List EditableLine) (ds : List Delta)
      → length pre + 1 ≡ start_of op
      → length pre + length mid ≡ end_of op
      → start_of op ≤ end_of op
      → replace_lines e op (pre ++ (mid ++ post), ds)
        ≡ ok (pre ++ (content_lines_of e op ++ post), ds ++ delta_of op ∷ [])
  replace_lines_lem op pre mid post ds p q k = rw (few, kept_before, kept_behind) refl
    where
      all : List EditableLine
      all = pre ++ (mid ++ post)

      few :
          ltb (length (pre ++ (mid ++ post))) (start_of op - 1 + (end_of op - start_of op + 1))
          ≡ false
      few = ground (arith, length-append pre (mid ++ post), length-append mid post)

      kept_before : take (start_of op - 1) (pre ++ (mid ++ post)) ≡ pre
      kept_before =
          let h : start_of op - 1 ≡ length pre = omega arith in
          ap (λ n. take n (pre ++ (mid ++ post))) h ∙ take_first pre mid post _ refl

      kept_behind :
          drop (start_of op - 1 + (end_of op - start_of op + 1)) (pre ++ (mid ++ post)) ≡ post
      kept_behind = drop_two pre mid post _ refl _ (omega arith)

  replace_one_lem :
      (n : ℕ) (op : BatchOperation) (pre mid post : List EditableLine) (ds : List Delta)
      → 1 ≤ start_of op
      → start_of op ≤ end_of op
      → length pre + 1 ≡ start_of op
      → length pre + length mid ≡ end_of op
      → end_of op ≤ n
      → replace_one n e op (pre ++ (mid ++ post), ds)
        ≡ ok (pre ++ (content_lines_of e op ++ post), ds ++ delta_of op ∷ [])
  unfolding replace_one
  replace_one_lem n op pre mid post ds h k p q le =
      rw (check_replace_lem n op h k le, replace_one) (replace_lines_lem op pre mid post ds p q k)

  pub flow_parts :
      (op : BatchOperation) (ops : List BatchOperation) (pre mid post : List EditableLine)
      → Ready (op ∷ ops)
      → length pre + 1 ≡ start_of op
      → length pre + length mid ≡ end_of op
      → flow (λ _. []) (body_of e (op ∷ ops)) 0 (pre ++ (mid ++ post))
        ≡ flow (λ _. []) (body_of e ops) 0 pre ++ (content_lines_of e op ++ post)
  flow_parts op ops pre mid post r p q =
      ap (flow (λ _. []) (body_of e (op ∷ ops)) 0) (sym (append_assoc pre mid post))
      ∙ flow-append (λ _. []) (body_of e (op ∷ ops)) 0 (pre ++ mid) post
      ∙ ap₂ ◌++◌ (flow_replaced op ops r pre mid p q)
          (flow_quiet (op ∷ ops) (0 + length (pre ++ mid)) post r below)
      ∙ append_assoc (flow (λ _. []) (body_of e ops) 0 pre) (content_lines_of e op) post
    where
      below : All (λ o. end_of o ≤ 0 + length (pre ++ mid)) (op ∷ ops)
      below =
          let (k, s, t, b, rest) = r in
          (
            omega (arith, length-append pre mid),
            All-imp ops (λ o h. omega (arith, length-append pre mid)) b,
          )

  apply_replaces-ok :
      (n : ℕ) (op : BatchOperation) (ops : List BatchOperation) (st st' : Replaced)
      → replace_one n e op st ≡ ok st'
      → apply_replaces n e (op ∷ ops) st ≡ apply_replaces n e ops st'
  unfolding apply_replaces
  apply_replaces-ok n op ops st st' h =
      ap (λ t. elim t [ ok u ↦ apply_replaces n e ops u | err x ↦ err x ]) h

  stepped :
      (n : ℕ) (op : BatchOperation) (ops : List BatchOperation)
      (pre mid post tail : List EditableLine) (ds : List Delta)
      → Ready (op ∷ ops)
      → length pre + 1 ≡ start_of op
      → length pre + length mid ≡ end_of op
      → end_of op ≤ n
      → apply_replaces n e ops
          (pre ++ (content_lines_of e op ++ (post ++ tail)), ds ++ delta_of op ∷ [])
        ≡ ok (
          flow (λ _. []) (body_of e ops) 0 pre ++ (content_lines_of e op ++ (post ++ tail)),
          (ds ++ delta_of op ∷ []) ++ map delta_of ops,
        )
      → apply_replaces n e (op ∷ ops) ((pre ++ (mid ++ post)) ++ tail, ds)
        ≡ ok (
          flow (λ _. []) (body_of e (op ∷ ops)) 0 (pre ++ (mid ++ post)) ++ tail,
          ds ++ map delta_of (op ∷ ops),
        )
  stepped n op ops pre mid post tail ds r p q le ih =
      let (k, s, t, b, rest) = r in
      ap (λ x. apply_replaces n e (op ∷ ops) (x, ds))
        (append_assoc pre (mid ++ post) tail ∙ ap (pre ++◌) (append_assoc mid post tail))
      ∙ apply_replaces-ok n op ops _ _ (replace_one_lem n op pre mid (post ++ tail) ds s t p q le)
      ∙ ih
      ∙ ap₂ (λ x y. ok (x, y)) flowed (append_assoc ds (delta_of op ∷ []) (map delta_of ops))
    where
      flowed :
          flow (λ _. []) (body_of e ops) 0 pre ++ (content_lines_of e op ++ (post ++ tail))
          ≡ flow (λ _. []) (body_of e (op ∷ ops)) 0 (pre ++ (mid ++ post)) ++ tail
      flowed = rw (flow_parts op ops pre mid post r p q) (simp append_assoc)

  pub apply_replaces_lem :
      (n : ℕ) (ops : List BatchOperation) (pre tail : List EditableLine) (ds : List Delta)
      → Ready ops
      → All (λ r. end_of r ≤ length pre) ops
      → length pre ≤ n
      → apply_replaces n e ops (pre ++ tail, ds)
        ≡ ok (flow (λ _. []) (body_of e ops) 0 pre ++ tail, ds ++ map delta_of ops)
  apply_replaces_lem n [] pre tail ds r a le =
      unfold apply_replaces in
      ap₂ (λ x y. ok (x ++ tail, y)) (sym (flow_quiet [] 0 pre tt tt)) (sym (append-nil ds))
  apply_replaces_lem n (op ∷ ops) pre tail ds r a le =
      let (k, s, t, b, rest) = r in
      let (p, m, q, splits, length_p, length_m) =
        parts_of (start_of op - 1) (end_of op) pre (omega arith) a.0 in
      subst
        (λ x.
          apply_replaces n e (op ∷ ops) (x ++ tail, ds)
          ≡ ok (flow (λ _. []) (body_of e (op ∷ ops)) 0 x ++ tail, ds ++ map delta_of (op ∷ ops)))
        (sym splits)
        (stepped n op ops p m q tail ds r (omega arith) (omega arith) (omega (arith, a.0)) (
          apply_replaces_lem n ops p (content_lines_of e op ++ (q ++ tail)) (ds ++ delta_of op ∷ [])
            rest (All-imp ops (λ o h. omega arith) b) (omega (arith, a.0))))
