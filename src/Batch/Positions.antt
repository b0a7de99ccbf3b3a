-- ===== src/Batch/Positions.antt =====
-- Where a line of the original stands after the replacements.
use octofs.Prelude.{
  ℕ, ◌+◌, ◌-◌, ◌≤◌, ◌<◌, ◌≡◌, refl, ap, ◌∙◌, ◌⊎◌, inl, inr, List, [], ◌∷◌, ◌++◌, arith, length,
  length-append, All, All-imp, map, parts_of,
}
use octofs.Editable.{Ending, EditableLine}
use octofs.Batch.{BatchOperation, start_of, end_of, content_lines_of, gained, lost}
use octofs.Batch.Flow.{flow}
use octofs.Batch.Simultaneous.{body_of}
use octofs.Batch.Replaces.{Ready, delta_of, flow_below, flow_parts, flow_quiet}

-- A gap that no range has inside.
abbrev pub Outside : ℕ → BatchOperation → Type 0
Outside a op = (a < start_of op) ⊎ (end_of op ≤ a)

module _ (e : Ending) where
  sums_same :
      (a b : ℕ) (ops : List BatchOperation)
      → All (λ o. end_of o ≤ a) ops
      → All (λ o. end_of o ≤ b) ops
      → (gained a (map (delta_of e) ops) ≡ gained b (map (delta_of e) ops))
        × (lost a (map (delta_of e) ops) ≡ lost b (map (delta_of e) ops))
  unfolding gained lost
  sums_same a b [] h k = (refl, refl)
  sums_same a b (o ∷ ops) (x, h) (y, k) = ground (arith, sums_same a b ops h k)

  pub length-flow :
      (ops : List BatchOperation) (pre : List EditableLine)
      → Ready ops
      → All (Outside (length pre)) ops
      → length (flow (λ _. []) (body_of e ops) 0 pre) + lost (length pre) (map (delta_of e) ops)
        ≡ length pre + gained (length pre) (map (delta_of e) ops)
  unfolding gained lost
  length-flow [] pre r o = omega (arith, ap length (flow_quiet e [] 0 pre tt tt))
  length-flow (op ∷ ops) pre r (inl h, o) = ground (
    arith,
    ap length (flow_below e op ops r pre h),
    length-flow ops pre (let (k, s, t, b, rest) = r in rest) o,
  )
  length-flow (op ∷ ops) pre r (inr h, o) =
      let (k, s, t, b, rest) = r in
      let (p, m, q, splits, length_p, length_m) =
        parts_of (start_of op - 1) (end_of op) pre (omega arith) h in
      let ih = length-flow ops p rest (All-imp ops (λ x g. inr (omega arith)) b) in
      let sums =
        sums_same (length p) (length pre) ops (All-imp ops (λ x g. omega arith) b)
          (All-imp ops (λ x g. omega arith) b) in
      ground (
        arith,
        ih,
        sums,
        length_flow_parts p m q splits
            (ap length (flow_parts e op ops p m q r (omega arith) (omega arith))),
        ap length splits,
        length-append p (m ++ q),
        length-append m q,
      )
    where
      length_flow_parts :
          (p m q : List EditableLine)
          → pre ≡ p ++ (m ++ q)
          → length (flow (λ _. []) (body_of e (op ∷ ops)) 0 (p ++ (m ++ q)))
            ≡ length (flow (λ _. []) (body_of e ops) 0 p ++ (content_lines_of e op ++ q))
          → length (flow (λ _. []) (body_of e (op ∷ ops)) 0 pre)
            ≡ length (flow (λ _. []) (body_of e ops) 0 p)
              + (length (content_lines_of e op) + length q)
      length_flow_parts p m q splits h =
          ap (λ x. length (flow (λ _. []) (body_of e (op ∷ ops)) 0 x)) splits
          ∙ h
          ∙ length-append (flow (λ _. []) (body_of e ops) 0 p) (content_lines_of e op ++ q)
          ∙ ap (λ n. length (flow (λ _. []) (body_of e ops) 0 p) + n)
              (length-append (content_lines_of e op) q)
