-- ===== src/Batch/Handler/Resolved.antt =====
-- A parsed and resolved operation is what its value asks for.
use octofs.Prelude.{
  ℕ, zero, suc, ◌≤◌, ◌≡◌, refl, sym, ◌∙◌, subst, inl, inr, Option, none, some, List, [], ◌∷◌,
  length, Result, ok, err, subst_ok, arith, Bool-cases, ltb,
}
use octofs.Prelude.Int.{pos, negsuc}
use octofs.Text.{Bytes}
use octofs.LineHash.{VerifyError, verify_line_id}
use octofs.LineHash.Points.{Points, verify_line_id-Points}
use octofs.LineHash.Endpoint.{Chars, Value, Endpoint, EndpointError, parse_endpoint}
use octofs.Batch.{OperationType, insert_op, replace_op, LineRange, single, range, BatchOperation}
use octofs.Batch.Targets.{
  UnresolvedLineRange, ResolveError, anchor, id_anchor, id_range, invalid_start, reversed_range,
  insert_target, replace_target, with_end, target_of, parse_line_range, resolve_ends,
  resolve_anchor, resolve_unresolved_line_range,
}
use octofs.Batch.TargetPlaces.{op_at}
use octofs.Batch.Handler.{
  OperationValue, UnresolvedBatchOperation, content_of, parse_operation, resolve_operation,
}
use octofs.Batch.Handler.Meaning.{
  Anchors, Spans, Target, text_of, Means, Reads, parse_operation-Reads,
}

module _ (line_hash : Bytes → Bytes) (ls : List Bytes) where
  anchored-Anchors :
      (start : Value) (ep : Endpoint) {u : UnresolvedLineRange} {r : LineRange}
      → parse_endpoint start ≡ ok ep
      → insert_target line_hash ls ep ≡ ok u
      → resolve_unresolved_line_range line_hash u (length ls) ls ≡ ok r
      → Anchors line_hash ls start r
  unfolding resolve_unresolved_line_range
  anchored-Anchors start (Endpoint.number (pos zero)) {u} {r} p t h =
      let k : anchor (pos 0) ≡ u = cc in
      let q : ok (single 0) ≡ ok r =
        subst (λ x. resolve_unresolved_line_range line_hash x (length ls) ls ≡ ok r) (sym k) h in
      inl (p, cc)
  anchored-Anchors start (Endpoint.number (pos (suc n))) p t h = cc
  anchored-Anchors start (Endpoint.number (negsuc zero)) {u} {r} p t h =
      let k : anchor (negsuc 0) ≡ u = cc in
      let q : ok (single (length ls)) ≡ ok r =
        subst (λ x. resolve_unresolved_line_range line_hash x (length ls) ls ≡ ok r) (sym k) h in
      inr (inl (p, cc))
  anchored-Anchors start (Endpoint.number (negsuc (suc n))) p t h = cc
  anchored-Anchors start (Endpoint.id line hash) {u} {r} p t h =
      let k : id_anchor line hash ≡ u = cc in
      at_line (verify_line_id line_hash line hash ls) refl
        (subst (λ x. resolve_unresolved_line_range line_hash x (length ls) ls ≡ ok r) (sym k) h)
    where
      at_line :
          (v : Result VerifyError ℕ)
          → verify_line_id line_hash line hash ls ≡ v
          → resolve_anchor line_hash v ≡ ok r
          → Anchors line_hash ls start r
      at_line (err x) e q = cc
      at_line (ok n) e q = inr (inr (n, verify_line_id-Points line_hash ls start line hash p e, cc))

  -- Both ends stand for their lines, in order.
  ends_of :
      (s e : ℕ × Chars) {r : LineRange} (a b : Result VerifyError ℕ)
      → resolve_ends line_hash s e a b ≡ ok r
      → (m : ℕ) × (n : ℕ) × (a ≡ ok m) × (b ≡ ok n) × (m ≤ n) × (r ≡ range m n)
  ends_of s e {r} (ok m) (ok n) h = elim (Bool-cases (ltb n m)) [
    | inl k ↦ let q : err (reversed_range s e) ≡ ok r = rw k at h in cc
    | inr k ↦ let q : ok (range m n) ≡ ok r = rw k at h in (m, n, refl, refl, ground arith, cc)
  ]
  ends_of s e (ok m) (err y) h = cc
  ends_of s e (err x) (ok n) h = cc
  ends_of s e (err x) (err y) h = cc

  abbrev Ends : Value → Value → LineRange → Type 0
  Ends start w r =
      (s : ℕ) × (e : ℕ) × Points line_hash ls start s
      × Points line_hash ls w e
      × (s ≤ e)
      × (r ≡ range s e)

  replaced-Ends :
      (start w : Value) (a b : Endpoint) {u : UnresolvedLineRange} {r : LineRange}
      → parse_endpoint start ≡ ok a
      → parse_endpoint w ≡ ok b
      → replace_target line_hash ls a b ≡ ok u
      → resolve_unresolved_line_range line_hash u (length ls) ls ≡ ok r
      → Ends start w r
  unfolding resolve_unresolved_line_range
  replaced-Ends start w (Endpoint.id sl sh) (Endpoint.id el eh) {u} {r} p q t h =
      let k : id_range (sl, sh) (el, eh) ≡ u = cc in
      let (m, n, v1, v2, le, e) =
        ends_of (sl, sh) (el, eh) (verify_line_id line_hash sl sh ls)
          (verify_line_id line_hash el eh ls)
          (subst (λ x. resolve_unresolved_line_range line_hash x (length ls) ls ≡ ok r) (sym k)
            h) in
      (
        m,
        n,
        verify_line_id-Points line_hash ls start sl sh p v1,
        verify_line_id-Points line_hash ls w el eh q v2,
        le,
        e,
      )
  replaced-Ends start w (Endpoint.number n) b p q t h = cc
  replaced-Ends start w (Endpoint.id sl sh) (Endpoint.number n) p q t h = cc

  single-Spans :
      (start : Value) {r : LineRange} → Ends start start r → Spans line_hash ls start none r
  single-Spans start {r} (s, e, p, q, le, h) =
      let k : e ≡ s = same_line p.1 q.1 in (s, p, subst (λ x. r ≡ range s x) k h)
    where
      same_line :
          {a b : ℕ} {h1 h2 : Chars}
          → parse_endpoint start ≡ ok (Endpoint.id a h1)
          → parse_endpoint start ≡ ok (Endpoint.id b h2)
          → b ≡ a
      same_line x y = cc

  ended-Spans :
      (start w : Value) (a : Endpoint) (b : Result EndpointError Endpoint) {u : UnresolvedLineRange}
      {r : LineRange}
      → parse_endpoint start ≡ ok a
      → parse_endpoint w ≡ b
      → with_end line_hash ls a b ≡ ok u
      → resolve_unresolved_line_range line_hash u (length ls) ls ≡ ok r
      → Ends start w r
  ended-Spans start w a (ok b) p q t h = replaced-Ends start w a b p q t h
  ended-Spans start w a (err x) p q t h = cc

  target_of-Target :
      (ty : OperationType) (start : Value) (end : Option Value) (a : Endpoint)
      {u : UnresolvedLineRange} {r : LineRange}
      → parse_endpoint start ≡ ok a
      → target_of line_hash ty end ls a ≡ ok u
      → resolve_unresolved_line_range line_hash u (length ls) ls ≡ ok r
      → Target line_hash ls ty start end r
  target_of-Target insert_op start end a p t h = anchored-Anchors start a p t h
  target_of-Target replace_op start none a p t h =
      single-Spans start (replaced-Ends start start a a p p t h)
  target_of-Target replace_op start (some w) a p t h =
      ended-Spans start w a (parse_endpoint w) p refl t h

  parsed-Target :
      (ty : OperationType) (start : Value) (end : Option Value) {u : UnresolvedLineRange}
      {r : LineRange}
      → parse_line_range line_hash start end ty ls ≡ ok u
      → resolve_unresolved_line_range line_hash u (length ls) ls ≡ ok r
      → Target line_hash ls ty start end r
  unfolding parse_line_range
  parsed-Target ty start end {u} {r} t h = go (parse_endpoint start) refl t
    where
      go :
          (e : Result EndpointError Endpoint)
          → parse_endpoint start ≡ e
          → elim e [ err x ↦ err (invalid_start x) | ok a ↦ target_of line_hash ty end ls a ] ≡ ok u
          → Target line_hash ls ty start end r
      go (err x) p k = cc
      go (ok a) p k = target_of-Target ty start end a p k h

  text_of-content_of :
      (ty : OperationType) (text : Bytes) → content_of ty text ≡ text_of line_hash ls ty text
  text_of-content_of insert_op [] = refl
  text_of-content_of insert_op (c ∷ text) = refl
  text_of-content_of replace_op text = refl

  resolved-Means :
      (index : ℕ) (v : OperationValue) (u : UnresolvedBatchOperation) {op : BatchOperation}
      (r : Result ResolveError LineRange)
      → Reads line_hash ls index v u
      → resolve_unresolved_line_range line_hash u.line_range (length ls) ls ≡ r
      → elim r [
        | err x ↦ err x
        | ok t ↦ ok (op_at line_hash u.operation_type t u.content u.operation_index)
      ]
        ≡ ok op
      → Means line_hash ls index v op
  resolved-Means index v u (err x) p e h = cc
  resolved-Means index v u (ok t) p e h = subst_ok (Means line_hash ls index v) h (record {
    fields = p.fields;
    start = p.start;
    text = p.text;
    given = p.given;
    name = p.name;
    starts = p.starts;
    texts = p.texts;
    content = p.content ∙ text_of-content_of u.operation_type p.text;
    indexed = p.indexed;
    target = parsed-Target u.operation_type p.start p.fields.end p.target e;
  })

  -- An operation that is parsed and resolved means what its value asks for.
  pub operation-Means :
      (index : ℕ) (v : OperationValue) (u : UnresolvedBatchOperation) {op : BatchOperation}
      → parse_operation line_hash ls index v ≡ ok u
      → resolve_operation line_hash ls u ≡ ok op
      → Means line_hash ls index v op
  unfolding resolve_operation
  operation-Means index v u p h =
      resolved-Means index v u _ (parse_operation-Reads line_hash ls index v p) refl h
