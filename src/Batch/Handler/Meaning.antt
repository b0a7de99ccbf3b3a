-- ===== src/Batch/Handler/Meaning.antt =====
-- What an operation of a call asks for, and the parts from which it is parsed.
use octofs.Prelude.{
  ℕ, ◌≤◌, ◌≡◌, refl, subst, ◌⊎◌, inl, inr, Option, none, some, List, [], ◌∷◌, if◌then◌else◌, length,
  Result, ok, err, subst_ok, Bool-cases,
}
use octofs.Prelude.Int.{pos, negsuc}
use octofs.Text.{Bytes, lf, is_empty, bytes_eq}
use octofs.Text.Equality.{eq_of_bytes_eq}
use octofs.LineHash.Points.{Points}
use octofs.LineHash.Endpoint.{Value, Endpoint, parse_endpoint}
use octofs.Batch.{OperationType, insert_op, replace_op, LineRange, single, range, BatchOperation}
use octofs.Batch.Targets.{UnresolvedLineRange, TargetError, parse_line_range}
use octofs.Batch.Handler.{
  OperationObject, OperationValue, object, not_object, UnresolvedBatchOperation, missing_operation,
  missing_start, unsupported, insert_name, replace_name, operation_type_of, content_of,
  with_content, with_type, parse_operation,
}

module _ (line_hash : Bytes → Bytes) (ls : List Bytes) where
  -- Where an insertion goes: before the first line for 0, behind the last for -1, behind a line.
  abbrev pub Anchors : Value → LineRange → Type 0
  Anchors start r =
      ((parse_endpoint start ≡ ok (Endpoint.number (pos 0))) × (r ≡ single 0))
      ⊎ (((parse_endpoint start ≡ ok (Endpoint.number (negsuc 0))) × (r ≡ single (length ls)))
          ⊎ ((line : ℕ) × Points line_hash ls start line × (r ≡ single line)))

  -- What a replacement covers: from one line to another in order, or to itself without an end.
  abbrev pub Spans : Value → Option Value → LineRange → Type 0
  Spans start none r = (s : ℕ) × Points line_hash ls start s × (r ≡ range s s)
  Spans start (some w) r =
      (s : ℕ) × (e : ℕ) × Points line_hash ls start s
      × Points line_hash ls w e
      × (s ≤ e)
      × (r ≡ range s e)

  abbrev pub Target : OperationType → Value → Option Value → LineRange → Type 0
  Target insert_op start end r = Anchors start r
  Target replace_op start end r = Spans start end r

  abbrev pub name_of : OperationType → Bytes
  name_of insert_op = insert_name
  name_of replace_op = replace_name

  -- The text of an operation; an insertion of nothing is one blank line.
  abbrev pub text_of : OperationType → Bytes → Bytes
  text_of insert_op text = if is_empty text then lf ∷ [] else text
  text_of replace_op text = text

  -- The operation is what the value at this index of the call asks for.
  pub record Means (index : ℕ) (v : OperationValue) (op : BatchOperation) : Type 0 where
    pub fields : OperationObject
    pub start : Value
    pub text : Bytes
    pub given : v ≡ object fields
    pub name : fields.operation ≡ some (name_of op.operation_type)
    pub starts : fields.start ≡ some start
    pub texts : fields.content ≡ some text
    pub content : op.content ≡ text_of op.operation_type text
    pub indexed : op.operation_index ≡ index
    pub target : Target op.operation_type start fields.end op.line_range

  -- The parts from which an operation is parsed.
  pub record Reads (index : ℕ) (v : OperationValue) (u : UnresolvedBatchOperation) : Type 0 where
    pub fields : OperationObject
    pub start : Value
    pub text : Bytes
    pub given : v ≡ object fields
    pub name : fields.operation ≡ some (name_of u.operation_type)
    pub starts : fields.start ≡ some start
    pub texts : fields.content ≡ some text
    pub content : u.content ≡ content_of u.operation_type text
    pub indexed : u.operation_index ≡ index
    pub target : parse_line_range line_hash start fields.end u.operation_type ls ≡ ok u.line_range

  name-operation_type_of :
      (name : Bytes) (ty : OperationType) → operation_type_of name ≡ some ty → name ≡ name_of ty
  name-operation_type_of name ty h = elim (Bool-cases (bytes_eq name insert_name)) [
    | inl e ↦
        let q : some insert_op ≡ some ty = rw e at h in
        let k : insert_op ≡ ty = cc in
        subst (λ t. name ≡ name_of t) k (eq_of_bytes_eq name insert_name e)
    | inr e ↦ elim (Bool-cases (bytes_eq name replace_name)) [
      | inl f ↦
          let q : some replace_op ≡ some ty = rw (e, f) at h in
          let k : replace_op ≡ ty = cc in
          subst (λ t. name ≡ name_of t) k (eq_of_bytes_eq name replace_name f)
      | inr f ↦ let q : ◌≡◌ {A = Option OperationType} none (some ty) = rw (e, f) at h in cc
    ]
  ]

  module _ (index : ℕ) (o : OperationObject) where
    content-Reads :
        (ty : OperationType) (start : Value) (c : Option Bytes)
        (r : Result TargetError UnresolvedLineRange) {u : UnresolvedBatchOperation}
        → o.operation ≡ some (name_of ty)
        → o.start ≡ some start
        → o.content ≡ c
        → parse_line_range line_hash start o.end ty ls ≡ r
        → with_content line_hash index ty c r ≡ ok u
        → Reads index (object o) u
    content-Reads ty start c (err x) n s t p h = cc
    content-Reads ty start none (ok r) n s t p h = cc
    content-Reads ty start (some c) (ok r) n s t p h = subst_ok (Reads index (object o)) h (record {
      fields = o;
      start = start;
      text = c;
      given = refl;
      name = n;
      starts = s;
      texts = t;
      content = refl;
      indexed = refl;
      target = p;
    })

    type-Reads :
        (ty : OperationType) (s : Option Value) {u : UnresolvedBatchOperation}
        → o.operation ≡ some (name_of ty)
        → o.start ≡ s
        → elim s [
          | none ↦ err missing_start
          | some v ↦
              with_content line_hash index ty o.content (parse_line_range line_hash v o.end ty ls)
        ]
          ≡ ok u
        → Reads index (object o) u
    type-Reads ty none n s h = cc
    type-Reads ty (some v) n s h = content-Reads ty v o.content _ n s refl refl h

    named-Reads :
        (name : Bytes) (ty : Option OperationType) {u : UnresolvedBatchOperation}
        → o.operation ≡ some name
        → operation_type_of name ≡ ty
        → elim ty [ none ↦ err (unsupported name) | some t ↦ with_type line_hash ls index o t ]
          ≡ ok u
        → Reads index (object o) u
    named-Reads name none n t h = cc
    named-Reads name (some ty) n t h =
        type-Reads ty o.start
          (subst (λ x. o.operation ≡ some x) (name-operation_type_of name ty t) n) refl h

    object-Reads :
        (name : Option Bytes) {u : UnresolvedBatchOperation}
        → o.operation ≡ name
        → elim name [
          | none ↦ err missing_operation
          | some s ↦ elim (operation_type_of s) [
            | none ↦ err (unsupported s)
            | some t ↦ with_type line_hash ls index o t
          ]
        ]
          ≡ ok u
        → Reads index (object o) u
    object-Reads none n h = cc
    object-Reads (some name) n h = named-Reads name (operation_type_of name) n refl h

  pub parse_operation-Reads :
      (index : ℕ) (v : OperationValue) {u : UnresolvedBatchOperation}
      → parse_operation line_hash ls index v ≡ ok u
      → Reads index v u
  unfolding parse_operation
  parse_operation-Reads index not_object h = cc
  parse_operation-Reads index (object o) h = object-Reads index o o.operation refl h
