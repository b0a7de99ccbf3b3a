-- ===== src/Transaction/Applies.antt =====
-- The files of a transaction are those that were read, under different keys.
use octofs.Prelude.{
  Result, subst_ok, bound, ok, err, ◌>>=◌, ℕ, ◌+◌, ◌≡◌, refl, sym, ap, ap₂, ◌∙◌, subst, true, false,
  ◌||◌, inl, inr, some, List, [], ◌∷◌, ◌++◌, fun_ext, ◌++◌, fun_ext, Bool-cases, arith,
  if◌then◌else◌,
}
use octofs.Text.{Bytes, bytes_eq}
use octofs.Maps.{bytes_eq-sym}
use octofs.Text.Equality.{eq_of_bytes_eq, bytes_eq_refl}
use octofs.MultiEdit.{Disk, File}
use octofs.MultiEdit.Rollback.{Loaded, touched}
use octofs.MultiEdit.Commits.{Distinct}
use octofs.StrReplace.{Edit, ReplaceError, replace_edit}
use octofs.Transaction.{stage_file, stage_step, stage}

-- The edits of one file, in the order of the call.
unfoldable pub edits_for : Bytes → List (Bytes × Edit) → List Edit
unfolding bytes_eq
edits_for key [] = []
edits_for key ((k, edit) ∷ steps) =
    let rest = edits_for key steps in if bytes_eq k key then edit ∷ rest else rest

edits_for-cons :
    (k key : Bytes) (edit : Edit) (steps : List (Bytes × Edit))
    → edits_for k ((key, edit) ∷ steps) ≡ edits_for k ((key, edit) ∷ []) ++ edits_for k steps
unfolding edits_for
edits_for-cons k key edit steps = elim (Bool-cases (bytes_eq key k)) [
  | inl h ↦ rw h refl
  | inr h ↦ rw h refl
]

edits_for-one : (key k : Bytes) (edit : Edit) → k ≡ key → edits_for k ((key, edit) ∷ []) ≡ edit ∷ []
unfolding edits_for
edits_for-one key k edit e =
    let h : bytes_eq key k ≡ true = ap (bytes_eq key) e ∙ bytes_eq_refl key in rw h refl

bind_assoc {ℓ κ μ ν} :
    {E : Type ℓ} {A : Type κ} {B : Type μ} {C : Type ν} (r : Result E A) (f : A → Result E B)
    (g : B → Result E C)
    → ((r >>= f) >>= g) ≡ (r >>= λ a. f a >>= g)
bind_assoc (ok a) f g = refl
bind_assoc (err e) f g = refl

module _ (line_hash : Bytes → Bytes) where
  unfoldable pub apply_edits : Bytes → List Edit → Result ReplaceError Bytes
  unfolding replace_edit
  apply_edits content [] = ok content
  apply_edits content (edit ∷ edits) =
      replace_edit line_hash content edit >>= λ next. apply_edits next edits

  apply_edits-append :
      (content : Bytes) (es fs : List Edit)
      → apply_edits content (es ++ fs) ≡ (apply_edits content es >>= λ next. apply_edits next fs)
  unfolding apply_edits
  apply_edits-append content [] fs = refl
  apply_edits-append content (e ∷ es) fs =
      ap (λ f. replace_edit line_hash content e >>= f)
        (fun_ext (λ next. apply_edits-append next es fs))
      ∙ sym (bind_assoc (replace_edit line_hash content e) _ _)

  -- A file before and after some steps: its edits are applied to its content one after the other.
  pub record IsEdited (steps : List (Bytes × Edit)) (f g : File) : Type 0 where
    pub key : g.key ≡ f.key
    pub before : g.before ≡ f.before
    pub content : apply_edits f.after (edits_for f.key steps) ≡ ok g.after

  abbrev pub AreEdited : List (Bytes × Edit) → List File → List File → Type 0
  AreEdited steps [] [] = Unit
  AreEdited steps [] (g ∷ gs) = ⊥
  AreEdited steps (f ∷ fs) [] = ⊥
  AreEdited steps (f ∷ fs) (g ∷ gs) = IsEdited steps f g × AreEdited steps fs gs

  IsEdited-nil : (f : File) → IsEdited [] f f
  IsEdited-nil f = record {
    key = refl;
    before = refl;
    content = unfold apply_edits edits_for in refl;
  }

  AreEdited-nil : (fs : List File) → AreEdited [] fs fs
  AreEdited-nil [] = tt
  AreEdited-nil (f ∷ fs) = (IsEdited-nil f, AreEdited-nil fs)

  -- A step on another file.
  IsEdited-other :
      (key : Bytes) (edit : Edit) (f : File)
      → bytes_eq key f.key ≡ false
      → IsEdited ((key, edit) ∷ []) f f
  IsEdited-other key edit f h = record {
    key = refl;
    before = refl;
    content = unfold apply_edits edits_for in rw h refl;
  }

  AreEdited-other :
      (key : Bytes) (edit : Edit) (fs : List File)
      → touched fs key ≡ false
      → AreEdited ((key, edit) ∷ []) fs fs
  AreEdited-other key edit [] t = tt
  AreEdited-other key edit (f ∷ fs) t = (
    IsEdited-other key edit f (bytes_eq-sym f.key key (ground arith)),
    AreEdited-other key edit fs (ground arith),
  )

  IsEdited-cons :
      (key : Bytes) (edit : Edit) (steps : List (Bytes × Edit)) (f g h : File)
      → IsEdited ((key, edit) ∷ []) f g
      → IsEdited steps g h
      → IsEdited ((key, edit) ∷ steps) f h
  IsEdited-cons key edit steps f g h a b = record {
    key = b.key ∙ a.key;
    before = b.before ∙ a.before;
    content =
        ap (apply_edits f.after) (edits_for-cons f.key key edit steps)
        ∙ apply_edits-append f.after (edits_for f.key ((key, edit) ∷ [])) (edits_for f.key steps)
        ∙ ap (λ r. r >>= λ t. apply_edits t (edits_for f.key steps)) a.content
        ∙ ap (λ k. apply_edits g.after (edits_for k steps)) (sym a.key)
        ∙ b.content;
  }

  AreEdited-cons :
      (key : Bytes) (edit : Edit) (steps : List (Bytes × Edit)) (fs gs hs : List File)
      → AreEdited ((key, edit) ∷ []) fs gs
      → AreEdited steps gs hs
      → AreEdited ((key, edit) ∷ steps) fs hs
  AreEdited-cons key edit steps [] [] [] a b = tt
  AreEdited-cons key edit steps [] [] (h ∷ hs) a b = b
  AreEdited-cons key edit steps [] (g ∷ gs) hs a b = absurd a
  AreEdited-cons key edit steps (f ∷ fs) [] hs a b = absurd a
  AreEdited-cons key edit steps (f ∷ fs) (g ∷ gs) [] a b = b
  AreEdited-cons key edit steps (f ∷ fs) (g ∷ gs) (h ∷ hs) a b =
      (IsEdited-cons key edit steps f g h a.0 b.0, AreEdited-cons key edit steps fs gs hs a.1 b.1)

  apply_edits-one :
      (content : Bytes) (edit : Edit)
      → apply_edits content (edit ∷ []) ≡ (replace_edit line_hash content edit >>= λ next. ok next)
  unfolding apply_edits
  apply_edits-one content edit = refl

  stage_file-IsEdited :
      (index : ℕ) (key : Bytes) (edit : Edit) (f : File) {g : File}
      → bytes_eq f.key key ≡ true
      → stage_file line_hash index f (replace_edit line_hash f.after edit) ≡ ok g
      → IsEdited ((key, edit) ∷ []) f g
  stage_file-IsEdited index key edit f {g} h e = staged (replace_edit line_hash f.after edit) refl e
    where
      staged :
          (r : Result ReplaceError Bytes)
          → replace_edit line_hash f.after edit ≡ r
          → stage_file line_hash index f r ≡ ok g
          → IsEdited ((key, edit) ∷ []) f g
      staged (err x) q k = cc
      staged (ok content) q k = subst_ok (IsEdited ((key, edit) ∷ []) f) k (record {
        key = refl;
        before = refl;
        content =
            ap (apply_edits f.after) (edits_for-one key f.key edit (eq_of_bytes_eq f.key key h))
            ∙ apply_edits-one f.after edit
            ∙ ap (λ x. x >>= λ next. ok next) q;
      })

  stage_step-AreEdited :
      (index : ℕ) (key : Bytes) (edit : Edit) (fs : List File) {gs : List File}
      → Distinct fs
      → stage_step line_hash index key edit fs ≡ ok gs
      → AreEdited ((key, edit) ∷ []) fs gs
  unfolding stage_step
  stage_step-AreEdited index key edit [] d h = cc
  stage_step-AreEdited index key edit (f ∷ fs) d h = elim (Bool-cases (bytes_eq f.key key)) [
    | inl e ↦
        let (g, q, k) =
          bound (stage_file line_hash index f (replace_edit line_hash f.after edit))
            (λ g. ok (g ∷ fs)) (rw e at h) in
        subst_ok (AreEdited ((key, edit) ∷ []) (f ∷ fs)) k (
          stage_file-IsEdited index key edit f e q,
          AreEdited-other key edit fs
              (subst (λ x. touched fs x ≡ false) (eq_of_bytes_eq f.key key e) d.0),
        )
    | inr e ↦
        let (others, q, k) =
          bound (stage_step line_hash index key edit fs) (λ others. ok (f ∷ others)) (rw e at h) in
        subst_ok (AreEdited ((key, edit) ∷ []) (f ∷ fs)) k (
          IsEdited-other key edit f (bytes_eq-sym f.key key e),
          stage_step-AreEdited index key edit fs d.1 q,
        )
  ]

  pub touched-AreEdited :
      (steps : List (Bytes × Edit)) (fs gs : List File) (j : Bytes)
      → AreEdited steps fs gs
      → touched gs j ≡ touched fs j
  touched-AreEdited steps [] [] j a = refl
  touched-AreEdited steps [] (g ∷ gs) j a = absurd a
  touched-AreEdited steps (f ∷ fs) [] j a = absurd a
  touched-AreEdited steps (f ∷ fs) (g ∷ gs) j a =
      ap₂ (λ k t. bytes_eq k j || t) a.0.key (touched-AreEdited steps fs gs j a.1)

  pub Distinct-AreEdited :
      (steps : List (Bytes × Edit)) (fs gs : List File)
      → AreEdited steps fs gs
      → Distinct fs
      → Distinct gs
  Distinct-AreEdited steps [] [] a d = tt
  Distinct-AreEdited steps [] (g ∷ gs) a d = absurd a
  Distinct-AreEdited steps (f ∷ fs) [] a d = absurd a
  Distinct-AreEdited steps (f ∷ fs) (g ∷ gs) a d = (
    touched-AreEdited steps fs gs g.key a.1 ∙ ap (touched fs) a.0.key ∙ d.0,
    Distinct-AreEdited steps fs gs a.1 d.1,
  )

  pub Loaded-AreEdited :
      (disk : Disk) (steps : List (Bytes × Edit)) (fs gs : List File)
      → AreEdited steps fs gs
      → Loaded disk fs
      → Loaded disk gs
  Loaded-AreEdited disk steps [] [] a l = tt
  Loaded-AreEdited disk steps [] (g ∷ gs) a l = absurd a
  Loaded-AreEdited disk steps (f ∷ fs) [] a l = absurd a
  Loaded-AreEdited disk steps (f ∷ fs) (g ∷ gs) a l =
      (ap disk a.0.key ∙ l.0 ∙ ap some (sym a.0.before), Loaded-AreEdited disk steps fs gs a.1 l.1)

  pub stage-AreEdited :
      (index : ℕ) (steps : List (Bytes × Edit)) (fs : List File) {gs : List File}
      → Distinct fs
      → stage line_hash index steps fs ≡ ok gs
      → AreEdited steps fs gs
  unfolding stage
  stage-AreEdited index [] fs d h = subst_ok (AreEdited [] fs) h (AreEdited-nil fs)
  stage-AreEdited index ((key, edit) ∷ steps) fs {gs} d h =
      let (mid, q, k) =
        bound (stage_step line_hash index key edit fs)
          (λ staged. stage line_hash (index + 1) steps staged) h in
      let a = stage_step-AreEdited index key edit fs d q in
      AreEdited-cons key edit steps fs mid gs a
        (stage-AreEdited (index + 1) steps mid (Distinct-AreEdited ((key, edit) ∷ []) fs mid a d) k)
