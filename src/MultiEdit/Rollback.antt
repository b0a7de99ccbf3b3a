-- ===== src/MultiEdit/Rollback.antt =====
-- A commit that says it restored all files has done so.
use octofs.Prelude.{
  ℕ, ◌+◌, ◌≡◌, refl, sym, ap, ◌∙◌, subst, Bool, true, false, ◌||◌, ◌⊎◌, inl, inr, Option, none,
  some, List, [], ◌∷◌, Bool-cases, All, arith,
}
use octofs.Text.{Bytes, bytes_eq}
use octofs.Text.Equality.{eq_of_bytes_eq}
use octofs.MultiEdit.{
  Disk, File, restored, is_content, restore, add_failure, rollback, failed, write_files,
}

abbrev pub touched : List File → Bytes → Bool
touched [] j = false
touched (f ∷ fs) j = bytes_eq f.key j || touched fs j

-- The files have the content that was read before.
abbrev pub Loaded : Disk → List File → Type 0
Loaded disk files = All (λ f. disk f.key ≡ some f.before) files

-- What differs from the disk before is a file that was attempted.
abbrev OnlyTouched : List File → Disk → Disk → Type 0
OnlyTouched fs old new = (j : Bytes) → (touched fs j ≡ true) ⊎ (new j ≡ old j)

is_content-eq : (o : Option Bytes) (c : Bytes) → is_content o c ≡ true → o ≡ some c
is_content-eq none c h = cc
is_content-eq (some d) c h = ap some (eq_of_bytes_eq d c h)

-- A write that succeeds leaves the content; no write changes another file.
pub record IsWrite (atomic_write : ℕ → Bytes → Bytes → Disk → Bool × Disk) : Type 0 where
  pub writes :
      (n : ℕ) (k c : Bytes) (d : Disk)
      → (atomic_write n k c d).0 ≡ true
      → (atomic_write n k c d).1 k ≡ some c
  pub only :
      (n : ℕ) (k c : Bytes) (d : Disk) (j : Bytes)
      → bytes_eq k j ≡ false
      → (atomic_write n k c d).1 j ≡ d j

module _ (atomic_write : ℕ → Bytes → Bytes → Disk → Bool × Disk) (w : IsWrite atomic_write) where
  restore-writes :
      (n : ℕ) (f : File) (d : Disk)
      → (restore atomic_write n f d).0 ≡ true
      → (restore atomic_write n f d).1 f.key ≡ some f.before
  unfolding restore
  restore-writes n f d h = elim (Bool-cases (is_content (d f.key) f.before)) [
    | inl e ↦ rw (e, restore) (is_content-eq (d f.key) f.before e)
    | inr e ↦ rw (e, restore) (w.writes n f.key f.before d (rw (e, restore) at h))
  ]

  restore-only :
      (n : ℕ) (f : File) (d : Disk) (j : Bytes)
      → bytes_eq f.key j ≡ false
      → (restore atomic_write n f d).1 j ≡ d j
  unfolding restore
  restore-only n f d j h = elim (Bool-cases (is_content (d f.key) f.before)) [
    | inl e ↦ rw (e, restore) refl
    | inr e ↦ rw (e, restore) (w.only n f.key f.before d j h)
  ]

  OnlyTouched-restore :
      (old : Disk) (n : ℕ) (f : File) (fs : List File) (d : Disk)
      → old f.key ≡ some f.before
      → (restore atomic_write n f d).0 ≡ true
      → OnlyTouched (f ∷ fs) old d
      → OnlyTouched fs old (restore atomic_write n f d).1
  OnlyTouched-restore old n f fs d l h o j = elim (Bool-cases (bytes_eq f.key j)) [
    | inl e ↦ inr (
        subst (λ k. (restore atomic_write n f d).1 k ≡ old k) (eq_of_bytes_eq f.key j e)
          (restore-writes n f d h ∙ sym l))
    | inr e ↦ elim (o j) [ inl t ↦ inl (ground arith) | inr q ↦ inr (restore-only n f d j e ∙ q) ]
  ]

  add_failure-nil :
      (f : File) (b : Bool) (fs : List Bytes)
      → add_failure atomic_write f b fs ≡ []
      → (b ≡ true) × (fs ≡ [])
  add_failure-nil f true fs h = (refl, h)
  add_failure-nil f false fs h = cc

  rollback-restores :
      (old : Disk) (n : ℕ) (fs : List File) (d : Disk)
      → Loaded old fs
      → OnlyTouched fs old d
      → (rollback atomic_write n fs d).0 ≡ []
      → (j : Bytes) → (rollback atomic_write n fs d).1 j ≡ old j
  unfolding rollback
  rollback-restores old n [] d l o h j = elim (o j) [ inl t ↦ cc | inr q ↦ q ]
  rollback-restores old n (f ∷ fs) d l o h j =
      let (b, e) = add_failure-nil f (restore atomic_write n f d).0 _ h in
      rollback-restores old (n + 1) fs (restore atomic_write n f d).1 l.1
        (OnlyTouched-restore old n f fs d l.0 b o) e j

  OnlyTouched-write :
      (old : Disk) (n : ℕ) (f : File) (fs : List File) (c : Bytes) (d : Disk)
      → OnlyTouched fs old d
      → OnlyTouched (f ∷ fs) old (atomic_write n f.key c d).1
  OnlyTouched-write old n f fs c d o j = elim (Bool-cases (bytes_eq f.key j)) [
    | inl e ↦ inl (ground arith)
    | inr e ↦ elim (o j) [ inl t ↦ inl (ground arith) | inr q ↦ inr (w.only n f.key c d j e ∙ q) ]
  ]

  failed-restored :
      (x : ℕ) (p : List Bytes × Disk) {i : ℕ}
      → (failed atomic_write x p).0 ≡ restored i
      → (p.0 ≡ []) × ((failed atomic_write x p).1 ≡ p.1)
  failed-restored x ([], d) h = (refl, refl)
  failed-restored x (f ∷ fs, d) h = cc

  module _ (n : ℕ) (att : List File) (f : File) (fs : List File) (d : Disk) where
    write_files_same :
        bytes_eq f.before f.after ≡ true
        → write_files atomic_write n att (f ∷ fs) d ≡ write_files atomic_write n att fs d
    unfolding write_files
    write_files_same e = rw e refl

    write_files_written :
        bytes_eq f.before f.after ≡ false
        → (atomic_write n f.key f.after d).0 ≡ true
        → write_files atomic_write n att (f ∷ fs) d
          ≡ write_files atomic_write (n + 1) (f ∷ att) fs (atomic_write n f.key f.after d).1
    unfolding write_files
    write_files_written e h = rw (e, h) refl

    write_files-failed :
        bytes_eq f.before f.after ≡ false
        → (atomic_write n f.key f.after d).0 ≡ false
        → write_files atomic_write n att (f ∷ fs) d
          ≡ failed atomic_write f.first_edit
              (rollback atomic_write (n + 1) (f ∷ att) (atomic_write n f.key f.after d).1)
    unfolding write_files
    write_files-failed e h = rw (e, h) refl

  write_files-restores :
      (old : Disk) (n : ℕ) (att files : List File) (d : Disk) {i : ℕ}
      → Loaded old att
      → Loaded old files
      → OnlyTouched att old d
      → (write_files atomic_write n att files d).0 ≡ restored i
      → (j : Bytes) → (write_files atomic_write n att files d).1 j ≡ old j
  write_files-restores old n att [] d l k o h j = unfold write_files in cc
  write_files-restores old n att (f ∷ fs) d {i} l k o h j =
      elim (Bool-cases (bytes_eq f.before f.after)) [
        | inl e ↦
            let q = write_files_same n att f fs d e in
            ap (λ t. t.1 j) q
            ∙ write_files-restores old n att fs d l k.1 o (sym (ap (λ t. t.0) q) ∙ h) j
        | inr e ↦ elim (Bool-cases (atomic_write n f.key f.after d).0) [
          | inl b ↦
              let q = write_files_written n att f fs d e b in
              ap (λ t. t.1 j) q
              ∙ write_files-restores old (n + 1) (f ∷ att) fs _ (k.0, l) k.1
                  (OnlyTouched-write old n f att f.after d o) (sym (ap (λ t. t.0) q) ∙ h) j
          | inr b ↦
              let q = write_files-failed n att f fs d e b in
              let (none_failed, same) =
                failed-restored f.first_edit _ (sym (ap (λ t. t.0) q) ∙ h) in
              ap (λ t. t.1 j) q
              ∙ ap (λ t. t j) same
              ∙ rollback-restores old (n + 1) (f ∷ att) _ (k.0, l)
                  (OnlyTouched-write old n f att f.after d o) none_failed j
        ]
      ]

  -- A commit that fails and reports all contents as restored leaves every file as it was before the
  -- transaction, whatever write failed and whatever a failed write left of its file: where the files
  -- have the contents that were read, a write that succeeds leaves its content, and no write changes
  -- another file.
  pub write_files-restored :
      (files : List File) (disk : Disk) (first_edit : ℕ)
      → Loaded disk files
      → (write_files atomic_write 0 [] files disk).0 ≡ restored first_edit
      → (key : Bytes) → (write_files atomic_write 0 [] files disk).1 key ≡ disk key
  write_files-restored files disk first_edit l h key =
      write_files-restores disk 0 [] files disk tt l (λ j. inr refl) h key
