-- ===== src/MultiEdit/Commits.antt =====
-- A commit that succeeds has written every file.
use octofs.Prelude.{
  ℕ, ◌+◌, ◌≡◌, refl, ap, ◌∙◌, Bool, false, inl, inr, some, List, [], ◌∷◌, Bool-cases, All, arith,
}
use octofs.Text.{Bytes, bytes_eq}
use octofs.Text.Equality.{eq_of_bytes_eq}
use octofs.Maps.{bytes_eq-sym}
use octofs.MultiEdit.{Disk, File, committed, failed, rollback, write_files}
use octofs.MultiEdit.Rollback.{IsWrite, Loaded, touched}

-- No key stands twice.
abbrev pub Distinct : List File → Type 0
Distinct [] = Unit
Distinct (f ∷ fs) = (touched fs f.key ≡ false) × Distinct fs

pub record Committed (files : List File) (before after : Disk) : Type 0 where
  pub written : All (λ f. after f.key ≡ some f.after) files
  pub others : (j : Bytes) → touched files j ≡ false → after j ≡ before j

module _ (atomic_write : ℕ → Bytes → Bytes → Disk → Bool × Disk) (w : IsWrite atomic_write) where
  not_committed :
      (first_edit : ℕ) (r : List Bytes × Disk)
      → (failed atomic_write first_edit r).0 ≡ committed
      → ⊥
  not_committed first_edit ([], disk) h = cc
  not_committed first_edit (k ∷ ks, disk) h = cc

  Loaded-write :
      (fs : List File) (n : ℕ) (key content : Bytes) (disk : Disk)
      → touched fs key ≡ false
      → Loaded disk fs
      → Loaded (atomic_write n key content disk).1 fs
  Loaded-write [] n key content disk t l = tt
  Loaded-write (f ∷ fs) n key content disk t l = (
    w.only n key content disk f.key (bytes_eq-sym f.key key (ground arith)) ∙ l.0,
    Loaded-write fs n key content disk (ground arith) l.1,
  )

  Committed-cons :
      (f : File) (fs : List File) (before middle after : Disk)
      → touched fs f.key ≡ false
      → middle f.key ≡ some f.after
      → ((j : Bytes) → bytes_eq f.key j ≡ false → middle j ≡ before j)
      → Committed fs middle after
      → Committed (f ∷ fs) before after
  Committed-cons f fs before middle after t m o c = record {
    written = (c.others f.key t ∙ m, c.written);
    others = λ j h. c.others j (ground arith) ∙ o j (ground arith);
  }

  -- With files that have the content that was read, under different keys: a commit that says it
  -- succeeded left each with its new content, and no other file changed.
  pub write_files-Committed :
      (call : ℕ) (attempted files : List File) (disk : Disk)
      → Loaded disk files
      → Distinct files
      → (write_files atomic_write call attempted files disk).0 ≡ committed
      → Committed files disk (write_files atomic_write call attempted files disk).1
  unfolding write_files
  write_files-Committed call attempted [] disk l d h = record { written = tt; others = λ j t. refl }
  write_files-Committed call attempted (f ∷ fs) disk l d h =
      let written = atomic_write call f.key f.after disk in
      elim (Bool-cases (bytes_eq f.before f.after)) [
        | inl e ↦ rw e (
            Committed-cons f fs disk disk _ d.0 (l.0 ∙ ap some (eq_of_bytes_eq f.before f.after e))
              (λ j k. refl) (write_files-Committed call attempted fs disk l.1 d.1 (rw e at h)))
        | inr e ↦ elim (Bool-cases written.0) [
          | inl k ↦
              rw (e, k)
                (Committed-cons f fs disk written.1 _ d.0 (w.writes call f.key f.after disk k)
                  (w.only call f.key f.after disk)
                  (write_files-Committed (call + 1) (f ∷ attempted) fs written.1
                    (Loaded-write fs call f.key f.after disk d.0 l.1) d.1 (rw (e, k) at h)))
          | inr k ↦ absurd (
              not_committed f.first_edit
                (rollback atomic_write (call + 1) (f ∷ attempted) written.1) (rw (e, k) at h))
        ]
      ]
