-- ===== src/Session/Transactions.antt =====
-- What a transaction that answers has done to the files.
use octofs.Prelude.{
  Result, bound, ok, err, ℕ, ◌≡◌, refl, sym, ap, ◌∙◌, subst, Bool, false, inl, inr, some, List, [],
  ◌∷◌, Bool-cases, All,
}
use octofs.Text.{Bytes, is_empty}
use octofs.MultiEdit.{Disk, File, CommitResult, committed, restored, rollback_failed, write_files}
use octofs.MultiEdit.Rollback.{IsWrite, touched}
use octofs.MultiEdit.Commits.{write_files-Committed}
use octofs.StrReplace.{Edit}
use octofs.Transaction.{
  TransactionError, no_edits, sources_of, named, load_files, stage, staged_files,
}
use octofs.Transaction.Applies.{
  edits_for, apply_edits, AreEdited, stage-AreEdited, Distinct-AreEdited, Loaded-AreEdited,
  touched-AreEdited,
}
use octofs.Transaction.Sources.{AreRead, load_files-AreRead, Once-sources_of}
use octofs.Session.{State, done, execute_edits, answer_staged, finish_commit}

-- The file had a content, has the one that its edits of the call make of it one after the other, and
-- the files that no edit names are as before.
pub record Applied (line_hash : Bytes → Bytes) (steps : List (Bytes × Edit)) (before after : Disk)
    : Type 0 where
  pub files : List File
  pub names : (j : Bytes) → touched files j ≡ named (sources_of 0 steps []) j
  pub read : All (λ f. before f.key ≡ some f.before) files
  pub edited : All (λ f. apply_edits line_hash f.before (edits_for f.key steps) ≡ ok f.after) files
  pub written : All (λ f. after f.key ≡ some f.after) files
  pub others : (j : Bytes) → named (sources_of 0 steps []) j ≡ false → after j ≡ before j

contents :
    (line_hash : Bytes → Bytes) (steps : List (Bytes × Edit)) (fs gs : List File)
    → All (λ f. f.after ≡ f.before) fs
    → AreEdited line_hash steps fs gs
    → All (λ g. apply_edits line_hash g.before (edits_for g.key steps) ≡ ok g.after) gs
contents line_hash steps [] [] u a = tt
contents line_hash steps [] (g ∷ gs) u a = absurd a
contents line_hash steps (f ∷ fs) [] u a = absurd a
contents line_hash steps (f ∷ fs) (g ∷ gs) u a = (
  ap (λ c. apply_edits line_hash c (edits_for g.key steps)) (a.0.before ∙ sym u.0)
      ∙ ap (λ k. apply_edits line_hash f.after (edits_for k steps)) a.0.key
      ∙ a.0.content,
  contents line_hash steps fs gs u.1 a.1,
)

-- A commit behind a staging that read the files.
module _ (atomic_write : ℕ → Bytes → Bytes → Disk → Bool × Disk)
    (remove_file : ℕ → Bytes → Disk → Bool × Disk) (w : IsWrite atomic_write)
    (line_hash : Bytes → Bytes) where
  finished :
      (files : List File) (r : CommitResult × Disk) (s : State)
      → (finish_commit atomic_write remove_file files r s).0 ≡ done
      → (r.0 ≡ committed) × ((finish_commit atomic_write remove_file files r s).1.disk ≡ r.1)
  finished files (committed, disk) s h = (refl, refl)
  finished files (restored index, disk) s h = cc
  finished files (rollback_failed index keys, disk) s h = cc

  Applied-staged :
      (steps : List (Bytes × Edit)) (read files : List File) (call : ℕ) (disk : Disk)
      → AreRead disk (sources_of 0 steps []) read
      → AreEdited line_hash steps read files
      → (write_files atomic_write call [] files disk).0 ≡ committed
      → Applied line_hash steps disk (write_files atomic_write call [] files disk).1
  Applied-staged steps read files call disk r a h =
      let c =
        write_files-Committed atomic_write w call [] files disk
          (Loaded-AreEdited line_hash disk steps read files a r.loaded)
          (Distinct-AreEdited line_hash steps read files a r.distinct) h in
      let names : (j : Bytes) → touched files j ≡ named (sources_of 0 steps []) j =
        λ j. touched-AreEdited line_hash steps read files j a ∙ r.same_keys j in
      record {
        files = files;
        names = names;
        read = Loaded-AreEdited line_hash disk steps read files a r.loaded;
        edited = contents line_hash steps read files r.unedited a;
        written = c.written;
        others = λ j n. c.others j (names j ∙ n);
      }

  Applied-answer :
      (steps : List (Bytes × Edit)) (s : State) (r : Result TransactionError (List File))
      → staged_files line_hash s.disk steps ≡ r
      → (answer_staged atomic_write remove_file r s).0 ≡ done
      → Applied line_hash steps s.disk (answer_staged atomic_write remove_file r s).1.disk
  unfolding staged_files
  Applied-answer steps s (err e) q h = cc
  Applied-answer steps s (ok files) q h = elim (Bool-cases (is_empty steps)) [
    | inl e ↦ let x : err no_edits ≡ ok files = rw e at q in cc
    | inr e ↦
        let (read, p, k) =
          bound (load_files s.disk (sources_of 0 steps [])) (λ fs. stage line_hash 0 steps fs)
            (rw e at q) in
        let r =
          load_files-AreRead s.disk (sources_of 0 steps []) (Once-sources_of 0 steps [] tt) p in
        let a = stage-AreEdited line_hash 0 steps read r.distinct k in
        let f = finished files (write_files atomic_write s.calls [] files s.disk) s h in
        subst (Applied line_hash steps s.disk) (sym f.1)
          (Applied-staged steps read files s.calls s.disk r a f.0)
  ]

  -- When a transaction answers that it is done, each file that an edit names has the content that its
  -- edits make of what it was, one after the other in the order of the call, and no other file changed.
  pub execute_edits-Applied :
      (steps : List (Bytes × Edit)) (s : State)
      → (execute_edits atomic_write remove_file line_hash steps s).0 ≡ done
      → Applied line_hash steps s.disk
          (execute_edits atomic_write remove_file line_hash steps s).1.disk
  unfolding execute_edits
  execute_edits-Applied steps s h =
      Applied-answer steps s (staged_files line_hash s.disk steps) refl h
