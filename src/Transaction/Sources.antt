-- ===== src/Transaction/Sources.antt =====
-- The files that a transaction reads stand under different keys.
use octofs.Prelude.{
  subst_ok, bound, ok, ℕ, ◌+◌, ◌≡◌, refl, ap, ap₂, ◌∙◌, false, ◌||◌, inl, inr, Option, none, some,
  List, [], ◌∷◌, Bool-cases, All, arith,
}
use octofs.Text.{Bytes, bytes_eq}
use octofs.Maps.{bytes_eq-sym}
use octofs.MultiEdit.{Disk, File}
use octofs.MultiEdit.Rollback.{Loaded, touched}
use octofs.MultiEdit.Commits.{Distinct}
use octofs.StrReplace.{Edit}
use octofs.Transaction.{
  named, insert_in_order, or_insert, sources_of, load_file, load_files, key_lt,
}

-- The sources name each key once.
abbrev pub Once : List (Bytes × ℕ) → Type 0
Once [] = Unit
Once ((k, i) ∷ sources) = (named sources k ≡ false) × Once sources

named-insert_in_order :
    (key : Bytes) (index : ℕ) (sources : List (Bytes × ℕ)) (j : Bytes)
    → bytes_eq key j ≡ false
    → named sources j ≡ false
    → named (insert_in_order key index sources) j ≡ false
unfolding insert_in_order
named-insert_in_order key index [] j h n = ground arith
named-insert_in_order key index ((k, i) ∷ sources) j h n = elim (Bool-cases (key_lt key k)) [
  | inl l ↦ rw l (ground arith)
  | inr l ↦ rw l (ground (arith, named-insert_in_order key index sources j h))
]

Once-insert_in_order :
    (key : Bytes) (index : ℕ) (sources : List (Bytes × ℕ))
    → named sources key ≡ false
    → Once sources
    → Once (insert_in_order key index sources)
unfolding insert_in_order
Once-insert_in_order key index [] n o = (refl, tt)
Once-insert_in_order key index ((k, i) ∷ sources) n o = elim (Bool-cases (key_lt key k)) [
  | inl l ↦ rw l (n, o)
  | inr l ↦ rw l (
    named-insert_in_order key index sources k (bytes_eq-sym k key (ground arith)) o.0,
    Once-insert_in_order key index sources (ground arith) o.1,
  )
]

pub Once-sources_of :
    (index : ℕ) (steps : List (Bytes × Edit)) (sources : List (Bytes × ℕ))
    → Once sources
    → Once (sources_of index steps sources)
unfolding sources_of or_insert
Once-sources_of index [] sources o = o
Once-sources_of index ((key, edit) ∷ steps) sources o = elim (Bool-cases (named sources key)) [
  | inl h ↦ rw h (Once-sources_of (index + 1) steps sources o)
  | inr h ↦ rw h (
      Once-sources_of (index + 1) steps (insert_in_order key index sources)
        (Once-insert_in_order key index sources h o))
]

-- A file as it was read.
pub record AreRead (disk : Disk) (sources : List (Bytes × ℕ)) (files : List File) : Type 0 where
  pub loaded : Loaded disk files
  pub same_keys : (j : Bytes) → touched files j ≡ named sources j
  pub distinct : Distinct files
  pub unedited : All (λ f. f.after ≡ f.before) files

record IsRead (disk : Disk) (key : Bytes) (f : File) : Type 0 where
  same_key : f.key ≡ key
  content : disk f.key ≡ some f.before
  unedited : f.after ≡ f.before

load_file-IsRead :
    (disk : Disk) (key : Bytes) (index : ℕ) (o : Option Bytes) {f : File}
    → disk key ≡ o
    → load_file key index o ≡ ok f
    → IsRead disk key f
load_file-IsRead disk key index none e h = cc
load_file-IsRead disk key index (some before) e h =
    subst_ok (IsRead disk key) h (record { same_key = refl; content = e; unedited = refl })

pub load_files-AreRead :
    (disk : Disk) (sources : List (Bytes × ℕ)) {files : List File}
    → Once sources
    → load_files disk sources ≡ ok files
    → AreRead disk sources files
unfolding load_files
load_files-AreRead disk [] o h =
    subst_ok (AreRead disk []) h
      (record { loaded = tt; same_keys = λ j. refl; distinct = tt; unedited = tt })
load_files-AreRead disk ((key, index) ∷ sources) {files} o h =
    let (f, p, h1) = bound (load_file key index (disk key)) _ h in
    let (fs, q, h2) = bound (load_files disk sources) _ h1 in
    let r = load_file-IsRead disk key index (disk key) refl p in
    let rest = load_files-AreRead disk sources o.1 q in
    subst_ok (AreRead disk ((key, index) ∷ sources)) h2 (record {
      loaded = (r.content, rest.loaded);
      same_keys = λ j. ap₂ (λ k t. bytes_eq k j || t) r.same_key (rest.same_keys j);
      distinct = (rest.same_keys f.key ∙ ap (named sources) r.same_key ∙ o.0, rest.distinct);
      unedited = (r.unedited, rest.unedited);
    })
