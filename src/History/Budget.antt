-- ===== src/History/Budget.antt =====
-- The bytes and the histories that the store keeps account of.
use octofs.Prelude.{
  ℕ, ◌+◌, ◌≤◌, ◌<◌, ◌≡◌, refl, sym, ap, true, inl, inr, Option, none, some, List, [], ◌∷◌, ◌++◌,
  arith, ltb, if◌then◌else◌, Bool-cases, length, length-append,
}
use octofs.Text.{Bytes, bytes_eq}
use octofs.Text.Equality.{eq_of_bytes_eq, bytes_eq_refl}
use octofs.Maps.{
  of_option, Map, lookup, insert, lookup-insert, lookup-remove, Unique, Unique-insert,
  Unique-remove, total, total-insert, total-remove, AllValues, AllValues-insert, AllValues-remove,
  AllValues-lookup,
}
use octofs.History.{
  Snapshot, size, HistoryStore, Holdings, holdings, evict_history, evict_oldest, evict, history_of,
  append_capped, push,
}

-- The bytes of a history.
abbrev pub sizes : List Snapshot → ℕ
sizes [] = 0
sizes (x ∷ xs) = size x + sizes xs

-- How often the order names a file.
abbrev pub count : Bytes → List Bytes → ℕ
count k [] = 0
count k (j ∷ js) = (if bytes_eq j k then 1 else 0) + count k js

abbrev pub kept : Bytes → Map (List Snapshot) → ℕ
kept k files = length (history_of (lookup k files))

abbrev pub IsHistory : List Snapshot → Type 0
IsHistory h = (0 < length h) × (length h ≤ 10)

-- The account of the store: `total_bytes` is the bytes held, no file has an empty history or one of
-- more than ten snapshots, and the order names a file at least as often as it has snapshots.
pub record Consistent (files : Map (List Snapshot)) (order : List Bytes) (bytes : ℕ) : Type 0 where
  pub unique : Unique files
  pub counted : bytes ≡ total sizes files
  pub histories : AllValues IsHistory files
  pub recorded : (k : Bytes) → kept k files ≤ count k order

abbrev pub IsConsistent : HistoryStore → Type 0
IsConsistent s = Consistent s.files s.order s.total_bytes

pub lookup-same :
    (k j : Bytes) (files : Map (List Snapshot))
    → bytes_eq k j ≡ true
    → lookup j files ≡ lookup k files
lookup-same k j files h = ap (λ x. lookup x files) (sym (eq_of_bytes_eq k j h))

module _ (k : Bytes) (h : Holdings) (order : List Bytes)
    (c : Consistent h.files (k ∷ order) h.total_bytes) where
  pub evict_history-Consistent :
      (o : Option (List Snapshot))
      → lookup k h.files ≡ o
      → Consistent (evict_history k h o).files order (evict_history k h o).total_bytes
  evict_history-Consistent none e = record {
    unique = c.unique;
    counted = c.counted;
    histories = c.histories;
    recorded = λ j. ground (arith, c.recorded j, lookup-same k j h.files);
  }
  evict_history-Consistent (some []) e =
      absurd (omega (arith, (AllValues-lookup IsHistory k h.files c.histories e).0))
  evict_history-Consistent (some (x ∷ [])) e = record {
    unique = Unique-remove k h.files c.unique;
    counted = omega (arith, c.counted, rw e at (total-remove sizes k h.files c.unique));
    histories = AllValues-remove IsHistory k h.files c.histories;
    recorded = λ j. rw (lookup-remove k j h.files) (ground (arith, c.recorded j));
  }
  evict_history-Consistent (some (x ∷ y ∷ rest)) e =
      let is = AllValues-lookup IsHistory k h.files c.histories e in
      record {
        unique = Unique-insert k (y ∷ rest) h.files c.unique;
        counted = omega (arith, c.counted, rw e at (total-insert sizes k (y ∷ rest) h.files));
        histories = AllValues-insert IsHistory k (y ∷ rest) h.files (omega arith) c.histories;
        recorded = λ j.
            rw (lookup-insert k j (y ∷ rest) h.files) (
              ground (arith, c.recorded j, c.recorded k, bytes_eq_refl k, lookup-same k j h.files));
      }

evict-Consistent :
    (cap : ℕ) (order : List Bytes) (h : Holdings)
    → Consistent h.files order h.total_bytes
    → IsConsistent (evict cap order h)
unfolding evict
evict-Consistent cap [] h c = c
evict-Consistent cap (k ∷ []) h c = c
evict-Consistent cap (k ∷ j ∷ order) h c = elim (Bool-cases (ltb cap h.total_bytes)) [
  | inl e ↦ rw e (
      evict-Consistent cap (j ∷ order) (evict_oldest k h)
        (unfold evict_oldest in evict_history-Consistent k h (j ∷ order) c (lookup k h.files) refl))
  | inr e ↦ rw e c
]

of_option-sizes : (o : Option (List Snapshot)) → of_option sizes o ≡ sizes (history_of o)
of_option-sizes none = refl
of_option-sizes (some h) = refl

pub sizes-append : (h : List Snapshot) (x : Snapshot) → sizes (h ++ x ∷ []) ≡ sizes h + size x
sizes-append [] x = omega arith
sizes-append (y ∷ h) x = omega (arith, sizes-append h x)

pub count-append :
    (k : Bytes) (js : List Bytes) (j : Bytes)
    → count k (js ++ j ∷ []) ≡ count k js + count k (j ∷ [])
count-append k [] j = omega arith
count-append k (i ∷ js) j = omega (arith, count-append k js j)

-- What `append_capped` makes of a history of at most ten snapshots.
record Appended (h : List Snapshot) (x : Snapshot) (bytes : ℕ) (r : List Snapshot × ℕ)
    : Type 0 where
  is_history : IsHistory r.0
  at_most_one : length r.0 ≤ length h + 1
  counted : r.1 + sizes h ≡ bytes + sizes r.0

append_capped-Appended :
    (h : List Snapshot) (x : Snapshot) (bytes : ℕ)
    → length h ≤ 10
    → sizes h ≤ bytes
    → Appended h x bytes (append_capped h x (bytes + size x))
append_capped-Appended [] x bytes le s = record {
  is_history = omega arith;
  at_most_one = omega arith;
  counted = omega arith;
}
append_capped-Appended (o ∷ h) x bytes le s =
    let len = length-append h (x ∷ []) in
    let siz = sizes-append h x in
    record { is_history = ground arith; at_most_one = ground arith; counted = ground arith }

kept-le :
    (o : Option (List Snapshot)) (k : Bytes) (files : Map (List Snapshot))
    → AllValues IsHistory files
    → lookup k files ≡ o
    → length (history_of o) ≤ 10
kept-le none k files a e = omega arith
kept-le (some h) k files a e = (AllValues-lookup IsHistory k files a e).1

module _ (s : HistoryStore) (c : IsConsistent s) (key : Bytes) (content : Snapshot) where
  abbrev pub old : List Snapshot
  old = history_of (lookup key s.files)

  abbrev pub appended : List Snapshot × ℕ
  appended = append_capped old content (s.total_bytes + size content)

  old-le : sizes old ≤ s.total_bytes
  old-le =
      omega
        (arith, c.counted, total-insert sizes key [] s.files, of_option-sizes (lookup key s.files))

  is_appended : Appended old content s.total_bytes appended
  is_appended =
      append_capped-Appended old content s.total_bytes
        (kept-le (lookup key s.files) key s.files c.histories refl) old-le

  pub pushed-Consistent :
      Consistent (insert key appended.0 s.files) (s.order ++ key ∷ []) appended.1
  pushed-Consistent = record {
    unique = Unique-insert key appended.0 s.files c.unique;
    counted = omega (
      arith,
      c.counted,
      is_appended.counted,
      total-insert sizes key appended.0 s.files,
      of_option-sizes (lookup key s.files),
    );
    histories =
        AllValues-insert IsHistory key appended.0 s.files is_appended.is_history c.histories;
    recorded = λ j.
        rw (lookup-insert key j appended.0 s.files, count-append j s.order key)
          (elim (Bool-cases (bytes_eq key j)) [
            | inl e ↦ rw e (
                omega (
                  arith,
                  is_appended.at_most_one,
                  c.recorded j,
                  ap (λ o. length (history_of o)) (lookup-same key j s.files e),
                ))
            | inr e ↦ rw e (omega (arith, c.recorded j))
          ]);
  }

  -- Saving a snapshot keeps the account: the bytes counted are the bytes held, no file has an empty
  -- history or more than ten snapshots, and the order names each file often enough.
  pub push-IsConsistent : (cap : ℕ) → IsConsistent (push s key content cap)
  unfolding push
  push-IsConsistent cap =
      evict-Consistent cap (s.order ++ key ∷ [])
        (holdings (insert key appended.0 s.files) appended.1) pushed-Consistent
