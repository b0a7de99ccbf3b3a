-- ===== src/History/Undo.antt =====
-- What `pop` gives back after `push`, and the budget that the eviction keeps.
use octofs.Prelude.{
  ℕ, ◌+◌, ◌≤◌, ◌<◌, ◌≡◌, refl, sym, ap, ◌∙◌, true, false, inl, inr, Option, none, some, List, [],
  ◌∷◌, ◌++◌, arith, ltb, Bool-cases, length,
}
use octofs.Text.{Bytes, bytes_eq}
use octofs.Text.Equality.{bytes_eq_refl}
use octofs.Maps.{Map, lookup, insert, lookup-insert, lookup-remove}
use octofs.History.{
  Snapshot, size, HistoryStore, Holdings, holdings, evict_history, evict_oldest, evict,
  append_capped, push, pop_last, pop, empty,
}
use octofs.History.Budget.{count, kept, IsConsistent, count-append, lookup-same, appended, old}

pop_last-append : (h : List Snapshot) (x : Snapshot) → pop_last (h ++ x ∷ []) ≡ some (h, x)
pop_last-append [] x = refl
pop_last-append (y ∷ h) x = rw (pop_last-append h x)

-- The order names the file at its end.
abbrev EndsWith : Bytes → List Bytes → Type 0
EndsWith key [] = ⊥
EndsWith key (k ∷ []) = bytes_eq k key ≡ true
EndsWith key (k ∷ j ∷ ks) = EndsWith key (j ∷ ks)

count-pos : (key : Bytes) (ks : List Bytes) → EndsWith key ks → 1 ≤ count key ks
count-pos key [] h = absurd h
count-pos key (k ∷ []) h = ground arith
count-pos key (k ∷ j ∷ ks) h = omega (arith, count-pos key (j ∷ ks) h)

EndsWith-append : (key : Bytes) (ks : List Bytes) → EndsWith key (ks ++ key ∷ [])
EndsWith-append key [] = bytes_eq_refl key
EndsWith-append key (k ∷ []) = bytes_eq_refl key
EndsWith-append key (k ∷ j ∷ ks) = EndsWith-append key (j ∷ ks)

-- The latest snapshot of the file is `content`, and every entry of the order for it has its snapshot.
record Latest (key : Bytes) (content : Snapshot) (files : Map (List Snapshot)) (order : List Bytes)
    : Type 0 where
  front : List Snapshot
  latest : lookup key files ≡ some (front ++ content ∷ [])
  no_stale : count key order ≤ length front + 1
  ends : EndsWith key order

module _ (key : Bytes) (content : Snapshot) where
  evict_same :
      (k j : Bytes) (order : List Bytes) (h : Holdings) (front : List Snapshot)
      → bytes_eq k key ≡ true
      → count key (k ∷ j ∷ order) ≤ length front + 1
      → EndsWith key (j ∷ order)
      → Latest key content (evict_history k h (some (front ++ content ∷ []))).files (j ∷ order)
  evict_same k j order h [] q n e = absurd (ground (arith, count-pos key (j ∷ order) e))
  evict_same k j order h (f ∷ []) q n e = record {
    front = [];
    latest = rw (lookup-insert k key (content ∷ []) h.files, q);
    no_stale = ground arith;
    ends = e;
  }
  evict_same k j order h (f ∷ g ∷ front) q n e = record {
    front = g ∷ front;
    latest = rw (lookup-insert k key (g ∷ (front ++ content ∷ [])) h.files, q);
    no_stale = ground arith;
    ends = e;
  }

  evict_other :
      (k j : Bytes) (order : List Bytes) (h : Holdings) (o : Option (List Snapshot))
      → bytes_eq k key ≡ false
      → Latest key content h.files (k ∷ j ∷ order)
      → lookup key (evict_history k h o).files ≡ lookup key h.files
      → Latest key content (evict_history k h o).files (j ∷ order)
  evict_other k j order h o q l same = record {
    front = l.front;
    latest = same ∙ l.latest;
    no_stale = ground arith;
    ends = l.ends;
  }

  lookup-evict_other :
      (k : Bytes) (h : Holdings) (o : Option (List Snapshot))
      → bytes_eq k key ≡ false
      → lookup key (evict_history k h o).files ≡ lookup key h.files
  lookup-evict_other k h none q = refl
  lookup-evict_other k h (some []) q = rw (lookup-remove k key h.files, q)
  lookup-evict_other k h (some (x ∷ [])) q = rw (lookup-remove k key h.files, q)
  lookup-evict_other k h (some (x ∷ y ∷ r)) q = rw (lookup-insert k key (y ∷ r) h.files, q)

  evict_oldest-Latest :
      (k j : Bytes) (order : List Bytes) (h : Holdings)
      → Latest key content h.files (k ∷ j ∷ order)
      → Latest key content (evict_oldest k h).files (j ∷ order)
  unfolding evict_oldest
  evict_oldest-Latest k j order h l = elim (Bool-cases (bytes_eq k key)) [
    | inl q ↦
        rw (sym (lookup-same k key h.files q) ∙ l.latest)
          (evict_same k j order h l.front q l.no_stale l.ends)
    | inr q ↦
        evict_other k j order h (lookup k h.files) q l (lookup-evict_other k h (lookup k h.files) q)
  ]

  evict-Latest :
      (cap : ℕ) (order : List Bytes) (h : Holdings)
      → Latest key content h.files order
      → Latest key content (evict cap order h).files (evict cap order h).order
  unfolding evict
  evict-Latest cap [] h l = l
  evict-Latest cap (k ∷ []) h l = l
  evict-Latest cap (k ∷ j ∷ order) h l = elim (Bool-cases (ltb cap h.total_bytes)) [
    | inl e ↦
        rw e (evict-Latest cap (j ∷ order) (evict_oldest k h) (evict_oldest-Latest k j order h l))
    | inr e ↦ rw e l
  ]

  pop-Latest :
      (s : HistoryStore) → Latest key content s.files s.order → (pop s key).1 ≡ some content
  unfolding pop
  pop-Latest s l = rw (l.latest, pop) (rw (pop_last-append l.front content))

append_capped-few :
    (h : List Snapshot) (x : Snapshot) (bytes : ℕ)
    → length h < 10
    → (append_capped h x bytes).0 ≡ h ++ x ∷ []
append_capped-few [] x bytes le = refl
append_capped-few (o ∷ h) x bytes le = ground arith

bytes_eq_one : (key : Bytes) → count key (key ∷ []) ≡ 1
bytes_eq_one key = rw (bytes_eq_refl key) (omega arith)

-- A snapshot that is saved is the one that the next undo of the file gets back, whatever the eviction
-- drops: for a file with less than ten snapshots whose every entry in the order has its snapshot.
pub pop-push :
    (s : HistoryStore) (key : Bytes) (content : Snapshot) (cap : ℕ)
    → IsConsistent s
    → kept key s.files < 10
    → count key s.order ≤ kept key s.files
    → (pop (push s key content cap) key).1 ≡ some content
unfolding push
pop-push s key content cap c few fresh = pop-Latest key content _ (
    evict-Latest key content cap (s.order ++ key ∷ [])
      (holdings (insert key (appended s c key content).0 s.files) (appended s c key content).1)
      (record {
        front = old s c key content;
        latest =
            rw (lookup-insert key key (appended s c key content).0 s.files, bytes_eq_refl key)
              (ap some (append_capped-few (old s c key content) content _ few));
        no_stale = omega (arith, count-append key s.order key, bytes_eq_one key);
        ends = EndsWith-append key s.order;
      }))

-- From the empty store, after a snapshot of a file is saved and undone, the next snapshot of the same
-- file is dropped as soon as it is saved where it is above the budget: the undo of it finds nothing.
pub pop-push_stale :
    (key : Bytes) (first second : Snapshot) (cap : ℕ)
    → cap < size second
    → (pop (push (pop (push empty key first cap) key).0 key second cap) key).1 ≡ none
unfolding push pop
pop-push_stale key first second cap h = ground (arith, bytes_eq_refl key)
