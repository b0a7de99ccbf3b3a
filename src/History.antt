-- ===== src/History.antt =====
-- `HistoryStore` of src/mcp/fs/core.rs: the snapshots behind `undo_edit`, at most ten of each file
-- and within a budget of bytes over all files.
use octofs.Prelude.{
  ℕ, ◌+◌, ◌-◌, Bool, true, false, Option, none, some, List, [], ◌∷◌, ◌++◌, ltb, leb, if◌then◌else◌,
  length,
}
use octofs.Text.{Bytes, bytes_eq, is_empty}
use octofs.Maps.{Map, lookup, insert, remove}
pub mod Budget
pub mod Undo
pub mod Bounds

abbrev pub max_history_per_file : ℕ
max_history_per_file = 10

abbrev pub max_history_total_bytes : ℕ
max_history_total_bytes = 67108864

-- The content before an edit, or `none` where the file did not exist.
abbrev pub Snapshot : Type 0
Snapshot = Option Bytes

abbrev pub size : Snapshot → ℕ
size none = 0
size (some content) = length content

pub record HistoryStore : Type 0 where
  pub files : Map (List Snapshot)
  -- one entry for each push, the oldest first
  pub order : List Bytes
  pub total_bytes : ℕ

abbrev pub empty : HistoryStore
empty = record { files = []; order = []; total_bytes = 0 }

-- the files and the bytes, without the order
pub record Holdings : Type 0 where
  pub files : Map (List Snapshot)
  pub total_bytes : ℕ

abbrev pub holdings : Map (List Snapshot) → ℕ → Holdings
holdings fs n = record { files = fs; total_bytes = n }

-- The body of the eviction loop for the oldest entry's file and its history.
abbrev pub evict_history : Bytes → Holdings → Option (List Snapshot) → Holdings
evict_history oldest h none = h
evict_history oldest h (some []) = holdings (remove oldest h.files) h.total_bytes
evict_history oldest h (some (removed ∷ [])) =
    holdings (remove oldest h.files) (h.total_bytes - size removed)
evict_history oldest h (some (removed ∷ next ∷ rest)) =
    holdings (insert oldest (next ∷ rest) h.files) (h.total_bytes - size removed)

unfoldable pub evict_oldest : Bytes → Holdings → Holdings
unfolding lookup insert remove
evict_oldest oldest h = evict_history oldest h (lookup oldest h.files)

-- `while self.total_bytes > byte_cap && self.order.len() > 1`
unfoldable pub evict : ℕ → List Bytes → Holdings → HistoryStore
unfolding evict_oldest
evict byte_cap [] h = record { files = h.files; order = []; total_bytes = h.total_bytes }
evict byte_cap (last ∷ []) h = record {
  files = h.files;
  order = last ∷ [];
  total_bytes = h.total_bytes;
}
evict byte_cap (oldest ∷ next ∷ order) h =
    let rest = evict byte_cap (next ∷ order) (evict_oldest oldest h) in
    if ltb byte_cap h.total_bytes
    then rest
    else record { files = h.files; order = oldest ∷ next ∷ order; total_bytes = h.total_bytes }

-- `entry(key).or_default()`
abbrev pub history_of : Option (List Snapshot) → List Snapshot
history_of none = []
history_of (some history) = history

-- The new history and the bytes, where a full history loses its oldest snapshot.
abbrev pub append_capped : List Snapshot → Snapshot → ℕ → List Snapshot × ℕ
append_capped [] content total = (content ∷ [], total)
append_capped (oldest ∷ rest) content total =
    if leb max_history_per_file (length (oldest ∷ rest))
    then (rest ++ content ∷ [], total - size oldest)
    else ((oldest ∷ rest) ++ content ∷ [], total)

unfoldable pub push : HistoryStore → Bytes → Snapshot → ℕ → HistoryStore
unfolding evict lookup insert
push s key content byte_cap =
    let (history, total) =
      append_capped (history_of (lookup key s.files)) content (s.total_bytes + size content) in
    evict byte_cap (s.order ++ key ∷ []) (holdings (insert key history s.files) total)

-- `history.pop()`: the last snapshot and those before it
abbrev pub pop_last : List Snapshot → Option (List Snapshot × Snapshot)
pop_last [] = none
pop_last (x ∷ xs) = elim (pop_last xs) [ none ↦ some ([], x) | some (i, l) ↦ some (x ∷ i, l) ]

abbrev pub pop_history :
    HistoryStore → Bytes → Option (List Snapshot × Snapshot) → HistoryStore × Option Snapshot
pop_history s key none = (s, none)
pop_history s key (some (rest, content)) = (
  record s {
    files = if is_empty rest then remove key s.files else insert key rest s.files;
    total_bytes = s.total_bytes - size content;
  },
  some content,
)

unfoldable pub pop : HistoryStore → Bytes → HistoryStore × Option Snapshot
unfolding lookup insert remove
pop s key = elim (lookup key s.files) [
  | none ↦ (s, none)
  | some history ↦ pop_history s key (pop_last history)
]
