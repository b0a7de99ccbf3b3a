-- ===== src/Text.antt =====
-- The operations of Rust's `str` that the program uses, over the bytes of a text. All of them
-- look for ASCII bytes or for whole texts, so bytes and characters give the same answer.
use octofs.Prelude.{
  ℕ, zero, suc, ◌+◌, ◌-◌, Bool, true, false, not, ◌&&◌, ◌||◌, Option, none, some, List, [], ◌∷◌,
  ◌++◌, map, ◌==◌, ltb, leb, if◌then◌else◌, length, take, drop,
}
pub mod Splits
pub mod Ends
pub mod Equality

abbrev pub Bytes : Type 0
Bytes = List ℕ

abbrev pub lf : ℕ
lf = b'\n'

abbrev pub cr : ℕ
cr = b'\r'

-- `a == b`
unfoldable pub bytes_eq : Bytes → Bytes → Bool
bytes_eq [] [] = true
bytes_eq [] (y ∷ ys) = false
bytes_eq (x ∷ xs) [] = false
bytes_eq (x ∷ xs) (y ∷ ys) = x == y && bytes_eq xs ys

abbrev pub is_empty {ℓ} : {A : Type ℓ} → List A → Bool
is_empty [] = true
is_empty (x ∷ xs) = false

-- `s.starts_with(p)`
unfoldable pub starts_with : Bytes → Bytes → Bool
starts_with [] s = true
starts_with (p ∷ ps) [] = false
starts_with (p ∷ ps) (c ∷ cs) = p == c && starts_with ps cs

-- `s.ends_with('\n')`, and for any other byte
unfoldable pub ends_with : ℕ → Bytes → Bool
ends_with b [] = false
ends_with b (c ∷ []) = c == b
ends_with b (c ∷ d ∷ cs) = ends_with b (d ∷ cs)

abbrev pub cons_some : ℕ → Option Bytes → Option Bytes
cons_some c none = none
cons_some c (some s) = some (c ∷ s)

-- `s.strip_suffix(suffix)`
unfoldable pub strip_suffix : Bytes → Bytes → Option Bytes
unfolding bytes_eq
strip_suffix suffix [] = if bytes_eq [] suffix then some [] else none
strip_suffix suffix (c ∷ cs) =
    if bytes_eq (c ∷ cs) suffix then some [] else cons_some c (strip_suffix suffix cs)

abbrev pub push_first : ℕ → List Bytes → List Bytes
push_first c [] = (c ∷ []) ∷ []
push_first c (p ∷ ps) = (c ∷ p) ∷ ps

-- `s.split_inclusive('\n')`: no piece for what follows a final newline
unfoldable pub split_inclusive : ℕ → Bytes → List Bytes
split_inclusive b [] = []
split_inclusive b (c ∷ cs) =
    let rest = split_inclusive b cs in if c == b then (c ∷ []) ∷ rest else push_first c rest

-- `s.split('\n')`: always one piece more than there are separators
unfoldable pub split : ℕ → Bytes → List Bytes
split b [] = [] ∷ []
split b (c ∷ cs) = let rest = split b cs in if c == b then [] ∷ rest else push_first c rest

abbrev strip_line : Bytes → Bytes
strip_line piece = elim (strip_suffix (lf ∷ []) piece) [
  | none ↦ piece
  | some line ↦ elim (strip_suffix (cr ∷ []) line) [ none ↦ line | some bare ↦ bare ]
]

-- `s.lines()`
unfoldable pub lines : Bytes → List Bytes
unfolding split_inclusive strip_suffix
lines s = map strip_line (split_inclusive lf s)

-- `pieces.join(separator)`
unfoldable pub join : Bytes → List Bytes → Bytes
join sep [] = []
join sep (p ∷ []) = p
join sep (p ∷ q ∷ ps) = p ++ (sep ++ join sep (q ∷ ps))

-- `s.trim_end_matches(b)`
unfoldable pub trim_end_matches : ℕ → Bytes → Bytes
trim_end_matches b [] = []
trim_end_matches b (c ∷ cs) =
    let rest = trim_end_matches b cs in if is_empty rest && c == b then [] else c ∷ rest

-- `s[start..end]`
abbrev pub slice : ℕ → ℕ → Bytes → Bytes
slice start end s = take (end - start) (drop start s)

-- `s.replace(old, new)` for an `old` that is not empty: `skip` bytes of the last match are left.
unfoldable pub replace_from : Bytes → Bytes → ℕ → Bytes → Bytes
replace_from old new skip [] = []
replace_from old new (suc skip) (c ∷ cs) = replace_from old new skip cs
replace_from old new zero (c ∷ cs) = elim (starts_with old (c ∷ cs)) [
  | true ↦ new ++ replace_from old new (length old - 1) cs
  | false ↦ c ∷ replace_from old new zero cs
]

abbrev pub replace : Bytes → Bytes → Bytes → Bytes
replace old new s = replace_from old new zero s

-- `s.match_indices(old)` for an `old` that is not empty: the offsets of the matches
unfoldable pub match_indices_from : Bytes → ℕ → ℕ → Bytes → List ℕ
match_indices_from old at skip [] = []
match_indices_from old at (suc skip) (c ∷ cs) = match_indices_from old (at + 1) skip cs
match_indices_from old at zero (c ∷ cs) = elim (starts_with old (c ∷ cs)) [
  | true ↦ at ∷ match_indices_from old (at + 1) (length old - 1) cs
  | false ↦ match_indices_from old (at + 1) zero cs
]

abbrev pub match_indices : Bytes → Bytes → List ℕ
match_indices old s = match_indices_from old 0 zero s

-- `s.find(old)`
unfoldable pub find_from : Bytes → ℕ → Bytes → Option ℕ
unfolding starts_with
find_from old at [] = if starts_with old [] then some at else none
find_from old at (c ∷ cs) =
    let rest = find_from old (at + 1) cs in if starts_with old (c ∷ cs) then some at else rest

abbrev pub find : Bytes → Bytes → Option ℕ
find old s = find_from old 0 s
